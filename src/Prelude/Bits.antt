-- ===== src/Prelude/Bits.antt =====
-- Single bits of a word: `x & (1 << k)` and `x | (1 << k)` for every k.
use Prim.Native.Nat.{ℕ, zero, suc, ◌+◌, ◌*◌, ◌/◌, ◌%◌, ◌^◌, ◌≤◌, ◌<◌, min, max}
use Prim.Native.Nat.{bit_and, bit_or, digits, bitwise, bit_and-bitwise, bit_or-bitwise}
use mathlib.Core.Path.{◌≡◌, refl, ap, sym}
use mathlib.Core.Logic.{◌≢◌, ◌↔◌}
use native.Mathlib.Nat.{pow-suc, le_refl}
use native.Mathlib.Omega.{arith}

-- Bit `k` of `x`.
abbrev pub bit : ℕ → ℕ → ℕ
bit x zero = x % 2
bit x (suc k) = bit (x / 2) k

-- With as much fuel as the first word, more changes nothing.
module _ (rest : ℕ → ℕ) (op : ℕ → ℕ → ℕ) where
  fuel_enough : (x k l y : ℕ) → (x ≤ k) × (x ≤ l) → digits rest op k x y ≡ digits rest op l x y
  fuel_enough zero zero zero y h = refl
  fuel_enough zero zero (suc l) y h = refl
  fuel_enough zero (suc k) zero y h = refl
  fuel_enough zero (suc k) (suc l) y h = refl
  fuel_enough (suc x) zero l y h = absurd (omega (arith, h.0))
  fuel_enough (suc x) (suc k) zero y h = absurd (omega (arith, h.1))
  fuel_enough (suc x) (suc k) (suc l) y h =
      rw (fuel_enough (suc x / 2) k l (y / 2) (omega (arith, h.0), omega (arith, h.1)))

  lowest_digit :
      (x y : ℕ)
      → bitwise rest op (suc x) y ≡ op (suc x % 2) (y % 2) + 2 * bitwise rest op (suc x / 2) (y / 2)
  lowest_digit x y =
      omega (arith, fuel_enough (suc x / 2) x (suc x / 2) (y / 2) (omega arith, le_refl _))

bit_or-halves : (x y : ℕ) → bit_or x y ≡ max (x % 2) (y % 2) + 2 * bit_or (x / 2) (y / 2)
bit_or-halves zero y = simp bit_or-bitwise (omega arith)
bit_or-halves (suc x) y = simp bit_or-bitwise (lowest_digit (λ w. w) max x y)

bit_and-halves : (x y : ℕ) → bit_and x y ≡ min (x % 2) (y % 2) + 2 * bit_and (x / 2) (y / 2)
bit_and-halves zero y = simp bit_and-bitwise (omega arith)
bit_and-halves (suc x) y = simp bit_and-bitwise (lowest_digit (λ w. 0) min x y)

-- A bit of `x & y` and of `x | y`.
pub bit-bit_and : (k x y : ℕ) → bit (bit_and x y) k ≡ min (bit x k) (bit y k)
bit-bit_and zero x y = omega (arith, bit_and-halves x y)
bit-bit_and (suc k) x y =
    let half : bit_and x y / 2 ≡ bit_and (x / 2) (y / 2) = omega (arith, bit_and-halves x y) in
    rw half (bit-bit_and k (x / 2) (y / 2))

pub bit-bit_or : (k x y : ℕ) → bit (bit_or x y) k ≡ max (bit x k) (bit y k)
bit-bit_or zero x y = omega (arith, bit_or-halves x y)
bit-bit_or (suc k) x y =
    let half : bit_or x y / 2 ≡ bit_or (x / 2) (y / 2) = omega (arith, bit_or-halves x y) in
    rw half (bit-bit_or k (x / 2) (y / 2))

pub bit-le-one : (k x : ℕ) → bit x k ≤ 1
bit-le-one zero x = omega arith
bit-le-one (suc k) x = bit-le-one k (x / 2)

half_pow : (k : ℕ) → 2 ^ suc k / 2 ≡ 2 ^ k
half_pow k = omega (arith, pow-suc 2 k)

pub bit-pow_self : (k : ℕ) → bit (2 ^ k) k ≡ 1
bit-pow_self zero = refl
bit-pow_self (suc k) = rw (half_pow k) (bit-pow_self k)

pub bit-zero : (k : ℕ) → bit 0 k ≡ 0
bit-zero zero = refl
bit-zero (suc k) = bit-zero k

pub bit-pow_ne : (j k : ℕ) → j ≢ k → bit (2 ^ k) j ≡ 0
bit-pow_ne zero zero h = absurd (h refl)
bit-pow_ne zero (suc k) h = omega (arith, pow-suc 2 k)
bit-pow_ne (suc j) zero h = bit-zero j
bit-pow_ne (suc j) (suc k) h = rw (half_pow k) (bit-pow_ne j k (λ e. h (ap suc e)))

nothing_in_zero : (x most : ℕ) → x < suc most → bit_and x 0 ≡ 0
nothing_in_zero zero most h = refl
nothing_in_zero (suc y) zero h = absurd (omega arith)
nothing_in_zero (suc y) (suc most) h =
    let half : bit_and (suc y / 2) 0 ≡ 0 = nothing_in_zero (suc y / 2) most (omega arith) in
    omega (arith, half, bit_and-halves (suc y) 0)

double_pow : (k b t : ℕ) → b * 2 ^ k ≡ t → b * 2 ^ suc k ≡ t * 2
double_pow k b t e = omega (arith, ap (λ (u : ℕ). b * u) (pow-suc 2 k))

-- `x & (1 << k)` is the bit alone, in its place.
pub bit_and-pow : (k x : ℕ) → bit_and x (2 ^ k) ≡ bit x k * 2 ^ k
bit_and-pow zero x =
    omega (arith, bit_and-halves x 1, nothing_in_zero (x / 2) (x / 2) (omega arith))
bit_and-pow (suc k) x =
    let half : bit_and (x / 2) (2 ^ suc k / 2) ≡ bit (x / 2) k * 2 ^ k =
      rw (half_pow k) (bit_and-pow k (x / 2)) in
    omega (
      arith,
      bit_and-halves x (2 ^ suc k),
      pow-suc 2 k,
      double_pow k (bit (x / 2) k) (bit_and (x / 2) (2 ^ suc k / 2)) (sym half),
    )

pub pow_pos : (k : ℕ) → 0 < 2 ^ k
pow_pos zero = omega arith
pow_pos (suc k) = omega (arith, pow-suc 2 k, pow_pos k)

-- The test `x & (1 << k)` of C.
pub bit_and-pow_iff : (k x : ℕ) → ((bit_and x (2 ^ k) ≡ 0) ↔ (bit x k ≡ 0))
bit_and-pow_iff k x = grind (arith, bit_and-pow k x, pow_pos k, bit-le-one k x)
