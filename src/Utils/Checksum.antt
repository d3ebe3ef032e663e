-- ===== src/Utils/Checksum.antt =====
-- The checksum is the one's complement sum of the Internet protocols.
use libnetpaxos.Prelude.{ℕ, ◌+◌, ◌-◌, ◌*◌, ◌/◌, ◌%◌, ◌^◌, ◌≤◌, ◌<◌, ◌≡◌, arith, ap}
use libnetpaxos.Prelude.{List, [], ◌∷◌, ◌++◌, length, All}
use libnetpaxos.Utils.{csum, csum_sum, csum_fold}

pub csum-lt : (bytes : List ℕ) → csum bytes < 2 ^ 16
unfolding csum
csum-lt bytes = omega arith

abbrev IsEven : List ℕ → Type 0
IsEven bytes = length bytes % 2 ≡ 0

csum_sum-append : (xs ys : List ℕ) → IsEven xs → csum_sum (xs ++ ys) ≡ csum_sum xs + csum_sum ys
unfolding csum_sum
csum_sum-append [] ys e = omega arith
csum_sum-append (b ∷ []) ys e = absurd (omega arith)
csum_sum-append (b ∷ c ∷ rest) ys e = omega (arith, csum_sum-append rest ys (omega arith))

-- A word is at most 0xffff.
csum_sum-le : (xs : List ℕ) → All (λ b. b < 256) xs → csum_sum xs ≤ 65535 * length xs
unfolding csum_sum
csum_sum-le [] h = omega arith
csum_sum-le (b ∷ []) h = omega arith
csum_sum-le (b ∷ c ∷ rest) h = omega (arith, csum_sum-le rest h.1.1)

folded : (s : ℕ) → s < 2 ^ 32 → csum_fold (s + (2 ^ 16 - 1 - csum_fold s % 2 ^ 16)) % 2 ^ 16 ≡ 65535
unfolding csum_fold
folded s h = omega arith

-- A receiver that sums a buffer together with its checksum gets 0: for every even number of at most
-- 64 KiB of bytes, followed by the two bytes of their checksum.
pub csum_verifies :
    (bytes : List ℕ)
    → All (λ b. b < 256) bytes
    → length bytes % 2 ≡ 0
    → length bytes ≤ 2 ^ 16
    → csum (bytes ++ csum bytes % 256 ∷ csum bytes / 256 ∷ []) ≡ 0
unfolding csum csum_sum
csum_verifies bytes small even short =
    let c : ℕ = csum bytes in
    let total : csum_sum (bytes ++ c % 256 ∷ c / 256 ∷ []) ≡ csum_sum bytes + c =
      omega (arith, csum_sum-append bytes (c % 256 ∷ c / 256 ∷ []) even) in
    omega
      (arith, ap csum_fold total, folded (csum_sum bytes) (omega (arith, csum_sum-le bytes small)))
