-- ===== src/Datagram/Fields.antt =====
-- What `store` writes, and what a sent datagram holds.
use libnetpaxos.Prelude.{
  ℕ, zero, suc, ◌+◌, ◌-◌, ◌/◌, ◌%◌, ◌^◌, ◌≤◌, ◌<◌, ◌≡◌, refl, arith, ap, sym, ◌∙◌,
}
use libnetpaxos.Prelude.{
  List, [], ◌∷◌, ◌++◌, length, take, drop, length-append, length-take, length-drop,
}
use libnetpaxos.Prelude.{returned}
use libnetpaxos.Message.{swap16}
use libnetpaxos.Message.Bytes.{le16}
use libnetpaxos.Datagram.{byte, load16, store}

-- The buffer after a store that fits.
abbrev pub stored : List ℕ → ℕ → List ℕ → List ℕ
stored buf off src = take off buf ++ (src ++ drop (off + length src) buf)

pub store_lem :
    (buf : List ℕ) (off : ℕ) (src : List ℕ)
    → off + length src ≤ length buf
    → store buf off src ≡ returned (stored buf off src)
unfolding store
store_lem buf off src h = ground arith

pub length-stored :
    (buf : List ℕ) (off : ℕ) (src : List ℕ)
    → off + length src ≤ length buf
    → length (stored buf off src) ≡ length buf
length-stored buf off src h = omega (
  arith,
  length-append {0} (take off buf) (src ++ drop (off + length src) buf),
  length-append {0} src (drop (off + length src) buf),
  length-take {0} off buf,
  length-drop {0} (off + length src) buf,
)

byte-take-append :
    (off : ℕ) (buf r : List ℕ) (k : ℕ)
    → k < off
    → off ≤ length buf
    → byte (take off buf ++ r) k ≡ byte buf k
byte-take-append zero buf r k h l = absurd (omega arith)
byte-take-append (suc off) [] r k h l = elim l [ ]
byte-take-append (suc off) (b ∷ buf) r zero h l = refl
byte-take-append (suc off) (b ∷ buf) r (suc k) h l =
    byte-take-append off buf r k (omega arith) (omega arith)

drop-take-append :
    (off : ℕ) (buf r : List ℕ) (n : ℕ)
    → off ≤ length buf
    → drop (off + n) (take off buf ++ r) ≡ drop n r
drop-take-append zero buf r n l = ap (λ k. drop k r) (omega arith)
drop-take-append (suc off) [] r n l = elim l [ ]
drop-take-append (suc off) (b ∷ buf) r n l =
    let e : suc off + n ≡ suc (off + n) = omega arith in
    ap (λ k. drop k (b ∷ (take off buf ++ r))) e ∙ drop-take-append off buf r n (omega arith)

take-append_more : (xs ys : List ℕ) (n : ℕ) → drop (length xs + n) (xs ++ ys) ≡ drop n ys
take-append_more [] ys n = ap (λ k. drop k ys) (omega arith)
take-append_more (x ∷ xs) ys n =
    let e : suc (length xs) + n ≡ suc (length xs + n) = omega arith in
    ap (λ k. drop k (x ∷ (xs ++ ys))) e ∙ take-append_more xs ys n

drop-nil : (n : ℕ) → drop {A = ℕ} n [] ≡ []
drop-nil zero = refl
drop-nil (suc n) = refl

take-nil : (n : ℕ) → take {A = ℕ} n [] ≡ []
take-nil zero = refl
take-nil (suc n) = refl

drop-drop : (n k : ℕ) (xs : List ℕ) → drop k (drop n xs) ≡ drop (n + k) xs
drop-drop zero k xs = ap (λ j. drop j xs) (omega arith)
drop-drop (suc n) k [] = drop-nil k ∙ sym (drop-nil (suc n + k))
drop-drop (suc n) k (x ∷ xs) =
    let e : suc (n + k) ≡ suc n + k = omega arith in drop-drop n k xs ∙ ap (λ j. drop j (x ∷ xs)) e

module _ (buf : List ℕ) (off : ℕ) (src : List ℕ) (fits : off + length src ≤ length buf) where
  -- Behind the stored bytes, at them, and before them.
  pub drop-stored_above : (n : ℕ) → off + length src ≤ n → drop n (stored buf off src) ≡ drop n buf
  drop-stored_above n h =
      let k : ℕ = n - off - length src in
      let e : n ≡ off + (length src + k) = omega arith in
      let e' : off + length src + k ≡ n = omega arith in
      ap (λ j. drop j (stored buf off src)) e
      ∙ drop-take-append off buf (src ++ drop (off + length src) buf) (length src + k) (omega arith)
      ∙ take-append_more src (drop (off + length src) buf) k
      ∙ drop-drop (off + length src) k buf
      ∙ ap (λ j. drop j buf) e'

  pub drop-stored_at : drop off (stored buf off src) ≡ src ++ drop (off + length src) buf
  drop-stored_at =
      let e : off ≡ off + 0 = omega arith in
      ap (λ j. drop j (stored buf off src)) e
      ∙ drop-take-append off buf (src ++ drop (off + length src) buf) 0 (omega arith)

  byte-stored_below : (k : ℕ) → k < off → byte (stored buf off src) k ≡ byte buf k
  byte-stored_below k h = byte-take-append off buf _ k h (omega arith)

byte-drop : (k : ℕ) (buf : List ℕ) → byte buf k ≡ byte (drop k buf) 0
byte-drop zero buf = refl
byte-drop (suc k) [] = refl
byte-drop (suc k) (b ∷ buf) = byte-drop k buf

pub byte-take : (n k : ℕ) (buf : List ℕ) → k < n → byte (take n buf) k ≡ byte buf k
byte-take zero k buf h = elim h [ ]
byte-take (suc n) k [] h = refl
byte-take (suc n) zero (b ∷ buf) h = refl
byte-take (suc n) (suc k) (b ∷ buf) h = byte-take n k buf (omega arith)

pub drop-take : (n k : ℕ) (buf : List ℕ) → drop n (take (n + k) buf) ≡ take k (drop n buf)
drop-take zero k buf = ap (λ j. take j buf) (omega arith)
drop-take (suc n) k [] = ap (drop (suc n)) (take-nil (suc n + k)) ∙ sym (take-nil k)
drop-take (suc n) k (b ∷ buf) =
    let e : suc n + k ≡ suc (n + k) = omega arith in
    ap (λ j. drop (suc n) (take j (b ∷ buf))) e ∙ drop-take n k buf

-- A word that was just stored, and one in front of what was stored.
pub load16-stored_at :
    (buf : List ℕ) (off x : ℕ)
    → off + 2 ≤ length buf
    → x < 2 ^ 16
    → load16 (stored buf off (le16 x)) off ≡ x
load16-stored_at buf off x fits small =
    let out : List ℕ = stored buf off (le16 x) in
    let at : drop off out ≡ le16 x ++ drop (off + 2) buf = drop-stored_at buf off (le16 x) fits in
    let next : drop (suc off) out ≡ x / 256 % 256 ∷ drop (off + 2) buf =
      ap (λ j. drop j out) (add-one' off) ∙ sym (drop-drop off 1 out) ∙ ap (drop 1) at in
    omega (
      arith,
      byte-drop off out,
      byte-drop (suc off) out,
      ap (λ l. byte l 0) at,
      ap (λ l. byte l 0) next,
    )
  where
    add-one' : (n : ℕ) → suc n ≡ n + 1
    add-one' n = omega arith

pub load16-stored_below :
    (buf : List ℕ) (off : ℕ) (src : List ℕ) (k : ℕ)
    → off + length src ≤ length buf
    → k + 1 < off
    → load16 (stored buf off src) k ≡ load16 buf k
load16-stored_below buf off src k fits h = omega (
  arith,
  byte-stored_below buf off src fits k (omega arith),
  byte-stored_below buf off src fits (suc k) (omega arith),
)

-- A buffer that can send: 200 bytes, whose `tot_len` does not reach beyond them.
pub record IsReady (datagram : List ℕ) : Type 0 where
  pub size : length datagram ≡ 200
  pub bounded : load16 datagram 2 ≤ 200

-- What `sendto` is given, and the buffer afterwards.
pub record IsSent (msg : List ℕ) (buf sent : List ℕ) : Type 0 where
  pub ready : IsReady buf
  pub total : length sent ≡ 28 + length msg
  pub tot_len : load16 sent 2 ≡ 28 + length msg
  pub udp_len : load16 sent 24 ≡ swap16 (8 + length msg)
  pub payload : drop 28 sent ≡ msg

pub load16-drop : (k : ℕ) (buf : List ℕ) → load16 buf k ≡ load16 (drop k buf) 0
load16-drop zero buf = refl
load16-drop (suc k) [] = refl
load16-drop (suc k) (b ∷ buf) = load16-drop k buf
