-- ===== src/Utils/Time/Bytes.antt =====
-- The image of a `struct timespec` in memory: two `long` of 8 bytes each, on a little-endian host.
use libnetpaxos.Prelude.{
  ℕ, ◌+◌, ◌-◌, ◌*◌, ◌/◌, ◌%◌, ◌^◌, ◌<◌, ◌≡◌, refl, arith, ap, ◌∙◌, false, lt→ltb, ltb,
}
use libnetpaxos.Prelude.{List, [], ◌∷◌, ◌++◌, length, drop, if◌then◌else◌}
use libnetpaxos.Prelude.Int.{ℤ, pos, negsuc}
use libnetpaxos.Datagram.{byte}
use libnetpaxos.Utils.Time.{Timespec}

-- The bits of a `long` as a number, and back.
unfoldable pub to_word : ℤ → ℕ
to_word (pos n) = n
to_word (negsuc n) = 2 ^ 64 - 1 - n

unfoldable pub of_word : ℕ → ℤ
of_word w = if ltb w (2 ^ 63) then pos w else negsuc (2 ^ 64 - 1 - w)

unfoldable pub le64 : ℕ → List ℕ
le64 w =
    w % 256
    ∷ w / 2 ^ 8 % 256
    ∷ w / 2 ^ 16 % 256
    ∷ w / 2 ^ 24 % 256
    ∷ w / 2 ^ 32 % 256
    ∷ w / 2 ^ 40 % 256
    ∷ w / 2 ^ 48 % 256
    ∷ w / 2 ^ 56 % 256
    ∷ []

-- The 64 bits at an offset.
unfoldable pub word_at : List ℕ → ℕ
word_at b =
    byte b 0
    + byte b 1 * 2 ^ 8
    + byte b 2 * 2 ^ 16
    + byte b 3 * 2 ^ 24
    + byte b 4 * 2 ^ 32
    + byte b 5 * 2 ^ 40
    + byte b 6 * 2 ^ 48
    + byte b 7 * 2 ^ 56

unfoldable pub time_bytes : Timespec → List ℕ
time_bytes t = le64 (to_word t.tv_sec) ++ le64 (to_word t.tv_nsec)

-- The time that the bytes at the beginning of a list are.
unfoldable pub time_of : List ℕ → Timespec
time_of b = record { tv_sec = of_word (word_at b); tv_nsec = of_word (word_at (drop 8 b)) }

-- The values of a `long`.
abbrev pub IsLong : ℤ → Type 0
IsLong (pos n) = n < 2 ^ 63
IsLong (negsuc n) = n < 2 ^ 63

of_word-to_word : (z : ℤ) → IsLong z → of_word (to_word z) ≡ z
unfolding of_word to_word
of_word-to_word (pos n) h = rw (lt→ltb _ _ h) refl
of_word-to_word (negsuc n) h =
    let high : ltb (2 ^ 64 - 1 - n) (2 ^ 63) ≡ false = ground arith in
    let back : 2 ^ 64 - 1 - (2 ^ 64 - 1 - n) ≡ n = omega arith in rw high (ap negsuc back)

to_word-lt : (z : ℤ) → IsLong z → to_word z < 2 ^ 64
unfolding to_word
to_word-lt (pos n) h = omega arith
to_word-lt (negsuc n) h = omega arith

word_at-le64 : (w : ℕ) (rest : List ℕ) → w < 2 ^ 64 → word_at (le64 w ++ rest) ≡ w
unfolding word_at le64
word_at-le64 w rest h = omega arith

-- Reading back the bytes of a time gives the time, whatever follows them.
pub time_of-time_bytes :
    (t : Timespec) (rest : List ℕ)
    → IsLong t.tv_sec
    → IsLong t.tv_nsec
    → time_of (time_bytes t ++ rest) ≡ t
unfolding time_of time_bytes le64
time_of-time_bytes t rest hs hn =
    let sec =
      word_at-le64 (to_word t.tv_sec) (le64 (to_word t.tv_nsec) ++ rest) (to_word-lt t.tv_sec hs) in
    let nsec = word_at-le64 (to_word t.tv_nsec) rest (to_word-lt t.tv_nsec hn) in
    λ i. record {
      tv_sec = (ap of_word sec ∙ of_word-to_word t.tv_sec hs) i;
      tv_nsec = (ap of_word nsec ∙ of_word-to_word t.tv_nsec hn) i;
    }

pub length-time_bytes : (t : Timespec) → length (time_bytes t) ≡ 16
unfolding time_bytes le64
length-time_bytes t = refl
