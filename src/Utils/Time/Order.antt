-- ===== src/Utils/Time/Order.antt =====
-- The order of times that `compare_ts` decides.
use libnetpaxos.Prelude.{
  ◌+◌, ◌-◌, leb, ◌≡◌, ◌⊎◌, refl, inl, inr, arith, ap, Bool, true, false, Bool-cases, returned, sym,
  ◌∙◌, Outcome-cases, zero, suc, subst,
}
use libnetpaxos.Prelude.Int.{ℤ, pos, negsuc}
use libnetpaxos.Utils.Time.Bytes.{IsLong}
use libnetpaxos.Utils.Time.{Timespec, less, compare_ts, timediff, in_long, minus, difference}

less_asym : (x y : ℤ) → less x y ≡ true → less y x ≡ false
unfolding less
less_asym (pos x) (pos y) h = ground arith
less_asym (pos x) (negsuc y) h = absurd (ground arith)
less_asym (negsuc x) (pos y) h = refl
less_asym (negsuc x) (negsuc y) h = ground arith

less_trans : (x y z : ℤ) → less x y ≡ true → less y z ≡ true → less x z ≡ true
unfolding less
less_trans (pos x) (pos y) (pos z) h h' = ground arith
less_trans (pos x) (pos y) (negsuc z) h h' = absurd (ground arith)
less_trans (pos x) (negsuc y) z h h' = absurd (ground arith)
less_trans (negsuc x) (pos y) (pos z) h h' = refl
less_trans (negsuc x) (pos y) (negsuc z) h h' = absurd (ground arith)
less_trans (negsuc x) (negsuc y) (pos z) h h' = refl
less_trans (negsuc x) (negsuc y) (negsuc z) h h' = ground arith

less_connected : (x y : ℤ) → less x y ≡ false → less y x ≡ false → x ≡ y
unfolding less
less_connected (pos x) (pos y) h h' = let e : x ≡ y = ground arith in ap pos e
less_connected (pos x) (negsuc y) h h' = absurd (ground arith)
less_connected (negsuc x) (pos y) h h' = absurd (ground arith)
less_connected (negsuc x) (negsuc y) h h' = let e : x ≡ y = ground arith in ap negsuc e

less_irrefl : (x : ℤ) → less x x ≡ false
unfolding less
less_irrefl (pos x) = ground arith
less_irrefl (negsuc x) = ground arith

-- The lexicographic order of seconds and nanoseconds.
abbrev pub Before : Timespec → Timespec → Type 0
Before a b =
    (less a.tv_sec b.tv_sec ≡ true) ⊎ ((a.tv_sec ≡ b.tv_sec) × (less a.tv_nsec b.tv_nsec ≡ true))

-- What each result of a comparison means.
pub data Compared (a b : Timespec) : ℤ → Type 0 where
  before : Before a b → Compared a b (negsuc 0)
  same : a ≡ b → Compared a b (pos 0)
  after : Before b a → Compared a b (pos 1)

same_times : {a b : Timespec} → a.tv_sec ≡ b.tv_sec → a.tv_nsec ≡ b.tv_nsec → a ≡ b
same_times e e' = λ i. record { tv_sec = e i; tv_nsec = e' i }

-- `compare_ts` decides the lexicographic order: it returns -1 only if the first time is before the
-- second, 1 only if it is after it, and 0 only if they are the same.
pub compare_ts-Compared : (a b : Timespec) → Compared a b (compare_ts a b)
unfolding compare_ts
compare_ts-Compared a b = elim (Bool-cases (less a.tv_sec b.tv_sec)) [
  | inl h ↦ rw h (before (inl h))
  | inr h ↦ elim (Bool-cases (less b.tv_sec a.tv_sec)) [
    | inl h' ↦ rw (h, h') (after (inl h'))
    | inr h' ↦
        let e : a.tv_sec ≡ b.tv_sec = less_connected _ _ h h' in
        elim (Bool-cases (less a.tv_nsec b.tv_nsec)) [
          | inl n ↦ rw (h, h', n) (before (inr (e, n)))
          | inr n ↦ elim (Bool-cases (less b.tv_nsec a.tv_nsec)) [
            | inl n' ↦ rw (h, h', n, n') (after (inr (sym e, n')))
            | inr n' ↦ rw (h, h', n, n') (same (same_times e (less_connected _ _ n n')))
          ]
        ]
  ]
]

Before-asym : (a b : Timespec) → Before a b → Before b a → ⊥
Before-asym a b (inl h) (inl h') = absurd (cc (less_asym a.tv_sec b.tv_sec h))
Before-asym a b (inl h) (inr h') = absurd (cc (h'.0, less_irrefl a.tv_sec))
Before-asym a b (inr h) (inl h') = absurd (cc (h.0, less_irrefl a.tv_sec))
Before-asym a b (inr h) (inr h') = absurd (cc (h'.1, less_asym a.tv_nsec b.tv_nsec h.1))

Before-irrefl : (a : Timespec) → Before a a → ⊥
Before-irrefl a h = Before-asym a a h h

Before-trans : (a b c : Timespec) → Before a b → Before b c → Before a c
Before-trans a b c (inl h) (inl h') = inl (less_trans _ b.tv_sec _ h h')
Before-trans a b c (inl h) (inr (e, n)) = inl (subst (λ z. less a.tv_sec z ≡ true) e h)
Before-trans a b c (inr (e, n)) (inl h) = inl (subst (λ z. less z c.tv_sec ≡ true) (sym e) h)
Before-trans a b c (inr (e, n)) (inr (e', n')) = inr (e ∙ e', less_trans _ b.tv_nsec _ n n')

Compared-unique : {a b : Timespec} {r r' : ℤ} → Compared a b r → Compared a b r' → r ≡ r'
Compared-unique (before h) (before h') = refl
Compared-unique {a} {b} (before h) (same e) = absurd (Before-irrefl b (subst (λ z. Before z b) e h))
Compared-unique {a} {b} (before h) (after h') = absurd (Before-asym a b h h')
Compared-unique {a} {b} (same e) (before h) = absurd (Before-irrefl b (subst (λ z. Before z b) e h))
Compared-unique (same e) (same e') = refl
Compared-unique {a} {b} (same e) (after h) = absurd (Before-irrefl b (subst (λ z. Before b z) e h))
Compared-unique {a} {b} (after h) (before h') = absurd (Before-asym a b h' h)
Compared-unique {a} {b} (after h) (same e) = absurd (Before-irrefl b (subst (λ z. Before b z) e h))
Compared-unique (after h) (after h') = refl

-- `-r` of a result of `compare_ts`.
abbrev pub opposite : ℤ → ℤ
opposite (pos zero) = pos 0
opposite (pos (suc n)) = negsuc n
opposite (negsuc n) = pos (suc n)

Compared-opposite : {a b : Timespec} {r : ℤ} → Compared a b r → Compared b a (opposite r)
Compared-opposite (before h) = after h
Compared-opposite (same e) = same (sym e)
Compared-opposite (after h) = before h

Compared-Before : {a b : Timespec} {r : ℤ} → Compared a b r → r ≡ negsuc 0 → Before a b
Compared-Before (before h) e = h
Compared-Before (same h) e = absurd (cc e)
Compared-Before (after h) e = absurd (cc e)

-- A comparison the other way round gives the opposite result, and "before" is transitive.
pub compare_ts_order :
    (a b c : Timespec)
    → (compare_ts b a ≡ opposite (compare_ts a b))
      × (compare_ts a b ≡ negsuc 0 → compare_ts b c ≡ negsuc 0 → compare_ts a c ≡ negsuc 0)
compare_ts_order a b c = (
  Compared-unique (compare_ts-Compared b a) (Compared-opposite (compare_ts-Compared a b)),
  λ h h'. Compared-unique (compare_ts-Compared a c) (
      before (
        Before-trans a b c (Compared-Before (compare_ts-Compared a b) h)
          (Compared-Before (compare_ts-Compared b c) h'))),
)

timediff-flag :
    (end start : Timespec) {r : Timespec} {negative : Bool}
    → timediff end start ≡ returned (r, negative)
    → negative ≡ less end.tv_sec start.tv_sec
unfolding timediff
timediff-flag end start h = elim (Outcome-cases (in_long (minus end.tv_sec start.tv_sec))) [
  | inl (sec, e) ↦ elim (Outcome-cases (in_long (minus end.tv_nsec start.tv_nsec))) [
    | inl (nsec, e') ↦ ground arith
    | inr bad ↦ absurd (ground arith)
  ]
  | inr bad ↦ absurd (ground arith)
]

-- Where `timediff` returns, its flag is set only if the end is before the start by `compare_ts`; an
-- end before the start without the flag is in the same second.
pub timediff_lem :
    (end start : Timespec) {r : Timespec} {negative : Bool}
    → timediff end start ≡ returned (r, negative)
    → (negative ≡ true → compare_ts end start ≡ negsuc 0)
      × (negative ≡ false → compare_ts end start ≡ negsuc 0 → end.tv_sec ≡ start.tv_sec)
timediff_lem end start h =
    let flag = timediff-flag end start h in
    (
      λ set. Compared-unique (compare_ts-Compared end start) (before (inl (sym flag ∙ set))),
      λ clear earlier. elim (Compared-Before (compare_ts-Compared end start) earlier) [
        | inl h ↦ absurd (cc (h, flag, clear))
        | inr h ↦ h.0
      ],
    )

-- `x + y`, to say what a difference is.
abbrev pub plus : ℤ → ℤ → ℤ
plus (pos x) (pos y) = pos (x + y)
plus (pos x) (negsuc y) = difference x (suc y)
plus (negsuc x) (pos y) = difference y (suc x)
plus (negsuc x) (negsuc y) = negsuc (suc (x + y))

pub plus-minus : (x y : ℤ) → plus y (minus x y) ≡ x
unfolding minus difference
plus-minus (pos x) (pos y) = elim (Bool-cases (leb y x)) [
  | inl le ↦ let e : y + (x - y) ≡ x = ground (arith, le) in rw le (ap pos e)
  | inr gt ↦
      let le : leb (suc (y - suc x)) y ≡ true = ground (arith, gt) in
      let e : y - suc (y - suc x) ≡ x = ground (arith, gt) in rw (gt, le) (ap pos e)
]
plus-minus (pos x) (negsuc y) =
    let le : leb (suc y) (x + suc y) ≡ true = ground arith in
    let e : x + suc y - suc y ≡ x = omega arith in rw le (ap pos e)
plus-minus (negsuc x) (pos y) =
    let gt : leb (suc (x + y)) y ≡ false = ground arith in
    let e : suc (x + y) - suc y ≡ x = omega arith in rw gt (ap negsuc e)
plus-minus (negsuc x) (negsuc y) = elim (Bool-cases (leb x y)) [
  | inl le ↦
      let gt : leb (suc y) (y - x) ≡ false = ground (arith, le) in
      let e : suc y - suc (y - x) ≡ x = ground (arith, le) in rw (le, gt) (ap negsuc e)
  | inr gt ↦ let e : suc (y + (x - suc y)) ≡ x = ground (arith, gt) in rw gt (ap negsuc e)
]

in_long-returned : (z : ℤ) → IsLong z → in_long z ≡ returned z
unfolding in_long
in_long-returned (pos n) h = ground arith
in_long-returned (negsuc n) h = ground arith

-- Where the differences fit a `long`, `timediff` gives what has to be added to the start for the end,
-- in seconds and in nanoseconds, and a flag that is set where the seconds of the end are less.
pub timediff-plus :
    (end start : Timespec)
    → IsLong (minus end.tv_sec start.tv_sec)
    → IsLong (minus end.tv_nsec start.tv_nsec)
    → (r : Timespec) × (timediff end start ≡ returned (r, less end.tv_sec start.tv_sec))
      × (plus start.tv_sec r.tv_sec ≡ end.tv_sec)
      × (plus start.tv_nsec r.tv_nsec ≡ end.tv_nsec)
unfolding timediff
timediff-plus end start hs hn =
    let es = in_long-returned (minus end.tv_sec start.tv_sec) hs in
    let en = in_long-returned (minus end.tv_nsec start.tv_nsec) hn in
    (
      record { tv_sec = minus end.tv_sec start.tv_sec; tv_nsec = minus end.tv_nsec start.tv_nsec },
      rw (es, en) refl,
      plus-minus end.tv_sec start.tv_sec,
      plus-minus end.tv_nsec start.tv_nsec,
    )
