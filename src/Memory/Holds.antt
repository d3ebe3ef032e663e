-- ===== src/Memory/Holds.antt =====
-- What is in use: the blocks that were there before, and those of a list.
use libnetpaxos.Prelude.{
  ℕ, suc, zero, ap, All, length, ◌+◌, ◌≤◌, ◌≡◌, refl, arith, Bool, true, false, List, [], ◌∷◌, ◌++◌,
  ◌==◌, if◌then◌else◌,
}
use libnetpaxos.Prelude.{Outcome, returned, fault}
use libnetpaxos.Memory.{
  Heap, Mem, and_then, malloc, touch, free, touch_all, free_fields, malloc_items,
}

-- The code returns, and what then holds.
pub data Returns {A : Type 0} (P : A → Heap → Type 0) : Outcome (A × Heap) → Type 0 where
  returns : {a : A} {h : Heap} → P a h → Returns P (returned (a, h))

module _ {A : Type 0} {P : A → Heap → Type 0} where
  pub bind :
      {B : Type 0} {Q : B → Heap → Type 0} {r : Outcome (A × Heap)} {f : A → Mem B}
      → Returns P r
      → ((a : A) (h : Heap) → P a h → Returns Q (f a h))
      → Returns Q (and_then r f)
  bind (returns p) next = next _ _ p

  pub bind-fault :
      {B : Type 0} {r : Outcome (A × Heap)} {f : A → Mem B}
      → Returns P r
      → ((a : A) (h : Heap) → P a h → f a h ≡ fault)
      → and_then r f ≡ fault
  bind-fault (returns p) next = next _ _ p

  pub mono :
      {Q : A → Heap → Type 0} {r : Outcome (A × Heap)}
      → Returns P r
      → ((a : A) (h : Heap) → P a h → Q a h)
      → Returns Q r
  mono (returns p) weaken = returns (weaken _ _ p)

abbrev pub number : Bool → ℕ
number true = 1
number false = 0

abbrev pub one : ℕ → ℕ → ℕ
one p q = if p == q then 1 else 0

abbrev pub count : ℕ → List ℕ → ℕ
count q [] = 0
count q (p ∷ ps) = one p q + count q ps

pub count-append : (q : ℕ) (ps rs : List ℕ) → count q (ps ++ rs) ≡ count q ps + count q rs
count-append q [] rs = omega arith
count-append q (p ∷ ps) rs = omega (arith, count-append q ps rs)

-- The blocks `ps`, each as often as it stands there, and those of `base`.
pub record Holds (base : ℕ → Bool) (ps : List ℕ) (h : Heap) : Type 0 where
  pub counts : (q : ℕ) → number (h.live q) ≡ number (base q) + count q ps
  pub fresh : (q : ℕ) → h.next ≤ q → h.live q ≡ false

module _ {base : ℕ → Bool} {h : Heap} where
  pub Holds-perm :
      {ps : List ℕ} (qs : List ℕ)
      → ((q : ℕ) → count q ps ≡ count q qs)
      → Holds base ps h
      → Holds base qs h
  Holds-perm qs same s = record { counts = λ q. omega (arith, s.counts q, same q); fresh = s.fresh }

  pub malloc-Holds : {ps : List ℕ} → Holds base ps h → Returns (λ p. Holds base (p ∷ ps)) (malloc h)
  unfolding malloc
  malloc-Holds s = returns (record {
    counts = λ q. ground (arith, s.counts q, s.fresh q);
    fresh = λ q above. ground (arith, s.fresh q);
  })

  pub held-live : {ps : List ℕ} (p : ℕ) → Holds base ps h → 1 ≤ count p ps → h.live p ≡ true
  held-live p s some_p = ground (arith, s.counts p)

  pub touch-Holds :
      {ps : List ℕ} (p : ℕ)
      → Holds base ps h
      → 1 ≤ count p ps
      → Returns (λ _. Holds base ps) (touch p h)
  unfolding touch
  touch-Holds p s some_p = rw (held-live p s some_p) (returns s)

  pub free-Holds :
      {ps : List ℕ} (p : ℕ) → Holds base (p ∷ ps) h → Returns (λ _. Holds base ps) (free p h)
  unfolding free
  free-Holds p s = rw (held-live p s (ground arith)) (
      returns (record {
        counts = λ q. ground (arith, s.counts q, s.counts p);
        fresh = λ q above. ground (arith, s.fresh q);
      }))

-- Blocks that are held can be used.
abbrev pub Held : List ℕ → List ℕ → Type 0
Held owners ps = All (λ o. 1 ≤ count o ps) owners

pub touch_all-Holds :
    {base : ℕ → Bool} (owners : List ℕ) {ps : List ℕ} {h : Heap}
    → Holds base ps h
    → Held owners ps
    → Returns (λ _. Holds base ps) (touch_all owners h)
unfolding touch_all
touch_all-Holds [] s own = returns s
touch_all-Holds (o ∷ owners) s (here, own) =
    bind (touch-Holds o s here) λ _ _ s1. touch_all-Holds owners s1 own

pub Held-append : (owners ps rest : List ℕ) → Held owners rest → Held owners (ps ++ rest)
Held-append [] ps rest own = tt
Held-append (o ∷ owners) ps rest (here, own) =
    (omega (arith, here, count-append o ps rest), Held-append owners ps rest own)

-- Blocks are held where they stand.
pub Held-self : (ps rest : List ℕ) → Held ps (ps ++ rest)
Held-self [] rest = tt
Held-self (p ∷ ps) rest = (ground arith, Held-append ps (p ∷ []) (ps ++ rest) (Held-self ps rest))

-- The fields are released, in any order that they were made in.
pub free_fields-Holds :
    {base : ℕ → Bool} (owners ps rest : List ℕ) {h : Heap}
    → Holds base (ps ++ rest) h
    → Held owners rest
    → Returns (λ _. Holds base rest) (free_fields owners ps h)
unfolding free_fields
free_fields-Holds owners [] rest s own = returns s
free_fields-Holds owners (p ∷ ps) rest s own =
    bind (touch_all-Holds owners s (Held-append owners (p ∷ ps) rest own))
      λ _ _ s1. bind (free-Holds p s1) λ _ _ s2. free_fields-Holds owners ps rest s2 own

pub malloc_items-Holds :
    {base : ℕ → Bool} (owners : List ℕ) (n : ℕ) {ps : List ℕ} {h : Heap}
    → Holds base ps h
    → Held owners ps
    → Returns
        (λ items h'. Holds base (items ++ ps) h' × (length items ≡ n))
        (malloc_items owners n h)
unfolding malloc_items
malloc_items-Holds owners zero s own = returns (s, refl)
malloc_items-Holds owners (suc n) {ps} s own = bind (malloc-Holds s) λ p _ s1.
    bind (touch_all-Holds owners s1 (Held-append owners (p ∷ []) ps own)) λ _ _ s2.
      bind (malloc_items-Holds owners n s2 (Held-append owners (p ∷ []) ps own))
        λ items _ (s3, size). returns (
          Holds-perm (p ∷ (items ++ ps))
              (λ q. omega (arith, count-append q items (p ∷ ps), count-append q items ps)) s3,
          ap suc size,
        )

-- A heap in which only what has been allocated is in use, and `n` blocks more in use.
abbrev pub IsHeap : Heap → Type 0
IsHeap h = Holds h.live [] h

abbrev pub Leaves : Heap → ℕ → Heap → Type 0
Leaves h n h' = (ps : List ℕ) × Holds h.live ps h' × (length ps ≡ n)

-- `n` blocks above those of `ps`.
abbrev pub Left : (ℕ → Bool) → ℕ → List ℕ → Heap → Type 0
Left base n ps h = (left : List ℕ) × Holds base (left ++ ps) h × (length left ≡ n)

-- The last block that a process gives back, for instance its configuration.
pub free_last-Leaves :
    (h : Heap) (n p : ℕ) {h' : Heap}
    → Left h.live n (p ∷ []) h'
    → Returns (λ _. Leaves h n) (free p h')
free_last-Leaves h n p (left, s, size) =
    mono (free-Holds p (Holds-perm (p ∷ left) (λ q. omega (arith, count-append q left (p ∷ []))) s))
      λ _ _ s'. (left, s', size)
