-- ===== src/Prelude/Lists.antt =====
-- Lists measured and indexed by native numbers, under the library's names.
use Prim.Native.Nat.{ℕ, zero, suc, ◌+◌, ◌-◌, ◌≤◌, ◌<◌, min}
use mathlib.Core.Path.{◌≡◌, refl, ap, sym, subst, ◌∙◌}
use mathlib.Core.Logic.{◌≢◌, ◌⊎◌, inl, inr}
use mathlib.Core.List.{List, [], ◌∷◌, ◌++◌, map, map-append}
use mathlib.Core.Option.{Option, none, some}
use native.Mathlib.Decide.{ℕ_discrete}
use native.Mathlib.Omega.{arith}

module _ {ℓ} {A : Type ℓ} where
  abbrev pub length : List A → ℕ
  length [] = 0
  length (x ∷ xs) = suc (length xs)

  abbrev pub get_elem? : List A → ℕ → Option A
  get_elem? [] i = none
  get_elem? (x ∷ xs) zero = some x
  get_elem? (x ∷ xs) (suc i) = get_elem? xs i

  -- A write out of bounds changes nothing.
  abbrev pub set : List A → ℕ → A → List A
  set [] i v = []
  set (x ∷ xs) zero v = v ∷ xs
  set (x ∷ xs) (suc i) v = x ∷ set xs i v

  abbrev pub take : ℕ → List A → List A
  take zero xs = []
  take (suc n) [] = []
  take (suc n) (x ∷ xs) = x ∷ take n xs

  abbrev pub drop : ℕ → List A → List A
  drop zero xs = xs
  drop (suc n) [] = []
  drop (suc n) (x ∷ xs) = drop n xs

  abbrev pub replicate : ℕ → A → List A
  replicate zero a = []
  replicate (suc n) a = a ∷ replicate n a

  -- A predicate of every element.
  abbrev pub All {κ} : (A → Type κ) → List A → Type κ
  All P [] = Unit
  All P (x ∷ xs) = P x × All P xs

module _ {ℓ} {A : Type ℓ} where
  pub length-append : (xs ys : List A) → length (xs ++ ys) ≡ length xs + length ys
  length-append [] ys = omega arith
  length-append (x ∷ xs) ys = omega (arith, length-append xs ys)

  pub length-set : (xs : List A) (i : ℕ) (v : A) → length (set xs i v) ≡ length xs
  length-set [] i v = refl
  length-set (x ∷ xs) zero v = refl
  length-set (x ∷ xs) (suc i) v = ap suc (length-set xs i v)

  pub length-replicate : (n : ℕ) (a : A) → length (replicate n a) ≡ n
  length-replicate zero a = refl
  length-replicate (suc n) a = ap suc (length-replicate n a)

  pub length-take : (n : ℕ) (xs : List A) → length (take n xs) ≡ min n (length xs)
  length-take zero xs = omega arith
  length-take (suc n) [] = omega arith
  length-take (suc n) (x ∷ xs) = omega (arith, length-take n xs)

  pub length-drop : (n : ℕ) (xs : List A) → length (drop n xs) ≡ length xs - n
  length-drop zero xs = omega arith
  length-drop (suc n) [] = omega arith
  length-drop (suc n) (x ∷ xs) = omega (arith, length-drop n xs)

  pub take-append : (xs ys : List A) → take (length xs) (xs ++ ys) ≡ xs
  take-append [] ys = refl
  take-append (x ∷ xs) ys = ap (λ l. x ∷ l) (take-append xs ys)

  pub drop-append : (xs ys : List A) → drop (length xs) (xs ++ ys) ≡ ys
  drop-append [] ys = refl
  drop-append (x ∷ xs) ys = drop-append xs ys

  pub take-append-drop : (n : ℕ) (xs : List A) → take n xs ++ drop n xs ≡ xs
  take-append-drop zero xs = refl
  take-append-drop (suc n) [] = refl
  take-append-drop (suc n) (x ∷ xs) = ap (λ l. x ∷ l) (take-append-drop n xs)

  pub take_all : (xs : List A) → take (length xs) xs ≡ xs
  take_all [] = refl
  take_all (x ∷ xs) = ap (λ l. x ∷ l) (take_all xs)

  pub drop_all : (xs : List A) → drop (length xs) xs ≡ []
  drop_all [] = refl
  drop_all (x ∷ xs) = drop_all xs

  pub get_elem?-set_self :
      (xs : List A) (i : ℕ) (v : A) → i < length xs → get_elem? (set xs i v) i ≡ some v
  get_elem?-set_self [] i v h = elim h [ ]
  get_elem?-set_self (x ∷ xs) zero v h = refl
  get_elem?-set_self (x ∷ xs) (suc i) v h = get_elem?-set_self xs i v (omega arith)

  pub get_elem?-set_ne :
      (xs : List A) (i j : ℕ) (v : A) → i ≢ j → get_elem? (set xs i v) j ≡ get_elem? xs j
  get_elem?-set_ne [] i j v h = refl
  get_elem?-set_ne (x ∷ xs) zero zero v h = absurd (h refl)
  get_elem?-set_ne (x ∷ xs) zero (suc j) v h = refl
  get_elem?-set_ne (x ∷ xs) (suc i) zero v h = refl
  get_elem?-set_ne (x ∷ xs) (suc i) (suc j) v h = get_elem?-set_ne xs i j v (λ e. h (ap suc e))

  -- An index in range finds an element, and an index that finds one is in range.
  pub get_elem?_total : (xs : List A) (i : ℕ) → i < length xs → (a : A) × (get_elem? xs i ≡ some a)
  get_elem?_total [] i h = elim h [ ]
  get_elem?_total (x ∷ xs) zero h = (x, refl)
  get_elem?_total (x ∷ xs) (suc i) h = get_elem?_total xs i (omega arith)

  pub get_elem?_bound : (xs : List A) (i : ℕ) (a : A) → get_elem? xs i ≡ some a → i < length xs
  get_elem?_bound [] i a h = cc
  get_elem?_bound (x ∷ xs) zero a h = omega arith
  get_elem?_bound (x ∷ xs) (suc i) a h = omega (arith, get_elem?_bound xs i a h)

  pub get_elem?-replicate : (n i : ℕ) (a b : A) → get_elem? (replicate n a) i ≡ some b → b ≡ a
  get_elem?-replicate zero i a b h = cc
  get_elem?-replicate (suc n) zero a b h = cc
  get_elem?-replicate (suc n) (suc i) a b h = get_elem?-replicate n i a b h

-- Prefixes.
module _ {ℓ} {A : Type ℓ} where
  pub take-suc :
      (n : ℕ) (xs : List A) (v : A)
      → get_elem? xs n ≡ some v
      → take (suc n) xs ≡ take n xs ++ v ∷ []
  take-suc n [] v h = cc
  take-suc zero (x ∷ xs) v h = cc
  take-suc (suc n) (x ∷ xs) v h = ap (λ l. x ∷ l) (take-suc n xs v h)

  pub take-set : (n : ℕ) (xs : List A) (v : A) → take n (set xs n v) ≡ take n xs
  take-set n [] v = refl
  take-set zero (x ∷ xs) v = refl
  take-set (suc n) (x ∷ xs) v = ap (λ l. x ∷ l) (take-set n xs v)

  pub take-suc-set :
      (n : ℕ) (xs : List A) (v : A)
      → n < length xs
      → take (suc n) (set xs n v) ≡ take n xs ++ v ∷ []
  take-suc-set n xs v h =
      take-suc n (set xs n v) v (get_elem?-set_self xs n v h)
      ∙ ap (λ l. l ++ v ∷ []) (take-set n xs v)

  pub take-take : (n k : ℕ) (xs : List A) → n ≤ k → take n (take k xs) ≡ take n xs
  take-take zero k xs h = refl
  take-take (suc n) zero xs h = elim h [ ]
  take-take (suc n) (suc k) [] h = refl
  take-take (suc n) (suc k) (x ∷ xs) h = ap (λ l. x ∷ l) (take-take n k xs (omega arith))

-- Membership with the place at which the element stands, and lists that hold nothing twice.
module _ {A : Type 0} where
  abbrev pub In : A → List A → Type 0
  In x [] = ⊥
  In x (y ∷ ys) = (x ≡ y) ⊎ In x ys

  abbrev pub Distinct : List A → Type 0
  Distinct [] = Unit
  Distinct (x ∷ xs) = All (λ y. x ≢ y) xs × Distinct xs

  pub All-map : {P Q : A → Type 0} → ((x : A) → P x → Q x) → (xs : List A) → All P xs → All Q xs
  All-map f [] h = tt
  All-map f (x ∷ xs) h = (f x h.0, All-map f xs h.1)

  pub All-in : (P : A → Type 0) (xs : List A) → All P xs → (x : A) → In x xs → P x
  All-in P [] h x m = elim m [ ]
  All-in P (y ∷ ys) h x m = elim m [ inl e ↦ subst P (sym e) h.0 | inr r ↦ All-in P ys h.1 x r ]

  pub in-append_left : (x : A) (xs ys : List A) → In x xs → In x (xs ++ ys)
  in-append_left x [] ys m = elim m [ ]
  in-append_left x (y ∷ xs) ys m = elim m [ inl e ↦ inl e | inr r ↦ inr (in-append_left x xs ys r) ]

  pub in-append_right : (x : A) (xs ys : List A) → In x ys → In x (xs ++ ys)
  in-append_right x [] ys m = m
  in-append_right x (y ∷ xs) ys m = inr (in-append_right x xs ys m)

  pub in-append : (x : A) (xs ys : List A) → In x (xs ++ ys) → In x xs ⊎ In x ys
  in-append x [] ys m = inr m
  in-append x (y ∷ xs) ys m = elim m [
    | inl e ↦ inl (inl e)
    | inr r ↦ elim (in-append x xs ys r) [ inl a ↦ inl (inr a) | inr b ↦ inr b ]
  ]

  -- An element that stands behind some others may be moved to the front.
  pub in_middle : (y : A) (xs ys : List A) (x : A) → In x (xs ++ y ∷ ys) → In x (y ∷ (xs ++ ys))
  in_middle y xs ys x m = elim (in-append x xs (y ∷ ys) m) [
    | inl a ↦ inr (in-append_left x xs ys a)
    | inr b ↦ elim b [ inl e ↦ inl e | inr c ↦ inr (in-append_right x xs ys c) ]
  ]

  pub All-append :
      (Q : A → Type 0) (front back : List A) → All Q front → All Q back → All Q (front ++ back)
  All-append Q [] back none_yet h = h
  All-append Q (y ∷ front) back (q, qs) h = (q, All-append Q front back qs h)

  pub Distinct-snoc :
      (xs : List A) (x : A) → Distinct xs → All (λ y. y ≢ x) xs → Distinct (xs ++ x ∷ [])
  Distinct-snoc [] x d h = (tt, tt)
  Distinct-snoc (y ∷ xs) x d h =
      (All-append (λ z. y ≢ z) xs (x ∷ []) d.0 (h.0, tt), Distinct-snoc xs x d.1 h.1)

-- What holds of each element of an array after one of them is written.
pub get_elem?-set {ℓ κ} :
    {A : Type ℓ} (P : ℕ → A → Type κ) (xs : List A) (i : ℕ) (v : A)
    → P i v
    → ((j : ℕ) (a : A) → i ≢ j → get_elem? xs j ≡ some a → P j a)
    → (j : ℕ) (a : A) → get_elem? (set xs i v) j ≡ some a
    → P j a
get_elem?-set P xs i v new old j a h = elim (ℕ_discrete i j) [
  | yes e ↦
      let here : get_elem? (set xs i v) i ≡ some v =
        get_elem?-set_self xs i v
          (omega (arith, get_elem?_bound (set xs i v) j a h, length-set xs i v)) in
      let same : v ≡ a = cc in subst (λ k. P k a) e (subst (P i) same new)
  | no ne ↦ old j a ne (sym (get_elem?-set_ne xs i j v ne) ∙ h)
]

module _ {A B : Type 0} (f : A → B) where
  pub All-map_of : (P : B → Type 0) (xs : List A) → All (λ x. P (f x)) xs → All P (map f xs)
  All-map_of P [] h = tt
  All-map_of P (x ∷ xs) h = (h.0, All-map_of P xs h.1)

  pub Distinct-map_snoc :
      (xs : List A) (x : A)
      → Distinct (map f xs)
      → All (λ y. f y ≢ f x) xs
      → Distinct (map f (xs ++ x ∷ []))
  Distinct-map_snoc xs x d h =
      rw map-append (Distinct-snoc (map f xs) (f x) d (All-map_of (λ y. y ≢ f x) xs h))
