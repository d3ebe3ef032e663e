-- ===== src/Benchmark/Tests.antt =====
-- Two keys of two bytes.
use libnetpaxos.Prelude.{
  ℕ, zero, suc, ◌≡◌, refl, arith, ap, Option, some, none, List, [], ◌∷◌, length, get_elem?,
  replicate, returned,
}
use libnetpaxos.Store.{Map}
use libnetpaxos.Store.Function.{function_db, function_db-IsMap, function_db-IsReliable}
use libnetpaxos.Benchmark.{fill, read_random}
use libnetpaxos.Benchmark.Filled.{IsWorkload, Found, fill-Found}

abbrev two_keys : List (List ℕ)
two_keys = (97 ∷ 0 ∷ []) ∷ (98 ∷ 0 ∷ []) ∷ []

abbrev two_values : List (List ℕ)
two_values = (99 ∷ 0 ∷ []) ∷ (99 ∷ 0 ∷ []) ∷ []

two_keys-size : (i : ℕ) (key : List ℕ) → get_elem? two_keys i ≡ some key → length key ≡ 2
two_keys-size zero key h = let e : key ≡ 97 ∷ 0 ∷ [] = cc h in ap length e
two_keys-size (suc zero) key h = let e : key ≡ 98 ∷ 0 ∷ [] = cc h in ap length e
two_keys-size (suc (suc i)) key h = absurd (cc h)

two_values-size : (i : ℕ) (value : List ℕ) → get_elem? two_values i ≡ some value → length value ≡ 2
two_values-size zero value h = let e : value ≡ 99 ∷ 0 ∷ [] = cc h in ap length e
two_values-size (suc zero) value h = let e : value ≡ 99 ∷ 0 ∷ [] = cc h in ap length e
two_values-size (suc (suc i)) value h = absurd (cc h)

letters_differ : ◌≡◌ {A = ℕ} 97 98 → ⊥
letters_differ e = omega (arith, e)

two_keys_differ :
    (i j : ℕ) (key : List ℕ)
    → get_elem? two_keys i ≡ some key
    → get_elem? two_keys j ≡ some key
    → i ≡ j
two_keys_differ zero zero key h h' = refl
two_keys_differ zero (suc zero) key h h' = absurd (letters_differ (cc (h, h')))
two_keys_differ zero (suc (suc j)) key h h' = absurd (cc h')
two_keys_differ (suc zero) zero key h h' = absurd (letters_differ (cc (h, h')))
two_keys_differ (suc zero) (suc zero) key h h' = refl
two_keys_differ (suc zero) (suc (suc j)) key h h' = absurd (cc h')
two_keys_differ (suc (suc i)) j key h h' = absurd (cc h)

two_keys-IsWorkload : IsWorkload 1 two_keys 2 two_values 2
two_keys-IsWorkload = record {
  key_count = refl;
  value_count = refl;
  key_size = two_keys-size;
  value_size = two_values-size;
  no_twice = two_keys_differ;
}

abbrev nothing : Map
nothing k = none

fill-Found_example :
    (db : Map) × (vs : List (Option (List ℕ))) × (fill function_db 3 0 2 two_keys 2 two_values 2
        nothing
      ≡ returned db)
    × (read_random function_db 5 0 2 two_keys 2 db ≡ returned vs)
    × (length vs ≡ 5)
    × Found 1 two_values 0 vs
fill-Found_example =
    fill-Found function_db (λ f. f) function_db-IsMap function_db-IsReliable 1 two_keys 2 two_values
      2 two_keys-IsWorkload 3 5 nothing (omega arith)

abbrev zeros : ℕ → List ℕ
zeros i = replicate 16 0

abbrev counting : ℕ → ℕ → ℕ
counting i j = j
