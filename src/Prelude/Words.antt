-- ===== src/Prelude/Words.antt =====
-- Comparing byte strings.
use Prim.Native.Nat.{ℕ}
use mathlib.Core.Path.{◌≡◌, refl, ap₂}
use mathlib.Core.Logic.{inl, inr}
use mathlib.Core.Bool.{Bool, true, false}
use mathlib.Core.List.{List, [], ◌∷◌}
use native.Mathlib.Omega.{arith}
use libnetpaxos.Prelude.Tests.{◌==◌, ==→eq, if◌then◌else◌, Bool-cases}

-- `strcmp(x, y) == 0` of two strings, `memcmp` of two byte strings with their sizes.
abbrev pub same_word : List ℕ → List ℕ → Bool
same_word [] [] = true
same_word [] (d ∷ ds) = false
same_word (c ∷ cs) [] = false
same_word (c ∷ cs) (d ∷ ds) = if c == d then same_word cs ds else false

pub same_word-eq : (x y : List ℕ) → same_word x y ≡ true → x ≡ y
same_word-eq [] [] h = refl
same_word-eq [] (d ∷ ds) h = absurd (cc h)
same_word-eq (c ∷ cs) [] h = absurd (cc h)
same_word-eq (c ∷ cs) (d ∷ ds) h = elim (Bool-cases (c == d)) [
  | inl e ↦
      let rest : same_word cs ds ≡ true = ground arith in
      ap₂ (λ a l. a ∷ l) (==→eq c d e) (same_word-eq cs ds rest)
  | inr e ↦ absurd (ground arith)
]

pub same_word_refl : (x : List ℕ) → same_word x x ≡ true
same_word_refl [] = refl
same_word_refl (c ∷ cs) = let e : (c == c) ≡ true = ground arith in rw e (same_word_refl cs)
