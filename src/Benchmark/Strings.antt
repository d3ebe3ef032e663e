-- ===== src/Benchmark/Strings.antt =====
-- The strings that are made.
use libnetpaxos.Prelude.{
  ℕ, zero, suc, ◌+◌, ◌%◌, ◌≤◌, ◌≡◌, refl, arith, List, [], ◌∷◌, length, get_elem?, get_elem?_total,
  get_elem?-set_self, set, All, ltb, lt→ltb, true, some, ap, ◌∙◌, length-set,
}
use libnetpaxos.Prelude.{returned}
use libnetpaxos.Benchmark.{charset, rand_chars, rand_string, generate_array}

rand_chars-size :
    (k n : ℕ) (rand : ℕ → ℕ) (str : List ℕ)
    → n + k ≤ length str
    → (str' : List ℕ) × (rand_chars k n rand str ≡ returned str') × (length str' ≡ length str)
unfolding rand_chars
rand_chars-size zero n rand str h = (str, refl, refl)
rand_chars-size (suc k) n rand str h =
    let (c, found) = get_elem?_total charset (rand 0 % 40) (omega arith) in
    let inside : ltb n (length str) ≡ true = lt→ltb n (length str) (omega arith) in
    let (str', e, same) =
      rand_chars-size k (suc n) (λ j. rand (suc j)) (set str n c)
        (omega (arith, length-set str n c)) in
    (str', rw (found, inside, e) refl, same ∙ length-set str n c)

-- A string of `size` bytes that ends with its zero byte.
pub record IsString (size : ℕ) (str : List ℕ) : Type 0 where
  pub whole : length str ≡ suc size
  pub ended : get_elem? str size ≡ some 0

rand_string-IsString :
    (size : ℕ) (rand : ℕ → ℕ) (str : List ℕ)
    → length str ≡ suc size
    → (str' : List ℕ) × (rand_string str (suc size) rand ≡ returned str') × IsString size str'
unfolding rand_string
rand_string-IsString size rand str h =
    let (filled, e, same) = rand_chars-size size 0 rand str (omega (arith, h)) in
    let inside : ltb size (length filled) ≡ true =
      lt→ltb size (length filled) (omega (arith, h, same)) in
    (
      set filled size 0,
      rw (e, inside) refl,
      record {
        whole = length-set filled size 0 ∙ same ∙ h;
        ended = get_elem?-set_self filled size 0 (omega (arith, h, same));
      },
    )

-- `generate_array` makes `n` strings of the size that it is told, where `malloc` gives that much.
pub generate_array_lem :
    (n size : ℕ) (mem : ℕ → List ℕ) (rand : ℕ → ℕ → ℕ)
    → ((i : ℕ) → length (mem i) ≡ suc size)
    → (strs : List (List ℕ)) × (generate_array n (suc size) mem rand ≡ returned strs)
      × (length strs ≡ n)
      × All (IsString size) strs
unfolding generate_array
generate_array_lem zero size mem rand h = ([], refl, refl, tt)
generate_array_lem (suc n) size mem rand h =
    let (str, e, is_string) = rand_string-IsString size (rand 0) (mem 0) (h 0) in
    let (strs, e', count, all) =
      generate_array_lem n size (λ i. mem (suc i)) (λ i. rand (suc i)) (λ i. h (suc i)) in
    (str ∷ strs, rw (e, e') refl, ap suc count, (is_string, all))
