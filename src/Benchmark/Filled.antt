-- ===== src/Benchmark/Filled.antt =====
-- What the database holds when it is filled, and what is read.
use native.Mathlib.Nat.{mod-lt, mod-eq_of_lt}
use libnetpaxos.Prelude.{
  ℕ, zero, suc, ◌+◌, ◌%◌, ◌≤◌, ◌<◌, ◌≡◌, refl, subst, arith, inl, inr, ap, sym, ◌∙◌, Option, some,
  List, [], ◌∷◌, length, take, get_elem?, get_elem?_total, get_elem?_bound, take_all, ◌==◌, ==→eq,
  Bool-cases, same_word, same_word-eq, same_word_refl, true, false,
}
use libnetpaxos.Prelude.{returned}
use libnetpaxos.Store.{LevelDb, IsMap, IsReliable, Map}
use libnetpaxos.Replica.{load}
use libnetpaxos.TcpServer.Bounds.{load_lem}
use libnetpaxos.Benchmark.{add_entry, get_value, index_of, fill, read_random}

-- Keys and values to fill a database with: as many of both, of the sizes that are told, and no key
-- twice.
pub record IsWorkload (n : ℕ) (keys : List (List ℕ)) (ksize : ℕ) (values : List (List ℕ))
    (vsize : ℕ) : Type 0 where
  pub key_count : length keys ≡ suc n
  pub value_count : length values ≡ suc n
  pub key_size : (i : ℕ) (key : List ℕ) → get_elem? keys i ≡ some key → length key ≡ ksize
  pub value_size : (i : ℕ) (value : List ℕ) → get_elem? values i ≡ some value → length value ≡ vsize
  pub no_twice :
      (i j : ℕ) (key : List ℕ) → get_elem? keys i ≡ some key → get_elem? keys j ≡ some key → i ≡ j

load_whole : (mem : List ℕ) (n : ℕ) → length mem ≡ n → load mem 0 n ≡ returned mem
load_whole mem n h =
    load_lem mem 0 n (omega (arith, h)) ∙ ap returned (ap (λ k. take k mem) (sym h) ∙ take_all mem)

-- An index that the round `i` does not reach, and no later round would have reached first.
last_round : (n i j : ℕ) → j < suc i → j < suc n → (j == i % suc n) ≡ false → j < i
last_round n i j lt below other = elim (Bool-cases (j == i)) [
  | inl e ↦
      let same : j ≡ i = ==→eq j i e in
      let small : i % suc n ≡ i = mod-eq_of_lt (subst (λ x. x < suc n) same below) in
      absurd (ground (arith, same, small))
  | inr e ↦ ground arith
]

-- What a reading from the round `i` on finds: the values of the keys in turn.
pub data Found (n : ℕ) (values : List (List ℕ)) : ℕ → List (Option (List ℕ)) → Type 0 where
  none_left : (i : ℕ) → Found n values i []
  found :
      (i : ℕ) (value : List ℕ) {rest : List (Option (List ℕ))}
      → get_elem? values (i % suc n) ≡ some value
      → Found n values (suc i) rest
      → Found n values i (some value ∷ rest)

module _ {Db : Type 0} (level : LevelDb Db) (look : Db → Map) (is_map : IsMap level look)
    (reliable : IsReliable level) (n : ℕ) (keys : List (List ℕ)) (ksize : ℕ)
    (values : List (List ℕ)) (vsize : ℕ) (w : IsWorkload n keys ksize values vsize) where
  -- The first `i` keys are in the database with their values.
  abbrev Holds : ℕ → Db → Type 0
  Holds i db =
      (j : ℕ) (key value : List ℕ)
      → j < i
      → get_elem? keys j ≡ some key
      → get_elem? values j ≡ some value
      → look db key ≡ some value

  -- One round: the key and the value at `i % num_keys` are put.
  put_round-Holds :
      (i : ℕ) (db db' : Db) (key value : List ℕ)
      → get_elem? keys (i % suc n) ≡ some key
      → get_elem? values (i % suc n) ≡ some value
      → level.put db key value ≡ some db'
      → Holds i db
      → Holds (suc i) db'
  put_round-Holds i db db' key value hk hv put before j key' value' lt hk' hv' =
      let changed = is_map.put_lem db db' key value put key' in
      elim (Bool-cases (j == i % suc n)) [
        | inl e ↦
            let same : j ≡ i % suc n = ==→eq j (i % suc n) e in
            let one : key ≡ key' = cc (hk, hk', same) in
            let two : value ≡ value' = cc (hv, hv', same) in
            let itself : same_word key key' ≡ true =
              ap (λ k. same_word key k) (sym one) ∙ same_word_refl key in
            changed ∙ rw itself (ap some two)
        | inr e ↦
            let below : j < suc n = omega (arith, get_elem?_bound keys j key' hk', w.key_count) in
            let earlier : j < i = last_round n i j lt below e in
            elim (Bool-cases (same_word key key')) [
              | inl same_key ↦
                  let one : key ≡ key' = same_word-eq key key' same_key in
                  let j_too : get_elem? keys j ≡ some key = hk' ∙ ap some (sym one) in
                  let same : j ≡ i % suc n = w.no_twice j (i % suc n) key j_too hk in
                  absurd (ground (arith, same))
              | inr other_key ↦ changed ∙ rw other_key (before j key' value' earlier hk' hv')
            ]
      ]

  -- All rounds.
  pub fill-Holds :
      (k i : ℕ) (db : Db)
      → Holds i db
      → (db' : Db) × (fill level k i (suc n) keys ksize values vsize db ≡ returned db')
        × Holds (i + k) db'
  unfolding fill index_of add_entry
  fill-Holds zero i db before = (db, refl, λ j key value lt. before j key value (omega arith))
  fill-Holds (suc k) i db before =
      let below : i % suc n < suc n = mod-lt i (omega arith) in
      let (key, hk) = get_elem?_total keys (i % suc n) (omega (arith, below, w.key_count)) in
      let (value, hv) = get_elem?_total values (i % suc n) (omega (arith, below, w.value_count)) in
      let (db1, put) = reliable.puts db key value in
      let whole_key = load_whole key ksize (w.key_size (i % suc n) key hk) in
      let whole_value = load_whole value vsize (w.value_size (i % suc n) value hv) in
      let (db', e, after) =
        fill-Holds k (suc i) db1 (put_round-Holds i db db1 key value hk hv put before) in
      (
        db',
        rw (hk, hv, whole_key, whole_value, put, e) refl,
        λ j key' value' lt. after j key' value' (omega arith),
      )

  -- A reading of a database that holds all keys.
  read_random-Found :
      (k i : ℕ) (db : Db)
      → Holds (suc n) db
      → (vs : List (Option (List ℕ))) × (read_random level k i (suc n) keys ksize db ≡ returned vs)
        × (length vs ≡ k)
        × Found n values i vs
  unfolding read_random index_of get_value
  read_random-Found zero i db held = ([], refl, refl, none_left i)
  read_random-Found (suc k) i db held =
      let below : i % suc n < suc n = mod-lt i (omega arith) in
      let (key, hk) = get_elem?_total keys (i % suc n) (omega (arith, below, w.key_count)) in
      let (value, hv) = get_elem?_total values (i % suc n) (omega (arith, below, w.value_count)) in
      let whole_key = load_whole key ksize (w.key_size (i % suc n) key hk) in
      let (v, got) = reliable.gets db key in
      let here : v ≡ some value =
        is_map.get_lem db key v got ∙ held (i % suc n) key value below hk hv in
      let (vs, e, count, more) = read_random-Found k (suc i) db held in
      (some value ∷ vs, rw (hk, whole_key, got, here, e) refl, ap suc count, found i value hv more)

  -- A database that reports no error and is filled in at least as many rounds as there are keys, no
  -- two of which are the same, then gives for each key that is read the value that belongs to it.
  pub fill-Found :
      (rounds readings : ℕ) (db : Db)
      → suc n ≤ rounds
      → (db' : Db) × (vs : List (Option (List ℕ))) × (fill level rounds 0
            (suc n)
            keys
            ksize
            values
            vsize
            db
          ≡ returned db')
        × (read_random level readings 0 (suc n) keys ksize db' ≡ returned vs)
        × (length vs ≡ readings)
        × Found n values 0 vs
  fill-Found rounds readings db enough =
      let (db', e, after) = fill-Holds rounds 0 db (λ j key value lt. absurd (omega arith)) in
      let (vs, e', count, all) =
        read_random-Found readings 0 db' (λ j key value lt. after j key value (omega arith)) in
      (db', vs, e, e', count, all)
