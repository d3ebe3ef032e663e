-- ===== src/KvMemory/Stored.antt =====
-- What a put stores and a get finds.
use libnetpaxos.Prelude.{
  ℕ, zero, suc, ◌+◌, ◌≤◌, ◌<◌, ◌≡◌, ◌≢◌, refl, ◌∙◌, arith, ap, true, Option, some, none, List, [],
  ◌∷◌, ◌++◌, map, length, length-append, take, drop, take-append, drop-append, All, ◌==◌,
}
use libnetpaxos.Prelude.{returned}
use libnetpaxos.Store.{success, put_op, get_op}
use libnetpaxos.Replica.{load}
use libnetpaxos.TcpServer.Bounds.{load_lem}
use libnetpaxos.KvMemory.{
  HashTable, KvState, c_str, copy_in, set_entry, new_value, find_or_add, add_entry, put_case,
  deliver,
}

-- A string of bytes that are not zero.
abbrev pub IsText : List ℕ → Type 0
IsText = All (λ b. 1 ≤ b)

c_str_text :
    (text rest name : List ℕ)
    → IsText text
    → c_str rest ≡ returned name
    → c_str (text ++ rest) ≡ returned (text ++ name)
unfolding c_str
c_str_text [] rest name t e = e
c_str_text (zero ∷ text) rest name (b, t) e = absurd (omega (arith, b))
c_str_text (suc c ∷ text) rest name (b, t) e = rw (c_str_text text rest name t e) refl

c_str_end : (text pad : List ℕ) → IsText text → c_str (text ++ 0 ∷ pad) ≡ returned text
unfolding c_str
c_str_end [] pad t = refl
c_str_end (zero ∷ text) pad (b, t) = absurd (omega (arith, b))
c_str_end (suc c ∷ text) pad (b, t) = rw (c_str_end text pad t) refl

take_text : (text pad : List ℕ) → take (suc (length text)) (text ++ 0 ∷ pad) ≡ text ++ 0 ∷ []
take_text [] pad = refl
take_text (c ∷ text) pad = ap (λ xs. c ∷ xs) (take_text text pad)

-- A value is copied over the first bytes of an entry.
copy_in_lem :
    (dst : List (Option ℕ)) (bs : List ℕ)
    → length bs ≤ length dst
    → copy_in dst bs ≡ returned (map some bs ++ drop (length bs) dst)
unfolding copy_in
copy_in_lem dst [] h = refl
copy_in_lem [] (b ∷ bs) h = elim h [ ]
copy_in_lem (d ∷ dst) (b ∷ bs) h = rw (copy_in_lem dst bs (omega arith)) refl

module _ {T : Type 0} (table : HashTable T) (state : KvState T) (key text pad : List ℕ) where
  -- The state with one entry more, under the key.
  abbrev pub stored : KvState T
  stored = record {
    hashmap = table.add state.hashmap key state.next;
    next = suc state.next;
    entries =
        set_entry state.next
          (some (map some (text ++ 0 ∷ []) ++ drop (length (text ++ 0 ∷ [])) new_value))
          (set_entry state.next (some new_value) state.entries);
  }

  add_entry-stored :
      IsText key
      → IsText text
      → length text < 10
      → table.find state.hashmap (key ++ text) ≡ none
      → add_entry table state
          (key ++ (text ++ 0 ∷ pad))
          (length key)
          (text ++ 0 ∷ pad)
          (suc (length text))
        ≡ returned stored
  unfolding add_entry find_or_add
  add_entry-stored kt tt' short new =
      let name = c_str_text key (text ++ 0 ∷ pad) text kt (c_str_end text pad tt') in
      let under : load (key ++ (text ++ 0 ∷ pad)) 0 (length key) ≡ returned key =
        rw
          (load_lem (key ++ (text ++ 0 ∷ pad)) 0 (length key)
            (omega (arith, length-append key (text ++ 0 ∷ pad))))
          (ap returned (take-append key (text ++ 0 ∷ pad))) in
      let here : (state.next == state.next) ≡ true = ground arith in
      let bytes : load (text ++ 0 ∷ pad) 0 (suc (length text)) ≡ returned (text ++ 0 ∷ []) =
        rw
          (load_lem (text ++ 0 ∷ pad) 0 (suc (length text))
            (omega (arith, length-append text (0 ∷ pad))))
          (ap returned (take_text text pad)) in
      let copied =
        copy_in_lem new_value (text ++ 0 ∷ [])
          (omega (arith, short, length-append text (0 ∷ []))) in
      rw (name, new, under, here, bytes, copied) refl

-- The requests of a client, as they lie in the memory of the value.
abbrev pub put_message : List ℕ → List ℕ → List ℕ → List ℕ
put_message key text pad = put_op ∷ length key ∷ suc (length text) ∷ (key ++ (text ++ 0 ∷ pad))

abbrev pub get_message : List ℕ → ℕ → List ℕ → List ℕ
get_message key vsize pad = get_op ∷ length key ∷ vsize ∷ (key ++ 0 ∷ pad)

-- What the documentation of uthash says of a key that is not in the table before it is added.
pub record IsTable {T : Type 0} (table : HashTable T) : Type 0 where
  pub found :
      (t : T) (key : List ℕ) (entry : ℕ)
      → table.find t key ≡ none
      → table.find (table.add t key entry) key ≡ some entry
  pub others :
      (t : T) (key other : List ℕ) (entry : ℕ)
      → table.find t key ≡ none
      → key ≢ other
      → table.find (table.add t key entry) other ≡ table.find t other

drop_header : (a b c n : ℕ) (xs : List ℕ) → drop (3 + n) (a ∷ b ∷ c ∷ xs) ≡ drop n xs
drop_header a b c n xs = let e : 3 + n ≡ suc (suc (suc n)) = omega arith in rw e refl

module _ {T : Type 0} (table : HashTable T) (state : KvState T) (key text pad : List ℕ) where
  pub put-stored :
      IsText key
      → IsText text
      → length text < 10
      → table.find state.hashmap (key ++ text) ≡ none
      → deliver table state (put_message key text pad)
        ≡ returned (stored table state key text pad, success, some (some 0 ∷ []))
  unfolding deliver put_case
  put-stored kt tt' short new =
      let value : drop (3 + length key) (put_message key text pad) ≡ text ++ 0 ∷ pad =
        drop_header put_op (length key) (suc (length text)) (length key) (key ++ (text ++ 0 ∷ pad))
        ∙ drop-append key (text ++ 0 ∷ pad) in
      rw (value, add_entry-stored table state key text pad kt tt' short new) refl
