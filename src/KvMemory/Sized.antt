-- ===== src/KvMemory/Sized.antt =====
-- The ten bytes of an entry.
use libnetpaxos.Prelude.{
  ℕ, zero, suc, ◌⊎◌, ◌+◌, ◌≤◌, ◌<◌, ◌≡◌, refl, sym, ◌∙◌, arith, ap, true, inl, inr, Option, some,
  none, List, [], ◌∷◌, length, length-take, take, drop, leb, ◌==◌, Bool-cases, Option-cases,
}
use libnetpaxos.Prelude.{Outcome, returned, fault, ◌>>=◌, or_fault}
use libnetpaxos.Datagram.{byte}
use libnetpaxos.Store.{put_op}
use libnetpaxos.Replica.{load}
use libnetpaxos.KvMemory.{
  HashTable, KvState, c_str, copy_in, set_entry, new_value, find_or_add, add_entry, put_case,
  deliver,
}

-- Every entry in use has ten bytes.
unfoldable pub IsSized : {T : Type 0} → KvState T → Type 0
IsSized state = (s : ℕ) (value : List (Option ℕ)) → state.entries s ≡ some value → length value ≡ 10

-- A string is read, or the memory ends before it.
c_str-cases : (bs : List ℕ) → ((name : List ℕ) × (c_str bs ≡ returned name)) ⊎ (c_str bs ≡ fault)
unfolding c_str
c_str-cases [] = inr refl
c_str-cases (zero ∷ bs) = inl ([], refl)
c_str-cases (suc c ∷ bs) = elim (c_str-cases bs) [
  | inl (name, e) ↦ inl (suc c ∷ name, rw e refl)
  | inr e ↦ inr (rw e refl)
]

length-take-drop :
    (n off : ℕ) (xs : List ℕ) → off + n ≤ length xs → length (take n (drop off xs)) ≡ n
length-take-drop n zero xs h = length-take n xs ∙ omega (arith, h)
length-take-drop n (suc off) [] h = absurd (omega (arith, h))
length-take-drop n (suc off) (x ∷ xs) h = length-take-drop n off xs (omega (arith, h))

load-cases :
    (mem : List ℕ) (off n : ℕ)
    → ((bytes : List ℕ) × (load mem off n ≡ returned bytes) × (length bytes ≡ n))
      ⊎ (load mem off n ≡ fault)
unfolding load
load-cases mem off n = elim (Bool-cases (leb (off + n) (length mem))) [
  | inl within ↦
      inl
        (take n (drop off mem), rw within refl, length-take-drop n off mem (ground (arith, within)))
  | inr outside ↦ inr (rw outside refl)
]

copy_in_fault :
    (dst : List (Option ℕ)) (bs : List ℕ) → length dst < length bs → copy_in dst bs ≡ fault
unfolding copy_in
copy_in_fault dst [] h = absurd (omega (arith, h))
copy_in_fault [] (b ∷ bs) h = refl
copy_in_fault (d ∷ dst) (b ∷ bs) h = rw (copy_in_fault dst bs (omega (arith, h))) refl

-- The end of `add_entry` on an entry of ten bytes.
abbrev finish :
    {T : Type 0} → KvState T → ℕ → Option (List (Option ℕ)) → List ℕ → ℕ → Outcome (KvState T)
finish state s entry value vsize = do
  old ← or_fault entry
  bytes ← load value 0 vsize
  new ← copy_in old bytes
  returned (record state { entries = set_entry s (some new) state.entries })

finish_fault :
    {T : Type 0} (state : KvState T) (s : ℕ) (entry : Option (List (Option ℕ))) (value : List ℕ)
    (vsize : ℕ)
    → ((old : List (Option ℕ)) → entry ≡ some old → length old ≡ 10)
    → 10 < vsize
    → finish state s entry value vsize ≡ fault
finish_fault state s none value vsize sized big = refl
finish_fault state s (some old) value vsize sized big = elim (load-cases value 0 vsize) [
  | inl (bytes, e, size) ↦
      rw (e, copy_in_fault old bytes (omega (arith, sized old refl, size, big))) refl
  | inr e ↦ rw e refl
]

module _ {T : Type 0} (table : HashTable T) (state : KvState T) where
  add_entry_fault :
      (key : List ℕ) (ksize : ℕ) (value : List ℕ) (vsize : ℕ)
      → IsSized state
      → 10 < vsize
      → add_entry table state key ksize value vsize ≡ fault
  unfolding add_entry find_or_add IsSized
  add_entry_fault key ksize value vsize sized big = elim (c_str-cases key) [
    | inr e ↦ rw e refl
    | inl (name, e) ↦ rw e (elim (Option-cases (table.find state.hashmap name)) [
      | inr (s, found) ↦ rw found (finish_fault state s (state.entries s) value vsize (sized s) big)
      | inl missing ↦ rw missing (elim (load-cases key 0 ksize) [
        | inr over ↦ rw over refl
        | inl (bytes, within, _) ↦
            let here : (state.next == state.next) ≡ true = ground arith in
            rw (within, here)
              (finish_fault _ state.next (some new_value) value vsize
                (λ old same. let e : new_value ≡ old = cc same in ap length (sym e)) big)
      ])
    ])
  ]

-- Where all entries have ten bytes, no put of a value of more than ten is defined, whatever the key
-- and whatever the table finds.
pub put_overflow :
    {T : Type 0} (table : HashTable T) (state : KvState T) (request : List ℕ)
    → IsSized state
    → byte request 0 ≡ put_op
    → 10 < byte request 2
    → deliver table state request ≡ fault
unfolding deliver put_case
put_overflow table state request sized put big =
    rw
      (
        put,
        add_entry_fault table state (drop 3 request) (byte request 1)
            (drop (3 + byte request 1) request) (byte request 2) sized big,
      )
      refl
