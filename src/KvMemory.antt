-- ===== src/KvMemory.antt =====
-- app/kv_memory.c: the application that keeps its entries in a hash table of uthash.
pub mod Stored
pub mod Sized
mod Tests
use libnetpaxos.Prelude.{
  ℕ, zero, suc, ◌+◌, Option, some, none, List, [], ◌∷◌, ◌++◌, map, drop, replicate, ◌==◌,
  if◌then◌else◌,
}
use libnetpaxos.Prelude.{Outcome, returned, fault, ◌>>=◌, or_fault}
use libnetpaxos.Datagram.{byte}
use libnetpaxos.Store.{
  Result, success, failed, got_value, not_found, invalid_op, put_op, get_op, delete_op,
}
use libnetpaxos.Replica.{load}

-- uthash, as the code uses it: HASH_FIND_STR, HASH_ADD_KEYPTR and HASH_DEL, from the bytes of a key
-- to the number of an entry.
pub record HashTable (T : Type 0) : Type 0 where
  pub find : T → List ℕ → Option ℕ
  pub add : T → List ℕ → ℕ → T
  pub del : T → ℕ → T

-- `struct application` and the entries in memory; a byte that has not been set is `none`. The key of
-- an entry lies in the memory of an instance that has been delivered, which does not change.
pub record KvState (T : Type 0) : Type 0 where
  pub hashmap : T
  pub next : ℕ
  pub entries : ℕ → Option (List (Option ℕ))

-- The bytes before the first zero byte, for `strlen`; undefined without one.
unfoldable pub c_str : List ℕ → Outcome (List ℕ)
c_str [] = fault
c_str (zero ∷ bs) = returned []
c_str (suc c ∷ bs) = c_str bs >>= λ rest. returned (suc c ∷ rest)

-- The same of a value, whose bytes may be unset.
unfoldable pub entry_string : List (Option ℕ) → Outcome (List (Option ℕ))
entry_string [] = fault
entry_string (none ∷ bs) = fault
entry_string (some zero ∷ bs) = returned []
entry_string (some (suc c) ∷ bs) = entry_string bs >>= λ rest. returned (some (suc c) ∷ rest)

-- `memcpy(s->value, value, vsize)`.
unfoldable pub copy_in : List (Option ℕ) → List ℕ → Outcome (List (Option ℕ))
copy_in dst [] = returned dst
copy_in [] (b ∷ bs) = fault
copy_in (d ∷ dst) (b ∷ bs) = copy_in dst bs >>= λ rest. returned (some b ∷ rest)

abbrev pub set_entry :
    ℕ → Option (List (Option ℕ)) → (ℕ → Option (List (Option ℕ))) → ℕ → Option (List (Option ℕ))
set_entry s value entries q = if s == q then value else entries q

-- `char value[10]` of a new entry.
abbrev pub new_value : List (Option ℕ)
new_value = replicate 10 none

-- `application_new`, with an empty table.
abbrev pub application_new : {T : Type 0} → T → KvState T
application_new empty = record { hashmap = empty; next = 0; entries = λ q. none }

module _ {T : Type 0} (table : HashTable T) where
  -- The entry that was found, or a new one under the first `ksize` bytes of the key.
  unfoldable pub find_or_add : KvState T → List ℕ → ℕ → Option ℕ → Outcome (KvState T × ℕ)
  find_or_add state key ksize (some s) = returned (state, s)
  find_or_add state key ksize none = do
    bytes ← load key 0 ksize
    returned (
      record {
        hashmap = table.add state.hashmap bytes state.next;
        next = suc state.next;
        entries = set_entry state.next (some new_value) state.entries;
      },
      state.next,
    )

  unfoldable pub add_entry : KvState T → List ℕ → ℕ → List ℕ → ℕ → Outcome (KvState T)
  add_entry state key ksize value vsize = do
    name ← c_str key
    (state', s) ← find_or_add state key ksize (table.find state.hashmap name)
    old ← or_fault (state'.entries s)
    bytes ← load value 0 vsize
    new ← copy_in old bytes
    returned (record state' { entries = set_entry s (some new) state'.entries })

  unfoldable pub find_entry : KvState T → List ℕ → Outcome (Option ℕ)
  find_entry state key = do name ← c_str key; returned (table.find state.hashmap name)

  -- `delete_entry`, with the release of the entry.
  unfoldable pub delete_entry : KvState T → ℕ → Outcome (KvState T)
  delete_entry state s = do
    value ← or_fault (state.entries s)
    returned (record state {
      hashmap = table.del state.hashmap s;
      entries = set_entry s none state.entries;
    })

  -- The state, the result, and the bytes that `send_msg` is given, where it is called.
  abbrev pub Answered : Type 0
  Answered = KvState T × Result × Option (List (Option ℕ))

  -- The end of `deliver`, which sends a byte of a variable that is not set.
  abbrev invalid : KvState T → Outcome Answered
  invalid state = returned (state, invalid_op, some (none ∷ []))

  unfoldable pub get_answer : KvState T → Option ℕ → Outcome Answered
  get_answer state none = returned (state, not_found, some (some 2 ∷ []))
  get_answer state (some s) = do
    value ← or_fault (state.entries s)
    bytes ← entry_string value
    returned (state, got_value, some bytes)

  unfoldable pub delete_answer : KvState T → Option ℕ → Outcome Answered
  delete_answer state none = invalid state
  delete_answer state (some s) = do
    state' ← delete_entry state s
    returned (state', success, some (some 0 ∷ []))

  -- The three cases of `deliver`, on the bytes of the request.
  unfoldable pub put_case : KvState T → List ℕ → Outcome Answered
  put_case state request = do
    state' ←
        add_entry state (drop 3 request) (byte request 1) (drop (3 + byte request 1) request)
          (byte request 2)
    returned (state', success, some (some 0 ∷ []))

  unfoldable pub get_case : KvState T → List ℕ → Outcome Answered
  get_case state request = do entry ← find_entry state (drop 3 request); get_answer state entry

  unfoldable pub delete_case : KvState T → List ℕ → Outcome Answered
  delete_case state request = do
    entry ← find_entry state (drop 3 request)
    delete_answer state entry

  -- `deliver`, on the memory of the value, which is not a null pointer.
  unfoldable pub deliver : KvState T → List ℕ → Outcome Answered
  deliver state request =
      if byte request 0 == 0
      then returned (state, failed, none)
      else if byte request 0 == put_op
      then put_case state request
      else if byte request 0 == get_op
      then get_case state request
      else if byte request 0 == delete_op
      then delete_case state request
      else invalid state
