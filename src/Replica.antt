-- ===== src/Replica.antt =====
-- app/simple_learner.c and app/leveldb_paxos.c: the applications that the learners deliver to. The
-- message of a client is read where the learner keeps the value.
pub mod Overruns
mod Tests
use libnetpaxos.Prelude.{
  ℕ, zero, suc, ◌+◌, ◌%◌, Bool, true, false, Option, some, none, List, [], ◌∷◌, ◌++◌,
}
use libnetpaxos.Prelude.{
  length, take, drop, leb, ◌==◌, if◌then◌else◌, Outcome, returned, fault, ◌>>=◌,
}
use libnetpaxos.Prelude.Int.{ℤ, pos, negsuc}
use libnetpaxos.Store.{
  LevelDb, Result, success, failed, got_value, not_found, invalid_op, put_op, get_op, delete_op,
}
use libnetpaxos.Datagram.{byte, store}

-- `inst % num_acceptors == id`: undefined for no acceptors.
unfoldable pub my_turn : ℕ → ℤ → ℤ → Outcome Bool
my_turn inst (pos zero) id = fault
my_turn inst n (negsuc id) = returned false
my_turn inst (pos (suc n)) (pos id) = returned (inst % suc n == id)
my_turn inst (negsuc n) (pos id) = returned (inst % suc n == id)

-- `sizeof(struct request)`, and where its members lie.
abbrev pub request_size : ℕ
request_size = 40

abbrev pub op_offset : ℕ
op_offset = 4

abbrev pub key_offset : ℕ
key_offset = 24

abbrev pub value_offset : ℕ
value_offset = 29

-- `n` bytes from `off` on, undefined past the end of the memory that belongs to the value.
unfoldable pub load : List ℕ → ℕ → ℕ → Outcome (List ℕ)
load mem off n = if leb (off + n) (length mem) then returned (take n (drop off mem)) else fault

-- What `send_msg` is given, where it is called.
unfoldable pub answer : Bool → List ℕ → Outcome (Option (List ℕ))
answer false mem = returned none
answer true mem = load mem 0 request_size >>= λ bytes. returned (some bytes)

-- `deliver` of simple_learner.c; `mem` is the memory from the value on.
unfoldable pub echo : ℤ → ℤ → ℕ → List ℕ → Outcome (Option (List ℕ))
echo num_acceptors server_id inst mem = do
  mine ← my_turn inst num_acceptors server_id
  answer mine mem

pub record Delivered (Db : Type 0) : Type 0 where
  pub db : Db
  pub mem : List ℕ
  pub result : Result
  pub sent : Option (List ℕ)

module _ {Db : Type 0} (level : LevelDb Db) where
  -- The end of a branch: the answer if it is this replica's turn, and the result.
  unfoldable pub finish : Bool → Db → List ℕ → Result → Outcome (Delivered Db)
  finish mine db mem result = answer mine mem >>= λ sent.
      returned (record { db = db; mem = mem; result = result; sent = sent })

  -- An error of LevelDB: nothing is sent.
  unfoldable pub failing : Db → List ℕ → Outcome (Delivered Db)
  failing db mem = returned (record { db = db; mem = mem; result = failed; sent = none })

  unfoldable pub put_entry : Bool → Db → List ℕ → Outcome (Delivered Db)
  put_entry mine db mem = do
    key ← load mem key_offset 5
    value ← load mem value_offset 6
    elim (level.put db key value) [ none ↦ failing db mem | some db' ↦ finish mine db' mem success ]

  -- `if (*return_val)`: a value is copied over that of the request unless it is empty or begins
  -- with a zero byte; a null pointer is dereferenced.
  unfoldable pub found : Bool → Db → List ℕ → Option (List ℕ) → Outcome (Delivered Db)
  found mine db mem none = fault
  found mine db mem (some []) = fault
  found mine db mem (some (zero ∷ rest)) = finish mine db mem not_found
  found mine db mem (some (suc c ∷ rest)) =
      store mem value_offset (suc c ∷ rest) >>= λ mem'. finish mine db mem' got_value

  unfoldable pub get_entry : Bool → Db → List ℕ → Outcome (Delivered Db)
  get_entry mine db mem = do
    key ← load mem key_offset 5
    elim (level.get db key) [ none ↦ failing db mem | some value ↦ found mine db mem value ]

  unfoldable pub delete_entry : Bool → Db → List ℕ → Outcome (Delivered Db)
  delete_entry mine db mem = do
    key ← load mem key_offset 5
    elim (level.delete db key) [ none ↦ failing db mem | some db' ↦ finish mine db' mem success ]

  -- `deliver` of leveldb_paxos.c.
  unfoldable pub deliver : ℤ → ℤ → ℕ → Db → List ℕ → Outcome (Delivered Db)
  deliver num_acceptors node_id inst db mem = do
    mine ← my_turn inst num_acceptors node_id
    op ← load mem op_offset 1
    if byte op 0 == put_op
        then put_entry mine db mem
        else if byte op 0 == get_op
        then get_entry mine db mem
        else if byte op 0 == delete_op
        then delete_entry mine db mem
        else returned (record { db = db; mem = mem; result = invalid_op; sent = none })
