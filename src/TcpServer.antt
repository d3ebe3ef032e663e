-- ===== src/TcpServer.antt =====
-- app/leveldb_tcp_server.c: a server of the database over TCP, without Paxos.
pub mod Refines
pub mod Bounds
mod Tests
use libnetpaxos.Prelude.{
  ℕ, suc, ◌+◌, Bool, Option, some, none, List, [], ◌∷◌, ◌++◌, drop, replicate, ◌==◌, if◌then◌else◌,
}
use libnetpaxos.Prelude.{Outcome, returned, fault, ◌>>=◌}
use libnetpaxos.Datagram.{byte, receive_into}
use libnetpaxos.Store.{
  LevelDb, Result, success, failed, got_value, not_found, invalid_op, put_op, get_op, delete_op,
}
use libnetpaxos.Replica.{load}

-- `struct application`: the database, and the requests since the last tick of the monitor.
pub record Application (Db : Type 0) : Type 0 where
  pub db : Db
  pub mps : ℕ

-- The sizes of key and value, an `unsigned char` each, and where the key begins.
abbrev pub ksize : List ℕ → ℕ
ksize request = byte request 1

abbrev pub vsize : List ℕ → ℕ
vsize request = byte request 2

abbrev pub key_at : ℕ
key_at = 3

-- "SUCCESS" and "NOT_FOUND" with their zero bytes; nothing for a failure.
unfoldable pub reply : Result → List ℕ → List ℕ
reply success value = 83 ∷ 85 ∷ 67 ∷ 67 ∷ 69 ∷ 83 ∷ 83 ∷ 0 ∷ []
reply got_value value = value
reply not_found value = 78 ∷ 79 ∷ 84 ∷ 95 ∷ 70 ∷ 79 ∷ 85 ∷ 78 ∷ 68 ∷ 0 ∷ []
reply failed value = []
reply invalid_op value = []

module _ {Db : Type 0} (level : LevelDb Db) where
  -- The database, the result, and the value that a get returns.
  abbrev pub Answered : Type 0
  Answered = Db × Result × List ℕ

  unfoldable pub put_request : Db → List ℕ → Outcome Answered
  put_request db request = do
    key ← load request key_at (ksize request)
    value ← load request (key_at + ksize request) (vsize request)
    elim (level.put db key value) [
      | none ↦ returned (db, failed, [])
      | some db' ↦ returned (db', success, [])
    ]

  unfoldable pub get_request : Db → List ℕ → Outcome Answered
  get_request db request = do
    key ← load request key_at (ksize request)
    elim (level.get db key) [
      | none ↦ returned (db, failed, [])
      | some none ↦ returned (db, not_found, [])
      | some (some value) ↦ returned (db, got_value, value)
    ]

  unfoldable pub delete_request : Db → List ℕ → Outcome Answered
  delete_request db request = do
    key ← load request key_at (ksize request)
    elim (level.delete db key) [
      | none ↦ returned (db, failed, [])
      | some db' ↦ returned (db', success, [])
    ]

  -- `deliver`, on a request that is not a null pointer.
  unfoldable pub deliver : Db → List ℕ → Outcome Answered
  deliver db request =
      if byte request 0 == 0
      then returned (db, failed, [])
      else if byte request 0 == put_op
      then put_request db request
      else if byte request 0 == get_op
      then get_request db request
      else if byte request 0 == delete_op
      then delete_request db request
      else returned (db, invalid_op, [])

  -- `readcb`: the application, what is left of the input, and what is added to the output.
  unfoldable pub readcb : Application Db → List ℕ → Outcome (Application Db × List ℕ × List ℕ)
  readcb ctx input = do
    (db, res, value) ← deliver ctx.db (receive_into (replicate 32 0) input)
    returned (record { db = db; mps = suc ctx.mps }, drop 32 input, reply res value)

  -- A connection: one call of `readcb` for each arrival, which is added to the input that the calls
  -- before have left, and all that is answered.
  unfoldable pub connection :
      List (List ℕ) → List ℕ → Application Db → Outcome (Application Db × List (List ℕ))
  connection [] left ctx = returned (ctx, [])
  connection (arrival ∷ rest) left ctx = do
    (ctx', left', output) ← readcb ctx (left ++ arrival)
    (last, outputs) ← connection rest left' ctx'
    returned (last, output ∷ outputs)

  -- `do_monitor`: prints the requests of the last second, if there were any, and forgets them.
  unfoldable pub do_monitor : Application Db → Application Db × Option ℕ
  do_monitor ctx = (record ctx { mps = 0 }, if ctx.mps == 0 then none else some ctx.mps)
