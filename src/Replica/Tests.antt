-- ===== src/Replica/Tests.antt =====
-- Replicas over a database of at most one entry.
use libnetpaxos.Prelude.{ℕ, ◌≡◌, ◌≢◌, refl, Option, some, none}
use libnetpaxos.Prelude.{List, [], ◌∷◌, ◌++◌, take, replicate, returned, fault}
use libnetpaxos.Prelude.Int.{pos}
use libnetpaxos.Datagram.{byte, store}
use libnetpaxos.Store.{LevelDb, success, put_op}
use libnetpaxos.Replica.{
  Delivered, my_turn, load, answer, finish, failing, put_entry, found, get_entry, delete_entry,
  deliver,
}
use libnetpaxos.Replica.Overruns.{deliver_overruns}

-- A database with room for the value of one key; another key replaces it.
abbrev one_entry : LevelDb (Option (List ℕ))
one_entry = record {
  put = λ db key value. some (some value);
  get = λ db key. some db;
  delete = λ db key. some none;
}

-- A request for operation `op` with the value "123456".
abbrev request_of : ℕ → List ℕ
request_of op =
    7
    ∷ 0
    ∷ 0
    ∷ 0
    ∷ op
    ∷ (replicate 19 0 ++ 97 ∷ 98 ∷ 99 ∷ 100 ∷ 101 ∷ 49 ∷ 50 ∷ 51 ∷ 52 ∷ 53 ∷ 54 ∷ replicate 5 0)

abbrev answering : Delivered (Option (List ℕ))
answering = record {
  db = some (49 ∷ 50 ∷ 51 ∷ 52 ∷ 53 ∷ 54 ∷ []);
  mem = request_of 1;
  result = success;
  sent = some (request_of 1);
}

abbrev silent : Delivered (Option (List ℕ))
silent = record answering { sent = none }

-- Of two replicas the second one answers for instance 5.
answers : deliver one_entry (pos 2) (pos 1) 5 none (request_of 1) ≡ returned answering
unfolding deliver my_turn load put_entry finish answer get_entry delete_entry found failing store
answers = refl

keeps_silent : deliver one_entry (pos 2) (pos 0) 5 none (request_of 1) ≡ returned silent
unfolding deliver my_turn load put_entry finish answer get_entry delete_entry found failing store
keeps_silent = refl

-- A get of a missing key dereferences the null pointer.
missing : deliver one_entry (pos 2) (pos 0) 5 none (request_of 2) ≡ fault
unfolding deliver my_turn load put_entry finish answer get_entry delete_entry found failing store
missing = refl

-- The first 32 bytes of a delete, which is the other replica's turn to answer.
abbrev deletion : List ℕ
deletion = take 32 (request_of 3)

abbrev deleted : Delivered (Option (List ℕ))
deleted = record { db = none; mem = deletion; result = success; sent = none }

deletes : deliver one_entry (pos 2) (pos 0) 5 (some (49 ∷ [])) deletion ≡ returned deleted
unfolding deliver my_turn load put_entry finish answer get_entry delete_entry found failing store
deletes = refl

deliver_overruns_example : (deleted.sent ≡ none) × (byte deletion 4 ≢ put_op)
deliver_overruns_example =
    deliver_overruns one_entry (pos 2) (pos 0) 5 (some (49 ∷ [])) deletion refl deletes
