-- ===== src/Memory/Replica.antt =====
-- app/simple_learner.c and app/leveldb_paxos.c: the blocks of the replicas.
pub mod Release
use libnetpaxos.Prelude.{
  ℕ, zero, suc, ◌+◌, ◌≤◌, ◌≡◌, refl, arith, Bool, Option, none, some, List, [], ◌∷◌, ◌++◌, length,
  All, length-append,
}
use libnetpaxos.Prelude.{Outcome, fault}
use libnetpaxos.Memory.{Heap, Mem, pure, and_then, ◌>>=◌, ◌>>◌, malloc, touch, free, free_fields}
use libnetpaxos.Memory.Holds.{
  Holds, Holds-perm, Returns, returns, bind, mono, malloc-Holds, free-Holds, touch-Holds,
  free_fields-Holds, count, count-append, IsHeap, Leaves, Left, free_last-Leaves,
}
use libnetpaxos.Memory.Config.{conf_blocks, conf_blocks-Holds}
use libnetpaxos.Memory.Cells.{blocks}
use libnetpaxos.Memory.Learner.{
  learner_blocks, free_learner, all, fields, learner_blocks-Holds, free_learner-Holds,
}

-- `main` of simple_learner.c.
unfoldable pub simple_learner_main : ℕ → Mem (Unit {0})
simple_learner_main maxinst = do
  conf ← conf_blocks
  app ← malloc
  touch app
  (l, e) ← learner_blocks maxinst
  free_learner l e
  free conf
  free app

-- What LevelDB answers in a call of `deliver`: nothing, an error message, or a value, `none` where
-- there is none.
pub data Answer : Type 0 where
  done error : Answer
  got : Option (List ℕ) → Answer

-- `deliver` of leveldb_paxos.c. The value is released if its first byte is not zero.
unfoldable pub deliver_blocks : Answer → Mem (Unit {0})
deliver_blocks done = pure tt
deliver_blocks error = do err ← malloc; free err
deliver_blocks (got none) = λ h. fault
deliver_blocks (got (some [])) = λ h. fault
deliver_blocks (got (some (zero ∷ rest))) = do return_val ← malloc; touch return_val
deliver_blocks (got (some (suc c ∷ rest))) = do
  return_val ← malloc
  touch return_val
  free return_val

unfoldable pub serve_all : List Answer → Mem (Unit {0})
serve_all [] = pure tt
serve_all (a ∷ answers) = do deliver_blocks a; serve_all answers

-- The pointers of `struct application`.
pub record ApplicationBlocks : Type 0 where
  pub state : ℕ
  pub options : ℕ
  pub db : ℕ
  pub woptions : ℕ
  pub roptions : ℕ

-- `application_new`, where the database can be opened.
unfoldable pub new_application : Mem ApplicationBlocks
new_application = do
  state ← malloc
  options ← malloc
  db ← malloc
  woptions ← malloc
  roptions ← malloc
  touch state
  pure (record {
    state = state;
    options = options;
    db = db;
    woptions = woptions;
    roptions = roptions;
  })

-- `application_destroy`.
unfoldable pub free_application : ApplicationBlocks → Mem (Unit {0})
free_application a = do
  free_fields (a.state ∷ []) (a.db ∷ a.woptions ∷ a.roptions ∷ a.options ∷ [])
  free a.state

-- `main` of leveldb_paxos.c.
unfoldable pub leveldb_paxos_main : ℕ → List Answer → Mem (Unit {0})
leveldb_paxos_main maxinst answers = do
  a ← new_application
  conf ← conf_blocks
  touch conf
  (l, e) ← learner_blocks maxinst
  serve_all answers
  free_learner l e
  free_application a
  free conf
