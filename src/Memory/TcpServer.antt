-- ===== src/Memory/TcpServer.antt =====
-- app/leveldb_tcp_server.c: the blocks of the TCP server and of its connections.
pub mod Release
use libnetpaxos.Prelude.{
  ℕ, zero, suc, ◌+◌, ◌-◌, ◌≤◌, ◌≡◌, refl, arith, ap, sym, Bool, true, false, Option, none, some,
  List, [], ◌∷◌, ◌++◌, length, length-append, if◌then◌else◌, ltb,
}
use libnetpaxos.Memory.{
  Heap, Mem, pure, and_then, ◌>>=◌, ◌>>◌, malloc, touch, touch_all, free, free_fields,
}
use libnetpaxos.Memory.Holds.{
  Holds, Holds-perm, Held, Held-append, Returns, returns, bind, mono, malloc-Holds, free-Holds,
  touch-Holds, touch_all-Holds, free_fields-Holds, IsHeap, Leaves, count, count-append,
}

-- The pointers of a `struct application`.
pub record ServerBlocks : Type 0 where
  pub ctx : ℕ
  pub options : ℕ
  pub db : ℕ
  pub woptions : ℕ
  pub roptions : ℕ

-- `application_new`, where the database can be opened.
unfoldable pub new_server : Mem ServerBlocks
new_server = do
  ctx ← malloc
  options ← malloc
  touch ctx
  db ← malloc
  touch ctx
  woptions ← malloc
  roptions ← malloc
  touch ctx
  pure (record { ctx = ctx; options = options; db = db; woptions = woptions; roptions = roptions })

-- `application_free`; it returns early where the database cannot be destroyed.
unfoldable pub free_server : Bool → ServerBlocks → ℕ → Mem (Unit {0})
free_server destroyed a base = do
  free_fields (a.ctx ∷ []) (base ∷ a.db ∷ [])
  touch_all (a.ctx ∷ a.options ∷ [])
  if destroyed
      then (do free_fields (a.ctx ∷ []) (a.options ∷ a.woptions ∷ a.roptions ∷ []); free a.ctx)
      else (do err ← malloc; touch err)

-- What the loop runs: a connection is accepted, the connection at a place of those open ends, or a
-- request is answered, with a block from LevelDB, a value or a message, or without.
pub data Happens : Type 0 where
  accepted : Happens
  ended : ℕ → Happens
  asked : Bool → Happens

unfoldable pub keep_first : ℕ → Option (ℕ × List ℕ) → Option (ℕ × List ℕ)
keep_first bev none = none
keep_first bev (some (b, others)) = some (b, bev ∷ others)

-- The connection at a place, and the others.
unfoldable pub take_out : ℕ → List ℕ → Option (ℕ × List ℕ)
take_out k [] = none
take_out zero (bev ∷ bevs) = some (bev, bevs)
take_out (suc k) (bev ∷ bevs) = keep_first bev (take_out k bevs)

-- `errorcb`.
unfoldable pub end_connection : List ℕ → Option (ℕ × List ℕ) → Mem (List ℕ)
end_connection bevs none = pure bevs
end_connection bevs (some (bev, others)) = do free bev; pure others

-- `readcb`, with `deliver`.
unfoldable pub answer_blocks : ServerBlocks → Bool → Mem (Unit {0})
answer_blocks a false = touch_all (a.ctx ∷ a.db ∷ [])
answer_blocks a true = do touch_all (a.ctx ∷ a.db ∷ []); block ← malloc; free block

-- The callbacks of the loop; `bevs` are the connections that are open, the last one first.
unfoldable pub dispatch : ServerBlocks → List Happens → List ℕ → Mem (List ℕ)
dispatch a [] bevs = pure bevs
dispatch a (accepted ∷ events) bevs = do touch a.ctx; bev ← malloc; dispatch a events (bev ∷ bevs)
dispatch a (ended k ∷ events) bevs = do
  others ← end_connection bevs (take_out k bevs)
  dispatch a events others
dispatch a (asked block ∷ events) bevs = do answer_blocks a block; dispatch a events bevs

-- `run`; it returns early where it cannot bind or listen.
unfoldable pub server_run : Bool → Bool → List Happens → Mem (Unit {0})
server_run listens destroyed events = do
  a ← new_server
  touch a.ctx
  base ← malloc
  touch a.ctx
  if listens
      then (do
        listener_event ← malloc
        monitor_event ← malloc
        touch_all (base ∷ listener_event ∷ monitor_event ∷ [])
        bevs ← dispatch a events []
        free listener_event
        free monitor_event
        free_server destroyed a base)
      else pure tt
