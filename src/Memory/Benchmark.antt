-- ===== src/Memory/Benchmark.antt =====
-- app/leveldb_server.c: the blocks of the LevelDB benchmark.
pub mod Release
use libnetpaxos.Prelude.{
  ℕ, zero, suc, ◌+◌, ◌≤◌, ◌≡◌, refl, arith, Bool, true, false, List, [], ◌∷◌, ◌++◌,
}
use libnetpaxos.Memory.{
  Heap, Mem, pure, and_then, ◌>>=◌, ◌>>◌, malloc, touch, touch_all, free, free_fields, malloc_items,
}
use libnetpaxos.Memory.Holds.{
  Holds, Holds-perm, Held, Held-append, Held-self, Returns, returns, bind, mono, malloc-Holds,
  free-Holds, touch-Holds, touch_all-Holds, free_fields-Holds, malloc_items-Holds, IsHeap, Leaves,
  count, count-append,
}

-- `new_data` and `open_db`: the pointers of a `struct data`.
pub record DataBlocks : Type 0 where
  pub ctx : ℕ
  pub woptions : ℕ
  pub roptions : ℕ

unfoldable pub new_data : Mem DataBlocks
new_data = do
  ctx ← malloc
  woptions ← malloc
  touch ctx
  roptions ← malloc
  touch ctx
  pure (record { ctx = ctx; woptions = woptions; roptions = roptions })

-- `open_db`, where the database can be opened: the pointers `options` and `db`.
unfoldable pub open_db : DataBlocks → Mem (ℕ × ℕ)
open_db d = do options ← malloc; touch d.ctx; db ← malloc; touch d.ctx; pure (options, db)

-- `free_data`, which does not release the structure.
unfoldable pub free_data : DataBlocks → ℕ → Mem (Unit {0})
free_data d options = free_fields (d.ctx ∷ []) (d.woptions ∷ d.roptions ∷ options ∷ [])

-- `generate_array` and `free_generated_array`.
unfoldable pub generate_blocks : ℕ → Mem (ℕ × List ℕ)
generate_blocks n = do
  keys ← malloc
  items ← malloc_items (keys ∷ []) n
  touch_all items
  pure (keys, items)

unfoldable pub free_generated : ℕ → List ℕ → Mem (Unit {0})
free_generated keys items = do free_fields (keys ∷ []) items; free keys

-- `add_entry`, in the loops of `fillsync` and `fillrandom`: a write that fails makes a message.
unfoldable pub fill_blocks : DataBlocks → ℕ → List Bool → Mem (Unit {0})
fill_blocks d db [] = pure tt
fill_blocks d db (false ∷ writes) = do
  touch_all (d.ctx ∷ d.woptions ∷ db ∷ [])
  fill_blocks d db writes
fill_blocks d db (true ∷ writes) = do
  touch_all (d.ctx ∷ d.woptions ∷ db ∷ [])
  err ← malloc
  free err
  fill_blocks d db writes

-- What `leveldb_get` answers: a message, nothing, or a value.
pub data Got : Type 0 where
  failed missing value : Got

-- `get_value`, in the loop of `read_random`.
unfoldable pub read_blocks : DataBlocks → ℕ → List Got → Mem (Unit {0})
read_blocks d db [] = pure tt
read_blocks d db (missing ∷ reads) = do
  touch_all (d.ctx ∷ d.roptions ∷ db ∷ [])
  read_blocks d db reads
read_blocks d db (_ ∷ reads) = do
  touch_all (d.ctx ∷ d.roptions ∷ db ∷ [])
  answer ← malloc
  free answer
  read_blocks d db reads

-- `main`, with `n` keys and values, the writes of the two databases and the reads; what is returned
-- here are its local variables `sync_ctx` and `cached_ctx`.
unfoldable pub benchmark_main : ℕ → List Bool → List Bool → List Got → Mem (DataBlocks × DataBlocks)
benchmark_main n syncs writes reads = do
  sync_ctx ← new_data
  (keys, key_items) ← generate_blocks n
  (values, value_items) ← generate_blocks n
  (sync_options, sync_db) ← open_db sync_ctx
  fill_blocks sync_ctx sync_db syncs
  free_fields (sync_ctx.ctx ∷ []) (sync_db ∷ [])
  cached_ctx ← new_data
  (cached_options, cached_db) ← open_db cached_ctx
  fill_blocks cached_ctx cached_db writes
  read_blocks cached_ctx cached_db reads
  free_fields (cached_ctx.ctx ∷ []) (cached_db ∷ [])
  touch_all (sync_ctx.ctx ∷ sync_options ∷ [])
  touch_all (cached_ctx.ctx ∷ cached_options ∷ [])
  free_generated keys key_items
  free_generated values value_items
  free_data sync_ctx sync_options
  free_data cached_ctx cached_options
  pure (sync_ctx, cached_ctx)
