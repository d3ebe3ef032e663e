-- ===== src/Memory/Coordinator.antt =====
-- lib/src/coordinator.c and app/coordinator.c: the blocks of a coordinator.
use libnetpaxos.Prelude.{ℕ, refl, arith, Bool, true, false, List, [], ◌∷◌, if◌then◌else◌}
use libnetpaxos.Memory.{Heap, Mem, pure, ◌>>=◌, ◌>>◌, malloc, touch, touch_all, free, free_fields}
use libnetpaxos.Memory.Holds.{
  Holds, Holds-perm, Returns, returns, bind, mono, malloc-Holds, free-Holds, touch-Holds,
  touch_all-Holds, free_fields-Holds, IsHeap, Leaves, Left, free_last-Leaves,
}
use libnetpaxos.Memory.Config.{conf_blocks, conf_blocks-Holds}

-- The pointers of a `CoordinatorCtx`.
pub record CoordinatorBlocks : Type 0 where
  pub ctx : ℕ
  pub dest : ℕ
  pub mine : ℕ
  pub msg_in : ℕ

-- `coordinator_new`.
unfoldable pub new_coordinator : Mem CoordinatorBlocks
new_coordinator = do
  ctx ← malloc
  dest ← malloc
  mine ← malloc
  msg_in ← malloc
  touch ctx
  pure (record { ctx = ctx; dest = dest; mine = mine; msg_in = msg_in })

-- `coordinator_free`.
unfoldable pub free_coordinator : ℕ → CoordinatorBlocks → Mem (Unit {0})
free_coordinator base c = do
  free_fields (c.ctx ∷ []) (base ∷ c.msg_in ∷ c.mine ∷ c.dest ∷ [])
  free c.ctx

-- `start_coordinator` of a known acceptor, up to the end of the loop; a name that is not known makes
-- it return.
unfoldable pub coordinator_blocks : Bool → Mem (Unit {0})
coordinator_blocks known = do
  c ← new_coordinator
  base ← malloc
  if known
      then (do
        touch_all (c.ctx ∷ c.dest ∷ c.mine ∷ [])
        ev_recv ← malloc
        ev_sigterm ← malloc
        ev_sigint ← malloc
        free ev_recv
        free ev_sigterm
        free ev_sigint
        free_coordinator base c)
      else pure tt

-- `main`.
unfoldable pub coordinator_main : Bool → Mem (Unit {0})
coordinator_main known = do conf ← conf_blocks; coordinator_blocks known; free conf

abbrev all : CoordinatorBlocks → List ℕ → List ℕ
all c ps = c.msg_in ∷ c.mine ∷ c.dest ∷ c.ctx ∷ ps

module _ {base : ℕ → Bool} where
  new_coordinator-Holds :
      {ps : List ℕ} {h : Heap}
      → Holds base ps h
      → Returns (λ c. Holds base (all c ps)) (new_coordinator h)
  unfolding new_coordinator
  new_coordinator-Holds s = bind (malloc-Holds s) λ ctx _ s1. bind (malloc-Holds s1) λ dest _ s2.
      bind (malloc-Holds s2) λ mine _ s3.
        bind (malloc-Holds s3)
          λ msg_in _ s4. bind (touch-Holds ctx s4 (ground arith)) λ _ _ s5. returns s5

  free_coordinator-Holds :
      (b : ℕ) (c : CoordinatorBlocks) {ps : List ℕ} {h : Heap}
      → Holds base (b ∷ all c ps) h
      → Returns (λ _. Holds base ps) (free_coordinator b c h)
  unfolding free_coordinator
  free_coordinator-Holds b c {ps} s =
      bind
        (free_fields-Holds (c.ctx ∷ []) (b ∷ c.msg_in ∷ c.mine ∷ c.dest ∷ []) (c.ctx ∷ ps) s
          (ground arith, tt))
        λ _ _ s1. free-Holds c.ctx s1

  coordinator_blocks-Left :
      (known : Bool) {ps : List ℕ} {h : Heap}
      → Holds base ps h
      → Returns (λ _. Left base (if known then 0 else 5) ps) (coordinator_blocks known h)
  unfolding coordinator_blocks
  coordinator_blocks-Left true {ps} s = bind (new_coordinator-Holds s) λ c _ s1.
      bind (malloc-Holds s1) λ b _ s2.
        bind (touch_all-Holds (c.ctx ∷ c.dest ∷ c.mine ∷ []) s2 (ground arith)) λ _ _ s3.
          bind (malloc-Holds s3) λ recv _ s4. bind (malloc-Holds s4) λ term _ s5.
            bind (malloc-Holds s5) λ int _ s6.
              let events = Holds-perm (recv ∷ term ∷ int ∷ b ∷ all c ps) (λ q. omega arith) s6 in
              bind (free-Holds recv events) λ _ _ s7. bind (free-Holds term s7) λ _ _ s8.
                bind (free-Holds int s8)
                  λ _ _ s9. mono (free_coordinator-Holds b c s9) λ _ _ s10. ([], s10, refl)
  coordinator_blocks-Left false {ps} s =
      bind (new_coordinator-Holds s)
        λ c _ s1. bind (malloc-Holds s1) λ b _ s2. returns (b ∷ all c [], s2, refl)

-- A coordinator gives back all blocks that it takes, each once, and uses none afterwards, if the
-- acceptor's name is known; if not, five blocks are left.
pub coordinator_main-Leaves :
    (known : Bool) (h : Heap)
    → IsHeap h
    → Returns (λ _. Leaves h (if known then 0 else 5)) (coordinator_main known h)
unfolding coordinator_main
coordinator_main-Leaves known h s =
    bind (conf_blocks-Holds s) λ conf _ s1.
      bind (coordinator_blocks-Left known s1) λ _ _ left. free_last-Leaves h _ conf left
