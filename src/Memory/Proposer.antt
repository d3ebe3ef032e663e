-- ===== src/Memory/Proposer.antt =====
-- lib/src/proposer.c and app/cliapp.c: the blocks of the command-line client and of its proposer.
use libnetpaxos.Prelude.{
  ℕ, ◌≡◌, refl, arith, Bool, true, false, Option, none, some, List, [], ◌∷◌, if◌then◌else◌,
}
use libnetpaxos.Prelude.{fault}
use libnetpaxos.Memory.{
  Heap, Mem, pure, ◌>>=◌, ◌>>◌, malloc, touch, touch_all, free, free_fields, free_set,
}
use libnetpaxos.Memory.Holds.{
  Holds, Holds-perm, Returns, returns, bind, bind-fault, mono, malloc-Holds, free-Holds,
  touch-Holds, touch_all-Holds, free_fields-Holds, IsHeap, Leaves,
}
use libnetpaxos.Memory.Config.{conf_blocks, conf_blocks-Holds}

-- The pointers of a `struct proposer_state`; `dest` is not set before `init_proposer` ends.
pub record ProposerBlocks : Type 0 where
  pub conf : ℕ
  pub state : ℕ
  pub base : ℕ
  pub starts : ℕ
  pub mine : ℕ
  pub dest : Option ℕ
  pub ev_recv : ℕ
  pub ev_sigterm : ℕ
  pub ev_sigint : ℕ

-- `init_proposer`: `mine` and `dest`. It is `ready` where the socket can be opened, the name of the
-- coordinator is known and the socket has a name; else it returns EXIT_FAILURE.
unfoldable pub init_proposer_blocks : Bool → ℕ → Mem (ℕ × Option ℕ)
init_proposer_blocks ready state = do
  coordinator ← malloc
  mine ← malloc
  touch state
  if ready
      then (do touch_all (mine ∷ coordinator ∷ []); pure (mine, some coordinator))
      else pure (mine, none)

-- `make_proposer`, with `proposer_state_new`. EXIT_FAILURE is above zero, which is not seen as a
-- failure.
unfoldable pub proposer_blocks : Bool → Mem ProposerBlocks
proposer_blocks ready = do
  conf ← conf_blocks
  state ← malloc
  touch state
  base ← malloc
  starts ← malloc
  touch state
  (mine, dest) ← init_proposer_blocks ready state
  touch_all (conf ∷ state ∷ [])
  ev_recv ← malloc
  ev_sigterm ← malloc
  ev_sigint ← malloc
  pure (record {
    conf = conf;
    state = state;
    base = base;
    starts = starts;
    mine = mine;
    dest = dest;
    ev_recv = ev_recv;
    ev_sigterm = ev_sigterm;
    ev_sigint = ev_sigint;
  })

-- `free_proposer`.
unfoldable pub free_proposer : ProposerBlocks → Mem (Unit {0})
free_proposer p = do
  free_fields (p.state ∷ []) (p.starts ∷ [])
  touch p.state
  free_set p.dest
  free_fields (p.state ∷ [])
      (p.mine ∷ p.ev_recv ∷ p.ev_sigterm ∷ p.ev_sigint ∷ p.base ∷ p.conf ∷ [])
  free p.state

-- `main` of cliapp.c, with `new_app_ctx` and `free_app_ctx`.
unfoldable pub cliapp_main : Bool → Mem (Unit {0})
cliapp_main ready = do
  ctx ← malloc
  touch ctx
  p ← proposer_blocks ready
  touch_all (ctx ∷ p.state ∷ [])
  free_proposer p
  free ctx

-- All blocks, in the order in which they are released; `c` is the address of the coordinator.
abbrev all : ProposerBlocks → ℕ → List ℕ → List ℕ
all p c ps =
    p.starts ∷ c ∷ p.mine ∷ p.ev_recv ∷ p.ev_sigterm ∷ p.ev_sigint ∷ p.base ∷ p.conf ∷ p.state ∷ ps

-- Where `dest` is set, it is the coordinator.
abbrev set : Bool → ℕ → Option ℕ
set ready c = if ready then some c else none

module _ {base : ℕ → Bool} where
  init_proposer_blocks-Holds :
      (ready : Bool) (state : ℕ) {ps : List ℕ} {h : Heap}
      → Holds base (state ∷ ps) h
      → Returns
          (λ (mine, dest) h'.
            (c : ℕ) × (dest ≡ set ready c) × Holds base (mine ∷ c ∷ state ∷ ps) h')
          (init_proposer_blocks ready state h)
  unfolding init_proposer_blocks
  init_proposer_blocks-Holds true state s = bind (malloc-Holds s) λ c _ s1.
      bind (malloc-Holds s1) λ mine _ s2. bind (touch-Holds state s2 (ground arith)) λ _ _ s3.
        bind (touch_all-Holds (mine ∷ c ∷ []) s3 (ground arith)) λ _ _ s4. returns (c, refl, s4)
  init_proposer_blocks-Holds false state s = bind (malloc-Holds s) λ c _ s1.
      bind (malloc-Holds s1)
        λ mine _ s2. bind (touch-Holds state s2 (ground arith)) λ _ _ s3. returns (c, refl, s3)

  proposer_blocks-Holds :
      (ready : Bool) {ps : List ℕ} {h : Heap}
      → Holds base ps h
      → Returns
          (λ p h'. (c : ℕ) × (p.dest ≡ set ready c) × Holds base (all p c ps) h')
          (proposer_blocks ready h)
  unfolding proposer_blocks
  proposer_blocks-Holds ready {ps} s = bind (conf_blocks-Holds s) λ conf _ s1.
      bind (malloc-Holds s1) λ state _ s2. bind (touch-Holds state s2 (ground arith)) λ _ _ s3.
        bind (malloc-Holds s3) λ b _ s4. bind (malloc-Holds s4) λ starts _ s5.
          bind (touch-Holds state s5 (ground arith)) λ _ _ s6.
            bind
              (init_proposer_blocks-Holds ready state
                (Holds-perm (state ∷ starts ∷ b ∷ conf ∷ ps) (λ q. omega arith) s6))
              λ (mine, dest) _ (c, is_set, s7).
                bind (touch_all-Holds (conf ∷ state ∷ []) s7 (ground arith)) λ _ _ s8.
                  bind (malloc-Holds s8) λ recv _ s9. bind (malloc-Holds s9) λ term _ s10.
                    bind (malloc-Holds s10)
                      λ int _ s11. returns (c, is_set, Holds-perm _ (λ q. omega arith) s11)

  free_proposer-Holds :
      (p : ProposerBlocks) (c : ℕ) {ps : List ℕ} {h : Heap}
      → p.dest ≡ some c
      → Holds base (all p c ps) h
      → Returns (λ _. Holds base ps) (free_proposer p h)
  unfolding free_proposer free_set
  free_proposer-Holds p c {ps} is_set s =
      bind (free_fields-Holds (p.state ∷ []) (p.starts ∷ []) _ s (ground arith)) λ _ _ s1.
        bind (touch-Holds p.state s1 (ground arith)) λ _ _ s2. rw is_set (
          bind (free-Holds c s2) λ _ _ s3.
            bind
              (free_fields-Holds (p.state ∷ [])
                (p.mine ∷ p.ev_recv ∷ p.ev_sigterm ∷ p.ev_sigint ∷ p.base ∷ p.conf ∷ [])
                (p.state ∷ ps) s3 (ground arith))
              λ _ _ s4. free-Holds p.state s4)

  -- A pointer that has not been set cannot be released.
  free_proposer-fault :
      (p : ProposerBlocks) (c : ℕ) {ps : List ℕ} {h : Heap}
      → p.dest ≡ none
      → Holds base (all p c ps) h
      → free_proposer p h ≡ fault
  unfolding free_proposer free_set
  free_proposer-fault p c is_set s =
      bind-fault (free_fields-Holds (p.state ∷ []) (p.starts ∷ []) _ s (ground arith))
        λ _ _ s1. bind-fault (touch-Holds p.state s1 (ground arith)) λ _ _ s2. rw is_set refl

-- Where the proposer of the command-line client is ready, the process gives back every block that it
-- takes, each once, and touches none after it has been released. Where it is not ready, the client
-- goes on and at last releases an address that has not been set, a fault.
pub cliapp_main-Leaves :
    (h : Heap)
    → IsHeap h
    → Returns (λ _. Leaves h 0) (cliapp_main true h) × (cliapp_main false h ≡ fault)
unfolding cliapp_main
cliapp_main-Leaves h s = (
  bind (malloc-Holds s) λ ctx _ s1. bind (touch-Holds ctx s1 (ground arith)) λ _ _ s2.
      bind (proposer_blocks-Holds true s2) λ p _ (c, is_set, s3).
        bind (touch_all-Holds (ctx ∷ p.state ∷ []) s3 (ground arith)) λ _ _ s4.
          bind (free_proposer-Holds p c is_set s4)
            λ _ _ s5. mono (free-Holds ctx s5) λ _ _ s6. ([], s6, refl),
  bind-fault (malloc-Holds s) λ ctx _ s1. bind-fault (touch-Holds ctx s1 (ground arith)) λ _ _ s2.
      bind-fault (proposer_blocks-Holds false s2) λ p _ (c, is_set, s3).
        bind-fault (touch_all-Holds (ctx ∷ p.state ∷ []) s3 (ground arith))
          λ _ _ s4. rw (free_proposer-fault p c is_set s4) refl,
)
