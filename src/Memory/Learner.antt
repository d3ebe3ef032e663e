-- ===== src/Memory/Learner.antt =====
-- lib/src/learner.c: the blocks of a learner.
use libnetpaxos.Prelude.{ℕ, arith, Bool, List, [], ◌∷◌, ◌++◌}
use libnetpaxos.Memory.{Heap, Mem, pure, ◌>>=◌, ◌>>◌, malloc, touch, touch_all, free, free_fields}
use libnetpaxos.Memory.Holds.{
  Holds, Holds-perm, Held-append, Returns, returns, bind, malloc-Holds, free-Holds, touch-Holds,
  touch_all-Holds, free_fields-Holds, count-append,
}
use libnetpaxos.Memory.Cells.{
  Cell, new_cells, free_cells, blocks, new_cells-Holds, free_cells-Holds,
}

-- The pointers that `learner_ctx_new` sets, and those that `make_learner` sets.
pub record LearnerBlocks : Type 0 where
  pub ctx : ℕ
  pub base : ℕ
  pub mine : ℕ
  pub states : ℕ
  pub cells : List Cell
  pub msgs : ℕ
  pub iovecs : ℕ
  pub out_bufs : ℕ
  pub bufs : ℕ

pub record LearnerEvents : Type 0 where
  pub dest : ℕ
  pub recv_ev : ℕ
  pub monitor_ev : ℕ
  pub ev_sigterm : ℕ
  pub ev_sigint : ℕ

-- `learner_ctx_new`.
unfoldable pub new_learner : ℕ → Mem LearnerBlocks
new_learner maxinst = do
  ctx ← malloc
  base ← malloc
  mine ← malloc
  states ← malloc
  cells ← new_cells (ctx ∷ states ∷ []) maxinst
  msgs ← malloc
  iovecs ← malloc
  out_bufs ← malloc
  bufs ← malloc
  touch_all (ctx ∷ msgs ∷ iovecs ∷ [])
  pure (record {
    ctx = ctx;
    base = base;
    mine = mine;
    states = states;
    cells = cells;
    msgs = msgs;
    iovecs = iovecs;
    out_bufs = out_bufs;
    bufs = bufs;
  })

-- `make_learner`, where no call fails: its calls of `exit` end the process.
unfoldable pub learner_blocks : ℕ → Mem (LearnerBlocks × LearnerEvents)
learner_blocks maxinst = do
  l ← new_learner maxinst
  touch_all (l.ctx ∷ l.mine ∷ [])
  dest ← malloc
  touch dest
  recv_ev ← malloc
  monitor_ev ← malloc
  ev_sigterm ← malloc
  ev_sigint ← malloc
  pure (
    l,
    record {
      dest = dest;
      recv_ev = recv_ev;
      monitor_ev = monitor_ev;
      ev_sigterm = ev_sigterm;
      ev_sigint = ev_sigint;
    },
  )

-- `free_learner`.
unfoldable pub free_learner : LearnerBlocks → LearnerEvents → Mem (Unit {0})
free_learner l e = do
  free_fields (l.ctx ∷ []) (e.recv_ev ∷ e.monitor_ev ∷ e.ev_sigterm ∷ e.ev_sigint ∷ l.base ∷ [])
  free_cells (l.ctx ∷ l.states ∷ []) l.cells
  free_fields (l.ctx ∷ [])
      (l.states ∷ l.msgs ∷ l.iovecs ∷ l.bufs ∷ l.out_bufs ∷ l.mine ∷ e.dest ∷ [])
  free l.ctx

-- All of them, in the order in which they are released.
abbrev pub events : LearnerBlocks → LearnerEvents → List ℕ
events l e = e.recv_ev ∷ e.monitor_ev ∷ e.ev_sigterm ∷ e.ev_sigint ∷ l.base ∷ []

abbrev pub fields : LearnerBlocks → LearnerEvents → List ℕ → List ℕ
fields l e ps = l.states ∷ l.msgs ∷ l.iovecs ∷ l.bufs ∷ l.out_bufs ∷ l.mine ∷ e.dest ∷ l.ctx ∷ ps

abbrev pub all : LearnerBlocks → LearnerEvents → List ℕ → List ℕ
all l e ps = events l e ++ (blocks l.cells ++ fields l e ps)

abbrev new_fields : LearnerBlocks → List ℕ → List ℕ
new_fields l ps =
    l.bufs
    ∷ l.out_bufs
    ∷ l.iovecs
    ∷ l.msgs
    ∷ (blocks l.cells ++ l.states ∷ l.mine ∷ l.base ∷ l.ctx ∷ ps)

module _ {base : ℕ → Bool} where
  new_learner-Holds :
      (maxinst : ℕ) {ps : List ℕ} {h : Heap}
      → Holds base ps h
      → Returns (λ l. Holds base (new_fields l ps)) (new_learner maxinst h)
  unfolding new_learner
  new_learner-Holds maxinst {ps} s = bind (malloc-Holds s) λ ctx _ s1.
      bind (malloc-Holds s1) λ b _ s2. bind (malloc-Holds s2) λ mine _ s3.
        bind (malloc-Holds s3) λ states _ s4.
          bind (new_cells-Holds (ctx ∷ states ∷ []) maxinst s4 (ground arith)) λ cells _ (s5, _).
            bind (malloc-Holds s5) λ msgs _ s6. bind (malloc-Holds s6) λ iovecs _ s7.
              bind (malloc-Holds s7) λ out_bufs _ s8. bind (malloc-Holds s8) λ bufs _ s9.
                let own =
                  Held-append (ctx ∷ []) (blocks cells) (states ∷ mine ∷ b ∷ ctx ∷ ps)
                    (ground arith) in
                bind (touch_all-Holds (ctx ∷ msgs ∷ iovecs ∷ []) s9 (ground (arith, own.0)))
                  λ _ _ s10. returns s10

  pub learner_blocks-Holds :
      (maxinst : ℕ) {ps : List ℕ} {h : Heap}
      → Holds base ps h
      → Returns (λ (l, e). Holds base (all l e ps)) (learner_blocks maxinst h)
  unfolding learner_blocks
  learner_blocks-Holds maxinst {ps} s = bind (new_learner-Holds maxinst s) λ l _ s1.
      let own =
        Held-append (l.ctx ∷ l.mine ∷ []) (blocks l.cells) (l.states ∷ l.mine ∷ l.base ∷ l.ctx ∷ ps)
          (ground arith) in
      bind (touch_all-Holds (l.ctx ∷ l.mine ∷ []) s1 (ground (arith, own))) λ _ _ s2.
        bind (malloc-Holds s2) λ dest _ s3. bind (touch-Holds dest s3 (ground arith)) λ _ _ s4.
          bind (malloc-Holds s4) λ recv _ s5. bind (malloc-Holds s5) λ monitor _ s6.
            bind (malloc-Holds s6) λ term _ s7. bind (malloc-Holds s7) λ int _ s8.
              let e : LearnerEvents = record {
                dest = dest;
                recv_ev = recv;
                monitor_ev = monitor;
                ev_sigterm = term;
                ev_sigint = int;
              } in
              returns (
                Holds-perm (all l e ps)
                  (λ q. omega (
                    arith,
                    count-append q (blocks l.cells) (l.states ∷ l.mine ∷ l.base ∷ l.ctx ∷ ps),
                    count-append q (blocks l.cells) (fields l e ps),
                  ))
                  s8)

  pub free_learner-Holds :
      (l : LearnerBlocks) (e : LearnerEvents) {ps : List ℕ} {h : Heap}
      → Holds base (all l e ps) h
      → Returns (λ _. Holds base ps) (free_learner l e h)
  unfolding free_learner
  free_learner-Holds l e {ps} s =
      let own = Held-append (l.ctx ∷ []) (blocks l.cells) (fields l e ps) (ground arith) in
      bind (free_fields-Holds (l.ctx ∷ []) (events l e) (blocks l.cells ++ fields l e ps) s own)
        λ _ _ s1.
          bind (free_cells-Holds (l.ctx ∷ l.states ∷ []) l.cells s1 (ground arith)) λ _ _ s2.
            bind
              (free_fields-Holds (l.ctx ∷ [])
                (l.states ∷ l.msgs ∷ l.iovecs ∷ l.bufs ∷ l.out_bufs ∷ l.mine ∷ e.dest ∷ [])
                (l.ctx ∷ ps) s2 (ground arith))
              λ _ _ s3. free-Holds l.ctx s3
