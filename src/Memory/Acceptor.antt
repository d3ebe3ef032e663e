-- ===== src/Memory/Acceptor.antt =====
-- lib/src/acceptor.c and app/acceptor.c: the blocks of an acceptor.
use libnetpaxos.Prelude.{
  ℕ, ◌+◌, ◌≡◌, refl, arith, Bool, true, false, Option, some, none, List, [], ◌∷◌, ◌++◌, length,
  if◌then◌else◌,
}
use libnetpaxos.Memory.{
  Heap, Mem, pure, ◌>>=◌, ◌>>◌, malloc, touch_all, free, free_fields, malloc_items,
}
use libnetpaxos.Memory.Holds.{
  Holds, Holds-perm, Held, Held-append, Held-self, Returns, returns, bind, malloc-Holds, free-Holds,
  touch_all-Holds, free_fields-Holds, malloc_items-Holds, IsHeap, count, count-append,
}
use libnetpaxos.Memory.Config.{conf_blocks, conf_blocks-Holds}
use libnetpaxos.Memory.Cells.{
  Cell, new_cells, free_cells, blocks, new_cells-Holds, free_cells-Holds,
}

-- The pointers of an `AcceptorCtx`; `arrays` are msgs, iovecs, out_msgs, out_iovecs, out_bufs and
-- bufs.
pub record AcceptorBlocks : Type 0 where
  pub ctx : ℕ
  pub learner_addr : ℕ
  pub states : ℕ
  pub cells : List Cell
  pub arrays : List ℕ

-- `acceptor_ctx_new`.
unfoldable pub new_acceptor : ℕ → Mem AcceptorBlocks
new_acceptor maxinst = do
  ctx ← malloc
  learner_addr ← malloc
  states ← malloc
  cells ← new_cells (ctx ∷ states ∷ []) maxinst
  arrays ← malloc_items (ctx ∷ []) 6
  touch_all arrays
  pure (record {
    ctx = ctx;
    learner_addr = learner_addr;
    states = states;
    cells = cells;
    arrays = arrays;
  })

-- `acceptor_ctx_destroy`.
unfoldable pub free_acceptor : ℕ → AcceptorBlocks → Mem (Unit {0})
free_acceptor base a = do
  free_fields (a.ctx ∷ []) (base ∷ a.learner_addr ∷ [])
  free_cells (a.ctx ∷ a.states ∷ []) a.cells
  free_fields (a.ctx ∷ []) (a.states ∷ a.arrays)
  free a.ctx

-- The local variables of `start_acceptor`, of which `ev_recv` is set where it does not return early.
abbrev pub Locals : Type 0
Locals = AcceptorBlocks × ℕ × Option ℕ

-- `start_acceptor`, up to the end of the loop; a name that is not known makes it return. The event
-- of the socket is not released. What is returned here are its local variables.
unfoldable pub acceptor_blocks : Bool → ℕ → Mem Locals
acceptor_blocks known maxinst = do
  a ← new_acceptor maxinst
  base ← malloc
  if known
      then (do
        touch_all (a.ctx ∷ a.learner_addr ∷ [])
        ev_recv ← malloc
        evs_igterm ← malloc
        ev_sigint ← malloc
        free evs_igterm
        free ev_sigint
        free_acceptor base a
        pure (a, base, some ev_recv))
      else pure (a, base, none)

-- `main`, with the local variables of `start_acceptor`.
unfoldable pub acceptor_main : Bool → ℕ → Mem Locals
acceptor_main known maxinst = do
  conf ← conf_blocks
  locals ← acceptor_blocks known maxinst
  free conf
  pure locals

abbrev pub all : AcceptorBlocks → List ℕ → List ℕ
all a ps = a.arrays ++ (blocks a.cells ++ a.states ∷ a.learner_addr ∷ a.ctx ∷ ps)

-- What stays in use besides `ps`.
abbrev pub Stays : (ℕ → Bool) → Bool → ℕ → List ℕ → Locals → Heap → Type 0
Stays base true maxinst ps (a, b, ev_recv) h =
    (ev : ℕ) × (ev_recv ≡ some ev) × Holds base (ev ∷ ps) h
Stays base false maxinst ps (a, b, ev_recv) h =
    Holds base (b ∷ all a ps) h × (length a.arrays ≡ 6) × (length a.cells ≡ maxinst)

count-all :
    (q : ℕ) (a : AcceptorBlocks) (ps : List ℕ)
    → count q (all a ps)
      ≡ count q a.arrays
        + count q (blocks a.cells)
        + count q (a.states ∷ a.learner_addr ∷ a.ctx ∷ [])
        + count q ps
count-all q a ps = omega (
  arith,
  count-append q a.arrays (blocks a.cells ++ a.states ∷ a.learner_addr ∷ a.ctx ∷ ps),
  count-append q (blocks a.cells) (a.states ∷ a.learner_addr ∷ a.ctx ∷ ps),
)

in_all :
    (b : ℕ) (a : AcceptorBlocks) (ps : List ℕ) → Held (a.ctx ∷ a.learner_addr ∷ []) (b ∷ all a ps)
in_all b a ps = Held-append (a.ctx ∷ a.learner_addr ∷ []) (b ∷ a.arrays) _ (
    Held-append (a.ctx ∷ a.learner_addr ∷ []) (blocks a.cells)
      (a.states ∷ a.learner_addr ∷ a.ctx ∷ ps) (ground arith))

module _ {base : ℕ → Bool} where
  new_acceptor-Holds :
      (maxinst : ℕ) {ps : List ℕ} {h : Heap}
      → Holds base ps h
      → Returns
          (λ a h'. Holds base (all a ps) h' × (length a.arrays ≡ 6) × (length a.cells ≡ maxinst))
          (new_acceptor maxinst h)
  unfolding new_acceptor
  new_acceptor-Holds maxinst {ps} s = bind (malloc-Holds s) λ ctx _ s1.
      bind (malloc-Holds s1) λ addr _ s2. bind (malloc-Holds s2) λ states _ s3.
        bind (new_cells-Holds (ctx ∷ states ∷ []) maxinst s3 (ground arith)) λ cells _ (s4, many).
          let own =
            Held-append (ctx ∷ []) (blocks cells) (states ∷ addr ∷ ctx ∷ ps) (ground arith) in
          bind (malloc_items-Holds (ctx ∷ []) 6 s4 own) λ arrays _ (s5, six).
            bind (touch_all-Holds arrays s5 (Held-self arrays _)) λ _ _ s6. returns (s6, six, many)

  free_acceptor-Holds :
      (b : ℕ) (a : AcceptorBlocks) {ps : List ℕ} {h : Heap}
      → Holds base (b ∷ all a ps) h
      → Returns (λ _. Holds base ps) (free_acceptor b a h)
  unfolding free_acceptor
  free_acceptor-Holds b a {ps} s =
      let rest : List ℕ = a.states ∷ (a.arrays ++ a.ctx ∷ ps) in
      let first =
        Holds-perm (b ∷ a.learner_addr ∷ (blocks a.cells ++ rest))
          (λ q. omega (
            arith,
            count-all q a ps,
            count-append q (blocks a.cells) rest,
            count-append q a.arrays (a.ctx ∷ ps),
          ))
          s in
      let own = Held-append (a.ctx ∷ []) a.arrays (a.ctx ∷ ps) (ground arith) in
      let ctx_in : Held (a.ctx ∷ []) rest =
        Held-append (a.ctx ∷ []) (a.states ∷ []) (a.arrays ++ a.ctx ∷ ps) own in
      bind
        (free_fields-Holds (a.ctx ∷ []) (b ∷ a.learner_addr ∷ []) (blocks a.cells ++ rest) first
          (Held-append (a.ctx ∷ []) (blocks a.cells) rest ctx_in))
        λ _ _ s1.
          bind (free_cells-Holds (a.ctx ∷ a.states ∷ []) a.cells s1 (ctx_in.0, (ground arith, tt)))
            λ _ _ s2.
              bind
                (free_fields-Holds (a.ctx ∷ []) (a.states ∷ a.arrays) (a.ctx ∷ ps) s2
                  (ground arith))
                λ _ _ s3. free-Holds a.ctx s3

  acceptor_blocks-Left :
      (known : Bool) (maxinst : ℕ) {ps : List ℕ} {h : Heap}
      → Holds base ps h
      → Returns (Stays base known maxinst ps) (acceptor_blocks known maxinst h)
  unfolding acceptor_blocks
  acceptor_blocks-Left true maxinst {ps} s = bind (new_acceptor-Holds maxinst s) λ a _ (s1, _, _).
      bind (malloc-Holds s1) λ b _ s2.
        bind (touch_all-Holds (a.ctx ∷ a.learner_addr ∷ []) s2 (in_all b a ps)) λ _ _ s3.
          bind (malloc-Holds s3) λ recv _ s4. bind (malloc-Holds s4) λ term _ s5.
            bind (malloc-Holds s5) λ int _ s6.
              let events =
                Holds-perm (term ∷ int ∷ b ∷ all a (recv ∷ ps))
                  (λ q. omega (arith, count-all q a ps, count-all q a (recv ∷ ps))) s6 in
              bind (free-Holds term events) λ _ _ s7.
                bind (free-Holds int s7)
                  λ _ _ s8. bind (free_acceptor-Holds b a s8) λ _ _ s9. returns (recv, refl, s9)
  acceptor_blocks-Left false maxinst {ps} s =
      bind (new_acceptor-Holds maxinst s)
        λ a _ (s1, six, many). bind (malloc-Holds s1) λ b _ s2. returns (s2, six, many)

-- If the learner's name is known, an acceptor gives back all blocks that it takes but the event of
-- its socket, each once, and uses none afterwards; if not, it leaves the base of its events and its
-- context, with the states of `maxinst` instances, two blocks each, and six arrays.
pub acceptor_main-Leaves :
    (known : Bool) (maxinst : ℕ) (h : Heap)
    → IsHeap h
    → Returns (Stays h.live known maxinst []) (acceptor_main known maxinst h)
unfolding acceptor_main
acceptor_main-Leaves true maxinst h s = bind (conf_blocks-Holds s) λ conf _ s1.
    bind (acceptor_blocks-Left true maxinst s1) λ (a, b, _) _ (ev, set, s2).
      bind (free-Holds conf (Holds-perm (conf ∷ ev ∷ []) (λ q. omega arith) s2))
        λ _ _ s3. returns (ev, set, s3)
acceptor_main-Leaves false maxinst h s = bind (conf_blocks-Holds s) λ conf _ s1.
    bind (acceptor_blocks-Left false maxinst s1) λ (a, b, _) _ (s2, six, many).
      let conf_first =
        Holds-perm (conf ∷ b ∷ all a [])
          (λ q. omega (arith, count-all q a (conf ∷ []), count-all q a [])) s2 in
      bind (free-Holds conf conf_first) λ _ _ s3. returns (s3, six, many)
