-- ===== src/Memory/UdpClient.antt =====
-- app/udp_client.c: the blocks of the UDP client.
use libnetpaxos.Prelude.{
  ℕ, ◌≡◌, refl, arith, Bool, true, false, Option, some, none, List, [], ◌∷◌, ◌++◌, length,
  if◌then◌else◌,
}
use libnetpaxos.Prelude.{fault}
use libnetpaxos.Memory.{
  Heap, Mem, pure, ◌>>=◌, ◌>>◌, malloc, touch, touch_all, free, free_fields, malloc_items, free_set,
}
use libnetpaxos.Memory.Holds.{
  Holds, Holds-perm, Held, count, Held-append, Returns, returns, bind, bind-fault, malloc-Holds,
  free-Holds, touch-Holds, touch_all-Holds, free_fields-Holds, malloc_items-Holds, IsHeap, Leaves,
  count-append,
}
use libnetpaxos.Memory.Config.{conf_blocks, conf_blocks-Holds}

-- The pointers of a `struct client_state`; `items` are the buffers that `bufs` points to.
pub record ClientBlocks : Type 0 where
  pub state : ℕ
  pub base : ℕ
  pub payload : ℕ
  pub msgs : ℕ
  pub iovecs : ℕ
  pub out_msgs : ℕ
  pub out_iovecs : ℕ
  pub bufs : ℕ
  pub items : List ℕ

-- `client_state_new`.
unfoldable pub new_client : ℕ → Mem ClientBlocks
new_client vlen = do
  state ← malloc
  base ← malloc
  payload ← malloc
  touch_all (state ∷ payload ∷ [])
  msgs ← malloc
  iovecs ← malloc
  out_msgs ← malloc
  out_iovecs ← malloc
  bufs ← malloc
  items ← malloc_items (state ∷ bufs ∷ []) vlen
  pure (record {
    state = state;
    base = base;
    payload = payload;
    msgs = msgs;
    iovecs = iovecs;
    out_msgs = out_msgs;
    out_iovecs = out_iovecs;
    bufs = bufs;
    items = items;
  })

-- `client_state_free`; `fp`, a null pointer where the file could not be opened, and `proposer` are
-- set by `main`. `fclose` of a null pointer is undefined.
unfoldable pub free_client : ClientBlocks → Option ℕ → ℕ → Mem (Unit {0})
free_client c fp proposer = do
  touch c.state
  free_set fp
  free_fields (c.state ∷ [])
      (c.base ∷ c.payload ∷ c.msgs ∷ c.iovecs ∷ c.out_msgs ∷ c.out_iovecs ∷ proposer ∷ [])
  free_fields (c.state ∷ c.bufs ∷ []) c.items
  free_fields (c.state ∷ []) (c.bufs ∷ [])
  free c.state

-- The local variables of `main`: the configuration, the state and the address.
abbrev pub Locals : Type 0
Locals = ℕ × ClientBlocks × ℕ

-- `main` up to the socket.
unfoldable pub client_blocks : ℕ → Mem Locals
client_blocks vlen = do
  conf ← conf_blocks
  touch conf
  c ← new_client vlen
  touch c.state
  proposer ← malloc
  pure (conf, c, proposer)

-- `fopen`.
unfoldable pub open_output : Bool → Mem (Option ℕ)
open_output false = pure none
open_output true = do fp ← malloc; pure (some fp)

-- The rest of `main`, where the socket is open and the name of the proposer known.
unfoldable pub run_client : Bool → Locals → Mem (Unit {0})
run_client opened (conf, c, proposer) = do
  touch_all (proposer ∷ c.state ∷ c.msgs ∷ c.iovecs ∷ c.out_msgs ∷ c.out_iovecs ∷ c.bufs ∷ [])
  fp ← open_output opened
  ev_recv ← malloc
  ev_monitor ← malloc
  ev_sigterm ← malloc
  ev_sigint ← malloc
  free conf
  free ev_recv
  free ev_monitor
  free ev_sigint
  free ev_sigterm
  free_client c fp proposer

-- `main`; it returns early where the socket cannot be opened or the name of the proposer is not
-- known. What is returned here are its local variables.
unfoldable pub udp_client_main : Bool → Bool → ℕ → Mem Locals
udp_client_main ready opened vlen = do
  locals ← client_blocks vlen
  if ready then (do run_client opened locals; pure locals) else pure locals

-- The blocks that `client_state_new` makes, below the buffers.
abbrev fixed : ClientBlocks → List ℕ → List ℕ
fixed c ps =
    c.bufs ∷ c.out_iovecs ∷ c.out_msgs ∷ c.iovecs ∷ c.msgs ∷ c.payload ∷ c.base ∷ c.state ∷ ps

abbrev heads : ClientBlocks → ℕ → List ℕ
heads c proposer =
    c.base ∷ c.payload ∷ c.msgs ∷ c.iovecs ∷ c.out_msgs ∷ c.out_iovecs ∷ proposer ∷ []

abbrev all : ClientBlocks → ℕ → List ℕ → List ℕ
all c proposer ps = heads c proposer ++ (c.items ++ c.bufs ∷ c.state ∷ ps)

-- The blocks of the local variables, in the order in which the last ones come first.
abbrev pub owned : Locals → List ℕ → List ℕ
owned (conf, c, proposer) ps = proposer ∷ (c.items ++ fixed c (conf ∷ ps))

-- The pointers that `main` uses before it opens the file.
abbrev used : Locals → List ℕ
used (conf, c, proposer) =
    proposer ∷ c.state ∷ c.msgs ∷ c.iovecs ∷ c.out_msgs ∷ c.out_iovecs ∷ c.bufs ∷ []

Held-used : (l : Locals) (ps : List ℕ) → Held (used l) (owned l ps)
Held-used (conf, c, proposer) ps =
    let own =
      Held-append (c.state ∷ c.msgs ∷ c.iovecs ∷ c.out_msgs ∷ c.out_iovecs ∷ c.bufs ∷ []) c.items
        (fixed c (conf ∷ ps)) (ground arith) in
    ground (arith, own)

-- The events are made and released, and the configuration is.
reordered :
    (l : Locals) (recv monitor term int q : ℕ) (fp ps : List ℕ)
    → count q (int ∷ term ∷ monitor ∷ recv ∷ (fp ++ owned l ps))
      ≡ count q (l.0 ∷ recv ∷ monitor ∷ int ∷ term ∷ (fp ++ all l.1 l.2 ps))
reordered (conf, c, proposer) recv monitor term int q fp ps = omega (
  arith,
  count-append q fp (owned (conf, c, proposer) ps),
  count-append q fp (all c proposer ps),
  count-append q c.items (fixed c (conf ∷ ps)),
  count-append q c.items (c.bufs ∷ c.state ∷ ps),
)

module _ {base : ℕ → Bool} where
  new_client-Holds :
      (vlen : ℕ) {ps : List ℕ} {h : Heap}
      → Holds base ps h
      → Returns
          (λ c h'. Holds base (c.items ++ fixed c ps) h' × (length c.items ≡ vlen))
          (new_client vlen h)
  unfolding new_client
  new_client-Holds vlen {ps} s = bind (malloc-Holds s) λ state _ s1.
      bind (malloc-Holds s1) λ b _ s2. bind (malloc-Holds s2) λ payload _ s3.
        bind (touch_all-Holds (state ∷ payload ∷ []) s3 (ground arith)) λ _ _ s4.
          bind (malloc-Holds s4) λ msgs _ s5. bind (malloc-Holds s5) λ iovecs _ s6.
            bind (malloc-Holds s6) λ out_msgs _ s7. bind (malloc-Holds s7) λ out_iovecs _ s8.
              bind (malloc-Holds s8) λ bufs _ s9.
                bind (malloc_items-Holds (state ∷ bufs ∷ []) vlen s9 (ground arith))
                  λ items _ (s10, size). returns (s10, size)

  free_client-Holds :
      (c : ClientBlocks) (fp proposer : ℕ) {ps : List ℕ} {h : Heap}
      → Holds base (fp ∷ all c proposer ps) h
      → Returns (λ _. Holds base ps) (free_client c (some fp) proposer h)
  unfolding free_client free_set
  free_client-Holds c fp proposer {ps} s =
      let own = Held-append (c.state ∷ []) c.items (c.bufs ∷ c.state ∷ ps) (ground arith) in
      bind (touch-Holds c.state s (ground (arith, own))) λ _ _ s0. bind (free-Holds fp s0) λ _ _ s1.
        bind (free_fields-Holds (c.state ∷ []) (heads c proposer) _ s1 own) λ _ _ s2.
          bind (free_fields-Holds (c.state ∷ c.bufs ∷ []) c.items _ s2 (ground arith)) λ _ _ s3.
            bind (free_fields-Holds (c.state ∷ []) (c.bufs ∷ []) (c.state ∷ ps) s3 (ground arith))
              λ _ _ s4. free-Holds c.state s4

  -- A file that could not be opened cannot be closed.
  free_client-fault :
      (c : ClientBlocks) (proposer : ℕ) (ps : List ℕ) {h : Heap}
      → Holds base (all c proposer ps) h
      → free_client c none proposer h ≡ fault
  unfolding free_client free_set
  free_client-fault c proposer ps s =
      let own = Held-append (c.state ∷ []) c.items (c.bufs ∷ c.state ∷ ps) (ground arith) in
      bind-fault (touch-Holds c.state s (ground (arith, own))) λ _ _ s0. refl

  client_blocks-Holds :
      (vlen : ℕ) {ps : List ℕ} {h : Heap}
      → Holds base ps h
      → Returns
          (λ l h'. Holds base (owned l ps) h' × (length l.1.items ≡ vlen))
          (client_blocks vlen h)
  unfolding client_blocks
  client_blocks-Holds vlen {ps} s = bind (conf_blocks-Holds s) λ conf _ s1.
      bind (touch-Holds conf s1 (ground arith)) λ _ _ s2.
        bind (new_client-Holds vlen s2) λ c _ (s3, size).
          let own = Held-append (c.state ∷ []) c.items (fixed c (conf ∷ ps)) (ground arith) in
          bind (touch-Holds c.state s3 own.0)
            λ _ _ s4. bind (malloc-Holds s4) λ proposer _ s5. returns (s5, size)

  run_client-Holds :
      (l : Locals) {ps : List ℕ} {h : Heap}
      → Holds base (owned l ps) h
      → Returns (λ _. Holds base ps) (run_client true l h) × (run_client false l h ≡ fault)
  unfolding run_client open_output malloc free_client
  run_client-Holds (conf, c, proposer) {ps} s =
      let l : Locals = (conf, c, proposer) in
      (
        bind (touch_all-Holds (used l) s (Held-used l ps)) λ _ _ s1.
            bind (malloc-Holds s1) λ fp _ s2. bind (malloc-Holds s2) λ recv _ s3.
              bind (malloc-Holds s3) λ monitor _ s4. bind (malloc-Holds s4) λ term _ s5.
                bind (malloc-Holds s5) λ int _ s6.
                  let first =
                    Holds-perm _ (λ q. reordered l recv monitor term int q (fp ∷ []) ps) s6 in
                  bind (free-Holds conf first) λ _ _ s7. bind (free-Holds recv s7) λ _ _ s8.
                    bind (free-Holds monitor s8) λ _ _ s9. bind (free-Holds int s9) λ _ _ s10.
                      bind (free-Holds term s10) λ _ _ s11. free_client-Holds c fp proposer s11,
        bind-fault (touch_all-Holds (used l) s (Held-used l ps)) λ _ _ s1.
            bind-fault (malloc-Holds s1) λ recv _ s3. bind-fault (malloc-Holds s3) λ monitor _ s4.
              bind-fault (malloc-Holds s4) λ term _ s5. bind-fault (malloc-Holds s5) λ int _ s6.
                let first = Holds-perm _ (λ q. reordered l recv monitor term int q [] ps) s6 in
                bind-fault (free-Holds conf first) λ _ _ s7.
                  bind-fault (free-Holds recv s7) λ _ _ s8.
                    bind-fault (free-Holds monitor s8) λ _ _ s9.
                      bind-fault (free-Holds int s9) λ _ _ s10.
                        bind-fault (free-Holds term s10)
                          λ _ _ s11. free_client-fault c proposer ps s11,
      )

-- Whatever the number of buffers, the UDP client gives back every block that it takes, each once,
-- where the socket and the output file can be opened and the name of the proposer is known. Where
-- only the file cannot be opened, it closes a null pointer, a fault. Where the socket cannot be opened
-- or the name is not known, it leaves the configuration, the address, the state, its payload, its base,
-- its five arrays and a buffer for each of the `vlen` messages.
pub udp_client_main-Leaves :
    (opened : Bool) (vlen : ℕ) (h : Heap)
    → IsHeap h
    → Returns (λ _. Leaves h 0) (udp_client_main true true vlen h)
      × (udp_client_main true false vlen h ≡ fault)
      × Returns
          (λ l h'. Holds h.live (owned l []) h' × (length l.1.items ≡ vlen))
          (udp_client_main false opened vlen h)
unfolding udp_client_main
udp_client_main-Leaves opened vlen h s = (
  bind (client_blocks-Holds vlen s)
      λ l _ (s1, _). bind ((run_client-Holds l s1).0) λ _ _ s2. returns ([], s2, refl),
  bind-fault (client_blocks-Holds vlen s) λ l _ (s1, _). rw ((run_client-Holds l s1).1) refl,
  bind (client_blocks-Holds vlen s) λ l _ kept. returns kept,
)
