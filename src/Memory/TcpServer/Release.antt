-- ===== src/Memory/TcpServer/Release.antt =====
-- What the TCP server leaves in use.
use libnetpaxos.Prelude.{
  ℕ, zero, suc, ◌+◌, ◌-◌, ◌≤◌, ◌≡◌, refl, arith, ap, sym, Bool, true, false, Option, none, some,
  List, [], ◌∷◌, ◌++◌, length, if◌then◌else◌, ltb,
}
use libnetpaxos.Memory.{Heap}
use libnetpaxos.Memory.Holds.{
  Holds, Holds-perm, Held, Held-append, Returns, returns, bind, mono, malloc-Holds, free-Holds,
  touch-Holds, touch_all-Holds, free_fields-Holds, IsHeap, Leaves, count, count-append,
}
use libnetpaxos.Memory.TcpServer.{
  Happens, ServerBlocks, accepted, answer_blocks, asked, dispatch, end_connection, ended,
  free_server, keep_first, new_server, server_run, take_out,
}

-- The connections that are open after the events, from their number before.
abbrev pub open_after : List Happens → ℕ → ℕ
open_after [] n = n
open_after (accepted ∷ events) n = open_after events (suc n)
open_after (ended k ∷ events) n = open_after events (if ltb k n then n - 1 else n)
open_after (asked block ∷ events) n = open_after events n

abbrev pub leftover : Bool → Bool → ℕ → ℕ
leftover false destroyed n = 6
leftover true false n = n + 5
leftover true true n = n

abbrev all : ServerBlocks → List ℕ
all a = a.options ∷ a.woptions ∷ a.roptions ∷ a.ctx ∷ []

-- What `take_out` finds.
abbrev Found : ℕ → List ℕ → Option (ℕ × List ℕ) → Type 0
Found k bevs none = length bevs ≤ k
Found k bevs (some (b, others)) =
    (suc k ≤ length bevs)
    × (length bevs ≡ suc (length others))
    × ((q : ℕ) → count q bevs ≡ count q (b ∷ others))

keep_first-Found :
    (k bev : ℕ) (bevs : List ℕ) (found : Option (ℕ × List ℕ))
    → Found k bevs found
    → Found (suc k) (bev ∷ bevs) (keep_first bev found)
unfolding keep_first
keep_first-Found k bev bevs none above = ground (arith, above)
keep_first-Found k bev bevs (some (b, others)) (below, size, same) =
    (omega (arith, below), ap suc size, λ q. omega (arith, same q))

take_out-Found : (k : ℕ) (bevs : List ℕ) → Found k bevs (take_out k bevs)
unfolding take_out
take_out-Found k [] = ground arith
take_out-Found zero (bev ∷ bevs) = (ground arith, refl, λ q. refl)
take_out-Found (suc k) (bev ∷ bevs) =
    keep_first-Found k bev bevs (take_out k bevs) (take_out-Found k bevs)

module _ {base : ℕ → Bool} where
  new_server-Holds :
      {ps : List ℕ} {h : Heap}
      → Holds base ps h
      → Returns (λ a. Holds base (a.db ∷ (all a ++ ps))) (new_server h)
  unfolding new_server
  new_server-Holds s = bind (malloc-Holds s) λ ctx _ s1. bind (malloc-Holds s1) λ options _ s2.
      bind (touch-Holds ctx s2 (ground arith)) λ _ _ s3. bind (malloc-Holds s3) λ db _ s4.
        bind (touch-Holds ctx s4 (ground arith)) λ _ _ s5. bind (malloc-Holds s5) λ wo _ s6.
          bind (malloc-Holds s6) λ ro _ s7.
            bind (touch-Holds ctx s7 (ground arith))
              λ _ _ s8. returns (Holds-perm _ (λ q. omega arith) s8)

  answer_blocks-Holds :
      (a : ServerBlocks) (block : Bool) {ps : List ℕ} {h : Heap}
      → Held (a.ctx ∷ a.db ∷ []) ps
      → Holds base ps h
      → Returns (λ _. Holds base ps) (answer_blocks a block h)
  unfolding answer_blocks
  answer_blocks-Holds a false own s = touch_all-Holds (a.ctx ∷ a.db ∷ []) s own
  answer_blocks-Holds a true own s =
      bind (touch_all-Holds (a.ctx ∷ a.db ∷ []) s own)
        λ _ _ s1. bind (malloc-Holds s1) λ block _ s2. free-Holds block s2

  end_connection-Holds :
      (k : ℕ) (bevs : List ℕ) (found : Option (ℕ × List ℕ)) {ps : List ℕ} {h : Heap}
      → Found k bevs found
      → Holds base (bevs ++ ps) h
      → Returns
          (λ others h'.
            Holds base (others ++ ps) h'
            × (length others ≡ (if ltb k (length bevs) then length bevs - 1 else length bevs)))
          (end_connection bevs found h)
  unfolding end_connection
  end_connection-Holds k bevs none above s = returns (s, ground (arith, above))
  end_connection-Holds k bevs (some (b, others)) {ps} (below, size, same) s =
      let first =
        Holds-perm (b ∷ (others ++ ps))
          (λ q. omega (arith, same q, count-append q bevs ps, count-append q others ps)) s in
      bind (free-Holds b first) λ _ _ s1. returns (s1, ground (arith, below, size))

  dispatch-Holds :
      (a : ServerBlocks) (events : List Happens) (bevs : List ℕ) {ps : List ℕ} {h : Heap}
      → Held (a.ctx ∷ a.db ∷ []) ps
      → Holds base (bevs ++ ps) h
      → Returns
          (λ others h'.
            Holds base (others ++ ps) h' × (length others ≡ open_after events (length bevs)))
          (dispatch a events bevs h)
  unfolding dispatch
  dispatch-Holds a [] bevs own s = returns (s, refl)
  dispatch-Holds a (accepted ∷ events) bevs {ps} own s =
      let held = Held-append (a.ctx ∷ []) bevs ps (own.0, tt) in
      bind (touch-Holds a.ctx s held.0)
        λ _ _ s1. bind (malloc-Holds s1) λ bev _ s2. dispatch-Holds a events (bev ∷ bevs) own s2
  dispatch-Holds a (ended k ∷ events) bevs own s =
      bind (end_connection-Holds k bevs (take_out k bevs) (take_out-Found k bevs) s)
        λ others _ (s1, size). rw (sym size) (dispatch-Holds a events others own s1)
  dispatch-Holds a (asked block ∷ events) bevs {ps} own s =
      bind (answer_blocks-Holds a block (Held-append (a.ctx ∷ a.db ∷ []) bevs ps own) s)
        λ _ _ s1. dispatch-Holds a events bevs own s1

  free_server-Left :
      (destroyed : Bool) (a : ServerBlocks) (b : ℕ) (bevs : List ℕ) {h : Heap}
      → Holds base (b ∷ a.db ∷ (all a ++ bevs)) h
      → Returns
          (λ _ h'.
            (ps : List ℕ) × Holds base ps h' × (length ps ≡ leftover true destroyed (length bevs)))
          (free_server destroyed a b h)
  unfolding free_server
  free_server-Left true a b bevs s =
      bind (free_fields-Holds (a.ctx ∷ []) (b ∷ a.db ∷ []) (all a ++ bevs) s (ground arith))
        λ _ _ s1. bind (touch_all-Holds (a.ctx ∷ a.options ∷ []) s1 (ground arith)) λ _ _ s2.
          bind
            (free_fields-Holds (a.ctx ∷ []) (a.options ∷ a.woptions ∷ a.roptions ∷ [])
              (a.ctx ∷ bevs) s2 (ground arith))
            λ _ _ s3. mono (free-Holds a.ctx s3) λ _ _ s4. (bevs, s4, refl)
  free_server-Left false a b bevs s =
      bind (free_fields-Holds (a.ctx ∷ []) (b ∷ a.db ∷ []) (all a ++ bevs) s (ground arith))
        λ _ _ s1. bind (touch_all-Holds (a.ctx ∷ a.options ∷ []) s1 (ground arith)) λ _ _ s2.
          bind (malloc-Holds s2) λ err _ s3.
            mono (touch-Holds err s3 (ground arith))
              λ _ _ s4. (err ∷ (all a ++ bevs), s4, omega arith)

-- Whatever connections come, ask and end, and in whatever order, the TCP server that can open its
-- database and its port touches and releases only blocks in use; where the database can be destroyed
-- at the end, what stays is one block for each connection that is still open, where not also the
-- structure, its options and the message of the error. Where it cannot bind or listen, it leaves the
-- six blocks that it has made.
pub server_run-Leaves :
    (listens destroyed : Bool) (events : List Happens) (h : Heap)
    → IsHeap h
    → Returns
        (λ _. Leaves h (leftover listens destroyed (open_after events 0)))
        (server_run listens destroyed events h)
unfolding server_run
server_run-Leaves true destroyed events h s = bind (new_server-Holds s) λ a _ s1.
    bind (touch-Holds a.ctx s1 (ground arith)) λ _ _ s2. bind (malloc-Holds s2) λ b _ s3.
      bind (touch-Holds a.ctx s3 (ground arith)) λ _ _ s4. bind (malloc-Holds s4) λ listener _ s5.
        bind (malloc-Holds s5) λ monitor _ s6.
          bind (touch_all-Holds (b ∷ listener ∷ monitor ∷ []) s6 (ground arith)) λ _ _ s7.
            bind (dispatch-Holds a events [] (ground arith) s7) λ bevs _ (s8, size).
              let server = monitor ∷ listener ∷ b ∷ a.db ∷ all a in
              let listener_first =
                Holds-perm (listener ∷ monitor ∷ b ∷ a.db ∷ (all a ++ bevs))
                  (λ q. omega (arith, count-append q bevs server)) s8 in
              bind (free-Holds listener listener_first) λ _ _ s9.
                bind (free-Holds monitor s9)
                  λ _ _ s10. rw (sym size) (free_server-Left destroyed a b bevs s10)
server_run-Leaves false destroyed events h s = bind (new_server-Holds s) λ a _ s1.
    bind (touch-Holds a.ctx s1 (ground arith)) λ _ _ s2. bind (malloc-Holds s2) λ b _ s3.
      bind (touch-Holds a.ctx s3 (ground arith)) λ _ _ s4. returns (b ∷ a.db ∷ all a, s4, refl)
