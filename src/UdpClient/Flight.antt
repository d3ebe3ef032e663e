-- ===== src/UdpClient/Flight.antt =====
-- The messages on their way.
use libnetpaxos.Prelude.{
  ℕ, zero, suc, ◌+◌, ◌*◌, ◌≤◌, ◌≡◌, refl, arith, inl, inr, ap, ap₂, subst, ◌∙◌, sym, some, none,
  List, [], ◌∷◌, ◌++◌, length, replicate, ◌==◌, Bool-cases, All, if◌then◌else◌, Option,
}
use libnetpaxos.Prelude.{Outcome, returned, ◌>>=◌}
use libnetpaxos.Utils.Time.{Timespec}
use libnetpaxos.UdpClient.{
  ClientState, make_bufs, Event, readable, timeout, both, client_state_new, send_message,
  handle_responses, on_response, monitor,
}
use libnetpaxos.UdpClient.Open.{
  IsClock, IsOpen, timediff-clock, receive_all-rooms, send_message-all, payload_text,
  make_payload_lem, make_bufs-rooms,
}

-- What happens to the client: a callback with the times that it reads, or the timer of the monitor.
pub data Happening : Type 0 where
  called : Event → Timespec → Timespec → Happening
  tick : Happening

-- The messages sent, and the numbers printed, added up.
pub record Totals : Type 0 where
  pub sent : List (List ℕ)
  pub printed : ℕ

-- What the kernel can do: no error, at most one datagram for each buffer, and times of its clock.
abbrev pub Possible : ℕ → Happening → Type 0
Possible vlen (called (readable none) recv_time now) = ⊥
Possible vlen (called (readable (some ds)) recv_time now) =
    (length ds ≤ vlen) × IsClock recv_time × IsClock now
Possible vlen (called timeout recv_time now) = Unit
Possible vlen (called (both none) recv_time now) = ⊥
Possible vlen (called (both (some ds)) recv_time now) =
    (length ds ≤ vlen) × IsClock recv_time × IsClock now
Possible vlen tick = Unit

abbrev shown : Option ℕ → ℕ
shown none = 0
shown (some n) = n

-- The client from one happening to the next.
unfoldable pub run : List Happening → ClientState → Outcome (ClientState × Totals)
run [] state = returned (state, record { sent = []; printed = 0 })
run (called event recv_time now ∷ rest) state = do
  responded ← on_response event recv_time now state
  (last, totals) ← run rest responded.state
  returned (last, record totals { sent = responded.sent ++ totals.sent })
run (tick ∷ rest) state = do
  let after = monitor state
  (last, totals) ← run rest after.0
  returned (last, record totals { printed = shown after.1 + totals.printed })

shown_lem : (state : ClientState) → shown (monitor state).1 ≡ state.mps
unfolding monitor
shown_lem state = elim (Bool-cases (state.mps == 0)) [
  | inl e ↦ let z : 0 ≡ state.mps = ground arith in rw e z
  | inr e ↦ rw e refl
]

-- The datagrams that come.
abbrev pub answers : List Happening → ℕ
answers [] = 0
answers (called (readable (some ds)) recv_time now ∷ rest) = length ds + answers rest
answers (called (readable none) recv_time now ∷ rest) = answers rest
answers (called timeout recv_time now ∷ rest) = answers rest
answers (called (both (some ds)) recv_time now ∷ rest) = length ds + answers rest
answers (called (both none) recv_time now ∷ rest) = answers rest
answers (tick ∷ rest) = answers rest

abbrev pub timeouts : List Happening → ℕ
timeouts [] = 0
timeouts (called timeout recv_time now ∷ rest) = suc (timeouts rest)
timeouts (called (both ds) recv_time now ∷ rest) = suc (timeouts rest)
timeouts (called (readable ds) recv_time now ∷ rest) = timeouts rest
timeouts (tick ∷ rest) = timeouts rest

replicate-append : (a b : ℕ) (p : List ℕ) → replicate a p ++ replicate b p ≡ replicate (a + b) p
replicate-append zero b p = ap (λ n. replicate n p) (omega arith)
replicate-append (suc a) b p =
    let e : suc (a + b) ≡ suc a + b = omega arith in
    ap (λ l. p ∷ l) (replicate-append a b p) ∙ ap (λ n. replicate n p) e

-- A callback with datagrams: as many messages, and a state that can go on.
handle_responses-IsOpen :
    (recv_time now : Timespec) (state : ClientState) (ds : List (List ℕ))
    → IsOpen state
    → length ds ≤ state.vlen
    → IsClock recv_time
    → IsClock now
    → (bufs : List (List ℕ)) × (latency : Option Timespec) × (handle_responses recv_time now state
          ds
        ≡ returned (record {
          state = record state { mps = state.mps + length ds; bufs = bufs; send_time = now };
          latency = latency;
          sent = replicate (length ds) state.payload;
        }))
      × IsOpen (record state { mps = state.mps + length ds; bufs = bufs; send_time = now })
unfolding handle_responses
handle_responses-IsOpen recv_time now state ds ok h hr hn =
    let (bufs, e, rooms, same) =
      receive_all-rooms state.bufs ds ok.rooms (omega (arith, ok.one_each)) in
    let (r, negative, timed) = timediff-clock recv_time state.send_time hr ok.clock in
    (
      bufs,
      if negative then none else some r,
      rw (e, timed, send_message-all state (length ds) ok h) refl,
      record {
        whole = ok.whole;
        size = ok.size;
        one_each = same ∙ ok.one_each;
        rooms = rooms;
        clock = hn;
      },
    )

-- Where the kernel reports no error, the client goes on. It has sent its payload once for each
-- answer, and `vlen` times for each timeout; the answers that it printed and those that it will
-- print are all that came.
pub run_lem :
    (hs : List Happening) (state : ClientState)
    → IsOpen state
    → All (Possible state.vlen) hs
    → (state' : ClientState) × (totals : Totals) × (run hs state ≡ returned (state', totals))
      × IsOpen state'
      × (totals.sent ≡ replicate (answers hs + timeouts hs * state.vlen) state.payload)
      × (totals.printed + state'.mps ≡ state.mps + answers hs)
unfolding run on_response monitor
run_lem [] state ok possible =
    let none_yet : 0 ≡ 0 + 0 * state.vlen = omega arith in
    (
      state,
      record { sent = []; printed = 0 },
      refl,
      ok,
      ap (λ n. replicate n state.payload) none_yet,
      omega arith,
    )
run_lem (called (readable none) recv_time now ∷ rest) state ok (p, possible) = absurd p
run_lem (called (readable (some ds)) recv_time now ∷ rest) state ok ((h, hr, hn), possible) =
    let (bufs, latency, e, ok') = handle_responses-IsOpen recv_time now state ds ok h hr hn in
    let next : ClientState = record state {
      mps = state.mps + length ds;
      bufs = bufs;
      send_time = now;
    } in
    let (last, totals, e', ok2, sent, count) = run_lem rest next ok' possible in
    (
      last,
      record totals { sent = replicate (length ds) state.payload ++ totals.sent },
      rw (e, e') refl,
      ok2,
      ap (λ l. replicate (length ds) state.payload ++ l) sent
          ∙ replicate-append (length ds) _ state.payload
          ∙ ap (λ n. replicate n state.payload) (omega arith),
      omega (arith, count),
    )
run_lem (called timeout recv_time now ∷ rest) state ok (p, possible) =
    let (last, totals, e', ok2, sent, count) = run_lem rest state ok possible in
    let e = send_message-all state state.vlen ok (omega arith) in
    (
      last,
      record totals { sent = replicate state.vlen state.payload ++ totals.sent },
      rw (e, e') refl,
      ok2,
      ap (λ l. replicate state.vlen state.payload ++ l) sent
          ∙ replicate-append state.vlen _ state.payload
          ∙ ap (λ n. replicate n state.payload) (omega arith),
      omega (arith, count),
    )
run_lem (called (both none) recv_time now ∷ rest) state ok (p, possible) = absurd p
run_lem (called (both (some ds)) recv_time now ∷ rest) state ok ((h, hr, hn), possible) =
    let (bufs, latency, e, ok') = handle_responses-IsOpen recv_time now state ds ok h hr hn in
    let next : ClientState = record state {
      mps = state.mps + length ds;
      bufs = bufs;
      send_time = now;
    } in
    let again = send_message-all next state.vlen ok' (omega arith) in
    let (last, totals, e', ok2, sent, count) = run_lem rest next ok' possible in
    let batch : List (List ℕ) =
      replicate (length ds) state.payload ++ replicate state.vlen state.payload in
    (
      last,
      record totals { sent = batch ++ totals.sent },
      rw (e, again, e') refl,
      ok2,
      ap (λ l. batch ++ l) sent
          ∙ ap (λ l. l ++ replicate (answers rest + timeouts rest * state.vlen) state.payload)
              (replicate-append (length ds) state.vlen state.payload)
          ∙ replicate-append (length ds + state.vlen) _ state.payload
          ∙ ap (λ n. replicate n state.payload) (omega arith),
      omega (arith, count),
    )
run_lem (tick ∷ rest) state ok (p, possible) =
    let ok' : IsOpen (record state { mps = 0 }) = record {
      whole = ok.whole;
      size = ok.size;
      one_each = ok.one_each;
      rooms = ok.rooms;
      clock = ok.clock;
    } in
    let (last, totals, e', ok2, sent, count) =
      run_lem rest (record state { mps = 0 }) ok' possible in
    let print : shown (monitor state).1 ≡ state.mps = shown_lem state in
    (
      last,
      record totals { printed = shown (monitor state).1 + totals.printed },
      rw e' refl,
      ok2,
      sent,
      omega (arith, count, print),
    )

module _ (vlen : ℕ) (unset : Timespec) (mem : ℕ → List ℕ) (rooms : (k : ℕ) → length (mem k) ≡ 201)
    (clock : IsClock unset) where
  client_state_new-IsOpen :
      (state : ClientState) × (client_state_new vlen unset mem ≡ returned state)
      × IsOpen state
      × (state.vlen ≡ vlen)
      × (state.payload ≡ payload_text)
      × (state.mps ≡ 0)
  unfolding client_state_new
  client_state_new-IsOpen =
      let (all_rooms, size) = make_bufs-rooms vlen mem rooms in
      (
        record {
          mps = 0;
          send_time = unset;
          vlen = vlen;
          payload = payload_text;
          payload_sz = 32;
          bufs = make_bufs vlen mem;
        },
        rw make_payload_lem refl,
        record { whole = refl; size = refl; one_each = size; rooms = all_rooms; clock = clock },
        refl,
        refl,
        refl,
      )

  -- A client that is made and sends its first `vlen` messages goes on where the kernel reports no
  -- error and the memory of the unset time holds a time. From then on it has sent one message for
  -- each answer and `vlen` for each timeout, all with the payload, and what it has printed and is
  -- going to print are all the answers.
  pub client_lem :
      (hs : List Happening)
      → All (Possible vlen) hs
      → (state state' : ClientState) × (totals : Totals) × (client_state_new vlen unset mem
          ≡ returned state)
        × (send_message state vlen ≡ returned (replicate vlen payload_text))
        × (run hs state ≡ returned (state', totals))
        × (totals.sent ≡ replicate (answers hs + timeouts hs * vlen) payload_text)
        × (totals.printed + state'.mps ≡ answers hs)
  client_lem hs possible =
      let (state, made, ok, same_vlen, same_payload, zero_mps) = client_state_new-IsOpen in
      let (state', totals, e, _, sent, count) =
        run_lem hs state ok (subst (λ n. All (Possible n) hs) (sym same_vlen) possible) in
      (
        state,
        state',
        totals,
        made,
        send_message-all state vlen ok (omega (arith, same_vlen))
            ∙ ap (λ p. returned (replicate vlen p)) same_payload,
        e,
        sent ∙ ap₂ (λ n p. replicate (answers hs + timeouts hs * n) p) same_vlen same_payload,
        omega (arith, count, zero_mps),
      )
