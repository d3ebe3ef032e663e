-- ===== src/Acceptor/Cases.antt =====
-- The ways in which the two handlers can treat a message, as a relation.
use libnetpaxos.Prelude.{ℕ, ◌%◌, ◌^◌, ◌≤◌, ◌<◌, ◌≡◌, ◌++◌, true, false, List, inl, inr}
use libnetpaxos.Prelude.{some, get_elem?, set, take, drop, returned, arith, subst}
use libnetpaxos.Prelude.{Bool-cases, Option-cases, Outcome-cases, ◌==◌, ltb, leb}
use libnetpaxos.Message.{Message, paxos_value_size, phase1a, phase1b, phase2a, phase2b}
use libnetpaxos.Message.Copy.{strcpy}
use libnetpaxos.Acceptor.{AState, AcceptorCtx, Handled, handle_phase1a, handle_phase2a, handle}

-- The answers to a message that raises the promised round, and to one that is accepted.
abbrev pub promise : AcceptorCtx → Message → AState → List ℕ → Handled
promise ctx msg st value = (
  record ctx { states = set ctx.states msg.inst (record st { rnd = msg.rnd }) },
  record msg {
    vrnd = msg.rnd;
    paxosval = take paxos_value_size value;
    client = drop paxos_value_size value;
    acptid = ctx.acceptor_id % 2 ^ 16;
    msgtype = phase1b;
  },
  true,
)

abbrev pub accept : AcceptorCtx → Message → AState → List ℕ → Handled
accept ctx msg st value = (
  record ctx {
    states =
        set ctx.states msg.inst (record st { rnd = msg.rnd; vrnd = msg.rnd; paxosval = value });
  },
  record msg { acptid = ctx.acceptor_id % 2 ^ 16; msgtype = phase2b },
  true,
)

-- The instance of the message exists, and its state is such.
abbrev pub IsAt : AcceptorCtx → Message → (AState → Type 0) → Type 0
IsAt ctx msg P = (st : AState) × (get_elem? ctx.states msg.inst ≡ some st) × P st

pub data HandleCase (ctx : AcceptorCtx) (msg : Message) : Handled → Type 0 where
  -- Another type of message, or an old round.
  passed :
      (msg.msgtype ≡ phase1a → IsAt ctx msg (λ st. msg.rnd ≤ st.rnd))
      → (msg.msgtype ≡ phase2a → IsAt ctx msg (λ st. msg.rnd < st.rnd))
      → HandleCase ctx msg (ctx, msg, false)
  promised :
      {st : AState} {v : List ℕ}
      → msg.msgtype ≡ phase1a
      → get_elem? ctx.states msg.inst ≡ some st
      → st.rnd < msg.rnd
      → strcpy (msg.paxosval ++ msg.client) st.paxosval ≡ returned v
      → HandleCase ctx msg (promise ctx msg st v)
  accepted :
      {st : AState} {v : List ℕ}
      → msg.msgtype ≡ phase2a
      → get_elem? ctx.states msg.inst ≡ some st
      → st.rnd ≤ msg.rnd
      → strcpy st.paxosval (msg.paxosval ++ msg.client) ≡ returned v
      → HandleCase ctx msg (accept ctx msg st v)

module _ (ctx : AcceptorCtx) (msg : Message) where
  handle_phase1a-HandleCase :
      {r : Handled}
      → msg.msgtype ≡ phase1a
      → handle_phase1a ctx msg ≡ returned r
      → HandleCase ctx msg r
  unfolding handle_phase1a
  handle_phase1a-HandleCase {r} type h = elim (Option-cases (get_elem? ctx.states msg.inst)) [
    | inl out ↦ absurd (ground arith)
    | inr (st, found) ↦ elim (Bool-cases (ltb st.rnd msg.rnd)) [
      | inl newer ↦ elim (Outcome-cases (strcpy (msg.paxosval ++ msg.client) st.paxosval)) [
        | inl (v, e) ↦
            let is : promise ctx msg st v ≡ r = ground arith in
            subst (HandleCase ctx msg) is (promised type found (ground arith) e)
        | inr bad ↦ absurd (ground arith)
      ]
      | inr old ↦
          let is : (ctx, msg, false) ≡ r = ground arith in
          subst (HandleCase ctx msg) is
            (passed (λ t. (st, found, ground arith)) (λ t. absurd (omega arith)))
    ]
  ]

  handle_phase2a-HandleCase :
      {r : Handled}
      → msg.msgtype ≡ phase2a
      → handle_phase2a ctx msg ≡ returned r
      → HandleCase ctx msg r
  unfolding handle_phase2a
  handle_phase2a-HandleCase {r} type h = elim (Option-cases (get_elem? ctx.states msg.inst)) [
    | inl out ↦ absurd (ground arith)
    | inr (st, found) ↦ elim (Bool-cases (leb st.rnd msg.rnd)) [
      | inl newer ↦ elim (Outcome-cases (strcpy st.paxosval (msg.paxosval ++ msg.client))) [
        | inl (v, e) ↦
            let is : accept ctx msg st v ≡ r = ground arith in
            subst (HandleCase ctx msg) is (accepted type found (ground arith) e)
        | inr bad ↦ absurd (ground arith)
      ]
      | inr old ↦
          let is : (ctx, msg, false) ≡ r = ground arith in
          subst (HandleCase ctx msg) is
            (passed (λ t. absurd (omega arith)) (λ t. (st, found, ground arith)))
    ]
  ]

  -- Every return of the handlers is one of them.
  pub handle-HandleCase : {r : Handled} → handle ctx msg ≡ returned r → HandleCase ctx msg r
  unfolding handle
  handle-HandleCase {r} h = elim (Bool-cases (msg.msgtype == phase1a)) [
    | inl one ↦
        let h1 : handle_phase1a ctx msg ≡ returned r = ground arith in
        handle_phase1a-HandleCase (ground arith) h1
    | inr more ↦ elim (Bool-cases (msg.msgtype == phase2a)) [
      | inl two ↦
          let h2 : handle_phase2a ctx msg ≡ returned r = ground arith in
          handle_phase2a-HandleCase (ground arith) h2
      | inr other ↦
          let is : (ctx, msg, false) ≡ r = ground arith in
          subst (HandleCase ctx msg) is
            (passed (λ t. absurd (ground arith)) (λ t. absurd (ground arith)))
    ]
  ]
