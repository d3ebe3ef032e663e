-- ===== src/Acceptor/Promises.antt =====
-- What a promise (phase1b) reports of the value accepted before.
use libnetpaxos.Prelude.{◌≤◌, ◌≡◌, ◌≢◌, true, some, returned, arith, get_elem?}
use libnetpaxos.Prelude.{Outcome-cases, Bool-cases, ltb, inl, inr, ◌++◌}
use libnetpaxos.Message.{Message}
use libnetpaxos.Message.Copy.{strcpy}
use libnetpaxos.Acceptor.{AState, AcceptorCtx, handle_phase1a}

-- A promise reports, as the round of the accepted value, the round that it promises, and so never
-- the round in which the value was accepted, in a state whose accepted round is at most the
-- promised one.
pub promise_reports_own_round :
    (ctx : AcceptorCtx) (msg : Message) {st : AState} {ctx' : AcceptorCtx} {m : Message}
    → get_elem? ctx.states msg.inst ≡ some st
    → st.vrnd ≤ st.rnd
    → handle_phase1a ctx msg ≡ returned (ctx', m, true)
    → (m.vrnd ≡ msg.rnd) × (m.vrnd ≢ st.vrnd)
unfolding handle_phase1a
promise_reports_own_round ctx msg {st} {ctx'} {m} found vote h =
    elim (Bool-cases (ltb st.rnd msg.rnd)) [
      | inl newer ↦ elim (Outcome-cases (strcpy (msg.paxosval ++ msg.client) st.paxosval)) [
        | inl (v, e) ↦ let reported : m.vrnd ≡ msg.rnd = ground arith in (reported, ground arith)
        | inr bad ↦ absurd (ground arith)
      ]
      | inr old ↦ absurd (ground arith)
    ]
