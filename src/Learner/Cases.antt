-- ===== src/Learner/Cases.antt =====
-- The ways in which `handle_accepted` can treat a message, as a relation.
use Prim.Native.Nat.{bit_and, bit_or}
use libnetpaxos.Prelude.{ℕ, suc, ◌^◌, ◌<◌, ◌≡◌, ◌++◌, Bool, false, List, ◌⊎◌, inl, inr}
use libnetpaxos.Prelude.{returned, Bool-cases, Outcome-cases, ◌==◌, ltb, arith, subst}
use libnetpaxos.Prelude.Bits.{bit, bit_and-pow_iff, bit-le-one}
use libnetpaxos.Message.{Message}
use libnetpaxos.Message.Copy.{strcpy, memcpy}
use libnetpaxos.Message.{unpack}
use libnetpaxos.Prelude.{Option, [], ◌∷◌, ◌≤◌, leb, leb→le}
use libnetpaxos.Prelude.Int.{to_unsigned}
use libnetpaxos.Learner.{PaxosState, LearnerCtx, Counted, count_vote, handle_accepted}
use libnetpaxos.Learner.{Delivery, Acted, also, receive_from}
use libnetpaxos.Prelude.{Option-cases, get_elem?, set, some, none, ap, ◌∙◌, true}

-- The instance is finished, the round is old, or the acceptor's bit is set.
abbrev pub CanIgnore : PaxosState → Message → Type 0
CanIgnore st m =
    (st.finished ≡ true) ⊎ ((m.rnd < st.rnd) ⊎ ((m.rnd ≡ st.rnd) × (bit st.from m.acptid ≡ 1)))

pub data VoteCase (maj : ℕ) (st : PaxosState) (m : Message) : PaxosState × Bool → Type 0 where
  -- Nothing changes.
  ignored : CanIgnore st m → VoteCase maj st m (st, false)
  -- A new vote in the current round.
  counted :
      {v : List ℕ}
      → st.finished ≡ false
      → m.rnd ≡ st.rnd
      → m.acptid < 31
      → bit st.from m.acptid ≡ 0
      → memcpy st.paxosval m.paxosval 32 ≡ returned v
      → VoteCase maj st m (
        record st {
          from = bit_or st.from (2 ^ m.acptid);
          count = suc st.count;
          paxosval = v;
          finished = suc st.count == maj;
        },
        suc st.count == maj,
      )
  -- The first vote of a later round.
  renewed :
      {v : List ℕ}
      → st.finished ≡ false
      → st.rnd < m.rnd
      → m.acptid < 31
      → strcpy st.paxosval (m.paxosval ++ m.client) ≡ returned v
      → VoteCase maj st m (
        record st { rnd = m.rnd; from = bit_or st.from (2 ^ m.acptid); count = 1; paxosval = v },
        false,
      )

-- Every return of `count_vote` is one of them.
pub count_vote-VoteCase :
    (maj : ℕ) (st : PaxosState) (m : Message) {r : PaxosState × Bool}
    → count_vote maj st m ≡ returned r
    → VoteCase maj st m r
unfolding count_vote
count_vote-VoteCase maj st m {r} h = elim (Bool-cases st.finished) [
  | inl done ↦
      let is : (st, false) ≡ r = ground arith in subst (VoteCase maj st m) is (ignored (inl done))
  | inr active ↦ elim (Bool-cases (m.rnd == st.rnd)) [
    | inl same ↦ elim (Bool-cases (ltb m.acptid 31)) [
      | inl fits ↦ elim (Bool-cases (bit_and st.from (2 ^ m.acptid) == 0)) [
        | inl new ↦ elim (Outcome-cases (memcpy st.paxosval m.paxosval 32)) [
          | inl (v, e) ↦ subst (VoteCase maj st m) (ground arith) (
              counted active (ground arith) (ground arith)
                ((bit_and-pow_iff m.acptid st.from).0 (ground arith)) e)
          | inr bad ↦ absurd (ground arith)
        ]
        | inr old ↦
            let is : (st, false) ≡ r = ground arith in
            let set_bit : bit st.from m.acptid ≡ 1 =
              ground (arith, bit_and-pow_iff m.acptid st.from, bit-le-one m.acptid st.from) in
            subst (VoteCase maj st m) is (ignored (inr (inr (ground arith, set_bit))))
      ]
      | inr big ↦ absurd (ground arith)
    ]
    | inr other ↦ elim (Bool-cases (ltb st.rnd m.rnd)) [
      | inl later ↦ elim (Bool-cases (ltb m.acptid 31)) [
        | inl fits ↦ elim (Outcome-cases (strcpy st.paxosval (m.paxosval ++ m.client))) [
          | inl (v, e) ↦
              subst (VoteCase maj st m) (ground arith)
                (renewed active (ground arith) (ground arith) e)
          | inr bad ↦ absurd (ground arith)
        ]
        | inr big ↦ absurd (ground arith)
      ]
      | inr old ↦
          let is : (st, false) ≡ r = ground arith in
          subst (VoteCase maj st m) is (ignored (inr (inl (ground arith))))
    ]
  ]
]

-- The ways in which `handle_accepted` can return.
pub data AcceptCase (ctx : LearnerCtx) (m : Message) : Counted → Type 0 where
  silent :
      {st st' : PaxosState}
      → get_elem? ctx.states m.inst ≡ some st
      → count_vote ctx.maj st m ≡ returned (st', false)
      → AcceptCase ctx m (record ctx { states = set ctx.states m.inst st' }, none)
  chose :
      {st st' : PaxosState}
      → get_elem? ctx.states m.inst ≡ some st
      → count_vote ctx.maj st m ≡ returned (st', true)
      → AcceptCase ctx m (
        record ctx {
          states = set ctx.states m.inst st';
          mps = suc ctx.mps;
          num_packets = suc ctx.num_packets;
        },
        some (record { inst = m.inst; value = st'.paxosval; client = m.client }),
      )

pub handle_accepted-AcceptCase :
    (ctx : LearnerCtx) (m : Message) {r : Counted}
    → handle_accepted ctx m ≡ returned r
    → AcceptCase ctx m r
unfolding handle_accepted
handle_accepted-AcceptCase ctx m {r} h = elim (Option-cases (get_elem? ctx.states m.inst)) [
  | inl out ↦ absurd (ground arith)
  | inr (st, found) ↦ elim (Outcome-cases (count_vote ctx.maj st m)) [
    | inl ((st', c), e) ↦ elim (Bool-cases c) [
      | inl yes_c ↦
          subst (AcceptCase ctx m) (ground arith)
            (chose found (e ∙ ap (λ b. returned (st', b)) yes_c))
      | inr no_c ↦
          subst (AcceptCase ctx m) (ground arith)
            (silent found (e ∙ ap (λ b. returned (st', b)) no_c))
    ]
    | inr bad ↦ absurd (ground arith)
  ]
]

-- The ways in which a round of the loop of `on_value` can go on.
pub data RoundCase (ctx : LearnerCtx) (m : Message) (ms : List Message) : Acted → Type 0 where
  stopped :
      to_unsigned ctx.conf.maxinst ≤ (unpack m).inst
      → RoundCase ctx m ms (record { ctx = ctx; delivered = []; raised = true })
  went :
      {ctx' : LearnerCtx} {o : Option Delivery} {rest : Acted}
      → (unpack m).inst < to_unsigned ctx.conf.maxinst
      → handle_accepted ctx (unpack m) ≡ returned (ctx', o)
      → receive_from ms ctx' ≡ returned rest
      → RoundCase ctx m ms (also o rest)

pub receive_from-RoundCase :
    (ctx : LearnerCtx) (m : Message) (ms : List Message) {a : Acted}
    → receive_from (m ∷ ms) ctx ≡ returned a
    → RoundCase ctx m ms a
unfolding receive_from
receive_from-RoundCase ctx m ms {a} h =
    elim (Bool-cases (leb (to_unsigned ctx.conf.maxinst) (unpack m).inst)) [
      | inl past ↦ subst (RoundCase ctx m ms) (ground arith) (stopped (leb→le _ _ past))
      | inr fits ↦ elim (Outcome-cases (handle_accepted ctx (unpack m))) [
        | inl ((ctx', o), e) ↦ elim (Outcome-cases (receive_from ms ctx')) [
          | inl (rest, e') ↦ subst (RoundCase ctx m ms) (ground arith) (went (ground arith) e e')
          | inr bad ↦ absurd (ground arith)
        ]
        | inr bad ↦ absurd (ground arith)
      ]
    ]
