-- ===== src/Learner/LateRounds.antt =====
-- What a vote of a later round does to the votes of the rounds before it.
use libnetpaxos.Prelude.{ℕ, ◌<◌, ◌^◌, ◌≡◌, refl, Bool, false, returned, arith, sym, ◌∙◌}
use libnetpaxos.Prelude.Bits.{bit, bit-bit_or, bit-le-one}
use libnetpaxos.Message.{Message}
use libnetpaxos.Learner.{PaxosState, count_vote}
use libnetpaxos.Learner.Cases.{VoteCase, ignored, counted, renewed, count_vote-VoteCase}

-- The first vote of a later round completes no quorum, whatever its size, and leaves the bits of
-- the earlier rounds set.
record IsRenewed (st : PaxosState) (m : Message) (r : PaxosState × Bool) : Type 0 where
  silent : r.1 ≡ false
  round : r.0.rnd ≡ m.rnd
  single : r.0.count ≡ 1
  active : r.0.finished ≡ false
  kept : (a : ℕ) → bit st.from a ≡ 1 → bit r.0.from a ≡ 1

VoteCase-IsRenewed :
    {maj : ℕ} {st : PaxosState} {m : Message} {r : PaxosState × Bool}
    → VoteCase maj st m r
    → st.finished ≡ false
    → st.rnd < m.rnd
    → IsRenewed st m r
VoteCase-IsRenewed (ignored why) f late = absurd (ground arith)
VoteCase-IsRenewed (counted active same fits clear copied) f late = absurd (omega arith)
VoteCase-IsRenewed {st} {m} (renewed active later fits copied) f late = record {
  silent = refl;
  round = refl;
  single = refl;
  active = active;
  kept = λ a h. omega (arith, bit-bit_or a st.from (2 ^ m.acptid), bit-le-one a (2 ^ m.acptid));
}

-- A set bit makes a vote of the current round count for nothing.
VoteCase-marked :
    {maj : ℕ} {st : PaxosState} {m : Message} {r : PaxosState × Bool}
    → VoteCase maj st m r
    → m.rnd ≡ st.rnd
    → bit st.from m.acptid ≡ 1
    → r ≡ (st, false)
VoteCase-marked (ignored why) same mark = refl
VoteCase-marked (counted active same' fits clear copied) same mark = absurd (omega arith)
VoteCase-marked (renewed active later fits copied) same mark = absurd (omega arith)

-- When a later round begins in an unfinished instance, its first vote delivers nothing, whatever
-- the size of the quorum, and the vote in that round of any other acceptor that has voted in an
-- earlier round changes nothing.
pub earlier_voter_lost :
    (maj : ℕ) (st : PaxosState) (first second : Message) {st' : PaxosState} {c : Bool}
    {r : PaxosState × Bool}
    → st.finished ≡ false
    → st.rnd < first.rnd
    → count_vote maj st first ≡ returned (st', c)
    → second.rnd ≡ first.rnd
    → bit st.from second.acptid ≡ 1
    → count_vote maj st' second ≡ returned r
    → (c ≡ false) × (r ≡ (st', false))
earlier_voter_lost maj st first second active late h same mark h' =
    let n = VoteCase-IsRenewed (count_vote-VoteCase maj st first h) active late in
    (
      n.silent,
      VoteCase-marked (count_vote-VoteCase maj _ second h') (same ∙ sym n.round)
          (n.kept second.acptid mark),
    )
