-- ===== src/Learner/Tests.antt =====
-- Runs of a learner of one instance and three acceptors.
use libnetpaxos.Prelude.{ℕ, ◌*◌, ◌<◌, ◌≤◌, ◌≡◌, refl, arith, Bool, true, false, some, returned}
use libnetpaxos.Prelude.{List, [], ◌∷◌, ◌++◌, inl, replicate, map, Distinct}
use libnetpaxos.Prelude.Int.{pos}
use libnetpaxos.Config.{Config, init_conf}
use libnetpaxos.Message.{Message, unpack, swap16, swap32, phase2b}
use libnetpaxos.Message.Copy.{strcpy, memcpy}
use libnetpaxos.Learner.{
  LearnerCtx, PaxosState, Delivery, Acted, fresh_state, learner_ctx_new, majority, on_value,
  count_vote, shift_one, handle_accepted, receive_from,
}
use libnetpaxos.Learner.Progress.{IsVote}
use libnetpaxos.Learner.Session.{Reached, start, batch, Quorum, delivery-Quorum, delivered_once}
use libnetpaxos.Learner.Order.{Ballot, IsMajority, on_batches, delivered_as_voted}

abbrev conf : Config
conf = record init_conf { maxinst = pos 1; num_acceptors = pos 3 }

abbrev value : List ℕ
value = 65 ∷ replicate 31 0

abbrev host : ℕ → ℕ → Message
host rnd acptid = record {
  inst = 0;
  rnd = rnd;
  vrnd = rnd;
  acptid = acptid;
  msgtype = phase2b;
  paxosval = value;
  client = replicate 16 0;
}

abbrev wire : ℕ → ℕ → Message
wire rnd acptid = record (host 0 0) {
  rnd = rnd * 256;
  vrnd = rnd * 256;
  acptid = acptid * 256;
  msgtype = phase2b * 256;
}

-- Two votes of round 0, one of them twice.
abbrev votes : List Message
votes = wire 0 0 ∷ wire 0 0 ∷ wire 0 2 ∷ []

abbrev delivery : Delivery
delivery = record { inst = 0; value = value; client = replicate 16 0 }

abbrev after : Acted
after = record {
  ctx = record {
    conf = conf;
    mps = 1;
    num_packets = 1;
    maj = 2;
    states = record { rnd = 0; count = 2; from = 5; finished = true; paxosval = value } ∷ [];
    mine = replicate 16 0;
  };
  delivered = delivery ∷ [];
  raised = false;
}

run : on_value (some votes) (learner_ctx_new conf) ≡ returned after
unfolding learner_ctx_new majority on_value count_vote shift_one handle_accepted receive_from unpack
    swap16 swap32 strcpy memcpy
run = refl

reached : Reached conf (map unpack votes ++ []) ([] ++ after.delivered) after.ctx
reached = batch start votes run

delivery-Quorum_example : Quorum (map unpack votes ++ []) (majority 3) delivery
delivery-Quorum_example = delivery-Quorum reached delivery (inl refl)

delivered_once_example : Distinct (map Delivery.inst (delivery ∷ [])) × (after.ctx.num_packets ≡ 1)
delivered_once_example = delivered_once reached

-- The votes of acceptor 1 in round 1, of acceptor 0 in round 2, and of acceptor 1 in round 2.
abbrev first_vote : PaxosState
first_vote = record fresh_state { rnd = 1; count = 1; from = 2; paxosval = value }

abbrev next_round : PaxosState
next_round = record first_vote { rnd = 2; from = 3 }

abbrev kept : PaxosState × Bool
kept = (next_round, false)

-- The votes of acceptors 0 and 2, which are a majority of three, for an instance.
abbrev wire_for : ℕ → ℕ → Message
wire_for inst acptid = record (wire 0 acptid) { inst = inst * 16777216 }

abbrev ballot : ℕ → Ballot
ballot inst = record {
  delivery = record delivery { inst = inst };
  votes = wire_for inst 0 ∷ wire_for inst 2 ∷ [];
}

abbrev two_conf : Config
two_conf = record conf { maxinst = pos 2 }

wire_for-IsVote :
    (inst acptid : ℕ)
    → unpack (wire_for inst acptid) ≡ record (host 0 acptid) { inst = inst }
    → acptid < 31
    → IsVote inst 0 value (replicate 16 0) (unpack (wire_for inst acptid))
wire_for-IsVote inst acptid e h = rw e (record {
  same_inst = refl;
  same_round = refl;
  small_id = h;
  same_value = refl;
  same_client = refl;
})

second-IsMajority : IsMajority (majority 3) 2 (ballot 1)
unfolding unpack swap16 swap32 majority
second-IsMajority = record {
  known = ground arith;
  size = refl;
  for_value =
      (wire_for-IsVote 1 0 refl (ground arith), (wire_for-IsVote 1 2 refl (ground arith), tt));
  different = (((λ e. omega (arith, e)), tt), (tt, tt));
  enough = refl;
}

first-IsMajority : IsMajority (majority 3) 2 (ballot 0)
unfolding unpack swap16 swap32 majority
first-IsMajority = record {
  known = ground arith;
  size = refl;
  for_value =
      (wire_for-IsVote 0 0 refl (ground arith), (wire_for-IsVote 0 2 refl (ground arith), tt));
  different = (((λ e. omega (arith, e)), tt), (tt, tt));
  enough = refl;
}

some_vote : 1 ≤ majority 3
unfolding majority
some_vote = ground arith

delivered_as_voted_example :
    (last : LearnerCtx) × (on_batches
        ((ballot 1).votes ∷ (ballot 0).votes ∷ [])
        (learner_ctx_new two_conf)
      ≡ returned (last, (ballot 1).delivery ∷ (ballot 0).delivery ∷ []))
delivered_as_voted_example =
    delivered_as_voted two_conf 2 (ballot 1 ∷ ballot 0 ∷ []) refl (omega arith) some_vote
      (second-IsMajority, (first-IsMajority, tt)) (((λ e. omega (arith, e)), tt), (tt, tt))
