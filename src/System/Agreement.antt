-- ===== src/System/Agreement.antt =====
-- What the learners of a system can count on.
use libnetpaxos.Prelude.{ℕ, ◌≡◌, List, sym, ap, ◌∙◌, All-in, In, take}
use libnetpaxos.Config.{Config}
use libnetpaxos.Message.{Message, unpack}
use libnetpaxos.Learner.{Delivery}
use libnetpaxos.Learner.Session.{delivery-Quorum}
use libnetpaxos.System.{System, Reach}
use libnetpaxos.System.Invariant.{Inv, IsGiven, IsVote, IsUnpacked}
use libnetpaxos.System.Reachable.{Reach-Inv}

-- A delivery has the value of an order for its instance.
record IsBacked (s : System) (d : Delivery) : Type 0 where
  from : Message
  sent : In from s.orders
  same_inst : (unpack from).inst ≡ d.inst
  value : d.value ≡ take 32 from.paxosval

backed :
    {learner_conf : ℕ → Config} {s : System}
    → Inv learner_conf s
    → (j : ℕ) (d : Delivery) → In d (s.log j)
    → IsBacked s d
backed {learner_conf} {s} inv j d i =
    let (hist, r, from) = inv.learnt j in
    let q = delivery-Quorum r d i in
    let (v, iv, is) = All-in (IsUnpacked s.votes) hist from q.last q.received in
    let (o, io, for) = All-in (IsVote s.orders) s.votes inv.voted v iv in
    record {
      from = o;
      sent = io;
      same_inst = sym for.0 ∙ ap Message.inst (sym is) ∙ q.same_inst;
      value =
          q.value ∙ ap (λ m. take 32 (Message.paxosval m)) is ∙ ap (take 32) (same_value v o for.1);
    }
  where
    same_value : (v o : Message) → v.paxosval ≡ o.paxosval → (unpack v).paxosval ≡ o.paxosval
    same_value v o e = unfold unpack in e

-- Agreement: in every reachable state of a system in which no acceptor runs its callback again after it
-- has raised SIGTERM, two deliveries for one instance have the same value, whether one learner made
-- them or two.
pub agreement :
    {acceptor_conf learner_conf : ℕ → Config} {s : System}
    → Reach acceptor_conf learner_conf s
    → (j k : ℕ) (d d' : Delivery) → In d (s.log j)
    → In d' (s.log k)
    → d.inst ≡ d'.inst
    → d.value ≡ d'.value
agreement {s} r j k d d' i i' same =
    let inv = Reach-Inv r in
    let b = backed inv j d i in
    let b' = backed inv k d' i' in
    b.value
    ∙ ap (take 32)
        (inv.unique b.from b'.from b.sent b'.sent (b.same_inst ∙ same ∙ sym b'.same_inst))
    ∙ sym b'.value

-- Validity: in every reachable state of such a system, where no acceptor runs its callback again after
-- it has raised SIGTERM, each delivered value is the first 32 bytes of a value that a
-- client submitted.
pub validity :
    {acceptor_conf learner_conf : ℕ → Config} {s : System}
    → Reach acceptor_conf learner_conf s
    → (j : ℕ) (d : Delivery) → In d (s.log j)
    → (value : List ℕ) × In value s.submitted × (d.value ≡ take 32 value)
validity {s} r j d i =
    let inv = Reach-Inv r in
    let b = backed inv j d i in
    let g = All-in (IsGiven s.coordinator.cur_inst s.submitted) s.orders inv.given b.from b.sent in
    (b.from.paxosval, g.value, b.value)
