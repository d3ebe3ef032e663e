-- ===== src/Learner/Session.antt =====
-- A learner's whole run: any number of batches, and ticks of the monitor between them.
mod Step
pub use Step.{Quorum, Valid, ValidState}
use Step.{receive_from-Valid, receive_from-maj}
use libnetpaxos.Prelude.{
  ℕ, ◌≡◌, ◌≢◌, refl, List, [], ◌++◌, ◌*◌, ◌<◌, ◌≤◌, ◌∙◌, some, map, returned, arith, replicate,
}
use libnetpaxos.Prelude.{
  All, All-in, In, Distinct, get_elem?, get_elem?-replicate, length, subst, sym,
}
use libnetpaxos.Prelude.Int.{pos_part}
use libnetpaxos.Config.{Config}
use libnetpaxos.Message.{Message, unpack}
use libnetpaxos.Learner.{
  PaxosState, LearnerCtx, Delivery, Acted, fresh_state, learner_ctx_new, majority, quorum, on_value,
  monitor,
}
use libnetpaxos.Learner.Tally.{Tallied, Tallied-fresh}

-- The run of a learner that started with `conf`: the messages that it has received, in host order,
-- and the calls of `deliver`, oldest first.
pub data Reached (conf : Config) : List Message → List Delivery → LearnerCtx → Type 0 where
  start : Reached conf [] [] (learner_ctx_new conf)
  batch :
      {hist : List Message} {dels : List Delivery} {ctx : LearnerCtx}
      → Reached conf hist dels ctx
      → (ms : List Message) {a : Acted} → on_value (some ms) ctx ≡ returned a
      → Reached conf (map unpack ms ++ hist) (dels ++ a.delivered) a.ctx
  tick :
      {hist : List Message} {dels : List Delivery} {ctx : LearnerCtx}
      → Reached conf hist dels ctx
      → Reached conf hist dels (monitor ctx).0

module _ (conf : Config) where
  Valid-new : Valid [] [] (learner_ctx_new conf)
  unfolding learner_ctx_new
  Valid-new = record {
    instances = λ i st e.
        let fresh : st ≡ fresh_state =
          get_elem?-replicate (pos_part conf.maxinst) i fresh_state st e in
        subst (λ s. ValidState [] [] i s) (sym fresh)
          (record { tallied = Tallied-fresh [] i; sized = refl; once = λ f. tt });
    quorums = tt;
    distinct = tt;
    numbered = refl;
  }

Valid-tick :
    {hist : List Message} {dels : List Delivery} {ctx : LearnerCtx}
    → Valid hist dels ctx
    → Valid hist dels (monitor ctx).0
unfolding monitor
Valid-tick v = record {
  instances = v.instances;
  quorums = v.quorums;
  distinct = v.distinct;
  numbered = v.numbered;
}

pub Reached-Valid :
    {conf : Config} {hist : List Message} {dels : List Delivery} {ctx : LearnerCtx}
    → Reached conf hist dels ctx
    → Valid hist dels ctx
unfolding on_value
Reached-Valid {conf} start = Valid-new conf
Reached-Valid (batch r ms e) = receive_from-Valid (Reached-Valid r) ms e
Reached-Valid (tick r) = Valid-tick (Reached-Valid r)

Reached-maj :
    {conf : Config} {hist : List Message} {dels : List Delivery} {ctx : LearnerCtx}
    → Reached conf hist dels ctx
    → ctx.maj ≡ quorum conf.num_acceptors
unfolding on_value learner_ctx_new monitor
Reached-maj start = refl
Reached-maj (batch {ctx} r ms e) = receive_from-maj ms ctx e ∙ Reached-maj r
Reached-maj (tick r) = Reached-maj r

-- In every run of a learner, each call of `deliver` is justified: a majority of different acceptors
-- have sent votes for its instance in one round, and the value and the client are those of a vote
-- of that round which the learner received.
pub delivery-Quorum :
    {conf : Config} {hist : List Message} {dels : List Delivery} {ctx : LearnerCtx}
    → Reached conf hist dels ctx
    → (d : Delivery) → In d dels
    → Quorum hist (quorum conf.num_acceptors) d
delivery-Quorum {conf} {hist} {dels} {ctx} r d i =
    subst (λ maj. Quorum hist maj d) (Reached-maj r)
      (All-in (Quorum hist ctx.maj) dels (Reached-Valid r).quorums d i)

-- In every run of a learner no instance is delivered twice, and `num_packets` counts the
-- deliveries.
pub delivered_once :
    {conf : Config} {hist : List Message} {dels : List Delivery} {ctx : LearnerCtx}
    → Reached conf hist dels ctx
    → Distinct (map Delivery.inst dels) × (ctx.num_packets ≡ length dels)
delivered_once r = ((Reached-Valid r).distinct, (Reached-Valid r).numbered)

-- The size of a quorum is a strict majority of the acceptors, and the least one.
pub majority_lem : (n : ℕ) → (n < 2 * majority n) × ((k : ℕ) → n < 2 * k → majority n ≤ k)
unfolding majority
majority_lem n = (omega arith, λ k h. omega arith)
