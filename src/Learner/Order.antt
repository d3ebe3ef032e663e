-- ===== src/Learner/Order.antt =====
-- Instances are delivered as their votes come, not by their numbers.
use libnetpaxos.Prelude.{
  ℕ, ◌^◌, ◌<◌, ◌≤◌, ◌≡◌, ◌≢◌, refl, arith, ap, ◌∙◌, false, some, List, [], ◌∷◌, ◌++◌, length, map,
  All, Distinct, get_elem?, get_elem?_total, get_elem?-replicate, replicate, length-replicate,
  Outcome, returned, ◌>>=◌,
}
use libnetpaxos.Prelude.Int.{pos, pos_part, to_unsigned}
use libnetpaxos.Config.{Config}
use libnetpaxos.Message.{Message, unpack}
use libnetpaxos.Learner.{
  quorum, learner_ctx_new, fresh_state, LearnerCtx, Delivery, receive_from, on_value,
}
use libnetpaxos.Learner.Progress.{IsVote, voter, Alone, receive_from-chosen, all_clear}

-- A batch with the votes for one instance.
pub record Ballot : Type 0 where
  pub delivery : Delivery
  pub votes : List Message

-- The votes are of round 0, for a value, from as many different acceptors as are a majority, and
-- the instance is below `n`.
pub record IsMajority (maj n : ℕ) (b : Ballot) : Type 0 where
  pub known : b.delivery.inst < n
  pub size : length b.delivery.value ≡ 32
  pub for_value :
      All (λ m. IsVote b.delivery.inst 0 b.delivery.value b.delivery.client (unpack m)) b.votes
  pub different : Distinct (map voter b.votes)
  pub enough : length b.votes ≡ maj

-- The callback, once for each batch, and all that is delivered.
unfoldable pub on_batches : List (List Message) → LearnerCtx → Outcome (LearnerCtx × List Delivery)
on_batches [] ctx = returned (ctx, [])
on_batches (ms ∷ rest) ctx = do
  a ← on_value (some ms) ctx
  (last, delivered) ← on_batches rest a.ctx
  returned (last, a.delivered ++ delivered)

abbrev pub inst_of : Ballot → ℕ
inst_of b = b.delivery.inst

abbrev IsFresh : LearnerCtx → Ballot → Type 0
IsFresh ctx b = get_elem? ctx.states b.delivery.inst ≡ some fresh_state

still-IsFresh :
    (inst : ℕ) (ctx ctx' : LearnerCtx) (bs : List Ballot)
    → Alone inst ctx ctx'
    → All (λ j. inst ≢ j) (map inst_of bs)
    → All (IsFresh ctx) bs
    → All (IsFresh ctx') bs
still-IsFresh inst ctx ctx' [] alone other fresh = tt
still-IsFresh inst ctx ctx' (b ∷ bs) alone (ne, other) (here, fresh) =
    (alone.others b.delivery.inst ne ∙ here, still-IsFresh inst ctx ctx' bs alone other fresh)

one_batch :
    (d : Delivery) (ms : List Message) (ctx : LearnerCtx) (n : ℕ)
    → get_elem? ctx.states d.inst ≡ some fresh_state
    → to_unsigned ctx.conf.maxinst ≡ n
    → 1 ≤ ctx.maj
    → IsMajority ctx.maj n (record { delivery = d; votes = ms })
    → (ctx' : LearnerCtx) × Alone d.inst ctx ctx'
      × (receive_from ms ctx ≡ returned (record { ctx = ctx'; delivered = d ∷ []; raised = false }))
one_batch d [] ctx n fresh known some_vote maj = absurd (omega (arith, some_vote, maj.enough))
one_batch d (m ∷ ms) ctx n fresh known some_vote maj =
    receive_from-chosen d.inst 0 d.value d.client maj.size ms m ctx fresh_state 0 fresh
      (record { active = refl; same_round = refl; counted = refl; room = refl })
      (omega (arith, known, maj.known)) maj.for_value maj.different (all_clear (m ∷ ms))
      (omega (arith, maj.enough))

on_batches-delivered :
    (n maj : ℕ) (bs : List Ballot) (ctx : LearnerCtx)
    → to_unsigned ctx.conf.maxinst ≡ n
    → ctx.maj ≡ maj
    → 1 ≤ maj
    → All (IsFresh ctx) bs
    → All (IsMajority maj n) bs
    → Distinct (map inst_of bs)
    → (last : LearnerCtx) × (on_batches (map (λ b. b.votes) bs) ctx
        ≡ returned (last, map (λ b. b.delivery) bs))
unfolding on_batches on_value
on_batches-delivered n maj [] ctx known same some_vote fresh all distinct = (ctx, refl)
on_batches-delivered n maj (b ∷ bs) ctx known same some_vote (here, fresh) (ok, all)
      (other, distinct) =
    let (ctx', alone, e) =
      one_batch b.delivery b.votes ctx n here known (omega (arith, same, some_vote)) (rw same ok) in
    let (last, e') =
      on_batches-delivered n maj bs ctx'
        (ap (λ (c : Config). to_unsigned c.maxinst) alone.same_conf ∙ known) (alone.same_maj ∙ same)
        some_vote (still-IsFresh b.delivery.inst ctx ctx' bs alone other fresh) all distinct in
    (last, rw (e, e') refl)

all-IsFresh :
    (conf : Config) (n maj : ℕ) (bs : List Ballot)
    → pos_part conf.maxinst ≡ n
    → All (IsMajority maj n) bs
    → All (IsFresh (learner_ctx_new conf)) bs
unfolding learner_ctx_new
all-IsFresh conf n maj [] known all = tt
all-IsFresh conf n maj (b ∷ bs) known (ok, all) =
    let states = replicate (pos_part conf.maxinst) fresh_state in
    let room : b.delivery.inst < length states =
      omega (arith, known, ok.known, length-replicate (pos_part conf.maxinst) fresh_state) in
    let (st, found) = get_elem?_total states b.delivery.inst room in
    let fresh = get_elem?-replicate (pos_part conf.maxinst) b.delivery.inst fresh_state st found in
    (found ∙ ap some fresh, all-IsFresh conf n maj bs known all)

-- A new learner that receives, in any order of the instances, a batch with votes of round 0 of a
-- majority, of acceptors with ids below 31, for each of some instances that it knows, where a
-- majority is one acceptor at least, delivers their values in the order of the
-- batches, each once, whatever the numbers of the instances.
pub delivered_as_voted :
    (conf : Config) (n : ℕ) (bs : List Ballot)
    → conf.maxinst ≡ pos n
    → n < 2 ^ 32
    → 1 ≤ quorum conf.num_acceptors
    → All (IsMajority (quorum conf.num_acceptors) n) bs
    → Distinct (map inst_of bs)
    → (last : LearnerCtx) × (on_batches (map (λ b. b.votes) bs) (learner_ctx_new conf)
        ≡ returned (last, map (λ b. b.delivery) bs))
unfolding learner_ctx_new
delivered_as_voted conf n bs known fits some_vote all distinct =
    let count : pos_part conf.maxinst ≡ n = rw known refl in
    let unsigned : to_unsigned conf.maxinst ≡ n = rw known (omega arith) in
    let maj = quorum conf.num_acceptors in
    on_batches-delivered n maj bs (learner_ctx_new conf) unsigned refl some_vote
      (all-IsFresh conf n maj bs count all) all distinct
