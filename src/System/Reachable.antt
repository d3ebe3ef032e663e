-- ===== src/System/Reachable.antt =====
-- The invariant holds in every reachable state.
use libnetpaxos.Prelude.{ℕ, ◌≡◌, refl, some, List, [], ◌++◌, map}
use libnetpaxos.Prelude.{returned, arith, subst, ap, ◌∙◌, All, In, All-append, All-map_of, All-map}
use libnetpaxos.Prelude.{inl, inr, ◌==◌, ==→eq, Bool-cases}
use libnetpaxos.Config.{Config}
use libnetpaxos.Message.{Message, unpack}
use libnetpaxos.Coordinator.{CoordinatorCtx}
use libnetpaxos.Coordinator.Order.{IsRunning}
use libnetpaxos.Acceptor.Quiet.{acceptor_ctx_new-IsQuiet}
use libnetpaxos.Learner
use libnetpaxos.Learner.{LearnerCtx, Delivery}
use libnetpaxos.Learner.Session
use libnetpaxos.Learner.Session.{Reached}
use libnetpaxos.System.{
  System, Step, order, accept, stop, learn, tick, Reach, start, later, update, init,
}
use libnetpaxos.System.Invariant.{
  IsUnpacked, Learnt, Inv, unpack-ordered, ordered-new, Inv-order, Inv-accept,
}

module _ {learner_conf : ℕ → Config} {s : System} (inv : Inv learner_conf s) where
  Learnt-update :
      (j : ℕ) (ctx : LearnerCtx) (log : List Delivery)
      → Learnt (learner_conf j) s.votes ctx log
      → (k : ℕ) → Learnt (learner_conf k) s.votes (update s.learner j ctx k) (update s.log j log k)
  Learnt-update j ctx log new k = elim (Bool-cases (j == k)) [
    | inl same ↦ rw same (subst (λ i. Learnt (learner_conf i) s.votes ctx log) (==→eq j k same) new)
    | inr other ↦ rw other (inv.learnt k)
  ]

  Inv-learn :
      (j : ℕ) (ms : List Message) {a : Learner.Acted}
      → All (λ m. In m s.votes) ms
      → Learner.on_value (some ms) (s.learner j) ≡ returned a
      → Inv learner_conf (record s {
        learner = update s.learner j a.ctx;
        log = update s.log j (s.log j ++ a.delivered);
      })
  Inv-learn j ms {a} known e =
      let (hist, r, from) = inv.learnt j in
      record {
        running = inv.running;
        bounded = inv.bounded;
        given = inv.given;
        unique = inv.unique;
        idle = inv.idle;
        voted = inv.voted;
        learnt = Learnt-update j a.ctx (s.log j ++ a.delivered) (
          map unpack ms ++ hist,
          Session.batch r ms e,
          All-append (IsUnpacked s.votes) (map unpack ms) hist
              (All-map_of unpack (IsUnpacked s.votes) ms (All-map (λ m i. (m, i, refl)) ms known))
              from,
        );
      }

  Inv-tick :
      (j : ℕ)
      → Inv learner_conf
          (record s { learner = update s.learner j (Learner.monitor (s.learner j)).0 })
  Inv-tick j = record {
    running = inv.running;
    bounded = inv.bounded;
    given = inv.given;
    unique = inv.unique;
    idle = inv.idle;
    voted = inv.voted;
    learnt = λ k. elim (Bool-cases (j == k)) [
      | inl same ↦
          let (hist, r, from) = inv.learnt j in
          let ticked : Learnt (learner_conf j) s.votes (Learner.monitor (s.learner j)).0 (s.log j) =
            (hist, Session.tick r, from) in
          rw same (
            subst (λ i. Learnt (learner_conf i) s.votes (Learner.monitor (s.learner j)).0 (s.log i))
              (==→eq j k same) ticked)
      | inr other ↦ rw other (inv.learnt k)
    ];
  }

-- Every step keeps the invariant.
pub Step-Inv :
    {learner_conf : ℕ → Config} {s t : System} → Step s t → Inv learner_conf s → Inv learner_conf t
Step-Inv {s} (order value client {ctx} {sent} {o} sv sc e eo) inv =
    let (run, next, below, is) = ordered-new inv value client sv sc e eo in
    let (at, form, same) = unpack-ordered s.coordinator.cur_inst value client inv.bounded in
    Inv-order inv value run next below (ap (λ m. (unpack m).inst) is ∙ at)
      (ap (λ m. (unpack m).rnd) is ∙ form.0, ap (λ m. (unpack m).msgtype) is ∙ form.1)
      (ap Message.paxosval is ∙ same)
Step-Inv (accept i ms up known e quiet) inv = Inv-accept inv i ms known e quiet
Step-Inv (stop i ms up known e raised) inv = record {
  running = inv.running;
  bounded = inv.bounded;
  given = inv.given;
  unique = inv.unique;
  idle = inv.idle;
  voted = inv.voted;
  learnt = inv.learnt;
}
Step-Inv (learn j ms known e) inv = Inv-learn inv j ms known e
Step-Inv (tick j) inv = Inv-tick inv j

Inv-init :
    (acceptor_conf learner_conf : ℕ → Config) (c : CoordinatorCtx)
    → IsRunning c
    → c.cur_inst ≡ 0
    → Inv learner_conf (init acceptor_conf learner_conf c)
Inv-init acceptor_conf learner_conf c run zero_inst = record {
  running = run;
  bounded = omega arith;
  given = tt;
  unique = λ o o' i. elim i [ ];
  idle = λ i. acceptor_ctx_new-IsQuiet (acceptor_conf i) i;
  voted = tt;
  learnt = λ j. ([], Session.start, tt);
}

pub Reach-Inv :
    {acceptor_conf learner_conf : ℕ → Config} {s : System}
    → Reach acceptor_conf learner_conf s
    → Inv learner_conf s
Reach-Inv {acceptor_conf} {learner_conf} (start c run at_zero) =
    Inv-init acceptor_conf learner_conf c run at_zero
Reach-Inv (later r st) = Step-Inv st (Reach-Inv r)
