-- ===== src/System.antt =====
-- The processes together: clients, one coordinator, acceptors and learners over a network that may
-- lose, repeat and reorder messages. Each step is one call of a callback.
pub mod Invariant
pub mod Reachable
pub mod Agreement
pub mod Progress
mod Tests
use libnetpaxos.Prelude.{
  ℕ, ◌≡◌, false, true, some, List, [], ◌∷◌, ◌++◌, returned, length, drop, All, In,
}
use libnetpaxos.Prelude.{Bool, ◌==◌, if◌then◌else◌}
use libnetpaxos.Config.{Config}
use libnetpaxos.Message.{Message, pack, phase2a}
use libnetpaxos.Message.Bytes.{to_bytes, from_bytes}
use libnetpaxos.Message.Request.{request}
use libnetpaxos.Coordinator
use libnetpaxos.Coordinator.{CoordinatorCtx}
use libnetpaxos.Coordinator.Order.{IsRunning}
use libnetpaxos.Acceptor
use libnetpaxos.Acceptor.{AcceptorCtx, acceptor_ctx_new}
use libnetpaxos.Learner
use libnetpaxos.Learner.{LearnerCtx, learner_ctx_new, Delivery}

abbrev pub update {ℓ} : {A : Type ℓ} → (ℕ → A) → ℕ → A → ℕ → A
update f i a j = if i == j then a else f j

-- The contexts of all processes, what the clients have submitted, every message that the
-- coordinator and the acceptors have sent, as it is on the wire, what each learner has delivered,
-- and the acceptors that have raised SIGTERM. Acceptors and learners are numbered.
pub record System : Type 0 where
  pub coordinator : CoordinatorCtx
  pub submitted : List (List ℕ)
  pub orders : List Message
  pub acceptor : ℕ → AcceptorCtx
  pub votes : List Message
  pub learner : ℕ → LearnerCtx
  pub log : ℕ → List Delivery
  pub stopped : ℕ → Bool

pub data Step (s : System) : System → Type 0 where
  -- A request of a client, as `submit` makes it, reaches the coordinator.
  order :
      (value client : List ℕ) {ctx : CoordinatorCtx} {sent : List ℕ} {o : Message}
      → length value ≡ 32
      → length client ≡ 16
      → Coordinator.on_value (some (to_bytes (request value client))) s.coordinator
        ≡ returned (ctx, some sent)
      → from_bytes (drop 28 sent) ≡ some o
      → Step s
          (record s { coordinator = ctx; submitted = value ∷ s.submitted; orders = o ∷ s.orders })
  -- A batch of orders, any of those sent, reaches acceptor `i`, which has not raised SIGTERM, and
  -- does not raise it.
  accept :
      (i : ℕ) (ms : List Message) {a : Acceptor.Acted}
      → s.stopped i ≡ false
      → All (λ m. In m s.orders) ms
      → Acceptor.on_value (some ms) true (s.acceptor i) ≡ returned a
      → a.raised ≡ false
      → Step s (record s { acceptor = update s.acceptor i a.ctx; votes = a.sent ++ s.votes })
  -- A batch of orders makes acceptor `i` raise SIGTERM: it sends nothing, and its callback does not
  -- run again. libevent may run it once more before the handler of the signal; that is left out.
  stop :
      (i : ℕ) (ms : List Message) {a : Acceptor.Acted}
      → s.stopped i ≡ false
      → All (λ m. In m s.orders) ms
      → Acceptor.on_value (some ms) true (s.acceptor i) ≡ returned a
      → a.raised ≡ true
      → Step s (record s { stopped = update s.stopped i true })
  -- A batch of votes, any of those sent, reaches learner `j`.
  learn :
      (j : ℕ) (ms : List Message) {a : Learner.Acted}
      → All (λ m. In m s.votes) ms
      → Learner.on_value (some ms) (s.learner j) ≡ returned a
      → Step s (record s {
        learner = update s.learner j a.ctx;
        log = update s.log j (s.log j ++ a.delivered);
      })
  -- The monitor of learner `j` ticks.
  tick :
      (j : ℕ) → Step s (record s { learner = update s.learner j (Learner.monitor (s.learner j)).0 })

abbrev pub init : (acceptor_conf learner_conf : ℕ → Config) → CoordinatorCtx → System
init acceptor_conf learner_conf coordinator = record {
  coordinator = coordinator;
  submitted = [];
  orders = [];
  acceptor = λ i. acceptor_ctx_new (acceptor_conf i) i;
  votes = [];
  learner = λ j. learner_ctx_new (learner_conf j);
  log = λ j. [];
  stopped = λ i. false;
}

-- The states that the system can reach from a coordinator at instance 0.
pub data Reach (acceptor_conf learner_conf : ℕ → Config) : System → Type 0 where
  start :
      (c : CoordinatorCtx)
      → IsRunning c
      → c.cur_inst ≡ 0
      → Reach acceptor_conf learner_conf (init acceptor_conf learner_conf c)
  later :
      {s t : System}
      → Reach acceptor_conf learner_conf s
      → Step s t
      → Reach acceptor_conf learner_conf t
