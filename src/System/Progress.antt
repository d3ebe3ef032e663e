-- ===== src/System/Progress.antt =====
-- A request can always come through: where no message is lost, it is delivered.
use libnetpaxos.Prelude.{ℕ, zero, suc, ◌^◌, ◌<◌, ◌≤◌, ◌≡◌, false, List, [], ◌∷◌, ◌++◌, length}
use libnetpaxos.Prelude.Int.{pos}
use libnetpaxos.Config.{Config}
use libnetpaxos.Message.{Message, pack, phase2a}
use libnetpaxos.Message.Copy.{strlen}
use libnetpaxos.Message.Request.{request}
use libnetpaxos.Coordinator.{CoordinatorCtx}
use libnetpaxos.Coordinator.Order.{IsRunning, ordered}
use libnetpaxos.Acceptor
use libnetpaxos.Acceptor.{acceptor_ctx_new}
use libnetpaxos.Acceptor.Progress.{vote_of}
use libnetpaxos.Learner
use libnetpaxos.Learner.{Delivery, learner_ctx_new}
use libnetpaxos.System.{System, Reach}

-- A process that has the first instance, and an acceptor with a buffer too.
pub record HasInstance (conf : Config) : Type 0 where
  pub n : ℕ
  pub known : conf.maxinst ≡ pos n
  pub fits : n < 2 ^ 32
  pub first : 0 < n

pub record HasBuffer (conf : Config) : Type 0 where
  pub v : ℕ
  pub room : conf.vlen ≡ pos (suc v)

-- A request as the coordinator numbers it first, as it is read.
abbrev plain : List ℕ → List ℕ → Message
plain value client = record {
  inst = 0;
  rnd = 0;
  vrnd = 0;
  acptid = 0;
  msgtype = phase2a;
  paxosval = value;
  client = client;
}

module _ (acceptor_conf learner_conf : ℕ → Config)
    (acceptors : (i : ℕ) → HasInstance (acceptor_conf i) × HasBuffer (acceptor_conf i))
    (learners : (j : ℕ) → HasInstance (learner_conf j)) (c : CoordinatorCtx) (running : IsRunning c)
    (at_first : c.cur_inst ≡ 0) (value client : List ℕ) (sv : length value ≡ 32)
    (sc : length client ≡ 16) (ends : strlen (value ++ client) ≤ 32) where
  abbrev wire : Message
  wire = ordered 0 (request value client)

  -- The votes of the acceptors below `k`, and what is read of one.
  abbrev vote : ℕ → Message
  vote i = vote_of i (plain value client)

  abbrev votes : ℕ → List Message
  votes zero = []
  votes (suc k) = pack (vote k) ∷ votes k

  -- The state after the votes of the acceptors below `k`: the others are as they began.
  record IsVoted (k : ℕ) (s : System) : Type 0 where
    reached : Reach acceptor_conf learner_conf s
    ordered_it : s.orders ≡ wire ∷ []
    waiting : (i : ℕ) → k ≤ i → s.acceptor i ≡ acceptor_ctx_new (acceptor_conf i) i
    voted_for : s.votes ≡ votes k
    listening : (j : ℕ) → s.learner j ≡ learner_ctx_new (learner_conf j)
    silent : (j : ℕ) → s.log j ≡ []
    up : (i : ℕ) → s.stopped i ≡ false
