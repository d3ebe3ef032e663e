-- ===== src/Sockets/Tests.antt =====
-- Starts of the four processes on a system where every call succeeds.
use libnetpaxos.Prelude.{◌/◌, ◌%◌, ◌≡◌, ◌↔◌, refl, arith, true, some, [], ◌∷◌, replicate, returned}
use libnetpaxos.Prelude.Int.{pos}
use libnetpaxos.Config.{Config, init_conf}
use libnetpaxos.Config.Parse.{parse_conf, parse_lines}
use libnetpaxos.Host.{Host}
use libnetpaxos.Host.Ended.{Ended}
use libnetpaxos.Sockets.{is_multicast_ip}
use libnetpaxos.Sockets.Multicast.{is_multicast_ip_lem}
use libnetpaxos.Sockets.Peer.{IsHost}
use libnetpaxos.Acceptor.Start.{Outcomes as AcceptorOutcomes, start_acceptor, start_acceptor-Ended}
use libnetpaxos.Coordinator.Start.{
  Outcomes as CoordinatorOutcomes, start_coordinator, start_coordinator-Ended,
}
use libnetpaxos.Learner.Start.{IsMade as LearnerIsMade, make_learner, make_learner-Ended}
use libnetpaxos.Proposer.Start.{IsMade as ProposerIsMade, make_proposer, make_proposer-Ended}

-- 224.3.29.73 for every text, and 10.0.0.1 for every name.
abbrev local : Host
local = record {
  socket = λ kind. some 5;
  bind = λ fd addr. true;
  setsockopt = λ fd opt. true;
  inet_addr = λ text. 0x491d03e0;
  gethostbyname = λ name. some (10 ∷ 0 ∷ 0 ∷ 1 ∷ []);
  getsockname = λ fd. some (2 ∷ 0 ∷ 0x88 ∷ 0x88 ∷ replicate 12 0);
  interface_addr = λ fd name. 2 ∷ 0 ∷ 0 ∷ 0 ∷ 10 ∷ 0 ∷ 0 ∷ 2 ∷ replicate 8 0;
}

local-IsHost : IsHost local
local-IsHost = record {
  found_size = λ name found e. ground arith;
  name_size = λ fd name e. ground arith;
  interface_size = λ fd name. refl;
}

abbrev conf : Config
conf = record init_conf {
  maxinst = pos 2;
  vlen = pos 2;
  num_acceptors = pos 1;
  acceptor_port = pos 34951;
}

is_multicast_ip_lem_example : (is_multicast_ip local [] ≡ true) ↔ (0x491d03e0 % 256 / 16 ≡ 14)
is_multicast_ip_lem_example = is_multicast_ip_lem local []

start_acceptor-Ended_example :
    Ended local (AcceptorOutcomes local conf 1) (start_acceptor local conf 1)
start_acceptor-Ended_example = start_acceptor-Ended local conf 1 local-IsHost

start_coordinator-Ended_example :
    Ended local (CoordinatorOutcomes local conf) (start_coordinator local conf (replicate 60 7))
start_coordinator-Ended_example =
    start_coordinator-Ended local conf (replicate 60 7) local-IsHost refl

make_learner-Ended_example : Ended local (LearnerIsMade local conf) (make_learner local conf)
make_learner-Ended_example = make_learner-Ended local conf local-IsHost

empty_file : parse_conf (some []) ≡ returned init_conf
unfolding parse_conf parse_lines
empty_file = refl

make_proposer-Ended_example :
    Ended local (ProposerIsMade local init_conf 4) (make_proposer local (some []) (101 ∷ []) 4)
make_proposer-Ended_example =
    make_proposer-Ended local (some []) (101 ∷ []) 4 local-IsHost empty_file
