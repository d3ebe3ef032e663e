-- ===== src/Config.antt =====
-- lib/include/config.h and lib/src/config.c: the configuration of a process.
pub mod Parse
mod Tests
use libnetpaxos.Prelude.{ℕ, List, replicate}
use libnetpaxos.Prelude.Int.{ℤ, pos}

-- `struct Config`. The addresses are arrays of 64 bytes.
pub record Config : Type 0 where
  pub role : ℤ
  pub second : ℤ
  pub microsecond : ℤ
  pub verbose : ℤ
  pub learner_port : ℤ
  pub coordinator_port : ℤ
  pub proposer_port : ℤ
  pub acceptor_port : ℤ
  pub maxinst : ℤ
  pub enable_paxos : ℤ
  pub outstanding : ℤ
  pub paxos_msgtype : ℤ
  pub padsize : ℤ
  pub node_id : ℤ
  pub vlen : ℤ
  pub learner_addr : List ℕ
  pub proposer_addr : List ℕ
  pub acceptor_addr : List ℕ
  pub coordinator_addr : List ℕ
  pub num_acceptors : ℤ

-- What `init_conf` makes of any `Config`: every number 0, every address 64 zero bytes.
abbrev pub init_conf : Config
init_conf = record {
  role = pos 0;
  second = pos 0;
  microsecond = pos 0;
  verbose = pos 0;
  learner_port = pos 0;
  coordinator_port = pos 0;
  proposer_port = pos 0;
  acceptor_port = pos 0;
  maxinst = pos 0;
  enable_paxos = pos 0;
  outstanding = pos 0;
  paxos_msgtype = pos 0;
  padsize = pos 0;
  node_id = pos 0;
  vlen = pos 0;
  learner_addr = replicate 64 0;
  proposer_addr = replicate 64 0;
  acceptor_addr = replicate 64 0;
  coordinator_addr = replicate 64 0;
  num_acceptors = pos 0;
}
