-- ===== src/Proposer.antt =====
-- lib/include/proposer.h and lib/src/proposer.c: the proposer wraps a request of the application in
-- a message to the coordinator, sends it again on a timeout, and hands answers to the application.
pub mod Submit
pub mod Retry
pub mod Response
pub mod Start
mod Tests
use libnetpaxos.Prelude.{ℕ, zero, suc, Bool, true, false, Option, some, none, List, [], ◌∷◌, ◌++◌}
use libnetpaxos.Prelude.{length, take, drop, leb, if◌then◌else◌, Outcome, returned, fault, ◌>>=◌}
use libnetpaxos.Message.{Message, paxos_value_size, phase2a, pack, initialize_message}
use libnetpaxos.Message.Bytes.{to_bytes}
use libnetpaxos.Message.Request.{fill}
use libnetpaxos.Datagram.{header_size, load16, store, send_datagram}

-- `struct proposer_state`, without its sockets and events. `mine` is the image of the own address.
pub record ProposerState : Type 0 where
  pub datagram : List ℕ
  pub mine : List ℕ
  pub outstanding : ℕ

-- Where `ts` lies in `struct request`.
abbrev pub ts_offset : ℕ
ts_offset = 8

-- `sizeof(struct timespec)`.
abbrev pub timespec_size : ℕ
timespec_size = 16

-- What `submit` leaves: its state, the request with its time, and what `sendto` is given.
abbrev pub Submitted : Type 0
Submitted = ProposerState × List ℕ × List ℕ

-- `submit`, for the time `now` that `gettime` reads, on a request `msg` of `length msg` bytes. `m` is
-- what the local message holds before it is initialised.
unfoldable pub submit : List ℕ → Message → ProposerState → List ℕ → Outcome Submitted
submit now m state msg = do
  req ← store msg ts_offset now
  m' ← fill m req state.mine
  (datagram, sent) ← send_datagram state.datagram (to_bytes m')
  returned (record state { datagram = datagram }, req, sent)

-- The place of the time in the datagram: the headers, the message up to `paxosval`, the request.
abbrev pub ts_place : ℕ
ts_place = 48

-- `sendto(rawsock, datagram, iph->tot_len, …)`: what it reads.
unfoldable pub to_send : List ℕ → Outcome (List ℕ)
to_send b = if leb (load16 b 2) (length b) then returned (take (load16 b 2) b) else fault

-- `n` rounds of the loop of `retry`. `clock` has what `gettime` reads, one after another.
unfoldable pub retry_rounds : ℕ → (ℕ → List ℕ) → List ℕ → Outcome (List ℕ × List (List ℕ))
retry_rounds zero clock datagram = returned (datagram, [])
retry_rounds (suc n) clock datagram = do
  b ← store datagram ts_place (clock 0)
  sent ← to_send b
  (last, rest) ← retry_rounds n (λ k. clock (suc k)) b
  returned (last, sent ∷ rest)

-- `retry`: the state and the datagrams sent. An error of `sendto` is only printed.
unfoldable pub retry : (ℕ → List ℕ) → ProposerState → Outcome (ProposerState × List (List ℕ))
retry clock state = do
  (datagram, sent) ← retry_rounds state.outstanding clock state.datagram
  returned (record state { datagram = datagram }, sent)
