-- ===== src/Proposer/Tests.antt =====
-- A proposer that submits one request and sends it again.
use libnetpaxos.Prelude.{ℕ, ◌≡◌, refl, arith, List, ◌∷◌, take, map, replicate, returned}
use libnetpaxos.Message.{Message}
use libnetpaxos.Datagram.{init_rawsock, load16}
use libnetpaxos.Datagram.Fields.{IsReady}
use libnetpaxos.Datagram.Fresh.{init_rawsock-IsReady}
use libnetpaxos.Proposer.{ProposerState, submit, retry}
use libnetpaxos.Proposer.Submit.{IsSubmitted, submit-IsSubmitted}
use libnetpaxos.Prelude.{some}
use libnetpaxos.Prelude.Int.{pos}
use libnetpaxos.Datagram.Fields.{stored}
use libnetpaxos.Utils.Time.{Timespec, minus, difference}
use libnetpaxos.Utils.Time.Bytes.{time_bytes}
use libnetpaxos.Proposer.Response.{readable, on_response, IsAnswered, on_response_lem}
use libnetpaxos.Proposer.Retry.{with_time, readings, retry_lem}

abbrev addr : ℕ → List ℕ
addr host = 2 ∷ 0 ∷ 0x22 ∷ 0xb8 ∷ 10 ∷ 0 ∷ 0 ∷ host ∷ replicate 8 0

socket : (b : List ℕ) × (init_rawsock (addr 1) (addr 2) ≡ returned b) × IsReady b
socket = init_rawsock-IsReady (addr 1) (addr 2) refl refl

abbrev state : ProposerState
state = record { datagram = socket.0; mine = addr 1; outstanding = 2 }

-- A request of 40 bytes, and what is on the stack.
abbrev request_bytes : List ℕ
request_bytes = 7 ∷ 0 ∷ 0 ∷ 0 ∷ 1 ∷ replicate 35 97

abbrev garbage : Message
garbage = record {
  inst = 1;
  rnd = 2;
  vrnd = 3;
  acptid = 4;
  msgtype = 5;
  paxosval = replicate 32 6;
  client = replicate 16 7;
}

abbrev clock : ℕ → List ℕ
clock k = k ∷ replicate 15 0

submit-IsSubmitted_example :
    (state' : ProposerState) × (req' sent : List ℕ) × (submit (clock 9) garbage state request_bytes
      ≡ returned (state', req', sent))
    × IsSubmitted (clock 9) request_bytes state state' req' sent
submit-IsSubmitted_example =
    submit-IsSubmitted (clock 9) garbage state request_bytes refl refl refl socket.2 (omega arith)
      (omega arith)

once :
    (state' : ProposerState) × (req' sent : List ℕ) × (submit (clock 9) garbage state request_bytes
      ≡ returned (state', req', sent))
    × IsSubmitted (clock 9) request_bytes state state' req' sent
once =
    submit-IsSubmitted (clock 9) garbage state request_bytes refl refl refl socket.2 (omega arith)
      (omega arith)

abbrev waiting : ProposerState
waiting = record state { datagram = once.0.datagram }

retry_lem_example :
    (state' : ProposerState) × (retry clock waiting
      ≡ returned (
        state',
        map
            (λ t. take (load16 waiting.datagram 2) (with_time waiting.datagram t))
            (readings 2 clock),
      ))
    × IsReady state'.datagram
retry_lem_example = retry_lem clock waiting (λ k. refl) once.4.ready

abbrev sent_at : Timespec
sent_at = record { tv_sec = pos 1700000000; tv_nsec = pos 5 }

abbrev received_at : Timespec
received_at = record { tv_sec = pos 1700000001; tv_nsec = pos 3 }

on_response_lem_example : IsAnswered received_at sent_at state request_bytes (
    on_response
      (readable (some (stored request_bytes 8 (time_bytes sent_at))))
      received_at
      clock
      state)
unfolding minus difference
on_response_lem_example =
    on_response_lem received_at sent_at clock state request_bytes (omega arith) (omega arith)
      (omega arith) (omega arith) (omega arith) (omega arith)
