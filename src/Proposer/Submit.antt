-- ===== src/Proposer/Submit.antt =====
-- What `submit` sends.
use libnetpaxos.Prelude.{ℕ, ◌≤◌, ◌≡◌, refl, arith, ap, ◌∙◌, some, List}
use libnetpaxos.Prelude.{length, take, drop, length-take, returned, ◌>>=◌}
use libnetpaxos.Message.{Message}
use libnetpaxos.Message.Wire.{IsMessage}
use libnetpaxos.Message.Bytes.{to_bytes, from_bytes, from_bytes-to_bytes, length-to_bytes}
use libnetpaxos.Datagram.Fields.{IsReady, stored, store_lem, length-stored}
use libnetpaxos.Datagram.Sending.{send_datagram-IsSent}
use libnetpaxos.Message.Request.{request, fill_lem, request-IsMessage}
use libnetpaxos.Proposer.{ProposerState, submit}

-- What a submission did.
pub record IsSubmitted (now req : List ℕ) (state state' : ProposerState) (req' sent : List ℕ)
    : Type 0 where
  pub ready : IsReady state'.datagram
  pub same_mine : state'.mine ≡ state.mine
  pub stamped : req' ≡ stored req 8 now
  pub total : length sent ≡ 88
  pub payload : from_bytes (drop 28 sent) ≡ some (request (take 32 req') state.mine)

module _ (now : List ℕ) (m : Message) (state : ProposerState) (msg : List ℕ)
    (clock : length now ≡ 16) (client : length m.client ≡ 16) (mine : length state.mine ≡ 16)
    (ready : IsReady state.datagram) (long : 32 ≤ length msg) (short : length msg ≤ 47) where
  abbrev req : List ℕ
  req = stored msg 8 now

  req-size : length req ≡ length msg
  req-size = length-stored msg 8 now (omega arith)

  stamped-IsMessage : IsMessage (request (take 32 req) state.mine)
  stamped-IsMessage =
      request-IsMessage (take 32 req) state.mine (omega (arith, length-take {0} 32 req, req-size))
        mine

  -- From a state that is ready, with addresses and times of their sizes and a request of 32 to 47
  -- bytes, `submit` does nothing undefined: it stamps the request with the time, sends one datagram
  -- of 88 bytes whose payload is the message for the first 32 bytes of the request and the own
  -- address, and leaves a state that is ready.
  pub submit-IsSubmitted :
      (state' : ProposerState) × (req' sent : List ℕ) × (submit now m state msg
        ≡ returned (state', req', sent))
      × IsSubmitted now msg state state' req' sent
  unfolding submit
  submit-IsSubmitted =
      let bytes : List ℕ = to_bytes (request (take 32 req) state.mine) in
      let size : length bytes ≡ 60 = length-to_bytes stamped-IsMessage in
      let (buf, sent, e, s) =
        send_datagram-IsSent state.datagram bytes ready (omega (arith, size)) in
      (
        record state { datagram = buf },
        req,
        sent,
        rw
            (
              store_lem msg 8 now (omega arith),
              fill_lem m req state.mine client (omega (arith, req-size)) (omega (arith, req-size)),
            )
            (ap (λ o. o >>= λ (b, sent). returned (record state { datagram = b }, req, sent)) e),
        record {
          ready = s.ready;
          same_mine = refl;
          stamped = refl;
          total = omega (arith, s.total, size);
          payload = ap from_bytes s.payload ∙ from_bytes-to_bytes stamped-IsMessage;
        },
      )
