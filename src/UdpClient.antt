-- ===== src/UdpClient.antt =====
-- app/udp_client.c: the client that keeps `vlen` messages on their way.
pub mod Flight
pub mod Open
mod Tests
use libnetpaxos.Prelude.{
  ℕ, zero, suc, ◌+◌, Bool, true, false, Option, some, none, List, [], ◌∷◌, ◌++◌, ◌==◌, leb, length,
  take, replicate, if◌then◌else◌,
}
use libnetpaxos.Prelude.{Outcome, returned, exited, fault, ◌>>=◌, write_at}
use libnetpaxos.Datagram.{byte, store, bufsize, receive_into}
use libnetpaxos.Store.{put_op}
use libnetpaxos.Utils.Time.{Timespec, timediff}

-- "abcde123456789" and "zxcvbnmasdfghj".
abbrev pub key_text : List ℕ
key_text = 97 ∷ 98 ∷ 99 ∷ 100 ∷ 101 ∷ 49 ∷ 50 ∷ 51 ∷ 52 ∷ 53 ∷ 54 ∷ 55 ∷ 56 ∷ 57 ∷ []

abbrev pub value_text : List ℕ
value_text = 122 ∷ 120 ∷ 99 ∷ 118 ∷ 98 ∷ 110 ∷ 109 ∷ 97 ∷ 115 ∷ 100 ∷ 102 ∷ 103 ∷ 104 ∷ 106 ∷ []

-- `struct client_state`, less what the kernel and libevent keep.
pub record ClientState : Type 0 where
  pub mps : ℕ
  pub send_time : Timespec
  pub vlen : ℕ
  pub payload : List ℕ
  pub payload_sz : ℕ
  pub bufs : List (List ℕ)

-- The payload of `client_state_new`.
unfoldable pub make_payload : Outcome (List ℕ)
make_payload = do
  payload ← write_at (replicate 32 0) 0 put_op
  payload ← write_at payload 1 (length key_text)
  payload ← write_at payload 2 (length value_text)
  payload ← store payload 3 key_text
  store payload (3 + length key_text) value_text

-- The buffers of `malloc`, with what they hold.
unfoldable pub make_bufs : ℕ → (ℕ → List ℕ) → List (List ℕ)
make_bufs zero mem = []
make_bufs (suc n) mem = mem 0 ∷ make_bufs n (λ k. mem (suc k))

-- `client_state_new`, for the number of messages in the configuration, the unset time and what the
-- memory for the buffers holds.
unfoldable pub client_state_new : ℕ → Timespec → (ℕ → List ℕ) → Outcome ClientState
client_state_new vlen unset mem = do
  payload ← make_payload
  returned (record {
    mps = 0;
    send_time = unset;
    vlen = vlen;
    payload = payload;
    payload_sz = length key_text + length value_text + 4;
    bufs = make_bufs vlen mem;
  })

-- `send_message`: the messages that `sendmmsg` is given, which all are the payload; undefined for
-- more than the array of messages has. Its errors are only printed.
unfoldable pub send_message : ClientState → ℕ → Outcome (List (List ℕ))
send_message state amount =
    if leb amount state.vlen
    then if leb state.payload_sz (length state.payload)
      then returned (replicate amount (take state.payload_sz state.payload))
      else fault
    else fault

-- `recvmmsg` fills the first buffers with the datagrams, as far as BUFSIZE, and the loop ends each
-- with a zero byte.
unfoldable pub receive_all : List (List ℕ) → List (List ℕ) → Outcome (List (List ℕ))
receive_all bufs [] = returned bufs
receive_all [] (datagram ∷ datagrams) = fault
receive_all (buf ∷ bufs) (datagram ∷ datagrams) = do
  let kept = take bufsize datagram
  ended ← write_at (receive_into buf kept) (length kept) 0
  rest ← receive_all bufs datagrams
  returned (ended ∷ rest)

-- The flags with which a callback is called, EV_READ, EV_TIMEOUT or both, with what `recvmmsg` gives,
-- `none` for its error.
pub data Event : Type 0 where
  readable : Option (List (List ℕ)) → Event
  timeout : Event
  both : Option (List (List ℕ)) → Event

-- The state, the latency that is printed, and the messages that are sent.
pub record Responded : Type 0 where
  pub state : ClientState
  pub latency : Option Timespec
  pub sent : List (List ℕ)

-- The branch of EV_READ for the datagrams that came, with the times before and after sending.
unfoldable pub handle_responses :
    Timespec → Timespec → ClientState → List (List ℕ) → Outcome Responded
handle_responses recv_time now state datagrams = do
  bufs ← receive_all state.bufs datagrams
  (result, negative) ← timediff recv_time state.send_time
  sent ← send_message state (length datagrams)
  returned (record {
    state = record state { mps = state.mps + length datagrams; bufs = bufs; send_time = now };
    latency = if negative then none else some result;
    sent = sent;
  })

-- `on_response`.
unfoldable pub on_response : Event → Timespec → Timespec → ClientState → Outcome Responded
on_response (readable none) recv_time now state = exited
on_response (readable (some datagrams)) recv_time now state =
    handle_responses recv_time now state datagrams
on_response timeout recv_time now state = send_message state state.vlen >>= λ sent.
    returned (record { state = state; latency = none; sent = sent })
on_response (both none) recv_time now state = exited
on_response (both (some datagrams)) recv_time now state = do
  responded ← handle_responses recv_time now state datagrams
  sent ← send_message responded.state responded.state.vlen
  returned (record responded { sent = responded.sent ++ sent })

-- `monitor`: prints the answers of the last second, if there were any, and forgets them.
unfoldable pub monitor : ClientState → ClientState × Option ℕ
monitor state = (record state { mps = 0 }, if state.mps == 0 then none else some state.mps)
