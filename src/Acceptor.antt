-- ===== src/Acceptor.antt =====
-- lib/include/acceptor.h and lib/src/acceptor.c: the state of an acceptor, its two handlers, and
-- the callback that reads a batch of messages, handles them and sends the replies.
pub mod Cases
pub mod Rounds
pub mod Promise
pub mod Replies
pub mod Total
pub mod Quiet
pub mod Promises
pub mod Start
pub mod Progress
mod Tests
use libnetpaxos.Prelude.{ℕ, suc, ◌%◌, ◌^◌, Bool, true, false, Option, none, some}
use libnetpaxos.Prelude.{List, [], ◌∷◌, ◌++◌, take, drop, replicate, set}
use libnetpaxos.Prelude.{ltb, leb, ◌==◌, if◌then◌else◌}
use libnetpaxos.Prelude.{Outcome, returned, exited, fault, ◌>>=◌, read_at, write_at}
use libnetpaxos.Prelude.Int.{pos_part, to_unsigned}
use libnetpaxos.Config.{Config}
use libnetpaxos.Message.{Message, paxos_value_size, sockaddr_size, pack, unpack}
use libnetpaxos.Message.{phase1a, phase1b, phase2a, phase2b}
use libnetpaxos.Message.Copy.{strcpy}

-- `a_state`: the state of one instance. `rnd` and `vrnd` are `int`, and are only ever assigned
-- from a uint16_t.
pub record AState : Type 0 where
  pub rnd : ℕ
  pub vrnd : ℕ
  pub paxosval : List ℕ

-- `AcceptorCtx`, without its sockets and its input buffers, which `recvmmsg` fills. A pointer of
-- `out_msgs` (through `out_iovecs`) into `out_bufs` is the index that it points at; `none` is null.
pub record AcceptorCtx : Type 0 where
  pub acceptor_id : ℕ
  pub count_accepted : ℕ
  pub conf : Config
  pub states : List AState
  pub out_bufs : List Message
  pub out_msgs : List (Option ℕ)

abbrev pub fresh_state : AState
fresh_state = record { rnd = 0; vrnd = 0; paxosval = replicate (suc paxos_value_size) 0 }

abbrev pub blank_message : Message
blank_message = record {
  inst = 0;
  rnd = 0;
  vrnd = 0;
  acptid = 0;
  msgtype = 0;
  paxosval = replicate paxos_value_size 0;
  client = replicate sockaddr_size 0;
}

unfoldable pub acceptor_ctx_new : Config → ℕ → AcceptorCtx
acceptor_ctx_new conf acceptor_id = record {
  acceptor_id = acceptor_id;
  count_accepted = 0;
  conf = conf;
  states = replicate (pos_part conf.maxinst) fresh_state;
  out_bufs = replicate (pos_part conf.vlen) blank_message;
  out_msgs = replicate (pos_part conf.vlen) none;
}

-- The context after the handler, the message as the handler left it, and the result: 1 or 0.
abbrev pub Handled : Type 0
Handled = AcceptorCtx × Message × Bool

unfoldable pub handle_phase1a : AcceptorCtx → Message → Outcome Handled
handle_phase1a ctx msg = do
  state ← read_at ctx.states msg.inst
  if ltb state.rnd msg.rnd
      then (do
        let state' = record state { rnd = msg.rnd }
        value ← strcpy (msg.paxosval ++ msg.client) state.paxosval
        returned (
          record ctx { states = set ctx.states msg.inst state' },
          record msg {
            vrnd = state'.rnd;
            paxosval = take paxos_value_size value;
            client = drop paxos_value_size value;
            acptid = ctx.acceptor_id % 2 ^ 16;
            msgtype = phase1b;
          },
          true,
        ))
      else returned (ctx, msg, false)

unfoldable pub handle_phase2a : AcceptorCtx → Message → Outcome Handled
handle_phase2a ctx msg = do
  state ← read_at ctx.states msg.inst
  if leb state.rnd msg.rnd
      then (do
        value ← strcpy state.paxosval (msg.paxosval ++ msg.client)
        returned (
          record ctx {
            states =
                set ctx.states msg.inst
                  (record state { rnd = msg.rnd; vrnd = msg.rnd; paxosval = value });
          },
          record msg { acptid = ctx.acceptor_id % 2 ^ 16; msgtype = phase2b },
          true,
        ))
      else returned (ctx, msg, false)

-- The choice of the handler in `on_value`; any other type is passed over with 0.
unfoldable pub handle : AcceptorCtx → Message → Outcome Handled
handle ctx msg =
    if msg.msgtype == phase1a
    then handle_phase1a ctx msg
    else if msg.msgtype == phase2a
    then handle_phase2a ctx msg
    else returned (ctx, msg, false)

-- The end of a round: a reply takes the next slot, whose pointer is to the buffer of that number.
unfoldable pub enqueue : AcceptorCtx → ℕ → Message → Bool → Outcome AcceptorCtx
enqueue ctx i msg false = do
  bufs ← write_at ctx.out_bufs i msg
  returned (record ctx { out_bufs = bufs })
enqueue ctx i msg true = do
  bufs ← write_at ctx.out_bufs i (pack msg)
  slots ← write_at ctx.out_msgs ctx.count_accepted (some ctx.count_accepted)
  returned
      (record ctx { out_bufs = bufs; out_msgs = slots; count_accepted = suc ctx.count_accepted })

-- One round of the loop of `on_value`, on the message of buffer `i`. The flag says that the
-- callback raised SIGTERM and returned.
unfoldable pub receive_one : AcceptorCtx → ℕ → Message → Outcome (AcceptorCtx × Bool)
receive_one ctx i received =
    let msg = unpack received in
    if leb (to_unsigned ctx.conf.maxinst) msg.inst
    then (do bufs ← write_at ctx.out_bufs i msg; returned (record ctx { out_bufs = bufs }, true))
    else (do
      (ctx', msg', res) ← handle ctx msg
      ctx'' ← enqueue ctx' i msg' res
      returned (ctx'', false))

-- The loop of `on_value` from buffer `i` on.
unfoldable pub receive_from : ℕ → List Message → AcceptorCtx → Outcome (AcceptorCtx × Bool)
receive_from i [] ctx = returned (ctx, false)
receive_from i (m ∷ ms) ctx = receive_one ctx i m >>= λ (ctx', stop).
    if stop then returned (ctx', true) else receive_from (suc i) ms ctx'

-- What `sendmmsg` reads: the buffers that the slots point at.
unfoldable pub gather : List Message → List (Option ℕ) → Outcome (List Message)
gather bufs [] = returned []
gather bufs (none ∷ slots) = fault
gather bufs (some k ∷ slots) = do m ← read_at bufs k; ms ← gather bufs slots; returned (m ∷ ms)

-- What a callback does to the world: the messages sent, and whether it raised SIGTERM.
pub record Acted : Type 0 where
  pub ctx : AcceptorCtx
  pub sent : List Message
  pub raised : Bool

-- The end of `on_value`; the flag is whether `sendmmsg` succeeds.
unfoldable pub flush : AcceptorCtx → Bool → Outcome Acted
flush ctx sends =
    if ltb 0 ctx.count_accepted
    then (do
      sent ← gather ctx.out_bufs (take ctx.count_accepted ctx.out_msgs)
      if sends
          then returned
              (record { ctx = record ctx { count_accepted = 0 }; sent = sent; raised = false })
          else exited)
    else returned (record { ctx = ctx; sent = []; raised = false })

-- `on_value`. The first argument is what `recvmmsg` delivers into `bufs`, `none` for its error.
unfoldable pub on_value : Option (List Message) → Bool → AcceptorCtx → Outcome Acted
on_value none sends ctx = exited
on_value (some received) sends ctx = do
  (ctx', stop) ← receive_from 0 received ctx
  if stop then returned (record { ctx = ctx'; sent = []; raised = true }) else flush ctx' sends
