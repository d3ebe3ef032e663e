-- ===== src/Learner.antt =====
-- lib/include/learner.h and lib/src/learner.c: the state of a learner, the counting of votes, and
-- the callback that reads a batch of messages.
pub mod Cases
pub mod Tally
pub mod Session
pub mod LateRounds
pub mod Progress
pub mod Order
pub mod Start
pub mod Recover
mod Tests
use Prim.Native.Nat.{bit_and, bit_or}
use libnetpaxos.Prelude.{ℕ, suc, ◌+◌, ◌/◌, ◌^◌, Bool, true, false, Option, none, some}
use libnetpaxos.Prelude.{List, [], ◌∷◌, ◌++◌, replicate, set}
use libnetpaxos.Prelude.{ltb, leb, ◌==◌, if◌then◌else◌}
use libnetpaxos.Prelude.{Outcome, returned, exited, fault, ◌>>=◌, read_at}
use libnetpaxos.Prelude.Int.{ℤ, pos, negsuc, pos_part, to_unsigned}
use libnetpaxos.Config.{Config}
use libnetpaxos.Message.{Message, paxos_value_size, unpack}
use libnetpaxos.Message.Copy.{strcpy, memcpy}

-- `paxos_state`: the votes of one instance. `from` has a bit for each acceptor that has voted.
pub record PaxosState : Type 0 where
  pub rnd : ℕ
  pub count : ℕ
  pub from : ℕ
  pub finished : Bool
  pub paxosval : List ℕ

-- `LearnerCtx`, without its sockets, events and buffers. `mine` is the learner's own address.
pub record LearnerCtx : Type 0 where
  pub conf : Config
  pub mps : ℕ
  pub num_packets : ℕ
  pub maj : ℕ
  pub states : List PaxosState
  pub mine : List ℕ

-- The call of `ctx->deliver`: `struct app_request` names a value and a client.
pub record Delivery : Type 0 where
  pub inst : ℕ
  pub value : List ℕ
  pub client : List ℕ

-- `ceil(((double)(num_acceptors + 1)) / 2)`.
unfoldable pub majority : ℕ → ℕ
majority num_acceptors = (num_acceptors + 1 + 1) / 2

-- `ctx->maj`. For a negative number of acceptors it is 0 or less; 0 stands for all of these, as no
-- count of votes is equal to any.
abbrev pub quorum : ℤ → ℕ
quorum (pos n) = majority n
quorum (negsuc n) = 0

abbrev pub fresh_state : PaxosState
fresh_state = record {
  rnd = 0;
  count = 0;
  from = 0;
  finished = false;
  paxosval = replicate paxos_value_size 0;
}

-- A new context. A negative number of instances is read as 0.
unfoldable pub learner_ctx_new : Config → LearnerCtx
unfolding majority
learner_ctx_new conf = record {
  conf = conf;
  mps = 0;
  num_packets = 0;
  maj = quorum conf.num_acceptors;
  states = replicate (pos_part conf.maxinst) fresh_state;
  mine = replicate 16 0;
}

-- `1 << n` in an `int` of 32 bits: undefined from 31 on.
unfoldable pub shift_one : ℕ → Outcome ℕ
shift_one n = if ltb n 31 then returned (2 ^ n) else fault

-- `handle_accepted` on the state of the message's instance; the flag says that the value is chosen.
unfoldable pub count_vote : ℕ → PaxosState → Message → Outcome (PaxosState × Bool)
unfolding shift_one
count_vote maj state msg =
    if state.finished
    then returned (state, false)
    else if msg.rnd == state.rnd
    then (do
      mask ← shift_one msg.acptid
      if bit_and state.from mask == 0
          then (do
            value ← memcpy state.paxosval msg.paxosval 32
            let count = suc state.count
            returned (
              record state {
                from = bit_or state.from mask;
                count = count;
                paxosval = value;
                finished = count == maj;
              },
              count == maj,
            ))
          else returned (state, false))
    else if ltb state.rnd msg.rnd
    then (do
      mask ← shift_one msg.acptid
      value ← strcpy state.paxosval (msg.paxosval ++ msg.client)
      returned (
        record state { rnd = msg.rnd; from = bit_or state.from mask; count = 1; paxosval = value },
        false,
      ))
    else returned (state, false)

-- The context after `handle_accepted`, and the call of `deliver` that it made.
abbrev pub Counted : Type 0
Counted = LearnerCtx × Option Delivery

unfoldable pub handle_accepted : LearnerCtx → Message → Outcome Counted
handle_accepted ctx msg = do
  state ← read_at ctx.states msg.inst
  (state', chosen) ← count_vote ctx.maj state msg
  let states = set ctx.states msg.inst state'
  if chosen
      then returned (
        record ctx { states = states; mps = suc ctx.mps; num_packets = suc ctx.num_packets },
        some (record { inst = msg.inst; value = state'.paxosval; client = msg.client }),
      )
      else returned (record ctx { states = states }, none)

-- What `on_value` does: the calls of `deliver` in order, and whether it raised SIGTERM.
pub record Acted : Type 0 where
  pub ctx : LearnerCtx
  pub delivered : List Delivery
  pub raised : Bool

abbrev pub also : Option Delivery → Acted → Acted
also none a = a
also (some d) a = record a { delivered = d ∷ a.delivered }

-- The loop of `on_value`.
unfoldable pub receive_from : List Message → LearnerCtx → Outcome Acted
receive_from [] ctx = returned (record { ctx = ctx; delivered = []; raised = false })
receive_from (m ∷ ms) ctx =
    if leb (to_unsigned ctx.conf.maxinst) (unpack m).inst
    then returned (record { ctx = ctx; delivered = []; raised = true })
    else (do
      (ctx', delivery) ← handle_accepted ctx (unpack m)
      rest ← receive_from ms ctx'
      returned (also delivery rest))

-- `on_value`. The argument is what `recvmmsg` delivers, `none` for its error.
unfoldable pub on_value : Option (List Message) → LearnerCtx → Outcome Acted
on_value none ctx = exited
on_value (some received) ctx = receive_from received ctx

-- `monitor`: prints the deliveries of the last second, if there were any, and forgets them.
unfoldable pub monitor : LearnerCtx → LearnerCtx × Option ℕ
monitor ctx = (record ctx { mps = 0 }, if ctx.mps == 0 then none else some ctx.mps)
