-- ===== src/Coordinator.antt =====
-- lib/include/coordinator.h and lib/src/coordinator.c: the coordinator stamps each message with the
-- next instance number and passes it on to the acceptors.
pub mod Order
pub mod Start
mod Tests
use libnetpaxos.Prelude.{ℕ, suc, ◌-◌, ◌%◌, ◌^◌, Option, some, none, List, [], ◌++◌, replicate}
use libnetpaxos.Prelude.{length, take, drop, ltb, if◌then◌else◌, Outcome, returned, fault, ◌>>=◌}
use libnetpaxos.Config.{Config}
use libnetpaxos.Message.{swap32}
use libnetpaxos.Message.Bytes.{le32}
use libnetpaxos.Datagram.{init_rawsock, receive_into, send_datagram}

-- `sizeof(Message)`.
abbrev pub message_size : ℕ
message_size = 60

-- `CoordinatorCtx`, without its sockets; the addresses and the buffers are their bytes.
pub record CoordinatorCtx : Type 0 where
  pub conf : Config
  pub cur_inst : ℕ
  pub dest : List ℕ
  pub mine : List ℕ
  pub msg_in : List ℕ
  pub datagram : List ℕ

-- `coordinator_new` and the part of `start_coordinator` that sets up the buffer to send, for the
-- addresses of the acceptor and of the socket. Nothing initialises `msg_in`.
unfoldable pub coordinator_new : Config → List ℕ → List ℕ → List ℕ → Outcome CoordinatorCtx
coordinator_new conf dest mine msg_in = do
  datagram ← init_rawsock mine dest
  returned (record {
    conf = conf;
    cur_inst = 0;
    dest = dest;
    mine = mine;
    msg_in = msg_in;
    datagram = datagram;
  })

-- `int *inst = (int *)ctx->msg_in; *inst = htonl(ctx->cur_inst);`
unfoldable pub stamp : ℕ → List ℕ → List ℕ
stamp cur_inst msg = le32 (swap32 (cur_inst % 2 ^ 32)) ++ drop 4 msg

-- `ctx->cur_inst++` on an `int`.
unfoldable pub next_inst : ℕ → Outcome ℕ
next_inst n = if ltb n (2 ^ 31 - 1) then returned (suc n) else fault

-- The context afterwards, and the bytes given to `sendto`, if it is called.
abbrev pub Acted : Type 0
Acted = CoordinatorCtx × Option (List ℕ)

-- `on_value`. The first argument is the datagram that `recvfrom` delivers, `none` for its error.
unfoldable pub on_value : Option (List ℕ) → CoordinatorCtx → Outcome Acted
unfolding next_inst
on_value none ctx = returned (ctx, none)
on_value (some bytes) ctx = do
  let msg = stamp ctx.cur_inst (receive_into ctx.msg_in bytes)
  (datagram, sent) ← send_datagram ctx.datagram msg
  cur_inst ← next_inst ctx.cur_inst
  returned (record ctx { msg_in = msg; datagram = datagram; cur_inst = cur_inst }, some sent)
