-- ===== src/Coordinator/Order.antt =====
-- The coordinator passes a message on unchanged but for its instance, the next number in order.
use mathlib.Core.List.{append-nil}
use libnetpaxos.Prelude.{ℕ, suc, ◌-◌, ◌%◌, ◌^◌, ◌<◌, ◌≡◌, refl, arith, ap, sym, ◌∙◌, some, none}
use libnetpaxos.Prelude.{
  List, [], ◌++◌, length, take, drop, take_all, drop_all, returned, fault, false, lt→ltb, ltb,
}
use libnetpaxos.Config.{Config}
use libnetpaxos.Message.{Message, swap32}
use libnetpaxos.Message.Wire.{IsMessage, swap32-lt}
use libnetpaxos.Message.Bytes.{to_bytes, from_bytes, from_bytes-to_bytes, length-to_bytes}
use libnetpaxos.Datagram.{receive_into}
use libnetpaxos.Datagram.Fields.{IsReady}
use libnetpaxos.Datagram.Fresh.{init_rawsock-IsReady}
use libnetpaxos.Datagram.Sending.{send_datagram-IsSent}
use libnetpaxos.Coordinator.{CoordinatorCtx, coordinator_new, stamp, on_value}

-- A coordinator that can handle a message.
pub record IsRunning (ctx : CoordinatorCtx) : Type 0 where
  pub ready : IsReady ctx.datagram
  pub buffer : length ctx.msg_in ≡ 60

-- The message with the next instance number, in network order.
abbrev pub ordered : ℕ → Message → Message
ordered n m = record m { inst = swap32 (n % 2 ^ 32) }

stamp-to_bytes : (n : ℕ) (m : Message) → stamp n (to_bytes m) ≡ to_bytes (ordered n m)
unfolding stamp to_bytes
stamp-to_bytes n m = refl

-- A datagram of the size of the buffer fills it.
receive_into_full :
    (buf bytes : List ℕ) → length bytes ≡ length buf → receive_into buf bytes ≡ bytes
unfolding receive_into
receive_into_full buf bytes e =
    let whole : take (length buf) bytes ≡ bytes = ap (λ n. take n bytes) (sym e) ∙ take_all bytes in
    let rest : drop (length (take (length buf) bytes)) buf ≡ [] =
      ap (λ l. drop (length l) buf) whole ∙ ap (λ n. drop n buf) e ∙ drop_all buf in
    ap (λ l. take (length buf) bytes ++ l) rest ∙ append-nil (take (length buf) bytes) ∙ whole

pub ordered-IsMessage : (n : ℕ) {m : Message} → IsMessage m → IsMessage (ordered n m)
ordered-IsMessage n {m} v = record {
  inst_fits = swap32-lt (n % 2 ^ 32);
  rnd_fits = v.rnd_fits;
  vrnd_fits = v.vrnd_fits;
  acptid_fits = v.acptid_fits;
  msgtype_fits = v.msgtype_fits;
  value_size = v.value_size;
  client_size = v.client_size;
}

-- What handling the message `m` did.
pub record IsOrdered (ctx : CoordinatorCtx) (m : Message) (ctx' : CoordinatorCtx) (sent : List ℕ)
    : Type 0 where
  pub running : IsRunning ctx'
  pub counted : ctx'.cur_inst ≡ suc ctx.cur_inst
  pub total : length sent ≡ 88
  pub payload : from_bytes (drop 28 sent) ≡ some (ordered ctx.cur_inst m)

-- A running coordinator that has numbers left and receives the image of a message does nothing
-- undefined: it sends a datagram of 88 bytes whose payload is the same message with the current
-- instance number in network order, it moves to the next number, and it goes on running.
pub on_value-IsOrdered :
    (ctx : CoordinatorCtx) {m : Message}
    → IsRunning ctx
    → IsMessage m
    → ctx.cur_inst < 2 ^ 31 - 1
    → (ctx' : CoordinatorCtx) × (sent : List ℕ) × (on_value (some (to_bytes m)) ctx
        ≡ returned (ctx', some sent))
      × IsOrdered ctx m ctx' sent
unfolding on_value
on_value-IsOrdered ctx {m} run v left =
    let stamped : Message = ordered ctx.cur_inst m in
    let ok : IsMessage (ordered ctx.cur_inst m) = ordered-IsMessage ctx.cur_inst v in
    let same : stamp ctx.cur_inst (receive_into ctx.msg_in (to_bytes m))
        ≡ to_bytes (ordered ctx.cur_inst m) =
      ap (stamp ctx.cur_inst)
        (receive_into_full ctx.msg_in (to_bytes m) (length-to_bytes v ∙ sym run.buffer))
      ∙ stamp-to_bytes ctx.cur_inst m in
    let (buf, sent, e, s) =
      send_datagram-IsSent ctx.datagram (to_bytes stamped) run.ready
        (omega (arith, length-to_bytes ok)) in
    (
      record ctx { msg_in = to_bytes stamped; datagram = buf; cur_inst = suc ctx.cur_inst },
      sent,
      rw (same, e, lt→ltb _ _ left),
      record {
        running = record { ready = s.ready; buffer = length-to_bytes ok };
        counted = refl;
        total = omega (arith, s.total, length-to_bytes ok);
        payload = ap from_bytes s.payload ∙ from_bytes-to_bytes ok;
      },
    )

-- With no number left, the increment is undefined.
pub on_value_exhausted :
    (ctx : CoordinatorCtx) {m : Message}
    → IsRunning ctx
    → IsMessage m
    → ¬ (ctx.cur_inst < 2 ^ 31 - 1)
    → on_value (some (to_bytes m)) ctx ≡ fault
unfolding on_value
on_value_exhausted ctx {m} run v none_left =
    let stamped : Message = ordered ctx.cur_inst m in
    let ok : IsMessage (ordered ctx.cur_inst m) = ordered-IsMessage ctx.cur_inst v in
    let same : stamp ctx.cur_inst (receive_into ctx.msg_in (to_bytes m))
        ≡ to_bytes (ordered ctx.cur_inst m) =
      ap (stamp ctx.cur_inst)
        (receive_into_full ctx.msg_in (to_bytes m) (length-to_bytes v ∙ sym run.buffer))
      ∙ stamp-to_bytes ctx.cur_inst m in
    let (buf, sent, e, s) =
      send_datagram-IsSent ctx.datagram (to_bytes stamped) run.ready
        (omega (arith, length-to_bytes ok)) in
    let past : ltb ctx.cur_inst (2 ^ 31 - 1) ≡ false = ground arith in rw (same, e, past)

-- A failed `recvfrom` changes nothing and sends nothing.
on_value-none : (ctx : CoordinatorCtx) → on_value none ctx ≡ returned (ctx, none)
unfolding on_value
on_value-none ctx = refl

-- With two socket addresses and a buffer of 60 bytes a new coordinator runs, at instance 0.
pub coordinator_new-IsRunning :
    (conf : Config) (dest mine msg_in : List ℕ)
    → length dest ≡ 16
    → length mine ≡ 16
    → length msg_in ≡ 60
    → (ctx : CoordinatorCtx) × (coordinator_new conf dest mine msg_in ≡ returned ctx)
      × IsRunning ctx
      × (ctx.cur_inst ≡ 0)
unfolding coordinator_new
coordinator_new-IsRunning conf dest mine msg_in sd sm sb =
    let (b, e, ready) = init_rawsock-IsReady mine dest sm sd in
    (
      record { conf = conf; cur_inst = 0; dest = dest; mine = mine; msg_in = msg_in; datagram = b },
      rw e,
      record { ready = ready; buffer = sb },
      refl,
    )
