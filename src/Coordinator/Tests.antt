-- ===== src/Coordinator/Tests.antt =====
-- A coordinator that orders two messages.
use libnetpaxos.Prelude.{ℕ, ◌≡◌, ◌-◌, ◌*◌, ◌^◌, refl, arith, List, ◌∷◌, replicate, returned, some}
use libnetpaxos.Config.{init_conf}
use libnetpaxos.Message.{Message, phase2a}
use libnetpaxos.Message.Wire.{IsMessage}
use libnetpaxos.Message.Bytes.{to_bytes}
use libnetpaxos.Coordinator.{CoordinatorCtx, coordinator_new, on_value}
use libnetpaxos.Coordinator.Order.{
  IsRunning, IsOrdered, coordinator_new-IsRunning, on_value-IsOrdered,
}

abbrev addr : ℕ → List ℕ
addr host = 2 ∷ 0 ∷ 0x22 ∷ 0xb8 ∷ 10 ∷ 0 ∷ 0 ∷ host ∷ replicate 8 0

started :
    (ctx : CoordinatorCtx) × (coordinator_new init_conf (addr 1) (addr 2) (replicate 60 7)
      ≡ returned ctx)
    × IsRunning ctx
    × (ctx.cur_inst ≡ 0)
started = coordinator_new-IsRunning init_conf (addr 1) (addr 2) (replicate 60 7) refl refl refl

abbrev message : Message
message = record {
  inst = 0;
  rnd = 0;
  vrnd = 0;
  acptid = 0;
  msgtype = phase2a * 256;
  paxosval = replicate 32 65;
  client = addr 3;
}

message-IsMessage : IsMessage message
message-IsMessage = record {
  inst_fits = omega arith;
  rnd_fits = omega arith;
  vrnd_fits = omega arith;
  acptid_fits = omega arith;
  msgtype_fits = omega arith;
  value_size = refl;
  client_size = refl;
}

-- The coordinator of the run above, and the same one at the last number but one.
abbrev late : CoordinatorCtx
late = record started.0 { cur_inst = 2 ^ 31 - 2 }

late-IsRunning : IsRunning late
late-IsRunning = record { ready = started.2.ready; buffer = started.2.buffer }

on_value-IsOrdered_example :
    (ctx' : CoordinatorCtx) × (sent : List ℕ) × (on_value (some (to_bytes message)) late
      ≡ returned (ctx', some sent))
    × IsOrdered late message ctx' sent
on_value-IsOrdered_example = on_value-IsOrdered late late-IsRunning message-IsMessage (omega arith)
