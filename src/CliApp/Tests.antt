-- ===== src/CliApp/Tests.antt =====
-- A client that begins with two requests and gets one answer.
use libnetpaxos.Prelude.{ℕ, ◌≡◌, ◌<◌, ◌-◌, ◌^◌, refl, arith, List, ◌∷◌, replicate, returned}
use libnetpaxos.Datagram.{init_rawsock}
use libnetpaxos.Datagram.Fields.{IsReady}
use libnetpaxos.Datagram.Fresh.{init_rawsock-IsReady}
use libnetpaxos.Proposer.{ProposerState}
use libnetpaxos.CliApp.{AppCtx, Chance, new_app_ctx, deliver_response, id_of}
use libnetpaxos.CliApp.Loop.{
  IsClient, IsChance, IsRepeated, new_app_ctx-IsClient, deliver_response-IsRepeated,
}

abbrev addr : ℕ → List ℕ
addr host = 2 ∷ 0 ∷ 0x22 ∷ 0xb8 ∷ 10 ∷ 0 ∷ 0 ∷ host ∷ replicate 8 0

socket : (b : List ℕ) × (init_rawsock (addr 1) (addr 2) ≡ returned b) × IsReady b
socket = init_rawsock-IsReady (addr 1) (addr 2) refl refl

abbrev state : ProposerState
state = record { datagram = socket.0; mine = addr 1; outstanding = 2 }

started :
    (ctx : AppCtx) × (new_app_ctx state (replicate 40 7) ≡ returned ctx)
    × IsClient ctx
    × (ctx.request_id ≡ 0)
started = new_app_ctx-IsClient state (replicate 40 7) refl refl socket.2

abbrev client : AppCtx
client = record started.0 { request_id = 0 }

client-IsClient : IsClient client
client-IsClient = record { size = started.2.size; mine = started.2.mine; ready = started.2.ready }

abbrev chance : ℕ → Chance
chance k = record {
  random = k;
  now = k ∷ replicate 15 0;
  local = record {
    inst = 1;
    rnd = 2;
    vrnd = 3;
    acptid = 4;
    msgtype = 5;
    paxosval = replicate 32 6;
    client = replicate 16 7;
  };
}

chance-IsChance : (k : ℕ) → IsChance (chance k)
chance-IsChance k = record { clock = refl; client = refl }

abbrev answer : List ℕ
answer = 1 ∷ 0 ∷ 0 ∷ 0 ∷ replicate 36 7

id_small : id_of answer < 2 ^ 31 - 1
unfolding id_of
id_small = omega arith

deliver_response-IsRepeated_example :
    (ctx' : AppCtx) × (sent : List ℕ) × (deliver_response (chance 5) answer client
      ≡ returned (ctx', sent))
    × IsRepeated client ctx' answer sent
deliver_response-IsRepeated_example =
    deliver_response-IsRepeated (chance 5) client answer client-IsClient (chance-IsChance 5)
      (omega arith) (omega arith) id_small
