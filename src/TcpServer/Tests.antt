-- ===== src/TcpServer/Tests.antt =====
-- The server at work.
use libnetpaxos.Prelude.{
  ℕ, ◌≡◌, refl, List, [], ◌∷◌, replicate, ◌≤◌, ◌<◌, All, length, returned, none, ◌>>=◌, fault,
}
use libnetpaxos.Store.{Result}
use libnetpaxos.Datagram.{receive_into}
use libnetpaxos.Replica.{load}
use libnetpaxos.TcpServer.{
  Application, connection, deliver, readcb, put_request, get_request, reply,
}
use libnetpaxos.Store.{Map}
use libnetpaxos.Store.Function.{function_db, function_db-IsMap, function_db-IsReliable}
use libnetpaxos.TcpServer.Refines.{done_text, replay, connection-replay}
use libnetpaxos.TcpServer.Bounds.{announced, deliver-Bounded}
use libnetpaxos.TcpClient.Loop.{connection-Submitted, Submitted, with_key}
use libnetpaxos.Utils.Time.{Timespec}
use libnetpaxos.Prelude.Int.{pos}

abbrev nothing : Map
nothing k = none

abbrev started : Application Map
started = record { db = nothing; mps = 0 }

-- Puts 7 at the key 5, and asks for it.
abbrev put_then_get : List (List ℕ)
put_then_get = (1 ∷ 1 ∷ 1 ∷ 5 ∷ 7 ∷ replicate 27 0) ∷ (2 ∷ 1 ∷ 0 ∷ 5 ∷ replicate 28 0) ∷ []

-- A key of 200 bytes in a request of 32.
abbrev long_key : List ℕ
long_key = 2 ∷ 200 ∷ replicate 30 0

abbrev nines : List ℕ
nines = replicate 128 9

abbrev letter : ℕ
letter = 104

abbrev sizes_true : All (λ (l : List ℕ). length l ≡ 128) (nines ∷ nines ∷ [])
sizes_true = (refl, (refl, tt))

connection-replay_example :
    (connection function_db put_then_get [] started >>= λ (ctx, outputs).
    returned (ctx.db, outputs))
    ≡ replay put_then_get [] nothing
connection-replay_example =
    connection-replay function_db (λ f. f) function_db-IsMap function_db-IsReliable put_then_get []
      started

put_then_get_answers :
    (connection function_db put_then_get [] started >>= λ (ctx, outputs). returned outputs)
    ≡ returned ((83 ∷ 85 ∷ 67 ∷ 67 ∷ 69 ∷ 83 ∷ 83 ∷ 0 ∷ []) ∷ (7 ∷ []) ∷ [])
unfolding connection readcb deliver put_request get_request reply load receive_into
put_then_get_answers = refl

deliver-Bounded_example :
    (announced long_key ≤ 29
      → (a : Map × Result × List ℕ) × (deliver function_db nothing long_key ≡ returned a))
    × (29 < announced long_key → deliver function_db nothing long_key ≡ fault)
deliver-Bounded_example = deliver-Bounded function_db nothing long_key refl

connection-Submitted_example :
    (arrivals : List (List ℕ)) × Submitted (nines ∷ nines ∷ []) arrivals
    × (ctx' : Application Map) × (connection function_db arrivals [] started
        ≡ returned (ctx', replicate 2 done_text))
    × (ctx'.db ≡ with_key nothing)
connection-Submitted_example =
    connection-Submitted function_db (λ f. f) function_db-IsMap function_db-IsReliable started nines
      (nines ∷ []) sizes_true

abbrev midnight : Timespec
midnight = record { tv_sec = pos 0; tv_nsec = pos 0 }
