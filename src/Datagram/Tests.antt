-- ===== src/Datagram/Tests.antt =====
-- A datagram between two socket addresses.
use libnetpaxos.Prelude.{ℕ, ◌≡◌, refl, arith, List, [], ◌∷◌, replicate, returned}
use libnetpaxos.Datagram.{init_rawsock, send_datagram}
use libnetpaxos.Datagram.Fields.{IsReady, IsSent}
use libnetpaxos.Datagram.Fresh.{init_rawsock-IsReady}
use libnetpaxos.Datagram.Sending.{send_datagram-IsSent}

-- AF_INET, a port and an address.
abbrev addr : ℕ → List ℕ
addr host = 2 ∷ 0 ∷ 0x22 ∷ 0xb8 ∷ 10 ∷ 0 ∷ 0 ∷ host ∷ replicate 8 0

socket : (b : List ℕ) × (init_rawsock (addr 1) (addr 2) ≡ returned b) × IsReady b
socket = init_rawsock-IsReady (addr 1) (addr 2) refl refl

send_datagram-IsSent_example :
    (buf sent : List ℕ) × (send_datagram socket.0 (1 ∷ 2 ∷ 3 ∷ []) ≡ returned (buf, sent))
    × IsSent (1 ∷ 2 ∷ 3 ∷ []) buf sent
send_datagram-IsSent_example = send_datagram-IsSent socket.0 (1 ∷ 2 ∷ 3 ∷ []) socket.2 (omega arith)
