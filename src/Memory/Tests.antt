-- ===== src/Memory/Tests.antt =====
-- An empty heap, and the processes on it.
use libnetpaxos.Prelude.{◌≡◌, refl, length, true, false, some, List, [], ◌∷◌}
use libnetpaxos.Prelude.{fault}
use libnetpaxos.Memory.{Heap}
use libnetpaxos.Memory.Holds.{Holds, Returns, IsHeap, Leaves}
use libnetpaxos.Memory.Acceptor.{acceptor_main, Stays, acceptor_main-Leaves}
use libnetpaxos.Memory.Replica.{leveldb_paxos_main, done, error, got, Answer}
use libnetpaxos.Memory.Replica.Release.{leveldb_paxos_main-Leaves}
use libnetpaxos.Memory.Proposer.{cliapp_main, cliapp_main-Leaves}
use libnetpaxos.Memory.UdpClient.{udp_client_main, owned, udp_client_main-Leaves}
use libnetpaxos.Memory.TcpServer.{server_run, Happens, accepted, ended, asked}
use libnetpaxos.Memory.TcpServer.Release.{server_run-Leaves}
use libnetpaxos.Memory.Benchmark.{benchmark_main, failed, missing, value}
use libnetpaxos.Memory.Benchmark.Release.{stay, benchmark_main-Leaves}

abbrev empty_heap : Heap
empty_heap = record { next = 0; live = λ q. false }

empty_heap-IsHeap : IsHeap empty_heap
empty_heap-IsHeap = record { counts = λ q. refl; fresh = λ q above. refl }

-- Two instances.
acceptor_main-Leaves_example :
    Returns (Stays empty_heap.live true 2 []) (acceptor_main true 2 empty_heap)
acceptor_main-Leaves_example = acceptor_main-Leaves true 2 empty_heap empty_heap-IsHeap

-- A value that begins with a zero byte, another, an error, and a command without an answer.
abbrev answers : List Answer
answers = got (some (0 ∷ 7 ∷ [])) ∷ got (some (7 ∷ [])) ∷ error ∷ done ∷ []

leveldb_paxos_main-Leaves_example :
    Returns (λ _. Leaves empty_heap 1) (leveldb_paxos_main 2 answers empty_heap)
leveldb_paxos_main-Leaves_example =
    leveldb_paxos_main-Leaves 2 answers empty_heap (tt, (tt, (tt, (tt, tt)))) empty_heap-IsHeap

cliapp_main-Leaves_example :
    Returns (λ _. Leaves empty_heap 0) (cliapp_main true empty_heap)
    × (cliapp_main false empty_heap ≡ fault)
cliapp_main-Leaves_example = cliapp_main-Leaves empty_heap empty_heap-IsHeap

udp_client_main-Leaves_example :
    Returns (λ _. Leaves empty_heap 0) (udp_client_main true true 3 empty_heap)
    × (udp_client_main true false 3 empty_heap ≡ fault)
    × Returns
        (λ l h'. Holds empty_heap.live (owned l []) h' × (length l.1.items ≡ 3))
        (udp_client_main false true 3 empty_heap)
udp_client_main-Leaves_example = udp_client_main-Leaves true 3 empty_heap empty_heap-IsHeap

-- Three connections come, the one in the middle asks for a value and ends, and one that is not there
-- ends.
abbrev events : List Happens
events = accepted ∷ accepted ∷ accepted ∷ asked true ∷ ended 1 ∷ ended 5 ∷ []

server_run-Leaves_example :
    Returns (λ _. Leaves empty_heap 2) (server_run true true events empty_heap)
server_run-Leaves_example = server_run-Leaves true true events empty_heap empty_heap-IsHeap

benchmark_main-Leaves_example :
    Returns
      (λ (d, c). Holds empty_heap.live (stay d c))
      (benchmark_main 2 (true ∷ []) (false ∷ []) (value ∷ missing ∷ failed ∷ []) empty_heap)
benchmark_main-Leaves_example =
    benchmark_main-Leaves 2 (true ∷ []) (false ∷ []) (value ∷ missing ∷ failed ∷ []) empty_heap
      empty_heap-IsHeap
