-- ===== src/Lib.antt =====
-- LibNetPaxos: Multi-Paxos over UDP as event callbacks (lib/).
--
-- A proposer sends a value, inside a raw IP datagram, to the coordinator. The coordinator stamps it
-- with the next instance number and sends it to the acceptors. An acceptor keeps, for each
-- instance, the round that it has promised and the value that it has accepted; it answers a batch
-- of messages with a batch of votes to the learners. A learner counts the votes of an instance and
-- calls the application once a majority has voted.
--
-- Which file models what:
--   Prelude      lists and bits over native numbers, integers, and `Outcome`: code that returns,
--                calls exit, or does something undefined (`fault`)
--   Host         the calls of the operating system and of libevent that the processes make when
--                they start: what they answer is a parameter, what they change a list of calls
--   Message      lib/include/message.h, lib/src/message.c: the message, pack and unpack; Copy has
--                strcpy and memcpy on buffers, Bytes the image of a message in memory, Request the
--                message that a proposer sends
--   Config       lib/include/config.h, lib/src/config.c: the configuration and init_conf;
--                Parse has parse_conf, whose branches are a table tried from the top
--   Utils        lib/src/netpaxos_utils.c: csum; Time has timediff and compare_ts
--   Sockets      lib/src/netpaxos_utils.c: the functions that open sockets and set their options
--   Datagram     lib/src/proposer.c and lib/src/coordinator.c: init_rawsock and paxos_send, which
--                the coordinator has again as init_coord_rawsock and send_message
--   Proposer     lib/include/proposer.h, lib/src/proposer.c: submit and retry; Response has
--                on_response, Start has init_proposer and make_proposer
--   Coordinator  lib/include/coordinator.h, lib/src/coordinator.c; Start has start_coordinator
--   Acceptor     lib/include/acceptor.h, lib/src/acceptor.c; Start has start_acceptor
--   Learner      lib/include/learner.h, lib/src/learner.c; Start has make_learner, Recover recover,
--                Order a run in which instances are chosen one after the other
--   Store        app/include/application.h, and LevelDB as a record of its three operations;
--                Function has a map as a database without errors
--   Replica      app/simple_learner.c, app/leveldb_paxos.c: the callbacks that a learner calls,
--                for any LevelDB
--   KvMemory     app/kv_memory.c: the callback that keeps its entries in a hash table; the vendored
--                app/include/uthash.h is a record of its three operations
--   CliApp       app/cliapp.c: the client that submits requests to a proposer
--   TcpServer    app/leveldb_tcp_server.c: the callbacks of the server without Paxos; Refines has
--                the same server as commands on a map
--   TcpClient    app/tcp_client.c: its client; Loop has the two together
--   UdpClient    app/udp_client.c: the client that keeps a number of messages on their way
--   Benchmark    app/leveldb_server.c: the keys that are made, and the loops that fill and read a
--                database
--   Memory       the blocks that each process allocates and releases, from its start to its end:
--                Holds has the heap and what is in use, Config, Cells, Coordinator, Acceptor,
--                Learner and Proposer the parts of lib/, Replica, UdpClient, TcpClient, TcpServer and
--                Benchmark those of app/
--   System       the processes together, with the requests of Proposer, over a network that
--                loses, repeats and reorders messages; Agreement has what holds in every run,
--                Progress a run without loss
--
-- A callback is a function from what the kernel delivers (a batch, a datagram, or an error) and the
-- context to an `Outcome` of the new context and of what it does: the messages sent, the calls of
-- deliver, and whether it raised SIGTERM. An array is a list, and an access outside is a fault. A
-- uint16_t and a uint32_t are numbers with their wrap-around written out; the host is
-- little-endian. The counters that a monitor prints and forgets each second are numbers without an
-- end. There is no fuel: all loops go over the messages of a batch or over a list.
--
-- In Memory a process is run on a heap that says which blocks are in use. To use or to release a
-- block that is not is a fault; what is proved of a process is that it returns, and which blocks are
-- in use then. Its parameters are the answers that it gets. The callbacks of libevent that neither
-- allocate nor release are left out there.
--
-- An acceptor that is given an instance that it does not have raises SIGTERM and stops. libevent may
-- run its callback once more before the handler of the signal; what it left over of the batch would
-- then be sent. No run of the system has such a callback, and the theorems on one batch of an acceptor
-- are about one with nothing left over.
--
-- The system has the traffic that the coordinator makes: it sends proposals for round 0 only, with
-- a new instance number each. Prepare messages, which no process of the repository sends, are
-- part of the acceptor's own theorems, and not of the system.
--
-- Not modelled: the event loop, of which only the order of the callbacks is seen; what is printed,
-- but for the numbers of the monitors and the latencies; an allocation that fails; the sockets of the
-- clients and the servers under app/; the memory of a TCP client that has connected, which reads past
-- its array; python/ and scripts/.
pub mod Prelude
pub mod Message
pub mod Config
pub mod Utils
pub mod Datagram
pub mod Host
pub mod Memory
pub mod KvMemory
pub mod Sockets
pub mod Proposer
pub mod Coordinator
pub mod Acceptor
pub mod Learner
pub mod Store
pub mod Replica
pub mod TcpServer
pub mod TcpClient
pub mod UdpClient
pub mod Benchmark
pub mod CliApp
pub mod System
