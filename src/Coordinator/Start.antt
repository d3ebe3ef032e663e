-- ===== src/Coordinator/Start.antt =====
-- lib/src/coordinator.c: `start_coordinator`.
use libnetpaxos.Prelude.{
  ℕ, ◌≡◌, refl, Option, some, none, List, [], ◌∷◌, ◌++◌, Option-cases, inl, inr, length,
}
use libnetpaxos.Config.{Config}
use libnetpaxos.Host.{
  Host, Call, Boot, ◌>>=◌, ◌>>◌, pure, lift, call, watch, watch_signal, dispatch, sigint, sigterm,
  socket_name, open_socket, datagram, raw,
}
use libnetpaxos.Host.Ended.{Ended, done, Ended-bind}
use libnetpaxos.Sockets.{
  create_server_socket, create_rawsock, join_if_multicast, name_or_exit, peer_addr,
}
use libnetpaxos.Sockets.Opening.{setup_calls, create_server_socket-Ended, name-Ended}
use libnetpaxos.Sockets.Peer.{
  IsHost, peer_image, peer_addr_lem, length-peer_image, join_if_multicast-Ended, joins,
  create_rawsock-Ended,
}
use libnetpaxos.Coordinator.{CoordinatorCtx, coordinator_new}
use libnetpaxos.Coordinator.Order.{IsRunning, coordinator_new-IsRunning}

-- The context, and the sockets that `CoordinatorCtx` leaves out.
pub record Started : Type 0 where
  pub ctx : CoordinatorCtx
  pub sock : ℕ
  pub rawsock : ℕ

-- The rest of `start_coordinator` when the address of the acceptor is known, up to and with the loop
-- of events. `msg_in` is what the memory for the message holds.
unfoldable pub serve : Host → Config → List ℕ → List ℕ → Boot (Option Started)
serve h conf dest msg_in = do
  listen_socket ← create_server_socket h conf.coordinator_port
  join_if_multicast h conf.coordinator_addr listen_socket
  mine ← name_or_exit h listen_socket
  rawsock ← create_rawsock h
  ctx ← lift (coordinator_new conf dest mine msg_in)
  call (watch listen_socket)
  call (watch_signal sigterm)
  call (watch_signal sigint)
  call dispatch
  pure (some (record { ctx = ctx; sock = listen_socket; rawsock = rawsock }))

-- `start_coordinator`; `none` is EXIT_FAILURE.
unfoldable pub start_coordinator : Host → Config → List ℕ → Boot (Option Started)
start_coordinator h conf msg_in = elim (h.gethostbyname conf.acceptor_addr) [
  | none ↦ pure none
  | some server ↦ lift (peer_addr server conf.acceptor_port) >>= λ dest. serve h conf dest msg_in
]

-- What a start that serves has done.
pub record IsServing (h : Host) (conf : Config) (s : Started) (calls : List Call) : Type 0 where
  pub running : IsRunning s.ctx
  pub first : s.ctx.cur_inst ≡ 0
  pub sockets : (h.socket datagram ≡ some s.sock) × (h.socket raw ≡ some s.rawsock)
  pub made :
      calls
      ≡ open_socket datagram ∷ setup_calls conf.coordinator_port s.sock
        ++ (joins h conf.coordinator_addr s.sock
            ++ (socket_name s.sock
                ∷ open_socket raw
                ∷ watch s.sock
                ∷ watch_signal sigterm
                ∷ watch_signal sigint
                ∷ dispatch
                ∷ []))

abbrev pub Outcomes : Host → Config → Option Started → List Call → Type 0
Outcomes h conf none calls = h.gethostbyname conf.acceptor_addr ≡ none
Outcomes h conf (some s) calls = IsServing h conf s calls

-- On a system as documented, and with 60 bytes for a message, the start of a coordinator exits at the
-- first call that fails, or all its calls work, and it reports a failure because the acceptor's name is not known, or serves: with
-- a context that can order messages, from instance 0 on, on the socket that it bound to its own
-- port, after joining its group if its address is a multicast address. It does nothing undefined.
pub start_coordinator-Ended :
    (h : Host) (conf : Config) (msg_in : List ℕ)
    → IsHost h
    → length msg_in ≡ 60
    → Ended h (Outcomes h conf) (start_coordinator h conf msg_in)
unfolding start_coordinator serve
start_coordinator-Ended h conf msg_in ok room =
    elim (Option-cases (h.gethostbyname conf.acceptor_addr)) [
      | inl unknown ↦ rw (unknown, start_coordinator) (done none [] tt unknown)
      | inr (server, known) ↦
          rw
            (
              known,
              start_coordinator,
              peer_addr_lem server conf.acceptor_port (ok.found_size _ server known),
            )
            (serves server (ok.found_size _ server known))
    ]
  where
    serves :
        (server : List ℕ)
        → length server ≡ 4
        → Ended h (Outcomes h conf) (serve h conf (peer_image server conf.acceptor_port) msg_in)
    serves server size =
        Ended-bind _ (create_server_socket-Ended h conf.coordinator_port) λ fd calls (is, e).
          Ended-bind _ (join_if_multicast-Ended h conf.coordinator_addr fd) λ _ more e'.
            Ended-bind _ (name-Ended h fd) λ mine none_made (name, e'').
              Ended-bind _ (create_rawsock-Ended h) λ rawsock opened (is_raw, e3).
                let (ctx, new, running, first) =
                  coordinator_new-IsRunning conf (peer_image server conf.acceptor_port) mine msg_in
                    (length-peer_image server conf.acceptor_port size) (ok.name_size fd mine name)
                    room in
                rw new (
                  done _ _ (tt, (tt, (tt, (tt, tt))))
                    (record {
                      sockets = (is, is_raw);
                      running = running;
                      first = first;
                      made = rw (e, e', e'', e3) refl;
                    }))
