-- ===== src/Learner/Start.antt =====
-- lib/src/learner.c: `make_learner`.
use libnetpaxos.Prelude.{ℕ, ◌≡◌, refl, some, List, [], ◌∷◌, ◌++◌}
use libnetpaxos.Config.{Config}
use libnetpaxos.Host.{
  Host, Call, Boot, ◌>>=◌, ◌>>◌, pure, lift, call, socket_name, find_name, watch, watch_timer,
  watch_signal, sigint, sigterm, open_socket, datagram,
}
use libnetpaxos.Host.Ended.{Ended, done, Ended-bind}
use libnetpaxos.Sockets.{
  create_server_socket, join_if_multicast, name_or_exit, find_or_exit, peer_addr,
}
use libnetpaxos.Sockets.Opening.{setup_calls, create_server_socket-Ended, name-Ended, search-Ended}
use libnetpaxos.Sockets.Peer.{IsHost, peer_image, peer_addr_lem, join_if_multicast-Ended, joins}
use libnetpaxos.Learner.{LearnerCtx, learner_ctx_new}

-- The context with the members that `LearnerCtx` leaves out.
pub record Made : Type 0 where
  pub ctx : LearnerCtx
  pub sock : ℕ
  pub dest : List ℕ

-- `make_learner`. The loop of events is started by the application.
unfoldable pub make_learner : Host → Config → Boot Made
make_learner h conf = do
  let ctx = learner_ctx_new conf
  server_socket ← create_server_socket h conf.learner_port
  join_if_multicast h conf.learner_addr server_socket
  mine ← name_or_exit h server_socket
  server ← find_or_exit h conf.acceptor_addr
  acceptor ← lift (peer_addr server conf.acceptor_port)
  call (watch_signal sigint)
  call (watch server_socket)
  call watch_timer
  call (watch_signal sigterm)
  pure (record { ctx = record ctx { mine = mine }; sock = server_socket; dest = acceptor })

-- What `make_learner` has done where it returns.
pub record IsMade (h : Host) (conf : Config) (m : Made) (calls : List Call) : Type 0 where
  pub acceptor : List ℕ
  pub known : h.gethostbyname conf.acceptor_addr ≡ some acceptor
  pub to_acceptor : m.dest ≡ peer_image acceptor conf.acceptor_port
  pub named : h.getsockname m.sock ≡ some m.ctx.mine
  pub fresh : record m.ctx { mine = (learner_ctx_new conf).mine } ≡ learner_ctx_new conf
  pub opened : h.socket datagram ≡ some m.sock
  pub made :
      calls
      ≡ open_socket datagram ∷ setup_calls conf.learner_port m.sock
        ++ (joins h conf.learner_addr m.sock
            ++ (socket_name m.sock
                ∷ find_name conf.acceptor_addr
                ∷ watch_signal sigint
                ∷ watch m.sock
                ∷ watch_timer
                ∷ watch_signal sigterm
                ∷ []))

-- On a system as documented, the making of a learner exits at the first call that fails, of which
-- the search for the acceptor's name is one, or all its calls work and it returns a learner with a new context that knows its own address
-- and that of the acceptor, on the socket that it bound to its own port, after joining its group
-- if its address is a multicast address. It does nothing undefined.
pub make_learner-Ended :
    (h : Host) (conf : Config) → IsHost h → Ended h (IsMade h conf) (make_learner h conf)
unfolding make_learner
make_learner-Ended h conf ok =
    Ended-bind _ (create_server_socket-Ended h conf.learner_port) λ fd calls (is, e).
      Ended-bind _ (join_if_multicast-Ended h conf.learner_addr fd) λ _ more e'.
        Ended-bind _ (name-Ended h fd) λ mine none_made (name, e2).
          Ended-bind _ (search-Ended h conf.acceptor_addr) λ acceptor none_made' (known, e3).
            rw (peer_addr_lem acceptor conf.acceptor_port (ok.found_size _ acceptor known)) (
              done _ _ (tt, (tt, (tt, (tt, tt))))
                (record {
                  opened = is;
                  acceptor = acceptor;
                  known = known;
                  to_acceptor = refl;
                  named = name;
                  fresh = refl;
                  made = rw (e, e', e2, e3) refl;
                }))
