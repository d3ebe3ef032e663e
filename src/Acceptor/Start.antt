-- ===== src/Acceptor/Start.antt =====
-- lib/src/acceptor.c: `start_acceptor`.
use libnetpaxos.Prelude.{
  ℕ, ◌≡◌, refl, Option, some, none, List, [], ◌∷◌, ◌++◌, Option-cases, inl, inr,
}
use libnetpaxos.Config.{Config}
use libnetpaxos.Host.{
  Host, Call, Boot, ◌>>=◌, ◌>>◌, pure, lift, call, watch, watch_signal, dispatch, sigint, sigterm,
  open_socket, datagram,
}
use libnetpaxos.Host.Ended.{Ended, done, Ended-bind}
use libnetpaxos.Sockets.{create_server_socket, join_if_multicast, peer_addr}
use libnetpaxos.Sockets.Opening.{setup_calls, create_server_socket-Ended}
use libnetpaxos.Sockets.Peer.{IsHost, peer_image, peer_addr_lem, join_if_multicast-Ended, joins}
use libnetpaxos.Acceptor.{AcceptorCtx, acceptor_ctx_new}

-- The context with the members that `AcceptorCtx` leaves out.
pub record Started : Type 0 where
  pub ctx : AcceptorCtx
  pub sock : ℕ
  pub learner_addr : List ℕ

-- `start_acceptor`, up to and with the loop of events; `none` is EXIT_FAILURE.
unfoldable pub start_acceptor : Host → Config → ℕ → Boot (Option Started)
start_acceptor h conf acceptor_id = do
  let ctx = acceptor_ctx_new conf acceptor_id
  server_socket ← create_server_socket h conf.acceptor_port
  join_if_multicast h conf.acceptor_addr server_socket
  elim (h.gethostbyname conf.learner_addr) [
    | none ↦ pure none
    | some learner ↦ do
      learner_addr ← lift (peer_addr learner conf.learner_port)
      call (watch server_socket)
      call (watch_signal sigterm)
      call (watch_signal sigint)
      call dispatch
      pure (some (record { ctx = ctx; sock = server_socket; learner_addr = learner_addr }))
  ]

-- What a start that serves has done.
pub record IsServing (h : Host) (conf : Config) (id : ℕ) (s : Started) (calls : List Call)
    : Type 0 where
  pub learner : List ℕ
  pub known : h.gethostbyname conf.learner_addr ≡ some learner
  pub fresh : s.ctx ≡ acceptor_ctx_new conf id
  pub to_learner : s.learner_addr ≡ peer_image learner conf.learner_port
  pub opened : h.socket datagram ≡ some s.sock
  pub made :
      calls
      ≡ open_socket datagram ∷ setup_calls conf.acceptor_port s.sock
        ++ (joins h conf.acceptor_addr s.sock
            ++ (watch s.sock ∷ watch_signal sigterm ∷ watch_signal sigint ∷ dispatch ∷ []))

abbrev pub Outcomes : Host → Config → ℕ → Option Started → List Call → Type 0
Outcomes h conf id none calls = h.gethostbyname conf.learner_addr ≡ none
Outcomes h conf id (some s) calls = IsServing h conf id s calls

-- On a system as documented, the start of an acceptor exits at the first call that fails, or all
-- its calls work, and it reports a failure because the learner's name is not known, or serves: with a new context and the address
-- of the learner, on the socket that it bound to its own port, after joining its group if its
-- address is a multicast address. It does nothing undefined.
pub start_acceptor-Ended :
    (h : Host) (conf : Config) (id : ℕ)
    → IsHost h
    → Ended h (Outcomes h conf id) (start_acceptor h conf id)
unfolding start_acceptor
start_acceptor-Ended h conf id ok =
    Ended-bind _ (create_server_socket-Ended h conf.acceptor_port) λ fd calls (is, e).
      Ended-bind _ (join_if_multicast-Ended h conf.acceptor_addr fd) λ _ more e'.
        elim (Option-cases (h.gethostbyname conf.learner_addr)) [
          | inl unknown ↦ rw unknown (done none [] tt unknown)
          | inr (learner, known) ↦
              rw (known, peer_addr_lem learner conf.learner_port (ok.found_size _ learner known))
                (done _ _ (tt, (tt, (tt, (tt, tt))))
                  (record {
                    opened = is;
                    learner = learner;
                    known = known;
                    fresh = refl;
                    to_learner = refl;
                    made = rw (e, e') refl;
                  }))
        ]
