-- ===== src/Proposer/Start.antt =====
-- lib/src/proposer.c: `init_proposer` and `make_proposer`.
use libnetpaxos.Prelude.{
  ℕ, ◌≡◌, ◌⊎◌, refl, false, Option, some, none, List, [], ◌∷◌, ◌++◌, Option-cases, inl, inr, ◌∙◌,
  length, drop, length-take, length-drop, arith, returned, exited, if◌then◌else◌,
}
use libnetpaxos.Prelude.Int.{ℤ, pos}
use libnetpaxos.Config.{Config}
use libnetpaxos.Config.Parse.{parse_conf}
use libnetpaxos.Utils.Time.{less}
use libnetpaxos.Datagram.{init_rawsock, sin_addr, store}
use libnetpaxos.Datagram.Fields.{IsReady, stored, store_lem, length-stored}
use libnetpaxos.Datagram.Fresh.{init_rawsock-IsReady}
use libnetpaxos.Host.{
  Host, Call, Boot, ◌>>=◌, ◌>>◌, pure, lift, call, watch, watch_signal, sigint, sigterm,
  open_socket, datagram, raw,
}
use libnetpaxos.Host.Ended.{Ended, done, Ended-bind}
use libnetpaxos.Sockets.{create_server_socket, create_rawsock, peer_addr}
use libnetpaxos.Sockets.Opening.{setup_calls, create_server_socket-Ended}
use libnetpaxos.Sockets.Peer.{
  IsHost, peer_image, peer_addr_lem, length-peer_image, create_rawsock-Ended,
}
use libnetpaxos.Proposer.{ProposerState}

-- A proposer with the members that `ProposerState` leaves out; `state` is `none` while the datagram
-- and the addresses are not set.
pub record Made : Type 0 where
  pub conf : Config
  pub rawsock : ℕ
  pub sock : ℕ
  pub state : Option ProposerState

-- EXIT_FAILURE.
abbrev pub exit_failure : ℤ
exit_failure = pos 1

-- The end of `init_proposer`, where the coordinator's and the own address are known. The port
-- stays that of the socket, the address becomes that of the interface.
unfoldable pub set_addresses : Host → Config → List ℕ → ℕ → ℕ → List ℕ → List ℕ → Boot ProposerState
set_addresses h conf interface outstanding sock server name = do
  mine ← lift (store name 4 (sin_addr (h.interface_addr sock interface)))
  dest ← lift (peer_addr server conf.coordinator_port)
  b ← lift (init_rawsock mine dest)
  pure (record { datagram = b; mine = mine; outstanding = outstanding })

-- `init_proposer`: the result, and the proposer as far as it is set up.
unfoldable pub init_proposer : Host → Config → List ℕ → ℕ → Boot (ℤ × Made)
init_proposer h conf interface outstanding = do
  rawsock ← create_rawsock h
  sock ← create_server_socket h (pos 0)
  let made : Made = record { conf = conf; rawsock = rawsock; sock = sock; state = none }
  elim (h.gethostbyname conf.coordinator_addr) [
    | none ↦ pure (exit_failure, made)
    | some server ↦ elim (h.getsockname sock) [
      | none ↦ pure (exit_failure, made)
      | some name ↦ set_addresses h conf interface outstanding sock server name >>= λ state.
          pure (pos 0, record made { state = some state })
    ]
  ]

-- `make_proposer` on the lines of the configuration file.
unfoldable pub make_proposer : Host → Option (List (List ℕ)) → List ℕ → ℕ → Boot Made
make_proposer h config_file interface outstanding = do
  conf ← lift (parse_conf config_file)
  (res, made) ← init_proposer h conf interface outstanding
  if less res (pos 0) then (exited, []) else do
    call (watch made.sock)
    call (watch_signal sigint)
    call (watch_signal sigterm)
    pure made

-- Why a proposer is not set up, or what it is set up with.
abbrev pub IsSetUp : Host → Config → ℕ → ℕ → Option ProposerState → Type 0
IsSetUp h conf outstanding sock none =
    (h.gethostbyname conf.coordinator_addr ≡ none) ⊎ (h.getsockname sock ≡ none)
IsSetUp h conf outstanding sock (some state) =
    IsReady state.datagram × (length state.mine ≡ 16) × (state.outstanding ≡ outstanding)

-- What `make_proposer` has done where it returns.
pub record IsMade (h : Host) (conf : Config) (outstanding : ℕ) (m : Made) (calls : List Call)
    : Type 0 where
  pub set_up : IsSetUp h conf outstanding m.sock m.state
  pub opened : (h.socket raw ≡ some m.rawsock) × (h.socket datagram ≡ some m.sock)
  pub made :
      calls
      ≡ open_socket raw ∷ open_socket datagram ∷ setup_calls (pos 0) m.sock
        ++ (watch m.sock ∷ watch_signal sigint ∷ watch_signal sigterm ∷ [])

module _ (h : Host) (conf : Config) (interface : List ℕ) (outstanding : ℕ) (ok : IsHost h) where
  set_addresses-Ended :
      (sock : ℕ) (server name : List ℕ)
      → length server ≡ 4
      → length name ≡ 16
      → Ended h
          (λ state calls. IsSetUp h conf outstanding sock (some state) × (calls ≡ []))
          (set_addresses h conf interface outstanding sock server name)
  unfolding set_addresses
  set_addresses-Ended sock server name four sixteen =
      let own : List ℕ = sin_addr (h.interface_addr sock interface) in
      let own_size : length own ≡ 4 = omega (
        arith,
        length-take {0} 4 (drop 4 (h.interface_addr sock interface)),
        length-drop {0} 4 (h.interface_addr sock interface),
        ok.interface_size sock interface,
      ) in
      let mine : List ℕ = stored name 4 own in
      let dest : List ℕ = peer_image server conf.coordinator_port in
      let mine_size : length mine ≡ 16 =
        length-stored name 4 own (omega (arith, own_size, sixteen)) ∙ sixteen in
      let (b, e, ready) =
        init_rawsock-IsReady mine dest mine_size
          (length-peer_image server conf.coordinator_port four) in
      rw
        (
          store_lem name 4 own (omega (arith, own_size, sixteen)),
          peer_addr_lem server conf.coordinator_port four,
          e,
        )
        (done _ [] tt ((ready, mine_size, refl), refl))

  abbrev opening : ℕ → List Call
  opening sock = open_socket raw ∷ open_socket datagram ∷ setup_calls (pos 0) sock

  -- What `init_proposer` has done, with its result.
  abbrev IsInit : ℤ × Made → List Call → Type 0
  IsInit (res, m) calls =
      ((res ≡ pos 0) ⊎ (res ≡ exit_failure))
      × IsSetUp h conf outstanding m.sock m.state
      × ((h.socket raw ≡ some m.rawsock) × (h.socket datagram ≡ some m.sock))
      × (calls ≡ opening m.sock)

  init_proposer-Ended : Ended h IsInit (init_proposer h conf interface outstanding)
  unfolding init_proposer
  init_proposer-Ended = Ended-bind _ (create_rawsock-Ended h) λ rawsock calls (is_raw, e).
      Ended-bind _ (create_server_socket-Ended h (pos 0)) λ sock more (is, e').
        elim (Option-cases (h.gethostbyname conf.coordinator_addr)) [
          | inl unknown ↦
              rw unknown (done _ [] tt (inr refl, inl unknown, (is_raw, is), rw (e, e') refl))
          | inr (server, known) ↦ elim (Option-cases (h.getsockname sock)) [
            | inl unnamed ↦
                rw (known, unnamed)
                  (done _ [] tt (inr refl, inr unnamed, (is_raw, is), rw (e, e') refl))
            | inr (name, named) ↦
                rw (known, named)
                  (Ended-bind _
                    (set_addresses-Ended sock server name (ok.found_size _ server known)
                      (ok.name_size sock name named))
                    λ state none_made (ready, e'').
                      done _ [] tt (inl refl, ready, (is_raw, is), rw (e, e', e'') refl))
          ]
        ]

zero_less : less (pos 0) (pos 0) ≡ false
unfolding less
zero_less = refl

one_less : less exit_failure (pos 0) ≡ false
unfolding less
one_less = refl

-- On a system as documented, with a configuration that is read, the making of a proposer exits at
-- the first call that fails, or all its calls work and it returns. What it returns has a datagram that is ready to be sent and an
-- own address of the size of one, unless the coordinator's name or the name of the socket was not
-- found: the failure that `init_proposer` reports then is not noticed, and the proposer is
-- returned without them.
pub make_proposer-Ended :
    (h : Host) (config_file : Option (List (List ℕ))) (interface : List ℕ) (outstanding : ℕ)
    {conf : Config}
    → IsHost h
    → parse_conf config_file ≡ returned conf
    → Ended h (IsMade h conf outstanding) (make_proposer h config_file interface outstanding)
unfolding make_proposer
make_proposer-Ended h config_file interface outstanding {conf} ok parsed = rw parsed (
    Ended-bind _ (init_proposer-Ended h conf interface outstanding ok)
      λ (res, m) calls (ended, set_up, opened, e). goes res m calls ended set_up opened e)
  where
    goes :
        (res : ℤ) (m : Made) (calls : List Call)
        → (res ≡ pos 0) ⊎ (res ≡ exit_failure)
        → IsSetUp h conf outstanding m.sock m.state
        → (h.socket raw ≡ some m.rawsock) × (h.socket datagram ≡ some m.sock)
        → calls ≡ open_socket raw ∷ open_socket datagram ∷ setup_calls (pos 0) m.sock
        → Ended h
            (λ m' more. IsMade h conf outstanding m' (calls ++ more))
            (if less res (pos 0)
              then (exited, [])
              else call (watch m.sock)
                >> call (watch_signal sigint)
                >> call (watch_signal sigterm)
                >> pure m)
    goes res m calls ended set_up opened e =
        let not_below : less res (pos 0) ≡ false = elim ended [
          | inl z ↦ rw z zero_less
          | inr z ↦ rw z one_less
        ] in
        rw not_below (
          done m _ (tt, (tt, (tt, tt)))
            (record { set_up = set_up; opened = opened; made = rw e refl }))
