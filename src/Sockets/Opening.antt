-- ===== src/Sockets/Opening.antt =====
-- The calls that open a server socket.
use libnetpaxos.Prelude.{ℕ, ◌≡◌, refl, false, true, List, [], ◌∷◌}
use libnetpaxos.Prelude.{Bool, Option, some, none}
use libnetpaxos.Prelude.Int.{ℤ}
use libnetpaxos.Host.{
  Host, Kind, SockOption, Call, Worked, ◌>>◌, call, check, or_exit, datagram, reuse_addr,
  reuse_port, rcv_buf, open_socket, bind_socket, set_option, socket_name, find_name,
}
use libnetpaxos.Host.Ended.{Ended, gave_up, done, Ended-bind}
use libnetpaxos.Sockets.{
  create_server_socket, set_reuse_addr, set_reuse_port, set_rcv_buf, any_addr, try_socket,
  bind_or_exit, set_or_exit, name_or_exit, find_or_exit,
}

-- The calls of a run that succeeds, after the socket is open.
abbrev pub setup_calls : ℤ → ℕ → List Call
setup_calls port fd =
    bind_socket fd (any_addr port)
    ∷ set_option fd reuse_addr
    ∷ set_option fd rcv_buf
    ∷ set_option fd reuse_port
    ∷ []

module _ (h : Host) where
  check-Ended :
      (c : Call) (ok : Bool)
      → (ok ≡ true → Worked h c)
      → (Worked h c → ok ≡ true)
      → Ended h (λ _ calls. calls ≡ c ∷ []) (call c >> check ok)
  check-Ended c true works fails = done tt _ (works refl, tt) refl
  check-Ended c false works fails = gave_up [] c tt (λ w. absurd (cc (fails w))) refl

  find-Ended :
      {A : Type 0} (c : Call) (found : Option A)
      → ((a : A) → found ≡ some a → Worked h c)
      → (Worked h c → (a : A) × (found ≡ some a))
      → Ended h (λ a calls. (found ≡ some a) × (calls ≡ c ∷ [])) (call c >> or_exit found)
  find-Ended c (some a) works fails = done a _ (works a refl, tt) (refl, refl)
  find-Ended c none works fails = gave_up [] c tt (λ w. let (a, e) = fails w in absurd (cc e)) refl

  pub try_socket-Ended :
      (kind : Kind)
      → Ended h
          (λ fd calls. (h.socket kind ≡ some fd) × (calls ≡ open_socket kind ∷ []))
          (try_socket h kind)
  try_socket-Ended kind = find-Ended (open_socket kind) (h.socket kind) (λ fd e. (fd, e)) (λ w. w)

  bind-Ended :
      (fd : ℕ) (addr : List ℕ)
      → Ended h (λ _ calls. calls ≡ bind_socket fd addr ∷ []) (bind_or_exit h fd addr)
  bind-Ended fd addr = check-Ended (bind_socket fd addr) (h.bind fd addr) (λ e. e) (λ w. w)

  pub set-Ended :
      (fd : ℕ) (opt : SockOption)
      → Ended h (λ _ calls. calls ≡ set_option fd opt ∷ []) (set_or_exit h fd opt)
  set-Ended fd opt = check-Ended (set_option fd opt) (h.setsockopt fd opt) (λ e. e) (λ w. w)

  pub name-Ended :
      (fd : ℕ)
      → Ended h
          (λ name calls. (h.getsockname fd ≡ some name) × (calls ≡ socket_name fd ∷ []))
          (name_or_exit h fd)
  name-Ended fd = find-Ended (socket_name fd) (h.getsockname fd) (λ name e. (name, e)) (λ w. w)

  pub search-Ended :
      (name : List ℕ)
      → Ended h
          (λ found calls. (h.gethostbyname name ≡ some found) × (calls ≡ find_name name ∷ []))
          (find_or_exit h name)
  search-Ended name =
      find-Ended (find_name name) (h.gethostbyname name) (λ found e. (found, e)) (λ w. w)

  -- A server socket is opened, bound, and only then given its options, and all these calls have worked, or
  -- the process exits on the first call that fails.
  pub create_server_socket-Ended :
      (port : ℤ)
      → Ended h
          (λ fd calls.
            (h.socket datagram ≡ some fd) × (calls ≡ open_socket datagram ∷ setup_calls port fd))
          (create_server_socket h port)
  unfolding create_server_socket set_reuse_addr set_reuse_port set_rcv_buf
  create_server_socket-Ended port = Ended-bind _ (try_socket-Ended datagram) λ fd c1 (is, e1).
      Ended-bind _ (bind-Ended fd (any_addr port)) λ _ c2 e2.
        Ended-bind _ (set-Ended fd reuse_addr) λ _ c3 e3.
          Ended-bind _ (set-Ended fd rcv_buf) λ _ c4 e4.
            Ended-bind _ (set-Ended fd reuse_port)
              λ _ c5 e5. done fd [] tt (is, rw (e1, e2, e3, e4, e5) refl)
