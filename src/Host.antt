-- ===== src/Host.antt =====
-- The calls of the operating system and of libevent that the processes make when they start, as
-- parameters, and code that makes such calls, with the list of those made.
pub mod Ended
use libnetpaxos.Prelude.{ℕ, ◌≡◌, Bool, true, false, Option, some, none, List, [], ◌∷◌, ◌++◌}
use libnetpaxos.Prelude.{Outcome, returned, exited, fault}

pub data Kind : Type 0 where
  datagram raw stream : Kind

-- The options that the code sets; `membership` has the bytes of a `struct ip_mreq`.
pub data SockOption : Type 0 where
  reuse_addr reuse_port rcv_buf : SockOption
  membership : List ℕ → SockOption

pub data Signal : Type 0 where
  sigint sigterm : Signal

-- What the calls answer. `none` and `false` stand for an error. An address is the image of a
-- `struct sockaddr_in`, the answer of `gethostbyname` the bytes of `h_addr`.
pub record Host : Type 0 where
  pub socket : Kind → Option ℕ
  pub bind : ℕ → List ℕ → Bool
  pub setsockopt : ℕ → SockOption → Bool
  pub inet_addr : List ℕ → ℕ
  pub gethostbyname : List ℕ → Option (List ℕ)
  pub getsockname : ℕ → Option (List ℕ)
  pub interface_addr : ℕ → List ℕ → List ℕ

-- A call of the system.
pub data Call : Type 0 where
  open_socket : Kind → Call
  bind_socket : ℕ → List ℕ → Call
  set_option : ℕ → SockOption → Call
  socket_name : ℕ → Call
  find_name : List ℕ → Call
  watch : ℕ → Call
  watch_timer : Call
  watch_signal : Signal → Call
  dispatch : Call

-- The calls that can fail, and have not.
abbrev pub Worked : Host → Call → Type 0
Worked h (open_socket kind) = (fd : ℕ) × (h.socket kind ≡ some fd)
Worked h (bind_socket fd addr) = h.bind fd addr ≡ true
Worked h (set_option fd opt) = h.setsockopt fd opt ≡ true
Worked h (socket_name fd) = (name : List ℕ) × (h.getsockname fd ≡ some name)
Worked h (find_name name) = (found : List ℕ) × (h.gethostbyname name ≡ some found)
Worked h (watch fd) = Unit
Worked h watch_timer = Unit
Worked h (watch_signal sig) = Unit
Worked h dispatch = Unit

-- How the code ends, and the calls that it made.
abbrev pub Boot : Type 0 → Type 0
Boot A = Outcome A × List Call

infixl 5 ◌>>=◌ ◌>>◌
abbrev pub ◌>>=◌ : {A B : Type 0} → Boot A → (A → Boot B) → Boot B
(returned a, calls) >>= f = ((f a).0, calls ++ (f a).1)
(exited, calls) >>= f = (exited, calls)
(fault, calls) >>= f = (fault, calls)

abbrev pub ◌>>◌ : {B : Type 0} → Boot (Unit {0}) → Boot B → Boot B
m >> k = m >>= λ _. k

abbrev pub pure : {A : Type 0} → A → Boot A
pure a = (returned a, [])

abbrev pub lift : {A : Type 0} → Outcome A → Boot A
lift o = (o, [])

abbrev pub call : Call → Boot (Unit {0})
call c = (returned tt, c ∷ [])

-- `if (… < 0) exit(EXIT_FAILURE);`
abbrev pub or_exit : {A : Type 0} → Option A → Boot A
or_exit none = (exited, [])
or_exit (some a) = pure a

abbrev pub check : Bool → Boot (Unit {0})
check true = pure tt
check false = (exited, [])
