-- ===== src/Sockets.antt =====
-- lib/src/netpaxos_utils.c: the sockets of the processes.
pub mod Opening
pub mod Multicast
pub mod Peer
mod Tests
use libnetpaxos.Prelude.{
  ℕ, ◌+◌, ◌/◌, ◌%◌, ◌^◌, Bool, true, false, ◌&&◌, Option, some, none, List, [], ◌∷◌, ◌++◌,
  replicate,
}
use libnetpaxos.Prelude.{leb, if◌then◌else◌, Outcome, ◌>>=◌ as ◌|>=◌}
use libnetpaxos.Prelude.Int.{ℤ, to_unsigned}
use libnetpaxos.Message.{swap16, swap32}
use libnetpaxos.Message.Bytes.{le16, le32}
use libnetpaxos.Datagram.{store}
use libnetpaxos.Host.{
  Host, datagram, raw, reuse_addr, reuse_port, rcv_buf, membership, open_socket, bind_socket,
  set_option, socket_name, find_name, SockOption, Kind, Boot, ◌>>=◌, ◌>>◌, pure, call, or_exit,
  check,
}

-- `htons(port)` of an `int`.
abbrev pub htons : ℤ → ℕ
htons port = swap16 (to_unsigned port % 2 ^ 16)

-- `AF_INET` as a `sa_family_t`.
abbrev pub family : List ℕ
family = le16 2

-- The address of `create_server_socket`: the port, and `INADDR_ANY`.
abbrev pub any_addr : ℤ → List ℕ
any_addr port = family ++ (le16 (htons port) ++ (le32 0 ++ replicate 8 0))

abbrev pub try_socket : Host → Kind → Boot ℕ
try_socket h kind = do call (open_socket kind); or_exit (h.socket kind)

unfoldable pub create_rawsock : Host → Boot ℕ
create_rawsock h = try_socket h raw

unfoldable pub create_socket : Host → Boot ℕ
create_socket h = try_socket h datagram

-- `setsockopt`, which exits on an error.
abbrev pub set_or_exit : Host → ℕ → SockOption → Boot Unit
set_or_exit h fd opt = do call (set_option fd opt); check (h.setsockopt fd opt)

unfoldable pub set_reuse_addr : Host → ℕ → Boot Unit
set_reuse_addr h fd = set_or_exit h fd reuse_addr

unfoldable pub set_reuse_port : Host → ℕ → Boot Unit
set_reuse_port h fd = set_or_exit h fd reuse_port

unfoldable pub set_rcv_buf : Host → ℕ → Boot Unit
set_rcv_buf h fd = set_or_exit h fd rcv_buf

-- `bind`, `getsockname` and `gethostbyname`, where the process exits on an error.
abbrev pub bind_or_exit : Host → ℕ → List ℕ → Boot Unit
bind_or_exit h fd addr = do call (bind_socket fd addr); check (h.bind fd addr)

abbrev pub name_or_exit : Host → ℕ → Boot (List ℕ)
name_or_exit h fd = do call (socket_name fd); or_exit (h.getsockname fd)

abbrev pub find_or_exit : Host → List ℕ → Boot (List ℕ)
find_or_exit h name = do call (find_name name); or_exit (h.gethostbyname name)

unfoldable pub create_server_socket : Host → ℤ → Boot ℕ
create_server_socket h port = do
  fd ← try_socket h datagram
  bind_or_exit h fd (any_addr port)
  set_reuse_addr h fd
  set_rcv_buf h fd
  set_reuse_port h fd
  pure fd

-- `struct ip_mreq`: the group, and `INADDR_ANY`.
abbrev pub mreq : Host → List ℕ → List ℕ
mreq h group = le32 (h.inet_addr group) ++ le32 0

unfoldable pub add_membership : Host → List ℕ → ℕ → Boot Unit
add_membership h group fd = set_or_exit h fd (membership (mreq h group))

-- `net_ip__is_multicast_ip`: `inet_addr` gives the address in network order, so that its first
-- byte in memory is the low one on a little-endian host.
unfoldable pub is_multicast_ip : Host → List ℕ → Bool
is_multicast_ip h ip = let i = h.inet_addr ip % 256 in leb 224 i && leb i 239

-- What each process does with its own address.
abbrev pub join_if_multicast : Host → List ℕ → ℕ → Boot Unit
join_if_multicast h ip fd = if is_multicast_ip h ip then add_membership h ip fd else pure tt

-- The address of a peer: `bzero`, the family, `bcopy` of what `gethostbyname` found, the port.
unfoldable pub peer_addr : List ℕ → ℤ → Outcome (List ℕ)
peer_addr h_addr port =
    store (replicate 16 0) 0 family |>= λ b. store b 4 h_addr |>= λ b. store b 2 (le16 (htons port))
