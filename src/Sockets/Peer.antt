-- ===== src/Sockets/Peer.antt =====
-- The addresses of peers, and what is relied on of the operating system.
use libnetpaxos.Prelude.{
  ℕ, ◌≡◌, refl, arith, Bool-cases, if◌then◌else◌, inl, inr, List, [], ◌∷◌, ◌++◌, length, replicate,
  returned, some, length-append,
}
use libnetpaxos.Prelude.Int.{ℤ}
use libnetpaxos.Message.Bytes.{le16}
use libnetpaxos.Datagram.{store}
use libnetpaxos.Host.{Host, raw, Call, set_option, membership, open_socket}
use libnetpaxos.Host.Ended.{Ended, done}
use libnetpaxos.Sockets.{
  peer_addr, family, htons, join_if_multicast, is_multicast_ip, add_membership, mreq,
  create_rawsock,
}
use libnetpaxos.Sockets.Opening.{set-Ended, try_socket-Ended}

-- What the documentation of the system calls says: an address of the family AF_INET has 4 bytes,
-- a socket name and the address of an interface are a `struct sockaddr_in` of 16.
pub record IsHost (h : Host) : Type 0 where
  pub found_size :
      (name : List ℕ) (found : List ℕ) → h.gethostbyname name ≡ some found → length found ≡ 4
  pub name_size : (fd : ℕ) (name : List ℕ) → h.getsockname fd ≡ some name → length name ≡ 16
  pub interface_size : (fd : ℕ) (name : List ℕ) → length (h.interface_addr fd name) ≡ 16

-- Family, port, address and 8 zero bytes.
abbrev pub peer_image : List ℕ → ℤ → List ℕ
peer_image found port = family ++ (le16 (htons port) ++ (found ++ replicate 8 0))

pub peer_addr_lem :
    (found : List ℕ) (port : ℤ)
    → length found ≡ 4
    → peer_addr found port ≡ returned (peer_image found port)
unfolding peer_addr store
peer_addr_lem [] port h = absurd (omega arith)
peer_addr_lem (a ∷ []) port h = absurd (omega arith)
peer_addr_lem (a ∷ b ∷ []) port h = absurd (omega arith)
peer_addr_lem (a ∷ b ∷ c ∷ []) port h = absurd (omega arith)
peer_addr_lem (a ∷ b ∷ c ∷ d ∷ []) port h = refl
peer_addr_lem (a ∷ b ∷ c ∷ d ∷ e ∷ l) port h = absurd (omega arith)

pub length-peer_image :
    (found : List ℕ) (port : ℤ) → length found ≡ 4 → length (peer_image found port) ≡ 16
length-peer_image found port h = omega (arith, h, length-append {0} found (replicate 8 0))

-- The call that joins the group of a multicast address.
abbrev pub joins : Host → List ℕ → ℕ → List Call
joins h ip fd = if is_multicast_ip h ip then set_option fd (membership (mreq h ip)) ∷ [] else []

pub join_if_multicast-Ended :
    (h : Host) (ip : List ℕ) (fd : ℕ)
    → Ended h (λ _ calls. calls ≡ joins h ip fd) (join_if_multicast h ip fd)
unfolding add_membership
join_if_multicast-Ended h ip fd = elim (Bool-cases (is_multicast_ip h ip)) [
  | inr no_group ↦ rw no_group (done tt [] tt refl)
  | inl group ↦ rw group (set-Ended h fd (membership (mreq h ip)))
]

pub create_rawsock-Ended :
    (h : Host)
    → Ended h
        (λ fd calls. (h.socket raw ≡ some fd) × (calls ≡ open_socket raw ∷ []))
        (create_rawsock h)
unfolding create_rawsock
create_rawsock-Ended h = try_socket-Ended h raw
