-- ===== src/Datagram.antt =====
-- The raw datagram that proposer and coordinator send: 200 bytes with an IP header, a UDP header
-- and a message (lib/src/proposer.c and lib/src/coordinator.c, `init_rawsock` and what follows it).
pub mod Fields
pub mod Sending
pub mod Fresh
mod Tests
use libnetpaxos.Prelude.{ℕ, zero, suc, ◌+◌, ◌-◌, ◌*◌, ◌/◌, ◌%◌, ◌^◌, List, [], ◌∷◌, ◌++◌, replicate}
use libnetpaxos.Prelude.{length, take, drop, leb, if◌then◌else◌, Outcome, returned, fault, ◌>>=◌}
use libnetpaxos.Message.{swap16, swap32}
use libnetpaxos.Message.Bytes.{le16}
use libnetpaxos.Utils.{csum}

abbrev pub bufsize : ℕ
bufsize = 200

-- `sizeof(struct iphdr)` and `sizeof(struct udphdr)`; both headers together.
abbrev pub header_size : ℕ
header_size = 28

-- `memcpy(buf + off, src, length of src)`, undefined outside the buffer.
unfoldable pub store : List ℕ → ℕ → List ℕ → Outcome (List ℕ)
store buf off src =
    if leb (off + length src) (length buf)
    then returned (take off buf ++ (src ++ drop (off + length src) buf))
    else fault

-- A byte and a uint16_t of the buffer, as the host reads them; 0 stands for what lies outside.
abbrev pub byte : List ℕ → ℕ → ℕ
byte [] k = 0
byte (b ∷ bs) zero = b
byte (b ∷ bs) (suc k) = byte bs k

abbrev pub load16 : List ℕ → ℕ → ℕ
load16 buf off = byte buf off + byte buf (suc off) * 256

-- `iph->saddr = a->sin_addr.s_addr` and `udph->source = a->sin_port` of a `struct sockaddr_in`.
abbrev pub sin_addr : List ℕ → List ℕ
sin_addr a = take 4 (drop 4 a)

abbrev pub sin_port : List ℕ → List ℕ
sin_port a = take 2 (drop 2 a)

-- `init_rawsock` and `init_coord_rawsock`, which are the same code. `id` is a uint16_t that is
-- assigned a `htonl`.
unfoldable pub init_rawsock : List ℕ → List ℕ → Outcome (List ℕ)
unfolding store
init_rawsock mine dest = do
  b ← store (replicate bufsize 0) 0 (0x45 ∷ [])
  b ← store b 1 (0 ∷ [])
  b ← store b 4 (le16 (swap32 54321 % 2 ^ 16))
  b ← store b 6 (le16 0)
  b ← store b 8 (255 ∷ [])
  b ← store b 9 (17 ∷ [])
  b ← store b 10 (le16 0)
  b ← store b 12 (sin_addr mine)
  b ← store b 16 (sin_addr dest)
  b ← store b 20 (sin_port mine)
  b ← store b 22 (sin_port dest)
  store b 26 (le16 0)

-- `csum((unsigned short *) datagram, iph->tot_len)`.
unfoldable pub header_csum : List ℕ → Outcome ℕ
header_csum b = if leb (load16 b 2) (length b) then returned (csum (take (load16 b 2) b)) else fault

-- `paxos_send` of the proposer and `send_message` of the coordinator, which are the same code: the
-- buffer afterwards, and the bytes that `sendto` is given. The checksum is taken before `tot_len`
-- is set. An error of `sendto` is only printed.
unfoldable pub send_datagram : List ℕ → List ℕ → Outcome (List ℕ × List ℕ)
unfolding header_csum
send_datagram datagram msg = do
  b ← store datagram header_size msg
  check ← header_csum b
  b ← store b 10 (le16 check)
  b ← store b 2 (le16 ((header_size + length msg) % 2 ^ 16))
  b ← store b 24 (le16 (swap16 ((8 + length msg) % 2 ^ 16)))
  b ← store b 26 (le16 0)
  returned (b, take (load16 b 2) b)

-- `recvfrom` into a buffer: the bytes that fit, and what was there behind them.
unfoldable pub receive_into : List ℕ → List ℕ → List ℕ
receive_into buf bytes = take (length buf) bytes ++ drop (length (take (length buf) bytes)) buf
