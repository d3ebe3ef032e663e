-- ===== src/Message.antt =====
-- lib/include/message.h and lib/src/message.c: the Paxos message, its byte order, and the C string
-- and memory functions that the code applies to its value field.
pub mod Wire
pub mod Copy
pub mod Bytes
pub mod Request
mod Tests
use libnetpaxos.Prelude.{ℕ, ◌+◌, ◌*◌, ◌/◌, ◌%◌, ◌^◌, List, replicate}

abbrev pub paxos_value_size : ℕ
paxos_value_size = 32

-- `sizeof(struct sockaddr_in)`.
abbrev pub sockaddr_size : ℕ
sockaddr_size = 16

-- `enum paxos_type`. A message carries the number, which may be any uint16_t.
abbrev pub phase1a : ℕ
phase1a = 1

abbrev pub phase1b : ℕ
phase1b = 2

abbrev pub phase2a : ℕ
phase2a = 3

abbrev pub phase2b : ℕ
phase2b = 4

-- `struct Message`. The members lie in this order with no padding between them; `paxosval` and
-- `client` are arrays of bytes, the second the image of a `struct sockaddr_in`.
pub record Message : Type 0 where
  pub inst : ℕ  -- uint32_t
  pub rnd : ℕ  -- uint16_t
  pub vrnd : ℕ  -- uint16_t
  pub acptid : ℕ  -- uint16_t
  pub msgtype : ℕ  -- uint16_t
  pub paxosval : List ℕ
  pub client : List ℕ

-- `htons` and `ntohs` on a little-endian host.
unfoldable pub swap16 : ℕ → ℕ
swap16 x = x % 256 * 256 + x / 256 % 256

-- `htonl` and `ntohl` on a little-endian host.
unfoldable pub swap32 : ℕ → ℕ
swap32 x = x % 256 * 2 ^ 24 + x / 2 ^ 8 % 256 * 2 ^ 16 + x / 2 ^ 16 % 256 * 2 ^ 8 + x / 2 ^ 24 % 256

unfoldable pub pack : Message → Message
pack m = record m {
  inst = swap32 m.inst;
  rnd = swap16 m.rnd;
  vrnd = swap16 m.vrnd;
  acptid = swap16 m.acptid;
  msgtype = swap16 m.msgtype;
}

unfoldable pub unpack : Message → Message
unpack m = record m {
  inst = swap32 m.inst;
  rnd = swap16 m.rnd;
  vrnd = swap16 m.vrnd;
  acptid = swap16 m.acptid;
  msgtype = swap16 m.msgtype;
}

-- The client field is left as it was.
unfoldable pub initialize_message : Message → ℕ → Message
initialize_message m msgtype = record m {
  inst = 0;
  rnd = 0;
  vrnd = 0;
  acptid = 0;
  msgtype = msgtype % 2 ^ 16;
  paxosval = replicate paxos_value_size 0;
}
