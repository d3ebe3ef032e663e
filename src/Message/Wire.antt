-- ===== src/Message/Wire.antt =====
-- The byte order of a message: `pack` and `unpack`.
use libnetpaxos.Prelude.{ℕ, ◌^◌, ◌<◌, ◌≡◌, arith, ap, length}
use libnetpaxos.Message.{Message, swap16, swap32, pack, unpack, paxos_value_size, sockaddr_size}

-- The values that the members of a `Message` can hold.
pub record IsMessage (m : Message) : Type 0 where
  pub inst_fits : m.inst < 2 ^ 32
  pub rnd_fits : m.rnd < 2 ^ 16
  pub vrnd_fits : m.vrnd < 2 ^ 16
  pub acptid_fits : m.acptid < 2 ^ 16
  pub msgtype_fits : m.msgtype < 2 ^ 16
  pub value_size : length m.paxosval ≡ paxos_value_size
  pub client_size : length m.client ≡ sockaddr_size

pub swap16-lt : (x : ℕ) → swap16 x < 2 ^ 16
unfolding swap16
swap16-lt x = omega arith

pub swap32-lt : (x : ℕ) → swap32 x < 2 ^ 32
unfolding swap32
swap32-lt x = omega arith

pub swap16-swap16 : (x : ℕ) → x < 2 ^ 16 → swap16 (swap16 x) ≡ x
unfolding swap16
swap16-swap16 x h = omega arith

pub swap32-swap32 : (x : ℕ) → x < 2 ^ 32 → swap32 (swap32 x) ≡ x
unfolding swap32
swap32-swap32 x h = omega arith

pub swap32_inj : (x y : ℕ) → x < 2 ^ 32 → y < 2 ^ 32 → swap32 x ≡ swap32 y → x ≡ y
swap32_inj x y hx hy e = omega (arith, swap32-swap32 x hx, swap32-swap32 y hy, ap swap32 e)

-- Packing keeps a message well formed.
pub pack-IsMessage : {m : Message} → IsMessage m → IsMessage (pack m)
unfolding pack
pack-IsMessage {m} v = record {
  inst_fits = swap32-lt _;
  rnd_fits = swap16-lt _;
  vrnd_fits = swap16-lt _;
  acptid_fits = swap16-lt _;
  msgtype_fits = swap16-lt _;
  value_size = v.value_size;
  client_size = v.client_size;
}

-- Unpacking undoes packing on every message that the struct can hold.
pub unpack-pack : {m : Message} → IsMessage m → unpack (pack m) ≡ m
unfolding unpack pack
unpack-pack {m} v = λ i. record m {
  inst = swap32-swap32 m.inst v.inst_fits i;
  rnd = swap16-swap16 m.rnd v.rnd_fits i;
  vrnd = swap16-swap16 m.vrnd v.vrnd_fits i;
  acptid = swap16-swap16 m.acptid v.acptid_fits i;
  msgtype = swap16-swap16 m.msgtype v.msgtype_fits i;
}
