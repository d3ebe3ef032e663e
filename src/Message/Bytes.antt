-- ===== src/Message/Bytes.antt =====
-- The image of a message in memory, on a little-endian host: 60 bytes.
use libnetpaxos.Prelude.{ℕ, ◌+◌, ◌*◌, ◌/◌, ◌%◌, ◌^◌, ◌≡◌, arith, ap, ◌∙◌, sym}
use libnetpaxos.Prelude.{List, [], ◌∷◌, ◌++◌, Option, some, none, length, take, drop, length-append}
use libnetpaxos.Prelude.{take-append, drop-append}
use libnetpaxos.Message.{Message, paxos_value_size}
use libnetpaxos.Message.Wire.{IsMessage}

-- The bytes of a uint16_t and a uint32_t.
abbrev pub le16 : ℕ → List ℕ
le16 x = x % 256 ∷ x / 256 % 256 ∷ []

abbrev pub le32 : ℕ → List ℕ
le32 x = x % 256 ∷ x / 2 ^ 8 % 256 ∷ x / 2 ^ 16 % 256 ∷ x / 2 ^ 24 % 256 ∷ []

unfoldable pub to_bytes : Message → List ℕ
to_bytes m =
    le32 m.inst
    ++ (le16 m.rnd
        ++ (le16 m.vrnd ++ (le16 m.acptid ++ (le16 m.msgtype ++ (m.paxosval ++ m.client)))))

-- The message that a buffer of bytes holds, `none` if it is too short for the header.
unfoldable pub from_bytes : List ℕ → Option Message
from_bytes (i0 ∷ i1 ∷ i2 ∷ i3 ∷ r0 ∷ r1 ∷ v0 ∷ v1 ∷ a0 ∷ a1 ∷ t0 ∷ t1 ∷ rest) = some (record {
  inst = i0 + i1 * 2 ^ 8 + i2 * 2 ^ 16 + i3 * 2 ^ 24;
  rnd = r0 + r1 * 256;
  vrnd = v0 + v1 * 256;
  acptid = a0 + a1 * 256;
  msgtype = t0 + t1 * 256;
  paxosval = take paxos_value_size rest;
  client = drop paxos_value_size rest;
})
from_bytes _ = none

-- Reading back the bytes of a message gives the message.
pub from_bytes-to_bytes : {m : Message} → IsMessage m → from_bytes (to_bytes m) ≡ some m
unfolding from_bytes to_bytes
from_bytes-to_bytes {m} v = λ i. some (record {
  inst = inst i;
  rnd = rnd i;
  vrnd = vrnd i;
  acptid = acptid i;
  msgtype = msgtype i;
  paxosval = value i;
  client = client i;
})
  where
    inst :
        m.inst % 256
          + m.inst / 2 ^ 8 % 256 * 2 ^ 8
          + m.inst / 2 ^ 16 % 256 * 2 ^ 16
          + m.inst / 2 ^ 24 % 256 * 2 ^ 24
        ≡ m.inst
    inst = omega (arith, v.inst_fits)

    rnd : m.rnd % 256 + m.rnd / 256 % 256 * 256 ≡ m.rnd
    rnd = omega (arith, v.rnd_fits)

    vrnd : m.vrnd % 256 + m.vrnd / 256 % 256 * 256 ≡ m.vrnd
    vrnd = omega (arith, v.vrnd_fits)

    acptid : m.acptid % 256 + m.acptid / 256 % 256 * 256 ≡ m.acptid
    acptid = omega (arith, v.acptid_fits)

    msgtype : m.msgtype % 256 + m.msgtype / 256 % 256 * 256 ≡ m.msgtype
    msgtype = omega (arith, v.msgtype_fits)

    value : take 32 (m.paxosval ++ m.client) ≡ m.paxosval
    value =
        ap (λ n. take n (m.paxosval ++ m.client)) (sym v.value_size)
        ∙ take-append m.paxosval m.client

    client : drop 32 (m.paxosval ++ m.client) ≡ m.client
    client =
        ap (λ n. drop n (m.paxosval ++ m.client)) (sym v.value_size)
        ∙ drop-append m.paxosval m.client

pub length-to_bytes : {m : Message} → IsMessage m → length (to_bytes m) ≡ 60
unfolding to_bytes
length-to_bytes {m} v =
    omega (arith, length-append {0} m.paxosval m.client, v.value_size, v.client_size)
