-- ===== src/Message/Tests.antt =====
-- Inputs for the message.
use libnetpaxos.Prelude.{◌≡◌, refl, arith, returned, fault, [], ◌∷◌, replicate}
use libnetpaxos.Message.{Message, pack, unpack, swap16, swap32}
use libnetpaxos.Message.Wire.{IsMessage, unpack-pack}
use libnetpaxos.Message.Copy.{strcpy, memcpy}

abbrev sample : Message
sample = record {
  inst = 0x01020304;
  rnd = 5;
  vrnd = 0x0607;
  acptid = 1;
  msgtype = 3;
  paxosval = replicate 32 7;
  client = replicate 16 9;
}

sample-IsMessage : IsMessage sample
sample-IsMessage = record {
  inst_fits = omega arith;
  rnd_fits = omega arith;
  vrnd_fits = omega arith;
  acptid_fits = omega arith;
  msgtype_fits = omega arith;
  value_size = refl;
  client_size = refl;
}

byte_orders : (swap32 0x01020304 ≡ 0x04030201) × (swap16 0x0102 ≡ 0x0201)
unfolding swap32 swap16
byte_orders = (refl, refl)

copies :
    (strcpy (9 ∷ 9 ∷ 9 ∷ []) (1 ∷ 0 ∷ 2 ∷ []) ≡ returned (1 ∷ 0 ∷ 9 ∷ []))
    × (strcpy (9 ∷ []) (1 ∷ 0 ∷ []) ≡ fault)
    × (memcpy (9 ∷ 9 ∷ []) (1 ∷ 0 ∷ 2 ∷ []) 2 ≡ returned (1 ∷ 0 ∷ []))
unfolding strcpy memcpy
copies = (refl, refl, refl)

unpack-pack_example : unpack (pack sample) ≡ sample
unpack-pack_example = unpack-pack sample-IsMessage
