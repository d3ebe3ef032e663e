-- ===== src/Message/Request.antt =====
-- The message for a value, as `submit` (lib/src/proposer.c) and `recover` (lib/src/learner.c) make
-- it: the value is copied to the value field and past it, and the client is assigned afterwards.
use libnetpaxos.Prelude.{
  ℕ, zero, suc, ◌≤◌, ◌≡◌, refl, arith, ap, ◌∙◌, List, [], ◌∷◌, ◌++◌, returned, Outcome, ◌>>=◌,
}
use libnetpaxos.Prelude.{length, take, length-take, take-take, replicate}
use libnetpaxos.Message.{Message, paxos_value_size, phase2a, pack, initialize_message}
use libnetpaxos.Message.Wire.{IsMessage, pack-IsMessage}
use libnetpaxos.Datagram.{store}
use libnetpaxos.Datagram.Fields.{stored, store_lem, length-stored}

-- The message for a value of 32 bytes, in network order.
abbrev pub request : List ℕ → List ℕ → Message
request value client = pack (record {
  inst = 0;
  rnd = 0;
  vrnd = 0;
  acptid = 0;
  msgtype = phase2a;
  paxosval = value;
  client = client;
})

-- From `initialize_message` to `pack`; `m` is what the local message holds before.
unfoldable pub fill : Message → List ℕ → List ℕ → Outcome Message
fill m value client = do
  let m' = initialize_message m phase2a
  block ← store (m'.paxosval ++ m'.client) 0 value
  block ← store block (length value) (0 ∷ [])
  let m'' = record m' { paxosval = take paxos_value_size block; client = client }
  returned (pack m'')

pub take-append_short : (n : ℕ) (xs ys : List ℕ) → n ≤ length xs → take n (xs ++ ys) ≡ take n xs
take-append_short zero xs ys h = refl
take-append_short (suc n) [] ys h = absurd (omega arith)
take-append_short (suc n) (x ∷ xs) ys h = ap (λ l. x ∷ l) (take-append_short n xs ys (omega arith))

-- The first bytes of a store behind them, and of one at the beginning.
pub take-stored :
    (n off : ℕ) (buf src : List ℕ)
    → n ≤ off
    → off ≤ length buf
    → take n (stored buf off src) ≡ take n buf
take-stored n off buf src h l =
    take-append_short n (take off buf) _ (omega (arith, length-take {0} off buf))
    ∙ take-take n off buf h

module _ (m : Message) (req mine : List ℕ) (client : length m.client ≡ 16) (long : 32 ≤ length req)
    (short : length req ≤ 47) where
  abbrev room : List ℕ
  room = replicate 32 0 ++ m.client

  abbrev block : List ℕ
  block = stored room 0 req

  abbrev ended : List ℕ
  ended = stored block (length req) (0 ∷ [])

  room-size : length room ≡ 48
  room-size = omega arith

  block-size : length block ≡ 48
  block-size = length-stored room 0 req (omega (arith, room-size)) ∙ room-size

  value_lem : take 32 ended ≡ take 32 req
  value_lem =
      take-stored 32 (length req) block (0 ∷ []) long (omega (arith, block-size))
      ∙ take-append_short 32 req _ long

  -- A value of 32 to 47 bytes gives the message for its first 32 bytes.
  pub fill_lem : fill m req mine ≡ returned (request (take 32 req) mine)
  unfolding fill initialize_message
  fill_lem =
      rw
        (
          store_lem room 0 req (omega (arith, room-size)),
          store_lem block (length req) (0 ∷ []) (omega (arith, block-size)),
          value_lem,
        )
        refl

pub request-IsMessage :
    (value client : List ℕ)
    → length value ≡ 32
    → length client ≡ 16
    → IsMessage (request value client)
request-IsMessage value client h h' = pack-IsMessage (record {
  inst_fits = omega arith;
  rnd_fits = omega arith;
  vrnd_fits = omega arith;
  acptid_fits = omega arith;
  msgtype_fits = omega arith;
  value_size = h;
  client_size = h';
})
