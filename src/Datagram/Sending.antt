-- ===== src/Datagram/Sending.antt =====
-- What `paxos_send` and `send_message` hand to `sendto`.
use libnetpaxos.Prelude.{ℕ, ◌+◌, ◌%◌, ◌^◌, ◌≤◌, ◌≡◌, arith, ap, ◌∙◌}
use libnetpaxos.Prelude.{List, ◌++◌, length, take, drop, length-take, returned, le→leb, take-append}
use libnetpaxos.Message.{swap16}
use libnetpaxos.Message.Wire.{swap16-lt}
use libnetpaxos.Message.Bytes.{le16}
use libnetpaxos.Utils.{csum}
use libnetpaxos.Datagram.{load16, header_csum, send_datagram}
use libnetpaxos.Datagram.Fields.{
  stored, store_lem, length-stored, drop-stored_above, drop-stored_at, byte-take, drop-take,
  load16-stored_at, load16-stored_below, IsReady, IsSent,
}

module _ (datagram msg : List ℕ) (ready : IsReady datagram) (fits : length msg ≤ 172) where
  abbrev total : List ℕ
  total = le16 ((28 + length msg) % 2 ^ 16)

  abbrev udp : List ℕ
  udp = le16 (swap16 ((8 + length msg) % 2 ^ 16))

  abbrev b1 : List ℕ
  b1 = stored datagram 28 msg

  abbrev sum1 : ℕ
  sum1 = csum (take (load16 b1 2) b1)

  abbrev b2 : List ℕ
  b2 = stored b1 10 (le16 sum1)

  abbrev b3 : List ℕ
  b3 = stored b2 2 total

  abbrev b4 : List ℕ
  b4 = stored b3 24 udp

  abbrev b5 : List ℕ
  b5 = stored b4 26 (le16 0)

  fits1 : 28 + length msg ≤ length datagram
  fits1 = omega (arith, ready.size)

  size1 : length b1 ≡ 200
  size1 = length-stored datagram 28 msg fits1 ∙ ready.size

  size2 : length b2 ≡ 200
  size2 = length-stored b1 10 (le16 sum1) (omega (arith, size1)) ∙ size1

  size3 : length b3 ≡ 200
  size3 = length-stored b2 2 total (omega (arith, size2)) ∙ size2

  size4 : length b4 ≡ 200
  size4 = length-stored b3 24 udp (omega (arith, size3)) ∙ size3

  size5 : length b5 ≡ 200
  size5 = length-stored b4 26 (le16 0) (omega (arith, size4)) ∙ size4

  tot5 : load16 b5 2 ≡ 28 + length msg
  tot5 =
      load16-stored_below b4 26 (le16 0) 2 (omega (arith, size4)) (omega arith)
      ∙ load16-stored_below b3 24 udp 2 (omega (arith, size3)) (omega arith)
      ∙ load16-stored_at b2 2 ((28 + length msg) % 2 ^ 16) (omega (arith, size2)) (omega arith)
      ∙ omega arith

  udp5 : load16 b5 24 ≡ swap16 (8 + length msg)
  udp5 =
      load16-stored_below b4 26 (le16 0) 24 (omega (arith, size4)) (omega arith)
      ∙ load16-stored_at b3 24 (swap16 ((8 + length msg) % 2 ^ 16)) (omega (arith, size3))
          (swap16-lt ((8 + length msg) % 2 ^ 16))
      ∙ ap swap16 (omega arith)

  data5 : drop 28 b5 ≡ msg ++ drop (28 + length msg) datagram
  data5 =
      drop-stored_above b4 26 (le16 0) (omega (arith, size4)) 28 (omega arith)
      ∙ drop-stored_above b3 24 udp (omega (arith, size3)) 28 (omega arith)
      ∙ drop-stored_above b2 2 total (omega (arith, size2)) 28 (omega arith)
      ∙ drop-stored_above b1 10 (le16 sum1) (omega (arith, size1)) 28 (omega arith)
      ∙ drop-stored_at datagram 28 msg fits1

  tot1 : load16 b1 2 ≤ 200
  tot1 = omega (arith, load16-stored_below datagram 28 msg 2 fits1 (omega arith), ready.bounded)

  checked : header_csum b1 ≡ returned sum1
  unfolding header_csum
  checked = rw (le→leb (load16 b1 2) (length b1) (omega (arith, tot1, size1)))

  returns : send_datagram datagram msg ≡ returned (b5, take (28 + length msg) b5)
  unfolding send_datagram
  returns = rw (
    store_lem datagram 28 msg fits1,
    checked,
    store_lem b1 10 (le16 sum1) (omega (arith, size1)),
    store_lem b2 2 total (omega (arith, size2)),
    store_lem b3 24 udp (omega (arith, size3)),
    store_lem b4 26 (le16 0) (omega (arith, size4)),
    tot5,
  )

  IsSent5 : IsSent msg b5 (take (28 + length msg) b5)
  IsSent5 = record {
    ready = record { size = size5; bounded = omega (arith, tot5) };
    total = omega (arith, length-take {0} (28 + length msg) b5, size5);
    tot_len = omega (
      arith,
      byte-take (28 + length msg) 2 b5 (omega arith),
      byte-take (28 + length msg) 3 b5 (omega arith),
      tot5,
    );
    udp_len = omega (
      arith,
      byte-take (28 + length msg) 24 b5 (omega arith),
      byte-take (28 + length msg) 25 b5 (omega arith),
      udp5,
    );
    payload =
        drop-take 28 (length msg) b5
        ∙ ap (take (length msg)) data5
        ∙ take-append msg (drop (28 + length msg) datagram);
  }

-- From a buffer that is ready, and with a message of at most 172 bytes, sending does nothing
-- undefined; `sendto` gets the two headers and the message, with the length of the whole in
-- `tot_len` and that of the UDP part, in network order, in the UDP header; and the buffer is ready
-- for the next message.
pub send_datagram-IsSent :
    (datagram msg : List ℕ)
    → IsReady datagram
    → length msg ≤ 172
    → (buf sent : List ℕ) × (send_datagram datagram msg ≡ returned (buf, sent))
      × IsSent msg buf sent
send_datagram-IsSent datagram msg ready fits =
    (_, _, returns datagram msg ready fits, IsSent5 datagram msg ready fits)
