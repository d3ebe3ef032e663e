-- ===== src/Acceptor/Progress.antt =====
-- A new acceptor votes for what it is asked to accept.
use libnetpaxos.Prelude.{
  ℕ, suc, ◌%◌, ◌^◌, ◌<◌, ◌≡◌, refl, arith, ap, ◌∙◌, true, false, Option, some, none, List, [], ◌∷◌,
  ◌++◌, drop, set, length, replicate, length-replicate, length-append, get_elem?, get_elem?_total,
  get_elem?-replicate, ltb, leb, lt→ltb, le→leb, returned,
}
use libnetpaxos.Prelude.Int.{pos, pos_part, to_unsigned}
use libnetpaxos.Config.{Config}
use libnetpaxos.Message.{Message, pack, unpack, phase2a, phase2b}
use libnetpaxos.Message.Copy.{strcpy_lem, c_string, strlen}
use libnetpaxos.Acceptor.{
  AcceptorCtx, Acted, acceptor_ctx_new, blank_message, fresh_state, handle, handle_phase2a, enqueue,
  receive_one, receive_from, gather, flush, on_value,
}
use libnetpaxos.Acceptor.Total.{IsReadable}

-- The answer: the message with the acceptor's id, as a vote.
abbrev pub vote_of : ℕ → Message → Message
vote_of id m = record m { acptid = id % 2 ^ 16; msgtype = phase2b }

module _ (conf : Config) (id n v : ℕ) (order : Message) (known : conf.maxinst ≡ pos n)
    (fits : n < 2 ^ 32) (room : conf.vlen ≡ pos (suc v)) (below : (unpack order).inst < n)
    (asks : (unpack order).msgtype ≡ phase2a) (readable : IsReadable (unpack order)) where
  -- The value, as it is kept, and the context that keeps it.
  abbrev kept : List ℕ
  kept =
      c_string ((unpack order).paxosval ++ (unpack order).client)
      ++ 0
        ∷ drop (suc (strlen ((unpack order).paxosval ++ (unpack order).client)))
            fresh_state.paxosval

  abbrev keeping : AcceptorCtx
  keeping = record (acceptor_ctx_new conf id) {
    states =
        set (acceptor_ctx_new conf id).states (unpack order).inst
          (record { rnd = (unpack order).rnd; vrnd = (unpack order).rnd; paxosval = kept });
  }

  handle-keeping :
      handle (acceptor_ctx_new conf id) (unpack order)
      ≡ returned (keeping, vote_of id (unpack order), true)
  unfolding handle handle_phase2a acceptor_ctx_new
  handle-keeping =
      let m : Message = unpack order in
      let count : pos_part conf.maxinst ≡ n = rw known refl in
      let (st, found) =
        get_elem?_total (replicate (pos_part conf.maxinst) fresh_state) m.inst
          (omega (arith, count, length-replicate (pos_part conf.maxinst) fresh_state)) in
      let fresh = get_elem?-replicate (pos_part conf.maxinst) m.inst fresh_state st found in
      let at : get_elem? (replicate (pos_part conf.maxinst) fresh_state) m.inst ≡ some fresh_state =
        found ∙ ap some fresh in
      let zero_round : leb 0 m.rnd ≡ true = le→leb 0 m.rnd (omega arith) in
      let copy =
        strcpy_lem fresh_state.paxosval (m.paxosval ++ m.client)
          (omega (
            arith,
            readable.ends,
            length-append {0} m.paxosval m.client,
            readable.value_size,
            readable.client_size,
          ))
          (omega (arith, readable.ends)) in
      rw (asks, at, zero_round, copy) refl

  slots : pos_part conf.vlen ≡ suc v
  slots = rw room refl

  abbrev queued : AcceptorCtx
  queued = record keeping {
    out_bufs = pack (vote_of id (unpack order)) ∷ replicate v blank_message;
    out_msgs = some 0 ∷ replicate v none;
    count_accepted = 1;
  }

  enqueue-queued : enqueue keeping 0 (vote_of id (unpack order)) true ≡ returned queued
  unfolding enqueue acceptor_ctx_new
  enqueue-queued =
      let first : ltb 0 (length (blank_message ∷ replicate v blank_message)) ≡ true =
        lt→ltb 0 (length (blank_message ∷ replicate v blank_message)) (omega arith) in
      let first_slot : ltb 0 (length {A = Option ℕ} (none ∷ replicate v none)) ≡ true =
        lt→ltb 0 (length {A = Option ℕ} (none ∷ replicate v none)) (omega arith) in
      rw (slots, first, first_slot) refl

  abbrev sent_away : Acted
  sent_away = record {
    ctx = record queued { count_accepted = 0 };
    sent = pack (vote_of id (unpack order)) ∷ [];
    raised = false;
  }

  flush-queued : flush queued true ≡ returned sent_away
  unfolding flush gather
  flush-queued = refl

  receive_one-queued : receive_one (acceptor_ctx_new conf id) 0 order ≡ returned (queued, false)
  unfolding receive_one acceptor_ctx_new pack
  receive_one-queued =
      let unsigned : to_unsigned conf.maxinst ≡ n = rw known (omega arith) in
      let inside : leb (to_unsigned conf.maxinst) (unpack order).inst ≡ false =
        ground (arith, unsigned, below) in
      rw (inside, handle-keeping, enqueue-queued) refl

  -- The acceptor answers the order with its vote.
  pub on_value-voted :
      (a : Acted) × (on_value (some (order ∷ [])) true (acceptor_ctx_new conf id) ≡ returned a)
      × (a.raised ≡ false)
      × (a.sent ≡ pack (vote_of id (unpack order)) ∷ [])
  unfolding on_value receive_from
  on_value-voted = (sent_away, rw (receive_one-queued, flush-queued) refl, refl, refl)
