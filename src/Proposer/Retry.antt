-- ===== src/Proposer/Retry.antt =====
-- What `retry` sends.
use libnetpaxos.Prelude.{
  ℕ, zero, suc, ◌+◌, ◌≤◌, ◌≡◌, refl, arith, ap, sym, ◌∙◌, List, [], ◌∷◌, ◌++◌, map,
}
use libnetpaxos.Prelude.{length, take, drop, length-take, take-take, returned, le→leb}
use libnetpaxos.Datagram.{load16, store}
use libnetpaxos.Datagram.Fields.{
  IsReady, stored, store_lem, length-stored, drop-stored_above, load16-stored_below,
}
use libnetpaxos.Proposer.{ProposerState, retry, retry_rounds, to_send}
use libnetpaxos.Message.Request.{take-append_short}

-- A datagram with another time in its request.
abbrev pub with_time : List ℕ → List ℕ → List ℕ
with_time d t = take 48 d ++ (t ++ drop 64 d)

-- The first readings of a clock.
abbrev pub readings : ℕ → (ℕ → List ℕ) → List (List ℕ)
readings zero clock = []
readings (suc n) clock = clock 0 ∷ readings n (λ k. clock (suc k))

module _ (d t : List ℕ) (ready : IsReady d) (size : length t ≡ 16) where
  fits : 48 + length t ≤ length d
  fits = omega (arith, ready.size)

  stored-with_time : stored d 48 t ≡ with_time d t
  stored-with_time = ap (λ n. take 48 d ++ (t ++ drop (48 + n) d)) size

  same_total : load16 (with_time d t) 2 ≡ load16 d 2
  same_total =
      ap (λ l. load16 l 2) (sym stored-with_time) ∙ load16-stored_below d 48 t 2 fits (omega arith)

  with_time-IsReady : IsReady (with_time d t)
  with_time-IsReady = record {
    size = ap length (sym stored-with_time) ∙ length-stored d 48 t fits ∙ ready.size;
    bounded = omega (arith, same_total, ready.bounded);
  }

  -- The time that was there before is gone.
  with_time_again : (u : List ℕ) → with_time (with_time d t) u ≡ with_time d u
  with_time_again u =
      let front : take 48 (with_time d t) ≡ take 48 d =
        take-append_short 48 (take 48 d) _ (omega (arith, length-take {0} 48 d, ready.size))
        ∙ take-take 48 48 d (omega arith) in
      let back : drop 64 (with_time d t) ≡ drop 64 d =
        ap (drop 64) (sym stored-with_time) ∙ drop-stored_above d 48 t fits 64 (omega arith) in
      rw (front, back)

  store-with_time : store d 48 t ≡ returned (with_time d t)
  store-with_time = store_lem d 48 t fits ∙ ap returned stored-with_time

  to_send-with_time : to_send (with_time d t) ≡ returned (take (load16 d 2) (with_time d t))
  unfolding to_send
  to_send-with_time =
      let small : load16 d 2 ≤ length (with_time d t) =
        omega (arith, with_time-IsReady.size, ready.bounded) in
      rw (same_total, le→leb _ _ small)

retry_rounds_lem :
    (n : ℕ) (clock : ℕ → List ℕ) (d : List ℕ)
    → ((k : ℕ) → length (clock k) ≡ 16)
    → IsReady d
    → (d' : List ℕ) × (retry_rounds n clock d
        ≡ returned (d', map (λ t. take (load16 d 2) (with_time d t)) (readings n clock)))
      × IsReady d'
unfolding retry_rounds
retry_rounds_lem zero clock d sizes ready = (d, refl, ready)
retry_rounds_lem (suc n) clock d sizes ready =
    let t : List ℕ = clock 0 in
    let (d', e, ready') =
      retry_rounds_lem n (λ k. clock (suc k)) (with_time d t) (λ k. sizes (suc k))
        (with_time-IsReady d t ready (sizes 0)) in
    let same : (us : List (List ℕ))
        → map (λ u. take (load16 (with_time d t) 2) (with_time (with_time d t) u)) us
          ≡ map (λ u. take (load16 d 2) (with_time d u)) us =
      λ us i.
        map (λ u. take (same_total d t ready (sizes 0) i) (with_time_again d t ready (sizes 0) u i))
          us in
    (
      d',
      rw (
        store-with_time d t ready (sizes 0),
        to_send-with_time d t ready (sizes 0),
        e,
        same (readings n (λ k. clock (suc k))),
      ),
      ready',
    )

-- From a state that is ready, `retry` does nothing undefined, sends as many datagrams as are
-- outstanding, each of them the datagram of the state with nothing but the time replaced, by the
-- times read one after another, and leaves a state that is ready.
pub retry_lem :
    (clock : ℕ → List ℕ) (state : ProposerState)
    → ((k : ℕ) → length (clock k) ≡ 16)
    → IsReady state.datagram
    → (state' : ProposerState) × (retry clock state
        ≡ returned (
          state',
          map
              (λ t. take (load16 state.datagram 2) (with_time state.datagram t))
              (readings state.outstanding clock),
        ))
      × IsReady state'.datagram
unfolding retry
retry_lem clock state sizes ready =
    let (d, e, ready') = retry_rounds_lem state.outstanding clock state.datagram sizes ready in
    (record state { datagram = d }, rw e, ready')
