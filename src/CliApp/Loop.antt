-- ===== src/CliApp/Loop.antt =====
-- What the client sends.
use libnetpaxos.Prelude.{
  ℕ, zero, suc, ◌+◌, ◌-◌, ◌%◌, ◌^◌, ◌<◌, ◌≤◌, ◌≡◌, refl, arith, ap, subst, ◌∙◌, List, [], ◌∷◌, some,
  All,
}
use libnetpaxos.Prelude.{returned, length, take, take-take, drop, false, ◌==◌}
use libnetpaxos.Message.Bytes.{le32, from_bytes}
use libnetpaxos.Message.Request.{request, take-stored}
use libnetpaxos.Datagram.Fields.{IsReady, stored, store_lem, length-stored}
use libnetpaxos.Proposer.{ProposerState}
use libnetpaxos.Proposer.Submit.{submit-IsSubmitted}
use libnetpaxos.CliApp.{
  AppCtx, Chance, increment, choose_op, run_test, id_of, deliver_response, run_tests, new_app_ctx,
}

-- A client that can submit.
pub record IsClient (ctx : AppCtx) : Type 0 where
  pub size : length ctx.req ≡ 40
  pub mine : length ctx.proposer.mine ≡ 16
  pub ready : IsReady ctx.proposer.datagram

pub record IsChance (c : Chance) : Type 0 where
  pub clock : length c.now ≡ 16
  pub client : length c.local.client ≡ 16

-- What one round did: a datagram of 88 bytes with a request whose first bytes are the id, and the
-- next id.
pub record IsTested (ctx ctx' : AppCtx) (sent : List ℕ) : Type 0 where
  pub client : IsClient ctx'
  pub next : ctx'.request_id ≡ suc ctx.request_id
  pub total : length sent ≡ 88
  pub value : List ℕ
  pub payload : from_bytes (drop 28 sent) ≡ some (request value ctx.proposer.mine)
  pub id : take 4 value ≡ le32 ctx.request_id
  pub same_mine : ctx'.proposer.mine ≡ ctx.proposer.mine

module _ (c : Chance) (ctx : AppCtx) (ok : IsClient ctx) (chance : IsChance c)
    (left : ctx.request_id < 2 ^ 31 - 1) where
  abbrev req1 : List ℕ
  req1 = stored ctx.req 0 (le32 ctx.request_id)

  abbrev req2 : List ℕ
  req2 = stored req1 4 (choose_op c.random ∷ [])

  size1 : length req1 ≡ 40
  size1 = length-stored ctx.req 0 (le32 ctx.request_id) (omega (arith, ok.size)) ∙ ok.size

  size2 : length req2 ≡ 40
  size2 = length-stored req1 4 (choose_op c.random ∷ []) (omega (arith, size1)) ∙ size1

  -- The id stands at the beginning of what is submitted.
  kept : take 4 (take 32 (stored req2 8 c.now)) ≡ le32 ctx.request_id
  kept =
      take-take 4 32 (stored req2 8 c.now) (omega arith)
      ∙ take-stored 4 8 req2 c.now (omega arith) (omega (arith, size2))
      ∙ take-stored 4 4 req1 (choose_op c.random ∷ []) (omega arith) (omega (arith, size1))

  -- One round submits a request with the current id and moves to the next one.
  pub run_test-IsTested :
      (ctx' : AppCtx) × (sent : List ℕ) × (run_test c ctx ≡ returned (ctx', sent))
      × IsTested ctx ctx' sent
  unfolding run_test increment
  run_test-IsTested =
      let (state, req, sent, e, s) =
        submit-IsSubmitted c.now c.local ctx.proposer req2 chance.clock chance.client ok.mine
          ok.ready (omega (arith, size2)) (omega (arith, size2)) in
      let not_last : (ctx.request_id == 2 ^ 31 - 1) ≡ false = ground arith in
      let small : (ctx.request_id + 1) % 2 ^ 32 ≡ suc ctx.request_id = omega arith in
      (
        record { request_id = suc ctx.request_id; proposer = state; req = req },
        sent,
        rw
            (
              store_lem ctx.req 0 (le32 ctx.request_id) (omega (arith, ok.size)),
              not_last,
              store_lem req1 4 (choose_op c.random ∷ []) (omega (arith, size1)),
              small,
              e,
            )
            refl,
        record {
          client = record {
            size =
                ap length s.stamped
                ∙ length-stored req2 8 c.now (omega (arith, size2, chance.clock))
                ∙ size2;
            mine = ap length s.same_mine ∙ ok.mine;
            ready = s.ready;
          };
          next = refl;
          total = s.total;
          value = take 32 req;
          payload = s.payload;
          id = ap (λ r. take 4 (take 32 r)) s.stamped ∙ kept;
          same_mine = s.same_mine;
        },
      )

-- The 32 bits of an `int` in an answer.
id_of-lt : (res : List ℕ) → All (λ b. b < 256) (take 4 res) → id_of res < 2 ^ 32
unfolding id_of
id_of-lt [] h = omega arith
id_of-lt (a ∷ []) h = omega arith
id_of-lt (a ∷ b ∷ []) h = omega arith
id_of-lt (a ∷ b ∷ c ∷ []) h = omega arith
id_of-lt (a ∷ b ∷ c ∷ d ∷ res) h = omega arith

le32-id_of :
    (res : List ℕ)
    → 4 ≤ length res
    → All (λ b. b < 256) (take 4 res)
    → le32 (id_of res) ≡ take 4 res
unfolding id_of
le32-id_of [] l h = absurd (omega arith)
le32-id_of (a ∷ []) l h = absurd (omega arith)
le32-id_of (a ∷ b ∷ []) l h = absurd (omega arith)
le32-id_of (a ∷ b ∷ c ∷ []) l h = absurd (omega arith)
le32-id_of (a ∷ b ∷ c ∷ d ∷ res) l h = ground arith

-- What an answer leads to.
pub record IsRepeated (ctx ctx' : AppCtx) (res sent : List ℕ) : Type 0 where
  pub client : IsClient ctx'
  pub total : length sent ≡ 88
  pub value : List ℕ
  pub payload : from_bytes (drop 28 sent) ≡ some (request value ctx.proposer.mine)
  pub same_id : take 4 value ≡ take 4 res

-- Each answer whose id is an `int` from 0 to 2147483646 makes the client send one new request, with
-- the id of the answer once more.
pub deliver_response-IsRepeated :
    (c : Chance) (ctx : AppCtx) (res : List ℕ)
    → IsClient ctx
    → IsChance c
    → 4 ≤ length res
    → All (λ b. b < 256) (take 4 res)
    → id_of res < 2 ^ 31 - 1
    → (ctx' : AppCtx) × (sent : List ℕ) × (deliver_response c res ctx ≡ returned (ctx', sent))
      × IsRepeated ctx ctx' res sent
unfolding deliver_response
deliver_response-IsRepeated c ctx res ok chance long small left =
    let (ctx', sent, e, t) =
      run_test-IsTested c (record ctx { request_id = id_of res })
        (record { size = ok.size; mine = ok.mine; ready = ok.ready }) chance left in
    (
      ctx',
      sent,
      e,
      record {
        client = t.client;
        total = t.total;
        value = t.value;
        payload = t.payload;
        same_id = t.id ∙ le32-id_of res long small;
      },
    )

-- A new client has its key and its value in the request.
pub new_app_ctx-IsClient :
    (state : ProposerState) (mem : List ℕ)
    → length mem ≡ 40
    → length state.mine ≡ 16
    → IsReady state.datagram
    → (ctx : AppCtx) × (new_app_ctx state mem ≡ returned ctx) × IsClient ctx × (ctx.request_id ≡ 0)
unfolding new_app_ctx
new_app_ctx-IsClient state mem size mine ready =
    let key : List ℕ = 97 ∷ 98 ∷ 99 ∷ 100 ∷ 101 ∷ [] in
    let value : List ℕ = 49 ∷ 50 ∷ 51 ∷ 52 ∷ 53 ∷ 54 ∷ [] in
    let r1 : List ℕ = stored mem 24 key in
    let r2 : List ℕ = stored r1 29 value in
    let s1 : length r1 ≡ 40 = length-stored mem 24 key (omega (arith, size)) ∙ size in
    let s2 : length r2 ≡ 40 = length-stored r1 29 value (omega (arith, s1)) ∙ s1 in
    (
      record { request_id = 0; proposer = state; req = r2 },
      rw (store_lem mem 24 key (omega (arith, size)), store_lem r1 29 value (omega (arith, s1)))
          refl,
      record { size = s2; mine = mine; ready = ready },
      refl,
    )

-- The datagrams carry the ids from `n` on.
pub data Numbered (mine : List ℕ) : ℕ → List (List ℕ) → Type 0 where
  none_left : (n : ℕ) → Numbered mine n []
  numbered :
      (n : ℕ) (value : List ℕ) {sent : List ℕ} {rest : List (List ℕ)}
      → from_bytes (drop 28 sent) ≡ some (request value mine)
      → take 4 value ≡ le32 n
      → Numbered mine (suc n) rest
      → Numbered mine n (sent ∷ rest)

-- The client begins with as many requests as it is told, numbered one after another, and can go on.
pub run_tests-Numbered :
    (n : ℕ) (chance : ℕ → Chance) (ctx : AppCtx)
    → IsClient ctx
    → ((k : ℕ) → IsChance (chance k))
    → ctx.request_id + n ≤ 2 ^ 31 - 1
    → (ctx' : AppCtx) × (sent : List (List ℕ)) × (run_tests n chance ctx ≡ returned (ctx', sent))
      × IsClient ctx'
      × (length sent ≡ n)
      × Numbered ctx.proposer.mine ctx.request_id sent
unfolding run_tests
run_tests-Numbered zero chance ctx ok chances left =
    (ctx, [], refl, ok, refl, none_left ctx.request_id)
run_tests-Numbered (suc n) chance ctx ok chances left =
    let (ctx1, sent, e, t) = run_test-IsTested (chance 0) ctx ok (chances 0) (omega arith) in
    let (ctx2, rest, e', ok', size, more) =
      run_tests-Numbered n (λ k. chance (suc k)) ctx1 t.client (λ k. chances (suc k))
        (omega (arith, t.next)) in
    (
      ctx2,
      sent ∷ rest,
      rw (e, e'),
      ok',
      ap suc size,
      numbered ctx.request_id t.value t.payload t.id (
          subst (λ m. Numbered m (suc ctx.request_id) rest) t.same_mine
            (subst (λ k. Numbered ctx1.proposer.mine k rest) t.next more)),
    )
