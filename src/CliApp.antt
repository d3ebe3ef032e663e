-- ===== src/CliApp.antt =====
-- app/cliapp.c: the client that submits requests, and a new one for each answer.
pub mod Loop
mod Tests
use libnetpaxos.Prelude.{
  ℕ, zero, suc, ◌+◌, ◌-◌, ◌*◌, ◌%◌, ◌^◌, List, [], ◌∷◌, ◌++◌, ◌==◌, if◌then◌else◌,
}
use libnetpaxos.Prelude.{Outcome, returned, fault, ◌>>=◌}
use libnetpaxos.Message.{Message}
use libnetpaxos.Message.Bytes.{le32}
use libnetpaxos.Datagram.{byte, store}
use libnetpaxos.Proposer.{ProposerState, submit}
use libnetpaxos.Store.{put_op, get_op}
use libnetpaxos.Replica.{key_offset, value_offset, op_offset}

-- `struct app_ctx`; `req` is the image of a `struct request`, and `request_id` an `int` as its 32
-- bits.
pub record AppCtx : Type 0 where
  pub request_id : ℕ
  pub proposer : ProposerState
  pub req : List ℕ

-- `new_app_ctx`, with what the memory for the request holds: "abcde" and "123456" are copied in.
unfoldable pub new_app_ctx : ProposerState → List ℕ → Outcome AppCtx
new_app_ctx proposer mem = do
  req ← store mem key_offset (97 ∷ 98 ∷ 99 ∷ 100 ∷ 101 ∷ [])
  req ← store req value_offset (49 ∷ 50 ∷ 51 ∷ 52 ∷ 53 ∷ 54 ∷ [])
  returned (record { request_id = 0; proposer = proposer; req = req })

-- `id++` on an `int`.
unfoldable pub increment : ℕ → Outcome ℕ
increment id = if id == 2 ^ 31 - 1 then fault else returned ((id + 1) % 2 ^ 32)

-- `(random() % 2) ? PUT : GET`.
unfoldable pub choose_op : ℕ → ℕ
choose_op random = if random % 2 == 0 then get_op else put_op

-- The random number, the time and the memory of a local message that one round of the client
-- meets.
pub record Chance : Type 0 where
  pub random : ℕ
  pub now : List ℕ
  pub local : Message

-- `run_test`: the context, and what `sendto` is given.
unfoldable pub run_test : Chance → AppCtx → Outcome (AppCtx × List ℕ)
run_test c ctx = do
  req ← store ctx.req 0 (le32 ctx.request_id)
  id ← increment ctx.request_id
  req ← store req op_offset (choose_op c.random ∷ [])
  (proposer, req, sent) ← submit c.now c.local ctx.proposer req
  returned (record { request_id = id; proposer = proposer; req = req }, sent)

-- The `request_id` of an answer.
unfoldable pub id_of : List ℕ → ℕ
id_of res = byte res 0 + byte res 1 * 2 ^ 8 + byte res 2 * 2 ^ 16 + byte res 3 * 2 ^ 24

-- `deliver_response`.
unfoldable pub deliver_response : Chance → List ℕ → AppCtx → Outcome (AppCtx × List ℕ)
deliver_response c res ctx = run_test c (record ctx { request_id = id_of res })

-- The loop of `main`: `npackets` rounds of `run_test`.
unfoldable pub run_tests : ℕ → (ℕ → Chance) → AppCtx → Outcome (AppCtx × List (List ℕ))
run_tests zero chance ctx = returned (ctx, [])
run_tests (suc n) chance ctx = do
  (ctx', sent) ← run_test (chance 0) ctx
  (last, rest) ← run_tests n (λ k. chance (suc k)) ctx'
  returned (last, sent ∷ rest)
