-- ===== src/Acceptor/Rounds.antt =====
-- The loop of `on_value` as a derivation that keeps the answer of each round, and an acceptor's
-- whole run.
use libnetpaxos.Prelude.{
  refl, ℕ, suc, ◌<◌, ◌≡◌, Bool, true, false, Option, some, none, List, [], ◌∷◌,
}
use libnetpaxos.Prelude.{inl, inr, returned, arith, subst, Bool-cases, Outcome-cases, leb, ap, ◌∙◌}
use libnetpaxos.Prelude.Int.{to_unsigned}
use libnetpaxos.Config.{Config}
use libnetpaxos.Message.{Message, unpack}
use libnetpaxos.Acceptor.{
  AcceptorCtx, Acted, acceptor_ctx_new, handle, enqueue, receive_one, receive_from, flush, on_value,
}

-- Rounds `i`, `i + 1`, … over a list of messages that all have an instance in range. The answer of
-- a round is the message as the handler left it, `none` where it returned 0.
pub data Rounds
    : ℕ → AcceptorCtx → List Message → List (Option Message) → AcceptorCtx → Type 0 where
  finish : {i : ℕ} {ctx : AcceptorCtx} → Rounds i ctx [] [] ctx
  answer :
      {i : ℕ} {ctx c1 c2 ctx' : AcceptorCtx} {m r : Message} {ms : List Message}
      {rs : List (Option Message)}
      → (unpack m).inst < to_unsigned ctx.conf.maxinst
      → handle ctx (unpack m) ≡ returned (c1, r, true)
      → enqueue c1 i r true ≡ returned c2
      → Rounds (suc i) c2 ms rs ctx'
      → Rounds i ctx (m ∷ ms) (some r ∷ rs) ctx'
  refuse :
      {i : ℕ} {ctx c1 c2 ctx' : AcceptorCtx} {m r : Message} {ms : List Message}
      {rs : List (Option Message)}
      → (unpack m).inst < to_unsigned ctx.conf.maxinst
      → handle ctx (unpack m) ≡ returned (c1, r, false)
      → enqueue c1 i r false ≡ returned c2
      → Rounds (suc i) c2 ms rs ctx'
      → Rounds i ctx (m ∷ ms) (none ∷ rs) ctx'

-- What one round that does not stop the loop has done.
pub data OneRound (ctx : AcceptorCtx) (i : ℕ) (m : Message) (ctx' : AcceptorCtx) : Type 0 where
  did :
      {c1 : AcceptorCtx} {r : Message}
      → (res : Bool) → (unpack m).inst < to_unsigned ctx.conf.maxinst
      → handle ctx (unpack m) ≡ returned (c1, r, res)
      → enqueue c1 i r res ≡ returned ctx'
      → OneRound ctx i m ctx'

pub receive_one-OneRound :
    (ctx : AcceptorCtx) (i : ℕ) (m : Message) {ctx' : AcceptorCtx}
    → receive_one ctx i m ≡ returned (ctx', false)
    → OneRound ctx i m ctx'
unfolding receive_one
receive_one-OneRound ctx i m {ctx'} h =
    elim (Bool-cases (leb (to_unsigned ctx.conf.maxinst) (unpack m).inst)) [
      | inl past ↦ absurd (ground arith)
      | inr fits ↦ elim (Outcome-cases (handle ctx (unpack m))) [
        | inl ((c1, r, res), e) ↦ elim (Outcome-cases (enqueue c1 i r res)) [
          | inl (c2, e') ↦
              let same : c2 ≡ ctx' = ground arith in
              did res (ground arith) e (e' ∙ ap returned same)
          | inr bad ↦ absurd (ground arith)
        ]
        | inr bad ↦ absurd (ground arith)
      ]
    ]

-- A loop that ends without SIGTERM went through such rounds.
pub receive_from-Rounds :
    (i : ℕ) (ms : List Message) (ctx : AcceptorCtx) {ctx' : AcceptorCtx}
    → receive_from i ms ctx ≡ returned (ctx', false)
    → (rs : List (Option Message)) × Rounds i ctx ms rs ctx'
unfolding receive_from
receive_from-Rounds i [] ctx {ctx'} h =
    let same : ctx ≡ ctx' = ground arith in ([], subst (Rounds i ctx [] []) same finish)
receive_from-Rounds i (m ∷ ms) ctx {ctx'} h = elim (Outcome-cases (receive_one ctx i m)) [
  | inl ((c2, stop), e) ↦ elim (Bool-cases stop) [
    | inl stops ↦ absurd (ground arith)
    | inr goes ↦
        let rest : receive_from (suc i) ms c2 ≡ returned (ctx', false) = ground arith in
        let (rs, tail) = receive_from-Rounds (suc i) ms c2 rest in
        joined (receive_one-OneRound ctx i m (e ∙ ap (λ b. returned (c2, b)) goes)) tail
  ]
  | inr bad ↦ absurd (ground arith)
]
  where
    joined :
        {c2 : AcceptorCtx} {rs : List (Option Message)}
        → OneRound ctx i m c2
        → Rounds (suc i) c2 ms rs ctx'
        → (all : List (Option Message)) × Rounds i ctx (m ∷ ms) all ctx'
    joined (did true fits e e') tail = (_, answer fits e e' tail)
    joined (did false fits e e') tail = (_, refuse fits e e' tail)

receive_one-did :
    (ctx : AcceptorCtx) (i : ℕ) (m : Message) {c1 c2 : AcceptorCtx} {r : Message} (res : Bool)
    → (unpack m).inst < to_unsigned ctx.conf.maxinst
    → handle ctx (unpack m) ≡ returned (c1, r, res)
    → enqueue c1 i r res ≡ returned c2
    → receive_one ctx i m ≡ returned (c2, false)
unfolding receive_one
receive_one-did ctx i m res fits e e' =
    let known : leb (to_unsigned ctx.conf.maxinst) (unpack m).inst ≡ false = ground (arith, fits) in
    rw (known, e, e') refl

-- A loop that goes through such rounds ends so.
Rounds-receive_from :
    {i : ℕ} {ms : List Message} {rs : List (Option Message)} {ctx ctx' : AcceptorCtx}
    → Rounds i ctx ms rs ctx'
    → receive_from i ms ctx ≡ returned (ctx', false)
unfolding receive_from
Rounds-receive_from finish = refl
Rounds-receive_from {i} {ctx} (answer {m} fits e e' rest) =
    rw (receive_one-did ctx i m true fits e e') (Rounds-receive_from rest)
Rounds-receive_from {i} {ctx} (refuse {m} fits e e' rest) =
    rw (receive_one-did ctx i m false fits e e') (Rounds-receive_from rest)

-- The callback is such a loop, followed by `flush`.
pub Rounds-on_value :
    {ms : List Message} {rs : List (Option Message)} {ctx ctx' : AcceptorCtx} {a : Acted}
    → Rounds 0 ctx ms rs ctx'
    → flush ctx' true ≡ returned a
    → on_value (some ms) true ctx ≡ returned a
unfolding on_value
Rounds-on_value rounds e = rw (Rounds-receive_from rounds) e

-- The answers of a batch put before those given earlier, the newest first.
abbrev pub prepend : List (Option Message) → List Message → List Message
prepend [] log = log
prepend (none ∷ rs) log = prepend rs log
prepend (some r ∷ rs) log = prepend rs (r ∷ log)

-- The run of an acceptor from its start, with the answers of its handlers, the newest first. It
-- ends when SIGTERM is raised, since the handler of that signal leaves the event loop.
pub data Session (conf : Config) (id : ℕ) : List Message → AcceptorCtx → Type 0 where
  start : Session conf id [] (acceptor_ctx_new conf id)
  batch :
      {log : List Message} {ctx ctx' : AcceptorCtx} {ms : List Message} {rs : List (Option Message)}
      {a : Acted}
      → Session conf id log ctx
      → Rounds 0 ctx ms rs ctx'
      → flush ctx' true ≡ returned a
      → Session conf id (prepend rs log) a.ctx

-- A call of `on_value` that returns without SIGTERM is such a loop, followed by `flush`.
pub on_value-Rounds :
    (ctx : AcceptorCtx) (ms : List Message) {a : Acted}
    → on_value (some ms) true ctx ≡ returned a
    → a.raised ≡ false
    → (c : AcceptorCtx) × (rs : List (Option Message)) × Rounds 0 ctx ms rs c
      × (flush c true ≡ returned a)
unfolding on_value
on_value-Rounds ctx ms {a} h quiet = elim (Outcome-cases (receive_from 0 ms ctx)) [
  | inl ((c, stop), e) ↦ elim (Bool-cases stop) [
    | inl stops ↦ absurd (ground arith)
    | inr goes ↦
        let flushed : flush c true ≡ returned a = ground arith in
        let (rs, rounds) = receive_from-Rounds 0 ms ctx (e ∙ ap (λ b. returned (c, b)) goes) in
        (c, rs, rounds, flushed)
  ]
  | inr bad ↦ absurd (ground arith)
]

-- So it extends the run.
pub on_value-Session :
    {conf : Config} {id : ℕ} {log : List Message} {ctx : AcceptorCtx}
    → Session conf id log ctx
    → (ms : List Message) {a : Acted} → on_value (some ms) true ctx ≡ returned a
    → a.raised ≡ false
    → (rs : List (Option Message)) × Session conf id (prepend rs log) a.ctx
on_value-Session {ctx} s ms h quiet =
    let (c, rs, rounds, flushed) = on_value-Rounds ctx ms h quiet in (rs, batch s rounds flushed)
