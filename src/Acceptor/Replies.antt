-- ===== src/Acceptor/Replies.antt =====
-- What a batch sends: the slots of `sendmmsg` name the first buffers, one for each answer.
pub mod Queue
use mathlib.Core.List.{append-nil, append_assoc}
use libnetpaxos.Prelude.{
  ℕ, zero, suc, ◌+◌, ◌≤◌, ◌<◌, ◌≡◌, refl, Bool, true, false, Option, some, none,
}
use libnetpaxos.Prelude.{List, [], ◌∷◌, ◌++◌, map, returned, ◌>>=◌, arith, sym, subst, ◌∙◌, ap}
use libnetpaxos.Prelude.{
  length, get_elem?, set, take, length-set, take-suc, take-suc-set, take-take,
}
use libnetpaxos.Prelude.{get_elem?_total, ltb, ltb→lt, Bool-cases, Outcome-cases, inl, inr}
use libnetpaxos.Message.{Message, pack, unpack}
use libnetpaxos.Acceptor.{AcceptorCtx, Acted, Handled, enqueue, gather, flush, on_value}
use libnetpaxos.Acceptor.Cases.{HandleCase, passed, promised, accepted, handle-HandleCase}
use libnetpaxos.Acceptor.Rounds.{Rounds, finish, answer, refuse, Rounds-on_value}
use libnetpaxos.Acceptor.Replies.Queue.{left, answered, counts, Queued, Rounds-Queued}

gather-append :
    (bufs : List Message) (slots : List (Option ℕ)) (k : ℕ) (ys : List Message) (v : Message)
    → gather bufs slots ≡ returned ys
    → get_elem? bufs k ≡ some v
    → gather bufs (slots ++ some k ∷ []) ≡ returned (ys ++ v ∷ [])
unfolding gather
gather-append bufs [] k ys v h e = ground arith
gather-append bufs (none ∷ slots) k ys v h e = cc
gather-append bufs (some j ∷ slots) k ys v h e = elim (Outcome-cases (gather bufs slots)) [
  | inl (rest, e') ↦ ground (arith, gather-append bufs slots k rest v)
  | inr bad ↦ absurd (ground arith)
]

gather-counts :
    (n : ℕ) (bufs : List Message)
    → n ≤ length bufs
    → gather bufs (counts n) ≡ returned (take n bufs)
unfolding gather
gather-counts zero bufs h = refl
gather-counts (suc n) bufs h =
    let (v, e) = get_elem?_total bufs n h in
    gather-append bufs (counts n) n (take n bufs) v (gather-counts n bufs (omega arith)) e
    ∙ ap returned (sym (take-suc n bufs v e))

flush-sent :
    (ctx : AcceptorCtx) {a : Acted} {ms : List Message}
    → flush ctx true ≡ returned a
    → gather ctx.out_bufs (take ctx.count_accepted ctx.out_msgs) ≡ returned ms
    → a.sent ≡ ms
unfolding flush gather
flush-sent ctx {a} {ms} h e = elim (Bool-cases (ltb 0 ctx.count_accepted)) [
  | inl some_sent ↦ ground arith
  | inr none_sent ↦
      let zero_count : ctx.count_accepted ≡ 0 = ground arith in
      let nothing : gather ctx.out_bufs (take 0 ctx.out_msgs) ≡ returned ms =
        subst (λ n. gather ctx.out_bufs (take n ctx.out_msgs) ≡ returned ms) zero_count e in
      ground arith
]

-- What `sendmmsg` reads after a batch, with no answer left over from before.
gathered :
    {ctx ctx' : AcceptorCtx} {ms : List Message} {rs : List (Option Message)}
    → ctx.count_accepted ≡ 0
    → Rounds 0 ctx ms rs ctx'
    → gather ctx'.out_bufs (take ctx'.count_accepted ctx'.out_msgs)
      ≡ returned (take (answered rs) (left ms rs))
gathered {ctx} {ctx'} {ms} {rs} clean rounds =
    let q0 : Queued 0 ctx [] = record {
      behind = omega arith;
      room = omega arith;
      slots = subst (λ n. take n ctx.out_msgs ≡ counts n) (sym clean) refl;
      bufs = refl;
    } in
    let (j, q, n) = Rounds-Queued rounds [] q0 in
    let total : ctx'.count_accepted ≡ answered rs = omega (arith, n, clean) in
    ap (gather ctx'.out_bufs) q.slots
    ∙ gather-counts ctx'.count_accepted ctx'.out_bufs (omega (arith, q.behind, q.room))
    ∙ ap returned (sym (take-take ctx'.count_accepted j ctx'.out_bufs q.behind))
    ∙ ap (λ l. returned (take ctx'.count_accepted l)) q.bufs
    ∙ ap (λ k. returned (take k (left ms rs))) total

-- `sendmmsg` reads nothing undefined, and afterwards no answer is left over.
pub flush_total :
    {ctx ctx' : AcceptorCtx} {ms : List Message} {rs : List (Option Message)}
    → ctx.count_accepted ≡ 0
    → Rounds 0 ctx ms rs ctx'
    → (a : Acted) × (flush ctx' true ≡ returned a) × (a.ctx ≡ record ctx' { count_accepted = 0 })
unfolding flush
flush_total {ctx'} {ms} {rs} clean rounds = elim (Bool-cases (ltb 0 ctx'.count_accepted)) [
  | inl busy ↦ (
    sending (take (answered rs) (left ms rs)),
    rw busy (ap (λ o. o >>= λ l. returned (sending l)) (gathered clean rounds)),
    refl,
  )
  | inr idle ↦ (record { ctx = ctx'; sent = []; raised = false }, rw idle, ground arith)
]
  where
    sending : List Message → Acted
    sending l = record { ctx = record ctx' { count_accepted = 0 }; sent = l; raised = false }

-- With no answer left over from before, a batch sends as many of its first buffers as it has
-- answers, whichever rounds gave them.
pub sent-left :
    {ctx ctx' : AcceptorCtx} {ms : List Message} {rs : List (Option Message)} {a : Acted}
    → ctx.count_accepted ≡ 0
    → Rounds 0 ctx ms rs ctx'
    → flush ctx' true ≡ returned a
    → a.sent ≡ take (answered rs) (left ms rs)
sent-left {ctx'} clean rounds h = flush-sent ctx' h (gathered clean rounds)

-- The packed answers of a batch, in order.
abbrev pub answers : List (Option Message) → List Message
answers [] = []
answers (some r ∷ rs) = pack r ∷ answers rs
answers (none ∷ rs) = answers rs

all_answers :
    {i : ℕ} {ctx ctx' : AcceptorCtx} {ms : List Message} {rs : List (Option Message)}
    → Rounds i ctx ms rs ctx'
    → answered rs ≡ length ms
    → take (answered rs) (left ms rs) ≡ answers rs
all_answers finish e = refl
all_answers {rs = some r ∷ rs} (answer fits h e' rest) e =
    ap (λ l. pack r ∷ l) (all_answers rest (omega arith))
all_answers {rs = none ∷ rs} (refuse {ms} fits h e' rest) e = absurd (omega (arith, few rest))
  where
    few :
        {i : ℕ} {c c' : AcceptorCtx} {l : List Message} {o : List (Option Message)}
        → Rounds i c l o c'
        → answered o ≤ length l
    few finish = omega arith
    few (answer fits' h' e'' r') = omega (arith, few r')
    few (refuse fits' h' e'' r') = omega (arith, few r')

-- Where every message is answered, those are the answers.
pub flush-answers :
    {ctx ctx' : AcceptorCtx} {ms : List Message} {rs : List (Option Message)} {a : Acted}
    → ctx.count_accepted ≡ 0
    → Rounds 0 ctx ms rs ctx'
    → flush ctx' true ≡ returned a
    → answered rs ≡ length ms
    → a.sent ≡ answers rs
flush-answers clean rounds h full = sent-left clean rounds h ∙ all_answers rounds full

-- If sending does not fail, and no answer is left over from an earlier batch, as there may be after
-- one that raised SIGTERM, the callback returns on a batch in which every message is answered, and has sent the
-- packed answers, all of them and in order.
pub sent-answers :
    {ctx ctx' : AcceptorCtx} {ms : List Message} {rs : List (Option Message)}
    → ctx.count_accepted ≡ 0
    → Rounds 0 ctx ms rs ctx'
    → answered rs ≡ length ms
    → (a : Acted) × (on_value (some ms) true ctx ≡ returned a) × (a.sent ≡ answers rs)
sent-answers clean rounds full =
    let (a, e, same) = flush_total clean rounds in
    (a, Rounds-on_value rounds e, flush-answers clean rounds e full)

-- If no answer is left over from an earlier batch and sending does not fail, the callback returns on a
-- batch of two messages of which the first is refused and the second answered, and has sent the refused
-- message, in host order, in place of the answer.
pub sent_after_refusal :
    {ctx ctx' : AcceptorCtx} {refused accepted : Message} {r : Message}
    → ctx.count_accepted ≡ 0
    → Rounds 0 ctx (refused ∷ accepted ∷ []) (none ∷ some r ∷ []) ctx'
    → (a : Acted) × (on_value (some (refused ∷ accepted ∷ [])) true ctx ≡ returned a)
      × (a.sent ≡ unpack refused ∷ [])
sent_after_refusal clean rounds =
    let (a, e, same) = flush_total clean rounds in
    (a, Rounds-on_value rounds e, sent-left clean rounds e)
