-- ===== src/Acceptor/Promise.antt =====
-- The promise of an acceptor: within an instance the rounds of its answers never go back, and a
-- promise (phase1b) is for a later round than everything it answered before.
use libnetpaxos.Prelude.{ℕ, ◌≤◌, ◌<◌, ◌≡◌, refl, Bool, true, false, Option, some}
use libnetpaxos.Prelude.{List, [], ◌∷◌, returned, arith, sym, subst, ◌∙◌, All, All-map, get_elem?}
use libnetpaxos.Prelude.{get_elem?-set, get_elem?-replicate, set}
use libnetpaxos.Prelude.{ap}
use libnetpaxos.Prelude.Int.{pos_part}
use libnetpaxos.Config.{Config}
use libnetpaxos.Message.{Message, phase1b, unpack}
use libnetpaxos.Acceptor.{
  AState, AcceptorCtx, Acted, Handled, acceptor_ctx_new, fresh_state, enqueue, flush,
}
use libnetpaxos.Acceptor.Cases.{HandleCase, passed, promised, accepted, handle-HandleCase}
use libnetpaxos.Acceptor.Rounds.{Rounds, finish, answer, refuse, prepend, Session, start, batch}

-- `x` may be given after `y`.
abbrev pub Follows : Message → Message → Type 0
Follows x y = y.inst ≡ x.inst → (y.rnd ≤ x.rnd) × (x.msgtype ≡ phase1b → y.rnd < x.rnd)

-- Each answer of a log, the newest first, may be given after all those behind it.
abbrev pub IsOrdered : List Message → Type 0
IsOrdered [] = Unit
IsOrdered (x ∷ xs) = All (Follows x) xs × IsOrdered xs

-- The answers for an instance are for rounds up to the one that its state has promised.
abbrev pub UpTo : ℕ → AState → Message → Type 0
UpTo i st r = r.inst ≡ i → r.rnd ≤ st.rnd

pub record Kept (log : List Message) (states : List AState) : Type 0 where
  pub bounded : (i : ℕ) (st : AState) → get_elem? states i ≡ some st → All (UpTo i st) log
  pub voted : (i : ℕ) (st : AState) → get_elem? states i ≡ some st → st.vrnd ≤ st.rnd
  pub ordered : IsOrdered log

abbrev noted : Bool → Message → List Message → List Message
noted true r log = r ∷ log
noted false r log = log

module _ {log : List Message} {states : List AState} (k : Kept log states) where
  -- One instance moves to a round that is not lower, and answers for it.
  Kept-step :
      (i : ℕ) {st : AState} (st' : AState) (r : Message)
      → get_elem? states i ≡ some st
      → st.rnd ≤ r.rnd
      → (r.msgtype ≡ phase1b → st.rnd < r.rnd)
      → r.inst ≡ i
      → st'.rnd ≡ r.rnd
      → st'.vrnd ≤ st'.rnd
      → Kept (r ∷ log) (set states i st')
  Kept-step i {st} st' r found up later at is vote = record {
    bounded =
        get_elem?-set (λ j s. All (UpTo j s) (r ∷ log)) states i st'
          ((λ e. omega arith), All-map (λ y h e. omega (arith, h e)) log (k.bounded i st found))
          (λ j s ne f. ((λ e. absurd (ne (sym at ∙ e))), k.bounded j s f));
    voted = get_elem?-set (λ j s. s.vrnd ≤ s.rnd) states i st' vote (λ j s ne f. k.voted j s f);
    ordered = (
      All-map (λ y h e. (omega (arith, h (e ∙ at)), (λ t. omega (arith, h (e ∙ at), later t)))) log
          (k.bounded i st found),
      k.ordered,
    );
  }

handle-Kept :
    {log : List Message} {ctx : AcceptorCtx} {msg : Message} {r : Handled}
    → Kept log ctx.states
    → HandleCase ctx msg r
    → Kept (noted r.2 r.1 log) r.0.states
handle-Kept k (passed _ _) = k
handle-Kept {msg} k (promised {st} type found newer copied) =
    Kept-step k msg.inst _ _ found (omega arith) (λ t. newer) refl refl
      (omega (arith, k.voted msg.inst st found))
handle-Kept {msg} k (accepted {st} type found newer copied) =
    Kept-step k msg.inst _ _ found newer (λ t. absurd (omega arith)) refl refl (omega arith)

-- Queueing an answer and sending a batch leave the instances alone.
pub enqueue-states :
    (ctx : AcceptorCtx) (i : ℕ) (m : Message) (res : Bool) {ctx' : AcceptorCtx}
    → enqueue ctx i m res ≡ returned ctx'
    → ctx'.states ≡ ctx.states
unfolding enqueue
enqueue-states ctx i m true h = ground arith
enqueue-states ctx i m false h = ground arith

pub flush-states :
    (ctx : AcceptorCtx) (sends : Bool) {a : Acted}
    → flush ctx sends ≡ returned a
    → a.ctx.states ≡ ctx.states
unfolding flush
flush-states ctx sends h = ground arith

Rounds-Kept :
    {i : ℕ} {log : List Message} {ctx ctx' : AcceptorCtx} {ms : List Message}
    {rs : List (Option Message)}
    → Rounds i ctx ms rs ctx'
    → Kept log ctx.states
    → Kept (prepend rs log) ctx'.states
Rounds-Kept finish k = k
Rounds-Kept {i} {log} (answer {c1} {m} {r} fits h e rest) k = Rounds-Kept rest (
    subst (Kept (r ∷ log)) (sym (enqueue-states c1 i r true e))
      (handle-Kept k (handle-HandleCase _ (unpack m) h)))
Rounds-Kept {i} {log} (refuse {c1} {m} {r} fits h e rest) k = Rounds-Kept rest (
    subst (Kept log) (sym (enqueue-states c1 i r false e))
      (handle-Kept k (handle-HandleCase _ (unpack m) h)))

Kept-new : (conf : Config) (id : ℕ) → Kept [] (acceptor_ctx_new conf id).states
unfolding acceptor_ctx_new
Kept-new conf id = record {
  bounded = λ i st e. tt;
  voted = λ i st e.
      let fresh : st ≡ fresh_state =
        get_elem?-replicate (pos_part conf.maxinst) i fresh_state st e in
      omega (arith, ap AState.vrnd fresh);
  ordered = tt;
}

pub Session-Kept :
    {conf : Config} {id : ℕ} {log : List Message} {ctx : AcceptorCtx}
    → Session conf id log ctx
    → Kept log ctx.states
Session-Kept {conf} {id} start = Kept-new conf id
Session-Kept (batch {ctx'} {rs} s rounds e) =
    subst (Kept _) (sym (flush-states ctx' true e)) (Rounds-Kept rounds (Session-Kept s))

-- In every run of an acceptor, and for each instance: an answer is never for a lower round than an
-- earlier one, a promise is for a higher round than all earlier answers, no answer is for a round
-- above the promised one of the state, and the accepted round is at most the promised one.
pub promise_kept :
    {conf : Config} {id : ℕ} {log : List Message} {ctx : AcceptorCtx}
    → Session conf id log ctx
    → IsOrdered log
      × ((i : ℕ) (st : AState)
          → get_elem? ctx.states i ≡ some st
          → All (UpTo i st) log × (st.vrnd ≤ st.rnd))
promise_kept s = let k = Session-Kept s in (k.ordered, λ i st e. (k.bounded i st e, k.voted i st e))
