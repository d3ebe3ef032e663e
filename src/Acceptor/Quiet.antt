-- ===== src/Acceptor/Quiet.antt =====
-- An acceptor that only ever gets messages of round 0 for phase 2: it answers every one of them,
-- with the value that it got.
use libnetpaxos.Prelude.{ℕ, suc, ◌^◌, ◌<◌, ◌≡◌, refl, true, false, Option, some, List, ◌∷◌}
use libnetpaxos.Prelude.{
  returned, arith, sym, ap, ◌∙◌, subst, length, get_elem?, get_elem?-set, All, In,
}
use libnetpaxos.Prelude.{inl, inr, All-map, get_elem?-replicate, returned_inj}
use libnetpaxos.Prelude.Int.{pos_part}
use libnetpaxos.Config.{Config}
use libnetpaxos.Message.{Message, pack, unpack, phase2a}
use libnetpaxos.Message.Wire.{swap32-lt, swap32-swap32}
use libnetpaxos.Acceptor.{
  AState, AcceptorCtx, Acted, Handled, on_value, fresh_state, acceptor_ctx_new,
}
use libnetpaxos.Acceptor.Cases.{HandleCase, passed, promised, accepted, handle-HandleCase}
use libnetpaxos.Acceptor.Rounds.{Rounds, finish, answer, refuse, on_value-Rounds}
use libnetpaxos.Acceptor.Promise.{enqueue-states}
use libnetpaxos.Acceptor.Replies.Queue.{answered}
use libnetpaxos.Acceptor.Replies.{answers, flush-answers, flush_total}

-- No instance has promised a round above 0.
abbrev pub IsQuiet : List AState → Type 0
IsQuiet states = (i : ℕ) (st : AState) → get_elem? states i ≡ some st → st.rnd ≡ 0

-- A message of the coordinator, in network order.
abbrev pub IsOrder : Message → Type 0
IsOrder m = ((unpack m).rnd ≡ 0) × ((unpack m).msgtype ≡ phase2a)

-- A vote for an order.
abbrev pub VotesFor : Message → Message → Type 0
VotesFor v m = ((unpack v).inst ≡ (unpack m).inst) × (v.paxosval ≡ m.paxosval)

record Voted (msg : Message) (r : Handled) : Type 0 where
  answered : r.2 ≡ true
  quiet : IsQuiet r.0.states
  same_inst : r.1.inst ≡ msg.inst
  same_value : r.1.paxosval ≡ msg.paxosval

HandleCase-Voted :
    {ctx : AcceptorCtx} {msg : Message} {r : Handled}
    → HandleCase ctx msg r
    → IsQuiet ctx.states
    → msg.rnd ≡ 0
    → msg.msgtype ≡ phase2a
    → Voted msg r
HandleCase-Voted {msg} (passed one two) q zero type =
    let (st, found, newer) = two type in absurd (omega (arith, q msg.inst st found))
HandleCase-Voted (promised t found newer copied) q zero type = absurd (omega arith)
HandleCase-Voted {ctx} {msg} (accepted t found newer copied) q zero type = record {
  answered = refl;
  quiet = get_elem?-set (λ i st. st.rnd ≡ 0) ctx.states msg.inst _ zero (λ j st ne e. q j st e);
  same_inst = refl;
  same_value = refl;
}

pack-VotesFor :
    (m r : Message) → r.inst ≡ (unpack m).inst → r.paxosval ≡ m.paxosval → VotesFor (pack r) m
unfolding pack unpack
pack-VotesFor m r same value =
    (swap32-swap32 r.inst (subst (λ n. n < 2 ^ 32) (sym same) (swap32-lt m.inst)) ∙ same, value)

-- What the rounds of a batch of orders leave.
record Quieted (ms : List Message) (rs : List (Option Message)) (ctx' : AcceptorCtx) : Type 0 where
  full : answered rs ≡ length ms
  quiet : IsQuiet ctx'.states
  votes : All (λ v. (m : Message) × In m ms × VotesFor v m) (answers rs)

Rounds-Quieted :
    {i : ℕ} {ctx ctx' : AcceptorCtx} {ms : List Message} {rs : List (Option Message)}
    → Rounds i ctx ms rs ctx'
    → IsQuiet ctx.states
    → All IsOrder ms
    → Quieted ms rs ctx'
Rounds-Quieted finish q orders = record { full = refl; quiet = q; votes = tt }
Rounds-Quieted {i} {ctx} {rs = some r ∷ rs} (answer {c1} {m} {ms} fits h e rest) q orders =
    let v : Voted (unpack m) (c1, r, true) =
      HandleCase-Voted (handle-HandleCase ctx (unpack m) h) q orders.0.0 orders.0.1 in
    let t =
      Rounds-Quieted rest (subst IsQuiet (sym (enqueue-states c1 i r true e)) v.quiet) orders.1 in
    record {
      full = ap suc t.full;
      quiet = t.quiet;
      votes = (
        (m, inl refl, pack-VotesFor m r v.same_inst (v.same_value ∙ unpack_value m)),
        All-map (λ w (m', at, for). (m', inr at, for)) (answers rs) t.votes,
      );
    }
  where
    unpack_value : (x : Message) → (unpack x).paxosval ≡ x.paxosval
    unpack_value x = unfold unpack in refl
Rounds-Quieted {i} {ctx} (refuse {c1} {m} {r} fits h e rest) q orders =
    let v : Voted (unpack m) (c1, r, false) =
      HandleCase-Voted (handle-HandleCase ctx (unpack m) h) q orders.0.0 orders.0.1 in
    absurd (cc (v.answered))

-- What a quiet acceptor without left answers does with a batch of orders.
pub record IsQuietBatch (ms : List Message) (a : Acted) : Type 0 where
  pub clean : a.ctx.count_accepted ≡ 0
  pub quiet : IsQuiet a.ctx.states
  pub votes : All (λ v. (m : Message) × In m ms × VotesFor v m) a.sent

pub on_value-IsQuietBatch :
    (ctx : AcceptorCtx) (ms : List Message) {a : Acted}
    → ctx.count_accepted ≡ 0
    → IsQuiet ctx.states
    → All IsOrder ms
    → on_value (some ms) true ctx ≡ returned a
    → a.raised ≡ false
    → IsQuietBatch ms a
on_value-IsQuietBatch ctx ms {a} clean q orders h quiet_end =
    let (c, rs, rounds, flushed) = on_value-Rounds ctx ms h quiet_end in
    let t = Rounds-Quieted rounds q orders in
    let (b, e, same) = flush_total clean rounds in
    let ctx_is : a.ctx ≡ record c { count_accepted = 0 } =
      ap Acted.ctx (returned_inj (sym flushed ∙ e)) ∙ same in
    record {
      clean = ap AcceptorCtx.count_accepted ctx_is;
      quiet = subst (λ (d : AcceptorCtx). IsQuiet d.states) (sym ctx_is) t.quiet;
      votes =
          subst (All (λ v. (m : Message) × In m ms × VotesFor v m))
            (sym (flush-answers clean rounds flushed t.full)) t.votes;
    }

pub acceptor_ctx_new-IsQuiet :
    (conf : Config) (id : ℕ)
    → IsQuiet (acceptor_ctx_new conf id).states × ((acceptor_ctx_new conf id).count_accepted ≡ 0)
unfolding acceptor_ctx_new
acceptor_ctx_new-IsQuiet conf id =
    (λ i st e. ap AState.rnd (get_elem?-replicate (pos_part conf.maxinst) i fresh_state st e), refl)
