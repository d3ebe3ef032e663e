-- ===== src/Acceptor/Tests.antt =====
-- Runs of an acceptor of two instances and two buffers.
use libnetpaxos.Prelude.{ℕ, ◌*◌, ◌^◌, ◌≤◌, ◌≡◌, refl, arith, true, false, some, none, returned}
use libnetpaxos.Prelude.{List, [], ◌∷◌, replicate, get_elem?, All}
use libnetpaxos.Prelude.Int.{pos}
use libnetpaxos.Config.{Config, init_conf}
use libnetpaxos.Message.{Message, pack, unpack, swap16, swap32, phase1a, phase1b, phase2a, phase2b}
use libnetpaxos.Message.Copy.{strcpy}
use libnetpaxos.Acceptor.{
  on_value, AState, AcceptorCtx, Acted, acceptor_ctx_new, handle, handle_phase1a, handle_phase2a,
  enqueue, fresh_state, blank_message, flush, gather,
}
use libnetpaxos.Acceptor.Rounds.{Rounds, finish, answer, refuse, Session, start, batch}
use libnetpaxos.Acceptor.Promise.{IsOrdered, UpTo, promise_kept}
use libnetpaxos.Acceptor.Replies.{answers, sent-answers, sent_after_refusal}
use libnetpaxos.Acceptor.Total.{IsReadable}
use libnetpaxos.Acceptor.Total.Run.{Served, serve, serve_total}

abbrev conf : Config
conf = record init_conf { maxinst = pos 2; vlen = pos 2 }

abbrev fresh : AcceptorCtx
fresh = acceptor_ctx_new conf 1

-- Messages in host order and on the wire, with the value "A".
abbrev host : ℕ → ℕ → ℕ → Message
host inst rnd msgtype = record {
  inst = inst;
  rnd = rnd;
  vrnd = 0;
  acptid = 0;
  msgtype = msgtype;
  paxosval = 65 ∷ replicate 31 0;
  client = replicate 16 0;
}

abbrev wire : ℕ → ℕ → ℕ → Message
wire inst rnd msgtype = record (host 0 0 0) {
  inst = inst * 2 ^ 24;
  rnd = rnd * 256;
  msgtype = msgtype * 256;
}

-- A prepare and then a proposal, both for round 1 of instance 0.
abbrev round_one : List Message
round_one = wire 0 1 phase1a ∷ wire 0 1 phase2a ∷ []

-- The state after the prepare, and after the proposal.
abbrev promised : AState
promised = record fresh_state { rnd = 1 }

abbrev voted : AState
voted = record { rnd = 1; vrnd = 1; paxosval = 65 ∷ replicate 32 0 }

abbrev promise_of : Message
promise_of = record (host 0 1 phase1b) { vrnd = 1; acptid = 1; paxosval = 0 ∷ replicate 31 0 }

abbrev vote_of : Message
vote_of = record (host 0 1 phase2b) { acptid = 1 }

-- The context after the prepare, after the proposal, and after the batch.
abbrev one_answer : AcceptorCtx
one_answer = record {
  acceptor_id = 1;
  count_accepted = 1;
  conf = conf;
  states = promised ∷ fresh_state ∷ [];
  out_bufs = pack promise_of ∷ blank_message ∷ [];
  out_msgs = some 0 ∷ none ∷ [];
}

abbrev two_answers : AcceptorCtx
two_answers = record one_answer {
  count_accepted = 2;
  states = voted ∷ fresh_state ∷ [];
  out_bufs = pack promise_of ∷ pack vote_of ∷ [];
  out_msgs = some 0 ∷ some 1 ∷ [];
}

round_one-Rounds : Rounds 0 fresh round_one (some promise_of ∷ some vote_of ∷ []) two_answers
unfolding acceptor_ctx_new handle handle_phase1a handle_phase2a strcpy enqueue pack unpack swap16
    swap32
round_one-Rounds =
    answer {c1 = record fresh { states = promised ∷ fresh_state ∷ [] }} {c2 = one_answer}
      (omega arith) refl refl
      (answer {c1 = record one_answer { states = voted ∷ fresh_state ∷ [] }} (omega arith) refl refl
        finish)

abbrev batch_end : Acted
batch_end = record {
  ctx = record two_answers { count_accepted = 0 };
  sent = pack promise_of ∷ pack vote_of ∷ [];
  raised = false;
}

fresh_is_clean : fresh.count_accepted ≡ 0
unfolding acceptor_ctx_new
fresh_is_clean = refl

round_one_flush : flush two_answers true ≡ returned batch_end
unfolding flush gather
round_one_flush = refl

sent-answers_example :
    (a : Acted) × (on_value (some round_one) true fresh ≡ returned a)
    × (a.sent ≡ answers (some promise_of ∷ some vote_of ∷ []))
sent-answers_example = sent-answers fresh_is_clean round_one-Rounds refl

abbrev log : List Message
log = vote_of ∷ promise_of ∷ []

session : Session conf 1 log batch_end.ctx
session = batch start round_one-Rounds round_one_flush

promise_kept_example :
    IsOrdered log
    × ((i : ℕ) (st : AState)
        → get_elem? batch_end.ctx.states i ≡ some st
        → All (UpTo i st) log × (st.vrnd ≤ st.rnd))
promise_kept_example = promise_kept session

-- A proposal for round 0 after the batch is refused; the next one is answered.
abbrev refused_first : List Message
refused_first = wire 0 0 phase2a ∷ wire 1 2 phase2a ∷ []

abbrev second_vote : Message
second_vote = record (host 1 2 phase2b) { acptid = 1 }

abbrev after_refusal : AcceptorCtx
after_refusal = record batch_end.ctx { out_bufs = host 0 0 phase2a ∷ pack vote_of ∷ [] }

abbrev after_answer : AcceptorCtx
after_answer = record after_refusal {
  count_accepted = 1;
  states = voted ∷ record voted { rnd = 2; vrnd = 2 } ∷ [];
  out_bufs = host 0 0 phase2a ∷ pack second_vote ∷ [];
}

refused-Rounds : Rounds 0 batch_end.ctx refused_first (none ∷ some second_vote ∷ []) after_answer
unfolding handle handle_phase1a handle_phase2a strcpy enqueue pack unpack swap16 swap32
refused-Rounds = refuse {c1 = batch_end.ctx} {c2 = after_refusal} (omega arith) refl refl (
    answer {c1 = record after_refusal { states = after_answer.states }} (omega arith) refl refl
      finish)

sent_after_refusal_example :
    (a : Acted) × (on_value (some refused_first) true batch_end.ctx ≡ returned a)
    × (a.sent ≡ unpack (wire 0 0 phase2a) ∷ [])
sent_after_refusal_example = sent_after_refusal refl refused-Rounds

wire-IsReadable : All (λ m. IsReadable (unpack m)) round_one
unfolding unpack
wire-IsReadable = (
  record { value_size = refl; client_size = refl; ends = omega arith },
  (record { value_size = refl; client_size = refl; ends = omega arith }, tt),
)

serve_total_example : (r : Served) × (serve (round_one ∷ []) fresh ≡ returned r)
serve_total_example =
    serve_total conf 1 2 2 (round_one ∷ []) refl (omega arith) refl
      ((omega arith, wire-IsReadable), tt)
