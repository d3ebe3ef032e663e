-- ===== src/System/Tests.antt =====
-- A run of the system with one acceptor and two learners, up to a delivery by each learner.
use libnetpaxos.Prelude.{ℕ, ◌≡◌, ◌*◌, refl, arith, false, true, some, returned}
use libnetpaxos.Prelude.{List, [], ◌∷◌, ◌++◌, replicate, In, inl, take}
use libnetpaxos.Prelude.Int.{pos}
use libnetpaxos.Config.{Config, init_conf}
use libnetpaxos.Message.{Message, pack, unpack, swap16, swap32, phase2b}
use libnetpaxos.Message.Copy.{strcpy, memcpy}
use libnetpaxos.Message.Wire.{IsMessage}
use libnetpaxos.Message.Bytes.{to_bytes}
use libnetpaxos.Datagram.{init_rawsock}
use libnetpaxos.Datagram.Fields.{IsReady}
use libnetpaxos.Datagram.Fresh.{init_rawsock-IsReady}
use libnetpaxos.Coordinator
use libnetpaxos.Coordinator.{CoordinatorCtx}
use libnetpaxos.Coordinator.Order.{IsRunning, IsOrdered, ordered, on_value-IsOrdered}
use libnetpaxos.Acceptor
use libnetpaxos.Acceptor.{
  AcceptorCtx, acceptor_ctx_new, handle, handle_phase1a, handle_phase2a, enqueue, flush, gather,
  receive_one,
}
use libnetpaxos.Learner
use libnetpaxos.Learner.{
  LearnerCtx, Delivery, learner_ctx_new, majority, count_vote, shift_one, handle_accepted,
}
use libnetpaxos.Message.Request.{request}
use libnetpaxos.System.{System, order, accept, learn, update, init, Reach, start, later}
use libnetpaxos.System.Agreement.{agreement, validity}

abbrev conf : ℕ → Config
conf i = record init_conf { maxinst = pos 1; vlen = pos 1; num_acceptors = pos 1 }

abbrev addr : ℕ → List ℕ
addr host = 2 ∷ 0 ∷ 0x22 ∷ 0xb8 ∷ 10 ∷ 0 ∷ 0 ∷ host ∷ replicate 8 0

abbrev value : List ℕ
value = 65 ∷ replicate 31 0

abbrev client : List ℕ
client = addr 3

socket : (b : List ℕ) × (init_rawsock (addr 1) (addr 2) ≡ returned b) × IsReady b
socket = init_rawsock-IsReady (addr 1) (addr 2) refl refl

abbrev coordinator : CoordinatorCtx
coordinator = record {
  conf = conf 0;
  cur_inst = 0;
  dest = addr 2;
  mine = addr 1;
  msg_in = replicate 60 0;
  datagram = socket.0;
}

coordinator-IsRunning : IsRunning coordinator
coordinator-IsRunning = record { ready = socket.2; buffer = refl }

request-IsMessage : IsMessage (request value client)
unfolding pack swap16 swap32
request-IsMessage = record {
  inst_fits = omega arith;
  rnd_fits = omega arith;
  vrnd_fits = omega arith;
  acptid_fits = omega arith;
  msgtype_fits = omega arith;
  value_size = refl;
  client_size = refl;
}

handled :
    (ctx' : CoordinatorCtx) × (sent : List ℕ) × (Coordinator.on_value
        (some (to_bytes (request value client)))
        coordinator
      ≡ returned (ctx', some sent))
    × IsOrdered coordinator (request value client) ctx' sent
handled = on_value-IsOrdered coordinator coordinator-IsRunning request-IsMessage (omega arith)

abbrev an_order : Message
an_order = ordered 0 (request value client)

abbrev starting : System
starting = init conf conf coordinator

abbrev ordering : System
ordering = record starting {
  coordinator = handled.0;
  submitted = value ∷ [];
  orders = an_order ∷ [];
}

ordering-Reach : Reach conf conf ordering
ordering-Reach =
    later (start coordinator coordinator-IsRunning refl)
      (order value client refl refl handled.2 handled.3.payload)

abbrev a_vote : Message
a_vote = record {
  inst = 0;
  rnd = 0;
  vrnd = 0;
  acptid = 0;
  msgtype = phase2b * 256;
  paxosval = value;
  client = client;
}

abbrev voted : Acceptor.Acted
voted = record {
  ctx = record {
    acceptor_id = 0;
    count_accepted = 0;
    conf = conf 0;
    states = record { rnd = 0; vrnd = 0; paxosval = 65 ∷ replicate 32 0 } ∷ [];
    out_bufs = a_vote ∷ [];
    out_msgs = some 0 ∷ [];
  };
  sent = a_vote ∷ [];
  raised = false;
}

accepting :
    Acceptor.on_value (some (an_order ∷ [])) true (acceptor_ctx_new (conf 0) 0) ≡ returned voted
unfolding acceptor_ctx_new handle handle_phase1a handle_phase2a enqueue flush gather receive_one
    Acceptor.receive_from Acceptor.on_value pack unpack swap16 swap32 strcpy memcpy
accepting = refl

abbrev voting : System
voting = record ordering {
  acceptor = update ordering.acceptor 0 voted.ctx;
  votes = voted.sent ++ [];
}

voting-Reach : Reach conf conf voting
voting-Reach = later ordering-Reach (accept 0 (an_order ∷ []) refl (inl refl, tt) accepting refl)

abbrev delivery : Delivery
delivery = record { inst = 0; value = value; client = client }

abbrev learnt : Learner.Acted
learnt = record {
  ctx = record {
    conf = conf 0;
    mps = 1;
    num_packets = 1;
    maj = 1;
    states = record { rnd = 0; count = 1; from = 1; finished = true; paxosval = value } ∷ [];
    mine = replicate 16 0;
  };
  delivered = delivery ∷ [];
  raised = false;
}

learning : Learner.on_value (some (a_vote ∷ [])) (learner_ctx_new (conf 0)) ≡ returned learnt
unfolding learner_ctx_new majority Learner.on_value Learner.receive_from count_vote shift_one
    handle_accepted unpack swap16 swap32 strcpy memcpy
learning = refl

abbrev one_learnt : System
one_learnt = record voting {
  learner = update voting.learner 0 learnt.ctx;
  log = update voting.log 0 (delivery ∷ []);
}

abbrev both_learnt : System
both_learnt = record one_learnt {
  learner = update one_learnt.learner 1 learnt.ctx;
  log = update one_learnt.log 1 (delivery ∷ []);
}

one-Reach : Reach conf conf one_learnt
one-Reach = later voting-Reach (learn 0 (a_vote ∷ []) (inl refl, tt) learning)

both-Reach : Reach conf conf both_learnt
both-Reach = later one-Reach (learn 1 (a_vote ∷ []) (inl refl, tt) learning)

agreement_example : value ≡ value
agreement_example = agreement both-Reach 0 1 delivery delivery (inl refl) (inl refl) refl

validity_example : (v : List ℕ) × In v (value ∷ []) × (value ≡ take 32 v)
validity_example = validity both-Reach 0 delivery (inl refl)
