-- ===== src/Acceptor/Total.antt =====
-- An acceptor's handlers do nothing undefined, on messages whose value is a C string within its
-- buffer.
pub mod Loop
pub mod Run
use libnetpaxos.Prelude.{
  ℕ, zero, suc, ◌+◌, ◌≤◌, ◌<◌, ◌≡◌, refl, Bool, true, false, some, List, [], ◌∷◌,
}
use libnetpaxos.Prelude.{
  ◌++◌, map, returned, ◌>>=◌, arith, subst, sym, ◌∙◌, ap, inl, inr, length, set, All,
}
use libnetpaxos.Prelude.{get_elem?, get_elem?_total, get_elem?-set, get_elem?-replicate, length-set}
use libnetpaxos.Prelude.{length-append, length-replicate, drop, ltb, leb, ◌==◌, Bool-cases}
use libnetpaxos.Prelude.{leb→le, lt→ltb}
use libnetpaxos.Prelude.Int.{pos_part, to_unsigned}
use libnetpaxos.Config.{Config}
use libnetpaxos.Message.{Message, unpack, pack, phase1a, phase2a}
use libnetpaxos.Message.Copy.{strcpy, strcpy_lem, length-strcpy, IsTerminated, c_string, strlen}
use libnetpaxos.Acceptor.{
  AState, AcceptorCtx, Acted, Handled, handle, handle_phase1a, handle_phase2a, enqueue, receive_one,
  receive_from, flush, on_value, fresh_state, acceptor_ctx_new,
}
use libnetpaxos.Acceptor.Cases.{promise, accept}

-- A message whose value field, read as a C string, ends within the 33 bytes of an acceptor's buffer.
pub record IsReadable (m : Message) : Type 0 where
  pub value_size : length m.paxosval ≡ 32
  pub client_size : length m.client ≡ 16
  pub ends : strlen (m.paxosval ++ m.client) ≤ 32

pub record IsGoodState (st : AState) : Type 0 where
  pub size : length st.paxosval ≡ 33
  pub ends : IsTerminated st.paxosval

pub record IsGood (ctx : AcceptorCtx) : Type 0 where
  pub instances : length ctx.states ≡ to_unsigned ctx.conf.maxinst
  pub good : (i : ℕ) (st : AState) → get_elem? ctx.states i ≡ some st → IsGoodState st
  pub slots : length ctx.out_msgs ≡ length ctx.out_bufs

strlen-c_string : (src rest : List ℕ) → strlen (c_string src ++ 0 ∷ rest) ≡ strlen src
strlen-c_string [] rest = refl
strlen-c_string (zero ∷ src) rest = refl
strlen-c_string (suc c ∷ src) rest = ap suc (strlen-c_string src rest)

-- A handler that returns a good context with the same buffers.
pub record Handles (ctx : AcceptorCtx) (r : Handled) : Type 0 where
  pub good : IsGood r.0
  pub same_conf : r.0.conf ≡ ctx.conf
  pub same_bufs : r.0.out_bufs ≡ ctx.out_bufs
  pub same_slots : r.0.out_msgs ≡ ctx.out_msgs
  pub same_count : r.0.count_accepted ≡ ctx.count_accepted

module _ {ctx : AcceptorCtx} {msg : Message} (g : IsGood ctx) (readable : IsReadable msg)
    (fits : msg.inst < length ctx.states) where
  Handles-set :
      (st' : AState) (m : Message) (b : Bool)
      → IsGoodState st'
      → Handles ctx (record ctx { states = set ctx.states msg.inst st' }, m, b)
  Handles-set st' m b ok = record {
    good = record {
      instances = length-set ctx.states msg.inst st' ∙ g.instances;
      good =
          get_elem?-set (λ i st. IsGoodState st) ctx.states msg.inst st' ok
            (λ j st ne e. g.good j st e);
      slots = g.slots;
    };
    same_conf = refl;
    same_bufs = refl;
    same_slots = refl;
    same_count = refl;
  }

  Handles-self : (m : Message) → Handles ctx (ctx, m, false)
  Handles-self m = record {
    good = g;
    same_conf = refl;
    same_bufs = refl;
    same_slots = refl;
    same_count = refl;
  }

  whole : length (msg.paxosval ++ msg.client) ≡ 48
  whole =
      omega (
        arith,
        length-append {0} msg.paxosval msg.client,
        readable.value_size,
        readable.client_size,
      )

  -- What `strcpy` leaves in a buffer.
  abbrev copy : List ℕ → List ℕ → List ℕ
  copy dst src = c_string src ++ 0 ∷ drop (suc (strlen src)) dst

  handle_phase1a_total : (r : Handled) × (handle_phase1a ctx msg ≡ returned r) × Handles ctx r
  unfolding handle_phase1a
  handle_phase1a_total =
      let (st, found) = get_elem?_total ctx.states msg.inst fits in
      let ok : IsGoodState st = g.good msg.inst st found in
      let copied =
        strcpy_lem (msg.paxosval ++ msg.client) st.paxosval ok.ends
          (omega (arith, whole, ok.size, ok.ends)) in
      elim (Bool-cases (ltb st.rnd msg.rnd)) [
        | inl newer ↦ (
          promise ctx msg st (copy (msg.paxosval ++ msg.client) st.paxosval),
          ground (arith, copied),
          Handles-set (record st { rnd = msg.rnd }) _ true
              (record { size = ok.size; ends = ok.ends }),
        )
        | inr old ↦ ((ctx, msg, false), ground arith, Handles-self msg)
      ]

  handle_phase2a_total : (r : Handled) × (handle_phase2a ctx msg ≡ returned r) × Handles ctx r
  unfolding handle_phase2a
  handle_phase2a_total =
      let (st, found) = get_elem?_total ctx.states msg.inst fits in
      let ok : IsGoodState st = g.good msg.inst st found in
      let copied =
        strcpy_lem st.paxosval (msg.paxosval ++ msg.client) (omega (arith, whole, readable.ends))
          (omega (arith, ok.size, readable.ends)) in
      elim (Bool-cases (leb st.rnd msg.rnd)) [
        | inl newer ↦ (
          accept ctx msg st (copy st.paxosval (msg.paxosval ++ msg.client)),
          ground (arith, copied),
          Handles-set
              (record st {
                rnd = msg.rnd;
                vrnd = msg.rnd;
                paxosval = copy st.paxosval (msg.paxosval ++ msg.client);
              })
              _ true
              (record {
                size = length-strcpy st.paxosval (msg.paxosval ++ msg.client) copied ∙ ok.size;
                ends = omega (
                  arith,
                  strlen-c_string (msg.paxosval ++ msg.client) _,
                  length-strcpy st.paxosval (msg.paxosval ++ msg.client) copied,
                  ok.size,
                  readable.ends,
                );
              }),
        )
        | inr old ↦ ((ctx, msg, false), ground arith, Handles-self msg)
      ]

  pub handle_total : (r : Handled) × (handle ctx msg ≡ returned r) × Handles ctx r
  unfolding handle
  handle_total = elim (Bool-cases (msg.msgtype == phase1a)) [
    | inl one ↦ let (r, e, ok) = handle_phase1a_total in (r, ground arith, ok)
    | inr more ↦ elim (Bool-cases (msg.msgtype == phase2a)) [
      | inl two ↦ let (r, e, ok) = handle_phase2a_total in (r, ground arith, ok)
      | inr other ↦ ((ctx, msg, false), ground arith, Handles-self msg)
    ]
  ]
