-- ===== src/Learner/Progress.antt =====
-- A majority of votes makes a learner deliver.
use Prim.Native.Nat.{bit_and, bit_or}
use mathlib.Core.List.{append-nil}
use libnetpaxos.Prelude.{
  ℕ, suc, ◌+◌, ◌^◌, ◌<◌, ◌≤◌, ◌≡◌, ◌≢◌, refl, arith, ap, sym, ◌∙◌, true, false, some, none, List,
  [], ◌∷◌, length, map, take, drop, take_all, drop_all, set, get_elem?, get_elem?-set_self,
  get_elem?-set_ne, get_elem?_bound, get_elem?_total, get_elem?-replicate, replicate,
  length-replicate, All, Distinct, ltb, leb, ◌==◌, lt→ltb, returned,
}
use libnetpaxos.Prelude.Bits.{bit, bit-zero, bit-bit_or, bit-pow_ne, bit_and-pow_iff}
use libnetpaxos.Prelude.Int.{pos, pos_part, to_unsigned}
use libnetpaxos.Config.{Config}
use libnetpaxos.Message.{Message, unpack}
use libnetpaxos.Message.Copy.{memcpy, memcpy_lem}
use libnetpaxos.Learner.{
  PaxosState, quorum, learner_ctx_new, fresh_state, LearnerCtx, shift_one, count_vote,
  handle_accepted, receive_from, on_value,
}

-- An instance that waits for votes in round `rnd`, after `voted` votes.
pub record IsWaiting (maj rnd voted : ℕ) (st : PaxosState) : Type 0 where
  pub active : st.finished ≡ false
  pub same_round : st.rnd ≡ rnd
  pub counted : st.count ≡ voted
  pub room : length st.paxosval ≡ 32

-- A vote, as it is read, for a value.
pub record IsVote (inst rnd : ℕ) (value client : List ℕ) (m : Message) : Type 0 where
  pub same_inst : m.inst ≡ inst
  pub same_round : m.rnd ≡ rnd
  pub small_id : m.acptid < 31
  pub same_value : m.paxosval ≡ value
  pub same_client : m.client ≡ client

-- The state after a vote that counts.
abbrev pub voted : ℕ → List ℕ → PaxosState → Message → PaxosState
voted maj value st m = record st {
  from = bit_or st.from (2 ^ m.acptid);
  count = suc st.count;
  paxosval = value;
  finished = suc st.count == maj;
}

copied : (dst src : List ℕ) → length dst ≡ 32 → length src ≡ 32 → memcpy dst src 32 ≡ returned src
copied dst src d s =
    let whole : take 32 src ≡ src = ap (λ n. take n src) (sym s) ∙ take_all src in
    let nothing : drop 32 dst ≡ [] = ap (λ n. drop n dst) (sym d) ∙ drop_all dst in
    memcpy_lem 32 dst src (omega (arith, d)) (omega (arith, s))
    ∙ rw (whole, nothing) (ap returned (append-nil src))

count_vote-voted :
    (maj : ℕ) {inst rnd count : ℕ} {value client : List ℕ} (st : PaxosState) (m : Message)
    → IsWaiting maj rnd count st
    → IsVote inst rnd value client m
    → length value ≡ 32
    → bit st.from m.acptid ≡ 0
    → count_vote maj st m ≡ returned (voted maj value st m, suc st.count == maj)
unfolding count_vote shift_one
count_vote-voted maj {value = value} st m w v size clear =
    let same : (m.rnd == st.rnd) ≡ true = ground (arith, w.same_round, v.same_round) in
    let fits : ltb m.acptid 31 ≡ true = lt→ltb m.acptid 31 v.small_id in
    let none_before = (bit_and-pow_iff m.acptid st.from).1 clear in
    let new : (bit_and st.from (2 ^ m.acptid) == 0) ≡ true = ground (arith, none_before) in
    let copy = copied st.paxosval value w.room size in
    rw (w.active, same, fits, new, v.same_value, copy) refl

abbrev pub voter : Message → ℕ
voter m = (unpack m).acptid

-- Nothing but the state of one instance and the counters has changed.
pub record Alone (inst : ℕ) (ctx ctx' : LearnerCtx) : Type 0 where
  pub same_conf : ctx'.conf ≡ ctx.conf
  pub same_maj : ctx'.maj ≡ ctx.maj
  pub others : (j : ℕ) → inst ≢ j → get_elem? ctx'.states j ≡ get_elem? ctx.states j

-- The other voters' bits stay clear.
still_clear :
    (from k : ℕ) (ms : List Message)
    → All (λ a. k ≢ a) (map voter ms)
    → All (λ m. bit from (voter m) ≡ 0) ms
    → All (λ m. bit (bit_or from (2 ^ k)) (voter m) ≡ 0) ms
still_clear from k [] others clear = tt
still_clear from k (m ∷ ms) (other, others) (here, clear) =
    let not_mine : bit (2 ^ k) (voter m) ≡ 0 = bit-pow_ne (voter m) k (λ e. other (sym e)) in
    (
      omega (arith, bit-bit_or (voter m) from (2 ^ k), here, not_mine),
      still_clear from k ms others clear,
    )

module _ (inst rnd : ℕ) (value client : List ℕ) (size : length value ≡ 32) where
  -- One vote that is not the last.
  handle_accepted-voted :
      (ctx : LearnerCtx) (st : PaxosState) (m : Message) {count : ℕ}
      → get_elem? ctx.states inst ≡ some st
      → IsWaiting ctx.maj rnd count st
      → IsVote inst rnd value client m
      → bit st.from m.acptid ≡ 0
      → suc count < ctx.maj
      → handle_accepted ctx m
        ≡ returned (record ctx { states = set ctx.states inst (voted ctx.maj value st m) }, none)
  unfolding handle_accepted
  handle_accepted-voted ctx st m at w v clear more =
      let here : get_elem? ctx.states m.inst ≡ some st =
        ap (get_elem? ctx.states) v.same_inst ∙ at in
      let counts = count_vote-voted ctx.maj st m w v size clear in
      let waits : (suc st.count == ctx.maj) ≡ false = ground (arith, w.counted) in
      rw (here, counts, waits) (rw v.same_inst refl)

  -- The last one.
  handle_accepted-chosen :
      (ctx : LearnerCtx) (st : PaxosState) (m : Message) {count : ℕ}
      → get_elem? ctx.states inst ≡ some st
      → IsWaiting ctx.maj rnd count st
      → IsVote inst rnd value client m
      → bit st.from m.acptid ≡ 0
      → suc count ≡ ctx.maj
      → (ctx' : LearnerCtx) × Alone inst ctx ctx'
        × (handle_accepted ctx m
            ≡ returned (ctx', some (record { inst = inst; value = value; client = client })))
  unfolding handle_accepted
  handle_accepted-chosen ctx st m at w v clear last =
      let here : get_elem? ctx.states m.inst ≡ some st =
        ap (get_elem? ctx.states) v.same_inst ∙ at in
      let counts = count_vote-voted ctx.maj st m w v size clear in
      let ends : (suc st.count == ctx.maj) ≡ true = ground (arith, w.counted) in
      (
        record ctx {
          states = set ctx.states m.inst (voted ctx.maj value st m);
          mps = suc ctx.mps;
          num_packets = suc ctx.num_packets;
        },
        record {
          same_conf = refl;
          same_maj = refl;
          others = λ j ne.
              get_elem?-set_ne ctx.states m.inst j (voted ctx.maj value st m)
                (λ e. ne (sym v.same_inst ∙ e));
        },
        rw (here, counts, ends) (rw (v.same_inst, v.same_client) refl),
      )

  -- A batch of votes that are just enough.
  pub receive_from-chosen :
      (ms : List Message) (m : Message) (ctx : LearnerCtx) (st : PaxosState) (count : ℕ)
      → get_elem? ctx.states inst ≡ some st
      → IsWaiting ctx.maj rnd count st
      → inst < to_unsigned ctx.conf.maxinst
      → All (λ m. IsVote inst rnd value client (unpack m)) (m ∷ ms)
      → Distinct (map voter (m ∷ ms))
      → All (λ m. bit st.from (voter m) ≡ 0) (m ∷ ms)
      → count + length (m ∷ ms) ≡ ctx.maj
      → (ctx' : LearnerCtx) × Alone inst ctx ctx'
        × (receive_from (m ∷ ms) ctx
            ≡ returned (record {
              ctx = ctx';
              delivered = record { inst = inst; value = value; client = client } ∷ [];
              raised = false;
            }))
  unfolding receive_from
  receive_from-chosen [] m ctx st count at w known (v, vs) distinct (clear, cs) enough =
      let inside : leb (to_unsigned ctx.conf.maxinst) (unpack m).inst ≡ false =
        ground (arith, v.same_inst) in
      let (ctx', alone, e) =
        handle_accepted-chosen ctx st (unpack m) at w v clear (omega (arith, enough)) in
      (ctx', alone, rw (inside, e) refl)
  receive_from-chosen (m' ∷ ms) m ctx st count at w known (v, vs) (others, distinct) (clear, cs)
        enough =
      let inside : leb (to_unsigned ctx.conf.maxinst) (unpack m).inst ≡ false =
        ground (arith, v.same_inst) in
      let st' : PaxosState = voted ctx.maj value st (unpack m) in
      let e = handle_accepted-voted ctx st (unpack m) at w v clear (omega (arith, enough)) in
      let waits : (suc st.count == ctx.maj) ≡ false = ground (arith, w.counted, enough) in
      let w' : IsWaiting ctx.maj rnd (suc count) st' = record {
        active = waits;
        same_round = w.same_round;
        counted = ap suc w.counted;
        room = size;
      } in
      let (ctx', alone, e') =
        receive_from-chosen ms m' (record ctx { states = set ctx.states inst st' }) st' (suc count)
          (get_elem?-set_self ctx.states inst st' (get_elem?_bound ctx.states inst st at)) w' known
          vs distinct (still_clear st.from (voter m) (m' ∷ ms) others cs) (omega (arith, enough)) in
      (
        ctx',
        record {
          same_conf = alone.same_conf;
          same_maj = alone.same_maj;
          others = λ j ne. alone.others j ne ∙ get_elem?-set_ne ctx.states inst j st' ne;
        },
        rw (inside, e, e') refl,
      )

pub all_clear : (ms : List Message) → All (λ m. bit 0 (voter m) ≡ 0) ms
all_clear [] = tt
all_clear (m ∷ ms) = (bit-zero (voter m), all_clear ms)

-- A new learner that receives, in one batch, votes of round 0 for a value and an instance that it
-- knows, from as many different acceptors with ids below 31 as are a majority, delivers the value
-- for the instance, once, and nothing else.
pub on_value-chosen :
    (conf : Config) (n inst : ℕ) (value client : List ℕ) (ms : List Message)
    → conf.maxinst ≡ pos n
    → n < 2 ^ 32
    → inst < n
    → 1 ≤ quorum conf.num_acceptors
    → length value ≡ 32
    → All (λ m. IsVote inst 0 value client (unpack m)) ms
    → Distinct (map voter ms)
    → length ms ≡ quorum conf.num_acceptors
    → (ctx : LearnerCtx) × (on_value (some ms) (learner_ctx_new conf)
        ≡ returned (record {
          ctx = ctx;
          delivered = record { inst = inst; value = value; client = client } ∷ [];
          raised = false;
        }))
unfolding on_value learner_ctx_new
on_value-chosen conf n inst value client [] known fits below some_vote size votes distinct enough =
    absurd (omega (arith, enough))
on_value-chosen conf n inst value client (m ∷ ms) known fits below some_vote size votes distinct
      enough =
    let count : pos_part conf.maxinst ≡ n = rw known refl in
    let room : inst < length (replicate (pos_part conf.maxinst) fresh_state) =
      omega (arith, count, length-replicate (pos_part conf.maxinst) fresh_state) in
    let unsigned : to_unsigned conf.maxinst ≡ n = rw known (omega arith) in
    let (st, found) = get_elem?_total (replicate (pos_part conf.maxinst) fresh_state) inst room in
    let fresh = get_elem?-replicate (pos_part conf.maxinst) inst fresh_state st found in
    let (ctx, _, e) =
      receive_from-chosen inst 0 value client size ms m (learner_ctx_new conf) fresh_state 0
        (found ∙ ap some fresh)
        (record { active = refl; same_round = refl; counted = refl; room = refl })
        (omega (arith, unsigned)) votes distinct (all_clear (m ∷ ms)) (omega (arith, enough)) in
    (ctx, e)
