-- ===== src/Learner/Session/Step.antt =====
-- What every context of a run satisfies, and that each message keeps it.
use mathlib.Core.List.{append_assoc, append-nil}
use libnetpaxos.Prelude.{ℕ, ◌≡◌, ◌≢◌, refl, Bool, true, false, Option, some, none, inl, inr}
use libnetpaxos.Prelude.{List, [], ◌∷◌, ◌++◌, map, returned, arith, subst, sym, ◌∙◌, length, take}
use libnetpaxos.Prelude.{
  All, All-map, All-append, In, in-append_right, in_middle, Distinct, Distinct-map_snoc,
}
use libnetpaxos.Prelude.{get_elem?, get_elem?-set, length-append}
use libnetpaxos.Message.{Message, unpack}
use libnetpaxos.Message.Copy.{memcpy-eq-take, length-memcpy, length-strcpy}
use libnetpaxos.Learner.{
  PaxosState, LearnerCtx, Delivery, Acted, Counted, count_vote, handle_accepted, receive_from,
}
use libnetpaxos.Learner.Cases.{RoundCase, stopped, went, receive_from-RoundCase}
use libnetpaxos.Learner.Cases.{AcceptCase, silent, chose, handle_accepted-AcceptCase}
use libnetpaxos.Learner.Cases.{VoteCase, ignored, counted, renewed, count_vote-VoteCase}
use libnetpaxos.Learner.Tally.{
  Heard, Heard-subset, Tallied, Tallied-subset, count_vote-Tallied, IsChosen, count_vote-IsChosen,
}

-- The reason for a delivery: `maj` different acceptors voted in one round of the instance, and the
-- value is that of one of these votes, the one that completed the quorum.
pub record Quorum (hist : List Message) (maj : ℕ) (d : Delivery) : Type 0 where
  pub rnd : ℕ
  pub voters : List ℕ
  pub distinct : Distinct voters
  pub size : length voters ≡ maj
  pub heard : All (Heard hist d.inst rnd) voters
  pub last : Message
  pub received : In last hist
  pub same_inst : last.inst ≡ d.inst
  pub same_rnd : last.rnd ≡ rnd
  pub value : d.value ≡ take 32 last.paxosval
  pub client : d.client ≡ last.client

-- The state of one instance, with the deliveries so far.
pub record ValidState (hist : List Message) (dels : List Delivery) (i : ℕ) (st : PaxosState)
    : Type 0 where
  pub tallied : Tallied hist i st
  pub sized : length st.paxosval ≡ 32
  pub once : st.finished ≡ false → All (λ (d : Delivery). d.inst ≢ i) dels

pub record Valid (hist : List Message) (dels : List Delivery) (ctx : LearnerCtx) : Type 0 where
  pub instances :
      (i : ℕ) (st : PaxosState) → get_elem? ctx.states i ≡ some st → ValidState hist dels i st
  pub quorums : All (Quorum hist ctx.maj) dels
  pub distinct : Distinct (map Delivery.inst dels)
  pub numbered : ctx.num_packets ≡ length dels

-- What a vote leaves of a state, whatever its case.
length-count_vote :
    (maj : ℕ) (st : PaxosState) (m : Message) {r : PaxosState × Bool}
    → count_vote maj st m ≡ returned r
    → length r.0.paxosval ≡ length st.paxosval
length-count_vote maj st m h = go (count_vote-VoteCase maj st m h)
  where
    go : {r' : PaxosState × Bool} → VoteCase maj st m r' → length r'.0.paxosval ≡ length st.paxosval
    go (ignored _) = refl
    go (counted active same fits clear copied) = length-memcpy 32 st.paxosval m.paxosval copied
    go (renewed active later fits copied) =
        length-strcpy st.paxosval (m.paxosval ++ m.client) copied

count_vote-active :
    (maj : ℕ) (st : PaxosState) (m : Message) {r : PaxosState × Bool}
    → count_vote maj st m ≡ returned r
    → r.0.finished ≡ false
    → st.finished ≡ false
count_vote-active maj st m h f = go (count_vote-VoteCase maj st m h) f
  where
    go :
        {r' : PaxosState × Bool}
        → VoteCase maj st m r'
        → r'.0.finished ≡ false
        → st.finished ≡ false
    go (ignored _) f' = f'
    go (counted active same fits clear copied) f' = active
    go (renewed active later fits copied) f' = active

ValidState-subset :
    {hist hist' : List Message} {dels : List Delivery} {i : ℕ} {st : PaxosState}
    → ((m : Message) → In m hist → In m hist')
    → ValidState hist dels i st
    → ValidState hist' dels i st
ValidState-subset more v = record {
  tallied = Tallied-subset more v.tallied;
  sized = v.sized;
  once = v.once;
}

Quorum-subset :
    (hist hist' : List Message) (maj : ℕ)
    → ((m : Message) → In m hist → In m hist')
    → (d : Delivery) → Quorum hist maj d
    → Quorum hist' maj d
Quorum-subset hist hist' maj more d q = record {
  rnd = q.rnd;
  voters = q.voters;
  distinct = q.distinct;
  size = q.size;
  heard = All-map (Heard-subset hist hist' more d.inst q.rnd) q.voters q.heard;
  last = q.last;
  received = more q.last q.received;
  same_inst = q.same_inst;
  same_rnd = q.same_rnd;
  value = q.value;
  client = q.client;
}

pub Valid-subset :
    {hist hist' : List Message} {dels : List Delivery} {ctx : LearnerCtx}
    → ((m : Message) → In m hist → In m hist')
    → Valid hist dels ctx
    → Valid hist' dels ctx
Valid-subset {hist} {hist'} {dels} {ctx} more v = record {
  instances = λ i st e. ValidState-subset more (v.instances i st e);
  quorums = All-map (Quorum-subset hist hist' ctx.maj more) dels v.quorums;
  distinct = v.distinct;
  numbered = v.numbered;
}

-- The deliveries after a call.
abbrev logged : List Delivery → Option Delivery → List Delivery
logged dels none = dels
logged dels (some d) = dels ++ d ∷ []

module _ {hist : List Message} {dels : List Delivery} {ctx : LearnerCtx} (v : Valid hist dels ctx)
    (m : Message) where
  -- The instance of the message, when nothing is delivered.
  ValidState-silent :
      {st st' : PaxosState}
      → get_elem? ctx.states m.inst ≡ some st
      → count_vote ctx.maj st m ≡ returned (st', false)
      → ValidState (m ∷ hist) dels m.inst st'
  ValidState-silent {st} found e =
      let old : ValidState hist dels m.inst st = v.instances m.inst st found in
      record {
        tallied = count_vote-Tallied ctx.maj m old.tallied refl e;
        sized = length-count_vote ctx.maj st m e ∙ old.sized;
        once = λ f. old.once (count_vote-active ctx.maj st m e f);
      }

  -- The delivery that a chosen value makes has a quorum.
  Quorum-chose :
      {st st' : PaxosState}
      → get_elem? ctx.states m.inst ≡ some st
      → count_vote ctx.maj st m ≡ returned (st', true)
      → Quorum
          (m ∷ hist)
          ctx.maj
          (record { inst = m.inst; value = st'.paxosval; client = m.client })
  Quorum-chose {st} {st'} found e =
      let old : ValidState hist dels m.inst st = v.instances m.inst st found in
      let chosen : IsChosen ctx.maj st m st' = count_vote-IsChosen ctx.maj st m e in
      let t : Tallied (m ∷ hist) m.inst st' = count_vote-Tallied ctx.maj m old.tallied refl e in
      record {
        rnd = st'.rnd;
        voters = t.voters;
        distinct = t.distinct;
        size = t.size ∙ chosen.reached;
        heard = t.heard;
        last = m;
        received = inl refl;
        same_inst = refl;
        same_rnd = chosen.same_round;
        value = memcpy-eq-take 32 st.paxosval m.paxosval chosen.value old.sized;
        client = refl;
      }

  ValidState-chose :
      {st st' : PaxosState} (d : Delivery)
      → d.inst ≡ m.inst
      → get_elem? ctx.states m.inst ≡ some st
      → count_vote ctx.maj st m ≡ returned (st', true)
      → ValidState (m ∷ hist) (dels ++ d ∷ []) m.inst st'
  ValidState-chose {st} {st'} d at found e =
      let old : ValidState hist dels m.inst st = v.instances m.inst st found in
      let chosen : IsChosen ctx.maj st m st' = count_vote-IsChosen ctx.maj st m e in
      record {
        tallied = count_vote-Tallied ctx.maj m old.tallied refl e;
        sized = length-count_vote ctx.maj st m e ∙ old.sized;
        once = λ f. cc (chosen.closed);
      }

  -- Another instance is not concerned by the delivery.
  ValidState-other :
      (d : Delivery)
      → d.inst ≡ m.inst
      → (j : ℕ) (st : PaxosState) → m.inst ≢ j
      → get_elem? ctx.states j ≡ some st
      → ValidState (m ∷ hist) (dels ++ d ∷ []) j st
  ValidState-other d at j st ne found =
      let old : ValidState hist dels j st = v.instances j st found in
      record {
        tallied = Tallied-subset (λ x i. inr i) old.tallied;
        sized = old.sized;
        once = λ f.
            All-append (λ (x : Delivery). x.inst ≢ j) dels (d ∷ []) (old.once f)
              ((λ e. ne (sym at ∙ e)), tt);
      }

  -- A delivery is the first of its instance.
  Distinct-chose :
      {st st' : PaxosState} (d : Delivery)
      → d.inst ≡ m.inst
      → get_elem? ctx.states m.inst ≡ some st
      → count_vote ctx.maj st m ≡ returned (st', true)
      → Distinct (map Delivery.inst (dels ++ d ∷ []))
  Distinct-chose {st} d at found e =
      let chosen = count_vote-IsChosen ctx.maj st m e in
      let fresh = (v.instances m.inst st found).once chosen.active in
      let apart : All (λ (x : Delivery). x.inst ≢ d.inst) dels =
        All-map (λ x ne same. ne (same ∙ at)) dels fresh in
      Distinct-map_snoc Delivery.inst dels d v.distinct apart

  pub handle_accepted-Valid :
      {r : Counted} → handle_accepted ctx m ≡ returned r → Valid (m ∷ hist) (logged dels r.1) r.0
  handle_accepted-Valid h = go (handle_accepted-AcceptCase ctx m h)
    where
      go : {r' : Counted} → AcceptCase ctx m r' → Valid (m ∷ hist) (logged dels r'.1) r'.0
      go (silent {st} {st'} found e) = record {
        instances =
            get_elem?-set (ValidState (m ∷ hist) dels) ctx.states m.inst st'
              (ValidState-silent found e)
              (λ j a ne f. ValidState-subset (λ x i. inr i) (v.instances j a f));
        quorums = All-map (Quorum-subset hist (m ∷ hist) ctx.maj (λ x i. inr i)) dels v.quorums;
        distinct = v.distinct;
        numbered = v.numbered;
      }
      go (chose {st} {st'} found e) =
          let d : Delivery = record { inst = m.inst; value = st'.paxosval; client = m.client } in
          record {
            instances =
                get_elem?-set (ValidState (m ∷ hist) (dels ++ d ∷ [])) ctx.states m.inst st'
                  (ValidState-chose d refl found e) (ValidState-other d refl);
            quorums =
                All-append (Quorum (m ∷ hist) ctx.maj) dels (d ∷ [])
                  (All-map (Quorum-subset hist (m ∷ hist) ctx.maj (λ x i. inr i)) dels v.quorums)
                  (Quorum-chose found e, tt);
            distinct = Distinct-chose d refl found e;
            numbered = omega (arith, v.numbered, length-append {0} dels (d ∷ []));
          }

-- Every context in which the loop of `on_value` can stop is valid.
pub receive_from-Valid :
    {hist : List Message} {dels : List Delivery} {ctx : LearnerCtx}
    → Valid hist dels ctx
    → (ms : List Message) {a : Acted} → receive_from ms ctx ≡ returned a
    → Valid (map unpack ms ++ hist) (dels ++ a.delivered) a.ctx
unfolding receive_from
receive_from-Valid {hist} {dels} {ctx} v [] {a} h =
    let stays : record { ctx = ctx; delivered = []; raised = false } ≡ a = ground arith in
    subst (λ (b : Acted). Valid hist (dels ++ b.delivered) b.ctx) stays
      (subst (λ l. Valid hist l ctx) (sym (append-nil dels)) v)
receive_from-Valid {hist} {dels} {ctx} v (m ∷ ms) {a} h =
    go (receive_from-RoundCase ctx m ms h)
      (λ ds c w b e. receive_from-Valid {hist = unpack m ∷ hist} {dels = ds} {ctx = c} w ms e)
  where
    go :
        {b : Acted}
        → RoundCase ctx m ms b
        → ((ds : List Delivery) (c : LearnerCtx)
            → Valid (unpack m ∷ hist) ds c
            → (rest : Acted) → receive_from ms c ≡ returned rest
            → Valid (map unpack ms ++ (unpack m ∷ hist)) (ds ++ rest.delivered) rest.ctx)
        → Valid (unpack m ∷ (map unpack ms ++ hist)) (dels ++ b.delivered) b.ctx
    go (stopped past) ih =
        subst (λ l. Valid (unpack m ∷ (map unpack ms ++ hist)) l ctx) (sym (append-nil dels))
          (Valid-subset (λ x i. inr (in-append_right x (map unpack ms) hist i)) v)
    go (went {ctx'} {o = none} {rest} fits e e') ih =
        Valid-subset (in_middle (unpack m) (map unpack ms) hist)
          (ih dels ctx' (handle_accepted-Valid v (unpack m) e) rest e')
    go (went {ctx'} {o = some d} {rest} fits e e') ih =
        subst (λ l. Valid (unpack m ∷ (map unpack ms ++ hist)) l rest.ctx)
          (append_assoc dels (d ∷ []) rest.delivered)
          (Valid-subset (in_middle (unpack m) (map unpack ms) hist)
            (ih (dels ++ d ∷ []) ctx' (handle_accepted-Valid v (unpack m) e) rest e'))

-- A message leaves the size of the quorum alone.
pub receive_from-maj :
    (ms : List Message) (ctx : LearnerCtx) {a : Acted}
    → receive_from ms ctx ≡ returned a
    → a.ctx.maj ≡ ctx.maj
unfolding receive_from
receive_from-maj [] ctx h = ground arith
receive_from-maj (m ∷ ms) ctx h =
    go (receive_from-RoundCase ctx m ms h) (λ c b e. receive_from-maj ms c {a = b} e)
  where
    handled : {r : Counted} → AcceptCase ctx (unpack m) r → r.0.maj ≡ ctx.maj
    handled (silent found e) = refl
    handled (chose found e) = refl

    go :
        {b : Acted}
        → RoundCase ctx m ms b
        → ((c : LearnerCtx) (rest : Acted)
            → receive_from ms c ≡ returned rest
            → rest.ctx.maj ≡ c.maj)
        → b.ctx.maj ≡ ctx.maj
    go (stopped past) ih = refl
    go (went {ctx'} {o = none} {rest} fits e e') ih =
        ih ctx' rest e' ∙ handled (handle_accepted-AcceptCase ctx (unpack m) e)
    go (went {ctx'} {o = some d} {rest} fits e e') ih =
        ih ctx' rest e' ∙ handled (handle_accepted-AcceptCase ctx (unpack m) e)
