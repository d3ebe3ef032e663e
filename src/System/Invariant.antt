-- ===== src/System/Invariant.antt =====
-- What holds in every reachable state.
use libnetpaxos.Prelude.{ℕ, suc, ◌-◌, ◌%◌, ◌^◌, ◌<◌, ◌≡◌, refl, false, true, some, List, ◌∷◌, ◌++◌}
use libnetpaxos.Prelude.{returned, returned_inj, arith, subst, sym, ap, ◌∙◌, length, drop, All, In}
use libnetpaxos.Prelude.{
  All-map, All-in, All-append, in-append_right, inl, inr, dec_lt, ◌==◌, Bool-cases,
}
use libnetpaxos.Config.{Config}
use libnetpaxos.Message.{Message, pack, unpack, phase2a}
use libnetpaxos.Message.Wire.{IsMessage, pack-IsMessage, swap16-swap16, swap32-swap32}
use libnetpaxos.Message.Bytes.{to_bytes, from_bytes}
use libnetpaxos.Coordinator
use libnetpaxos.Coordinator.{CoordinatorCtx}
use libnetpaxos.Coordinator.Order.{IsRunning, on_value-IsOrdered, on_value_exhausted, ordered}
use libnetpaxos.Acceptor
use libnetpaxos.Acceptor.{AcceptorCtx}
use libnetpaxos.Acceptor.Quiet.{IsQuiet, IsOrder, VotesFor, IsQuietBatch, on_value-IsQuietBatch}
use libnetpaxos.Learner.{LearnerCtx, Delivery}
use libnetpaxos.Learner.Session.{Reached}
use libnetpaxos.Message.Request.{request}
use libnetpaxos.System.{System, update}

-- An order that the coordinator gave for one of the submitted values.
pub record IsGiven (next : ℕ) (submitted : List (List ℕ)) (o : Message) : Type 0 where
  pub below : (unpack o).inst < next
  pub form : IsOrder o
  pub value : In o.paxosval submitted

-- No two orders for one instance have different values.
abbrev pub AreUnique : List Message → Type 0
AreUnique orders =
    (o o' : Message)
    → In o orders
    → In o' orders
    → (unpack o).inst ≡ (unpack o').inst
    → o.paxosval ≡ o'.paxosval

-- A vote for one of the orders, and a received message that is one of the votes.
abbrev pub IsVote : List Message → Message → Type 0
IsVote orders v = (o : Message) × In o orders × VotesFor v o

abbrev pub IsUnpacked : List Message → Message → Type 0
IsUnpacked votes m = (v : Message) × In v votes × (m ≡ unpack v)

-- The run of one learner.
abbrev pub Learnt : Config → List Message → LearnerCtx → List Delivery → Type 0
Learnt conf votes ctx log =
    (hist : List Message) × Reached conf hist log ctx × All (IsUnpacked votes) hist

abbrev pub IsIdle : AcceptorCtx → Type 0
IsIdle ctx = IsQuiet ctx.states × (ctx.count_accepted ≡ 0)

pub record Inv (learner_conf : ℕ → Config) (s : System) : Type 0 where
  pub running : IsRunning s.coordinator
  pub bounded : s.coordinator.cur_inst < 2 ^ 31
  pub given : All (IsGiven s.coordinator.cur_inst s.submitted) s.orders
  pub unique : AreUnique s.orders
  pub idle : (i : ℕ) → IsIdle (s.acceptor i)
  pub voted : All (IsVote s.orders) s.votes
  pub learnt : (j : ℕ) → Learnt (learner_conf j) s.votes (s.learner j) (s.log j)

-- The message of a client.
request-IsMessage :
    (value client : List ℕ)
    → length value ≡ 32
    → length client ≡ 16
    → IsMessage (request value client)
request-IsMessage value client sv sc = pack-IsMessage (record {
  inst_fits = omega arith;
  rnd_fits = omega arith;
  vrnd_fits = omega arith;
  acptid_fits = omega arith;
  msgtype_fits = omega arith;
  value_size = sv;
  client_size = sc;
})

-- What the acceptors read of it once it is ordered.
pub unpack-ordered :
    (n : ℕ) (value client : List ℕ)
    → n < 2 ^ 31
    → ((unpack (ordered n (request value client))).inst ≡ n)
      × IsOrder (ordered n (request value client))
      × ((ordered n (request value client)).paxosval ≡ value)
unfolding unpack pack
unpack-ordered n value client h = (
  swap32-swap32 (n % 2 ^ 32) (omega arith) ∙ omega arith,
  (swap16-swap16 0 (omega arith), swap16-swap16 phase2a (omega arith)),
  refl,
)

-- What an order step does.
module _ {learner_conf : ℕ → Config} {s : System} (inv : Inv learner_conf s) where
  pub ordered-new :
      (value client : List ℕ) {ctx : CoordinatorCtx} {sent : List ℕ} {o : Message}
      → length value ≡ 32
      → length client ≡ 16
      → Coordinator.on_value (some (to_bytes (request value client))) s.coordinator
        ≡ returned (ctx, some sent)
      → from_bytes (drop 28 sent) ≡ some o
      → IsRunning ctx
        × (ctx.cur_inst ≡ suc s.coordinator.cur_inst)
        × (ctx.cur_inst < 2 ^ 31)
        × (o ≡ ordered s.coordinator.cur_inst (request value client))
  ordered-new value client {ctx} {sent} sv sc e eo =
      let v = request-IsMessage value client sv sc in
      elim (dec_lt s.coordinator.cur_inst (2 ^ 31 - 1)) [
        | yes left ↦
            let (ctx', sent', e', is) = on_value-IsOrdered s.coordinator inv.running v left in
            let same : ◌≡◌ {A = Coordinator.Acted} (ctx', some sent') (ctx, some sent) =
              returned_inj (sym e' ∙ e) in
            let same_ctx : ctx' ≡ ctx = ap (λ p. p.0) same in
            let same_sent : sent' ≡ sent = cc in
            (
              subst IsRunning same_ctx is.running,
              ap CoordinatorCtx.cur_inst (sym same_ctx) ∙ is.counted,
              omega (arith, ap CoordinatorCtx.cur_inst same_ctx, is.counted),
              cc (is.payload, eo, ap (λ b. from_bytes (drop 28 b)) same_sent),
            )
        | no out ↦ absurd (cc (on_value_exhausted s.coordinator inv.running v out, e))
      ]

  pub Inv-order :
      (value : List ℕ) {ctx : CoordinatorCtx} {o : Message}
      → IsRunning ctx
      → ctx.cur_inst ≡ suc s.coordinator.cur_inst
      → ctx.cur_inst < 2 ^ 31
      → (unpack o).inst ≡ s.coordinator.cur_inst
      → IsOrder o
      → o.paxosval ≡ value
      → Inv learner_conf
          (record s { coordinator = ctx; submitted = value ∷ s.submitted; orders = o ∷ s.orders })
  Inv-order value {ctx} {o} run next below at form is = record {
    running = run;
    bounded = below;
    given = (
      record { below = omega (arith, at, next); form = form; value = inl is },
      All-map older s.orders inv.given,
    );
    unique = λ x y ix iy same. elim ix [
      | inl ex ↦ elim iy [
        | inl ey ↦ ap Message.paxosval (ex ∙ sym ey)
        | inr oy ↦ absurd (apart y oy (sym same ∙ ap (λ m. (unpack m).inst) ex))
      ]
      | inr ox ↦ elim iy [
        | inl ey ↦ absurd (apart x ox (same ∙ ap (λ m. (unpack m).inst) ey))
        | inr oy ↦ inv.unique x y ox oy same
      ]
    ];
    idle = inv.idle;
    voted = All-map (λ v (m, i, for). (m, inr i, for)) s.votes inv.voted;
    learnt = inv.learnt;
  }
    where
      older :
          (x : Message)
          → IsGiven s.coordinator.cur_inst s.submitted x
          → IsGiven ctx.cur_inst (value ∷ s.submitted) x
      older x g = record {
        below = omega (arith, g.below, next);
        form = g.form;
        value = inr g.value;
      }

      apart : (x : Message) → In x s.orders → ¬ ((unpack x).inst ≡ (unpack o).inst)
      apart x ix e =
          let g = All-in (IsGiven s.coordinator.cur_inst s.submitted) s.orders inv.given x ix in
          omega (arith, g.below, e, at)

  pub Inv-accept :
      (i : ℕ) (ms : List Message) {a : Acceptor.Acted}
      → All (λ m. In m s.orders) ms
      → Acceptor.on_value (some ms) true (s.acceptor i) ≡ returned a
      → a.raised ≡ false
      → Inv learner_conf
          (record s { acceptor = update s.acceptor i a.ctx; votes = a.sent ++ s.votes })
  Inv-accept i ms {a} known e quiet =
      let form : All IsOrder ms =
        All-map
          (λ m im.
            (All-in (IsGiven s.coordinator.cur_inst s.submitted) s.orders inv.given m im).form)
          ms known in
      let b : IsQuietBatch ms a =
        on_value-IsQuietBatch (s.acceptor i) ms (inv.idle i).1 (inv.idle i).0 form e quiet in
      record {
        running = inv.running;
        bounded = inv.bounded;
        given = inv.given;
        unique = inv.unique;
        idle = λ j. elim (Bool-cases (i == j)) [
          | inl same ↦ rw same (b.quiet, b.clean)
          | inr other ↦ rw other (inv.idle j)
        ];
        voted =
            All-append (IsVote s.orders) a.sent s.votes
              (All-map (λ v (m, im, for). (m, All-in (λ x. In x s.orders) ms known m im, for))
                a.sent b.votes)
              inv.voted;
        learnt = λ j.
            let (hist, r, from) = inv.learnt j in
            (
              hist,
              r,
              All-map (λ m (v, iv, is). (v, in-append_right v a.sent s.votes iv, is)) hist from,
            );
      }
