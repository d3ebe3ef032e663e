-- ===== src/Acceptor/Total/Loop.antt =====
-- The loop of `on_value` and the whole callback do nothing undefined.
use libnetpaxos.Prelude.{
  ℕ, suc, ◌+◌, ◌≤◌, ◌<◌, ◌≡◌, refl, Bool, true, false, some, none, List, [], ◌∷◌,
}
use libnetpaxos.Prelude.{returned, ◌>>=◌, arith, subst, sym, ◌∙◌, ap, inl, inr, length, set, All}
use libnetpaxos.Prelude.{get_elem?-replicate, length-set}
use libnetpaxos.Prelude.{length-replicate, leb, Bool-cases}
use libnetpaxos.Prelude.{lt→ltb}
use libnetpaxos.Prelude.Int.{pos_part, to_unsigned}
use libnetpaxos.Config.{Config}
use libnetpaxos.Message.{Message, unpack, pack}
use libnetpaxos.Acceptor.{
  AcceptorCtx, Acted, enqueue, receive_one, receive_from, on_value, fresh_state, blank_message,
  acceptor_ctx_new,
}
use libnetpaxos.Acceptor.Total.{IsReadable, IsGoodState, IsGood, handle_total}
use libnetpaxos.Acceptor.Rounds.{receive_from-Rounds}
use libnetpaxos.Acceptor.Replies.{flush_total}

-- What a round or a loop keeps: the sizes, and that it is good.
pub record Goes (ctx ctx' : AcceptorCtx) : Type 0 where
  pub good : IsGood ctx'
  pub same_conf : ctx'.conf ≡ ctx.conf
  pub same_room : length ctx'.out_bufs ≡ length ctx.out_bufs

Goes-trans : {a b c : AcceptorCtx} → Goes a b → Goes b c → Goes a c
Goes-trans p q = record {
  good = q.good;
  same_conf = q.same_conf ∙ p.same_conf;
  same_room = q.same_room ∙ p.same_room;
}

-- Queueing has room for an answer in each round.
enqueue_total :
    (c : AcceptorCtx) (i : ℕ) (m : Message) (res : Bool)
    → IsGood c
    → i < length c.out_bufs
    → c.count_accepted ≤ i
    → (c' : AcceptorCtx) × (enqueue c i m res ≡ returned c')
      × Goes c c'
      × (c'.count_accepted ≤ suc i)
unfolding enqueue
enqueue_total c i m false g fits behind = (
  record c { out_bufs = set c.out_bufs i m },
  rw (lt→ltb _ _ fits),
  record {
    good = record {
      instances = g.instances;
      good = g.good;
      slots = g.slots ∙ sym (length-set c.out_bufs i m);
    };
    same_conf = refl;
    same_room = length-set c.out_bufs i m;
  },
  omega arith,
)
enqueue_total c i m true g fits behind =
    let n : ℕ = c.count_accepted in
    let free : n < length c.out_msgs = omega (arith, g.slots) in
    (
      record c {
        out_bufs = set c.out_bufs i (pack m);
        out_msgs = set c.out_msgs n (some n);
        count_accepted = suc n;
      },
      rw (lt→ltb _ _ fits, lt→ltb _ _ free),
      record {
        good = record {
          instances = g.instances;
          good = g.good;
          slots =
              length-set c.out_msgs n (some n) ∙ g.slots ∙ sym (length-set c.out_bufs i (pack m));
        };
        same_conf = refl;
        same_room = length-set c.out_bufs i (pack m);
      },
      omega arith,
    )

module _ (ctx : AcceptorCtx) (i : ℕ) (m : Message) (g : IsGood ctx) (room : i < length ctx.out_bufs)
    (behind : ctx.count_accepted ≤ i) (readable : IsReadable (unpack m)) where
  receive_one_total :
      (ctx' : AcceptorCtx) × (stop : Bool) × (receive_one ctx i m ≡ returned (ctx', stop))
      × Goes ctx ctx'
      × (ctx'.count_accepted ≤ suc i)
  unfolding receive_one
  receive_one_total = elim (Bool-cases (leb (to_unsigned ctx.conf.maxinst) (unpack m).inst)) [
    | inl past ↦ (
      record ctx { out_bufs = set ctx.out_bufs i (unpack m) },
      true,
      rw (past, lt→ltb _ _ room),
      record {
        good = record {
          instances = g.instances;
          good = g.good;
          slots = g.slots ∙ sym (length-set ctx.out_bufs i (unpack m));
        };
        same_conf = refl;
        same_room = length-set ctx.out_bufs i (unpack m);
      },
      omega arith,
    )
    | inr fits ↦
        let below : (unpack m).inst < length ctx.states = ground (arith, g.instances) in
        let ((c1, r, res), e, h) = handle_total g readable below in
        let (c2, e', go, n) =
          enqueue_total c1 i r res h.good (omega (arith, ap length h.same_bufs))
            (omega (arith, h.same_count)) in
        (
          c2,
          false,
          rw (fits, e) (ap (λ o. o >>= λ c. returned (c, false)) e'),
          Goes-trans
              (record { good = h.good; same_conf = h.same_conf; same_room = ap length h.same_bufs })
              go,
          n,
        )
  ]

receive_from_total :
    (i : ℕ) (ms : List Message) (ctx : AcceptorCtx)
    → IsGood ctx
    → ctx.count_accepted ≤ i
    → i + length ms ≤ length ctx.out_bufs
    → All (λ m. IsReadable (unpack m)) ms
    → (ctx' : AcceptorCtx) × (stop : Bool) × (receive_from i ms ctx ≡ returned (ctx', stop))
      × Goes ctx ctx'
unfolding receive_from
receive_from_total i [] ctx g behind room readable =
    (ctx, false, refl, record { good = g; same_conf = refl; same_room = refl })
receive_from_total i (m ∷ ms) ctx g behind room readable =
    let (c2, stop, e, go, n) = receive_one_total ctx i m g (omega arith) behind readable.0 in
    elim (Bool-cases stop) [
      | inl stops ↦ (c2, true, rw (e, stops), go)
      | inr goes ↦
          let (c3, last, e', go') =
            receive_from_total (suc i) ms c2 go.good n (omega (arith, go.same_room)) readable.1 in
          (c3, last, rw (e, goes) e', Goes-trans go go')
    ]

-- An acceptor in a good state, with no answer left over, reads any batch that fits its buffers and
-- whose values are C strings of at most 32 bytes: `on_value` returns, with nothing undefined on the
-- way, and leaves a good state; unless it raised SIGTERM no answer is left over.
pub on_value_total :
    (ms : List Message) (ctx : AcceptorCtx)
    → IsGood ctx
    → ctx.count_accepted ≡ 0
    → length ms ≤ length ctx.out_bufs
    → All (λ m. IsReadable (unpack m)) ms
    → (a : Acted) × (on_value (some ms) true ctx ≡ returned a)
      × Goes ctx a.ctx
      × (a.raised ≡ false → a.ctx.count_accepted ≡ 0)
unfolding on_value
on_value_total ms ctx g clean room readable =
    let (c, stop, e, go) = receive_from_total 0 ms ctx g (omega arith) (omega arith) readable in
    elim (Bool-cases stop) [
      | inl stops ↦ (
        record { ctx = c; sent = []; raised = true },
        rw (e ∙ ap (λ b. returned (c, b)) stops),
        go,
        λ f. cc,
      )
      | inr goes ↦
          let (rs, rounds) = receive_from-Rounds 0 ms ctx (e ∙ ap (λ b. returned (c, b)) goes) in
          let (a, e', same) = flush_total clean rounds in
          (
            a,
            rw (e ∙ ap (λ b. returned (c, b)) goes) e',
            subst (Goes ctx) (sym same) (record {
              good = record {
                instances = go.good.instances;
                good = go.good.good;
                slots = go.good.slots;
              };
              same_conf = go.same_conf;
              same_room = go.same_room;
            }),
            λ f. ap AcceptorCtx.count_accepted same,
          )
    ]

-- A new acceptor with a configuration whose `maxinst` is not negative is in a good state.
pub acceptor_ctx_new-IsGood :
    (conf : Config) (id : ℕ)
    → pos_part conf.maxinst ≡ to_unsigned conf.maxinst
    → IsGood (acceptor_ctx_new conf id)
unfolding acceptor_ctx_new
acceptor_ctx_new-IsGood conf id e = record {
  instances = length-replicate (pos_part conf.maxinst) fresh_state ∙ e;
  good = λ i st found.
      subst IsGoodState (sym (get_elem?-replicate (pos_part conf.maxinst) i fresh_state st found))
        (record { size = refl; ends = omega arith });
  slots =
      length-replicate (pos_part conf.vlen) none
      ∙ sym (length-replicate (pos_part conf.vlen) blank_message);
}
