-- ===== src/Acceptor/Replies/Queue.antt =====
-- The invariant of the loop of `on_value` on its buffers and slots.
use mathlib.Core.List.{append-nil, append_assoc}
use libnetpaxos.Prelude.{ℕ, zero, suc, ◌+◌, ◌≤◌, ◌≡◌, refl, true, false, Option, some, none}
use libnetpaxos.Prelude.{List, [], ◌∷◌, ◌++◌, returned, arith, sym, subst, ◌∙◌, ap}
use libnetpaxos.Prelude.{length, set, take, length-set, take-suc-set}
use libnetpaxos.Prelude.{ltb, ltb→lt, Bool-cases, inl, inr}
use libnetpaxos.Message.{Message, pack, unpack}
use libnetpaxos.Acceptor.{AcceptorCtx, Handled, enqueue}
use libnetpaxos.Acceptor.Cases.{HandleCase, passed, promised, accepted, handle-HandleCase}
use libnetpaxos.Acceptor.Rounds.{Rounds, finish, answer, refuse}

-- What the rounds leave in the buffers: the packed answer, or the refused message in host order.
abbrev pub left : List Message → List (Option Message) → List Message
left (m ∷ ms) (some r ∷ rs) = pack r ∷ left ms rs
left (m ∷ ms) (none ∷ rs) = unpack m ∷ left ms rs
left _ _ = []

abbrev pub answered : List (Option Message) → ℕ
answered [] = 0
answered (some r ∷ rs) = suc (answered rs)
answered (none ∷ rs) = answered rs

-- The slots `0, …, n - 1`.
abbrev pub counts : ℕ → List (Option ℕ)
counts zero = []
counts (suc n) = counts n ++ some n ∷ []

-- Before round `i`: `prev` is in the buffers, and the slots in use are the first ones in order.
pub record Queued (i : ℕ) (ctx : AcceptorCtx) (prev : List Message) : Type 0 where
  pub behind : ctx.count_accepted ≤ i
  pub room : i ≤ length ctx.out_bufs
  pub slots : take ctx.count_accepted ctx.out_msgs ≡ counts ctx.count_accepted
  pub bufs : take i ctx.out_bufs ≡ prev

-- A handler leaves the buffers and the slots alone, and a refused message as it was.
pub record Framed (ctx : AcceptorCtx) (msg : Message) (r : Handled) : Type 0 where
  pub same_bufs : r.0.out_bufs ≡ ctx.out_bufs
  pub same_slots : r.0.out_msgs ≡ ctx.out_msgs
  pub same_count : r.0.count_accepted ≡ ctx.count_accepted
  pub refused : r.2 ≡ false → r.1 ≡ msg

pub HandleCase-Framed :
    {ctx : AcceptorCtx} {msg : Message} {r : Handled} → HandleCase ctx msg r → Framed ctx msg r
HandleCase-Framed (passed _ _) = record {
  same_bufs = refl;
  same_slots = refl;
  same_count = refl;
  refused = λ e. refl;
}
HandleCase-Framed (promised type found newer copied) = record {
  same_bufs = refl;
  same_slots = refl;
  same_count = refl;
  refused = λ e. cc;
}
HandleCase-Framed (accepted type found newer copied) = record {
  same_bufs = refl;
  same_slots = refl;
  same_count = refl;
  refused = λ e. cc;
}

Queued-Framed :
    {i : ℕ} {ctx : AcceptorCtx} {prev : List Message} {msg : Message} {r : Handled}
    → Framed ctx msg r
    → Queued i ctx prev
    → Queued i r.0 prev
Queued-Framed {i} {ctx} f q = record {
  behind = omega (arith, f.same_count, q.behind);
  room = subst (λ b. i ≤ length b) (sym f.same_bufs) q.room;
  slots = cc (f.same_count, f.same_slots, q.slots);
  bufs = ap (take i) f.same_bufs ∙ q.bufs;
}

-- An answer takes the next slot and the buffer of its round.
enqueue-Queued-true :
    {i : ℕ} {c c' : AcceptorCtx} {prev : List Message} (m : Message)
    → Queued i c prev
    → enqueue c i m true ≡ returned c'
    → Queued (suc i) c' (prev ++ pack m ∷ []) × (c'.count_accepted ≡ suc c.count_accepted)
unfolding enqueue
enqueue-Queued-true {i} {c} {c'} {prev} m q h = elim (Bool-cases (ltb i (length c.out_bufs))) [
  | inl fits ↦ elim (Bool-cases (ltb n (length c.out_msgs))) [
    | inl free ↦
        let is : written ≡ c' = ground arith in
        subst (λ d. Queued (suc i) d (prev ++ pack m ∷ []) × (d.count_accepted ≡ suc n)) is
          (
            record {
              behind = omega (arith, q.behind);
              room = omega (arith, length-set c.out_bufs i (pack m), ltb→lt _ _ fits);
              slots =
                  take-suc-set n c.out_msgs (some n) (ltb→lt _ _ free)
                  ∙ ap (λ l. l ++ some n ∷ []) q.slots;
              bufs =
                  take-suc-set i c.out_bufs (pack m) (ltb→lt _ _ fits)
                  ∙ ap (λ l. l ++ pack m ∷ []) q.bufs;
            },
            refl,
          )
    | inr full ↦ absurd (ground arith)
  ]
  | inr out ↦ absurd (ground arith)
]
  where
    n : ℕ
    n = c.count_accepted

    written : AcceptorCtx
    written = record c {
      out_bufs = set c.out_bufs i (pack m);
      out_msgs = set c.out_msgs n (some n);
      count_accepted = suc n;
    }

-- A refused message keeps its buffer and takes no slot.
enqueue-Queued-false :
    {i : ℕ} {c c' : AcceptorCtx} {prev : List Message} (m : Message)
    → Queued i c prev
    → enqueue c i m false ≡ returned c'
    → Queued (suc i) c' (prev ++ m ∷ []) × (c'.count_accepted ≡ c.count_accepted)
unfolding enqueue
enqueue-Queued-false {i} {c} {c'} {prev} m q h = elim (Bool-cases (ltb i (length c.out_bufs))) [
  | inl fits ↦
      let is : record c { out_bufs = set c.out_bufs i m } ≡ c' = ground arith in
      subst (λ d. Queued (suc i) d (prev ++ m ∷ []) × (d.count_accepted ≡ c.count_accepted)) is
        (
          record {
            behind = omega (arith, q.behind);
            room = omega (arith, length-set c.out_bufs i m, ltb→lt _ _ fits);
            slots = q.slots;
            bufs = take-suc-set i c.out_bufs m (ltb→lt _ _ fits) ∙ ap (λ l. l ++ m ∷ []) q.bufs;
          },
          refl,
        )
  | inr out ↦ absurd (ground arith)
]

-- The whole loop.
pub Rounds-Queued :
    {i : ℕ} {ctx ctx' : AcceptorCtx} {ms : List Message} {rs : List (Option Message)}
    → Rounds i ctx ms rs ctx'
    → (prev : List Message) → Queued i ctx prev
    → (j : ℕ) × Queued j ctx' (prev ++ left ms rs)
      × (ctx'.count_accepted ≡ ctx.count_accepted + answered rs)
Rounds-Queued {i} {ctx} finish prev q =
    (i, subst (Queued i ctx) (sym (append-nil prev)) q, omega arith)
Rounds-Queued {i} {ctx} {ctx'} {rs = some r ∷ rs} (answer {c1} {m} {ms} fits h e rest) prev q =
    let f : Framed ctx (unpack m) (c1, r, true) =
      HandleCase-Framed (handle-HandleCase ctx (unpack m) h) in
    let (q', n) = enqueue-Queued-true r (Queued-Framed f q) e in
    let (j, q'', n') = Rounds-Queued rest (prev ++ pack r ∷ []) q' in
    (
      j,
      subst (Queued j ctx') (append_assoc prev (pack r ∷ []) (left ms rs)) q'',
      omega (arith, n, n', f.same_count),
    )
Rounds-Queued {i} {ctx} {ctx'} {rs = none ∷ rs} (refuse {c1} {m} {r} {ms} fits h e rest) prev q =
    let f : Framed ctx (unpack m) (c1, r, false) =
      HandleCase-Framed (handle-HandleCase ctx (unpack m) h) in
    let (q', n) = enqueue-Queued-false r (Queued-Framed f q) e in
    let (j, q'', n') = Rounds-Queued rest (prev ++ r ∷ []) q' in
    let same : r ≡ unpack m = f.refused refl in
    (
      j,
      subst (Queued j ctx')
          (append_assoc prev (r ∷ []) (left ms rs) ∙ ap (λ x. prev ++ (x ∷ left ms rs)) same) q'',
      omega (arith, n, n', f.same_count),
    )
