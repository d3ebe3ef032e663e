-- ===== src/Acceptor/Total/Run.antt =====
-- The callback of a new acceptor, batch after batch.
use libnetpaxos.Prelude.{
  ℕ, ◌^◌, ◌≤◌, ◌<◌, ◌≡◌, refl, arith, Bool, true, false, some, List, [], ◌∷◌, ◌++◌, length, All,
  Outcome, returned, ◌>>=◌, inl, inr, Bool-cases, ◌∙◌, length-replicate,
}
use libnetpaxos.Prelude.Int.{pos, pos_part, to_unsigned}
use libnetpaxos.Config.{Config}
use libnetpaxos.Message.{Message, unpack}
use libnetpaxos.Acceptor.{AcceptorCtx, Acted, on_value, acceptor_ctx_new, blank_message}
use libnetpaxos.Acceptor.Total.{IsReadable, IsGood}
use libnetpaxos.Acceptor.Total.Loop.{on_value_total, acceptor_ctx_new-IsGood}

-- The context, what has been sent, and whether the acceptor has raised SIGTERM, with which it stops.
abbrev pub Served : Type 0
Served = AcceptorCtx × List Message × Bool

unfoldable pub serve : List (List Message) → AcceptorCtx → Outcome Served
serve [] ctx = returned (ctx, [], false)
serve (ms ∷ rest) ctx = do
  a ← on_value (some ms) true ctx
  elim a.raised [
    | true ↦ returned (a.ctx, a.sent, true)
    | false ↦ serve rest a.ctx >>= λ (last, sent, stop). returned (last, a.sent ++ sent, stop)
  ]

-- A batch of at most `room` messages, whose values, with the bytes of the client behind them, are C
-- strings of at most 32 bytes.
abbrev pub IsBatch : ℕ → List Message → Type 0
IsBatch room ms = (length ms ≤ room) × All (λ m. IsReadable (unpack m)) ms

module _ (ms : List Message) (rest : List (List Message)) (ctx : AcceptorCtx) (a : Acted)
    (e : on_value (some ms) true ctx ≡ returned a) where
  serve-raised : a.raised ≡ true → serve (ms ∷ rest) ctx ≡ returned (a.ctx, a.sent, true)
  unfolding serve
  serve-raised raised = rw (e, raised) refl

  serve-on :
      (r : Served)
      → a.raised ≡ false
      → serve rest a.ctx ≡ returned r
      → serve (ms ∷ rest) ctx ≡ returned (r.0, a.sent ++ r.1, r.2)
  unfolding serve
  serve-on r runs e' = rw (e, runs, e') refl

serve-returned :
    (bs : List (List Message)) (ctx : AcceptorCtx) (room : ℕ)
    → IsGood ctx
    → ctx.count_accepted ≡ 0
    → length ctx.out_bufs ≡ room
    → All (IsBatch room) bs
    → (r : Served) × (serve bs ctx ≡ returned r)
unfolding serve
serve-returned [] ctx room good clean size batches = ((ctx, [], false), refl)
serve-returned (ms ∷ rest) ctx room good clean size ((fits, readable), batches) =
    let (a, e, go, left) = on_value_total ms ctx good clean (omega (arith, fits, size)) readable in
    elim (Bool-cases a.raised) [
      | inl raised ↦ ((a.ctx, a.sent, true), serve-raised ms rest ctx a e raised)
      | inr runs ↦
          let (r, e') =
            serve-returned rest a.ctx room go.good (left runs) (go.same_room ∙ size) batches in
          ((r.0, a.sent ++ r.1, r.2), serve-on ms rest ctx a e r runs e')
    ]

-- A new acceptor with less than 2^31 instances is given batches, each of at most vlen messages whose
-- values, with the bytes of the client behind them, are C strings of at most 32 bytes, and sending does
-- not fail: its callback returns for each batch and does nothing undefined, to the last of them or to
-- the first with which it raises SIGTERM and after which it is not called again.
pub serve_total :
    (conf : Config) (id n vlen : ℕ) (bs : List (List Message))
    → conf.maxinst ≡ pos n
    → n < 2 ^ 31
    → conf.vlen ≡ pos vlen
    → All (IsBatch vlen) bs
    → (r : Served) × (serve bs (acceptor_ctx_new conf id) ≡ returned r)
serve_total conf id n vlen bs known small room batches =
    let same : pos_part conf.maxinst ≡ to_unsigned conf.maxinst = rw known (omega arith) in
    serve-returned bs (acceptor_ctx_new conf id) vlen (acceptor_ctx_new-IsGood conf id same)
      new_clean (new_room ∙ (rw room refl)) batches
  where
    new_clean : (acceptor_ctx_new conf id).count_accepted ≡ 0
    new_clean = unfold acceptor_ctx_new in refl

    new_room : length (acceptor_ctx_new conf id).out_bufs ≡ pos_part conf.vlen
    new_room = unfold acceptor_ctx_new in length-replicate (pos_part conf.vlen) blank_message
