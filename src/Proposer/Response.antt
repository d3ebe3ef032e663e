-- ===== src/Proposer/Response.antt =====
-- lib/src/proposer.c: `on_response`, the callback for answers and for the timeout.
use libnetpaxos.Prelude.{
  ℕ, zero, suc, ◌+◌, ◌-◌, ◌≤◌, ◌<◌, ◌≡◌, refl, arith, ap, ◌∙◌, Option, some, none, List, [], ◌∷◌,
  ◌++◌,
}
use libnetpaxos.Prelude.{
  length, take, drop, length-append, length-replicate, length-take, length-drop, replicate, set,
  lt→ltb, if◌then◌else◌,
}
use mathlib.Core.List.{append_assoc}
use libnetpaxos.Prelude.{ltb, false, Outcome, returned, fault, ◌>>=◌, write_at}
use libnetpaxos.Datagram.{bufsize, receive_into}
use libnetpaxos.Datagram.Fields.{stored, length-stored, drop-stored_at}
use libnetpaxos.Utils.Time.{Timespec, timediff, less, minus}
use libnetpaxos.Utils.Time.Order.{plus, timediff-plus}
use libnetpaxos.Utils.Time.Bytes.{
  time_bytes, time_of, time_of-time_bytes, length-time_bytes, IsLong,
}
use libnetpaxos.Proposer.{ProposerState, ts_offset, retry}

-- Why the callback is called; `none` is an error of `recvfrom`.
pub data Event : Type 0 where
  readable : Option (List ℕ) → Event
  timeout : Event

-- What the callback does: the latency that it prints, none where it says that it is negative; the
-- buffer and the size that the application is given; the datagrams sent again.
pub record Responded : Type 0 where
  pub state : ProposerState
  pub latency : Option Timespec
  pub delivered : Option (List ℕ × ℕ)
  pub sent : List (List ℕ)

-- An answer of `n` bytes: it is ended by a zero byte, and its time compared with `now`.
unfoldable pub handle_answer : Timespec → ProposerState → List ℕ → Outcome Responded
handle_answer now state bytes = do
  let n = length (take bufsize bytes)
  recvbuf ← write_at (receive_into (replicate bufsize 0) bytes) n 0
  (result, negative) ← timediff now (time_of (drop ts_offset recvbuf))
  returned (record {
    state = state;
    latency = if negative then none else some result;
    delivered = some (recvbuf, n);
    sent = [];
  })

-- `on_response`, for the time `now` of an answer and the times that `retry` reads.
unfoldable pub on_response : Event → Timespec → (ℕ → List ℕ) → ProposerState → Outcome Responded
on_response (readable none) now clock state =
    returned (record { state = state; latency = none; delivered = none; sent = [] })
on_response (readable (some bytes)) now clock state = handle_answer now state bytes
on_response timeout now clock state = retry clock state >>= λ (state', sent).
    returned (record { state = state'; latency = none; delivered = none; sent = sent })

-- An answer that fits is in the buffer, and zero bytes behind it.
abbrev pub received : List ℕ → List ℕ
received bytes = bytes ++ replicate (200 - length bytes) 0

padding-size : (n : ℕ) → length {A = ℕ} (replicate n 0) ≡ n
padding-size n = length-replicate n 0

drop-replicate : (n k : ℕ) → drop {A = ℕ} k (replicate n 0) ≡ replicate (n - k) 0
drop-replicate zero zero = refl
drop-replicate zero (suc k) = let e : 0 ≡ 0 - suc k = omega arith in ap (λ j. replicate j 0) e
drop-replicate (suc n) zero = let e : suc n ≡ suc n - 0 = omega arith in ap (λ j. replicate j 0) e
drop-replicate (suc n) (suc k) =
    let e : n - k ≡ suc n - suc k = omega arith in drop-replicate n k ∙ ap (λ j. replicate j 0) e

take_short : (n : ℕ) (xs : List ℕ) → length xs ≤ n → take n xs ≡ xs
take_short zero [] h = refl
take_short zero (x ∷ xs) h = absurd (omega arith)
take_short (suc n) [] h = refl
take_short (suc n) (x ∷ xs) h = ap (λ l. x ∷ l) (take_short n xs (omega arith))

receive_into-received :
    (bytes : List ℕ) → length bytes ≤ 200 → receive_into (replicate 200 0) bytes ≡ received bytes
unfolding receive_into
receive_into-received bytes h =
    let whole : take 200 bytes ≡ bytes = take_short 200 bytes h in
    ap (λ l. l ++ drop (length l) (replicate 200 0)) whole
    ∙ ap (λ l. bytes ++ l) (drop-replicate 200 (length bytes))

length-full :
    (bytes : List ℕ) → 200 ≤ length bytes → length (receive_into (replicate 200 0) bytes) ≡ 200
unfolding receive_into
length-full bytes h =
    let full : length (take 200 bytes) ≡ 200 = omega (arith, length-take {0} 200 bytes) in
    omega (
      arith,
      full,
      length-append {0} (take 200 bytes) (drop (length (take 200 bytes)) (replicate 200 0)),
      length-drop {A = ℕ} (length (take 200 bytes)) (replicate 200 0),
      padding-size 200,
    )

-- The zero byte is written where one stands.
set-received : (xs : List ℕ) (k : ℕ) → set (xs ++ replicate k 0) (length xs) 0 ≡ xs ++ replicate k 0
set-received [] zero = refl
set-received [] (suc k) = refl
set-received (x ∷ xs) k = ap (λ l. x ∷ l) (set-received xs k)

module _ (now : Timespec) (state : ProposerState) where
  -- An answer of fewer than 200 bytes.
  pub handle_answer-short :
      (bytes : List ℕ)
      → length bytes < 200
      → handle_answer now state bytes ≡ (
          timediff now (time_of (drop 8 (received bytes))) >>= λ (result, negative).
          returned (record {
            state = state;
            latency = if negative then none else some result;
            delivered = some (received bytes, length bytes);
            sent = [];
          }))
  unfolding handle_answer
  handle_answer-short bytes h =
      let whole : take 200 bytes ≡ bytes = take_short 200 bytes (omega arith) in
      let size : length (received bytes) ≡ 200 = omega (
        arith,
        length-append {0} bytes (replicate (200 - length bytes) 0),
        padding-size (200 - length bytes),
      ) in
      let inside = lt→ltb (length bytes) (length (received bytes)) (omega (arith, size)) in
      rw
        (
          whole,
          receive_into-received bytes (omega arith),
          inside,
          set-received bytes (200 - length bytes),
        )
        refl

  -- An answer that fills the buffer: the zero byte is written behind it.
  pub handle_answer-long :
      (bytes : List ℕ) → 200 ≤ length bytes → handle_answer now state bytes ≡ fault
  unfolding handle_answer
  handle_answer-long bytes h =
      let full : length (take 200 bytes) ≡ 200 = omega (arith, length-take {0} 200 bytes) in
      let size : length (receive_into (replicate 200 0) bytes) ≡ 200 = length-full bytes h in
      let outside : ltb (length (take 200 bytes)) (length (receive_into (replicate 200 0) bytes))
          ≡ false =
        ground (arith, full, size) in
      rw outside refl

drop-append_short : (n : ℕ) (xs ys : List ℕ) → n ≤ length xs → drop n (xs ++ ys) ≡ drop n xs ++ ys
drop-append_short zero xs ys h = refl
drop-append_short (suc n) [] ys h = absurd (omega arith)
drop-append_short (suc n) (x ∷ xs) ys h = drop-append_short n xs ys (omega arith)

-- The proposer finds in an answer the time of the request that it answers.
time_of-received :
    (msg : List ℕ) (t : Timespec)
    → 24 ≤ length msg
    → IsLong t.tv_sec
    → IsLong t.tv_nsec
    → time_of (drop 8 (received (stored msg 8 (time_bytes t)))) ≡ t
time_of-received msg t long hs hn =
    let tb : List ℕ = time_bytes t in
    let fits : 8 + length tb ≤ length msg = omega (arith, length-time_bytes t) in
    let req : List ℕ = stored msg 8 tb in
    let zeros : List ℕ = replicate (200 - length req) 0 in
    let size : length req ≡ length msg = length-stored msg 8 tb fits in
    let at : drop 8 (req ++ zeros) ≡ tb ++ (drop (8 + length tb) msg ++ zeros) =
      drop-append_short 8 req zeros (omega (arith, size))
      ∙ ap (λ l. l ++ zeros) (drop-stored_at msg 8 tb fits)
      ∙ append_assoc tb (drop (8 + length tb) msg) zeros in
    ap time_of at ∙ time_of-time_bytes t (drop (8 + length tb) msg ++ zeros) hs hn

-- What the callback does with a request that carries the time `t` and comes back at `now`: the
-- latency, added to `t`, gives `now` in seconds and in nanoseconds, and is printed unless the seconds of
-- `now` are less than those of `t`; the application is given the request in a buffer of 200 bytes, with
-- zero bytes behind it.
pub record IsAnswered (now t : Timespec) (state : ProposerState) (msg : List ℕ)
    (o : Outcome Responded) : Type 0 where
  pub result : Timespec
  pub seconds : plus t.tv_sec result.tv_sec ≡ now.tv_sec
  pub nanoseconds : plus t.tv_nsec result.tv_nsec ≡ now.tv_nsec
  pub ends :
      o
      ≡ returned (record {
        state = state;
        latency = if less now.tv_sec t.tv_sec then none else some result;
        delivered = some (received (stored msg 8 (time_bytes t)), length msg);
        sent = [];
      })

-- When a request that carries the time `t` comes back, of at least 24 and fewer than 200 bytes, and
-- the differences between `now` and `t` fit a `long`, the latency is what added to `t` gives `now`, in
-- seconds and in nanoseconds, printed unless the seconds of `now` are less, and the application is
-- given the request in a buffer of 200 bytes, with zero bytes behind it.
pub on_response_lem :
    (now t : Timespec) (clock : ℕ → List ℕ) (state : ProposerState) (msg : List ℕ)
    → IsLong t.tv_sec
    → IsLong t.tv_nsec
    → IsLong (minus now.tv_sec t.tv_sec)
    → IsLong (minus now.tv_nsec t.tv_nsec)
    → 24 ≤ length msg
    → length msg < 200
    → IsAnswered now t state msg
        (on_response (readable (some (stored msg 8 (time_bytes t)))) now clock state)
unfolding on_response
on_response_lem now t clock state msg hs hn ds dn long short =
    let tb : List ℕ = time_bytes t in
    let size : length (stored msg 8 tb) ≡ length msg =
      length-stored msg 8 tb (omega (arith, length-time_bytes t)) in
    let (r, e, sec, nsec) = timediff-plus now t ds dn in
    record {
      result = r;
      seconds = sec;
      nanoseconds = nsec;
      ends =
          handle_answer-short now state (stored msg 8 tb) (omega (arith, size))
          ∙ rw (time_of-received msg t long hs hn, size, e) refl;
    }

-- An answer of 200 bytes or more writes behind the buffer.
pub on_response_fault :
    (now : Timespec) (clock : ℕ → List ℕ) (state : ProposerState) (msg : List ℕ)
    → 200 ≤ length msg
    → on_response (readable (some msg)) now clock state ≡ fault
unfolding on_response
on_response_fault now clock state msg full = handle_answer-long now state msg full
