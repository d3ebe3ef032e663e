-- ===== src/TcpClient/Loop.antt =====
-- The client and its server.
use libnetpaxos.Prelude.{
  drop_all, sym, ℕ, suc, ◌≤◌, ◌≡◌, refl, arith, ap, List, [], ◌∷◌, ◌++◌, length, some, Bool-cases,
  All, same_word, false, ◌==◌, ◌≢◌, inl, inr, replicate, drop, length-drop, ◌<◌, ltb, leb, lt→ltb,
  le→leb, ◌-◌, ◌∙◌, true,
}
use libnetpaxos.Prelude.{returned_inj, >>=-eq-returned, returned, fault}
use libnetpaxos.Datagram.{receive_into}
use libnetpaxos.Datagram.Fields.{store_lem}
use libnetpaxos.Replica.{load}
use libnetpaxos.TcpServer.{Application, connection}
use libnetpaxos.TcpServer.Refines.{command, put, replay, done_text, connection-replay}
use libnetpaxos.Store.{Map, IsReliable, LevelDb, IsMap, update}
use libnetpaxos.Utils.Time.{Timespec}
use mathlib.Core.Path.{fun_ext}
use libnetpaxos.TcpClient.{
  key_text, submit, connected, eventcb, info_new, access_msg, read_input, read_lines, grow, is_last,
}

-- The request: its sizes, the key twice, and a byte that the client did not set.
abbrev pub request_text : ℕ → List ℕ
request_text b = 1 ∷ 14 ∷ 14 ∷ (key_text ++ (key_text ++ b ∷ []))

uncons : (n : ℕ) (xs : List ℕ) → suc n ≤ length xs → (x : ℕ) × (rest : List ℕ) × (xs ≡ x ∷ rest)
uncons n [] h = absurd (omega arith)
uncons n (x ∷ rest) h = (x, rest, refl)

load_text :
    (x : ℕ) (tail : List ℕ)
    → load (1 ∷ 14 ∷ 14 ∷ (key_text ++ (key_text ++ x ∷ tail))) 0 32 ≡ returned (request_text x)
unfolding load
load_text x tail =
    let long : leb 32 (length (request_text x ++ tail)) ≡ true =
      le→leb 32 (length (request_text x ++ tail)) (omega arith) in
    rw long refl

-- What `submit` writes does not depend on what the array held, but for the last byte.
submit-request_text :
    (a b c : ℕ) (rest : List ℕ)
    → 29 ≤ length rest
    → (x : ℕ) × (submit (a ∷ b ∷ c ∷ rest) ≡ returned (request_text x))
unfolding submit load
submit-request_text a b c rest size =
    let long : length (drop 14 rest) ≡ length rest - 14 = length-drop {A = ℕ} 14 rest in
    let at : (k : ℕ) → k < 3 → ltb k (length (a ∷ b ∷ c ∷ rest)) ≡ true =
      λ k h. lt→ltb k (length (a ∷ b ∷ c ∷ rest)) (omega (arith, size)) in
    let loaded : submit (a ∷ b ∷ c ∷ rest)
        ≡ load (1 ∷ 14 ∷ 14 ∷ (key_text ++ (key_text ++ drop 14 (drop 14 rest)))) 0 32 =
      rw
        (
          at 0 (omega arith),
          at 1 (omega arith),
          at 2 (omega arith),
          store_lem (1 ∷ 14 ∷ 14 ∷ rest) 3 key_text (omega (arith, size)),
          store_lem (1 ∷ 14 ∷ 14 ∷ (key_text ++ drop 14 rest)) 17 key_text
              (omega (arith, size, long)),
        )
        refl in
    let (x, tail, e) =
      uncons 0 (drop 14 (drop 14 rest))
        (omega (arith, length-drop {A = ℕ} 14 (drop 14 rest), long)) in
    (
      x,
      loaded
          ∙ ap (λ l. load (1 ∷ 14 ∷ 14 ∷ (key_text ++ (key_text ++ l))) 0 32) e
          ∙ load_text x tail,
    )

text_command :
    (x : ℕ)
    → command (receive_into (replicate 32 0) (request_text x)) ≡ returned (put key_text key_text)
unfolding command receive_into load
text_command x = refl

-- Whatever the array held, the server finds in the 32 bytes of a request a put of the key as its
-- own value.
pub submit-command :
    (local : List ℕ)
    → length local ≡ 128
    → (sent : List ℕ) × (submit local ≡ returned sent)
      × (length sent ≡ 32)
      × (command (receive_into (replicate 32 0) sent) ≡ returned (put key_text key_text))
submit-command [] size = absurd (omega arith)
submit-command (a ∷ []) size = absurd (omega arith)
submit-command (a ∷ b ∷ []) size = absurd (omega arith)
submit-command (a ∷ b ∷ c ∷ rest) size =
    let (x, e) = submit-request_text a b c rest (omega arith) in
    (request_text x, e, refl, text_command x)

-- What the client writes, one request for each content of its local array.
pub data Submitted : List (List ℕ) → List (List ℕ) → Type 0 where
  no_more : Submitted [] []
  submitted :
      {local sent : List ℕ} {locals rest : List (List ℕ)}
      → submit local ≡ returned sent
      → Submitted locals rest
      → Submitted (local ∷ locals) (sent ∷ rest)

abbrev pub with_key : Map → Map
with_key f = update f key_text (some key_text)

with_key_twice : (f : Map) → with_key (with_key f) ≡ with_key f
with_key_twice f =
    fun_ext λ k. elim (Bool-cases (same_word key_text k)) [ inl e ↦ rw e refl | inr e ↦ rw e refl ]

-- The requests on a map, one at least.
replay-Submitted :
    (f : Map) (local : List ℕ) (locals : List (List ℕ))
    → All (λ l. length l ≡ 128) (local ∷ locals)
    → (arrivals : List (List ℕ)) × Submitted (local ∷ locals) arrivals
      × (replay arrivals [] f
          ≡ returned (with_key f, replicate (length (local ∷ locals)) done_text))
unfolding replay
replay-Submitted f local [] (size, none_left) =
    let (sent, e, whole, asked) = submit-command local size in
    (sent ∷ [], submitted e no_more, rw asked refl)
replay-Submitted f local (local' ∷ locals) (size, sizes) =
    let (sent, e, whole, asked) = submit-command local size in
    let (arrivals, all, ih) = replay-Submitted (with_key f) local' locals sizes in
    (
      sent ∷ arrivals,
      submitted e all,
      rw (asked, ap (λ n. drop n sent) (sym whole) ∙ drop_all sent, ih, with_key_twice f) refl,
    )

-- A server whose database is a map and reports no error answers each request of a client with
-- SUCCESS, where there is one at least and each arrives alone, whatever the client's local array of
-- 128 bytes held. The database then has the client's key with the client's value, and all other
-- keys as before.
pub connection-Submitted :
    {Db : Type 0} (level : LevelDb Db) (look : Db → Map)
    → IsMap level look
    → IsReliable level
    → (ctx : Application Db) (local : List ℕ) (locals : List (List ℕ))
    → All (λ l. length l ≡ 128) (local ∷ locals)
    → (arrivals : List (List ℕ)) × Submitted (local ∷ locals) arrivals
      × (ctx' : Application Db) × (connection level arrivals [] ctx
          ≡ returned (ctx', replicate (length (local ∷ locals)) done_text))
      × (look ctx'.db ≡ with_key (look ctx.db))
connection-Submitted level look is_map reliable ctx local locals sizes =
    let (arrivals, all, e) = replay-Submitted (look ctx.db) local locals sizes in
    let ((ctx', outputs), run, seen) =
      >>=-eq-returned (connection level arrivals [] ctx) _
        (connection-replay level look is_map reliable arrivals [] ctx ∙ e) in
    let same = returned_inj seen in
    (
      arrivals,
      all,
      ctx',
      run ∙ ap (λ outputs. returned (ctx', outputs)) (ap (λ y. y.1) same),
      ap (λ y. y.0) same,
    )

-- The array of `info_new` has one byte: the pointer that a connection reads, and the pointer to a
-- first line that is read from a file, lie behind it.
pub info_new_fault :
    (count : ℕ) (start now : Timespec) (local : List ℕ) (c d : ℕ) (line : List ℕ)
    (lines : List (List ℕ))
    → (eventcb connected now local (info_new count start) ≡ fault)
      × (c ≢ 0 → read_input (some ((c ∷ d ∷ line) ∷ lines)) (info_new 0 start) ≡ fault)
unfolding eventcb info_new access_msg read_input read_lines grow is_last
info_new_fault count start now local c d line lines =
    (refl, λ h. let e : (c == 0) ≡ false = ground arith in rw (read_lines, e) refl)
