-- ===== src/TcpServer/Refines.antt =====
-- The server is a map that its clients change and read by commands.
use mathlib.Core.Path.{fun_ext}
use libnetpaxos.Prelude.{
  ap₂, ℕ, suc, ◌+◌, ◌≡◌, refl, inl, inr, arith, ap, sym, ◌∙◌, Bool-cases, Option-cases, Option,
  some, none, List, [], ◌∷◌, ◌++◌, replicate, drop, false, ◌==◌, if◌then◌else◌,
}
use libnetpaxos.Prelude.{Outcome, returned, exited, fault, ◌>>=◌, returned_inj, >>=-assoc}
use libnetpaxos.Datagram.{byte, receive_into}
use libnetpaxos.Store.{LevelDb, IsMap, Result, put_op, get_op, delete_op, update}
use libnetpaxos.Store.{Map, IsReliable}
use libnetpaxos.Replica.{load}
use libnetpaxos.TcpServer.{
  Application, put_request, get_request, delete_request, deliver, reply, readcb, connection,
}

-- What a client asks for.
pub data Command : Type 0 where
  put : List ℕ → List ℕ → Command
  get delete : List ℕ → Command
  unknown : Command

-- The command that the 32 bytes of a request hold; an empty one and an unknown one ask for nothing.
unfoldable pub command : List ℕ → Outcome Command
command r =
    if byte r 0 == put_op
    then (load r 3 (byte r 1) >>= λ k. load r (3 + byte r 1) (byte r 2) >>= λ v. returned (put k v))
    else if byte r 0 == get_op
    then (load r 3 (byte r 1) >>= λ k. returned (get k))
    else if byte r 0 == delete_op
    then (load r 3 (byte r 1) >>= λ k. returned (delete k))
    else returned unknown

-- "SUCCESS" and "NOT_FOUND".
abbrev pub done_text : List ℕ
done_text = 83 ∷ 85 ∷ 67 ∷ 67 ∷ 69 ∷ 83 ∷ 83 ∷ 0 ∷ []

abbrev pub missing_text : List ℕ
missing_text = 78 ∷ 79 ∷ 84 ∷ 95 ∷ 70 ∷ 79 ∷ 85 ∷ 78 ∷ 68 ∷ 0 ∷ []

abbrev pub or_missing : Option (List ℕ) → List ℕ
or_missing none = missing_text
or_missing (some v) = v

-- A command on a map, and its answer.
abbrev pub apply : Command → Map → Map
apply (put k v) f = update f k (some v)
apply (get k) f = f
apply (delete k) f = update f k none
apply unknown f = f

abbrev pub answer : Command → Map → List ℕ
answer (put k v) f = done_text
answer (get k) f = or_missing (f k)
answer (delete k) f = done_text
answer unknown f = []

-- A connection on a map: the commands of the requests one after another, a request for each arrival.
unfoldable pub replay : List (List ℕ) → List ℕ → Map → Outcome (Map × List (List ℕ))
replay [] left f = returned (f, [])
replay (arrival ∷ rest) left f = do
  c ← command (receive_into (replicate 32 0) (left ++ arrival))
  (last, outputs) ← replay rest (drop 32 (left ++ arrival)) (apply c f)
  returned (last, answer c f ∷ outputs)

module _ {Db : Type 0} (level : LevelDb Db) (look : Db → Map) (is_map : IsMap level look)
    (reliable : IsReliable level) where
  -- A delivery and its answer, and a command on a map, as a map and an answer.
  abbrev seen : Db × Result × List ℕ → Outcome (Map × List ℕ)
  seen (db, res, v) = returned (look db, reply res v)

  abbrev did : Map → Command → Outcome (Map × List ℕ)
  did f c = returned (apply c f, answer c f)

  abbrev AsMap : Db → Outcome (Db × Result × List ℕ) → Outcome Command → Type 0
  AsMap db o c = (o >>= seen) ≡ (c >>= did (look db))

  -- The same bytes are loaded on both sides.
  load-AsMap :
      (db : Db) (o : Outcome (List ℕ)) (f : List ℕ → Outcome (Db × Result × List ℕ))
      (g : List ℕ → Outcome Command)
      → ((bytes : List ℕ) → AsMap db (f bytes) (g bytes))
      → AsMap db (o >>= f) (o >>= g)
  load-AsMap db (returned bytes) f g same = same bytes
  load-AsMap db exited f g same = refl
  load-AsMap db fault f g same = refl

  put_request-AsMap :
      (db : Db) (r : List ℕ)
      → AsMap db (put_request level db r) (
          load r 3 (byte r 1) >>= λ k. load r (3 + byte r 1) (byte r 2) >>= λ v. returned (put k v))
  unfolding put_request reply
  put_request-AsMap db r = load-AsMap db (load r 3 (byte r 1)) _ _ λ k.
      load-AsMap db (load r (3 + byte r 1) (byte r 2)) _ _ λ v.
        let (db', p) = reliable.puts db k v in
        rw p (ap (λ (f : Map). returned (f, done_text)) (fun_ext (is_map.put_lem db db' k v p)))

  get_request-AsMap :
      (db : Db) (r : List ℕ)
      → AsMap db (get_request level db r) (load r 3 (byte r 1) >>= λ k. returned (get k))
  unfolding get_request reply
  get_request-AsMap db r = load-AsMap db (load r 3 (byte r 1)) _ _ λ k.
      let (found, p) = reliable.gets db k in
      let e : found ≡ look db k = is_map.get_lem db k found p in
      elim (Option-cases found) [
        | inl n ↦ rw (p ∙ ap some n, sym e ∙ n) refl
        | inr (v, n) ↦ rw (p ∙ ap some n, sym e ∙ n) refl
      ]

  delete_request-AsMap :
      (db : Db) (r : List ℕ)
      → AsMap db (delete_request level db r) (load r 3 (byte r 1) >>= λ k. returned (delete k))
  unfolding delete_request reply
  delete_request-AsMap db r = load-AsMap db (load r 3 (byte r 1)) _ _ λ k.
      let (db', p) = reliable.deletes db k in
      rw p (ap (λ (f : Map). returned (f, done_text)) (fun_ext (is_map.delete_lem db db' k p)))

  deliver-AsMap : (db : Db) (r : List ℕ) → AsMap db (deliver level db r) (command r)
  unfolding deliver command reply
  deliver-AsMap db r = elim (Bool-cases (byte r 0 == 0)) [
    | inl e ↦
        let e1 : (byte r 0 == put_op) ≡ false = ground arith in
        let e2 : (byte r 0 == get_op) ≡ false = ground arith in
        let e3 : (byte r 0 == delete_op) ≡ false = ground arith in rw (e, e1, e2, e3) refl
    | inr e ↦ elim (Bool-cases (byte r 0 == put_op)) [
      | inl e1 ↦ rw (e, e1) (put_request-AsMap db r)
      | inr e1 ↦ elim (Bool-cases (byte r 0 == get_op)) [
        | inl e2 ↦ rw (e, e1, e2) (get_request-AsMap db r)
        | inr e2 ↦ elim (Bool-cases (byte r 0 == delete_op)) [
          | inl e3 ↦ rw (e, e1, e2, e3) (delete_request-AsMap db r)
          | inr e3 ↦ rw (e, e1, e2, e3) refl
        ]
      ]
    ]
  ]

  -- What follows a delivery and its command is the same if it is for the same map and answer.
  bind-AsMap {ℓ} :
      {A : Type ℓ} (db : Db) (o : Outcome (Db × Result × List ℕ)) (c : Outcome Command)
      (next : Db × Result × List ℕ → Outcome A) (next' : Command → Outcome A)
      → AsMap db o c
      → ((db' : Db) (res : Result) (v : List ℕ) (x : Command)
          → look db' ≡ apply x (look db)
          → reply res v ≡ answer x (look db)
          → next (db', res, v) ≡ next' x)
      → (o >>= next) ≡ (c >>= next')
  bind-AsMap db (returned (db', res, v)) (returned x) next next' h same =
      let e = returned_inj h in same db' res v x (ap (λ y. y.0) e) (ap (λ y. y.1) e)
  bind-AsMap db (returned a) exited next next' h same = absurd (cc h)
  bind-AsMap db (returned a) fault next next' h same = absurd (cc h)
  bind-AsMap db exited (returned x) next next' h same = absurd (cc h)
  bind-AsMap db exited exited next next' h same = refl
  bind-AsMap db exited fault next next' h same = absurd (cc h)
  bind-AsMap db fault (returned x) next next' h same = absurd (cc h)
  bind-AsMap db fault exited next next' h same = absurd (cc h)
  bind-AsMap db fault fault next next' h same = refl

  -- What is seen of a connection: the map that the database is, and the answers.
  abbrev seen_last : Application Db × List (List ℕ) → Outcome (Map × List (List ℕ))
  seen_last (ctx, outputs) = returned (look ctx.db, outputs)

  answer-seen_last :
      (o : Outcome (Application Db × List (List ℕ))) (output : List ℕ)
      → (o >>= (λ (last, outputs). returned (last, output ∷ outputs)) >>= seen_last)
        ≡ (o >>= seen_last >>= λ (last, outputs). returned (last, output ∷ outputs))
  answer-seen_last (returned a) output = refl
  answer-seen_last exited output = refl
  answer-seen_last fault output = refl

  -- A connection to a database that reports no error is the connection to the map.
  pub connection-replay :
      (arrivals : List (List ℕ)) (left : List ℕ) (ctx : Application Db)
      → (connection level arrivals left ctx >>= seen_last) ≡ replay arrivals left (look ctx.db)
  unfolding connection replay readcb
  connection-replay [] left ctx = refl
  connection-replay (arrival ∷ rest) left ctx =
      let r = receive_into (replicate 32 0) (left ++ arrival) in
      let left' = drop 32 (left ++ arrival) in
      ap (λ o. o >>= seen_last) (>>=-assoc (deliver level ctx.db r) _ _)
      ∙ >>=-assoc (deliver level ctx.db r) _ _
      ∙ bind-AsMap ctx.db _ _ _ _ (deliver-AsMap ctx.db r) λ db' res v c e e'.
        answer-seen_last (connection level rest left' (record { db = db'; mps = suc ctx.mps }))
          (reply res v)
        ∙ ap₂ (λ o out. o >>= λ (last, outputs). returned (last, out ∷ outputs))
            (connection-replay rest left' (record { db = db'; mps = suc ctx.mps })
              ∙ ap (replay rest left') e)
            e'
