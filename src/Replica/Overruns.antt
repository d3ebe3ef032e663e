-- ===== src/Replica/Overruns.antt =====
-- What the applications do with the 32 bytes that a learner delivers.
use libnetpaxos.Prelude.{
  ℕ, zero, suc, subst, take, drop, ◌+◌, ◌%◌, ◌≡◌, ◌≢◌, ◌⊎◌, inl, inr, refl, arith, ◌∙◌, Bool, true,
  false, Option, some, none,
}
use libnetpaxos.Prelude.{
  List, [], ◌∷◌, length, leb, if◌then◌else◌, ◌==◌, Bool-cases, Option-cases, Outcome, returned,
  exited, fault, ◌>>=◌,
}
use libnetpaxos.Prelude.Int.{ℤ}
use libnetpaxos.Datagram.{byte, store}
use libnetpaxos.Datagram.Fields.{store_lem, length-stored}
use libnetpaxos.Store.{
  LevelDb, Result, invalid_op, got_value, not_found, success, put_op, get_op, delete_op,
}
use libnetpaxos.TcpServer.Bounds.{load_lem}
use libnetpaxos.Replica.{
  Delivered, my_turn, load, answer, finish, failing, put_entry, found, get_entry, delete_entry,
  deliver,
}

-- What holds if the code returns.
data Then {A : Type 0} (P : A → Type 0) : Outcome A → Type 0 where
  at_end : {a : A} → P a → Then P (returned a)
  at_exit : Then P exited
  at_fault : Then P fault

Then-bind :
    {A B : Type 0} {P : A → Type 0} {Q : B → Type 0} {m : Outcome A} {f : A → Outcome B}
    → Then P m
    → ((a : A) → P a → Then Q (f a))
    → Then Q (m >>= f)
Then-bind (at_end p) next = next _ p
Then-bind at_exit next = at_exit
Then-bind at_fault next = at_fault

Then-mono :
    {A : Type 0} {P Q : A → Type 0} {m : Outcome A} → Then P m → ((a : A) → P a → Q a) → Then Q m
Then-mono (at_end p) weaken = at_end (weaken _ p)
Then-mono at_exit weaken = at_exit
Then-mono at_fault weaken = at_fault

anything : {A : Type 0} (m : Outcome A) → Then (λ a. m ≡ returned a) m
anything (returned a) = at_end refl
anything exited = at_exit
anything fault = at_fault

Then-ends : {A : Type 0} {P : A → Type 0} {m : Outcome A} {a : A} → Then P m → m ≡ returned a → P a
Then-ends {P} (at_end p) e = subst P (cc e) p
Then-ends at_exit e = absurd (cc e)
Then-ends at_fault e = absurd (cc e)

byte-take-drop : (k : ℕ) (mem : List ℕ) → byte (take 1 (drop k mem)) 0 ≡ byte mem k
byte-take-drop zero [] = refl
byte-take-drop zero (b ∷ mem) = refl
byte-take-drop (suc k) [] = refl
byte-take-drop (suc k) (b ∷ mem) = byte-take-drop k mem

-- 40 bytes of an answer are more than 32.
answer_overrun : (mem : List ℕ) → length mem ≡ 32 → answer true mem ≡ fault
unfolding answer load
answer_overrun mem size =
    let over : leb 40 (length mem) ≡ false = ground (arith, size) in rw over refl

-- How a server of `suc k` ends on the 32 bytes of a delivery.
abbrev pub Echoed : ℕ → ℕ → ℕ → Outcome (Option (List ℕ)) → Type 0
Echoed k j inst o = ((j ≡ inst % suc k) × (o ≡ fault)) ⊎ ((j ≢ inst % suc k) × (o ≡ returned none))

module _ {Db : Type 0} (level : LevelDb Db) where
  abbrev IsSilent : Outcome (Delivered Db) → Type 0
  IsSilent = Then (λ d. d.sent ≡ none)

  finish-IsSilent :
      (mine : Bool) (db : Db) (mem : List ℕ) (r : Result)
      → length mem ≡ 32
      → IsSilent (finish level mine db mem r)
  unfolding finish answer
  finish-IsSilent true db mem r size = rw (answer_overrun mem size) at_fault
  finish-IsSilent false db mem r size = at_end refl

  failing-IsSilent : (db : Db) (mem : List ℕ) → IsSilent (failing level db mem)
  unfolding failing
  failing-IsSilent db mem = at_end refl

  -- The value of a put ends behind the 32 bytes.
  put_entry_overrun :
      (mine : Bool) (db : Db) (mem : List ℕ) → length mem ≡ 32 → put_entry level mine db mem ≡ fault
  unfolding put_entry load
  put_entry_overrun mine db mem size =
      let key : leb 29 (length mem) ≡ true = ground (arith, size) in
      let over : leb 35 (length mem) ≡ false = ground (arith, size) in rw (key, over) refl

  found-IsSilent :
      (mine : Bool) (db : Db) (mem : List ℕ) (value : Option (List ℕ))
      → length mem ≡ 32
      → IsSilent (found level mine db mem value)
  unfolding found
  found-IsSilent mine db mem none size = at_fault
  found-IsSilent mine db mem (some []) size = at_fault
  found-IsSilent mine db mem (some (zero ∷ rest)) size = finish-IsSilent mine db mem not_found size
  found-IsSilent mine db mem (some (suc c ∷ rest)) size =
      Then-bind (kept (suc c ∷ rest)) λ mem' size'. finish-IsSilent mine db mem' got_value size'
    where
      kept : (value : List ℕ) → Then (λ mem'. length mem' ≡ 32) (store mem 29 value)
      kept value = elim (Bool-cases (leb (29 + length value) (length mem))) [
        | inl fits ↦
            rw (store_lem mem 29 value (ground (arith, fits)))
              (at_end (length-stored mem 29 value (ground (arith, fits)) ∙ size))
        | inr over ↦ (unfold store in rw over at_fault)
      ]

  get_entry-IsSilent :
      (mine : Bool) (db : Db) (mem : List ℕ)
      → length mem ≡ 32
      → IsSilent (get_entry level mine db mem)
  unfolding get_entry
  get_entry-IsSilent mine db mem size = Then-bind (anything (load mem 24 5)) λ key _.
      elim (Option-cases (level.get db key)) [
        | inl e ↦ rw e (failing-IsSilent db mem)
        | inr (value, e) ↦ rw e (found-IsSilent mine db mem value size)
      ]

  delete_entry-IsSilent :
      (mine : Bool) (db : Db) (mem : List ℕ)
      → length mem ≡ 32
      → IsSilent (delete_entry level mine db mem)
  unfolding delete_entry
  delete_entry-IsSilent mine db mem size = Then-bind (anything (load mem 24 5)) λ key _.
      elim (Option-cases (level.delete db key)) [
        | inl e ↦ rw e (failing-IsSilent db mem)
        | inr (db', e) ↦ rw e (finish-IsSilent mine db' mem success size)
      ]

  -- What a delivery that is defined has done: it has answered nothing, and is not a put.
  abbrev IsNoPut : List ℕ → Delivered Db → Type 0
  IsNoPut mem d = (d.sent ≡ none) × (byte mem 4 ≢ put_op)

  chosen-IsNoPut :
      (mine : Bool) (inst : ℕ) (db : Db) (mem : List ℕ)
      → length mem ≡ 32
      → Then (IsNoPut mem) (
          if byte mem 4 == put_op
          then put_entry level mine db mem
          else if byte mem 4 == get_op
          then get_entry level mine db mem
          else if byte mem 4 == delete_op
          then delete_entry level mine db mem
          else returned (record { db = db; mem = mem; result = invalid_op; sent = none }))
  chosen-IsNoPut mine inst db mem size = elim (Bool-cases (byte mem 4 == put_op)) [
    | inl put ↦ rw (put, put_entry_overrun mine db mem size) at_fault
    | inr other ↦
        let no_put : byte mem 4 ≢ put_op = λ e. ground (arith, e, other) in
        let and_no_put : (d : Delivered Db) → d.sent ≡ none → IsNoPut mem d =
          λ d silent. (silent, no_put) in
        rw other (elim (Bool-cases (byte mem 4 == get_op)) [
          | inl get ↦ rw get (Then-mono (get_entry-IsSilent mine db mem size) and_no_put)
          | inr e ↦ rw e (elim (Bool-cases (byte mem 4 == delete_op)) [
            | inl d ↦ rw d (Then-mono (delete_entry-IsSilent mine db mem size) and_no_put)
            | inr e' ↦ rw e' (at_end (refl, no_put))
          ])
        ])
  ]

-- On the 32 bytes that a learner delivers, the replica with a database never answers, whichever it
-- is, and no put is defined: where a delivery returns, nothing has been sent, and the operation is not a
-- put.
pub deliver_overruns :
    {Db : Type 0} (level : LevelDb Db) (num_acceptors node_id : ℤ) (inst : ℕ) (db : Db)
    (mem : List ℕ) {d : Delivered Db}
    → length mem ≡ 32
    → deliver level num_acceptors node_id inst db mem ≡ returned d
    → (d.sent ≡ none) × (byte mem 4 ≢ put_op)
unfolding deliver
deliver_overruns level num_acceptors node_id inst db mem size e =
    let op = load_lem mem 4 1 (omega (arith, size)) in
    let all : Then (IsNoPut level mem) (deliver level num_acceptors node_id inst db mem) =
      Then-bind (anything (my_turn inst num_acceptors node_id))
        λ mine _. rw (op, byte-take-drop 4 mem) (chosen-IsNoPut level mine inst db mem size) in
    Then-ends all e
