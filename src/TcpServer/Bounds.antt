-- ===== src/TcpServer/Bounds.antt =====
-- What the server reads of a request.
use libnetpaxos.Prelude.{
  ℕ, ◌+◌, ◌≤◌, ◌<◌, ◌≡◌, refl, inl, inr, arith, false, List, [], length, take, drop, leb, ◌==◌,
  if◌then◌else◌, Bool-cases, Option-cases,
}
use libnetpaxos.Prelude.{Outcome, returned, fault}
use libnetpaxos.Datagram.{byte}
use libnetpaxos.Store.{
  LevelDb, Result, success, failed, got_value, not_found, put_op, get_op, delete_op,
}
use libnetpaxos.Replica.{load}
use libnetpaxos.TcpServer.{put_request, get_request, delete_request, deliver}

pub load_lem :
    (mem : List ℕ) (off n : ℕ)
    → off + n ≤ length mem
    → load mem off n ≡ returned (take n (drop off mem))
unfolding load
load_lem mem off n h = ground arith

pub load_fault : (mem : List ℕ) (off n : ℕ) → length mem < off + n → load mem off n ≡ fault
unfolding load
load_fault mem off n h = ground arith

-- The bytes of key and value that a request says it has.
unfoldable pub announced : List ℕ → ℕ
announced r =
    if byte r 0 == put_op
    then byte r 1 + byte r 2
    else if byte r 0 == get_op
    then byte r 1
    else if byte r 0 == delete_op
    then byte r 1
    else 0

module _ {Db : Type 0} (level : LevelDb Db) (db : Db) (r : List ℕ) (size : length r ≡ 32) where
  -- A request is answered if its sizes are true of 32 bytes, and read past its end if not.
  abbrev Bounded : Outcome (Db × Result × List ℕ) → ℕ → Type 0
  Bounded o n = (n ≤ 29 → (a : Db × Result × List ℕ) × (o ≡ returned a)) × (29 < n → o ≡ fault)

  put_request-Bounded : Bounded (put_request level db r) (byte r 1 + byte r 2)
  unfolding put_request
  put_request-Bounded = (
    λ h.
        let k = load_lem r 3 (byte r 1) (omega (arith, size)) in
        let v = load_lem r (3 + byte r 1) (byte r 2) (omega (arith, size)) in
        elim (Option-cases
          (level.put db (take (byte r 1) (drop 3 r)) (take (byte r 2) (drop (3 + byte r 1) r)))) [
            | inl e ↦ ((db, failed, []), rw (k, v, e) refl)
            | inr (db', e) ↦ ((db', success, []), rw (k, v, e) refl)
          ],
    λ h. elim (Bool-cases (leb (byte r 1) 29)) [
      | inl le ↦
          let k = load_lem r 3 (byte r 1) (ground (arith, size)) in
          let v = load_fault r (3 + byte r 1) (byte r 2) (omega (arith, size)) in rw (k, v) refl
      | inr gt ↦ let k = load_fault r 3 (byte r 1) (ground (arith, size)) in rw k refl
    ],
  )

  get_request-Bounded : Bounded (get_request level db r) (byte r 1)
  unfolding get_request
  get_request-Bounded = (
    λ h.
        let k = load_lem r 3 (byte r 1) (omega (arith, size)) in
        elim (Option-cases (level.get db (take (byte r 1) (drop 3 r)))) [
          | inl e ↦ ((db, failed, []), rw (k, e) refl)
          | inr (found, e) ↦ elim (Option-cases found) [
            | inl n ↦ ((db, not_found, []), rw (k, e, n) refl)
            | inr (v, n) ↦ ((db, got_value, v), rw (k, e, n) refl)
          ]
        ],
    λ h. let k = load_fault r 3 (byte r 1) (omega (arith, size)) in rw k refl,
  )

  delete_request-Bounded : Bounded (delete_request level db r) (byte r 1)
  unfolding delete_request
  delete_request-Bounded = (
    λ h.
        let k = load_lem r 3 (byte r 1) (omega (arith, size)) in
        elim (Option-cases (level.delete db (take (byte r 1) (drop 3 r)))) [
          | inl e ↦ ((db, failed, []), rw (k, e) refl)
          | inr (db', e) ↦ ((db', success, []), rw (k, e) refl)
        ],
    λ h. let k = load_fault r 3 (byte r 1) (omega (arith, size)) in rw k refl,
  )

  -- The server answers a request of 32 bytes whose sizes are at most 29 together, those of a key
  -- and a value for a put, that of a key for a get and a delete, and reads past the end of its
  -- array for every other one of these operations.
  pub deliver-Bounded :
      (announced r ≤ 29 → (a : Db × Result × List ℕ) × (deliver level db r ≡ returned a))
      × (29 < announced r → deliver level db r ≡ fault)
  unfolding deliver announced
  deliver-Bounded = elim (Bool-cases (byte r 0 == put_op)) [
    | inl e1 ↦ let e : (byte r 0 == 0) ≡ false = ground arith in rw (e, e1) put_request-Bounded
    | inr e1 ↦ elim (Bool-cases (byte r 0 == get_op)) [
      | inl e2 ↦
          let e : (byte r 0 == 0) ≡ false = ground arith in rw (e, e1, e2) get_request-Bounded
      | inr e2 ↦ elim (Bool-cases (byte r 0 == delete_op)) [
        | inl e3 ↦
            let e : (byte r 0 == 0) ≡ false = ground arith in
            rw (e, e1, e2, e3) delete_request-Bounded
        | inr e3 ↦ elim (Bool-cases (byte r 0 == 0)) [
          | inl e ↦ rw (e, e1, e2, e3) ((λ h. (_, refl)), (λ h. absurd (omega arith)))
          | inr e ↦ rw (e, e1, e2, e3) ((λ h. (_, refl)), (λ h. absurd (omega arith)))
        ]
      ]
    ]
  ]
