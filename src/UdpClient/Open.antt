-- ===== src/UdpClient/Open.antt =====
-- States that can go on, and what keeps them so.
use libnetpaxos.Prelude.{
  ℕ, zero, suc, ◌-◌, ◌^◌, ◌≤◌, ◌<◌, ◌≡◌, refl, arith, inl, inr, ap, ◌∙◌, sym, List, [], ◌∷◌, ◌++◌,
  length, take, drop, replicate, set, ltb, leb, take_all, le→leb, lt→ltb, true, Bool, Bool-cases,
  All,
}
use libnetpaxos.Prelude.{length-append, length-take, length-drop, length-set}
use libnetpaxos.Prelude.{returned}
use libnetpaxos.Prelude.Int.{ℤ, pos, negsuc}
use libnetpaxos.Datagram.{receive_into, store}
use libnetpaxos.Utils.Time.{Timespec, timediff, less, in_long, minus, difference}
use libnetpaxos.UdpClient.{
  ClientState, make_bufs, make_payload, send_message, receive_all, key_text, value_text,
}

-- A time of the clock.
pub record IsClock (t : Timespec) : Type 0 where
  pub sec : ℕ
  pub nsec : ℕ
  pub is_sec : t.tv_sec ≡ pos sec
  pub is_nsec : t.tv_nsec ≡ pos nsec
  pub sec_fits : sec < 2 ^ 63
  pub nsec_fits : nsec < 2 ^ 63

in_long-difference :
    (x y : ℕ) → x < 2 ^ 63 → y < 2 ^ 63 → (z : ℤ) × (in_long (difference x y) ≡ returned z)
unfolding in_long difference
in_long-difference x y hx hy = elim (Bool-cases (leb y x)) [
  | inl e ↦
      let small : ltb (x - y) (2 ^ 63) ≡ true = lt→ltb (x - y) (2 ^ 63) (omega arith) in
      (pos (x - y), rw (e, small) refl)
  | inr e ↦
      let small : ltb (y - suc x) (2 ^ 63) ≡ true = lt→ltb (y - suc x) (2 ^ 63) (omega arith) in
      (negsuc (y - suc x), rw (e, small) refl)
]

-- `timediff` is defined for two times of the clock.
pub timediff-clock :
    (end start : Timespec)
    → IsClock end
    → IsClock start
    → (r : Timespec) × (negative : Bool) × (timediff end start ≡ returned (r, negative))
unfolding timediff minus
timediff-clock end start e s =
    let (sec, es) = in_long-difference e.sec s.sec e.sec_fits s.sec_fits in
    let (nsec, en) = in_long-difference e.nsec s.nsec e.nsec_fits s.nsec_fits in
    (
      record { tv_sec = sec; tv_nsec = nsec },
      less end.tv_sec start.tv_sec,
      rw (timediff, e.is_sec, s.is_sec, e.is_nsec, s.is_nsec, es, en) refl,
    )

-- A state that can go on: 32 bytes of payload, and a buffer of BUFSIZE + 1 bytes for each message.
pub record IsOpen (state : ClientState) : Type 0 where
  pub whole : length state.payload ≡ 32
  pub size : state.payload_sz ≡ 32
  pub one_each : length state.bufs ≡ state.vlen
  pub rooms : All (λ (b : List ℕ). length b ≡ 201) state.bufs
  pub clock : IsClock state.send_time

length-receive_into :
    (buf kept : List ℕ) → length kept ≤ length buf → length (receive_into buf kept) ≡ length buf
unfolding receive_into
length-receive_into buf kept h = omega (
  arith,
  length-append {0} (take (length buf) kept) (drop (length (take (length buf) kept)) buf),
  length-take {0} (length buf) kept,
  length-drop {A = ℕ} (length (take (length buf) kept)) buf,
)

pub receive_all-rooms :
    (bufs datagrams : List (List ℕ))
    → All (λ (b : List ℕ). length b ≡ 201) bufs
    → length datagrams ≤ length bufs
    → (bufs' : List (List ℕ)) × (receive_all bufs datagrams ≡ returned bufs')
      × All (λ (b : List ℕ). length b ≡ 201) bufs'
      × (length bufs' ≡ length bufs)
unfolding receive_all
receive_all-rooms bufs [] rooms h = (bufs, refl, rooms, refl)
receive_all-rooms [] (d ∷ ds) rooms h = absurd (omega arith)
receive_all-rooms (b ∷ bufs) (d ∷ ds) (room, rooms) h =
    let kept : List ℕ = take 200 d in
    let filled : List ℕ = receive_into b kept in
    let short : length kept ≤ 200 = omega (arith, length-take {0} 200 d) in
    let size : length filled ≡ 201 =
      length-receive_into b kept (omega (arith, room, short)) ∙ room in
    let inside : ltb (length kept) (length filled) ≡ true =
      lt→ltb (length kept) (length filled) (omega (arith, size, short)) in
    let (bufs', e, rooms', same) = receive_all-rooms bufs ds rooms (omega arith) in
    (
      set filled (length kept) 0 ∷ bufs',
      rw (inside, e) refl,
      (length-set filled (length kept) 0 ∙ size, rooms'),
      ap suc same,
    )

pub send_message-all :
    (state : ClientState) (amount : ℕ)
    → IsOpen state
    → amount ≤ state.vlen
    → send_message state amount ≡ returned (replicate amount state.payload)
unfolding send_message
send_message-all state amount ok h =
    let enough : leb amount state.vlen ≡ true = le→leb amount state.vlen h in
    let whole : take 32 state.payload ≡ state.payload =
      ap (λ n. take n state.payload) (sym ok.whole) ∙ take_all state.payload in
    rw (enough, ok.size, ok.whole, whole) refl

-- The payload: the sizes, the key, the value and a zero byte.
abbrev pub payload_text : List ℕ
payload_text = 1 ∷ 14 ∷ 14 ∷ (key_text ++ (value_text ++ 0 ∷ []))

pub make_payload_lem : make_payload ≡ returned payload_text
unfolding make_payload store
make_payload_lem = refl

pub make_bufs-rooms :
    (n : ℕ) (mem : ℕ → List ℕ)
    → ((k : ℕ) → length (mem k) ≡ 201)
    → All (λ (b : List ℕ). length b ≡ 201) (make_bufs n mem) × (length (make_bufs n mem) ≡ n)
unfolding make_bufs
make_bufs-rooms zero mem h = (tt, refl)
make_bufs-rooms (suc n) mem h =
    let (rooms, size) = make_bufs-rooms n (λ k. mem (suc k)) (λ k. h (suc k)) in
    ((h 0, rooms), ap suc size)
