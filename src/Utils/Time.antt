-- ===== src/Utils/Time.antt =====
-- lib/src/netpaxos_utils.c: differences and the order of times.
pub mod Order
pub mod Bytes
use libnetpaxos.Prelude.{ℕ, suc, ◌+◌, ◌-◌, ◌^◌, Bool, true, false, ltb, leb, if◌then◌else◌}
use libnetpaxos.Prelude.{Outcome, returned, fault, ◌>>=◌}
use libnetpaxos.Prelude.Int.{ℤ, pos, negsuc}

-- `struct timespec`; both members are a `long` of 64 bits.
pub record Timespec : Type 0 where
  pub tv_sec : ℤ
  pub tv_nsec : ℤ

-- `x < y`.
unfoldable pub less : ℤ → ℤ → Bool
less (pos x) (pos y) = ltb x y
less (pos x) (negsuc y) = false
less (negsuc x) (pos y) = true
less (negsuc x) (negsuc y) = ltb y x

-- `x - y` of two natural numbers.
unfoldable pub difference : ℕ → ℕ → ℤ
difference x y = if leb y x then pos (x - y) else negsuc (y - suc x)

-- `x - y`, before its range is looked at.
unfoldable pub minus : ℤ → ℤ → ℤ
minus (pos x) (pos y) = difference x y
minus (pos x) (negsuc y) = pos (x + suc y)
minus (negsuc x) (pos y) = negsuc (x + y)
minus (negsuc x) (negsuc y) = difference y x

-- `x - y` of type `long`: undefined if the result does not fit.
unfoldable pub in_long : ℤ → Outcome ℤ
in_long (pos n) = if ltb n (2 ^ 63) then returned (pos n) else fault
in_long (negsuc n) = if ltb n (2 ^ 63) then returned (negsuc n) else fault

-- `timediff(result, end, start)`: what it writes to `result`, and the flag that it returns.
unfoldable pub timediff : Timespec → Timespec → Outcome (Timespec × Bool)
timediff end start = do
  sec ← in_long (minus end.tv_sec start.tv_sec)
  nsec ← in_long (minus end.tv_nsec start.tv_nsec)
  returned (record { tv_sec = sec; tv_nsec = nsec }, less end.tv_sec start.tv_sec)

unfoldable pub compare_ts : Timespec → Timespec → ℤ
compare_ts time1 time2 =
    if less time1.tv_sec time2.tv_sec
    then negsuc 0
    else if less time2.tv_sec time1.tv_sec
    then pos 1
    else if less time1.tv_nsec time2.tv_nsec
    then negsuc 0
    else if less time2.tv_nsec time1.tv_nsec
    then pos 1
    else pos 0
