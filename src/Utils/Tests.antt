-- ===== src/Utils/Tests.antt =====
-- Inputs for the checksum.
use libnetpaxos.Prelude.{ℕ, ◌+◌, ◌-◌, ◌≡◌, refl, arith, ◌/◌, ◌%◌, List, [], ◌∷◌, ◌++◌}
use libnetpaxos.Prelude.{false, returned}
use libnetpaxos.Prelude.Int.{pos, negsuc}
use libnetpaxos.Utils.{csum}
use libnetpaxos.Utils.Time.{Timespec, timediff, in_long, minus, difference, less}
use libnetpaxos.Utils.Checksum.{csum_verifies}

abbrev four_bytes : List ℕ
four_bytes = 0x45 ∷ 0x00 ∷ 0xff ∷ 0xfe ∷ []

csum_four : csum four_bytes ≡ 0xffff - (0xfeff + 0x45)
unfolding csum
csum_four = refl

-- An odd last byte counts alone, and nothing sums to 0xffff.
csum_odd : (csum (0x01 ∷ 0x02 ∷ 0x03 ∷ []) ≡ 0xffff - 0x0204) × (csum [] ≡ 0xffff)
unfolding csum
csum_odd = (refl, refl)

csum_verifies_example : csum (four_bytes ++ csum four_bytes % 256 ∷ csum four_bytes / 256 ∷ []) ≡ 0
csum_verifies_example = csum_verifies four_bytes (omega arith) refl (omega arith)

abbrev seconds : ℕ → Timespec
seconds n = record { tv_sec = pos n; tv_nsec = pos 5 }

abbrev earlier : Timespec
earlier = record { tv_sec = pos 1; tv_nsec = pos 2 }

-- The end is 3 ns before the start, and the flag is not set.
timediff_run :
    timediff earlier (seconds 1) ≡ returned (record { tv_sec = pos 0; tv_nsec = negsuc 2 }, false)
unfolding timediff in_long minus difference less
timediff_run = refl
