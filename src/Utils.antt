-- ===== src/Utils.antt =====
-- lib/src/netpaxos_utils.c: the checksum of the IP header.
pub mod Checksum
pub mod Time
mod Tests
use libnetpaxos.Prelude.{ℕ, ◌+◌, ◌-◌, ◌*◌, ◌/◌, ◌%◌, ◌^◌, List, [], ◌∷◌}

-- The loop of `csum` over all bytes of the buffer, which are 16-bit words on a little-endian host;
-- an odd last byte counts alone.
unfoldable pub csum_sum : List ℕ → ℕ
csum_sum [] = 0
csum_sum (b ∷ []) = b
csum_sum (b ∷ c ∷ rest) = b + c * 256 + csum_sum rest

-- `sum = (sum>>16)+(sum & 0xffff); sum = sum + (sum>>16);`
unfoldable pub csum_fold : ℕ → ℕ
csum_fold sum = let once = sum / 2 ^ 16 + sum % 2 ^ 16 in once + once / 2 ^ 16

-- `csum(ptr, nbytes)`, where the list is the `nbytes` bytes from `ptr` on; `(short)~sum` keeps the
-- low 16 bits of the complement.
unfoldable pub csum : List ℕ → ℕ
unfolding csum_sum csum_fold
csum bytes = 2 ^ 16 - 1 - csum_fold (csum_sum bytes) % 2 ^ 16
