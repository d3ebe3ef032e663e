-- ===== src/Sockets/Multicast.antt =====
-- Which addresses are multicast addresses.
use libnetpaxos.Prelude.{ℕ, ◌/◌, ◌%◌, ◌≡◌, ◌↔◌, arith, true, List}
use libnetpaxos.Host.{Host}
use libnetpaxos.Sockets.{is_multicast_ip}

-- The multicast addresses are those of class D: an address whose first byte begins with the bits
-- 1110, which is the block 224.0.0.0/4.
pub is_multicast_ip_lem :
    (h : Host) (ip : List ℕ) → (is_multicast_ip h ip ≡ true) ↔ (h.inet_addr ip % 256 / 16 ≡ 14)
unfolding is_multicast_ip
is_multicast_ip_lem h ip = (λ e. ground arith, λ e. ground arith)
