-- ===== src/Memory/TcpClient.antt =====
-- app/tcp_client.c: the blocks of the TCP client whose server cannot be reached.
use libnetpaxos.Prelude.{ℕ, zero, suc, ◌≡◌, refl, arith, Bool, List, [], ◌∷◌}
use libnetpaxos.Prelude.{fault}
use libnetpaxos.Memory.{Heap, Mem, ◌>>=◌, ◌>>◌, malloc, touch, free, free_fields}
use libnetpaxos.Memory.Holds.{
  Holds, Holds-perm, Returns, bind, bind-fault, mono, malloc-Holds, free-Holds, touch-Holds,
  free_fields-Holds, IsHeap, Leaves,
}

-- The loop of `info_free` over the messages, as many as `count` says: the array has one byte, and
-- a pointer has eight.
unfoldable pub free_messages : ℕ → ℕ → Mem (Unit {0})
free_messages info zero = touch info
free_messages info (suc n) = λ h. fault

-- `info_free`, with the pointers fp and base, and the array.
unfoldable pub info_free : ℕ → ℕ → ℕ → ℕ → ℕ → Mem (Unit {0})
info_free info fp base msg count = do
  free_fields (info ∷ []) (fp ∷ base ∷ [])
  free_messages info count
  free_fields (info ∷ []) (msg ∷ [])
  free info

-- `main`, with `info_new`, where the connection fails; `count` is what the memory holds that
-- `info_new` does not set.
unfoldable pub tcp_client_main : ℕ → Mem (Unit {0})
tcp_client_main count = do
  info ← malloc
  msg ← malloc
  touch info
  base ← malloc
  dns_base ← malloc
  bev ← malloc
  touch bev
  ev_monitor ← malloc
  fp ← malloc
  touch info
  free bev
  info_free info fp base msg count

module _ {base : ℕ → Bool} where
  info_free-Holds :
      (info fp b msg : ℕ) {ps : List ℕ} {h : Heap}
      → Holds base (fp ∷ b ∷ msg ∷ info ∷ ps) h
      → Returns (λ _. Holds base ps) (info_free info fp b msg 0 h)
        × ((n : ℕ) → info_free info fp b msg (suc n) h ≡ fault)
  unfolding info_free free_messages
  info_free-Holds info fp b msg {ps} s =
      let closed = free_fields-Holds (info ∷ []) (fp ∷ b ∷ []) (msg ∷ info ∷ ps) s (ground arith) in
      (
        bind closed λ _ _ s1. bind (touch-Holds info s1 (ground arith)) λ _ _ s2.
            bind (free_fields-Holds (info ∷ []) (msg ∷ []) (info ∷ ps) s2 (ground arith))
              λ _ _ s3. free-Holds info s3,
        λ n. bind-fault closed λ _ _ s1. refl,
      )

-- Where the connection fails, the TCP client leaves its resolver and the event of its monitor if the
-- memory of `count` holds zero, and else reads past its array, a fault.
pub tcp_client_main-Leaves :
    (h : Heap)
    → IsHeap h
    → Returns (λ _. Leaves h 2) (tcp_client_main 0 h)
      × ((n : ℕ) → tcp_client_main (suc n) h ≡ fault)
unfolding tcp_client_main
tcp_client_main-Leaves h s = (
  bind (malloc-Holds s) λ info _ s1. bind (malloc-Holds s1) λ msg _ s2.
      bind (touch-Holds info s2 (ground arith)) λ _ _ s3. bind (malloc-Holds s3) λ b _ s4.
        bind (malloc-Holds s4) λ dns _ s5. bind (malloc-Holds s5) λ bev _ s6.
          bind (touch-Holds bev s6 (ground arith)) λ _ _ s7. bind (malloc-Holds s7) λ monitor _ s8.
            bind (malloc-Holds s8) λ fp _ s9. bind (touch-Holds info s9 (ground arith)) λ _ _ s10.
              let first =
                Holds-perm (bev ∷ fp ∷ b ∷ msg ∷ info ∷ dns ∷ monitor ∷ []) (λ q. omega arith)
                  s10 in
              bind (free-Holds bev first) λ _ _ s11.
                mono ((info_free-Holds info fp b msg s11).0)
                  λ _ _ s12. (dns ∷ monitor ∷ [], s12, refl),
  λ n. bind-fault (malloc-Holds s) λ info _ s1. bind-fault (malloc-Holds s1) λ msg _ s2.
      bind-fault (touch-Holds info s2 (ground arith)) λ _ _ s3.
        bind-fault (malloc-Holds s3) λ b _ s4. bind-fault (malloc-Holds s4) λ dns _ s5.
          bind-fault (malloc-Holds s5) λ bev _ s6.
            bind-fault (touch-Holds bev s6 (ground arith)) λ _ _ s7.
              bind-fault (malloc-Holds s7) λ monitor _ s8. bind-fault (malloc-Holds s8) λ fp _ s9.
                bind-fault (touch-Holds info s9 (ground arith)) λ _ _ s10.
                  let first =
                    Holds-perm (bev ∷ fp ∷ b ∷ msg ∷ info ∷ dns ∷ monitor ∷ []) (λ q. omega arith)
                      s10 in
                  bind-fault (free-Holds bev first)
                    λ _ _ s11. (info_free-Holds info fp b msg s11).1 n,
)
