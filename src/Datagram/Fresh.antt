-- ===== src/Datagram/Fresh.antt =====
-- The buffer that `init_rawsock` prepares can send.
use libnetpaxos.Prelude.{ℕ, ◌+◌, ◌%◌, ◌^◌, ◌≤◌, ◌≡◌, refl, arith, ap, sym, ◌∙◌, ◌⊎◌, inl, inr}
use libnetpaxos.Prelude.{List, [], ◌∷◌, length, drop, length-take, length-drop, replicate}
use libnetpaxos.Prelude.{Outcome, returned, ◌>>=◌}
use libnetpaxos.Message.{swap32}
use libnetpaxos.Message.Bytes.{le16}
use libnetpaxos.Datagram.{load16, store, init_rawsock, sin_addr, sin_port}
use libnetpaxos.Datagram.Fields.{
  stored, store_lem, length-stored, drop-stored_above, load16-stored_below, load16-drop, IsReady,
}

-- 200 bytes with a `tot_len` of 0.
abbrev IsBlank : List ℕ → Type 0
IsBlank b = (length b ≡ 200) × (load16 b 2 ≡ 0)

stored-IsBlank :
    (b : List ℕ) (off : ℕ) (src : List ℕ)
    → IsBlank b
    → off + length src ≤ 200
    → (4 ≤ off) ⊎ (off + length src ≤ 2)
    → IsBlank (stored b off src)
stored-IsBlank b off src blank fits (inl high) = (
  length-stored b off src (omega (arith, blank.0)) ∙ blank.0,
  load16-stored_below b off src 2 (omega (arith, blank.0)) (omega arith) ∙ blank.1,
)
stored-IsBlank b off src blank fits (inr low) = (
  length-stored b off src (omega (arith, blank.0)) ∙ blank.0,
  load16-drop 2 (stored b off src)
      ∙ ap (λ l. load16 l 0) (drop-stored_above b off src (omega (arith, blank.0)) 2 low)
      ∙ sym (load16-drop 2 b)
      ∙ blank.1,
)

-- Where a code can end with a blank buffer.
abbrev Blank : Outcome (List ℕ) → Type 0
Blank o = (b : List ℕ) × (o ≡ returned b) × IsBlank b

store-Blank :
    (b : List ℕ) (off : ℕ) (src : List ℕ)
    → IsBlank b
    → off + length src ≤ 200
    → (4 ≤ off) ⊎ (off + length src ≤ 2)
    → Blank (store b off src)
store-Blank b off src blank fits apart = (
  stored b off src,
  store_lem b off src (omega (arith, blank.0)),
  stored-IsBlank b off src blank fits apart,
)

then-Blank :
    {o : Outcome (List ℕ)} (k : List ℕ → Outcome (List ℕ))
    → Blank o
    → ((b : List ℕ) → IsBlank b → Blank (k b))
    → Blank (o >>= k)
then-Blank k (b, e, blank) next =
    let (r, e', blank') = next b blank in (r, ap (λ o. o >>= k) e ∙ e', blank')

-- With two socket addresses, `init_rawsock` does nothing undefined and its buffer is ready.
pub init_rawsock-IsReady :
    (mine dest : List ℕ)
    → length mine ≡ 16
    → length dest ≡ 16
    → (b : List ℕ) × (init_rawsock mine dest ≡ returned b) × IsReady b
unfolding init_rawsock
init_rawsock-IsReady mine dest sm sd =
    let (b, e, blank) = all in (b, e, record { size = blank.0; bounded = omega (arith, blank.1) })
  where
    addr : (a : List ℕ) → length a ≡ 16 → length (sin_addr a) ≡ 4
    addr a s = omega (arith, length-take {0} 4 (drop 4 a), length-drop {0} 4 a)

    port : (a : List ℕ) → length a ≡ 16 → length (sin_port a) ≡ 2
    port a s = omega (arith, length-take {0} 2 (drop 2 a), length-drop {0} 2 a)

    all : Blank (init_rawsock mine dest)
    all =
        then-Blank _
          (store-Blank (replicate 200 0) 0 (0x45 ∷ []) (refl, refl) (omega arith)
            (inr (omega arith)))
          λ c0 k0.
            then-Blank _ (store-Blank c0 1 (0 ∷ []) k0 (omega arith) (inr (omega arith))) λ c1 k1.
              then-Blank _
                (store-Blank c1 4 (le16 (swap32 54321 % 2 ^ 16)) k1 (omega arith)
                  (inl (omega arith)))
                λ c2 k2.
                  then-Blank _ (store-Blank c2 6 (le16 0) k2 (omega arith) (inl (omega arith)))
                    λ c3 k3.
                      then-Blank _
                        (store-Blank c3 8 (255 ∷ []) k3 (omega arith) (inl (omega arith)))
                        λ c4 k4.
                          then-Blank _
                            (store-Blank c4 9 (17 ∷ []) k4 (omega arith) (inl (omega arith)))
                            λ c5 k5.
                              then-Blank _
                                (store-Blank c5 10 (le16 0) k5 (omega arith) (inl (omega arith)))
                                λ c6 k6.
                                  then-Blank _
                                    (store-Blank c6 12 (sin_addr mine) k6
                                      (omega (arith, addr mine sm)) (inl (omega arith)))
                                    λ c7 k7.
                                      then-Blank _
                                        (store-Blank c7 16 (sin_addr dest) k7
                                          (omega (arith, addr dest sd)) (inl (omega arith)))
                                        λ c8 k8.
                                          then-Blank _
                                            (store-Blank c8 20 (sin_port mine) k8
                                              (omega (arith, port mine sm)) (inl (omega arith)))
                                            λ c9 k9.
                                              then-Blank _
                                                (store-Blank c9 22 (sin_port dest) k9
                                                  (omega (arith, port dest sd)) (inl (omega arith)))
                                                λ c10 k10.
                                                  store-Blank c10 26 (le16 0) k10 (omega arith)
                                                    (inl (omega arith))
