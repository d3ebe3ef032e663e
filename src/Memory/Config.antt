-- ===== src/Memory/Config.antt =====
-- lib/src/config.c: the blocks of `parse_conf`.
use libnetpaxos.Prelude.{ℕ, arith, Bool, List, ◌∷◌}
use libnetpaxos.Memory.{Heap, Mem, pure, ◌>>=◌, ◌>>◌, malloc, free}
use libnetpaxos.Memory.Holds.{Holds, Holds-perm, Returns, returns, bind, malloc-Holds, free-Holds}

-- The configuration; the file and the line of `getline` are given back.
unfoldable pub conf_blocks : Mem ℕ
conf_blocks = do conf ← malloc; fp ← malloc; line ← malloc; free fp; free line; pure conf

pub conf_blocks-Holds :
    {base : ℕ → Bool} {ps : List ℕ} {h : Heap}
    → Holds base ps h
    → Returns (λ conf. Holds base (conf ∷ ps)) (conf_blocks h)
unfolding conf_blocks
conf_blocks-Holds {ps} s = bind (malloc-Holds s) λ conf _ s1. bind (malloc-Holds s1) λ fp _ s2.
    bind (malloc-Holds s2) λ line _ s3.
      bind (free-Holds fp (Holds-perm (fp ∷ line ∷ conf ∷ ps) (λ q. omega arith) s3))
        λ _ _ s4. bind (free-Holds line s4) λ _ _ s5. returns s5
