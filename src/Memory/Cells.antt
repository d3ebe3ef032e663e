-- ===== src/Memory/Cells.antt =====
-- The states of the instances, in lib/src/acceptor.c and lib/src/learner.c: an array of pointers to
-- states, each with a pointer to its value.
use libnetpaxos.Prelude.{ℕ, zero, suc, ◌*◌, ◌≡◌, refl, arith, ap, Bool, List, [], ◌∷◌, ◌++◌, length}
use libnetpaxos.Memory.{Heap, Mem, pure, ◌>>=◌, ◌>>◌, malloc, touch, touch_all, free_fields}
use libnetpaxos.Memory.Holds.{
  Holds, Holds-perm, Held, Held-append, Returns, returns, bind, malloc-Holds, touch_all-Holds,
  touch-Holds, free_fields-Holds, count-append,
}

pub record Cell : Type 0 where
  pub state : ℕ
  pub paxosval : ℕ

-- The loop that makes `maxinst` states; `owners` are the context and the array.
unfoldable pub new_cells : List ℕ → ℕ → Mem (List Cell)
new_cells owners zero = pure []
new_cells owners (suc n) = do
  state ← malloc
  touch_all owners
  touch state
  paxosval ← malloc
  touch state
  cells ← new_cells owners n
  pure (record { state = state; paxosval = paxosval } ∷ cells)

-- The loop that releases them.
unfoldable pub free_cells : List ℕ → List Cell → Mem (Unit {0})
free_cells owners [] = pure tt
free_cells owners (c ∷ cells) = do
  free_fields (c.state ∷ owners) (c.paxosval ∷ [])
  free_fields owners (c.state ∷ [])
  free_cells owners cells

abbrev pub blocks : List Cell → List ℕ
blocks [] = []
blocks (c ∷ cells) = c.paxosval ∷ c.state ∷ blocks cells

pub length-blocks : (cells : List Cell) → length (blocks cells) ≡ 2 * length cells
length-blocks [] = omega arith
length-blocks (c ∷ cells) = omega (arith, length-blocks cells)

pub new_cells-Holds :
    {base : ℕ → Bool} (owners : List ℕ) (n : ℕ) {ps : List ℕ} {h : Heap}
    → Holds base ps h
    → Held owners ps
    → Returns
        (λ cells h'. Holds base (blocks cells ++ ps) h' × (length cells ≡ n))
        (new_cells owners n h)
unfolding new_cells
new_cells-Holds owners zero s own = returns (s, refl)
new_cells-Holds owners (suc n) {ps} s own = bind (malloc-Holds s) λ st _ s1.
    bind (touch_all-Holds owners s1 (Held-append owners (st ∷ []) ps own)) λ _ _ s2.
      bind (touch-Holds st s2 (ground arith)) λ _ _ s3. bind (malloc-Holds s3) λ val _ s4.
        bind (touch-Holds st s4 (ground arith)) λ _ _ s5.
          let own' = Held-append owners (val ∷ st ∷ []) ps own in
          bind (new_cells-Holds owners n s5 own') λ cells _ (s6, size). returns (
            Holds-perm (val ∷ st ∷ (blocks cells ++ ps))
                (λ q. omega (
                  arith,
                  count-append q (blocks cells) (val ∷ st ∷ ps),
                  count-append q (blocks cells) ps,
                ))
                s6,
            ap suc size,
          )

pub free_cells-Holds :
    {base : ℕ → Bool} (owners : List ℕ) (cells : List Cell) {ps : List ℕ} {h : Heap}
    → Holds base (blocks cells ++ ps) h
    → Held owners ps
    → Returns (λ _. Holds base ps) (free_cells owners cells h)
unfolding free_cells
free_cells-Holds owners [] s own = returns s
free_cells-Holds owners (c ∷ cells) {ps} s own =
    let own' = Held-append owners (blocks cells) ps own in
    let own2 = Held-append owners (c.state ∷ blocks cells) ps own in
    bind
      (free_fields-Holds (c.state ∷ owners) (c.paxosval ∷ []) (c.state ∷ (blocks cells ++ ps)) s
        (ground arith, own2))
      λ _ _ s1.
        bind (free_fields-Holds owners (c.state ∷ []) (blocks cells ++ ps) s1 own')
          λ _ _ s2. free_cells-Holds owners cells s2 own
