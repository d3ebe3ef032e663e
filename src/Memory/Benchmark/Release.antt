-- ===== src/Memory/Benchmark/Release.antt =====
-- What the benchmark leaves in use.
use libnetpaxos.Prelude.{ℕ, ◌+◌, ◌≤◌, ◌≡◌, arith, Bool, true, false, List, [], ◌∷◌, ◌++◌}
use libnetpaxos.Memory.{pure, Heap, ◌>>◌}
use libnetpaxos.Memory.Holds.{
  Holds, Holds-perm, Held, Held-append, Held-self, Returns, returns, bind, malloc-Holds, free-Holds,
  touch-Holds, touch_all-Holds, free_fields-Holds, malloc_items-Holds, IsHeap, count, count-append,
}
use libnetpaxos.Memory.Benchmark.{
  DataBlocks, Got, benchmark_main, failed, fill_blocks, free_data, free_generated, generate_blocks,
  missing, new_data, open_db, read_blocks, value,
}

abbrev all : DataBlocks → List ℕ → List ℕ
all d ps = d.roptions ∷ d.woptions ∷ d.ctx ∷ ps

module _ {base : ℕ → Bool} where
  new_data-Holds :
      {ps : List ℕ} {h : Heap} → Holds base ps h → Returns (λ d. Holds base (all d ps)) (new_data h)
  unfolding new_data
  new_data-Holds s = bind (malloc-Holds s) λ ctx _ s1. bind (malloc-Holds s1) λ woptions _ s2.
      bind (touch-Holds ctx s2 (ground arith)) λ _ _ s3.
        bind (malloc-Holds s3)
          λ roptions _ s4. bind (touch-Holds ctx s4 (ground arith)) λ _ _ s5. returns s5

  open_db-Holds :
      (d : DataBlocks) {ps : List ℕ} {h : Heap}
      → 1 ≤ count d.ctx ps
      → Holds base ps h
      → Returns (λ (options, db). Holds base (db ∷ options ∷ ps)) (open_db d h)
  unfolding open_db
  open_db-Holds d own s = bind (malloc-Holds s) λ options _ s1.
      bind (touch-Holds d.ctx s1 (ground (arith, own))) λ _ _ s2.
        bind (malloc-Holds s2)
          λ db _ s3. bind (touch-Holds d.ctx s3 (ground (arith, own))) λ _ _ s4. returns s4

  generate_blocks-Holds :
      (n : ℕ) {ps : List ℕ} {h : Heap}
      → Holds base ps h
      → Returns (λ (keys, items). Holds base (items ++ keys ∷ ps)) (generate_blocks n h)
  unfolding generate_blocks
  generate_blocks-Holds n s = bind (malloc-Holds s) λ keys _ s1.
      bind (malloc_items-Holds (keys ∷ []) n s1 (ground arith))
        λ items _ (s2, _). bind (touch_all-Holds items s2 (Held-self items _)) λ _ _ s3. returns s3

  free_generated-Holds :
      (keys : ℕ) (items : List ℕ) {ps : List ℕ} {h : Heap}
      → Holds base (items ++ keys ∷ ps) h
      → Returns (λ _. Holds base ps) (free_generated keys items h)
  unfolding free_generated
  free_generated-Holds keys items s =
      bind (free_fields-Holds (keys ∷ []) items _ s (ground arith)) λ _ _ s1. free-Holds keys s1

  fill_blocks-Holds :
      (d : DataBlocks) (db : ℕ) (writes : List Bool) {ps : List ℕ} {h : Heap}
      → Held (d.ctx ∷ d.woptions ∷ db ∷ []) ps
      → Holds base ps h
      → Returns (λ _. Holds base ps) (fill_blocks d db writes h)
  unfolding fill_blocks
  fill_blocks-Holds d db [] own s = returns s
  fill_blocks-Holds d db (false ∷ writes) own s =
      bind (touch_all-Holds (d.ctx ∷ d.woptions ∷ db ∷ []) s own)
        λ _ _ s1. fill_blocks-Holds d db writes own s1
  fill_blocks-Holds d db (true ∷ writes) own s =
      bind (touch_all-Holds (d.ctx ∷ d.woptions ∷ db ∷ []) s own) λ _ _ s1.
        bind (malloc-Holds s1)
          λ err _ s2. bind (free-Holds err s2) λ _ _ s3. fill_blocks-Holds d db writes own s3

  read_blocks-Holds :
      (d : DataBlocks) (db : ℕ) (reads : List Got) {ps : List ℕ} {h : Heap}
      → Held (d.ctx ∷ d.roptions ∷ db ∷ []) ps
      → Holds base ps h
      → Returns (λ _. Holds base ps) (read_blocks d db reads h)
  unfolding read_blocks
  read_blocks-Holds d db [] own s = returns s
  read_blocks-Holds d db (missing ∷ reads) own s =
      bind (touch_all-Holds (d.ctx ∷ d.roptions ∷ db ∷ []) s own)
        λ _ _ s1. read_blocks-Holds d db reads own s1
  read_blocks-Holds d db (failed ∷ reads) own s =
      bind (touch_all-Holds (d.ctx ∷ d.roptions ∷ db ∷ []) s own) λ _ _ s1.
        bind (malloc-Holds s1)
          λ err _ s2. bind (free-Holds err s2) λ _ _ s3. read_blocks-Holds d db reads own s3
  read_blocks-Holds d db (value ∷ reads) own s =
      bind (touch_all-Holds (d.ctx ∷ d.roptions ∷ db ∷ []) s own) λ _ _ s1.
        bind (malloc-Holds s1)
          λ val _ s2. bind (free-Holds val s2) λ _ _ s3. read_blocks-Holds d db reads own s3

-- The options and arrays, in the order in which they are released, and what stays.
abbrev pub stay : DataBlocks → DataBlocks → List ℕ
stay d c = d.ctx ∷ c.ctx ∷ []

abbrev options_last : DataBlocks → ℕ → DataBlocks → ℕ → List ℕ
options_last d o c o' = d.woptions ∷ d.roptions ∷ o ∷ c.woptions ∷ c.roptions ∷ o' ∷ stay d c

abbrev arrays : ℕ → List ℕ → ℕ → List ℕ → List ℕ → List ℕ
arrays keys ki values vi ps = ki ++ (keys ∷ (vi ++ (values ∷ ps)))

count-arrays :
    (q keys : ℕ) (ki : List ℕ) (values : ℕ) (vi ps : List ℕ)
    → count q (arrays keys ki values vi ps)
      ≡ count q ki + count q vi + count q (keys ∷ values ∷ []) + count q ps
count-arrays q keys ki values vi ps =
    omega (arith, count-append q ki (keys ∷ (vi ++ (values ∷ ps))), count-append q vi (values ∷ ps))

Held-arrays :
    (owners : List ℕ) (keys : ℕ) (ki : List ℕ) (values : ℕ) (vi ps : List ℕ)
    → Held owners ps
    → Held owners (arrays keys ki values vi ps)
Held-arrays owners keys ki values vi ps own =
    Held-append owners ki _
      (Held-append owners (keys ∷ vi) _ (Held-append owners (values ∷ []) ps own))

module _ {base : ℕ → Bool} where
  release-Holds :
      (d c : DataBlocks) (o o' keys values : ℕ) (ki vi : List ℕ) {h : Heap}
      → Holds base (arrays keys ki values vi (options_last d o c o')) h
      → Returns
          (λ (d', c'). Holds base (stay d' c'))
          ((do
            free_generated keys ki
            free_generated values vi
            free_data d o
            free_data c o'
            pure (d, c))
            h)
  unfolding free_data
  release-Holds d c o o' keys values ki vi s = bind (free_generated-Holds keys ki s) λ _ _ s1.
      bind (free_generated-Holds values vi s1) λ _ _ s2.
        bind (free_fields-Holds (d.ctx ∷ []) (d.woptions ∷ d.roptions ∷ o ∷ []) _ s2 (ground arith))
          λ _ _ s3.
            bind
              (free_fields-Holds (c.ctx ∷ []) (c.woptions ∷ c.roptions ∷ o' ∷ []) (stay d c) s3
                (ground arith))
              λ _ _ s4. returns s4

-- Whatever the number of keys, and whatever LevelDB answers to the writes and the reads, the
-- benchmark of two databases that can be opened and destroyed gives back every block that it takes,
-- but the two structures with the options, which `free_data` forgets.
pub benchmark_main-Leaves :
    (n : ℕ) (syncs writes : List Bool) (reads : List Got) (h : Heap)
    → IsHeap h
    → Returns (λ (d, c). Holds h.live (stay d c)) (benchmark_main n syncs writes reads h)
unfolding benchmark_main
benchmark_main-Leaves n syncs writes reads h s = bind (new_data-Holds s) λ d _ s1.
    bind (generate_blocks-Holds n s1) λ (keys, ki) _ s2.
      bind (generate_blocks-Holds n s2) λ (values, vi) _ s3.
        let made = arrays values vi keys ki (all d []) in
        let own = Held-arrays (all d []) values vi keys ki (all d []) (ground arith) in
        bind (open_db-Holds d own.1.1.0 s3) λ (o, db) _ s4.
          bind (fill_blocks-Holds d db syncs (ground (arith, own)) s4) λ _ _ s5.
            bind (free_fields-Holds (d.ctx ∷ []) (db ∷ []) (o ∷ made) s5 (ground (arith, own)))
              λ _ _ s6. bind (new_data-Holds s6) λ c _ s7.
                bind (open_db-Holds c (ground arith) s7) λ (o', db') _ s8.
                  bind (fill_blocks-Holds c db' writes (ground arith) s8) λ _ _ s9.
                    bind (read_blocks-Holds c db' reads (ground arith) s9) λ _ _ s10.
                      bind (free_fields-Holds (c.ctx ∷ []) (db' ∷ []) _ s10 (ground arith))
                        λ _ _ s11.
                          bind (touch_all-Holds (d.ctx ∷ o ∷ []) s11 (ground (arith, own)))
                            λ _ _ s12.
                              bind (touch_all-Holds (c.ctx ∷ o' ∷ []) s12 (ground arith)) λ _ _ s13.
                                let ordered =
                                  Holds-perm (arrays keys ki values vi (options_last d o c o'))
                                    (λ q. omega (
                                      arith,
                                      count-arrays q values vi keys ki (all d []),
                                      count-arrays q keys ki values vi (options_last d o c o'),
                                    ))
                                    s13 in
                                release-Holds d c o o' keys values ki vi ordered
