-- ===== src/Memory/Replica/Release.antt =====
-- What the replicas leave in use.
use libnetpaxos.Prelude.{
  ℕ, zero, suc, ◌+◌, refl, arith, Bool, none, some, List, [], ◌∷◌, ◌++◌, All, length-append,
}
use libnetpaxos.Memory.{Heap}
use libnetpaxos.Memory.Holds.{
  Holds, Holds-perm, Returns, returns, bind, mono, malloc-Holds, free-Holds, touch-Holds,
  free_fields-Holds, count-append, IsHeap, Leaves, Left, free_last-Leaves,
}
use libnetpaxos.Memory.Config.{conf_blocks-Holds}
use libnetpaxos.Memory.Cells.{blocks}
use libnetpaxos.Memory.Learner.{all, fields, learner_blocks-Holds, free_learner-Holds}
use libnetpaxos.Memory.Replica.{
  Answer, ApplicationBlocks, deliver_blocks, done, error, free_application, got, leveldb_paxos_main,
  new_application, serve_all, simple_learner_main,
}

-- A replica without a database gives back all blocks that it takes, each once.
pub simple_learner_main-Leaves :
    (maxinst : ℕ) (h : Heap) → IsHeap h → Returns (λ _. Leaves h 0) (simple_learner_main maxinst h)
unfolding simple_learner_main
simple_learner_main-Leaves maxinst h s = bind (conf_blocks-Holds s) λ conf _ s1.
    bind (malloc-Holds s1) λ app _ s2. bind (touch-Holds app s2 (ground arith)) λ _ _ s3.
      bind (learner_blocks-Holds maxinst s3) λ (l, e) _ s4.
        bind (free_learner-Holds l e s4) λ _ _ s5.
          bind (free-Holds conf (Holds-perm (conf ∷ app ∷ []) (λ q. omega arith) s5))
            λ _ _ s6. mono (free-Holds app s6) λ _ _ s7. ([], s7, refl)

-- The values that stay, and the answers that the code can read.
abbrev keeps : Answer → ℕ
keeps (got (some (zero ∷ rest))) = 1
keeps (got (some (suc c ∷ rest))) = 0
keeps (got (some [])) = 0
keeps (got none) = 0
keeps done = 0
keeps error = 0

abbrev pub kept : List Answer → ℕ
kept [] = 0
kept (a ∷ answers) = keeps a + kept answers

abbrev pub CanRead : Answer → Type 0
CanRead (got none) = ⊥
CanRead (got (some [])) = ⊥
CanRead (got (some (c ∷ rest))) = Unit
CanRead done = Unit
CanRead error = Unit

module _ {base : ℕ → Bool} where
  deliver_blocks-Left :
      (a : Answer) {ps : List ℕ} {h : Heap}
      → CanRead a
      → Holds base ps h
      → Returns (λ _. Left base (keeps a) ps) (deliver_blocks a h)
  unfolding deliver_blocks
  deliver_blocks-Left done can s = returns ([], s, refl)
  deliver_blocks-Left error can s =
      bind (malloc-Holds s) λ err _ s1. mono (free-Holds err s1) λ _ _ s2. ([], s2, refl)
  deliver_blocks-Left (got none) can s = absurd can
  deliver_blocks-Left (got (some [])) can s = absurd can
  deliver_blocks-Left (got (some (zero ∷ rest))) can s =
      bind (malloc-Holds s)
        λ value _ s1. mono (touch-Holds value s1 (ground arith)) λ _ _ s2. (value ∷ [], s2, refl)
  deliver_blocks-Left (got (some (suc d ∷ rest))) can s = bind (malloc-Holds s) λ value _ s1.
      bind (touch-Holds value s1 (ground arith))
        λ _ _ s2. mono (free-Holds value s2) λ _ _ s3. ([], s3, refl)

  serve_all-Left :
      (answers : List Answer) {ps : List ℕ} {h : Heap}
      → All CanRead answers
      → Holds base ps h
      → Returns (λ _. Left base (kept answers) ps) (serve_all answers h)
  unfolding serve_all
  serve_all-Left [] can s = returns ([], s, refl)
  serve_all-Left (a ∷ answers) {ps} (c, can) s =
      bind (deliver_blocks-Left a c s) λ _ _ (one, s1, size1).
        mono (serve_all-Left answers can s1) λ _ _ (left, s2, size2). (
          left ++ one,
          Holds-perm ((left ++ one) ++ ps)
              (λ q. omega (
                arith,
                count-append q left (one ++ ps),
                count-append q one ps,
                count-append q (left ++ one) ps,
                count-append q left one,
              ))
              s2,
          omega (arith, length-append left one, size1, size2),
        )

  free_application-Holds :
      (a : ApplicationBlocks) {ps : List ℕ} {h : Heap}
      → Holds base (a.db ∷ a.woptions ∷ a.roptions ∷ a.options ∷ a.state ∷ ps) h
      → Returns (λ _. Holds base ps) (free_application a h)
  unfolding free_application
  free_application-Holds a {ps} s =
      bind
        (free_fields-Holds (a.state ∷ []) (a.db ∷ a.woptions ∷ a.roptions ∷ a.options ∷ [])
          (a.state ∷ ps) s (ground arith))
        λ _ _ s1. free-Holds a.state s1

  new_application-Holds :
      {ps : List ℕ} {h : Heap}
      → Holds base ps h
      → Returns
          (λ a. Holds base (a.db ∷ a.woptions ∷ a.roptions ∷ a.options ∷ a.state ∷ ps))
          (new_application h)
  unfolding new_application
  new_application-Holds {ps} s = bind (malloc-Holds s) λ state _ s1.
      bind (malloc-Holds s1) λ options _ s2. bind (malloc-Holds s2) λ db _ s3.
        bind (malloc-Holds s3) λ woptions _ s4. bind (malloc-Holds s4) λ roptions _ s5.
          bind (touch-Holds state s5 (ground arith)) λ _ _ s6.
            returns
              (Holds-perm (db ∷ woptions ∷ roptions ∷ options ∷ state ∷ ps) (λ q. omega arith) s6)

-- A replica with a database that answers only with values of a byte at least gives back all blocks
-- that it takes but the values that begin with a zero byte, which it keeps, one for each time that
-- it reads such a value.
pub leveldb_paxos_main-Leaves :
    (maxinst : ℕ) (answers : List Answer) (h : Heap)
    → All CanRead answers
    → IsHeap h
    → Returns (λ _. Leaves h (kept answers)) (leveldb_paxos_main maxinst answers h)
unfolding leveldb_paxos_main
leveldb_paxos_main-Leaves maxinst answers h can s = bind (new_application-Holds s) λ a _ s1.
    bind (conf_blocks-Holds s1) λ conf _ s2. bind (touch-Holds conf s2 (ground arith)) λ _ _ s3.
      bind (learner_blocks-Holds maxinst s3) λ (l, e) _ s4.
        bind (serve_all-Left answers can s4) λ _ _ (left, s5, size).
          let app : List ℕ = a.db ∷ a.woptions ∷ a.roptions ∷ a.options ∷ a.state ∷ [] in
          let learner_first =
            Holds-perm (all l e (app ++ (left ++ conf ∷ [])))
              (λ q. omega (
                arith,
                count-append q left (all l e (conf ∷ app)),
                count-append q (blocks l.cells) (fields l e (conf ∷ app)),
                count-append q (blocks l.cells) (fields l e (app ++ (left ++ conf ∷ []))),
                count-append q left (conf ∷ []),
              ))
              s5 in
          bind (free_learner-Holds l e learner_first) λ _ _ s6.
            bind (free_application-Holds a s6) λ _ _ s7. free_last-Leaves h _ conf (left, s7, size)
