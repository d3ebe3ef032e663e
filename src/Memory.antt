-- ===== src/Memory.antt =====
-- Blocks of memory: what `malloc`, `calloc` and the constructors of libevent and LevelDB return, and
-- what `free` and the matching destructors take. `malloc` is taken to succeed, as in the code.
pub mod Holds
pub mod Config
pub mod Cells
pub mod Coordinator
pub mod Acceptor
pub mod Learner
pub mod Replica
pub mod Proposer
pub mod UdpClient
pub mod TcpClient
pub mod Benchmark
pub mod TcpServer
pub mod Tests
use libnetpaxos.Prelude.{
  ℕ, zero, suc, Option, none, some, Bool, true, false, List, [], ◌∷◌, ◌==◌, if◌then◌else◌,
}
use libnetpaxos.Prelude.{Outcome, returned, exited, fault}

-- The number of the next block, and the blocks that can be used.
pub record Heap : Type 0 where
  pub next : ℕ
  pub live : ℕ → Bool

abbrev pub Mem : Type 0 → Type 0
Mem A = Heap → Outcome (A × Heap)

abbrev pub pure : {A : Type 0} → A → Mem A
pure a h = returned (a, h)

abbrev pub and_then : {A B : Type 0} → Outcome (A × Heap) → (A → Mem B) → Outcome (B × Heap)
and_then (returned (a, h)) f = f a h
and_then exited f = exited
and_then fault f = fault

infixl 5 ◌>>=◌ ◌>>◌
abbrev pub ◌>>=◌ : {A B : Type 0} → Mem A → (A → Mem B) → Mem B
m >>= f = λ h. and_then (m h) f

abbrev pub ◌>>◌ : {B : Type 0} → Mem (Unit {0}) → Mem B → Mem B
m >> k = m >>= λ _. k

unfoldable pub malloc : Mem ℕ
malloc h =
    returned
      (h.next, record { next = suc h.next; live = λ q. if h.next == q then true else h.live q })

-- A read or a write inside a block.
unfoldable pub touch : ℕ → Mem (Unit {0})
touch p h = if h.live p then returned (tt, h) else fault

-- Undefined for a block that is no longer, or never was, in use.
unfoldable pub free : ℕ → Mem (Unit {0})
free p h =
    if h.live p
    then returned (tt, record h { live = λ q. if p == q then false else h.live q })
    else fault

-- `free(a->b->p)` for each field `p`, in order; the pointer is found through the `owners`.
unfoldable pub touch_all : List ℕ → Mem (Unit {0})
touch_all [] = pure tt
touch_all (o ∷ owners) = do touch o; touch_all owners

unfoldable pub free_fields : List ℕ → List ℕ → Mem (Unit {0})
free_fields owners [] = pure tt
free_fields owners (p ∷ ps) = do touch_all owners; free p; free_fields owners ps

-- A pointer that is not set until the code sets it.
unfoldable pub free_set : Option ℕ → Mem (Unit {0})
free_set none h = fault
free_set (some p) h = free p h

-- `n` blocks of an array of pointers.
unfoldable pub malloc_items : List ℕ → ℕ → Mem (List ℕ)
malloc_items owners zero = pure []
malloc_items owners (suc n) = do
  p ← malloc
  touch_all owners
  ps ← malloc_items owners n
  pure (p ∷ ps)
