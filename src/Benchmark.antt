-- ===== src/Benchmark.antt =====
-- app/leveldb_server.c: it makes keys and values, fills a database with them, and reads it.
pub mod Filled
pub mod Strings
mod Tests
use libnetpaxos.Prelude.{
  ℕ, zero, suc, ◌+◌, ◌-◌, ◌%◌, Option, some, none, List, [], ◌∷◌, length, ◌==◌, if◌then◌else◌,
}
use libnetpaxos.Prelude.{Outcome, returned, fault, ◌>>=◌, read_at, write_at}
use libnetpaxos.Store.{LevelDb}
use libnetpaxos.Replica.{load}

-- "abcdefghijklmnopqrstuvwxyzABCDEFGHIJK...", less its zero byte.
abbrev pub charset : List ℕ
charset =
    97 ∷ 98 ∷ 99 ∷ 100 ∷ 101 ∷ 102 ∷ 103 ∷ 104 ∷ 105 ∷ 106 ∷ 107 ∷ 108 ∷ 109 ∷ 110 ∷ 111 ∷ 112 ∷ 113
    ∷ 114 ∷ 115 ∷ 116 ∷ 117 ∷ 118 ∷ 119 ∷ 120 ∷ 121 ∷ 122 ∷ 65 ∷ 66 ∷ 67 ∷ 68 ∷ 69 ∷ 70 ∷ 71 ∷ 72
    ∷ 73 ∷ 74 ∷ 75 ∷ 46 ∷ 46 ∷ 46 ∷ []

-- The loop of `rand_string`: `k` rounds are left, and `rand` gives the numbers to come.
unfoldable pub rand_chars : ℕ → ℕ → (ℕ → ℕ) → List ℕ → Outcome (List ℕ)
rand_chars zero n rand str = returned str
rand_chars (suc k) n rand str = do
  c ← read_at charset (rand 0 % length charset)
  str' ← write_at str n c
  rand_chars k (suc n) (λ j. rand (suc j)) str'

-- `rand_string`, on the memory `str`.
unfoldable pub rand_string : List ℕ → ℕ → (ℕ → ℕ) → Outcome (List ℕ)
rand_string str zero rand = returned str
rand_string str (suc size) rand = rand_chars size 0 rand str >>= λ str'. write_at str' size 0

-- `generate_array`, of `n` strings in the memory that `malloc` gives; each string has its own
-- numbers.
unfoldable pub generate_array : ℕ → ℕ → (ℕ → List ℕ) → (ℕ → ℕ → ℕ) → Outcome (List (List ℕ))
generate_array zero ksize mem rand = returned []
generate_array (suc n) ksize mem rand = do
  str ← rand_string (mem 0) ksize (rand 0)
  rest ← generate_array n ksize (λ i. mem (suc i)) (λ i. rand (suc i))
  returned (str ∷ rest)

module _ {Db : Type 0} (level : LevelDb Db) where
  -- `add_entry`: the database, and what it returns. The flag `sync` is an option of LevelDB.
  unfoldable pub add_entry : Db → List ℕ → ℕ → List ℕ → ℕ → Outcome (Db × ℕ)
  add_entry db key ksize value vsize = do
    k ← load key 0 ksize
    v ← load value 0 vsize
    elim (level.put db k v) [ none ↦ returned (db, 1) | some db' ↦ returned (db', 0) ]

  -- `get_value`: the value, if there is one, and what it returns.
  unfoldable pub get_value : Db → List ℕ → ℕ → Outcome (Option (List ℕ) × ℕ)
  get_value db key ksize = do
    k ← load key 0 ksize
    elim (level.get db k) [ none ↦ returned (none, 1) | some value ↦ returned (value, 0) ]

  -- `delete_entry`.
  unfoldable pub delete_entry : Db → List ℕ → ℕ → Outcome (Db × ℕ)
  delete_entry db key ksize = do
    k ← load key 0 ksize
    elim (level.delete db k) [ none ↦ returned (db, 1) | some db' ↦ returned (db', 0) ]

  -- `i % num_keys`: undefined for no keys.
  unfoldable pub index_of : ℕ → ℕ → Outcome ℕ
  index_of i zero = fault
  index_of i (suc n) = returned (i % suc n)

  -- The loop of `fillsync` and of `fillrandom`, which differ in the flag `sync`: `k` rounds are
  -- left, from `i` on. What `add_entry` returns is not looked at.
  unfoldable pub fill : ℕ → ℕ → ℕ → List (List ℕ) → ℕ → List (List ℕ) → ℕ → Db → Outcome Db
  fill zero i num_keys keys ksize values vsize db = returned db
  fill (suc k) i num_keys keys ksize values vsize db = do
    idx ← index_of i num_keys
    key ← read_at keys idx
    value ← read_at values idx
    (db', code) ← add_entry db key ksize value vsize
    fill k (suc i) num_keys keys ksize values vsize db'

  -- The loop of `read_random`, and the values that it finds.
  unfoldable pub read_random : ℕ → ℕ → ℕ → List (List ℕ) → ℕ → Db → Outcome (List (Option (List ℕ)))
  read_random zero i num_keys keys ksize db = returned []
  read_random (suc k) i num_keys keys ksize db = do
    idx ← index_of i num_keys
    key ← read_at keys idx
    (value, code) ← get_value db key ksize
    rest ← read_random k (suc i) num_keys keys ksize db
    returned (value ∷ rest)
