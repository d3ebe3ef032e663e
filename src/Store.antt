-- ===== src/Store.antt =====
-- app/include/application.h, the results of `deliver` in lib/include/learner.h, and the databases
-- that the applications use.
pub mod Function
use libnetpaxos.Prelude.{ℕ, ◌≡◌, Option, some, none, List, if◌then◌else◌, same_word}

-- `enum command_t`.
abbrev pub put_op : ℕ
put_op = 1

abbrev pub get_op : ℕ
get_op = 2

abbrev pub delete_op : ℕ
delete_op = 3

-- The results of `deliver`.
pub data Result : Type 0 where
  success : Result
  failed : Result
  got_value : Result
  not_found : Result
  invalid_op : Result

-- LevelDB, as the code uses it: a put and a delete give the new database or an error; a get gives
-- an error, or the value with `none` for its null pointer where the key is missing.
pub record LevelDb (Db : Type 0) : Type 0 where
  pub put : Db → List ℕ → List ℕ → Option Db
  pub get : Db → List ℕ → Option (Option (List ℕ))
  pub delete : Db → List ℕ → Option Db

-- A map from byte strings to byte strings, and one with a key changed.
abbrev pub Map : Type 0
Map = List ℕ → Option (List ℕ)

abbrev pub update : Map → List ℕ → Option (List ℕ) → Map
update f key value k = if same_word key k then value else f k

-- What the documentation of LevelDB says: where its operations report no error, it is a map from
-- byte strings to byte strings, `look`.
pub record IsMap {Db : Type 0} (level : LevelDb Db) (look : Db → Map) : Type 0 where
  pub put_lem :
      (db db' : Db) (key value : List ℕ)
      → level.put db key value ≡ some db'
      → (k : List ℕ) → look db' k ≡ update (look db) key (some value) k
  pub get_lem :
      (db : Db) (key : List ℕ) (value : Option (List ℕ))
      → level.get db key ≡ some value
      → value ≡ look db key
  pub delete_lem :
      (db db' : Db) (key : List ℕ)
      → level.delete db key ≡ some db'
      → (k : List ℕ) → look db' k ≡ update (look db) key none k

-- A database that reports no error.
pub record IsReliable {Db : Type 0} (level : LevelDb Db) : Type 0 where
  pub puts : (db : Db) (k v : List ℕ) → (db' : Db) × (level.put db k v ≡ some db')
  pub gets : (db : Db) (k : List ℕ) → (v : Option (List ℕ)) × (level.get db k ≡ some v)
  pub deletes : (db : Db) (k : List ℕ) → (db' : Db) × (level.delete db k ≡ some db')
