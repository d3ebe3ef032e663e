-- ===== src/Store/Function.antt =====
-- A database that is a map itself and never reports an error.
use libnetpaxos.Prelude.{◌≡◌, refl, ap, some, none}
use libnetpaxos.Store.{LevelDb, IsMap, IsReliable, Map, update}

abbrev pub function_db : LevelDb Map
function_db = record {
  put = λ f key value. some (update f key (some value));
  get = λ f key. some (f key);
  delete = λ f key. some (update f key none);
}

pub function_db-IsMap : IsMap function_db (λ f. f)
function_db-IsMap = record {
  put_lem = λ db db' key value h k.
      let e : db' ≡ update db key (some value) = cc h in ap (λ (f : Map). f k) e;
  get_lem = λ db key value h. cc h;
  delete_lem = λ db db' key h k. let e : db' ≡ update db key none = cc h in ap (λ (f : Map). f k) e;
}

pub function_db-IsReliable : IsReliable function_db
function_db-IsReliable = record {
  puts = λ db k v. (update db k (some v), refl);
  gets = λ db k. (db k, refl);
  deletes = λ db k. (update db k none, refl);
}
