-- ===== src/KvMemory/Tests.antt =====
-- A table that is a function, and requests of two letters.
use libnetpaxos.Prelude.{
  ℕ, ◌≡◌, refl, arith, Option, some, none, List, [], ◌∷◌, ◌==◌, if◌then◌else◌, replicate, same_word,
}
use libnetpaxos.Prelude.{fault}
use libnetpaxos.Store.{put_op}
use libnetpaxos.KvMemory.{HashTable, KvState, application_new, deliver}
use libnetpaxos.KvMemory.Stored.{stored}
use libnetpaxos.KvMemory.Sized.{IsSized, put_overflow}

abbrev Keys : Type 0
Keys = List ℕ → Option ℕ

abbrev without : ℕ → Option ℕ → Option ℕ
without s none = none
without s (some e) = if s == e then none else some e

abbrev key_table : HashTable Keys
key_table = record {
  find = λ f key. f key;
  add = λ f key entry k. if same_word key k then some entry else f k;
  del = λ f s k. without s (f k);
}

abbrev fresh : KvState Keys
fresh = application_new (λ k. none)

fresh-IsSized : IsSized fresh
unfolding IsSized
fresh-IsSized s value e = absurd (cc e)

abbrev key : List ℕ
key = 97 ∷ 98 ∷ []

abbrev once : KvState Keys
once = stored key_table fresh key (99 ∷ []) []

abbrev twice : KvState Keys
twice = stored key_table once key (100 ∷ []) []

-- A value of eleven bytes, all of them in the memory of the request.
abbrev long : List ℕ
long = put_op ∷ 2 ∷ 11 ∷ 97 ∷ 98 ∷ replicate 27 0

put_overflow_example : deliver key_table fresh long ≡ fault
put_overflow_example = put_overflow key_table fresh long fresh-IsSized refl (ground arith)
