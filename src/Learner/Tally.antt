-- ===== src/Learner/Tally.antt =====
-- What the counters of an instance mean: the votes among the messages handled so far.
use Prim.Native.Nat.{bit_or}
use libnetpaxos.Prelude.{ℕ, ◌^◌, ◌≡◌, ◌≢◌, refl, Bool, true, false, List, [], ◌∷◌, inl, inr}
use libnetpaxos.Prelude.{returned, arith, subst, length, All, All-map, In, Distinct}
use libnetpaxos.Prelude.Bits.{bit, bit-bit_or, bit-pow_self, bit-le-one}
use libnetpaxos.Message.{Message}
use libnetpaxos.Message.Copy.{memcpy}
use libnetpaxos.Learner.{PaxosState, fresh_state, count_vote}
use libnetpaxos.Learner.Cases.{VoteCase, ignored, counted, renewed, count_vote-VoteCase}

-- Acceptor `a` has voted in round `rnd` of instance `inst`.
abbrev pub Heard : List Message → ℕ → ℕ → ℕ → Type 0
Heard hist inst rnd a = (m : Message) × In m hist × (m.inst ≡ inst) × (m.rnd ≡ rnd) × (m.acptid ≡ a)

-- `count` different acceptors have voted in the current round, and each has its bit.
pub record Tallied (hist : List Message) (inst : ℕ) (st : PaxosState) : Type 0 where
  pub voters : List ℕ
  pub distinct : Distinct voters
  pub size : length voters ≡ st.count
  pub marked : All (λ a. bit st.from a ≡ 1) voters
  pub heard : All (Heard hist inst st.rnd) voters

pub Heard-subset :
    (hist hist' : List Message)
    → ((m : Message) → In m hist → In m hist')
    → (inst rnd a : ℕ) → Heard hist inst rnd a
    → Heard hist' inst rnd a
Heard-subset hist hist' more inst rnd a (v, i, at, same, by) = (v, more v i, at, same, by)

pub Tallied-subset :
    {hist hist' : List Message} {inst : ℕ} {st : PaxosState}
    → ((m : Message) → In m hist → In m hist')
    → Tallied hist inst st
    → Tallied hist' inst st
Tallied-subset {hist} {hist'} {inst} {st} more t = record {
  voters = t.voters;
  distinct = t.distinct;
  size = t.size;
  marked = t.marked;
  heard = All-map (Heard-subset hist hist' more inst st.rnd) t.voters t.heard;
}

pub Tallied-cons :
    {hist : List Message} {inst : ℕ} {st : PaxosState} (m : Message)
    → Tallied hist inst st
    → Tallied (m ∷ hist) inst st
Tallied-cons m = Tallied-subset (λ v i. inr i)

-- Nobody has voted in a fresh instance.
pub Tallied-fresh : (hist : List Message) (inst : ℕ) → Tallied hist inst fresh_state
Tallied-fresh hist inst = record {
  voters = [];
  distinct = tt;
  size = refl;
  marked = tt;
  heard = tt;
}

bit-keep : (from k a : ℕ) → bit from a ≡ 1 → bit (bit_or from (2 ^ k)) a ≡ 1
bit-keep from k a h = omega (arith, bit-bit_or a from (2 ^ k), bit-le-one a (2 ^ k))

bit-new : (from k : ℕ) → bit (bit_or from (2 ^ k)) k ≡ 1
bit-new from k = omega (arith, bit-bit_or k from (2 ^ k), bit-pow_self k, bit-le-one k from)

-- An acceptor whose bit is clear is none of the voters.
unmarked : (from a : ℕ) → bit from a ≡ 0 → (b : ℕ) → bit from b ≡ 1 → a ≢ b
unmarked from a clear b mark e = cc

-- Counting a message keeps the meaning of the counters.
pub count_vote-Tallied :
    {hist : List Message} {inst : ℕ} (maj : ℕ) {st : PaxosState} (m : Message)
    {r : PaxosState × Bool}
    → Tallied hist inst st
    → m.inst ≡ inst
    → count_vote maj st m ≡ returned r
    → Tallied (m ∷ hist) inst r.0
count_vote-Tallied {hist} {inst} maj {st} m {r} t at h = go (count_vote-VoteCase maj st m h)
  where
    go : {r' : PaxosState × Bool} → VoteCase maj st m r' → Tallied (m ∷ hist) inst r'.0
    go (ignored _) = Tallied-cons m t
    go (counted active same fits clear copied) = record {
      voters = m.acptid ∷ t.voters;
      distinct = (All-map (unmarked st.from m.acptid clear) t.voters t.marked, t.distinct);
      size = omega (arith, t.size);
      marked = (bit-new st.from m.acptid, All-map (bit-keep st.from m.acptid) t.voters t.marked);
      heard = (
        (m, inl refl, at, same, refl),
        All-map (Heard-subset hist (m ∷ hist) (λ v i. inr i) inst st.rnd) t.voters t.heard,
      );
    }
    go (renewed active later fits copied) = record {
      voters = m.acptid ∷ [];
      distinct = (tt, tt);
      size = refl;
      marked = (bit-new st.from m.acptid, tt);
      heard = ((m, inl refl, at, refl, refl), tt);
    }

-- The vote that completes the quorum.
pub record IsChosen (maj : ℕ) (st : PaxosState) (m : Message) (st' : PaxosState) : Type 0 where
  pub active : st.finished ≡ false
  pub same_round : m.rnd ≡ st'.rnd
  pub reached : st'.count ≡ maj
  pub value : memcpy st.paxosval m.paxosval 32 ≡ returned st'.paxosval
  pub closed : st'.finished ≡ true

pub count_vote-IsChosen :
    (maj : ℕ) (st : PaxosState) (m : Message) {st' : PaxosState}
    → count_vote maj st m ≡ returned (st', true)
    → IsChosen maj st m st'
count_vote-IsChosen maj st m {st'} h = go (count_vote-VoteCase maj st m h) refl refl
  where
    go :
        {r : PaxosState × Bool}
        → VoteCase maj st m r
        → r.0 ≡ st'
        → r.1 ≡ true
        → IsChosen maj st m st'
    go (ignored _) e t = cc
    go (counted active same fits clear copied) e t = subst (IsChosen maj st m) e (record {
      active = active;
      same_round = same;
      reached = ground arith;
      value = copied;
      closed = t;
    })
    go (renewed active later fits copied) e t = cc
