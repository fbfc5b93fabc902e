-- ===== src/Ferrite/Concrete.antt =====
-- Parameters of the model of project-05-ferrite-v2.rs at concrete values: a store of two shards with the
-- length of a key for its hash, a search that looks at one byte after the other, and a writer that buffers.
use mathlib.Core.Path.{subst}
use mathlib.Core.Option.{some-injective, none-ne-some}
use model_lib.Base.{
  ℕ, suc, ◌≡◌, refl, sym, ap, false, inl, inr, Option, Option-cases, none, some, List, [], ◌∷◌,
  ◌++◌, length, get_elem?, append_assoc, codes, Name, if◌then◌else◌, ◌==◌, Bool-cases, ==_iff,
  arith, get_name, name_eq, remove_name,
}
use model_lib.Ferrite.Store.Contract.{KvStore}
use model_lib.Ferrite.Store.Defs.{ShardedStore, empty_shard, new, put, under_lock}
use model_lib.Ferrite.Store.Refines.{IsSound, sharded_view, sharded_store}
use model_lib.Ferrite.Store.Behaves.{new-IsSound}
use model_lib.Ferrite.Protocol.Defs.{Response, encode}
use model_lib.Ferrite.Server.Defs.{Config, Stats, Out, written_to, FramedWrite, Conn}
use model_lib.Ferrite.Codec.Defs.{Memchr, Without, take}

-- `memchr`, byte by byte.
abbrev pub shifted : Option ℕ → Option ℕ
shifted none = none
shifted (some i) = some (suc i)

unfoldable pub position : ℕ → List ℕ → Option ℕ
position c [] = none
position c (d ∷ b) = let rest = shifted (position c b) in if d == c then some 0 else rest

abbrev pub Found : ℕ → List ℕ → ℕ → Type 0
Found c b i = (get_elem? b i ≡ some c) × Without c (take i b)

pub position-some : (c : ℕ) (b : List ℕ) (i : ℕ) → position c b ≡ some i → Found c b i
unfolding position
position-some c [] i e = absurd (none-ne-some i e)
position-some c (d ∷ b) i e = elim (Bool-cases (d == c)) [
  | inl p ↦
      let q : some 0 ≡ some i = rw p at e in
      subst (Found c (d ∷ b)) (some-injective 0 i q) (ap some ((==_iff d c).0 p), tt)
  | inr p ↦
      let q : shifted (position c b) ≡ some i = rw p at e in
      elim (Option-cases (position c b)) [
        | inl n ↦ absurd (none-ne-some i (rw n at q))
        | inr (j, n) ↦
            let k : some (suc j) ≡ some i = rw n at q in
            let (h, w) = position-some c b j n in
            subst (Found c (d ∷ b)) (some-injective (suc j) i k) (h, ((λ r. ground arith), w))
      ]
]

pub position-none : (c : ℕ) (b : List ℕ) → position c b ≡ none → Without c b
unfolding position
position-none c [] e = tt
position-none c (d ∷ b) e = elim (Bool-cases (d == c)) [
  | inl p ↦ let q : some 0 ≡ none = rw p at e in absurd (none-ne-some 0 (sym q))
  | inr p ↦
      let q : shifted (position c b) ≡ none = rw p at e in
      elim (Option-cases (position c b)) [
        | inl n ↦ ((λ r. ground arith), position-none c b n)
        | inr (j, n) ↦
            let k : some (suc j) ≡ none = rw n at q in absurd (none-ne-some (suc j) (sym k))
      ]
]

abbrev pub memchr : Memchr
memchr = record { memchr = position; memchr_some = position-some; memchr_none = position-none }

abbrev pub hash : Name → ℕ
hash k = length k

abbrev pub empty_store : ShardedStore
empty_store = record { shards = empty_shard ∷ empty_shard ∷ []; poison_recoveries = 0 }

abbrev pub one_key : ShardedStore
one_key = record {
  shards = empty_shard ∷ record { entries = (codes "k", codes "v") ∷ []; poisoned = false } ∷ [];
  poison_recoveries = 0;
}

pub empty_store-IsSound : IsSound hash empty_store
unfolding new
empty_store-IsSound =
    let (s, e, k, v) = new-IsSound hash 2 (omega arith) in
    subst (IsSound hash) (sym (some-injective empty_store s e)) k

pub one_key-IsSound : IsSound hash one_key
unfolding put under_lock get_name remove_name name_eq sharded_store
one_key-IsSound =
    let (t, e, v, u) =
      (sharded_store hash).put_updates (codes "k") (codes "v") empty_store empty_store-IsSound in
    let same : some (none, one_key) ≡ some ((sharded_view hash empty_store (codes "k")), t) = e in
    subst (IsSound hash) (sym (ap (λ x. x.1) (some-injective (none, one_key) _ same))) v

pub empty_view : (key : Name) → sharded_view hash empty_store key ≡ none
unfolding new
empty_view =
    let (s, e, k, v) = new-IsSound hash 2 (omega arith) in
    subst (λ s. (key : Name) → sharded_view hash s key ≡ none)
      (sym (some-injective empty_store s e)) v

abbrev pub config : Config
config = record { max_connections = 2; max_line = 100; max_unflushed = 1000 }

abbrev pub buffer_reply : ℕ → Response → Out → Out
buffer_reply boundary r o = record o { buffered = o.buffered ++ encode r }

abbrev pub flush_all : Out → Out
flush_all o = record { sent = written_to o; buffered = [] }

abbrev pub writer : FramedWrite
writer = record {
  feed = buffer_reply;
  flush = flush_all;
  feed_writes = λ boundary r o. sym (append_assoc o.sent o.buffered (encode r));
  flush_sends = λ o. refl;
}

abbrev pub no_stats : Stats
no_stats = record {
  requests = 0;
  closed_by_client = 0;
  closed_idle = 0;
  closed_slow_reader = 0;
  closed_line_too_long = 0;
  closed_shutdown = 0;
}

abbrev pub opened : Conn ShardedStore
opened = record { store = one_key; stats = no_stats; out = record { sent = []; buffered = [] } }

abbrev pub keys : KvStore ShardedStore
keys = sharded_store hash
