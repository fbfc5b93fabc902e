-- ===== src/Ferrite/Store/Defs.antt =====
-- `ShardedStore` of project-05-ferrite-v2.rs. A call holds the lock of one shard from its start to its
-- end, so a call is one step on the state. `hash` is the keyed hash of `RandomState`.
use model_lib.Base.{
  ℕ, ◌+◌, ◌%◌, Bool, true, false, Option, none, some, List, [], ◌∷◌, map, length, get_elem?, set,
  replicate, get_name, put_name, remove_name, Name, ◌==◌, if◌then◌else◌,
}
use model_lib.Ferrite.Store.Contract.{Value, Call}

abbrev pub Map : Type 0
Map = List (Name × Value)

-- `RwLock<Map>`
pub record Shard : Type 0 where
  pub entries : Map
  pub poisoned : Bool

pub record ShardedStore : Type 0 where
  pub shards : List Shard
  pub poison_recoveries : ℕ

abbrev pub empty_shard : Shard
empty_shard = record { entries = []; poisoned = false }

-- The assertion fails where there is no shard.
unfoldable pub new : ℕ → Option ShardedStore
new n =
    if n == 0
    then none
    else some (record { shards = replicate n empty_shard; poison_recoveries = 0 })

-- `shard.read()` and `shard.write()` with their recovery: the poison is cleared and counted.
abbrev pub recoveries_of : Bool → ℕ
recoveries_of poisoned = if poisoned then 1 else 0

abbrev pub locked : ShardedStore → ℕ → Map → Bool → ShardedStore
locked s i entries poisoned = record {
  shards = set s.shards i (record { entries = entries; poisoned = false });
  poison_recoveries = s.poison_recoveries + recoveries_of poisoned;
}

abbrev pub summed : List ℕ → ℕ
summed [] = 0
summed (n ∷ ns) = n + summed ns

abbrev pub flagged : List Shard → ℕ
flagged [] = 0
flagged (sh ∷ shards) = recoveries_of sh.poisoned + flagged shards

-- What is taken under every lock in turn.
abbrev pub all_locked : ShardedStore → ShardedStore
all_locked s = record {
  shards = map (λ sh. record { entries = sh.entries; poisoned = false }) s.shards;
  poison_recoveries = s.poison_recoveries + flagged s.shards;
}

unfoldable pub shard_lens : ShardedStore → List ℕ × ShardedStore
shard_lens s = (map (λ sh. length sh.entries) s.shards, all_locked s)

unfoldable pub len : ShardedStore → ℕ × ShardedStore
len s = (summed (map (λ sh. length sh.entries) s.shards), all_locked s)

module _ (hash : Name → ℕ) where
  -- The index in `shard`.
  abbrev pub index : ShardedStore → Name → ℕ
  index s key = hash key % length s.shards

  -- A lookup under the lock of the key's shard, then a change of its entries.
  unfoldable pub under_lock : Name → (Map → Map) → Call ShardedStore (Option Value)
  unfolding get_name
  under_lock key f s = elim (get_elem? s.shards (index s key)) [
    | none ↦ none
    | some sh ↦ some (get_name key sh.entries, locked s (index s key) (f sh.entries) sh.poisoned)
  ]

  unfoldable pub get_shared : Name → Call ShardedStore (Option Value)
  unfolding under_lock
  get_shared key = under_lock key (λ m. m)

  -- The copy of the value is the value.
  unfoldable pub get : Name → Call ShardedStore (Option Value)
  unfolding get_shared
  get key = get_shared key

  unfoldable pub put : Name → Value → Call ShardedStore (Option Value)
  unfolding under_lock remove_name
  put key value = under_lock key (put_name key value)

  unfoldable pub delete : Name → Call ShardedStore (Option Value)
  unfolding under_lock remove_name
  delete key = under_lock key (remove_name key)

  -- The test hook: a panic while the write lock is held. `unwrap` itself panics on a poisoned lock, which
  -- leaves it poisoned.
  unfoldable pub poison_shard_of : Name → ShardedStore → Option ShardedStore
  poison_shard_of key s = elim (get_elem? s.shards (index s key)) [
    | none ↦ none
    | some sh ↦ some (record s {
      shards = set s.shards (index s key) (record { entries = sh.entries; poisoned = true });
    })
  ]
