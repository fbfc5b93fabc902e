-- ===== src/Ferrite/Store/Refines.antt =====
-- `ShardedStore` of project-05-ferrite-v2.rs against the contract of `KvStore`.
use mathlib.Core.Path.{subst}
use model_lib.Base.{
  ℕ, ◌+◌, ◌%◌, ◌<◌, ◌≡◌, refl, sym, ap, ◌∙◌, inl, inr, Bool, false, Option, none, some, length,
  length-set, get_elem?, set, get_name, put_name, remove_name, Name, arith, IsDistinct, name_eq,
  name_eq_refl, name-cases, nat-cases, get-remove_same, get-remove_other, get-put_same,
  get-put_other, IsDistinct-put, IsDistinct-remove,
}
use model_lib.Ferrite.Store.Contract.{Value, KvStore, updated}
use model_lib.Ferrite.Store.Defs.{
  Map, Shard, ShardedStore, index, under_lock, recoveries_of, get, get_shared, put, delete,
}
use model_lib.Ferrite.Store.Shards.{
  AllDistinct, AllDistinct-get, AllDistinct-set, get_elem?-set_same, get_elem?-set_other, shard_of,
}

some_inj : {a b : Shard} → some a ≡ some b → a ≡ b
some_inj e = cc

-- What a change of one map does to its key, while it does nothing to the others.
pub record Changes (key : Name) (f : Map → Map) (h : Option Value → Option Value) : Type 0 where
  pub at_key : (m : Map) → get_name key (f m) ≡ h (get_name key m)
  pub elsewhere : (m : Map) (j : Name) → name_eq key j ≡ false → get_name j (f m) ≡ get_name j m
  pub distinct : (m : Map) → IsDistinct m → IsDistinct (f m)

pub reads : (key : Name) → Changes key (λ m. m) (λ o. o)
reads key = record { at_key = λ m. refl; elsewhere = λ m j h. refl; distinct = λ m d. d }

pub puts : (key : Name) (v : Value) → Changes key (put_name key v) (λ o. some v)
puts key v = record {
  at_key = get-put_same key v;
  elsewhere = λ m j h. get-put_other key j v m h;
  distinct = IsDistinct-put key v;
}

pub deletes : (key : Name) → Changes key (remove_name key) (λ o. none)
deletes key = record {
  at_key = get-remove_same key;
  elsewhere = λ m j h. get-remove_other key j m h;
  distinct = IsDistinct-remove key;
}

abbrev pub view_in : Name → Option Shard → Option Value
view_in key none = none
view_in key (some sh) = get_name key sh.entries

module _ (hash : Name → ℕ) where
  -- The map that the shards stand for.
  abbrev pub sharded_view : ShardedStore → Name → Option Value
  sharded_view s key = view_in key (get_elem? s.shards (index hash s key))

  -- There is a shard, no shard holds a key twice, and each key stands in the shard of its hash.
  pub record IsSound (s : ShardedStore) : Type 0 where
    pub some_shard : 0 < length s.shards
    pub all_distinct : AllDistinct s.shards
    pub routed :
        (i : ℕ) (sh : Shard) (key : Name) (v : Value)
        → get_elem? s.shards i ≡ some sh
        → get_name key sh.entries ≡ some v
        → i ≡ index hash s key

  pub view-eq :
      (s : ShardedStore) (key : Name) (sh : Shard)
      → get_elem? s.shards (index hash s key) ≡ some sh
      → sharded_view s key ≡ get_name key sh.entries
  view-eq s key sh e = ap (view_in key) e

  module _ (key : Name) (f : Map → Map) (h : Option Value → Option Value) (c : Changes key f h)
      (s : ShardedStore) (v : IsSound s) (sh : Shard)
      (here : get_elem? s.shards (index hash s key) ≡ some sh) (p : Bool) (count : ℕ) where
    abbrev changed : Shard
    changed = record { entries = f sh.entries; poisoned = p }

    abbrev pub after_call : ShardedStore
    after_call = record {
      shards = set s.shards (index hash s key) changed;
      poison_recoveries = count;
    }

    pub moved : (j : Name) → index hash after_call j ≡ index hash s j
    moved j = ap (λ n. hash j % n) (length-set s.shards (index hash s key) changed)

    pub in_place : get_elem? after_call.shards (index hash s key) ≡ some changed
    in_place = get_elem?-set_same s.shards (index hash s key) sh changed here

    view_at :
        (j : Name) (x : Shard)
        → get_elem? after_call.shards (index hash s j) ≡ some x
        → sharded_view after_call j ≡ get_name j x.entries
    view_at j x e =
        view-eq after_call j x
          (subst (λ i. get_elem? after_call.shards i ≡ some x) (sym (moved j)) e)

    view_here : sharded_view after_call key ≡ h (sharded_view s key)
    view_here =
        view_at key changed in_place ∙ c.at_key sh.entries ∙ ap h (sym (view-eq s key sh here))

    pub after_view :
        (j : Name)
        → sharded_view after_call j ≡ updated (sharded_view s) key (h (sharded_view s key)) j
    after_view j = elim (name-cases key j) [
      | inl same ↦
          subst
            (λ x.
              sharded_view after_call x ≡ updated (sharded_view s) key (h (sharded_view s key)) x)
            same (rw (name_eq_refl key) view_here)
      | inr other ↦ rw other (elim (nat-cases (index hash s key) (index hash s j)) [
        | inl together ↦
            view_at j changed
              (subst (λ i. get_elem? after_call.shards i ≡ some changed) together in_place)
            ∙ c.elsewhere sh.entries j other
            ∙ sym (view-eq s j sh (subst (λ i. get_elem? s.shards i ≡ some sh) together here))
        | inr apart ↦ ap (view_in j) (
            ap (get_elem? after_call.shards) (moved j)
            ∙ get_elem?-set_other s.shards (index hash s key) (index hash s j) changed apart)
      ])
    ]

    stays_routed :
        (i : ℕ) (x : Shard) (j : Name) (w : Value)
        → get_elem? after_call.shards i ≡ some x
        → get_name j x.entries ≡ some w
        → i ≡ index hash s j
    stays_routed i x j w e g = elim (nat-cases (index hash s key) i) [
      | inl q₀ ↦
          let same : changed ≡ x =
            some_inj (sym in_place ∙ ap (get_elem? after_call.shards) q₀ ∙ e) in
          let found : get_name j (f sh.entries) ≡ some w =
            ap (λ y. get_name j y.entries) same ∙ g in
          elim (name-cases key j) [
            | inl q ↦ sym q₀ ∙ ap (index hash s) q
            | inr q ↦
                sym q₀
                ∙ v.routed (index hash s key) sh j w here (sym (c.elsewhere sh.entries j q) ∙ found)
          ]
      | inr q₀ ↦
          v.routed i x j w (sym (get_elem?-set_other s.shards (index hash s key) i changed q₀) ∙ e)
            g
    ]

    pub after_IsSound : IsSound after_call
    after_IsSound = record {
      some_shard = omega (arith, v.some_shard, length-set s.shards (index hash s key) changed);
      all_distinct = AllDistinct-set s.shards (index hash s key) changed v.all_distinct (
          c.distinct sh.entries
            (AllDistinct-get s.shards (index hash s key) sh v.all_distinct here));
      routed = λ i x j w e g. stays_routed i x j w e g ∙ sym (moved j);
    }

  module _ (key : Name) (f : Map → Map) (h : Option Value → Option Value)
      (c : Changes key f h) where
    -- A call under the lock of a key's shard reads the key, and changes it alone.
    pub call_updates :
        (s : ShardedStore)
        → IsSound s
        → (t : ShardedStore) × (under_lock hash key f s ≡ some (sharded_view s key, t))
          × IsSound t
          × ((j : Name)
              → sharded_view t j ≡ updated (sharded_view s) key (h (sharded_view s key)) j)
    unfolding under_lock
    call_updates s v =
        let (sh, here) = shard_of hash s key v.some_shard in
        (
          after_call key f h c s v sh here false (s.poison_recoveries + recoveries_of sh.poisoned),
          rw (here, under_lock) refl,
          after_IsSound key f h c s v sh here false
              (s.poison_recoveries + recoveries_of sh.poisoned),
          after_view key f h c s v sh here false (s.poison_recoveries + recoveries_of sh.poisoned),
        )

  pub read_back :
      (s : ShardedStore) (key j : Name)
      → updated (sharded_view s) key (sharded_view s key) j ≡ sharded_view s j
  read_back s key j = elim (name-cases key j) [
    | inl e ↦
        subst (λ x. updated (sharded_view s) key (sharded_view s key) x ≡ sharded_view s x) e
          (rw (name_eq_refl key) refl)
    | inr e ↦ rw e refl
  ]

  -- The sharded store keeps the contract of `KvStore`.
  instance unfoldable pub sharded_store : KvStore ShardedStore
  unfolding get get_shared put delete
  sharded_store = record {
    get = get hash;
    put = put hash;
    delete = delete hash;
    get_shared = get_shared hash;
    IsValid = IsSound;
    view = sharded_view;
    get_reads = λ k s v.
        let (t, e, w, u) = call_updates k (λ m. m) (λ o. o) (reads k) s v in
        (t, e, w, λ j. u j ∙ read_back s k j);
    put_updates = λ k x s v. call_updates k (put_name k x) (λ o. some x) (puts k x) s v;
    delete_updates = λ k s v. call_updates k (remove_name k) (λ o. none) (deletes k) s v;
    get_shared_reads = λ k s v.
        let (t, e, w, u) = call_updates k (λ m. m) (λ o. o) (reads k) s v in
        (t, e, w, λ j. u j ∙ read_back s k j);
  }
