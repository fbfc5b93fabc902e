-- ===== src/Ferrite/Store/Behaves.antt =====
-- `ShardedStore` of project-05-ferrite-v2.rs: its creation, its size, and its recovery from poison.
use model_lib.Base.{
  ℕ, zero, suc, ◌+◌, ◌%◌, ◌<◌, ◌≡◌, refl, sym, ap, ◌∙◌, inl, inr, true, false, Option, Option-cases,
  none, some, length-set, get_elem?, replicate, get_name, put_name, remove_name, Name, arith,
  length-remove_absent, length-remove_present,
}
use model_lib.Ferrite.Store.Contract.{Value}
use model_lib.Ferrite.Store.Defs.{
  Shard, ShardedStore, empty_shard, new, locked, len, index, under_lock, get_shared, put, delete,
  poison_shard_of,
}
use model_lib.Ferrite.Store.Shards.{
  AllDistinct-get, AllDistinct-replicate, get_elem?-set_same, summed-set, shard_of,
}
use model_lib.Ferrite.Store.Refines.{
  reads, view_in, sharded_view, IsSound, view-eq, after_call, after_view, after_IsSound, read_back,
  in_place, moved,
}

get_elem?-replicate {ℓ} :
    {A : Type ℓ} (n i : ℕ) (a b : A) → get_elem? (replicate n a) i ≡ some b → a ≡ b
get_elem?-replicate zero i a b h = cc
get_elem?-replicate (suc n) zero a b h = cc
get_elem?-replicate (suc n) (suc i) a b h = get_elem?-replicate n i a b h

-- What a call adds to the size: nothing where the key was there.
abbrev pub fresh : Option Value → ℕ
fresh none = 1
fresh (some v) = 0

abbrev pub held : Option Value → ℕ
held none = 0
held (some v) = 1

module _ (hash : Name → ℕ) where
  no_view :
      (o : Option Shard) (key : Name)
      → ((x : Shard) → o ≡ some x → empty_shard ≡ x)
      → view_in key o ≡ none
  unfolding get_name
  no_view none key h = refl
  no_view (some x) key h = sym (ap (λ y. get_name key y.entries) (h x refl))

  -- A new store of one shard at least is sound and empty.
  pub new-IsSound :
      (n : ℕ)
      → 0 < n
      → (s : ShardedStore) × (new n ≡ some s)
        × IsSound hash s
        × ((key : Name) → sharded_view hash s key ≡ none)
  unfolding new get_name
  new-IsSound zero h = absurd (omega arith)
  new-IsSound (suc n) h =
      let s : ShardedStore = record {
        shards = replicate (suc n) empty_shard;
        poison_recoveries = 0;
      } in
      (
        s,
        (ground arith),
        record {
          some_shard = omega arith;
          all_distinct = AllDistinct-replicate (suc n);
          routed = λ i x key v e g.
              let same = get_elem?-replicate (suc n) i empty_shard x e in
              let k : get_name key empty_shard.entries ≡ some v =
                ap (λ y. get_name key y.entries) same ∙ g in
              cc;
        },
        λ key.
            no_view (get_elem? s.shards (index hash s key)) key
              (λ x e. get_elem?-replicate (suc n) (index hash s key) empty_shard x e),
      )

  -- A put on a sound store returns the value that the key had; the size grows by one where the key was
  -- absent, and stays the same where it was there.
  pub len-put :
      (key : Name) (v : Value) (s : ShardedStore)
      → IsSound hash s
      → (t : ShardedStore) × (put hash key v s ≡ some (sharded_view hash s key, t))
        × ((len t).0 ≡ (len s).0 + fresh (sharded_view hash s key))
  unfolding put under_lock len
  len-put key v s w =
      let (sh, here) = shard_of hash s key w.some_shard in
      let view = view-eq hash s key sh here in
      let d = AllDistinct-get s.shards (index hash s key) sh w.all_distinct here in
      let new_shard : Shard = record { entries = put_name key v sh.entries; poisoned = false } in
      let total = summed-set s.shards (index hash s key) sh new_shard here in
      (
        locked s (index hash s key) (put_name key v sh.entries) sh.poisoned,
        rw (here, under_lock) refl,
        elim (Option-cases (get_name key sh.entries)) [
          | inl e ↦ omega (arith, total, length-remove_absent key sh.entries e, ap fresh (view ∙ e))
          | inr (x, e) ↦
              omega (arith, total, length-remove_present key sh.entries x d e, ap fresh (view ∙ e))
        ],
      )

  -- A delete on a sound store returns the value that the key had; the size shrinks by one where the key was
  -- there, and stays the same where it was absent.
  pub len-delete :
      (key : Name) (s : ShardedStore)
      → IsSound hash s
      → (t : ShardedStore) × (delete hash key s ≡ some (sharded_view hash s key, t))
        × ((len t).0 + held (sharded_view hash s key) ≡ (len s).0)
  unfolding delete under_lock len
  len-delete key s w =
      let (sh, here) = shard_of hash s key w.some_shard in
      let view = view-eq hash s key sh here in
      let d = AllDistinct-get s.shards (index hash s key) sh w.all_distinct here in
      let new_shard : Shard = record { entries = remove_name key sh.entries; poisoned = false } in
      let total = summed-set s.shards (index hash s key) sh new_shard here in
      (
        locked s (index hash s key) (remove_name key sh.entries) sh.poisoned,
        rw (here, under_lock) refl,
        elim (Option-cases (get_name key sh.entries)) [
          | inl e ↦ omega (arith, total, length-remove_absent key sh.entries e, ap held (view ∙ e))
          | inr (x, e) ↦
              omega (arith, total, length-remove_present key sh.entries x d e, ap held (view ∙ e))
        ],
      )

  -- A read of a key whose shard is known.
  read_at :
      (key : Name) (s : ShardedStore) (sh : Shard)
      → get_elem? s.shards (index hash s key) ≡ some sh
      → get_shared hash key s
        ≡ some (get_name key sh.entries, locked s (index hash s key) sh.entries sh.poisoned)
  unfolding get_shared under_lock
  read_at key s sh e = rw (e, under_lock) refl

  -- A panic under a shard's lock loses nothing of a sound store: it stays sound, every key reads as before, and the
  -- next read of a key of that shard counts one recovery, the one after it none.
  pub get_shared-poisoned :
      (key : Name) (s : ShardedStore)
      → IsSound hash s
      → (t u w : ShardedStore) × (poison_shard_of hash key s ≡ some t)
        × IsSound hash t
        × ((j : Name) → sharded_view hash t j ≡ sharded_view hash s j)
        × (get_shared hash key t ≡ some (sharded_view hash s key, u))
        × (u.poison_recoveries ≡ s.poison_recoveries + 1)
        × (get_shared hash key u ≡ some (sharded_view hash s key, w))
        × (w.poison_recoveries ≡ u.poison_recoveries)
  unfolding poison_shard_of get_shared under_lock
  get_shared-poisoned key s v =
      let (sh, here) = shard_of hash s key v.some_shard in
      let i = index hash s key in
      let count = s.poison_recoveries in
      let bad : Shard = record { entries = sh.entries; poisoned = true } in
      let t = after_call hash key (λ m. m) (λ o. o) (reads key) s v sh here true count in
      let here_t : get_elem? t.shards (index hash t key) ≡ some bad =
        ap (get_elem? t.shards)
          (moved hash key (λ m. m) (λ o. o) (reads key) s v sh here true count key)
        ∙ in_place hash key (λ m. m) (λ o. o) (reads key) s v sh here true count in
      let u = locked t (index hash t key) sh.entries true in
      let good : Shard = record { entries = sh.entries; poisoned = false } in
      let here_u : get_elem? u.shards (index hash u key) ≡ some good =
        ap (λ n. get_elem? u.shards (hash key % n)) (length-set t.shards (index hash t key) good)
        ∙ get_elem?-set_same t.shards (index hash t key) bad good here_t in
      let w = locked u (index hash u key) sh.entries false in
      (
        t,
        u,
        w,
        rw (here, poison_shard_of) refl,
        after_IsSound hash key (λ m. m) (λ o. o) (reads key) s v sh here true count,
        (λ j.
            after_view hash key (λ m. m) (λ o. o) (reads key) s v sh here true count j
            ∙ read_back hash s key j),
        read_at key t bad here_t ∙ ap (λ o. some (o, u)) (sym (view-eq hash s key sh here)),
        refl,
        read_at key u good here_u ∙ ap (λ o. some (o, w)) (sym (view-eq hash s key sh here)),
        omega arith,
      )
