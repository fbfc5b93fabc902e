-- ===== src/Ferrite/Store/Shards.antt =====
-- Shards of project-05-ferrite-v2.rs: what a change under one lock does to the list of shards.
use mathlib.Core.Path.{subst}
use native.Mathlib.Nat.{mod-lt}
use model_lib.Base.{
  ℕ, zero, suc, ◌+◌, ◌<◌, ◌≡◌, ◌≢◌, refl, ap, some, List, [], ◌∷◌, map, length, get_elem?,
  get_elem?-some, set, replicate, Name, arith, IsDistinct,
}
use model_lib.Ferrite.Store.Defs.{Shard, ShardedStore, empty_shard, summed, index}

abbrev pub AllDistinct : List Shard → Type 0
AllDistinct [] = Unit
AllDistinct (sh ∷ shards) = IsDistinct sh.entries × AllDistinct shards

pub get_elem?-set_same {ℓ} :
    {A : Type ℓ} (xs : List A) (i : ℕ) (a b : A)
    → get_elem? xs i ≡ some a
    → get_elem? (set xs i b) i ≡ some b
get_elem?-set_same [] i a b h = cc
get_elem?-set_same (x ∷ xs) zero a b h = refl
get_elem?-set_same (x ∷ xs) (suc i) a b h = get_elem?-set_same xs i a b h

pub get_elem?-set_other {ℓ} :
    {A : Type ℓ} (xs : List A) (i j : ℕ) (b : A) → i ≢ j → get_elem? (set xs i b) j ≡ get_elem? xs j
get_elem?-set_other [] i j b h = refl
get_elem?-set_other (x ∷ xs) zero zero b h = absurd (h refl)
get_elem?-set_other (x ∷ xs) zero (suc j) b h = refl
get_elem?-set_other (x ∷ xs) (suc i) zero b h = refl
get_elem?-set_other (x ∷ xs) (suc i) (suc j) b h = get_elem?-set_other xs i j b (λ e. h (ap suc e))

pub AllDistinct-get :
    (xs : List Shard) (i : ℕ) (sh : Shard)
    → AllDistinct xs
    → get_elem? xs i ≡ some sh
    → IsDistinct sh.entries
AllDistinct-get [] i sh d h = cc
AllDistinct-get (x ∷ xs) zero sh (d, ds) h =
    let same : x ≡ sh = cc in subst (λ y. IsDistinct y.entries) same d
AllDistinct-get (x ∷ xs) (suc i) sh (d, ds) h = AllDistinct-get xs i sh ds h

pub AllDistinct-set :
    (xs : List Shard) (i : ℕ) (sh : Shard)
    → AllDistinct xs
    → IsDistinct sh.entries
    → AllDistinct (set xs i sh)
AllDistinct-set [] i sh d h = tt
AllDistinct-set (x ∷ xs) zero sh (d, ds) h = (h, ds)
AllDistinct-set (x ∷ xs) (suc i) sh (d, ds) h = (d, AllDistinct-set xs i sh ds h)

pub AllDistinct-replicate : (n : ℕ) → AllDistinct (replicate n empty_shard)
AllDistinct-replicate zero = tt
AllDistinct-replicate (suc n) = (tt, AllDistinct-replicate n)

-- The sizes, with one shard changed.
pub summed-set :
    (xs : List Shard) (i : ℕ) (a b : Shard)
    → get_elem? xs i ≡ some a
    → summed (map (λ sh. length sh.entries) (set xs i b)) + length a.entries
      ≡ summed (map (λ sh. length sh.entries) xs) + length b.entries
summed-set [] i a b h = cc
summed-set (x ∷ xs) zero a b h =
    let same : x ≡ a = cc in omega (arith, ap (λ y. length y.entries) same)
summed-set (x ∷ xs) (suc i) a b h = omega (arith, summed-set xs i a b h)

module _ (hash : Name → ℕ) where
  pub index-lt :
      (s : ShardedStore) (key : Name) → 0 < length s.shards → index hash s key < length s.shards
  index-lt s key h = mod-lt (hash key) h

  pub shard_of :
      (s : ShardedStore) (key : Name)
      → 0 < length s.shards
      → (sh : Shard) × (get_elem? s.shards (index hash s key) ≡ some sh)
  shard_of s key h = get_elem?-some s.shards (index hash s key) (index-lt s key h)
