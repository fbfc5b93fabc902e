-- ===== src/Base/Table.antt =====
-- Hash maps from texts with their removals, as association lists in which a key stands once.
use Prim.Native.Nat.{suc}
use mathlib.Core.Path.{◌≡◌, refl, ap, ◌∙◌, subst}
use mathlib.Core.Logic.{◌⊎◌, inl, inr}
use mathlib.Core.Bool.{false}
use mathlib.Core.List.{List, [], ◌∷◌}
use mathlib.Core.Option.{none, some}
use native.Mathlib.Omega.{arith}
use model_lib.Base.Tests.{if◌then◌else◌, Bool-cases}
use model_lib.Base.Lists.{Name, name_eq, name_eq→eq, name_eq_refl, length}
use model_lib.Base.Maps.{get_name}

-- One text or two: each case with its test.
pub name-cases : (x y : Name) → (x ≡ y) ⊎ (name_eq x y ≡ false)
name-cases x y = elim (Bool-cases (name_eq x y)) [ inl e ↦ inl (name_eq→eq x y e) | inr e ↦ inr e ]

module _ {ℓ} {V : Type ℓ} where
  unfoldable pub remove_name : Name → List (Name × V) → List (Name × V)
  remove_name k [] = []
  remove_name k ((j, v) ∷ m) =
      let rest = remove_name k m in if name_eq j k then rest else (j, v) ∷ rest

  -- The key's old entry is dropped.
  abbrev pub put_name : Name → V → List (Name × V) → List (Name × V)
  put_name k v m = (k, v) ∷ remove_name k m

  abbrev pub IsDistinct : List (Name × V) → Type ℓ
  IsDistinct [] = Unit
  IsDistinct ((k, v) ∷ m) = (get_name k m ≡ none) × IsDistinct m

  pub get-remove_same : (k : Name) (m : List (Name × V)) → get_name k (remove_name k m) ≡ none
  unfolding get_name remove_name
  get-remove_same k [] = refl
  get-remove_same k ((j, v) ∷ m) = ground (arith, get-remove_same k m)

  pub get-remove_other :
      (k j : Name) (m : List (Name × V))
      → name_eq k j ≡ false
      → get_name j (remove_name k m) ≡ get_name j m
  unfolding get_name remove_name
  get-remove_other k j [] h = refl
  get-remove_other k j ((i, v) ∷ m) h = ground (arith, get-remove_other k j m h, name_eq→eq i k)

  pub get-put_same : (k : Name) (v : V) (m : List (Name × V)) → get_name k (put_name k v m) ≡ some v
  unfolding get_name
  get-put_same k v m = rw (name_eq_refl k) refl

  pub get-put_other :
      (k j : Name) (v : V) (m : List (Name × V))
      → name_eq k j ≡ false
      → get_name j (put_name k v m) ≡ get_name j m
  unfolding get_name
  get-put_other k j v m h = rw h (get-remove_other k j m h)

  get-remove_none :
      (k j : Name) (m : List (Name × V)) → get_name j m ≡ none → get_name j (remove_name k m) ≡ none
  unfolding get_name
  get-remove_none k j m h = elim (name-cases k j) [
    | inl e ↦ subst (λ x. get_name x (remove_name k m) ≡ none) e (get-remove_same k m)
    | inr e ↦ get-remove_other k j m e ∙ h
  ]

  pub IsDistinct-remove :
      (k : Name) (m : List (Name × V)) → IsDistinct m → IsDistinct (remove_name k m)
  unfolding remove_name
  IsDistinct-remove k [] h = tt
  IsDistinct-remove k ((j, v) ∷ m) (h, hs) = elim (Bool-cases (name_eq j k)) [
    | inl e ↦ rw e (IsDistinct-remove k m hs)
    | inr e ↦ rw e (get-remove_none k j m h, IsDistinct-remove k m hs)
  ]

  pub IsDistinct-put :
      (k : Name) (v : V) (m : List (Name × V)) → IsDistinct m → IsDistinct (put_name k v m)
  IsDistinct-put k v m h = (get-remove_same k m, IsDistinct-remove k m h)

  pub length-remove_absent :
      (k : Name) (m : List (Name × V)) → get_name k m ≡ none → length (remove_name k m) ≡ length m
  unfolding get_name remove_name
  length-remove_absent k [] h = refl
  length-remove_absent k ((j, v) ∷ m) h = elim (Bool-cases (name_eq j k)) [
    | inl e ↦ ground (arith)
    | inr e ↦ rw e (ap suc (length-remove_absent k m (rw e at h)))
  ]

  pub length-remove_present :
      (k : Name) (m : List (Name × V)) (v : V)
      → IsDistinct m
      → get_name k m ≡ some v
      → suc (length (remove_name k m)) ≡ length m
  unfolding get_name remove_name
  length-remove_present k [] v d h = cc
  length-remove_present k ((j, w) ∷ m) v (new, d) h = elim (Bool-cases (name_eq j k)) [
    | inl e ↦ rw e (
        ap suc (length-remove_absent k m (subst (λ x. get_name x m ≡ none) (name_eq→eq j k e) new)))
    | inr e ↦ rw e (ap suc (length-remove_present k m v d (rw e at h)))
  ]
