-- ===== src/Base/Maps.antt =====
-- Hash maps as association lists: the newest entry of a key hides the older ones, as an insertion
-- overwrites them.
use model_lib.Base.Tests.{◌==◌, if◌then◌else◌}
use model_lib.Base.Lists.{Name, name_eq}
use Prim.Native.Nat.{ℕ}
use mathlib.Core.List.{List, [], ◌∷◌}
use mathlib.Core.Option.{Option, none, some}

module _ {ℓ} {V : Type ℓ} where
  unfoldable pub get : ℕ → List (ℕ × V) → Option V
  get k [] = none
  get k ((j, v) ∷ m) = if j == k then some v else get k m

  abbrev pub insert : ℕ → V → List (ℕ × V) → List (ℕ × V)
  insert k v m = (k, v) ∷ m

  unfoldable pub get_name : Name → List (Name × V) → Option V
  get_name k [] = none
  get_name k ((j, v) ∷ m) = if name_eq j k then some v else get_name k m

  abbrev pub insert_name : Name → V → List (Name × V) → List (Name × V)
  insert_name k v m = (k, v) ∷ m
