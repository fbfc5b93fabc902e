-- ===== src/Ferrite/Store/Contract.antt =====
-- `KvStore` of project-05-ferrite-v2.rs: the operations as state passing, with what they promise.
use model_lib.Base.{ℕ, ◌≡◌, Option, none, some, List, Name, name_eq, if◌then◌else◌}

abbrev pub Value : Type 0
Value = List ℕ

-- A function from keys, changed at one key.
abbrev pub updated : (Name → Option Value) → Name → Option Value → Name → Option Value
updated f k o j = if name_eq k j then o else f j

-- A call that comes back, with its result and the state behind it; a panic is none.
abbrev pub Call : Type 0 → Type 0 → Type 0
Call S A = S → Option (A × S)

-- The three required methods and `get_shared`. `view` is the map that a state stands for.
pub record KvStore (S : Type 0) : Type 1 where
  pub get : Name → Call S (Option Value)
  pub put : Name → Value → Call S (Option Value)
  pub delete : Name → Call S (Option Value)
  pub get_shared : Name → Call S (Option Value)
  pub IsValid : S → Type 0
  pub view : S → Name → Option Value
  pub get_reads :
      (k : Name) (s : S)
      → IsValid s
      → (t : S) × (get k s ≡ some (view s k, t)) × IsValid t × ((j : Name) → view t j ≡ view s j)
  pub put_updates :
      (k : Name) (v : Value) (s : S)
      → IsValid s
      → (t : S) × (put k v s ≡ some (view s k, t))
        × IsValid t
        × ((j : Name) → view t j ≡ updated (view s) k (some v) j)
  pub delete_updates :
      (k : Name) (s : S)
      → IsValid s
      → (t : S) × (delete k s ≡ some (view s k, t))
        × IsValid t
        × ((j : Name) → view t j ≡ updated (view s) k none j)
  pub get_shared_reads :
      (k : Name) (s : S)
      → IsValid s
      → (t : S) × (get_shared k s ≡ some (view s k, t))
        × IsValid t
        × ((j : Name) → view t j ≡ view s j)
