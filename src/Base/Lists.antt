-- ===== src/Base/Lists.antt =====
-- Lists measured and indexed by native numbers, under the library's names, and keys that are
-- numbers or byte strings.
use Prim.Native.Nat.{ℕ, zero, suc, ◌+◌, ◌-◌, ◌<◌}
use Prim.Native.Nat.add
use Prim.Native.Char.{code}
use Prim.Native.String.{String}
use mathlib.Core.Path.{◌≡◌, refl, sym, ap, ap₂, ◌≡⟨◌⟩◌, ◌∎}
use mathlib.Core.Logic.{◌⊎◌, inl, inr}
use mathlib.Core.Bool.{Bool, true, false, ◌&&◌}
use mathlib.Core.List.{List, [], ◌∷◌, ◌++◌, append_assoc}
use mathlib.Core.Option.{Option, none, some}
use native.Mathlib.Omega.{arith}
use model_lib.Base.Tests.{◌==◌}

module _ {ℓ} {A : Type ℓ} where
  abbrev pub length : List A → ℕ
  length [] = 0
  length (x ∷ xs) = suc (length xs)

  abbrev pub get_elem? : List A → ℕ → Option A
  get_elem? [] i = none
  get_elem? (x ∷ xs) zero = some x
  get_elem? (x ∷ xs) (suc i) = get_elem? xs i

  -- A write out of bounds changes nothing.
  abbrev pub set : List A → ℕ → A → List A
  set [] i v = []
  set (x ∷ xs) zero v = v ∷ xs
  set (x ∷ xs) (suc i) v = x ∷ set xs i v

  abbrev pub drop : ℕ → List A → List A
  drop zero xs = xs
  drop (suc n) [] = []
  drop (suc n) (x ∷ xs) = drop n xs

  abbrev pub replicate : ℕ → A → List A
  replicate zero a = []
  replicate (suc n) a = a ∷ replicate n a

  pub list-cases : (xs : List A) → (xs ≡ []) ⊎ ((x : A) × (rest : List A) × (xs ≡ x ∷ rest))
  list-cases [] = inl refl
  list-cases (x ∷ rest) = inr (x, rest, refl)

  pub length-append : (xs ys : List A) → length (xs ++ ys) ≡ length xs + length ys
  length-append [] ys = omega arith
  length-append (x ∷ xs) ys = omega (arith, length-append xs ys)

  pub length-set : (xs : List A) (i : ℕ) (v : A) → length (set xs i v) ≡ length xs
  length-set [] i v = refl
  length-set (x ∷ xs) zero v = refl
  length-set (x ∷ xs) (suc i) v = ap suc (length-set xs i v)

  pub length-replicate : (n : ℕ) (a : A) → length (replicate n a) ≡ n
  length-replicate zero a = refl
  length-replicate (suc n) a = ap suc (length-replicate n a)

  -- Reading within bounds gives a value.
  pub get_elem?-some : (xs : List A) (i : ℕ) → i < length xs → (a : A) × (get_elem? xs i ≡ some a)
  get_elem?-some [] i h = elim h [ ]
  get_elem?-some (x ∷ xs) zero h = (x, refl)
  get_elem?-some (x ∷ xs) (suc i) h = get_elem?-some xs i (omega arith)

  pub get_elem?-append : (xs ys : List A) (y : A) → get_elem? (xs ++ y ∷ ys) (length xs) ≡ some y
  get_elem?-append [] ys y = refl
  get_elem?-append (x ∷ xs) ys y = get_elem?-append xs ys y

  -- Overwriting the element behind a prefix.
  pub set-append : (xs ys : List A) (y z : A) → set (xs ++ y ∷ ys) (length xs) z ≡ xs ++ z ∷ ys
  set-append [] ys y z = refl
  set-append (x ∷ xs) ys y z = ap (λ l. x ∷ l) (set-append xs ys y z)

module _ {ℓ} {A : Type ℓ} where
  pub length-drop : (n : ℕ) (xs : List A) → length (drop n xs) ≡ length xs - n
  length-drop zero xs = omega arith
  length-drop (suc n) [] = omega arith
  length-drop (suc n) (x ∷ xs) = omega (arith, length-drop n xs)

  pub drop-add : (m n : ℕ) (xs : List A) → drop n (drop m xs) ≡ drop (m + n) xs
  drop-add zero n xs = rw add.zero
  drop-add (suc m) zero [] = rw add.suc
  drop-add (suc m) (suc n) [] = rw add.suc
  drop-add (suc m) n (x ∷ xs) = rw add.suc (drop-add m n xs)

-- Texts are their bytes.
abbrev pub Name : Type 0
Name = List ℕ

-- The code points of a literal: its bytes, if it is ASCII.
abbrev pub codes : String → Name
codes String.[] = []
codes (String.◌∷◌ c s) = code c ∷ codes s

unfoldable pub name_eq : Name → Name → Bool
name_eq [] [] = true
name_eq (a ∷ x) (b ∷ y) = a == b && name_eq x y
name_eq _ _ = false

pub name_eq→eq : (x y : Name) → name_eq x y ≡ true → x ≡ y
unfolding name_eq
name_eq→eq [] [] h = refl
name_eq→eq [] (b ∷ y) h = cc
name_eq→eq (a ∷ x) [] h = cc
name_eq→eq (a ∷ x) (b ∷ y) h = ground (arith, name_eq→eq x y)

pub name_eq_refl : (x : Name) → name_eq x x ≡ true
unfolding name_eq
name_eq_refl [] = refl
name_eq_refl (a ∷ x) = ground (arith, name_eq_refl x)

module _ {ℓ} {A : Type ℓ} where
  -- What is read from a list stays when more is pushed, and the pushed element is the one other.
  pub get_elem?-keeps :
      (xs ys : List A) (i : ℕ) (a : A) → get_elem? xs i ≡ some a → get_elem? (xs ++ ys) i ≡ some a
  get_elem?-keeps [] ys i a h = cc
  get_elem?-keeps (x ∷ xs) ys zero a h = h
  get_elem?-keeps (x ∷ xs) ys (suc i) a h = get_elem?-keeps xs ys i a h

  pub get_elem?-push :
      (xs : List A) (y : A) (i : ℕ) (a : A)
      → get_elem? (xs ++ y ∷ []) i ≡ some a
      → (get_elem? xs i ≡ some a) ⊎ ((i ≡ length xs) × (y ≡ a))
  get_elem?-push [] y zero a h = inr (refl, cc)
  get_elem?-push [] y (suc i) a h = cc
  get_elem?-push (x ∷ xs) y zero a h = inl h
  get_elem?-push (x ∷ xs) y (suc i) a h = elim (get_elem?-push xs y i a h) [
    | inl e ↦ inl e
    | inr (p, q) ↦ inr (ap suc p, q)
  ]

module _ {ℓ} {A : Type ℓ} (xs ys : List A) (y y' z : A) where
  -- An element that was pushed as a placeholder, and overwritten when more had been pushed.
  pub patch_one :
      set (((xs ++ y ∷ []) ++ ys) ++ z ∷ []) (length xs) y' ≡ xs ++ (y' ∷ (ys ++ z ∷ []))
  patch_one = rw (append_assoc, append_assoc) (set-append xs (ys ++ z ∷ []) y y')

  -- Two placeholders.
  pub patch_two :
      (zs : List A) (z' : A)
      → set
          (set ((((xs ++ y ∷ []) ++ ys) ++ z ∷ []) ++ zs) (length xs) y')
          (length ((xs ++ y ∷ []) ++ ys))
          z'
        ≡ xs ++ (y' ∷ (ys ++ (z' ∷ zs)))
  patch_two zs z' =
      set (set ((((xs ++ y ∷ []) ++ ys) ++ z ∷ []) ++ zs) (length xs) y')
        (length ((xs ++ y ∷ []) ++ ys)) z'
      ≡⟨ ap (λ l. set (set l (length xs) y') (length ((xs ++ y ∷ []) ++ ys)) z')
          (simp append_assoc) ⟩
        set (set (xs ++ (y ∷ (ys ++ (z ∷ zs)))) (length xs) y') (length ((xs ++ y ∷ []) ++ ys)) z'
      ≡⟨ ap (λ l. set l (length ((xs ++ y ∷ []) ++ ys)) z') (set-append xs (ys ++ (z ∷ zs)) y y') ⟩
        set (xs ++ (y' ∷ (ys ++ (z ∷ zs)))) (length ((xs ++ y ∷ []) ++ ys)) z'
      ≡⟨ ap₂ (λ l n. set l n z') (sym (append_assoc xs (y' ∷ ys) (z ∷ zs)))
          (omega (
            arith,
            length-append (xs ++ y ∷ []) ys,
            length-append xs (y ∷ []),
            length-append xs (y' ∷ ys),
          )) ⟩
        set ((xs ++ y' ∷ ys) ++ (z ∷ zs)) (length (xs ++ y' ∷ ys)) z'
      ≡⟨ set-append (xs ++ y' ∷ ys) zs z z' ⟩ (xs ++ y' ∷ ys) ++ (z' ∷ zs)
      ≡⟨ append_assoc xs (y' ∷ ys) (z' ∷ zs) ⟩ xs ++ (y' ∷ (ys ++ (z' ∷ zs))) ∎
