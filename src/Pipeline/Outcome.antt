-- ===== src/Pipeline/Outcome.antt =====
-- Postconditions on the outcome of a stage.
use mathlib.Core.Path.{subst}
use model_lib.Base.{◌≡◌, ◌≢◌, refl, Bool, true, false, if◌then◌else◌}
use model_lib.Pipeline.Syntax.{CompileError, Outcome, ok, failed, panicked, out_of_fuel, bind}

-- The stage came to an end: with a value of which `P` holds, or with an error of which `E` holds.
pub data Settles {ℓ κ} {A : Type ℓ} (P : A → Type κ) (E : CompileError → Type 0)
    : Outcome A → Type (ℓ ⊔ κ) where
  returns : {a : A} → P a → Settles P E (ok a)
  raises : {e : CompileError} → E e → Settles P E (failed e)

module _ {ℓ κ} {A : Type ℓ} {P : A → Type κ} {E : CompileError → Type 0} where
  pub Settles-ok : {r : Outcome A} {a : A} → Settles P E r → r ≡ ok a → P a
  Settles-ok (returns h) e = subst P (cc) h
  Settles-ok (raises h) e = cc

  pub Settles-failed : {r : Outcome A} {e : CompileError} → Settles P E r → r ≡ failed e → E e
  Settles-failed (returns h) p = cc
  Settles-failed (raises h) p = subst E (cc) h

  pub Settles-ne-panicked : {r : Outcome A} → Settles P E r → r ≢ panicked
  Settles-ne-panicked (returns h) = cc
  Settles-ne-panicked (raises h) = cc

  pub Settles-ne-out_of_fuel : {r : Outcome A} → Settles P E r → r ≢ out_of_fuel
  Settles-ne-out_of_fuel (returns h) = cc
  Settles-ne-out_of_fuel (raises h) = cc

  pub Settles-if :
      (b : Bool) {x y : Outcome A}
      → (b ≡ true → Settles P E x)
      → (b ≡ false → Settles P E y)
      → Settles P E (if b then x else y)
  Settles-if true hx hy = hx refl
  Settles-if false hx hy = hy refl

  pub Settles-map {κ'} :
      {Q : A → Type κ'} {r : Outcome A} → Settles P E r → ((a : A) → P a → Q a) → Settles Q E r
  Settles-map (returns h) k = returns (k _ h)
  Settles-map (raises h) k = raises h

  pub Settles-raise :
      {F : CompileError → Type 0} {r : Outcome A}
      → Settles P E r
      → ((e : CompileError) → E e → F e)
      → Settles P F r
  Settles-raise (returns h) k = returns h
  Settles-raise (raises h) k = raises (k _ h)

  pub Settles-bind {ℓ' κ'} :
      {B : Type ℓ'} {Q : B → Type κ'} {r : Outcome A} {f : A → Outcome B}
      → Settles P E r
      → ((a : A) → P a → Settles Q E (f a))
      → Settles Q E (bind r f)
  Settles-bind (returns {a} h) k = k a h
  Settles-bind (raises h) k = raises h

-- Inversion of a successful bind.
pub bind-eq-ok {ℓ κ} :
    {A : Type ℓ} {B : Type κ} (m : Outcome A) (f : A → Outcome B) {b : B}
    → bind m f ≡ ok b
    → (a : A) × (m ≡ ok a) × (f a ≡ ok b)
bind-eq-ok (ok a) f h = (a, refl, h)
bind-eq-ok (failed e) f h = cc
bind-eq-ok panicked f h = cc
bind-eq-ok out_of_fuel f h = cc
