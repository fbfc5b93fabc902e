-- ===== src/Pipeline/Meaning/Goes.antt =====
-- The machine of ch01-01-pipeline.rs against an answer of the reference semantics.
use model_lib.Base.{ℕ, ◌+◌, ◌≤◌, ◌≡◌, ap, some, none, Option, List, ◌∷◌, get_elem?, set, arith, ◌∙◌}
use model_lib.Pipeline.Syntax.{BinOp}
use model_lib.Pipeline.Lowerer.Defs.{Op, load, store, bin}
use model_lib.Pipeline.Vm.Defs.{
  or_crash, Arith, Machine, machine, running, errored, crashed, execute, step, apply, panics,
  finish_bin,
}
use model_lib.Pipeline.Vm.Steps.{Steps, Steps-stay, Steps-one, Steps-trans, step-eq}
use model_lib.Pipeline.Meaning.Operators.{of_arith}
use model_lib.Pipeline.Meaning.Defs.{
  Answer, value, div_by_zero, stuck, out_of_fuel, bind, of_option, assign_slot,
}

-- The machine, started at `m`, does what the answer says: it comes to `k a` for the value `a`, to a
-- division by zero, to a panic, or it makes `fuel` rounds at least.
pub data Goes {A : Type 0} (code : List Op) (fuel : ℕ) (m : Machine) (k : A → Machine)
    : Answer A → Type 0 where
  arrives : {a : A} (n : ℕ) → Steps code n m (k a) → Goes code fuel m k (value a)
  traps :
      (n : ℕ) (m' : Machine) (pc : ℕ)
      → Steps code n m m'
      → step code m' ≡ errored pc
      → Goes code fuel m k div_by_zero
  crashes :
      (n : ℕ) (m' : Machine) → Steps code n m m' → step code m' ≡ crashed → Goes code fuel m k stuck
  goes_on : (n : ℕ) (m' : Machine) → Steps code n m m' → fuel ≤ n → Goes code fuel m k out_of_fuel

module _ {A : Type 0} {code : List Op} {m : Machine} {k : A → Machine} where
  pub Goes-after :
      {n fuel : ℕ} {t : Machine} {r : Answer A}
      → Steps code n m t
      → Goes code fuel t k r
      → Goes code (n + fuel) m k r
  Goes-after {n} h (arrives j s) = arrives (n + j) (Steps-trans h s)
  Goes-after {n} h (traps j m' pc s e) = traps (n + j) m' pc (Steps-trans h s) e
  Goes-after {n} h (crashes j m' s e) = crashes (n + j) m' (Steps-trans h s) e
  Goes-after {n} h (goes_on j m' s e) = goes_on (n + j) m' (Steps-trans h s) (omega arith)

  pub Goes-weaken :
      (fuel fuel' : ℕ) {r : Answer A} → fuel' ≤ fuel → Goes code fuel m k r → Goes code fuel' m k r
  Goes-weaken fuel fuel' h (arrives j s) = arrives j s
  Goes-weaken fuel fuel' h (traps j m' pc s e) = traps j m' pc s e
  Goes-weaken fuel fuel' h (crashes j m' s e) = crashes j m' s e
  Goes-weaken fuel fuel' h (goes_on j m' s e) = goes_on j m' s (omega arith)

  -- Rounds made before cost nothing.
  pub Goes-step :
      {n fuel : ℕ} {t : Machine} {r : Answer A}
      → Steps code n m t
      → Goes code fuel t k r
      → Goes code fuel m k r
  Goes-step {n} {fuel} h g = Goes-weaken (n + fuel) fuel (omega arith) (Goes-after h g)

pub Goes-bind :
    {A B : Type 0} {code : List Op} {m : Machine} {k : A → Machine} {fuel : ℕ} {k' : B → Machine}
    {r : Answer A} {f : A → Answer B}
    → Goes code fuel m k r
    → ((a : A) → Goes code fuel (k a) k' (f a))
    → Goes code fuel m k' (bind r f)
Goes-bind (arrives {a} j s) g = Goes-step s (g a)
Goes-bind (traps j m' pc s e) g = traps j m' pc s e
Goes-bind (crashes j m' s e) g = crashes j m' s e
Goes-bind (goes_on j m' s e) g = goes_on j m' s e

-- Rounds behind the answer that keep its value.
pub Goes-then :
    {A : Type 0} {code : List Op} {m : Machine} {k k' : A → Machine} {fuel : ℕ} {r : Answer A}
    → Goes code fuel m k r
    → ((a : A) → Goes code fuel (k a) k' (value a))
    → Goes code fuel m k' r
Goes-then (arrives {a} j s) g = Goes-step s (g a)
Goes-then (traps j m' pc s e) g = traps j m' pc s e
Goes-then (crashes j m' s e) g = crashes j m' s e
Goes-then (goes_on j m' s e) g = goes_on j m' s e

module _ (code : List Op) where
  -- One round, by the instruction at the program counter.
  pub Goes-running :
      {A : Type 0} {fuel : ℕ} (pc : ℕ) (st σ : List ℕ) {op : Op} {k : A → Machine} {m' : Machine}
      {r : Answer A}
      → get_elem? code pc ≡ some op
      → execute op pc st σ ≡ running m'
      → Goes code fuel m' k r
      → Goes code fuel (machine pc st σ) k r
  Goes-running pc st σ h e g = Goes-step (Steps-one (step-eq code pc st σ h ∙ e)) g

  pub arrived : {A : Type 0} {fuel : ℕ} {k : A → Machine} (a : A) → Goes code fuel (k a) k (value a)
  arrived a = arrives 0 Steps-stay

  -- The last instruction of an arithmetic operator.
  pub finish_arith :
      {fuel : ℕ} (op : BinOp) (pc : ℕ) (st σ : List ℕ) (v w : ℕ) (r : Arith)
      → get_elem? code pc ≡ some (bin op)
      → apply op v w ≡ r
      → Goes code fuel (machine pc (w ∷ v ∷ st) σ) (λ x. machine (pc + 1) (x ∷ st) σ) (of_arith r)
  unfolding execute
  finish_arith op pc st σ v w (Arith.value x) h e =
      Goes-running pc (w ∷ v ∷ st) σ h (ap (finish_bin pc st σ) e) (arrived x)
  finish_arith op pc st σ v w Arith.div_by_zero h e =
      traps 0 (machine pc (w ∷ v ∷ st) σ) pc Steps-stay
        (step-eq code pc _ σ h ∙ ap (finish_bin pc st σ) e)
  finish_arith op pc st σ v w panics h e =
      crashes 0 (machine pc (w ∷ v ∷ st) σ) Steps-stay
        (step-eq code pc _ σ h ∙ ap (finish_bin pc st σ) e)

  pub finish_load :
      {fuel : ℕ} (slot pc : ℕ) (st σ : List ℕ) (o : Option ℕ)
      → get_elem? code pc ≡ some (load slot)
      → get_elem? σ slot ≡ o
      → Goes code fuel (machine pc st σ) (λ x. machine (pc + 1) (x ∷ st) σ) (of_option o)
  unfolding execute
  finish_load slot pc st σ none h e =
      crashes 0 (machine pc st σ) Steps-stay (
        step-eq code pc _ σ h ∙ ap (λ o. or_crash o (λ x. running (machine (pc + 1) (x ∷ st) σ))) e)
  finish_load slot pc st σ (some x) h e =
      Goes-running pc st σ h (ap (λ o. or_crash o (λ x. running (machine (pc + 1) (x ∷ st) σ))) e)
        (arrived x)

  pub finish_store :
      {fuel : ℕ} (slot pc v : ℕ) (st σ : List ℕ) (o : Option ℕ)
      → get_elem? code pc ≡ some (store slot)
      → get_elem? σ slot ≡ o
      → Goes code fuel
          (machine pc (v ∷ st) σ)
          (λ σ'. machine (pc + 1) st σ')
          (assign_slot o slot v σ)
  unfolding execute
  finish_store slot pc v st σ none h e = crashes 0 (machine pc (v ∷ st) σ) Steps-stay (
      step-eq code pc _ σ h
      ∙ ap (λ o. or_crash o (λ _. running (machine (pc + 1) st (set σ slot v)))) e)
  finish_store slot pc v st σ (some x) h e =
      Goes-running pc (v ∷ st) σ h
        (ap (λ o. or_crash o (λ _. running (machine (pc + 1) st (set σ slot v)))) e)
        (arrived (set σ slot v))
