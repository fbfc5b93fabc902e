-- ===== src/Pipeline/Driver/Agrees.antt =====
-- The machine of ch01-01-pipeline.rs, run on laid-out code, against the reference semantics.
use mathlib.Core.Path.{subst}
use model_lib.Base.{
  ℕ, suc, ◌+◌, ◌-◌, ◌≤◌, ◌≡◌, refl, ap, sym, ◌∙◌, inl, inr, List, [], ◌∷◌, ◌++◌, length, replicate,
  arith,
}
use model_lib.Pipeline.Syntax.{Program}
use model_lib.Pipeline.Lowerer.Defs.{Op, halt}
use model_lib.Pipeline.Lowerer.Layout.{code_expr, code_stmts, code_program}
use model_lib.Pipeline.Vm.Defs.{
  Machine, machine, Event, halted, errored, crashed, execute, step, run_loop, Run, run, returned,
  division_by_zero, panicked, unfinished, after,
}
use model_lib.Pipeline.Vm.Steps.{Steps, Holds-append, Holds-self, Holds-at, step-eq}
use model_lib.Pipeline.Vm.Stable.{run_loop-stable, run_last, Run-cases}
use model_lib.Pipeline.Meaning.Defs.{
  Answer, value, div_by_zero, stuck, out_of_fuel, bind, eval, exec_all, meaning,
}
use model_lib.Pipeline.Meaning.Goes.{Goes, arrives, traps, crashes, goes_on, Goes-bind, arrived}
use model_lib.Pipeline.Meaning.Exprs.{yields, eval-Computes}
use model_lib.Pipeline.Meaning.Statements.{exec_all-RunsAll}

-- `r`, a run for each fuel, does what the answer says: it returns the value after `n` rounds, and
-- reports `n` steps; it reports a division by zero; it panics; or it is unfinished at `fuel` rounds.
abbrev pub Agrees : ℕ → Answer ℕ → (ℕ → Run) → Type 0
Agrees fuel (value v) r = (n : ℕ) × ((f : ℕ) → n ≤ f → r f ≡ returned v n)
Agrees fuel div_by_zero r = (n : ℕ) × (pc : ℕ) × ((f : ℕ) → n ≤ f → r f ≡ division_by_zero pc)
Agrees fuel stuck r = (n : ℕ) × ((f : ℕ) → n ≤ f → r f ≡ panicked)
Agrees fuel out_of_fuel r = (f : ℕ) → f ≤ fuel → r f ≡ unfinished

module _ (code : List Op) (m : Machine) where
  abbrev runs : ℕ → Run
  runs f = run_loop f code 0 m

  -- The state in which the last round ends the run.
  ended :
      (n : ℕ) (m' : Machine) (e : Event) (f : ℕ)
      → Steps code n m m'
      → step code m' ≡ e
      → n + 1 ≤ f
      → runs f ≡ after (n + 1) (run_loop (f - n - 1) code (n + 1)) e
  ended n m' e f s k le =
      let rest : ℕ = f - n - 1 in
      ap runs (omega arith)
      ∙ run_last code n rest 0 m m' e (s.go (suc rest) 0) k
      ∙ ap (λ t. after (t + 1) (run_loop rest code (t + 1)) e) (omega arith)

  unfinished_below :
      (n : ℕ) (m' : Machine) (f : ℕ) → Steps code n m m' → f ≤ n → runs f ≡ unfinished
  unfolding run_loop
  unfinished_below n m' f s le = elim (Run-cases (runs f)) [
    | inl e ↦ e
    | inr d ↦ sym (run_loop-stable code f (n - f) 0 m d) ∙ ap runs (omega arith) ∙ s.go 0 0
  ]

  Goes-Agrees :
      {A : Type 0} (fuel : ℕ) (val : A → ℕ) (r : Answer A) (k : A → Machine)
      → ((a : A) → step code (k a) ≡ halted (val a))
      → Goes code fuel m k r
      → Agrees fuel (bind r λ a. value (val a)) runs
  Goes-Agrees fuel val r k h (arrives {a} n s) =
      (n + 1, λ f le. ended n (k a) (halted (val a)) f s (h a) le)
  Goes-Agrees fuel val r k h (traps n m' pc s e) =
      (n + 1, pc, λ f le. ended n m' (errored pc) f s e le)
  Goes-Agrees fuel val r k h (crashes n m' s e) = (n + 1, λ f le. ended n m' crashed f s e le)
  Goes-Agrees fuel val r k h (goes_on n m' s le) = λ f le'. unfinished_below n m' f s (omega arith)

-- The result with the final values of the slots.
abbrev paired : List ℕ → Answer ℕ → Answer (ℕ × List ℕ)
paired σ r = bind r λ v. value (v, σ)

drop_slots :
    (r : Answer (List ℕ)) (f : List ℕ → Answer ℕ)
    → bind (bind r λ σ. paired σ (f σ)) (λ a. value (a.0)) ≡ bind r f
drop_slots (value σ) f = go (f σ)
  where
    go : (s : Answer ℕ) → bind (paired σ s) (λ a. value (a.0)) ≡ s
    go (value v) = refl
    go div_by_zero = refl
    go stuck = refl
    go out_of_fuel = refl
drop_slots div_by_zero f = refl
drop_slots stuck f = refl
drop_slots out_of_fuel f = refl

-- The run of the code laid out for a program, under any map from positions to slots, agrees with what
-- the program means: the same value with the count of its rounds, a division by zero, a panic, or no
-- end within `fuel` rounds where the meaning takes more than `fuel` rounds of a loop.
pub code_program-Agrees :
    (ρ : ℕ → ℕ) (p : Program) (nslots fuel : ℕ)
    → Agrees fuel (meaning ρ fuel p (replicate nslots 0)) (λ f. run f (code_program ρ p) nslots)
unfolding code_program meaning run execute
code_program-Agrees ρ p nslots fuel =
    let code = code_program ρ p in
    let σ₀ : List ℕ = replicate nslots 0 in
    let first = code_stmts ρ 0 p.stmts in
    let mid = length first in
    let last = code_expr ρ mid p.result in
    let to = mid + length last in
    let (hf, hs) = Holds-append code 0 first (last ++ halt ∷ []) (Holds-self [] code) in
    let ht = Holds-at code (0 + mid) mid (last ++ halt ∷ []) (omega arith) hs in
    let (hl, hh) = Holds-append code mid last (halt ∷ []) ht in
    subst (λ r. Agrees fuel r (λ f. run f code nslots))
      (drop_slots (exec_all ρ fuel p.stmts σ₀) (λ σ. eval ρ p.result σ))
      (Goes-Agrees code (machine 0 [] σ₀) fuel (λ a. a.0) _ (λ a. yields to [] a.1 a.0)
        (λ a. step-eq code to (a.0 ∷ []) a.1 hh.0)
        (Goes-bind (exec_all-RunsAll code ρ fuel p.stmts 0 mid [] σ₀ (omega arith) hf) λ σ.
          Goes-bind (eval-Computes code ρ fuel p.result mid to [] σ refl hl)
            λ v. arrived code (v, σ)))
