-- ===== src/Pipeline/Vm/Steps.antt =====
-- Runs of the machine of ch01-01-pipeline.rs in pieces.
use model_lib.Base.{
  ℕ, suc, ◌+◌, ◌≡◌, some, List, [], ◌∷◌, ◌++◌, length, get_elem?, arith, ◌∙◌, ap, length-append,
  get_elem?-append, append_assoc,
}
use mathlib.Core.Path.{ap₂, subst, subst₂}
use model_lib.Pipeline.Lowerer.Defs.{Op}
use model_lib.Pipeline.Vm.Defs.{Machine, machine, running, execute, step, run_loop}

-- `n` rounds lead from `m` to `m'`, whatever fuel and count of steps they start with.
pub record Steps (code : List Op) (n : ℕ) (m m' : Machine) : Type 0 where
  pub go : (f steps : ℕ) → run_loop (n + f) code steps m ≡ run_loop f code (steps + n) m'

run_running :
    (code : List Op) (f steps : ℕ) (m m' : Machine)
    → step code m ≡ running m'
    → run_loop (suc f) code steps m ≡ run_loop f code (steps + 1) m'
unfolding run_loop
run_running code f steps m m' h = rw (h, run_loop)

module _ {code : List Op} where
  pub Steps-stay : {m : Machine} → Steps code 0 m m
  Steps-stay {m} = record {
    go = λ f steps. ap₂ (λ a b. run_loop a code b m) (omega arith) (omega arith);
  }

  pub Steps-one : {m m' : Machine} → step code m ≡ running m' → Steps code 1 m m'
  Steps-one {m} {m'} h = record {
    go = λ f steps.
        ap (λ a. run_loop a code steps m) (omega arith) ∙ run_running code f steps m m' h;
  }

  pub Steps-trans :
      {k j : ℕ} {m t u : Machine} → Steps code k m t → Steps code j t u → Steps code (k + j) m u
  Steps-trans {k} {j} {m} {t} {u} h h' = record {
    go = λ f steps.
        ap (λ a. run_loop a code steps m) (omega arith)
        ∙ h.go (j + f) steps
        ∙ h'.go f (steps + k)
        ∙ ap (λ a. run_loop f code a u) (omega arith);
  }

-- The instructions `ops` stand in `code` from the index `at` on.
abbrev pub Holds : List Op → ℕ → List Op → Type 0
Holds code at [] = Unit
Holds code at (op ∷ ops) = (get_elem? code at ≡ some op) × Holds code (at + 1) ops

pub Holds-at :
    (code : List Op) (i j : ℕ) (ops : List Op) → i ≡ j → Holds code i ops → Holds code j ops
Holds-at code i j ops p h = subst (λ k. Holds code k ops) p h

pub Holds-append :
    (code : List Op) (at : ℕ) (xs ys : List Op)
    → Holds code at (xs ++ ys)
    → Holds code at xs × Holds code (at + length xs) ys
Holds-append code at [] ys h = (tt, Holds-at code at (at + 0) ys (omega arith) h)
Holds-append code at (x ∷ xs) ys (h, hs) =
    let (hx, hy) = Holds-append code (at + 1) xs ys hs in
    ((h, hx), Holds-at code (at + 1 + length xs) (at + suc (length xs)) ys (omega arith) hy)

pub Holds-self : (pre ops : List Op) → Holds (pre ++ ops) (length pre) ops
Holds-self pre [] = tt
Holds-self pre (op ∷ ops) = (
  get_elem?-append pre ops op,
  subst₂ (λ c k. Holds c k ops) (append_assoc pre (op ∷ []) ops) (length-append pre (op ∷ []))
      (Holds-self (pre ++ op ∷ []) ops),
)

pub step-eq :
    (code : List Op) (pc : ℕ) (st slots : List ℕ) {op : Op}
    → get_elem? code pc ≡ some op
    → step code (machine pc st slots) ≡ execute op pc st slots
unfolding step
step-eq code pc st slots h = rw h
