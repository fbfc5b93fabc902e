-- ===== src/Pipeline/Vm/Stable.antt =====
-- Runs of the machine of ch01-01-pipeline.rs under different fuel.
use Prim.Native.Nat.add
use model_lib.Base.{ℕ, zero, suc, ◌+◌, ◌≡◌, ◌≢◌, refl, List, ◌⊎◌, inl, inr, ap, ◌∙◌}
use model_lib.Pipeline.Lowerer.Defs.{Op}
use model_lib.Pipeline.Vm.Defs.{
  Machine, Event, running, halted, errored, crashed, step, run_loop, after, Run, returned,
  division_by_zero, panicked, unfinished,
}

after-stable :
    (steps : ℕ) (rest more : Machine → Run) (e : Event)
    → ((m : Machine) → rest m ≢ unfinished → more m ≡ rest m)
    → after steps rest e ≢ unfinished
    → after steps more e ≡ after steps rest e
after-stable steps rest more (running m) h k = h m k
after-stable steps rest more (halted v) h k = refl
after-stable steps rest more (errored pc) h k = refl
after-stable steps rest more crashed h k = refl

-- A run that came to an end under some fuel is the same run under more fuel.
pub run_loop-stable :
    (code : List Op) (f d steps : ℕ) (m : Machine)
    → run_loop f code steps m ≢ unfinished
    → run_loop (f + d) code steps m ≡ run_loop f code steps m
unfolding run_loop
run_loop-stable code zero d steps m h = absurd (h refl)
run_loop-stable code (suc f) d steps m h = rw add.suc (
    after-stable (steps + 1) (run_loop f code (steps + 1)) (run_loop (f + d) code (steps + 1))
      (step code m) (λ m'. run_loop-stable code f d (steps + 1) m') h)

pub Run-cases : (r : Run) → (r ≡ unfinished) ⊎ (r ≢ unfinished)
Run-cases unfinished = inl refl
Run-cases (returned v n) = inr (cc)
Run-cases (division_by_zero pc) = inr (cc)
Run-cases panicked = inr (cc)

-- The last round of a run.
pub run_last :
    (code : List Op) (n f steps : ℕ) (m m' : Machine) (e : Event)
    → run_loop (n + suc f) code steps m ≡ run_loop (suc f) code (steps + n) m'
    → step code m' ≡ e
    → run_loop (n + suc f) code steps m ≡ after (steps + n + 1) (run_loop f code (steps + n + 1)) e
unfolding run_loop
run_last code n f steps m m' e h k =
    h ∙ ap (after (steps + n + 1) (run_loop f code (steps + n + 1))) k
