-- ===== src/Pipeline/Tests.antt =====
-- The programs of `main` in ch01-01-pipeline.rs, compiled and run.
use Prim.Native.String.{String}
use model_lib.Base.{ℕ, ◌≡◌, refl, codes, get_name}
use model_lib.Pipeline.Syntax.{Outcome, ok, bind}
use model_lib.Pipeline.Driver.Defs.{compile}
use model_lib.Pipeline.Vm.Defs.{Run, run, returned, division_by_zero}

-- `compile` and `run`.
run_text : ℕ → String → Outcome Run
run_text fuel src = bind (compile (codes src)) λ c. ok (run fuel c.code c.nslots)

runs_good :
    run_text 400
      "let mut i = 0; let mut total = 0; while i < 10 { i = i + 1; if i % 2 == 0 { total = total + i; } else { total = total - 1; } } total"
    ≡ ok (returned 25 205)
unfolding run_text compile run get_name
runs_good = refl

runs_div : run_text 400 "let z = 0; 10 / z" ≡ ok (division_by_zero 4)
unfolding run_text compile run get_name
runs_div = refl
