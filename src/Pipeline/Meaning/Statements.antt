-- ===== src/Pipeline/Meaning/Statements.antt =====
-- Lowered statements of ch01-01-pipeline.rs on the machine, against the reference semantics.
use model_lib.Base.{
  ℕ, zero, suc, ◌+◌, ◌≤◌, ◌≡◌, refl, some, List, [], ◌∷◌, ◌++◌, length, get_elem?, ◌==◌, arith,
}
use model_lib.Pipeline.Syntax.{Expr, Stmt, Stmts, let_in, while, if_else, end, next}
use model_lib.Pipeline.Lowerer.Defs.{Op, store, jump, jump_if_false}
use model_lib.Pipeline.Lowerer.Layout.{code_expr, code_stmt, code_stmts, lengths}
use model_lib.Pipeline.Vm.Defs.{machine, execute}
use model_lib.Pipeline.Vm.Steps.{Steps-stay, Steps-one, Holds, Holds-append, step-eq}
use model_lib.Pipeline.Meaning.Defs.{bind, eval, assign_slot, loop, exec, exec_all}
use model_lib.Pipeline.Meaning.Goes.{
  Goes, goes_on, Goes-after, Goes-weaken, Goes-bind, Goes-then, Goes-running, arrived, finish_store,
}
use model_lib.Pipeline.Meaning.Exprs.{yields, leaves, Goes-at, Goes-branch, eval-Computes}

module _ (code : List Op) (ρ : ℕ → ℕ) (fuel : ℕ) where
  -- `s`, laid out from `at` to `to`, leaves the stack as it is.
  abbrev Runs : Stmt → Type 0
  Runs s =
      (at to : ℕ) (st σ : List ℕ)
      → at + length (code_stmt ρ at s) ≡ to
      → Holds code at (code_stmt ρ at s)
      → Goes code fuel (machine at st σ) (leaves to st) (exec ρ fuel s σ)

  abbrev RunsAll : Stmts → Type 0
  RunsAll ss =
      (at to : ℕ) (st σ : List ℕ)
      → at + length (code_stmts ρ at ss) ≡ to
      → Holds code at (code_stmts ρ at ss)
      → Goes code fuel (machine at st σ) (leaves to st) (exec_all ρ fuel ss σ)

  store_value :
      (v : Expr) (pos at to : ℕ) (st σ : List ℕ)
      → at + length (code_expr ρ at v ++ store (ρ pos) ∷ []) ≡ to
      → Holds code at (code_expr ρ at v ++ store (ρ pos) ∷ [])
      → Goes code fuel
          (machine at st σ)
          (leaves to st)
          (bind (eval ρ v σ) λ w. assign_slot (get_elem? σ (ρ pos)) (ρ pos) w σ)
  store_value v pos at to st σ p h =
      let mid = at + length (code_expr ρ at v) in
      let (hv, hs) = Holds-append code at (code_expr ρ at v) (store (ρ pos) ∷ []) h in
      Goes-at (λ t. leaves t st) (mid + 1) to (omega lengths)
        (Goes-bind (eval-Computes code ρ fuel v at mid st σ refl hv)
          λ w. finish_store code (ρ pos) mid w st σ (get_elem? σ (ρ pos)) hs.0 refl)

  -- The rounds of a loop, from its test at `at`: each makes a round of the machine at least.
  loop-Goes :
      (cond : Expr) (body : Stmts) (at mid back to : ℕ) (st : List ℕ)
      → get_elem? code mid ≡ some (jump_if_false to)
      → get_elem? code back ≡ some (jump at)
      → ((σ : List ℕ) → Goes code fuel (machine at st σ) (yields mid st σ) (eval ρ cond σ))
      → ((σ : List ℕ)
          → Goes code fuel (machine (mid + 1) st σ) (leaves back st) (exec_all ρ fuel body σ))
      → (f : ℕ) (σ : List ℕ) → f ≤ fuel
      → Goes code f (machine at st σ) (leaves to st) (loop f (eval ρ cond) (exec_all ρ fuel body) σ)
  unfolding loop execute
  loop-Goes cond body at mid back to st hj hb test round zero σ le =
      goes_on 0 (machine at st σ) Steps-stay (omega arith)
  loop-Goes cond body at mid back to st hj hb test round (suc f) σ le =
      Goes-bind (Goes-weaken fuel (suc f) le (test σ)) λ v.
        Goes-running code mid (v ∷ st) σ hj refl (
          Goes-branch to (mid + 1) st σ (v == 0) (arrived code σ) (
            Goes-bind (Goes-weaken fuel (suc f) le (round σ)) λ σ'.
              Goes-weaken (1 + f) (suc f) (omega arith) (
                Goes-after (Steps-one (step-eq code back st σ' hb))
                  (loop-Goes cond body at mid back to st hj hb test round f σ' (omega arith)))))

  mutual
    unfolding exec code_stmt execute

    exec-Runs : (s : Stmt) → Runs s
    exec-Runs (let_in x mutable v pos) at to st σ p h = store_value v pos at to st σ p h
    exec-Runs (Stmt.assign x v pos) at to st σ p h = store_value v pos at to st σ p h
    exec-Runs (while cond body) at to st σ p h =
        let test = code_expr ρ at cond in
        let mid = at + length test in
        let round = code_stmts ρ (mid + 1) body in
        let back = mid + 1 + length round in
        let (ht, hs) = Holds-append code at test _ h in
        let (hr, hb) = Holds-append code (mid + 1) round (jump at ∷ []) hs.1 in
        Goes-at (λ t. leaves t st) (back + 1) to (omega lengths)
          (loop-Goes cond body at mid back (back + 1) st hs.0 hb.0
            (λ σ'. eval-Computes code ρ fuel cond at mid st σ' refl ht)
            (λ σ'. exec_all_runs body (mid + 1) back st σ' refl hr) fuel σ (omega arith))
    exec-Runs (if_else cond then_body else_body) at to st σ p h =
        let test = code_expr ρ at cond in
        let mid = at + length test in
        let yes_code = code_stmts ρ (mid + 1) then_body in
        let yes_end = mid + 1 + length yes_code in
        let no_code = code_stmts ρ (yes_end + 1) else_body in
        let (ht, hs) = Holds-append code at test _ h in
        let (hy, hn) = Holds-append code (mid + 1) yes_code _ hs.1 in
        Goes-bind (eval-Computes code ρ fuel cond at mid st σ refl ht) λ v.
          Goes-running code mid (v ∷ st) σ hs.0 refl (
            Goes-branch (yes_end + 1) (mid + 1) st σ (v == 0)
              (exec_all_runs else_body (yes_end + 1) to st σ (omega lengths) hn.1)
              (Goes-then (exec_all_runs then_body (mid + 1) yes_end st σ refl hy) λ σ'.
                Goes-running code yes_end st σ' hn.0 refl (
                  Goes-at (λ t. leaves t st) (yes_end + 1 + length no_code) to (omega lengths)
                    (arrived code σ'))))

    exec_all_runs : (ss : Stmts) → RunsAll ss
    exec_all_runs end at to st σ p h =
        Goes-at (λ t. leaves t st) at to (omega lengths) (arrived code σ)
    exec_all_runs (next s ss) at to st σ p h =
        let first = code_stmt ρ at s in
        let (hf, hs) = Holds-append code at first _ h in
        Goes-bind (exec-Runs s at (at + length first) st σ refl hf)
          λ σ'. exec_all_runs ss (at + length first) to st σ' (omega lengths) hs

  pub exec_all-RunsAll : (ss : Stmts) → RunsAll ss
  exec_all-RunsAll ss = exec_all_runs ss
