-- ===== src/Pipeline/Lowerer/Layout.antt =====
-- The code that `Lowerer` comes to, laid out without patching: each jump is written with its target.
-- `ρ` gives the slot of a name's position, and `at` is the index of the first instruction.
use model_lib.Base.{
  ℕ, ◌+◌, ◌≡◌, refl, some, none, List, [], ◌∷◌, ◌++◌, length, length-append, get, as_word,
  append_assoc, patch_one, patch_two, arith, ◌∙◌, append-nil, set,
}
use model_lib.Pipeline.Syntax.{
  BinOp, Expr, Stmt, Stmts, Program, var, unary, binary, let_in, while, if_else, end, next,
}
use model_lib.Pipeline.Lowerer.Defs.{
  Op, push, load, store, bin, jump, jump_if_false, halt, unary_code,
}

unfoldable pub code_expr : (ℕ → ℕ) → ℕ → Expr → List Op
code_expr ρ at (Expr.int n) = push n ∷ []
code_expr ρ at (Expr.bool b) = push (as_word b) ∷ []
code_expr ρ at (var x pos) = load (ρ pos) ∷ []
code_expr ρ at (unary op x pos) = code_expr ρ at x ++ unary_code op ∷ []
code_expr ρ at (binary BinOp.and a b pos) =
    let left = code_expr ρ at a in
    let right = code_expr ρ (at + length left + 1) b in
    let short = at + length left + 1 + length right + 1 in
    left ++ (jump_if_false short ∷ (right ++ (jump (short + 1) ∷ (push 0 ∷ []))))
code_expr ρ at (binary BinOp.or a b pos) =
    let left = code_expr ρ at a in
    let right = code_expr ρ (at + length left + 1 + 1) b in
    let short = at + length left + 1 + 1 + length right + 1 in
    left ++ (Op.not ∷ (jump_if_false short ∷ (right ++ (jump (short + 1) ∷ (push 1 ∷ [])))))
code_expr ρ at (binary op a b pos) =
    let left = code_expr ρ at a in left ++ (code_expr ρ (at + length left) b ++ bin op ∷ [])

unfoldable mutual
  unfolding code_expr

  pub code_stmt : (ℕ → ℕ) → ℕ → Stmt → List Op
  code_stmt ρ at (let_in x mutable v pos) = code_expr ρ at v ++ store (ρ pos) ∷ []
  code_stmt ρ at (Stmt.assign x v pos) = code_expr ρ at v ++ store (ρ pos) ∷ []
  code_stmt ρ at (while cond body) =
      let test = code_expr ρ at cond in
      let round = code_stmts ρ (at + length test + 1) body in
      test ++ (jump_if_false (at + length test + 1 + length round + 1) ∷ (round ++ (jump at ∷ [])))
  code_stmt ρ at (if_else cond then_body else_body) =
      let test = code_expr ρ at cond in
      let yes_code = code_stmts ρ (at + length test + 1) then_body in
      let no_at = at + length test + 1 + length yes_code + 1 in
      let no_code = code_stmts ρ no_at else_body in
      test ++ (jump_if_false no_at ∷ (yes_code ++ (jump (no_at + length no_code) ∷ no_code)))

  pub code_stmts : (ℕ → ℕ) → ℕ → Stmts → List Op
  code_stmts ρ at end = []
  code_stmts ρ at (next s ss) =
      let first = code_stmt ρ at s in first ++ code_stmts ρ (at + length first) ss

unfoldable pub code_program : (ℕ → ℕ) → Program → List Op
unfolding code_stmts
code_program ρ p =
    let first = code_stmts ρ 0 p.stmts in
    first ++ (code_expr ρ (length first) p.result ++ halt ∷ [])

-- The table as a function, and the trees whose names all stand in the table.
abbrev pub slot_of : List (ℕ × ℕ) → ℕ → ℕ
slot_of uses pos = elim (get pos uses) [ none ↦ 0 | some s ↦ s ]

abbrev pub IsNoted : List (ℕ × ℕ) → ℕ → Type 0
IsNoted uses pos = get pos uses ≡ some (slot_of uses pos)

abbrev pub NotedExpr : List (ℕ × ℕ) → Expr → Type 0
NotedExpr uses (Expr.int n) = Unit
NotedExpr uses (Expr.bool b) = Unit
NotedExpr uses (var x pos) = IsNoted uses pos
NotedExpr uses (unary op x pos) = NotedExpr uses x
NotedExpr uses (binary op a b pos) = NotedExpr uses a × NotedExpr uses b

abbrev mutual
  pub NotedStmt : List (ℕ × ℕ) → Stmt → Type 0
  NotedStmt uses (let_in x mutable v pos) = NotedExpr uses v × IsNoted uses pos
  NotedStmt uses (Stmt.assign x v pos) = NotedExpr uses v × IsNoted uses pos
  NotedStmt uses (while cond body) = NotedExpr uses cond × NotedStmts uses body
  NotedStmt uses (if_else cond then_body else_body) =
      NotedExpr uses cond × NotedStmts uses then_body × NotedStmts uses else_body

  pub NotedStmts : List (ℕ × ℕ) → Stmts → Type 0
  NotedStmts uses end = Unit
  NotedStmts uses (next s ss) = NotedStmt uses s × NotedStmts uses ss

-- Lengths of code, for `omega`.
pub length-append_code : (xs ys : List Op) → length (xs ++ ys) ≡ length xs + length ys
length-append_code = length-append

pub ruleset lengths = (arith, length-append_code)

abbrev pub NotedProgram : List (ℕ × ℕ) → Program → Type 0
NotedProgram uses p = NotedStmts uses p.stmts × NotedExpr uses p.result
