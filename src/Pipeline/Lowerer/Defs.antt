-- ===== src/Pipeline/Lowerer/Defs.antt =====
-- Stage 5 of ch01-01-pipeline.rs: `Lowerer`, from the tree to stack bytecode. A jump is pushed with
-- the target 0 and patched when its target is known, as the source does.
use model_lib.Base.{ℕ, Bool, List, [], ◌∷◌, ◌++◌, length, set, as_word}
use model_lib.Pipeline.Syntax
use model_lib.Pipeline.Syntax.{
  BinOp, UnOp, Expr, Stmt, Stmts, Program, var, unary, binary, let_in, while, if_else, end, next,
  Outcome, ok, bind,
}
use model_lib.Pipeline.Checker.Defs.{slot_at}

pub data Op : Type 0 where
  push load store : ℕ → Op
  bin : BinOp → Op
  neg not : Op
  jump jump_if_false : ℕ → Op
  halt : Op

-- `self.code.push(op)`; the code itself is the lowerer's state.
abbrev pub emit : Op → List Op → List Op
emit op code = code ++ op ∷ []

abbrev pub unary_code : UnOp → Op
unary_code Syntax.neg = neg
unary_code Syntax.not = not

-- The short-circuit operators: `or` turns its left operand round, and pushes 1 where it is cut short.
abbrev pub turn_round : BinOp → List Op → List Op
turn_round BinOp.or code = emit not code
turn_round _ code = code

abbrev pub short_value : BinOp → ℕ
short_value BinOp.or = 1
short_value _ = 0

abbrev pub is_short_circuit : BinOp → Bool
is_short_circuit BinOp.and = Bool.true
is_short_circuit BinOp.or = Bool.true
is_short_circuit _ = Bool.false

-- What stands behind the right operand, and the two patches: `jump_short` is the index of the first
-- jump.
abbrev pub close_short : BinOp → ℕ → List Op → List Op
close_short op jump_short code =
    let jump_end = length code in
    let code₁ = emit (jump 0) code in
    let short = length code₁ in
    let code₂ = emit (push (short_value op)) code₁ in
    set (set code₂ jump_short (jump_if_false short)) jump_end (jump (length code₂))

unfoldable pub lower_expr : List (ℕ × ℕ) → Expr → List Op → Outcome (List Op)
unfolding slot_at
lower_expr uses (Expr.int n) code = ok (emit (push n) code)
lower_expr uses (Expr.bool b) code = ok (emit (push (as_word b)) code)
lower_expr uses (var x pos) code = bind (slot_at uses pos) λ slot. ok (emit (load slot) code)
lower_expr uses (unary op x pos) code =
    bind (lower_expr uses x code) λ code₁. ok (emit (unary_code op) code₁)
lower_expr uses (binary op a b pos) code = bind (lower_expr uses a code) λ code₁.
    elim (is_short_circuit op) [
      | Bool.true ↦
          let code₂ = turn_round op code₁ in
          bind (lower_expr uses b (emit (jump_if_false 0) code₂))
            λ code₃. ok (close_short op (length code₂) code₃)
      | Bool.false ↦ bind (lower_expr uses b code₁) λ code₂. ok (emit (bin op) code₂)
    ]

unfoldable mutual
  unfolding lower_expr

  pub lower_stmt : List (ℕ × ℕ) → Stmt → List Op → Outcome (List Op)
  lower_stmt uses (let_in x mutable v pos) code =
      bind (lower_expr uses v code)
        λ code₁. bind (slot_at uses pos) λ slot. ok (emit (store slot) code₁)
  lower_stmt uses (Stmt.assign x v pos) code =
      bind (lower_expr uses v code)
        λ code₁. bind (slot_at uses pos) λ slot. ok (emit (store slot) code₁)
  lower_stmt uses (while cond body) code =
      let top = length code in
      bind (lower_expr uses cond code) λ code₁.
        bind (lower_stmts uses body (emit (jump_if_false 0) code₁)) λ code₂.
          let code₃ = emit (jump top) code₂ in
          ok (set code₃ (length code₁) (jump_if_false (length code₃)))
  lower_stmt uses (if_else cond then_body else_body) code =
      bind (lower_expr uses cond code) λ code₁.
        bind (lower_stmts uses then_body (emit (jump_if_false 0) code₁)) λ code₂.
          let code₃ = emit (jump 0) code₂ in
          bind (lower_stmts uses else_body code₃) λ code₄. ok (
            set (set code₄ (length code₁) (jump_if_false (length code₃))) (length code₂)
              (jump (length code₄)))

  pub lower_stmts : List (ℕ × ℕ) → Stmts → List Op → Outcome (List Op)
  lower_stmts uses end code = ok code
  lower_stmts uses (next s ss) code =
      bind (lower_stmt uses s code) λ code₁. lower_stmts uses ss code₁

-- The lowerer's calls in `compile`.
unfoldable pub lower : List (ℕ × ℕ) → Program → Outcome (List Op)
unfolding lower_stmts
lower uses p =
    bind (lower_stmts uses p.stmts [])
      λ code. bind (lower_expr uses p.result code) λ code₁. ok (emit halt code₁)
