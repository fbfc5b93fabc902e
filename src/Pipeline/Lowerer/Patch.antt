-- ===== src/Pipeline/Lowerer/Patch.antt =====
-- The placeholders and patches of `Lowerer` in ch01-01-pipeline.rs against the code of `Layout`.
use mathlib.Core.Path.{ap, ap₂}
use model_lib.Base.{
  ℕ, ◌+◌, ◌≡◌, refl, List, [], ◌∷◌, ◌++◌, length, append_assoc, patch_one, patch_two, arith, ◌∙◌,
  append-nil, set,
}
use model_lib.Pipeline.Syntax.{
  BinOp, Expr, Stmt, Stmts, Program, var, unary, binary, let_in, while, if_else, end, next, ok,
  bind,
}
use model_lib.Pipeline.Checker.Defs.{slot_at}
use model_lib.Pipeline.Lowerer.Layout.{
  code_expr, code_stmt, code_stmts, code_program, slot_of, IsNoted, NotedExpr, NotedStmt,
  NotedStmts, NotedProgram, lengths,
}
use model_lib.Pipeline.Lowerer.Defs.{
  Op, push, jump, jump_if_false, short_value, close_short, lower_expr, lower_stmt, lower_stmts,
  lower,
}

close_short-eq :
    (op : BinOp) (l r : List Op) (short : ℕ)
    → length l + 1 + length r + 1 ≡ short
    → close_short op (length l) ((l ++ jump_if_false 0 ∷ []) ++ r)
      ≡ l ++ (jump_if_false short ∷ (r ++ (jump (short + 1) ∷ (push (short_value op) ∷ []))))
close_short-eq op l r short h =
    patch_two l r _ _ _ _ _
    ∙ ap₂ (λ s t. l ++ (jump_if_false s ∷ (r ++ (jump t ∷ (push (short_value op) ∷ [])))))
        (omega lengths) (omega lengths)

slot_at-eq :
    (uses : List (ℕ × ℕ)) (pos : ℕ) → IsNoted uses pos → slot_at uses pos ≡ ok (slot_of uses pos)
unfolding slot_at
slot_at-eq uses pos h = rw h

module _ (uses : List (ℕ × ℕ)) where
  abbrev layout : ℕ → Expr → List Op
  layout = code_expr (slot_of uses)

  abbrev layouts : ℕ → Stmts → List Op
  layouts = code_stmts (slot_of uses)

  -- The right operand of a short-circuit operator, and the patches behind it.
  close_right :
      (op : BinOp) (b : Expr) (l : List Op) (at : ℕ)
      → length l ≡ at
      → lower_expr uses b (l ++ jump_if_false 0 ∷ [])
        ≡ ok ((l ++ jump_if_false 0 ∷ []) ++ layout (at + 1) b)
      → let short = at + 1 + length (layout (at + 1) b) + 1 in
        bind (lower_expr uses b (l ++ jump_if_false 0 ∷ [])) (λ c. ok (close_short op (length l) c))
        ≡ ok (
            l
            ++ (jump_if_false short
                ∷ (layout (at + 1) b ++ (jump (short + 1) ∷ (push (short_value op) ∷ [])))))
  close_right op b l at h ih = rw ih (ap ok (close_short-eq op l _ _ (omega arith)))

  pub lower_expr-eq :
      (e : Expr) (code : List Op) (at : ℕ)
      → length code ≡ at
      → NotedExpr uses e
      → lower_expr uses e code ≡ ok (code ++ layout at e)
  unfolding lower_expr code_expr
  lower_expr-eq (Expr.int n) code at p h = refl
  lower_expr-eq (Expr.bool b) code at p h = refl
  lower_expr-eq (var x pos) code at p h = rw (slot_at-eq uses pos h)
  lower_expr-eq (unary op x pos) code at p h = rw (lower_expr-eq x code at p h) (simp append_assoc)
  lower_expr-eq (binary BinOp.and a b pos) code at p (ha, hb) =
      let left = layout at a in
      rw (lower_expr-eq a code at p ha) (
        rw
          (close_right BinOp.and b (code ++ left) (at + length left) (omega lengths)
            (lower_expr-eq b _ _ (omega lengths) hb))
          (simp append_assoc))
  lower_expr-eq (binary BinOp.or a b pos) code at p (ha, hb) =
      let left = layout at a in
      rw (lower_expr-eq a code at p ha) (
        rw
          (close_right BinOp.or b ((code ++ left) ++ Op.not ∷ []) (at + length left + 1)
            (omega lengths) (lower_expr-eq b _ _ (omega lengths) hb))
          (simp append_assoc))
  lower_expr-eq (binary op a b pos) code at p (ha, hb) = rw (lower_expr-eq a code at p ha) (
      rw (lower_expr-eq b (code ++ layout at a) (at + length (layout at a)) (omega lengths) hb)
        (simp append_assoc))

  while_patch :
      (l r : List Op) (top target : ℕ)
      → length l + 1 + length r + 1 ≡ target
      → let c = ((l ++ jump_if_false 0 ∷ []) ++ r) ++ jump top ∷ [] in
        set c (length l) (jump_if_false (length c))
        ≡ l ++ (jump_if_false target ∷ (r ++ (jump top ∷ [])))
  while_patch l r top target h =
      patch_one l r _ _ _
      ∙ ap (λ t. l ++ (jump_if_false t ∷ (r ++ (jump top ∷ [])))) (omega lengths)

  if_patch :
      (l r e : List Op) (other target : ℕ)
      → length l + 1 + length r + 1 ≡ other
      → other + length e ≡ target
      → let c = ((l ++ jump_if_false 0 ∷ []) ++ r) ++ jump 0 ∷ [] in
        set
          (set (c ++ e) (length l) (jump_if_false (length c)))
          (length ((l ++ jump_if_false 0 ∷ []) ++ r))
          (jump (length (c ++ e)))
        ≡ l ++ (jump_if_false other ∷ (r ++ (jump target ∷ e)))
  if_patch l r e other target h k =
      patch_two l r _ _ _ _ _
      ∙ ap₂ (λ s t. l ++ (jump_if_false s ∷ (r ++ (jump t ∷ e)))) (omega lengths) (omega lengths)

  mutual
    unfolding lower_stmt code_stmt

    stmt_eq :
        (s : Stmt) (code : List Op) (at : ℕ)
        → length code ≡ at
        → NotedStmt uses s
        → lower_stmt uses s code ≡ ok (code ++ code_stmt (slot_of uses) at s)
    stmt_eq (let_in x mutable v pos) code at p (hv, hp) =
        rw (lower_expr-eq v code at p hv) (rw (slot_at-eq uses pos hp) (simp append_assoc))
    stmt_eq (Stmt.assign x v pos) code at p (hv, hp) =
        rw (lower_expr-eq v code at p hv) (rw (slot_at-eq uses pos hp) (simp append_assoc))
    stmt_eq (while cond body) code at p (hc, hb) =
        let test = layout at cond in
        rw (lower_expr-eq cond code at p hc) (
          rw
            (stmts_eq body ((code ++ test) ++ jump_if_false 0 ∷ []) (at + length test + 1)
              (omega lengths) hb)
            (rw
              (while_patch (code ++ test) (layouts (at + length test + 1) body) (length code)
                (at + length test + 1 + length (layouts (at + length test + 1) body) + 1)
                (omega lengths))
              (rw p (simp append_assoc))))
    stmt_eq (if_else cond then_body else_body) code at p (hc, ht, he) =
        let test = layout at cond in
        let yes_code = layouts (at + length test + 1) then_body in
        let no_at = at + length test + 1 + length yes_code + 1 in
        rw (lower_expr-eq cond code at p hc) (
          rw
            (stmts_eq then_body ((code ++ test) ++ jump_if_false 0 ∷ []) (at + length test + 1)
              (omega lengths) ht)
            (rw
              (stmts_eq else_body
                ((((code ++ test) ++ jump_if_false 0 ∷ []) ++ yes_code) ++ jump 0 ∷ []) no_at
                (omega lengths) he)
              (rw
                (if_patch (code ++ test) yes_code (layouts no_at else_body) no_at
                  (no_at + length (layouts no_at else_body)) (omega lengths) refl)
                (simp append_assoc))))

    stmts_eq :
        (ss : Stmts) (code : List Op) (at : ℕ)
        → length code ≡ at
        → NotedStmts uses ss
        → lower_stmts uses ss code ≡ ok (code ++ code_stmts (slot_of uses) at ss)
    stmts_eq end code at p h = rw append-nil
    stmts_eq (next s ss) code at p (hs, hss) = rw (stmt_eq s code at p hs) (
        rw
          (stmts_eq ss (code ++ code_stmt (slot_of uses) at s)
            (at + length (code_stmt (slot_of uses) at s)) (omega lengths) hss)
          (simp append_assoc))

-- Where every name of the program stands in the table, lowering succeeds, and pushing placeholders
-- and patching them comes to the code laid out with the jump targets in place.
pub lower-eq-layout :
    (uses : List (ℕ × ℕ)) (p : Program)
    → NotedProgram uses p
    → lower uses p ≡ ok (code_program (slot_of uses) p)
unfolding lower code_program
lower-eq-layout uses p (hs, he) =
    let first = code_stmts (slot_of uses) 0 p.stmts in
    rw (stmts_eq uses p.stmts [] 0 refl hs)
      (rw (lower_expr-eq uses p.result first (length first) refl he) (simp append_assoc))
