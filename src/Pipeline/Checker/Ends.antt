-- ===== src/Pipeline/Checker/Ends.antt =====
-- How the checker of ch01-01-pipeline.rs ends: with a value, an error or a panic.
use model_lib.Base.{
  ℕ, ◌≢◌, Bool, true, false, Option, some, none, List, get, get_elem?, not, ◌&&◌, if◌then◌else◌,
  length, replicate,
}
use model_lib.Pipeline.Syntax.{
  Ty, Expr, Stmt, Stmts, Program, var, unary, binary, let_in, while, if_else, end, next, Outcome,
  ok, failed, panicked, out_of_fuel, bind, CompileError,
}
use model_lib.Pipeline.Resolver.Defs.{Resolver}
use model_lib.Pipeline.Checker.Defs.{
  SlotTypes, ty_eq, expect_some, slot_at, type_at, check_unary, check_binary, check_expr, set_type,
  check_condition, check_stmt, check_stmts, check, is_equality,
}

-- The stage came to an end, perhaps with an error or a panic.
pub data Ends {ℓ} {A : Type ℓ} : Outcome A → Type ℓ where
  with_value : (a : A) → Ends (ok a)
  with_error : (e : CompileError) → Ends (failed e)
  with_panic : Ends panicked

pub Ends-ne-out_of_fuel {ℓ} : {A : Type ℓ} {r : Outcome A} → Ends r → r ≢ out_of_fuel
Ends-ne-out_of_fuel (with_value a) = cc
Ends-ne-out_of_fuel (with_error e) = cc
Ends-ne-out_of_fuel with_panic = cc

pub Ends-bind {ℓ κ} :
    {A : Type ℓ} {B : Type κ} {r : Outcome A} {f : A → Outcome B}
    → Ends r
    → ((a : A) → Ends (f a))
    → Ends (bind r f)
Ends-bind (with_value a) k = k a
Ends-bind (with_error e) k = with_error e
Ends-bind with_panic k = with_panic

Ends-if {ℓ} :
    {A : Type ℓ} (b : Bool) {x y : Outcome A} → Ends x → Ends y → Ends (if b then x else y)
Ends-if true h k = h
Ends-if false h k = k

expect_some-Ends {ℓ} : {A : Type ℓ} (o : Option A) → Ends (expect_some o)
expect_some-Ends none = with_panic
expect_some-Ends (some a) = with_value a

type_at-Ends : (uses : List (ℕ × ℕ)) (tys : SlotTypes) (pos : ℕ) → Ends (type_at uses tys pos)
unfolding type_at slot_at
type_at-Ends uses tys pos =
    Ends-bind (expect_some-Ends (get pos uses))
      λ slot. Ends-bind (expect_some-Ends (get_elem? tys slot)) λ o. expect_some-Ends o

check_expr-Ends : (uses : List (ℕ × ℕ)) (tys : SlotTypes) (e : Expr) → Ends (check_expr uses tys e)
unfolding check_expr check_unary check_binary
check_expr-Ends uses tys (Expr.int n) = with_value _
check_expr-Ends uses tys (Expr.bool b) = with_value _
check_expr-Ends uses tys (var x pos) = type_at-Ends uses tys pos
check_expr-Ends uses tys (unary op x pos) =
    Ends-bind (check_expr-Ends uses tys x) λ t. Ends-if (ty_eq t _) (with_value _) (with_error _)
check_expr-Ends uses tys (binary op a b pos) = Ends-bind (check_expr-Ends uses tys a) λ ta.
    Ends-bind (check_expr-Ends uses tys b) λ tb.
      Ends-if (is_equality op && not (ty_eq ta tb)) (with_error _)
        (Ends-if (ty_eq ta _ && ty_eq tb _) (with_value _) (with_error _))

check_condition-Ends :
    (uses : List (ℕ × ℕ)) (tys : SlotTypes) (e : Expr) → Ends (check_condition uses tys e)
unfolding check_condition
check_condition-Ends uses tys e =
    Ends-bind (check_expr-Ends uses tys e)
      λ t. Ends-if (ty_eq t Ty.bool) (with_value _) (with_error _)

mutual
  unfolding check_stmt set_type slot_at

  stmt-Ends : (uses : List (ℕ × ℕ)) (s : Stmt) (tys : SlotTypes) → Ends (check_stmt uses s tys)
  stmt-Ends uses (let_in x m init pos) tys = Ends-bind (check_expr-Ends uses tys init) λ t.
      Ends-bind (expect_some-Ends (get pos uses))
        λ slot. Ends-bind (expect_some-Ends (get_elem? tys slot)) λ _. with_value _
  stmt-Ends uses (Stmt.assign x value pos) tys = Ends-bind (check_expr-Ends uses tys value) λ t.
      Ends-bind (type_at-Ends uses tys pos) λ s. Ends-if (ty_eq t s) (with_value _) (with_error _)
  stmt-Ends uses (while cond body) tys =
      Ends-bind (check_condition-Ends uses tys cond) λ _. stmts-Ends uses body tys
  stmt-Ends uses (if_else cond then_body else_body) tys =
      Ends-bind (check_condition-Ends uses tys cond)
        λ _. Ends-bind (stmts-Ends uses then_body tys) λ tys₁. stmts-Ends uses else_body tys₁

  stmts-Ends : (uses : List (ℕ × ℕ)) (ss : Stmts) (tys : SlotTypes) → Ends (check_stmts uses ss tys)
  stmts-Ends uses end tys = with_value tys
  stmts-Ends uses (next s ss) tys = Ends-bind (stmt-Ends uses s tys) λ tys₁. stmts-Ends uses ss tys₁

pub check-Ends : (r : Resolver) (p : Program) → Ends (check r p)
unfolding check
check-Ends r p =
    Ends-bind (stmts-Ends r.uses p.stmts (replicate (length r.slots) none))
      λ tys. Ends-bind (check_expr-Ends r.uses tys p.result) λ t. with_value _
