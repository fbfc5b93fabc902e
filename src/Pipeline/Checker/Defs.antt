-- ===== src/Pipeline/Checker/Defs.antt =====
-- Stage 4 of ch01-01-pipeline.rs: `Checker`, which reads the resolver's table and fills the types of
-- the slots.
use model_lib.Base.{
  ℕ, Bool, true, false, ◌&&◌, not, Option, none, some, List, length, get, get_elem?, set, replicate,
  if◌then◌else◌,
}
use model_lib.Pipeline.Syntax
use model_lib.Pipeline.Syntax.{
  Ty, BinOp, UnOp, Expr, Stmt, Stmts, Program, var, unary, binary, let_in, while, if_else, end,
  next, types, operand_must_be, cannot_compare, needs_operands, cannot_assign,
  condition_must_be_bool, Outcome, ok, panicked, bind, fail,
}
use model_lib.Pipeline.Resolver.Defs.{Resolver}

unfoldable pub ty_eq : Ty → Ty → Bool
ty_eq Ty.int Ty.int = true
ty_eq Ty.bool Ty.bool = true
ty_eq _ _ = false

abbrev pub SlotTypes : Type 0
SlotTypes = List (Option Ty)

-- `expect`, `unwrap` and indexing panic where there is nothing.
abbrev pub expect_some {ℓ} : {A : Type ℓ} → Option A → Outcome A
expect_some none = panicked
expect_some (some a) = ok a

-- `self.res.uses[pos]`
unfoldable pub slot_at : List (ℕ × ℕ) → ℕ → Outcome ℕ
unfolding get
slot_at uses pos = expect_some (get pos uses)

-- `self.slot_ty[self.res.uses[pos]].expect(..)`
unfoldable pub type_at : List (ℕ × ℕ) → SlotTypes → ℕ → Outcome Ty
unfolding slot_at
type_at uses tys pos =
    bind (slot_at uses pos) λ slot. bind (expect_some (get_elem? tys slot)) expect_some

abbrev pub operand_of : UnOp → Ty
operand_of Syntax.neg = Ty.int
operand_of Syntax.not = Ty.bool

unfoldable pub check_unary : UnOp → Ty → ℕ → Outcome Ty
unfolding ty_eq
check_unary op t pos =
    let want = operand_of op in
    if ty_eq t want then ok want else fail types pos (operand_must_be want t)

-- The types of the operands and of the result; `==` and `!=` take the type of the left operand.
abbrev pub signature : BinOp → Ty → Ty × Ty
signature BinOp.add ta = (Ty.int, Ty.int)
signature BinOp.sub ta = (Ty.int, Ty.int)
signature BinOp.mul ta = (Ty.int, Ty.int)
signature BinOp.div ta = (Ty.int, Ty.int)
signature BinOp.rem ta = (Ty.int, Ty.int)
signature BinOp.lt ta = (Ty.int, Ty.bool)
signature BinOp.le ta = (Ty.int, Ty.bool)
signature BinOp.gt ta = (Ty.int, Ty.bool)
signature BinOp.ge ta = (Ty.int, Ty.bool)
signature BinOp.and ta = (Ty.bool, Ty.bool)
signature BinOp.or ta = (Ty.bool, Ty.bool)
signature BinOp.eq ta = (ta, Ty.bool)
signature BinOp.ne ta = (ta, Ty.bool)

abbrev pub is_equality : BinOp → Bool
is_equality BinOp.eq = true
is_equality BinOp.ne = true
is_equality _ = false

unfoldable pub check_binary : BinOp → Ty → Ty → ℕ → Outcome Ty
unfolding ty_eq
check_binary op ta tb pos =
    let (operand, result) = signature op ta in
    if is_equality op && not (ty_eq ta tb)
    then fail types pos (cannot_compare ta tb)
    else if ty_eq ta operand && ty_eq tb operand
    then ok result
    else fail types pos (needs_operands op operand ta tb)

unfoldable pub check_expr : List (ℕ × ℕ) → SlotTypes → Expr → Outcome Ty
unfolding type_at check_unary check_binary
check_expr uses tys (Expr.int n) = ok Ty.int
check_expr uses tys (Expr.bool b) = ok Ty.bool
check_expr uses tys (var x pos) = type_at uses tys pos
check_expr uses tys (unary op x pos) = bind (check_expr uses tys x) λ t. check_unary op t pos
check_expr uses tys (binary op a b pos) =
    bind (check_expr uses tys a) λ ta. bind (check_expr uses tys b) λ tb. check_binary op ta tb pos

-- `self.slot_ty[slot] = Some(t)`
unfoldable pub set_type : SlotTypes → ℕ → Ty → Outcome SlotTypes
set_type tys slot t = bind (expect_some (get_elem? tys slot)) λ _. ok (set tys slot (some t))

unfoldable pub check_condition : List (ℕ × ℕ) → SlotTypes → Expr → Outcome Ty
unfolding check_expr
check_condition uses tys cond =
    bind (check_expr uses tys cond)
      λ t. if ty_eq t Ty.bool then ok t else fail types 0 condition_must_be_bool

unfoldable mutual
  unfolding check_condition set_type

  pub check_stmt : List (ℕ × ℕ) → Stmt → SlotTypes → Outcome SlotTypes
  check_stmt uses (let_in x mutable init pos) tys =
      bind (check_expr uses tys init) λ t. bind (slot_at uses pos) λ slot. set_type tys slot t
  check_stmt uses (Stmt.assign x value pos) tys = bind (check_expr uses tys value) λ t.
      bind (type_at uses tys pos)
        λ slot_t. if ty_eq t slot_t then ok tys else fail types pos (cannot_assign x slot_t t)
  check_stmt uses (while cond body) tys =
      bind (check_condition uses tys cond) λ _. check_stmts uses body tys
  check_stmt uses (if_else cond then_body else_body) tys =
      bind (check_condition uses tys cond)
        λ _. bind (check_stmts uses then_body tys) λ tys₁. check_stmts uses else_body tys₁

  pub check_stmts : List (ℕ × ℕ) → Stmts → SlotTypes → Outcome SlotTypes
  check_stmts uses end tys = ok tys
  check_stmts uses (next s ss) tys = bind (check_stmt uses s tys) λ tys₁. check_stmts uses ss tys₁

-- The checker's calls in `compile`: the types of the slots and of the result.
unfoldable pub check : Resolver → Program → Outcome (SlotTypes × Ty)
unfolding check_stmts
check r p =
    bind (check_stmts r.uses p.stmts (replicate (length r.slots) none))
      λ tys. bind (check_expr r.uses tys p.result) λ t. ok (tys, t)
