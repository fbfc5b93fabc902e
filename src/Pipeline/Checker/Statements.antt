-- ===== src/Pipeline/Checker/Statements.antt =====
-- The checker of ch01-01-pipeline.rs on statements and programs, against the typing rules.
use model_lib.Base.{
  ℕ, ◌≡◌, ◌≢◌, ◌↔◌, refl, sym, Bool, true, inl, inr, Bool-cases, some, none, List, get, get_elem?,
  set, Name, length, replicate, if◌then◌else◌, arith,
}
use mathlib.Core.Path.{subst}
use model_lib.Pipeline.Syntax.{
  Ty, Expr, Stmt, Stmts, Program, var, let_in, while, if_else, end, next, Outcome, ok, bind,
}
use model_lib.Pipeline.Outcome.{bind-eq-ok}
use model_lib.Pipeline.Resolver.Defs.{Resolver}
use model_lib.Pipeline.Checker.Defs.{
  SlotTypes, ty_eq, expect_some, slot_at, type_at, check_expr, set_type, check_condition,
  check_stmt, check_stmts, check,
}
use model_lib.Pipeline.Checker.Rules.{
  HasType, TypedStmt, let_typed, assign_typed, while_typed, if_typed, TypedStmts, end_typed,
  next_typed, TypedProgram, typed,
}
use model_lib.Pipeline.Checker.Sound.{
  ty_eq→eq, expect_some-eq, type_at-var, check_expr-HasType, HasType-check_expr,
}

check_condition-HasType :
    (uses : List (ℕ × ℕ)) (tys : SlotTypes) (cond : Expr) (t : Ty)
    → check_condition uses tys cond ≡ ok t
    → HasType uses tys cond Ty.bool
unfolding check_condition
check_condition-HasType uses tys cond t h =
    let (s, e, k) = bind-eq-ok (check_expr uses tys cond) _ h in
    elim (Bool-cases (ty_eq s Ty.bool)) [
      | inl q ↦
          subst (λ r. HasType uses tys cond r) (ty_eq→eq s Ty.bool q)
            (check_expr-HasType uses tys cond s e)
      | inr q ↦ ground arith
    ]

HasType-check_condition :
    (uses : List (ℕ × ℕ)) (tys : SlotTypes) (cond : Expr)
    → HasType uses tys cond Ty.bool
    → check_condition uses tys cond ≡ ok Ty.bool
unfolding check_condition ty_eq
HasType-check_condition uses tys cond h = rw (HasType-check_expr uses tys h) refl

let_sound :
    (uses : List (ℕ × ℕ)) (x : Name) (m : Bool) (init : Expr) (pos : ℕ) (tys tys' : SlotTypes)
    (t : Ty)
    → HasType uses tys init t
    → bind (slot_at uses pos) (λ slot. set_type tys slot t) ≡ ok tys'
    → TypedStmt uses (let_in x m init pos) tys tys'
unfolding slot_at set_type
let_sound uses x m init pos tys tys' t d h =
    let (slot, e, h₁) = bind-eq-ok (expect_some (get pos uses)) _ h in
    let (old, k, h₂) = bind-eq-ok (expect_some (get_elem? tys slot)) _ h₁ in
    let same : set tys slot (some t) ≡ tys' = cc in
    subst (λ r. TypedStmt uses (let_in x m init pos) tys r) same
      (let_typed x m init pos slot t old tys d (expect_some-eq (get pos uses) slot e)
        (expect_some-eq (get_elem? tys slot) old k))

assign_sound :
    (uses : List (ℕ × ℕ)) (x : Name) (value : Expr) (pos : ℕ) (tys tys' : SlotTypes) (t s : Ty)
    → HasType uses tys value t
    → HasType uses tys (var x pos) s
    → (m : Outcome SlotTypes) → m ≢ ok tys'
    → (if ty_eq t s then ok tys else m) ≡ ok tys'
    → TypedStmt uses (Stmt.assign x value pos) tys tys'
assign_sound uses x value pos tys tys' t s dv dx m h e = elim (Bool-cases (ty_eq t s)) [
  | inl q ↦
      let same : tys ≡ tys' = ground arith in
      subst (λ r. TypedStmt uses (Stmt.assign x value pos) tys r) same
        (assign_typed x value pos t tys dv
          (subst (λ r. HasType uses tys (var x pos) r) (sym (ty_eq→eq t s q)) dx))
  | inr q ↦ ground arith
]

mutual
  unfolding check_stmt

  stmt_typed :
      (uses : List (ℕ × ℕ)) (s : Stmt) (tys tys' : SlotTypes)
      → check_stmt uses s tys ≡ ok tys'
      → TypedStmt uses s tys tys'
  stmt_typed uses (let_in x m init pos) tys tys' h =
      let (t, e, k) = bind-eq-ok (check_expr uses tys init) _ h in
      let_sound uses x m init pos tys tys' t (check_expr-HasType uses tys init t e) k
  stmt_typed uses (Stmt.assign x value pos) tys tys' h =
      let (t, e, h₁) = bind-eq-ok (check_expr uses tys value) _ h in
      let (s, k, h₂) = bind-eq-ok (type_at uses tys pos) _ h₁ in
      assign_sound uses x value pos tys tys' t s (check_expr-HasType uses tys value t e)
        (type_at-var uses tys x pos s k) _ (λ q. cc) h₂
  stmt_typed uses (while cond body) tys tys' h =
      let (t, e, k) = bind-eq-ok (check_condition uses tys cond) _ h in
      while_typed cond body tys tys' (check_condition-HasType uses tys cond t e)
        (stmts_typed uses body tys tys' k)
  stmt_typed uses (if_else cond then_body else_body) tys tys' h =
      let (t, e, h₁) = bind-eq-ok (check_condition uses tys cond) _ h in
      let (mid, k, h₂) = bind-eq-ok (check_stmts uses then_body tys) _ h₁ in
      if_typed cond then_body else_body tys mid tys' (check_condition-HasType uses tys cond t e)
        (stmts_typed uses then_body tys mid k) (stmts_typed uses else_body mid tys' h₂)

  stmts_typed :
      (uses : List (ℕ × ℕ)) (ss : Stmts) (tys tys' : SlotTypes)
      → check_stmts uses ss tys ≡ ok tys'
      → TypedStmts uses ss tys tys'
  stmts_typed uses end tys tys' h =
      let same : tys ≡ tys' = cc in subst (λ r. TypedStmts uses end tys r) same (end_typed tys)
  stmts_typed uses (next s ss) tys tys' h =
      let (mid, e, k) = bind-eq-ok (check_stmt uses s tys) _ h in
      next_typed s ss tys mid tys' (stmt_typed uses s tys mid e) (stmts_typed uses ss mid tys' k)

ty_eq_refl : (t : Ty) → ty_eq t t ≡ true
unfolding ty_eq
ty_eq_refl Ty.int = refl
ty_eq_refl Ty.bool = refl

var_checks :
    (uses : List (ℕ × ℕ)) (tys : SlotTypes) (x : Name) (pos : ℕ) (t : Ty)
    → HasType uses tys (var x pos) t
    → type_at uses tys pos ≡ ok t
unfolding check_expr
var_checks uses tys x pos t d = HasType-check_expr uses tys d

assign_checks :
    (uses : List (ℕ × ℕ)) (x : Name) (value : Expr) (pos : ℕ) (t : Ty) (tys : SlotTypes)
    → HasType uses tys value t
    → HasType uses tys (var x pos) t
    → check_stmt uses (Stmt.assign x value pos) tys ≡ ok tys
unfolding check_stmt
assign_checks uses x value pos t tys d dx =
    let e : type_at uses tys pos ≡ ok t = var_checks uses tys x pos t dx in
    rw (HasType-check_expr uses tys d) (rw e (rw (ty_eq_refl t) refl))

mutual
  unfolding check_stmt slot_at type_at set_type ty_eq

  typed_stmt :
      (uses : List (ℕ × ℕ)) {s : Stmt} {tys tys' : SlotTypes}
      → TypedStmt uses s tys tys'
      → check_stmt uses s tys ≡ ok tys'
  typed_stmt uses (let_typed x m init pos slot t old tys d e k) =
      rw (HasType-check_expr uses tys d) (rw (e, k) refl)
  typed_stmt uses (assign_typed x value pos t tys d dx) = assign_checks uses x value pos t tys d dx
  typed_stmt uses (while_typed cond body tys tys' d ds) =
      rw (HasType-check_condition uses tys cond d) (typed_stmts uses ds)
  typed_stmt uses (if_typed cond then_body else_body tys mid tys' d ds ds') =
      rw (HasType-check_condition uses tys cond d) (rw (typed_stmts uses ds) (typed_stmts uses ds'))

  typed_stmts :
      (uses : List (ℕ × ℕ)) {ss : Stmts} {tys tys' : SlotTypes}
      → TypedStmts uses ss tys tys'
      → check_stmts uses ss tys ≡ ok tys'
  typed_stmts uses (end_typed tys) = refl
  typed_stmts uses (next_typed s ss tys mid tys' d ds) =
      rw (typed_stmt uses d) (typed_stmts uses ds)

check_sound :
    (r : Resolver) (p : Program) (tys : SlotTypes) (t : Ty)
    → check r p ≡ ok (tys, t)
    → TypedProgram r.uses p (replicate (length r.slots) none) tys t
unfolding check
check_sound r p tys t h =
    let start : SlotTypes = replicate (length r.slots) none in
    let (tys₁, e, h₁) = bind-eq-ok (check_stmts r.uses p.stmts start) _ h in
    let (t₁, k, h₂) = bind-eq-ok (check_expr r.uses tys₁ p.result) _ h₁ in
    let same : tys₁ ≡ tys = cc in
    let same_type : t₁ ≡ t = cc in
    subst (λ s. TypedProgram r.uses p start s t) same
      (subst (λ s. TypedProgram r.uses p start tys₁ s) same_type
        (typed (stmts_typed r.uses p.stmts start tys₁ e)
          (check_expr-HasType r.uses tys₁ p.result t₁ k)))

check_complete :
    (r : Resolver) (p : Program) (tys : SlotTypes) (t : Ty)
    → TypedProgram r.uses p (replicate (length r.slots) none) tys t
    → check r p ≡ ok (tys, t)
unfolding check
check_complete r p tys t (typed ds d) =
    rw (typed_stmts r.uses ds) (rw (HasType-check_expr r.uses tys d) refl)

-- The checker accepts a resolved program with a table and a type just where the typing rules derive
-- them, from the table in which no slot has a type.
pub check-iff-TypedProgram :
    (r : Resolver) (p : Program) (tys : SlotTypes) (t : Ty)
    → (check r p ≡ ok (tys, t)) ↔ TypedProgram r.uses p (replicate (length r.slots) none) tys t
unfolding check
check-iff-TypedProgram r p tys t = (check_sound r p tys t, check_complete r p tys t)
