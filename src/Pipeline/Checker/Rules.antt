-- ===== src/Pipeline/Checker/Rules.antt =====
-- The typing rules of ch01-01-pipeline.rs as derivations. `uses` gives the slot of a position, and a
-- table of types gives the type of each slot that was assigned.
use model_lib.Base.{ℕ, ◌≡◌, Bool, Option, some, List, get, get_elem?, set, Name}
use model_lib.Pipeline.Syntax
use model_lib.Pipeline.Syntax.{
  Ty, BinOp, UnOp, Expr, Stmt, Stmts, Program, var, unary, binary, let_in, while, if_else, end,
  next,
}
use model_lib.Pipeline.Checker.Defs.{SlotTypes}

-- Both operands of an operator have one type, and the result has another: `BinRule op t r`.
abbrev pub BinRule : BinOp → Ty → Ty → Type 0
BinRule BinOp.add t r = (t ≡ Ty.int) × (r ≡ Ty.int)
BinRule BinOp.sub t r = (t ≡ Ty.int) × (r ≡ Ty.int)
BinRule BinOp.mul t r = (t ≡ Ty.int) × (r ≡ Ty.int)
BinRule BinOp.div t r = (t ≡ Ty.int) × (r ≡ Ty.int)
BinRule BinOp.rem t r = (t ≡ Ty.int) × (r ≡ Ty.int)
BinRule BinOp.lt t r = (t ≡ Ty.int) × (r ≡ Ty.bool)
BinRule BinOp.le t r = (t ≡ Ty.int) × (r ≡ Ty.bool)
BinRule BinOp.gt t r = (t ≡ Ty.int) × (r ≡ Ty.bool)
BinRule BinOp.ge t r = (t ≡ Ty.int) × (r ≡ Ty.bool)
BinRule BinOp.and t r = (t ≡ Ty.bool) × (r ≡ Ty.bool)
BinRule BinOp.or t r = (t ≡ Ty.bool) × (r ≡ Ty.bool)
BinRule BinOp.eq t r = r ≡ Ty.bool
BinRule BinOp.ne t r = r ≡ Ty.bool

abbrev pub UnRule : UnOp → Ty → Type 0
UnRule Syntax.neg t = t ≡ Ty.int
UnRule Syntax.not t = t ≡ Ty.bool

pub data HasType (uses : List (ℕ × ℕ)) (tys : SlotTypes) : Expr → Ty → Type 0 where
  int_has : (n : ℕ) → HasType uses tys (Expr.int n) Ty.int
  bool_has : (b : Bool) → HasType uses tys (Expr.bool b) Ty.bool
  var_has :
      (x : Name) (pos slot : ℕ) (t : Ty)
      → get pos uses ≡ some slot
      → get_elem? tys slot ≡ some (some t)
      → HasType uses tys (var x pos) t
  unary_has :
      (op : UnOp) (x : Expr) (pos : ℕ) (t : Ty)
      → UnRule op t
      → HasType uses tys x t
      → HasType uses tys (unary op x pos) t
  binary_has :
      (op : BinOp) (a b : Expr) (pos : ℕ) (t r : Ty)
      → BinRule op t r
      → HasType uses tys a t
      → HasType uses tys b t
      → HasType uses tys (binary op a b pos) r

-- `TypedStmt uses s tys tys'`: the statement is well typed under the first table and leaves the second.
mutual
  pub data TypedStmt (uses : List (ℕ × ℕ)) : Stmt → SlotTypes → SlotTypes → Type 0 where
    let_typed :
        (x : Name) (mutable : Bool) (init : Expr) (pos slot : ℕ) (t : Ty) (old : Option Ty)
        (tys : SlotTypes)
        → HasType uses tys init t
        → get pos uses ≡ some slot
        → get_elem? tys slot ≡ some old
        → TypedStmt uses (let_in x mutable init pos) tys (set tys slot (some t))
    assign_typed :
        (x : Name) (value : Expr) (pos : ℕ) (t : Ty) (tys : SlotTypes)
        → HasType uses tys value t
        → HasType uses tys (var x pos) t
        → TypedStmt uses (Stmt.assign x value pos) tys tys
    while_typed :
        (cond : Expr) (body : Stmts) (tys tys' : SlotTypes)
        → HasType uses tys cond Ty.bool
        → TypedStmts uses body tys tys'
        → TypedStmt uses (while cond body) tys tys'
    if_typed :
        (cond : Expr) (then_body else_body : Stmts) (tys mid tys' : SlotTypes)
        → HasType uses tys cond Ty.bool
        → TypedStmts uses then_body tys mid
        → TypedStmts uses else_body mid tys'
        → TypedStmt uses (if_else cond then_body else_body) tys tys'

  pub data TypedStmts (uses : List (ℕ × ℕ)) : Stmts → SlotTypes → SlotTypes → Type 0 where
    end_typed : (tys : SlotTypes) → TypedStmts uses end tys tys
    next_typed :
        (s : Stmt) (ss : Stmts) (tys mid tys' : SlotTypes)
        → TypedStmt uses s tys mid
        → TypedStmts uses ss mid tys'
        → TypedStmts uses (next s ss) tys tys'

pub data TypedProgram (uses : List (ℕ × ℕ)) (p : Program) (tys tys' : SlotTypes) (t : Ty)
    : Type 0 where
  typed :
      TypedStmts uses p.stmts tys tys'
      → HasType uses tys' p.result t
      → TypedProgram uses p tys tys' t
