-- ===== src/Pipeline/Parser/Grammar.antt =====
-- The grammar of ch01-01-pipeline.rs, as derivations over tokens: precedence and associativity are
-- written out, and a tree holds the positions of its tokens.
use model_lib.Base.{ℕ, ◌+◌, ◌≡◌, ◌≢◌, Bool, true, false, List, [], ◌∷◌, ◌++◌, Name}
use model_lib.Pipeline.Syntax
use model_lib.Pipeline.Syntax.{
  Tok, Token, BinOp, Expr, Stmt, Stmts, Program, var, unary, binary, let_in, while, if_else, end,
  next,
}

-- The operators, with the level of each: the higher, the tighter.
pub data Operator : ℕ → Tok → BinOp → Type 0 where
  or_op : Operator 0 Tok.or_or BinOp.or
  and_op : Operator 1 Tok.and_and BinOp.and
  eq_op : Operator 2 Tok.eq_eq BinOp.eq
  ne_op : Operator 2 Tok.ne BinOp.ne
  lt_op : Operator 2 Tok.lt BinOp.lt
  le_op : Operator 2 Tok.le BinOp.le
  gt_op : Operator 2 Tok.gt BinOp.gt
  ge_op : Operator 2 Tok.ge BinOp.ge
  add_op : Operator 3 Tok.plus BinOp.add
  sub_op : Operator 3 Tok.minus BinOp.sub
  mul_op : Operator 4 Tok.star BinOp.mul
  div_op : Operator 4 Tok.slash BinOp.div
  rem_op : Operator 4 Tok.percent BinOp.rem

-- `ExprAt level us e`: the tokens `us` are the expression `e` at this level of precedence. Level 5
-- holds the operands; an operator of a level takes a left operand of its own level and a right one of
-- the next, so operators associate to the left.
pub data ExprAt : ℕ → List Token → Expr → Type 0 where
  int_at : (t : Token) (n : ℕ) → t.tok ≡ Tok.int n → ExprAt 5 (t ∷ []) (Expr.int n)
  true_at : (t : Token) → t.tok ≡ Tok.kw_true → ExprAt 5 (t ∷ []) (Expr.bool true)
  false_at : (t : Token) → t.tok ≡ Tok.kw_false → ExprAt 5 (t ∷ []) (Expr.bool false)
  var_at : (t : Token) (x : Name) → t.tok ≡ Tok.ident x → ExprAt 5 (t ∷ []) (var x t.pos)
  neg_at :
      (t : Token) {us : List Token} {e : Expr}
      → t.tok ≡ Tok.minus
      → ExprAt 5 us e
      → ExprAt 5 (t ∷ us) (unary Syntax.neg e t.pos)
  not_at :
      (t : Token) {us : List Token} {e : Expr}
      → t.tok ≡ Tok.bang
      → ExprAt 5 us e
      → ExprAt 5 (t ∷ us) (unary Syntax.not e t.pos)
  paren_at :
      (t u : Token) (us : List Token) {e : Expr}
      → t.tok ≡ Tok.l_paren
      → ExprAt 0 us e
      → u.tok ≡ Tok.r_paren
      → ExprAt 5 (t ∷ (us ++ u ∷ [])) e
  tighter :
      (level : ℕ) {us : List Token} {e : Expr}
      → level ≢ 5
      → ExprAt (level + 1) us e
      → ExprAt level us e
  operator_at :
      (level : ℕ) (t : Token) (op : BinOp) (us vs : List Token) {a b : Expr}
      → Operator level t.tok op
      → ExprAt level us a
      → ExprAt (level + 1) vs b
      → ExprAt level (us ++ (t ∷ vs)) (binary op a b t.pos)

-- The optional `mut`.
pub data MutAt : Bool → List Token → Type 0 where
  mut_at : (t : Token) → t.tok ≡ Tok.kw_mut → MutAt true (t ∷ [])
  no_mut : MutAt false []

mutual
  pub data StmtAt : List Token → Stmt → Type 0 where
    let_at :
        (l x a s : Token) (name : Name) (mutable : Bool) (ms us : List Token) {e : Expr}
        → l.tok ≡ Tok.kw_let
        → MutAt mutable ms
        → x.tok ≡ Tok.ident name
        → a.tok ≡ Tok.assign
        → ExprAt 0 us e
        → s.tok ≡ Tok.semi
        → StmtAt (l ∷ (ms ++ (x ∷ a ∷ (us ++ s ∷ [])))) (let_in name mutable e x.pos)
    assign_at :
        (x a s : Token) (name : Name) (us : List Token) {e : Expr}
        → x.tok ≡ Tok.ident name
        → a.tok ≡ Tok.assign
        → ExprAt 0 us e
        → s.tok ≡ Tok.semi
        → StmtAt (x ∷ a ∷ (us ++ s ∷ [])) (Stmt.assign name e x.pos)
    while_at :
        (w : Token) (us vs : List Token) {c : Expr} {b : Stmts}
        → w.tok ≡ Tok.kw_while
        → ExprAt 0 us c
        → BlockAt vs b
        → StmtAt (w ∷ (us ++ vs)) (while c b)
    if_at :
        (i e : Token) (us vs ws : List Token) {c : Expr} {b d : Stmts}
        → i.tok ≡ Tok.kw_if
        → ExprAt 0 us c
        → BlockAt vs b
        → e.tok ≡ Tok.kw_else
        → BlockAt ws d
        → StmtAt (i ∷ (us ++ (vs ++ (e ∷ ws)))) (if_else c b d)

  -- Statements up to the closing brace.
  pub data BodyAt : List Token → Stmts → Type 0 where
    close_at : (t : Token) → t.tok ≡ Tok.r_brace → BodyAt (t ∷ []) end
    stmt_at :
        (us vs : List Token) {s : Stmt} {ss : Stmts}
        → StmtAt us s
        → BodyAt vs ss
        → BodyAt (us ++ vs) (next s ss)

  pub data BlockAt : List Token → Stmts → Type 0 where
    block_at :
        (t : Token) {us : List Token} {ss : Stmts}
        → t.tok ≡ Tok.l_brace
        → BodyAt us ss
        → BlockAt (t ∷ us) ss

-- A program up to the end marker.
pub data ProgramAt : List Token → Program → Type 0 where
  result_at :
      (t : Token) (us : List Token) {e : Expr}
      → ExprAt 0 us e
      → t.tok ≡ Tok.eof
      → ProgramAt (us ++ t ∷ []) (record { stmts = end; result = e })
  before_at :
      (us vs : List Token) {s : Stmt} (p : Program)
      → StmtAt us s
      → ProgramAt vs p
      → ProgramAt (us ++ vs) (record { stmts = next s p.stmts; result = p.result })
