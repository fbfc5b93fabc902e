-- ===== src/Pipeline/Parser/Defs.antt =====
-- Stage 2 of ch01-01-pipeline.rs: `Parser`, from tokens to the syntax tree. The parser's state is
-- the tokens from `self.at` on. Each call costs a unit of fuel, since what a call leaves is no
-- structural part of its input.
use Prim.Native.String.{String}
use model_lib.Base.{
  ℕ, zero, suc, ◌+◌, ◌*◌, Bool, true, false, Option, none, some, List, [], ◌∷◌, ◌==◌, if◌then◌else◌,
  length, Name,
}
use model_lib.Pipeline.Syntax
use model_lib.Pipeline.Syntax.{
  Tok, Token, tok_eq, BinOp, Expr, Stmt, Stmts, Program, let_in, while, if_else, end, next, unary,
  binary, var, parser, expected, Outcome, ok, panicked, out_of_fuel, fail,
}

abbrev pub Parser {ℓ} : Type ℓ → Type ℓ
Parser A = List Token → Outcome (A × List Token)

abbrev pub pure {ℓ} : {A : Type ℓ} → A → Parser A
pure a ts = ok (a, ts)

abbrev pub reject {ℓ} : {A : Type ℓ} → String → Token → Parser A
reject what t ts = fail parser t.pos (expected what t.tok)

module _ {ℓ κ} {A : Type ℓ} {B : Type κ} where
  infixl 1 ◌>>=◌ ◌>>◌
  abbrev pub ◌>>=◌ : Parser A → (A → Parser B) → Parser B
  p >>= f = λ ts. Syntax.bind (p ts) λ (a, rest). f a rest

  abbrev pub ◌>>◌ : Parser A → Parser B → Parser B
  p >> q = p >>= λ _. q

-- Binary operators by precedence level: 0 is `||`, the loosest, 4 is `* / %`, the tightest.
unfoldable pub binop_of : Tok → Option (ℕ × BinOp)
binop_of Tok.or_or = some (0, BinOp.or)
binop_of Tok.and_and = some (1, BinOp.and)
binop_of Tok.eq_eq = some (2, BinOp.eq)
binop_of Tok.ne = some (2, BinOp.ne)
binop_of Tok.lt = some (2, BinOp.lt)
binop_of Tok.le = some (2, BinOp.le)
binop_of Tok.gt = some (2, BinOp.gt)
binop_of Tok.ge = some (2, BinOp.ge)
binop_of Tok.plus = some (3, BinOp.add)
binop_of Tok.minus = some (3, BinOp.sub)
binop_of Tok.star = some (4, BinOp.mul)
binop_of Tok.slash = some (4, BinOp.div)
binop_of Tok.percent = some (4, BinOp.rem)
binop_of _ = none

unfoldable pub peek : Parser Token
peek [] = panicked
peek (t ∷ ts) = ok (t, t ∷ ts)

-- The end marker is never consumed.
unfoldable pub bump : Parser Token
unfolding tok_eq
bump [] = panicked
bump (t ∷ ts) = if tok_eq t.tok Tok.eof then ok (t, t ∷ ts) else ok (t, ts)

unfoldable pub expect : Tok → String → Parser Token
unfolding peek bump
expect want what = do t ← peek; if tok_eq t.tok want then bump else reject what t

abbrev pub name_of : Token → Tok → Parser (Name × ℕ)
name_of t (Tok.ident x) = pure (x, t.pos)
name_of t other = reject "a name" t

unfoldable pub ident : Parser (Name × ℕ)
unfolding bump
ident = do t ← bump; name_of t t.tok

unfoldable pub fits : ℕ → Option (ℕ × BinOp) → Option BinOp
fits level none = none
fits level (some (l, op)) = if l == level then some op else none

-- `expr` climbs through the levels; `climb` is the loop over the operators of one level; `unary`
-- reads an operand. `atom` is the match of `unary` on the token that it has consumed.
unfoldable mutual
  unfolding peek bump expect

  pub expr : ℕ → ℕ → Parser Expr
  expr zero level = λ ts. out_of_fuel
  expr (suc f) level = elim (level == 5) [
    | true ↦ operand f
    | false ↦ do lhs ← expr f (level + 1); climb f level lhs
  ]

  pub climb : ℕ → ℕ → Expr → Parser Expr
  climb zero level lhs = λ ts. out_of_fuel
  climb (suc f) level lhs = do
    t ← peek
    elim (fits level (binop_of t.tok)) [
      | none ↦ pure lhs
      | some op ↦ do o ← bump; rhs ← expr f (level + 1); climb f level (binary op lhs rhs o.pos)
    ]

  pub operand : ℕ → Parser Expr
  operand zero = λ ts. out_of_fuel
  operand (suc f) = do
    t ← bump
    elim t.tok [
      | Tok.minus ↦ do x ← operand f; pure (unary Syntax.neg x t.pos)
      | Tok.bang ↦ do x ← operand f; pure (unary Syntax.not x t.pos)
      | Tok.int n ↦ pure (Expr.int n)
      | Tok.kw_true ↦ pure (Expr.bool true)
      | Tok.kw_false ↦ pure (Expr.bool false)
      | Tok.ident x ↦ pure (var x t.pos)
      | Tok.l_paren ↦ do e ← expr f 0; expect Tok.r_paren "`)`"; pure e
      | _ ↦ reject "an expression" t
    ]

-- `if mutable { self.bump(); }` and the test before it.
unfoldable pub eat_mut : Parser Bool
unfolding peek bump
eat_mut = do t ← peek; if tok_eq t.tok Tok.kw_mut then bump >> pure true else pure false

-- `body` is the loop of `block` up to the closing brace.
unfoldable mutual
  unfolding peek bump expect ident eat_mut expr

  pub block : ℕ → Parser Stmts
  block zero = λ ts. out_of_fuel
  block (suc f) = do expect Tok.l_brace "`{`"; body f

  pub body : ℕ → Parser Stmts
  body zero = λ ts. out_of_fuel
  body (suc f) = do
    t ← peek
    elim (tok_eq t.tok Tok.r_brace) [
      | true ↦ bump >> pure end
      | false ↦ do s ← stmt f; ss ← body f; pure (next s ss)
    ]

  pub stmt : ℕ → Parser Stmt
  stmt zero = λ ts. out_of_fuel
  stmt (suc f) = do
    t ← peek
    elim t.tok [
      | Tok.kw_let ↦ do
        bump
        mutable ← eat_mut
        (name, pos) ← ident
        expect Tok.assign "`=`"
        init ← expr f 0
        expect Tok.semi "`;`"
        pure (let_in name mutable init pos)
      | Tok.kw_while ↦ do bump; cond ← expr f 0; b ← block f; pure (while cond b)
      | Tok.kw_if ↦ do
        bump
        cond ← expr f 0
        then_body ← block f
        expect Tok.kw_else "`else`"
        else_body ← block f
        pure (if_else cond then_body else_body)
      | _ ↦ do
        (name, pos) ← ident
        expect Tok.assign "`=`"
        value ← expr f 0
        expect Tok.semi "`;`"
        pure (Stmt.assign name value pos)
    ]

abbrev pub second_is_assign : List Token → Outcome Bool
second_is_assign [] = panicked
second_is_assign (u ∷ rest) = ok (tok_eq u.tok Tok.assign)

abbrev pub starts_stmt : Tok → List Token → Outcome Bool
starts_stmt Tok.kw_let ts = ok true
starts_stmt Tok.kw_while ts = ok true
starts_stmt Tok.kw_if ts = ok true
starts_stmt (Tok.ident x) ts = second_is_assign ts
starts_stmt _ ts = ok false

-- The arms of `program`'s match that read a statement; `self.toks[self.at + 1]` may be out of range.
unfoldable pub at_stmt : Parser Bool
unfolding tok_eq
at_stmt [] = panicked
at_stmt (t ∷ ts) = Syntax.bind (starts_stmt t.tok ts) λ b. ok (b, t ∷ ts)

abbrev pub before : Stmt → Program → Program
before s p = record { stmts = next s p.stmts; result = p.result }

unfoldable pub program : ℕ → Parser Program
unfolding at_stmt stmt
program zero = λ ts. out_of_fuel
program (suc f) = do
  more ← at_stmt
  elim more [
    | true ↦ do s ← stmt f; p ← program f; pure (before s p)
    | false ↦ do
      result ← expr f 0
      expect Tok.eof "end of program"
      pure (record { stmts = end; result = result })
  ]

-- `Parser { toks, at: 0 }.program()`, with fuel for any input of this length.
unfoldable pub parse : List Token → Outcome Program
unfolding program binop_of fits
parse toks = Syntax.bind (program (8 * length toks + 10) toks) λ (p, rest). ok p
