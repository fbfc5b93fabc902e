-- ===== src/Pipeline/Syntax.antt =====
-- The data that the stages of ch01-01-pipeline.rs hand on: tokens, syntax trees, errors, and the
-- outcome of a stage.
use Prim.Native.String.{String}
use model_lib.Base.{ℕ, Bool, ◌&&◌, ◌==◌, Name, name_eq, []}

pub data Tok : Type 0 where
  int : ℕ → Tok
  ident : Name → Tok
  kw_let kw_mut kw_while kw_if kw_else kw_true kw_false : Tok
  plus minus star slash percent : Tok
  lt le gt ge eq_eq ne assign and_and or_or bang : Tok
  semi l_brace r_brace l_paren r_paren : Tok
  eof : Tok

-- The derived equality of tokens: the constructors first, then what they hold.
abbrev pub tag : Tok → ℕ
tag (int n) = 0
tag (ident x) = 1
tag kw_let = 2
tag kw_mut = 3
tag kw_while = 4
tag kw_if = 5
tag kw_else = 6
tag kw_true = 7
tag kw_false = 8
tag plus = 9
tag minus = 10
tag star = 11
tag slash = 12
tag percent = 13
tag lt = 14
tag le = 15
tag gt = 16
tag ge = 17
tag eq_eq = 18
tag ne = 19
tag assign = 20
tag and_and = 21
tag or_or = 22
tag bang = 23
tag semi = 24
tag l_brace = 25
tag r_brace = 26
tag l_paren = 27
tag r_paren = 28
tag eof = 29

abbrev number_of : Tok → ℕ
number_of (int n) = n
number_of _ = 0

abbrev text_of : Tok → Name
text_of (ident x) = x
text_of _ = []

unfoldable pub tok_eq : Tok → Tok → Bool
unfolding name_eq
tok_eq a b = tag a == tag b && (number_of a == number_of b && name_eq (text_of a) (text_of b))

pub record Token : Type 0 where
  pub tok : Tok
  pub pos : ℕ

pub data BinOp : Type 0 where
  add sub mul div rem lt le gt ge eq ne and or : BinOp

pub data UnOp : Type 0 where
  neg not : UnOp

pub data Expr : Type 0 where
  int : ℕ → Expr
  bool : Bool → Expr
  var : Name → ℕ → Expr
  unary : UnOp → Expr → ℕ → Expr
  binary : BinOp → Expr → Expr → ℕ → Expr

-- `Stmts` is the source's `Vec<Stmt>`.
mutual
  pub data Stmt : Type 0 where
    let_in : Name → Bool → Expr → ℕ → Stmt
    assign : Name → Expr → ℕ → Stmt
    while : Expr → Stmts → Stmt
    if_else : Expr → Stmts → Stmts → Stmt

  pub data Stmts : Type 0 where
    end : Stmts
    next : Stmt → Stmts → Stmts

pub record Program : Type 0 where
  pub stmts : Stmts
  pub result : Expr

pub data Ty : Type 0 where
  int bool : Ty

pub data Stage : Type 0 where
  lexer parser resolver types : Stage

-- One constructor for each text that the stages format.
pub data Message : Type 0 where
  literal_too_large : Message
  unexpected_character : ℕ → Message
  expected : String → Tok → Message
  cannot_find : Name → Message
  assign_twice : Name → Message
  operand_must_be : Ty → Ty → Message
  cannot_compare : Ty → Ty → Message
  needs_operands : BinOp → Ty → Ty → Ty → Message
  cannot_assign : Name → Ty → Ty → Message
  condition_must_be_bool : Message

pub record CompileError : Type 0 where
  pub stage : Stage
  pub pos : ℕ
  pub msg : Message

-- `panicked` is an index out of range or an `unwrap` of nothing; `out_of_fuel` has no counterpart
-- in the program.
pub data Outcome {ℓ} (A : Type ℓ) : Type ℓ where
  ok : A → Outcome A
  failed : CompileError → Outcome A
  panicked out_of_fuel : Outcome A

abbrev pub bind {ℓ κ} : {A : Type ℓ} {B : Type κ} → Outcome A → (A → Outcome B) → Outcome B
bind (ok a) f = f a
bind (failed e) f = failed e
bind panicked f = panicked
bind out_of_fuel f = out_of_fuel

abbrev pub fail {ℓ} : {A : Type ℓ} → Stage → ℕ → Message → Outcome A
fail s p m = failed (record { stage = s; pos = p; msg = m })
