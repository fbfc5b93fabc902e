-- ===== src/Pipeline/Meaning/Defs.antt =====
-- A reference semantics for the syntax trees of ch01-01-pipeline.rs, which the source does not have:
-- an evaluator over the tree, with no code, stack or jumps. `ρ` gives the slot of a name's position,
-- a state is the values of the slots, and `fuel` bounds the rounds of each loop.
use Prim.Native.Nat.{◌-◌, ◌*◌, ◌/◌, ◌%◌, ◌^◌}
use model_lib.Base.{
  ℕ, zero, suc, ◌+◌, ltb, Option, none, some, List, get_elem?, set, ◌==◌, if◌then◌else◌, as_word,
}
use model_lib.Pipeline.Syntax
use model_lib.Pipeline.Syntax.{
  BinOp, UnOp, Expr, Stmt, Stmts, Program, var, unary, binary, let_in, while, if_else, end, next,
}

-- `stuck` is a slot out of range.
pub data Answer (A : Type 0) : Type 0 where
  value : A → Answer A
  div_by_zero stuck out_of_fuel : Answer A

abbrev pub bind : {A B : Type 0} → Answer A → (A → Answer B) → Answer B
bind (value a) f = f a
bind div_by_zero f = div_by_zero
bind stuck f = stuck
bind out_of_fuel f = out_of_fuel

abbrev pub of_option : Option ℕ → Answer ℕ
of_option none = stuck
of_option (some v) = value v

-- The operators, written out over the bit patterns of 64-bit numbers in two's complement. A quotient is rounded
-- towards zero, and a remainder has the sign of the dividend.
abbrev pub opposite : ℕ → ℕ
opposite a = (2 ^ 64 - a) % 2 ^ 64

abbrev pub quotient : ℕ → ℕ → ℕ
quotient a b =
    if ltb a (2 ^ 63)
    then if ltb b (2 ^ 63) then a / b % 2 ^ 64 else opposite (a / (2 ^ 64 - b))
    else if ltb b (2 ^ 63)
    then opposite ((2 ^ 64 - a) / b)
    else (2 ^ 64 - a) / (2 ^ 64 - b) % 2 ^ 64

abbrev pub remainder : ℕ → ℕ → ℕ
remainder a b =
    let d = if ltb b (2 ^ 63) then b else 2 ^ 64 - b in
    if ltb a (2 ^ 63) then a % d % 2 ^ 64 else opposite ((2 ^ 64 - a) % d)

-- The signed order is the order of the patterns moved by 2 ^ 63, so that the negative ones come first.
abbrev pub shifted : ℕ → ℕ
shifted a = (a + 2 ^ 63) % 2 ^ 64

abbrev pub operation : BinOp → ℕ → ℕ → Answer ℕ
operation BinOp.add v w = value ((v + w) % 2 ^ 64)
operation BinOp.sub v w = value ((v + 2 ^ 64 - w) % 2 ^ 64)
operation BinOp.mul v w = value (v * w % 2 ^ 64)
operation BinOp.div v w = if w == 0 then div_by_zero else value (quotient v w)
operation BinOp.rem v w = if w == 0 then div_by_zero else value (remainder v w)
operation BinOp.lt v w = value (if ltb (shifted v) (shifted w) then 1 else 0)
operation BinOp.le v w = value (if ltb (shifted w) (shifted v) then 0 else 1)
operation BinOp.gt v w = value (if ltb (shifted w) (shifted v) then 1 else 0)
operation BinOp.ge v w = value (if ltb (shifted v) (shifted w) then 0 else 1)
operation BinOp.eq v w = value (if v == w then 1 else 0)
operation BinOp.ne v w = value (if v == w then 0 else 1)
operation BinOp.and v w = stuck
operation BinOp.or v w = stuck

abbrev pub eval_unary : UnOp → ℕ → ℕ
eval_unary Syntax.neg v = opposite v
eval_unary Syntax.not v = if v == 0 then 1 else 0

unfoldable pub eval : (ℕ → ℕ) → Expr → List ℕ → Answer ℕ
eval ρ (Expr.int n) σ = value n
eval ρ (Expr.bool b) σ = value (as_word b)
eval ρ (var x pos) σ = of_option (get_elem? σ (ρ pos))
eval ρ (unary op x pos) σ = bind (eval ρ x σ) λ v. value (eval_unary op v)
eval ρ (binary BinOp.and a b pos) σ = bind (eval ρ a σ) λ v. if v == 0 then value 0 else eval ρ b σ
eval ρ (binary BinOp.or a b pos) σ = bind (eval ρ a σ) λ v. if v == 0 then eval ρ b σ else value 1
eval ρ (binary op a b pos) σ = bind (eval ρ a σ) λ v. bind (eval ρ b σ) λ w. operation op v w

abbrev pub assign_slot : Option ℕ → ℕ → ℕ → List ℕ → Answer (List ℕ)
assign_slot none slot v σ = stuck
assign_slot (some old) slot v σ = value (set σ slot v)

unfoldable pub loop :
    ℕ → (List ℕ → Answer ℕ) → (List ℕ → Answer (List ℕ)) → List ℕ → Answer (List ℕ)
loop zero test body σ = out_of_fuel
loop (suc f) test body σ =
    bind (test σ) λ v. if v == 0 then value σ else bind (body σ) (λ σ'. loop f test body σ')

unfoldable mutual
  unfolding eval loop

  pub exec : (ℕ → ℕ) → ℕ → Stmt → List ℕ → Answer (List ℕ)
  exec ρ fuel (let_in x mutable v pos) σ =
      bind (eval ρ v σ) λ w. assign_slot (get_elem? σ (ρ pos)) (ρ pos) w σ
  exec ρ fuel (Stmt.assign x v pos) σ =
      bind (eval ρ v σ) λ w. assign_slot (get_elem? σ (ρ pos)) (ρ pos) w σ
  exec ρ fuel (while cond body) σ = loop fuel (eval ρ cond) (exec_all ρ fuel body) σ
  exec ρ fuel (if_else cond then_body else_body) σ =
      bind (eval ρ cond σ)
        λ v. if v == 0 then exec_all ρ fuel else_body σ else exec_all ρ fuel then_body σ

  pub exec_all : (ℕ → ℕ) → ℕ → Stmts → List ℕ → Answer (List ℕ)
  exec_all ρ fuel end σ = value σ
  exec_all ρ fuel (next s ss) σ = bind (exec ρ fuel s σ) λ σ'. exec_all ρ fuel ss σ'

unfoldable pub meaning : (ℕ → ℕ) → ℕ → Program → List ℕ → Answer ℕ
unfolding exec
meaning ρ fuel p σ = bind (exec_all ρ fuel p.stmts σ) λ σ'. eval ρ p.result σ'
