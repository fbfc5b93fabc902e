-- ===== src/Pipeline/Examples.antt =====
-- The theorems about ch01-01-pipeline.rs at concrete programs.
use model_lib.Base.{
  ◌↔◌, some, none, ℕ, ◌≡◌, ◌≢◌, refl, true, List, [], ◌∷◌, length, replicate, codes, get, get_name,
  arith,
}
use model_lib.Pipeline.Syntax
use model_lib.Pipeline.Syntax.{
  out_of_fuel, Ty, Tok, Token, Expr, Stmt, Stmts, Program, BinOp, let_in, while, end, next, var,
  unary, binary, Outcome, ok,
}
use model_lib.Pipeline.Outcome.{Settles}
use model_lib.Pipeline.Lexer.Defs.{lex}
use model_lib.Pipeline.Lexer.Spelling.{Lexes}
use model_lib.Pipeline.Lexer.Sound.{InLexer, lex-Settles}
use model_lib.Pipeline.Parser.Defs.{parse, expr}
use model_lib.Pipeline.Parser.Tokens.{InParser}
use model_lib.Pipeline.Parser.Exprs.{TookExpr, expr-Reads}
use model_lib.Pipeline.Parser.Source.{Reads, InFront, read-Settles}
use model_lib.Pipeline.Resolver.Defs.{Resolver, resolve}
use model_lib.Pipeline.Resolver.Invariant.{IsSound, InResolver}
use model_lib.Pipeline.Resolver.Statements.{resolve-Settles}
use model_lib.Pipeline.Checker.Defs.{check}
use model_lib.Pipeline.Checker.Rules.{TypedProgram}
use model_lib.Pipeline.Checker.Statements.{check-iff-TypedProgram}
use model_lib.Pipeline.Lowerer.Defs.{Op, push, load, store, bin, jump, jump_if_false, halt, lower}
use model_lib.Pipeline.Lowerer.Layout.{code_program, slot_of, NotedProgram}
use model_lib.Pipeline.Lowerer.Patch.{lower-eq-layout}
use model_lib.Pipeline.Vm.Defs.{run, panicked}
use model_lib.Pipeline.Driver.Total.{compile-ne-out_of_fuel}
use model_lib.Pipeline.Meaning.Defs.{meaning}
use model_lib.Pipeline.Driver.Defs.{Compiled, compile}
use model_lib.Pipeline.Driver.Agrees.{Agrees}
use model_lib.Pipeline.Driver.Correct.{compile-Agrees, compile-run-ne-panicked}

-- A loop that counts to three.
abbrev counter : List ℕ
counter = codes "let mut i = 0; while i < 3 { i = i + 1; } i"

abbrev counter_program : Program
counter_program = record {
  stmts = next (let_in (codes "i") true (Expr.int 0) 8) (
      next
        (while (binary BinOp.lt (var (codes "i") 21) (Expr.int 3) 23) (
          next (Stmt.assign (codes "i") (binary BinOp.add (var (codes "i") 33) (Expr.int 1) 35) 29)
            end))
        end);
  result = var (codes "i") 42;
}

abbrev counter_uses : List (ℕ × ℕ)
counter_uses = (42, 0) ∷ (29, 0) ∷ (33, 0) ∷ (21, 0) ∷ (8, 0) ∷ []

abbrev counter_code : List Op
counter_code =
    push 0
    ∷ store 0
    ∷ load 0
    ∷ push 3
    ∷ bin BinOp.lt
    ∷ jump_if_false 11
    ∷ load 0
    ∷ push 1
    ∷ bin BinOp.add
    ∷ store 0
    ∷ jump 2
    ∷ load 0
    ∷ halt
    ∷ []

abbrev counter_compiled : Compiled
counter_compiled = record { code = counter_code; nslots = 1 }

counter_compiles : compile counter ≡ ok counter_compiled
unfolding compile get_name
counter_compiles = refl

compile-run-ne-panicked_example : run 1000 counter_code 1 ≢ panicked
compile-run-ne-panicked_example =
    compile-run-ne-panicked counter counter_compiled 1000 counter_compiles

compile-Agrees_example :
    (p : Program) × (r : Resolver) × (Syntax.bind (lex counter) parse ≡ ok p)
    × (resolve p ≡ ok r)
    × ((fuel : ℕ)
        → Agrees fuel
            (meaning (slot_of r.uses) fuel p (replicate (length r.slots) 0))
            (λ f. run f counter_code 1))
compile-Agrees_example = compile-Agrees counter counter_compiled counter_compiles

counter_noted : NotedProgram counter_uses counter_program
unfolding get
counter_noted = (((tt, refl), (((refl, tt), (((refl, tt), refl), tt)), tt)), refl)

lower-eq-layout_example :
    lower counter_uses counter_program ≡ ok (code_program (slot_of counter_uses) counter_program)
lower-eq-layout_example = lower-eq-layout counter_uses counter_program counter_noted

read-Settles_example : Settles (Reads counter) InFront (Syntax.bind (lex counter) parse)
read-Settles_example = read-Settles counter

resolve-Settles_example :
    Settles
      (λ r. IsSound r × NotedProgram r.uses counter_program)
      InResolver
      (resolve counter_program)
resolve-Settles_example = resolve-Settles counter_program

abbrev product_toks : List Token
product_toks =
    record { tok = Tok.bang; pos = 0 }
    ∷ record { tok = Tok.ident (codes "x"); pos = 1 }
    ∷ record { tok = Tok.star; pos = 3 }
    ∷ record { tok = Tok.int 2; pos = 5 }
    ∷ record { tok = Tok.eof; pos = 6 }
    ∷ []

expr-Reads_example : Settles (TookExpr 3 product_toks) InParser (expr 50 3 product_toks)
expr-Reads_example = expr-Reads 50 3 product_toks refl (omega arith) (omega arith)

lex-Settles_example : Settles (Lexes 0 counter) (InLexer (length counter)) (lex counter)
lex-Settles_example = lex-Settles counter

abbrev counter_resolver : Resolver
counter_resolver = record {
  scopes = ((codes "i", 0) ∷ []) ∷ [];
  slots = record { name = codes "i"; mutable = true } ∷ [];
  uses = counter_uses;
}

check-iff-TypedProgram_example :
    (check counter_resolver counter_program ≡ ok (some Ty.int ∷ [], Ty.int))
    ↔ TypedProgram counter_uses counter_program (none ∷ []) (some Ty.int ∷ []) Ty.int
check-iff-TypedProgram_example =
    check-iff-TypedProgram counter_resolver counter_program (some Ty.int ∷ []) Ty.int

compile-ne-out_of_fuel_example : compile counter ≢ out_of_fuel
compile-ne-out_of_fuel_example = compile-ne-out_of_fuel counter
