-- ===== src/Pipeline/Driver/Total.antt =====
-- How `compile` of ch01-01-pipeline.rs ends.
use model_lib.Base.{ℕ, ◌≢◌, List}
use model_lib.Pipeline.Syntax.{Outcome, out_of_fuel, bind, CompileError}
use model_lib.Pipeline.Outcome.{Settles, returns, raises}
use model_lib.Pipeline.Checker.Ends.{
  Ends, with_value, with_error, Ends-bind, Ends-ne-out_of_fuel, check-Ends,
}
use model_lib.Pipeline.Lexer.Sound.{lex-Settles}
use model_lib.Pipeline.Parser.Programs.{parse-Settles}
use model_lib.Pipeline.Parser.Source.{Lexes-IsEnded}
use model_lib.Pipeline.Resolver.Statements.{resolve-Settles}
use model_lib.Pipeline.Lowerer.Patch.{lower-eq-layout}
use model_lib.Pipeline.Driver.Defs.{compile}

-- A stage that settles, and what follows it.
Settles-Ends {ℓ κ ℓ'} :
    {A : Type ℓ} {B : Type ℓ'} {P : A → Type κ} {E : CompileError → Type 0} {r : Outcome A}
    {f : A → Outcome B}
    → Settles P E r
    → ((a : A) → P a → Ends (f a))
    → Ends (bind r f)
Settles-Ends (returns {a} h) k = k a h
Settles-Ends (raises {e} h) k = with_error e

-- On any bytes `compile` comes to an end within the fuel of the lexer and of the parser.
pub compile-ne-out_of_fuel : (src : List ℕ) → compile src ≢ out_of_fuel
unfolding compile
compile-ne-out_of_fuel src = Ends-ne-out_of_fuel (
    Settles-Ends (lex-Settles src) λ toks l.
      Settles-Ends (parse-Settles toks (Lexes-IsEnded l)) λ p _.
        Settles-Ends (resolve-Settles p) λ r (_, noted).
          Ends-bind (check-Ends r p) λ _. rw (lower-eq-layout r.uses p noted) (with_value _))
