-- ===== src/Pipeline/Driver/Defs.antt =====
-- The driver of ch01-01-pipeline.rs: `compile`, the stages in a row.
use model_lib.Base.{ℕ, List, length}
use model_lib.Pipeline.Syntax.{Outcome, ok, bind}
use model_lib.Pipeline.Lexer.Defs.{lex}
use model_lib.Pipeline.Parser.Defs.{parse}
use model_lib.Pipeline.Resolver.Defs.{resolve}
use model_lib.Pipeline.Checker.Defs.{check}
use model_lib.Pipeline.Lowerer.Defs.{Op, lower}

pub record Compiled : Type 0 where
  pub code : List Op
  pub nslots : ℕ

unfoldable pub compile : List ℕ → Outcome Compiled
unfolding lex parse resolve check lower
compile src = bind (lex src) λ toks. bind (parse toks) λ program. bind (resolve program) λ res.
    bind (check res program) λ _.
      bind (lower res.uses program) λ code. ok (record { code = code; nslots = length res.slots })
