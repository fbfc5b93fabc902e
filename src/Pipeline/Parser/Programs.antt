-- ===== src/Pipeline/Parser/Programs.antt =====
-- The program parser of ch01-01-pipeline.rs against the grammar, with its fuel.
use mathlib.Core.Path.{subst}
use model_lib.Base.{
  ℕ, zero, suc, ◌+◌, ◌*◌, ◌<◌, ◌≡◌, refl, ap, sym, ◌∙◌, true, false, List, [], ◌∷◌, ◌++◌, length,
  arith, append_assoc,
}
use model_lib.Pipeline.Syntax
use model_lib.Pipeline.Syntax.{
  Tok, Token, Expr, Stmt, Stmts, Program, let_in, while, if_else, end, next, tok_eq, Outcome, ok,
}
use model_lib.Pipeline.Outcome.{Settles, returns, Settles-bind}
use model_lib.Pipeline.Parser.Defs.{
  Parser, expect, expr, stmt, at_stmt, starts_stmt, before, program, parse,
}
use model_lib.Pipeline.Parser.Grammar.{ProgramAt, result_at, before_at}
use model_lib.Pipeline.Parser.Tokens.{IsEnded, InParser, expect-eof-Settles, token_of}
use model_lib.Pipeline.Parser.Exprs.{Took-shorter, expr-Reads}
use model_lib.Pipeline.Parser.Took.{TookStmt}
use model_lib.Pipeline.Parser.Statements.{Settles-bool, stmt_reads}

starts_of :
    (k : Tok) (p : ℕ) (ts : List Token)
    → IsEnded (token_of k p ∷ ts)
    → Settles {0, 0} (λ _. Unit) InParser (starts_stmt k ts)
starts_of (Tok.ident x) p [] e = absurd (let q : Tok.ident x ≡ Tok.eof = e in cc)
starts_of (Tok.ident x) p (u ∷ ts) e = returns tt
starts_of Tok.kw_let p ts e = returns tt
starts_of Tok.kw_while p ts e = returns tt
starts_of Tok.kw_if p ts e = returns tt
starts_of _ p ts e = returns tt

at_stmt-Settles : (ts : List Token) → IsEnded ts → Settles (λ r. r.1 ≡ ts) InParser (at_stmt ts)
unfolding at_stmt
at_stmt-Settles [] e = absurd e
at_stmt-Settles (t ∷ ts) e = Settles-bind (starts_of t.tok t.pos ts e) λ b _. returns refl

-- The tokens up to the end marker are a program.
pub record TookProgram (ts : List Token) (p : Program) : Type 0 where
  pub used : List Token
  pub rest : List Token
  pub split : ts ≡ used ++ rest
  pub derives : ProgramAt used p

abbrev TookWhole : List Token → Program × List Token → Type 0
TookWhole ts r = TookProgram ts r.0

result_reads :
    (f : ℕ) (ts : List Token)
    → IsEnded ts
    → 8 * length ts + 7 < f
    → Settles (TookWhole ts) InParser (
        Syntax.bind (expr f 0 ts) λ (e, mid).
          Syntax.bind
            (expect Tok.eof "end of program" mid)
            λ (_, rest). ok (record { stmts = end; result = e }, rest))
result_reads f ts e h = Settles-bind (expr-Reads f 0 ts e (omega arith) (omega arith)) λ (r, mid) k.
    Settles-bind (expect-eof-Settles "end of program" mid k.ended) λ _ (t, us, ht, split).
      returns (record {
        used = k.used ++ t ∷ [];
        rest = us;
        split = k.split ∙ ap (λ z. k.used ++ z) split ∙ sym (append_assoc k.used (t ∷ []) us);
        derives = result_at t k.used k.derives ht;
      })

before_reads :
    (f : ℕ) (ts : List Token)
    → Settles (TookStmt ts) InParser (stmt f ts)
    → ((mid : List Token)
        → IsEnded mid
        → length mid < length ts
        → Settles (TookWhole mid) InParser (program f mid))
    → Settles (TookWhole ts) InParser (
        Syntax.bind
          (stmt f ts)
          λ (s, mid). Syntax.bind (program f mid) λ (p, rest). ok (before s p, rest))
before_reads f ts first others = Settles-bind first λ (s, mid) k.
    Settles-bind (others mid k.ended (Took-shorter k)) λ (p, rest) l. returns (record {
      used = k.used ++ l.used;
      rest = l.rest;
      split = k.split ∙ ap (λ z. k.used ++ z) l.split ∙ sym (append_assoc k.used l.used l.rest);
      derives = before_at k.used l.used p k.derives l.derives;
    })

program_reads :
    (f : ℕ) (ts : List Token)
    → IsEnded ts
    → 8 * length ts + 8 < f
    → Settles (TookWhole ts) InParser (program f ts)
unfolding program
program_reads zero ts e h = absurd (omega arith)
program_reads (suc f) ts e h = Settles-bind (at_stmt-Settles ts e) λ (more, ts') same.
    subst
      (λ us. Settles (TookWhole ts) InParser (
        (elim more as (λ _. Parser Program) [
          | true ↦ λ us.
              Syntax.bind (stmt f us)
                λ (s, mid). Syntax.bind (program f mid) λ (p, rest). ok (before s p, rest)
          | false ↦ λ us. Syntax.bind (expr f 0 us) λ (r, mid).
              Syntax.bind (expect Tok.eof "end of program" mid)
                λ (_, rest). ok (record { stmts = end; result = r }, rest)
        ])
          us))
      (sym same)
      (Settles-bool more ts _ _
        (λ _.
          before_reads f ts (stmt_reads f ts e (omega arith))
            (λ mid e' le. program_reads f mid e' (omega arith)))
        (λ _. result_reads f ts e (omega arith)))

-- On tokens that end in the end marker the parser comes to an end: with a program that the tokens up
-- to an end marker derive in the grammar, or with an error of the parser.
pub parse-Settles :
    (toks : List Token) → IsEnded toks → Settles (TookProgram toks) InParser (parse toks)
unfolding parse
parse-Settles toks e =
    Settles-bind (program_reads (8 * length toks + 10) toks e (omega arith))
      λ (p, rest) k. returns k
