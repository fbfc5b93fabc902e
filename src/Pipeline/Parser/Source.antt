-- ===== src/Pipeline/Parser/Source.antt =====
-- Stages 1 and 2 of ch01-01-pipeline.rs put together: the parser on what the lexer gives it.
use model_lib.Base.{ℕ, List, [], ◌∷◌, refl, ◌≡◌, ◌⊎◌, inl, inr}
use model_lib.Pipeline.Syntax
use model_lib.Pipeline.Syntax.{Token, Program, CompileError, lexer, parser, Outcome}
use model_lib.Pipeline.Outcome.{Settles, Settles-bind, Settles-map, Settles-raise}
use model_lib.Pipeline.Lexer.Defs.{lex}
use model_lib.Pipeline.Lexer.Spelling.{Lexes, finish, blank, token}
use model_lib.Pipeline.Lexer.Sound.{lex-Settles}
use model_lib.Pipeline.Parser.Defs.{parse}
use model_lib.Pipeline.Parser.Tokens.{IsEnded}
use model_lib.Pipeline.Parser.Programs.{TookProgram, parse-Settles}

IsEnded-push : (t : Token) (ts : List Token) → IsEnded ts → IsEnded (t ∷ ts)
IsEnded-push t [] e = absurd e
IsEnded-push t (u ∷ ts) e = e

pub Lexes-IsEnded : {i : ℕ} {b : List ℕ} {ts : List Token} → Lexes i b ts → IsEnded ts
Lexes-IsEnded (finish i) = refl
Lexes-IsEnded (blank i c h l) = Lexes-IsEnded l
Lexes-IsEnded (token i t w {ts = ts} h pos s l) =
    IsEnded-push (record { tok = t; pos = i }) ts (Lexes-IsEnded l)

-- The source spells tokens that derive the program in the grammar.
pub record Reads (src : List ℕ) (p : Program) : Type 0 where
  pub toks : List Token
  pub spelled : Lexes 0 src toks
  pub parsed : TookProgram toks p

abbrev pub InFront : CompileError → Type 0
InFront e = (e.stage ≡ lexer) ⊎ (e.stage ≡ parser)

-- On any bytes `lex` and then `parse` come to an end, without a panic: with a program such that the
-- bytes spell tokens that derive it, or with an error of the lexer or of the parser.
pub read-Settles : (src : List ℕ) → Settles (Reads src) InFront (Syntax.bind (lex src) parse)
read-Settles src = Settles-bind (Settles-raise (lex-Settles src) (λ _ h. inl h.0)) λ toks l.
    Settles-map (Settles-raise (parse-Settles toks (Lexes-IsEnded l)) (λ _ h. inr h))
      λ p k. record { toks = toks; spelled = l; parsed = k }
