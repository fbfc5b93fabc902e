-- ===== src/Pipeline/Parser/Tokens.antt =====
-- The parser of ch01-01-pipeline.rs on single tokens: what `bump`, `expect` and `ident` consume.
use model_lib.Base.{
  ℕ, ◌≤◌, ◌≡◌, ◌≢◌, refl, ap, sym, ◌∙◌, true, false, inl, inr, Bool-cases, List, [], ◌∷◌, ◌==◌,
  if◌then◌else◌, Name, arith,
}
use Prim.Native.String.{String}
use model_lib.Pipeline.Syntax.{Tok, Token, tag, tok_eq, parser, CompileError, ok}
use model_lib.Pipeline.Outcome.{Settles, returns, raises}
use model_lib.Pipeline.Parser.Defs.{bump, expect, ident}

-- A stream of tokens with the end marker in the last place.
abbrev pub IsEnded : List Token → Type 0
IsEnded [] = ⊥
IsEnded (t ∷ []) = t.tok ≡ Tok.eof
IsEnded (t ∷ (u ∷ ts)) = IsEnded (u ∷ ts)

abbrev pub InParser : CompileError → Type 0
InParser e = e.stage ≡ parser

abbrev untag : ℕ → Tok
untag n =
    if n == 2
    then Tok.kw_let
    else if n == 3
    then Tok.kw_mut
    else if n == 4
    then Tok.kw_while
    else if n == 5
    then Tok.kw_if
    else if n == 6
    then Tok.kw_else
    else if n == 7
    then Tok.kw_true
    else if n == 8
    then Tok.kw_false
    else if n == 9
    then Tok.plus
    else if n == 10
    then Tok.minus
    else if n == 11
    then Tok.star
    else if n == 12
    then Tok.slash
    else if n == 13
    then Tok.percent
    else if n == 14
    then Tok.lt
    else if n == 15
    then Tok.le
    else if n == 16
    then Tok.gt
    else if n == 17
    then Tok.ge
    else if n == 18
    then Tok.eq_eq
    else if n == 19
    then Tok.ne
    else if n == 20
    then Tok.assign
    else if n == 21
    then Tok.and_and
    else if n == 22
    then Tok.or_or
    else if n == 23
    then Tok.bang
    else if n == 24
    then Tok.semi
    else if n == 25
    then Tok.l_brace
    else if n == 26
    then Tok.r_brace
    else if n == 27
    then Tok.l_paren
    else if n == 28
    then Tok.r_paren
    else Tok.eof

untag-tag : (t : Tok) → 2 ≤ tag t → untag (tag t) ≡ t
untag-tag (Tok.int n) h = absurd (omega arith)
untag-tag (Tok.ident x) h = absurd (omega arith)
untag-tag _ h = refl

-- Equality with a token that holds nothing.
pub tok_eq→eq : (a b : Tok) → 2 ≤ tag b → tok_eq a b ≡ true → a ≡ b
unfolding tok_eq
tok_eq→eq a b h e =
    let same : tag a ≡ tag b = ground arith in
    sym (untag-tag a (omega arith)) ∙ ap untag same ∙ untag-tag b h

pub IsEnded-tail : (t : Token) (ts : List Token) → t.tok ≢ Tok.eof → IsEnded (t ∷ ts) → IsEnded ts
IsEnded-tail t [] h e = absurd (h e)
IsEnded-tail t (u ∷ ts) h e = e

-- One token taken off the front.
abbrev pub Takes : List Token → Token → List Token → Type 0
Takes ts t rest = (ts ≡ t ∷ rest) × IsEnded rest

pub bump-eq :
    (t : Token) (ts : List Token) → tok_eq t.tok Tok.eof ≡ false → bump (t ∷ ts) ≡ ok (t, ts)
unfolding bump
bump-eq t ts h = rw (h, bump)

pub tok_eq-other :
    (a b c : Tok) → 2 ≤ tag b → tag b ≢ tag c → tok_eq a b ≡ true → tok_eq a c ≡ false
unfolding tok_eq
tok_eq-other a b c h d e = ground arith

pub ne_eof : (a : Tok) → tok_eq a Tok.eof ≡ false → a ≢ Tok.eof
unfolding tok_eq
ne_eof a h q = let h' : tok_eq Tok.eof Tok.eof ≡ false = rw q at h in cc

pub expect-Settles :
    (want : Tok) (what : String) (ts : List Token)
    → IsEnded ts
    → 2 ≤ tag want
    → tag want ≢ 29
    → Settles (λ r. (r.0.tok ≡ want) × Takes ts r.0 r.1) InParser (expect want what ts)
unfolding expect
expect-Settles want what [] e h d = absurd e
expect-Settles want what (t ∷ ts) e h d = elim (Bool-cases (tok_eq t.tok want)) [
  | inl k ↦
      let other = tok_eq-other t.tok want Tok.eof h d k in
      rw (k, expect)
        (rw (other, bump)
          (returns (tok_eq→eq t.tok want h k, (refl, IsEnded-tail t ts (ne_eof t.tok other) e))))
  | inr k ↦ rw (k, expect) (raises refl)
]

-- A name taken off the front; the position is that of its token.
abbrev pub TakesName : List Token → (Name × ℕ) × List Token → Type 0
TakesName ts r = (t : Token) × (t.tok ≡ Tok.ident (r.0.0)) × (t.pos ≡ r.0.1) × Takes ts t r.1

-- A token from its parts, for lemmas by clauses on the kind.
abbrev pub token_of : Tok → ℕ → Token
token_of k p = record { tok = k; pos = p }

ident_of :
    (k : Tok) (p : ℕ) (ts : List Token)
    → IsEnded (token_of k p ∷ ts)
    → Settles (TakesName (token_of k p ∷ ts)) InParser (ident (token_of k p ∷ ts))
unfolding ident
ident_of (Tok.ident x) p ts e = returns (
  token_of (Tok.ident x) p,
  refl,
  refl,
  (refl, IsEnded-tail (token_of (Tok.ident x) p) ts (λ q. cc) e),
)
ident_of Tok.eof p ts e = raises refl
ident_of _ p ts e = raises refl

pub ident-Settles : (ts : List Token) → IsEnded ts → Settles (TakesName ts) InParser (ident ts)
ident-Settles [] e = absurd e
ident-Settles (t ∷ ts) e = ident_of t.tok t.pos ts e

-- The end of the program, which stays where it is.
pub expect-eof-Settles :
    (what : String) (ts : List Token)
    → IsEnded ts
    → Settles
        (λ r. (t : Token) × (us : List Token) × (t.tok ≡ Tok.eof) × (ts ≡ t ∷ us))
        InParser
        (expect Tok.eof what ts)
unfolding expect
expect-eof-Settles what [] e = absurd e
expect-eof-Settles what (t ∷ ts) e = elim (Bool-cases (tok_eq t.tok Tok.eof)) [
  | inl k ↦
      rw (k, expect) (rw (k, bump) (returns (t, ts, tok_eq→eq t.tok Tok.eof (omega arith) k, refl)))
  | inr k ↦ rw (k, expect) (raises refl)
]
