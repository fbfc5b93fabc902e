-- ===== src/Pipeline/Parser/Statements.antt =====
-- The statement parser of ch01-01-pipeline.rs against the grammar, with its fuel.
use mathlib.Core.Path.{subst}
use model_lib.Base.{
  ℕ, zero, suc, ◌+◌, ◌*◌, ◌≤◌, ◌<◌, ◌≡◌, refl, ap, sym, ◌∙◌, Bool, true, false, List, [], ◌∷◌, ◌++◌,
  length, arith, append_assoc,
}
use model_lib.Pipeline.Syntax
use model_lib.Pipeline.Syntax.{
  Tok, Token, Expr, Stmt, Stmts, Program, let_in, while, if_else, end, next, tok_eq, Outcome, ok,
}
use model_lib.Pipeline.Outcome.{Settles, returns, raises, Settles-bind, Settles-map}
use model_lib.Pipeline.Parser.Defs.{Parser, bump, block, body, stmt}
use model_lib.Pipeline.Parser.Grammar.{close_at, stmt_at, block_at}
use model_lib.Pipeline.Parser.Tokens.{
  IsEnded, InParser, IsEnded-tail, expect-Settles, ident-Settles, token_of, ne_eof, tok_eq→eq,
  tok_eq-other, bump-eq,
}
use model_lib.Pipeline.Parser.Exprs.{Took-shorter, lengths, expr-Reads}
use model_lib.Pipeline.Parser.Took.{
  eat_mut-Settles, TookMut-le, TookStmt, TookBody, TookBlock, took_assign, took_let, took_while,
  took_if,
}

stmt_of :
    (f : ℕ) (k : Tok) (p : ℕ) (ts : List Token)
    → IsEnded (token_of k p ∷ ts)
    → 8 * suc (length ts) < suc f
    → ((us : List Token)
        → IsEnded us
        → length us ≤ length ts
        → Settles (TookBlock us) InParser (block f us))
    → Settles (TookStmt (token_of k p ∷ ts)) InParser (stmt (suc f) (token_of k p ∷ ts))
unfolding stmt
stmt_of f Tok.kw_let p ts e h blk =
    let t = token_of Tok.kw_let p in
    Settles-bind (eat_mut-Settles ts (IsEnded-tail t ts (λ q. cc) e)) λ (m, t₀) k₀.
      Settles-bind (ident-Settles t₀ k₀.ended) λ ((name, pos), t₁) (x, hx, hp, taken₁).
        Settles-bind (expect-Settles Tok.assign "`=`" t₁ taken₁.1 (omega arith) (omega arith))
          λ (a, t₂) (ha, taken₂).
            Settles-bind
              (expr-Reads f 0 t₂ taken₂.1 (omega arith)
                (omega (arith, ap length taken₁.0, ap length taken₂.0, TookMut-le k₀)))
              λ (v, t₃) k.
                Settles-bind (expect-Settles Tok.semi "`;`" t₃ k.ended (omega arith) (omega arith))
                  λ (s, rest) (hs, taken₃). returns (
                    subst (λ q. TookStmt (t ∷ ts) (let_in name m v q, rest)) hp
                      (took_let t x a s name m ts t₀ t₁ t₂ t₃ rest v refl k₀ hx taken₁ ha taken₂ k
                        hs taken₃))
stmt_of f Tok.kw_while p ts e h blk =
    let t = token_of Tok.kw_while p in
    Settles-bind (expr-Reads f 0 ts (IsEnded-tail t ts (λ q. cc) e) (omega arith) (omega arith))
      λ (c, t₁) k.
        Settles-bind (blk t₁ k.ended (omega (arith, Took-shorter k)))
          λ (b, rest) l. returns (took_while t ts t₁ rest c b refl k l)
stmt_of f Tok.kw_if p ts e h blk =
    let t = token_of Tok.kw_if p in
    Settles-bind (expr-Reads f 0 ts (IsEnded-tail t ts (λ q. cc) e) (omega arith) (omega arith))
      λ (c, t₁) k. Settles-bind (blk t₁ k.ended (omega (arith, Took-shorter k))) λ (b, t₂) l.
        Settles-bind (expect-Settles Tok.kw_else "`else`" t₂ l.ended (omega arith) (omega arith))
          λ (u, t₃) (hu, taken).
            Settles-bind
              (blk t₃ taken.1 (omega (arith, Took-shorter k, Took-shorter l, ap length taken.0)))
              λ (d, rest) m. returns (took_if t u ts t₁ t₂ t₃ rest c b d refl k l hu taken m)
stmt_of f (Tok.ident name) p ts e h blk =
    let x = token_of (Tok.ident name) p in
    let e' = IsEnded-tail x ts (λ q. cc) e in
    Settles-bind (expect-Settles Tok.assign "`=`" ts e' (omega arith) (omega arith))
      λ (a, t₂) (ha, taken₂).
        Settles-bind (expr-Reads f 0 t₂ taken₂.1 (omega arith) (omega (arith, ap length taken₂.0)))
          λ (v, t₃) k.
            Settles-bind (expect-Settles Tok.semi "`;`" t₃ k.ended (omega arith) (omega arith))
              λ (s, rest) (hs, taken₃). returns (
                took_assign x a s name (x ∷ ts) ts t₂ t₃ rest v refl (refl, e') ha taken₂ k hs
                  taken₃)
stmt_of f _ p ts e h blk = raises refl

-- A match on a computed truth value, applied to the tokens.
pub Settles-bool :
    {B : Type 0} {P : B × List Token → Type 0} (b : Bool) (ts : List Token) (x y : Parser B)
    → (b ≡ true → Settles P InParser (x ts))
    → (b ≡ false → Settles P InParser (y ts))
    → Settles P InParser ((elim b as (λ _. Parser B) [ true ↦ x | false ↦ y ]) ts)
Settles-bool true ts x y h k = h refl
Settles-bool false ts x y h k = k refl

close_reads :
    (t : Token) (ts : List Token)
    → IsEnded (t ∷ ts)
    → tok_eq t.tok Tok.r_brace ≡ true
    → Settles (TookBody (t ∷ ts)) InParser (Syntax.bind (bump (t ∷ ts)) λ (_, rest). ok (end, rest))
close_reads t ts e k =
    let other = tok_eq-other t.tok Tok.r_brace Tok.eof (omega arith) (omega arith) k in
    rw (bump-eq t ts other) (
      returns (record {
        used = t ∷ [];
        split = refl;
        derives = close_at t (tok_eq→eq t.tok Tok.r_brace (omega arith) k);
        taken = omega arith;
        ended = IsEnded-tail t ts (ne_eof t.tok other) e;
      }))

took_more :
    (ts mid rest : List Token) (s : Stmt) (ss : Stmts)
    → TookStmt ts (s, mid)
    → TookBody mid (ss, rest)
    → TookBody ts (next s ss, rest)
took_more ts mid rest s ss k l = record {
  used = k.used ++ l.used;
  split = k.split ∙ ap (λ z. k.used ++ z) l.split ∙ sym (append_assoc k.used l.used rest);
  derives = stmt_at k.used l.used k.derives l.derives;
  taken = omega (lengths, k.taken);
  ended = l.ended;
}

more_reads :
    (f : ℕ) (ts : List Token)
    → Settles (TookStmt ts) InParser (stmt f ts)
    → ((mid : List Token)
        → IsEnded mid
        → length mid < length ts
        → Settles (TookBody mid) InParser (body f mid))
    → Settles (TookBody ts) InParser (
        Syntax.bind
          (stmt f ts)
          λ (s, mid). Syntax.bind (body f mid) λ (ss, rest). ok (next s ss, rest))
more_reads f ts first others = Settles-bind first λ (s, mid) k.
    Settles-bind (others mid k.ended (Took-shorter k))
      λ (ss, rest) l. returns (took_more ts mid rest s ss k l)

mutual
  unfolding stmt

  pub stmt_reads :
      (f : ℕ) (ts : List Token)
      → IsEnded ts
      → 8 * length ts < f
      → Settles (TookStmt ts) InParser (stmt f ts)
  stmt_reads zero ts e h = absurd (omega arith)
  stmt_reads (suc f) [] e h = absurd e
  stmt_reads (suc f) (t ∷ ts) e h =
      stmt_of f t.tok t.pos ts e h (λ us e' le. block_reads f us e' (omega arith))

  body_reads :
      (f : ℕ) (ts : List Token)
      → IsEnded ts
      → 8 * length ts + 1 < f
      → Settles (TookBody ts) InParser (body f ts)
  body_reads zero ts e h = absurd (omega arith)
  body_reads (suc f) [] e h = absurd e
  body_reads (suc f) (t ∷ ts) e h =
      Settles-bool (tok_eq t.tok Tok.r_brace) (t ∷ ts) _ _ (λ k. close_reads t ts e k)
        (λ _.
          more_reads f (t ∷ ts) (stmt_reads f (t ∷ ts) e (omega arith))
            (λ mid e' le. body_reads f mid e' (omega arith)))

  block_reads :
      (f : ℕ) (ts : List Token)
      → IsEnded ts
      → 8 * length ts < f
      → Settles (TookBlock ts) InParser (block f ts)
  block_reads zero ts e h = absurd (omega arith)
  block_reads (suc f) ts e h =
      Settles-bind (expect-Settles Tok.l_brace "`{`" ts e (omega arith) (omega arith))
        λ (t, t₁) (ht, taken).
          Settles-map (body_reads f t₁ taken.1 (omega (arith, ap length taken.0))) λ (b, rest) k.
            record {
              used = t ∷ k.used;
              split = taken.0 ∙ ap (λ z. t ∷ z) k.split;
              derives = block_at t ht k.derives;
              taken = omega arith;
              ended = k.ended;
            }
