-- ===== src/Pipeline/Parser/Took.antt =====
-- The tokens that each statement of ch01-01-pipeline.rs takes, put together.
use model_lib.Base.{
  ℕ, ◌≤◌, ◌≡◌, refl, ap, sym, ◌∙◌, Bool, List, [], ◌∷◌, ◌++◌, length, Name, arith, append_assoc,
}
use model_lib.Pipeline.Syntax.{Tok, Token, Expr, Stmt, Stmts, let_in, while, if_else, tok_eq}
use model_lib.Pipeline.Outcome.{Settles, returns}
use model_lib.Pipeline.Parser.Defs.{eat_mut}
use model_lib.Pipeline.Parser.Grammar.{
  MutAt, mut_at, no_mut, StmtAt, let_at, assign_at, while_at, if_at, BodyAt, BlockAt,
}
use model_lib.Pipeline.Parser.Tokens.{IsEnded, InParser, IsEnded-tail, Takes, token_of}
use model_lib.Pipeline.Parser.Exprs.{Took, TookExpr, length-append_tokens}

-- `mut`, if it stands there.
pub record TookMut (ts : List Token) (r : Bool × List Token) : Type 0 where
  pub used : List Token
  pub split : ts ≡ used ++ r.1
  pub derives : MutAt r.0 used
  pub ended : IsEnded r.1

eat_mut_of :
    (k : Tok) (p : ℕ) (ts : List Token)
    → IsEnded (token_of k p ∷ ts)
    → Settles (TookMut (token_of k p ∷ ts)) InParser (eat_mut (token_of k p ∷ ts))
unfolding eat_mut tok_eq
eat_mut_of Tok.kw_mut p ts e =
    let t = token_of Tok.kw_mut p in
    returns (record {
      used = t ∷ [];
      split = refl;
      derives = mut_at t refl;
      ended = IsEnded-tail t ts (λ q. cc) e;
    })
eat_mut_of (Tok.int n) p ts e =
    returns (record { used = []; split = refl; derives = no_mut; ended = e })
eat_mut_of (Tok.ident x) p ts e =
    returns (record { used = []; split = refl; derives = no_mut; ended = e })
eat_mut_of _ p ts e = returns (record { used = []; split = refl; derives = no_mut; ended = e })

pub eat_mut-Settles : (ts : List Token) → IsEnded ts → Settles (TookMut ts) InParser (eat_mut ts)
eat_mut-Settles [] e = absurd e
eat_mut-Settles (t ∷ ts) e = eat_mut_of t.tok t.pos ts e

pub TookMut-le : {ts : List Token} {r : Bool × List Token} → TookMut ts r → length r.1 ≤ length ts
TookMut-le {ts} {r} k = omega (arith, ap length k.split, length-append_tokens k.used r.1)

abbrev pub TookStmt : List Token → Stmt × List Token → Type 0
TookStmt ts r = Took (λ us. StmtAt us r.0) ts r.1

abbrev pub TookBody : List Token → Stmts × List Token → Type 0
TookBody ts r = Took (λ us. BodyAt us r.0) ts r.1

abbrev pub TookBlock : List Token → Stmts × List Token → Type 0
TookBlock ts r = Took (λ us. BlockAt us r.0) ts r.1

-- `= value ;` and what stands before it.
pub took_assign :
    (x a s : Token) (name : Name) (ts t₁ t₂ t₃ rest : List Token) (e : Expr)
    → x.tok ≡ Tok.ident name
    → Takes ts x t₁
    → a.tok ≡ Tok.assign
    → Takes t₁ a t₂
    → TookExpr 0 t₂ (e, t₃)
    → s.tok ≡ Tok.semi
    → Takes t₃ s rest
    → TookStmt ts (Stmt.assign name e x.pos, rest)
took_assign x a s name ts t₁ t₂ t₃ rest e hx (s₁, _) ha (s₂, _) k hs (s₃, ended) = record {
  used = x ∷ (a ∷ (k.used ++ s ∷ []));
  split =
      s₁
      ∙ ap (λ l. x ∷ l)
          (s₂
            ∙ ap (λ l. a ∷ l)
                (k.split ∙ ap (λ l. k.used ++ l) s₃ ∙ sym (append_assoc k.used (s ∷ []) rest)));
  derives = assign_at x a s name k.used hx ha k.derives hs;
  taken = omega arith;
  ended = ended;
}

pub took_let :
    (l x a s : Token) (name : Name) (m : Bool) (ts t₀ t₁ t₂ t₃ rest : List Token) (e : Expr)
    → l.tok ≡ Tok.kw_let
    → TookMut ts (m, t₀)
    → x.tok ≡ Tok.ident name
    → Takes t₀ x t₁
    → a.tok ≡ Tok.assign
    → Takes t₁ a t₂
    → TookExpr 0 t₂ (e, t₃)
    → s.tok ≡ Tok.semi
    → Takes t₃ s rest
    → TookStmt (l ∷ ts) (let_in name m e x.pos, rest)
took_let l x a s name m ts t₀ t₁ t₂ t₃ rest e hl k₀ hx (s₁, _) ha (s₂, _) k hs (s₃, ended) =
    record {
      used = l ∷ (k₀.used ++ (x ∷ (a ∷ (k.used ++ s ∷ []))));
      split =
          ap (λ z. l ∷ z)
            (k₀.split
              ∙ ap (λ z. k₀.used ++ z)
                  (s₁
                    ∙ ap (λ z. x ∷ z)
                        (s₂
                          ∙ ap (λ z. a ∷ z)
                              (k.split
                                ∙ ap (λ z. k.used ++ z) s₃
                                ∙ sym (append_assoc k.used (s ∷ []) rest))))
              ∙ sym (append_assoc k₀.used (x ∷ (a ∷ (k.used ++ s ∷ []))) rest));
      derives = let_at l x a s name m k₀.used k.used hl k₀.derives hx ha k.derives hs;
      taken = omega arith;
      ended = ended;
    }

pub took_while :
    (w : Token) (ts t₁ rest : List Token) (c : Expr) (b : Stmts)
    → w.tok ≡ Tok.kw_while
    → TookExpr 0 ts (c, t₁)
    → TookBlock t₁ (b, rest)
    → TookStmt (w ∷ ts) (while c b, rest)
took_while w ts t₁ rest c b hw k l = record {
  used = w ∷ (k.used ++ l.used);
  split =
      ap (λ z. w ∷ z)
        (k.split ∙ ap (λ z. k.used ++ z) l.split ∙ sym (append_assoc k.used l.used rest));
  derives = while_at w k.used l.used hw k.derives l.derives;
  taken = omega arith;
  ended = l.ended;
}

pub took_if :
    (i e : Token) (ts t₁ t₂ t₃ rest : List Token) (c : Expr) (b d : Stmts)
    → i.tok ≡ Tok.kw_if
    → TookExpr 0 ts (c, t₁)
    → TookBlock t₁ (b, t₂)
    → e.tok ≡ Tok.kw_else
    → Takes t₂ e t₃
    → TookBlock t₃ (d, rest)
    → TookStmt (i ∷ ts) (if_else c b d, rest)
took_if i e ts t₁ t₂ t₃ rest c b d hi k l he (s, _) m = record {
  used = i ∷ (k.used ++ (l.used ++ (e ∷ m.used)));
  split =
      ap (λ z. i ∷ z)
        (k.split
          ∙ ap (λ z. k.used ++ z)
              (l.split
                ∙ ap (λ z. l.used ++ z) (s ∙ ap (λ z. e ∷ z) m.split)
                ∙ sym (append_assoc l.used (e ∷ m.used) rest))
          ∙ sym (append_assoc k.used (l.used ++ (e ∷ m.used)) rest));
  derives = if_at i e k.used l.used m.used hi k.derives l.derives he m.derives;
  taken = omega arith;
  ended = m.ended;
}
