-- ===== src/Pipeline/Parser/Exprs.antt =====
-- The expression parser of ch01-01-pipeline.rs against the grammar, with its fuel.
use mathlib.Core.Path.{subst}
use mathlib.Core.Option.{some-injective}
use model_lib.Base.{
  ℕ, zero, suc, ◌+◌, ◌*◌, ◌≤◌, ◌<◌, ◌≡◌, ◌≢◌, refl, ap, sym, ◌∙◌, Bool, true, false, ◌⊎◌, inl, inr,
  Bool-cases, Option-cases, Option, some, none, List, [], ◌∷◌, ◌++◌, length, length-append, ◌==◌,
  ==_iff, if◌then◌else◌, Name, arith, append_assoc, name_eq,
}
use model_lib.Pipeline.Syntax.{Tok, Token, BinOp, Expr, binary, var, tok_eq, Outcome, ok}
use model_lib.Pipeline.Outcome.{Settles, returns, raises, Settles-bind}
use model_lib.Pipeline.Parser.Defs.{Parser, bump, binop_of, fits, expr, climb, operand}
use model_lib.Pipeline.Parser.Grammar.{
  ExprAt, int_at, true_at, false_at, var_at, neg_at, not_at, paren_at, tighter, operator_at,
  Operator, or_op, and_op, eq_op, ne_op, lt_op, le_op, gt_op, ge_op, add_op, sub_op, mul_op, div_op,
  rem_op,
}
use model_lib.Pipeline.Parser.Tokens.{
  IsEnded, InParser, IsEnded-tail, Takes, expect-Settles, token_of, ne_eof,
}

-- The tokens `used` were taken off `ts`, and `G` holds of them.
pub record Took (G : List Token → Type 0) (ts rest : List Token) : Type 0 where
  pub used : List Token
  pub split : ts ≡ used ++ rest
  pub derives : G used
  pub taken : 0 < length used
  pub ended : IsEnded rest

abbrev pub TookExpr : ℕ → List Token → Expr × List Token → Type 0
TookExpr level ts r = Took (λ us. ExprAt level us r.0) ts r.1

pub length-append_tokens : (xs ys : List Token) → length (xs ++ ys) ≡ length xs + length ys
length-append_tokens = length-append

pub ruleset lengths = (arith, length-append_tokens)

pub Took-shorter :
    {G : List Token → Type 0} {ts rest : List Token} → Took G ts rest → length rest < length ts
Took-shorter {rest = rest} k =
    omega (arith, ap length k.split, length-append_tokens k.used rest, k.taken)

took_atom :
    (t : Token) (ts : List Token) (level : ℕ) (e : Expr)
    → t.tok ≢ Tok.eof
    → IsEnded (t ∷ ts)
    → ExprAt level (t ∷ []) e
    → TookExpr level (t ∷ ts) (e, ts)
took_atom t ts level e h k d = record {
  used = t ∷ [];
  split = refl;
  derives = d;
  taken = omega arith;
  ended = IsEnded-tail t ts h k;
}

took_prefix :
    (t : Token) (ts rest : List Token) (e e' : Expr)
    → ((us : List Token) → ExprAt 5 us e → ExprAt 5 (t ∷ us) e')
    → TookExpr 5 ts (e, rest)
    → TookExpr 5 (t ∷ ts) (e', rest)
took_prefix t ts rest e e' f k = record {
  used = t ∷ k.used;
  split = ap (λ l. t ∷ l) k.split;
  derives = f k.used k.derives;
  taken = omega arith;
  ended = k.ended;
}

took_paren :
    (t u : Token) (ts mid rest : List Token) (e : Expr)
    → t.tok ≡ Tok.l_paren
    → u.tok ≡ Tok.r_paren
    → TookExpr 0 ts (e, mid)
    → Takes mid u rest
    → TookExpr 5 (t ∷ ts) (e, rest)
took_paren t u ts mid rest e h h' k (s, ended) = record {
  used = t ∷ (k.used ++ u ∷ []);
  split =
      ap (λ l. t ∷ l) (k.split ∙ ap (λ l. k.used ++ l) s ∙ sym (append_assoc k.used (u ∷ []) rest));
  derives = paren_at t u k.used h k.derives h';
  taken = omega arith;
  ended = ended;
}

took_tighter :
    (level : ℕ) {ts : List Token} {r : Expr × List Token}
    → level ≢ 5
    → TookExpr (level + 1) ts r
    → TookExpr level ts r
took_tighter level h k = record {
  used = k.used;
  split = k.split;
  derives = tighter level h k.derives;
  taken = k.taken;
  ended = k.ended;
}

took_infix :
    (level : ℕ) (t : Token) (op : BinOp) (ts mid rest : List Token) (a b : Expr)
    → Operator level t.tok op
    → TookExpr level ts (a, t ∷ mid)
    → TookExpr (level + 1) mid (b, rest)
    → TookExpr level ts (binary op a b t.pos, rest)
took_infix level t op ts mid rest a b h k l = record {
  used = k.used ++ (t ∷ l.used);
  split =
      k.split ∙ ap (λ m. k.used ++ (t ∷ m)) l.split ∙ sym (append_assoc k.used (t ∷ l.used) rest);
  derives = operator_at level t op k.used l.used h k.derives l.derives;
  taken = omega (lengths, k.taken);
  ended = l.ended;
}

fits-some :
    (level : ℕ) (o : Option (ℕ × BinOp)) (op : BinOp)
    → fits level o ≡ some op
    → o ≡ some (level, op)
unfolding fits
fits-some level none op h = cc
fits-some level (some (l, op')) op h = ground (arith, ==_iff l level)

binop-ne-eof : (k : Tok) (r : ℕ × BinOp) → binop_of k ≡ some r → tok_eq k Tok.eof ≡ false
unfolding binop_of tok_eq
binop-ne-eof Tok.eof r h = cc
binop-ne-eof _ r h = refl

-- The table of the code is that of the grammar.
binop_of-Operator :
    (k : Tok) (level : ℕ) (op : BinOp) → binop_of k ≡ some (level, op) → Operator level k op
unfolding binop_of
binop_of-Operator k level op e = entry k e
  where
    at_entry :
        (k : Tok) (l : ℕ) (o : BinOp)
        → Operator l k o
        → ◌≡◌ {A = Option (ℕ × BinOp)} (some (l, o)) (some (level, op))
        → Operator level k op
    at_entry k l o d e = subst (λ r. Operator r.0 k r.1) (some-injective (l, o) (level, op) e) d

    entry : (k : Tok) → binop_of k ≡ some (level, op) → Operator level k op
    entry Tok.or_or = at_entry _ _ _ or_op
    entry Tok.and_and = at_entry _ _ _ and_op
    entry Tok.eq_eq = at_entry _ _ _ eq_op
    entry Tok.ne = at_entry _ _ _ ne_op
    entry Tok.lt = at_entry _ _ _ lt_op
    entry Tok.le = at_entry _ _ _ le_op
    entry Tok.gt = at_entry _ _ _ gt_op
    entry Tok.ge = at_entry _ _ _ ge_op
    entry Tok.plus = at_entry _ _ _ add_op
    entry Tok.minus = at_entry _ _ _ sub_op
    entry Tok.star = at_entry _ _ _ mul_op
    entry Tok.slash = at_entry _ _ _ div_op
    entry Tok.percent = at_entry _ _ _ rem_op
    entry _ = λ e. cc

-- A match on a computed option, applied to the tokens.
Settles-option :
    {A B : Type 0} {P : B × List Token → Type 0} (o : Option A) (ts : List Token) (x : Parser B)
    (y : A → Parser B)
    → (o ≡ none → Settles P InParser (x ts))
    → ((a : A) → o ≡ some a → Settles P InParser (y a ts))
    → Settles P InParser ((elim o as (λ _. Parser B) [ none ↦ x | some a ↦ y a ]) ts)
Settles-option none ts x y h k = h refl
Settles-option (some a) ts x y h k = k a refl

abbrev pub Reads : ℕ → List Token → Outcome (Expr × List Token) → Type 0
Reads level ts r = Settles (TookExpr level ts) InParser r

-- An operand behind its first token, from the calls that it makes.
operand_of :
    (f : ℕ) (k : Tok) (p : ℕ) (ts : List Token)
    → IsEnded (token_of k p ∷ ts)
    → (IsEnded ts → Reads 5 ts (operand f ts))
    → (IsEnded ts → Reads 0 ts (expr f 0 ts))
    → Reads 5 (token_of k p ∷ ts) (operand (suc f) (token_of k p ∷ ts))
unfolding operand
operand_of f (Tok.int n) p ts e again inner =
    let t = token_of (Tok.int n) p in
    returns (took_atom t ts 5 (Expr.int n) (λ q. cc) e (int_at t n refl))
operand_of f Tok.kw_true p ts e again inner =
    let t = token_of Tok.kw_true p in
    returns (took_atom t ts 5 (Expr.bool true) (λ q. cc) e (true_at t refl))
operand_of f Tok.kw_false p ts e again inner =
    let t = token_of Tok.kw_false p in
    returns (took_atom t ts 5 (Expr.bool false) (λ q. cc) e (false_at t refl))
operand_of f (Tok.ident x) p ts e again inner =
    let t = token_of (Tok.ident x) p in
    returns (took_atom t ts 5 (var x p) (λ q. cc) e (var_at t x refl))
operand_of f Tok.minus p ts e again inner =
    let t = token_of Tok.minus p in
    Settles-bind (again (IsEnded-tail t ts (λ q. cc) e))
      λ (x, rest) k. returns (took_prefix t ts rest x _ (λ us d. neg_at t refl d) k)
operand_of f Tok.bang p ts e again inner =
    let t = token_of Tok.bang p in
    Settles-bind (again (IsEnded-tail t ts (λ q. cc) e))
      λ (x, rest) k. returns (took_prefix t ts rest x _ (λ us d. not_at t refl d) k)
operand_of f Tok.l_paren p ts e again inner =
    let t = token_of Tok.l_paren p in
    Settles-bind (inner (IsEnded-tail t ts (λ q. cc) e)) λ (x, mid) k.
      Settles-bind (expect-Settles Tok.r_paren "`)`" mid k.ended (omega arith) (omega arith))
        λ (u, rest) (h, taken). returns (took_paren t u ts mid rest x refl h k taken)
operand_of f _ p ts e again inner = raises refl

mutual
  unfolding expr

  expr_reads :
      (f level : ℕ) (ts : List Token)
      → IsEnded ts
      → level ≤ 5
      → 8 * length ts + 7 < f + level
      → Reads level ts (expr f level ts)
  expr_reads zero level ts e le h = absurd (omega arith)
  expr_reads (suc f) level ts e le h = elim (Bool-cases (level == 5)) [
    | inl k ↦
        let five : level ≡ 5 = (==_iff level 5).0 k in
        rw (k, expr)
          (subst (λ l. Reads l ts (operand f ts)) (sym five) (operand_reads f ts e (omega arith)))
    | inr k ↦
        let below : level < 5 = ground arith in
        rw (k, expr)
          (Settles-bind (expr_reads f (level + 1) ts e (omega arith) (omega arith)) λ (lhs, mid) k₁.
            climb_reads f level ts lhs mid (took_tighter level (omega arith) k₁) below
              (omega (arith, Took-shorter k₁)))
  ]

  climb_reads :
      (f level : ℕ) (ts : List Token) (lhs : Expr) (mid : List Token)
      → TookExpr level ts (lhs, mid)
      → level < 5
      → 8 * length mid < f
      → Reads level ts (climb f level lhs mid)
  climb_reads zero level ts lhs mid k le h = absurd (omega arith)
  climb_reads (suc f) level ts lhs [] k le h = absurd k.ended
  climb_reads (suc f) level ts lhs (t ∷ mid) k le h =
      Settles-option (fits level (binop_of t.tok)) (t ∷ mid) (λ us. ok (lhs, us)) _ (λ e. returns k)
        λ op e.
          let o = fits-some level (binop_of t.tok) op e in
          let other = binop-ne-eof t.tok (level, op) o in
          rw (other, bump)
            (Settles-bind
              (expr_reads f (level + 1) mid (IsEnded-tail t mid (ne_eof t.tok other) k.ended)
                (omega arith) (omega arith))
              λ (rhs, rest) l.
                climb_reads f level ts (binary op lhs rhs t.pos) rest
                  (took_infix level t op ts mid rest lhs rhs (binop_of-Operator t.tok level op o) k
                    l)
                  le (omega (arith, Took-shorter l)))

  operand_reads :
      (f : ℕ) (ts : List Token) → IsEnded ts → 8 * length ts < f → Reads 5 ts (operand f ts)
  operand_reads zero ts e h = absurd (omega arith)
  operand_reads (suc f) [] e h = absurd e
  operand_reads (suc f) (t ∷ ts) e h =
      operand_of f t.tok t.pos ts e (λ e'. operand_reads f ts e' (omega arith))
        (λ e'. expr_reads f 0 ts e' (omega arith) (omega arith))

-- On tokens that end in the end marker, the expression parser at a level up to 5 reads an expression
-- of that level off the front, or fails with an error of the parser, where the fuel and the level lie
-- above eight times the number of tokens and seven.
pub expr-Reads :
    (f level : ℕ) (ts : List Token)
    → IsEnded ts
    → level ≤ 5
    → 8 * length ts + 7 < f + level
    → Reads level ts (expr f level ts)
expr-Reads = expr_reads
