-- ===== src/Pipeline/Checker/Sound.antt =====
-- The checker of ch01-01-pipeline.rs on expressions, against the typing rules.
use model_lib.Base.{
  ℕ, ◌≡◌, ◌≢◌, refl, ap, sym, ◌∙◌, true, Option, some, none, List, get, get_elem?, Name,
  if◌then◌else◌, ◌&&◌,
}
use mathlib.Core.Path.{subst}
use model_lib.Pipeline.Syntax
use model_lib.Pipeline.Syntax.{
  Ty, BinOp, UnOp, Expr, Stmt, Stmts, Program, var, unary, binary, let_in, while, if_else, end,
  next, Outcome, ok, bind,
}
use model_lib.Pipeline.Outcome.{bind-eq-ok}
use model_lib.Pipeline.Checker.Defs.{
  SlotTypes, ty_eq, expect_some, slot_at, type_at, check_unary, check_binary, check_expr,
}
use model_lib.Pipeline.Checker.Rules.{
  BinRule, UnRule, HasType, int_has, bool_has, var_has, unary_has, binary_has,
}

pub ty_eq→eq : (s t : Ty) → ty_eq s t ≡ true → s ≡ t
unfolding ty_eq
ty_eq→eq Ty.int Ty.int h = refl
ty_eq→eq Ty.int Ty.bool h = cc
ty_eq→eq Ty.bool Ty.int h = cc
ty_eq→eq Ty.bool Ty.bool h = refl

-- The test that both operands have the type `o`.
both_have :
    (o ta tb : Ty) (r r' : Ty) (m : Outcome Ty)
    → m ≢ ok r
    → (if ty_eq ta o && ty_eq tb o then ok r' else m) ≡ ok r
    → (ta ≡ o) × (tb ≡ o) × (r ≡ r')
unfolding ty_eq
both_have Ty.int Ty.int Ty.int r r' m h e = (refl, refl, (cc))
both_have Ty.bool Ty.bool Ty.bool r r' m h e = (refl, refl, (cc))
both_have Ty.int Ty.bool tb r r' m h e = absurd (h e)
both_have Ty.bool Ty.int tb r r' m h e = absurd (h e)
both_have Ty.int Ty.int Ty.bool r r' m h e = absurd (h e)
both_have Ty.bool Ty.bool Ty.int r r' m h e = absurd (h e)

plain_rule :
    (op : BinOp) (o ta tb r r' : Ty) (m : Outcome Ty)
    → (BinRule op o r')
    → m ≢ ok r
    → (if ty_eq ta o && ty_eq tb o then ok r' else m) ≡ ok r
    → (tb ≡ ta) × BinRule op ta r
plain_rule op o ta tb r r' m rule h e =
    let (p, q, k) = both_have o ta tb r r' m h e in
    (q ∙ sym p, subst (λ t. BinRule op t r) (sym p) (subst (λ t. BinRule op o t) (sym k) rule))

check_binary-BinRule :
    (op : BinOp) (ta tb : Ty) (pos : ℕ) (r : Ty)
    → check_binary op ta tb pos ≡ ok r
    → (tb ≡ ta) × BinRule op ta r
unfolding check_binary ty_eq
check_binary-BinRule BinOp.eq Ty.int Ty.int pos r h = (refl, cc)
check_binary-BinRule BinOp.eq Ty.bool Ty.bool pos r h = (refl, cc)
check_binary-BinRule BinOp.eq Ty.int Ty.bool pos r h = cc
check_binary-BinRule BinOp.eq Ty.bool Ty.int pos r h = cc
check_binary-BinRule BinOp.ne Ty.int Ty.int pos r h = (refl, cc)
check_binary-BinRule BinOp.ne Ty.bool Ty.bool pos r h = (refl, cc)
check_binary-BinRule BinOp.ne Ty.int Ty.bool pos r h = cc
check_binary-BinRule BinOp.ne Ty.bool Ty.int pos r h = cc
check_binary-BinRule BinOp.and ta tb pos r h =
    plain_rule BinOp.and Ty.bool ta tb r Ty.bool _ (refl, refl) (λ q. cc) h
check_binary-BinRule BinOp.or ta tb pos r h =
    plain_rule BinOp.or Ty.bool ta tb r Ty.bool _ (refl, refl) (λ q. cc) h
check_binary-BinRule BinOp.lt ta tb pos r h =
    plain_rule BinOp.lt Ty.int ta tb r Ty.bool _ (refl, refl) (λ q. cc) h
check_binary-BinRule BinOp.le ta tb pos r h =
    plain_rule BinOp.le Ty.int ta tb r Ty.bool _ (refl, refl) (λ q. cc) h
check_binary-BinRule BinOp.gt ta tb pos r h =
    plain_rule BinOp.gt Ty.int ta tb r Ty.bool _ (refl, refl) (λ q. cc) h
check_binary-BinRule BinOp.ge ta tb pos r h =
    plain_rule BinOp.ge Ty.int ta tb r Ty.bool _ (refl, refl) (λ q. cc) h
check_binary-BinRule BinOp.add ta tb pos r h =
    plain_rule BinOp.add Ty.int ta tb r Ty.int _ (refl, refl) (λ q. cc) h
check_binary-BinRule BinOp.sub ta tb pos r h =
    plain_rule BinOp.sub Ty.int ta tb r Ty.int _ (refl, refl) (λ q. cc) h
check_binary-BinRule BinOp.mul ta tb pos r h =
    plain_rule BinOp.mul Ty.int ta tb r Ty.int _ (refl, refl) (λ q. cc) h
check_binary-BinRule BinOp.div ta tb pos r h =
    plain_rule BinOp.div Ty.int ta tb r Ty.int _ (refl, refl) (λ q. cc) h
check_binary-BinRule BinOp.rem ta tb pos r h =
    plain_rule BinOp.rem Ty.int ta tb r Ty.int _ (refl, refl) (λ q. cc) h

BinRule-check_binary :
    (op : BinOp) (t r : Ty) (pos : ℕ) → BinRule op t r → check_binary op t t pos ≡ ok r
unfolding check_binary ty_eq
BinRule-check_binary BinOp.eq Ty.int r pos h = cc
BinRule-check_binary BinOp.eq Ty.bool r pos h = cc
BinRule-check_binary BinOp.ne Ty.int r pos h = cc
BinRule-check_binary BinOp.ne Ty.bool r pos h = cc
BinRule-check_binary BinOp.and t r pos (h, k) = rw (h, k) refl
BinRule-check_binary BinOp.or t r pos (h, k) = rw (h, k) refl
BinRule-check_binary BinOp.lt t r pos (h, k) = rw (h, k) refl
BinRule-check_binary BinOp.le t r pos (h, k) = rw (h, k) refl
BinRule-check_binary BinOp.gt t r pos (h, k) = rw (h, k) refl
BinRule-check_binary BinOp.ge t r pos (h, k) = rw (h, k) refl
BinRule-check_binary BinOp.add t r pos (h, k) = rw (h, k) refl
BinRule-check_binary BinOp.sub t r pos (h, k) = rw (h, k) refl
BinRule-check_binary BinOp.mul t r pos (h, k) = rw (h, k) refl
BinRule-check_binary BinOp.div t r pos (h, k) = rw (h, k) refl
BinRule-check_binary BinOp.rem t r pos (h, k) = rw (h, k) refl

check_unary-UnRule :
    (op : UnOp) (t : Ty) (pos : ℕ) (r : Ty) → check_unary op t pos ≡ ok r → UnRule op t × (r ≡ t)
unfolding check_unary ty_eq
check_unary-UnRule Syntax.neg Ty.int pos r h = (refl, cc)
check_unary-UnRule Syntax.neg Ty.bool pos r h = cc
check_unary-UnRule Syntax.not Ty.int pos r h = cc
check_unary-UnRule Syntax.not Ty.bool pos r h = (refl, cc)

UnRule-check_unary : (op : UnOp) (t : Ty) (pos : ℕ) → UnRule op t → check_unary op t pos ≡ ok t
unfolding check_unary ty_eq
UnRule-check_unary Syntax.neg t pos h = rw h refl
UnRule-check_unary Syntax.not t pos h = rw h refl

pub expect_some-eq {ℓ} : {A : Type ℓ} (o : Option A) (a : A) → expect_some o ≡ ok a → o ≡ some a
expect_some-eq none a h = cc
expect_some-eq (some b) a h = cc

pub type_at-var :
    (uses : List (ℕ × ℕ)) (tys : SlotTypes) (x : Name) (pos : ℕ) (t : Ty)
    → type_at uses tys pos ≡ ok t
    → HasType uses tys (var x pos) t
unfolding type_at slot_at
type_at-var uses tys x pos t h =
    let (slot, e, h₁) = bind-eq-ok (expect_some (get pos uses)) _ h in
    let (o, k, h₂) = bind-eq-ok (expect_some (get_elem? tys slot)) expect_some h₁ in
    var_has x pos slot t (expect_some-eq (get pos uses) slot e)
      (expect_some-eq (get_elem? tys slot) o k ∙ ap some (expect_some-eq o t h₂))

-- Each typed expression is derived.
pub check_expr-HasType :
    (uses : List (ℕ × ℕ)) (tys : SlotTypes) (e : Expr) (t : Ty)
    → check_expr uses tys e ≡ ok t
    → HasType uses tys e t
unfolding check_expr
check_expr-HasType uses tys (Expr.int n) t h =
    let same : Ty.int ≡ t = cc in subst (λ r. HasType uses tys (Expr.int n) r) same (int_has n)
check_expr-HasType uses tys (Expr.bool b) t h =
    let same : Ty.bool ≡ t = cc in subst (λ r. HasType uses tys (Expr.bool b) r) same (bool_has b)
check_expr-HasType uses tys (var x pos) t h = type_at-var uses tys x pos t h
check_expr-HasType uses tys (unary op x pos) t h =
    let (t₁, e, k) = bind-eq-ok (check_expr uses tys x) _ h in
    let (rule, same) = check_unary-UnRule op t₁ pos t k in
    subst (λ r. HasType uses tys (unary op x pos) r) (sym same)
      (unary_has op x pos t₁ rule (check_expr-HasType uses tys x t₁ e))
check_expr-HasType uses tys (binary op a b pos) t h =
    let (ta, ea, h₁) = bind-eq-ok (check_expr uses tys a) _ h in
    let (tb, eb, k) = bind-eq-ok (check_expr uses tys b) _ h₁ in
    let (same, rule) = check_binary-BinRule op ta tb pos t k in
    binary_has op a b pos ta t rule (check_expr-HasType uses tys a ta ea)
      (subst (λ s. HasType uses tys b s) same (check_expr-HasType uses tys b tb eb))

pub HasType-check_expr :
    (uses : List (ℕ × ℕ)) (tys : SlotTypes) {e : Expr} {t : Ty}
    → HasType uses tys e t
    → check_expr uses tys e ≡ ok t
unfolding check_expr type_at slot_at
HasType-check_expr uses tys (int_has n) = refl
HasType-check_expr uses tys (bool_has b) = refl
HasType-check_expr uses tys (var_has x pos slot t e k) = rw (e, k) refl
HasType-check_expr uses tys (unary_has op x pos t rule h) =
    rw (HasType-check_expr uses tys h) (UnRule-check_unary op t pos rule)
HasType-check_expr uses tys (binary_has op a b pos t r rule ha hb) =
    rw (HasType-check_expr uses tys ha)
      (rw (HasType-check_expr uses tys hb) (BinRule-check_binary op t r pos rule))
