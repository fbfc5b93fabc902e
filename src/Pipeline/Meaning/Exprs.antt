-- ===== src/Pipeline/Meaning/Exprs.antt =====
-- Lowered expressions of ch01-01-pipeline.rs on the machine, against the reference semantics.
use model_lib.Base.{
  ℕ, ◌+◌, ◌≡◌, refl, ap, Bool, true, false, List, [], ◌∷◌, ◌++◌, length, get_elem?, ◌==◌,
  if◌then◌else◌, as_word,
}
use mathlib.Core.Path.{subst}
use model_lib.Base.Word.{wrapping_neg}
use model_lib.Pipeline.Meaning.Operators.{as_word-if, apply-operation}
use model_lib.Pipeline.Syntax
use model_lib.Pipeline.Syntax.{
  BinOp, UnOp, Expr, Stmt, Stmts, Program, var, unary, binary, let_in, while, if_else, end, next,
}
use model_lib.Pipeline.Lowerer.Defs.{Op, push, bin, jump, jump_if_false}
use model_lib.Pipeline.Lowerer.Layout.{code_expr, lengths}
use model_lib.Pipeline.Vm.Defs.{Machine, machine, running, execute, apply}
use model_lib.Pipeline.Vm.Steps.{Holds, Holds-append}
use model_lib.Pipeline.Meaning.Defs.{Answer, value, eval_unary, eval}
use model_lib.Pipeline.Meaning.Goes.{
  Goes, Goes-bind, Goes-then, Goes-running, arrived, finish_arith, finish_load,
}

-- Where the machine stands when an expression or a statement is done.
abbrev pub yields : ℕ → List ℕ → List ℕ → ℕ → Machine
yields to st σ v = machine to (v ∷ st) σ

abbrev pub leaves : ℕ → List ℕ → List ℕ → Machine
leaves to st σ = machine to st σ

pub Goes-at :
    {A : Type 0} {code : List Op} {fuel : ℕ} {m : Machine} {r : Answer A} (k : ℕ → A → Machine)
    (i j : ℕ)
    → i ≡ j
    → Goes code fuel m (k i) r
    → Goes code fuel m (k j) r
Goes-at {A} {code} {fuel} {m} {r} k i j p g = subst (λ t. Goes code fuel m (k t) r) p g

pub Goes-branch :
    {A : Type 0} {code : List Op} {fuel : ℕ} {k : A → Machine} {x y : Answer A} (i j : ℕ)
    (st σ : List ℕ) (b : Bool)
    → Goes code fuel (machine i st σ) k x
    → Goes code fuel (machine j st σ) k y
    → Goes code fuel (machine (if b then i else j) st σ) k (if b then x else y)
Goes-branch i j st σ true g h = g
Goes-branch i j st σ false g h = h

-- The same behind a `not`.
Goes-branch_not :
    {A : Type 0} {code : List Op} {fuel : ℕ} {k : A → Machine} {x y : Answer A} (i j : ℕ)
    (st σ : List ℕ) (b : Bool)
    → Goes code fuel (machine j st σ) k x
    → Goes code fuel (machine i st σ) k y
    → Goes code fuel (machine (if as_word b == 0 then i else j) st σ) k (if b then x else y)
Goes-branch_not i j st σ true g h = g
Goes-branch_not i j st σ false g h = h

module _ (code : List Op) (ρ : ℕ → ℕ) (fuel : ℕ) where
  -- `e`, laid out from `at` to `to`, leaves its value on the stack.
  abbrev pub Computes : Expr → Type 0
  Computes e =
      (at to : ℕ) (st σ : List ℕ)
      → at + length (code_expr ρ at e) ≡ to
      → Holds code at (code_expr ρ at e)
      → Goes code fuel (machine at st σ) (yields to st σ) (eval ρ e σ)

  -- What stands behind the left operand of a short-circuit operator, at `mid`: the two ways on.
  module _ (b : Expr) (mid val : ℕ) (st σ : List ℕ) where
    abbrev right_code : List Op
    right_code = code_expr ρ (mid + 1) b

    abbrev short_at : ℕ
    short_at = mid + 1 + length right_code + 1

    abbrev HoldsRight : Type 0
    HoldsRight =
        Holds code mid
          (jump_if_false short_at ∷ (right_code ++ (jump (short_at + 1) ∷ (push val ∷ []))))

    cut_short :
        HoldsRight → Goes code fuel (machine short_at st σ) (yields (short_at + 1) st σ) (value val)
    unfolding execute
    cut_short h =
        let (_, tail) = Holds-append code (mid + 1) right_code _ h.1 in
        Goes-running code short_at st σ tail.1.0 refl (arrived code val)

    go_right :
        Computes b
        → HoldsRight
        → Goes code fuel (machine (mid + 1) st σ) (yields (short_at + 1) st σ) (eval ρ b σ)
    unfolding execute
    go_right ih h =
        let (hr, tail) = Holds-append code (mid + 1) right_code _ h.1 in
        let left_at = mid + 1 + length right_code in
        Goes-then (ih (mid + 1) left_at st σ refl hr)
          λ w. Goes-running code left_at (w ∷ st) σ tail.0 refl (arrived code w)

  pub eval-Computes : (e : Expr) → Computes e
  unfolding eval code_expr execute wrapping_neg
  eval-Computes (Expr.int n) at to st σ p h =
      Goes-at (λ t. yields t st σ) (at + 1) to (omega lengths)
        (Goes-running code at st σ h.0 refl (arrived code n))
  eval-Computes (Expr.bool b) at to st σ p h =
      Goes-at (λ t. yields t st σ) (at + 1) to (omega lengths)
        (Goes-running code at st σ h.0 refl (arrived code (as_word b)))
  eval-Computes (var x pos) at to st σ p h =
      Goes-at (λ t. yields t st σ) (at + 1) to (omega lengths)
        (finish_load code (ρ pos) at st σ (get_elem? σ (ρ pos)) h.0 refl)
  eval-Computes (unary Syntax.neg x pos) at to st σ p h =
      let mid = at + length (code_expr ρ at x) in
      let (hx, ho) = Holds-append code at (code_expr ρ at x) (Op.neg ∷ []) h in
      Goes-bind (eval-Computes x at mid st σ refl hx) λ v.
        Goes-at (λ t. yields t st σ) (mid + 1) to (omega lengths)
          (Goes-running code mid (v ∷ st) σ ho.0 refl (arrived code (eval_unary Syntax.neg v)))
  eval-Computes (unary Syntax.not x pos) at to st σ p h =
      let mid = at + length (code_expr ρ at x) in
      let (hx, ho) = Holds-append code at (code_expr ρ at x) (Op.not ∷ []) h in
      Goes-bind (eval-Computes x at mid st σ refl hx) λ v.
        Goes-at (λ t. yields t st σ) (mid + 1) to (omega lengths)
          (Goes-running code mid (v ∷ st) σ ho.0
            (ap (λ x. running (machine (mid + 1) (x ∷ st) σ)) (as_word-if (v == 0)))
            (arrived code (eval_unary Syntax.not v)))
  eval-Computes (binary BinOp.and a b pos) at to st σ p h =
      let left = code_expr ρ at a in
      let mid = at + length left in
      let (hl, hs) = Holds-append code at left _ h in
      Goes-at (λ t. yields t st σ) (short_at b mid 0 st σ + 1) to (omega lengths)
        (Goes-bind (eval-Computes a at mid st σ refl hl) λ v.
          Goes-running code mid (v ∷ st) σ hs.0 refl (
            Goes-branch (short_at b mid 0 st σ) (mid + 1) st σ (v == 0) (cut_short b mid 0 st σ hs)
              (go_right b mid 0 st σ (eval-Computes b) hs)))
  eval-Computes (binary BinOp.or a b pos) at to st σ p h =
      let left = code_expr ρ at a in
      let mid = at + length left in
      let (hl, hs) = Holds-append code at left _ h in
      Goes-at (λ t. yields t st σ) (short_at b (mid + 1) 1 st σ + 1) to (omega lengths)
        (Goes-bind (eval-Computes a at mid st σ refl hl) λ v.
          Goes-running code mid (v ∷ st) σ hs.0 refl (
            Goes-running code (mid + 1) (as_word (v == 0) ∷ st) σ hs.1.0 refl (
              Goes-branch_not (short_at b (mid + 1) 1 st σ) (mid + 1 + 1) st σ (v == 0)
                (go_right b (mid + 1) 1 st σ (eval-Computes b) hs.1)
                (cut_short b (mid + 1) 1 st σ hs.1))))
  eval-Computes (binary op a b pos) at to st σ p h =
      let left = code_expr ρ at a in
      let mid = at + length left in
      let right = code_expr ρ mid b in
      let (hl, hs) = Holds-append code at left (right ++ bin op ∷ []) h in
      let (hr, ho) = Holds-append code mid right (bin op ∷ []) hs in
      Goes-bind (eval-Computes a at mid st σ refl hl) λ v.
        Goes-bind (eval-Computes b mid (mid + length right) (v ∷ st) σ refl hr) λ w.
          Goes-at (λ t. yields t st σ) (mid + length right + 1) to (omega lengths)
            (subst (Goes code fuel (machine (mid + length right) (w ∷ v ∷ st) σ) _)
              (apply-operation op v w)
              (finish_arith code op (mid + length right) st σ v w (apply op v w) ho.0 refl))
