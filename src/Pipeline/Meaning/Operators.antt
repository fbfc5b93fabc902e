-- ===== src/Pipeline/Meaning/Operators.antt =====
-- The operators of the machine of ch01-01-pipeline.rs against those of the reference semantics.
use Prim.Native.Nat.{◌-◌, ◌/◌, ◌%◌, ◌^◌}
use model_lib.Base.{
  ℕ, ◌≡◌, refl, ap, Bool, true, false, not, Bool-cases, inl, inr, ltb, leb, ◌==◌, if◌then◌else◌,
  as_word, arith,
}
use model_lib.Base.Word.{
  wrapping_add, wrapping_sub, wrapping_mul, wrapping_div, wrapping_rem, signed_lt, signed_le,
  with_sign, is_negative,
}
use mathlib.Core.Bool.{xor}
use model_lib.Pipeline.Syntax.{BinOp}
use model_lib.Pipeline.Vm.Defs.{Arith, apply, panics}
use model_lib.Pipeline.Meaning.Defs.{
  Answer, value, div_by_zero, stuck, opposite, shifted, operation,
}

abbrev pub of_arith : Arith → Answer ℕ
of_arith (Arith.value v) = value v
of_arith Arith.div_by_zero = div_by_zero
of_arith panics = stuck

pub as_word-if : (b : Bool) → as_word b ≡ (if b then 1 else 0)
as_word-if true = refl
as_word-if false = refl

as_word-not : (b : Bool) → as_word (not b) ≡ (if b then 0 else 1)
as_word-not true = refl
as_word-not false = refl

leb-as_word : (a b : ℕ) → as_word (leb a b) ≡ (if ltb b a then 0 else 1)
leb-as_word a b = ground arith

ltb-not : (a : ℕ) → ltb a (2 ^ 63) ≡ not (is_negative a)
ltb-not a = ground arith

-- A quotient and a remainder by the signs of their operands.
quotient-signs :
    (a b : ℕ) (m n : Bool)
    → with_sign (xor m n) ((if m then 2 ^ 64 - a else a) / (if n then 2 ^ 64 - b else b)) ≡ (
        if not m
        then if not n then a / b % 2 ^ 64 else opposite (a / (2 ^ 64 - b))
        else if not n
        then opposite ((2 ^ 64 - a) / b)
        else (2 ^ 64 - a) / (2 ^ 64 - b) % 2 ^ 64)
unfolding xor
quotient-signs a b true true = refl
quotient-signs a b true false = refl
quotient-signs a b false true = refl
quotient-signs a b false false = refl

remainder-signs :
    (a b : ℕ) (m n : Bool)
    → with_sign m ((if m then 2 ^ 64 - a else a) % (if n then 2 ^ 64 - b else b)) ≡ (
        let d = if not n then b else 2 ^ 64 - b in
        if not m then a % d % 2 ^ 64 else opposite ((2 ^ 64 - a) % d))
remainder-signs a b true true = refl
remainder-signs a b true false = refl
remainder-signs a b false true = refl
remainder-signs a b false false = refl

div-operation : (a b : ℕ) → of_arith (apply BinOp.div a b) ≡ operation BinOp.div a b
unfolding apply wrapping_div
div-operation a b = elim (Bool-cases (b == 0)) [
  | inl e ↦ rw e refl
  | inr e ↦
      rw (e, ltb-not a, ltb-not b) (ap value (quotient-signs a b (is_negative a) (is_negative b)))
]

rem-operation : (a b : ℕ) → of_arith (apply BinOp.rem a b) ≡ operation BinOp.rem a b
unfolding apply wrapping_rem
rem-operation a b = elim (Bool-cases (b == 0)) [
  | inl e ↦ rw e refl
  | inr e ↦
      rw (e, ltb-not a, ltb-not b) (ap value (remainder-signs a b (is_negative a) (is_negative b)))
]

pub apply-operation : (op : BinOp) (v w : ℕ) → of_arith (apply op v w) ≡ operation op v w
unfolding apply wrapping_add wrapping_sub wrapping_mul signed_lt signed_le
apply-operation BinOp.add v w = refl
apply-operation BinOp.sub v w = refl
apply-operation BinOp.mul v w = refl
apply-operation BinOp.div v w = div-operation v w
apply-operation BinOp.rem v w = rem-operation v w
apply-operation BinOp.lt v w = ap value (as_word-if (ltb (shifted v) (shifted w)))
apply-operation BinOp.le v w = ap value (leb-as_word (shifted v) (shifted w))
apply-operation BinOp.gt v w = ap value (as_word-if (ltb (shifted w) (shifted v)))
apply-operation BinOp.ge v w = ap value (leb-as_word (shifted w) (shifted v))
apply-operation BinOp.eq v w = ap value (as_word-if (v == w))
apply-operation BinOp.ne v w = ap value (as_word-not (v == w))
apply-operation BinOp.and v w = refl
apply-operation BinOp.or v w = refl
