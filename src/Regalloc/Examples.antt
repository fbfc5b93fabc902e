-- ===== src/Regalloc/Examples.antt =====
-- The back end of ch08-01-regalloc.rs on a loop that adds up the numbers below its argument.
use model_lib.Base.{
  length, get_elem?, true, ℕ, ◌+◌, ◌≡◌, refl, ap, ◌∙◌, List, [], ◌∷◌, some, inl, inr, arith,
}
use model_lib.Base.Word.{wrapping_add, wrapping_sub, wrapping_mul, signed_le}
use model_lib.Regalloc.Code.Defs.{
  label_of, Tac, v, imm, arg, bin, copy, label, jump_if_ge, jump, ret, result, interpret_step, run,
}
use model_lib.Regalloc.Live.Defs.{liveness}
use model_lib.Regalloc.Live.Total.{is_closed, liveness-returns}
use model_lib.Regalloc.Live.Equations.{Equations, liveness-Equations}
use model_lib.Regalloc.Scan.Defs.{Interval, Locs, intervals, linear_scan}
use model_lib.Regalloc.Scan.Covers.{IsCover, intervals-IsCover}
use model_lib.Regalloc.Scan.Sound.{Ordered, IsAllocation, linear_scan-IsAllocation}
use model_lib.Regalloc.Select.Defs.{Line, arguments, emulate_step}
use model_lib.Regalloc.Driver.Defs.{back_end, program, inputs, register_counts, expected, verified}
use model_lib.Regalloc.Driver.Verified.{InReach, verified-passes}
use model_lib.Regalloc.Driver.Sound.{Simulates, back_end-Simulates}

abbrev sum_below : List Tac
sum_below =
    copy 0 (imm 0)
    ∷ copy 1 (imm 0)
    ∷ label 0
    ∷ jump_if_ge (v 1) (arg 0) 1
    ∷ bin 0 43 (v 0) (v 1)
    ∷ bin 1 43 (v 1) (imm 1)
    ∷ jump 0
    ∷ label 1
    ∷ ret (v 0)
    ∷ []

abbrev live : List (List ℕ)
live =
    (0 ∷ [])
    ∷ (0 ∷ 1 ∷ [])
    ∷ (0 ∷ 1 ∷ [])
    ∷ (0 ∷ 1 ∷ [])
    ∷ (0 ∷ 1 ∷ [])
    ∷ (0 ∷ 1 ∷ [])
    ∷ (0 ∷ 1 ∷ [])
    ∷ (0 ∷ [])
    ∷ []
    ∷ []

sum_below-closed : is_closed sum_below ≡ true
unfolding is_closed label_of
sum_below-closed = refl

liveness-returns_example : (outs : List (List ℕ)) × (liveness 1000 sum_below ≡ result outs)
liveness-returns_example = liveness-returns 1000 sum_below sum_below-closed (omega arith)

sum_below-live : liveness 4 sum_below ≡ result live
unfolding liveness
sum_below-live = refl

liveness-Equations_example :
    (length sum_below ≡ length live)
    × ((ins : List (List ℕ)) × ((i : ℕ) (t : Tac) (out : List ℕ)
          → get_elem? sum_below i ≡ some t
          → get_elem? live i ≡ some out
          → Equations sum_below ins i t out))
liveness-Equations_example = liveness-Equations 4 sum_below live sum_below-live

intervals-IsCover_example :
    (xs : List Interval) × (intervals sum_below live ≡ some xs) × IsCover sum_below live xs
intervals-IsCover_example = intervals-IsCover sum_below live refl

back_end-Simulates_example :
    (asm : List Line) × (back_end 1000 1 sum_below ≡ result asm) × Simulates sum_below asm
back_end-Simulates_example =
    back_end-Simulates 1000 1 sum_below (omega arith) (omega arith) sum_below-closed refl
      (omega arith)

abbrev two_spans : List Interval
two_spans = record { vreg = 0; start = 0; end = 8 } ∷ record { vreg = 1; start = 1; end = 6 } ∷ []

two_spans-Ordered : Ordered 0 two_spans
two_spans-Ordered = (
  omega arith,
  λ y h d. elim h [
    | inl e ↦ let z : 0 ≡ 1 = d ∙ ap (λ x. x.vreg) e in omega (arith, z)
    | inr n ↦ absurd n
  ],
  (omega arith, λ y h. elim h [ ], tt),
)

linear_scan-IsAllocation_example :
    (loc : Locs) × (linear_scan two_spans 1 ≡ some loc) × IsAllocation 1 two_spans loc
linear_scan-IsAllocation_example =
    linear_scan-IsAllocation 1 two_spans (omega arith) two_spans-Ordered

-- `program` and the inputs of `main`.
abbrev values : List ℕ
values = 18446744073709551426 ∷ 0 ∷ 18446744073709550926 ∷ 765612 ∷ []

program-closed : is_closed program ≡ true
unfolding is_closed label_of
program-closed = refl

program-values : expected 300 program inputs ≡ result values
unfolding expected run interpret_step wrapping_add wrapping_sub wrapping_mul signed_le
program-values = refl

in_reach : InReach register_counts
in_reach = (
  omega arith,
  omega arith,
  (
    omega arith,
    omega arith,
    (
      omega arith,
      omega arith,
      (omega arith, omega arith, (omega arith, omega arith, (omega arith, omega arith, tt))),
    ),
  ),
)

verified-passes_example :
    (h : ℕ) × ((n : ℕ) → verified 10000 300 (h + n) program inputs register_counts ≡ result tt)
verified-passes_example =
    verified-passes 10000 300 program inputs values register_counts in_reach program-closed refl
      (omega arith) program-values

-- `main` passes with 900 rounds of the emulator.
program-verified : verified 3 300 900 program inputs register_counts ≡ result tt
unfolding verified run interpret_step emulate_step arguments wrapping_add wrapping_sub wrapping_mul
    signed_le
program-verified = refl
