-- ===== src/Regalloc/Driver/Defs.antt =====
-- The passes of `main` in ch08-01-regalloc.rs for a number of registers.
use model_lib.Base.{ℕ, ◌==◌, if◌then◌else◌, Option, none, some, List, [], ◌∷◌}
use model_lib.Regalloc.Code.Defs.{
  Tac, v, imm, arg, bin, copy, label, jump_if_ge, jump, ret, Outcome, result, panicked, out_of_fuel,
  interpret,
}
use model_lib.Regalloc.Live.Defs.{liveness}
use model_lib.Regalloc.Scan.Defs.{Interval, intervals, linear_scan}
use model_lib.Regalloc.Select.Defs.{Line, select, emulate}

abbrev pub and_then : {A B : Type 0} → Outcome A → (A → Outcome B) → Outcome B
and_then (result a) f = f a
and_then panicked f = panicked
and_then out_of_fuel f = out_of_fuel

abbrev pub or_panic : {A B : Type 0} → Option A → (A → Outcome B) → Outcome B
or_panic none f = panicked
or_panic (some a) f = f a

-- The passes behind the liveness analysis.
abbrev pub assembled : ℕ → List Tac → List (List ℕ) → Outcome (List Line)
assembled k code outs =
    or_panic (intervals code outs)
      (λ spans. or_panic (linear_scan spans k) (λ loc. or_panic (select code loc) result))

unfoldable pub back_end : ℕ → ℕ → List Tac → Outcome (List Line)
unfolding liveness intervals linear_scan select
back_end f k code = and_then (liveness f code) (assembled k code)

-- `program`, with 43 for `+`, 45 for `-` and 42 for `*`.
abbrev pub program : List Tac
program =
    bin 1 43 (arg 1) (imm 1)
    ∷ bin 2 43 (arg 2) (imm 2)
    ∷ bin 3 42 (arg 1) (arg 2)
    ∷ bin 4 43 (v 1) (v 2)
    ∷ bin 5 45 (v 3) (v 1)
    ∷ bin 6 42 (v 4) (v 5)
    ∷ bin 7 43 (v 2) (v 3)
    ∷ copy 8 (imm 0)
    ∷ copy 9 (imm 0)
    ∷ label 0
    ∷ jump_if_ge (v 9) (arg 0) 1
    ∷ bin 10 42 (v 1) (v 9)
    ∷ bin 11 43 (v 10) (v 2)
    ∷ bin 12 43 (v 11) (v 3)
    ∷ bin 13 45 (v 12) (v 4)
    ∷ bin 14 43 (v 13) (v 5)
    ∷ bin 15 45 (v 14) (v 6)
    ∷ bin 16 43 (v 15) (v 7)
    ∷ bin 8 43 (v 8) (v 16)
    ∷ bin 9 43 (v 9) (imm 1)
    ∷ jump 0
    ∷ label 1
    ∷ ret (v 8)
    ∷ []

-- The inputs and the numbers of registers in `main`; the two long numbers are the patterns
-- of -7 and of -50.
abbrev pub inputs : List (List ℕ)
inputs =
    (5 ∷ 3 ∷ 4 ∷ [])
    ∷ (0 ∷ 1 ∷ 1 ∷ [])
    ∷ (10 ∷ 18446744073709551609 ∷ 2 ∷ [])
    ∷ (3 ∷ 100 ∷ 18446744073709551566 ∷ [])
    ∷ []

abbrev pub register_counts : List ℕ
register_counts = 2 ∷ 3 ∷ 4 ∷ 6 ∷ 8 ∷ 12 ∷ []

unfoldable pub expected : ℕ → List Tac → List (List ℕ) → Outcome (List ℕ)
expected f code [] = result []
expected f code (a ∷ tests) =
    and_then (interpret f code a)
      (λ want. and_then (expected f code tests) (λ wants. result (want ∷ wants)))

-- `assert_eq!`
abbrev pub asserted : ℕ → ℕ × ℕ → Outcome Unit
asserted want (x, ops) = if x == want then result tt else panicked

-- The emulator on each input, against the values that the interpreter gave.
unfoldable pub compared : ℕ → List Line → List (List ℕ) → List ℕ → Outcome Unit
compared f asm (a ∷ tests) (want ∷ wants) =
    and_then (and_then (emulate f asm a) (asserted want)) (λ done. compared f asm tests wants)
compared f asm [] wants = result tt
compared f asm (a ∷ tests) [] = result tt

abbrev pub tried : ℕ → List Tac → List Interval → List (List ℕ) → List ℕ → ℕ → Outcome Unit
tried f code spans tests wants k =
    or_panic (linear_scan spans k)
      (λ loc. or_panic (select code loc) (λ asm. compared f asm tests wants))

unfoldable pub all_tried :
    ℕ → List Tac → List Interval → List (List ℕ) → List ℕ → List ℕ → Outcome Unit
unfolding linear_scan select compared
all_tried f code spans tests wants [] = result tt
all_tried f code spans tests wants (k ∷ ks) =
    and_then (tried f code spans tests wants k) (λ done. all_tried f code spans tests wants ks)

-- `main` on a program, with bounds on the rounds of the analysis, of the interpreter and of the emulator.
unfoldable pub verified : ℕ → ℕ → ℕ → List Tac → List (List ℕ) → List ℕ → Outcome Unit
unfolding liveness intervals expected all_tried
verified f g h code tests ks = and_then (liveness f code) (λ outs.
    or_panic (intervals code outs)
      (λ spans. and_then (expected g code tests) (λ wants. all_tried h code spans tests wants ks)))
