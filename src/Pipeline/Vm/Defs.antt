-- ===== src/Pipeline/Vm/Defs.antt =====
-- Stage 6 of ch01-01-pipeline.rs: `run`, the stack machine. A value is the bit pattern of an `i64`.
use model_lib.Base.{
  ℕ, zero, suc, ◌+◌, not, Option, none, some, List, [], ◌∷◌, get_elem?, set, replicate, ◌==◌,
  if◌then◌else◌, as_word,
}
use model_lib.Base.Word.{
  wrapping_add, wrapping_sub, wrapping_mul, wrapping_div, wrapping_rem, wrapping_neg, signed_lt,
  signed_le,
}
use model_lib.Pipeline.Syntax.{BinOp}
use model_lib.Pipeline.Lowerer.Defs.{Op, push, load, store, bin, jump, jump_if_false, halt}

-- What the match on a binary operator comes to. It panics for `and` and `or`, and where a division does.
pub data Arith : Type 0 where
  value : ℕ → Arith
  div_by_zero panics : Arith

abbrev pub or_panic : Option ℕ → Arith
or_panic none = panics
or_panic (some v) = value v

unfoldable pub apply : BinOp → ℕ → ℕ → Arith
unfolding wrapping_add wrapping_sub wrapping_mul wrapping_div wrapping_rem signed_lt signed_le
apply BinOp.add a b = value (wrapping_add a b)
apply BinOp.sub a b = value (wrapping_sub a b)
apply BinOp.mul a b = value (wrapping_mul a b)
apply BinOp.div a b = if b == 0 then div_by_zero else or_panic (wrapping_div a b)
apply BinOp.rem a b = if b == 0 then div_by_zero else or_panic (wrapping_rem a b)
apply BinOp.lt a b = value (as_word (signed_lt a b))
apply BinOp.le a b = value (as_word (signed_le a b))
apply BinOp.gt a b = value (as_word (signed_lt b a))
apply BinOp.ge a b = value (as_word (signed_le b a))
apply BinOp.eq a b = value (as_word (a == b))
apply BinOp.ne a b = value (as_word (not (a == b)))
apply BinOp.and a b = panics
apply BinOp.or a b = panics

-- The top of the stack stands first.
pub record Machine : Type 0 where
  pub pc : ℕ
  pub stack : List ℕ
  pub slots : List ℕ

abbrev pub machine : ℕ → List ℕ → List ℕ → Machine
machine pc stack slots = record { pc = pc; stack = stack; slots = slots }

-- One round of the loop: `crashed` is a panic.
pub data Event : Type 0 where
  running : Machine → Event
  halted : ℕ → Event
  errored : ℕ → Event
  crashed : Event

abbrev pub pop : List ℕ → (ℕ → List ℕ → Event) → Event
pop [] k = crashed
pop (v ∷ s) k = k v s

abbrev pub or_crash : Option ℕ → (ℕ → Event) → Event
or_crash none k = crashed
or_crash (some v) k = k v

abbrev pub finish_bin : ℕ → List ℕ → List ℕ → Arith → Event
finish_bin pc s slots (value v) = running (machine (pc + 1) (v ∷ s) slots)
finish_bin pc s slots div_by_zero = errored pc
finish_bin pc s slots panics = crashed

-- The match on `code[pc]`, with the step of `pc` behind it.
unfoldable pub execute : Op → ℕ → List ℕ → List ℕ → Event
unfolding apply wrapping_neg
execute (push n) pc stack slots = running (machine (pc + 1) (n ∷ stack) slots)
execute (load s) pc stack slots =
    or_crash (get_elem? slots s) λ v. running (machine (pc + 1) (v ∷ stack) slots)
execute (store s) pc stack slots =
    pop stack
      λ v rest. or_crash (get_elem? slots s) λ _. running (machine (pc + 1) rest (set slots s v))
execute Op.neg pc stack slots =
    pop stack λ v rest. running (machine (pc + 1) (wrapping_neg v ∷ rest) slots)
execute Op.not pc stack slots =
    pop stack λ v rest. running (machine (pc + 1) (as_word (v == 0) ∷ rest) slots)
execute (bin op) pc stack slots =
    pop stack λ b rest₁. pop rest₁ λ a rest. finish_bin pc rest slots (apply op a b)
execute (jump t) pc stack slots = running (machine t stack slots)
execute (jump_if_false t) pc stack slots =
    pop stack λ v rest. running (machine (if v == 0 then t else pc + 1) rest slots)
execute halt pc stack slots = pop stack λ v rest. halted v

abbrev pub execute_at : Option Op → Machine → Event
execute_at none m = crashed
execute_at (some op) m = execute op m.pc m.stack m.slots

unfoldable pub step : List Op → Machine → Event
unfolding execute
step code m = execute_at (get_elem? code m.pc) m

-- `Ok((value, steps))`, `Err(division by zero at pc)`, a panic, or a loop that goes on.
pub data Run : Type 0 where
  returned : ℕ → ℕ → Run
  division_by_zero : ℕ → Run
  panicked unfinished : Run

-- `steps` counts this round, and `rest` is the loop behind it.
abbrev pub after : ℕ → (Machine → Run) → Event → Run
after steps rest (running m) = rest m
after steps rest (halted v) = returned v steps
after steps rest (errored pc) = division_by_zero pc
after steps rest crashed = panicked

-- The loop, with at most `fuel` rounds.
unfoldable pub run_loop : ℕ → List Op → ℕ → Machine → Run
unfolding step
run_loop zero code steps m = unfinished
run_loop (suc fuel) code steps m = after (steps + 1) (run_loop fuel code (steps + 1)) (step code m)

unfoldable pub run : ℕ → List Op → ℕ → Run
unfolding run_loop
run fuel code nslots = run_loop fuel code 0 (machine 0 [] (replicate nslots 0))
