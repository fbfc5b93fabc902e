-- ===== src/Regalloc/Select/Defs.antt =====
-- Instruction selection and the emulator of ch08-01-regalloc.rs. A line of assembly is its mnemonic and its
-- operands, and the text of an operand is one constructor for each of the forms that `place` prints.
use Prim.Native.Nat.{◌*◌, ◌^◌}
use model_lib.Base.{
  ℕ, suc, ◌+◌, Bool, true, false, ◌&&◌, ◌||◌, Option, none, some, List, [], ◌∷◌, ◌++◌, get_elem?,
  ltb, ◌==◌, if◌then◌else◌,
}
use model_lib.Base.Word.{signed_le}
use model_lib.Regalloc.Code.Defs.{
  Opnd, v, imm, arg, Tac, bin, copy, label, jump_if_ge, jump, ret, apply, with_some, one_more, Next,
  goes, returns, or_crash, Outcome, run,
}
use model_lib.Regalloc.Scan.Defs.{Loc, reg, slot, Locs}

pub data Text : Type 0 where
  register stack args number : ℕ → Text
  scratch rax : Text

pub data Mnemonic : Type 0 where
  add sub imul : Mnemonic

pub data Line : Type 0 where
  mov cmp : Text → Text → Line
  op : Mnemonic → Text → Text → Line
  label_line jge jmp : ℕ → Line
  ret_line : Line

unfoldable pub text_eq : Text → Text → Bool
text_eq (register a) (register b) = a == b
text_eq (stack a) (stack b) = a == b
text_eq (args a) (args b) = a == b
text_eq (number a) (number b) = a == b
text_eq scratch scratch = true
text_eq rax rax = true
text_eq _ _ = false

-- There are twelve names in `REGS`.
abbrev pub at_loc : Loc → Option Text
at_loc (reg r) = if ltb r 12 then some (register r) else none
at_loc (slot s) = some (stack s)

-- The offset of an argument is a `u32`, and panics where it overflows.
abbrev pub place : Locs → Opnd → Option Text
place loc (v w) = with_some (loc w) at_loc
place loc (imm c) = some (number c)
place loc (arg i) = if ltb (8 * i) (2 ^ 32) then some (args i) else none

abbrev pub is_mem : Text → Bool
is_mem (stack s) = true
is_mem (args i) = true
is_mem t = false

abbrev pub is_number : Text → Bool
is_number (number c) = true
is_number t = false

abbrev pub mnemonic : ℕ → Mnemonic
mnemonic o = if o == 43 then add else if o == 45 then sub else imul

abbrev pub copy_lines : Text → Text → List Line
copy_lines d a = if is_mem d && is_mem a then mov scratch a ∷ mov d scratch ∷ [] else mov d a ∷ []

abbrev pub bin_lines : Mnemonic → Text → Text → Text → List Line
bin_lines m d a b =
    if is_mem d || text_eq d b
    then mov scratch a ∷ op m scratch b ∷ mov d scratch ∷ []
    else if text_eq d a
    then op m d b ∷ []
    else mov d a ∷ op m d b ∷ []

abbrev pub compare_lines : Text → Text → ℕ → List Line
compare_lines a b l =
    if is_mem a || is_number a
    then mov scratch a ∷ cmp scratch b ∷ jge l ∷ []
    else cmp a b ∷ jge l ∷ []

unfoldable pub select_one : Locs → Tac → Option (List Line)
unfolding text_eq
select_one loc (copy d a) =
    with_some (place loc (v d)) (λ p. with_some (place loc a) (λ q. some (copy_lines p q)))
select_one loc (bin d o a b) = with_some (place loc (v d)) (λ p.
    with_some (place loc a)
      (λ q. with_some (place loc b) (λ r. some (bin_lines (mnemonic o) p q r))))
select_one loc (label l) = some (label_line l ∷ [])
select_one loc (jump_if_ge a b l) =
    with_some (place loc a) (λ q. with_some (place loc b) (λ r. some (compare_lines q r l)))
select_one loc (jump l) = some (jmp l ∷ [])
select_one loc (ret a) = with_some (place loc a) (λ q. some (mov rax q ∷ ret_line ∷ []))

unfoldable pub select : List Tac → Locs → Option (List Line)
unfolding select_one
select [] loc = some []
select (t ∷ code) loc =
    with_some (select_one loc t)
      (λ lines. with_some (select code loc) (λ rest. some (lines ++ rest)))

-- The memory by the texts of its places, the flag of the last comparison, and the count.
abbrev pub Memory : Type 0
Memory = Text → Option ℕ

pub record Machine : Type 0 where
  pub memory : Memory
  pub flag_ge : Bool
  pub mem_ops : ℕ

abbrev pub read : Memory → Text → Option ℕ
read m (number c) = some c
read m t = m t

abbrev pub write : Memory → Text → ℕ → Memory
write m t x u = if text_eq t u then some x else m u

abbrev pub brackets : Text → ℕ
brackets t = if is_mem t then 1 else 0

-- `line.matches('[').count()`
abbrev pub mem_operands : Line → ℕ
mem_operands (mov a b) = brackets a + brackets b
mem_operands (cmp a b) = brackets a + brackets b
mem_operands (op m a b) = brackets a + brackets b
mem_operands l = 0

abbrev pub operator : Mnemonic → ℕ
operator add = 43
operator sub = 45
operator imul = 42

abbrev pub is_target : ℕ → Line → Bool
is_target l (label_line m) = m == l
is_target l line = false

unfoldable pub line_of : ℕ → List Line → Option ℕ
line_of l [] = none
line_of l (x ∷ asm) = let rest = one_more (line_of l asm) in if is_target l x then some 0 else rest

abbrev pub Stop : Type 0
Stop = Next Machine (ℕ × ℕ)

abbrev pub jumps : List Line → ℕ → Machine → Stop
jumps asm l m = or_crash (line_of l asm) (λ i. goes i m)

abbrev pub written : ℕ → Machine → Text → ℕ → Stop
written pc m d x = goes (suc pc) (record m { memory = write m.memory d x })

abbrev pub emulate_at : List Line → ℕ → Line → Machine → Stop
emulate_at asm pc (mov d a) m = or_crash (read m.memory a) (written pc m d)
emulate_at asm pc (op o d a) m =
    or_crash (read m.memory d)
      (λ x. or_crash (read m.memory a) (λ y. written pc m d (apply (operator o) x y)))
emulate_at asm pc (cmp a b) m =
    or_crash (read m.memory a)
      (λ x. or_crash (read m.memory b) (λ y. goes (suc pc) (record m { flag_ge = signed_le y x })))
emulate_at asm pc (jmp l) m = jumps asm l m
emulate_at asm pc (jge l) m = if m.flag_ge then jumps asm l m else goes (suc pc) m
emulate_at asm pc ret_line m = or_crash (m.memory rax) (λ x. returns (x, m.mem_ops))
emulate_at asm pc (label_line l) m = goes (suc pc) m

abbrev pub counted : Line → Machine → Machine
counted line m = record m { mem_ops = m.mem_ops + mem_operands line }

unfoldable pub emulate_step : List Line → ℕ → Machine → Stop
unfolding apply line_of text_eq
emulate_step asm pc m =
    or_crash (get_elem? asm pc) (λ line. emulate_at asm pc line (counted line m))

-- The arguments in their places.
unfoldable pub arguments : List ℕ → Memory
arguments xs (args i) = get_elem? xs i
arguments xs t = none

abbrev pub booted : List ℕ → Machine
booted xs = record { memory = arguments xs; flag_ge = false; mem_ops = 0 }

abbrev pub emulate : ℕ → List Line → List ℕ → Outcome (ℕ × ℕ)
emulate f asm xs = run (emulate_step asm) f 0 (booted xs)
