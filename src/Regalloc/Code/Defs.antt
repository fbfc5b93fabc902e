-- ===== src/Regalloc/Code/Defs.antt =====
-- The code and the interpreter of ch08-01-regalloc.rs. An `i64` is its bit pattern, an operator is the code of
-- its character, and a hash map is a function from its keys.
use model_lib.Base.{
  ℕ, zero, suc, Bool, false, Option, none, some, List, [], ◌∷◌, get_elem?, ◌==◌, if◌then◌else◌,
}
use model_lib.Base.Word.{wrapping_add, wrapping_sub, wrapping_mul, signed_le}

pub data Opnd : Type 0 where
  v imm arg : ℕ → Opnd

pub data Tac : Type 0 where
  bin : ℕ → ℕ → Opnd → Opnd → Tac
  copy : ℕ → Opnd → Tac
  label : ℕ → Tac
  jump_if_ge : Opnd → Opnd → ℕ → Tac
  jump : ℕ → Tac
  ret : Opnd → Tac

unfoldable pub apply : ℕ → ℕ → ℕ → ℕ
apply op a b =
    if op == 43 then wrapping_add a b else if op == 45 then wrapping_sub a b else wrapping_mul a b

abbrev pub with_some : {A B : Type 0} → Option A → (A → Option B) → Option B
with_some none f = none
with_some (some a) f = f a

abbrev pub Env : Type 0
Env = ℕ → Option ℕ

abbrev pub updated : Env → ℕ → ℕ → Env
updated env d x w = if d == w then some x else env w

abbrev pub val : List ℕ → Env → Opnd → Option ℕ
val args env (Opnd.v r) = env r
val args env (imm c) = some c
val args env (arg i) = get_elem? args i

abbrev pub is_label : ℕ → Tac → Bool
is_label l (label m) = m == l
is_label l t = false

-- `iter().position(..)`
abbrev pub one_more : Option ℕ → Option ℕ
one_more none = none
one_more (some i) = some (suc i)

unfoldable pub label_of : ℕ → List Tac → Option ℕ
label_of l [] = none
label_of l (t ∷ code) =
    let rest = one_more (label_of l code) in if is_label l t then some 0 else rest

-- A round of a loop: the next index and state, a result, or a panic.
pub data Next (S A : Type 0) : Type 0 where
  goes : ℕ → S → Next S A
  returns : A → Next S A
  crashes : Next S A

abbrev pub or_crash : {S A B : Type 0} → Option B → (B → Next S A) → Next S A
or_crash none f = crashes
or_crash (some b) f = f b

abbrev pub interpret_at : List Tac → List ℕ → ℕ → Tac → Env → Next Env ℕ
interpret_at code args pc (bin d op a b) env =
    or_crash (val args env a)
      (λ x. or_crash (val args env b) (λ y. goes (suc pc) (updated env d (apply op x y))))
interpret_at code args pc (copy d a) env =
    or_crash (val args env a) (λ x. goes (suc pc) (updated env d x))
interpret_at code args pc (label l) env = goes (suc pc) env
interpret_at code args pc (jump_if_ge a b l) env = or_crash (val args env a) (λ x.
    or_crash (val args env b) (λ y.
      if signed_le y x then or_crash (label_of l code) (λ i. goes i env) else goes (suc pc) env))
interpret_at code args pc (jump l) env = or_crash (label_of l code) (λ i. goes i env)
interpret_at code args pc (ret a) env = or_crash (val args env a) returns

unfoldable pub interpret_step : List Tac → List ℕ → ℕ → Env → Next Env ℕ
unfolding apply label_of
interpret_step code args pc env =
    or_crash (get_elem? code pc) (λ t. interpret_at code args pc t env)

pub data Outcome (A : Type 0) : Type 0 where
  result : A → Outcome A
  panicked out_of_fuel : Outcome A

abbrev pub after : {S A : Type 0} → Next S A → (ℕ → S → Outcome A) → Outcome A
after (goes pc s) again = again pc s
after (returns a) again = result a
after crashes again = panicked

-- A loop with a bound on its rounds.
unfoldable pub run : {S A : Type 0} → (ℕ → S → Next S A) → ℕ → ℕ → S → Outcome A
run step zero pc s = out_of_fuel
run step (suc f) pc s = after (step pc s) (run step f)

abbrev pub no_values : Env
no_values w = none

abbrev pub interpret : ℕ → List Tac → List ℕ → Outcome ℕ
interpret f code args = run (interpret_step code args) f 0 no_values
