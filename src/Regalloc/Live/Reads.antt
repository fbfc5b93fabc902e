-- ===== src/Regalloc/Live/Reads.antt =====
-- What the instructions of ch08-01-regalloc.rs read, define and go on to, said by cases, and the lists of
-- `uses_defs` and `succ`.
use mathlib.Core.Path.{subst}
use mathlib.Core.Option.{some-injective}
use model_lib.Base.{ℕ, suc, ◌≡◌, refl, sym, ap, ◌⊎◌, inl, inr, Option, none, some, List, ◌++◌}
use model_lib.Regalloc.Code.Defs.{
  Opnd, v, imm, arg, Tac, bin, copy, label, jump_if_ge, jump, ret, label_of,
}
use model_lib.Regalloc.Live.Defs.{vregs, uses, def}
use model_lib.Regalloc.Scan.Defs.{listed, touched}
use model_lib.Regalloc.Scan.Members.{In, In-append_left, In-append_right, In-append_cases}

pub data Reads : Tac → ℕ → Type 0 where
  left_of : {d o w : ℕ} {b : Opnd} → Reads (bin d o (v w) b) w
  right_of : {d o w : ℕ} {a : Opnd} → Reads (bin d o a (v w)) w
  copied : {d w : ℕ} → Reads (copy d (v w)) w
  compared : {l w : ℕ} {b : Opnd} → Reads (jump_if_ge (v w) b l) w
  compared_to : {l w : ℕ} {a : Opnd} → Reads (jump_if_ge a (v w) l) w
  returned : {w : ℕ} → Reads (ret (v w)) w

pub data Defines : Tac → ℕ → Type 0 where
  by_bin : {d o : ℕ} {a b : Opnd} → Defines (bin d o a b) d
  by_copy : {d : ℕ} {a : Opnd} → Defines (copy d a) d

-- The instructions that the one at an index can be followed by.
pub data GoesTo (code : List Tac) (i : ℕ) : Tac → ℕ → Type 0 where
  behind_bin : {d o : ℕ} {a b : Opnd} → GoesTo code i (bin d o a b) (suc i)
  behind_copy : {d : ℕ} {a : Opnd} → GoesTo code i (copy d a) (suc i)
  behind_label : {l : ℕ} → GoesTo code i (label l) (suc i)
  behind_test : {l : ℕ} {a b : Opnd} → GoesTo code i (jump_if_ge a b l) (suc i)
  from_test : {l j : ℕ} {a b : Opnd} → label_of l code ≡ some j → GoesTo code i (jump_if_ge a b l) j
  from_jump : {l j : ℕ} → label_of l code ≡ some j → GoesTo code i (jump l) j

-- One operand.
vregs-eq : (o : Opnd) (w : ℕ) → In w (vregs o) → o ≡ v w
vregs-eq (v r) w (inl e) = ap v (sym e)
vregs-eq (v r) w (inr h) = absurd h
vregs-eq (imm c) w h = absurd h
vregs-eq (arg i) w h = absurd h

both-cases :
    (a b : Opnd) (w : ℕ) (P : Opnd → Opnd → Type 0)
    → ((b : Opnd) → P (v w) b)
    → ((a : Opnd) → P a (v w))
    → In w (vregs a ++ vregs b)
    → P a b
both-cases a b w P f g h = elim (In-append_cases w (vregs a) (vregs b) h) [
  | inl i ↦ subst (λ a. P a b) (sym (vregs-eq a w i)) (f b)
  | inr i ↦ subst (P a) (sym (vregs-eq b w i)) (g a)
]

pub uses-Reads : (t : Tac) (w : ℕ) → In w (uses t) → Reads t w
uses-Reads (bin d o a b) w h =
    both-cases a b w (λ a b. Reads (bin d o a b) w) (λ b. left_of) (λ a. right_of) h
uses-Reads (copy d a) w h = subst (λ a. Reads (copy d a) w) (sym (vregs-eq a w h)) copied
uses-Reads (label l) w h = absurd h
uses-Reads (jump_if_ge a b l) w h =
    both-cases a b w (λ a b. Reads (jump_if_ge a b l) w) (λ b. compared) (λ a. compared_to) h
uses-Reads (jump l) w h = absurd h
uses-Reads (ret a) w h = subst (λ a. Reads (ret a) w) (sym (vregs-eq a w h)) returned

pub Reads-uses : (t : Tac) (w : ℕ) → Reads t w → In w (uses t)
Reads-uses (bin d o a b) w left_of = inl refl
Reads-uses (bin d o a b) w right_of = In-append_right w (vregs a) (vregs b) (inl refl)
Reads-uses (copy d a) w copied = inl refl
Reads-uses (jump_if_ge a b l) w compared = inl refl
Reads-uses (jump_if_ge a b l) w compared_to = In-append_right w (vregs a) (vregs b) (inl refl)
Reads-uses (ret a) w returned = inl refl
Reads-uses (label l) w h = elim h [ ]
Reads-uses (jump l) w h = elim h [ ]

pub def-Defines : (t : Tac) (w : ℕ) → def t ≡ some w → Defines t w
def-Defines (bin d o a b) w e = subst (Defines (bin d o a b)) (some-injective d w e) by_bin
def-Defines (copy d a) w e = subst (Defines (copy d a)) (some-injective d w e) by_copy
def-Defines (label l) w e = cc
def-Defines (jump_if_ge a b l) w e = cc
def-Defines (jump l) w e = cc
def-Defines (ret a) w e = cc

pub Defines-def : (t : Tac) (w : ℕ) → Defines t w → def t ≡ some w
Defines-def (bin d o a b) w by_bin = refl
Defines-def (copy d a) w by_copy = refl
Defines-def (label l) w h = elim h [ ]
Defines-def (jump_if_ge a b l) w h = elim h [ ]
Defines-def (jump l) w h = elim h [ ]
Defines-def (ret a) w h = elim h [ ]

-- What the intervals are widened by.
pub touched-cases :
    (t : Tac) (out : List ℕ) (w : ℕ) → In w (touched t out) → (Reads t w ⊎ Defines t w) ⊎ In w out
touched-cases t out w h = elim (In-append_cases w (uses t) (listed (def t) ++ out) h) [
  | inl i ↦ inl (inl (uses-Reads t w i))
  | inr j ↦ elim (In-append_cases w (listed (def t)) out j) [
    | inl k ↦ inl (inr (def-Defines t w (listed-some (def t) k)))
    | inr k ↦ inr k
  ]
]
  where
    listed-some : (o : Option ℕ) → In w (listed o) → o ≡ some w
    listed-some none i = absurd i
    listed-some (some d) (inl e) = ap some (sym e)
    listed-some (some d) (inr i) = absurd i

pub touched-In :
    (t : Tac) (out : List ℕ) (w : ℕ) → (Reads t w ⊎ Defines t w) ⊎ In w out → In w (touched t out)
touched-In t out w (inl (inl r)) =
    In-append_left w (uses t) (listed (def t) ++ out) (Reads-uses t w r)
touched-In t out w (inl (inr d)) = In-append_right w (uses t) (listed (def t) ++ out) (
    In-append_left w (listed (def t)) out
      (subst (λ o. In w (listed o)) (sym (Defines-def t w d)) (inl refl)))
touched-In t out w (inr h) =
    In-append_right w (uses t) (listed (def t) ++ out) (In-append_right w (listed (def t)) out h)
