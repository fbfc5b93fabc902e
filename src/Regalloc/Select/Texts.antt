-- ===== src/Regalloc/Select/Texts.antt =====
-- Texts of operands in ch08-01-regalloc.rs, and what a write to one changes.
use Prim.Native.Nat.{◌*◌, ◌^◌}
use mathlib.Core.Option.{some-injective, none-ne-some}
use model_lib.Base.{
  ℕ, ◌≡◌, ◌≢◌, refl, sym, ap, ◌∙◌, true, false, Bool-cases, inl, inr, none, some, List, get_elem?,
  ltb, ◌==◌, ==_iff, if◌then◌else◌, if_true, if_false, arith,
}
use model_lib.Regalloc.Code.Defs.{Opnd, v, imm, arg, Env, val, apply}
use model_lib.Regalloc.Scan.Defs.{Loc, reg, slot, Locs}
use model_lib.Regalloc.Live.Defs.{vregs}
use model_lib.Regalloc.Scan.Members.{In}
use model_lib.Regalloc.Live.Sets.{with_some-inv}
use model_lib.Regalloc.Select.Defs.{
  Text, register, stack, args, number, scratch, rax, text_eq, at_loc, place, Memory, read, write,
  mnemonic, operator,
}

pub text_eq_refl : (t : Text) → text_eq t t ≡ true
unfolding text_eq
text_eq_refl (register a) = ground arith
text_eq_refl (stack a) = ground arith
text_eq_refl (args a) = ground arith
text_eq_refl (number a) = ground arith
text_eq_refl scratch = refl
text_eq_refl rax = refl

pub text_eq→eq : (t u : Text) → text_eq t u ≡ true → t ≡ u
unfolding text_eq
text_eq→eq (register a) (register b) h = ap register ((==_iff a b).0 h)
text_eq→eq (stack a) (stack b) h = ap stack ((==_iff a b).0 h)
text_eq→eq (args a) (args b) h = ap args ((==_iff a b).0 h)
text_eq→eq (number a) (number b) h = ap number ((==_iff a b).0 h)
text_eq→eq scratch scratch h = refl
text_eq→eq rax rax h = refl
text_eq→eq _ _ h = cc

pub ne→text_eq : (t u : Text) → t ≢ u → text_eq t u ≡ false
ne→text_eq t u h = elim (Bool-cases (text_eq t u)) [
  | inl e ↦ absurd (h (text_eq→eq t u e))
  | inr e ↦ e
]

pub write-same : (m : Memory) (t : Text) (x : ℕ) → write m t x t ≡ some x
write-same m t x = if_true _ _ (text_eq_refl t)

pub write-other : (m : Memory) (t u : Text) (x : ℕ) → text_eq t u ≡ false → write m t x u ≡ m u
write-other m t u x e = if_false _ _ e

pub read-write :
    (m : Memory) (t u : Text) (x : ℕ) → text_eq t u ≡ false → read (write m t x) u ≡ read m u
read-write m t (register a) x e = if_false _ _ e
read-write m t (stack a) x e = if_false _ _ e
read-write m t (args a) x e = if_false _ _ e
read-write m t (number a) x e = refl
read-write m t scratch x e = if_false _ _ e
read-write m t rax x e = if_false _ _ e

-- The text of a place.
abbrev pub text_of : Loc → Text
text_of (reg r) = register r
text_of (slot s) = stack s

pub at_loc-text_of : (l : Loc) (t : Text) → at_loc l ≡ some t → t ≡ text_of l
at_loc-text_of (reg r) t h = elim (Bool-cases (ltb r 12)) [
  | inl e ↦ let k : some (register r) ≡ some t = rw e at h in cc
  | inr e ↦ let k : none ≡ some t = rw e at h in cc
]
at_loc-text_of (slot s) t h = cc

pub text_of-injective : (k l : Loc) → text_of k ≡ text_of l → k ≡ l
text_of-injective (reg a) (reg b) h = cc
text_of-injective (reg a) (slot b) h = cc
text_of-injective (slot a) (reg b) h = cc
text_of-injective (slot a) (slot b) h = cc

pub text_of-scratch : (l : Loc) → text_eq scratch (text_of l) ≡ false
unfolding text_eq
text_of-scratch (reg r) = refl
text_of-scratch (slot s) = refl

pub text_of-args : (l : Loc) (i : ℕ) → text_eq (text_of l) (args i) ≡ false
unfolding text_eq
text_of-args (reg r) i = refl
text_of-args (slot s) i = refl

-- The memory holds the live registers in their places, and the arguments.
pub record Agree (xs : List ℕ) (loc : Locs) (live : ℕ → Type 0) (env : Env) (m : Memory)
    : Type 0 where
  pub values :
      (w x : ℕ) (l : Loc) → live w → env w ≡ some x → loc w ≡ some l → m (text_of l) ≡ some x
  pub arguments : (i : ℕ) → m (args i) ≡ get_elem? xs i

place_arg :
    (i : ℕ) (t : Text)
    → (if ltb (8 * i) (2 ^ 32) then some (args i) else none) ≡ some t
    → t ≡ args i
place_arg i t h = elim (Bool-cases (ltb (8 * i) (2 ^ 32))) [
  | inl e ↦ sym (some-injective (args i) t (sym (if_true _ _ e) ∙ h))
  | inr e ↦ absurd (none-ne-some t (sym (if_false _ _ e) ∙ h))
]

pub place-scratch :
    (loc : Locs) (o : Opnd) (t : Text) → place loc o ≡ some t → text_eq scratch t ≡ false
unfolding text_eq
place-scratch loc (v w) t h =
    let (l, p, q) = with_some-inv (loc w) at_loc t h in
    ap (text_eq scratch) (at_loc-text_of l t q) ∙ text_of-scratch l
place-scratch loc (imm c) t h = let e : number c ≡ t = cc in ap (text_eq scratch) (sym e)
place-scratch loc (arg i) t h = ap (text_eq scratch) (place_arg i t h)

pub read-text_of : (m : Memory) (l : Loc) → read m (text_of l) ≡ m (text_of l)
read-text_of m (reg r) = refl
read-text_of m (slot s) = refl

-- An operand has its value in memory.
pub read-place :
    (xs : List ℕ) (loc : Locs) (live : ℕ → Type 0) (env : Env) (m : Memory) (o : Opnd) (x : ℕ)
    (t : Text)
    → Agree xs loc live env m
    → ((w : ℕ) → In w (vregs o) → live w)
    → val xs env o ≡ some x
    → place loc o ≡ some t
    → read m t ≡ some x
read-place xs loc live env m (v w) x t k h e p =
    let (l, q, r) = with_some-inv (loc w) at_loc t p in
    ap (read m) (at_loc-text_of l t r) ∙ read-text_of m l ∙ k.values w x l (h w (inl refl)) e q
read-place xs loc live env m (imm c) x t k h e p =
    let d : number c ≡ t = cc in ap (read m) (sym d) ∙ e
read-place xs loc live env m (arg i) x t k h e p = ap (read m) (place_arg i t p) ∙ k.arguments i ∙ e

-- One text gets a value, and at most the scratch register another one.
pub record Puts (m : Memory) (d : Text) (x : ℕ) (m' : Memory) : Type 0 where
  pub put : m' d ≡ some x
  pub rest : (u : Text) → text_eq d u ≡ false → text_eq scratch u ≡ false → m' u ≡ m u

pub apply-mnemonic : (op a b : ℕ) → apply (operator (mnemonic op)) a b ≡ apply op a b
unfolding apply
apply-mnemonic op a b = elim (Bool-cases (op == 43)) [
  | inl e ↦ rw e refl
  | inr e ↦ elim (Bool-cases (op == 45)) [ inl d ↦ rw (e, d) refl | inr d ↦ rw (e, d) refl ]
]
