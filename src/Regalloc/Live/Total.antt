-- ===== src/Regalloc/Live/Total.antt =====
-- `liveness` of ch08-01-regalloc.rs comes to an end on closed code.
use mathlib.Core.Path.{subst}
use mathlib.Core.Option.{some-injective}
use model_lib.Base.{
  ℕ, zero, suc, ◌+◌, ◌≤◌, ◌<◌, ◌≡◌, refl, sym, ap, ◌∙◌, Bool, true, false, ◌&&◌, inl, inr, Option,
  none, some, List, [], ◌∷◌, length, length-replicate, replicate, get_elem?, ltb, arith,
}
use model_lib.Regalloc.Code.Defs.{Tac, result}
use model_lib.Regalloc.Live.Defs.{uses, nothing_live, outs_of, liveness, targets}
use model_lib.Regalloc.Live.Grows.{Below, times}
use model_lib.Regalloc.Live.Tame.{Closed, UsesBelow, IsKept, Tame}
use model_lib.Regalloc.Scan.Members.{In}
use model_lib.Regalloc.Live.Ends.{settle-returns}

-- The targets of every instruction are indices of the code.
abbrev all_below : ℕ → List ℕ → Bool
all_below n [] = true
all_below n (s ∷ ss) = ltb s n && all_below n ss

abbrev all_in_range : ℕ → Option (List ℕ) → Bool
all_in_range n none = false
all_in_range n (some ss) = all_below n ss

abbrev closed_from : List Tac → ℕ → List Tac → Bool
closed_from code i [] = true
closed_from code i (t ∷ rest) =
    all_in_range (length code) (targets code i t) && closed_from code (suc i) rest

-- Every jump has its label, and the last instruction is a jump or a return.
unfoldable pub is_closed : List Tac → Bool
is_closed code = closed_from code 0 code

pub both-true : (a b : Bool) → (a && b) ≡ true → (a ≡ true) × (b ≡ true)
both-true true b h = (refl, h)
both-true false b h = cc

all_below-lt : (n : ℕ) (ss : List ℕ) → all_below n ss ≡ true → (s : ℕ) → In s ss → s < n
all_below-lt n [] h s i = absurd i
all_below-lt n (x ∷ ss) h s i =
    let (a, b) = both-true (ltb x n) (all_below n ss) h in
    elim i [ inl e ↦ ground (arith, a, e) | inr j ↦ all_below-lt n ss b s j ]

all_in_range-some :
    (n : ℕ) (o : Option (List ℕ))
    → all_in_range n o ≡ true
    → (ss : List ℕ) × (o ≡ some ss) × ((s : ℕ) → In s ss → s < n)
all_in_range-some n none h = cc
all_in_range-some n (some ss) h = (ss, refl, all_below-lt n ss h)

closed_from-at :
    (code rest : List Tac) (i j : ℕ) (t : Tac)
    → closed_from code i rest ≡ true
    → get_elem? rest j ≡ some t
    → all_in_range (length code) (targets code (i + j) t) ≡ true
closed_from-at code [] i j t h e = cc
closed_from-at code (u ∷ rest) i zero t h e =
    let (a, b) =
      both-true (all_in_range (length code) (targets code i u)) (closed_from code (suc i) rest) h in
    let here : i + 0 ≡ i = omega arith in
    ap (λ j. all_in_range (length code) (targets code j t)) here
    ∙ sym (ap (λ u. all_in_range (length code) (targets code i u)) (some-injective u t e))
    ∙ a
closed_from-at code (u ∷ rest) i (suc j) t h e =
    let (a, b) =
      both-true (all_in_range (length code) (targets code i u)) (closed_from code (suc i) rest) h in
    ap (λ j. all_in_range (length code) (targets code j t)) (omega arith)
    ∙ closed_from-at code rest (suc i) j t b e

is_closed-Closed : (code : List Tac) → is_closed code ≡ true → Closed code
unfolding is_closed
is_closed-Closed code h i t e = all_in_range-some (length code) (targets code i t) (
    ap (λ j. all_in_range (length code) (targets code j t)) (omega arith)
    ∙ closed_from-at code code 0 i t h e)

-- A number above all registers that are used.
abbrev above_all : List ℕ → ℕ
above_all [] = 0
above_all (w ∷ ws) = suc w + above_all ws

abbrev registers_below : List Tac → ℕ
registers_below [] = 0
registers_below (t ∷ code) = above_all (uses t) + registers_below code

above_all-Below : (ws : List ℕ) (bound : ℕ) → above_all ws ≤ bound → Below bound ws
above_all-Below [] bound le w h = absurd h
above_all-Below (x ∷ ws) bound le w (inl e) = omega (arith, le, e)
above_all-Below (x ∷ ws) bound le w (inr h) = above_all-Below ws bound (omega (arith, le)) w h

code-UsesBelow : (code : List Tac) (bound : ℕ) → registers_below code ≤ bound → UsesBelow bound code
code-UsesBelow [] bound le i t e = cc
code-UsesBelow (u ∷ code) bound le zero t e =
    subst (λ t. Below bound (uses t)) (some-injective u t e)
      (above_all-Below (uses u) bound (omega (arith, le)))
code-UsesBelow (u ∷ code) bound le (suc i) t e = code-UsesBelow code bound (omega (arith, le)) i t e

replicate-empty : (n i : ℕ) (xs : List ℕ) → get_elem? (replicate n []) i ≡ some xs → xs ≡ []
replicate-empty zero i xs e = cc
replicate-empty (suc n) zero xs e = sym (some-injective [] xs e)
replicate-empty (suc n) (suc i) xs e = replicate-empty n i xs e

empty-IsKept : (bound : ℕ) (xs : List ℕ) → xs ≡ [] → IsKept bound xs
empty-IsKept bound xs e = subst (IsKept bound) (sym e) (tt, λ w h. absurd h)

nothing_live-Tame : (bound : ℕ) (code : List Tac) → Tame bound code (nothing_live code)
nothing_live-Tame bound code =
    let n = length code in
    record {
      len_ins = length-replicate n [];
      len_outs = length-replicate n [];
      in_sets = λ i xs e. empty-IsKept bound xs (replicate-empty n i xs e);
      out_sets = λ i xs e. empty-IsKept bound xs (replicate-empty n i xs e);
      grows = λ i t ss all inn out at next gathered in_at out_at. (
        λ w h. absurd (subst (In w) (replicate-empty n i inn in_at) h),
        λ w h. absurd (subst (In w) (replicate-empty n i out out_at) h),
      );
    }

-- The rounds that are enough: a round more than the members of all sets.
abbrev pub rounds : List Tac → ℕ
rounds code =
    let one_table = times (length code) (registers_below code) in suc (one_table + one_table)

-- Where every jump of a code has its label and the code ends in a jump or a return, the liveness analysis comes to
-- an end without a panic, within one round more than twice the product of the number of instructions and of a
-- number above all registers that the code uses.
pub liveness-returns :
    (f : ℕ) (code : List Tac)
    → is_closed code ≡ true
    → rounds code ≤ f
    → (outs : List (List ℕ)) × (liveness f code ≡ result outs)
unfolding liveness
liveness-returns f code h le =
    let bound = registers_below code in
    let small = code-UsesBelow code bound (omega arith) in
    let (s, e) =
      settle-returns bound code (is_closed-Closed code h) small f (nothing_live code)
        (nothing_live-Tame bound code) (omega (arith, le)) in
    (s.outs, ap outs_of e)
