-- ===== src/Regalloc/Live/Defs.antt =====
-- The backward data flow of ch08-01-regalloc.rs over the list of instructions.
use model_lib.Base.{
  ℕ, zero, suc, Bool, true, false, ◌&&◌, Option, none, some, List, [], ◌∷◌, ◌++◌, length, get_elem?,
  set, replicate, leb, ◌==◌, if◌then◌else◌, name_eq,
}
use model_lib.Regalloc.Code.Defs.{
  Opnd, v, imm, arg, Tac, bin, copy, label, jump_if_ge, jump, ret, with_some, label_of, Outcome,
  result, panicked, out_of_fuel,
}

abbrev pub vregs : Opnd → List ℕ
vregs (v r) = r ∷ []
vregs (imm c) = []
vregs (arg i) = []

abbrev pub uses : Tac → List ℕ
uses (bin d op a b) = vregs a ++ vregs b
uses (copy d a) = vregs a
uses (label l) = []
uses (jump_if_ge a b l) = vregs a ++ vregs b
uses (jump l) = []
uses (ret a) = vregs a

abbrev pub def : Tac → Option ℕ
def (bin d op a b) = some d
def (copy d a) = some d
def t = none

-- `sort`, and `dedup` on what is sorted.
unfoldable pub insert_sorted : ℕ → List ℕ → List ℕ
insert_sorted x [] = x ∷ []
insert_sorted x (y ∷ ys) =
    let rest = insert_sorted x ys in if leb x y then x ∷ (y ∷ ys) else y ∷ rest

unfoldable pub sort : List ℕ → List ℕ
unfolding insert_sorted
sort [] = []
sort (x ∷ xs) = insert_sorted x (sort xs)

abbrev pub cons_new : ℕ → List ℕ → List ℕ
cons_new x [] = x ∷ []
cons_new x (y ∷ ys) = if x == y then y ∷ ys else x ∷ y ∷ ys

unfoldable pub dedup : List ℕ → List ℕ
dedup [] = []
dedup (x ∷ xs) = cons_new x (dedup xs)

abbrev pub sorted_set : List ℕ → List ℕ
sorted_set xs = dedup (sort xs)

abbrev pub is_def : Option ℕ → ℕ → Bool
is_def none w = false
is_def (some d) w = d == w

unfoldable pub without : Option ℕ → List ℕ → List ℕ
without d [] = []
without d (w ∷ ws) = let rest = without d ws in if is_def d w then rest else w ∷ rest

abbrev pub live_before : Tac → List ℕ → List ℕ
live_before t out = sorted_set (without (def t) out ++ uses t)

-- `succ`
abbrev pub targets : List Tac → ℕ → Tac → Option (List ℕ)
targets code i (jump l) = with_some (label_of l code) (λ j. some (j ∷ []))
targets code i (jump_if_ge a b l) = with_some (label_of l code) (λ j. some (suc i ∷ j ∷ []))
targets code i (ret a) = some []
targets code i t = some (suc i ∷ [])

unfoldable pub gather : List (List ℕ) → List ℕ → Option (List ℕ)
gather ins [] = some []
gather ins (s ∷ ss) =
    with_some (get_elem? ins s) (λ a. with_some (gather ins ss) (λ b. some (a ++ b)))

-- `live_in`, `live_out` and `changed`.
pub record Flow : Type 0 where
  pub ins : List (List ℕ)
  pub outs : List (List ℕ)
  pub changed : Bool

abbrev pub stored : ℕ → List ℕ → List ℕ → Flow → Flow
stored i inn out s = record { ins = set s.ins i inn; outs = set s.outs i out; changed = true }

abbrev pub store_at : ℕ → List ℕ → List ℕ → Flow → List ℕ → List ℕ → Flow
store_at i inn out s old_in old_out =
    if name_eq inn old_in && name_eq out old_out then s else stored i inn out s

abbrev pub visited : ℕ → Tac → Flow → List ℕ → Option Flow
visited i t s all = with_some (get_elem? s.ins i) (λ old_in.
    with_some (get_elem? s.outs i) (λ old_out.
      some (store_at i (live_before t (sorted_set all)) (sorted_set all) s old_in old_out)))

unfoldable pub visit : List Tac → ℕ → Flow → Option Flow
unfolding label_of gather sort dedup without name_eq
visit code i s =
    with_some (get_elem? code i)
      (λ t. with_some (targets code i t) (λ ss. with_some (gather s.ins ss) (visited i t s)))

-- The instructions below an index, the last one first.
unfoldable pub sweep : List Tac → ℕ → Flow → Option Flow
unfolding visit
sweep code zero s = some s
sweep code (suc i) s = with_some (visit code i s) (sweep code i)

abbrev pub swept : Option Flow → (Flow → Outcome Flow) → Outcome Flow
swept none again = panicked
swept (some s) again = let rest = again s in if s.changed then rest else result s

abbrev pub unchanged : Flow → Flow
unchanged s = record s { changed = false }

unfoldable pub settle : List Tac → ℕ → Flow → Outcome Flow
unfolding sweep
settle code zero s = out_of_fuel
settle code (suc f) s = swept (sweep code (length code) (unchanged s)) (settle code f)

abbrev pub nothing_live : List Tac → Flow
nothing_live code = record {
  ins = replicate (length code) [];
  outs = replicate (length code) [];
  changed = false;
}

abbrev pub outs_of : Outcome Flow → Outcome (List (List ℕ))
outs_of (result s) = result s.outs
outs_of panicked = panicked
outs_of out_of_fuel = out_of_fuel

unfoldable pub liveness : ℕ → List Tac → Outcome (List (List ℕ))
unfolding settle
liveness f code = outs_of (settle code f (nothing_live code))
