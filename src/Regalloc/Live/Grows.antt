-- ===== src/Regalloc/Live/Grows.antt =====
-- What the data flow of ch08-01-regalloc.rs makes of larger sets, and the sizes of tables of sets.
use mathlib.Core.Path.{subst}
use mathlib.Core.Option.{some-injective}
use model_lib.Base.{
  ℕ, zero, suc, ◌+◌, ◌≤◌, ◌<◌, ◌≡◌, ◌≢◌, refl, sym, ap, ◌∙◌, false, Bool-cases, nat-cases, ◌⊎◌, inl,
  inr, Option, some, List, [], ◌∷◌, ◌++◌, length, get_elem?, get_elem?-some, set, arith,
}
use model_lib.Regalloc.Code.Defs.{Tac}
use model_lib.Regalloc.Live.Defs.{uses, def, sorted_set, is_def, without, live_before, gather}
use model_lib.Regalloc.Live.Sets.{
  with_some-inv, sorted_set-Same, live_before-uses, live_before-passes,
}
use model_lib.Regalloc.Live.Ascending.{Sub}
use model_lib.Regalloc.Scan.Members.{In, In-append_left, In-append_right, In-append_cases}

without-inv :
    (d : Option ℕ) (xs : List ℕ) (w : ℕ) → In w (without d xs) → In w xs × (is_def d w ≡ false)
unfolding without
without-inv d [] w h = absurd h
without-inv d (x ∷ xs) w h = elim (Bool-cases (is_def d x)) [
  | inl e ↦
      let i : In w (without d xs) = rw e at h in let (a, b) = without-inv d xs w i in (inr a, b)
  | inr e ↦
      let i : In w (x ∷ without d xs) = rw e at h in
      elim i [
        | inl p ↦ (inl p, ap (is_def d) p ∙ e)
        | inr j ↦ let (a, b) = without-inv d xs w j in (inr a, b)
      ]
]

-- What is live before an instruction is live behind it, or used by it.
pub live_before-cases :
    (t : Tac) (out : List ℕ) (w : ℕ)
    → In w (live_before t out)
    → (In w out × (is_def (def t) w ≡ false)) ⊎ In w (uses t)
live_before-cases t out w h =
    elim (In-append_cases w (without (def t) out) (uses t)
      ((sorted_set-Same (without (def t) out ++ uses t) w).0 h)) [
        | inl a ↦ inl (without-inv (def t) out w a)
        | inr b ↦ inr b
      ]

pub live_before-Sub : (t : Tac) (a b : List ℕ) → Sub a b → Sub (live_before t a) (live_before t b)
live_before-Sub t a b s w h = elim (live_before-cases t a w h) [
  | inl (i, n) ↦ live_before-passes t b w (s w i) n
  | inr u ↦ live_before-uses t b w u
]

pub sorted_set-Sub : (a b : List ℕ) → Sub a b → Sub (sorted_set a) (sorted_set b)
sorted_set-Sub a b s w h = (sorted_set-Same b w).1 (s w ((sorted_set-Same a w).0 h))

abbrev pub Below : ℕ → List ℕ → Type 0
Below bound xs = (w : ℕ) → In w xs → w < bound

pub sorted_set-Below : (bound : ℕ) (xs : List ℕ) → Below bound xs → Below bound (sorted_set xs)
sorted_set-Below bound xs h w i = h w ((sorted_set-Same xs w).0 i)

pub live_before-Below :
    (bound : ℕ) (t : Tac) (out : List ℕ)
    → Below bound out
    → Below bound (uses t)
    → Below bound (live_before t out)
live_before-Below bound t out h g w i = elim (live_before-cases t out w i) [
  | inl (a, n) ↦ h w a
  | inr b ↦ g w b
]

-- Every set of a table is a part of the one at its place in another table.
abbrev pub Wider : List (List ℕ) → List (List ℕ) → Type 0
Wider ins later =
    (i : ℕ) (xs : List ℕ)
    → get_elem? ins i ≡ some xs
    → (ys : List ℕ) × (get_elem? later i ≡ some ys) × Sub xs ys

pub gather-Sub :
    (ins later : List (List ℕ)) (ss a : List ℕ)
    → Wider ins later
    → gather ins ss ≡ some a
    → (b : List ℕ) × (gather later ss ≡ some b) × Sub a b
unfolding gather
gather-Sub ins later [] a wide e = ([], refl, λ w h. subst (In w) (sym (some-injective [] a e)) h)
gather-Sub ins later (s ∷ ss) a wide e =
    let (x, p, e₁) = with_some-inv (get_elem? ins s) _ a e in
    let (y, q, e₂) = with_some-inv (gather ins ss) _ a e₁ in
    let same = some-injective (x ++ y) a e₂ in
    let (x', p', f) = wide s x p in
    let (y', q', g) = gather-Sub ins later ss y wide q in
    (
      x' ++ y',
      rw (p', q') refl,
      λ w h. elim (In-append_cases w x y (subst (In w) (sym same) h)) [
        | inl i ↦ In-append_left w x' y' (f w i)
        | inr i ↦ In-append_right w x' y' (g w i)
      ],
    )

pub gather-total :
    (ins : List (List ℕ)) (ss : List ℕ)
    → ((s : ℕ) → In s ss → s < length ins)
    → (a : List ℕ) × (gather ins ss ≡ some a)
unfolding gather
gather-total ins [] h = ([], refl)
gather-total ins (s ∷ ss) h =
    let (x, p) = get_elem?-some ins s (h s (inl refl)) in
    let (y, q) = gather-total ins ss (λ w i. h w (inr i)) in (x ++ y, rw (p, q) refl)

pub gather-Below :
    (bound : ℕ) (ins : List (List ℕ)) (ss a : List ℕ)
    → ((i : ℕ) (xs : List ℕ) → get_elem? ins i ≡ some xs → Below bound xs)
    → gather ins ss ≡ some a
    → Below bound a
unfolding gather
gather-Below bound ins [] a h e w i = absurd (subst (In w) (sym (some-injective [] a e)) i)
gather-Below bound ins (s ∷ ss) a h e w i =
    let (x, p, e₁) = with_some-inv (get_elem? ins s) _ a e in
    let (y, q, e₂) = with_some-inv (gather ins ss) _ a e₁ in
    elim (In-append_cases w x y (subst (In w) (sym (some-injective (x ++ y) a e₂)) i)) [
      | inl j ↦ h s x p w j
      | inr j ↦ gather-Below bound ins ss y h q w j
    ]

pub get_elem?-set_same :
    (xs : List (List ℕ)) (i : ℕ) (old a : List ℕ)
    → get_elem? xs i ≡ some old
    → get_elem? (set xs i a) i ≡ some a
get_elem?-set_same [] i old a h = cc
get_elem?-set_same (x ∷ xs) zero old a h = refl
get_elem?-set_same (x ∷ xs) (suc i) old a h = get_elem?-set_same xs i old a h

pub get_elem?-set_other :
    (xs : List (List ℕ)) (i j : ℕ) (a : List ℕ) → i ≢ j → get_elem? (set xs i a) j ≡ get_elem? xs j
get_elem?-set_other [] i j a h = refl
get_elem?-set_other (x ∷ xs) zero zero a h = absurd (h refl)
get_elem?-set_other (x ∷ xs) zero (suc j) a h = refl
get_elem?-set_other (x ∷ xs) (suc i) zero a h = refl
get_elem?-set_other (x ∷ xs) (suc i) (suc j) a h = get_elem?-set_other xs i j a (λ e. h (ap suc e))

-- How many members the sets of a table have together.
abbrev pub size : List (List ℕ) → ℕ
size [] = 0
size (x ∷ xs) = length x + size xs

pub size-set :
    (xs : List (List ℕ)) (i : ℕ) (old a : List ℕ)
    → get_elem? xs i ≡ some old
    → size (set xs i a) + length old ≡ size xs + length a
size-set [] i old a h = cc
size-set (x ∷ xs) zero old a h = omega (arith, ap length (some-injective x old h))
size-set (x ∷ xs) (suc i) old a h = omega (arith, size-set xs i old a h)

abbrev pub times : ℕ → ℕ → ℕ
times zero bound = 0
times (suc n) bound = bound + times n bound

pub size-le :
    (bound : ℕ) (xs : List (List ℕ))
    → ((i : ℕ) (x : List ℕ) → get_elem? xs i ≡ some x → length x ≤ bound)
    → size xs ≤ times (length xs) bound
size-le bound [] h = omega arith
size-le bound (x ∷ xs) h = omega (arith, h 0 x refl, size-le bound xs (λ i. h (suc i)))

pub set-Wider :
    (xs : List (List ℕ)) (i : ℕ) (old a : List ℕ)
    → get_elem? xs i ≡ some old
    → Sub old a
    → Wider xs (set xs i a)
set-Wider xs i old a e s j x h = elim (nat-cases i j) [
  | inl p ↦
      let same : old ≡ x = some-injective old x (sym e ∙ ap (get_elem? xs) p ∙ h) in
      (
        a,
        ap (get_elem? (set xs i a)) (sym p) ∙ get_elem?-set_same xs i old a e,
        λ w k. s w (subst (In w) (sym same) k),
      )
  | inr n ↦ (x, get_elem?-set_other xs i j a n ∙ h, λ w k. k)
]
