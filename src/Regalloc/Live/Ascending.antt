-- ===== src/Regalloc/Live/Ascending.antt =====
-- The sorted lists without repetitions of ch08-01-regalloc.rs.
use mathlib.Core.Path.{subst}
use model_lib.Base.{
  ℕ, suc, ◌+◌, ◌≤◌, ◌<◌, ◌≡◌, refl, ap, ◌∙◌, Bool-cases, nat-cases, ◌⊎◌, inl, inr, List, [], ◌∷◌,
  length, leb, ◌==◌, arith,
}
use model_lib.Regalloc.Live.Defs.{insert_sorted, sort, cons_new, dedup, sorted_set}
use model_lib.Regalloc.Scan.Members.{In}

abbrev pub Sub : List ℕ → List ℕ → Type 0
Sub xs ys = (w : ℕ) → In w xs → In w ys

abbrev SortedFrom : ℕ → List ℕ → Type 0
SortedFrom lo [] = Unit
SortedFrom lo (x ∷ xs) = (lo ≤ x) × SortedFrom x xs

-- Each member is greater than the one before it.
abbrev pub Above : ℕ → List ℕ → Type 0
Above lo [] = Unit
Above lo (x ∷ xs) = (lo ≤ x) × Above (suc x) xs

insert_sorted-SortedFrom :
    (lo x : ℕ) (xs : List ℕ) → lo ≤ x → SortedFrom lo xs → SortedFrom lo (insert_sorted x xs)
unfolding insert_sorted
insert_sorted-SortedFrom lo x [] le s = (le, tt)
insert_sorted-SortedFrom lo x (y ∷ xs) le (ley, s) = elim (Bool-cases (leb x y)) [
  | inl e ↦ rw e (le, (ground (arith, e), s))
  | inr e ↦ rw e (ley, insert_sorted-SortedFrom y x xs (ground (arith, e)) s)
]

sort-SortedFrom : (xs : List ℕ) → SortedFrom 0 (sort xs)
unfolding sort
sort-SortedFrom [] = tt
sort-SortedFrom (x ∷ xs) = insert_sorted-SortedFrom 0 x (sort xs) (omega arith) (sort-SortedFrom xs)

cons_new-Above : (lo x : ℕ) (xs : List ℕ) → lo ≤ x → Above x xs → Above lo (cons_new x xs)
cons_new-Above lo x [] le a = (le, tt)
cons_new-Above lo x (y ∷ xs) le (xy, a) = elim (Bool-cases (x == y)) [
  | inl e ↦ rw e (ground (arith, le, xy), a)
  | inr e ↦ rw e (le, (ground (arith, e, xy), a))
]

dedup-Above : (lo : ℕ) (xs : List ℕ) → SortedFrom lo xs → Above lo (dedup xs)
unfolding dedup
dedup-Above lo [] s = tt
dedup-Above lo (x ∷ xs) (le, s) = cons_new-Above lo x (dedup xs) le (dedup-Above x xs s)

pub sorted_set-Above : (xs : List ℕ) → Above 0 (sorted_set xs)
sorted_set-Above xs = dedup-Above 0 (sort xs) (sort-SortedFrom xs)

In-Above : (lo w : ℕ) (xs : List ℕ) → Above lo xs → In w xs → lo ≤ w
In-Above lo w [] a h = absurd h
In-Above lo w (x ∷ xs) (le, a) (inl e) = omega (arith, le, e)
In-Above lo w (x ∷ xs) (le, a) (inr h) = omega (arith, le, In-Above (suc x) w xs a h)

-- Members that are greater than the head are in the tail.
Sub-tail : (y : ℕ) (xs ys : List ℕ) → Above (suc y) xs → Sub xs (y ∷ ys) → Sub xs ys
Sub-tail y xs ys a s w h = elim (s w h) [
  | inl e ↦ let le = In-Above (suc y) w xs a h in absurd (omega (arith, le, e))
  | inr i ↦ i
]

-- A part of an ascending list is all of it or shorter.
pub Sub-cases :
    (lo : ℕ) (xs ys : List ℕ)
    → Above lo xs
    → Above lo ys
    → Sub xs ys
    → (xs ≡ ys) ⊎ (length xs < length ys)
Sub-cases lo [] [] a b s = inl refl
Sub-cases lo [] (y ∷ ys) a b s = inr (omega arith)
Sub-cases lo (x ∷ xs) [] a b s = absurd (s x (inl refl))
Sub-cases lo (x ∷ xs) (y ∷ ys) (le, a) (ley, b) s = elim (nat-cases x y) [
  | inl e ↦
      let above : Above (suc y) xs = subst (λ y. Above (suc y) xs) e a in
      elim (Sub-cases (suc y) xs ys above b (Sub-tail y xs ys above (λ w h. s w (inr h)))) [
        | inl same ↦ inl (ap (λ x. x ∷ xs) e ∙ ap (λ xs. y ∷ xs) same)
        | inr lt ↦ inr (omega (arith, lt))
      ]
  | inr n ↦
      let later : In x ys = elim (s x (inl refl)) [ inl e ↦ absurd (n e) | inr i ↦ i ] in
      let above : Above (suc y) (x ∷ xs) = (In-Above (suc y) x ys b later, a) in
      let shorter = Sub-cases (suc y) (x ∷ xs) ys above b (Sub-tail y (x ∷ xs) ys above s) in
      inr (elim shorter [ inl same ↦ omega (arith, ap length same) | inr lt ↦ omega (arith, lt) ])
]

pub length-Above :
    (lo bound : ℕ) (xs : List ℕ)
    → lo ≤ bound
    → Above lo xs
    → ((w : ℕ) → In w xs → w < bound)
    → length xs + lo ≤ bound
length-Above lo bound [] le a h = omega (arith, le)
length-Above lo bound (x ∷ xs) le (lex, a) h =
    let rest =
      length-Above (suc x) bound xs (omega (arith, h x (inl refl))) a (λ w i. h w (inr i)) in
    omega (arith, rest, lex)
