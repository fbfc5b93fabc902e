-- ===== src/Regalloc/Live/Sets.antt =====
-- The members of the sorted lists of ch08-01-regalloc.rs.
use mathlib.Core.Path.{subst}
use model_lib.Base.{
  ℕ, ◌≡◌, refl, sym, ap, ◌∙◌, false, Bool-cases, inl, inr, Option, none, some, List, [], ◌∷◌, ◌++◌,
  leb, ◌==◌, ==_iff, get_elem?,
}
use model_lib.Regalloc.Code.Defs.{Tac, with_some}
use model_lib.Regalloc.Live.Defs.{
  uses, def, insert_sorted, sort, cons_new, dedup, sorted_set, is_def, without, live_before, gather,
}
use model_lib.Regalloc.Scan.Members.{In, In-append_left, In-append_right}

-- A step that came back.
pub with_some-inv :
    {A B : Type 0} (o : Option A) (f : A → Option B) (b : B)
    → with_some o f ≡ some b
    → (a : A) × (o ≡ some a) × (f a ≡ some b)
with_some-inv none f b h = cc
with_some-inv (some a) f b h = (a, refl, h)

-- The lists with the same members.
abbrev pub Same : List ℕ → List ℕ → Type 0
Same xs ys = (w : ℕ) → (In w xs → In w ys) × (In w ys → In w xs)

insert_sorted-Same : (x : ℕ) (xs : List ℕ) → Same (insert_sorted x xs) (x ∷ xs)
unfolding insert_sorted
insert_sorted-Same x [] w = (λ h. h, λ h. h)
insert_sorted-Same x (y ∷ xs) w = elim (Bool-cases (leb x y)) [
  | inl e ↦ rw e (λ h. h, λ h. h)
  | inr e ↦
      let (f, g) = insert_sorted-Same x xs w in
      rw e (
        elim [ inl p ↦ inr (inl p) | inr h ↦ elim (f h) [ inl p ↦ inl p | inr q ↦ inr (inr q) ] ],
        elim [ inl p ↦ inr (g (inl p)) | inr (inl p) ↦ inl p | inr (inr q) ↦ inr (g (inr q)) ],
      )
]

cons_new-Same : (x : ℕ) (xs : List ℕ) → Same (cons_new x xs) (x ∷ xs)
cons_new-Same x [] w = (λ h. h, λ h. h)
cons_new-Same x (y ∷ xs) w = elim (Bool-cases (x == y)) [
  | inl e ↦ rw e (λ h. inr h, elim [ inl p ↦ inl (p ∙ (==_iff x y).0 e) | inr h ↦ h ])
  | inr e ↦ rw e (λ h. h, λ h. h)
]

pub Same-cons : (x : ℕ) (xs ys : List ℕ) → Same xs ys → Same (x ∷ xs) (x ∷ ys)
Same-cons x xs ys s w = (
  elim [ inl p ↦ inl p | inr h ↦ inr ((s w).0 h) ],
  elim [ inl p ↦ inl p | inr h ↦ inr ((s w).1 h) ],
)

pub Same-trans : (xs ys zs : List ℕ) → Same xs ys → Same ys zs → Same xs zs
Same-trans xs ys zs s t w = (λ h. (t w).0 ((s w).0 h), λ h. (s w).1 ((t w).1 h))

sort-Same : (xs : List ℕ) → Same (sort xs) xs
unfolding sort
sort-Same [] = λ w. (λ h. h, λ h. h)
sort-Same (x ∷ xs) =
    Same-trans (insert_sorted x (sort xs)) (x ∷ sort xs) (x ∷ xs) (insert_sorted-Same x (sort xs))
      (Same-cons x (sort xs) xs (sort-Same xs))

dedup-Same : (xs : List ℕ) → Same (dedup xs) xs
unfolding dedup
dedup-Same [] = λ w. (λ h. h, λ h. h)
dedup-Same (x ∷ xs) =
    Same-trans (cons_new x (dedup xs)) (x ∷ dedup xs) (x ∷ xs) (cons_new-Same x (dedup xs))
      (Same-cons x (dedup xs) xs (dedup-Same xs))

pub sorted_set-Same : (xs : List ℕ) → Same (sorted_set xs) xs
sorted_set-Same xs = Same-trans (dedup (sort xs)) (sort xs) xs (dedup-Same (sort xs)) (sort-Same xs)

without-In :
    (d : Option ℕ) (xs : List ℕ) (w : ℕ) → In w xs → is_def d w ≡ false → In w (without d xs)
unfolding without
without-In d [] w h n = elim h [ ]
without-In d (x ∷ xs) w h n = elim (Bool-cases (is_def d x)) [
  | inl e ↦
      rw e (elim h [
        | inl p ↦ let q = sym n ∙ ap (is_def d) p ∙ e in cc
        | inr i ↦ without-In d xs w i n
      ])
  | inr e ↦ rw e (elim h [ inl p ↦ inl p | inr i ↦ inr (without-In d xs w i n) ])
]

-- What is live before an instruction: what it uses, and what is live behind it and not defined by it.
pub live_before-uses : (t : Tac) (out : List ℕ) (w : ℕ) → In w (uses t) → In w (live_before t out)
live_before-uses t out w h =
    (sorted_set-Same (without (def t) out ++ uses t) w).1
      (In-append_right w (without (def t) out) (uses t) h)

pub live_before-passes :
    (t : Tac) (out : List ℕ) (w : ℕ)
    → In w out
    → is_def (def t) w ≡ false
    → In w (live_before t out)
live_before-passes t out w h n =
    (sorted_set-Same (without (def t) out ++ uses t) w).1
      (In-append_left w (without (def t) out) (uses t) (without-In (def t) out w h n))

pub gather-In :
    (ins : List (List ℕ)) (ss : List ℕ) (all : List ℕ) (s : ℕ)
    → gather ins ss ≡ some all
    → In s ss
    → (inn : List ℕ) × (get_elem? ins s ≡ some inn) × ((w : ℕ) → In w inn → In w all)
unfolding gather
gather-In ins [] all s e h = elim h [ ]
gather-In ins (x ∷ ss) all s e h =
    let (a, p, q) = with_some-inv (get_elem? ins x) _ all e in
    let (b, r, z) = with_some-inv (gather ins ss) _ all q in
    let same : a ++ b ≡ all = cc in
    elim h [
      | inl i ↦ (a, ap (get_elem? ins) i ∙ p, λ w k. subst (In w) same (In-append_left w a b k))
      | inr i ↦
          let (inn, u, v) = gather-In ins ss b s r i in
          (inn, u, λ w k. subst (In w) same (In-append_right w a b (v w k)))
    ]
