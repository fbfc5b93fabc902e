-- ===== src/Regalloc/Scan/Covers.antt =====
-- `intervals` of ch08-01-regalloc.rs: sorted, one for each register, and over every index at which the register
-- is named or live.
use model_lib.Base.{
  ℕ, ◌≤◌, ◌≡◌, refl, sym, ap, ◌∙◌, true, false, Bool-cases, ◌⊎◌, inl, inr, some, List, [], ◌∷◌,
  length, get_elem?, arith,
}
use model_lib.Regalloc.Code.Defs.{Tac, with_some}
use model_lib.Regalloc.Scan.Defs.{
  Interval, starts_first, insert_interval, sort_intervals, intervals,
}
use model_lib.Regalloc.Scan.Members.{In}
use model_lib.Regalloc.Scan.Fair.{Fresh}
use model_lib.Regalloc.Scan.Sound.{Ordered}
use model_lib.Regalloc.Live.Reads.{Reads, Defines, touched-In}
use model_lib.Regalloc.Scan.Spans.{Covered, AllFresh, spans-Spanned}

In-insert_interval :
    (x a : Interval) (xs : List Interval)
    → (In x (insert_interval a xs) → (x ≡ a) ⊎ In x xs)
      × ((x ≡ a) ⊎ In x xs → In x (insert_interval a xs))
unfolding insert_interval
In-insert_interval x a [] = (λ h. h, λ h. h)
In-insert_interval x a (b ∷ xs) = elim (Bool-cases (starts_first a b)) [
  | inl e ↦ rw e (λ h. h, λ h. h)
  | inr e ↦
      let (f, g) = In-insert_interval x a xs in
      rw e (
        elim [ inl p ↦ inr (inl p) | inr h ↦ elim (f h) [ inl p ↦ inl p | inr q ↦ inr (inr q) ] ],
        elim [ inl p ↦ inr (g (inl p)) | inr (inl p) ↦ inl p | inr (inr q) ↦ inr (g (inr q)) ],
      )
]

In-sort_intervals :
    (x : Interval) (xs : List Interval)
    → (In x (sort_intervals xs) → In x xs) × (In x xs → In x (sort_intervals xs))
unfolding sort_intervals
In-sort_intervals x [] = (λ h. h, λ h. h)
In-sort_intervals x (a ∷ xs) =
    let (f, g) = In-sort_intervals x xs in
    let (i, j) = In-insert_interval x a (sort_intervals xs) in
    (
      λ h. elim (i h) [ inl e ↦ inl e | inr k ↦ inr (f k) ],
      elim [ inl e ↦ j (inl e) | inr k ↦ j (inr (g k)) ],
    )

starts_first-le : (x y : Interval) → starts_first x y ≡ true → x.start ≤ y.start
starts_first-le x y h = ground arith

starts_first-ge : (x y : Interval) → starts_first x y ≡ false → y.start ≤ x.start
starts_first-ge x y h = ground arith

insert-Ordered :
    (start : ℕ) (x : Interval) (xs : List Interval)
    → start ≤ x.start
    → Fresh x xs
    → Ordered start xs
    → Ordered start (insert_interval x xs)
unfolding insert_interval
insert-Ordered start x [] le f o = (le, f, tt)
insert-Ordered start x (y ∷ xs) le f (ley, fy, o) = elim (Bool-cases (starts_first x y)) [
  | inl e ↦ rw e (le, f, (starts_first-le x y e, fy, o))
  | inr e ↦ rw e (
    ley,
    λ z h d. elim ((In-insert_interval z x xs).0 h) [
      | inl p ↦ f y (inl refl) (sym (d ∙ ap (λ z. z.vreg) p))
      | inr i ↦ fy z i d
    ],
    insert-Ordered y.start x xs (starts_first-ge x y e) (λ z i. f z (inr i)) o,
  )
]

sort-Ordered : (xs : List Interval) → AllFresh xs → Ordered 0 (sort_intervals xs)
unfolding sort_intervals
sort-Ordered [] f = tt
sort-Ordered (x ∷ xs) (f, fs) =
    insert-Ordered 0 x (sort_intervals xs) (omega arith) (λ y h. f y ((In-sort_intervals y xs).0 h))
      (sort-Ordered xs fs)

pub record IsCover (code : List Tac) (outs : List (List ℕ)) (xs : List Interval) : Type 0 where
  pub ordered : Ordered 0 xs
  pub covers :
      (j : ℕ) (t : Tac) (out : List ℕ) (w : ℕ)
      → get_elem? code j ≡ some t
      → get_elem? outs j ≡ some out
      → (Reads t w ⊎ Defines t w) ⊎ In w out
      → Covered w j xs

-- Where each instruction has its live registers, the intervals are sorted by their starts, one for each register,
-- and the interval of a register holds every index at which the register is used, defined, or live behind it.
pub intervals-IsCover :
    (code : List Tac) (outs : List (List ℕ))
    → length code ≡ length outs
    → (xs : List Interval) × (intervals code outs ≡ some xs) × IsCover code outs xs
unfolding intervals
intervals-IsCover code outs e =
    let k = spans-Spanned 0 code outs [] e tt in
    (
      sort_intervals k.all,
      ap (λ o. with_some o (λ span. some (sort_intervals span))) k.returned,
      record {
        ordered = sort-Ordered k.all k.all_fresh;
        covers = λ j t out w a b h.
            let c = k.covers j t out w a b (touched-In t out w h) in
            record {
              interval = c.interval;
              listed = (In-sort_intervals c.interval k.all).1 c.listed;
              named = c.named;
              from_start = omega (arith, c.from_start);
              to_end = omega (arith, c.to_end);
            };
      },
    )
