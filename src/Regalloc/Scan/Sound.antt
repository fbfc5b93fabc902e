-- ===== src/Regalloc/Scan/Sound.antt =====
-- The linear scan of ch08-01-regalloc.rs over all the intervals.
use model_lib.Base.{
  ℕ, ◌≤◌, ◌<◌, ◌≡◌, refl, sym, ap, ◌∙◌, Bool-cases, list-cases, ◌⊎◌, inl, inr, some, List, [], ◌∷◌,
  ltb, if_true, if_false, arith,
}
use model_lib.Regalloc.Code.Defs.{with_some}
use model_lib.Regalloc.Scan.Defs.{
  Interval, Loc, reg, Locs, Scan, split_last, assign, evict, place_interval, scan_one, scan_all,
  unscanned, linear_scan,
}
use model_lib.Regalloc.Scan.Members.{
  In, one_if, count, count_regs, split_last-append, split_last-some, count-registers,
}
use model_lib.Regalloc.Scan.Fair.{Fair, expired, expired-Fair, Apart, Fresh}
use model_lib.Regalloc.Scan.Assign.{assign-Fair}
use model_lib.Regalloc.Scan.Spill.{spilled, spilled-Fair, demoted, demoted-Fair}

first_register : (k : ℕ) → 0 < k → one_if (ltb 0 k) ≡ 1
first_register k h = ground arith

-- An interval while no register is free.
full-Fair :
    (k : ℕ) (x : Interval) (xs : List Interval) (s : Scan)
    → 0 < k
    → Fresh x xs
    → Fair k x.start xs s
    → s.free ≡ []
    → (t : Scan) × (place_interval x s (s.active, s.free) ≡ some t) × Fair k x.start (x ∷ xs) t
full-Fair k x xs s pos new f e = elim (list-cases s.active) [
  | inl a ↦
      absurd (omega (arith, f.shared 0, ap (count 0) e, ap (count_regs 0) a, first_register k pos))
  | inr (b, bs, a) ↦
      let (p, q) = split_last-some b bs in
      let split : split_last s.active ≡ some p = ap split_last a ∙ q in
      let go : place_interval x s (s.active, s.free) ≡ some (evict x s s.active p.0 p.1) =
        ap (λ l. place_interval x s (s.active, l)) e
        ∙ ap (λ o. with_some o (λ (init, last). some (evict x s s.active init last))) split in
      elim (Bool-cases (ltb x.end p.1.end)) [
        | inl c ↦
            let at_end = split_last-append s.active p split in
            let d = demoted k x.start xs s p.0 p.1 at_end f in
            (
              assign x d p.0 p.1.reg [],
              go ∙ ap some (if_true _ _ c),
              assign-Fair k x xs d p.1.reg [] new (ap (λ l. p.1.reg ∷ l) e)
                  (demoted-Fair k x.start xs s p.0 p.1 at_end f),
            )
        | inr c ↦ (
          spilled k x xs s new f,
          go
              ∙ ap some (if_false _ _ c)
              ∙ ap (λ l. some (record (spilled k x xs s new f) { free = l })) (sym e),
          spilled-Fair k x xs s new f,
        )
      ]
]

-- One interval.
place-Fair :
    (k : ℕ) (x : Interval) (xs : List Interval) (s : Scan)
    → 0 < k
    → Fresh x xs
    → Fair k x.start xs s
    → (t : Scan) × (place_interval x s (s.active, s.free) ≡ some t) × Fair k x.start (x ∷ xs) t
place-Fair k x xs s pos new f = elim (list-cases s.free) [
  | inr (r, free, e) ↦ (
    assign x s s.active r free,
    ap (λ l. place_interval x s (s.active, l)) e,
    assign-Fair k x xs s r free new e f,
  )
  | inl e ↦ full-Fair k x xs s pos new f e
]

scan_one-Fair :
    (k start : ℕ) (x : Interval) (xs : List Interval) (s : Scan)
    → 0 < k
    → start ≤ x.start
    → Fresh x xs
    → Fair k start xs s
    → (t : Scan) × (scan_one x s ≡ some t) × Fair k x.start (x ∷ xs) t
unfolding scan_one
scan_one-Fair k start x xs s pos le new f =
    place-Fair k x xs (expired x.start s) pos new (expired-Fair k start x.start xs s le f)

-- The intervals that are to come: each starts where the one before it starts, or later, and none is of a
-- virtual register that another one is of.
abbrev pub Ordered : ℕ → List Interval → Type 0
Ordered start [] = Unit
Ordered start (x ∷ xs) = (start ≤ x.start) × Fresh x xs × Ordered x.start xs

scan_all-Fair :
    (k start : ℕ) (xs ys : List Interval) (s : Scan)
    → 0 < k
    → Ordered start xs
    → ((y : Interval) → In y xs → Fresh y ys)
    → Fair k start ys s
    → (t : Scan) × (end : ℕ) × (zs : List Interval) × (scan_all xs s ≡ some t)
      × Fair k end zs t
      × ((y : Interval) → In y xs ⊎ In y ys → In y zs)
unfolding scan_all
scan_all-Fair k start [] ys s pos o new f =
    (s, start, ys, refl, f, λ y. elim [ inl h ↦ elim h [ ] | inr h ↦ h ])
scan_all-Fair k start (x ∷ xs) ys s pos (le, fresh, o) new f =
    let (t, e, g) = scan_one-Fair k start x ys s pos le (new x (inl refl)) f in
    let (u, end, zs, e', h, all) =
      scan_all-Fair k x.start xs (x ∷ ys) t pos o
        (λ y i z. elim [
          | inl p ↦ λ q. fresh y i (sym (q ∙ ap (λ z. z.vreg) p))
          | inr j ↦ new y (inr i) z j
        ])
        g in
    (
      u,
      end,
      zs,
      rw (e, scan_all) e',
      h,
      λ y. elim [
        | inl (inl p) ↦ all y (inr (inl p))
        | inl (inr i) ↦ all y (inl i)
        | inr j ↦ all y (inr (inr j))
      ],
    )

unscanned-Fair : (k : ℕ) → Fair k 0 [] (unscanned k)
unscanned-Fair k = record {
  shared = λ r. ground (arith, count-registers r 0 k);
  known = λ a h. elim h [ ];
  held = λ x r h. elim h [ ];
  slotted = λ x j h. elim h [ ];
  placed = λ x h. elim h [ ];
  apart = λ x y h. elim h [ ];
}

-- What an allocation promises.
pub record IsAllocation (k : ℕ) (xs : List Interval) (loc : Locs) : Type 0 where
  pub placed : (x : Interval) → In x xs → (l : Loc) × (loc x.vreg ≡ some l)
  pub in_reach : (x : Interval) (r : ℕ) → In x xs → loc x.vreg ≡ some (reg r) → r < k
  pub apart : Apart loc xs

-- With one register at least, over intervals that are sorted by their starts, one for each virtual register,
-- the linear scan comes to an end without a panic: every interval gets a place, a register below the number of
-- registers or a slot, and no two that overlap get the same place.
pub linear_scan-IsAllocation :
    (k : ℕ) (xs : List Interval)
    → 0 < k
    → Ordered 0 xs
    → (loc : Locs) × (linear_scan xs k ≡ some loc) × IsAllocation k xs loc
unfolding linear_scan
linear_scan-IsAllocation k xs pos o =
    let (t, end, zs, e, f, all) =
      scan_all-Fair k 0 xs [] (unscanned k) pos o (λ y i z h. elim h [ ]) (unscanned-Fair k) in
    (
      t.loc,
      rw e refl,
      record {
        placed = λ x i. f.placed x (all x (inl i));
        in_reach = λ x r i l. (f.held x r (all x (inl i)) l).0;
        apart = λ x y i j. f.apart x y (all x (inl i)) (all y (inl j));
      },
    )
