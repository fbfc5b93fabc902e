-- ===== src/Regalloc/Scan/Assign.antt =====
-- A free register for an interval, in the linear scan of ch08-01-regalloc.rs.
use mathlib.Core.Path.{subst}
use model_lib.Base.{
  ℕ, ◌+◌, ◌<◌, ◌≡◌, ◌≢◌, refl, sym, ap, ◌∙◌, ◌⊎◌, inl, inr, some, List, ◌∷◌, ltb, arith,
}
use model_lib.Regalloc.Scan.Defs.{Interval, Loc, reg, Locs, located, Scan, assign}
use model_lib.Regalloc.Scan.Members.{In, one_if, count, count_regs, same-one, count_regs-In}
use model_lib.Regalloc.Scan.Fair.{
  Overlap, entry, Fair, located-same, located-other, Apart-cons, Fresh, one_if-le, one_if-lt,
  push-In, pushed-cases, count-pushed,
}

-- A free register is given to the interval.
module _ (k : ℕ) (x : Interval) (xs : List Interval) (s : Scan) (r : ℕ) (free : List ℕ)
    (new : Fresh x xs) (e : s.free ≡ r ∷ free) (f : Fair k x.start xs s) where
  abbrev loc_r : Locs
  loc_r = located s.loc x.vreg (Loc.reg r)

  same_r : (y : Interval) → In y xs → loc_r y.vreg ≡ s.loc y.vreg
  same_r y i = located-other s.loc x.vreg y.vreg (Loc.reg r) (new y i)

  one_r : count_regs r s.active + (1 + count r free) ≡ one_if (ltb r k)
  one_r = omega (arith, f.shared r, ap (count r) e, same-one r)

  held_r :
      (y : Interval) (q : ℕ)
      → In y (x ∷ xs)
      → loc_r y.vreg ≡ some (reg q)
      → (q < k) × (In (entry y q) (assign x s s.active r free).active ⊎ (y.end < x.start))
  held_r y q (inl p) l =
      let is : some (Loc.reg r) ≡ some (reg q) =
        sym (located-same s.loc x.vreg (Loc.reg r)) ∙ sym (ap (λ y. loc_r y.vreg) p) ∙ l in
      let rq : r ≡ q = cc in
      (
        subst (λ q. q < k) rq (one_if-lt r k (omega (arith, one_r))),
        inl (
            push-In (entry y q) (entry x r) s.active
              (inr (ap (λ y. entry y q) p ∙ ap (entry x) (sym rq)))),
      )
  held_r y q (inr i) l =
      let (b, o) = f.held y q i (sym (same_r y i) ∙ l) in
      (
        b,
        elim o [ inl j ↦ inl (push-In (entry y q) (entry x r) s.active (inl j)) | inr lt ↦ inr lt ],
      )

  apart_r : (y : Interval) → In y xs → Overlap x y → loc_r x.vreg ≢ s.loc y.vreg
  apart_r y i o h =
      let (b, c) = f.held y r i (sym h ∙ located-same s.loc x.vreg (Loc.reg r)) in
      elim c [
        | inl j ↦ omega (arith, one_r, one_if-le (ltb r k), count_regs-In (entry y r) s.active j)
        | inr lt ↦ omega (arith, lt, o.0)
      ]

  pub assign-Fair : Fair k x.start (x ∷ xs) (assign x s s.active r free)
  assign-Fair = record {
    shared = λ q. omega (arith, f.shared q, count-pushed q (entry x r) s.active, ap (count q) e);
    known = λ a h. elim (pushed-cases a (entry x r) s.active h) [
      | inl i ↦
          let (l, (y, j, v)) = f.known a i in
          (ap loc_r (sym v) ∙ same_r y j ∙ ap s.loc v ∙ l, (y, inr j, v))
      | inr p ↦ (
        ap (λ a. loc_r a.vreg) p
            ∙ located-same s.loc x.vreg (Loc.reg r)
            ∙ ap (λ a. some (Loc.reg a.reg)) (sym p),
        (x, inl refl, ap (λ a. a.vreg) (sym p)),
      )
    ];
    held = held_r;
    slotted = λ y j. elim [
      | inl p ↦ λ l.
          let is =
            sym (located-same s.loc x.vreg (Loc.reg r)) ∙ sym (ap (λ y. loc_r y.vreg) p) ∙ l in
          cc
      | inr i ↦ λ l. f.slotted y j i (sym (same_r y i) ∙ l)
    ];
    placed = λ y. elim [
      | inl p ↦ (Loc.reg r, ap (λ y. loc_r y.vreg) p ∙ located-same s.loc x.vreg (Loc.reg r))
      | inr i ↦ let (l, z) = f.placed y i in (l, same_r y i ∙ z)
    ];
    apart = Apart-cons x xs s.loc loc_r same_r apart_r f.apart;
  }
