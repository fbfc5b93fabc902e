-- ===== src/Regalloc/Scan/Spill.antt =====
-- A slot for an interval, in the linear scan of ch08-01-regalloc.rs: for the one that starts, or for one that
-- has a register.
use mathlib.Core.Path.{subst}
use model_lib.Base.{
  ℕ, suc, ◌≤◌, ◌<◌, ◌≡◌, ◌≢◌, refl, sym, ap, ◌∙◌, nat-cases, ◌⊎◌, inl, inr, some, List, [], ◌∷◌,
  ◌++◌, ltb, arith,
}
use model_lib.Regalloc.Scan.Defs.{
  Interval, Active, Loc, reg, slot, Locs, located, Scan, sort_active,
}
use model_lib.Regalloc.Scan.Members.{
  In, In-append_left, In-append_right, In-append_cases, count_regs, count_regs-append,
  In-sort_active, count-sort_active,
}
use model_lib.Regalloc.Scan.Fair.{
  entry, Fair, located-same, located-other, one_entry, Apart, Apart-cons, Fresh, one_if-le,
}

module _ (k : ℕ) (x : Interval) (xs : List Interval) (s : Scan) (new : Fresh x xs)
    (f : Fair k x.start xs s) where
  abbrev loc_s : Locs
  loc_s = located s.loc x.vreg (slot s.slots)

  same_s : (y : Interval) → In y xs → loc_s y.vreg ≡ s.loc y.vreg
  same_s y i = located-other s.loc x.vreg y.vreg (slot s.slots) (new y i)

  -- The interval that starts goes to a new slot.
  abbrev pub spilled : Scan
  spilled = record {
    loc = loc_s;
    active = sort_active s.active;
    free = s.free;
    slots = suc s.slots;
  }

  pub spilled-Fair : Fair k x.start (x ∷ xs) spilled
  spilled-Fair = record {
    shared = λ q. omega (arith, f.shared q, count-sort_active q s.active);
    known = λ a h.
        let (l, (y, j, v)) = f.known a ((In-sort_active a s.active).0 h) in
        (ap loc_s (sym v) ∙ same_s y j ∙ ap s.loc v ∙ l, (y, inr j, v));
    held = λ y q. elim [
      | inl p ↦ λ l.
          let is =
            sym (located-same s.loc x.vreg (slot s.slots)) ∙ sym (ap (λ y. loc_s y.vreg) p) ∙ l in
          cc
      | inr i ↦ λ l.
          let (b, o) = f.held y q i (sym (same_s y i) ∙ l) in
          (b, elim o [ inl j ↦ inl ((In-sort_active (entry y q) s.active).1 j) | inr lt ↦ inr lt ])
    ];
    slotted = λ y j. elim [
      | inl p ↦ λ l.
          let is : some (slot s.slots) ≡ some (slot j) =
            sym (located-same s.loc x.vreg (slot s.slots)) ∙ sym (ap (λ y. loc_s y.vreg) p) ∙ l in
          let sj : s.slots ≡ j = cc in omega (arith, sj)
      | inr i ↦ λ l. omega (arith, f.slotted y j i (sym (same_s y i) ∙ l))
    ];
    placed = λ y. elim [
      | inl p ↦ (slot s.slots, ap (λ y. loc_s y.vreg) p ∙ located-same s.loc x.vreg (slot s.slots))
      | inr i ↦ let (l, z) = f.placed y i in (l, same_s y i ∙ z)
    ];
    apart =
        Apart-cons x xs s.loc loc_s same_s
          (λ y i o h.
            omega (arith, f.slotted y s.slots i (sym h ∙ located-same s.loc x.vreg (slot s.slots))))
          f.apart;
  }

-- The interval of an entry goes to a new slot, and its register is free.
module _ (k start : ℕ) (xs : List Interval) (s : Scan) (init : List Active) (last : Active)
    (at_end : s.active ≡ init ++ last ∷ []) (f : Fair k start xs s) where
  abbrev loc_d : Locs
  loc_d = located s.loc last.vreg (slot s.slots)

  abbrev pub demoted : Scan
  demoted = record { loc = loc_d; active = init; free = last.reg ∷ s.free; slots = suc s.slots }

  same_d : (w : ℕ) → last.vreg ≢ w → loc_d w ≡ s.loc w
  same_d w = located-other s.loc last.vreg w (slot s.slots)

  in_active : (a : Active) → In a init → In a s.active
  in_active a h = subst (In a) (sym at_end) (In-append_left a init (last ∷ []) h)

  last-In : In last s.active
  last-In = subst (In last) (sym at_end) (In-append_right last init (last ∷ []) (inl refl))

  -- Another entry is of another virtual register.
  other : (a : Active) → In a init → last.vreg ≢ a.vreg
  other a h e =
      let l = (f.known a (in_active a h)).0 in
      let m = (f.known last last-In).0 in
      let same : some (Loc.reg a.reg) ≡ some (Loc.reg last.reg) = sym l ∙ ap s.loc (sym e) ∙ m in
      let regs : a.reg ≡ last.reg = cc in
      let few : count_regs last.reg (init ++ last ∷ []) ≤ 1 =
        omega
          (arith, f.shared last.reg, one_if-le (ltb last.reg k), ap (count_regs last.reg) at_end) in
      one_entry a init last 0 h regs few

  at_d : (w : ℕ) → last.vreg ≡ w → loc_d w ≡ some (slot s.slots)
  at_d w e = ap loc_d (sym e) ∙ located-same s.loc last.vreg (slot s.slots)

  held_d :
      (x : Interval) (r : ℕ)
      → In x xs
      → loc_d x.vreg ≡ some (reg r)
      → (r < k) × (In (entry x r) init ⊎ (x.end < start))
  held_d x r i l = elim (nat-cases last.vreg x.vreg) [
    | inl e ↦ let is = sym (at_d x.vreg e) ∙ l in cc
    | inr d ↦
        let (b, o) = f.held x r i (sym (same_d x.vreg d) ∙ l) in
        (
          b,
          elim o [
            | inl j ↦
                elim (In-append_cases (entry x r) init (last ∷ [])
                  (subst (In (entry x r)) at_end j)) [
                    | inl m ↦ inl m
                    | inr (inl p) ↦ absurd (d (ap (λ a. a.vreg) (sym p)))
                    | inr (inr p) ↦ absurd p
                  ]
            | inr lt ↦ inr lt
          ],
        )
  ]

  -- No other interval is in the new slot.
  new_slot : (y : Interval) → In y xs → last.vreg ≢ y.vreg → loc_d y.vreg ≢ some (slot s.slots)
  new_slot y j d h = omega (arith, f.slotted y s.slots j (sym (same_d y.vreg d) ∙ h))

  loc_d-Apart : Apart loc_d xs
  loc_d-Apart a b i j d o h = elim (nat-cases last.vreg a.vreg) [
    | inl e ↦ new_slot b j (λ q. d (sym e ∙ q)) (sym h ∙ at_d a.vreg e)
    | inr da ↦ elim (nat-cases last.vreg b.vreg) [
      | inl e ↦ new_slot a i da (h ∙ at_d b.vreg e)
      | inr db ↦ f.apart a b i j d o (sym (same_d a.vreg da) ∙ h ∙ same_d b.vreg db)
    ]
  ]

  pub demoted-Fair : Fair k start xs demoted
  demoted-Fair = record {
    shared = λ q.
        omega (arith, f.shared q, ap (count_regs q) at_end, count_regs-append q init (last ∷ []));
    known = λ a h. let (l, w) = f.known a (in_active a h) in (same_d a.vreg (other a h) ∙ l, w);
    held = held_d;
    slotted = λ y j i l. elim (nat-cases last.vreg y.vreg) [
      | inl e ↦
          let is : some (slot s.slots) ≡ some (slot j) = sym (at_d y.vreg e) ∙ l in
          let sj : s.slots ≡ j = cc in omega (arith, sj)
      | inr d ↦ omega (arith, f.slotted y j i (sym (same_d y.vreg d) ∙ l))
    ];
    placed = λ y i. elim (nat-cases last.vreg y.vreg) [
      | inl e ↦ (slot s.slots, at_d y.vreg e)
      | inr d ↦ let (l, z) = f.placed y i in (l, same_d y.vreg d ∙ z)
    ];
    apart = loc_d-Apart;
  }
