-- ===== src/Regalloc/Scan/Fair.antt =====
-- What holds of the linear scan of ch08-01-regalloc.rs while it runs.
use mathlib.Core.Path.{subst}
use model_lib.Base.{
  ℕ, ◌+◌, ◌≤◌, ◌<◌, ◌≡◌, ◌≢◌, refl, sym, ap, ◌∙◌, Bool, true, false, Bool-cases, ◌⊎◌, inl, inr,
  some, List, [], ◌∷◌, ◌++◌, ltb, ◌==◌, ==_iff, if_true, if_false, arith,
}
use model_lib.Regalloc.Scan.Defs.{
  Interval, Active, Loc, reg, slot, Locs, located, Scan, expire, sort_active,
}
use model_lib.Regalloc.Scan.Members.{
  In, In-append_left, In-append_right, In-append_cases, one_if, count, count_regs,
  count_regs-append, same-one, count_regs-In, In-sort_active, count-sort_active, count-expire,
  expire-In, expire-keeps,
}

abbrev pub Overlap : Interval → Interval → Type 0
Overlap x y = (x.start ≤ y.end) × (y.start ≤ x.end)

abbrev pub entry : Interval → ℕ → Active
entry x r = record { end = x.end; vreg = x.vreg; reg = r }

-- The scan behind the intervals `xs`, the last of which starts at `start`, or before it.
pub record Fair (k start : ℕ) (xs : List Interval) (s : Scan) : Type 0 where
  pub shared : (r : ℕ) → count_regs r s.active + count r s.free ≡ one_if (ltb r k)
  pub known :
      (a : Active)
      → In a s.active
      → (s.loc a.vreg ≡ some (reg a.reg)) × ((y : Interval) × In y xs × (y.vreg ≡ a.vreg))
  pub held :
      (x : Interval) (r : ℕ)
      → In x xs
      → s.loc x.vreg ≡ some (reg r)
      → (r < k) × (In (entry x r) s.active ⊎ (x.end < start))
  pub slotted : (x : Interval) (j : ℕ) → In x xs → s.loc x.vreg ≡ some (slot j) → j < s.slots
  pub placed : (x : Interval) → In x xs → (l : Loc) × (s.loc x.vreg ≡ some l)
  pub apart :
      (x y : Interval)
      → In x xs
      → In y xs
      → x.vreg ≢ y.vreg
      → Overlap x y
      → s.loc x.vreg ≢ s.loc y.vreg

pub located-same : (loc : Locs) (w : ℕ) (l : Loc) → located loc w l w ≡ some l
located-same loc w l = if_true _ _ ((==_iff w w).1 refl)

pub located-other : (loc : Locs) (w u : ℕ) (l : Loc) → w ≢ u → located loc w l u ≡ loc u
located-other loc w u l h = elim (Bool-cases (w == u)) [
  | inl e ↦ absurd (h ((==_iff w u).0 e))
  | inr e ↦ if_false _ _ e
]

abbrev pub expired : ℕ → Scan → Scan
expired start s = record s {
  active = (expire start s.active s.free).0;
  free = (expire start s.active s.free).1;
}

-- The intervals that ended before the next one starts.
pub expired-Fair :
    (k start next : ℕ) (xs : List Interval) (s : Scan)
    → start ≤ next
    → Fair k start xs s
    → Fair k next xs (expired next s)
expired-Fair k start next xs s le f = record {
  shared = λ r. count-expire r next s.active s.free ∙ f.shared r;
  known = λ a h. f.known a (expire-In a next s.active s.free h);
  held = λ x r h e.
      let (b, o) = f.held x r h e in
      (
        b,
        elim o [
          | inl i ↦ expire-keeps (entry x r) next s.active s.free i
          | inr lt ↦ inr (omega (arith, lt, le))
        ],
      );
  slotted = f.slotted;
  placed = f.placed;
  apart = f.apart;
}

-- Two entries for one register are one.
pub one_entry :
    (a : Active) (init : List Active) (b : Active) (n : ℕ)
    → In a init
    → a.reg ≡ b.reg
    → count_regs b.reg (init ++ b ∷ []) ≤ 1
    → ⊥
one_entry a init b n h e c =
    let i : 1 ≤ count_regs b.reg init =
      subst (λ r. 1 ≤ count_regs r init) e (count_regs-In a init h) in
    omega (arith, c, i, count_regs-append b.reg init (b ∷ []), same-one b.reg)

-- One interval more, at a place that no interval it overlaps has.
abbrev pub Apart : Locs → List Interval → Type 0
Apart loc xs =
    (x y : Interval) → In x xs → In y xs → x.vreg ≢ y.vreg → Overlap x y → loc x.vreg ≢ loc y.vreg

pub Apart-cons :
    (x : Interval) (xs : List Interval) (loc loc' : Locs)
    → ((y : Interval) → In y xs → loc' y.vreg ≡ loc y.vreg)
    → ((y : Interval) → In y xs → Overlap x y → loc' x.vreg ≢ loc y.vreg)
    → Apart loc xs
    → Apart loc' (x ∷ xs)
Apart-cons x xs loc loc' same new old a b (inl p) (inl q) d o e =
    d (ap (λ y. y.vreg) p ∙ sym (ap (λ y. y.vreg) q))
Apart-cons x xs loc loc' same new old a b (inl p) (inr j) d o e =
    new b j (subst (λ a. Overlap a b) p o) (sym (ap (λ y. loc' y.vreg) p) ∙ e ∙ same b j)
Apart-cons x xs loc loc' same new old a b (inr i) (inl q) d o e =
    let (m, n) = subst (λ b. Overlap a b) q o in
    new a i (n, m) (sym (ap (λ y. loc' y.vreg) q) ∙ sym e ∙ same a i)
Apart-cons x xs loc loc' same new old a b (inr i) (inr j) d o e =
    old a b i j d o (sym (same a i) ∙ e ∙ same b j)

abbrev pub Fresh : Interval → List Interval → Type 0
Fresh x xs = (y : Interval) → In y xs → x.vreg ≢ y.vreg

pub one_if-le : (b : Bool) → one_if b ≤ 1
one_if-le true = omega arith
one_if-le false = omega arith

pub one_if-lt : (r k : ℕ) → 1 ≤ one_if (ltb r k) → r < k
one_if-lt r k h = ground arith

pub push-In :
    (a b : Active) (active : List Active)
    → In a active ⊎ (a ≡ b)
    → In a (sort_active (active ++ b ∷ []))
push-In a b active (inl i) =
    (In-sort_active a (active ++ b ∷ [])).1 (In-append_left a active (b ∷ []) i)
push-In a b active (inr e) =
    (In-sort_active a (active ++ b ∷ [])).1 (In-append_right a active (b ∷ []) (inl e))

pub pushed-cases :
    (a b : Active) (active : List Active)
    → In a (sort_active (active ++ b ∷ []))
    → In a active ⊎ (a ≡ b)
pushed-cases a b active h =
    elim (In-append_cases a active (b ∷ []) ((In-sort_active a (active ++ b ∷ [])).0 h)) [
      | inl i ↦ inl i
      | inr (inl e) ↦ inr e
      | inr (inr e) ↦ absurd e
    ]

pub count-pushed :
    (q : ℕ) (b : Active) (active : List Active)
    → count_regs q (sort_active (active ++ b ∷ [])) ≡ count_regs q active + one_if (b.reg == q)
count-pushed q b active =
    omega (arith, count-sort_active q (active ++ b ∷ []), count_regs-append q active (b ∷ []))
