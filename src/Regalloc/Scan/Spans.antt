-- ===== src/Regalloc/Scan/Spans.antt =====
-- The table of intervals in ch08-01-regalloc.rs while it is filled.
use mathlib.Core.Path.{subst}
use mathlib.Core.Option.{some-injective}
use model_lib.Base.{
  ℕ, zero, suc, ◌+◌, ◌≤◌, ◌≡◌, refl, sym, ap, ◌∙◌, Bool-cases, ◌⊎◌, inl, inr, some, List, [], ◌∷◌,
  length, get_elem?, ◌==◌, ==_iff, arith,
}
use model_lib.Regalloc.Code.Defs.{Tac}
use model_lib.Regalloc.Scan.Defs.{Interval, minimum, maximum, touch, touch_all, touched, spans}
use model_lib.Regalloc.Scan.Members.{In}
use model_lib.Regalloc.Scan.Fair.{Fresh}

-- The interval of a register holds an index.
pub record Covered (w i : ℕ) (span : List Interval) : Type 0 where
  pub interval : Interval
  pub listed : In interval span
  pub named : interval.vreg ≡ w
  pub from_start : interval.start ≤ i
  pub to_end : i ≤ interval.end

abbrev pub AllFresh : List Interval → Type 0
AllFresh [] = Unit
AllFresh (x ∷ span) = Fresh x span × AllFresh span

Covered-later :
    (w i : ℕ) (x : Interval) (span : List Interval) → Covered w i span → Covered w i (x ∷ span)
Covered-later w i x span c = record {
  interval = c.interval;
  listed = inr c.listed;
  named = c.named;
  from_start = c.from_start;
  to_end = c.to_end;
}

minimum-bounds : (a b : ℕ) → (minimum a b ≤ a) × (minimum a b ≤ b)
minimum-bounds a b = ground arith

maximum-bounds : (a b : ℕ) → (a ≤ maximum a b) × (b ≤ maximum a b)
maximum-bounds a b = ground arith

touch-Covered : (w i : ℕ) (span : List Interval) → Covered w i (touch w i span)
unfolding touch
touch-Covered w i [] = record {
  interval = record { vreg = w; start = i; end = i };
  listed = inl refl;
  named = refl;
  from_start = omega arith;
  to_end = omega arith;
}
touch-Covered w i (x ∷ span) = elim (Bool-cases (x.vreg == w)) [
  | inl e ↦ rw e (record {
    interval = record x { start = minimum x.start i; end = maximum x.end i };
    listed = inl refl;
    named = (==_iff x.vreg w).0 e;
    from_start = (minimum-bounds x.start i).1;
    to_end = (maximum-bounds x.end i).1;
  })
  | inr e ↦ rw e (Covered-later w i x (touch w i span) (touch-Covered w i span))
]

touch-keeps : (u j w i : ℕ) (span : List Interval) → Covered u j span → Covered u j (touch w i span)
unfolding touch
touch-keeps u j w i [] c = elim c.listed [ ]
touch-keeps u j w i (x ∷ span) c = elim (Bool-cases (x.vreg == w)) [
  | inl e ↦ rw e (elim c.listed [
    | inl p ↦ record {
      interval = record x { start = minimum x.start i; end = maximum x.end i };
      listed = inl refl;
      named = ap (λ y. y.vreg) (sym p) ∙ c.named;
      from_start = omega (arith, (minimum-bounds x.start i).0, c.from_start, ap (λ y. y.start) p);
      to_end = omega (arith, (maximum-bounds x.end i).0, c.to_end, ap (λ y. y.end) p);
    }
    | inr q ↦ record {
      interval = c.interval;
      listed = inr q;
      named = c.named;
      from_start = c.from_start;
      to_end = c.to_end;
    }
  ])
  | inr e ↦ rw e (elim c.listed [
    | inl p ↦ record {
      interval = c.interval;
      listed = inl p;
      named = c.named;
      from_start = c.from_start;
      to_end = c.to_end;
    }
    | inr q ↦ Covered-later u j x (touch w i span) (
        touch-keeps u j w i span (record {
          interval = c.interval;
          listed = q;
          named = c.named;
          from_start = c.from_start;
          to_end = c.to_end;
        }))
  ])
]

-- No register is listed twice.
touch-vregs :
    (w i : ℕ) (span : List Interval) (y : Interval)
    → In y (touch w i span)
    → ((z : Interval) × In z span × (z.vreg ≡ y.vreg)) ⊎ (y.vreg ≡ w)
unfolding touch
touch-vregs w i [] y (inl p) = inr (ap (λ y. y.vreg) p)
touch-vregs w i [] y (inr h) = absurd h
touch-vregs w i (x ∷ span) y h = elim (Bool-cases (x.vreg == w)) [
  | inl e ↦
      let k : In y (record x { start = minimum x.start i; end = maximum x.end i } ∷ span) =
        rw e at h in
      elim k [
        | inl p ↦ inr (ap (λ y. y.vreg) p ∙ (==_iff x.vreg w).0 e)
        | inr q ↦ inl (y, inr q, refl)
      ]
  | inr e ↦
      let k : In y (x ∷ touch w i span) = rw e at h in
      elim k [
        | inl p ↦ inl (x, inl refl, ap (λ y. y.vreg) (sym p))
        | inr q ↦ elim (touch-vregs w i span y q) [
          | inl (z, a, b) ↦ inl (z, inr a, b)
          | inr b ↦ inr b
        ]
      ]
]

touch-AllFresh : (w i : ℕ) (span : List Interval) → AllFresh span → AllFresh (touch w i span)
unfolding touch
touch-AllFresh w i [] f = ((λ y h. elim h [ ]), tt)
touch-AllFresh w i (x ∷ span) (f, fs) = elim (Bool-cases (x.vreg == w)) [
  | inl e ↦ rw e (f, fs)
  | inr e ↦ rw e (
    (λ y h d. elim (touch-vregs w i span y h) [
      | inl (z, a, b) ↦ f z a (d ∙ sym b)
      | inr b ↦ ground (arith, d ∙ b)
    ]),
    touch-AllFresh w i span fs,
  )
]

touch_all-keeps :
    (u j i : ℕ) (ws : List ℕ) (span : List Interval)
    → Covered u j span
    → Covered u j (touch_all ws i span)
unfolding touch_all
touch_all-keeps u j i [] span c = c
touch_all-keeps u j i (w ∷ ws) span c =
    touch_all-keeps u j i ws (touch w i span) (touch-keeps u j w i span c)

touch_all-AllFresh :
    (i : ℕ) (ws : List ℕ) (span : List Interval) → AllFresh span → AllFresh (touch_all ws i span)
unfolding touch_all
touch_all-AllFresh i [] span f = f
touch_all-AllFresh i (w ∷ ws) span f =
    touch_all-AllFresh i ws (touch w i span) (touch-AllFresh w i span f)

touch_all-Covered :
    (w i : ℕ) (ws : List ℕ) (span : List Interval) → In w ws → Covered w i (touch_all ws i span)
unfolding touch_all
touch_all-Covered w i [] span h = elim h [ ]
touch_all-Covered w i (u ∷ ws) span (inl p) =
    touch_all-keeps w i i ws (touch u i span)
      (subst (λ u. Covered w i (touch u i span)) p (touch-Covered w i span))
touch_all-Covered w i (u ∷ ws) span (inr h) = touch_all-Covered w i ws (touch u i span) h

-- What the table holds behind the instructions from an index on.
pub record Spanned (i : ℕ) (code : List Tac) (outs : List (List ℕ)) (span : List Interval)
    : Type 0 where
  pub all : List Interval
  pub returned : spans i code outs span ≡ some all
  pub all_fresh : AllFresh all
  pub keeps : (w j : ℕ) → Covered w j span → Covered w j all
  pub covers :
      (j : ℕ) (t : Tac) (out : List ℕ) (w : ℕ)
      → get_elem? code j ≡ some t
      → get_elem? outs j ≡ some out
      → In w (touched t out)
      → Covered w (i + j) all

pub spans-Spanned :
    (i : ℕ) (code : List Tac) (outs : List (List ℕ)) (span : List Interval)
    → length code ≡ length outs
    → AllFresh span
    → Spanned i code outs span
unfolding spans
spans-Spanned i [] outs span e f = record {
  all = span;
  returned = refl;
  all_fresh = f;
  keeps = λ w j c. c;
  covers = λ j t out w a. cc;
}
spans-Spanned i (t ∷ code) [] span e f = absurd (omega (arith, e))
spans-Spanned i (t ∷ code) (out ∷ outs) span e f =
    let ws = touched t out in
    let k =
      spans-Spanned (suc i) code outs (touch_all ws i span) (omega (arith, e))
        (touch_all-AllFresh i ws span f) in
    record {
      all = k.all;
      returned = k.returned;
      all_fresh = k.all_fresh;
      keeps = λ w j c. k.keeps w j (touch_all-keeps w j i ws span c);
      covers = elim [
        | zero ↦ λ u o w a b h.
            let h' : In w ws =
              subst (λ o. In w (touched t o)) (sym (some-injective out o b))
                (subst (λ u. In w (touched u o)) (sym (some-injective t u a)) h) in
            subst (λ n. Covered w n k.all) (omega arith)
              (k.keeps w i (touch_all-Covered w i ws span h'))
        | suc j ↦
            λ u o w a b h. subst (λ n. Covered w n k.all) (omega arith) (k.covers j u o w a b h)
      ];
    }
