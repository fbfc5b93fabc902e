-- ===== src/Regalloc/Driver/Verified.antt =====
-- The comparison of the emulator with the interpreter in `main` of ch08-01-regalloc.rs.
use model_lib.Base.{
  ℕ, zero, suc, ◌+◌, ◌≤◌, ◌<◌, ◌≡◌, refl, sym, ap, ◌∙◌, ==_iff, if_true, true, List, [], ◌∷◌, arith,
}
use model_lib.Regalloc.Code.Defs.{
  Tac, Next, goes, returns, crashes, Outcome, result, panicked, out_of_fuel, after, run, interpret,
}
use model_lib.Regalloc.Live.Total.{is_closed, rounds, liveness-returns}
use model_lib.Regalloc.Live.Solved.{HasSets, liveness-HasSets}
use model_lib.Regalloc.Scan.Defs.{Interval, intervals}
use model_lib.Regalloc.Scan.Covers.{IsCover, intervals-IsCover}
use model_lib.Regalloc.Select.Defs.{Line, select, emulate}
use model_lib.Regalloc.Driver.Defs.{
  and_then, or_panic, expected, asserted, compared, tried, all_tried, verified,
}
use model_lib.Regalloc.Driver.Sound.{offsets_fit, Simulates, spans-Allocated}

after-stable :
    {S A : Type 0} (n : Next S A) (again later : ℕ → S → Outcome A) (a : A)
    → ((i : ℕ) (s : S) → again i s ≡ result a → later i s ≡ result a)
    → after n again ≡ result a
    → after n later ≡ result a
after-stable (goes i s) again later a h e = h i s e
after-stable (returns b) again later a h e = e
after-stable crashes again later a h e = e

-- More fuel gives the same result.
run-stable :
    {S A : Type 0} (step : ℕ → S → Next S A) (f n i : ℕ) (s : S) (a : A)
    → run step f i s ≡ result a
    → run step (f + n) i s ≡ result a
unfolding run
run-stable step zero n i s a e = cc
run-stable step (suc f) n i s a e =
    let more : suc f + n ≡ suc (f + n) = omega arith in
    ap (λ f. run step f i s) more
    ∙ after-stable (step i s) (run step f) (run step (f + n)) a
        (λ j t h. run-stable step f n j t a h) e

and_then-inv :
    {A B : Type 0} (o : Outcome A) (f : A → Outcome B) (b : B)
    → and_then o f ≡ result b
    → (a : A) × (o ≡ result a) × (f a ≡ result b)
and_then-inv (result a) f b e = (a, refl, e)
and_then-inv panicked f b e = cc
and_then-inv out_of_fuel f b e = cc

-- From some fuel on.
abbrev pub Eventually : (ℕ → Outcome Unit) → Type 0
Eventually check = (h : ℕ) × ((n : ℕ) → check (h + n) ≡ result tt)

compared-passes :
    (g : ℕ) (code : List Tac) (asm : List Line) (tests : List (List ℕ)) (wants : List ℕ)
    → Simulates code asm
    → expected g code tests ≡ result wants
    → Eventually (λ h. compared h asm tests wants)
unfolding expected compared
compared-passes g code asm [] wants s e = (0, λ n. refl)
compared-passes g code asm (a ∷ tests) wants s e =
    let (want, p, e₁) = and_then-inv (interpret g code a) _ wants e in
    let (later, q, e₂) = and_then-inv (expected g code tests) _ wants e₁ in
    let both : want ∷ later ≡ wants = cc in
    let (h₁, (ops, r)) = s g a want p in
    let (h₂, rest) = compared-passes g code asm tests later s q in
    let same : asserted want (want, ops) ≡ result tt = if_true _ _ ((==_iff want want).1 refl) in
    (
      h₁ + h₂,
      λ n.
          let first : emulate (h₁ + h₂ + n) asm a ≡ result (want, ops) =
            ap (λ f. emulate f asm a) (omega arith) ∙ run-stable _ h₁ (h₂ + n) 0 _ (want, ops) r in
          let others : compared (h₁ + h₂ + n) asm tests later ≡ result tt =
            ap (λ f. compared f asm tests later) (omega arith) ∙ rest (h₁ + n) in
          ap (compared (h₁ + h₂ + n) asm (a ∷ tests)) (sym both)
          ∙ ap
              (λ o.
                and_then (and_then o (asserted want))
                  (λ done. compared (h₁ + h₂ + n) asm tests later))
              first
          ∙ ap (λ o. and_then o (λ done. compared (h₁ + h₂ + n) asm tests later)) same
          ∙ others,
    )

-- Numbers of registers from one to twelve.
abbrev pub InReach : List ℕ → Type 0
InReach [] = Unit
InReach (k ∷ ks) = (0 < k) × (k ≤ 12) × InReach ks

all_tried-passes :
    (g : ℕ) (code : List Tac) (outs : List (List ℕ)) (spans : List Interval) (tests : List (List ℕ))
    (wants : List ℕ) (ks : List ℕ)
    → offsets_fit code ≡ true
    → HasSets code outs
    → IsCover code outs spans
    → expected g code tests ≡ result wants
    → InReach ks
    → Eventually (λ h. all_tried h code spans tests wants ks)
unfolding all_tried
all_tried-passes g code outs spans tests wants [] fit sets cover e r = (0, λ n. refl)
all_tried-passes g code outs spans tests wants (k ∷ ks) fit sets cover e (pos, few, r) =
    let a = spans-Allocated k code outs spans pos few fit sets cover in
    let (h₁, one) = compared-passes g code a.asm tests wants a.simulates e in
    let (h₂, rest) = all_tried-passes g code outs spans tests wants ks fit sets cover e r in
    (
      h₁ + h₂,
      λ n.
          let h = h₁ + h₂ + n in
          let first : compared h a.asm tests wants ≡ result tt =
            ap (λ f. compared f a.asm tests wants) (omega arith) ∙ one (h₂ + n) in
          let others : all_tried h code spans tests wants ks ≡ result tt =
            ap (λ f. all_tried f code spans tests wants ks) (omega arith) ∙ rest (h₁ + n) in
          let tried_k : tried h code spans tests wants k ≡ result tt =
            ap
              (λ o.
                or_panic o (λ loc. or_panic (select code loc) (λ asm. compared h asm tests wants)))
              a.scanned
            ∙ ap (λ o. or_panic o (λ asm. compared h asm tests wants)) a.chosen
            ∙ first in
          ap (λ o. and_then o (λ done. all_tried h code spans tests wants ks)) tried_k ∙ others,
    )

-- The assertion of `main` holds for every code in which each jump has its label, which ends in a jump or a return,
-- and the offsets of whose arguments fit into 32 bits: for numbers of registers from one to twelve, inputs on which the interpreter returns, and the rounds
-- that are enough for the liveness analysis, all comparisons of the emulator with the interpreter pass, without
-- a panic, from some bound on the emulator's rounds on.
pub verified-passes :
    (f g : ℕ) (code : List Tac) (tests : List (List ℕ)) (wants ks : List ℕ)
    → InReach ks
    → is_closed code ≡ true
    → offsets_fit code ≡ true
    → rounds code ≤ f
    → expected g code tests ≡ result wants
    → (h : ℕ) × ((n : ℕ) → verified f g (h + n) code tests ks ≡ result tt)
unfolding verified
verified-passes f g code tests wants ks r closed fit le e =
    let (outs, live) = liveness-returns f code closed le in
    let sets = liveness-HasSets f code outs live in
    let (spans, p, cover) = intervals-IsCover code outs sets.0 in
    let (h, all) = all_tried-passes g code outs spans tests wants ks fit sets cover e r in
    (
      h,
      λ n.
          let check : List Interval → List ℕ → Outcome Unit =
            λ spans wants. all_tried (h + n) code spans tests wants ks in
          ap
            (λ o. and_then o (λ outs.
              or_panic (intervals code outs)
                (λ spans. and_then (expected g code tests) (check spans))))
            live
          ∙ ap (λ o. or_panic o (λ spans. and_then (expected g code tests) (check spans))) p
          ∙ ap (λ o. and_then o (check spans)) e
          ∙ all n,
    )
