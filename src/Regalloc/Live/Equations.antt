-- ===== src/Regalloc/Live/Equations.antt =====
-- What `liveness` of ch08-01-regalloc.rs returns solves the equations of live registers.
use mathlib.Core.Path.{subst}
use mathlib.Core.Option.{some-injective}
use model_lib.Base.{
  ℕ, suc, ◌≡◌, refl, sym, ap, ◌∙◌, true, false, Bool-cases, ◌⊎◌, inl, inr, Option, none, some, List,
  [], ◌∷◌, ◌++◌, length, length-replicate, get_elem?, ==_iff,
}
use model_lib.Regalloc.Code.Defs.{
  Tac, bin, copy, label, jump_if_ge, jump, ret, with_some, label_of, result,
}
use model_lib.Regalloc.Live.Defs.{
  def, is_def, sorted_set, live_before, targets, gather, settle, nothing_live, liveness,
}
use model_lib.Regalloc.Live.Sets.{
  with_some-inv, sorted_set-Same, live_before-uses, live_before-passes,
}
use model_lib.Regalloc.Live.Reads.{
  Reads, Defines, GoesTo, behind_bin, behind_copy, behind_label, behind_test, from_test, from_jump,
  uses-Reads, Reads-uses, def-Defines, Defines-def,
}
use model_lib.Regalloc.Live.Grows.{live_before-cases}
use model_lib.Regalloc.Live.Solved.{settle-Stable, settle-length, get_elem?-lt, outs_of-inv}
use model_lib.Regalloc.Scan.Members.{In, In-append_left, In-append_right, In-append_cases}

abbrev pub LiveBefore : List (List ℕ) → ℕ → ℕ → Type 0
LiveBefore ins i w = (inn : List ℕ) × (get_elem? ins i ≡ some inn) × In w inn

-- A register is live before an instruction just where the instruction reads it, or it is live behind the
-- instruction and not defined by it; it is live behind an instruction just where it is live before one that can
-- follow.
pub record Equations (code : List Tac) (ins : List (List ℕ)) (i : ℕ) (t : Tac) (out : List ℕ)
    : Type 0 where
  pub before :
      (w : ℕ)
      → (LiveBefore ins i w → Reads t w ⊎ (In w out × ¬ Defines t w))
        × (Reads t w ⊎ (In w out × ¬ Defines t w) → LiveBefore ins i w)
  pub behind :
      (w : ℕ)
      → (In w out → (s : ℕ) × GoesTo code i t s × LiveBefore ins s w)
        × ((s : ℕ) → GoesTo code i t s → LiveBefore ins s w → In w out)

targets-GoesTo :
    (code : List Tac) (i : ℕ) (t : Tac) (ss : List ℕ) (s : ℕ)
    → targets code i t ≡ some ss
    → In s ss
    → GoesTo code i t s
targets-GoesTo code i t ss s e h = found t e
  where
    one : (j : ℕ) → some (j ∷ []) ≡ some ss → j ≡ s
    one j e = elim (subst (In s) (sym (some-injective (j ∷ []) ss e)) h) [
      | inl p ↦ sym p
      | inr k ↦ absurd k
    ]

    found : (t : Tac) → targets code i t ≡ some ss → GoesTo code i t s
    found (bin d o a b) e = subst (GoesTo code i (bin d o a b)) (one (suc i) e) behind_bin
    found (copy d a) e = subst (GoesTo code i (copy d a)) (one (suc i) e) behind_copy
    found (label l) e = subst (GoesTo code i (label l)) (one (suc i) e) behind_label
    found (jump l) e =
        let (j, p, q) = with_some-inv (label_of l code) _ ss e in from_jump (p ∙ ap some (one j q))
    found (jump_if_ge a b l) e =
        let (j, p, q) = with_some-inv (label_of l code) _ ss e in
        elim (subst (In s) (sym (some-injective (suc i ∷ j ∷ []) ss q)) h) [
          | inl here ↦ subst (GoesTo code i (jump_if_ge a b l)) (sym here) behind_test
          | inr (inl there) ↦ from_test (p ∙ ap some (sym there))
          | inr (inr k) ↦ absurd k
        ]
    found (ret a) e = absurd (subst (In s) (sym (some-injective [] ss e)) h)

GoesTo-targets :
    (code : List Tac) (i : ℕ) (t : Tac) (ss : List ℕ) (s : ℕ)
    → targets code i t ≡ some ss
    → GoesTo code i t s
    → In s ss
GoesTo-targets code i (bin d o a b) ss _ e behind_bin =
    subst (In (suc i)) (some-injective (suc i ∷ []) ss e) (inl refl)
GoesTo-targets code i (copy d a) ss _ e behind_copy =
    subst (In (suc i)) (some-injective (suc i ∷ []) ss e) (inl refl)
GoesTo-targets code i (label l) ss _ e behind_label =
    subst (In (suc i)) (some-injective (suc i ∷ []) ss e) (inl refl)
GoesTo-targets code i (jump l) ss s e (from_jump p) =
    subst (In s)
      (some-injective (s ∷ []) ss (sym (ap (λ o. with_some o (λ j. some (j ∷ []))) p) ∙ e))
      (inl refl)
GoesTo-targets code i (jump_if_ge a b l) ss _ e behind_test =
    let (j, p, q) = with_some-inv (label_of l code) _ ss e in
    subst (In (suc i)) (some-injective (suc i ∷ j ∷ []) ss q) (inl refl)
GoesTo-targets code i (jump_if_ge a b l) ss s e (from_test p) =
    subst (In s)
      (some-injective (suc i ∷ s ∷ []) ss
        (sym (ap (λ o. with_some o (λ j. some (suc i ∷ j ∷ []))) p) ∙ e))
      (inr (inl refl))
GoesTo-targets code i (ret a) ss _ e g = elim g [ ]

-- The members of what is gathered.
gathered-iff :
    (ins : List (List ℕ)) (ss all : List ℕ) (w : ℕ)
    → gather ins ss ≡ some all
    → (In w all → (s : ℕ) × In s ss × LiveBefore ins s w)
      × ((s : ℕ) → In s ss → LiveBefore ins s w → In w all)
unfolding gather
gathered-iff ins [] all w e =
    (λ h. absurd (subst (In w) (sym (some-injective [] all e)) h), λ s h l. absurd h)
gathered-iff ins (x ∷ ss) all w e =
    let (a, p, e₁) = with_some-inv (get_elem? ins x) _ all e in
    let (b, q, e₂) = with_some-inv (gather ins ss) _ all e₁ in
    let same = some-injective (a ++ b) all e₂ in
    let (f, g) = gathered-iff ins ss b w q in
    (
      λ h. elim (In-append_cases w a b (subst (In w) (sym same) h)) [
        | inl i ↦ (x, inl refl, (a, p, i))
        | inr j ↦ let (s, k, l) = f j in (s, inr k, l)
      ],
      λ s h l. subst (In w) same (elim h [
        | inl i ↦
            let (c, r, m) = l in
            let ca : c ≡ a = some-injective c a (sym r ∙ ap (get_elem? ins) i ∙ p) in
            In-append_left w a b (subst (In w) ca m)
        | inr j ↦ In-append_right w a b (g s j l)
      ]),
    )

is_def-Defines : (t : Tac) (w : ℕ) → is_def (def t) w ≡ true → Defines t w
is_def-Defines t w e = def-Defines t w (named (def t) e)
  where
    named : (o : Option ℕ) → is_def o w ≡ true → o ≡ some w
    named none e = cc
    named (some d) e = ap some ((==_iff d w).0 e)

Defines-is_def : (t : Tac) (w : ℕ) → Defines t w → is_def (def t) w ≡ true
Defines-is_def t w d = ap (λ o. is_def o w) (Defines-def t w d) ∙ (==_iff w w).1 refl

Stable-Equations :
    (code : List Tac) (ins outs : List (List ℕ)) (i : ℕ) (t : Tac) (out ss all : List ℕ)
    → targets code i t ≡ some ss
    → gather ins ss ≡ some all
    → get_elem? ins i ≡ some (live_before t (sorted_set all))
    → sorted_set all ≡ out
    → Equations code ins i t out
Stable-Equations code ins outs i t out ss all next gathered in_at same =
    let inner : (w : ℕ) → (In w all → In w out) × (In w out → In w all) = λ w. (
      λ h. subst (In w) same ((sorted_set-Same all w).1 h),
      λ h. (sorted_set-Same all w).0 (subst (In w) (sym same) h),
    ) in
    record {
      before = λ w. (
        λ (inn, e, h).
            let here : In w (live_before t (sorted_set all)) =
              subst (In w) (some-injective inn (live_before t (sorted_set all)) (sym e ∙ in_at))
                h in
            elim (live_before-cases t (sorted_set all) w here) [
              | inl (k, n) ↦ inr (
                subst (In w) same k,
                λ d. let bad : true ≡ false = sym (Defines-is_def t w d) ∙ n in cc,
              )
              | inr u ↦ inl (uses-Reads t w u)
            ],
        elim [
          | inl r ↦ (_, in_at, live_before-uses t (sorted_set all) w (Reads-uses t w r))
          | inr (h, n) ↦
              let kept : is_def (def t) w ≡ false = elim (Bool-cases (is_def (def t) w)) [
                | inl d ↦ absurd (n (is_def-Defines t w d))
                | inr e ↦ e
              ] in
              (_, in_at, live_before-passes t (sorted_set all) w (subst (In w) (sym same) h) kept)
        ],
      );
      behind = λ w. (
        λ h.
            let (s, k, l) = (gathered-iff ins ss all w gathered).0 ((inner w).1 h) in
            (s, targets-GoesTo code i t ss s next k, l),
        λ s g l.
            (inner w).0
              ((gathered-iff ins ss all w gathered).1 s (GoesTo-targets code i t ss s next g) l),
      );
    }

-- Where `liveness` returns, there is a list behind each instruction, and with lists before them these solve the
-- equations of live registers: a register is live before an instruction just where the instruction reads it, or
-- it is live behind it and not defined by it; and it is live behind an instruction just where it is live
-- before one that can follow.
pub liveness-Equations :
    (f : ℕ) (code : List Tac) (outs : List (List ℕ))
    → liveness f code ≡ result outs
    → (length code ≡ length outs)
      × ((ins : List (List ℕ)) × ((i : ℕ) (t : Tac) (out : List ℕ)
            → get_elem? code i ≡ some t
            → get_elem? outs i ≡ some out
            → Equations code ins i t out))
unfolding liveness
liveness-Equations f code outs e =
    let (s, q, o) = outs_of-inv (settle code f (nothing_live code)) outs e in
    let len : length s.outs ≡ length code =
      settle-length code f (nothing_live code) s q ∙ length-replicate (length code) [] in
    (
      sym len ∙ ap length o,
      (
        s.ins,
        λ i t out at out_at.
            let k = settle-Stable code f (nothing_live code) s q i (get_elem?-lt code i t at) in
            let same : k.tac ≡ t = some-injective k.tac t (sym k.at ∙ at) in
            let out_same : sorted_set k.all ≡ out =
              some-injective (sorted_set k.all) out
                (sym k.out_of ∙ ap (λ outs. get_elem? outs i) o ∙ out_at) in
            subst (λ t. Equations code s.ins i t out) same
              (Stable-Equations code s.ins outs i k.tac out k.next k.all k.next_of k.gathered
                k.in_of out_same),
      ),
    )
