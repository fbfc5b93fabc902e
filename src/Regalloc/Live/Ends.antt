-- ===== src/Regalloc/Live/Ends.antt =====
-- `liveness` of ch08-01-regalloc.rs comes to an end.
use mathlib.Core.Path.{subst}
use model_lib.Base.{
  ℕ, zero, suc, ◌+◌, ◌≤◌, ◌<◌, ◌≡◌, refl, sym, ap, ◌∙◌, true, false, ◌&&◌, Bool-cases, ◌⊎◌, inl,
  inr, some, List, length, name_eq, name_eq_refl, if_true, if_false, arith,
}
use model_lib.Regalloc.Code.Defs.{Tac, with_some, result}
use model_lib.Regalloc.Live.Defs.{Flow, stored, store_at, visit, sweep, swept, unchanged, settle}
use model_lib.Regalloc.Live.Ascending.{Sub-cases, length-Above}
use model_lib.Regalloc.Live.Grows.{size, size-set, times, size-le}
use model_lib.Regalloc.Live.Tame.{
  Closed, UsesBelow, Kept, Tame, total, finds, new_in, new_out, in-IsKept, out-IsKept, stored-Tame,
}

-- Nothing has changed, or the sets have grown.
abbrev Moves : Flow → Flow → Type 0
Moves s t = (t ≡ s) ⊎ (total s < total t)

-- Equal, or one of two lists is longer.
two-cases :
    (a b a' b' : List ℕ)
    → (name_eq a' a && name_eq b' b) ≡ false
    → (a ≡ a') ⊎ (length a < length a')
    → (b ≡ b') ⊎ (length b < length b')
    → length a + length b < length a' + length b'
two-cases a b a' b' n (inl p) (inl q) =
    let both : (name_eq a' a && name_eq b' b) ≡ true =
      ap (λ a. name_eq a' a && name_eq b' b) p
      ∙ ap (λ b. name_eq a' a' && name_eq b' b) q
      ∙ ap (λ x. x && name_eq b' b') (name_eq_refl a')
      ∙ name_eq_refl b' in
    let bad : true ≡ false = sym both ∙ n in absurd cc
two-cases a b a' b' n (inl p) (inr l) = omega (arith, ap length p, l)
two-cases a b a' b' n (inr l) (inl q) = omega (arith, ap length q, l)
two-cases a b a' b' n (inr l) (inr k) = omega (arith, l, k)

module _ (bound : ℕ) (code : List Tac) (closed : Closed code) (small : UsesBelow bound code) where
  visit-Moves :
      (s : Flow) (i : ℕ)
      → Tame bound code s
      → i < length code
      → (t : Flow) × (visit code i s ≡ some t) × Tame bound code t × Moves s t
  unfolding visit
  visit-Moves s i t lt =
      let f = finds bound code closed small s i t lt in
      let inn = new_in bound code closed small s i f in
      let out = new_out bound code closed small s i f in
      let found : visit code i s ≡ some (store_at i inn out s f.old_in f.old_out) =
        rw (f.at, f.next_of, f.gathered, f.in_at, f.out_at) refl in
      elim (Bool-cases (name_eq inn f.old_in && name_eq out f.old_out)) [
        | inl b ↦ (s, found ∙ ap some (if_true s _ b), t, inl refl)
        | inr b ↦
            let (sub_in, sub_out) =
              t.grows i f.tac f.next f.all f.old_in f.old_out f.at f.next_of f.gathered f.in_at
                f.out_at in
            let more =
              two-cases f.old_in f.old_out inn out b
                (Sub-cases 0 f.old_in inn (t.in_sets i f.old_in f.in_at).0
                  (in-IsKept bound code closed small s i f t).0 sub_in)
                (Sub-cases 0 f.old_out out (t.out_sets i f.old_out f.out_at).0
                  (out-IsKept bound code closed small s i f t).0 sub_out) in
            (
              stored i inn out s,
              found ∙ ap some (if_false s _ b),
              stored-Tame bound code closed small s i f t,
              inr (
                  omega (
                    arith,
                    more,
                    size-set s.ins i f.old_in inn f.in_at,
                    size-set s.outs i f.old_out out f.out_at,
                  )),
            )
      ]

  Moves-trans : (s t u : Flow) → Moves s t → Moves t u → Moves s u
  Moves-trans s t u (inl p) (inl q) = inl (q ∙ p)
  Moves-trans s t u (inl p) (inr l) = inr (omega (arith, ap total p, l))
  Moves-trans s t u (inr l) (inl q) = inr (omega (arith, ap total q, l))
  Moves-trans s t u (inr l) (inr k) = inr (omega (arith, l, k))

  sweep-Moves :
      (n : ℕ) (s : Flow)
      → Tame bound code s
      → n ≤ length code
      → (t : Flow) × (sweep code n s ≡ some t) × Tame bound code t × Moves s t
  unfolding sweep
  sweep-Moves zero s t le = (s, refl, t, inl refl)
  sweep-Moves (suc n) s t le =
      let (u, e, tu, m) = visit-Moves s n t (omega (arith, le)) in
      let (w, g, tw, k) = sweep-Moves n u tu (omega (arith, le)) in
      (w, ap (λ o. with_some o (sweep code n)) e ∙ g, tw, Moves-trans s u w m k)

  abbrev most : ℕ
  most = times (length code) bound + times (length code) bound

  Kept-size :
      (sets : List (List ℕ))
      → Kept bound sets
      → length sets ≡ length code
      → size sets ≤ times (length code) bound
  Kept-size sets k len =
      subst (λ n. size sets ≤ times n bound) len
        (size-le bound sets (λ i xs e.
          let le = length-Above 0 bound xs (omega arith) (k i xs e).0 (k i xs e).1 in
          omega (arith, le)))

  total-le : (s : Flow) → Tame bound code s → total s ≤ most
  total-le s t =
      omega (arith, Kept-size s.ins t.in_sets t.len_ins, Kept-size s.outs t.out_sets t.len_outs)

  unchanged-Tame : (s : Flow) → Tame bound code s → Tame bound code (unchanged s)
  unchanged-Tame s t = record {
    len_ins = t.len_ins;
    len_outs = t.len_outs;
    in_sets = t.in_sets;
    out_sets = t.out_sets;
    grows = t.grows;
  }

  pub settle-returns :
      (f : ℕ) (s : Flow)
      → Tame bound code s
      → most < f + total s
      → (t : Flow) × (settle code f s ≡ result t)
  unfolding settle
  settle-returns zero s t h = absurd (omega (arith, h, total-le s t))
  settle-returns (suc f) s t h =
      let (u, e, tu, m) =
        sweep-Moves (length code) (unchanged s) (unchanged-Tame s t) (omega arith) in
      let round : settle code (suc f) s ≡ swept (some u) (settle code f) =
        ap (λ o. swept o (settle code f)) e in
      elim (Bool-cases u.changed) [
        | inr c ↦ (u, round ∙ if_false (settle code f u) (result u) c)
        | inl c ↦
            let more : total (unchanged s) < total u = elim m [
              | inl p ↦ let bad : true ≡ false = sym c ∙ ap (λ f. f.changed) p in absurd cc
              | inr l ↦ l
            ] in
            let (w, g) = settle-returns f u tu (omega (arith, more, h)) in
            (w, round ∙ if_true (settle code f u) (result u) c ∙ g)
      ]
