-- ===== src/Regalloc/Select/Alive.antt =====
-- What memory holds for the registers that are live in ch08-01-regalloc.rs, from one instruction to the next.
use mathlib.Core.Path.{subst}
use mathlib.Core.Option.{some-injective}
use model_lib.Base.{
  ℕ, ◌≡◌, ◌≢◌, refl, sym, ap, ◌∙◌, true, false, Bool-cases, some, inl, inr, List, ◌++◌, get_elem?,
  ◌==◌, ==_iff, if_true, if_false,
}
use model_lib.Regalloc.Code.Defs.{Tac, Env, updated}
use model_lib.Regalloc.Live.Defs.{uses, def, is_def}
use model_lib.Regalloc.Live.Solved.{Solves}
use model_lib.Regalloc.Scan.Defs.{Loc, Locs, touched, listed}
use model_lib.Regalloc.Scan.Members.{In, In-append_left, In-append_right}
use model_lib.Regalloc.Select.Defs.{Text, scratch, args, text_eq, Memory}
use model_lib.Regalloc.Select.Texts.{
  ne→text_eq, text_of, text_of-injective, text_of-scratch, text_of-args, Agree, Puts,
}

-- A register that is live before an instruction.
abbrev pub LiveAt : List (List ℕ) → ℕ → ℕ → Type 0
LiveAt ins i w = (inn : List ℕ) × (get_elem? ins i ≡ some inn) × In w inn

-- Two registers that one instruction touches are apart.
abbrev pub Separate : List Tac → List (List ℕ) → Locs → Type 0
Separate code outs loc =
    (i : ℕ) (t : Tac) (out : List ℕ) (w u : ℕ)
    → get_elem? code i ≡ some t
    → get_elem? outs i ≡ some out
    → In w (touched t out)
    → In u (touched t out)
    → w ≢ u
    → loc w ≢ loc u

In-touched_def : (t : Tac) (out : List ℕ) (d : ℕ) → def t ≡ some d → In d (touched t out)
In-touched_def t out d e =
    In-append_right d (uses t) (listed (def t) ++ out)
      (In-append_left d (listed (def t)) out (subst (λ o. In d (listed o)) (sym e) (inl refl)))

In-touched_out : (t : Tac) (out : List ℕ) (w : ℕ) → In w out → In w (touched t out)
In-touched_out t out w h =
    In-append_right w (uses t) (listed (def t) ++ out) (In-append_right w (listed (def t)) out h)

module _ (code : List Tac) (ins outs : List (List ℕ)) (xs : List ℕ) (loc : Locs) where
  -- What is live before a next instruction is live behind this one.
  live_behind :
      (i s : ℕ) (t : Tac) (k : Solves code ins outs i t) (w : ℕ)
      → In s k.next
      → LiveAt ins s w
      → In w k.out
  live_behind i s t k w h (inn, at, here) =
      let (later, e, sub) = k.flows s h in
      sub w (subst (In w) (some-injective inn later (sym at ∙ e)) here)

  live_through :
      (i : ℕ) (t : Tac) (k : Solves code ins outs i t) (w : ℕ)
      → In w k.out
      → is_def (def t) w ≡ false
      → LiveAt ins i w
  live_through i t k w h n = (k.inn, k.in_of, k.passes w h n)

  -- An instruction that defines nothing.
  pub flow-Agree :
      (i s : ℕ) (t : Tac) (env : Env) (m n : Memory)
      → (k : Solves code ins outs i t) → ((w : ℕ) → is_def (def t) w ≡ false)
      → In s k.next
      → ((u : Text) → text_eq scratch u ≡ false → n u ≡ m u)
      → Agree xs loc (LiveAt ins i) env m
      → Agree xs loc (LiveAt ins s) env n
  unfolding text_eq
  flow-Agree i s t env m n k free h same a = record {
    values = λ w x l live e p.
        same (text_of l) (text_of-scratch l)
        ∙ a.values w x l (live_through i t k w (live_behind i s t k w h live) (free w)) e p;
    arguments = λ j. same (args j) refl ∙ a.arguments j;
  }

  pub assign-Agree :
      (i s : ℕ) (t : Tac) (d : ℕ) (l : Loc) (x : ℕ) (env : Env) (m n : Memory)
      → Separate code outs loc
      → get_elem? code i ≡ some t
      → (k : Solves code ins outs i t) → def t ≡ some d
      → In s k.next
      → loc d ≡ some l
      → Puts m (text_of l) x n
      → Agree xs loc (LiveAt ins i) env m
      → Agree xs loc (LiveAt ins s) (updated env d x) n
  unfolding text_eq
  assign-Agree i s t d l x env m n apart at k def_d h q puts a = record {
    values = λ w y lw live e p. elim (Bool-cases (d == w)) [
      | inl b ↦
          let dw = (==_iff d w).0 b in
          let xy : some x ≡ some y = sym (if_true (some x) (env w) b) ∙ e in
          let ll = some-injective l lw (sym q ∙ ap loc dw ∙ p) in
          ap (λ l. n (text_of l)) (sym ll) ∙ puts.put ∙ xy
      | inr b ↦
          let env_w : env w ≡ some y = sym (if_false (some x) (env w) b) ∙ e in
          let out_w = live_behind i s t k w h live in
          let other : d ≢ w = λ g. let z : true ≡ false = sym ((==_iff d w).1 g) ∙ b in cc in
          let far : text_of l ≢ text_of lw = λ g.
            apart i t k.out d w at k.out_of (In-touched_def t k.out d def_d)
              (In-touched_out t k.out w out_w) other
              (q ∙ ap some (text_of-injective l lw g) ∙ sym p) in
          puts.rest (text_of lw) (ne→text_eq (text_of l) (text_of lw) far) (text_of-scratch lw)
          ∙ a.values w y lw (live_through i t k w out_w (ap (λ o. is_def o w) def_d ∙ b)) env_w p
    ];
    arguments = λ j. puts.rest (args j) (text_of-args l j) refl ∙ a.arguments j;
  }
