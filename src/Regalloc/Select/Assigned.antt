-- ===== src/Regalloc/Select/Assigned.antt =====
-- The emulator on the lines of an assignment in ch08-01-regalloc.rs.
use mathlib.Core.Path.{subst}
use mathlib.Core.Option.{some-injective}
use model_lib.Base.{
  ℕ, suc, ◌+◌, ◌≡◌, refl, sym, ap, ◌∙◌, Option, none, some, inl, List, [], ◌∷◌, length, get_elem?,
}
use model_lib.Regalloc.Code.Defs.{
  Opnd, v, Tac, bin, copy, Env, updated, val, Next, goes, returns, crashes, or_crash, interpret_at,
  result, run, apply,
}
use model_lib.Regalloc.Live.Defs.{vregs, uses, def, targets}
use model_lib.Regalloc.Live.Sets.{with_some-inv}
use model_lib.Regalloc.Live.Solved.{Solves}
use model_lib.Regalloc.Scan.Defs.{Locs}
use model_lib.Regalloc.Scan.Members.{In, In-append_left, In-append_right}
use model_lib.Regalloc.Select.Defs.{
  Text, Line, at_loc, place, mnemonic, copy_lines, bin_lines, select_one, select, Machine, Memory,
  read, emulate_step,
}
use model_lib.Regalloc.Select.Texts.{
  at_loc-text_of, read-text_of, place-scratch, Agree, read-place, Puts, apply-mnemonic,
}
use model_lib.Regalloc.Select.Layout.{offset, select-Chunk}
use model_lib.Regalloc.Select.Chunks.{Block, Leads, Leads-at, Assigns, copy-Assigns, bin-Assigns}
use model_lib.Regalloc.Select.Alive.{LiveAt, Separate, assign-Agree}

-- The code that is selected for sets that solve the equations and for places that are apart.
pub record Selected (code : List Tac) (ins outs : List (List ℕ)) (loc : Locs) (asm : List Line)
    : Type 0 where
  pub chosen : select code loc ≡ some asm
  pub sets : (i : ℕ) (t : Tac) → get_elem? code i ≡ some t → Solves code ins outs i t
  pub apart : Separate code outs loc

module _ {code : List Tac} {ins outs : List (List ℕ)} {loc : Locs} {asm : List Line}
    (made : Selected code ins outs loc asm) (xs : List ℕ) where
  -- What the emulator does for what the interpreter does next.
  abbrev pub Follows : ℕ → Machine → Next Env ℕ → Type 0
  Follows p m (goes j env) =
      (n : Machine) × Leads asm p m (offset loc code j) n × Agree xs loc (LiveAt ins j) env n.memory
  Follows p m (returns x) = (g : ℕ) × ((ops : ℕ) × (run (emulate_step asm) g p m ≡ result (x, ops)))
  Follows p m crashes = Unit

  pub or_crash-Follows :
      {A : Type 0} (p : ℕ) (m : Machine) (o : Option A) (f : A → Next Env ℕ)
      → ((a : A) → o ≡ some a → Follows p m (f a))
      → Follows p m (or_crash o f)
  or_crash-Follows p m none f h = tt
  or_crash-Follows p m (some a) f h = h a refl

  -- The lines of an instruction.
  pub lines_at :
      (i : ℕ) (t : Tac) (lines : List Line)
      → get_elem? code i ≡ some t
      → select_one loc t ≡ some lines
      → Block asm (offset loc code i) lines
        × (offset loc code (suc i) ≡ offset loc code i + length lines)
  lines_at i t lines at e =
      let c = select-Chunk loc code asm i t made.chosen at in
      let same = some-injective c.lines lines (sym c.selected ∙ e) in
      (
        subst (Block asm (offset loc code i)) same c.stands,
        c.next ∙ ap (λ l. offset loc code i + length l) same,
      )

  pub selected :
      (i : ℕ) (t : Tac)
      → get_elem? code i ≡ some t
      → (lines : List Line) × (select_one loc t ≡ some lines)
  selected i t at = let c = select-Chunk loc code asm i t made.chosen at in (c.lines, c.selected)

  -- The lines of an assignment are followed by the next instruction.
  assigned :
      (i : ℕ) (t : Tac) (d : ℕ) (p : Text) (x : ℕ) (lines : List Line) (env : Env) (m : Machine)
      → get_elem? code i ≡ some t
      → def t ≡ some d
      → targets code i t ≡ some (suc i ∷ [])
      → place loc (v d) ≡ some p
      → offset loc code (suc i) ≡ offset loc code i + length lines
      → Assigns asm (offset loc code i) (offset loc code i + length lines) m p x
      → Agree xs loc (LiveAt ins i) env m.memory
      → Follows (offset loc code i) m (goes (suc i) (updated env d x))
  assigned i t d p x lines env m at def_d next q len a agree =
      let (l, e, f) = with_some-inv (loc d) at_loc p q in
      let k = made.sets i t at in
      let n = a.machine in
      let here : In (suc i) k.next =
        subst (In (suc i)) (some-injective (suc i ∷ []) k.next (sym next ∙ k.next_of)) (inl refl) in
      (
        n,
        Leads-at asm (offset loc code i) (offset loc code i + length lines)
            (offset loc code (suc i)) m n a.leads (sym len),
        assign-Agree code ins outs xs loc i (suc i) t d l x env m.memory n.memory made.apart at k
            def_d here e (subst (λ u. Puts m.memory u x n.memory) (at_loc-text_of l p f) a.puts)
            agree,
      )

  pub uses-LiveAt :
      (i : ℕ) (t : Tac) → get_elem? code i ≡ some t → (w : ℕ) → In w (uses t) → LiveAt ins i w
  uses-LiveAt i t at w h = let k = made.sets i t at in (k.inn, k.in_of, k.uses_live w h)

  pub copy-Follows :
      (i d : ℕ) (a : Opnd) (env : Env) (m : Machine)
      → get_elem? code i ≡ some (copy d a)
      → Agree xs loc (LiveAt ins i) env m.memory
      → Follows (offset loc code i) m (interpret_at code xs i (copy d a) env)
  unfolding select_one
  copy-Follows i d a env m at agree =
      let (lines, e) = selected i (copy d a) at in
      let (p, e₁, f₁) = with_some-inv (place loc (v d)) _ lines e in
      let (q, e₂, f₂) = with_some-inv (place loc a) _ lines f₁ in
      let (block, len) = lines_at i (copy d a) (copy_lines p q) at (e ∙ sym f₂) in
      or_crash-Follows (offset loc code i) m (val xs env a) _ (λ x h.
        let held =
          read-place xs loc (LiveAt ins i) env m.memory a x q agree (uses-LiveAt i (copy d a) at) h
            e₂ in
        assigned i (copy d a) d p x (copy_lines p q) env m at refl refl e₁ len
          (copy-Assigns asm (offset loc code i) m p q x block held) agree)

  pub bin-Follows :
      (i d o : ℕ) (a b : Opnd) (env : Env) (m : Machine)
      → get_elem? code i ≡ some (bin d o a b)
      → Agree xs loc (LiveAt ins i) env m.memory
      → Follows (offset loc code i) m (interpret_at code xs i (bin d o a b) env)
  unfolding select_one
  bin-Follows i d o a b env m at agree =
      let (lines, e) = selected i (bin d o a b) at in
      let (p, e₁, f₁) = with_some-inv (place loc (v d)) _ lines e in
      let (q, e₂, f₂) = with_some-inv (place loc a) _ lines f₁ in
      let (r, e₃, f₃) = with_some-inv (place loc b) _ lines f₂ in
      let k = mnemonic o in
      let (block, len) = lines_at i (bin d o a b) (bin_lines k p q r) at (e ∙ sym f₃) in
      let (l, e₄, f₄) = with_some-inv (loc d) at_loc p e₁ in
      let live = uses-LiveAt i (bin d o a b) at in
      let holds = read-place xs loc (LiveAt ins i) env m.memory in
      let plain : (m : Memory) → read m p ≡ m p =
        λ m. subst (λ u. read m u ≡ m u) (sym (at_loc-text_of l p f₄)) (read-text_of m l) in
      or_crash-Follows (offset loc code i) m (val xs env a) _ (λ x h.
        or_crash-Follows (offset loc code i) m (val xs env b) _ (λ y g.
          let held_a =
            holds a x q agree (λ w j. live w (In-append_left w (vregs a) (vregs b) j)) h e₂ in
          let held_b =
            holds b y r agree (λ w j. live w (In-append_right w (vregs a) (vregs b) j)) g e₃ in
          let done =
            bin-Assigns asm (offset loc code i) m k p q r x y block (place-scratch loc b r e₃) plain
              held_a held_b in
          assigned i (bin d o a b) d p (apply o x y) (bin_lines k p q r) env m at refl refl e₁ len
            (subst
              (Assigns asm (offset loc code i) (offset loc code i + length (bin_lines k p q r)) m p)
              (apply-mnemonic o x y) done)
            agree))
