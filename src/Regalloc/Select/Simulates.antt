-- ===== src/Regalloc/Select/Simulates.antt =====
-- The emulator on the selected code of ch08-01-regalloc.rs follows the interpreter.
use mathlib.Core.Path.{subst}
use mathlib.Core.Option.{some-injective}
use model_lib.Base.{
  ℕ, zero, suc, ◌≡◌, refl, sym, ap, ◌∙◌, Bool, true, false, some, inl, inr, List, [], ◌∷◌,
  get_elem?, if◌then◌else◌, if_true, if_false, arith,
}
use model_lib.Base.Word.{signed_le}
use model_lib.Regalloc.Code.Defs.{
  Opnd, Tac, bin, copy, label, jump_if_ge, jump, ret, with_some, Env, val, label_of, Next, goes,
  returns, crashes, Outcome, or_crash, interpret_at, interpret_step, result, run, after,
}
use model_lib.Regalloc.Live.Defs.{vregs, def, is_def}
use model_lib.Regalloc.Live.Sets.{with_some-inv}
use model_lib.Regalloc.Live.Solved.{Solves}
use model_lib.Regalloc.Scan.Defs.{Locs}
use model_lib.Regalloc.Scan.Members.{In, In-append_left, In-append_right}
use model_lib.Regalloc.Select.Defs.{
  Text, scratch, rax, Line, mov, ret_line, label_line, jmp, jge, text_eq, place, compare_lines,
  select_one, Machine, counted, emulate_at, emulate_step, jumps,
}
use model_lib.Regalloc.Select.Texts.{place-scratch, Agree, read-place}
use model_lib.Regalloc.Select.Layout.{offset, line_of-label_of}
use model_lib.Regalloc.Select.Chunks.{Leads, Leads-trans, Leads-at, line-Leads, Block-head}
use model_lib.Regalloc.Select.Jumps.{compare-Compares, ret-Returns}
use model_lib.Regalloc.Select.Alive.{LiveAt, flow-Agree}
use model_lib.Regalloc.Select.Assigned.{
  Selected, Follows, or_crash-Follows, lines_at, selected, uses-LiveAt, copy-Follows, bin-Follows,
}

module _ {code : List Tac} {ins outs : List (List ℕ)} {loc : Locs} {asm : List Line}
    (made : Selected code ins outs loc asm) (xs : List ℕ) where
  if-Follows :
      (p : ℕ) (m : Machine) (b : Bool) (n k : Next Env ℕ)
      → (b ≡ true → Follows made xs p m n)
      → (b ≡ false → Follows made xs p m k)
      → Follows made xs p m (if b then n else k)
  if-Follows p m true n k h g = h refl
  if-Follows p m false n k h g = g refl

  -- The machine goes to where a label is, with the memory of the machine `m`.
  at_target :
      (i j l : ℕ) (t : Tac) (env : Env) (m n : Machine) (p : ℕ) (line : Line)
      → get_elem? code i ≡ some t
      → ((w : ℕ) → is_def (def t) w ≡ false)
      → ((k : Solves code ins outs i t) → In j k.next)
      → label_of l code ≡ some j
      → Leads asm (offset loc code i) m p n
      → get_elem? asm p ≡ some line
      → emulate_at asm p line (counted line n) ≡ jumps asm l (counted line n)
      → ((u : Text) → text_eq scratch u ≡ false → n.memory u ≡ m.memory u)
      → Agree xs loc (LiveAt ins i) env m.memory
      → Follows made xs (offset loc code i) m (goes j env)
  at_target i j l t env m n p line at free next e leads stands act same agree =
      let k = made.sets i t at in
      let to : jumps asm l (counted line n) ≡ goes (offset loc code j) (counted line n) =
        ap (λ o. or_crash o (λ i. goes i (counted line n)))
          (line_of-label_of loc l code asm j made.chosen e) in
      (
        counted line n,
        Leads-trans asm (offset loc code i) p (offset loc code j) m n (counted line n) leads
            (line-Leads asm p (offset loc code j) line n (counted line n) stands (act ∙ to)),
        flow-Agree code ins outs xs loc i j t env m.memory n.memory k free (next k) same agree,
      )

  jump-Follows :
      (i l : ℕ) (env : Env) (m : Machine)
      → get_elem? code i ≡ some (jump l)
      → Agree xs loc (LiveAt ins i) env m.memory
      → Follows made xs (offset loc code i) m (interpret_at code xs i (jump l) env)
  unfolding select_one
  jump-Follows i l env m at agree =
      let p = offset loc code i in
      let (block, len) = lines_at made xs i (jump l) (jmp l ∷ []) at refl in
      or_crash-Follows made xs p m (label_of l code) _ (λ j e.
        at_target i j l (jump l) env m m p (jmp l) at (λ w. refl)
          (λ k.
            let next : some (j ∷ []) ≡ some k.next =
              sym (ap (λ o. with_some o (λ j. some (j ∷ []))) e) ∙ k.next_of in
            subst (In j) (some-injective (j ∷ []) k.next next) (inl refl))
          e (λ f. (f, refl)) (Block-head asm p (jmp l) [] block) refl (λ u h. refl) agree)

  label-Follows :
      (i l : ℕ) (env : Env) (m : Machine)
      → get_elem? code i ≡ some (label l)
      → Agree xs loc (LiveAt ins i) env m.memory
      → Follows made xs (offset loc code i) m (goes (suc i) env)
  unfolding select_one
  label-Follows i l env m at agree =
      let p = offset loc code i in
      let (block, len) = lines_at made xs i (label l) (label_line l ∷ []) at refl in
      let k = made.sets i (label l) at in
      let n = counted (label_line l) m in
      let here = subst (In (suc i)) (some-injective (suc i ∷ []) k.next k.next_of) (inl refl) in
      (
        n,
        Leads-at asm p (suc p) (offset loc code (suc i)) m n
            (line-Leads asm p (suc p) (label_line l) m n (Block-head asm p (label_line l) [] block)
              refl)
            (omega (arith, len)),
        flow-Agree code ins outs xs loc i (suc i) (label l) env m.memory n.memory k (λ w. refl) here
            (λ u h. refl) agree,
      )

  ret-Follows :
      (i : ℕ) (a : Opnd) (env : Env) (m : Machine)
      → get_elem? code i ≡ some (ret a)
      → Agree xs loc (LiveAt ins i) env m.memory
      → Follows made xs (offset loc code i) m (interpret_at code xs i (ret a) env)
  unfolding select_one
  ret-Follows i a env m at agree =
      let (lines, e) = selected made xs i (ret a) at in
      let (q, e₁, f₁) = with_some-inv (place loc a) _ lines e in
      let (block, len) = lines_at made xs i (ret a) (mov rax q ∷ ret_line ∷ []) at (e ∙ sym f₁) in
      or_crash-Follows made xs (offset loc code i) m (val xs env a) _ (λ x h.
        ret-Returns asm (offset loc code i) m q x block (
          read-place xs loc (LiveAt ins i) env m.memory a x q agree
            (uses-LiveAt made xs i (ret a) at) h e₁))

  compare-Follows :
      (i l : ℕ) (a b : Opnd) (env : Env) (m : Machine)
      → get_elem? code i ≡ some (jump_if_ge a b l)
      → Agree xs loc (LiveAt ins i) env m.memory
      → Follows made xs (offset loc code i) m (interpret_at code xs i (jump_if_ge a b l) env)
  unfolding select_one
  compare-Follows i l a b env m at agree =
      let t = jump_if_ge a b l in
      let p = offset loc code i in
      let (lines, e) = selected made xs i t at in
      let (q, e₁, f₁) = with_some-inv (place loc a) _ lines e in
      let (r, e₂, f₂) = with_some-inv (place loc b) _ lines f₁ in
      let (block, len) = lines_at made xs i t (compare_lines q r l) at (e ∙ sym f₂) in
      let live = uses-LiveAt made xs i t at in
      let holds = read-place xs loc (LiveAt ins i) env m.memory in
      or_crash-Follows made xs p m (val xs env a) _ (λ x h.
        or_crash-Follows made xs p m (val xs env b) _ (λ y g.
          let held_a =
            holds a x q agree (λ w j. live w (In-append_left w (vregs a) (vregs b) j)) h e₁ in
          let held_b =
            holds b y r agree (λ w j. live w (In-append_right w (vregs a) (vregs b) j)) g e₂ in
          let c =
            compare-Compares asm p m q r l x y block (place-scratch loc b r e₂) held_a held_b in
          let n = c.machine in
          let act : Machine → Bool → Next Machine (ℕ × ℕ) =
            λ n b. if b then jumps asm l n else goes (suc c.jump_at) n in
          let flag : act (counted (jge l) n) n.flag_ge ≡ act (counted (jge l) n) (signed_le y x) =
            ap (act (counted (jge l) n)) c.flag in
          let next : (k : Solves code ins outs i t) (j : ℕ)
              → label_of l code ≡ some j
              → some (suc i ∷ j ∷ []) ≡ some k.next =
            λ k j d. sym (ap (λ o. with_some o (λ j. some (suc i ∷ j ∷ []))) d) ∙ k.next_of in
          if-Follows p m (signed_le y x) _ _
            (λ ge. or_crash-Follows made xs p m (label_of l code) _ (λ j d.
              at_target i j l t env m n c.jump_at (jge l) at (λ w. refl)
                (λ k.
                  subst (In j) (some-injective (suc i ∷ j ∷ []) k.next (next k j d))
                    (inr (inl refl)))
                d c.leads c.stands (flag ∙ if_true _ _ ge) c.rest agree))
            (λ lt.
              let k = made.sets i t at in
              let (j, d, f) = with_some-inv (label_of l code) _ k.next k.next_of in
              (
                counted (jge l) n,
                Leads-at asm p (suc c.jump_at) (offset loc code (suc i)) m (counted (jge l) n)
                    (Leads-trans asm p c.jump_at (suc c.jump_at) m n (counted (jge l) n) c.leads (
                      line-Leads asm c.jump_at (suc c.jump_at) (jge l) n (counted (jge l) n)
                        c.stands (flag ∙ if_false _ _ lt)))
                    (c.behind ∙ sym len),
                flow-Agree code ins outs xs loc i (suc i) t env m.memory n.memory k (λ w. refl)
                    (subst (In (suc i)) (some-injective (suc i ∷ j ∷ []) k.next f) (inl refl))
                    c.rest agree,
              ))))

  tac-Follows :
      (i : ℕ) (t : Tac) (env : Env) (m : Machine)
      → get_elem? code i ≡ some t
      → Agree xs loc (LiveAt ins i) env m.memory
      → Follows made xs (offset loc code i) m (interpret_at code xs i t env)
  tac-Follows i (bin d o a b) = bin-Follows made xs i d o a b
  tac-Follows i (copy d a) = copy-Follows made xs i d a
  tac-Follows i (label l) = label-Follows i l
  tac-Follows i (jump_if_ge a b l) = compare-Follows i l a b
  tac-Follows i (jump l) = jump-Follows i l
  tac-Follows i (ret a) = ret-Follows i a

  -- What the emulator does from an index on, where the interpreter returns a value.
  abbrev Returns : ℕ → Machine → ℕ → Type 0
  Returns p m x = (g : ℕ) × ((ops : ℕ) × (run (emulate_step asm) g p m ≡ result (x, ops)))

  after-Follows :
      (p : ℕ) (m : Machine) (x : ℕ) (n : Next Env ℕ) (again : ℕ → Env → Outcome ℕ)
      → ((i : ℕ) (env : Env) (m : Machine)
          → Agree xs loc (LiveAt ins i) env m.memory
          → again i env ≡ result x
          → Returns (offset loc code i) m x)
      → Follows made xs p m n
      → after n again ≡ result x
      → Returns p m x
  after-Follows p m x (goes j env) again ih (n, leads, agree) e =
      let (f, (ops, done)) = ih j env n agree e in
      let (g, same) = leads f in (g, (ops, same ∙ done))
  after-Follows p m x (returns y) again ih (g, (ops, done)) e =
      let yx : y ≡ x = cc in (g, (ops, done ∙ ap (λ y. result (y, ops)) yx))
  after-Follows p m x crashes again ih h e = cc

  -- From machines that hold what is live, where the interpreter returns a value, so does the emulator.
  pub run-Follows :
      (f i : ℕ) (env : Env) (m : Machine) (x : ℕ)
      → Agree xs loc (LiveAt ins i) env m.memory
      → run (interpret_step code xs) f i env ≡ result x
      → (g : ℕ) × ((ops : ℕ) × (run (emulate_step asm) g (offset loc code i) m ≡ result (x, ops)))
  unfolding run interpret_step
  run-Follows zero i env m x agree e = cc
  run-Follows (suc f) i env m x agree e =
      after-Follows (offset loc code i) m x (interpret_step code xs i env)
        (run (interpret_step code xs) f) (λ j env n agree e. run-Follows f j env n x agree e)
        (or_crash-Follows made xs (offset loc code i) m (get_elem? code i) _
          (λ t at. tac-Follows i t env m at agree))
        e
