-- ===== src/Regalloc/Select/Jumps.antt =====
-- The emulator of ch08-01-regalloc.rs on the lines of a comparison, and on those of a return.
use model_lib.Base.{
  ℕ, zero, suc, ◌+◌, ◌≡◌, refl, ap, ◌∙◌, Bool, true, false, ◌||◌, some, List, [], ◌∷◌, length,
  get_elem?, if◌then◌else◌, arith,
}
use model_lib.Base.Word.{signed_le}
use model_lib.Regalloc.Code.Defs.{Next, goes, returns, or_crash, result, run, after}
use model_lib.Regalloc.Select.Defs.{
  Text, register, stack, args, number, Memory, Line, scratch, rax, mov, cmp, jge, ret_line, text_eq,
  is_mem, is_number, compare_lines, Machine, read, emulate_at, emulate_step, counted,
}
use model_lib.Regalloc.Select.Chunks.{
  Block, Leads, Leads-trans, Leads-at, line-Leads, Block-head, Block-tail, copy-cases,
}

read-agrees :
    (m n : Memory) (t : Text)
    → ((u : Text) → text_eq scratch u ≡ false → n u ≡ m u)
    → text_eq scratch t ≡ false
    → read n t ≡ read m t
read-agrees m n (register a) h e = h (register a) e
read-agrees m n (stack a) h e = h (stack a) e
read-agrees m n (args a) h e = h (args a) e
read-agrees m n (number a) h e = refl
read-agrees m n scratch h e = h scratch e
read-agrees m n rax h e = h rax e

module _ (asm : List Line) where
  -- The machine in front of the jump of a comparison.
  pub record Compares (p q : ℕ) (m : Machine) (l : ℕ) (ge : Bool) : Type 0 where
    pub machine : Machine
    pub jump_at : ℕ
    pub leads : Leads asm p m jump_at machine
    pub stands : get_elem? asm jump_at ≡ some (jge l)
    pub behind : suc jump_at ≡ q
    pub flag : machine.flag_ge ≡ ge
    pub rest : (u : Text) → text_eq scratch u ≡ false → machine.memory u ≡ m.memory u

  cmp-Leads :
      (p : ℕ) (a b : Text) (m : Machine) (x y : ℕ)
      → get_elem? asm p ≡ some (cmp a b)
      → read m.memory a ≡ some x
      → read m.memory b ≡ some y
      → Leads asm p m (suc p) (record (counted (cmp a b) m) { flag_ge = signed_le y x })
  cmp-Leads p a b m x y h e g =
      let n = counted (cmp a b) m in
      let set_flag : ℕ → ℕ → Next Machine (ℕ × ℕ) =
        λ x y. goes (suc p) (record n { flag_ge = signed_le y x }) in
      line-Leads asm p (suc p) (cmp a b) m (record n { flag_ge = signed_le y x }) h
        (ap (λ o. or_crash o (λ x. or_crash (read m.memory b) (set_flag x))) e
          ∙ ap (λ o. or_crash o (set_flag x)) g)

  abbrev comparison : Bool → Text → Text → ℕ → List Line
  comparison c a b l =
      if c then mov scratch a ∷ cmp scratch b ∷ jge l ∷ [] else cmp a b ∷ jge l ∷ []

  compare-cases :
      (p : ℕ) (m : Machine) (a b : Text) (l x y : ℕ) (c : Bool)
      → Block asm p (comparison c a b l)
      → text_eq scratch b ≡ false
      → read m.memory a ≡ some x
      → read m.memory b ≡ some y
      → Compares p (p + length (comparison c a b l)) m l (signed_le y x)
  compare-cases p m a b l x y false block n e g =
      let behind = Block-tail asm p (cmp a b) (jge l ∷ []) block in
      record {
        machine = record (counted (cmp a b) m) { flag_ge = signed_le y x };
        jump_at = suc p;
        leads = cmp-Leads p a b m x y (Block-head asm p (cmp a b) (jge l ∷ []) block) e g;
        stands = Block-head asm (suc p) (jge l) [] behind;
        behind = omega arith;
        flag = refl;
        rest = λ u f. refl;
      }
  compare-cases p m a b l x y true block n e g =
      let s = copy-cases asm p m scratch a x false (λ j line h. block j line (first j line h)) e in
      let next = Block-tail asm p (mov scratch a) (cmp scratch b ∷ jge l ∷ []) block in
      let behind = Block-tail asm (suc p) (cmp scratch b) (jge l ∷ []) next in
      let m₁ = s.machine in
      let m₂ = record (counted (cmp scratch b) m₁) { flag_ge = signed_le y x } in
      let moved = Leads-at asm p (p + 1) (suc p) m m₁ s.leads (omega arith) in
      let compared =
        cmp-Leads (suc p) scratch b m₁ x y
          (Block-head asm (suc p) (cmp scratch b) (jge l ∷ []) next) s.puts.put
          (read-agrees m.memory m₁.memory b (λ u f. s.puts.rest u f f) n ∙ g) in
      record {
        machine = m₂;
        jump_at = suc (suc p);
        leads = Leads-trans asm p (suc p) (suc (suc p)) m m₁ m₂ moved compared;
        stands = Block-head asm (suc (suc p)) (jge l) [] behind;
        behind = omega arith;
        flag = refl;
        rest = λ u f. s.puts.rest u f f;
      }
    where
      first :
          (j : ℕ) (line : Line)
          → get_elem? (mov scratch a ∷ []) j ≡ some line
          → get_elem? (comparison true a b l) j ≡ some line
      first zero line h = h
      first (suc j) line h = cc

  pub compare-Compares :
      (p : ℕ) (m : Machine) (a b : Text) (l x y : ℕ)
      → Block asm p (compare_lines a b l)
      → text_eq scratch b ≡ false
      → read m.memory a ≡ some x
      → read m.memory b ≡ some y
      → Compares p (p + length (compare_lines a b l)) m l (signed_le y x)
  compare-Compares p m a b l x y block = compare-cases p m a b l x y (is_mem a || is_number a) block

  -- The loop returns what the operand holds.
  pub ret-Returns :
      (p : ℕ) (m : Machine) (a : Text) (x : ℕ)
      → Block asm p (mov rax a ∷ ret_line ∷ [])
      → read m.memory a ≡ some x
      → (g : ℕ) × ((ops : ℕ) × (run (emulate_step asm) g p m ≡ result (x, ops)))
  unfolding run emulate_step
  ret-Returns p m a x block e =
      let next = Block-tail asm p (mov rax a) (ret_line ∷ []) block in
      let s = copy-cases asm p m rax a x false (λ j line h. block j line (first_line j line h)) e in
      let n = s.machine in
      let moved = Leads-at asm p (p + 1) (suc p) m n s.leads (omega arith) in
      let (g, e₁) = moved 1 in
      let at_end : emulate_step asm (suc p) n ≡ returns (x, n.mem_ops + 0) =
        ap (λ o. or_crash o (λ line. emulate_at asm (suc p) line (counted line n)))
          (Block-head asm (suc p) ret_line [] next)
        ∙ ap (λ o. or_crash o (λ x. returns (x, n.mem_ops + 0))) s.puts.put in
      (g, (n.mem_ops + 0, e₁ ∙ ap (λ s. after s (run (emulate_step asm) 0)) at_end))
    where
      first_line :
          (j : ℕ) (line : Line)
          → get_elem? (mov rax a ∷ []) j ≡ some line
          → get_elem? (mov rax a ∷ ret_line ∷ []) j ≡ some line
      first_line zero line h = h
      first_line (suc j) line h = cc
