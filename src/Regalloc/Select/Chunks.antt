-- ===== src/Regalloc/Select/Chunks.antt =====
-- The emulator of ch08-01-regalloc.rs on the lines of one instruction.
use mathlib.Core.Path.{subst}
use model_lib.Base.{
  ℕ, suc, ◌+◌, ◌≡◌, refl, ap, ◌∙◌, Bool, true, false, ◌||◌, ◌&&◌, some, List, [], ◌∷◌, length,
  get_elem?, if◌then◌else◌, arith,
}
use model_lib.Regalloc.Code.Defs.{apply, goes, or_crash, run, after}
use model_lib.Regalloc.Select.Defs.{
  Text, Line, scratch, mov, op, text_eq, is_mem, Mnemonic, operator, copy_lines, bin_lines, Machine,
  Memory, read, write, written, emulate_at, emulate_step, counted,
}
use model_lib.Regalloc.Select.Texts.{text_eq→eq, write-same, write-other, read-write, Puts}

-- The lines stand at an index.
abbrev pub Block : List Line → ℕ → List Line → Type 0
Block asm p lines =
    (j : ℕ) (line : Line) → get_elem? lines j ≡ some line → get_elem? asm (p + j) ≡ some line

or-false_right : (a b : Bool) → (a || b) ≡ false → b ≡ false
or-false_right true b h = cc
or-false_right false b h = h

module _ (asm : List Line) where
  -- The loop comes from one index and machine to another.
  abbrev pub Leads : ℕ → Machine → ℕ → Machine → Type 0
  Leads p m q n = (f : ℕ) → (g : ℕ) × (run (emulate_step asm) g p m ≡ run (emulate_step asm) f q n)

  pub Leads-trans : (p q r : ℕ) (m n o : Machine) → Leads p m q n → Leads q n r o → Leads p m r o
  Leads-trans p q r m n o h k f = let (g, e) = k f in let (g', e') = h g in (g', e' ∙ e)

  pub Leads-at : (p q r : ℕ) (m n : Machine) → Leads p m q n → q ≡ r → Leads p m r n
  Leads-at p q r m n h e = subst (λ r. Leads p m r n) e h

  -- One line.
  pub line-Leads :
      (p q : ℕ) (line : Line) (m n : Machine)
      → get_elem? asm p ≡ some line
      → emulate_at asm p line (counted line m) ≡ goes q n
      → Leads p m q n
  unfolding run emulate_step
  line-Leads p q line m n h e f =
      let step : emulate_step asm p m ≡ goes q n =
        ap (λ o. or_crash o (λ line. emulate_at asm p line (counted line m))) h ∙ e in
      (suc f, ap (λ s. after s (run (emulate_step asm) f)) step)

  pub Block-head :
      (p : ℕ) (x : Line) (lines : List Line) → Block asm p (x ∷ lines) → get_elem? asm p ≡ some x
  Block-head p x lines b = ap (get_elem? asm) (omega arith) ∙ b 0 x refl

  pub Block-tail :
      (p : ℕ) (x : Line) (lines : List Line) → Block asm p (x ∷ lines) → Block asm (suc p) lines
  Block-tail p x lines b j line h = ap (get_elem? asm) (omega arith) ∙ b (suc j) line h

  after_write : Line → Machine → Text → ℕ → Machine
  after_write line m d x = record (counted line m) { memory = write m.memory d x }

  mov-Leads :
      (p : ℕ) (d a : Text) (m : Machine) (x : ℕ)
      → get_elem? asm p ≡ some (mov d a)
      → read m.memory a ≡ some x
      → Leads p m (suc p) (after_write (mov d a) m d x)
  unfolding after_write
  mov-Leads p d a m x h e =
      line-Leads p (suc p) (mov d a) m (after_write (mov d a) m d x) h
        (ap (λ o. or_crash o (written p (counted (mov d a) m) d)) e)

  op-Leads :
      (p : ℕ) (k : Mnemonic) (d a : Text) (m : Machine) (x y : ℕ)
      → get_elem? asm p ≡ some (op k d a)
      → read m.memory d ≡ some x
      → read m.memory a ≡ some y
      → Leads p m (suc p) (after_write (op k d a) m d (apply (operator k) x y))
  unfolding after_write
  op-Leads p k d a m x y h e g =
      let n = counted (op k d a) m in
      line-Leads p (suc p) (op k d a) m (after_write (op k d a) m d (apply (operator k) x y)) h (
        ap
          (λ o.
            or_crash o
              (λ x. or_crash (read m.memory a) (λ y. written p n d (apply (operator k) x y))))
          e
        ∙ ap (λ o. or_crash o (λ y. written p n d (apply (operator k) x y))) g)

  -- The machine behind the lines of an assignment.
  pub record Assigns (p q : ℕ) (m : Machine) (d : Text) (x : ℕ) : Type 0 where
    pub machine : Machine
    pub leads : Leads p m q machine
    pub puts : Puts m.memory d x machine.memory

  pub copy-cases :
      (p : ℕ) (m : Machine) (d a : Text) (x : ℕ) (b : Bool)
      → Block asm p (if b then mov scratch a ∷ mov d scratch ∷ [] else mov d a ∷ [])
      → read m.memory a ≡ some x
      → Assigns p
          (p + length (if b then mov scratch a ∷ mov d scratch ∷ [] else mov d a ∷ []))
          m
          d
          x
  unfolding after_write
  copy-cases p m d a x true b e =
      let m₁ = after_write (mov scratch a) m scratch x in
      let m₂ = after_write (mov d scratch) m₁ d x in
      let b₁ = Block-tail p (mov scratch a) (mov d scratch ∷ []) b in
      let first =
        mov-Leads p scratch a m x (Block-head p (mov scratch a) (mov d scratch ∷ []) b) e in
      let second =
        mov-Leads (suc p) d scratch m₁ x (Block-head (suc p) (mov d scratch) [] b₁)
          (write-same m.memory scratch x) in
      record {
        machine = m₂;
        leads =
            Leads-at p (suc (suc p)) (p + 2) m m₂
              (Leads-trans p (suc p) (suc (suc p)) m m₁ m₂ first second) (omega arith);
        puts = record {
          put = write-same m₁.memory d x;
          rest = λ u f g. write-other m₁.memory d u x f ∙ write-other m.memory scratch u x g;
        };
      }
  copy-cases p m d a x false b e =
      let m₁ = after_write (mov d a) m d x in
      record {
        machine = m₁;
        leads =
            Leads-at p (suc p) (p + 1) m m₁ (mov-Leads p d a m x (Block-head p (mov d a) [] b) e)
              (omega arith);
        puts = record {
          put = write-same m.memory d x;
          rest = λ u f g. write-other m.memory d u x f;
        };
      }

  pub copy-Assigns :
      (p : ℕ) (m : Machine) (d a : Text) (x : ℕ)
      → Block asm p (copy_lines d a)
      → read m.memory a ≡ some x
      → Assigns p (p + length (copy_lines d a)) m d x
  copy-Assigns p m d a x b e = copy-cases p m d a x (is_mem d && is_mem a) b e

  abbrev bin_in_place : Bool → Mnemonic → Text → Text → Text → List Line
  bin_in_place c k d a b = if c then op k d b ∷ [] else mov d a ∷ op k d b ∷ []

  in_place-cases :
      (p : ℕ) (m : Machine) (k : Mnemonic) (d a b : Text) (x y : ℕ) (c : Bool)
      → text_eq d a ≡ c
      → Block asm p (bin_in_place c k d a b)
      → text_eq d b ≡ false
      → ((m : Memory) → read m d ≡ m d)
      → read m.memory a ≡ some x
      → read m.memory b ≡ some y
      → Assigns p (p + length (bin_in_place c k d a b)) m d (apply (operator k) x y)
  unfolding after_write
  in_place-cases p m k d a b x y true t block n r e g =
      let z = apply (operator k) x y in
      let m₁ = after_write (op k d b) m d z in
      let da = text_eq→eq d a t in
      let first =
        op-Leads p k d b m x y (Block-head p (op k d b) [] block) (ap (read m.memory) da ∙ e) g in
      record {
        machine = m₁;
        leads = Leads-at p (suc p) (p + 1) m m₁ first (omega arith);
        puts = record {
          put = write-same m.memory d z;
          rest = λ u f g. write-other m.memory d u z f;
        };
      }
  in_place-cases p m k d a b x y false t block n r e g =
      let z = apply (operator k) x y in
      let m₁ = after_write (mov d a) m d x in
      let m₂ = after_write (op k d b) m₁ d z in
      let first = mov-Leads p d a m x (Block-head p (mov d a) (op k d b ∷ []) block) e in
      let second =
        op-Leads (suc p) k d b m₁ x y
          (Block-head (suc p) (op k d b) [] (Block-tail p (mov d a) (op k d b ∷ []) block))
          (r m₁.memory ∙ write-same m.memory d x) (read-write m.memory d b x n ∙ g) in
      record {
        machine = m₂;
        leads =
            Leads-at p (suc (suc p)) (p + 2) m m₂
              (Leads-trans p (suc p) (suc (suc p)) m m₁ m₂ first second) (omega arith);
        puts = record {
          put = write-same m₁.memory d z;
          rest = λ u f g. write-other m₁.memory d u z f ∙ write-other m.memory d u x f;
        };
      }

  abbrev scratch_lines : Mnemonic → Text → Text → Text → List Line
  scratch_lines k d a b = mov scratch a ∷ op k scratch b ∷ mov d scratch ∷ []

  bin-cases :
      (p : ℕ) (m : Machine) (k : Mnemonic) (d a b : Text) (x y : ℕ) (c : Bool)
      → (is_mem d || text_eq d b) ≡ c
      → Block asm p (if c then scratch_lines k d a b else bin_in_place (text_eq d a) k d a b)
      → text_eq scratch b ≡ false
      → ((m : Memory) → read m d ≡ m d)
      → read m.memory a ≡ some x
      → read m.memory b ≡ some y
      → Assigns p
          (p + length (if c then scratch_lines k d a b else bin_in_place (text_eq d a) k d a b))
          m
          d
          (apply (operator k) x y)
  unfolding after_write
  bin-cases p m k d a b x y false t block s r e g =
      in_place-cases p m k d a b x y (text_eq d a) refl block
        (or-false_right (is_mem d) (text_eq d b) t) r e g
  bin-cases p m k d a b x y true t block s r e g =
      let z = apply (operator k) x y in
      let m₁ = after_write (mov scratch a) m scratch x in
      let m₂ = after_write (op k scratch b) m₁ scratch z in
      let m₃ = after_write (mov d scratch) m₂ d z in
      let block₁ = Block-tail p (mov scratch a) (op k scratch b ∷ mov d scratch ∷ []) block in
      let block₂ = Block-tail (suc p) (op k scratch b) (mov d scratch ∷ []) block₁ in
      let first =
        mov-Leads p scratch a m x
          (Block-head p (mov scratch a) (op k scratch b ∷ mov d scratch ∷ []) block) e in
      let second =
        op-Leads (suc p) k scratch b m₁ x y
          (Block-head (suc p) (op k scratch b) (mov d scratch ∷ []) block₁)
          (write-same m.memory scratch x) (read-write m.memory scratch b x s ∙ g) in
      let third =
        mov-Leads (suc (suc p)) d scratch m₂ z (Block-head (suc (suc p)) (mov d scratch) [] block₂)
          (write-same m₁.memory scratch z) in
      let both = Leads-trans p (suc p) (suc (suc p)) m m₁ m₂ first second in
      record {
        machine = m₃;
        leads =
            Leads-at p (suc (suc (suc p))) (p + 3) m m₃
              (Leads-trans p (suc (suc p)) (suc (suc (suc p))) m m₂ m₃ both third) (omega arith);
        puts = record {
          put = write-same m₂.memory d z;
          rest = λ u f g.
              write-other m₂.memory d u z f
              ∙ write-other m₁.memory scratch u z g
              ∙ write-other m.memory scratch u x g;
        };
      }

  pub bin-Assigns :
      (p : ℕ) (m : Machine) (k : Mnemonic) (d a b : Text) (x y : ℕ)
      → Block asm p (bin_lines k d a b)
      → text_eq scratch b ≡ false
      → ((m : Memory) → read m d ≡ m d)
      → read m.memory a ≡ some x
      → read m.memory b ≡ some y
      → Assigns p (p + length (bin_lines k d a b)) m d (apply (operator k) x y)
  bin-Assigns p m k d a b x y block = bin-cases p m k d a b x y (is_mem d || text_eq d b) refl block
