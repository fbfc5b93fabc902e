-- ===== src/Regalloc/Select/Layout.antt =====
-- Where the lines of an instruction stand in the selected code of ch08-01-regalloc.rs.
use mathlib.Core.Path.{subst}
use mathlib.Core.Option.{some-injective}
use model_lib.Base.{
  ℕ, zero, suc, ◌+◌, ◌≡◌, refl, sym, ap, ◌∙◌, Bool, true, false, Bool-cases, ◌||◌, ◌&&◌, Option,
  Option-cases, none, some, inl, inr, List, [], ◌∷◌, ◌++◌, length, get_elem?, if◌then◌else◌,
  if_true, if_false, arith,
}
use model_lib.Regalloc.Code.Defs.{
  Tac, bin, copy, label, jump_if_ge, jump, ret, v, is_label, one_more, label_of,
}
use model_lib.Regalloc.Scan.Defs.{Locs}
use model_lib.Regalloc.Live.Sets.{with_some-inv}
use model_lib.Regalloc.Select.Defs.{
  Text, rax, Line, Mnemonic, mov, jmp, ret_line, label_line, is_mem, is_number, text_eq, place,
  mnemonic, copy_lines, bin_lines, compare_lines, select_one, select, is_target, line_of,
}

abbrev or_none : Option (List Line) → List Line
or_none none = []
or_none (some lines) = lines

abbrev pub offset : Locs → List Tac → ℕ → ℕ
offset loc code zero = 0
offset loc [] (suc i) = 0
offset loc (t ∷ code) (suc i) = length (or_none (select_one loc t)) + offset loc code i

get_elem?-append_left :
    (xs ys : List Line) (i : ℕ) (a : Line)
    → get_elem? xs i ≡ some a
    → get_elem? (xs ++ ys) i ≡ some a
get_elem?-append_left [] ys i a h = cc
get_elem?-append_left (x ∷ xs) ys zero a h = h
get_elem?-append_left (x ∷ xs) ys (suc i) a h = get_elem?-append_left xs ys i a h

get_elem?-append_right :
    (xs ys : List Line) (i : ℕ) → get_elem? (xs ++ ys) (length xs + i) ≡ get_elem? ys i
get_elem?-append_right [] ys i = ap (get_elem? ys) (omega arith)
get_elem?-append_right (x ∷ xs) ys i =
    let e : suc (length xs) + i ≡ suc (length xs + i) = omega arith in
    ap (get_elem? (x ∷ (xs ++ ys))) e ∙ get_elem?-append_right xs ys i

-- The lines of an instruction stand from its offset on, and those of the next one behind them.
pub record Chunk (loc : Locs) (code : List Tac) (asm : List Line) (i : ℕ) (t : Tac) : Type 0 where
  pub lines : List Line
  pub selected : select_one loc t ≡ some lines
  pub stands :
      (j : ℕ) (line : Line)
      → get_elem? lines j ≡ some line
      → get_elem? asm (offset loc code i + j) ≡ some line
  pub next : offset loc code (suc i) ≡ offset loc code i + length lines

pub select-Chunk :
    (loc : Locs) (code : List Tac) (asm : List Line) (i : ℕ) (t : Tac)
    → select code loc ≡ some asm
    → get_elem? code i ≡ some t
    → Chunk loc code asm i t
unfolding select
select-Chunk loc [] asm i t e h = cc
select-Chunk loc (u ∷ code) asm zero t e h =
    let (lines, p, e₁) = with_some-inv (select_one loc u) _ asm e in
    let (rest, q, e₂) = with_some-inv (select code loc) _ asm e₁ in
    let same : lines ++ rest ≡ asm = cc in
    let ut : u ≡ t = cc in
    record {
      lines = lines;
      selected = ap (select_one loc) (sym ut) ∙ p;
      stands = λ j line g.
          ap (λ a. get_elem? a (0 + j)) (sym same)
          ∙ ap (get_elem? (lines ++ rest)) (omega arith)
          ∙ get_elem?-append_left lines rest j line g;
      next = omega (arith, ap (λ o. length (or_none o)) p);
    }
select-Chunk loc (u ∷ code) asm (suc i) t e h =
    let (lines, p, e₁) = with_some-inv (select_one loc u) _ asm e in
    let (rest, q, e₂) = with_some-inv (select code loc) _ asm e₁ in
    let same : lines ++ rest ≡ asm = cc in
    let k = select-Chunk loc code rest i t q h in
    let len : length (or_none (select_one loc u)) ≡ length lines = ap (λ o. length (or_none o)) p in
    record {
      lines = k.lines;
      selected = k.selected;
      stands = λ j line g.
          ap (λ a. get_elem? a (offset loc (u ∷ code) (suc i) + j)) (sym same)
          ∙ ap (get_elem? (lines ++ rest)) (omega (arith, len))
          ∙ get_elem?-append_right lines rest (offset loc code i + j)
          ∙ k.stands j line g;
      next = omega (arith, k.next);
    }

-- No line is the label.
abbrev NoTarget : ℕ → List Line → Type 0
NoTarget l [] = Unit
NoTarget l (x ∷ lines) = (is_target l x ≡ false) × NoTarget l lines

line_of-append :
    (l : ℕ) (lines rest : List Line) (j : ℕ)
    → NoTarget l lines
    → line_of l rest ≡ some j
    → line_of l (lines ++ rest) ≡ some (length lines + j)
unfolding line_of
line_of-append l [] rest j n e = e ∙ ap some (omega arith)
line_of-append l (x ∷ lines) rest j (n, ns) e =
    if_false _ _ n ∙ ap one_more (line_of-append l lines rest j ns e) ∙ ap some (omega arith)

if-NoTarget :
    (l : ℕ) (b : Bool) (xs ys : List Line)
    → NoTarget l xs
    → NoTarget l ys
    → NoTarget l (if b then xs else ys)
if-NoTarget l true xs ys h k = h
if-NoTarget l false xs ys h k = k

copy-NoTarget : (l : ℕ) (d a : Text) → NoTarget l (copy_lines d a)
copy-NoTarget l d a = if-NoTarget l (is_mem d && is_mem a) _ _ (refl, (refl, tt)) (refl, tt)

bin-NoTarget : (l : ℕ) (m : Mnemonic) (d a b : Text) → NoTarget l (bin_lines m d a b)
bin-NoTarget l m d a b =
    if-NoTarget l (is_mem d || text_eq d b) _ _ (refl, (refl, (refl, tt)))
      (if-NoTarget l (text_eq d a) _ _ (refl, tt) (refl, (refl, tt)))

compare-NoTarget : (l k : ℕ) (a b : Text) → NoTarget l (compare_lines a b k)
compare-NoTarget l k a b =
    if-NoTarget l (is_mem a || is_number a) _ _ (refl, (refl, (refl, tt))) (refl, (refl, tt))

-- The lines of an instruction that is not the label.
select_one-NoTarget :
    (loc : Locs) (l : ℕ) (t : Tac) (lines : List Line)
    → select_one loc t ≡ some lines
    → is_label l t ≡ false
    → NoTarget l lines
unfolding select_one
select_one-NoTarget loc l (copy d a) lines e n =
    let (p, _, e₁) = with_some-inv (place loc (v d)) _ lines e in
    let (q, _, e₂) = with_some-inv (place loc a) _ lines e₁ in
    subst (NoTarget l) (some-injective (copy_lines p q) lines e₂) (copy-NoTarget l p q)
select_one-NoTarget loc l (bin d o a b) lines e n =
    let (p, _, e₁) = with_some-inv (place loc (v d)) _ lines e in
    let (q, _, e₂) = with_some-inv (place loc a) _ lines e₁ in
    let (r, _, e₃) = with_some-inv (place loc b) _ lines e₂ in
    subst (NoTarget l) (some-injective (bin_lines (mnemonic o) p q r) lines e₃)
      (bin-NoTarget l (mnemonic o) p q r)
select_one-NoTarget loc l (label k) lines e n =
    subst (NoTarget l) (some-injective (label_line k ∷ []) lines e) (n, tt)
select_one-NoTarget loc l (jump_if_ge a b k) lines e n =
    let (q, _, e₁) = with_some-inv (place loc a) _ lines e in
    let (r, _, e₂) = with_some-inv (place loc b) _ lines e₁ in
    subst (NoTarget l) (some-injective (compare_lines q r k) lines e₂) (compare-NoTarget l k q r)
select_one-NoTarget loc l (jump k) lines e n =
    subst (NoTarget l) (some-injective (jmp k ∷ []) lines e) (refl, tt)
select_one-NoTarget loc l (ret a) lines e n =
    let (q, _, e₁) = with_some-inv (place loc a) _ lines e in
    subst (NoTarget l) (some-injective (mov rax q ∷ ret_line ∷ []) lines e₁) (refl, (refl, tt))

at_label :
    (loc : Locs) (l : ℕ) (t : Tac) (lines rest : List Line)
    → select_one loc t ≡ some lines
    → is_label l t ≡ true
    → line_of l (lines ++ rest) ≡ some 0
unfolding select_one line_of
at_label loc l (label k) lines rest e h =
    ap (λ x. line_of l (x ++ rest)) (sym (some-injective (label_line k ∷ []) lines e))
    ∙ if_true _ _ h
at_label loc l (copy d a) lines rest e h = cc
at_label loc l (bin d o a b) lines rest e h = cc
at_label loc l (jump_if_ge a b k) lines rest e h = cc
at_label loc l (jump k) lines rest e h = cc
at_label loc l (ret a) lines rest e h = cc

-- The line of a label is where the instruction of the label is.
pub line_of-label_of :
    (loc : Locs) (l : ℕ) (code : List Tac) (asm : List Line) (i : ℕ)
    → select code loc ≡ some asm
    → label_of l code ≡ some i
    → line_of l asm ≡ some (offset loc code i)
unfolding select label_of line_of
line_of-label_of loc l [] asm i e h = cc
line_of-label_of loc l (t ∷ code) asm i e h =
    let (lines, p, e₁) = with_some-inv (select_one loc t) _ asm e in
    let (rest, q, e₂) = with_some-inv (select code loc) _ asm e₁ in
    let same : lines ++ rest ≡ asm = cc in
    elim (Bool-cases (is_label l t)) [
      | inl b ↦
          let z : some 0 ≡ some i = sym (if_true _ _ b) ∙ h in
          let iz : 0 ≡ i = cc in
          ap (line_of l) (sym same)
          ∙ at_label loc l t lines rest p b
          ∙ ap (λ i. some (offset loc (t ∷ code) i)) iz
      | inr b ↦
          let later : one_more (label_of l code) ≡ some i = sym (if_false _ _ b) ∙ h in
          elim (Option-cases (label_of l code)) [
            | inl n ↦ let bad : none ≡ some i = rw n at later in cc
            | inr (j, n) ↦
                let ij : some (suc j) ≡ some i = rw n at later in
                let is : suc j ≡ i = cc in
                let len : length (or_none (select_one loc t)) ≡ length lines =
                  ap (λ o. length (or_none o)) p in
                let sum : length lines + offset loc code j ≡ offset loc (t ∷ code) (suc j) =
                  omega (arith, len) in
                ap (line_of l) (sym same)
                ∙ line_of-append l lines rest (offset loc code j)
                    (select_one-NoTarget loc l t lines p b) (line_of-label_of loc l code rest j q n)
                ∙ ap some sum
                ∙ ap (λ i. some (offset loc (t ∷ code) i)) is
          ]
    ]
