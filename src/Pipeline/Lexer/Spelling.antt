-- ===== src/Pipeline/Lexer/Spelling.antt =====
-- What it means for tokens of `lex` in ch01-01-pipeline.rs to spell a source.
use model_lib.Base.{
  name_eq→eq, ℕ, ◌+◌, ◌^◌, ◌<◌, ◌≡◌, refl, ap, Bool, true, false, inl, inr, Bool-cases, List, [],
  ◌∷◌, ◌++◌, length, drop, if◌then◌else◌, Name, codes,
}
use model_lib.Pipeline.Syntax.{Tok, Token}
use model_lib.Pipeline.Lexer.Defs.{
  is_word_part, is_ascii_whitespace, is_ascii_digit, take_while, decimal, keyword,
}

-- The text of a token that is written in one way.
abbrev pub text : Tok → Name
text Tok.kw_let = codes "let"
text Tok.kw_mut = codes "mut"
text Tok.kw_while = codes "while"
text Tok.kw_if = codes "if"
text Tok.kw_else = codes "else"
text Tok.kw_true = codes "true"
text Tok.kw_false = codes "false"
text Tok.plus = codes "+"
text Tok.minus = codes "-"
text Tok.star = codes "*"
text Tok.slash = codes "/"
text Tok.percent = codes "%"
text Tok.lt = codes "<"
text Tok.le = codes "<="
text Tok.gt = codes ">"
text Tok.ge = codes ">="
text Tok.eq_eq = codes "=="
text Tok.ne = codes "!="
text Tok.assign = codes "="
text Tok.and_and = codes "&&"
text Tok.or_or = codes "||"
text Tok.bang = codes "!"
text Tok.semi = codes ";"
text Tok.l_brace = codes "{"
text Tok.r_brace = codes "}"
text Tok.l_paren = codes "("
text Tok.r_paren = codes ")"
text (Tok.int n) = []
text (Tok.ident x) = x
text Tok.eof = []

abbrev pub Each : (ℕ → Bool) → List ℕ → Type 0
Each p [] = Unit
Each p (c ∷ w) = (p c ≡ true) × Each p w

-- `w` is the text of the token: the digits of a number below 2 ^ 63, a word that is no keyword, or its
-- one text.
abbrev pub Spells : Tok → List ℕ → Type 0
Spells (Tok.int n) w = Each is_ascii_digit w × (decimal 0 w ≡ n) × (n < 2 ^ 63)
Spells (Tok.ident x) w = (w ≡ x) × Each is_word_part w × (keyword w ≡ Tok.ident x)
Spells Tok.eof w = ⊥
Spells t w = w ≡ text t

-- The tokens spell the bytes from the offset `i` on, with white space between them, and the end
-- marker stands behind the last byte.
pub data Lexes : ℕ → List ℕ → List Token → Type 0 where
  finish : (i : ℕ) → Lexes i [] (record { tok = Tok.eof; pos = i } ∷ [])
  blank :
      (i c : ℕ) {b : List ℕ} {ts : List Token}
      → is_ascii_whitespace c ≡ true
      → Lexes (i + 1) b ts
      → Lexes i (c ∷ b) ts
  token :
      (i : ℕ) (t : Tok) (w : List ℕ) {src b : List ℕ} {ts : List Token}
      → src ≡ w ++ b
      → 0 < length w
      → Spells t w
      → Lexes (i + length w) b ts
      → Lexes i src (record { tok = t; pos = i } ∷ ts)

pub take_while-split :
    (p : ℕ → Bool) (b : List ℕ) → b ≡ take_while p b ++ drop (length (take_while p b)) b
unfolding take_while
take_while-split p [] = refl
take_while-split p (c ∷ b) = elim (Bool-cases (p c)) [
  | inl e ↦ rw e (ap (λ l. c ∷ l) (take_while-split p b))
  | inr e ↦ rw e
]

pub take_while-Each : (p : ℕ → Bool) (b : List ℕ) → Each p (take_while p b)
unfolding take_while
take_while-Each p [] = tt
take_while-Each p (c ∷ b) = elim (Bool-cases (p c)) [
  | inl e ↦ rw e (e, take_while-Each p b)
  | inr e ↦ rw e tt
]

pub if_cases {ℓ κ} :
    {A : Type ℓ} (P : A → Type κ) (b : Bool) {x y : A}
    → (b ≡ true → P x)
    → P y
    → P (if b then x else y)
if_cases P true h k = h refl
if_cases P false h k = k

pub keyword-Spells : (w : Name) → Each is_word_part w → Spells (keyword w) w
unfolding keyword
keyword-Spells w each =
    let P : Tok → Type 0 = λ t. keyword w ≡ t → Spells t w in
    (if_cases P _ (λ e _. name_eq→eq w (codes "let") e)
        (if_cases P _ (λ e _. name_eq→eq w (codes "mut") e)
          (if_cases P _ (λ e _. name_eq→eq w (codes "while") e)
            (if_cases P _ (λ e _. name_eq→eq w (codes "if") e)
              (if_cases P _ (λ e _. name_eq→eq w (codes "else") e)
                (if_cases P _ (λ e _. name_eq→eq w (codes "true") e)
                  (if_cases P _ (λ e _. name_eq→eq w (codes "false") e)
                    (λ e. (refl, each, e)))))))))
      refl
