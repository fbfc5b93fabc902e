-- ===== src/Pipeline/Lexer/Sound.antt =====
-- `lex` of ch01-01-pipeline.rs against the spelling of tokens: a lemma for each kind, then the loop.
use mathlib.Core.Path.{ap₂, subst}
use model_lib.Base.{
  ℕ, zero, suc, ◌+◌, ◌^◌, ◌≤◌, ◌<◌, ◌≡◌, refl, ap, sym, Bool, true, inl, inr, Option-cases, Option,
  none, some, List, [], ◌∷◌, ◌++◌, length, length-append, length-drop, drop, ◌==◌, ==_iff, ◌&&◌,
  arith,
}
use model_lib.Pipeline.Syntax.{Tok, Token, lexer, CompileError}
use model_lib.Pipeline.Outcome.{Settles, returns, raises, Settles-bind, Settles-if}
use model_lib.Pipeline.Lexer.Defs.{
  is_ascii_whitespace, is_ascii_digit, is_word_start, is_word_part, take_while, decimal, parse_i64,
  follows, operator, number_token, symbol_token, scan, push, lex_loop, lex,
}
use model_lib.Pipeline.Lexer.Spelling.{
  Spells, Lexes, finish, blank, token, take_while-split, take_while-Each, if_cases, keyword-Spells,
}

-- The token, if any, and the number of bytes that it takes fit the front of `src`.
abbrev Reads : List ℕ → Option Tok × ℕ → Type 0
Reads src (none, n) = (n ≡ 1)
Reads src (some t, n) =
    (w : List ℕ) × (src ≡ w ++ drop n src) × (length w ≡ n) × (0 < n) × Spells t w

abbrev Fits : List ℕ → Option (Tok × ℕ) → Type 0
Fits src none = Unit
Fits src (some (t, n)) = Reads src (some t, n)

one_byte :
    (c k : ℕ) (b : List ℕ) (t : Tok)
    → (c ≡ k → Spells t (c ∷ []))
    → (c == k) ≡ true
    → Fits (c ∷ b) (some (t, 1))
one_byte c k b t h e = (c ∷ [], refl, omega arith, omega arith, h ((==_iff c k).0 e))

two_bytes :
    (c k l : ℕ) (b : List ℕ) (t : Tok)
    → ((d : ℕ) → c ≡ k → d ≡ l → Spells t (c ∷ d ∷ []))
    → (c == k && follows l b) ≡ true
    → Fits (c ∷ b) (some (t, 2))
two_bytes c k l [] t h e = ground arith
two_bytes c k l (d ∷ b) t h e =
    (c ∷ d ∷ [], refl, omega arith, omega arith, h d (ground arith) (ground arith))

operator-Fits : (c : ℕ) (b : List ℕ) → Fits (c ∷ b) (operator c b)
unfolding operator
operator-Fits c b =
    let P : Option (Tok × ℕ) → Type 0 = λ o. Fits (c ∷ b) o in
    (if_cases P _ (two_bytes c b'<' b'=' b Tok.le (λ d p q. ap₂ (λ x y. x ∷ y ∷ []) p q)) (
      if_cases P _ (two_bytes c b'>' b'=' b Tok.ge (λ d p q. ap₂ (λ x y. x ∷ y ∷ []) p q)) (
        if_cases P _ (two_bytes c b'=' b'=' b Tok.eq_eq (λ d p q. ap₂ (λ x y. x ∷ y ∷ []) p q)) (
          if_cases P _ (two_bytes c b'!' b'=' b Tok.ne (λ d p q. ap₂ (λ x y. x ∷ y ∷ []) p q)) (
            if_cases P _
              (two_bytes c b'&' b'&' b Tok.and_and (λ d p q. ap₂ (λ x y. x ∷ y ∷ []) p q))
              (if_cases P _
                (two_bytes c b'|' b'|' b Tok.or_or (λ d p q. ap₂ (λ x y. x ∷ y ∷ []) p q))
                (if_cases P _ (one_byte c b'+' b Tok.plus (λ p. ap (λ x. x ∷ []) p)) (
                  if_cases P _ (one_byte c b'-' b Tok.minus (λ p. ap (λ x. x ∷ []) p)) (
                    if_cases P _ (one_byte c b'*' b Tok.star (λ p. ap (λ x. x ∷ []) p)) (
                      if_cases P _ (one_byte c b'/' b Tok.slash (λ p. ap (λ x. x ∷ []) p)) (
                        if_cases P _ (one_byte c b'%' b Tok.percent (λ p. ap (λ x. x ∷ []) p)) (
                          if_cases P _ (one_byte c b'<' b Tok.lt (λ p. ap (λ x. x ∷ []) p)) (
                            if_cases P _ (one_byte c b'>' b Tok.gt (λ p. ap (λ x. x ∷ []) p)) (
                              if_cases P _ (one_byte c b'=' b Tok.assign (λ p. ap (λ x. x ∷ []) p))
                                (if_cases P _ (one_byte c b'!' b Tok.bang (λ p. ap (λ x. x ∷ []) p))
                                  (if_cases P _
                                    (one_byte c b';' b Tok.semi (λ p. ap (λ x. x ∷ []) p))
                                    (if_cases P _
                                      (one_byte c 123 b Tok.l_brace (λ p. ap (λ x. x ∷ []) p))
                                      (if_cases P _
                                        (one_byte c 125 b Tok.r_brace (λ p. ap (λ x. x ∷ []) p))
                                        (if_cases P _
                                          (one_byte c 40 b Tok.l_paren (λ p. ap (λ x. x ∷ []) p))
                                          (if_cases P _
                                            (one_byte c 41 b Tok.r_paren (λ p. ap (λ x. x ∷ []) p))
                                            tt))))))))))))))))))))

parse_i64-some : (ds : List ℕ) (n : ℕ) → parse_i64 ds ≡ some n → (decimal 0 ds ≡ n) × (n < 2 ^ 63)
unfolding parse_i64
parse_i64-some ds n h = ground arith

-- An error of the lexer stands inside the source.
abbrev pub InLexer : ℕ → CompileError → Type 0
InLexer total e = (e.stage ≡ lexer) × (e.pos < total)

take_while-pos :
    (p : ℕ → Bool) (c : ℕ) (b : List ℕ) → p c ≡ true → 0 < length (take_while p (c ∷ b))
unfolding take_while
take_while-pos p c b h = rw h (omega arith)

abbrev Scans : ℕ → List ℕ → Option Tok × ℕ → Type 0
Scans c b r = Reads (c ∷ b) r × (r.0 ≡ none → is_ascii_whitespace c ≡ true)

number-Settles :
    (start total c : ℕ) (b : List ℕ)
    → start < total
    → is_ascii_digit c ≡ true
    → Settles (Scans c b) (InLexer total) (number_token start (take_while is_ascii_digit (c ∷ b)))
number-Settles start total c b lt d =
    let ds = take_while is_ascii_digit (c ∷ b) in
    elim (Option-cases (parse_i64 ds)) [
      | inl e ↦ rw (e, number_token) (raises (refl, lt))
      | inr (n, e) ↦
          let (value_eq, small) = parse_i64-some ds n e in
          rw (e, number_token)
            (returns (
              (
                ds,
                take_while-split is_ascii_digit (c ∷ b),
                refl,
                take_while-pos is_ascii_digit c b d,
                (take_while-Each is_ascii_digit (c ∷ b), value_eq, small),
              ),
              λ q. cc,
            ))
    ]

symbol-Settles :
    (start total c : ℕ) (b : List ℕ) (o : Option (Tok × ℕ))
    → start < total
    → Fits (c ∷ b) o
    → Settles (Scans c b) (InLexer total) (symbol_token start c o)
symbol-Settles start total c b none lt h = raises (refl, lt)
symbol-Settles start total c b (some (t, n)) lt h = returns (h, λ q. cc)

word_start-part : (c : ℕ) → is_word_start c ≡ true → is_word_part c ≡ true
word_start-part c h = ground arith

scan-Settles :
    (start total c : ℕ) (b : List ℕ)
    → start < total
    → Settles (Scans c b) (InLexer total) (scan start c b)
unfolding scan
scan-Settles start total c b lt =
    let word = take_while is_word_part (c ∷ b) in
    Settles-if (is_ascii_whitespace c) (λ e. returns (refl, λ _. e))
      λ _.
        Settles-if (is_ascii_digit c) (λ e. number-Settles start total c b lt e)
          λ _.
            Settles-if (is_word_start c)
              (λ e. returns (
                (
                  word,
                  take_while-split is_word_part (c ∷ b),
                  refl,
                  take_while-pos is_word_part c b (word_start-part c e),
                  keyword-Spells word (take_while-Each is_word_part (c ∷ b)),
                ),
                λ q. cc,
              ))
              (λ _. symbol-Settles start total c b (operator c b) lt (operator-Fits c b))

push-Lexes :
    (i c : ℕ) (b : List ℕ) (r : Option Tok × ℕ) (out : List Token)
    → Scans c b r
    → Lexes (i + r.1) (drop r.1 (c ∷ b)) out
    → Lexes i (c ∷ b) (push r.0 i out)
push-Lexes i c b (none, n) out (e, white) h =
    blank i c (white refl) (subst (λ k. Lexes (i + k) (drop k (c ∷ b)) out) e h)
push-Lexes i c b (some t, n) out ((w, split, len, some_bytes, spells), _) h =
    token i t w split (omega arith) spells
      (subst (λ k. Lexes (i + k) (drop n (c ∷ b)) out) (sym len) h)

Reads-pos :
    (c : ℕ) (b : List ℕ) (r : Option Tok × ℕ) → Reads (c ∷ b) r → (0 < r.1) × (r.1 ≤ suc (length b))
Reads-pos c b (none, n) h = (omega arith, omega arith)
Reads-pos c b (some t, n) (w, split, len, some_bytes, _) =
    (some_bytes, omega (arith, ap length split, length-append w (drop n (c ∷ b))))

lex_loop-Settles :
    (f i total : ℕ) (b : List ℕ)
    → length b < f
    → i + length b ≡ total
    → Settles (Lexes i b) (InLexer total) (lex_loop f i b)
unfolding lex_loop
lex_loop-Settles zero i total b h e = absurd (omega arith)
lex_loop-Settles (suc f) i total [] h e = returns (finish i)
lex_loop-Settles (suc f) i total (c ∷ b) h e =
    Settles-bind (scan-Settles i total c b (omega arith)) λ (t, n) s.
      let (pos, le) = Reads-pos c b (t, n) s.0 in
      Settles-bind
        (lex_loop-Settles f (i + n) total (drop n (c ∷ b)) (omega (arith, length-drop n (c ∷ b)))
          (omega (arith, length-drop n (c ∷ b))))
        λ out l. returns (push-Lexes i c b (t, n) out s l)

-- On any bytes the lexer comes to an end: with tokens that spell the source, each at its offset, or
-- with an error of the lexer inside the source.
pub lex-Settles : (src : List ℕ) → Settles (Lexes 0 src) (InLexer (length src)) (lex src)
unfolding lex
lex-Settles src = lex_loop-Settles (length src + 1) 0 (length src) src (omega arith) (omega arith)
