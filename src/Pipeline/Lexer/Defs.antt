-- ===== src/Pipeline/Lexer/Defs.antt =====
-- Stage 1 of ch01-01-pipeline.rs: `lex`, from bytes to tokens.
use model_lib.Base.{
  ℕ, zero, suc, ◌+◌, ◌-◌, ◌*◌, ◌^◌, Bool, false, ◌&&◌, ◌||◌, Option, none, some, List, [], ◌∷◌, ltb,
  leb, ◌==◌, if◌then◌else◌, length, drop, Name, codes, name_eq,
}
use model_lib.Pipeline.Syntax.{
  Tok, Token, lexer, Outcome, ok, out_of_fuel, bind, fail, literal_too_large, unexpected_character,
}

abbrev pub is_ascii_whitespace : ℕ → Bool
is_ascii_whitespace c = c == 32 || (c == 9 || (c == 10 || (c == 12 || c == 13)))

abbrev pub is_ascii_digit : ℕ → Bool
is_ascii_digit c = leb b'0' c && leb c b'9'

abbrev pub is_ascii_alphabetic : ℕ → Bool
is_ascii_alphabetic c = (leb b'a' c && leb c b'z') || (leb b'A' c && leb c b'Z')

abbrev pub is_word_start : ℕ → Bool
is_word_start c = is_ascii_alphabetic c || c == b'_'

abbrev pub is_word_part : ℕ → Bool
is_word_part c = (is_ascii_alphabetic c || is_ascii_digit c) || c == b'_'

-- The inner loops: the longest prefix whose bytes pass the test, `src[start..i]`.
unfoldable pub take_while : (ℕ → Bool) → List ℕ → List ℕ
take_while p [] = []
take_while p (c ∷ b) = let more = c ∷ take_while p b in if p c then more else []

-- `str::parse::<i64>` on ASCII digits: none on overflow.
unfoldable pub decimal : ℕ → List ℕ → ℕ
decimal acc [] = acc
decimal acc (d ∷ ds) = decimal (acc * 10 + (d - b'0')) ds

unfoldable pub parse_i64 : List ℕ → Option ℕ
unfolding decimal
parse_i64 ds = let n = decimal 0 ds in if ltb n (2 ^ 63) then some n else none

unfoldable pub keyword : Name → Tok
unfolding name_eq
keyword w =
    if name_eq w (codes "let")
    then Tok.kw_let
    else if name_eq w (codes "mut")
    then Tok.kw_mut
    else if name_eq w (codes "while")
    then Tok.kw_while
    else if name_eq w (codes "if")
    then Tok.kw_if
    else if name_eq w (codes "else")
    then Tok.kw_else
    else if name_eq w (codes "true")
    then Tok.kw_true
    else if name_eq w (codes "false")
    then Tok.kw_false
    else Tok.ident w

abbrev pub follows : ℕ → List ℕ → Bool
follows c [] = false
follows c (d ∷ b) = d == c

-- The match on `(c, b.get(i + 1))`, where `b` is what stands behind `c`: a two-byte operator wins
-- over its one-byte prefix.
unfoldable pub operator : ℕ → List ℕ → Option (Tok × ℕ)
operator c b =
    if c == b'<' && follows b'=' b
    then some (Tok.le, 2)
    else if c == b'>' && follows b'=' b
    then some (Tok.ge, 2)
    else if c == b'=' && follows b'=' b
    then some (Tok.eq_eq, 2)
    else if c == b'!' && follows b'=' b
    then some (Tok.ne, 2)
    else if c == b'&' && follows b'&' b
    then some (Tok.and_and, 2)
    else if c == b'|' && follows b'|' b
    then some (Tok.or_or, 2)
    else if c == b'+'
    then some (Tok.plus, 1)
    else if c == b'-'
    then some (Tok.minus, 1)
    else if c == b'*'
    then some (Tok.star, 1)
    else if c == b'/'
    then some (Tok.slash, 1)
    else if c == b'%'
    then some (Tok.percent, 1)
    else if c == b'<'
    then some (Tok.lt, 1)
    else if c == b'>'
    then some (Tok.gt, 1)
    else if c == b'='
    then some (Tok.assign, 1)
    else if c == b'!'
    then some (Tok.bang, 1)
    else if c == b';'
    then some (Tok.semi, 1)
    else if c == 123
    then some (Tok.l_brace, 1)
    else if c == 125
    then some (Tok.r_brace, 1)
    else if c == 40
    then some (Tok.l_paren, 1)
    else if c == 41
    then some (Tok.r_paren, 1)
    else none

abbrev pub number_token : ℕ → List ℕ → Outcome (Option Tok × ℕ)
number_token start ds =
    let n = parse_i64 ds in
    elim n [ none ↦ fail lexer start literal_too_large | some m ↦ ok (some (Tok.int m), length ds) ]

abbrev pub symbol_token : ℕ → ℕ → Option (Tok × ℕ) → Outcome (Option Tok × ℕ)
symbol_token start c none = fail lexer start (unexpected_character c)
symbol_token start c (some (t, n)) = ok (some t, n)

-- One round of the outer loop at the offset `start`, where `c ∷ b` is left: the token, if it is not
-- white space, and the number of bytes that it takes.
unfoldable pub scan : ℕ → ℕ → List ℕ → Outcome (Option Tok × ℕ)
scan start c b =
    let word = take_while is_word_part (c ∷ b) in
    if is_ascii_whitespace c
    then ok (none, 1)
    else if is_ascii_digit c
    then number_token start (take_while is_ascii_digit (c ∷ b))
    else if is_word_start c
    then ok (some (keyword word), length word)
    else symbol_token start c (operator c b)

abbrev pub push : Option Tok → ℕ → List Token → List Token
push none start out = out
push (some t) start out = record { tok = t; pos = start } ∷ out

-- The outer loop at the offset `i`, where the bytes `b` are left.
unfoldable pub lex_loop : ℕ → ℕ → List ℕ → Outcome (List Token)
lex_loop zero i b = out_of_fuel
lex_loop (suc f) i [] = ok (record { tok = Tok.eof; pos = i } ∷ [])
lex_loop (suc f) i (c ∷ b) =
    bind (scan i c b) λ (t, n). bind (lex_loop f (i + n) (drop n (c ∷ b))) λ out. ok (push t i out)

-- Each round takes a byte at least.
unfoldable pub lex : List ℕ → Outcome (List Token)
unfolding lex_loop scan take_while parse_i64 keyword operator
lex src = lex_loop (length src + 1) 0 src
