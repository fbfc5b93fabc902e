-- ===== src/Ferrite/Protocol/Words.antt =====
-- The words of a line in project-05-ferrite-v2.rs: `split_ascii_whitespace`.
use model_lib.Base.{
  ℕ, ◌<◌, ◌≡◌, refl, Bool, true, false, inl, inr, Bool-cases, List, [], ◌∷◌, ◌++◌, length, Name,
}
use model_lib.Pipeline.Lexer.Defs.{is_ascii_whitespace}
use model_lib.Ferrite.Protocol.Defs.{starts_blank, attach, tokens}

abbrev pub IsDark : List ℕ → Type 0
IsDark [] = Unit
IsDark (c ∷ w) = (is_ascii_whitespace c ≡ false) × IsDark w

abbrev pub IsWord : List ℕ → Type 0
IsWord w = (0 < length w) × IsDark w

abbrev pub AllDark : List Name → Type 0
AllDark [] = Unit
AllDark (w ∷ words) = IsDark w × AllDark words

attach-AllDark :
    (c : ℕ) (d : Bool) (words : List Name)
    → is_ascii_whitespace c ≡ false
    → AllDark words
    → AllDark (attach c d words)
attach-AllDark c true words h k = ((h, tt), k)
attach-AllDark c false [] h k = ((h, tt), tt)
attach-AllDark c false (w ∷ words) h (k, ks) = ((h, k), ks)

pub tokens-AllDark : (b : List ℕ) → AllDark (tokens b)
unfolding tokens
tokens-AllDark [] = tt
tokens-AllDark (c ∷ b) = elim (Bool-cases (is_ascii_whitespace c)) [
  | inl e ↦ rw e (tokens-AllDark b)
  | inr e ↦ rw e (attach-AllDark c (starts_blank b) (tokens b) e (tokens-AllDark b))
]

tokens_grow :
    (c : ℕ) (b : List ℕ) (w : Name) (words : List Name)
    → is_ascii_whitespace c ≡ false
    → starts_blank b ≡ false
    → tokens b ≡ w ∷ words
    → tokens (c ∷ b) ≡ (c ∷ w) ∷ words
unfolding tokens
tokens_grow c b w words h k e = rw (h, k, e) refl

-- The word at the front, with a blank behind it or as the last one.
pub tokens-word :
    (c : ℕ) (w : List ℕ) (sp : ℕ) (rest : List ℕ)
    → IsDark (c ∷ w)
    → is_ascii_whitespace sp ≡ true
    → tokens (c ∷ (w ++ sp ∷ rest)) ≡ (c ∷ w) ∷ tokens rest
unfolding tokens
tokens-word c [] sp rest (h, hs) k = rw (h, k) refl
tokens-word c (d ∷ w) sp rest (h, hs) k =
    tokens_grow c (d ∷ (w ++ sp ∷ rest)) (d ∷ w) (tokens rest) h hs.0 (tokens-word d w sp rest hs k)

pub tokens-last : (c : ℕ) (w : List ℕ) → IsDark (c ∷ w) → tokens (c ∷ w) ≡ (c ∷ w) ∷ []
unfolding tokens
tokens-last c [] (h, hs) = rw h refl
tokens-last c (d ∷ w) (h, hs) = tokens_grow c (d ∷ w) (d ∷ w) [] h hs.0 (tokens-last d w hs)
