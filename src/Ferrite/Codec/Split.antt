-- ===== src/Ferrite/Codec/Split.antt =====
-- The lines of a text, byte by byte: a reference for `LineCodec` of project-05-ferrite-v2.rs that knows
-- nothing of buffers, searches and chunks.
use model_lib.Base.{
  ℕ, ◌<◌, ◌≡◌, refl, ap, ◌∙◌, false, inl, inr, Bool-cases, List, [], ◌∷◌, ◌++◌, append_assoc,
  append-nil, length, length-append, ltb, ◌==◌, if◌then◌else◌, arith,
}
use model_lib.Ferrite.Codec.Defs.{drop_cr, Without}

-- The text stopped at a line that is too long, or it goes on behind an unfinished line.
pub data Ending : Type 0 where
  stopped : Ending
  open_line : List ℕ → Ending

abbrev pub Frames : Type 0
Frames = List (List ℕ) × Ending

abbrev pub prepend : List ℕ → Frames → Frames
prepend l (ls, e) = (l ∷ ls, e)

-- `acc` is the unfinished line.
unfoldable pub lines_of : ℕ → List ℕ → List ℕ → Frames
lines_of max acc [] = if ltb max (length acc) then ([], stopped) else ([], open_line acc)
lines_of max acc (c ∷ b) =
    let next = prepend (drop_cr acc) (lines_of max [] b) in
    let on = lines_of max (acc ++ c ∷ []) b in
    if c == 10 then (if ltb max (length acc) then ([], stopped) else next) else on

-- More text behind an ending.
abbrev pub continued : ℕ → Frames → List ℕ → Frames
continued max ([], stopped) b = ([], stopped)
continued max ([], open_line acc) b = lines_of max acc b
continued max (l ∷ ls, e) b = prepend l (continued max (ls, e) b)

too_long_stops : (max : ℕ) (acc b : List ℕ) → max < length acc → lines_of max acc b ≡ ([], stopped)
unfolding lines_of
too_long_stops max acc [] h = ground arith
too_long_stops max acc (c ∷ b) h =
    let on = too_long_stops max (acc ++ c ∷ []) b (omega (arith, length-append acc (c ∷ []))) in
    ground (arith, on)

-- A text in two parts.
pub lines_of-append :
    (max : ℕ) (acc a b : List ℕ) → lines_of max acc (a ++ b) ≡ continued max (lines_of max acc a) b
unfolding lines_of
lines_of-append max acc [] b = elim (Bool-cases (ltb max (length acc))) [
  | inl e ↦ rw e (too_long_stops max acc b (ground arith))
  | inr e ↦ rw e refl
]
lines_of-append max acc (c ∷ a) b = elim (Bool-cases (c == 10)) [
  | inl e ↦ elim (Bool-cases (ltb max (length acc))) [
    | inl q ↦ rw (e, q) refl
    | inr q ↦ rw (e, q) (ap (prepend (drop_cr acc)) (lines_of-append max [] a b))
  ]
  | inr e ↦ rw e (lines_of-append max (acc ++ c ∷ []) a b)
]

-- A first line without a newline in it, and the newline.
pub lines_of-line :
    (max : ℕ) (acc l rest : List ℕ)
    → Without 10 l
    → lines_of max acc (l ++ 10 ∷ rest) ≡ (
        if ltb max (length (acc ++ l))
        then ([], stopped)
        else prepend (drop_cr (acc ++ l)) (lines_of max [] rest))
unfolding lines_of
lines_of-line max acc [] rest h = rw append-nil refl
lines_of-line max acc (c ∷ l) rest (h, hs) =
    let n : (c == 10) ≡ false = ground arith in
    let assoc = append_assoc acc (c ∷ []) l in
    rw n (
      lines_of-line max (acc ++ c ∷ []) l rest hs
      ∙ ap
          (λ x.
            if ltb max (length x)
            then ([], stopped)
            else prepend (drop_cr x) (lines_of max [] rest))
          assoc)

-- No newline at all.
pub lines_of-open :
    (max : ℕ) (acc b : List ℕ)
    → Without 10 b
    → lines_of max acc b
      ≡ (if ltb max (length (acc ++ b)) then ([], stopped) else ([], open_line (acc ++ b)))
unfolding lines_of
lines_of-open max acc [] h = rw append-nil refl
lines_of-open max acc (c ∷ b) (h, hs) =
    let n : (c == 10) ≡ false = ground arith in
    rw n (
      lines_of-open max (acc ++ c ∷ []) b hs
      ∙ ap (λ x. if ltb max (length x) then ([], stopped) else ([], open_line x))
          (append_assoc acc (c ∷ []) b))
