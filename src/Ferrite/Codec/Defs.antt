-- ===== src/Ferrite/Codec/Defs.antt =====
-- `LineCodec` of project-05-ferrite-v2.rs. A buffer is the list of its bytes; `split_to` and `truncate`
-- cut it in two.
use model_lib.Base.{
  ℕ, zero, suc, ◌+◌, ◌≡◌, ◌≢◌, Option, none, some, List, [], ◌∷◌, length, drop, get_elem?, ltb,
  ◌==◌, if◌then◌else◌,
}

abbrev pub Without : ℕ → List ℕ → Type 0
Without c [] = Unit
Without c (d ∷ b) = (d ≢ c) × Without c b

abbrev pub take {ℓ} : {A : Type ℓ} → ℕ → List A → List A
take zero xs = []
take (suc n) [] = []
take (suc n) (x ∷ xs) = x ∷ take n xs

-- The crate `memchr`: the index of the first such byte, where there is one.
pub record Memchr : Type 0 where
  pub memchr : ℕ → List ℕ → Option ℕ
  pub memchr_some :
      (c : ℕ) (b : List ℕ) (i : ℕ)
      → memchr c b ≡ some i
      → (get_elem? b i ≡ some c) × Without c (take i b)
  pub memchr_none : (c : ℕ) (b : List ℕ) → memchr c b ≡ none → Without c b

pub record LineCodec : Type 0 where
  pub max_line : ℕ
  pub scanned : ℕ

abbrev pub new : ℕ → LineCodec
new max_line = record { max_line = max_line; scanned = 0 }

-- `Ok(Some(line))`, `Ok(None)`, `Err(TooLong)`, or a slice out of range.
pub data Decoded : Type 0 where
  line : List ℕ → Decoded
  more too_long panicked : Decoded

-- A carriage return in the last place is cut off.
unfoldable pub drop_cr : List ℕ → List ℕ
drop_cr [] = []
drop_cr (c ∷ []) = if c == 13 then [] else c ∷ []
drop_cr (c ∷ (d ∷ b)) = c ∷ drop_cr (d ∷ b)

-- The result, the codec and the buffer behind the call.
abbrev pub Step : Type 0
Step = Decoded × (LineCodec × List ℕ)

-- The newline stands at `end`.
abbrev pub found : LineCodec → List ℕ → ℕ → Step
found codec src end =
    let reset = record codec { scanned = 0 } in
    if ltb codec.max_line end
    then (too_long, (reset, src))
    else (line (drop_cr (take end src)), (reset, drop (suc end) src))

abbrev pub missing : LineCodec → List ℕ → Step
missing codec src =
    if ltb codec.max_line (length src)
    then (too_long, (codec, src))
    else (more, (record codec { scanned = length src }, src))

unfoldable pub decode : Memchr → LineCodec → List ℕ → Step
unfolding drop_cr
decode m codec src =
    if ltb (length src) codec.scanned
    then (panicked, (codec, src))
    else elim (m.memchr 10 (drop codec.scanned src)) [
      | some i ↦ found codec src (codec.scanned + i)
      | none ↦ missing codec src
    ]
