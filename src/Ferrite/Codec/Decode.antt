-- ===== src/Ferrite/Codec/Decode.antt =====
-- One call of `decode` in project-05-ferrite-v2.rs: what it makes of the bytes in the buffer, whatever
-- part of them earlier calls have searched.
use Prim.Native.Nat.add
use mathlib.Core.Path.{subst}
use model_lib.Base.{
  ℕ, zero, suc, ◌+◌, ◌≤◌, ◌<◌, ◌≡◌, refl, sym, ap, ◌∙◌, false, inl, inr, Bool-cases, Option-cases,
  some, List, [], ◌∷◌, ◌++◌, length, length-append, drop, get_elem?, ltb, arith,
}
use model_lib.Ferrite.Codec.Defs.{
  Without, take, Memchr, LineCodec, new, line, more, too_long, drop_cr, Step, found, missing,
  decode,
}

-- The part of the buffer that was searched holds no newline.
pub record IsScanned (codec : LineCodec) (src : List ℕ) : Type 0 where
  pub within : codec.scanned ≤ length src
  pub clean : Without 10 (take codec.scanned src)

Without-append : (c : ℕ) (a b : List ℕ) → Without c a → Without c b → Without c (a ++ b)
Without-append c [] b h k = k
Without-append c (x ∷ a) b (h, hs) k = (h, Without-append c a b hs k)

take-drop : (n : ℕ) (b : List ℕ) → b ≡ take n b ++ drop n b
take-drop zero b = refl
take-drop (suc n) [] = refl
take-drop (suc n) (x ∷ b) = ap (λ l. x ∷ l) (take-drop n b)

take-nil : (n : ℕ) → take {A = ℕ} n [] ≡ []
take-nil zero = refl
take-nil (suc n) = refl

take-add : (n i : ℕ) (b : List ℕ) → take (n + i) b ≡ take n b ++ take i (drop n b)
take-add zero i b = ap (λ k. take k b) (omega arith)
take-add (suc n) i [] = take-nil (suc n + i) ∙ sym (take-nil i)
take-add (suc n) i (x ∷ b) = rw add.suc (ap (λ l. x ∷ l) (take-add n i b))

get_elem?-drop : (n i : ℕ) (b : List ℕ) → get_elem? (drop n b) i ≡ get_elem? b (n + i)
get_elem?-drop zero i b = ap (get_elem? b) (omega arith)
get_elem?-drop (suc n) i [] = refl
get_elem?-drop (suc n) i (x ∷ b) = rw add.suc (get_elem?-drop n i b)

length-take : (n : ℕ) (b : List ℕ) → n ≤ length b → length (take n b) ≡ n
length-take zero b h = refl
length-take (suc n) [] h = absurd (omega arith)
length-take (suc n) (x ∷ b) h = ap suc (length-take n b (omega arith))

-- The buffer around an index.
split_at :
    (b : List ℕ) (i c : ℕ)
    → get_elem? b i ≡ some c
    → (b ≡ take i b ++ c ∷ drop (suc i) b) × (i < length b)
split_at [] i c h = cc
split_at (x ∷ b) zero c h = (ap (λ y. y ∷ b) (let q : x ≡ c = cc in q), omega arith)
split_at (x ∷ b) (suc i) c h = let (e, lt) = split_at b i c h in (ap (λ l. x ∷ l) e, omega arith)

pub data Does (max : ℕ) (src : List ℕ) : Step → Type 0 where
  gives_line :
      (codec : LineCodec) (l rest : List ℕ)
      → codec ≡ new max
      → src ≡ l ++ 10 ∷ rest
      → Without 10 l
      → length l ≤ max
      → Does max src (line (drop_cr l), (codec, rest))
  refuses_line :
      (codec : LineCodec) (l rest : List ℕ)
      → src ≡ l ++ 10 ∷ rest
      → Without 10 l
      → max < length l
      → Does max src (too_long, (codec, src))
  refuses_open :
      (codec : LineCodec)
      → Without 10 src
      → max < length src
      → Does max src (too_long, (codec, src))
  waits :
      (codec : LineCodec)
      → codec ≡ record { max_line = max; scanned = length src }
      → Without 10 src
      → length src ≤ max
      → Does max src (more, (codec, src))

found-Does :
    (codec : LineCodec) (src : List ℕ) (end : ℕ)
    → get_elem? src end ≡ some 10
    → Without 10 (take end src)
    → Does codec.max_line src (found codec src end)
found-Does codec src end h w =
    let (e, lt) = split_at src end 10 h in
    let size = length-take end src (omega arith) in
    elim (Bool-cases (ltb codec.max_line end)) [
      | inl q ↦ rw q (refuses_line _ (take end src) (drop (suc end) src) e w (ground arith))
      | inr q ↦ rw q (gives_line _ (take end src) (drop (suc end) src) refl e w (ground arith))
    ]

missing-Does :
    (codec : LineCodec) (src : List ℕ)
    → Without 10 src
    → Does codec.max_line src (missing codec src)
missing-Does codec src w = elim (Bool-cases (ltb codec.max_line (length src))) [
  | inl q ↦ rw q (refuses_open codec w (ground arith))
  | inr q ↦ rw q (waits _ refl w (ground arith))
]

pub decode-Does :
    (m : Memchr) (codec : LineCodec) (src : List ℕ)
    → IsScanned codec src
    → Does codec.max_line src (decode m codec src)
unfolding decode
decode-Does m codec src v =
    let n = codec.scanned in
    let inside : ltb (length src) n ≡ false = ground (arith, v.within) in
    rw (inside, decode)
      (elim (Option-cases (m.memchr 10 (drop n src))) [
        | inl e ↦ rw e (
            missing-Does codec src (
              subst (Without 10) (sym (take-drop n src)) (
                Without-append 10 (take n src) (drop n src) v.clean
                  (m.memchr_none 10 (drop n src) e))))
        | inr (i, e) ↦
            let (h, w) = m.memchr_some 10 (drop n src) i e in
            rw e (
              found-Does codec src (n + i) (sym (get_elem?-drop n i src) ∙ h) (
                subst (Without 10) (sym (take-add n i src))
                  (Without-append 10 (take n src) (take i (drop n src)) v.clean w)))
      ])

-- The searched part stays searched when more bytes come in behind it.
pub IsScanned-new : (max : ℕ) (src : List ℕ) → IsScanned (new max) src
IsScanned-new max src = record { within = omega arith; clean = tt }

take-all : (b c : List ℕ) → take (length b) (b ++ c) ≡ b
take-all [] c = refl
take-all (x ∷ b) c = ap (λ l. x ∷ l) (take-all b c)

pub IsScanned-more :
    (max : ℕ) (src chunk : List ℕ)
    → Without 10 src
    → IsScanned (record { max_line = max; scanned = length src }) (src ++ chunk)
IsScanned-more max src chunk w = record {
  within = omega (arith, length-append src chunk);
  clean = subst (Without 10) (sym (take-all src chunk)) w;
}
