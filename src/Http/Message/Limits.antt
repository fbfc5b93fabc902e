-- ===== src/Http/Message/Limits.antt =====
-- What `read_request` of project-03-http-server.rs lets through.
use model_lib.Base.{
  ℕ, zero, suc, ◌+◌, ◌≤◌, ◌≡◌, refl, Bool, true, false, ◌||◌, not, Option, none, some, List, [],
  ◌∷◌, length, ltb, ◌==◌, if◌then◌else◌, Name, name_eq, codes, arith,
}
use model_lib.Ferrite.Protocol.Defs.{is_utf8}
use model_lib.Http.Message.Defs.{
  Limits, Version, http10, http11, split, split_once, has_whitespace, Headers, headers_too_large,
  starts_with, is_empty,
}
use model_lib.Http.Message.Read.{
  named, Stream, Reads, good, bad, and_then, read_line, malformed, checked, request_parts,
  request_line, header_line, with_header, header_step, read_headers,
}

-- What is good is so and so.
abbrev pub Ensures : {A : Type 0} → (A → Type 0) → Reads A → Type 0
Ensures P (good a s) = P a
Ensures P (bad e) = Unit

pub and_then-Ensures :
    {A B : Type 0} (P : A → Type 0) (Q : B → Type 0) (r : Reads A) (f : A → Stream → Reads B)
    → Ensures P r
    → ((a : A) (s : Stream) → P a → Ensures Q (f a s))
    → Ensures Q (and_then r f)
and_then-Ensures P Q (good a s) f h k = k a s h
and_then-Ensures P Q (bad e) f h k = tt

pub anything : {A : Type 0} (r : Reads A) → Ensures (λ a. Unit) r
anything (good a s) = tt
anything (bad e) = tt

pub if-Ensures :
    {A : Type 0} (P : A → Type 0) (b : Bool) (x y : Reads A)
    → Ensures P x
    → (b ≡ false → Ensures P y)
    → Ensures P (if b then x else y)
if-Ensures P true x y h k = h
if-Ensures P false x y h k = k refl

pub if-both :
    {A : Type 0} (P : A → Type 0) (b : Bool) (x y : Reads A)
    → Ensures P x
    → Ensures P y
    → Ensures P (if b then x else y)
if-both P true x y h k = h
if-both P false x y h k = k

or-false : (a b : Bool) → a || b ≡ false → (a ≡ false) × (b ≡ false)
or-false true b h = cc
or-false false b h = (refl, h)

not-false : (b : Bool) → not b ≡ false → b ≡ true
not-false true h = refl
not-false false h = cc

abbrev pub IsFirst : Name × Name × Version → Type 0
IsFirst (method, target, version) =
    (is_empty method ≡ false) × (starts_with target (codes "/") ≡ true)

checked-IsFirst :
    (method target : Name) (v : Version) (s : Stream) → Ensures IsFirst (checked method target v s)
checked-IsFirst method target v s =
    if-Ensures IsFirst (is_empty method || not (starts_with target (codes "/"))) _ _ tt (λ e.
      let (m, t) = or-false (is_empty method) (not (starts_with target (codes "/"))) e in
      (m, not-false (starts_with target (codes "/")) t))

parts-IsFirst : (parts : List Name) (s : Stream) → Ensures IsFirst (request_parts parts s)
parts-IsFirst [] s = tt
parts-IsFirst (a ∷ []) s = tt
parts-IsFirst (a ∷ b ∷ []) s = tt
parts-IsFirst (a ∷ b ∷ c ∷ []) s =
    if-Ensures IsFirst (name_eq c (codes "HTTP/1.1")) _ _ (checked-IsFirst a b http11 s) (λ h.
      if-Ensures IsFirst (name_eq c (codes "HTTP/1.0")) _ _ (checked-IsFirst a b http10 s)
        (λ k. if-Ensures IsFirst (starts_with c (codes "HTTP/")) _ malformed tt (λ l. tt)))
parts-IsFirst (a ∷ b ∷ c ∷ d ∷ parts) s = tt

pub request_line-IsFirst : (l : ℕ × Name) (s : Stream) → Ensures IsFirst (request_line l s)
unfolding request_line
request_line-IsFirst (n, line) s =
    if-Ensures IsFirst (n == 0) _ _ tt
      (λ h. if-both IsFirst (is_utf8 [] line) _ _ (parts-IsFirst (split 32 line) s) tt)

abbrev pub IsHeader : Name × Name → Type 0
IsHeader (name, value) = (is_empty name ≡ false) × (has_whitespace name ≡ false)

abbrev pub AllHeaders : Headers → Type 0
AllHeaders [] = Unit
AllHeaders (h ∷ headers) = IsHeader h × AllHeaders headers

named-IsHeader : (o : Option (Name × Name)) (s : Stream) → Ensures IsHeader (named o s)
named-IsHeader none s = tt
named-IsHeader (some (name, value)) s =
    if-Ensures IsHeader (is_empty name || has_whitespace name) _ _ tt
      (λ e. or-false (is_empty name) (has_whitespace name) e)

header_line-IsHeader : (line : Name) (s : Stream) → Ensures IsHeader (header_line line s)
unfolding header_line
header_line-IsHeader line s =
    if-both IsHeader (is_utf8 [] line) _ _ (named-IsHeader (split_once 58 line) s) tt

abbrev pub FitsIn : ℕ → Headers → Type 0
FitsIn room headers = (length headers ≤ room) × AllHeaders headers

with_header-FitsIn :
    (room : ℕ) (h : Name × Name) (r : Reads Headers)
    → IsHeader h
    → Ensures (FitsIn room) r
    → Ensures (FitsIn (suc room)) (with_header h r)
with_header-FitsIn room h (good headers s) k (f, a) = (omega (arith, f), (k, a))
with_header-FitsIn room h (bad e) k f = tt

-- A turn of the loop while there is room.
step-FitsIn :
    (limits : Limits) (before room : ℕ) (again : ℕ → Stream → Reads Headers) (l : ℕ × Name)
    (s : Stream)
    → ((n : ℕ) (t : Stream) → Ensures (FitsIn room) (again n t))
    → Ensures (FitsIn (suc room)) (header_step limits before true again l s)
step-FitsIn limits before room again (n, line) s k =
    let P = FitsIn (suc room) in
    if-both P (n == 0) _ _ tt (
      if-both P (is_empty line) _ _ (omega arith, tt)
        (if-both P (not true || ltb limits.max_header_bytes (before + n)) _ _ tt (
          and_then-Ensures IsHeader P (header_line line s) _ (header_line-IsHeader line s)
            (λ h t i. with_header-FitsIn room h (again (before + n) t) i (k (before + n) t)))))

full-FitsIn :
    (limits : Limits) (before : ℕ) (again : ℕ → Stream → Reads Headers) (l : ℕ × Name) (s : Stream)
    → Ensures (FitsIn 0) (header_step limits before false again l s)
full-FitsIn limits before again (n, line) s =
    if-both (FitsIn 0) (n == 0) _ _ tt (if-both (FitsIn 0) (is_empty line) _ _ (omega arith, tt) tt)

pub read_headers-FitsIn :
    (limits : Limits) (room before : ℕ) (s : Stream)
    → Ensures (FitsIn room) (read_headers limits room before s)
unfolding read_headers
read_headers-FitsIn limits zero before s =
    and_then-Ensures (λ l. Unit) (FitsIn 0) (read_line limits.max_line s) _ (anything _)
      (λ l t i. full-FitsIn limits before (λ n u. bad headers_too_large) l t)
read_headers-FitsIn limits (suc room) before s =
    and_then-Ensures (λ l. Unit) (FitsIn (suc room)) (read_line limits.max_line s) _ (anything _)
      (λ l t i.
        step-FitsIn limits before room (read_headers limits room) l t
          (read_headers-FitsIn limits room))
