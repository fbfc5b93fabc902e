-- ===== src/Ferrite/Protocol/Lines.antt =====
-- The replies of project-05-ferrite-v2.rs as lines: where a newline can stand in them.
use mathlib.Core.Path.{subst}
use model_lib.Base.{
  ℕ, ◌≡◌, ◌≢◌, refl, sym, ap, Bool, true, false, inl, inr, Bool-cases, Option, none, some, List, [],
  ◌∷◌, ◌++◌, append_assoc, if◌then◌else◌, ◌&&◌, not, ◌==◌, Name, name_eq, codes, arith,
}
use model_lib.Pipeline.Lexer.Defs.{is_ascii_whitespace}
use model_lib.Ferrite.Store.Contract.{Value, KvStore, updated}
use model_lib.Ferrite.Protocol.Defs.{
  Request, ping, get, set, del, Code, as_str, busy, shutting_down, line_too_long, invalid_utf8,
  empty, unknown_command, wrong_arity, Response, pong, ok, nil, value, error, to_upper,
  to_ascii_uppercase, tokens, Parsed, request, refused, wrong, no_args, one_arg, two_args,
  parse_command, parse_tokens, parse, is_utf8, value_or_nil, ok_or_nil, handle_line, encode,
  is_command,
}
use model_lib.Ferrite.Protocol.Words.{IsDark, AllDark, tokens-AllDark}
use model_lib.Ferrite.Protocol.Refines.{
  View, model_execute, model_answer, model_line, handle_line-Does,
}

abbrev pub NoNewline : List ℕ → Type 0
NoNewline [] = Unit
NoNewline (c ∷ w) = (c ≢ 10) × NoNewline w

pub NoNewline-append : (xs ys : List ℕ) → NoNewline xs → NoNewline ys → NoNewline (xs ++ ys)
NoNewline-append [] ys h k = k
NoNewline-append (x ∷ xs) ys (h, hs) k = (h, NoNewline-append xs ys hs k)

-- One line: a newline in the last place and no other.
abbrev pub IsLine : List ℕ → Type 0
IsLine b = (w : List ℕ) × (b ≡ w ++ 10 ∷ []) × NoNewline w

abbrev pub ReplyIsClean : Response → Type 0
ReplyIsClean (value v) = NoNewline v
ReplyIsClean (error code detail) = NoNewline detail
ReplyIsClean _ = Unit

-- No value of the map holds a newline.
abbrev pub ViewIsClean : View → Type 0
ViewIsClean f = (k : Name) (v : Value) → f k ≡ some v → NoNewline v

dark-ne-newline : (c : ℕ) → is_ascii_whitespace c ≡ false → c ≢ 10
dark-ne-newline c h e = let q : is_ascii_whitespace 10 ≡ false = rw e at h in cc

IsDark-NoNewline : (w : List ℕ) → IsDark w → NoNewline w
IsDark-NoNewline [] h = tt
IsDark-NoNewline (c ∷ w) (h, hs) = (dark-ne-newline c h, IsDark-NoNewline w hs)

to_upper-ne : (c : ℕ) → c ≢ 10 → to_upper c ≢ 10
to_upper-ne c h = ground arith

uppercase-NoNewline : (w : List ℕ) → NoNewline w → NoNewline (to_ascii_uppercase w)
unfolding to_ascii_uppercase
uppercase-NoNewline [] h = tt
uppercase-NoNewline (c ∷ w) (h, hs) = (to_upper-ne c h, uppercase-NoNewline w hs)

abbrev RequestIsClean : Request → Type 0
RequestIsClean (set k v) = NoNewline v
RequestIsClean _ = Unit

abbrev ParsedIsClean : Parsed → Type 0
ParsedIsClean (request r) = RequestIsClean r
ParsedIsClean (refused code detail) = NoNewline detail

abbrev newline_free : List ℕ → Bool
newline_free [] = true
newline_free (c ∷ w) = not (c == 10) && newline_free w

-- For texts that are written out.
pub literal : (w : List ℕ) → newline_free w ≡ true → NoNewline w
literal [] h = tt
literal (c ∷ w) h = ((λ e. ground arith), literal w (ground arith))

wrong-IsClean : (cmd : Name) → NoNewline cmd → ParsedIsClean (wrong cmd)
wrong-IsClean cmd h =
    NoNewline-append (codes "wrong number of arguments for '") _
      (literal (codes "wrong number of arguments for '") refl)
      (NoNewline-append (to_ascii_uppercase cmd) (codes "'") (uppercase-NoNewline cmd h)
        (literal (codes "'") refl))

if-IsClean :
    (b : Bool) (x y : Parsed)
    → ParsedIsClean x
    → ParsedIsClean y
    → ParsedIsClean (if b then x else y)
if-IsClean true x y h k = h
if-IsClean false x y h k = k

no_args-IsClean :
    (cmd : Name) (args : List Name) → NoNewline cmd → ParsedIsClean (no_args cmd args ping)
no_args-IsClean cmd [] h = tt
no_args-IsClean cmd (a ∷ args) h = wrong-IsClean cmd h

one_arg-IsClean :
    (cmd : Name) (args : List Name) (f : Name → Request)
    → NoNewline cmd
    → ((a : Name) → RequestIsClean (f a))
    → ParsedIsClean (one_arg cmd args f)
one_arg-IsClean cmd [] f h k = wrong-IsClean cmd h
one_arg-IsClean cmd (a ∷ []) f h k = k a
one_arg-IsClean cmd (a ∷ b ∷ args) f h k = wrong-IsClean cmd h

two_args-IsClean :
    (cmd : Name) (args : List Name)
    → NoNewline cmd
    → AllDark args
    → ParsedIsClean (two_args cmd args set)
two_args-IsClean cmd [] h d = wrong-IsClean cmd h
two_args-IsClean cmd (a ∷ []) h d = wrong-IsClean cmd h
two_args-IsClean cmd (a ∷ b ∷ []) h (da, (db, _)) = IsDark-NoNewline b db
two_args-IsClean cmd (a ∷ b ∷ c ∷ args) h d = wrong-IsClean cmd h

tokens-IsClean : (words : List Name) → AllDark words → ParsedIsClean (parse_tokens words)
unfolding parse_command
tokens-IsClean [] d = literal (codes "empty command") refl
tokens-IsClean (cmd ∷ args) (h, hs) =
    let clean = IsDark-NoNewline cmd h in
    if-IsClean (is_command cmd (codes "PING")) _ _ (no_args-IsClean cmd args clean) (
      if-IsClean (is_command cmd (codes "GET")) _ _ (one_arg-IsClean cmd args get clean (λ a. tt)) (
        if-IsClean (is_command cmd (codes "SET")) _ _ (two_args-IsClean cmd args clean hs) (
          if-IsClean (is_command cmd (codes "DEL")) _ _
            (one_arg-IsClean cmd args del clean (λ a. tt))
            (NoNewline-append (codes "unknown command '") _
              (literal (codes "unknown command '") refl)
              (NoNewline-append cmd (codes "'") clean (literal (codes "'") refl))))))

written :
    (k j : Name) (v w : Value) (f : View)
    → NoNewline v
    → ViewIsClean f
    → updated f k (some v) j ≡ some w
    → NoNewline w
written k j v w f h c e = elim (Bool-cases (name_eq k j)) [
  | inl q ↦ let same : v ≡ w = ground arith in subst NoNewline same h
  | inr q ↦ c j w (ground arith)
]

erased :
    (k j : Name) (w : Value) (f : View) → ViewIsClean f → updated f k none j ≡ some w → NoNewline w
erased k j w f c e = elim (Bool-cases (name_eq k j)) [
  | inl q ↦ ground arith
  | inr q ↦ c j w (ground arith)
]

ok_clean : (o : Option Value) → ReplyIsClean (ok_or_nil o)
ok_clean none = tt
ok_clean (some v) = tt

answer-IsClean :
    (p : Parsed) (f : View)
    → ParsedIsClean p
    → ViewIsClean f
    → ReplyIsClean (model_answer p f).0 × ViewIsClean (model_answer p f).1
unfolding model_answer model_execute
answer-IsClean (request ping) f h c = (tt, c)
answer-IsClean (request (get k)) f h c = (read_clean (f k) (c k), c)
  where
    read_clean :
        (o : Option Value)
        → ((v : Value) → o ≡ some v → NoNewline v)
        → ReplyIsClean (value_or_nil o)
    read_clean none q = tt
    read_clean (some v) q = q v refl
answer-IsClean (request (set k v)) f h c = (tt, λ j w e. written k j v w f h c e)
answer-IsClean (request (del k)) f h c = (ok_clean (f k), λ j w e. erased k j w f c e)
answer-IsClean (refused code detail) f h c = (h, c)

as_str-NoNewline : (code : Code) → NoNewline (as_str code)
as_str-NoNewline busy = literal (as_str busy) refl
as_str-NoNewline shutting_down = literal (as_str shutting_down) refl
as_str-NoNewline line_too_long = literal (as_str line_too_long) refl
as_str-NoNewline invalid_utf8 = literal (as_str invalid_utf8) refl
as_str-NoNewline empty = literal (as_str empty) refl
as_str-NoNewline unknown_command = literal (as_str unknown_command) refl
as_str-NoNewline wrong_arity = literal (as_str wrong_arity) refl

pub encode-IsLine : (r : Response) → ReplyIsClean r → IsLine (encode r)
unfolding encode
encode-IsLine pong h = (codes "+PONG", refl, literal (codes "+PONG") refl)
encode-IsLine ok h = (codes "+OK", refl, literal (codes "+OK") refl)
encode-IsLine nil h = (codes "_", refl, literal (codes "_") refl)
encode-IsLine (value v) h = (b'$' ∷ v, refl, ((λ e. omega (arith, e)), h))
encode-IsLine (error code detail) h = (
  codes "-ERR " ++ (as_str code ++ (32 ∷ detail)),
  ap (λ l. codes "-ERR " ++ l) (sym (append_assoc (as_str code) (32 ∷ detail) (10 ∷ []))),
  NoNewline-append (codes "-ERR ") _ (literal (codes "-ERR ") refl) (
      NoNewline-append (as_str code) (32 ∷ detail) (as_str-NoNewline code)
        ((λ e. omega (arith, e)), h)),
)

-- A line in, a line out: where no value holds a newline, the reply to any line is one line, and no value
-- behind it holds a newline.
pub model_line-IsLine :
    (line : List ℕ) (f : View)
    → ViewIsClean f
    → IsLine (encode (model_line line f).0) × ViewIsClean (model_line line f).1
unfolding model_line parse
model_line-IsLine line f c = elim (Bool-cases (is_utf8 [] line)) [
  | inl e ↦
      let (h, k) =
        answer-IsClean (parse line) f (tokens-IsClean (tokens line) (tokens-AllDark line)) c in
      rw (e, model_line) (encode-IsLine (model_answer (parse line) f).0 h, k)
  | inr e ↦
      rw (e, model_line)
        (
          encode-IsLine (error invalid_utf8 (codes "request is not valid UTF-8"))
              (literal (codes "request is not valid UTF-8") refl),
          c,
        )
]

-- Over any store that keeps the contract, and whose values hold no newline, the reply to a line is one
-- line, and the values behind it hold no newline.
pub handle_line-IsLine :
    {S : Type 0} ⦃kv : KvStore S⦄ (line : List ℕ) (s : S)
    → kv.IsValid s
    → ViewIsClean (kv.view s)
    → (r : Response) × (t : S) × (handle_line line s ≡ some (r, t))
      × IsLine (encode r)
      × kv.IsValid t
      × ViewIsClean (kv.view t)
handle_line-IsLine {S} ⦃kv⦄ line s v c =
    let d = handle_line-Does line s v in
    let (h, k) = model_line-IsLine line (kv.view s) c in
    (
      (model_line line (kv.view s)).0,
      d.state,
      d.returns,
      h,
      d.valid,
      subst ViewIsClean (sym d.stands_for) k,
    )
