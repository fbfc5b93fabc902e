-- ===== src/Ferrite/Protocol/Defs.antt =====
-- The grammar, the replies and the handler of `mod protocol` in project-05-ferrite-v2.rs. Texts are
-- bytes.
use model_lib.Base.{
  ℕ, ◌-◌, Bool, true, false, ◌&&◌, Option, none, some, List, [], ◌∷◌, ◌++◌, leb, if◌then◌else◌,
  Name, name_eq, codes,
}
use model_lib.Pipeline.Lexer.Defs.{is_ascii_whitespace}
use model_lib.Ferrite.Store.Contract.{Value, Call, KvStore}

pub data Request : Type 0 where
  ping : Request
  get : Name → Request
  set : Name → Value → Request
  del : Name → Request

pub data Code : Type 0 where
  busy shutting_down line_too_long invalid_utf8 empty unknown_command wrong_arity : Code

abbrev pub as_str : Code → Name
as_str busy = codes "BUSY"
as_str shutting_down = codes "SHUTTING_DOWN"
as_str line_too_long = codes "LINE_TOO_LONG"
as_str invalid_utf8 = codes "INVALID_UTF8"
as_str empty = codes "EMPTY"
as_str unknown_command = codes "UNKNOWN_COMMAND"
as_str wrong_arity = codes "WRONG_ARITY"

pub data Response : Type 0 where
  pong ok nil : Response
  value : Value → Response
  error : Code → Name → Response

-- `str::split_ascii_whitespace`
abbrev pub starts_blank : List ℕ → Bool
starts_blank [] = true
starts_blank (c ∷ b) = is_ascii_whitespace c

abbrev pub attach : ℕ → Bool → List Name → List Name
attach c true words = (c ∷ []) ∷ words
attach c false [] = (c ∷ []) ∷ []
attach c false (w ∷ words) = (c ∷ w) ∷ words

unfoldable pub tokens : List ℕ → List Name
tokens [] = []
tokens (c ∷ b) =
    let rest = tokens b in if is_ascii_whitespace c then rest else attach c (starts_blank b) rest

abbrev pub to_upper : ℕ → ℕ
to_upper c = if leb 97 c && leb c 122 then c - 32 else c

-- `str::to_ascii_uppercase` and `str::eq_ignore_ascii_case`
unfoldable pub to_ascii_uppercase : Name → Name
to_ascii_uppercase [] = []
to_ascii_uppercase (c ∷ b) = to_upper c ∷ to_ascii_uppercase b

unfoldable pub is_command : Name → Name → Bool
unfolding to_ascii_uppercase name_eq
is_command cmd name = name_eq (to_ascii_uppercase cmd) (to_ascii_uppercase name)

pub data Parsed : Type 0 where
  request : Request → Parsed
  refused : Code → Name → Parsed

abbrev pub wrong : Name → Parsed
wrong cmd =
    refused wrong_arity
      (codes "wrong number of arguments for '" ++ (to_ascii_uppercase cmd ++ codes "'"))

-- The arguments behind the command: none, one, two, or more.
abbrev pub no_args : Name → List Name → Request → Parsed
no_args cmd [] r = request r
no_args cmd (a ∷ args) r = wrong cmd

abbrev pub one_arg : Name → List Name → (Name → Request) → Parsed
one_arg cmd (a ∷ []) f = request (f a)
one_arg cmd _ f = wrong cmd

abbrev pub two_args : Name → List Name → (Name → Name → Request) → Parsed
two_args cmd (a ∷ b ∷ []) f = request (f a b)
two_args cmd _ f = wrong cmd

unfoldable pub parse_command : Name → List Name → Parsed
parse_command cmd args =
    if is_command cmd (codes "PING")
    then no_args cmd args ping
    else if is_command cmd (codes "GET")
    then one_arg cmd args get
    else if is_command cmd (codes "SET")
    then two_args cmd args set
    else if is_command cmd (codes "DEL")
    then one_arg cmd args del
    else refused unknown_command (codes "unknown command '" ++ (cmd ++ codes "'"))

abbrev pub parse_tokens : List Name → Parsed
parse_tokens [] = refused empty (codes "empty command")
parse_tokens (cmd ∷ args) = parse_command cmd args

unfoldable pub parse : List ℕ → Parsed
unfolding tokens parse_command
parse line = parse_tokens (tokens line)

-- `std::str::from_utf8`: the ranges of the bytes that a leading byte asks for.
abbrev pub between : ℕ → ℕ → ℕ → Bool
between lo hi c = leb lo c && leb c hi

abbrev pub continuations : ℕ → Option (List (ℕ × ℕ))
continuations c =
    if leb c 127
    then some []
    else if between 194 223 c
    then some ((128, 191) ∷ [])
    else if between 224 224 c
    then some ((160, 191) ∷ (128, 191) ∷ [])
    else if between 237 237 c
    then some ((128, 159) ∷ (128, 191) ∷ [])
    else if between 225 239 c
    then some ((128, 191) ∷ (128, 191) ∷ [])
    else if between 240 240 c
    then some ((144, 191) ∷ (128, 191) ∷ (128, 191) ∷ [])
    else if between 241 243 c
    then some ((128, 191) ∷ (128, 191) ∷ (128, 191) ∷ [])
    else if between 244 244 c
    then some ((128, 143) ∷ (128, 191) ∷ (128, 191) ∷ [])
    else none

unfoldable pub is_utf8 : List (ℕ × ℕ) → List ℕ → Bool
is_utf8 [] [] = true
is_utf8 (r ∷ rs) [] = false
is_utf8 ((lo, hi) ∷ rs) (c ∷ b) = between lo hi c && is_utf8 rs b
is_utf8 [] (c ∷ b) = elim (continuations c) [ none ↦ false | some rs ↦ is_utf8 rs b ]

abbrev pub value_or_nil : Option Value → Response
value_or_nil none = nil
value_or_nil (some v) = value v

abbrev pub ok_or_nil : Option Value → Response
ok_or_nil none = nil
ok_or_nil (some v) = ok

-- A call, and what is made of its result.
abbrev pub then_reply : {S A : Type 0} → Option (A × S) → (A → Response) → Option (Response × S)
then_reply none f = none
then_reply (some (a, t)) f = some (f a, t)

module _ {S : Type 0} ⦃kv : KvStore S⦄ where
  unfoldable pub execute : Request → Call S Response
  execute ping s = some (pong, s)
  execute (get k) s = then_reply (kv.get_shared k s) value_or_nil
  execute (set k v) s = then_reply (kv.put k v s) (λ _. ok)
  execute (del k) s = then_reply (kv.delete k s) ok_or_nil

  unfoldable pub answer : Parsed → Call S Response
  unfolding execute
  answer (request r) s = execute r s
  answer (refused code detail) s = some (error code detail, s)

  unfoldable pub handle_line : List ℕ → Call S Response
  unfolding answer parse is_utf8
  handle_line line s =
      if is_utf8 [] line
      then answer (parse line) s
      else some (error invalid_utf8 (codes "request is not valid UTF-8"), s)

unfoldable pub encode : Response → List ℕ
encode pong = codes "+PONG" ++ 10 ∷ []
encode ok = codes "+OK" ++ 10 ∷ []
encode (value v) = b'$' ∷ (v ++ 10 ∷ [])
encode nil = codes "_" ++ 10 ∷ []
encode (error code detail) = codes "-ERR " ++ (as_str code ++ (32 ∷ (detail ++ 10 ∷ [])))
