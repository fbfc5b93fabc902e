-- ===== src/Ferrite/Protocol/Parse.antt =====
-- `parse` of project-05-ferrite-v2.rs against the command table of the protocol.
use mathlib.Core.Path.{subst}
use model_lib.Base.{
  ℕ, ◌≡◌, ◌↔◌, refl, ap, ◌∙◌, Bool, true, false, List, [], ◌∷◌, if◌then◌else◌, Name, name_eq→eq,
  codes,
}
use model_lib.Ferrite.Protocol.Defs.{
  Request, ping, get, set, del, Parsed, request, tokens, to_ascii_uppercase, is_command,
  parse_command, parse_tokens, parse, no_args, one_arg, two_args,
}

-- The command of a request and its arguments.
abbrev pub name_of : Request → Name
name_of ping = codes "PING"
name_of (get k) = codes "GET"
name_of (set k v) = codes "SET"
name_of (del k) = codes "DEL"

abbrev pub args_of : Request → List Name
args_of ping = []
args_of (get k) = k ∷ []
args_of (set k v) = k ∷ v ∷ []
args_of (del k) = k ∷ []

abbrev Asks : Name → List Name → Request → Type 0
Asks cmd args r = (args ≡ args_of r) × (is_command cmd (name_of r) ≡ true)

is_ping :
    (cmd : Name) (args : List Name) (r : Request)
    → is_command cmd (codes "PING") ≡ true
    → no_args cmd args ping ≡ request r
    → Asks cmd args r
is_ping cmd [] r h e = let same : ping ≡ r = cc in subst (Asks cmd []) same (refl, h)
is_ping cmd (a ∷ args) r h e = cc

is_get :
    (cmd : Name) (args : List Name) (r : Request)
    → is_command cmd (codes "GET") ≡ true
    → one_arg cmd args get ≡ request r
    → Asks cmd args r
is_get cmd (a ∷ []) r h e = let same : get a ≡ r = cc in subst (Asks cmd (a ∷ [])) same (refl, h)
is_get cmd [] r h e = cc
is_get cmd (a ∷ b ∷ args) r h e = cc

is_del :
    (cmd : Name) (args : List Name) (r : Request)
    → is_command cmd (codes "DEL") ≡ true
    → one_arg cmd args del ≡ request r
    → Asks cmd args r
is_del cmd (a ∷ []) r h e = let same : del a ≡ r = cc in subst (Asks cmd (a ∷ [])) same (refl, h)
is_del cmd [] r h e = cc
is_del cmd (a ∷ b ∷ args) r h e = cc

is_set :
    (cmd : Name) (args : List Name) (r : Request)
    → is_command cmd (codes "SET") ≡ true
    → two_args cmd args set ≡ request r
    → Asks cmd args r
is_set cmd (a ∷ b ∷ []) r h e =
    let same : set a b ≡ r = cc in subst (Asks cmd (a ∷ b ∷ [])) same (refl, h)
is_set cmd [] r h e = cc
is_set cmd (a ∷ []) r h e = cc
is_set cmd (a ∷ b ∷ c ∷ args) r h e = cc

-- The first true test of a chain.
when {ℓ} :
    {G : Type ℓ} (b : Bool) {x y z : Parsed}
    → (if b then x else y) ≡ z
    → (b ≡ true → x ≡ z → G)
    → (y ≡ z → G)
    → G
when true e f g = f refl e
when false e f g = g e

command-Asks :
    (cmd : Name) (args : List Name) (r : Request)
    → parse_command cmd args ≡ request r
    → Asks cmd args r
unfolding parse_command
command-Asks cmd args r e =
    when (is_command cmd (codes "PING")) e (λ h k. is_ping cmd args r h k)
      λ e₁.
        when (is_command cmd (codes "GET")) e₁ (λ h k. is_get cmd args r h k)
          λ e₂.
            when (is_command cmd (codes "SET")) e₂ (λ h k. is_set cmd args r h k)
              λ e₃. when (is_command cmd (codes "DEL")) e₃ (λ h k. is_del cmd args r h k) λ e₄. cc

asks_command :
    (cmd : Name) (r : Request)
    → to_ascii_uppercase cmd ≡ name_of r
    → parse_command cmd (args_of r) ≡ request r
unfolding parse_command is_command to_ascii_uppercase
asks_command cmd ping e = rw e refl
asks_command cmd (get k) e = rw e refl
asks_command cmd (set k v) e = rw e refl
asks_command cmd (del k) e = rw e refl

upper : (r : Request) → to_ascii_uppercase (name_of r) ≡ name_of r
unfolding to_ascii_uppercase
upper ping = refl
upper (get k) = refl
upper (set k v) = refl
upper (del k) = refl

tokens-Asks :
    (words : List Name) (r : Request)
    → parse_tokens words ≡ request r
    → (cmd : Name) × (words ≡ cmd ∷ args_of r) × (is_command cmd (name_of r) ≡ true)
tokens-Asks [] r e = cc
tokens-Asks (cmd ∷ args) r e =
    let (h, k) = command-Asks cmd args r e in (cmd, ap (λ l. cmd ∷ l) h, k)

-- A line parses to a request just where its words are the command of the request, in upper or lower
-- case, and its arguments, neither fewer nor more.
pub parse-iff-command :
    (line : List ℕ) (r : Request)
    → (parse line ≡ request r)
      ↔ ((cmd : Name) × (tokens line ≡ cmd ∷ args_of r) × (is_command cmd (name_of r) ≡ true))
unfolding parse is_command
parse-iff-command line r = (
  tokens-Asks (tokens line) r,
  λ (cmd, h, k).
      ap parse_tokens h
      ∙ asks_command cmd r
          (name_eq→eq (to_ascii_uppercase cmd) (to_ascii_uppercase (name_of r)) k ∙ upper r),
)
