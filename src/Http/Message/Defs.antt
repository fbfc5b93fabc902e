-- ===== src/Http/Message/Defs.antt =====
-- The data of `mod http` in project-03-http-server.rs, and the texts of its requests and responses. A text is
-- its bytes; `trim` and `is_whitespace` are those of the standard library on UTF-8.
use model_lib.Base.{
  ℕ, zero, suc, ◌+◌, ◌-◌, ◌*◌, ◌^◌, Bool, true, false, ◌&&◌, ◌||◌, not, Option, none, some, List,
  [], ◌∷◌, ◌++◌, length, drop, ltb, ◌==◌, if◌then◌else◌, Name, codes,
}
use model_lib.Ferrite.Protocol.Defs.{between, is_command as eq_ignore_ascii_case}
use model_lib.Ferrite.Server.Defs.{digits}

pub record Limits : Type 0 where
  pub max_line : ℕ
  pub max_headers : ℕ
  pub max_header_bytes : ℕ
  pub max_body : ℕ

abbrev pub default_limits : Limits
default_limits = record {
  max_line = 8 * 1024;
  max_headers = 64;
  max_header_bytes = 16 * 1024;
  max_body = 1024 * 1024;
}

pub data Version : Type 0 where
  http10 http11 : Version

abbrev pub Headers : Type 0
Headers = List (Name × Name)

pub record Request : Type 0 where
  pub method : Name
  pub target : Name
  pub version : Version
  pub headers : Headers
  pub body : List ℕ

-- `eq_ignore_ascii_case` on the names; the first one counts.
abbrev pub header_in : Headers → Name → Option Name
header_in [] name = none
header_in ((n, v) ∷ headers) name =
    let rest = header_in headers name in if eq_ignore_ascii_case n name then some v else rest

abbrev pub header : Request → Name → Option Name
header req name = header_in req.headers name

abbrev pub is_value : Option Name → Name → Bool
is_value none name = false
is_value (some v) name = eq_ignore_ascii_case v name

-- The lower case of the value is compared with a text in lower case.
abbrev pub keep_alive_at : Version → Option Name → Bool
keep_alive_at http11 conn = not (is_value conn (codes "close"))
keep_alive_at http10 conn = is_value conn (codes "keep-alive")

abbrev pub keep_alive : Request → Bool
keep_alive req = keep_alive_at req.version (header req (codes "connection"))

-- `str::split_once` at an ASCII character.
abbrev pub put_before : ℕ → Option (Name × Name) → Option (Name × Name)
put_before c none = none
put_before c (some (a, b)) = some (c ∷ a, b)

unfoldable pub split_once : ℕ → Name → Option (Name × Name)
split_once sep [] = none
split_once sep (c ∷ text) =
    let rest = split_once sep text in if c == sep then some ([], text) else put_before c rest

abbrev pub path_of : Name → Option (Name × Name) → Name × Option Name
path_of target none = (target, none)
path_of target (some (p, q)) = (p, some q)

abbrev pub path_and_query : Request → Name × Option Name
path_and_query req = path_of req.target (split_once 63 req.target)

-- `str::split`: the parts between the separators.
abbrev pub onto_first : ℕ → List Name → List Name
onto_first c [] = (c ∷ []) ∷ []
onto_first c (p ∷ parts) = (c ∷ p) ∷ parts

unfoldable pub split : ℕ → Name → List Name
split sep [] = [] ∷ []
split sep (c ∷ text) =
    let parts = split sep text in if c == sep then [] ∷ parts else onto_first c parts

unfoldable pub starts_with : Name → Name → Bool
starts_with text [] = true
starts_with [] (c ∷ prefix) = false
starts_with (d ∷ text) (c ∷ prefix) = (d == c) && starts_with text prefix

-- The bytes of the white space at the front: none, or one character of `char::is_whitespace`.
abbrev pub blank_len : Name → ℕ
blank_len [] = 0
blank_len (a ∷ []) = if (a == 32) || between 9 13 a then 1 else 0
blank_len (a ∷ b ∷ []) =
    if (a == 32) || between 9 13 a
    then 1
    else if (a == 194) && ((b == 133) || (b == 160))
    then 2
    else 0
blank_len (a ∷ b ∷ c ∷ text) =
    if (a == 32) || between 9 13 a
    then 1
    else if (a == 194) && ((b == 133) || (b == 160))
    then 2
    else if (a == 225) && (b == 154) && (c == 128)
    then 3
    else if (a == 226) && (b == 128) && (between 128 138 c || between 168 169 c || (c == 175))
    then 3
    else if (a == 226) && (b == 129) && (c == 159)
    then 3
    else if (a == 227) && (b == 128) && (c == 128)
    then 3
    else 0

unfoldable pub has_whitespace : Name → Bool
has_whitespace [] = false
has_whitespace (c ∷ text) = ltb 0 (blank_len (c ∷ text)) || has_whitespace text

-- Each round drops a byte at least.
unfoldable pub trim_front : ℕ → Name → Name
trim_front zero text = text
trim_front (suc f) text =
    let rest = trim_front f (drop (blank_len text) text) in
    if blank_len text == 0 then text else rest

abbrev pub is_empty : {A : Type 0} → List A → Bool
is_empty [] = true
is_empty (x ∷ xs) = false

unfoldable pub trim_back : Name → Name
unfolding trim_front
trim_back [] = []
trim_back (c ∷ text) =
    let rest = trim_back text in
    if is_empty (trim_front (length (c ∷ text)) (c ∷ text)) then [] else c ∷ rest

abbrev pub trim : Name → Name
trim text = trim_back (trim_front (length text) text)

-- `str::parse` for an unsigned number of 64 bits.
unfoldable pub parse_digits : ℕ → Name → Option ℕ
parse_digits n [] = some n
parse_digits n (c ∷ text) =
    let m = n * 10 + (c - 48) in
    let rest = parse_digits m text in if between 48 57 c && ltb m (2 ^ 64) then rest else none

abbrev pub parse_unsigned : Name → Option ℕ
parse_unsigned [] = none
parse_unsigned (c ∷ text) =
    if c == 43
    then (if is_empty text then none else parse_digits 0 text)
    else parse_digits 0 (c ∷ text)

pub data Fault : Type 0 where
  timed_out other : Fault

pub data ParseError : Type 0 where
  closed headers_too_large body_too_large version_not_supported : ParseError
  io : Fault → ParseError
  bad_request not_implemented : Name → ParseError

pub record Response : Type 0 where
  pub status : ℕ
  pub reason : Name
  pub body : List ℕ

abbrev pub text_response : ℕ → Name → Name → Response
text_response status reason body = record {
  status = status;
  reason = reason;
  body = body ++ 10 ∷ [];
}

abbrev pub response : ParseError → Option Response
response closed = none
response (io f) = none
response (bad_request why) = some (text_response 400 (codes "Bad Request") why)
response headers_too_large =
    some (text_response 431 (codes "Request Header Fields Too Large") (codes "headers too large"))
response body_too_large =
    some (text_response 413 (codes "Content Too Large") (codes "body too large"))
response version_not_supported =
    some (text_response 505 (codes "HTTP Version Not Supported") (codes "HTTP/1.x only"))
response (not_implemented what) = some (text_response 501 (codes "Not Implemented") what)

abbrev pub crlf : Name
crlf = 13 ∷ 10 ∷ []

abbrev pub decimal_text : ℕ → Name
decimal_text n = digits (n + 1) n

-- The bytes of `write_to`.
unfoldable pub written : Response → Bool → List ℕ
unfolding digits
written r keep =
    codes "HTTP/1.1 "
    ++ (decimal_text r.status
        ++ (codes " "
            ++ (r.reason
                ++ (crlf
                    ++ (codes "Content-Type: text/plain"
                        ++ (crlf
                            ++ (codes "Content-Length: "
                                ++ (decimal_text (length r.body)
                                    ++ (crlf
                                        ++ (codes "Connection: "
                                            ++ ((if keep then codes "keep-alive" else codes "close")
                                                ++ (crlf ++ (crlf ++ r.body)))))))))))))
