-- ===== src/Http/Message/Read.antt =====
-- `read_line` and `read_request` of project-03-http-server.rs. A connection is the bytes that are to come, and
-- what a read gets behind them: the end of the stream, or a fault.
use Prim.Native.Nat.{◌%◌, ◌^◌}
use model_lib.Base.{
  ℕ, zero, suc, ◌+◌, Bool, true, false, ◌||◌, not, ◌&&◌, Option, none, some, List, [], ◌∷◌, length,
  drop, ltb, ◌==◌, if◌then◌else◌, Name, name_eq, codes,
}
use model_lib.Ferrite.Protocol.Defs.{is_utf8}
use model_lib.Ferrite.Codec.Defs.{take}
use model_lib.Http.Message.Defs.{
  Limits, Version, http10, http11, Headers, Request, header, split_once, split, starts_with,
  has_whitespace, is_empty, trim, parse_unsigned, Fault, other, ParseError, closed,
  headers_too_large, body_too_large, version_not_supported, io, bad_request, not_implemented,
}

pub record Stream : Type 0 where
  pub bytes : List ℕ
  pub fault : Option Fault

-- `Result<A, ParseError>` with the stream behind an `Ok`.
pub data Reads (A : Type 0) : Type 0 where
  good : A → Stream → Reads A
  bad : ParseError → Reads A

abbrev pub and_then : {A B : Type 0} → Reads A → (A → Stream → Reads B) → Reads B
and_then (good a s) f = f a s
and_then (bad e) f = bad e

-- `take(limit).read_until(b'\n')`: what was read, what is left, and whether it ended before the stream did.
abbrev pub Taken : Type 0
Taken = List ℕ × List ℕ × Bool

abbrev pub put_front : ℕ → Taken → Taken
put_front c (a, b, done) = (c ∷ a, b, done)

unfoldable pub read_until : ℕ → List ℕ → Taken
read_until zero bytes = ([], bytes, true)
read_until (suc n) [] = ([], [], false)
read_until (suc n) (c ∷ bytes) =
    let rest = put_front c (read_until n bytes) in if c == 10 then (c ∷ [], bytes, true) else rest

abbrev pub ends_line : List ℕ → Bool
ends_line [] = false
ends_line (c ∷ []) = c == 10
ends_line (c ∷ d ∷ buf) = ends_line (d ∷ buf)

-- The line ends at the back are popped off.
unfoldable pub pop_ends : List ℕ → List ℕ
pop_ends [] = []
pop_ends (c ∷ buf) =
    let rest = pop_ends buf in if ((c == 10) || (c == 13)) && is_empty rest then [] else c ∷ rest

-- The number of the bytes, and the line.
abbrev pub line_of : ℕ → List ℕ → Stream → Reads (ℕ × Name)
line_of limit buf rest =
    if ltb limit (length buf)
    then bad headers_too_large
    else if ltb 0 (length buf) && not (ends_line buf)
    then bad (bad_request (codes "unexpected end of request"))
    else good (length buf, pop_ends buf) rest

abbrev pub after_read : ℕ → Taken → Option Fault → Reads (ℕ × Name)
after_read limit (buf, rest, false) (some f) = bad (io f)
after_read limit (buf, rest, done) fault =
    line_of limit buf (record { bytes = rest; fault = fault })

-- The limit is a number of 64 bits, and one more wraps around, as in a build without overflow checks.
unfoldable pub read_line : ℕ → Stream → Reads (ℕ × Name)
unfolding read_until pop_ends
read_line limit s = after_read limit (read_until ((limit + 1) % 2 ^ 64) s.bytes) s.fault

abbrev pub malformed : {A : Type 0} → Reads A
malformed = bad (bad_request (codes "malformed request line"))

abbrev pub checked : Name → Name → Version → Stream → Reads (Name × Name × Version)
checked method target version s =
    if is_empty method || not (starts_with target (codes "/"))
    then malformed
    else good (method, target, version) s

abbrev pub request_parts : List Name → Stream → Reads (Name × Name × Version)
request_parts (method ∷ target ∷ version ∷ []) s =
    if name_eq version (codes "HTTP/1.1")
    then checked method target http11 s
    else if name_eq version (codes "HTTP/1.0")
    then checked method target http10 s
    else if starts_with version (codes "HTTP/")
    then bad version_not_supported
    else malformed
request_parts parts s = malformed

unfoldable pub request_line : ℕ × Name → Stream → Reads (Name × Name × Version)
unfolding starts_with split is_utf8 name_eq
request_line (n, line) s =
    if n == 0
    then bad closed
    else if is_utf8 [] line
    then request_parts (split 32 line) s
    else bad (bad_request (codes "request line is not UTF-8"))

abbrev pub named : Option (Name × Name) → Stream → Reads (Name × Name)
named none s = bad (bad_request (codes "header without ':'"))
named (some (name, value)) s =
    if is_empty name || has_whitespace name
    then bad (bad_request (codes "invalid header name"))
    else good (name, trim value) s

unfoldable pub header_line : Name → Stream → Reads (Name × Name)
unfolding split_once has_whitespace is_utf8
header_line line s =
    if is_utf8 [] line
    then named (split_once 58 line) s
    else bad (bad_request (codes "header is not UTF-8"))

abbrev pub with_header : Name × Name → Reads Headers → Reads Headers
with_header h (good headers s) = good (h ∷ headers) s
with_header h (bad e) = bad e

abbrev pub header_step :
    Limits → ℕ → Bool → (ℕ → Stream → Reads Headers) → ℕ × Name → Stream → Reads Headers
header_step limits before has_room again (n, line) s =
    if n == 0
    then bad (bad_request (codes "unexpected end of headers"))
    else if is_empty line
    then good [] s
    else if not has_room || ltb limits.max_header_bytes (before + n)
    then bad headers_too_large
    else and_then (header_line line s) (λ h t. with_header h (again (before + n) t))

-- The loop over the headers: `room` more may come, behind lines of so many bytes.
unfoldable pub read_headers : Limits → ℕ → ℕ → Stream → Reads Headers
unfolding read_line header_line
read_headers limits zero before s =
    and_then (read_line limits.max_line s)
      (header_step limits before false (λ n t. bad headers_too_large))
read_headers limits (suc room) before s =
    and_then (read_line limits.max_line s)
      (header_step limits before true (read_headers limits room))

abbrev pub with_body : Request → List ℕ → Request
with_body req body = record req { body = body }

abbrev pub fault_of : Option Fault → Fault
fault_of none = other
fault_of (some f) = f

-- `read_exact`
abbrev pub sized : Limits → Request → Option ℕ → Stream → Reads Request
sized limits req none s = bad (bad_request (codes "invalid Content-Length"))
sized limits req (some len) s =
    if ltb limits.max_body len
    then bad body_too_large
    else if ltb (length s.bytes) len
    then bad (io (fault_of s.fault))
    else good (with_body req (take len s.bytes)) (record s { bytes = drop len s.bytes })

abbrev pub with_length : Limits → Request → Option Name → Stream → Reads Request
with_length limits req none s = good req s
with_length limits req (some len) s = sized limits req (parse_unsigned len) s

abbrev pub with_coding : Limits → Request → Option Name → Stream → Reads Request
with_coding limits req (some coding) s =
    bad (not_implemented (codes "chunked request bodies are not supported"))
with_coding limits req none s = with_length limits req (header req (codes "content-length")) s

abbrev pub assembled : Name × Name × Version → Headers → Request
assembled (method, target, version) headers = record {
  method = method;
  target = target;
  version = version;
  headers = headers;
  body = [];
}

unfoldable pub read_body : Limits → Request → Stream → Reads Request
read_body limits req s = with_coding limits req (header req (codes "transfer-encoding")) s

unfoldable pub read_request : Limits → Stream → Reads Request
unfolding request_line read_headers read_body read_line
read_request limits s = and_then (read_line limits.max_line s) (λ l t.
    and_then (request_line l t) (λ first u.
      and_then (read_headers limits limits.max_headers 0 u)
        (λ headers v. read_body limits (assembled first headers) v)))
