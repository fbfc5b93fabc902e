-- ===== src/Http/Server/Defs.antt =====
-- `route` and `handle_connection` of project-03-http-server.rs. A connection is what the client sends, with
-- what a read gets behind it, and whether each write succeeds.
use model_lib.Base.{
  ℕ, zero, suc, Bool, true, false, ◌&&◌, ◌||◌, not, Option, none, some, List, [], ◌∷◌, ◌++◌, ltb,
  if◌then◌else◌, Name, name_eq, codes,
}
use model_lib.Http.Message.Defs.{
  Limits, default_limits, Request, keep_alive, path_and_query, split, split_once, parse_unsigned,
  timed_out, ParseError, io, Response, text_response, response, decimal_text,
}
use model_lib.Http.Message.Read.{Stream, Reads, good, bad, read_request}

-- The first part `name=value` of the query, if it has one.
abbrev pub value_if : Name → Option (Name × Name) → Option Name → Option Name
value_if name none later = later
value_if name (some (k, v)) later = if name_eq k name then some v else later

unfoldable pub param_in : Name → List Name → Option Name
unfolding split_once name_eq
param_in name [] = none
param_in name (kv ∷ parts) = value_if name (split_once 61 kv) (param_in name parts)

abbrev pub param : Name → Option Name → Option Name
param name none = none
param name (some query) = param_in name (split 38 query)

abbrev pub or_else : {A : Type 0} → A → Option A → A
or_else a none = a
or_else a (some b) = b

abbrev pub parsed : Option Name → Option ℕ
parsed none = none
parsed (some v) = parse_unsigned v

abbrev pub minimum : ℕ → ℕ → ℕ
minimum a b = if ltb a b then a else b

abbrev pub slept : ℕ → Response
slept ms = text_response 200 (codes "OK") (codes "slept " ++ (decimal_text ms ++ codes " ms"))

abbrev pub is_route : Name → Bool
is_route path =
    name_eq path (codes "/health")
    || name_eq path (codes "/hello")
    || name_eq path (codes "/echo")
    || name_eq path (codes "/slow")
    || name_eq path (codes "/panic")

-- The routes, where a panic is none. What `/slow` waits for is left out.
unfoldable pub route_to : Name → Name → Option Name → List ℕ → Option Response
unfolding name_eq param_in
route_to method path query body =
    if name_eq method (codes "GET") && name_eq path (codes "/health")
    then some (text_response 200 (codes "OK") (codes "ok"))
    else if name_eq method (codes "GET") && name_eq path (codes "/hello")
    then some (
        text_response 200 (codes "OK")
          (codes "hello, " ++ or_else (codes "world") (param (codes "name") query)))
    else if name_eq method (codes "POST") && name_eq path (codes "/echo")
    then some (record { status = 200; reason = codes "OK"; body = body })
    else if name_eq method (codes "GET") && name_eq path (codes "/slow")
    then some (slept (minimum (or_else 100 (parsed (param (codes "ms") query))) 5000))
    else if name_eq method (codes "GET") && name_eq path (codes "/panic")
    then none
    else if is_route path
    then some (text_response 405 (codes "Method Not Allowed") (codes "method not allowed"))
    else some (text_response 404 (codes "Not Found") (codes "not found"))

abbrev pub route_at : Request → Name × Option Name → Option Response
route_at req (path, query) = route_to req.method path query req.body

abbrev pub route : Request → Option Response
route req = route_at req (path_and_query req)

-- `catch_unwind`: a panic of the handler becomes a response.
abbrev pub caught : Option Response → Response
caught r = or_else (text_response 500 (codes "Internal Server Error") (codes "internal error")) r

-- The responses that were written, or whose write was tried last, with whether they keep the connection,
-- and what was counted.
pub record Handled : Type 0 where
  pub responses : List (Response × Bool)
  pub idle_timeouts : ℕ

abbrev pub nothing : Handled
nothing = record { responses = []; idle_timeouts = 0 }

abbrev pub timeouts_of : ParseError → ℕ
timeouts_of (io timed_out) = 1
timeouts_of e = 0

abbrev pub last_words : Option Response → List (Response × Bool)
last_words none = []
last_words (some r) = (r, false) ∷ []

abbrev pub refused : ParseError → Handled
refused e = record { responses = last_words (response e); idle_timeouts = timeouts_of e }

abbrev pub answered : Response → Bool → Handled → Handled
answered r keep later = record later { responses = (r, keep) ∷ later.responses }

-- A request that was read, with the rest of the loop behind it.
abbrev pub answer : Bool → Bool → Request → Handled → Handled
answer more write_ok req later =
    let keep = keep_alive req && more in
    answered (caught (route req)) keep (if not write_ok || not keep then nothing else later)

abbrev pub is_more : ℕ → Bool
is_more zero = false
is_more (suc n) = true

abbrev pub on_read : Bool → Bool → Reads Request → (Stream → Handled) → Handled
on_read more write_ok (bad e) later = refused e
on_read more write_ok (good req rest) later = answer more write_ok req (later rest)

-- The loop with so many requests to come; the n-th write succeeds where `writes` says so.
unfoldable pub handle_loop : Limits → ℕ → ℕ → (ℕ → Bool) → Stream → Handled
unfolding read_request
handle_loop limits zero n writes s = nothing
handle_loop limits (suc left) n writes s =
    on_read (is_more left) (writes n) (read_request limits s)
      (handle_loop limits left (suc n) writes)

unfoldable pub handle_connection : ℕ → (ℕ → Bool) → Stream → Handled
unfolding handle_loop
handle_connection max_requests writes s = handle_loop default_limits max_requests 0 writes s
