-- ===== src/Http/Message/Whole.antt =====
-- Whole requests of project-03-http-server.rs.
use mathlib.Core.Path.{subst}
use model_lib.Base.{
  ℕ, zero, suc, ◌≤◌, ◌≡◌, refl, sym, ap, ◌∙◌, true, false, Option, none, some, List, [], ◌∷◌,
  length, ltb, Name, codes, arith,
}
use model_lib.Ferrite.Codec.Defs.{take}
use model_lib.Http.Message.Defs.{
  Limits, Version, Headers, Request, header, parse_unsigned, starts_with, is_empty,
}
use model_lib.Http.Message.Read.{
  Stream, Reads, good, bad, read_line, request_line, read_headers, with_body, sized, with_length,
  with_coding, assembled, read_body, read_request,
}
use model_lib.Http.Message.Limits.{
  Ensures, and_then-Ensures, anything, if-Ensures, IsFirst, AllHeaders, FitsIn,
  request_line-IsFirst, read_headers-FitsIn,
}

-- The body is as long as the header says, and empty without it.
pub data IsSized (body : List ℕ) : Option Name → Type 0 where
  unsaid : length body ≡ 0 → IsSized body none
  said : (len : Name) → parse_unsigned len ≡ some (length body) → IsSized body (some len)

pub record IsAdmitted (limits : Limits) (req : Request) : Type 0 where
  pub has_method : is_empty req.method ≡ false
  pub rooted : starts_with req.target (codes "/") ≡ true
  pub few_headers : length req.headers ≤ limits.max_headers
  pub named : AllHeaders req.headers
  pub not_chunked : header req (codes "transfer-encoding") ≡ none
  pub small_body : length req.body ≤ limits.max_body
  pub is_sized : IsSized req.body (header req (codes "content-length"))

length-take : (n : ℕ) (b : List ℕ) → n ≤ length b → length (take n b) ≡ n
length-take zero b h = refl
length-take (suc n) [] h = absurd (omega (arith, h))
length-take (suc n) (x ∷ b) h = omega (arith, length-take n b (omega (arith, h)))

-- What is left to show of a request with the body that it gets.
abbrev GetsBody : Limits → Headers → List ℕ → Option Name → Type 0
GetsBody limits headers body len = (length body ≤ limits.max_body) × IsSized body len

module _ (limits : Limits) (first : Name × Name × Version) (headers : Headers) where
  abbrev Bodied : Request → Type 0
  Bodied req =
      (body : List ℕ) × (req ≡ with_body (assembled first headers) body)
      × (length body ≤ limits.max_body)
      × IsSized body (header (assembled first headers) (codes "content-length"))

  sized-Bodied :
      (len : Name) (o : Option ℕ) (s : Stream)
      → header (assembled first headers) (codes "content-length") ≡ some len
      → parse_unsigned len ≡ o
      → Ensures Bodied (sized limits (assembled first headers) o s)
  sized-Bodied len none s h e = tt
  sized-Bodied len (some n) s h e = if-Ensures Bodied (ltb limits.max_body n) _ _ tt (λ p.
      if-Ensures Bodied (ltb (length s.bytes) n) _ _ tt (λ q.
        let l = length-take n s.bytes (ground (arith, q)) in
        (
          take n s.bytes,
          refl,
          ground (arith, p, l),
          subst (IsSized (take n s.bytes)) (sym h) (said len (e ∙ ap some (sym l))),
        )))

  length-Bodied :
      (o : Option Name) (s : Stream)
      → header (assembled first headers) (codes "content-length") ≡ o
      → Ensures Bodied (with_length limits (assembled first headers) o s)
  length-Bodied none s h = ([], refl, omega arith, subst (IsSized []) (sym h) (unsaid refl))
  length-Bodied (some len) s h = sized-Bodied len (parse_unsigned len) s h refl

  abbrev Whole : Request → Type 0
  Whole req = (header (assembled first headers) (codes "transfer-encoding") ≡ none) × Bodied req

  coding-Whole :
      (o : Option Name) (s : Stream)
      → header (assembled first headers) (codes "transfer-encoding") ≡ o
      → Ensures Whole (with_coding limits (assembled first headers) o s)
  coding-Whole (some coding) s h = tt
  coding-Whole none s h =
      weaken
        (with_length limits (assembled first headers)
          (header (assembled first headers) (codes "content-length")) s)
        (length-Bodied (header (assembled first headers) (codes "content-length")) s refl)
    where
      weaken : (r : Reads Request) → Ensures Bodied r → Ensures Whole r
      weaken (good req s) k = (h, k)
      weaken (bad e) k = tt

finished :
    (limits : Limits) (method target : Name) (v : Version) (headers : Headers) (req : Request)
    → IsFirst (method, target, v)
    → FitsIn limits.max_headers headers
    → Whole limits (method, target, v) headers req
    → IsAdmitted limits req
finished limits method target v headers req (m, t) (f, a) (c, (body, e, l, z)) =
    subst (IsAdmitted limits) (sym e) (record {
      has_method = m;
      rooted = t;
      few_headers = f;
      named = a;
      not_chunked = c;
      small_body = l;
      is_sized = z;
    })

body-IsAdmitted :
    (limits : Limits) (first : Name × Name × Version) (headers : Headers) (s : Stream)
    → IsFirst first
    → FitsIn limits.max_headers headers
    → Ensures (IsAdmitted limits) (read_body limits (assembled first headers) s)
unfolding read_body
body-IsAdmitted limits (m, t, v) headers s i f =
    weaken (read_body limits (assembled (m, t, v) headers) s) (
      coding-Whole limits (m, t, v) headers
        (header (assembled (m, t, v) headers) (codes "transfer-encoding")) s refl)
  where
    weaken :
        (r : Reads Request)
        → Ensures (Whole limits (m, t, v) headers) r
        → Ensures (IsAdmitted limits) r
    weaken (good req s) k = finished limits m t v headers req i f k
    weaken (bad e) k = tt

-- A request that `read_request` lets through has a method and a target that starts with a slash, no more
-- headers than the limit, each with a name that holds no white space, no transfer encoding, and a body within
-- the limit, as long as its header says and empty without one.
pub read_request-IsAdmitted :
    (limits : Limits) (s : Stream) → Ensures (IsAdmitted limits) (read_request limits s)
unfolding read_request
read_request-IsAdmitted limits s =
    let P = IsAdmitted limits in
    and_then-Ensures (λ l. Unit) P (read_line limits.max_line s) _
      (anything (read_line limits.max_line s))
      (λ l t i.
        and_then-Ensures IsFirst P (request_line l t) _ (request_line-IsFirst l t) (λ first u j.
          and_then-Ensures (FitsIn limits.max_headers) P
            (read_headers limits limits.max_headers 0 u) _
            (read_headers-FitsIn limits limits.max_headers 0 u)
            (λ headers v k. body-IsAdmitted limits first headers v j k)))
