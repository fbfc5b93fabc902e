-- ===== src/Http/Message/RoundTrip.antt =====
-- Requests of project-03-http-server.rs written out and read back.
use Prim.Native.Nat.{◌%◌, ◌^◌}
use model_lib.Base.{
  ℕ, zero, suc, ◌+◌, ◌≤◌, ◌<◌, ◌≡◌, ◌≢◌, refl, sym, ap, ◌∙◌, Bool, true, false, not, ◌||◌, ◌&&◌,
  Option, List, [], ◌∷◌, ◌++◌, append_assoc, length, length-append, ltb, leb, ◌==◌, name_eq, Name,
  codes, arith, if_false, if_true,
}
use model_lib.Ferrite.Codec.Defs.{Without}
use model_lib.Ferrite.Protocol.Defs.{is_utf8}
use model_lib.Http.Message.Defs.{
  Limits, http11, headers_too_large, Request, split, starts_with, is_empty, Fault,
}
use model_lib.Http.Message.Read.{
  Stream, good, bad, and_then, put_front, read_until, ends_line, pop_ends, after_read, read_line,
  request_parts, request_line, header_step, read_headers, read_body, assembled, read_request,
}

read_until-line :
    (n : ℕ) (l rest : List ℕ)
    → Without 10 l
    → length l < n
    → read_until n (l ++ 10 ∷ rest) ≡ (l ++ 10 ∷ [], rest, true)
unfolding read_until
read_until-line zero l rest w h = absurd (omega (arith, h))
read_until-line (suc n) [] rest w h = refl
read_until-line (suc n) (c ∷ l) rest (w, ws) h =
    let test : (c == 10) ≡ false = ground arith in
    if_false _ _ test ∙ ap (put_front c) (read_until-line n l rest ws (omega (arith, h)))

ends_line-newline : (l : List ℕ) → ends_line (l ++ 10 ∷ []) ≡ true
ends_line-newline [] = refl
ends_line-newline (c ∷ []) = refl
ends_line-newline (c ∷ d ∷ l) = ends_line-newline (d ∷ l)

pop_ends-line : (w : List ℕ) → Without 10 w → Without 13 w → pop_ends (w ++ 13 ∷ 10 ∷ []) ≡ w
unfolding pop_ends
pop_ends-line [] n r = refl
pop_ends-line (c ∷ w) (n, ns) (r, rs) =
    let p : (c == 10) ≡ false = ground arith in
    let q : (c == 13) ≡ false = ground arith in rw (p, q) (ap (λ l. c ∷ l) (pop_ends-line w ns rs))

Without-append : (c : ℕ) (a b : List ℕ) → Without c a → Without c b → Without c (a ++ b)
Without-append c [] b h k = k
Without-append c (x ∷ a) b (h, hs) k = (h, Without-append c a b hs k)

and_false : (b : Bool) → (b && false) ≡ false
and_false true = refl
and_false false = refl

-- A line that fits is read off the front.
read_line-line :
    (limit : ℕ) (w rest : List ℕ) (fault : Option Fault)
    → Without 10 w
    → Without 13 w
    → length w + 2 ≤ limit
    → limit + 1 < 2 ^ 64
    → read_line limit (record { bytes = w ++ 13 ∷ 10 ∷ rest; fault = fault })
      ≡ good (length w + 2, w) (record { bytes = rest; fault = fault })
unfolding read_line
read_line-line limit w rest fault n r h room =
    let whole_limit : (limit + 1) % 2 ^ 64 ≡ limit + 1 = omega (arith, room) in
    let buf = w ++ 13 ∷ 10 ∷ [] in
    let len : length buf ≡ length w + 2 = length-append w (13 ∷ 10 ∷ []) in
    let clean = Without-append 10 w (13 ∷ []) n ((λ e. ground arith), tt) in
    let short : length (w ++ 13 ∷ []) < limit + 1 = omega (arith, h, length-append w (13 ∷ [])) in
    let until : read_until (limit + 1) (w ++ 13 ∷ 10 ∷ rest) ≡ (buf, rest, true) =
      ap (read_until (limit + 1)) (sym (append_assoc w (13 ∷ []) (10 ∷ rest)))
      ∙ read_until-line (limit + 1) (w ++ 13 ∷ []) rest clean short
      ∙ ap (λ b. (b, rest, true)) (append_assoc w (13 ∷ []) (10 ∷ [])) in
    let ends : ends_line buf ≡ true =
      ap ends_line (sym (append_assoc w (13 ∷ []) (10 ∷ []))) ∙ ends_line-newline (w ++ 13 ∷ []) in
    let fits : ltb limit (length buf) ≡ false = ground (arith, h, len) in
    let whole : (ltb 0 (length buf) && not (ends_line buf)) ≡ false =
      rw ends (and_false (ltb 0 (length buf))) in
    let s : Stream = record { bytes = rest; fault = fault } in
    ap (λ l. after_read limit (read_until l (w ++ 13 ∷ 10 ∷ rest)) fault) whole_limit
    ∙ ap (λ t. after_read limit t fault) until
    ∙ if_false _ _ fits
    ∙ if_false _ _ whole
    ∙ ap (λ m. good (m, pop_ends buf) s) len
    ∙ ap (λ l. good (length w + 2, l) s) (pop_ends-line w n r)

split-part : (m rest : Name) → Without 32 m → split 32 (m ++ 32 ∷ rest) ≡ m ∷ split 32 rest
unfolding split
split-part [] rest w = refl
split-part (c ∷ m) rest (w, ws) =
    let test : (c == 32) ≡ false = ground arith in rw (test, split-part m rest ws) refl

abbrev pub all_from : ℕ → List ℕ → Bool
all_from n [] = true
all_from n (c ∷ w) = leb n c && all_from n w

pub all_from-Without : (n c : ℕ) (w : List ℕ) → c < n → all_from n w ≡ true → Without c w
all_from-Without n c [] h a = tt
all_from-Without n c (d ∷ w) h a =
    ((λ e. ground (arith, a)), all_from-Without n c w h (ground (arith, a)))

version_clean : (c : ℕ) → c < 32 → Without c (codes "HTTP/1.1")
version_clean c h = all_from-Without 32 c (codes "HTTP/1.1") h refl

-- A request line and the blank line behind it, as a client writes them.
abbrev pub first_line : Name → Name → Name
first_line method target = method ++ 32 ∷ (target ++ 32 ∷ codes "HTTP/1.1")

abbrev pub rendered : Name → Name → List ℕ → List ℕ
rendered method target rest = first_line method target ++ 13 ∷ 10 ∷ 13 ∷ 10 ∷ rest

-- A word of a request line.
pub record IsPlain (w : Name) : Type 0 where
  pub no_space : Without 32 w
  pub no_newline : Without 10 w
  pub no_return : Without 13 w

abbrev pub plain_request : Name → Name → Request
plain_request method target = record {
  method = method;
  target = target;
  version = http11;
  headers = [];
  body = [];
}

Without-first_line :
    (c : ℕ) (method target : Name)
    → c ≢ 32
    → Without c (codes "HTTP/1.1")
    → Without c method
    → Without c target
    → Without c (first_line method target)
Without-first_line c method target n v m t =
    let n' : 32 ≢ c = λ e. n (sym e) in
    Without-append c method _ m (n', Without-append c target _ t (n', v))

first_line-split :
    (method target : Name)
    → IsPlain method
    → IsPlain target
    → split 32 (first_line method target) ≡ method ∷ target ∷ codes "HTTP/1.1" ∷ []
unfolding split
first_line-split method target m t =
    split-part method (target ++ 32 ∷ codes "HTTP/1.1") m.no_space
    ∙ ap (λ l. method ∷ l) (split-part target (codes "HTTP/1.1") t.no_space)

request_line-first_line :
    (method target : Name) (n : ℕ) (s : Stream)
    → IsPlain method
    → IsPlain target
    → is_empty method ≡ false
    → starts_with target (codes "/") ≡ true
    → is_utf8 [] (first_line method target) ≡ true
    → request_line (suc n, first_line method target) s ≡ good (method, target, http11) s
unfolding request_line name_eq
request_line-first_line method target n s m t e r u =
    let some_bytes : (suc n == 0) ≡ false = ground arith in
    let test : (is_empty method || not (starts_with target (codes "/"))) ≡ false = rw (e, r) refl in
    if_false _ _ some_bytes
    ∙ if_true _ _ u
    ∙ ap (λ l. request_parts l s) (first_line-split method target m t)
    ∙ if_false _ _ test

blank-ends :
    (limits : Limits) (room : ℕ) (rest : List ℕ) (fault : Option Fault)
    → 2 ≤ limits.max_line
    → limits.max_line + 1 < 2 ^ 64
    → read_headers limits room 0 (record { bytes = 13 ∷ 10 ∷ rest; fault = fault })
      ≡ good [] (record { bytes = rest; fault = fault })
unfolding read_headers
blank-ends limits zero rest fault h b =
    ap (λ r. and_then r (header_step limits 0 false (λ n t. bad headers_too_large)))
      (read_line-line limits.max_line [] rest fault tt tt h b)
blank-ends limits (suc room) rest fault h b =
    ap (λ r. and_then r (header_step limits 0 true (read_headers limits room)))
      (read_line-line limits.max_line [] rest fault tt tt h b)

-- A request without headers, whose method and target are words, the target from a slash on, and whose line
-- is in UTF-8 and within the limit, which is below the largest number of 64 bits, is read off the front of a
-- connection as it was written, and what is behind it is left.
pub read_request-rendered :
    (limits : Limits) (method target : Name) (rest : List ℕ) (fault : Option Fault)
    → IsPlain method
    → IsPlain target
    → is_empty method ≡ false
    → starts_with target (codes "/") ≡ true
    → is_utf8 [] (first_line method target) ≡ true
    → length (first_line method target) + 2 ≤ limits.max_line
    → limits.max_line + 1 < 2 ^ 64
    → read_request limits (record { bytes = rendered method target rest; fault = fault })
      ≡ good (plain_request method target) (record { bytes = rest; fault = fault })
unfolding read_request read_body
read_request-rendered limits method target rest fault m t e r u h b =
    let line = first_line method target in
    let u₁ : Stream = record { bytes = 13 ∷ 10 ∷ rest; fault = fault } in
    let clean =
      Without-first_line 10 method target (λ e. ground arith) (version_clean 10 (omega arith))
        m.no_newline t.no_newline in
    let round =
      Without-first_line 13 method target (λ e. ground arith) (version_clean 13 (omega arith))
        m.no_return t.no_return in
    ap
      (λ l. and_then l (λ l t. and_then (request_line l t) (λ first u.
        and_then (read_headers limits limits.max_headers 0 u)
          (λ headers v. read_body limits (assembled first headers) v))))
      (read_line-line limits.max_line line (13 ∷ 10 ∷ rest) fault clean round h b
        ∙ ap (λ n. good (n, line) u₁) (omega arith))
    ∙ ap
        (λ l. and_then l (λ first u.
          and_then (read_headers limits limits.max_headers 0 u)
            (λ headers v. read_body limits (assembled first headers) v)))
        (request_line-first_line method target (length line + 1) u₁ m t e r u)
    ∙ ap
        (λ l.
          and_then l (λ headers v. read_body limits (assembled (method, target, http11) headers) v))
        (blank-ends limits limits.max_headers rest fault (omega (arith, h)) b)
