-- ===== src/Http/Examples.antt =====
-- The theorems about project-03-http-server.rs at concrete inputs.
use model_lib.Base.{
  ℕ, ◌+◌, ◌≤◌, ◌≡◌, refl, true, false, none, List, [], ◌∷◌, ◌++◌, length, codes, Name, arith,
}
use model_lib.Http.Pool.Defs.{
  Pool, new, idle, try_submit, close, look, Work, looks, completes, panics, notifies_one,
  notifies_none, notifies_all, Reach, start, submits, closes, works,
}
use model_lib.Http.Pool.Invariant.{IsPool}
use model_lib.Http.Pool.Reached.{Reach-IsPool}
use model_lib.Http.Pool.Drain.{rank, none_taken, taken, Steps-rank, Reach-served, Reach-finished}
use model_lib.Http.Message.Defs.{default_limits, http11, trim_back, parse_digits, starts_with}
use model_lib.Http.Message.Read.{Stream, good, read_request}
use model_lib.Ferrite.Protocol.Defs.{is_utf8, is_command as eq_ignore_ascii_case}
use model_lib.Http.Message.Limits.{Ensures}
use model_lib.Http.Message.Whole.{IsAdmitted, read_request-IsAdmitted}
use model_lib.Http.Message.RoundTrip.{
  all_from, all_from-Without, IsPlain, rendered, plain_request, read_request-rendered,
}
use model_lib.Http.Server.Defs.{handle_connection, route_to}
use model_lib.Http.Server.Connection.{Polite, handle_connection-Polite}

-- One worker, an item, and a shutdown.
abbrev submitted : List ℕ
submitted = 7 ∷ []

abbrev open_pool : Pool ℕ
open_pool = idle 1

abbrev with_item : Pool ℕ
with_item = record open_pool { items = 7 ∷ []; notices = 1 }

abbrev at_item : Pool ℕ
at_item = (look 0 with_item).1

abbrev told : Pool ℕ
told = record at_item { notices = 0 }

abbrev handled : Pool ℕ
handled = record told { running = []; awake = 1; completed = 1 }

abbrev shut : Pool ℕ
shut = record (close handled) { notice_all = false; asleep = 0; awake = 1 }

abbrev returned : Pool ℕ
returned = (look 0 shut).1

with_item-Reach : Reach 1 2 submitted [] with_item
unfolding new try_submit
with_item-Reach = submits 7 with_item (start open_pool refl) refl

Reach-IsPool_example : IsPool 1 2 submitted [] with_item
Reach-IsPool_example = Reach-IsPool 1 2 submitted [] with_item with_item-Reach

returned-Reach : Reach 1 2 submitted submitted returned
returned-Reach =
    let a = works with_item-Reach (looks with_item 0 refl) in
    let b = works a (notifies_none at_item 0 refl refl) in
    let c = works b (completes told 7 [] [] refl) in
    works (works (closes c) (notifies_all (close handled) refl)) (looks shut 0 refl)

nil-cons : (before after : List ℕ) (x : ℕ) → [] ≡ before ++ x ∷ after → ⊥
nil-cons [] after x e = cc
nil-cons (y ∷ before) after x e = cc

returned_stuck : (zs : List ℕ) (t : Pool ℕ) → ¬ Work returned zs t
returned_stuck _ _ (looks s n e) = omega (arith, e)
returned_stuck _ _ (completes s item before after e) = nil-cons before after item e
returned_stuck _ _ (panics s item before after e) = nil-cons before after item e
returned_stuck _ _ (notifies_one s n m e d) = omega (arith, e)
returned_stuck _ _ (notifies_none s n e z) = omega (arith, e)
returned_stuck _ _ (notifies_all s e) = cc

Reach-served_example :
    (submitted ≡ submitted) × (returned.completed + returned.panicked ≡ length submitted)
Reach-served_example =
    Reach-served 1 2 submitted submitted returned (omega arith) returned-Reach returned_stuck

Reach-finished_example : returned.finished ≡ 1
Reach-finished_example =
    Reach-finished 1 2 submitted submitted returned returned-Reach refl returned_stuck

Steps-rank_example : 1 + rank returned ≤ rank shut
Steps-rank_example =
    Steps-rank 1 shut returned refl (taken [] (looks shut 0 refl) (none_taken returned))

abbrev line : Name → Name
line text = text ++ 13 ∷ 10 ∷ []

abbrev hello : Stream
hello = record {
  bytes =
      line (codes "POST /echo HTTP/1.1")
      ++ (line (codes "Content-Length: 2") ++ (line [] ++ codes "hi"));
  fault = none;
}

read_request-IsAdmitted_example :
    Ensures (IsAdmitted default_limits) (read_request default_limits hello)
read_request-IsAdmitted_example = read_request-IsAdmitted default_limits hello

handle_connection-Polite_example :
    Polite 3 (handle_connection 3 (λ n. true) hello).responses
    × (length (handle_connection 3 (λ n. true) hello).responses ≤ 3)
handle_connection-Polite_example = handle_connection-Polite 3 (λ n. true) hello

hello-parses :
    read_request default_limits hello
    ≡ good
        (record {
          method = codes "POST";
          target = codes "/echo";
          version = http11;
          headers = (codes "Content-Length", codes "2") ∷ [];
          body = codes "hi";
        })
        (record { bytes = []; fault = none })
unfolding read_request eq_ignore_ascii_case trim_back parse_digits
hello-parses = refl

hello_echoed :
    (handle_connection 3 (λ n. true) hello).responses
    ≡ (record { status = 200; reason = codes "OK"; body = codes "hi" }, true) ∷ []
unfolding handle_connection eq_ignore_ascii_case trim_back parse_digits route_to
hello_echoed = refl

plain : (w : Name) → all_from 33 w ≡ true → IsPlain w
plain w h = record {
  no_space = all_from-Without 33 32 w (omega arith) h;
  no_newline = all_from-Without 33 10 w (omega arith) h;
  no_return = all_from-Without 33 13 w (omega arith) h;
}

read_request-rendered_example :
    read_request default_limits
      (record { bytes = rendered (codes "GET") (codes "/health") (codes "x"); fault = none })
    ≡ good
        (plain_request (codes "GET") (codes "/health"))
        (record { bytes = codes "x"; fault = none })
unfolding starts_with is_utf8
read_request-rendered_example =
    read_request-rendered default_limits (codes "GET") (codes "/health") (codes "x") none
      (plain (codes "GET") refl) (plain (codes "/health") refl) refl refl refl (omega arith)
      (omega arith)
