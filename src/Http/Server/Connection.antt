-- ===== src/Http/Server/Connection.antt =====
-- A connection of project-03-http-server.rs: how many responses it gets, and when it ends.
use model_lib.Base.{
  ℕ, zero, suc, ◌≤◌, Bool, true, false, ◌&&◌, ◌||◌, not, List, [], ◌∷◌, length, if◌then◌else◌,
  arith, Option, none, some,
}
use model_lib.Http.Message.Defs.{Limits, default_limits, Request, keep_alive, Response, response}
use model_lib.Http.Message.Read.{Stream, Reads, good, bad, read_request}
use model_lib.Http.Server.Defs.{
  route, caught, Handled, nothing, last_words, answered, on_read, is_more, handle_loop,
  handle_connection,
}

-- At most so many responses, of which only the last can say that the connection closes, and says so where
-- there are as many as that.
pub data Polite : ℕ → List (Response × Bool) → Type 0 where
  silent : (n : ℕ) → Polite n []
  says_close : (n : ℕ) (r : Response) → Polite (suc n) ((r, false) ∷ [])
  cut_off : (n : ℕ) (r : Response) → Polite (suc (suc n)) ((r, true) ∷ [])
  keeps :
      (n : ℕ) (r : Response) (rs : List (Response × Bool))
      → Polite (suc n) rs
      → Polite (suc (suc n)) ((r, true) ∷ rs)

refused-Polite : (n : ℕ) (o : Option Response) → Polite (suc n) (last_words o)
refused-Polite n none = silent (suc n)
refused-Polite n (some r) = says_close n r

answered-Polite :
    (left : ℕ) (write_ok keep : Bool) (r : Response) (later : Handled)
    → Polite left later.responses
    → Polite
        (suc left)
        (answered r
          (keep && is_more left)
          (if not write_ok || not (keep && is_more left) then nothing else later)).responses
answered-Polite zero true true r later k = says_close zero r
answered-Polite zero true false r later k = says_close zero r
answered-Polite zero false true r later k = says_close zero r
answered-Polite zero false false r later k = says_close zero r
answered-Polite (suc n) true true r later k = keeps n r later.responses k
answered-Polite (suc n) false true r later k = cut_off n r
answered-Polite (suc n) true false r later k = says_close (suc n) r
answered-Polite (suc n) false false r later k = says_close (suc n) r

on_read-Polite :
    (left : ℕ) (write_ok : Bool) (r : Reads Request) (later : Stream → Handled)
    → ((rest : Stream) → Polite left (later rest).responses)
    → Polite (suc left) (on_read (is_more left) write_ok r later).responses
on_read-Polite left write_ok (bad e) later k = refused-Polite left (response e)
on_read-Polite left write_ok (good req rest) later k =
    answered-Polite left write_ok (keep_alive req) (caught (route req)) (later rest) (k rest)

handle_loop-Polite :
    (limits : Limits) (left n : ℕ) (writes : ℕ → Bool) (s : Stream)
    → Polite left (handle_loop limits left n writes s).responses
unfolding handle_loop
handle_loop-Polite limits zero n writes s = silent zero
handle_loop-Polite limits (suc left) n writes s =
    on_read-Polite left (writes n) (read_request limits s) (handle_loop limits left (suc n) writes)
      (handle_loop-Polite limits left (suc n) writes)

Polite-length : (n : ℕ) (rs : List (Response × Bool)) → Polite n rs → length rs ≤ n
Polite-length _ _ (silent n) = omega arith
Polite-length _ _ (says_close n r) = omega arith
Polite-length _ _ (cut_off n r) = omega arith
Polite-length _ _ (keeps n r rs k) = omega (arith, Polite-length (suc n) rs k)

-- Whatever a client sends, whichever of its requests make the handler panic, and whichever writes fail, a
-- connection gets a response for no more requests than the limit, and only the last one can say that the
-- connection closes, which it does where it is the last one that the limit allows.
pub handle_connection-Polite :
    (max_requests : ℕ) (writes : ℕ → Bool) (s : Stream)
    → Polite max_requests (handle_connection max_requests writes s).responses
      × (length (handle_connection max_requests writes s).responses ≤ max_requests)
unfolding handle_connection
handle_connection-Polite max_requests writes s =
    let k = handle_loop-Polite default_limits max_requests 0 writes s in
    (k, Polite-length max_requests _ k)
