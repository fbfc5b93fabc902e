-- ===== src/Ferrite/Server/Counters.antt =====
-- The counters of a connection of project-05-ferrite-v2.rs, whatever happens to it.
use mathlib.Core.Path.{subst}
use model_lib.Base.{ℕ, suc, ◌+◌, ◌≡◌, refl, sym, ap, ◌∙◌, Bool, Option, some, List, [], ◌∷◌, arith}
use model_lib.Ferrite.Codec.Defs.{Memchr}
use model_lib.Ferrite.Store.Contract.{KvStore}
use model_lib.Ferrite.Protocol.Defs.{Response}
use model_lib.Ferrite.Protocol.Refines.{handle_line-Does}
use model_lib.Ferrite.Server.Defs.{
  Config, Stats, is_waiting, FramedWrite, Closed, Out, by_client, idle, slow_reader, too_long,
  shutdown, Wrote, wrote, write_error, write_elapsed, Event, send_now, stop, idle_elapsed, eof,
  io_error, frame_too_long, request_line, Conn, Turn, goes_on, closes, count, after_write, counted,
  on_reply, turn, on_turn, serve,
}

abbrev pub with_requests : ℕ → Stats → Stats
with_requests n st = record st { requests = n }

-- An event that closes a connection, the requests that it counts, and the reason.
pub data Ends : Event → ℕ → Closed → Type 0 where
  by_stop : {o : Wrote} → Ends (stop o) 0 shutdown
  by_idle : Ends idle_elapsed 0 idle
  by_eof : Ends eof 0 by_client
  by_error : Ends io_error 0 by_client
  by_length : {o : Wrote} → Ends (frame_too_long o) 0 too_long
  by_failure : {l b : List ℕ} {left : Out} → Ends (request_line l b (write_error left)) 1 by_client
  by_delay :
      {l b : List ℕ} {left : Out} → Ends (request_line l b (write_elapsed left)) 1 slow_reader

-- The events are lines whose replies were written, so many.
pub data Serves : List Event → ℕ → Type 0 where
  none_left : Serves [] 0
  one_served :
      {l b : List ℕ} {es : List Event} {n : ℕ}
      → Serves es n
      → Serves (request_line l b wrote ∷ es) (suc n)

-- The first event that is not such a line closes the connection, with the requests counted so far.
pub data Closes : List Event → ℕ → Closed → Type 0 where
  now : {e : Event} {es : List Event} {n : ℕ} {why : Closed} → Ends e n why → Closes (e ∷ es) n why
  behind_one :
      {l b : List ℕ} {es : List Event} {n : ℕ} {why : Closed}
      → Closes es n why
      → Closes (request_line l b wrote ∷ es) (suc n) why

-- The counters with that of the reason one higher.
abbrev pub tallied : Closed → Stats → Stats
tallied by_client st = record {
  requests = st.requests;
  closed_by_client = st.closed_by_client + 1;
  closed_idle = st.closed_idle;
  closed_slow_reader = st.closed_slow_reader;
  closed_line_too_long = st.closed_line_too_long;
  closed_shutdown = st.closed_shutdown;
}
tallied idle st = record {
  requests = st.requests;
  closed_by_client = st.closed_by_client;
  closed_idle = st.closed_idle + 1;
  closed_slow_reader = st.closed_slow_reader;
  closed_line_too_long = st.closed_line_too_long;
  closed_shutdown = st.closed_shutdown;
}
tallied slow_reader st = record {
  requests = st.requests;
  closed_by_client = st.closed_by_client;
  closed_idle = st.closed_idle;
  closed_slow_reader = st.closed_slow_reader + 1;
  closed_line_too_long = st.closed_line_too_long;
  closed_shutdown = st.closed_shutdown;
}
tallied too_long st = record {
  requests = st.requests;
  closed_by_client = st.closed_by_client;
  closed_idle = st.closed_idle;
  closed_slow_reader = st.closed_slow_reader;
  closed_line_too_long = st.closed_line_too_long + 1;
  closed_shutdown = st.closed_shutdown;
}
tallied shutdown st = record {
  requests = st.requests;
  closed_by_client = st.closed_by_client;
  closed_idle = st.closed_idle;
  closed_slow_reader = st.closed_slow_reader;
  closed_line_too_long = st.closed_line_too_long;
  closed_shutdown = st.closed_shutdown + 1;
}

count-tallied : (why : Closed) (st : Stats) → count why st ≡ tallied why st
count-tallied by_client st = refl
count-tallied idle st = refl
count-tallied slow_reader st = refl
count-tallied too_long st = refl
count-tallied shutdown st = refl

-- An open connection has served every event, and changed the counter of its requests only; a closed one was closed
-- by the first event that it did not serve, and has one closing counter higher, that of the reason.
abbrev pub IsCounted : {S : Type 0} → List Event → Conn S → Turn S → Type 0
IsCounted es c (goes_on d) =
    (n : ℕ) × Serves es n × (d.stats ≡ with_requests (n + c.stats.requests) c.stats)
IsCounted es c (closes why d) =
    (n : ℕ) × Closes es n why
    × (d.stats ≡ tallied why (with_requests (n + c.stats.requests) c.stats))

same : (st : Stats) → st ≡ with_requests (0 + st.requests) st
same st = ap (λ n. with_requests n st) (omega arith)

-- The counters behind one more turn.
grown :
    (n : ℕ) (st su : Stats)
    → su ≡ with_requests (1 + st.requests) st
    → with_requests (n + su.requests) su ≡ with_requests (suc n + st.requests) st
grown n st su e =
    ap (λ x. with_requests (n + x.requests) x) e ∙ ap (λ m. with_requests m st) (omega arith)

module _ {S : Type 0} ⦃kv : KvStore S⦄ (find : Memchr) (w : FramedWrite) (config : Config) where
  -- A turn over a valid store goes on over a valid store with one request more, or closes for the reason of
  -- its event, with the counters not yet raised.
  data Turned (c : Conn S) : Event → Turn S → Type 0 where
    on :
        {e : Event} {d : Conn S} (l b : List ℕ)
        → e ≡ request_line l b wrote
        → kv.IsValid d.store
        → d.stats ≡ with_requests (1 + c.stats.requests) c.stats
        → Turned c e (goes_on d)
    off :
        {e : Event} {why : Closed} {d : Conn S} (n : ℕ)
        → Ends e n why
        → d.stats ≡ with_requests (n + c.stats.requests) c.stats
        → Turned c e (closes why d)

  send_now-stats :
      (r : Response) (o : Wrote) (c : Conn S) → (send_now find w config r o c).stats ≡ c.stats
  send_now-stats r wrote c = refl
  send_now-stats r (write_error left) c = refl
  send_now-stats r (write_elapsed left) c = refl

  after_write-Turned :
      (l buffered : List ℕ) (o : Wrote) (r : Response) (b : Bool) (s : S) (c : Conn S)
      → kv.IsValid s
      → Turned c
          (request_line l buffered o)
          (after_write find w config o r b (counted find w config s c))
  after_write-Turned l buffered wrote r b s c v =
      on l buffered refl v (ap (λ n. with_requests n c.stats) (omega arith))
  after_write-Turned l buffered (write_error left) r b s c v =
      off 1 by_failure (ap (λ n. with_requests n c.stats) (omega arith))
  after_write-Turned l buffered (write_elapsed left) r b s c v =
      off 1 by_delay (ap (λ n. with_requests n c.stats) (omega arith))

  turn-Turned :
      (e : Event) (c : Conn S)
      → kv.IsValid c.store
      → (t : Turn S) × (turn find w config e c ≡ some t) × Turned c e t
  unfolding turn
  turn-Turned (stop o) c v = (_, refl, off 0 by_stop (send_now-stats _ o c ∙ same c.stats))
  turn-Turned idle_elapsed c v = (_, refl, off 0 by_idle (same c.stats))
  turn-Turned eof c v = (_, refl, off 0 by_eof (same c.stats))
  turn-Turned io_error c v = (_, refl, off 0 by_error (same c.stats))
  turn-Turned (frame_too_long o) c v =
      (_, refl, off 0 by_length (send_now-stats _ o c ∙ same c.stats))
  turn-Turned (request_line l b o) c v =
      let k = handle_line-Does l c.store v in
      (
        _,
        ap (λ r. on_reply find w config r (is_waiting find b) o c) k.returns,
        after_write-Turned l b o _ (is_waiting find b) k.state c k.valid,
      )

  later-IsCounted :
      (l b : List ℕ) (es : List Event) (c d : Conn S) (t : Turn S)
      → d.stats ≡ with_requests (1 + c.stats.requests) c.stats
      → IsCounted es d t
      → IsCounted (request_line l b wrote ∷ es) c t
  later-IsCounted l b es c d (goes_on x) p (n, h, q) =
      (suc n, one_served h, q ∙ grown n c.stats d.stats p)
  later-IsCounted l b es c d (closes why x) p (n, h, q) =
      (suc n, behind_one h, q ∙ ap (tallied why) (grown n c.stats d.stats p))

  abbrev Counts : List Event → Conn S → Option (Turn S) → Type 0
  Counts es c o = (t : Turn S) × (o ≡ some t) × IsCounted es c t

  on_turn-Counts :
      (e : Event) (es : List Event) (c : Conn S) (t : Turn S) (again : Conn S → Option (Turn S))
      → Turned c e t
      → ((d : Conn S) → kv.IsValid d.store → Counts es d (again d))
      → Counts (e ∷ es) c (on_turn find w config (some t) again)
  on_turn-Counts e es c (goes_on d) again (on l b served v p) k =
      let (t, q, r) = k d v in
      (t, q, subst (λ e. IsCounted (e ∷ es) c t) (sym served) (later-IsCounted l b es c d t p r))
  on_turn-Counts e es c (closes why d) again (off n h p) k =
      (_, refl, (n, now h, count-tallied why d.stats ∙ ap (tallied why) p))

  -- A connection over a valid store never panics, whatever events come in. It stays open just while every event
  -- is a line whose reply is written, with these counted as requests and nothing else; the first other event
  -- closes it, with one closing counter higher: of its client for the end of the stream and a read or a write
  -- that fails, of idleness for the timeout of a read, of a slow reader for that of a write, of the length for
  -- a line that is too long, and of the shutdown.
  pub serve-IsCounted :
      (es : List Event) (c : Conn S)
      → kv.IsValid c.store
      → (t : Turn S) × (serve find w config es c ≡ some t) × IsCounted es c t
  unfolding serve
  serve-IsCounted [] c v = (_, refl, (0, none_left, same c.stats))
  serve-IsCounted (e ∷ es) c v =
      let (t, q, u) = turn-Turned e c v in
      rw (q, serve) (on_turn-Counts e es c t (serve find w config es) u (serve-IsCounted es))
