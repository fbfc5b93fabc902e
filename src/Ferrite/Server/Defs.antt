-- ===== src/Ferrite/Server/Defs.antt =====
-- `serve` of project-05-ferrite-v2.rs, a turn of its loop at a time. What the loop waits for, and how a
-- write ends, are events of the environment.
use model_lib.Base.{
  ℕ, zero, suc, ◌+◌, ◌/◌, ◌%◌, ◌≡◌, Bool, true, false, Option, none, some, List, [], ◌∷◌, ◌++◌, ltb,
  if◌then◌else◌, codes, Name,
}
use model_lib.Ferrite.Store.Contract.{KvStore}
use model_lib.Ferrite.Codec.Defs.{Memchr}
use model_lib.Ferrite.Protocol.Defs.{
  Response, error, shutting_down, line_too_long, handle_line, encode,
}

pub record Config : Type 0 where
  pub max_connections : ℕ
  pub max_line : ℕ
  pub max_unflushed : ℕ

-- The counters of `Stats` that a connection changes.
pub record Stats : Type 0 where
  pub requests : ℕ
  pub closed_by_client : ℕ
  pub closed_idle : ℕ
  pub closed_slow_reader : ℕ
  pub closed_line_too_long : ℕ
  pub closed_shutdown : ℕ

-- `FramedWrite` of tokio-util with its backpressure boundary: the bytes that the kernel has, and those
-- that wait in the buffer.
pub record Out : Type 0 where
  pub sent : List ℕ
  pub buffered : List ℕ

abbrev pub written_to : Out → List ℕ
written_to o = o.sent ++ o.buffered

pub record FramedWrite : Type 0 where
  pub feed : ℕ → Response → Out → Out
  pub flush : Out → Out
  pub feed_writes :
      (boundary : ℕ) (r : Response) (o : Out)
      → written_to (feed boundary r o) ≡ written_to o ++ encode r
  pub flush_sends : (o : Out) → flush o ≡ record { sent = written_to o; buffered = [] }

pub data Closed : Type 0 where
  by_client idle slow_reader too_long shutdown : Closed

-- How `timeout(write_timeout, ..)` ends; a write that fails leaves what it leaves.
pub data Wrote : Type 0 where
  wrote : Wrote
  write_error write_elapsed : Out → Wrote

-- What a turn gets: shutdown, the idle timeout, the end of the stream, an error of the frame, or a line
-- and what the read buffer holds behind it.
pub data Event : Type 0 where
  stop : Wrote → Event
  idle_elapsed eof io_error : Event
  frame_too_long : Wrote → Event
  request_line : List ℕ → List ℕ → Wrote → Event

pub record Conn (S : Type 0) : Type 0 where
  pub store : S
  pub stats : Stats
  pub out : Out

pub data Turn (S : Type 0) : Type 0 where
  goes_on : Conn S → Turn S
  closes : Closed → Conn S → Turn S

-- A number in decimal digits.
unfoldable pub digits : ℕ → ℕ → List ℕ
digits zero n = []
digits (suc f) n =
    let before = digits f (n / 10) in
    if ltb n 10 then (48 + n) ∷ [] else before ++ (48 + n % 10) ∷ []

abbrev pub too_long_detail : Config → Name
too_long_detail config =
    codes "request longer than " ++ (digits (config.max_line + 1) config.max_line ++ codes " bytes")

abbrev pub count : Closed → Stats → Stats
count by_client st = record st { closed_by_client = st.closed_by_client + 1 }
count idle st = record st { closed_idle = st.closed_idle + 1 }
count slow_reader st = record st { closed_slow_reader = st.closed_slow_reader + 1 }
count too_long st = record st { closed_line_too_long = st.closed_line_too_long + 1 }
count shutdown st = record st { closed_shutdown = st.closed_shutdown + 1 }

module _ (w : FramedWrite) (config : Config) where
  -- `feed`, and `flush` unless another line is buffered.
  abbrev pub reply_to : Response → Bool → Out → Out
  reply_to r true o = w.feed config.max_unflushed r o
  reply_to r false o = w.flush (w.feed config.max_unflushed r o)

abbrev pub is_waiting : Memchr → List ℕ → Bool
is_waiting find buffer = elim (find.memchr 10 buffer) [ none ↦ false | some i ↦ true ]

module _ {S : Type 0} ⦃kv : KvStore S⦄ (find : Memchr) (w : FramedWrite) (config : Config) where
  -- `replies.send`, if it comes to its end in time.
  abbrev pub send_now : Response → Wrote → Conn S → Conn S
  send_now r wrote c = record c { out = w.flush (w.feed config.max_unflushed r c.out) }
  send_now r (write_error left) c = record c { out = left }
  send_now r (write_elapsed left) c = record c { out = left }

  abbrev pub after_write : Wrote → Response → Bool → Conn S → Turn S
  after_write wrote r more_waiting c =
      goes_on (record c { out = reply_to w config r more_waiting c.out })
  after_write (write_error left) r more_waiting c = closes by_client (record c { out = left })
  after_write (write_elapsed left) r more_waiting c = closes slow_reader (record c { out = left })

  abbrev pub counted : S → Conn S → Conn S
  counted s c = record c { store = s; stats = record (c.stats) { requests = c.stats.requests + 1 } }

  abbrev pub on_reply : Option (Response × S) → Bool → Wrote → Conn S → Option (Turn S)
  on_reply none more_waiting o c = none
  on_reply (some (r, s)) more_waiting o c = some (after_write o r more_waiting (counted s c))

  unfoldable pub turn : Event → Conn S → Option (Turn S)
  turn (stop o) c =
      some (closes shutdown (send_now (error shutting_down (codes "server is shutting down")) o c))
  turn idle_elapsed c = some (closes idle c)
  turn eof c = some (closes by_client c)
  turn io_error c = some (closes by_client c)
  turn (frame_too_long o) c =
      some (closes too_long (send_now (error line_too_long (too_long_detail config)) o c))
  turn (request_line line buffer o) c =
      on_reply (handle_line line c.store) (is_waiting find buffer) o c

  -- The loop over the events, and the counter of the reason behind it. A connection whose events are
  -- used up goes on.
  abbrev pub finish : Closed → Conn S → Conn S
  finish why c = record c { stats = count why c.stats }

  abbrev pub on_turn : Option (Turn S) → (Conn S → Option (Turn S)) → Option (Turn S)
  on_turn none again = none
  on_turn (some (goes_on c)) again = again c
  on_turn (some (closes why c)) again = some (closes why (finish why c))

  unfoldable pub serve : List Event → Conn S → Option (Turn S)
  serve [] c = some (goes_on c)
  serve (e ∷ events) c = on_turn (turn e c) (serve events)
