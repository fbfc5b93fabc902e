-- ===== src/Ferrite/Server/Serve.antt =====
-- A connection of project-05-ferrite-v2.rs whose writes succeed: its replies in order, and its flushes.
use mathlib.Core.Option.{some-injective, none-ne-some}
use model_lib.Base.{
  ℕ, zero, suc, ◌+◌, ◌≡◌, refl, sym, ap, ◌∙◌, Bool, true, false, some, ◌≢◌, inl, inr, Option-cases,
  get_elem?, List, [], ◌∷◌, ◌++◌, append_assoc, append-nil, length, arith,
}
use model_lib.Ferrite.Codec.Defs.{Memchr, Without}
use model_lib.Ferrite.Store.Contract.{KvStore}
use model_lib.Ferrite.Protocol.Defs.{Response, encode}
use model_lib.Ferrite.Protocol.Refines.{View, model_line, model_lines, handle_line-Does}
use model_lib.Ferrite.Server.Defs.{
  Config, Out, is_waiting, written_to, FramedWrite, wrote, Event, request_line, Conn, goes_on,
  reply_to, counted, turn, serve,
}

-- The lines that come in, each with what the read buffer holds behind it.
abbrev pub Lines : Type 0
Lines = List (List ℕ × List ℕ)

abbrev pub events_of : Lines → List Event
events_of [] = []
events_of ((l, buffer) ∷ ls) = request_line l buffer wrote ∷ events_of ls

abbrev pub texts : Lines → List (List ℕ)
texts [] = []
texts ((l, buffer) ∷ ls) = l ∷ texts ls

abbrev pub encode_all : List Response → List ℕ
encode_all [] = []
encode_all (r ∷ rs) = encode r ++ encode_all rs

Without-get_elem? : (c : ℕ) (b : List ℕ) (i : ℕ) → Without c b → get_elem? b i ≢ some c
Without-get_elem? c [] i n e = none-ne-some c e
Without-get_elem? c (d ∷ b) zero (h, n) e = h (some-injective d c e)
Without-get_elem? c (d ∷ b) (suc i) (h, n) e = Without-get_elem? c b i n e

none_waiting : (find : Memchr) (b : List ℕ) → Without 10 b → is_waiting find b ≡ false
none_waiting find b n = elim (Option-cases (find.memchr 10 b)) [
  | inl e ↦ rw (is_waiting, e) refl
  | inr (i, e) ↦ absurd (Without-get_elem? 10 b i n (find.memchr_some 10 b i e).0)
]

module _ (find : Memchr) (w : FramedWrite) (config : Config) where
  reply-written :
      (r : Response) (more_waiting : Bool) (o : Out)
      → written_to (reply_to w config r more_waiting o) ≡ written_to o ++ encode r
  reply-written r true o = w.feed_writes config.max_unflushed r o
  reply-written r false o =
      let fed = w.feed config.max_unflushed r o in
      ap written_to (w.flush_sends fed)
      ∙ append-nil (written_to fed)
      ∙ w.feed_writes config.max_unflushed r o

  -- The writer after the replies to some lines.
  unfoldable pub out_after : Lines → View → Out → Out
  out_after [] f o = o
  out_after ((l, buffer) ∷ ls) f o =
      let (r, g) = model_line l f in out_after ls g (reply_to w config r (is_waiting find buffer) o)

  out_after-written :
      (ls : Lines) (f : View) (o : Out)
      → written_to (out_after ls f o) ≡ written_to o ++ encode_all (model_lines (texts ls) f).0
  unfolding out_after model_lines
  out_after-written [] f o = sym (append-nil (written_to o))
  out_after-written ((l, buffer) ∷ ls) f o =
      let (r, g) = model_line l f in
      let more = is_waiting find buffer in
      out_after-written ls g (reply_to w config r more o)
      ∙ ap (λ b. b ++ encode_all (model_lines (texts ls) g).0) (reply-written r more o)
      ∙ append_assoc (written_to o) (encode r) (encode_all (model_lines (texts ls) g).0)

  out_after-flushed :
      (ls : Lines) (l buffer : List ℕ) (f : View) (o : Out)
      → is_waiting find buffer ≡ false
      → (out_after (ls ++ (l, buffer) ∷ []) f o).buffered ≡ []
  unfolding out_after
  out_after-flushed [] l buffer f o e =
      let r = (model_line l f).0 in
      rw e (ap (λ o. o.buffered) (w.flush_sends (w.feed config.max_unflushed r o)))
  out_after-flushed ((k, more) ∷ ls) l buffer f o e =
      let (r, g) = model_line k f in
      out_after-flushed ls l buffer g (reply_to w config r (is_waiting find more) o) e

module _ {S : Type 0} ⦃kv : KvStore S⦄ (find : Memchr) (w : FramedWrite) (config : Config) where
  -- The state behind a connection's lines.
  pub record Served (ls : Lines) (c d : Conn S) : Type 0 where
    pub valid : kv.IsValid d.store
    pub stands_for : kv.view d.store ≡ (model_lines (texts ls) (kv.view c.store)).1
    pub out : d.out ≡ out_after find w config ls (kv.view c.store) c.out
    pub stats : d.stats ≡ record (c.stats) { requests = length ls + c.stats.requests }

  pub serve-Served :
      (ls : Lines) (c : Conn S)
      → kv.IsValid c.store
      → (d : Conn S) × (serve find w config (events_of ls) c ≡ some (goes_on d)) × Served ls c d
  unfolding serve turn model_lines out_after
  serve-Served [] c v = (
    c,
    refl,
    record {
      valid = v;
      stands_for = refl;
      out = refl;
      stats = ap (λ n. record (c.stats) { requests = n }) (omega arith);
    },
  )
  serve-Served ((l, buffer) ∷ ls) c v =
      let k = handle_line-Does l c.store v in
      let m = model_line l (kv.view c.store) in
      let c' : Conn S = record (counted find w config k.state c) {
        out = reply_to w config m.0 (is_waiting find buffer) c.out;
      } in
      let (d, e, t) = serve-Served ls c' k.valid in
      (
        d,
        rw (k.returns, serve) e,
        record {
          valid = t.valid;
          stands_for = t.stands_for ∙ ap (λ f. (model_lines (texts ls) f).1) k.stands_for;
          out = t.out ∙ ap (λ f. out_after find w config ls f c'.out) k.stands_for;
          stats = t.stats ∙ ap (λ n. record (c.stats) { requests = n }) (omega arith);
        },
      )

  -- A connection over a valid store whose writes succeed goes on behind its lines, each counted once, and
  -- the writer holds, behind what it held, the replies to the lines in their order over the map that the
  -- store stands for.
  pub serve-replies :
      (ls : Lines) (c : Conn S)
      → kv.IsValid c.store
      → (d : Conn S) × (serve find w config (events_of ls) c ≡ some (goes_on d))
        × (written_to d.out
            ≡ written_to c.out ++ encode_all (model_lines (texts ls) (kv.view c.store)).0)
        × (kv.view d.store ≡ (model_lines (texts ls) (kv.view c.store)).1)
        × (d.stats ≡ record (c.stats) { requests = length ls + c.stats.requests })
  serve-replies ls c v =
      let (d, e, t) = serve-Served ls c v in
      (
        d,
        e,
        ap written_to t.out ∙ out_after-written find w config ls (kv.view c.store) c.out,
        t.stands_for,
        t.stats,
      )

  -- A connection over a valid store whose writes succeed, and that has no newline in its read buffer behind
  -- the last of its lines, has nothing left in its write buffer when it waits for the next line.
  pub serve-flushes :
      (ls : Lines) (l buffer : List ℕ) (c : Conn S)
      → kv.IsValid c.store
      → Without 10 buffer
      → (d : Conn S) × (serve find w config (events_of (ls ++ (l, buffer) ∷ [])) c
          ≡ some (goes_on d))
        × (d.out.buffered ≡ [])
  serve-flushes ls l buffer c v n =
      let (d, e, t) = serve-Served (ls ++ (l, buffer) ∷ []) c v in
      (
        d,
        e,
        ap (λ o. o.buffered) t.out
            ∙ out_after-flushed find w config ls l buffer (kv.view c.store) c.out
                (none_waiting find buffer n),
      )
