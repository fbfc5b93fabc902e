-- ===== src/Ferrite/Codec/Feed.antt =====
-- Bytes in pieces through `decode` of project-05-ferrite-v2.rs, as a framed reader drives it: lines are
-- taken until `decode` asks for more, then the next piece is put behind the buffer.
use mathlib.Core.Path.{subst}
use model_lib.Base.{
  ℕ, zero, suc, ◌+◌, ◌≤◌, ◌<◌, ◌≡◌, refl, sym, ap, ◌∙◌, List, [], ◌∷◌, ◌++◌, append_assoc,
  append-nil, length, length-append, lt→ltb, le→ltb, if_true, if_false, arith,
}
use model_lib.Ferrite.Codec.Defs.{
  Without, Memchr, LineCodec, new, line, more, too_long, panicked, drop_cr, Step, decode,
}
use model_lib.Ferrite.Codec.Split.{
  stopped, open_line, Frames, prepend, lines_of, continued, lines_of-append, lines_of-line,
  lines_of-open,
}
use model_lib.Ferrite.Codec.Decode.{
  IsScanned, IsScanned-new, IsScanned-more, Does, gives_line, refuses_line, refuses_open, waits,
  decode-Does,
}

-- The reader ended with an error, or waits with its codec and its buffer.
pub data Reader : Type 0 where
  ended failed : Reader
  waiting : LineCodec → List ℕ → Reader

abbrev pub Read : Type 0
Read = List (List ℕ) × Reader

abbrev pub put_first : List ℕ → Read → Read
put_first l (ls, r) = (l ∷ ls, r)

-- What follows a call of `decode`; `again` is the next round.
abbrev pub after_step : Step → (LineCodec → List ℕ → Read) → Read
after_step (line l, (codec, src)) again = put_first l (again codec src)
after_step (more, (codec, src)) again = ([], waiting codec src)
after_step (too_long, s) again = ([], ended)
after_step (panicked, s) again = ([], failed)

module _ (m : Memchr) where
  -- `decode` until it asks for more bytes; a line takes a byte at least.
  unfoldable pub drain : ℕ → LineCodec → List ℕ → Read
  drain zero codec src = ([], failed)
  drain (suc f) codec src = after_step (decode m codec src) (drain f)

  abbrev pub then_feed : Read → (LineCodec → List ℕ → Read) → Read
  then_feed ([], waiting codec src) next = next codec src
  then_feed ([], ended) next = ([], ended)
  then_feed ([], failed) next = ([], failed)
  then_feed (l ∷ ls, r) next = put_first l (then_feed (ls, r) next)

  -- The pieces in their order.
  unfoldable pub feed : List (List ℕ) → LineCodec → List ℕ → Read
  unfolding drain
  feed [] codec src = ([], waiting codec src)
  feed (piece ∷ pieces) codec src =
      then_feed (drain (length (src ++ piece) + 1) codec (src ++ piece)) (feed pieces)

abbrev pub concat : List (List ℕ) → List ℕ
concat [] = []
concat (piece ∷ pieces) = piece ++ concat pieces

-- What a reader has read is what the reference makes of the same bytes: the same lines, then the same
-- error, or the unfinished line in the buffer, searched to its end.
pub data Matches (max : ℕ) : Read → Frames → Type 0 where
  at_end : Matches max ([], ended) ([], stopped)
  at_wait :
      (codec : LineCodec) (src : List ℕ)
      → codec ≡ record { max_line = max; scanned = length src }
      → Without 10 src
      → length src ≤ max
      → Matches max ([], waiting codec src) ([], open_line src)
  at_line :
      (l : List ℕ) (r : Read) (f : Frames)
      → Matches max r f
      → Matches max (put_first l r) (prepend l f)

module _ (m : Memchr) (max : ℕ) where
  after_Does :
      (f : ℕ) (src : List ℕ) (s : Step)
      → Does max src s
      → length src < suc f
      → ((rest : List ℕ)
          → length rest < f
          → Matches max (drain m f (new max) rest) (lines_of max [] rest))
      → Matches max (after_step s (drain m f)) (lines_of max [] src)
  after_Does f src _ (gives_line codec l rest e split w le) lt go =
      subst (λ x. Matches max (put_first (drop_cr l) (drain m f codec rest)) x)
        (sym (
          ap (lines_of max []) split
          ∙ lines_of-line max [] l rest w
          ∙ if_false _ _ (le→ltb max (length l) le)))
        (at_line (drop_cr l) _ _ (
          subst (λ c. Matches max (drain m f c rest) (lines_of max [] rest)) (sym e)
            (go rest (omega (arith, ap length split, length-append l (10 ∷ rest))))))
  after_Does f src _ (refuses_line codec l rest split w le) lt go =
      subst (λ x. Matches max ([], ended) x)
        (sym (
          ap (lines_of max []) split
          ∙ lines_of-line max [] l rest w
          ∙ if_true _ _ (lt→ltb max (length l) le)))
        at_end
  after_Does f src _ (refuses_open codec w le) lt go =
      subst (λ x. Matches max ([], ended) x)
        (sym (lines_of-open max [] src w ∙ if_true _ _ (lt→ltb max (length src) le))) at_end
  after_Does f src _ (waits codec e w le) lt go =
      subst (λ x. Matches max ([], waiting codec src) x)
        (sym (lines_of-open max [] src w ∙ if_false _ _ (le→ltb max (length src) le)))
        (at_wait codec src e w le)

  drain-Matches :
      (f n : ℕ) (src : List ℕ)
      → IsScanned (record { max_line = max; scanned = n }) src
      → length src < f
      → Matches max (drain m f (record { max_line = max; scanned = n }) src) (lines_of max [] src)
  unfolding drain
  drain-Matches zero n src v lt = absurd (omega arith)
  drain-Matches (suc f) n src v lt =
      after_Does f src _ (decode-Does m (record { max_line = max; scanned = n }) src v) lt
        λ rest lt'. drain-Matches f 0 rest (IsScanned-new max rest) lt'

  open_again :
      (src b : List ℕ)
      → Without 10 src
      → length src ≤ max
      → lines_of max src b ≡ lines_of max [] (src ++ b)
  open_again src b w le = sym (
      lines_of-append max [] src b
      ∙ ap (λ x. continued max x b)
          (lines_of-open max [] src w ∙ if_false _ _ (le→ltb max (length src) le)))

  then-Matches :
      (b : List ℕ) (r : Read) (x : Frames) (next : LineCodec → List ℕ → Read)
      → Matches max r x
      → ((src : List ℕ)
          → Without 10 src
          → length src ≤ max
          → Matches max
              (next (record { max_line = max; scanned = length src }) src)
              (lines_of max [] (src ++ b)))
      → Matches max (then_feed m r next) (continued max x b)
  then-Matches b _ _ next at_end go = at_end
  then-Matches b _ _ next (at_wait codec src e w le) go =
      subst (λ x. Matches max (next codec src) x) (sym (open_again src b w le))
        (subst (λ c. Matches max (next c src) (lines_of max [] (src ++ b))) (sym e) (go src w le))
  then-Matches b _ _ next (at_line l r x k) go =
      at_line l (then_feed m r next) (continued max x b) (then-Matches b r x next k go)

  feed_on :
      (pieces : List (List ℕ)) (src : List ℕ)
      → Without 10 src
      → length src ≤ max
      → Matches max
          (feed m pieces (record { max_line = max; scanned = length src }) src)
          (lines_of max [] (src ++ concat pieces))
  unfolding feed
  feed_on [] src w le =
      subst (λ x. Matches max ([], waiting (record { max_line = max; scanned = length src }) src) x)
        (sym (
          ap (lines_of max []) (append-nil src)
          ∙ lines_of-open max [] src w
          ∙ if_false _ _ (le→ltb max (length src) le)))
        (at_wait _ src refl w le)
  feed_on (piece ∷ pieces) src w le =
      subst
        (λ x.
          Matches max
            (then_feed m
              (drain m (length (src ++ piece) + 1) (record { max_line = max; scanned = length src })
                (src ++ piece))
              (feed m pieces))
            x)
        (sym (
          ap (lines_of max []) (sym (append_assoc src piece (concat pieces)))
          ∙ lines_of-append max [] (src ++ piece) (concat pieces)))
        (then-Matches (concat pieces) _ _ (feed m pieces)
          (drain-Matches (length (src ++ piece) + 1) (length src) (src ++ piece)
            (IsScanned-more max src piece w) (omega arith))
          (λ src' w' le'. feed_on pieces src' w' le'))

  -- In whatever pieces the bytes of a connection come in, a reader reads from them what the reference
  -- makes of all of them.
  pub feed-Matches :
      (pieces : List (List ℕ))
      → Matches max (feed m pieces (new max) []) (lines_of max [] (concat pieces))
  feed-Matches pieces = feed_on pieces [] tt (omega arith)

Matches-unique : (max : ℕ) (r r' : Read) (f : Frames) → Matches max r f → Matches max r' f → r ≡ r'
Matches-unique max _ _ _ at_end at_end = refl
Matches-unique max _ _ _ (at_wait c src e w le) (at_wait c' _ e' _ _) =
    ap (λ x. ([], waiting x src)) (e ∙ sym e')
Matches-unique max _ _ _ (at_line l r f h) (at_line _ r' _ k) =
    ap (put_first l) (Matches-unique max r r' f h k)

-- Two ways to cut the same bytes into pieces give the same lines, the same error, and the same buffer
-- and codec where the reader waits.
pub feed-eq :
    (m : Memchr) (max : ℕ) (pieces others : List (List ℕ))
    → concat pieces ≡ concat others
    → feed m pieces (new max) [] ≡ feed m others (new max) []
feed-eq m max pieces others e =
    Matches-unique max _ _ (lines_of max [] (concat others))
      (subst (λ b. Matches max (feed m pieces (new max) []) (lines_of max [] b)) e
        (feed-Matches m max pieces))
      (feed-Matches m max others)
