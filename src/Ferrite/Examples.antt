-- ===== src/Ferrite/Examples.antt =====
-- The theorems about project-05-ferrite-v2.rs at concrete inputs.
use model_lib.Base.{
  ℕ, ◌+◌, ◌≤◌, ◌≡◌, ◌↔◌, refl, true, some, List, [], ◌∷◌, ◌++◌, codes, Name, arith,
}
use model_lib.Ferrite.Store.Defs.{ShardedStore, get_shared, poison_shard_of}
use model_lib.Ferrite.Store.Refines.{IsSound, sharded_view, sharded_store}
use model_lib.Ferrite.Store.Behaves.{get_shared-poisoned}
use model_lib.Ferrite.Protocol.Defs.{
  set, Response, request, parse, is_command, tokens, encode, handle_line,
}
use model_lib.Ferrite.Protocol.Parse.{name_of, args_of, parse-iff-command}
use model_lib.Ferrite.Protocol.RoundTrip.{render, parse-render}
use model_lib.Ferrite.Protocol.Refines.{model_lines, handle_lines, handle_lines-refines}
use model_lib.Ferrite.Protocol.Lines.{IsLine, ViewIsClean, handle_line-IsLine}
use model_lib.Ferrite.Codec.Defs.{new as new_codec}
use model_lib.Ferrite.Codec.Split.{lines_of}
use model_lib.Ferrite.Codec.Feed.{feed, concat, Matches, feed-Matches, feed-eq}
use model_lib.Ferrite.Server.Defs.{
  Event, Turn, goes_on, Conn, written_to, eof, request_line, wrote, serve,
}
use model_lib.Ferrite.Server.Serve.{
  Lines, events_of, texts, encode_all, serve-replies, serve-flushes,
}
use model_lib.Ferrite.Server.Counters.{IsCounted, serve-IsCounted}
use model_lib.Ferrite.Server.Limit.{
  Running, started, admit, Report, accepting, draining, over, aborted_all, accept, drained_all,
  Reach, start, next,
}
use model_lib.Ferrite.Server.Bounded.{IsLimited, Reach-IsLimited}
use model_lib.Ferrite.Server.Drain.{rank, none_taken, taken, Steps-bounded}
use model_lib.Ferrite.Concrete.{
  memchr, hash, empty_store, one_key, empty_store-IsSound, one_key-IsSound, empty_view, config,
  writer, no_stats, opened, keys,
}

get_shared-poisoned_example :
    (t u w : ShardedStore) × (poison_shard_of hash (codes "k") one_key ≡ some t)
    × IsSound hash t
    × ((j : Name) → sharded_view hash t j ≡ sharded_view hash one_key j)
    × (get_shared hash (codes "k") t ≡ some (sharded_view hash one_key (codes "k"), u))
    × (u.poison_recoveries ≡ one_key.poison_recoveries + 1)
    × (get_shared hash (codes "k") u ≡ some (sharded_view hash one_key (codes "k"), w))
    × (w.poison_recoveries ≡ u.poison_recoveries)
get_shared-poisoned_example = get_shared-poisoned hash (codes "k") one_key one_key-IsSound

abbrev set_line : List ℕ
set_line = codes "SET a b"

abbrev pieces : List (List ℕ)
pieces = codes "PI" ∷ (codes "NG" ++ 10 ∷ codes "GE") ∷ []

abbrev others : List (List ℕ)
others = (codes "PING" ++ 10 ∷ []) ∷ codes "GE" ∷ []

feed-Matches_example :
    Matches 10 (feed memchr pieces (new_codec 10) []) (lines_of 10 [] (concat pieces))
feed-Matches_example = feed-Matches memchr 10 pieces

feed-eq_example : feed memchr pieces (new_codec 10) [] ≡ feed memchr others (new_codec 10) []
feed-eq_example = feed-eq memchr 10 pieces others refl

handle_lines-refines_example :
    (t : ShardedStore) × (handle_lines ⦃kv = keys⦄ (set_line ∷ []) one_key
      ≡ some ((model_lines (set_line ∷ []) (sharded_view hash one_key)).0, t))
    × IsSound hash t
    × (sharded_view hash t ≡ (model_lines (set_line ∷ []) (sharded_view hash one_key)).1)
unfolding sharded_store
handle_lines-refines_example =
    handle_lines-refines ⦃kv = keys⦄ (set_line ∷ []) one_key one_key-IsSound

empty-IsClean : ViewIsClean (sharded_view hash empty_store)
empty-IsClean k v e = let q = empty_view k in ground arith

handle_line-IsLine_example :
    (r : Response) × (t : ShardedStore) × (handle_line ⦃kv = keys⦄ set_line empty_store
      ≡ some (r, t))
    × IsLine (encode r)
    × IsSound hash t
    × ViewIsClean (sharded_view hash t)
unfolding sharded_store
handle_line-IsLine_example =
    handle_line-IsLine ⦃kv = keys⦄ set_line empty_store empty_store-IsSound empty-IsClean

parse-iff-command_example : (parse set_line ≡ request (set (codes "a") (codes "b"))) ↔ (
    (cmd : Name) × (tokens set_line ≡ cmd ∷ args_of (set (codes "a") (codes "b")))
    × (is_command cmd (name_of (set (codes "a") (codes "b"))) ≡ true))
parse-iff-command_example = parse-iff-command set_line (set (codes "a") (codes "b"))

parse-render_example :
    parse (render (set (codes "a") (codes "b"))) ≡ request (set (codes "a") (codes "b"))
parse-render_example =
    parse-render (set (codes "a") (codes "b"))
      ((omega arith, (refl, tt)), (omega arith, (refl, tt)))

abbrev two_lines : Lines
two_lines = (set_line, codes "GET a" ++ 10 ∷ []) ∷ (codes "GET a", []) ∷ []

serve-replies_example :
    (d : Conn ShardedStore) × (serve ⦃kv = keys⦄ memchr writer config (events_of two_lines) opened
      ≡ some (goes_on d))
    × (written_to d.out
        ≡ [] ++ encode_all (model_lines (texts two_lines) (sharded_view hash one_key)).0)
    × (sharded_view hash d.store ≡ (model_lines (texts two_lines) (sharded_view hash one_key)).1)
    × (d.stats ≡ record no_stats { requests = 2 })
unfolding sharded_store
serve-replies_example =
    serve-replies ⦃kv = keys⦄ memchr writer config two_lines opened one_key-IsSound

serve-flushes_example :
    (d : Conn ShardedStore) × (serve ⦃kv = keys⦄ memchr writer config
        (events_of (two_lines ++ (set_line, []) ∷ []))
        opened
      ≡ some (goes_on d))
    × (d.out.buffered ≡ [])
unfolding sharded_store
serve-flushes_example =
    serve-flushes ⦃kv = keys⦄ memchr writer config two_lines set_line [] opened one_key-IsSound tt

abbrev some_events : List Event
some_events = request_line set_line [] wrote ∷ eof ∷ []

serve-IsCounted_example :
    (t : Turn ShardedStore) × (serve ⦃kv = keys⦄ memchr writer config some_events opened ≡ some t)
    × IsCounted some_events opened t
unfolding sharded_store
serve-IsCounted_example =
    serve-IsCounted ⦃kv = keys⦄ memchr writer config some_events opened one_key-IsSound

abbrev one_waiting : Running
one_waiting = admit (started 1)

abbrev one_refused : Running
one_refused = admit one_waiting

waiting-Reach : Reach 1 (accepting, one_refused)
waiting-Reach = next (next start (accept (started 1))) (accept one_waiting)

Reach-IsLimited_example : IsLimited 1 (accepting, one_refused)
Reach-IsLimited_example = Reach-IsLimited 1 (accepting, one_refused) waiting-Reach

abbrev report : Report
report = record { drained = true; aborted = 0 }

abbrev quiet : Running
quiet = aborted_all (started 1)

Steps-bounded_example :
    (1 + rank (over report, quiet) ≤ rank (draining, started 1))
    × (quiet.counters.accepted ≡ (started 1).counters.accepted)
    × (quiet.counters.refused_busy ≡ (started 1).counters.refused_busy)
Steps-bounded_example =
    Steps-bounded 1 (draining, started 1) (over report, quiet) tt
      (taken (drained_all (started 1) refl) none_taken)
