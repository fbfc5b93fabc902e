-- ===== src/Ferrite/Protocol/Refines.antt =====
-- The handler of project-05-ferrite-v2.rs over any store that keeps the contract, against a handler over
-- a function from keys to values.
use mathlib.Core.Path.{fun_ext}
use model_lib.Base.{
  ℕ, ◌≡◌, refl, ap, ◌∙◌, inl, inr, Bool-cases, Option, none, some, List, [], ◌∷◌, if◌then◌else◌,
  Name, codes,
}
use model_lib.Ferrite.Store.Contract.{Value, Call, KvStore, updated}
use model_lib.Ferrite.Protocol.Defs.{
  Request, ping, get, set, del, Response, pong, ok, error, invalid_utf8, Parsed, request, refused,
  parse, is_utf8, value_or_nil, ok_or_nil, then_reply, execute, answer, handle_line,
}

abbrev pub View : Type 0
View = Name → Option Value

-- The protocol over a map from keys to values.
unfoldable pub model_execute : Request → View → Response × View
model_execute ping f = (pong, f)
model_execute (get k) f = (value_or_nil (f k), f)
model_execute (set k v) f = (ok, updated f k (some v))
model_execute (del k) f = (ok_or_nil (f k), updated f k none)

unfoldable pub model_answer : Parsed → View → Response × View
unfolding model_execute
model_answer (request r) f = model_execute r f
model_answer (refused code detail) f = (error code detail, f)

unfoldable pub model_line : List ℕ → View → Response × View
unfolding model_answer
model_line line f =
    if is_utf8 [] line
    then model_answer (parse line) f
    else (error invalid_utf8 (codes "request is not valid UTF-8"), f)

unfoldable pub model_lines : List (List ℕ) → View → List Response × View
model_lines [] f = ([], f)
model_lines (line ∷ lines) f =
    let (r, g) = model_line line f in let (rs, h) = model_lines lines g in (r ∷ rs, h)

module _ {S : Type 0} ⦃kv : KvStore S⦄ where
  -- The requests of a connection in their order.
  unfoldable pub handle_lines : List (List ℕ) → Call S (List Response)
  handle_lines [] s = some ([], s)
  handle_lines (line ∷ lines) s = elim (handle_line line s) [
    | none ↦ none
    | some (r, t) ↦ elim (handle_lines lines t) [ none ↦ none | some (rs, u) ↦ some (r ∷ rs, u) ]
  ]

  -- The call comes back with the reply, and the store stands for the map.
  pub record Does (o : Option (Response × S)) (m : Response × View) : Type 0 where
    pub state : S
    pub returns : o ≡ some (m.0, state)
    pub valid : kv.IsValid state
    pub stands_for : kv.view state ≡ m.1

  execute-Does :
      (r : Request) (s : S) → kv.IsValid s → Does (execute r s) (model_execute r (kv.view s))
  unfolding execute model_execute
  execute-Does ping s v = record { state = s; returns = refl; valid = v; stands_for = refl }
  execute-Does (get k) s v =
      let (t, e, w, u) = kv.get_shared_reads k s v in
      record {
        state = t;
        returns = ap (λ o. then_reply o value_or_nil) e;
        valid = w;
        stands_for = fun_ext u;
      }
  execute-Does (set k x) s v =
      let (t, e, w, u) = kv.put_updates k x s v in
      record {
        state = t;
        returns = ap (λ o. then_reply o (λ _. ok)) e;
        valid = w;
        stands_for = fun_ext u;
      }
  execute-Does (del k) s v =
      let (t, e, w, u) = kv.delete_updates k s v in
      record {
        state = t;
        returns = ap (λ o. then_reply o ok_or_nil) e;
        valid = w;
        stands_for = fun_ext u;
      }

  answer-Does : (p : Parsed) (s : S) → kv.IsValid s → Does (answer p s) (model_answer p (kv.view s))
  unfolding answer model_answer
  answer-Does (request r) s v = execute-Does r s v
  answer-Does (refused code detail) s v = record {
    state = s;
    returns = refl;
    valid = v;
    stands_for = refl;
  }

  pub handle_line-Does :
      (line : List ℕ) (s : S)
      → kv.IsValid s
      → Does (handle_line line s) (model_line line (kv.view s))
  unfolding handle_line model_line
  handle_line-Does line s v = elim (Bool-cases (is_utf8 [] line)) [
    | inl e ↦ rw (e, handle_line, model_line) (answer-Does (parse line) s v)
    | inr e ↦
        rw (e, handle_line, model_line)
          (record { state = s; returns = refl; valid = v; stands_for = refl })
  ]

  -- Over any store that keeps the contract, the lines of a connection get the replies that they get over
  -- the map that the store stands for, and the store stands for the resulting map.
  pub handle_lines-refines :
      (lines : List (List ℕ)) (s : S)
      → kv.IsValid s
      → (t : S) × (handle_lines lines s ≡ some ((model_lines lines (kv.view s)).0, t))
        × kv.IsValid t
        × (kv.view t ≡ (model_lines lines (kv.view s)).1)
  unfolding handle_lines model_lines
  handle_lines-refines [] s v = (s, refl, v, refl)
  handle_lines-refines (line ∷ lines) s v =
      let d = handle_line-Does line s v in
      let (t, e, w, u) = handle_lines-refines lines d.state d.valid in
      let m = model_line line (kv.view s) in
      (
        t,
        rw (d.returns, handle_lines)
            (rw e (ap (λ f. some (m.0 ∷ (model_lines lines f).0, t)) d.stands_for)),
        w,
        u ∙ ap (λ f. (model_lines lines f).1) d.stands_for,
      )
