-- ===== src/Http/Pool/Reached.antt =====
-- The states that the pool of project-03-http-server.rs comes to.
use mathlib.Core.Path.{subst}
use mathlib.Core.Option.{some-injective, none-ne-some}
use model_lib.Base.{
  ℕ, suc, ◌+◌, ◌≡◌, refl, ap, ◌∙◌, true, false, ◌||◌, Bool-cases, ◌⊎◌, inl, inr, some, List, [],
  ◌∷◌, ◌++◌, append_assoc, length, length-append, leb, ◌==◌, arith,
}
use model_lib.Http.Pool.Defs.{
  Pool, queued, handed_back, idle, new, try_submit, Reach, start, submits, refuses, closes, works,
  sleeper_wakes,
}
use model_lib.Http.Pool.Invariant.{IsPool, Work-IsPool, Wakes-IsPool}

module _ {T : Type 0} (workers capacity : ℕ) where
  new-IsPool : (s : Pool T) → new workers capacity ≡ some s → IsPool workers capacity [] [] s
  unfolding new
  new-IsPool s e = elim (Bool-cases ((workers == 0) || (capacity == 0))) [
    | inl b ↦ absurd (none-ne-some s (rw b at e))
    | inr b ↦
        let q : some (idle workers) ≡ some s = rw b at e in
        subst (IsPool workers capacity [] []) (some-injective (idle workers) s q) (record {
          order = refl;
          within = omega arith;
          staff = omega arith;
          counted = refl;
          woken = inl refl;
          closing = inl refl;
          ended = inl refl;
        })
  ]

  pushed-IsPool :
      (xs ys : List T) (s : Pool T) (item : T)
      → (s.closed || leb capacity (length s.items)) ≡ false
      → IsPool workers capacity xs ys s
      → IsPool workers capacity
          (xs ++ item ∷ [])
          ys
          (record s { items = s.items ++ item ∷ []; notices = suc s.notices })
  pushed-IsPool xs ys s item b k =
      let l = length-append s.items (item ∷ []) in
      record {
        order = ap (λ l. l ++ item ∷ []) k.order ∙ append_assoc ys s.items (item ∷ []);
        within = ground (arith, b, l);
        staff = k.staff;
        counted = k.counted;
        woken = elim k.woken [ inl z ↦ inl z | inr h ↦ inr (omega (arith, h, l)) ];
        closing = k.closing;
        ended = elim k.ended [ inl z ↦ inl z | inr (d, z) ↦ ground (arith, b, d) ];
      }

  -- What comes back from `try_submit`.
  pub submitted-cases :
      (item : T) (s : Pool T)
      → (((s.closed || leb capacity (length s.items)) ≡ true)
          × (try_submit capacity item s
              ≡ handed_back item (record s { rejected = s.rejected + 1 })))
        ⊎ (((s.closed || leb capacity (length s.items)) ≡ false)
            × (try_submit capacity item s
                ≡ queued (record s { items = s.items ++ item ∷ []; notices = suc s.notices })))
  unfolding try_submit
  submitted-cases item s = elim (Bool-cases (s.closed || leb capacity (length s.items))) [
    | inl b ↦ inl (b, rw (b, try_submit) refl)
    | inr b ↦ inr (b, rw (b, try_submit) refl)
  ]

  submit-IsPool :
      (xs ys : List T) (s t : Pool T) (item : T)
      → try_submit capacity item s ≡ queued t
      → IsPool workers capacity xs ys s
      → IsPool workers capacity (xs ++ item ∷ []) ys t
  submit-IsPool xs ys s t item e k = elim (submitted-cases item s) [
    | inl (b, q) ↦ cc
    | inr (b, q) ↦
        let same : record s { items = s.items ++ item ∷ []; notices = suc s.notices } ≡ t = cc in
        subst (IsPool workers capacity (xs ++ item ∷ []) ys) same (pushed-IsPool xs ys s item b k)
  ]

  refuse-IsPool :
      (xs ys : List T) (s t : Pool T) (item : T)
      → try_submit capacity item s ≡ handed_back item t
      → IsPool workers capacity xs ys s
      → IsPool workers capacity xs ys t
  refuse-IsPool xs ys s t item e k = elim (submitted-cases item s) [
    | inl (b, q) ↦
        let same : record s { rejected = s.rejected + 1 } ≡ t = cc in
        subst (IsPool workers capacity xs ys) same (record {
          order = k.order;
          within = k.within;
          staff = k.staff;
          counted = k.counted;
          woken = k.woken;
          closing = k.closing;
          ended = k.ended;
        })
    | inr (b, q) ↦ cc
  ]

  -- However the threads take turns, the items are taken in the order in which they were queued, and none is
  -- lost or taken twice; at most as many wait as the capacity says; each worker is in one of its states; as
  -- many handlers have completed, panicked or still run as items were taken; a sleeper has a worker awake
  -- or a notification to come for what is in the queue; and a worker has returned only from a pool that is
  -- closed and empty.
  pub Reach-IsPool :
      (xs ys : List T) (s : Pool T)
      → Reach workers capacity xs ys s
      → IsPool workers capacity xs ys s
  Reach-IsPool _ _ _ (start s e) = new-IsPool s e
  Reach-IsPool _ _ _ (submits {xs} {ys} {s} item t r e) =
      submit-IsPool xs ys s t item e (Reach-IsPool xs ys s r)
  Reach-IsPool _ _ _ (refuses {xs} {ys} {s} item t r e) =
      refuse-IsPool xs ys s t item e (Reach-IsPool xs ys s r)
  Reach-IsPool _ _ _ (closes {xs} {ys} {s} r) =
      let k = Reach-IsPool xs ys s r in
      record {
        order = k.order;
        within = k.within;
        staff = k.staff;
        counted = k.counted;
        woken = k.woken;
        closing = inr (inr refl);
        ended = elim k.ended [ inl z ↦ inl z | inr (c, z) ↦ inr (refl, z) ];
      }
  Reach-IsPool _ _ _ (works {xs} {ys} {zs} {s} {t} r w) =
      Work-IsPool workers capacity xs ys zs s t w (Reach-IsPool xs ys s r)
  Reach-IsPool _ _ _ (sleeper_wakes {xs} {ys} {s} {t} r w) =
      Wakes-IsPool workers capacity xs ys s t w (Reach-IsPool xs ys s r)
