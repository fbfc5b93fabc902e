-- ===== src/Http/Pool/Drain.antt =====
-- The shutdown of the pool in project-03-http-server.rs.
use model_lib.Base.{
  list-cases, ℕ, zero, suc, ◌+◌, ◌*◌, ◌≤◌, ◌<◌, ◌≡◌, refl, sym, ap, ◌∙◌, Bool, true, false,
  Bool-cases, zero-cases, ◌⊎◌, inl, inr, List, [], ◌∷◌, ◌++◌, append-nil, length, length-append,
  arith,
}
use model_lib.Http.Pool.Defs.{
  Pool, look_at, Work, looks, completes, panics, notifies_one, notifies_none, notifies_all, Wakes,
  wakes, Reach,
}
use model_lib.Http.Pool.Invariant.{IsPool}
use model_lib.Http.Pool.Reached.{Reach-IsPool}

-- A bound on the steps of a closed pool.
abbrev pub pending : Bool → ℕ
pending true = 1
pending false = 0

abbrev pub rank : {T : Type 0} → Pool T → ℕ
rank s =
    4 * length s.items
    + 2 * length s.running
    + 2 * s.asleep
    + s.awake
    + s.notices
    + pending s.notice_all

length-zero : {T : Type 0} (l : List T) → length l ≡ 0 → l ≡ []
length-zero [] h = refl
length-zero (x ∷ l) h = absurd (omega (arith, h))

module _ {T : Type 0} where
  -- A number of steps of the workers and the notifications, a wakeup for no reason among them.
  pub data Steps : ℕ → Pool T → Pool T → Type 0 where
    none_taken : (s : Pool T) → Steps 0 s s
    taken : {n : ℕ} {s t u : Pool T} (zs : List T) → Work s zs t → Steps n t u → Steps (suc n) s u
    woken : {n : ℕ} {s t u : Pool T} → Wakes s t → Steps n t u → Steps (suc n) s u

  abbrev Lower : Pool T → Pool T → Type 0
  Lower s t = (t.closed ≡ true) × (rank t < rank s)

  look-Lower :
      (s : Pool T) (n : ℕ) (items : List T) (closed : Bool)
      → s.items ≡ items
      → s.closed ≡ true
      → closed ≡ true
      → s.awake ≡ suc n
      → Lower s (look_at items closed n s).1
  look-Lower s n (item ∷ items) closed e c d a = (c, omega (arith, ap length e, a))
  look-Lower s n [] true e c d a = (c, omega (arith, a))
  look-Lower s n [] false e c d a = cc

  length-remove :
      (l before : List T) (item : T) (after : List T)
      → l ≡ before ++ item ∷ after
      → length l ≡ suc (length (before ++ after))
  length-remove l before item after e =
      omega (arith, ap length e, length-append before (item ∷ after), length-append before after)

  Work-Lower : (s t : Pool T) (zs : List T) → s.closed ≡ true → Work s zs t → Lower s t
  Work-Lower _ _ _ c (looks s n e) = look-Lower s n s.items s.closed refl c c e
  Work-Lower _ _ _ c (completes s item before after e) =
      (c, omega (arith, length-remove s.running before item after e))
  Work-Lower _ _ _ c (panics s item before after e) =
      (c, omega (arith, length-remove s.running before item after e))
  Work-Lower _ _ _ c (notifies_one s n m e d) = (c, omega (arith, e, d))
  Work-Lower _ _ _ c (notifies_none s n e z) = (c, omega (arith, e))
  Work-Lower _ _ _ c (notifies_all s e) = (c, omega (arith, ap pending e))

  Wakes-Lower : (s t : Pool T) → s.closed ≡ true → Wakes s t → Lower s t
  Wakes-Lower _ _ c (wakes s m d) = (c, omega (arith, d))

  -- The workers of a closed pool come to an end: they and the notifications take at most as many steps
  -- together as the rank of the pool says.
  pub Steps-rank : (n : ℕ) (s t : Pool T) → s.closed ≡ true → Steps n s t → n + rank t ≤ rank s
  Steps-rank zero s _ c (none_taken _) = omega arith
  Steps-rank (suc n) s t c (taken {t = m} zs w ws) =
      let (d, h) = Work-Lower s m zs c w in omega (arith, h, Steps-rank n m t d ws)
  Steps-rank (suc n) s t c (woken {t = m} w ws) =
      let (d, h) = Wakes-Lower s m c w in omega (arith, h, Steps-rank n m t d ws)

  -- Nothing is left to do: no worker is awake or at an item, and no notification is to come.
  record IsQuiet (s : Pool T) : Type 0 where
    none_awake : s.awake ≡ 0
    none_running : s.running ≡ []
    no_notice : s.notices ≡ 0
    no_notice_all : s.notice_all ≡ false

  progress : (s : Pool T) → IsQuiet s ⊎ ((zs : List T) × (t : Pool T) × Work s zs t)
  progress s = elim (zero-cases s.awake) [
    | inr (n, e) ↦ inr (_, _, looks s n e)
    | inl a ↦ elim (list-cases s.running) [
      | inr (item, items, e) ↦ inr (_, _, completes s item [] items e)
      | inl b ↦ elim (zero-cases s.notices) [
        | inr (n, e) ↦ elim (zero-cases s.asleep) [
          | inl z ↦ inr (_, _, notifies_none s n e z)
          | inr (m, d) ↦ inr (_, _, notifies_one s n m e d)
        ]
        | inl c ↦ elim (Bool-cases s.notice_all) [
          | inl d ↦ inr (_, _, notifies_all s d)
          | inr d ↦
              inl (record { none_awake = a; none_running = b; no_notice = c; no_notice_all = d })
        ]
      ]
    ]
  ]

  quiet : (s : Pool T) → ((zs : List T) (t : Pool T) → ¬ Work s zs t) → IsQuiet s
  quiet s stuck = elim (progress s) [ inl q ↦ q | inr (zs, t, w) ↦ absurd (stuck zs t w) ]

  none_left :
      (workers capacity : ℕ) (xs ys : List T) (s : Pool T)
      → 0 < workers
      → IsPool workers capacity xs ys s
      → IsQuiet s
      → s.items ≡ []
  none_left workers capacity xs ys s some_worker k q = elim k.ended [
    | inr (c, e) ↦ e
    | inl f ↦ elim k.woken [
      | inl z ↦
          absurd (omega (arith, k.staff, f, z, some_worker, q.none_awake, ap length q.none_running))
      | inr h ↦ length-zero s.items (omega (arith, h, q.none_awake, q.no_notice))
    ]
  ]

  -- No wakeup is lost: where neither a worker nor a notification of a pool with a worker can take a step,
  -- be there sleepers or not, the items that were queued were taken, all of them and in their order, each by
  -- a handler that completed or panicked.
  pub Reach-served :
      (workers capacity : ℕ) (xs ys : List T) (s : Pool T)
      → 0 < workers
      → Reach workers capacity xs ys s
      → ((zs : List T) (t : Pool T) → ¬ Work s zs t)
      → (ys ≡ xs) × (s.completed + s.panicked ≡ length xs)
  Reach-served workers capacity xs ys s some_worker r stuck =
      let k = Reach-IsPool workers capacity xs ys s r in
      let q = quiet s stuck in
      let e = none_left workers capacity xs ys s some_worker k q in
      let same : xs ≡ ys = k.order ∙ ap (λ l. ys ++ l) e ∙ append-nil ys in
      (sym same, omega (arith, k.counted, ap length same, ap length q.none_running))

  -- Where neither a worker nor a notification of a closed pool can take a step, every worker has returned,
  -- so that the joins come to an end.
  pub Reach-finished :
      (workers capacity : ℕ) (xs ys : List T) (s : Pool T)
      → Reach workers capacity xs ys s
      → s.closed ≡ true
      → ((zs : List T) (t : Pool T) → ¬ Work s zs t)
      → s.finished ≡ workers
  Reach-finished workers capacity xs ys s r c stuck =
      let k = Reach-IsPool workers capacity xs ys s r in
      let q = quiet s stuck in
      elim k.closing [
        | inl d ↦ cc
        | inr (inl z) ↦ omega (arith, k.staff, z, q.none_awake, ap length q.none_running)
        | inr (inr d) ↦ let e = q.no_notice_all in cc
      ]
