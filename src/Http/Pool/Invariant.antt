-- ===== src/Http/Pool/Invariant.antt =====
-- The pool of project-03-http-server.rs in every interleaving of its threads.
use mathlib.Core.Path.{subst}
use model_lib.Base.{
  ℕ, suc, ◌+◌, ◌≤◌, ◌≡◌, refl, sym, ap, ◌∙◌, Bool, true, false, ◌⊎◌, inl, inr, List, [], ◌∷◌, ◌++◌,
  append_assoc, append-nil, length, length-append, arith,
}
use model_lib.Http.Pool.Defs.{
  Pool, look_at, Work, looks, completes, panics, notifies_one, notifies_none, notifies_all, Wakes,
  wakes,
}

-- `xs` was queued and `ys` was taken. An item in the queue has a worker that is awake, or a call of
-- `notify_one` to come, while a worker sleeps; once the pool is closed, a sleeper has `notify_all` to come.
pub record IsPool {T : Type 0} (workers capacity : ℕ) (xs ys : List T) (s : Pool T) : Type 0 where
  pub order : xs ≡ ys ++ s.items
  pub within : length s.items ≤ capacity
  pub staff : s.awake + s.asleep + length s.running + s.finished ≡ workers
  pub counted : s.completed + s.panicked + length s.running ≡ length ys
  pub woken : (s.asleep ≡ 0) ⊎ (length s.items ≤ s.awake + s.notices)
  pub closing : (s.closed ≡ false) ⊎ ((s.asleep ≡ 0) ⊎ (s.notice_all ≡ true))
  pub ended : (s.finished ≡ 0) ⊎ ((s.closed ≡ true) × (s.items ≡ []))

module _ {T : Type 0} (workers capacity : ℕ) where
  abbrev pub Holds : List T → List T → Pool T → Type 0
  Holds xs ys s = IsPool workers capacity xs ys s

  look-IsPool :
      (xs ys : List T) (s : Pool T) (n : ℕ) (items : List T) (closed : Bool)
      → s.items ≡ items
      → s.closed ≡ closed
      → s.awake ≡ suc n
      → Holds xs ys s
      → Holds xs (ys ++ (look_at items closed n s).0) (look_at items closed n s).1
  look-IsPool xs ys s n (item ∷ items) closed e c a k = record {
    order = k.order ∙ ap (λ i. ys ++ i) e ∙ sym (append_assoc ys (item ∷ []) items);
    within = omega (arith, k.within, ap length e);
    staff = omega (arith, k.staff, a);
    counted = omega (arith, k.counted, length-append ys (item ∷ []));
    woken = elim k.woken [ inl z ↦ inl z | inr h ↦ inr (omega (arith, h, a, ap length e)) ];
    closing = k.closing;
    ended = elim k.ended [
      | inl z ↦ inl z
      | inr (d, z) ↦ absurd (omega (arith, ap length e, ap length z))
    ];
  }
  look-IsPool xs ys s n [] true e c a k = record {
    order = k.order ∙ ap (λ l. l ++ s.items) (sym (append-nil ys));
    within = k.within;
    staff = omega (arith, k.staff, a);
    counted = omega (arith, k.counted, ap length (append-nil ys));
    woken = inr (omega (arith, ap length e));
    closing = k.closing;
    ended = inr (c, e);
  }
  look-IsPool xs ys s n [] false e c a k = record {
    order = k.order ∙ ap (λ l. l ++ s.items) (sym (append-nil ys));
    within = k.within;
    staff = omega (arith, k.staff, a);
    counted = omega (arith, k.counted, ap length (append-nil ys));
    woken = inr (omega (arith, ap length e));
    closing = inl c;
    ended = k.ended;
  }

  -- A step that takes nothing from the queue and closes nothing.
  same-IsPool :
      (xs ys : List T) (s t : Pool T)
      → t.items ≡ s.items
      → t.closed ≡ s.closed
      → t.finished ≡ s.finished
      → t.awake + t.asleep + length t.running ≡ s.awake + s.asleep + length s.running
      → t.completed + t.panicked + length t.running ≡ s.completed + s.panicked + length s.running
      → ((t.asleep ≡ 0) ⊎ (length t.items ≤ t.awake + t.notices))
      → ((t.closed ≡ false) ⊎ ((t.asleep ≡ 0) ⊎ (t.notice_all ≡ true)))
      → Holds xs ys s
      → Holds xs (ys ++ []) t
  same-IsPool xs ys s t i c f a b w z k = record {
    order = k.order ∙ ap (λ l. ys ++ l) (sym i) ∙ ap (λ l. l ++ t.items) (sym (append-nil ys));
    within = omega (arith, k.within, ap length i);
    staff = omega (arith, k.staff, a, f);
    counted = omega (arith, k.counted, b, ap length (append-nil ys));
    woken = w;
    closing = z;
    ended = elim k.ended [ inl e ↦ inl (f ∙ e) | inr (d, e) ↦ inr (c ∙ d, i ∙ e) ];
  }

  length-remove :
      (l before : List T) (item : T) (after : List T)
      → l ≡ before ++ item ∷ after
      → length l ≡ suc (length (before ++ after))
  length-remove l before item after e =
      omega (arith, ap length e, length-append before (item ∷ after), length-append before after)

  pub Work-IsPool :
      (xs ys zs : List T) (s t : Pool T) → Work s zs t → Holds xs ys s → Holds xs (ys ++ zs) t
  Work-IsPool xs ys _ _ _ (looks s n e) k = look-IsPool xs ys s n s.items s.closed refl refl e k
  Work-IsPool xs ys _ _ _ (completes s item before after e) k =
      let l = length-remove s.running before item after e in
      same-IsPool xs ys s _ refl refl refl (omega (arith, l)) (omega (arith, l))
        (elim k.woken [ inl z ↦ inl z | inr h ↦ inr (omega (arith, h)) ]) k.closing k
  Work-IsPool xs ys _ _ _ (panics s item before after e) k =
      let l = length-remove s.running before item after e in
      same-IsPool xs ys s _ refl refl refl (omega (arith, l)) (omega (arith, l))
        (elim k.woken [ inl z ↦ inl z | inr h ↦ inr (omega (arith, h)) ]) k.closing k
  Work-IsPool xs ys _ _ _ (notifies_one s n m e d) k =
      same-IsPool xs ys s _ refl refl refl (omega (arith, d)) refl
        (elim k.woken [ inl z ↦ absurd (omega (arith, z, d)) | inr h ↦ inr (omega (arith, h, e)) ])
        (elim k.closing [
          | inl c ↦ inl c
          | inr (inl z) ↦ absurd (omega (arith, z, d))
          | inr (inr a) ↦ inr (inr a)
        ])
        k
  Work-IsPool xs ys _ _ _ (notifies_none s n e z) k =
      same-IsPool xs ys s _ refl refl refl refl refl (inl z) k.closing k
  Work-IsPool xs ys _ _ _ (notifies_all s e) k =
      same-IsPool xs ys s _ refl refl refl (omega arith) refl (inl refl) (inr (inl refl)) k

  pub Wakes-IsPool : (xs ys : List T) (s t : Pool T) → Wakes s t → Holds xs ys s → Holds xs ys t
  Wakes-IsPool xs ys _ _ (wakes s m d) k =
      subst (λ l. Holds xs l (record s { asleep = m; awake = suc s.awake })) (append-nil ys)
        (same-IsPool xs ys s _ refl refl refl (omega (arith, d)) refl
          (elim k.woken [ inl z ↦ absurd (omega (arith, z, d)) | inr h ↦ inr (omega (arith, h)) ])
          (elim k.closing [
            | inl c ↦ inl c
            | inr (inl z) ↦ absurd (omega (arith, z, d))
            | inr (inr a) ↦ inr (inr a)
          ])
          k)
