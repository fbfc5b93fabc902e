-- ===== src/Ferrite/Server/Drain.antt =====
-- The drain of project-05-ferrite-v2.rs: the steps behind a shutdown.
use model_lib.Base.{ℕ, zero, suc, ◌+◌, ◌*◌, ◌≤◌, ◌<◌, ◌≡◌, refl, ◌∙◌, true, arith}
use model_lib.Ferrite.Server.Limit.{
  Running, len, Report, Phase, accepting, draining, over, Step, accept, accept_error, stop, begin,
  end, panic, refused, join, join_failed, drained_all, deadline,
}

-- The most steps that the tasks can take.
abbrev pub weight : Running → ℕ
weight r = 3 * r.waiting + 2 * r.serving + 2 * r.refusing + r.done + r.failed

abbrev pub IsStopped : Phase → Type 0
IsStopped accepting = ⊥
IsStopped draining = Unit
IsStopped (over rep) = Unit

-- The steps that are left, with the one that returns.
abbrev pub rank : Phase × Running → ℕ
rank (accepting, r) = weight r
rank (draining, r) = 1 + weight r
rank (over rep, r) = weight r

-- A number of steps.
pub data Steps : ℕ → Phase × Running → Phase × Running → Type 0 where
  none_taken : {s : Phase × Running} → Steps 0 s s
  taken : {n : ℕ} {s t u : Phase × Running} → Step s t → Steps n t u → Steps (suc n) s u

pub record Sinks (s t : Phase × Running) : Type 0 where
  pub stopped : IsStopped t.0
  pub lower : rank t < rank s
  pub none_accepted : t.1.counters.accepted ≡ s.1.counters.accepted
  pub none_refused : t.1.counters.refused_busy ≡ s.1.counters.refused_busy

rank-moves :
    (p : Phase) (r q : Running) → IsStopped p → weight q < weight r → rank (p, q) < rank (p, r)
rank-moves accepting r q u h = elim u [ ]
rank-moves draining r q u h = omega (arith, h)
rank-moves (over rep) r q u h = h

moves :
    (p : Phase) (r q : Running)
    → IsStopped p
    → weight q < weight r
    → q.counters.accepted ≡ r.counters.accepted
    → q.counters.refused_busy ≡ r.counters.refused_busy
    → Sinks (p, r) (p, q)
moves p r q u h a b = record {
  stopped = u;
  lower = rank-moves p r q u h;
  none_accepted = a;
  none_refused = b;
}

Step-Sinks : (s t : Phase × Running) → IsStopped s.0 → Step s t → Sinks s t
Step-Sinks s t u (accept r) = elim u [ ]
Step-Sinks s t u (accept_error r) = elim u [ ]
Step-Sinks s t u (stop r) = elim u [ ]
Step-Sinks s t u (begin p r n e) = moves p r _ u (omega (arith, e)) refl refl
Step-Sinks s t u (end p r n e) = moves p r _ u (omega (arith, e)) refl refl
Step-Sinks s t u (panic p r n e) = moves p r _ u (omega (arith, e)) refl refl
Step-Sinks s t u (refused p r n e) = moves p r _ u (omega (arith, e)) refl refl
Step-Sinks s t u (join p r n e) = moves p r _ u (omega (arith, e)) refl refl
Step-Sinks s t u (join_failed p r n e) = moves p r _ u (omega (arith, e)) refl refl
Step-Sinks s t u (drained_all r e) = record {
  stopped = tt;
  lower = omega arith;
  none_accepted = refl;
  none_refused = refl;
}
Step-Sinks s t u (deadline r n e) = record {
  stopped = tt;
  lower = omega arith;
  none_accepted = refl;
  none_refused = refl;
}

-- Behind a shutdown no connection is accepted or refused any more, and any steps come to an end: their
-- number is bounded by the tasks that were left.
pub Steps-bounded :
    (n : ℕ) (s t : Phase × Running)
    → IsStopped s.0
    → Steps n s t
    → (n + rank t ≤ rank s)
      × (t.1.counters.accepted ≡ s.1.counters.accepted)
      × (t.1.counters.refused_busy ≡ s.1.counters.refused_busy)
Steps-bounded zero s t u none_taken = (omega arith, refl, refl)
Steps-bounded (suc n) s t u (taken {t = m} e es) =
    let k = Step-Sinks s m u e in
    let (h, a, b) = Steps-bounded n m t k.stopped es in
    (omega (arith, h, k.lower), a ∙ k.none_accepted, b ∙ k.none_refused)

-- What `run` leaves and reports where it returns: no task, every permit free, nobody active, the counters of
-- connections as they were, and a report that says how many tasks were left.
pub record IsReturn (max : ℕ) (r : Running) (rep : Report) (q : Running) : Type 0 where
  pub no_task : len q ≡ 0
  pub permits : q.permits ≡ max
  pub nobody : q.counters.active ≡ 0
  pub accepted : q.counters.accepted ≡ r.counters.accepted
  pub panicked : q.counters.panicked ≡ r.counters.panicked
  pub aborted : rep.aborted ≡ len r
  pub drained : (rep.drained ≡ true → len r ≡ 0) × (len r ≡ 0 → rep.drained ≡ true)

abbrev Returns : ℕ → Phase × Running → Phase × Running → Type 0
Returns max (draining, r) (over rep, q) = IsReturn max r rep q
Returns max (draining, r) (draining, q) = Unit
Returns max (draining, r) (accepting, q) = Unit
Returns max (accepting, r) t = Unit
Returns max (over rep, r) t = Unit
