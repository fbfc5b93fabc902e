-- ===== src/Ferrite/Server/Bounded.antt =====
-- The limit on connections of project-05-ferrite-v2.rs.
use model_lib.Base.{ℕ, ◌+◌, ◌≤◌, ◌≡◌, zero-cases, refl, inl, inr, arith}
use model_lib.Ferrite.Server.Limit.{
  Counters, Running, started, admit, maximum, Phase, accepting, Step, accept, accept_error, stop,
  begin, end, panic, refused, join, join_failed, drained_all, deadline, Reach, start, next,
}

-- Every permit is free or held by one connection, and the counters agree with the tasks.
pub record Limits (max permits waiting serving failed : ℕ) (c : Counters) : Type 0 where
  pub shared : permits + waiting + serving ≡ max
  pub active : c.active ≡ serving
  pub peak_above : serving ≤ c.peak
  pub peak_within : c.peak ≤ max
  pub panics : waiting + serving + failed + c.panicked ≤ c.accepted

abbrev pub IsLimited : ℕ → Phase × Running → Type 0
IsLimited max (p, r) = Limits max r.permits r.waiting r.serving r.failed r.counters

maximum-bounds : (a b : ℕ) → (a ≤ maximum a b) × (b ≤ maximum a b)
maximum-bounds a b = ground arith

maximum-le : (a b max : ℕ) → a ≤ max → b ≤ max → maximum a b ≤ max
maximum-le a b max h k = ground arith

admit-IsLimited :
    (max : ℕ) (r : Running) → IsLimited max (accepting, r) → IsLimited max (accepting, admit r)
admit-IsLimited max r k = elim (zero-cases r.permits) [
  | inl e ↦
      rw (e, admit)
        (record {
          shared = omega (arith, k.shared);
          active = k.active;
          peak_above = k.peak_above;
          peak_within = k.peak_within;
          panics = k.panics;
        })
  | inr (n, e) ↦
      rw (e, admit)
        (record {
          shared = omega (arith, k.shared, e);
          active = k.active;
          peak_above = k.peak_above;
          peak_within = k.peak_within;
          panics = omega (arith, k.panics);
        })
]

Step-IsLimited : (max : ℕ) (s t : Phase × Running) → Step s t → IsLimited max s → IsLimited max t
Step-IsLimited max s t (accept r) k = admit-IsLimited max r k
Step-IsLimited max s t (accept_error r) k = k
Step-IsLimited max s t (stop r) k = k
Step-IsLimited max s t (begin p r n e) k =
    let (a, b) = maximum-bounds r.counters.peak (r.counters.active + 1) in
    record {
      shared = omega (arith, k.shared, e);
      active = omega (arith, k.active);
      peak_above = omega (arith, b, k.active);
      peak_within =
          maximum-le r.counters.peak (r.counters.active + 1) max k.peak_within
            (omega (arith, k.shared, k.active, e));
      panics = omega (arith, k.panics, e);
    }
Step-IsLimited max s t (end p r n e) k = record {
  shared = omega (arith, k.shared, e);
  active = omega (arith, k.active, e);
  peak_above = omega (arith, k.peak_above, e);
  peak_within = k.peak_within;
  panics = omega (arith, k.panics, e);
}
Step-IsLimited max s t (panic p r n e) k = record {
  shared = omega (arith, k.shared, e);
  active = omega (arith, k.active, e);
  peak_above = omega (arith, k.peak_above, e);
  peak_within = k.peak_within;
  panics = omega (arith, k.panics, e);
}
Step-IsLimited max s t (refused p r n e) k = k
Step-IsLimited max s t (join p r n e) k = k
Step-IsLimited max s t (join_failed p r n e) k = record {
  shared = k.shared;
  active = k.active;
  peak_above = k.peak_above;
  peak_within = k.peak_within;
  panics = omega (arith, k.panics, e);
}
Step-IsLimited max s t (drained_all r e) k = record {
  shared = omega (arith, k.shared);
  active = omega (arith, k.active);
  peak_above = omega arith;
  peak_within = k.peak_within;
  panics = omega (arith, k.panics);
}
Step-IsLimited max s t (deadline r n e) k = record {
  shared = omega (arith, k.shared);
  active = omega (arith, k.active);
  peak_above = omega arith;
  peak_within = k.peak_within;
  panics = omega (arith, k.panics);
}

started-IsLimited : (max : ℕ) → IsLimited max (accepting, started max)
started-IsLimited max = record {
  shared = omega arith;
  active = refl;
  peak_above = omega arith;
  peak_within = omega arith;
  panics = omega arith;
}

-- However the loop, the network and the tasks take turns, every permit is free or held by one connection,
-- the active counter is the number of connections inside `serve`, the peak lies between it and the
-- configured limit, and no more connections have panicked than were accepted.
pub Reach-IsLimited : (max : ℕ) (s : Phase × Running) → Reach max s → IsLimited max s
Reach-IsLimited max s start = started-IsLimited max
Reach-IsLimited max t (next {s} r e) = Step-IsLimited max s t e (Reach-IsLimited max s r)
