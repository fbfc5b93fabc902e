-- ===== src/Ferrite/Server/Limit.antt =====
-- `Server::run` of project-05-ferrite-v2.rs: the accept loop with its semaphore, the tasks of the `JoinSet`,
-- and the drain behind a shutdown. A task runs between any two steps of the loop, so each of its ends is a
-- step; what the network, the clock and the tasks do is the choice of the step. The order in which `select`
-- looks at what is ready is left free.
use model_lib.Base.{Bool, true, false, ℕ, zero, suc, ◌+◌, ◌-◌, ◌≡◌, ltb, if◌then◌else◌}

-- The counters of `Stats` that the loop and the guards change.
pub record Counters : Type 0 where
  pub accepted : ℕ
  pub refused_busy : ℕ
  pub panicked : ℕ
  pub active : ℕ
  pub peak : ℕ

-- The free permits, and the tasks of the set: connections not yet polled, connections inside `serve`,
-- refusals, and tasks that ended and are to be joined, with and without a panic.
pub record Running : Type 0 where
  pub permits : ℕ
  pub waiting : ℕ
  pub serving : ℕ
  pub refusing : ℕ
  pub done : ℕ
  pub failed : ℕ
  pub counters : Counters

abbrev pub no_counters : Counters
no_counters = record { accepted = 0; refused_busy = 0; panicked = 0; active = 0; peak = 0 }

abbrev pub started : ℕ → Running
started max = record {
  permits = max;
  waiting = 0;
  serving = 0;
  refusing = 0;
  done = 0;
  failed = 0;
  counters = no_counters;
}

-- `JoinSet::len`: the tasks that were not joined.
abbrev pub len : Running → ℕ
len r = r.waiting + r.serving + r.refusing + r.done + r.failed

-- `try_acquire_owned` on a connection that was accepted.
abbrev pub admit : Running → Running
admit r = elim r.permits [
  | zero ↦ record r {
    refusing = suc r.refusing;
    counters = record (r.counters) { refused_busy = r.counters.refused_busy + 1 };
  }
  | suc n ↦ record r {
    permits = n;
    waiting = suc r.waiting;
    counters = record (r.counters) { accepted = r.counters.accepted + 1 };
  }
]

abbrev pub maximum : ℕ → ℕ → ℕ
maximum a b = if ltb a b then b else a

-- `ActiveGuard::new`, and its `drop`.
abbrev pub guarded : Counters → Counters
guarded c = record c { active = c.active + 1; peak = maximum c.peak (c.active + 1) }

abbrev pub unguarded : Counters → Counters
unguarded c = record c { active = c.active - 1 }

-- `record` of a task that panicked.
abbrev pub recorded : Counters → Counters
recorded c = record c { panicked = c.panicked + 1 }

pub record Report : Type 0 where
  pub drained : Bool
  pub aborted : ℕ

-- The accept loop runs, or the set drains behind it, or `run` has returned.
pub data Phase : Type 0 where
  accepting draining : Phase
  over : Report → Phase

-- `JoinSet::shutdown`: every task is dropped with its permit and its guard; nothing is recorded.
abbrev pub aborted_all : Running → Running
aborted_all r = record {
  permits = r.permits + (r.waiting + r.serving);
  waiting = 0;
  serving = 0;
  refusing = 0;
  done = 0;
  failed = 0;
  counters = record (r.counters) { active = r.counters.active - r.serving };
}

pub data Step : Phase × Running → Phase × Running → Type 0 where
  accept : (r : Running) → Step (accepting, r) (accepting, admit r)
  accept_error : (r : Running) → Step (accepting, r) (accepting, r)
  stop : (r : Running) → Step (accepting, r) (draining, r)
  begin :
      (p : Phase) (r : Running) (n : ℕ)
      → r.waiting ≡ suc n
      → Step
          (p, r)
          (p, record r { waiting = n; serving = suc r.serving; counters = guarded r.counters })
  end :
      (p : Phase) (r : Running) (n : ℕ)
      → r.serving ≡ suc n
      → Step
          (p, r)
          (
            p,
            record r {
              permits = suc r.permits;
              serving = n;
              done = suc r.done;
              counters = unguarded r.counters;
            },
          )
  panic :
      (p : Phase) (r : Running) (n : ℕ)
      → r.serving ≡ suc n
      → Step
          (p, r)
          (
            p,
            record r {
              permits = suc r.permits;
              serving = n;
              failed = suc r.failed;
              counters = unguarded r.counters;
            },
          )
  refused :
      (p : Phase) (r : Running) (n : ℕ)
      → r.refusing ≡ suc n
      → Step (p, r) (p, record r { refusing = n; done = suc r.done })
  join : (p : Phase) (r : Running) (n : ℕ) → r.done ≡ suc n → Step (p, r) (p, record r { done = n })
  join_failed :
      (p : Phase) (r : Running) (n : ℕ)
      → r.failed ≡ suc n
      → Step (p, r) (p, record r { failed = n; counters = recorded r.counters })
  -- `timeout` looks at the drain before it looks at the deadline.
  drained_all :
      (r : Running)
      → len r ≡ 0
      → Step (draining, r) (over (record { drained = true; aborted = len r }), aborted_all r)
  deadline :
      (r : Running) (n : ℕ)
      → len r ≡ suc n
      → Step (draining, r) (over (record { drained = false; aborted = len r }), aborted_all r)

-- The states that `run` can come to.
pub data Reach (max : ℕ) : Phase × Running → Type 0 where
  start : Reach max (accepting, started max)
  next : {s t : Phase × Running} → Reach max s → Step s t → Reach max t
