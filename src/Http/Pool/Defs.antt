-- ===== src/Http/Pool/Defs.antt =====
-- `WorkerPool` of project-03-http-server.rs. What a thread does under the lock of the queue is one step, and
-- so is a notification of the condition variable, which comes behind the lock; a handler runs between two
-- steps. Nothing panics under the lock, so it is never poisoned.
use model_lib.Base.{
  ℕ, suc, ◌+◌, ◌≡◌, Bool, true, false, ◌||◌, Option, none, some, List, [], ◌∷◌, ◌++◌, length, leb,
  ◌==◌, if◌then◌else◌,
}

-- The queue and the counters of `Shared`; the workers that look at the queue or are about to, that sleep on
-- the condition variable, that run the handler on an item, and that returned; the calls of `notify_one`
-- and `notify_all` that are to come.
pub record Pool (T : Type 0) : Type 0 where
  pub items : List T
  pub closed : Bool
  pub completed : ℕ
  pub panicked : ℕ
  pub rejected : ℕ
  pub awake : ℕ
  pub asleep : ℕ
  pub running : List T
  pub finished : ℕ
  pub notices : ℕ
  pub notice_all : Bool

pub data Submitted (T : Type 0) : Type 0 where
  queued : Pool T → Submitted T
  handed_back : T → Pool T → Submitted T

module _ {T : Type 0} where
  abbrev pub idle : ℕ → Pool T
  idle workers = record {
    items = [];
    closed = false;
    completed = 0;
    panicked = 0;
    rejected = 0;
    awake = workers;
    asleep = 0;
    running = [];
    finished = 0;
    notices = 0;
    notice_all = false;
  }

  -- The assertion asks for a worker and for room.
  unfoldable pub new : ℕ → ℕ → Option (Pool T)
  new workers capacity = if (workers == 0) || (capacity == 0) then none else some (idle workers)

  unfoldable pub try_submit : ℕ → T → Pool T → Submitted T
  try_submit capacity item s =
      if s.closed || leb capacity (length s.items)
      then handed_back item (record s { rejected = s.rejected + 1 })
      else queued (record s { items = s.items ++ item ∷ []; notices = suc s.notices })

  -- `close_and_join` up to the joins.
  abbrev pub close : Pool T → Pool T
  close s = record s { closed = true; notice_all = true }

  -- A worker that has the lock, while `others` are awake: it takes an item, sleeps, or returns. The list
  -- holds what it has taken.
  abbrev pub look_at : List T → Bool → ℕ → Pool T → List T × Pool T
  look_at (item ∷ items) closed others s =
      (item ∷ [], record s { items = items; awake = others; running = item ∷ s.running })
  look_at [] true others s = ([], record s { awake = others; finished = suc s.finished })
  look_at [] false others s = ([], record s { awake = others; asleep = suc s.asleep })

  abbrev pub look : ℕ → Pool T → List T × Pool T
  look others s = look_at s.items s.closed others s

  -- A step of a worker, or of a notification, with what was taken from the queue.
  pub data Work : Pool T → List T → Pool T → Type 0 where
    looks : (s : Pool T) (n : ℕ) → s.awake ≡ suc n → Work s (look n s).0 (look n s).1
    completes :
        (s : Pool T) (item : T) (before after : List T)
        → s.running ≡ before ++ item ∷ after
        → Work s [] (record s {
          running = before ++ after;
          awake = suc s.awake;
          completed = s.completed + 1;
        })
    panics :
        (s : Pool T) (item : T) (before after : List T)
        → s.running ≡ before ++ item ∷ after
        → Work s []
            (record s { running = before ++ after; awake = suc s.awake; panicked = s.panicked + 1 })
    notifies_one :
        (s : Pool T) (n m : ℕ)
        → s.notices ≡ suc n
        → s.asleep ≡ suc m
        → Work s [] (record s { notices = n; asleep = m; awake = suc s.awake })
    notifies_none :
        (s : Pool T) (n : ℕ)
        → s.notices ≡ suc n
        → s.asleep ≡ 0
        → Work s [] (record s { notices = n })
    notifies_all :
        (s : Pool T)
        → s.notice_all ≡ true
        → Work s [] (record s { notice_all = false; asleep = 0; awake = s.awake + s.asleep })

  -- A sleeper that wakes up for no reason.
  pub data Wakes : Pool T → Pool T → Type 0 where
    wakes :
        (s : Pool T) (m : ℕ)
        → s.asleep ≡ suc m
        → Wakes s (record s { asleep = m; awake = suc s.awake })

  -- The states of a pool, with the items that were queued and those that were taken, in their order.
  pub data Reach (workers capacity : ℕ) : List T → List T → Pool T → Type 0 where
    start : (s : Pool T) → new workers capacity ≡ some s → Reach workers capacity [] [] s
    submits :
        {xs ys : List T} {s : Pool T} (item : T) (t : Pool T)
        → Reach workers capacity xs ys s
        → try_submit capacity item s ≡ queued t
        → Reach workers capacity (xs ++ item ∷ []) ys t
    refuses :
        {xs ys : List T} {s : Pool T} (item : T) (t : Pool T)
        → Reach workers capacity xs ys s
        → try_submit capacity item s ≡ handed_back item t
        → Reach workers capacity xs ys t
    closes :
        {xs ys : List T} {s : Pool T}
        → Reach workers capacity xs ys s
        → Reach workers capacity xs ys (close s)
    works :
        {xs ys zs : List T} {s t : Pool T}
        → Reach workers capacity xs ys s
        → Work s zs t
        → Reach workers capacity xs (ys ++ zs) t
    sleeper_wakes :
        {xs ys : List T} {s t : Pool T}
        → Reach workers capacity xs ys s
        → Wakes s t
        → Reach workers capacity xs ys t
