-- ===== src/Worker.antt =====
-- src/worker.cpp and src/worker.h: the worker pool, one step of a thread at a time.
-- A task is a number. `enqueue` takes no lock, so that its test of `stopping`, its push and its
-- notification are three steps; everything that holds `mtx` is one step, save that a worker that finds no
-- work keeps the lock until it sleeps.
pub mod Order
pub mod Drain
use wasapi.Base.{
  ℕ, zero, suc, ◌≡◌, Bool, true, false, ◌&&◌, ◌||◌, not, Option, none, some, List, [], ◌∷◌, ◌++◌,
  ◌==◌, if◌then◌else◌,
}

-- A worker: about to look at the queue, with the lock and no work, asleep, with a task, returned from `run`.
pub data Thread : Type 0 where
  ready : Thread
  idle : Thread
  asleep : Thread
  working : ℕ → Thread
  left : Thread

-- Where `shutdown` is.
pub data Stage : Type 0 where
  outside : Stage
  set : Stage
  woken : Stage

-- `tested` are the tasks of the calls of `enqueue` between the test and the push, `notices` counts the
-- calls between the push and the notification. The last three fields are a record of what happened since
-- the queue was last cleared: the tasks pushed, those taken, and whether one was pushed after `stopping`
-- was set.
pub record Pool : Type 0 where
  pub threads : List Thread
  pub q : List ℕ
  pub running : Bool
  pub stopping : Bool
  pub tested : List ℕ
  pub notices : ℕ
  pub stage : Stage
  pub pushed : List ℕ
  pub taken : List ℕ
  pub late : Bool

abbrev pub new_pool : Pool
new_pool = record {
  threads = [];
  q = [];
  running = false;
  stopping = false;
  tested = [];
  notices = 0;
  stage = outside;
  pushed = [];
  taken = [];
  late = false;
}

unfoldable pub thread_at : ℕ → List Thread → Option Thread
thread_at i [] = none
thread_at zero (t ∷ ts) = some t
thread_at (suc i) (t ∷ ts) = thread_at i ts

unfoldable pub put_thread : ℕ → Thread → List Thread → List Thread
put_thread i t [] = []
put_thread zero t (u ∷ ts) = t ∷ ts
put_thread (suc i) t (u ∷ ts) = u ∷ put_thread i t ts

unfoldable pub is_idle : Thread → Bool
is_idle idle = true
is_idle _ = false

unfoldable pub is_asleep : Thread → Bool
is_asleep asleep = true
is_asleep _ = false

unfoldable pub is_left : Thread → Bool
is_left left = true
is_left _ = false

unfoldable pub any_thread : (Thread → Bool) → List Thread → Bool
any_thread f [] = false
any_thread f (t ∷ ts) = f t || any_thread f ts

-- The loop of `start`.
unfoldable pub start_loop : ℕ → List Thread
start_loop zero = []
start_loop (suc n) = ready ∷ start_loop n

unfoldable pub start : ℕ → Pool → Pool
unfolding start_loop
start count p = if p.running || count == 0 then p else record p {
  stopping = false;
  running = true;
  threads = p.threads ++ start_loop count;
  late = false;
}

-- `enqueue` up to the test of `stopping`, with its result when it returns there.
unfoldable pub enqueue_test : ℕ → Pool → Pool
enqueue_test t p = if p.stopping then p else record p { tested = p.tested ++ t ∷ [] }

-- The push of `enqueue`, for one of the calls that passed the test.
unfoldable pub enqueue_push : List ℕ → ℕ → List ℕ → Pool → Pool
enqueue_push before t behind p = record p {
  tested = before ++ behind;
  q = p.q ++ t ∷ [];
  notices = suc p.notices;
  pushed = p.pushed ++ t ∷ [];
  late = p.late || p.stopping;
}

-- One round of `run` from the lock on, with the queue: a task is taken, the thread returns, or it is about
-- to sleep.
unfoldable pub look_at : ℕ → List ℕ → Pool → Pool
unfolding put_thread
look_at i [] p = record p { threads = put_thread i (if p.stopping then left else idle) p.threads }
look_at i (t ∷ ts) p = record p {
  threads = put_thread i (working t) p.threads;
  q = ts;
  taken = p.taken ++ t ∷ [];
}

unfoldable pub look : ℕ → Pool → Pool
unfolding look_at
look i p = look_at i p.q p

unfoldable pub turn : ℕ → Thread → Pool → Pool
unfolding put_thread
turn i t p = record p { threads = put_thread i t p.threads }

unfoldable pub shutdown_set : Pool → Pool
shutdown_set p = if not p.running then p else record p { stopping = true; stage = set }

unfoldable pub wake : Thread → Thread
wake asleep = ready
wake t = t

unfoldable pub wake_all : List Thread → List Thread
unfolding wake
wake_all [] = []
wake_all (t ∷ ts) = wake t ∷ wake_all ts

unfoldable pub shutdown_wake : Pool → Pool
unfolding wake_all
shutdown_wake p = record p { threads = wake_all p.threads; stage = woken }

-- The end of `shutdown`, behind the joins: the tasks that are still queued are dropped.
unfoldable pub shutdown_clear : Pool → Pool
shutdown_clear p = record p {
  threads = [];
  running = false;
  q = [];
  stage = outside;
  pushed = [];
  taken = [];
  late = false;
}

unfoldable pub all_left : List Thread → Bool
unfolding is_left
all_left [] = true
all_left (t ∷ ts) = is_left t && all_left ts

-- The lock is free when no worker is between its test and its sleep.
unfoldable pub unlocked : Pool → Bool
unfolding any_thread is_idle
unlocked p = not (any_thread is_idle p.threads)

pub data Step : Pool → Pool → Type 0 where
  starts : {p : Pool} → (count : ℕ) → unlocked p ≡ true → Step p (start count p)
  tests : {p : Pool} → (t : ℕ) → Step p (enqueue_test t p)
  pushes :
      {p : Pool}
      → (before : List ℕ) → (t : ℕ) → (behind : List ℕ) → p.tested ≡ before ++ t ∷ behind
      → Step p (enqueue_push before t behind p)
  -- `notify_one` with a worker that sleeps, and with none.
  notifies :
      {p : Pool}
      → (i n : ℕ) → p.notices ≡ suc n
      → thread_at i p.threads ≡ some asleep
      → Step p (record (turn i ready p) { notices = n })
  misses :
      {p : Pool}
      → (n : ℕ) → p.notices ≡ suc n
      → any_thread is_asleep p.threads ≡ false
      → Step p (record p { notices = n })
  looks :
      {p : Pool}
      → (i : ℕ) → thread_at i p.threads ≡ some ready
      → unlocked p ≡ true
      → Step p (look i p)
  sleeps : {p : Pool} → (i : ℕ) → thread_at i p.threads ≡ some idle → Step p (turn i asleep p)
  -- A condition variable may wake a thread for no reason.
  wakes : {p : Pool} → (i : ℕ) → thread_at i p.threads ≡ some asleep → Step p (turn i ready p)
  finishes :
      {p : Pool} → (i t : ℕ) → thread_at i p.threads ≡ some (working t) → Step p (turn i ready p)
  sets : {p : Pool} → p.stage ≡ outside → unlocked p ≡ true → Step p (shutdown_set p)
  wakes_all : {p : Pool} → p.stage ≡ set → Step p (shutdown_wake p)
  clears : {p : Pool} → p.stage ≡ woken → all_left p.threads ≡ true → Step p (shutdown_clear p)

-- The pools that a program reaches.
pub data Reachable : Pool → Type 0 where
  made : Reachable new_pool
  next : {p p' : Pool} → Reachable p → Step p p' → Reachable p'
