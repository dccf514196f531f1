-- ===== src/Worker/Drain.antt =====
-- What is left when the workers of src/worker.cpp are told to stop, and a notification that no worker
-- hears.
use wasapi.Base.{
  ℕ, zero, suc, ◌≡◌, refl, sym, ap, subst, ◌∙◌, Bool, true, false, ◌||◌, not, some, List, [], ◌∷◌,
  ◌++◌, append-nil, ◌==◌, if◌then◌else◌, Bool-cases, if_elim, inl, inr, arith,
}
use wasapi.Worker.{
  Thread, ready, idle, asleep, working, left, Pool, Step, Reachable, start, start_loop,
  enqueue_test, enqueue_push, look, look_at, turn, shutdown_set, shutdown_wake, shutdown_clear,
  made, next, starts, tests, pushes, notifies, misses, looks, sleeps, wakes, finishes, sets,
  wakes_all, clears, any_thread, is_left, is_asleep, wake, wake_all, put_thread, thread_at,
}
use wasapi.Worker.Order.{Reachable-Ordered}

abbrev any_left : List Thread → Bool
any_left ts = any_thread is_left ts

put-any_left :
    (i : ℕ) (t : Thread) (ts : List Thread)
    → is_left t ≡ false
    → any_left (put_thread i t ts) ≡ true
    → any_left ts ≡ true
unfolding any_thread put_thread
put-any_left i t [] e h = h
put-any_left zero t (u ∷ ts) e h = ground (arith, e, h)
put-any_left (suc i) t (u ∷ ts) e h = elim (Bool-cases (is_left u)) [
  | inl l ↦ rw (l, any_thread) refl
  | inr l ↦
      rw (l, any_thread)
        (put-any_left i t ts e (subst (λ b. b || any_left (put_thread i t ts) ≡ true) l h))
]

put-nil : (i : ℕ) (t : Thread) (ts : List Thread) → ts ≡ [] → put_thread i t ts ≡ []
unfolding put_thread
put-nil i t [] e = refl
put-nil i t (u ∷ ts) e = ground (arith, e)

wake_all-nil : (ts : List Thread) → ts ≡ [] → wake_all ts ≡ []
unfolding wake_all
wake_all-nil [] e = refl
wake_all-nil (u ∷ ts) e = ground (arith, e)

is_left-wake : (t : Thread) → is_left (wake t) ≡ is_left t
unfolding is_left wake
is_left-wake ready = refl
is_left-wake idle = refl
is_left-wake asleep = refl
is_left-wake (working t) = refl
is_left-wake left = refl

wake_all-any_left : (ts : List Thread) → any_left (wake_all ts) ≡ any_left ts
unfolding any_thread wake_all
wake_all-any_left [] = refl
wake_all-any_left (t ∷ ts) = rw (is_left-wake t, wake_all-any_left ts) refl

start_loop-any_left : (n : ℕ) → any_left (start_loop n) ≡ false
unfolding any_thread start_loop is_left
start_loop-any_left zero = refl
start_loop-any_left (suc n) = start_loop-any_left n

-- When a worker has returned from `run`, the pool is stopping, and nothing is queued unless it was pushed
-- after that; a pool that does not run has no workers.
record Settled (p : Pool) : Type 0 where
  stops : any_left p.threads ≡ true → p.stopping ≡ true
  empties : any_left p.threads ≡ true → p.late ≡ false → p.q ≡ []
  resting : p.running ≡ false → p.threads ≡ []

turn-Settled :
    (i : ℕ) (t : Thread) (p : Pool) → is_left t ≡ false → Settled p → Settled (turn i t p)
unfolding turn
turn-Settled i t p e s = record {
  stops = λ h. s.stops (put-any_left i t p.threads e h);
  empties = λ h. s.empties (put-any_left i t p.threads e h);
  resting = λ h. put-nil i t p.threads (s.resting h);
}

push-Settled :
    (before : List ℕ) (t : ℕ) (behind : List ℕ) (p : Pool)
    → Settled p
    → Settled (enqueue_push before t behind p)
unfolding enqueue_push
push-Settled before t behind p s = record {
  stops = s.stops;
  empties = λ h. λ l. ground (arith, l, s.stops h);
  resting = s.resting;
}

start-Settled : (count : ℕ) (p : Pool) → Settled p → Settled (start count p)
unfolding start
start-Settled count p s =
    if_elim Settled (p.running || count == 0) (λ e. s)
      (λ e. started (s.resting (ground (arith, e))))
  where
    started :
        p.threads ≡ []
        → Settled (record p {
          stopping = false;
          running = true;
          threads = p.threads ++ start_loop count;
          late = false;
        })
    started h = record {
      stops = λ l. ground (arith, l, none_left);
      empties = λ l. ground (arith, l, none_left);
      resting = λ r. ground (arith, r);
    }
      where
        none_left : any_left (p.threads ++ start_loop count) ≡ false
        none_left = rw h (start_loop-any_left count)

test-Settled : (t : ℕ) (p : Pool) → Settled p → Settled (enqueue_test t p)
unfolding enqueue_test
test-Settled t p s =
    if_elim Settled p.stopping (λ e. s)
      (λ e. record { stops = s.stops; empties = s.empties; resting = s.resting })

set-Settled : (p : Pool) → Settled p → Settled (shutdown_set p)
unfolding shutdown_set
set-Settled p s =
    if_elim Settled (not p.running) (λ e. s)
      (λ e. record { stops = λ h. refl; empties = s.empties; resting = s.resting })

look_at-Settled : (i : ℕ) (q : List ℕ) (p : Pool) → p.q ≡ q → Settled p → Settled (look_at i q p)
unfolding look_at is_left
look_at-Settled i [] p e s = elim (Bool-cases p.stopping) [
  | inl h ↦ record {
    stops = λ l. h;
    empties = λ l. λ n. e;
    resting = λ r. put-nil i _ p.threads (s.resting r);
  }
  | inr h ↦ record {
    stops = λ l. s.stops (kept h l);
    empties = λ l. λ n. e;
    resting = λ r. put-nil i _ p.threads (s.resting r);
  }
]
  where
    kept :
        p.stopping ≡ false
        → any_left (put_thread i (if p.stopping then left else idle) p.threads) ≡ true
        → any_left p.threads ≡ true
    kept h l = put-any_left i (if p.stopping then left else idle) p.threads (rw h refl) l
look_at-Settled i (t ∷ ts) p e s = record {
  stops = λ h. s.stops (kept h);
  empties = λ h. λ l. ground (arith, e, s.empties (kept h) l);
  resting = λ r. put-nil i _ p.threads (s.resting r);
}
  where
    kept : any_left (put_thread i (working t) p.threads) ≡ true → any_left p.threads ≡ true
    kept h = put-any_left i (working t) p.threads refl h

Step-Settled : {p p' : Pool} → Step p p' → Settled p → Settled p'
unfolding look turn shutdown_wake shutdown_clear any_thread is_left
Step-Settled {p} (starts count u) s = start-Settled count p s
Step-Settled {p} (tests t) s = test-Settled t p s
Step-Settled {p} (pushes before t behind e) s = push-Settled before t behind p s
Step-Settled {p} (notifies i n e a) s = record {
  stops = (turn-Settled i ready p refl s).stops;
  empties = (turn-Settled i ready p refl s).empties;
  resting = (turn-Settled i ready p refl s).resting;
}
Step-Settled (misses n e a) s = record { stops = s.stops; empties = s.empties; resting = s.resting }
Step-Settled {p} (looks i r u) s = look_at-Settled i p.q p refl s
Step-Settled {p} (sleeps i e) s = turn-Settled i asleep p refl s
Step-Settled {p} (wakes i e) s = turn-Settled i ready p refl s
Step-Settled {p} (finishes i t e) s = turn-Settled i ready p refl s
Step-Settled {p} (sets e u) s = set-Settled p s
Step-Settled {p} (wakes_all e) s = record {
  stops = λ h. s.stops (sym (wake_all-any_left p.threads) ∙ h);
  empties = λ h. s.empties (sym (wake_all-any_left p.threads) ∙ h);
  resting = λ h. wake_all-nil p.threads (s.resting h);
}
Step-Settled (clears e a) s = record {
  stops = λ h. ground (arith, h);
  empties = λ h. λ l. refl;
  resting = λ h. refl;
}

Reachable-Settled : {p : Pool} → Reachable p → Settled p
unfolding any_thread
Reachable-Settled made = record {
  stops = λ h. ground (arith, h);
  empties = λ h. λ l. refl;
  resting = λ h. refl;
}
Reachable-Settled (next r s) = Step-Settled s (Reachable-Settled r)

-- When a worker has returned from `run`, every task pushed since the queue was last cleared has been taken,
-- in order, unless one was pushed after `stopping` was set.
pub Reachable-drained :
    {p : Pool}
    → Reachable p
    → any_thread is_left p.threads ≡ true
    → p.late ≡ false
    → p.taken ≡ p.pushed
Reachable-drained {p} r h l =
    sym (append-nil p.taken)
    ∙ (ap (λ q. p.taken ++ q) (sym ((Reachable-Settled r).empties h l)) ∙ sym (Reachable-Ordered r))

thread_at-put :
    (i : ℕ) (t u : Thread) (ts : List Thread)
    → thread_at i ts ≡ some u
    → thread_at i (put_thread i t ts) ≡ some t
unfolding thread_at put_thread
thread_at-put i t u [] h = ground (arith, h)
thread_at-put zero t u (v ∷ ts) h = refl
thread_at-put (suc i) t u (v ∷ ts) h = thread_at-put i t u ts h

-- Some steps of the pool, one after another.
pub data Steps : Pool → Pool → Type 0 where
  done : {p : Pool} → Steps p p
  steps_on : {p q r : Pool} → Steps p q → Step q r → Steps p r

-- A worker that found no work but does not sleep yet misses the notification of a task. If no worker
-- sleeps, no notification is on its way and the pool is not stopping, the pool comes in some
-- steps to a state in which the task is queued, the worker sleeps, and still no
-- notification is on its way, although the pool is not stopping.
pub Reachable-asleep :
    {p : Pool}
    → (i t : ℕ) → Reachable p
    → thread_at i p.threads ≡ some idle
    → any_thread is_asleep p.threads ≡ false
    → p.notices ≡ 0
    → p.stopping ≡ false
    → (p' : Pool) × (Reachable p'
        × (Steps p p'
            × ((p'.q ≡ p.q ++ t ∷ [])
                × ((p'.notices ≡ 0)
                    × ((p'.stopping ≡ false) × (thread_at i p'.threads ≡ some asleep))))))
unfolding enqueue_test enqueue_push turn
Reachable-asleep {p} i t r h none_asleep quiet running =
    (last, (follow r, (path, (refl, (quiet, (running, thread_at-put i asleep idle p.threads h))))))
  where
    tested : Pool
    tested = record p { tested = p.tested ++ t ∷ [] }

    pushed : Pool
    pushed = enqueue_push p.tested t [] tested

    last : Pool
    last = turn i asleep (record pushed { notices = p.notices })

    first : Step p tested
    first = subst (Step p) (rw (running, enqueue_test) refl) (tests {p = p} t)

    path : Steps p last
    path =
        steps_on
          (steps_on (steps_on (steps_on done first) (pushes p.tested t [] refl))
            (misses p.notices refl none_asleep))
          (sleeps i h)

    follow : Reachable p → Reachable last
    follow r =
        next
          (next (next (next r first) (pushes p.tested t [] refl))
            (misses p.notices refl none_asleep))
          (sleeps i h)
