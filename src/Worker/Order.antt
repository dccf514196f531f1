-- ===== src/Worker/Order.antt =====
-- The order in which the pool of src/worker.cpp takes its tasks.
use wasapi.Base.{
  ℕ, ◌≡◌, refl, sym, ap, subst, ◌∙◌, ◌||◌, List, [], ◌∷◌, ◌++◌, append_assoc, ◌==◌, Bool-cases, inl,
  inr,
}
use wasapi.Worker.{
  Pool, Step, Reachable, start, enqueue_test, enqueue_push, look, look_at, turn, shutdown_set,
  shutdown_wake, shutdown_clear, made, next, starts, tests, pushes, notifies, misses, looks, sleeps,
  wakes, finishes, sets, wakes_all, clears,
}

-- A queue seen from outside: the tasks it accepted and those it served, in order.
pub record Fifo : Type 0 where
  pub accepted : List ℕ
  pub served : List ℕ

-- What a queue may do: accept a task, serve the first one that it has not served, begin again, or nothing.
pub data FifoStep : Fifo → Fifo → Type 0 where
  rests : {s : Fifo} → FifoStep s s
  accepts : {s : Fifo} → (t : ℕ) → FifoStep s (record s { accepted = s.accepted ++ t ∷ [] })
  serves :
      {s : Fifo}
      → (t : ℕ) → (behind : List ℕ) → s.accepted ≡ s.served ++ t ∷ behind
      → FifoStep s (record s { served = s.served ++ t ∷ [] })
  restarts : {s : Fifo} → FifoStep s (record { accepted = []; served = [] })

abbrev pub fifo : Pool → Fifo
fifo p = record { accepted = p.pushed; served = p.taken }

-- What is pushed is what is taken and behind it what is queued.
abbrev pub Ordered : Pool → Type 0
Ordered p = p.pushed ≡ p.taken ++ p.q

look_at-Ordered :
    (i : ℕ) (q : List ℕ) (p : Pool) → p.q ≡ q → p.pushed ≡ p.taken ++ q → Ordered (look_at i q p)
unfolding look_at
look_at-Ordered i [] p e h = h ∙ ap (λ q. p.taken ++ q) (sym e)
look_at-Ordered i (t ∷ ts) p e h = h ∙ sym (append_assoc p.taken (t ∷ []) ts)

start-Ordered : (count : ℕ) (p : Pool) → Ordered p → Ordered (start count p)
unfolding start
start-Ordered count p h = elim (Bool-cases (p.running || count == 0)) [
  | inl e ↦ rw (e, start) h
  | inr e ↦ rw (e, start) h
]

test-Ordered : (t : ℕ) (p : Pool) → Ordered p → Ordered (enqueue_test t p)
unfolding enqueue_test
test-Ordered t p h = elim (Bool-cases p.stopping) [
  | inl e ↦ rw (e, enqueue_test) h
  | inr e ↦ rw (e, enqueue_test) h
]

set-Ordered : (p : Pool) → Ordered p → Ordered (shutdown_set p)
unfolding shutdown_set
set-Ordered p h = elim (Bool-cases p.running) [
  | inl e ↦ rw (e, shutdown_set) h
  | inr e ↦ rw (e, shutdown_set) h
]

Step-Ordered : {p p' : Pool} → Step p p' → Ordered p → Ordered p'
unfolding enqueue_push look turn shutdown_wake shutdown_clear
Step-Ordered {p} (starts count u) h = start-Ordered count p h
Step-Ordered {p} (tests t) h = test-Ordered t p h
Step-Ordered {p} (pushes before t behind e) h =
    ap (λ l. l ++ t ∷ []) h ∙ append_assoc p.taken p.q (t ∷ [])
Step-Ordered (notifies i n e a) h = h
Step-Ordered (misses n e a) h = h
Step-Ordered {p} (looks i r u) h = look_at-Ordered i p.q p refl h
Step-Ordered (sleeps i e) h = h
Step-Ordered (wakes i e) h = h
Step-Ordered (finishes i t e) h = h
Step-Ordered {p} (sets e u) h = set-Ordered p h
Step-Ordered (wakes_all e) h = h
Step-Ordered (clears e a) h = refl

-- In every pool that a program reaches, the tasks pushed since the queue was last cleared are the tasks
-- taken, in the same order, and behind them the tasks that are queued: none is lost, doubled or overtaken.
pub Reachable-Ordered : {p : Pool} → Reachable p → p.pushed ≡ p.taken ++ p.q
Reachable-Ordered made = refl
Reachable-Ordered (next r s) = Step-Ordered s (Reachable-Ordered r)

look_at-FifoStep :
    (i : ℕ) (q : List ℕ) (p : Pool)
    → p.pushed ≡ p.taken ++ q
    → FifoStep (fifo p) (fifo (look_at i q p))
unfolding look_at
look_at-FifoStep i [] p h = rests
look_at-FifoStep i (t ∷ ts) p h = serves t ts h

start-fifo : (count : ℕ) (p : Pool) → fifo p ≡ fifo (start count p)
unfolding start
start-fifo count p = elim (Bool-cases (p.running || count == 0)) [
  | inl e ↦ rw (e, start) refl
  | inr e ↦ rw (e, start) refl
]

test-fifo : (t : ℕ) (p : Pool) → fifo p ≡ fifo (enqueue_test t p)
unfolding enqueue_test
test-fifo t p = elim (Bool-cases p.stopping) [
  | inl e ↦ rw (e, enqueue_test) refl
  | inr e ↦ rw (e, enqueue_test) refl
]

set-fifo : (p : Pool) → fifo p ≡ fifo (shutdown_set p)
unfolding shutdown_set
set-fifo p = elim (Bool-cases p.running) [
  | inl e ↦ rw (e, shutdown_set) refl
  | inr e ↦ rw (e, shutdown_set) refl
]

rests_at : {s s' : Fifo} → s ≡ s' → FifoStep s s'
rests_at {s} e = subst (λ x. FifoStep s x) e rests

-- The pool refines a first-in-first-out queue: each step of a pool that a program reaches accepts one
-- task, serves the first task that was not served, starts again, or changes nothing of what is seen.
pub Step-FifoStep : {p p' : Pool} → Reachable p → Step p p' → FifoStep (fifo p) (fifo p')
unfolding enqueue_push look turn shutdown_wake shutdown_clear
Step-FifoStep {p} r (starts count u) = rests_at (start-fifo count p)
Step-FifoStep {p} r (tests t) = rests_at (test-fifo t p)
Step-FifoStep r (pushes before t behind e) = accepts t
Step-FifoStep r (notifies i n e a) = rests
Step-FifoStep r (misses n e a) = rests
Step-FifoStep {p} r (looks i a u) = look_at-FifoStep i p.q p (Reachable-Ordered r)
Step-FifoStep r (sleeps i e) = rests
Step-FifoStep r (wakes i e) = rests
Step-FifoStep r (finishes i t e) = rests
Step-FifoStep {p} r (sets e u) = rests_at (set-fifo p)
Step-FifoStep r (wakes_all e) = rests
Step-FifoStep r (clears e a) = restarts
