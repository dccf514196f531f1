-- ===== src/Tests/Workers.antt =====
-- A run of src/worker.cpp: one worker, two tasks.
use wasapi.Base.{◌≡◌, refl, true, false, some, [], ◌∷◌, ◌++◌}
use wasapi.Worker.{
  Pool, Step, Reachable, made, next, starts, tests, pushes, looks, finishes, sets, new_pool, start,
  enqueue_test, enqueue_push, look, turn, shutdown_set, idle, ready, asleep, any_thread, is_left,
  is_asleep, thread_at, unlocked,
}
use wasapi.Worker.Order.{FifoStep, fifo, Step-FifoStep}
use wasapi.Worker.Drain.{Reachable-drained, Reachable-asleep, Steps}

abbrev started : Pool
started = start 1 new_pool

started-Reachable : Reachable started
unfolding start unlocked
started-Reachable = next made (starts {p = new_pool} 1 refl)

-- The worker has looked and found nothing.
abbrev looked : Pool
looked = look 0 started

looked-Reachable : Reachable looked
unfolding unlocked start look thread_at
looked-Reachable = next started-Reachable (looks {p = started} 0 refl refl)

abbrev pushed : Pool
pushed = enqueue_push [] 7 [] (enqueue_test 7 started)

pushed-Reachable : Reachable pushed
unfolding start enqueue_test enqueue_push
pushed-Reachable = next (next started-Reachable (tests 7)) (pushes [] 7 [] refl)

pushed_round : Step pushed (look 0 pushed)
unfolding unlocked start enqueue_test enqueue_push look thread_at
pushed_round = looks {p = pushed} 0 refl refl

Step-FifoStep_example : FifoStep (fifo pushed) (fifo (look 0 pushed))
Step-FifoStep_example = Step-FifoStep pushed-Reachable pushed_round

-- The task is done, the pool is told to stop, and the worker looks again.
abbrev drained : Pool
drained = look 0 (shutdown_set (turn 0 ready (look 0 pushed)))

drained-Reachable : Reachable drained
unfolding unlocked start enqueue_test enqueue_push look thread_at turn shutdown_set
drained-Reachable =
    next
      (next (next (next pushed-Reachable pushed_round) (finishes 0 7 refl))
        (sets {p = turn 0 ready (look 0 pushed)} refl refl))
      (looks {p = shutdown_set (turn 0 ready (look 0 pushed))} 0 refl refl)

drained-left : any_thread is_left drained.threads ≡ true
unfolding start enqueue_test enqueue_push look any_thread is_left turn shutdown_set
drained-left = refl

drained_in_time : drained.late ≡ false
unfolding start enqueue_test enqueue_push look turn shutdown_set
drained_in_time = refl

Reachable-drained_example : drained.taken ≡ drained.pushed
Reachable-drained_example = Reachable-drained drained-Reachable drained-left drained_in_time

looked-idle : thread_at 0 looked.threads ≡ some idle
unfolding start look thread_at
looked-idle = refl

looked_awake : any_thread is_asleep looked.threads ≡ false
unfolding start look any_thread is_asleep
looked_awake = refl

looked_running : looked.stopping ≡ false
unfolding start look
looked_running = refl

looked_quiet : looked.notices ≡ 0
unfolding start look
looked_quiet = refl

Reachable-asleep_example :
    (p' : Pool) × (Reachable p'
      × (Steps looked p'
          × ((p'.q ≡ looked.q ++ 7 ∷ [])
              × ((p'.notices ≡ 0)
                  × ((p'.stopping ≡ false) × (thread_at 0 p'.threads ≡ some asleep))))))
Reachable-asleep_example =
    Reachable-asleep 0 7 looked-Reachable looked-idle looked_awake looked_quiet looked_running
