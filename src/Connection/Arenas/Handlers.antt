-- ===== src/Connection/Arenas/Handlers.antt =====
-- The arenas under `handle_new_connections`, `handle_io`, `housekeeping_close_idle` and the parts of a
-- worker in src/fcgi-connection.cpp.
use wasapi.Base.{
  ℕ, ◌≡◌, refl, true, ◌&&◌, ◌||◌, not, List, [], ◌∷◌, ◌++◌, Bytes, ◌==◌, if◌then◌else◌,
  Option-cases, Bool-cases, if_elim, inl, inr,
}
use wasapi.Request.{Request}
use wasapi.Memory.Kept.{IsPool}
use wasapi.Fastcgi.Process.{lookup}
use wasapi.Connection.{Connection, Loop, find_conn, should_close_connection}
use wasapi.Connection.Requests.{Settings, process_fcgi, flush, finalize_request}
use wasapi.Connection.Events.{
  accept_loop, handle_new_connections, Event, conn_at, update_conn, read_conn, read_input,
  drop_request, sweep_loop, close_one, close_loop, close_queued, serve_events, handle_io,
  expire_conns, drop_loop, housekeeping_close_idle,
}
use wasapi.Connection.Ready.{
  Worker, leave, work, run_task, answer, answer_live, pending_loop, process_pending_output,
}
use wasapi.Connection.Arenas.{
  Pooled, process_fcgi-Pooled, release_request-Pooled, finalize_request-Pooled,
  close_connection-Pooled,
}

module _ (settings : Settings) (count : ℕ) where
  accept_loop-Pooled :
      (fds : List ℕ) (g : Loop)
      → Pooled settings count g
      → Pooled settings count (accept_loop fds g)
  unfolding accept_loop
  accept_loop-Pooled [] g h = h
  accept_loop-Pooled (fd ∷ fds) g h =
      if_elim (Pooled settings count) (g.manager.available_count == 0) (λ _. h)
        (λ _. accept_loop-Pooled fds _ h)

  pub accept-Pooled :
      (fds : List ℕ) (g : Loop)
      → Pooled settings count g
      → Pooled settings count (handle_new_connections fds g)
  unfolding handle_new_connections
  accept-Pooled fds g h =
      if_elim (Pooled settings count) (g.manager.available_count == 0) (λ _. h)
        (λ _. accept_loop-Pooled fds g h)

  read_conn-Pooled :
      (fd : ℕ) (e : Event) (c : Connection) (g : Loop)
      → Pooled settings count g
      → Pooled settings count (read_conn settings fd e c g)
  unfolding read_conn flush
  read_conn-Pooled fd e c g h =
      if_elim (Pooled settings count)
        (not c.waiting_for_arena && (process_fcgi settings fd filled g).0.waiting_for_arena)
        (λ _. k) (λ _. k)
    where
      filled : Connection
      filled = record c { in_buf = c.in_buf ++ e.received; closed = c.closed || e.ended }

      k : Pooled settings count (process_fcgi settings fd filled g).1
      k = process_fcgi-Pooled settings count fd filled g h

  drop_request-Pooled :
      (fd id : ℕ) (r : Request) (g : Loop)
      → Pooled settings count g
      → Pooled settings count (drop_request settings fd id r g)
  unfolding drop_request update_conn
  drop_request-Pooled fd id r g h = release_request-Pooled settings count r g h

  sweep_loop-Pooled :
      (fd : ℕ) (rs : List (ℕ × Request)) (g : Loop)
      → Pooled settings count g
      → Pooled settings count (sweep_loop settings fd rs g)
  unfolding sweep_loop
  sweep_loop-Pooled fd [] g h = h
  sweep_loop-Pooled fd ((id, r) ∷ rs) g h = elim (Bool-cases r.worker_active) [
    | inl e ↦ rw (e, sweep_loop) (sweep_loop-Pooled fd rs g h)
    | inr e ↦ elim (Bool-cases r.flags.responded) [
      | inl f ↦
          rw (e, sweep_loop)
            (rw (f, sweep_loop)
              (sweep_loop-Pooled fd rs _ (
                drop_request-Pooled fd id r (finalize_request settings r g)
                  (finalize_request-Pooled settings count r g h))))
      | inr f ↦ elim (Bool-cases (r.flags.failed || r.flags.aborted)) [
        | inl k ↦
            rw (e, sweep_loop)
              (rw (f, sweep_loop)
                (rw (k, sweep_loop) (sweep_loop-Pooled fd rs _ (drop_request-Pooled fd id r g h))))
        | inr k ↦
            rw (e, sweep_loop)
              (rw (f, sweep_loop) (rw (k, sweep_loop) (sweep_loop-Pooled fd rs g h)))
      ]
    ]
  ]

  close_one-Pooled :
      (fd : ℕ) (c : Connection) (g : Loop)
      → Pooled settings count g
      → Pooled settings count (close_one settings fd c g)
  unfolding close_one
  close_one-Pooled fd c g h = elim (Bool-cases (should_close_connection c)) [
    | inl e ↦ rw (e, close_one) (close_connection-Pooled settings count fd _ h)
    | inr e ↦ rw (e, close_one) h
  ]

  close_loop-Pooled :
      (fds : List ℕ) (g : Loop)
      → Pooled settings count g
      → Pooled settings count (close_loop settings fds g)
  unfolding close_loop
  close_loop-Pooled [] g h = h
  close_loop-Pooled (fd ∷ fds) g h =
      close_loop-Pooled fds _ (close_one-Pooled fd (conn_at settings fd g) g h)

  drop_loop-Pooled :
      (fds : List ℕ) (g : Loop)
      → Pooled settings count g
      → Pooled settings count (drop_loop settings fds g)
  unfolding drop_loop
  drop_loop-Pooled [] g h = h
  drop_loop-Pooled (fd ∷ fds) g h =
      drop_loop-Pooled fds _ (close_connection-Pooled settings count fd g h)

  pub housekeeping-Pooled :
      (g : Loop)
      → Pooled settings count g
      → Pooled settings count (housekeeping_close_idle settings g)
  unfolding housekeeping_close_idle
  housekeeping-Pooled g h =
      drop_loop-Pooled (expire_conns settings g.conns).1
        (record g { conns = (expire_conns settings g.conns).0 }) h

  close_queued-Pooled :
      (fd : ℕ) (g : Loop)
      → Pooled settings count g
      → Pooled settings count (close_queued settings fd g)
  unfolding close_queued
  close_queued-Pooled fd g h =
      close_loop-Pooled
        (if should_close_connection (conn_at settings fd g)
          then g.close_queue ++ fd ∷ []
          else g.close_queue)
        (record g { close_queue = [] }) h

  hung_of :
      (fd : ℕ) (e : Event) (g : Loop)
      → Pooled settings count g
      → Pooled settings count
          (if e.hangup then update_conn settings fd (λ c. record c { closed = true }) g else g)
  unfolding update_conn
  hung_of fd e g h = if_elim (Pooled settings count) e.hangup (λ _. h) (λ _. h)

  serve_events-Pooled :
      (fd : ℕ) (e : Event) (g : Loop)
      → Pooled settings count g
      → Pooled settings count (serve_events settings fd e g)
  unfolding serve_events read_input flush
  serve_events-Pooled fd e g h =
      close_queued-Pooled fd swept
        (sweep_loop-Pooled fd (conn_at settings fd flushed).requests flushed flushed-Pooled)
    where
      hung : Loop
      hung = if e.hangup then update_conn settings fd (λ c. record c { closed = true }) g else g

      hung-Pooled : Pooled settings count hung
      hung-Pooled = hung_of fd e g h

      fed : Loop
      fed = if e.input then read_input settings fd e hung else hung

      fed-Pooled : Pooled settings count fed
      fed-Pooled =
          if_elim (Pooled settings count) e.input
            (λ _. read_conn-Pooled fd e (conn_at settings fd hung) hung hung-Pooled)
            (λ _. hung-Pooled)

      flushed : Loop
      flushed = if e.output then flush settings fd (conn_at settings fd fed) fed else fed

      flushed-Pooled : Pooled settings count flushed
      flushed-Pooled = if_elim (Pooled settings count) e.output (λ _. fed-Pooled) (λ _. fed-Pooled)

      swept : Loop
      swept = sweep_loop settings fd (conn_at settings fd flushed).requests flushed

  pub handle_io-Pooled :
      (fd : ℕ) (e : Event) (g : Loop)
      → Pooled settings count g
      → Pooled settings count (handle_io settings fd e g)
  unfolding handle_io
  handle_io-Pooled fd e g h = elim (Option-cases (find_conn fd g.conns)) [
    | inl f ↦ rw (f, handle_io) h
    | inr (c, f) ↦ rw (f, handle_io) (serve_events-Pooled fd e g h)
  ]

module _ {W : Type 0} (worker : Worker W) (count : ℕ) where
  work-Pooled :
      (fd id : ℕ) (r : Request) (c : Connection) (g : Loop) (w : W)
      → IsPool count g.manager
      → IsPool count (work worker fd id r c g w).0.manager
  unfolding work leave
  work-Pooled fd id r c g w h = elim (Bool-cases r.flags.responded) [
    | inl e ↦ rw (e, work) h
    | inr e ↦ elim (Bool-cases c.closed) [
      | inl f ↦ rw (e, work) (rw (f, work) h)
      | inr f ↦ rw (e, work) (rw (f, work) h)
    ]
  ]

  pub run_task-Pooled :
      (g : Loop) (w : W) → IsPool count g.manager → IsPool count (run_task worker g w).0.manager
  unfolding run_task
  run_task-Pooled g w h = go g.queued refl
    where
      go : (q : List (ℕ × ℕ)) → g.queued ≡ q → IsPool count (run_task worker g w).0.manager
      go [] e = rw (e, run_task) h
      go ((fd, id) ∷ rest) e = elim (Option-cases (find_conn fd g.conns)) [
        | inl f ↦ rw (e, run_task) (rw (f, run_task) h)
        | inr (c, f) ↦ elim (Option-cases (lookup id c.requests)) [
          | inl k ↦ rw (e, run_task) (rw (f, run_task) (rw (k, run_task) h))
          | inr (r, k) ↦
              rw (e, run_task)
                (rw (f, run_task)
                  (rw (k, run_task) (work-Pooled fd id r c (record g { queued = rest }) w h)))
        ]
      ]

module _ {W : Type 0} (handler : Request → W → (Request × Bytes) × W) (count : ℕ) where
  answer_live-Pooled :
      (fd id : ℕ) (r : Request) (c : Connection) (g : Loop) (w : W)
      → IsPool count g.manager
      → IsPool count (answer_live handler fd id r c g w).0.manager
  unfolding answer_live answer
  answer_live-Pooled fd id r c g w h = elim (Bool-cases r.flags.responded) [
    | inl e ↦ rw (e, answer_live) h
    | inr e ↦ elim (Bool-cases c.closed) [
      | inl f ↦ rw (e, answer_live) (rw (f, answer_live) h)
      | inr f ↦ rw (e, answer_live) (rw (f, answer_live) h)
    ]
  ]

  pending_loop-Pooled :
      (rs : List (ℕ × ℕ)) (g : Loop) (w : W)
      → IsPool count g.manager
      → IsPool count (pending_loop handler rs g w).0.manager
  unfolding pending_loop
  pending_loop-Pooled [] g w h = h
  pending_loop-Pooled ((fd, id) ∷ rest) g w h = elim (Option-cases (find_conn fd g.conns)) [
    | inl f ↦ rw (f, pending_loop) (pending_loop-Pooled rest g w h)
    | inr (c, f) ↦ elim (Option-cases (lookup id c.requests)) [
      | inl k ↦ rw (f, pending_loop) (rw (k, pending_loop) (pending_loop-Pooled rest g w h))
      | inr (r, k) ↦
          rw (f, pending_loop)
            (rw (k, pending_loop)
              (pending_loop-Pooled rest (answer_live handler fd id r c g w).0 _
                (answer_live-Pooled fd id r c g w h)))
    ]
  ]

  pub process_pending-Pooled :
      (g : Loop) (w : W)
      → IsPool count g.manager
      → IsPool count (process_pending_output handler g w).0.manager
  unfolding process_pending_output
  process_pending-Pooled g w h =
      pending_loop-Pooled g.pending_output (record g { pending_output = [] }) w h
