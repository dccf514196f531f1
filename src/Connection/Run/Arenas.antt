-- ===== src/Connection/Run/Arenas.antt =====
-- The arenas over the whole run of the loop in src/fcgi-connection.cpp.
use wasapi.Base.{ℕ, List, [], ◌∷◌, Bytes, ◌==◌, Bool-cases, inl, inr}
use wasapi.Request.{Request}
use wasapi.Memory.Kept.{IsPool}
use wasapi.Connection.{Loop}
use wasapi.Connection.Ready.{Worker}
use wasapi.Connection.Arenas.Handlers.{
  accept-Pooled, handle_io-Pooled, housekeeping-Pooled, run_task-Pooled, process_pending-Pooled,
}
use wasapi.Connection.Run.{
  Ready, Turn, interrupted, failed, works, ready, is_fd, Watched, dispatch, events_loop, run_loop,
}

module _ {W : Type 0} (worker : Worker W) (handler : Request → W → (Request × Bytes) × W)
    (watched : Watched) (count : ℕ) where
  dispatch-IsPool :
      (r : Ready) (g : Loop) (w : W)
      → IsPool count g.manager
      → IsPool count (dispatch worker handler watched r g w).0.manager
  unfolding dispatch
  dispatch-IsPool r g w h = elim (Bool-cases (r.fd == watched.listen_fd)) [
    | inl e ↦ rw (e, dispatch) (accept-Pooled r.settings count r.accepted g h)
    | inr e ↦ elim (Bool-cases (is_fd watched.eventfd r.fd)) [
      | inl f ↦ rw (e, dispatch) (rw (f, dispatch) (process_pending-Pooled handler count g w h))
      | inr f ↦ elim (Bool-cases (is_fd watched.timerfd r.fd)) [
        | inl k ↦
            rw (e, dispatch)
              (rw (f, dispatch) (rw (k, dispatch) (housekeeping-Pooled r.settings count g h)))
        | inr k ↦
            rw (e, dispatch)
              (rw (f, dispatch)
                (rw (k, dispatch) (handle_io-Pooled r.settings count r.fd r.event g h)))
      ]
    ]
  ]

  events_loop-IsPool :
      (rs : List Ready) (g : Loop) (w : W)
      → IsPool count g.manager
      → IsPool count (events_loop worker handler watched rs g w).0.manager
  unfolding events_loop
  events_loop-IsPool [] g w h = h
  events_loop-IsPool (r ∷ rs) g w h = events_loop-IsPool rs _ _ (dispatch-IsPool r g w h)

  -- If the table of the arena manager is sound at the start, it is so in every state that the server's loop
  -- reaches, whatever events arrive, calls fail and tasks run between them: its counter is the number of
  -- free arenas, the number of arenas stays, each names its own place, and none has given away more memory
  -- than it has. Which request has which arena is not said.
  pub run_loop-IsPool :
      (rounds : List Turn) (g : Loop) (w : W)
      → IsPool count g.manager
      → IsPool count (run_loop worker handler watched rounds g w).0.manager
  unfolding run_loop
  run_loop-IsPool [] g w h = h
  run_loop-IsPool (interrupted ∷ rounds) g w h = run_loop-IsPool rounds g w h
  run_loop-IsPool (failed ∷ rounds) g w h = h
  run_loop-IsPool (works ∷ rounds) g w h =
      run_loop-IsPool rounds _ _ (run_task-Pooled worker count g w h)
  run_loop-IsPool (ready rs ∷ rounds) g w h =
      run_loop-IsPool rounds _ _ (events_loop-IsPool rs g w h)
