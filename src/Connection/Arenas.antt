-- ===== src/Connection/Arenas.antt =====
-- The arenas under the handlers of src/fcgi-connection.cpp.
pub mod Freed
pub mod Handlers
use wasapi.Base.{
  ℕ, zero, suc, ◌+◌, ◌-◌, ◌≡◌, refl, sym, ap, subst, Bool, true, false, ◌&&◌, not, Option, none,
  some, List, [], ◌∷◌, ◌++◌, Bytes, get_elem?, set, ltb, ◌==◌, if◌then◌else◌, Option-cases,
  Bool-cases, if_elim, inl, inr, arith,
}
use wasapi.Dynamic.{Value, Items, nil, string, object, array, number, bool}
use wasapi.Request.{Request, new_request}
use wasapi.Memory.{Manager, get, release, alloc}
use wasapi.Memory.Kept.{IsPool, get-IsPool, alloc-IsPool, release-IsPool}
use wasapi.Fastcgi.Process.{Callbacks, process_buffer}
use wasapi.Fastcgi.Process.Outside.{Keeps, process_buffer-Keeps}
use wasapi.Connection.{Connection, Loop, find_conn, put_conn, erase_conn}
use wasapi.Connection.Requests.{
  Settings, Reached, allocate_request, internal_on_request_ready, callbacks, process_fcgi, flush,
  serve_waiting, waiting_loop, process_waiting_connections, release_request, finalize_request,
  temp_paths, cleanup_loop, drop_connection, close_connection,
}

module _ (settings : Settings) (count : ℕ) where
  -- The arena manager of the loop's state.
  abbrev pub Pooled : Loop → Type 0
  Pooled g = IsPool count g.manager

  abbrev Reaches : Reached → Type 0
  Reaches s = IsPool count s.manager

  abbrev Gives : Option (Request × Reached) → Type 0
  Gives none = Unit {0}
  Gives (some (r, s)) = Reaches s

  allocate_request-Gives :
      (conn : ℕ) (s : Reached) (id : ℕ) → Reaches s → Gives (allocate_request settings conn s id)
  unfolding allocate_request
  allocate_request-Gives conn s id h = elim (Option-cases (get s.manager)) [
    | inl g ↦ rw (g, allocate_request) tt
    | inr (p, g) ↦ elim (Option-cases (get_elem? (p.1).arenas p.0)) [
      | inl e ↦ rw (g, allocate_request) (rw (e, allocate_request) tt)
      | inr (a, e) ↦
          elim (Option-cases
            (alloc (settings.address p.0) settings.request_size settings.request_align a)) [
              | inl f ↦
                  rw (g, allocate_request) (rw (e, allocate_request) (rw (f, allocate_request) tt))
              | inr (q, f) ↦
                  rw (g, allocate_request)
                    (rw (e, allocate_request)
                      (rw (f, allocate_request)
                        (alloc-IsPool count p.1 p.0 _ _ _ q.0 a q.1
                          (get-IsPool count s.manager p.1 p.0 h g) e f)))
            ]
    ]
  ]

  ready-Reaches :
      (s : Reached) (r : Request) → Reaches s → Reaches (internal_on_request_ready settings s r).1
  unfolding internal_on_request_ready
  ready-Reaches s r h = elim (Bool-cases r.flags.responded) [
    | inl e ↦ rw (e, internal_on_request_ready) h
    | inr e ↦ elim (Option-cases r.conn_ptr) [
      | inl n ↦ rw (e, internal_on_request_ready) (rw (n, internal_on_request_ready) h)
      | inr (fd, n) ↦ rw (e, internal_on_request_ready) (rw (n, internal_on_request_ready) h)
    ]
  ]

  callbacks-Keeps : (fd : ℕ) → Keeps Reaches (callbacks settings fd)
  unfolding callbacks
  callbacks-Keeps fd = record {
    allocates = λ s s' id r e h. subst Gives e (allocate_request-Gives fd s id h);
    readies = ready-Reaches;
  }

  pub process_fcgi-Pooled :
      (fd : ℕ) (c : Connection) (g : Loop) → Pooled g → Pooled (process_fcgi settings fd c g).1
  unfolding process_fcgi
  process_fcgi-Pooled fd c g h = elim (Bool-cases c.closed) [
    | inl e ↦ rw (e, process_fcgi) h
    | inr e ↦
        rw (e, process_fcgi)
          (process_buffer-Keeps Reaches settings.limits (callbacks settings fd) (callbacks-Keeps fd)
            c.in_buf _ h)
  ]

  flush-manager : (fd : ℕ) (c : Connection) (g : Loop) → (flush settings fd c g).manager ≡ g.manager
  unfolding flush
  flush-manager fd c g = refl

  serve_waiting-Pooled :
      (fd : ℕ) (c : Connection) (budget : ℕ) (g : Loop)
      → Pooled g
      → Pooled (serve_waiting settings fd c budget g).1
  unfolding serve_waiting flush
  serve_waiting-Pooled fd c budget g h =
      let k = process_fcgi-Pooled fd c g h in
      let c' : Connection = (process_fcgi settings fd c g).0 in
      elim (Bool-cases (c.waiting_for_arena && not c'.waiting_for_arena)) [
        | inl e ↦ rw (e, serve_waiting) k
        | inr e ↦ elim (Bool-cases c'.waiting_for_arena) [
          | inl f ↦ rw (e, serve_waiting) (rw (f, serve_waiting) k)
          | inr f ↦ rw (e, serve_waiting) (rw (f, serve_waiting) k)
        ]
      ]

  waiting_loop-Pooled :
      (n budget : ℕ) (g : Loop) → Pooled g → Pooled (waiting_loop settings n budget g)
  unfolding waiting_loop
  waiting_loop-Pooled zero budget g h = h
  waiting_loop-Pooled (suc n) zero g h = h
  waiting_loop-Pooled (suc n) (suc budget) g h = go g.waiting_conns refl (waiting_loop-Pooled n)
    where
      go :
          (fds : List ℕ)
          → g.waiting_conns ≡ fds
          → ((budget' : ℕ) (g' : Loop) → Pooled g' → Pooled (waiting_loop settings n budget' g'))
          → Pooled (waiting_loop settings (suc n) (suc budget) g)
      go [] e ih = rw (e, waiting_loop) h
      go (fd ∷ rest) e ih = elim (Option-cases (find_conn fd g.conns)) [
        | inl f ↦ rw (e, waiting_loop) (rw (f, waiting_loop) (ih (suc budget) _ h))
        | inr (c, f) ↦ elim (Bool-cases c.closed) [
          | inl k ↦
              rw (e, waiting_loop)
                (rw (f, waiting_loop) (rw (k, waiting_loop) (ih (suc budget) _ h)))
          | inr k ↦
              rw (e, waiting_loop)
                (rw (f, waiting_loop)
                  (rw (k, waiting_loop)
                    (ih _ _ (
                      serve_waiting-Pooled fd c (suc budget) (record g { waiting_conns = rest })
                        h))))
        ]
      ]

  process_waiting-Pooled : (g : Loop) → Pooled g → Pooled (process_waiting_connections settings g)
  unfolding process_waiting_connections
  process_waiting-Pooled g h = waiting_loop-Pooled _ _ g h

  pub release_request-Pooled :
      (r : Request) (g : Loop) → Pooled g → Pooled (release_request settings r g)
  unfolding release_request
  release_request-Pooled r g h =
      process_waiting-Pooled _ (release-IsPool count g.manager (some r.arena) h)

  pub finalize_request-Pooled :
      (r : Request) (g : Loop) → Pooled g → Pooled (finalize_request settings r g)
  unfolding finalize_request
  finalize_request-Pooled r g h = go r.files refl
    where
      tested :
          (fs : Items)
          → Pooled (
              if not settings.keep_uploaded_files && settings.cleanup_temp_on_disconnect
              then record g { unlinks = g.unlinks ++ temp_paths fs }
              else g)
      tested fs =
          if_elim Pooled (not settings.keep_uploaded_files && settings.cleanup_temp_on_disconnect)
            (λ _. h) (λ _. h)

      go : (v : Value) → r.files ≡ v → Pooled (finalize_request settings r g)
      go (array fs) e = rw (e, finalize_request) (tested fs)
      go nil e = rw (e, finalize_request) h
      go (string s) e = rw (e, finalize_request) h
      go (object fs) e = rw (e, finalize_request) h
      go (number n) e = rw (e, finalize_request) h
      go (bool b) e = rw (e, finalize_request) h

  cleanup_loop-Pooled :
      (rs : List (ℕ × Request)) (g : Loop) → Pooled g → Pooled (cleanup_loop settings rs g)
  unfolding cleanup_loop
  cleanup_loop-Pooled [] g h = h
  cleanup_loop-Pooled ((id, r) ∷ rs) g h = cleanup_loop-Pooled rs _ (
      release_request-Pooled r _
        (if_elim Pooled r.flags.responded (λ _. h) (λ _. finalize_request-Pooled r g h)))

  drop_connection-Pooled :
      (fd : ℕ) (c : Connection) (g : Loop) → Pooled g → Pooled (drop_connection settings fd c g)
  unfolding drop_connection
  drop_connection-Pooled fd c g h = cleanup_loop-Pooled c.requests g h

  pub close_connection-Pooled :
      (fd : ℕ) (g : Loop) → Pooled g → Pooled (close_connection settings fd g)
  unfolding close_connection
  close_connection-Pooled fd g h = elim (Option-cases (find_conn fd g.conns)) [
    | inl e ↦ rw (e, close_connection) h
    | inr (c, e) ↦ rw (e, close_connection) (drop_connection-Pooled fd c g h)
  ]
