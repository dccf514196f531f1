-- ===== src/Connection/Requests.antt =====
-- src/fcgi-connection.cpp: `allocate_request`, `release_request`, `finalize_request`, `process_fcgi`,
-- `process_waiting_connections`, `internal_on_request_ready` without its task, and the clean-up.
use wasapi.Base.{
  ℕ, zero, suc, ◌+◌, ◌-◌, Bool, true, false, ◌&&◌, not, Option, none, some, List, [], ◌∷◌, ◌++◌,
  Bytes, codes, length, get_elem?, set, ltb, if◌then◌else◌,
}
use wasapi.Dynamic.{Value, Items, string, array, stop, item, find, assign}
use wasapi.Request.{Request, new_request}
use wasapi.Memory.{Manager, get, release, alloc}
use wasapi.Http.Text.{strip_prefix}
use wasapi.Fastcgi.Process.{Limits, Callbacks, Status, ok, close, process_buffer}
use wasapi.Connection.{Connection, Loop, find_conn, put_conn, erase_conn}
use wasapi.Connection.Output.{SendResult, flush_connection}

-- The configuration, and what the platform decides: where an arena's memory lies, the size of a request,
-- the clock, and the results of `send` on each descriptor.
pub record Settings : Type 0 where
  pub limits : Limits
  pub fcgi_path_prefix : Bytes
  pub max_request_time : ℕ
  pub keep_uploaded_files : Bool
  pub cleanup_temp_on_disconnect : Bool
  pub address : ℕ → ℕ
  pub request_size : ℕ
  pub request_align : ℕ
  pub double_of : ℕ → ℕ
  pub now : ℕ
  pub sends : ℕ → List SendResult

-- What the callbacks of `process_buffer` reach: the arenas, the workers at the connection, and the pool's
-- queue.
pub record Reached : Type 0 where
  pub manager : Manager
  pub active_workers : ℕ
  pub queued : List (ℕ × ℕ)

-- The prefix is stripped from a variable that is a string.
unfoldable pub strip_variable : Bytes → Bytes → Value → Value
unfolding find strip_prefix assign
strip_variable prefix name env = elim (find env name) [
  | none ↦ env
  | some v ↦ elim v [ string s ↦ assign env name (string (strip_prefix prefix s)) | _ ↦ env ]
]

-- The paths that are removed, unless they stay or are empty.
unfoldable pub temp_paths : Items → List Bytes
unfolding find
temp_paths stop = []
temp_paths (item f fs) =
    let rest = temp_paths fs in
    elim (find f (codes "temp_path")) [
      | none ↦ rest
      | some v ↦ elim v [
        | string path ↦ elim path [ [] ↦ rest | c ∷ t ↦ (c ∷ t) ∷ rest ]
        | _ ↦ rest
      ]
    ]

module _ (settings : Settings) where
  -- `conn` is `tls_io_connection`. An arena without room is given back, which
  -- leaves the manager as it was.
  unfoldable pub allocate_request : ℕ → Reached → ℕ → Option (Request × Reached)
  unfolding get alloc release new_request
  allocate_request conn s id = elim (get s.manager) [
    | none ↦ none
    | some (place, m) ↦ elim (get_elem? m.arenas place) [
      | none ↦ none
      | some a ↦
          elim (alloc (settings.address place) settings.request_size settings.request_align a) [
            | none ↦ none
            | some (offset, a') ↦ some (
              record (new_request place (settings.double_of a.management_flag) settings.now) {
                id = id;
                conn_ptr = some conn;
              },
              record s { manager = record m { arenas = set m.arenas place a' } },
            )
          ]
    ]
  ]

  -- With the task for the pool, which `Connection/Ready` runs.
  unfoldable pub internal_on_request_ready : Reached → Request → Request × Reached
  unfolding strip_variable
  internal_on_request_ready s r = elim r.flags.responded [
    | true ↦ (r, s)
    | false ↦ elim r.conn_ptr [
      | none ↦ (r, s)
      | some fd ↦ (
        record r {
          env =
              strip_variable settings.fcgi_path_prefix (codes "PATH_INFO")
                (strip_variable settings.fcgi_path_prefix (codes "REQUEST_URI") r.env);
          worker_active = true;
        },
        record s { active_workers = s.active_workers + 1; queued = s.queued ++ (fd, r.id) ∷ [] },
      )
    ]
  ]

  unfoldable pub callbacks : ℕ → Callbacks Reached
  unfolding allocate_request internal_on_request_ready
  callbacks fd = record {
    allocate_request = λ s id. allocate_request fd s id;
    on_request_ready = λ s r. internal_on_request_ready s r;
  }

  abbrev pub is_close : Status → Bool
  is_close ok = false
  is_close close = true

  -- What `process_buffer` leaves at the connection and in the globals.
  unfoldable pub process_fcgi : ℕ → Connection → Loop → Connection × Loop
  unfolding process_buffer callbacks
  process_fcgi fd c g =
      let p = process_buffer settings.limits (callbacks fd) c.in_buf (record {
        requests = c.requests;
        out_buf = c.out_buf;
        outside = record {
          manager = g.manager;
          active_workers = c.active_workers;
          queued = g.queued;
        };
      }) in
      elim c.closed [
        | true ↦ (c, g)
        | false ↦ (
          record c {
            in_buf = p.in_buf;
            requests = p.state.requests;
            out_buf = p.state.out_buf;
            active_workers = p.state.outside.active_workers;
            closed = is_close p.status;
            waiting_for_arena = p.waiting;
          },
          record g { manager = p.state.outside.manager; queued = p.state.outside.queued },
        )
      ]

  -- `flush_connection` on a connection of the loop.
  unfoldable pub flush : ℕ → Connection → Loop → Loop
  unfolding flush_connection put_conn
  flush fd c g =
      let f = flush_connection (settings.sends fd) c [] in
      record g {
        conns = put_conn fd f.conn g.conns;
        wire = g.wire ++ (fd, f.wire) ∷ [];
        close_queue = if f.queues_close then g.close_queue ++ fd ∷ [] else g.close_queue;
      }

  -- One waiting connection: what is left of the budget, and the loop's state.
  unfoldable pub serve_waiting : ℕ → Connection → ℕ → Loop → ℕ × Loop
  unfolding process_fcgi flush put_conn
  serve_waiting fd c budget g =
      let (c', g') = process_fcgi fd c g in
      let stored : Loop = record g' { conns = put_conn fd c' g'.conns } in
      if c.waiting_for_arena && not c'.waiting_for_arena
      then (budget - 1, flush fd c' g')
      else if c'.waiting_for_arena
      then (budget, record stored { waiting_conns = stored.waiting_conns ++ fd ∷ [] })
      else (budget, stored)

  -- The loop, with `n` rounds left: each takes one connection off the queue.
  unfoldable pub waiting_loop : ℕ → ℕ → Loop → Loop
  unfolding serve_waiting find_conn
  waiting_loop zero budget g = g
  waiting_loop (suc n) zero g = g
  waiting_loop (suc n) (suc budget) g = elim g.waiting_conns [
    | [] ↦ g
    | fd ∷ rest ↦
        let popped : Loop = record g { waiting_conns = rest } in
        elim (find_conn fd g.conns) [
          | none ↦ waiting_loop n (suc budget) popped
          | some c ↦ elim c.closed [
            | true ↦ waiting_loop n (suc budget) popped
            | false ↦
                let (budget', g') = serve_waiting fd c (suc budget) popped in
                waiting_loop n budget' g'
          ]
        ]
  ]

  unfoldable pub process_waiting_connections : Loop → Loop
  unfolding waiting_loop
  process_waiting_connections g = waiting_loop (length g.waiting_conns) g.manager.available_count g

  -- `release_request`, with `resume_accept`. The request's destructor frees memory only.
  unfoldable pub release_request : Request → Loop → Loop
  unfolding release process_waiting_connections
  release_request r g =
      let manager = release g.manager (some r.arena) in
      process_waiting_connections (record g {
        manager = manager;
        accept_paused = if ltb 0 manager.available_count then false else g.accept_paused;
      })

  -- The files that are removed. The body and the list of files go with the request.
  unfoldable pub finalize_request : Request → Loop → Loop
  unfolding temp_paths
  finalize_request r g = elim r.files [
    | array fs ↦
        if not settings.keep_uploaded_files && settings.cleanup_temp_on_disconnect
        then record g { unlinks = g.unlinks ++ temp_paths fs }
        else g
    | _ ↦ g
  ]

  -- The loop of `cleanup_connection_requests`, on the requests as they were at its start.
  unfoldable pub cleanup_loop : List (ℕ × Request) → Loop → Loop
  unfolding finalize_request release_request
  cleanup_loop [] g = g
  cleanup_loop ((id, r) ∷ rs) g =
      let finalized = if r.flags.responded then g else finalize_request r g in
      cleanup_loop rs (release_request r finalized)

  -- Cleaning up, `close`, and the end of the entry: the common part of `close_connection` and of
  -- `housekeeping_close_idle`.
  unfoldable pub drop_connection : ℕ → Connection → Loop → Loop
  unfolding cleanup_loop erase_conn
  drop_connection fd c g =
      let cleaned = cleanup_loop c.requests g in
      record cleaned { conns = erase_conn fd cleaned.conns; closings = cleaned.closings ++ fd ∷ [] }

  unfoldable pub close_connection : ℕ → Loop → Loop
  unfolding find_conn drop_connection
  close_connection fd g = elim (find_conn fd g.conns) [ none ↦ g | some c ↦ drop_connection fd c g ]
