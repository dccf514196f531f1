-- ===== src/Connection/Events.antt =====
-- src/fcgi-connection.cpp: `handle_new_connections`, `handle_io` and `housekeeping_close_idle`.
pub mod Closing
use wasapi.Base.{
  ℕ, zero, suc, ◌+◌, ◌-◌, Bool, true, false, ◌&&◌, ◌||◌, not, Option, none, some, List, [], ◌∷◌,
  ◌++◌, Bytes, ltb, ◌==◌, if◌then◌else◌,
}
use wasapi.Request.{Request}
use wasapi.Fastcgi.Records.{append_end_request, overloaded}
use wasapi.Connection.{
  Connection, Loop, new_connection, find_conn, put_conn, erase_conn, should_close_connection,
}
use wasapi.Connection.Requests.{
  Settings, process_fcgi, flush, release_request, finalize_request, drop_connection,
  close_connection,
}

-- `accept` gives the descriptors in turn, and would block when they are used up. `pause_accept` takes the
-- listening socket out of epoll.
unfoldable pub accept_loop : List ℕ → Loop → Loop
unfolding put_conn
accept_loop [] g = g
accept_loop (fd ∷ fds) g =
    let added : Loop = record g { conns = put_conn fd (opened fd) g.conns } in
    let rest = accept_loop fds added in
    if g.manager.available_count == 0 then record added { accept_paused = true } else rest
  where
    opened : ℕ → Connection
    opened fd = elim (find_conn fd g.conns) [ none ↦ new_connection | some c ↦ c ]

unfoldable pub handle_new_connections : List ℕ → Loop → Loop
unfolding accept_loop
handle_new_connections fds g =
    let accepted = accept_loop fds g in
    if g.manager.available_count == 0 then record g { accept_paused = true } else accepted

-- An event on a descriptor: its bits, the bytes that `recv` gave, and whether it ended with 0 or an error
-- rather than because it would block.
pub record Event : Type 0 where
  pub hangup : Bool
  pub input : Bool
  pub output : Bool
  pub received : Bytes
  pub ended : Bool

-- `c.requests.erase(it)`.
unfoldable pub erase_request : ℕ → List (ℕ × Request) → List (ℕ × Request)
erase_request id [] = []
erase_request id ((j, r) ∷ rs) = if j == id then rs else (j, r) ∷ erase_request id rs

module _ (settings : Settings) where
  abbrev pub conn_at : ℕ → Loop → Connection
  conn_at fd g = elim (find_conn fd g.conns) [ none ↦ new_connection | some c ↦ c ]

  -- Changing a connection of the loop.
  unfoldable pub update_conn : ℕ → (Connection → Connection) → Loop → Loop
  unfolding put_conn find_conn
  update_conn fd f g = record g { conns = put_conn fd (f (conn_at fd g)) g.conns }

  -- The bytes of the event go behind the input, which is processed, and the output is sent.
  unfoldable pub read_conn : ℕ → Event → Connection → Loop → Loop
  unfolding process_fcgi flush
  read_conn fd e c g =
      let filled : Connection = record c {
        in_buf = c.in_buf ++ e.received;
        closed = c.closed || e.ended;
      } in
      let (c', g') = process_fcgi settings fd filled g in
      flush settings fd c' (
        if not c.waiting_for_arena && c'.waiting_for_arena
        then record g' { waiting_conns = g'.waiting_conns ++ fd ∷ [] }
        else g')

  unfoldable pub read_input : ℕ → Event → Loop → Loop
  unfolding read_conn
  read_input fd e g = read_conn fd e (conn_at fd g) g

  unfoldable pub drop_request : ℕ → ℕ → Request → Loop → Loop
  unfolding release_request update_conn erase_request
  drop_request fd id r g =
      update_conn fd (λ c. record c { requests = erase_request id c.requests })
        (release_request settings r g)

  -- The loop on the requests of the connection: those that are answered, failed or aborted go, unless a
  -- worker has them.
  unfoldable pub sweep_loop : ℕ → List (ℕ × Request) → Loop → Loop
  unfolding finalize_request drop_request
  sweep_loop fd [] g = g
  sweep_loop fd ((id, r) ∷ rs) g = elim r.worker_active [
    | true ↦ sweep_loop fd rs g
    | false ↦ elim r.flags.responded [
      | true ↦ sweep_loop fd rs (drop_request fd id r (finalize_request settings r g))
      | false ↦ elim (r.flags.failed || r.flags.aborted) [
        | true ↦ sweep_loop fd rs (drop_request fd id r g)
        | false ↦ sweep_loop fd rs g
      ]
    ]
  ]

  -- One descriptor of the queue of closes, with the connection that `g_conns[cfd]` found or made.
  unfoldable pub close_one : ℕ → Connection → Loop → Loop
  unfolding put_conn should_close_connection close_connection
  close_one cfd c g =
      let looked_up : Loop = record g { conns = put_conn cfd c g.conns } in
      elim (should_close_connection c) [
        | true ↦ close_connection settings cfd looked_up
        | false ↦ looked_up
      ]

  -- The loop on the queue, which is taken off first.
  unfoldable pub close_loop : List ℕ → Loop → Loop
  unfolding find_conn close_one
  close_loop [] g = g
  close_loop (cfd ∷ cfds) g = close_loop cfds (close_one cfd (conn_at cfd g) g)

  -- The end of `handle_io`.
  unfoldable pub close_queued : ℕ → Loop → Loop
  unfolding should_close_connection close_loop
  close_queued fd g =
      let queue =
        if should_close_connection (conn_at fd g)
        then g.close_queue ++ fd ∷ []
        else g.close_queue in
      close_loop queue (record g { close_queue = [] })

  unfoldable pub serve_events : ℕ → Event → Loop → Loop
  unfolding update_conn read_input flush sweep_loop close_queued
  serve_events fd e g =
      let hung : Loop =
        if e.hangup then update_conn fd (λ c. record c { closed = true }) g else g in
      let fed = if e.input then read_input fd e hung else hung in
      let flushed = if e.output then flush settings fd (conn_at fd fed) fed else fed in
      close_queued fd (sweep_loop fd (conn_at fd flushed).requests flushed)

  unfoldable pub handle_io : ℕ → Event → Loop → Loop
  unfolding serve_events find_conn
  handle_io fd e g = elim (find_conn fd g.conns) [ none ↦ g | some c ↦ serve_events fd e g ]

  -- A request that runs for too long fails, with an end record of its own.
  unfoldable pub expire : Request → Bytes → Request × Bytes
  unfolding append_end_request
  expire r out =
      if not r.flags.responded
        && (ltb 0 settings.max_request_time
            && ltb settings.max_request_time (settings.now - r.start_time_sec))
      then (
        record r { flags = record (r.flags) { failed = true; responded = true } },
        append_end_request out r.id 0 overloaded,
      )
      else (r, out)

  unfoldable pub expire_all : List (ℕ × Request) → Bytes → List (ℕ × Request) × Bytes
  unfolding expire
  expire_all [] out = ([], out)
  expire_all ((id, r) ∷ rs) out =
      let (r', out') = expire r out in
      let (rs', out'') = expire_all rs out' in ((id, r') ∷ rs', out'')

  -- The first loop: the connections after it, and those to close.
  unfoldable pub expire_conns : List (ℕ × Connection) → List (ℕ × Connection) × List ℕ
  unfolding expire_all should_close_connection
  expire_conns [] = ([], [])
  expire_conns ((fd, c) ∷ cs) =
      let (rs, out) = expire_all c.requests c.out_buf in
      let c' : Connection = record c { requests = rs; out_buf = out } in
      let (cs', fds) = expire_conns cs in
      ((fd, c') ∷ cs', if should_close_connection c' then fd ∷ fds else fds)

  unfoldable pub drop_loop : List ℕ → Loop → Loop
  unfolding close_connection
  drop_loop [] g = g
  drop_loop (fd ∷ fds) g = drop_loop fds (close_connection settings fd g)

  unfoldable pub housekeeping_close_idle : Loop → Loop
  unfolding expire_conns drop_loop
  housekeeping_close_idle g =
      let (cs, fds) = expire_conns g.conns in drop_loop fds (record g { conns = cs })
