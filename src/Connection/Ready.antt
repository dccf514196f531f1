-- ===== src/Connection/Ready.antt =====
-- src/fcgi-connection.cpp: the task that `internal_on_request_ready` gives to the worker pool, and
-- `process_pending_output`, which runs the handler.
use wasapi.Base.{
  ℕ, ◌-◌, Bool, true, false, none, some, List, [], ◌∷◌, ◌++◌, Bytes, codes, length, ◌==◌,
  if◌then◌else◌,
}
use wasapi.Dynamic.{string, assign, find}
use wasapi.Request.{Request}
use wasapi.Config.{parse_endpoint_file}
use wasapi.Http.Cookies.{parse_cookie_header}
use wasapi.Http.Query.{parse_query_variable}
use wasapi.Http.Multipart.{System}
use wasapi.Http.Forms.{parse_form_data}
use wasapi.Session.{Services, session_start}
use wasapi.Fastcgi.Process.{lookup, insert}
use wasapi.Connection.{Connection, Loop, find_conn, put_conn}
use wasapi.Connection.Output.{update_write_interest}

-- The configuration of a worker, and the libraries it calls. `read_file` is `read_entire_file_cached`.
pub record Worker (W : Type 0) : Type 0 where
  pub sys : System W
  pub services : Services W
  pub read_file : Bytes → Bytes
  pub print_size : ℕ → Bytes
  pub print_double : ℕ → Bytes
  pub double_of : ℕ → ℕ
  pub upload_tmp_dir : Bytes
  pub endpoint_file_path : Bytes
  pub http_cookies_var : Bytes
  pub http_query_var : Bytes
  pub session_auto_load : Bool
  pub default_content_type : Bytes

module _ {W : Type 0} (worker : Worker W) where
  -- A session is started for a request that came with a cookie of the session's name.
  unfoldable pub auto_session : Request → W → Request × W
  unfolding find session_start
  auto_session r w =
      let started = session_start worker.services r w in
      elim (find r.cookies worker.services.session_cookie_name) [
        | none ↦ (r, w)
        | some v ↦ elim v [
          | string sid ↦ if worker.session_auto_load then started else (r, w)
          | _ ↦ (r, w)
        ]
      ]

  -- What the task makes of a request before the handler sees it.
  unfoldable pub prepare_request : Request → W → Request × W
  unfolding parse_endpoint_file parse_cookie_header parse_query_variable parse_form_data
      auto_session
  prepare_request r w =
      let read : Request = record r {
        context = parse_endpoint_file worker.read_file (find r.env worker.endpoint_file_path);
        cookies =
            parse_cookie_header worker.print_double r.cookies (find r.env worker.http_cookies_var);
        params =
            parse_query_variable worker.print_double r.params (find r.env worker.http_query_var);
      } in
      let (formed, w1) =
        parse_form_data worker.services.stod worker.print_size worker.sys worker.double_of
          worker.upload_tmp_dir read w in
      let (started, w2) = auto_session formed w1 in
      (
        record started {
          headers =
              assign started.headers (codes "Content-Type") (string worker.default_content_type);
        },
        w2,
      )

  -- The end of the task: the worker leaves the connection.
  unfoldable pub leave : ℕ → ℕ → Request → Connection → Loop → Loop
  unfolding insert put_conn
  leave fd id r c g = record g {
    conns =
        put_conn fd
          (record c {
            requests = insert id (record r { worker_active = false }) c.requests;
            active_workers = c.active_workers - 1;
          })
          g.conns;
  }

  -- The task, on a connection and a request that are still there.
  unfoldable pub work : ℕ → ℕ → Request → Connection → Loop → W → Loop × W
  unfolding prepare_request leave
  work fd id r c g w =
      let (prepared, w') = prepare_request r w in
      elim r.flags.responded [
        | true ↦ (leave fd id r c g, w)
        | false ↦ elim c.closed [
          | true ↦ (leave fd id r c g, w)
          | false ↦ (
            leave fd id prepared c
                (record g { pending_output = g.pending_output ++ (fd, id) ∷ [] }),
            w',
          )
        ]
      ]

  -- The pool runs its oldest task. One whose request is gone, which in C++ is a pointer to freed memory,
  -- is taken off without effect.
  unfoldable pub run_task : Loop → W → Loop × W
  unfolding work find_conn lookup
  run_task g w = elim g.queued [
    | [] ↦ (g, w)
    | (fd, id) ∷ rest ↦
        let taken : Loop = record g { queued = rest } in
        elim (find_conn fd g.conns) [
          | none ↦ (taken, w)
          | some c ↦ elim (lookup id c.requests) [
            | none ↦ (taken, w)
            | some r ↦ work fd id r c taken w
          ]
        ]
  ]

-- Output goes behind what is there; a connection that had nothing to send asks to be told when it can.
unfoldable pub append_output : Connection → Bytes → Connection
unfolding update_write_interest
append_output c [] = c
append_output c (b ∷ out) =
    let grown : Connection = record c { out_buf = c.out_buf ++ b ∷ out } in
    if c.out_pos == length c.out_buf then update_write_interest grown true else grown

module _ {W : Type 0} (handler : Request → W → (Request × Bytes) × W) where
  -- `handler` is `g_user_request_ready`.
  unfoldable pub answer : ℕ → ℕ → Request → Connection → Loop → W → Loop × W
  unfolding append_output insert put_conn
  answer fd id r c g w =
      let ((r', out), w') = handler r w in
      (
        record g {
          conns =
              put_conn fd (append_output (record c { requests = insert id r' c.requests }) out)
                g.conns;
        },
        w',
      )

  unfoldable pub answer_live : ℕ → ℕ → Request → Connection → Loop → W → Loop × W
  unfolding answer
  answer_live fd id r c g w = elim r.flags.responded [
    | true ↦ (g, w)
    | false ↦ elim c.closed [ true ↦ (g, w) | false ↦ answer fd id r c g w ]
  ]

  -- The loop on the requests that were pending.
  unfoldable pub pending_loop : List (ℕ × ℕ) → Loop → W → Loop × W
  unfolding answer_live find_conn lookup
  pending_loop [] g w = (g, w)
  pending_loop ((fd, id) ∷ rest) g w = elim (find_conn fd g.conns) [
    | none ↦ pending_loop rest g w
    | some c ↦ elim (lookup id c.requests) [
      | none ↦ pending_loop rest g w
      | some r ↦ let (g', w') = answer_live fd id r c g w in pending_loop rest g' w'
    ]
  ]

  unfoldable pub process_pending_output : Loop → W → Loop × W
  unfolding pending_loop
  process_pending_output g w = pending_loop g.pending_output (record g { pending_output = [] }) w
