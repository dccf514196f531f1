-- ===== src/Connection/Run.antt =====
-- src/fcgi-connection.cpp: `create_listen_socket`, `run` and `serve`, with `modify_listen_interest`.
-- What the operating system answers is an argument, and the calls that open or close a descriptor are
-- recorded in order. A list of rounds is what `epoll_wait` gave so far, with the tasks that workers ran
-- between two rounds.
pub mod Descriptors
pub mod Arenas
use wasapi.Base.{
  ℕ, Bool, true, false, ◌&&◌, not, Option, none, some, List, [], ◌∷◌, ◌++◌, Bytes, ◌==◌,
  if◌then◌else◌, ◌%◌, ◌^◌,
}
use wasapi.Config.Args.{GlobalConfig}
use wasapi.Request.{Request}
use wasapi.Connection.{Connection, Loop}
use wasapi.Connection.Requests.{Settings, cleanup_loop}
use wasapi.Connection.Ready.{Worker, run_task, process_pending_output}
use wasapi.Connection.Events.{Event, handle_new_connections, handle_io, housekeeping_close_idle}

pub data Call : Type 0 where
  opens closes : ℕ → Call
  unlinks chmods : Bytes → Call
  mask_off mask_back : Call

-- The answers to `socket`, `bind`, `chmod`, `listen` and `set_non_blocking`.
pub record Answers : Type 0 where
  pub socket : Option ℕ
  pub bind : Bool
  pub listen : Bool
  pub nonblock : Bool

-- The end of `create_listen_socket`: the socket is closed when `listen` or the last call fails.
unfoldable pub start_listening : Answers → ℕ → Option ℕ × List Call
start_listening answers fd =
    if not answers.listen
    then (none, closes fd ∷ [])
    else if not answers.nonblock
    then (none, closes fd ∷ [])
    else (some fd, [])

unfoldable pub unix_socket : Bytes → Answers → ℕ → Option ℕ × List Call
unfolding start_listening
unix_socket path answers fd =
    let (result, calls) = start_listening answers fd in
    if not answers.bind
    then (none, mask_off ∷ mask_back ∷ closes fd ∷ [])
    else (result, mask_off ∷ mask_back ∷ chmods path ∷ calls)

unfoldable pub inet_socket : Answers → ℕ → Option ℕ × List Call
unfolding start_listening
inet_socket answers fd =
    let (result, calls) = start_listening answers fd in
    if not answers.bind then (none, closes fd ∷ []) else (result, calls)

-- With the path of the configuration: the descriptor, or nothing for -1.
unfoldable pub create_listen_socket : Bytes → Answers → Option ℕ × List Call
unfolding unix_socket inet_socket
create_listen_socket [] answers = elim answers.socket [
  | none ↦ (none, [])
  | some fd ↦ let (result, calls) = inet_socket answers fd in (result, opens fd ∷ calls)
]
create_listen_socket (c ∷ path) answers = elim answers.socket [
  | none ↦ (none, unlinks (c ∷ path) ∷ [])
  | some fd ↦
      let (result, calls) = unix_socket (c ∷ path) answers fd in
      (result, unlinks (c ∷ path) ∷ opens fd ∷ calls)
]

-- The answers to `epoll_create1`, `eventfd`, `timerfd_create`, `timerfd_settime` and the calls of
-- `epoll_ctl`.
pub record Setup : Type 0 where
  pub epoll : Option ℕ
  pub event : Option ℕ
  pub add_event : Bool
  pub add_listen : Bool
  pub timer : Option ℕ
  pub set_timer : Bool
  pub add_timer : Bool

-- `g_eventfd`, which is given up when it cannot be watched.
unfoldable pub make_event : Setup → Option ℕ × List Call
make_event setup = elim setup.event [
  | none ↦ (none, [])
  | some fd ↦
      if setup.add_event then (some fd, opens fd ∷ []) else (none, opens fd ∷ closes fd ∷ [])
]

unfoldable pub make_timer : Setup → Option ℕ × List Call
make_timer setup = elim setup.timer [
  | none ↦ (none, [])
  | some fd ↦
      if not setup.set_timer
      then (none, opens fd ∷ closes fd ∷ [])
      else if not setup.add_timer
      then (none, opens fd ∷ closes fd ∷ [])
      else (some fd, opens fd ∷ [])
]

unfoldable pub close_if_made : Option ℕ → List Call
close_if_made none = []
close_if_made (some fd) = closes fd ∷ []

-- The set-up of `run` behind `epoll_create1`, and its end: the result, and the calls on the descriptors of
-- `run` itself. The loop between them is `run_loop`, whose calls of `close` are recorded in its state.
unfoldable pub run_on : ℕ → Setup → ℕ × List Call
unfolding make_event make_timer close_if_made
run_on epfd setup =
    let (event, made) = make_event setup in
    let (timer, timed) = make_timer setup in
    let stopped : ℕ × List Call = (1, opens epfd ∷ (made ++ closes epfd ∷ [])) in
    let ended : ℕ × List Call = (
      0,
      opens epfd
          ∷ (made ++ (timed ++ (closes epfd ∷ (close_if_made event ++ close_if_made timer)))),
    ) in
    if not setup.add_listen then stopped else ended

unfoldable pub run_calls : Setup → ℕ × List Call
unfolding run_on
run_calls setup = elim setup.epoll [ none ↦ (1, []) | some epfd ↦ run_on epfd setup ]

-- One entry of `events`, with what the system calls of its handler will give.
pub record Ready : Type 0 where
  pub fd : ℕ
  pub event : Event
  pub accepted : List ℕ
  pub settings : Settings

-- What `epoll_wait` gives, or a task of the pool that runs between two calls of it.
pub data Turn : Type 0 where
  interrupted failed works : Turn
  ready : List Ready → Turn

unfoldable pub is_fd : Option ℕ → ℕ → Bool
is_fd none fd = false
is_fd (some j) fd = fd == j

-- The descriptors that `run` watches on its own behalf.
pub record Watched : Type 0 where
  pub listen_fd : ℕ
  pub eventfd : Option ℕ
  pub timerfd : Option ℕ

module _ {W : Type 0} (worker : Worker W) (handler : Request → W → (Request × Bytes) × W)
    (watched : Watched) where
  -- The body of the loop on the events.
  unfoldable pub dispatch : Ready → Loop → W → Loop × W
  unfolding is_fd handle_new_connections process_pending_output housekeeping_close_idle handle_io
  dispatch r g w =
      if r.fd == watched.listen_fd
      then (handle_new_connections r.accepted g, w)
      else if is_fd watched.eventfd r.fd
      then process_pending_output handler g w
      else if is_fd watched.timerfd r.fd
      then (housekeeping_close_idle r.settings g, w)
      else (handle_io r.settings r.fd r.event g, w)

  unfoldable pub events_loop : List Ready → Loop → W → Loop × W
  unfolding dispatch
  events_loop [] g w = (g, w)
  events_loop (r ∷ rs) g w = let (g', w') = dispatch r g w in events_loop rs g' w'

  -- The loop of `run`, as far as the rounds go. An error of `epoll_wait` ends it.
  unfoldable pub run_loop : List Turn → Loop → W → Loop × W
  unfolding events_loop run_task
  run_loop [] g w = (g, w)
  run_loop (interrupted ∷ rounds) g w = run_loop rounds g w
  run_loop (failed ∷ rounds) g w = (g, w)
  run_loop (works ∷ rounds) g w = let (g', w') = run_task worker g w in run_loop rounds g' w'
  run_loop (ready rs ∷ rounds) g w = let (g', w') = events_loop rs g w in run_loop rounds g' w'

-- The end of `serve`: every connection is cleaned up and closed.
unfoldable pub close_all : Settings → List (ℕ × Connection) → Loop → Loop
unfolding cleanup_loop
close_all settings [] g = record g { conns = [] }
close_all settings ((fd, c) ∷ cs) g =
    let cleaned = cleanup_loop settings c.requests g in
    close_all settings cs (record cleaned { closings = cleaned.closings ++ fd ∷ [] })

-- The configuration that `create_listen_socket` sees: the arguments of `serve` are put into it, and the
-- old values back.
unfoldable pub listen_config : ℕ → Bytes → GlobalConfig → GlobalConfig
listen_config port path config = record config {
  fcgi_port = port % 2 ^ 16;
  fcgi_socket_path = path;
}

unfoldable pub unlink_path : Bytes → List Call
unlink_path [] = []
unlink_path (c ∷ path) = unlinks (c ∷ path) ∷ []

-- The result of `serve` and the calls on its own descriptors.
unfoldable pub serve_calls : ℕ → Bytes → GlobalConfig → Answers → Setup → ℕ × List Call
unfolding create_listen_socket run_calls listen_config unlink_path
serve_calls port path config answers setup =
    let (listen_fd, made) =
      create_listen_socket (listen_config port path config).fcgi_socket_path answers in
    elim listen_fd [
      | none ↦ (1, made)
      | some fd ↦
          let (rc, ran) = run_calls setup in (rc, made ++ (ran ++ (closes fd ∷ unlink_path path)))
    ]
