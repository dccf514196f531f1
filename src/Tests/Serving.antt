-- ===== src/Tests/Serving.antt =====
-- Concrete runs of the loops that serve connections in src/fcgi-connection.cpp and src/websockets.cpp.
use wasapi.Base.{ℕ, ◌≡◌, refl, true, false, none, some, List, [], ◌∷◌, ◌++◌, Bytes, codes, arith}
use wasapi.Request.{Request}
use wasapi.Memory.Kept.{IsPool, create_arenas-IsPool}
use wasapi.Http.Multipart.{System}
use wasapi.Connection.Ready.{Worker}
use wasapi.Connection.Run.{
  Answers, Setup, Ready, Turn, ready, works, interrupted, Watched, create_listen_socket, make_event,
  run_on, run_loop,
}
use wasapi.Connection.Run.Arenas.{run_loop-IsPool}
use wasapi.Connection.Run.Descriptors.{
  still_open, given, create_listen_socket-still_open, run_on-still_open,
}
use wasapi.Websockets.Delivery.{Outlet, PendingFrame, deliver}
use wasapi.Websockets.Delivery.Frames.{buffer, frames_for, buffer-deliver}
use wasapi.Tests.Connection.{settings, loop_with, full}
use wasapi.Tests.Files.{services}

abbrev system : System ℕ
system = record { mkstemp = λ pattern w. (none, w); write = λ fd s w. (0, w); close = λ fd w. w }

abbrev worker : Worker ℕ
worker = record {
  sys = system;
  services = services;
  read_file = λ path. [];
  print_size = λ n. [];
  print_double = λ n. [];
  double_of = λ n. n;
  upload_tmp_dir = codes "/tmp";
  endpoint_file_path = [];
  http_cookies_var = codes "HTTP_COOKIE";
  http_query_var = codes "QUERY_STRING";
  session_auto_load = false;
  default_content_type = codes "text/html";
}

abbrev handler : Request → ℕ → (Request × Bytes) × ℕ
handler r w = ((r, codes "ok"), w)

abbrev watched : Watched
watched = record { listen_fd = 3; eventfd = some 4; timerfd = none }

abbrev event : ℕ → Ready
event fd = record {
  fd = fd;
  event = record {
    hangup = false;
    input = true;
    output = false;
    received = 1 ∷ 1 ∷ [];
    ended = true;
  };
  accepted = 7 ∷ 8 ∷ [];
  settings = settings;
}

-- Two connections are accepted, one of them sends two bytes and ends, and a worker looks for a task.
abbrev rounds : List Turn
rounds = ready (event 3 ∷ []) ∷ works ∷ interrupted ∷ ready (event 7 ∷ event 4 ∷ []) ∷ []

run_loop-IsPool_example :
    IsPool 1 (run_loop worker handler watched rounds (loop_with full) 0).0.manager
run_loop-IsPool_example =
    run_loop-IsPool worker handler watched 1 rounds (loop_with full) 0 (create_arenas-IsPool 1 1024)

-- `listen` fails.
abbrev answers : Answers
answers = record { socket = some 3; bind = true; listen = false; nonblock = true }

create_listen_socket-still_open_example :
    still_open (create_listen_socket (codes "/run/s") answers).1 []
    ≡ given (create_listen_socket (codes "/run/s") answers).0
create_listen_socket-still_open_example = create_listen_socket-still_open (codes "/run/s") answers

-- The listening socket cannot be watched.
abbrev setup : Setup
setup = record {
  epoll = some 5;
  event = some 6;
  add_event = true;
  add_listen = false;
  timer = some 7;
  set_timer = true;
  add_timer = true;
}

run_on-still_open_example : still_open (run_on 5 setup).1 [] ≡ 6 ∷ []
unfolding make_event given
run_on-still_open_example =
    run_on-still_open 5 setup (λ fd e. ground (arith, e)) (λ fd e. ground (arith, e))

abbrev outlet : Outlet
outlet = record { out_buf = codes "a"; closed = false; close_after_write = false; writes = false }

abbrev frames : List PendingFrame
frames = record { fd = 9; frame = codes "b" } ∷ record { fd = 8; frame = codes "c" } ∷ []

buffer-deliver_example :
    buffer 9 (deliver frames ((9, outlet) ∷ [])) ≡ some (codes "a" ++ frames_for 9 frames)
unfolding buffer
buffer-deliver_example = buffer-deliver 9 frames ((9, outlet) ∷ []) (codes "a") refl
