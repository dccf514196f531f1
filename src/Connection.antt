-- ===== src/Connection.antt =====
-- src/fcgi-connection.cpp: the connections of the FastCGI server and their requests.
-- The state of the event loop is one record. A connection is named by its descriptor. The parts are
-- Connection/Output (writing and closing), Connection/Requests (arenas and clean-up), Connection/Ready
-- (what a worker does) and Connection/Events (the handlers of the loop).
pub mod Output
pub mod Requests
pub mod Ready
pub mod Events
pub mod Arenas
pub mod Run
pub mod Twice
use wasapi.Base.{
  ℕ, ◌+◌, Bool, true, false, ◌&&◌, not, Option, none, some, List, [], ◌∷◌, Bytes, length, ◌==◌,
  if◌then◌else◌,
}
use wasapi.Request.{Request}
use wasapi.Memory.{Manager}

-- `out_pos` counts the bytes of `out_buf` that are sent. `writes` says whether EPOLLOUT is in
-- `epoll_mask`: the other two bits are always set.
pub record Connection : Type 0 where
  pub in_buf : Bytes
  pub out_buf : Bytes
  pub out_pos : ℕ
  pub requests : List (ℕ × Request)
  pub closed : Bool
  pub waiting_for_arena : Bool
  pub active_workers : ℕ
  pub writes : Bool
  pub want_write_interest : Bool

-- `Connection{}`.
abbrev pub new_connection : Connection
new_connection = record {
  in_buf = [];
  out_buf = [];
  out_pos = 0;
  requests = [];
  closed = false;
  waiting_for_arena = false;
  active_workers = 0;
  writes = false;
  want_write_interest = false;
}

-- The globals of the file, and the arena manager. `queued` and `pending_output` hold requests by their
-- connection and id: the tasks of the worker pool, and `g_pending_output`. `closings` are the calls of
-- `close`, `unlinks` those of `unlink`, `wire` what each connection has sent, all in order.
pub record Loop : Type 0 where
  pub conns : List (ℕ × Connection)
  pub manager : Manager
  pub close_queue : List ℕ
  pub waiting_conns : List ℕ
  pub queued : List (ℕ × ℕ)
  pub pending_output : List (ℕ × ℕ)
  pub accept_paused : Bool
  pub closings : List ℕ
  pub unlinks : List Bytes
  pub wire : List (ℕ × Bytes)

-- `g_conns.find(fd)`, `g_conns[fd] = c` and `g_conns.erase(fd)`.
unfoldable pub find_conn : ℕ → List (ℕ × Connection) → Option Connection
find_conn fd [] = none
find_conn fd ((j, c) ∷ cs) = if j == fd then some c else find_conn fd cs

unfoldable pub put_conn : ℕ → Connection → List (ℕ × Connection) → List (ℕ × Connection)
put_conn fd c [] = (fd, c) ∷ []
put_conn fd c ((j, d) ∷ cs) = if j == fd then (j, c) ∷ cs else (j, d) ∷ put_conn fd c cs

unfoldable pub erase_conn : ℕ → List (ℕ × Connection) → List (ℕ × Connection)
erase_conn fd [] = []
erase_conn fd ((j, d) ∷ cs) = if j == fd then cs else (j, d) ∷ erase_conn fd cs

-- The loop of `should_close_connection`: all requests answered, and none of them keeps the connection.
-- It stops at the first request that settles the matter.
unfoldable pub none_open : List (ℕ × Request) → Bool
none_open [] = true
none_open ((id, r) ∷ rs) =
    let rest = none_open rs in
    if r.flags.responded then (if r.flags.keep_connection then false else rest) else false

unfoldable pub should_close_connection : Connection → Bool
unfolding none_open
should_close_connection c =
    if c.closed
    then c.active_workers == 0 && c.out_pos == length c.out_buf
    else none_open c.requests && (c.out_pos == length c.out_buf && c.active_workers == 0)
