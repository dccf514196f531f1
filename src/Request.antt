-- ===== src/Request.antt =====
-- src/request.h and src/request.cpp: a request. The bits of `flags` are the fields of `Flags`. An
-- `Arena*` is the arena's place in its manager, and `conn_ptr` the descriptor of its connection. Times
-- are in nanoseconds.
use wasapi.Base.{ℕ, Bool, false, Option, none, [], Bytes, codes}
use wasapi.Dynamic.{Value, object, array, number, end, stop, field}

pub record Flags : Type 0 where
  pub initialized : Bool
  pub keep_connection : Bool
  pub params_complete : Bool
  pub input_complete : Bool
  pub responded : Bool
  pub aborted : Bool
  pub failed : Bool

pub record Request : Type 0 where
  pub id : ℕ
  pub arena : ℕ
  pub conn_ptr : Option ℕ
  pub worker_active : Bool
  pub start_time_sec : ℕ
  pub flags : Flags
  pub env : Value
  pub params : Value
  pub cookies : Value
  pub headers : Value
  pub files : Value
  pub session : Value
  pub context : Value
  pub session_id : Bytes
  pub body : Bytes
  pub params_bytes : ℕ
  pub body_bytes : ℕ

abbrev pub no_flags : Flags
no_flags = record {
  initialized = false;
  keep_connection = false;
  params_complete = false;
  input_complete = false;
  responded = false;
  aborted = false;
  failed = false;
}

-- `Request(ar)` over the arena at a place; `flag_value` is its `management_flag` as a double, `now` the
-- monotonic clock.
unfoldable pub new_request : ℕ → ℕ → ℕ → Request
new_request place flag_value now = record {
  id = 0;
  arena = place;
  conn_ptr = none;
  worker_active = false;
  start_time_sec = now;
  flags = no_flags;
  env = object (field (codes "DBG_ARENA") (number flag_value) end);
  params = object end;
  cookies = object end;
  headers = object end;
  files = array stop;
  session = object end;
  context = object end;
  session_id = [];
  body = [];
  params_bytes = 0;
  body_bytes = 0;
}
