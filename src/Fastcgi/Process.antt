-- ===== src/Fastcgi/Process.antt =====
-- src/fastcgi.cpp: `decode_length`, `fail_request` and `process_buffer`.
-- The callbacks of `process_buffer`, `allocate_request` and `on_request_ready`, are parameters over a
-- state `S` of their own. `requests` is an association list; a `Request*` is its id's entry there.
pub mod Ends
pub mod Front
pub mod Chunks
pub mod Bounds
pub mod Outside
pub mod Retry
pub mod Whole
pub mod Others
use wasapi.Base.{
  ℕ, zero, suc, ◌+◌, ◌*◌, ◌^◌, Bool, true, false, ◌&&◌, not, Option, none, some, List, [], ◌∷◌,
  ◌++◌, Bytes, length, take, drop, get_or, ltb, leb, ◌==◌, if◌then◌else◌, bit_and,
}
use wasapi.Dynamic.{string, assign}
use wasapi.Request.{Flags, Request}
use wasapi.Fastcgi.Records.{
  Header, read_header, begin_request, abort_request, params, stdin, request_complete, overloaded,
  append_end_request,
}

-- One length and the bytes behind it: one byte, or four with the top bit set, high byte first. The
-- bytes are shifted to disjoint places, so `|` is `+`. Fewer than four bytes end the input.
unfoldable pub decode_length : Bytes → ℕ × Bytes
decode_length [] = (0, [])
decode_length (b ∷ p) =
    if bit_and b 0x80 == 0 then (b, p) else if ltb (length (b ∷ p)) 4 then (0, []) else (
      bit_and b 0x7f * 2 ^ 24 + get_or p 0 0 * 2 ^ 16 + get_or p 1 0 * 2 ^ 8 + get_or p 2 0,
      drop 3 p,
    )

-- A request that was answered is left alone.
unfoldable pub fail_request : Request → Bytes → ℕ → Request × Bytes
fail_request r out status = if r.flags.responded then (r, out) else (
  record r { flags = record (r.flags) { responded = true; failed = true } },
  append_end_request out r.id 0 status,
)

-- The loop over the pairs of a PARAMS record. Each round takes a byte at least.
unfoldable pub params_loop : ℕ → ℕ → Bytes → Request → Bytes → Request × Bytes
unfolding decode_length fail_request
params_loop max zero p r out = (r, out)
params_loop max (suc fuel) [] r out = (r, out)
params_loop max (suc fuel) (b ∷ p) r out =
    let (name_len, p1) = decode_length (b ∷ p) in
    let (value_len, p2) = decode_length p1 in
    let name = take name_len p2 in
    let value = take value_len (drop name_len p2) in
    let grown = record r {
      env = assign r.env name (string value);
      params_bytes = r.params_bytes + (name_len + value_len);
    } in
    let rest = params_loop max fuel (drop value_len (drop name_len p2)) grown out in
    if ltb (length p2) (name_len + value_len)
    then (r, out)
    else if ltb max (r.params_bytes + name_len + value_len)
    then fail_request r out overloaded
    else rest

pub record Limits : Type 0 where
  pub max_params_bytes : ℕ
  pub max_stdin_bytes : ℕ

-- What the records of the types with an existing request do to it and to the output.
unfoldable pub on_begin : Bytes → Request → Request
on_begin content r = record r {
  flags = record (r.flags) {
    initialized = true;
    keep_connection = if bit_and (get_or content 2 0) 1 == 0 then r.flags.keep_connection else true;
  };
}

unfoldable pub on_params : Limits → Bytes → Request → Bytes → Request × Bytes
unfolding params_loop
on_params limits content r out =
    if length content == 0
    then (record r { flags = record (r.flags) { params_complete = true } }, out)
    else if r.flags.failed
    then (r, out)
    else params_loop limits.max_params_bytes (length content) content r out

unfoldable pub on_stdin : Limits → Bytes → Request → Bytes → Request × Bytes
unfolding fail_request
on_stdin limits content r out =
    if length content == 0
    then (record r { flags = record (r.flags) { input_complete = true } }, out)
    else if r.flags.failed
    then (r, out)
    else if ltb limits.max_stdin_bytes (r.body_bytes + length content)
    then fail_request r out overloaded
    else (record r { body = r.body ++ content; body_bytes = r.body_bytes + length content }, out)

unfoldable pub on_abort : Request → Bytes → Request × Bytes
unfolding fail_request
on_abort r out =
    fail_request (record r { flags = record (r.flags) { aborted = true } }) out request_complete

unfoldable pub lookup : ℕ → List (ℕ × Request) → Option Request
lookup id [] = none
lookup id ((j, r) ∷ rs) = if j == id then some r else lookup id rs

unfoldable pub insert : ℕ → Request → List (ℕ × Request) → List (ℕ × Request)
insert id r [] = (id, r) ∷ []
insert id r ((j, q) ∷ rs) = if j == id then (j, r) ∷ rs else (j, q) ∷ insert id r rs

-- The test behind the switch: all input is there and no answer was given.
unfoldable pub is_ready : Flags → Bool
is_ready f = not f.failed && not f.responded && f.params_complete && f.input_complete

pub record State (S : Type 0) : Type 0 where
  pub requests : List (ℕ × Request)
  pub out_buf : Bytes
  pub outside : S

-- `waits` is the early return of BEGIN_REQUEST without an arena; `goes` the end of the switch and of
-- the test behind it.
pub data Handled (S : Type 0) : Type 0 where
  waits : Handled S
  goes : State S → Handled S

pub data Status : Type 0 where
  ok close : Status

pub record Processed (S : Type 0) : Type 0 where
  pub status : Status
  pub in_buf : Bytes
  pub state : State S
  pub waiting : Bool

-- The two callbacks.
pub record Callbacks (S : Type 0) : Type 0 where
  pub allocate_request : S → ℕ → Option (Request × S)
  pub on_request_ready : S → Request → Request × S

-- A record's header, content and padding.
abbrev pub total_len : Header → ℕ
total_len h = 8 + h.content_length + h.padding_length

module _ {S : Type 0} (limits : Limits) (calls : Callbacks S) where
  -- `current_req`: the entry of an id, or a new one.
  unfoldable pub current_req : State S → ℕ → Option (Request × State S)
  unfolding lookup insert
  current_req st id = elim (lookup id st.requests) [
    | some r ↦ some (r, st)
    | none ↦ elim (calls.allocate_request st.outside id) [
      | none ↦ none
      | some (r, s) ↦
          some (r, record { requests = insert id r st.requests; out_buf = st.out_buf; outside = s })
    ]
  ]

  -- The request after its record, with the call of `on_request_ready` that may follow.
  unfoldable pub settle : State S → ℕ → Request × Bytes → State S
  unfolding is_ready insert
  settle st id (r, out) =
      let (q, s) = calls.on_request_ready st.outside r in
      if is_ready r.flags
      then record { requests = insert id q st.requests; out_buf = out; outside = s }
      else record { requests = insert id r st.requests; out_buf = out; outside = st.outside }

  -- A record of a type that needs a request: without one it is passed over.
  unfoldable pub with_request : State S → ℕ → (Request → Bytes → Request × Bytes) → Handled S
  unfolding current_req settle
  with_request st id act = elim (current_req st id) [
    | none ↦ goes st
    | some (r, st') ↦ goes (settle st' id (act r st'.out_buf))
  ]

  unfoldable pub with_new_request : State S → ℕ → (Request → Bytes → Request × Bytes) → Handled S
  unfolding current_req settle
  with_new_request st id act = elim (current_req st id) [
    | none ↦ waits
    | some (r, st') ↦ goes (settle st' id (act r st'.out_buf))
  ]

  -- The switch on the record's type.
  unfoldable pub handle : State S → Header → Bytes → Handled S
  unfolding with_request with_new_request on_begin on_params on_stdin on_abort
  handle st h content =
      if h.type == begin_request
      then (if leb 8 (length content)
          then with_new_request st h.request_id (λ r out. (on_begin content r, out))
          else goes st)
      else if h.type == params
      then with_request st h.request_id (on_params limits content)
      else if h.type == stdin
      then with_request st h.request_id (on_stdin limits content)
      else if h.type == abort_request
      then with_request st h.request_id on_abort
      else goes st

  -- What the loop finds at the front of the unread input.
  unfoldable pub process_loop : ℕ → Bytes → Bytes → State S → Processed S
  unfolding handle read_header
  process_loop zero in_buf rest st = record {
    status = ok;
    in_buf = rest;
    state = st;
    waiting = false;
  }
  process_loop (suc fuel) in_buf rest st =
      let h = read_header rest in
      let stopped : Processed S = record {
        status = ok;
        in_buf = rest;
        state = st;
        waiting = false;
      } in
      let closed : Processed S = record {
        status = close;
        in_buf = rest;
        state = st;
        waiting = false;
      } in
      let next : Processed S = elim (handle st h (take h.content_length (drop 8 rest))) [
        | waits ↦ record { status = ok; in_buf = in_buf; state = st; waiting = true }
        | goes st' ↦ process_loop fuel in_buf (drop (total_len h) rest) st'
      ] in
      if ltb (length rest) 8
      then stopped
      else if not (h.version == 1)
      then closed
      else if ltb (length rest) (total_len h)
      then stopped
      else next

  -- `process_buffer`. The early return of a wait hands back the whole `in_buf`, unlike the others. Each
  -- round takes eight bytes at least, so `length in_buf` rounds are enough.
  unfoldable pub process_buffer : Bytes → State S → Processed S
  unfolding process_loop
  process_buffer in_buf st = process_loop (length in_buf) in_buf in_buf st
