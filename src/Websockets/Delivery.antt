-- ===== src/Websockets/Delivery.antt =====
-- src/websockets.cpp: how output reaches the clients, from the end of `schedule_message`'s task over the
-- pending frames to `send_all` and the end of a client's event.
pub mod Frames
pub mod Arenas
use wasapi.Base.{
  ℕ, zero, suc, Bool, true, false, ◌&&◌, ◌||◌, not, Option, none, some, List, [], ◌∷◌, ◌++◌, Bytes,
  take, drop, ◌==◌, if◌then◌else◌, get_elem?, set,
}
use wasapi.Memory.{Manager, get, release, alloc}
use wasapi.Request.{Request, new_request}
use wasapi.Dynamic.{Value}
use wasapi.Http.Multipart.{System}
use wasapi.Connection.Output.{SendResult, sent, blocks, fails}
use wasapi.Websockets.Schedule.{message_request, message_response, http_request, http_response}

-- The fields of a client that its output needs. `writes` is EPOLLOUT in its registration.
pub record Outlet : Type 0 where
  pub out_buf : Bytes
  pub closed : Bool
  pub close_after_write : Bool
  pub writes : Bool

pub record PendingFrame : Type 0 where
  pub fd : ℕ
  pub frame : Bytes

-- The results of `send` in turn; without any more the socket would block. What is left, and the wire. An
-- error clears the buffer, and so does a call that sends nothing.
unfoldable pub send_all : List SendResult → Bytes → Bytes → Bytes × Bytes
send_all [] buf wire = (buf, wire)
send_all (r ∷ results) [] wire = ([], wire)
send_all (blocks ∷ results) (b ∷ buf) wire = (b ∷ buf, wire)
send_all (fails ∷ results) (b ∷ buf) wire = ([], wire)
send_all (sent zero ∷ results) (b ∷ buf) wire = ([], wire)
send_all (sent (suc n) ∷ results) (b ∷ buf) wire =
    send_all results (drop n buf) (wire ++ take (suc n) (b ∷ buf))

-- The task's end: a frame is pending for the client's descriptor unless the handler wrote nothing.
unfoldable pub finish_message : ℕ → ℕ → Bytes → List PendingFrame → List PendingFrame
unfolding message_response
finish_message fd opcode resp pending = elim (message_response opcode resp) [
  | none ↦ pending
  | some frame ↦ pending ++ record { fd = fd; frame = frame } ∷ []
]

-- `clients.find(pf.fd)` and the change of the client it finds.
unfoldable pub queue_frame : PendingFrame → List (ℕ × Outlet) → List (ℕ × Outlet)
queue_frame p [] = []
queue_frame p ((fd, c) ∷ cs) =
    let rest = queue_frame p cs in
    if fd == p.fd
    then (fd, record c { out_buf = c.out_buf ++ p.frame; writes = true }) ∷ cs
    else (fd, c) ∷ rest

-- The loop on the frames that were pending.
unfoldable pub deliver : List PendingFrame → List (ℕ × Outlet) → List (ℕ × Outlet)
unfolding queue_frame
deliver [] cs = cs
deliver (p ∷ ps) cs = deliver ps (queue_frame p cs)

pub record Served : Type 0 where
  pub client : Outlet
  pub wire : Bytes
  pub closes : Bool

unfoldable pub is_empty : Bytes → Bool
is_empty [] = true
is_empty (b ∷ s) = false

-- The end of an event: `output` says whether it has EPOLLOUT, which makes for a first call of `send_all`.
unfoldable pub finish_event : Bool → List SendResult → List SendResult → Outlet → Bytes → Served
unfolding send_all is_empty
finish_event output first second c wire =
    let (buf, wire') = if output then send_all first c.out_buf wire else (c.out_buf, wire) in
    let (buf', wire'') = send_all second buf wire' in
    record {
      client = record c { out_buf = buf'; writes = not (is_empty buf') };
      wire = wire'';
      closes = c.closed || (c.close_after_write && is_empty buf');
    }

pub record Allocation : Type 0 where
  pub address : ℕ → ℕ
  pub request_size : ℕ
  pub request_align : ℕ
  pub double_of : ℕ → ℕ
  pub now : ℕ
  pub print_size : ℕ → Bytes

module _ (allocation : Allocation) where
  -- The request that both functions make in an arena: none when no arena is free, or when the arena has no
  -- room for it.
  unfoldable pub arena_request : Manager → Option Request × Manager
  unfolding get alloc release new_request
  arena_request manager = elim (get manager) [
    | none ↦ (none, manager)
    | some (place, m) ↦ elim (get_elem? m.arenas place) [
      | none ↦ (none, m)
      | some a ↦
          elim (alloc (allocation.address place) allocation.request_size allocation.request_align
            a) [
              | none ↦ (none, release m (some place))
              | some (offset, a') ↦ (
                some (new_request place (allocation.double_of a.management_flag) allocation.now),
                record m { arenas = set m.arenas place a' },
              )
            ]
    ]
  ]

  -- `schedule_message` up to the hand-over to the pool: without a request the message is dropped.
  unfoldable pub schedule_message : ℕ → ℕ → Bytes → Manager → Option Request × Manager
  unfolding arena_request message_request
  schedule_message fd opcode content manager =
      let (made, manager') = arena_request manager in
      elim made [
        | none ↦ (none, manager')
        | some r ↦ (some (message_request allocation.print_size r fd opcode content), manager')
      ]

  module _ (stod : Bytes → Option ℕ) (print_double : ℕ → Bytes) {W : Type 0} (sys : System W)
      (upload_tmp_dir ws_path_prefix : Bytes) where
    -- `schedule_http` up to the hand-over. The callback is there.
    unfoldable pub schedule_http : ℕ → Bytes → Bytes → Manager → W → (Option Request × Manager) × W
    unfolding arena_request http_request
    schedule_http fd text body manager w =
        let (made, manager') = arena_request manager in
        elim made [
          | none ↦ ((none, manager'), w)
          | some r ↦
              let (r', w') =
                http_request stod allocation.print_size print_double sys allocation.double_of
                  upload_tmp_dir ws_path_prefix r fd text body w in
              ((some r', manager'), w')
        ]

    -- The end of its task: the text of the response is pending, also an empty one.
    unfoldable pub finish_http : ℕ → Value → Bytes → List PendingFrame → List PendingFrame
    unfolding http_response
    finish_http fd headers resp pending =
        let text =
          http_response stod allocation.print_size print_double sys allocation.double_of
            upload_tmp_dir ws_path_prefix headers resp in
        pending ++ record { fd = fd; frame = text } ∷ []

-- The end of both tasks.
unfoldable pub release_arena : Request → Manager → Manager
unfolding release
release_arena r manager = release manager (some r.arena)
