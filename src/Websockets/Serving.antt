-- ===== src/Websockets/Serving.antt =====
-- src/websockets.cpp: the listening sockets, and the loop of `serve` one event at a time. What the operating
-- system answers is an argument. A client's fields are in two parts, those that its output needs and the
-- others; `clients` finds both under its descriptor.
pub mod Steps
pub mod Descriptors
use wasapi.Base.{
  ℕ, Bool, true, false, ◌&&◌, ◌||◌, not, Option, none, some, List, [], ◌∷◌, ◌++◌, Bytes, ◌==◌,
  if◌then◌else◌,
}
use wasapi.Connection.Output.{SendResult}
use wasapi.Connection.Events.{Event}
use wasapi.Connection.Run.{Call, opens, closes, unlinks, Answers, close_if_made}
use wasapi.Websockets.Handshake.{Peer, on_http_input}
use wasapi.Websockets.Client.{Client, running, crashed, process_frames}
use wasapi.Websockets.Delivery.{Outlet, PendingFrame, deliver, finish_event}

-- The end of both functions; whether `set_non_block` succeeds is not looked at.
unfoldable pub bind_and_listen : Answers → ℕ → Option ℕ × List Call
bind_and_listen answers fd =
    if not answers.bind
    then (none, closes fd ∷ [])
    else if not answers.listen
    then (none, closes fd ∷ [])
    else (some fd, [])

unfoldable pub create_tcp_listen_socket : Answers → Option ℕ × List Call
unfolding bind_and_listen
create_tcp_listen_socket answers = elim answers.socket [
  | none ↦ (none, [])
  | some fd ↦ let (result, calls) = bind_and_listen answers fd in (result, opens fd ∷ calls)
]

unfoldable pub create_unix_listen_socket : Bytes → Answers → Option ℕ × List Call
unfolding create_tcp_listen_socket
create_unix_listen_socket path answers =
    let (result, calls) = create_tcp_listen_socket answers in (result, unlinks path ∷ calls)

-- The choice by the path.
unfoldable pub listen_for_clients : Bytes → Answers → Option ℕ × List Call
unfolding create_unix_listen_socket create_tcp_listen_socket
listen_for_clients [] answers = create_tcp_listen_socket answers
listen_for_clients (c ∷ path) answers = create_unix_listen_socket (c ∷ path) answers

-- `serve` up to its loop: it stops with the result 1, or goes on with the descriptors of the socket, of
-- epoll and of the events, if there is one.
pub data Start : Type 0 where
  stops : List Call → Start
  runs : ℕ → ℕ → Option ℕ → List Call → Start

unfoldable pub open_event : Option ℕ → List Call
open_event none = []
open_event (some fd) = opens fd ∷ []

unfoldable pub start_epoll : ℕ → List Call → Option ℕ → Option ℕ → Start
unfolding open_event
start_epoll listen_fd made none event = stops (made ++ closes listen_fd ∷ [])
start_epoll listen_fd made (some epfd) event =
    runs listen_fd epfd event (made ++ opens epfd ∷ open_event event)

unfoldable pub start_serving : Bytes → Answers → Option ℕ → Option ℕ → Start
unfolding listen_for_clients start_epoll
start_serving path answers epoll event =
    let (listen_fd, made) = listen_for_clients path answers in
    elim listen_fd [ none ↦ stops made | some fd ↦ start_epoll fd made epoll event ]

-- The end of `serve`.
unfoldable pub finish_serving : ℕ → ℕ → Option ℕ → List Call
unfolding close_if_made
finish_serving listen_fd epfd event = close_if_made event ++ closes epfd ∷ closes listen_fd ∷ []

-- The fields of a client that its output does not need. The buffer and `closed` of these are not used.
pub record Inlet : Type 0 where
  pub peer : Peer
  pub talk : Client

abbrev pub new_outlet : Outlet
new_outlet = record { out_buf = []; closed = false; close_after_write = false; writes = false }

abbrev pub new_inlet : Inlet
new_inlet = record {
  peer = record {
    handshake_done = false;
    in_http = [];
    http_mode = false;
    http_headers_parsed = false;
    http_content_length = 0;
    in_buf = [];
    out_buf = [];
    scheduled = [];
  };
  talk = record {
    closed = false;
    assembling = false;
    assemble_opcode = 0;
    assemble_data = [];
    out_buf = [];
    sent = [];
  };
}

-- The state of the loop: the two parts of `clients`, `g_pending_frames`, the calls on descriptors, and what
-- went out.
pub record Io : Type 0 where
  pub clients : List (ℕ × Outlet)
  pub inlets : ℕ → Inlet
  pub pending : List PendingFrame
  pub calls : List Call
  pub wire : List (ℕ × Bytes)

abbrev pub new_io : List Call → Io
new_io calls = record {
  clients = [];
  inlets = λ fd. new_inlet;
  pending = [];
  calls = calls;
  wire = [];
}

unfoldable pub find_client : ℕ → List (ℕ × Outlet) → Option Outlet
find_client fd [] = none
find_client fd ((j, c) ∷ cs) = if j == fd then some c else find_client fd cs

unfoldable pub put_client : ℕ → Outlet → List (ℕ × Outlet) → List (ℕ × Outlet)
put_client fd c [] = []
put_client fd c ((j, d) ∷ cs) =
    let rest = put_client fd c cs in if j == fd then (j, c) ∷ cs else (j, d) ∷ rest

unfoldable pub erase_client : ℕ → List (ℕ × Outlet) → List (ℕ × Outlet)
erase_client fd [] = []
erase_client fd ((j, c) ∷ cs) =
    let rest = erase_client fd cs in if j == fd then cs else (j, c) ∷ rest

unfoldable pub put_inlet : ℕ → Inlet → (ℕ → Inlet) → ℕ → Inlet
put_inlet fd i inlets j = if j == fd then i else inlets j

-- `accept` gives a descriptor that is not open, so `clients[cfd]` makes a new client.
unfoldable pub accept_client : ℕ → Io → Io
unfolding put_inlet
accept_client fd io = record io {
  clients = io.clients ++ (fd, new_outlet) ∷ [];
  inlets = put_inlet fd new_inlet io.inlets;
  calls = io.calls ++ opens fd ∷ [];
}

-- The event descriptor: the frames that were pending are delivered.
unfoldable pub take_pending : Io → Io
unfolding deliver
take_pending io = record io { clients = deliver io.pending io.clients; pending = [] }

-- A client's event, with the results of the two calls of `send_all`.
pub record ClientEvent : Type 0 where
  pub event : Event
  pub first : List SendResult
  pub second : List SendResult

-- The end of the event: the client is closed, or kept.
unfoldable pub end_event : ClientEvent → ℕ → Inlet → Outlet → Io → Io
unfolding finish_event put_client erase_client put_inlet
end_event e fd i c io =
    let served = finish_event e.event.output e.first e.second c [] in
    let sent : Io = record io {
      inlets = put_inlet fd i io.inlets;
      wire = io.wire ++ (fd, served.wire) ∷ [];
    } in
    if served.closes
    then record sent { clients = erase_client fd io.clients; calls = io.calls ++ closes fd ∷ [] }
    else record sent { clients = put_client fd served.client io.clients }

module _ (sha1 : Bytes → Bytes) (strtoull : Bytes → ℕ) where
  -- What has not shaken hands reads the input as text.
  unfoldable pub shake_hands : Peer → Peer
  unfolding on_http_input
  shake_hands p = if p.handshake_done then p else on_http_input sha1 strtoull p

  -- The input that was read; then the frames, also behind an upgrade in the same input. Nothing is a read
  -- outside of the buffer.
  unfoldable pub on_input : Event → Inlet → Outlet → Option (Inlet × Outlet)
  unfolding shake_hands process_frames
  on_input e i c =
      let p =
        shake_hands
          (record (i.peer) { in_buf = i.peer.in_buf ++ e.received; out_buf = c.out_buf }) in
      let closed = c.closed || e.ended in
      let waits = some (record i { peer = p }, record c { out_buf = p.out_buf; closed = closed }) in
      let talked =
        process_frames p.in_buf (record (i.talk) { out_buf = p.out_buf; closed = closed }) in
      if not p.handshake_done then waits else elim talked [
        | running t rest ↦ some (
          record { peer = record p { in_buf = rest }; talk = t },
          record c { out_buf = t.out_buf; closed = t.closed },
        )
        | crashed ↦ none
      ]

  -- The client behind a descriptor; a descriptor without one is passed over.
  unfoldable pub on_client : ClientEvent → ℕ → Io → Option Io
  unfolding find_client on_input end_event
  on_client e fd io = elim (find_client fd io.clients) [
    | none ↦ some io
    | some c ↦
        let hung = record c { closed = c.closed || e.event.hangup } in
        let got = on_input e.event (io.inlets fd) hung in
        elim (if e.event.input then got else some (io.inlets fd, hung)) [
          | none ↦ none
          | some (i, c') ↦ some (end_event e fd i c' io)
        ]
  ]
