-- ===== src/Tests/Clients.antt =====
-- A concrete run of the loop of `serve` of src/websockets.cpp.
use wasapi.Base.{
  codes, suc, ◌*◌, ℕ, ◌≡◌, refl, true, false, Option, none, some, List, [], ◌∷◌, ◌++◌, Bytes,
}
use wasapi.Memory.{create_arenas}
use wasapi.Memory.Kept.{create_arenas-IsPool}
use wasapi.Websockets.Delivery.{Allocation, schedule_message}
use wasapi.Websockets.Delivery.Arenas.{IsReturned, schedule_message-IsReturned}
use wasapi.Connection.Run.{Call, opens, Answers}
use wasapi.Connection.Run.Descriptors.{still_open, given}
use wasapi.Websockets.Serving.{
  start_serving, runs, finish_serving, Io, new_io, accept_client, ClientEvent, on_client,
}
use wasapi.Websockets.Serving.Steps.{fds_of, Reaches, begins, accepts, serves}
use wasapi.Websockets.Serving.Descriptors.{serve-still_open}

abbrev answers : Answers
answers = record { socket = some 3; bind = true; listen = true; nonblock = false }

abbrev opened : List Call
opened = opens 3 ∷ opens 4 ∷ opens 5 ∷ []

start_run : start_serving [] answers (some 4) (some 5) ≡ runs 3 4 (some 5) opened
unfolding start_serving
start_run = refl

-- The client hangs up.
abbrev hangs_up : ClientEvent
hangs_up = record {
  event = record { hangup = true; input = false; output = false; received = []; ended = false };
  first = [];
  second = [];
}

abbrev sha1 : Bytes → Bytes
sha1 s = []

abbrev strtoull : Bytes → ℕ
strtoull s = 0

abbrev two_clients : Io
two_clients = accept_client 8 (accept_client 7 (new_io opened))

abbrev or_two : Option Io → Io
or_two none = two_clients
or_two (some io) = io

abbrev one_client : Io
one_client = or_two (on_client sha1 strtoull hangs_up 7 two_clients)

hang_up_run : on_client sha1 strtoull hangs_up 7 two_clients ≡ some one_client
unfolding accept_client on_client
hang_up_run = refl

left_run : fds_of one_client.clients ≡ 8 ∷ []
unfolding accept_client on_client fds_of
left_run = refl

one_client-Reached : Reaches sha1 strtoull (new_io opened) one_client
unfolding accept_client still_open
one_client-Reached =
    serves hangs_up 7 two_clients one_client
      (accepts 8 (accept_client 7 (new_io opened))
        (accepts 7 (new_io opened) begins (refl, (refl, (refl, tt))))
        (refl, (refl, (refl, (refl, tt)))))
      hang_up_run

serve-still_open_example :
    (still_open one_client.calls [] ≡ (3 ∷ 4 ∷ given (some 5)) ++ fds_of one_client.clients)
    × (still_open (one_client.calls ++ finish_serving 3 4 (some 5)) [] ≡ fds_of one_client.clients)
unfolding given
serve-still_open_example =
    serve-still_open sha1 strtoull [] answers (some 4) (some 5) 3 4 opened one_client start_run
      (refl, tt) ((refl, (refl, tt)), tt) one_client-Reached

abbrev allocation : Allocation
allocation = record {
  address = λ p. 4096 * suc p;
  request_size = 512;
  request_align = 8;
  double_of = λ n. n;
  now = 0;
  print_size = λ n. codes "7";
}

-- The arena has room for one request.
schedule_run :
    (schedule_message allocation 7 1 (codes "hi") (create_arenas 1 1024)).1.available_count ≡ 0
unfolding schedule_message create_arenas
schedule_run = refl

schedule_message-IsReturned_example :
    IsReturned 1
      (create_arenas 1 1024)
      (schedule_message allocation 7 1 (codes "hi") (create_arenas 1 1024))
schedule_message-IsReturned_example =
    schedule_message-IsReturned allocation 1 7 1 (codes "hi") (create_arenas 1 1024)
      (create_arenas-IsPool 1 1024)
