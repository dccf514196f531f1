-- ===== src/Websockets/Serving/Descriptors.antt =====
-- The descriptors of `serve` of src/websockets.cpp, from its start to its end.
use wasapi.Base.{
  ℕ, ◌≡◌, refl, sym, ap, subst, ◌∙◌, Option, none, some, List, [], ◌∷◌, ◌++◌, Bytes, All, ==_self,
  append-nil, Bool-cases, Option-cases, inl, inr,
}
use wasapi.Connection.Run.{Call, opens, closes, Answers, close_if_made}
use wasapi.Connection.Run.Descriptors.{without, still_open, still_open-append, given, IsNew}
use wasapi.Websockets.Serving.{
  bind_and_listen, create_tcp_listen_socket, create_unix_listen_socket, listen_for_clients, Start,
  stops, runs, open_event, start_epoll, start_serving, finish_serving, Io, new_io,
}
use wasapi.Websockets.Serving.Steps.{fds_of, Reaches, Kept, Reaches-Kept}

bind_and_listen-open :
    (answers : Answers) (fd : ℕ)
    → still_open (bind_and_listen answers fd).1 (fd ∷ []) ≡ given (bind_and_listen answers fd).0
unfolding bind_and_listen still_open without given
bind_and_listen-open answers fd = elim (Bool-cases answers.bind) [
  | inl e ↦ elim (Bool-cases answers.listen) [
    | inl f ↦ rw (e, bind_and_listen) (rw (f, bind_and_listen) refl)
    | inr f ↦ rw (e, bind_and_listen) (rw (f, bind_and_listen) (rw (==_self fd) refl))
  ]
  | inr e ↦ rw (e, bind_and_listen) (rw (==_self fd) refl)
]

create_tcp_listen_socket-open :
    (answers : Answers)
    → still_open (create_tcp_listen_socket answers).1 []
      ≡ given (create_tcp_listen_socket answers).0
unfolding create_tcp_listen_socket still_open given
create_tcp_listen_socket-open answers = elim (Option-cases answers.socket) [
  | inl e ↦ rw (e, create_tcp_listen_socket) refl
  | inr (fd, e) ↦ rw (e, create_tcp_listen_socket) (bind_and_listen-open answers fd)
]

listen_for_clients-open :
    (path : Bytes) (answers : Answers)
    → still_open (listen_for_clients path answers).1 [] ≡ given (listen_for_clients path answers).0
unfolding listen_for_clients create_unix_listen_socket still_open
listen_for_clients-open [] answers = create_tcp_listen_socket-open answers
listen_for_clients-open (c ∷ path) answers = create_tcp_listen_socket-open answers

-- The descriptors that `serve` opens for itself: one that stops has closed them all.
unfoldable pub own_of : Start → List ℕ
unfolding given
own_of (stops calls) = []
own_of (runs listen_fd epfd event calls) = listen_fd ∷ epfd ∷ given event

unfoldable pub calls_of : Start → List Call
calls_of (stops calls) = calls
calls_of (runs listen_fd epfd event calls) = calls

open_event-open :
    (event : Option ℕ) (fds : List ℕ) → still_open (open_event event) fds ≡ fds ++ given event
unfolding open_event still_open given
open_event-open none fds = sym (append-nil fds)
open_event-open (some fd) fds = refl

start_epoll-open :
    (listen_fd : ℕ) (made : List Call) (epoll event : Option ℕ)
    → still_open made [] ≡ listen_fd ∷ []
    → still_open (calls_of (start_epoll listen_fd made epoll event)) []
      ≡ own_of (start_epoll listen_fd made epoll event)
unfolding start_epoll calls_of own_of still_open without
start_epoll-open listen_fd made none event h =
    still_open-append made (closes listen_fd ∷ []) []
    ∙ (ap (λ fds. without listen_fd fds) h ∙ rw (==_self listen_fd) refl)
start_epoll-open listen_fd made (some epfd) event h =
    still_open-append made (opens epfd ∷ open_event event) []
    ∙ (ap (λ fds. still_open (open_event event) (fds ++ epfd ∷ [])) h ∙ open_event-open event _)

started-open :
    (result : Option ℕ) (made : List Call) (epoll event : Option ℕ)
    → still_open made [] ≡ given result
    → let start : Start = elim result [
      | none ↦ stops made
      | some fd ↦ start_epoll fd made epoll event
    ] in
      still_open (calls_of start) [] ≡ own_of start
unfolding calls_of own_of given
started-open none made epoll event h = h
started-open (some fd) made epoll event h = start_epoll-open fd made epoll event h

start_serving-open :
    (path : Bytes) (answers : Answers) (epoll event : Option ℕ)
    → still_open (calls_of (start_serving path answers epoll event)) []
      ≡ own_of (start_serving path answers epoll event)
unfolding start_serving
start_serving-open path answers epoll event =
    started-open _ _ epoll event (listen_for_clients-open path answers)

finish_serving-open :
    (listen_fd epfd : ℕ) (event : Option ℕ) (fds : List ℕ)
    → IsNew epfd (listen_fd ∷ [])
    → All (λ fd. IsNew fd (listen_fd ∷ epfd ∷ [])) (given event)
    → still_open (finish_serving listen_fd epfd event) ((listen_fd ∷ epfd ∷ given event) ++ fds)
      ≡ fds
unfolding finish_serving close_if_made still_open without given
finish_serving-open listen_fd epfd none fds h k =
    rw (h.0, without) (rw (==_self epfd, without) (rw (==_self listen_fd, without) refl))
finish_serving-open listen_fd epfd (some fd) fds h k =
    rw (k.0.0, without)
      (rw (k.0.1.0, without)
        (rw (==_self fd, without)
          (rw (h.0, without) (rw (==_self epfd, without) (rw (==_self listen_fd, without) refl)))))

-- Whatever connections are accepted, frames wait and clients are served, the descriptors that are open in the
-- loop of `serve` are its own and those of its clients, each once: a client that leaves has its
-- descriptor closed. When the loop ends, `serve` closes its own, and those of the clients that are left stay
-- open.
pub serve-still_open :
    (sha1 : Bytes → Bytes) (strtoull : Bytes → ℕ) (path : Bytes) (answers : Answers)
    (epoll event : Option ℕ) (listen_fd epfd : ℕ) (calls : List Call) (io : Io)
    → start_serving path answers epoll event ≡ runs listen_fd epfd event calls
    → IsNew epfd (listen_fd ∷ [])
    → All (λ fd. IsNew fd (listen_fd ∷ epfd ∷ [])) (given event)
    → Reaches sha1 strtoull (new_io calls) io
    → (still_open io.calls [] ≡ (listen_fd ∷ epfd ∷ given event) ++ fds_of io.clients)
      × (still_open (io.calls ++ finish_serving listen_fd epfd event) [] ≡ fds_of io.clients)
unfolding calls_of own_of fds_of
serve-still_open sha1 strtoull path answers epoll event listen_fd epfd calls io started h k r =
    (kept.opened, at_end)
  where
    own : List ℕ
    own = listen_fd ∷ epfd ∷ given event

    begun : still_open calls [] ≡ own ++ []
    begun =
        subst (λ s. still_open (calls_of s) [] ≡ own_of s) started
          (start_serving-open path answers epoll event)
        ∙ sym (append-nil own)

    kept : Kept own io
    kept =
        Reaches-Kept sha1 strtoull own (new_io calls) io (record { opened = begun; apart = tt }) r

    at_end : still_open (io.calls ++ finish_serving listen_fd epfd event) [] ≡ fds_of io.clients
    at_end =
        still_open-append io.calls (finish_serving listen_fd epfd event) []
        ∙ (ap (λ fds. still_open (finish_serving listen_fd epfd event) fds) kept.opened
            ∙ finish_serving-open listen_fd epfd event (fds_of io.clients) h k)

-- A `serve` that stops before its loop has closed what it opened.
pub start_serving-stops :
    (path : Bytes) (answers : Answers) (epoll event : Option ℕ) (calls : List Call)
    → start_serving path answers epoll event ≡ stops calls
    → still_open calls [] ≡ []
unfolding calls_of own_of
start_serving-stops path answers epoll event calls h =
    subst (λ s. still_open (calls_of s) [] ≡ own_of s) h
      (start_serving-open path answers epoll event)
