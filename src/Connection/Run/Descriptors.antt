-- ===== src/Connection/Run/Descriptors.antt =====
-- The descriptors that `create_listen_socket`, `run` and `serve` of src/fcgi-connection.cpp leave open.
use wasapi.Base.{
  ℕ, ◌≡◌, refl, sym, ap, ◌∙◌, All, append-nil, Bool, true, false, not, Option, none, some, List, [],
  ◌∷◌, ◌++◌, Bytes, ◌==◌, ==_self, if◌then◌else◌, Bool-cases, Option-cases, inl, inr,
}
use wasapi.Connection.Run.{
  Call, opens, closes, unlinks, chmods, mask_off, mask_back, Answers, start_listening, unix_socket,
  inet_socket, create_listen_socket, Setup, make_event, make_timer, close_if_made, run_on,
}

-- Taking a descriptor out of those that are open.
unfoldable pub without : ℕ → List ℕ → List ℕ
without fd [] = []
without fd (j ∷ js) = if j == fd then js else j ∷ without fd js

-- The descriptors that are open after some calls, the newest last.
unfoldable pub still_open : List Call → List ℕ → List ℕ
unfolding without
still_open [] fds = fds
still_open (opens fd ∷ calls) fds = still_open calls (fds ++ fd ∷ [])
still_open (closes fd ∷ calls) fds = still_open calls (without fd fds)
still_open (_ ∷ calls) fds = still_open calls fds

-- The descriptors of a result.
unfoldable pub given : Option ℕ → List ℕ
given none = []
given (some fd) = fd ∷ []

pub still_open-append :
    (as' bs : List Call) (fds : List ℕ)
    → still_open (as' ++ bs) fds ≡ still_open bs (still_open as' fds)
unfolding still_open
still_open-append [] bs fds = refl
still_open-append (opens fd ∷ as') bs fds = still_open-append as' bs (fds ++ fd ∷ [])
still_open-append (closes fd ∷ as') bs fds = still_open-append as' bs (without fd fds)
still_open-append (unlinks p ∷ as') bs fds = still_open-append as' bs fds
still_open-append (chmods p ∷ as') bs fds = still_open-append as' bs fds
still_open-append (mask_off ∷ as') bs fds = still_open-append as' bs fds
still_open-append (mask_back ∷ as') bs fds = still_open-append as' bs fds

start_listening-open :
    (answers : Answers) (fd : ℕ)
    → still_open (start_listening answers fd).1 (fd ∷ []) ≡ given (start_listening answers fd).0
unfolding start_listening still_open without given
start_listening-open answers fd = elim (Bool-cases answers.listen) [
  | inl e ↦ elim (Bool-cases answers.nonblock) [
    | inl f ↦ rw (e, start_listening) (rw (f, start_listening) refl)
    | inr f ↦ rw (e, start_listening) (rw (f, start_listening) (rw (==_self fd) refl))
  ]
  | inr e ↦ rw (e, start_listening) (rw (==_self fd) refl)
]

inet_socket-open :
    (answers : Answers) (fd : ℕ)
    → still_open (inet_socket answers fd).1 (fd ∷ []) ≡ given (inet_socket answers fd).0
unfolding inet_socket still_open without given
inet_socket-open answers fd = elim (Bool-cases answers.bind) [
  | inl e ↦ rw (e, inet_socket) (start_listening-open answers fd)
  | inr e ↦ rw (e, inet_socket) (rw (==_self fd) refl)
]

unix_socket-open :
    (path : Bytes) (answers : Answers) (fd : ℕ)
    → still_open (unix_socket path answers fd).1 (fd ∷ []) ≡ given (unix_socket path answers fd).0
unfolding unix_socket still_open without given
unix_socket-open path answers fd = elim (Bool-cases answers.bind) [
  | inl e ↦ rw (e, unix_socket) (start_listening-open answers fd)
  | inr e ↦ rw (e, unix_socket) (rw (==_self fd) refl)
]

-- Whatever the system answers, `create_listen_socket` leaves open the descriptor that it returns, and none
-- when it fails.
pub create_listen_socket-still_open :
    (path : Bytes) (answers : Answers)
    → still_open (create_listen_socket path answers).1 []
      ≡ given (create_listen_socket path answers).0
unfolding create_listen_socket still_open given
create_listen_socket-still_open [] answers = elim (Option-cases answers.socket) [
  | inl e ↦ rw (e, create_listen_socket) refl
  | inr (fd, e) ↦ rw (e, create_listen_socket) (inet_socket-open answers fd)
]
create_listen_socket-still_open (c ∷ path) answers = elim (Option-cases answers.socket) [
  | inl e ↦ rw (e, create_listen_socket) refl
  | inr (fd, e) ↦ rw (e, create_listen_socket) (unix_socket-open (c ∷ path) answers fd)
]

-- The system gives a descriptor that is not open.
abbrev pub IsNew : ℕ → List ℕ → Type 0
IsNew fd fds = All (λ j. (j == fd) ≡ false) fds

without-newest : (fd : ℕ) (fds : List ℕ) → IsNew fd fds → without fd (fds ++ fd ∷ []) ≡ fds
unfolding without
without-newest fd [] h = rw (==_self fd) refl
without-newest fd (j ∷ js) h = rw (h.0) (ap (◌∷◌ j) (without-newest fd js h.1))

make_event-open :
    (setup : Setup) (fds : List ℕ)
    → ((fd : ℕ) → setup.event ≡ some fd → IsNew fd fds)
    → still_open (make_event setup).1 fds ≡ fds ++ given (make_event setup).0
unfolding make_event still_open given
make_event-open setup fds new = elim (Option-cases setup.event) [
  | inl e ↦ rw (e, make_event) (sym (append-nil fds))
  | inr (fd, e) ↦ elim (Bool-cases setup.add_event) [
    | inl f ↦ rw (e, make_event) (rw (f, make_event) refl)
    | inr f ↦
        rw (e, make_event)
          (rw (f, make_event) (without-newest fd fds (new fd e) ∙ sym (append-nil fds)))
  ]
]

make_timer-open :
    (setup : Setup) (fds : List ℕ)
    → ((fd : ℕ) → setup.timer ≡ some fd → IsNew fd fds)
    → still_open (make_timer setup).1 fds ≡ fds ++ given (make_timer setup).0
unfolding make_timer still_open given
make_timer-open setup fds new = elim (Option-cases setup.timer) [
  | inl e ↦ rw (e, make_timer) (sym (append-nil fds))
  | inr (fd, e) ↦
      let back = without-newest fd fds (new fd e) ∙ sym (append-nil fds) in
      elim (Bool-cases setup.set_timer) [
        | inl f ↦ elim (Bool-cases setup.add_timer) [
          | inl k ↦ rw (e, make_timer) (rw (f, make_timer) (rw (k, make_timer) refl))
          | inr k ↦ rw (e, make_timer) (rw (f, make_timer) (rw (k, make_timer) back))
        ]
        | inr f ↦ rw (e, make_timer) (rw (f, make_timer) back)
      ]
]

pub close_if_made-open :
    (o : Option ℕ) (fds : List ℕ) → still_open (close_if_made o) (given o ++ fds) ≡ fds
unfolding close_if_made still_open given without
close_if_made-open none fds = refl
close_if_made-open (some fd) fds = rw (==_self fd) refl

pick :
    (b : Bool) (stopped ended : ℕ × List Call) (fds : List ℕ)
    → still_open stopped.1 [] ≡ fds
    → still_open ended.1 [] ≡ []
    → still_open (if not b then stopped else ended).1 [] ≡ (if b then [] else fds)
pick true stopped ended fds h k = k
pick false stopped ended fds h k = h

without-first : (fd : ℕ) (fds : List ℕ) → without fd (fd ∷ fds) ≡ fds
unfolding without
without-first fd fds = rw (==_self fd) refl

closing-open :
    (epfd : ℕ) (event timer : Option ℕ)
    → still_open
        (closes epfd ∷ (close_if_made event ++ close_if_made timer))
        (epfd ∷ (given event ++ given timer))
      ≡ []
unfolding still_open
closing-open epfd event timer =
    ap (λ fds. still_open (close_if_made event ++ close_if_made timer) fds)
      (without-first epfd (given event ++ given timer))
    ∙ (still_open-append (close_if_made event) (close_if_made timer) (given event ++ given timer)
        ∙ (ap (λ fds. still_open (close_if_made timer) fds) (close_if_made-open event (given timer))
            ∙ (ap (λ fds. still_open (close_if_made timer) fds) (sym (append-nil (given timer)))
                ∙ close_if_made-open timer [])))

-- `run` has an epoll descriptor, an event descriptor and a timer of its own, which its set-up opens. When
-- the listening socket can be watched, its end closes all of them that were made. When it cannot, the
-- epoll descriptor is closed and the event descriptor stays open, if there is one. The descriptors of the
-- connections, which the loop between set-up and end accepts and closes, are not counted. The system must
-- give descriptors that are not open.
pub run_on-still_open :
    (epfd : ℕ) (setup : Setup)
    → ((fd : ℕ) → setup.event ≡ some fd → IsNew fd (epfd ∷ []))
    → ((fd : ℕ) → setup.timer ≡ some fd → IsNew fd (epfd ∷ given (make_event setup).0))
    → still_open (run_on epfd setup).1 []
      ≡ (if setup.add_listen then [] else given (make_event setup).0)
unfolding run_on still_open without
run_on-still_open epfd setup new_event new_timer = pick setup.add_listen _ _ _ failed whole
  where
    event : Option ℕ
    event = (make_event setup).0

    timer : Option ℕ
    timer = (make_timer setup).0

    made : still_open (make_event setup).1 (epfd ∷ []) ≡ epfd ∷ given event
    made = make_event-open setup (epfd ∷ []) new_event

    failed : still_open ((make_event setup).1 ++ closes epfd ∷ []) (epfd ∷ []) ≡ given event
    failed =
        still_open-append (make_event setup).1 (closes epfd ∷ []) (epfd ∷ [])
        ∙ (ap (λ fds. still_open (closes epfd ∷ []) fds) made ∙ rw (==_self epfd) refl)

    closing : List Call
    closing = closes epfd ∷ (close_if_made event ++ close_if_made timer)

    whole : still_open ((make_event setup).1 ++ ((make_timer setup).1 ++ closing)) (epfd ∷ []) ≡ []
    whole =
        still_open-append (make_event setup).1 ((make_timer setup).1 ++ closing) (epfd ∷ [])
        ∙ (ap (λ fds. still_open ((make_timer setup).1 ++ closing) fds) made
            ∙ (still_open-append (make_timer setup).1 closing (epfd ∷ given event)
                ∙ (ap (λ fds. still_open closing fds)
                      (make_timer-open setup (epfd ∷ given event) new_timer)
                    ∙ closing-open epfd event timer)))
