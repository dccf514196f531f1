-- ===== src/Websockets/Serving/Steps.antt =====
-- The steps of the loop of `serve` of src/websockets.cpp, and what they do to the open descriptors.
use mathlib.Core.Option.{some-injective}
use wasapi.Base.{
  All-append, ℕ, ◌≡◌, refl, sym, ap, subst, ◌∙◌, ◌||◌, Option, none, some, List, [], ◌∷◌, ◌++◌,
  Bytes, All, ◌==◌, ==_iff, append_assoc, if◌then◌else◌, Bool-cases, Option-cases, inl, inr, arith,
}
use wasapi.Connection.Run.{opens, closes}
use wasapi.Connection.Run.Descriptors.{without, still_open, still_open-append, IsNew}
use wasapi.Websockets.Delivery.{Outlet, PendingFrame, queue_frame, deliver, finish_event}
use wasapi.Websockets.Serving.{
  Inlet, Io, find_client, put_client, erase_client, accept_client, take_pending, ClientEvent,
  on_input, end_event, on_client,
}

-- The descriptors of the clients.
unfoldable pub fds_of : List (ℕ × Outlet) → List ℕ
fds_of [] = []
fds_of ((fd, c) ∷ cs) = fd ∷ fds_of cs

-- What the loop of `serve` can reach from a state: a connection is accepted, which gives a descriptor that is
-- not open; a task leaves a frame; the pending frames are delivered; a client is served.
pub data Reaches (sha1 : Bytes → Bytes) (strtoull : Bytes → ℕ) (start : Io) : Io → Type 0 where
  begins : Reaches sha1 strtoull start start
  accepts :
      (fd : ℕ)
      → (io : Io) → Reaches sha1 strtoull start io
      → IsNew fd (still_open io.calls [])
      → Reaches sha1 strtoull start (accept_client fd io)
  leaves_frame :
      (p : PendingFrame)
      → (io : Io) → Reaches sha1 strtoull start io
      → Reaches sha1 strtoull start (record io { pending = io.pending ++ p ∷ [] })
  delivers :
      (io : Io) → Reaches sha1 strtoull start io → Reaches sha1 strtoull start (take_pending io)
  serves :
      (e : ClientEvent)
      → (fd : ℕ) → (io io' : Io) → Reaches sha1 strtoull start io
      → on_client sha1 strtoull e fd io ≡ some io'
      → Reaches sha1 strtoull start io'

-- The open descriptors are those of the loop and those of the clients, which are different from them.
pub record Kept (own : List ℕ) (io : Io) : Type 0 where
  pub opened : still_open io.calls [] ≡ own ++ fds_of io.clients
  pub apart : All (λ fd. IsNew fd own) (fds_of io.clients)

fds_of-append :
    (cs : List (ℕ × Outlet)) (fd : ℕ) (c : Outlet)
    → fds_of (cs ++ (fd, c) ∷ []) ≡ fds_of cs ++ fd ∷ []
unfolding fds_of
fds_of-append [] fd c = refl
fds_of-append ((j, d) ∷ cs) fd c = ap (λ js. j ∷ js) (fds_of-append cs fd c)

All-front : (P : ℕ → Type 0) (xs ys : List ℕ) → All P (xs ++ ys) → All P xs
All-front P [] ys h = tt
All-front P (x ∷ xs) ys h = (h.0, All-front P xs ys h.1)

without-behind :
    (fd : ℕ) (own js : List ℕ) → IsNew fd own → without fd (own ++ js) ≡ own ++ without fd js
unfolding without
without-behind fd [] js h = refl
without-behind fd (j ∷ own) js h =
    rw (h.0, without) (ap (λ ks. j ∷ ks) (without-behind fd own js h.1))

fds_of-erase_client :
    (fd : ℕ) (cs : List (ℕ × Outlet)) → fds_of (erase_client fd cs) ≡ without fd (fds_of cs)
unfolding fds_of erase_client without
fds_of-erase_client fd [] = refl
fds_of-erase_client fd ((j, c) ∷ cs) = elim (Bool-cases (j == fd)) [
  | inl e ↦ rw (e, erase_client) refl
  | inr e ↦ rw (e, erase_client) (ap (λ ks. j ∷ ks) (fds_of-erase_client fd cs))
]

fds_of-put_client :
    (fd : ℕ) (c : Outlet) (cs : List (ℕ × Outlet)) → fds_of (put_client fd c cs) ≡ fds_of cs
unfolding fds_of put_client
fds_of-put_client fd c [] = refl
fds_of-put_client fd c ((j, d) ∷ cs) = elim (Bool-cases (j == fd)) [
  | inl e ↦ rw (e, put_client) refl
  | inr e ↦ rw (e, put_client) (ap (λ ks. j ∷ ks) (fds_of-put_client fd c cs))
]

fds_of-queue_frame :
    (p : PendingFrame) (cs : List (ℕ × Outlet)) → fds_of (queue_frame p cs) ≡ fds_of cs
unfolding fds_of queue_frame
fds_of-queue_frame p [] = refl
fds_of-queue_frame p ((j, d) ∷ cs) = elim (Bool-cases (j == p.fd)) [
  | inl e ↦ rw (e, queue_frame) refl
  | inr e ↦ rw (e, queue_frame) (ap (λ ks. j ∷ ks) (fds_of-queue_frame p cs))
]

fds_of-deliver :
    (ps : List PendingFrame) (cs : List (ℕ × Outlet)) → fds_of (deliver ps cs) ≡ fds_of cs
unfolding deliver
fds_of-deliver [] cs = refl
fds_of-deliver (p ∷ ps) cs = fds_of-deliver ps (queue_frame p cs) ∙ fds_of-queue_frame p cs

find_client-apart :
    (P : ℕ → Type 0) (fd : ℕ) (cs : List (ℕ × Outlet)) (c : Outlet)
    → find_client fd cs ≡ some c
    → All P (fds_of cs)
    → P fd
unfolding find_client fds_of
find_client-apart P fd [] c h k = ground arith
find_client-apart P fd ((j, d) ∷ cs) c h k = elim (Bool-cases (j == fd)) [
  | inl e ↦ subst P ((==_iff j fd).0 e) k.0
  | inr e ↦ find_client-apart P fd cs c (sym (rw (e, find_client) refl) ∙ h) k.1
]

All-without : (P : ℕ → Type 0) (fd : ℕ) (js : List ℕ) → All P js → All P (without fd js)
unfolding without
All-without P fd [] h = tt
All-without P fd (j ∷ js) h = elim (Bool-cases (j == fd)) [
  | inl e ↦ rw (e, without) h.1
  | inr e ↦ rw (e, without) (h.0, All-without P fd js h.1)
]

accept_client-Kept :
    (own : List ℕ) (fd : ℕ) (io : Io)
    → Kept own io
    → IsNew fd (still_open io.calls [])
    → Kept own (accept_client fd io)
unfolding accept_client still_open
accept_client-Kept own fd io k new = record {
  opened =
      still_open-append io.calls (opens fd ∷ []) []
      ∙ (ap (λ js. js ++ fd ∷ []) k.opened
          ∙ (append_assoc own (fds_of io.clients) (fd ∷ [])
              ∙ ap (λ js. own ++ js) (sym (fds_of-append io.clients fd _))));
  apart = rw (fds_of-append io.clients fd _) (
      All-append (λ j. IsNew j own) (fds_of io.clients) (fd ∷ []) k.apart
        (All-front _ own (fds_of io.clients) (subst (λ js. IsNew fd js) k.opened new), tt));
}

take_pending-Kept : (own : List ℕ) (io : Io) → Kept own io → Kept own (take_pending io)
unfolding take_pending
take_pending-Kept own io k = record {
  opened = k.opened ∙ ap (λ js. own ++ js) (sym (fds_of-deliver io.pending io.clients));
  apart = rw (fds_of-deliver io.pending io.clients) k.apart;
}

-- A client that is served keeps its descriptor, or it goes and the descriptor is closed.
end_event-Kept :
    (own : List ℕ) (e : ClientEvent) (fd : ℕ) (i : Inlet) (c : Outlet) (io : Io)
    → Kept own io
    → IsNew fd own
    → Kept own (end_event e fd i c io)
unfolding end_event still_open
end_event-Kept own e fd i c io k new =
    elim (Bool-cases (finish_event e.event.output e.first e.second c []).closes) [
      | inl h ↦
          rw (h, end_event)
            (record {
              opened =
                  still_open-append io.calls (closes fd ∷ []) []
                  ∙ (ap (λ js. without fd js) k.opened
                      ∙ (without-behind fd own (fds_of io.clients) new
                          ∙ ap (λ js. own ++ js) (sym (fds_of-erase_client fd io.clients))));
              apart =
                  rw (fds_of-erase_client fd io.clients)
                    (All-without _ fd (fds_of io.clients) k.apart);
            })
      | inr h ↦
          rw (h, end_event)
            (record {
              opened = k.opened ∙ ap (λ js. own ++ js) (sym (fds_of-put_client fd _ io.clients));
              apart = rw (fds_of-put_client fd _ io.clients) k.apart;
            })
    ]

module _ (sha1 : Bytes → Bytes) (strtoull : Bytes → ℕ) (own : List ℕ) where
  ended-Kept :
      (e : ClientEvent) (fd : ℕ) (got : Option (Inlet × Outlet)) (io io' : Io)
      → Kept own io
      → IsNew fd own
      → elim got [ none ↦ none | some (i, c) ↦ some (end_event e fd i c io) ] ≡ some io'
      → Kept own io'
  ended-Kept e fd none io io' k new h = ground arith
  ended-Kept e fd (some (i, c)) io io' k new h =
      subst (λ o. Kept own o) (some-injective _ _ h) (end_event-Kept own e fd i c io k new)

  on_client-Kept :
      (e : ClientEvent) (fd : ℕ) (io io' : Io)
      → Kept own io
      → on_client sha1 strtoull e fd io ≡ some io'
      → Kept own io'
  unfolding on_client
  on_client-Kept e fd io io' k h = elim (Option-cases (find_client fd io.clients)) [
    | inl f ↦
        let quiet : on_client sha1 strtoull e fd io ≡ some io = rw (f, on_client) refl in
        subst (λ o. Kept own o) (some-injective io io' (sym quiet ∙ h)) k
    | inr (c, f) ↦
        ended-Kept e fd (got c) io io' k (find_client-apart _ fd io.clients c f k.apart)
          (sym (rw (f, on_client) refl) ∙ h)
  ]
    where
      got : Outlet → Option (Inlet × Outlet)
      got c =
          let hung = record c { closed = c.closed || e.event.hangup } in
          if e.event.input
          then on_input sha1 strtoull e.event (io.inlets fd) hung
          else some (io.inlets fd, hung)

  pub Reaches-Kept : (start io : Io) → Kept own start → Reaches sha1 strtoull start io → Kept own io
  Reaches-Kept start _ k begins = k
  Reaches-Kept start _ k (accepts fd io r new) =
      accept_client-Kept own fd io (Reaches-Kept start io k r) new
  Reaches-Kept start _ k (leaves_frame p io r) = record {
    opened = (Reaches-Kept start io k r).opened;
    apart = (Reaches-Kept start io k r).apart;
  }
  Reaches-Kept start _ k (delivers io r) = take_pending-Kept own io (Reaches-Kept start io k r)
  Reaches-Kept start io' k (serves e fd io _ r h) =
      on_client-Kept e fd io io' (Reaches-Kept start io k r) h
