-- ===== src/Connection/Events/Closing.antt =====
-- How connections of src/fcgi-connection.cpp are closed.
use wasapi.Base.{
  ℕ, zero, suc, ◌≤◌, ◌<◌, ◌⊎◌, ◌≡◌, refl, ap, ◌∙◌, Bool, true, false, none, some, List, [], ◌∷◌,
  ◌++◌, Bytes, length, ltb, ◌==◌, ==_self, append_assoc, if◌then◌else◌, Bool-cases, inl, inr,
}
use wasapi.Fastcgi.Records.{read_header}
use wasapi.Fastcgi.Process.{Limits, Callbacks, State, total_len, process_buffer}
use wasapi.Fastcgi.Process.Front.{stopped, loop_short, loop_partial}
use wasapi.Connection.{
  Connection, Loop, new_connection, none_open, find_conn, put_conn, erase_conn,
  should_close_connection,
}
use wasapi.Connection.Output.{
  SendResult, sent, blocks, fails, update_write_interest, flush_done, flush_connection,
}
use wasapi.Connection.Requests.{
  Settings, callbacks, process_fcgi, flush, cleanup_loop, drop_connection, close_connection,
}
use wasapi.Connection.Events.{
  Event, conn_at, read_conn, read_input, close_one, sweep_loop, close_loop, close_queued,
  serve_events, handle_io,
}

find-put_conn :
    (fd : ℕ) (c : Connection) (cs : List (ℕ × Connection))
    → find_conn fd (put_conn fd c cs) ≡ some c
unfolding find_conn put_conn
find-put_conn fd c [] = rw (==_self fd) refl
find-put_conn fd c ((j, d) ∷ cs) = elim (Bool-cases (j == fd)) [
  | inl e ↦ rw (e, put_conn) (rw (e, find_conn) refl)
  | inr e ↦ rw (e, put_conn) (rw (e, find_conn) (find-put_conn fd c cs))
]

erase-put_conn :
    (fd : ℕ) (c : Connection) (cs : List (ℕ × Connection))
    → erase_conn fd (put_conn fd c cs) ≡ erase_conn fd cs
unfolding erase_conn put_conn
erase-put_conn fd c [] = rw (==_self fd) refl
erase-put_conn fd c ((j, d) ∷ cs) = elim (Bool-cases (j == fd)) [
  | inl e ↦ rw (e, put_conn) (rw (e, erase_conn) refl)
  | inr e ↦ rw (e, put_conn) (rw (e, erase_conn) (ap (◌∷◌ (j, d)) (erase-put_conn fd c cs)))
]

-- A connection without requests or output, with some input.
abbrev pub quiet : Bytes → Bool → Bool → Bool → Bool → Connection
quiet s closed waiting writes want = record {
  in_buf = s;
  out_buf = [];
  out_pos = 0;
  requests = [];
  closed = closed;
  waiting_for_arena = waiting;
  active_workers = 0;
  writes = writes;
  want_write_interest = want;
}

-- Without input either.
abbrev pub idle : Bool → Bool → Bool → Bool → Connection
idle closed waiting writes want = quiet [] closed waiting writes want

should_close-idle :
    (s : Bytes) (closed waiting writes want : Bool)
    → should_close_connection (quiet s closed waiting writes want) ≡ true
unfolding should_close_connection none_open
should_close-idle s true waiting writes want = refl
should_close-idle s false waiting writes want = refl

flush_nothing :
    (sends : List SendResult) (c : Connection) (wire : Bytes)
    → ltb c.out_pos (length c.out_buf) ≡ false
    → flush_connection sends c wire ≡ flush_done c wire
unfolding flush_connection
flush_nothing [] c wire h = rw h refl
flush_nothing (blocks ∷ sends) c wire h = rw h refl
flush_nothing (fails ∷ sends) c wire h = rw h refl
flush_nothing (sent zero ∷ sends) c wire h = rw h refl
flush_nothing (sent (suc n) ∷ sends) c wire h = rw h refl

-- The interest that an idle connection is left with.
abbrev calm : Bool → Bool → Bool
calm writes want = if writes then false else want

-- Nothing to send: the write interest is given up, and the connection is queued to be closed.
flush_done-idle :
    (s : Bytes) (closed waiting writes want : Bool)
    → flush_done (quiet s closed waiting writes want) [] ≡ record {
      conn = quiet s closed waiting false (calm writes want);
      wire = [];
      queues_close = true;
    }
unfolding flush_done update_write_interest should_close_connection none_open
flush_done-idle s true waiting true want = refl
flush_done-idle s true waiting false want = refl
flush_done-idle s false waiting true want = refl
flush_done-idle s false waiting false want = refl

find-one : (fd : ℕ) (c : Connection) → find_conn fd ((fd, c) ∷ []) ≡ some c
unfolding find_conn
find-one fd c = rw (==_self fd) refl

erase-one : (fd : ℕ) (c : Connection) → erase_conn fd ((fd, c) ∷ []) ≡ []
unfolding erase_conn
erase-one fd c = rw (==_self fd) refl

module _ (settings : Settings) where
  flush-idle :
      (fd : ℕ) (s : Bytes) (closed waiting writes want : Bool) (g : Loop)
      → flush settings fd (quiet s closed waiting writes want) g ≡ record g {
        conns = put_conn fd (quiet s closed waiting false (calm writes want)) g.conns;
        wire = g.wire ++ (fd, []) ∷ [];
        close_queue = g.close_queue ++ fd ∷ [];
      }
  unfolding flush
  flush-idle fd s closed waiting writes want g =
      rw
        (
          flush_nothing (settings.sends fd) (quiet s closed waiting writes want) [] refl
              ∙ flush_done-idle s closed waiting writes want,
          flush,
        )
        refl

  -- An idle connection of the loop goes when it is closed.
  close-idle :
      (fd : ℕ) (c : Connection) (g : Loop)
      → find_conn fd g.conns ≡ some c
      → c.requests ≡ []
      → close_connection settings fd g
        ≡ record g { conns = erase_conn fd g.conns; closings = g.closings ++ fd ∷ [] }
  unfolding close_connection drop_connection cleanup_loop
  close-idle fd c g h e = rw (h, close_connection) (rw (e, drop_connection) refl)

  -- The peer has gone: `recv` gives 0.
  abbrev pub gone : Event
  gone = record { hangup = false; input = true; output = false; received = []; ended = true }

  read_conn-gone :
      (fd : ℕ) (waiting writes want : Bool) (g : Loop)
      → read_conn settings fd gone (idle false waiting writes want) g
        ≡ flush settings fd (idle true waiting writes want) g
  unfolding read_conn process_fcgi
  read_conn-gone fd true writes want g = refl
  read_conn-gone fd false writes want g = refl

  close_one-idle :
      (fd : ℕ) (s : Bytes) (closed waiting writes want : Bool) (g : Loop)
      → close_one settings fd (quiet s closed waiting writes want) g
        ≡ record g { conns = erase_conn fd g.conns; closings = g.closings ++ fd ∷ [] }
  unfolding close_one
  close_one-idle fd s closed waiting writes want g =
      rw (should_close-idle s closed waiting writes want, close_one)
        (close-idle fd (quiet s closed waiting writes want)
            (record g { conns = put_conn fd (quiet s closed waiting writes want) g.conns })
            (find-put_conn fd _ g.conns) refl
          ∙ rw (erase-put_conn fd (quiet s closed waiting writes want) g.conns) refl)

  -- Two entries of a descriptor in the queue close it twice: the second time a new connection stands for
  -- the one that is gone.
  close_loop-twice :
      (fd : ℕ) (s : Bytes) (closed waiting writes want : Bool) (g : Loop)
      → conn_at settings fd g ≡ quiet s closed waiting writes want
      → find_conn fd (erase_conn fd g.conns) ≡ none
      → (close_loop settings (fd ∷ fd ∷ []) g).closings ≡ g.closings ++ (fd ∷ fd ∷ [])
  unfolding close_loop
  close_loop-twice fd s closed waiting writes want g h unique =
      ap (λ (l : Loop). (close_one settings fd (conn_at settings fd l) l).closings) first ∙ second
    where
      once : Loop
      once = record g { conns = erase_conn fd g.conns; closings = g.closings ++ fd ∷ [] }

      first : close_one settings fd (conn_at settings fd g) g ≡ once
      first =
          ap (λ c. close_one settings fd c g) h ∙ close_one-idle fd s closed waiting writes want g

      made : conn_at settings fd once ≡ new_connection
      made = rw (unique, conn_at) refl

      second :
          (close_one settings fd (conn_at settings fd once) once).closings
          ≡ g.closings ++ (fd ∷ fd ∷ [])
      second =
          ap (λ c. (close_one settings fd c once).closings) made
          ∙ ap (λ (l : Loop). l.closings) (close_one-idle fd [] false false false false once)
          ∙ append_assoc g.closings (fd ∷ []) (fd ∷ [])

  -- The state when the queue of closes is looked at.
  abbrev at_end : ℕ → Bytes → Bool → Bool → Bool → Bool → Loop → Loop
  at_end fd s closed waiting writes want g = record g {
    conns = put_conn fd (quiet s closed waiting false (calm writes want)) g.conns;
    wire = g.wire ++ (fd, []) ∷ [];
    close_queue = g.close_queue ++ fd ∷ [];
  }

  close_queued-twice :
      (fd : ℕ) (s : Bytes) (closed waiting writes want : Bool) (g : Loop)
      → g.close_queue ≡ []
      → find_conn fd (erase_conn fd g.conns) ≡ none
      → (close_queued settings fd (at_end fd s closed waiting writes want g)).closings
        ≡ g.closings ++ (fd ∷ fd ∷ [])
  unfolding close_queued
  close_queued-twice fd s closed waiting writes want g e unique =
      ap (λ queue. (close_loop settings queue (record last { close_queue = [] })).closings) queue
      ∙ close_loop-twice fd s closed waiting false (calm writes want)
          (record last { close_queue = [] }) there
          (rw (erase-put_conn fd (quiet s closed waiting false (calm writes want)) g.conns) unique)
    where
      last : Loop
      last = at_end fd s closed waiting writes want g

      there : conn_at settings fd last ≡ quiet s closed waiting false (calm writes want)
      there =
          rw (find-put_conn fd (quiet s closed waiting false (calm writes want)) g.conns, conn_at)
            refl

      queue :
          (if should_close_connection (conn_at settings fd last)
            then last.close_queue ++ fd ∷ []
            else last.close_queue)
          ≡ fd ∷ fd ∷ []
      queue =
          ap
            (λ c.
              if should_close_connection c then last.close_queue ++ fd ∷ [] else last.close_queue)
            there
          ∙ rw (should_close-idle s closed waiting false (calm writes want), e) refl

  -- An event whose input leaves the connection without requests or output closes it twice.
  serve_events-twice :
      (fd : ℕ) (e : Event) (s : Bytes) (closed waiting writes want : Bool) (g : Loop)
      → e.hangup ≡ false
      → e.input ≡ true
      → e.output ≡ false
      → read_input settings fd e g ≡ at_end fd s closed waiting writes want g
      → find_conn fd (erase_conn fd g.conns) ≡ none
      → g.close_queue ≡ []
      → (serve_events settings fd e g).closings ≡ g.closings ++ (fd ∷ fd ∷ [])
  unfolding serve_events sweep_loop
  serve_events-twice fd e s closed waiting writes want g hangup input output read unique empty =
      rw (hangup, input, output, serve_events)
        (ap
            (λ (l : Loop).
              (close_queued settings fd
                (sweep_loop settings fd (conn_at settings fd l).requests l)).closings)
            read
          ∙ ap (λ rs. (close_queued settings fd (sweep_loop settings fd rs last)).closings) nothing
          ∙ close_queued-twice fd s closed waiting writes want g empty unique)
    where
      last : Loop
      last = at_end fd s closed waiting writes want g

      nothing : (conn_at settings fd last).requests ≡ []
      nothing =
          rw (find-put_conn fd (quiet s closed waiting false (calm writes want)) g.conns, conn_at)
            refl

  -- A peer that closes an idle connection makes the server call `close` on its descriptor twice in one
  -- event, if the queue of closes was empty and no other connection has the descriptor.
  pub handle_io_closes_twice :
      (fd : ℕ) (waiting writes want : Bool) (g : Loop)
      → find_conn fd g.conns ≡ some (idle false waiting writes want)
      → find_conn fd (erase_conn fd g.conns) ≡ none
      → g.close_queue ≡ []
      → (handle_io settings fd gone g).closings ≡ g.closings ++ (fd ∷ fd ∷ [])
  unfolding handle_io read_input
  handle_io_closes_twice fd waiting writes want g h unique e =
      rw (h, handle_io)
        (serve_events-twice fd gone [] true waiting writes want g refl refl refl read unique e)
    where
      here : conn_at settings fd g ≡ idle false waiting writes want
      here = rw (h, conn_at) refl

      read : read_input settings fd gone g ≡ at_end fd [] true waiting writes want g
      read =
          ap (λ c. read_conn settings fd gone c g) here
          ∙ (read_conn-gone fd waiting writes want g ∙ flush-idle fd [] true waiting writes want g)

  -- Bytes arrive, and the peer stays.
  abbrev pub arrived : Bytes → Event
  arrived s = record { hangup = false; input = true; output = false; received = s; ended = false }

  -- Bytes that begin a record but do not complete it.
  abbrev pub Incomplete : Bytes → Type 0
  Incomplete s =
      (length s < 8)
      ⊎ ((8 ≤ length s) × ((read_header s).version ≡ 1) × (length s < total_len (read_header s)))

  process_buffer-Incomplete :
      {S : Type 0} (limits : Limits) (calls : Callbacks S) (s : Bytes) (st : State S)
      → Incomplete s
      → process_buffer limits calls s st ≡ stopped limits calls s st
  unfolding process_buffer
  process_buffer-Incomplete limits calls s st (inl a) = loop_short limits calls (length s) s s st a
  process_buffer-Incomplete limits calls s st (inr (a, v, t)) =
      loop_partial limits calls (length s) s s st a v t

  read_conn-Incomplete :
      (fd : ℕ) (s : Bytes) (writes want : Bool) (g : Loop)
      → Incomplete s
      → read_conn settings fd (arrived s) (idle false false writes want) g
        ≡ flush settings fd (quiet s false false writes want) g
  unfolding read_conn process_fcgi
  read_conn-Incomplete fd s writes want g h =
      rw (process_buffer-Incomplete settings.limits (callbacks settings fd) s _ h) refl

  -- When the first bytes of a connection do not complete a record, the server does not wait for the rest:
  -- the connection has no requests and no output, so the event that read the bytes closes it, and its
  -- descriptor twice, if the queue of closes was empty and no other connection has the descriptor.
  pub handle_io_closes_early :
      (fd : ℕ) (s : Bytes) (writes want : Bool) (g : Loop)
      → find_conn fd g.conns ≡ some (idle false false writes want)
      → Incomplete s
      → find_conn fd (erase_conn fd g.conns) ≡ none
      → g.close_queue ≡ []
      → (handle_io settings fd (arrived s) g).closings ≡ g.closings ++ (fd ∷ fd ∷ [])
  unfolding handle_io read_input
  handle_io_closes_early fd s writes want g h part unique e =
      rw (h, handle_io)
        (serve_events-twice fd (arrived s) s false false writes want g refl refl refl read unique e)
    where
      here : conn_at settings fd g ≡ idle false false writes want
      here = rw (h, conn_at) refl

      read : read_input settings fd (arrived s) g ≡ at_end fd s false false writes want g
      read =
          ap (λ c. read_conn settings fd (arrived s) c g) here
          ∙ (read_conn-Incomplete fd s writes want g part
              ∙ flush-idle fd s false false writes want g)
