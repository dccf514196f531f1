-- ===== src/Websockets/Handshake/Plain.antt =====
-- Plain HTTP requests to src/websockets.cpp that come in one piece, in two, and one after another.
use wasapi.Base.{
  ℕ, ◌+◌, ◌<◌, ◌≤◌, ◌≡◌, refl, ap, ◌∙◌, true, false, none, some, [], ◌∷◌, ◌++◌, Bytes, length,
  length-append, take, drop, take-append_le, drop-append_le, take-length, take-append, le→ltb,
  lt→ltb, arith,
}
use wasapi.Http.Text.{find_text}
use wasapi.Http.Text.Find.{find_text-le, find_text-append}
use wasapi.Websockets.Handshake.{
  crlf2, Peer, schedule_if_whole, parse_http_headers, length_loop, plain_http, whole_headers,
  on_http_input, receive,
}

-- A client that has just connected.
abbrev pub fresh : Peer
fresh = record {
  handshake_done = false;
  in_http = [];
  http_mode = false;
  http_headers_parsed = false;
  http_content_length = 0;
  in_buf = [];
  out_buf = [];
  scheduled = [];
}

module _ (sha1 : Bytes → Bytes) (strtoull : Bytes → ℕ) where
  -- A text starts with the headers of a plain request: they end at `i`, ask for no upgrade, and name a
  -- body of `n` bytes.
  pub record IsRequest (text : Bytes) (i n : ℕ) : Type 0 where
    pub ended : find_text crlf2 text ≡ some i
    pub plain : parse_http_headers sha1 strtoull (take (i + 4) text) ≡ none
    pub declared :
        (fallback : ℕ)
        → length_loop sha1 strtoull (length (take (i + 4) text)) (take (i + 4) text) fallback ≡ n

  whole : (text : Bytes) (i n : ℕ) → IsRequest text i n → i + 4 ≤ length text
  whole text i n h = find_text-le crlf2 text i h.ended

  IsRequest-append :
      (text more : Bytes) (i n : ℕ) → IsRequest text i n → IsRequest (text ++ more) i n
  IsRequest-append text more i n h = record {
    ended = find_text-append crlf2 text more i h.ended;
    plain = rw (take-append_le (i + 4) text more (whole text i n h)) h.plain;
    declared =
        λ fallback. rw (take-append_le (i + 4) text more (whole text i n h)) (h.declared fallback);
  }

  -- The client once its text is known to hold whole headers.
  abbrev parsed_peer : Peer → Bytes → ℕ → ℕ → Peer
  parsed_peer c text i n = record c {
    in_http = text;
    http_mode = true;
    http_content_length = n;
    http_headers_parsed = true;
    in_buf = drop (i + 4) text;
  }

  whole_headers-IsRequest :
      (c : Peer) (i n : ℕ)
      → IsRequest c.in_http i n
      → c.in_buf ≡ []
      → whole_headers sha1 strtoull c i ≡ schedule_if_whole (parsed_peer c c.in_http i n)
  unfolding whole_headers plain_http
  whole_headers-IsRequest c i n h e =
      rw (h.plain, whole_headers) (rw (h.declared c.http_content_length, plain_http, e) refl)

  on_http_input-IsRequest :
      (c : Peer) (i n : ℕ)
      → IsRequest (c.in_http ++ c.in_buf) i n
      → on_http_input sha1 strtoull c
        ≡ schedule_if_whole (parsed_peer c (c.in_http ++ c.in_buf) i n)
  unfolding on_http_input
  on_http_input-IsRequest c i n h =
      rw (h.ended, on_http_input)
        (whole_headers-IsRequest (record c { in_http = c.in_http ++ c.in_buf; in_buf = [] }) i n h
          refl)

  -- The body is not there yet: the peer waits with what it has.
  schedule-waits : (c : Peer) → length c.in_buf < c.http_content_length → schedule_if_whole c ≡ c
  unfolding schedule_if_whole
  schedule-waits c h = rw (lt→ltb (length c.in_buf) c.http_content_length h) refl

  scheduled-whole :
      (c : Peer)
      → c.http_content_length ≤ length c.in_buf
      → schedule_if_whole c ≡ record c {
        scheduled = c.scheduled ++ (c.in_http, take c.http_content_length c.in_buf) ∷ [];
        in_buf = [];
      }
  unfolding schedule_if_whole
  scheduled-whole c h = rw (le→ltb (length c.in_buf) c.http_content_length h) refl

  -- What is behind the headers.
  abbrev pub body : Bytes → ℕ → Bytes
  body text i = drop (i + 4) text

  abbrev served : Bytes → ℕ → ℕ → Peer
  served text i n = record (parsed_peer fresh text i n) {
    scheduled = (text, body text i) ∷ [];
    in_buf = [];
  }

  receive-whole :
      (text : Bytes) (i n : ℕ)
      → IsRequest text i n
      → length (body text i) ≡ n
      → receive sha1 strtoull fresh text ≡ served text i n
  unfolding receive
  receive-whole text i n h e =
      on_http_input-IsRequest (record fresh { in_buf = text }) i n h
      ∙ scheduled-whole (parsed_peer fresh text i n) (omega (arith, e))
      ∙ rw (← e, take-length (body text i)) refl

  receive-part :
      (text : Bytes) (i n : ℕ)
      → IsRequest text i n
      → length (body text i) < n
      → receive sha1 strtoull fresh text ≡ parsed_peer fresh text i n
  unfolding receive
  receive-part text i n h lt =
      on_http_input-IsRequest (record fresh { in_buf = text }) i n h
      ∙ schedule-waits (parsed_peer fresh text i n) lt

  -- Any later arrival, where `text` is all that the peer has by then.
  receive-IsRequest :
      (c : Peer) (more : Bytes) (i n : ℕ)
      → IsRequest (c.in_http ++ (c.in_buf ++ more)) i n
      → receive sha1 strtoull c more
        ≡ schedule_if_whole (parsed_peer c (c.in_http ++ (c.in_buf ++ more)) i n)
  unfolding receive
  receive-IsRequest c more i n h =
      on_http_input-IsRequest (record c { in_buf = c.in_buf ++ more }) i n h

  body-append :
      (text more : Bytes) (i n : ℕ)
      → IsRequest text i n
      → body (text ++ more) i ≡ body text i ++ more
  body-append text more i n h = drop-append_le (i + 4) text more (whole text i n h)

  -- A plain request that arrives in one piece is scheduled once, with the bytes behind its headers as the
  -- body. The peer keeps its text: whatever arrives next, the same request is scheduled again, under the
  -- longer text.
  pub receive_again :
      (text more : Bytes) (i n : ℕ)
      → IsRequest text i n
      → length (body text i) ≡ n
      → (receive sha1 strtoull (receive sha1 strtoull fresh text) more).scheduled
        ≡ (text, body text i) ∷ (text ++ more, body text i) ∷ []
  receive_again text more i n h e = rw (receive-whole text i n h e) (
      ap (λ (p : Peer). p.scheduled)
        (receive-IsRequest (served text i n) more i n (IsRequest-append text more i n h)
          ∙ scheduled-whole (parsed_peer (served text i n) (text ++ more) i n) room)
      ∙ rw (body-append text more i n h, ← e, take-append (body text i) more) refl)
    where
      room : n ≤ length (body (text ++ more) i)
      room = rw (body-append text more i n h) (omega (arith, length-append (body text i) more, e))

  -- A plain request whose body arrives in two pieces is scheduled with a wrong body: the first piece
  -- stands in it twice, and the end of the second piece is cut off.
  pub receive_split :
      (text more : Bytes) (i n : ℕ)
      → IsRequest text i n
      → length (body text i) < n
      → length (body text i) + length more ≡ n
      → (receive sha1 strtoull (receive sha1 strtoull fresh text) more).scheduled
        ≡ (text ++ (body text i ++ more), take n (body text i ++ (body text i ++ more))) ∷ []
  receive_split text more i n h lt e = rw (receive-part text i n h lt) (
      ap (λ (p : Peer). p.scheduled)
        (receive-IsRequest (parsed_peer fresh text i n) more i n (IsRequest-append text both i n h)
          ∙ scheduled-whole (parsed_peer (parsed_peer fresh text i n) (text ++ both) i n) room)
      ∙ rw (body-append text both i n h) refl)
    where
      both : Bytes
      both = body text i ++ more

      room : n ≤ length (body (text ++ both) i)
      room =
          rw (body-append text both i n h)
            (omega (arith, length-append (body text i) both, length-append (body text i) more, e))
