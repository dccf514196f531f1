-- ===== src/Websockets/Handshake.antt =====
-- src/websockets.cpp: `parse_http_headers`, and what `serve` does with the input of a client that has not
-- shaken hands: the WebSocket upgrade, or a plain HTTP request.
pub mod Plain
use wasapi.Base.{
  ℕ, zero, suc, ◌+◌, ◌-◌, Bool, true, false, Option, none, some, List, [], ◌∷◌, ◌++◌, Bytes, codes,
  length, take, drop, ltb, bytes_eq, find_byte, if◌then◌else◌,
}
use wasapi.Http.Base64.{base64_encode}
use wasapi.Http.Text.{trim_front, trim_back, trim_spaces, is_blank, lower, find_text}

-- The end of a header line, and of the headers.
abbrev pub crlf : Bytes
crlf = 13 ∷ 10 ∷ []

abbrev pub crlf2 : Bytes
crlf2 = 13 ∷ 10 ∷ 13 ∷ 10 ∷ []

-- The key in the text behind `Sec-WebSocket-Key:`.
unfoldable pub header_key : Bytes → Option Bytes
unfolding find_byte trim_front trim_back is_blank
header_key s =
    let value = trim_front is_blank s in
    elim (find_byte 13 value) [
      | none ↦ none
      | some end ↦ some (trim_back is_blank (take end value))
    ]

-- The part of `Client` that serves the handshake. `scheduled` are the calls of `schedule_http`.
pub record Peer : Type 0 where
  pub handshake_done : Bool
  pub in_http : Bytes
  pub http_mode : Bool
  pub http_headers_parsed : Bool
  pub http_content_length : ℕ
  pub in_buf : Bytes
  pub out_buf : Bytes
  pub scheduled : List (Bytes × Bytes)

-- `schedule_http` once the body is there. It takes `in_http` as an rvalue and only reads it, so the
-- text stays.
unfoldable pub schedule_if_whole : Peer → Peer
schedule_if_whole c = if ltb (length c.in_buf) c.http_content_length then c else record c {
  scheduled = c.scheduled ++ (c.in_http, take c.http_content_length c.in_buf) ∷ [];
  in_buf = [];
}

-- `SHA1` and `strtoull` of the libraries.
module _ (sha1 : Bytes → Bytes) (strtoull : Bytes → ℕ) where
  unfoldable pub accept_key : Bytes → Bytes
  unfolding base64_encode
  accept_key key = base64_encode (sha1 (key ++ codes "258EAFA5-E914-47DA-95CA-C5AB0DC85B11"))

  -- The key of the response; nothing is the result false.
  unfoldable pub parse_http_headers : Bytes → Option Bytes
  unfolding find_text header_key accept_key
  parse_http_headers http = elim (find_text (codes "Sec-WebSocket-Key:") http) [
    | none ↦ none
    | some pos ↦ elim (header_key (drop (pos + 18) http)) [
      | none ↦ none
      | some key ↦ some (accept_key key)
    ]
  ]

  unfoldable pub upgrade_response : Bytes → Bytes
  upgrade_response key =
      codes "HTTP/1.1 101 Switching Protocols\r\n"
      ++ (codes "Upgrade: websocket\r\n"
          ++ (codes "Connection: Upgrade\r\n"
              ++ (codes "Sec-WebSocket-Accept: " ++ (key ++ crlf2))))

  -- The value of a line that names `content-length`.
  unfoldable pub length_line : Bytes → Option ℕ
  unfolding find_byte lower trim_spaces bytes_eq
  length_line line = elim (find_byte b':' line) [
    | none ↦ none
    | some colon ↦
        if bytes_eq (lower (take colon line)) (codes "content-length")
        then some (strtoull (trim_spaces (drop (suc colon) line)))
        else none
  ]

  -- The loop on the lines: `fallback` if none names it. Each round passes a line end.
  unfoldable pub length_loop : ℕ → Bytes → ℕ → ℕ
  unfolding find_text length_line
  length_loop zero headers fallback = fallback
  length_loop (suc fuel) headers fallback = elim (find_text crlf headers) [
    | none ↦ fallback
    | some zero ↦ fallback
    | some (suc i) ↦ elim (length_line (take (suc i) headers)) [
      | some n ↦ n
      | none ↦ length_loop fuel (drop (3 + i) headers) fallback
    ]
  ]

  -- No upgrade: the body's length, and the bytes behind the headers go to `in_buf`.
  unfoldable pub plain_http : Peer → ℕ → Peer
  unfolding length_loop schedule_if_whole
  plain_http c hdr_end =
      let headers = take (hdr_end + 4) c.in_http in
      schedule_if_whole (record c {
        http_mode = true;
        http_content_length = length_loop (length headers) headers c.http_content_length;
        http_headers_parsed = true;
        in_buf = c.in_buf ++ drop (hdr_end + 4) c.in_http;
      })

  unfoldable pub whole_headers : Peer → ℕ → Peer
  unfolding parse_http_headers upgrade_response plain_http
  whole_headers c hdr_end = elim (parse_http_headers (take (hdr_end + 4) c.in_http)) [
    | some key ↦ record c { out_buf = c.out_buf ++ upgrade_response key; handshake_done = true }
    | none ↦ plain_http c hdr_end
  ]

  -- Without the end of the headers.
  unfoldable pub partial_headers : Peer → Peer
  unfolding schedule_if_whole
  partial_headers c =
      if c.http_mode then (if c.http_headers_parsed then schedule_if_whole c else c) else c

  -- What `serve` does once it has read all there is, if there was no handshake yet.
  unfoldable pub on_http_input : Peer → Peer
  unfolding find_text whole_headers partial_headers
  on_http_input c =
      let joined : Peer = record c { in_http = c.in_http ++ c.in_buf; in_buf = [] } in
      elim (find_text crlf2 joined.in_http) [
        | none ↦ partial_headers joined
        | some hdr_end ↦ whole_headers joined hdr_end
      ]

  -- The loop on `recv` has read `read`.
  unfoldable pub receive : Peer → Bytes → Peer
  unfolding on_http_input
  receive c read = on_http_input (record c { in_buf = c.in_buf ++ read })
