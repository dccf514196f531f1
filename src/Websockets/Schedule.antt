-- ===== src/Websockets/Schedule.antt =====
-- src/websockets.cpp: the requests that `schedule_message` and `schedule_http` make, and what their tasks
-- make of the handler's output. The arena and the pool's queue are in the callers' state.
pub mod Target
use Prim.Native.String.{String}
use wasapi.Base.{
  ℕ, zero, suc, ◌+◌, ◌-◌, Bool, true, false, ◌&&◌, Option, none, some, [], ◌∷◌, ◌++◌, Bytes, codes,
  length, take, drop, leb, ◌==◌, bytes_eq, find_byte, if◌then◌else◌, map,
}
use wasapi.Dynamic.{Value, string, assign, find}
use wasapi.Request.{Request, Flags}
use wasapi.Http.Text.{trim_spaces, starts_with, find_text, strip_prefix}
use wasapi.Http.Query.{Pairs, put_pair, parse_query_variable}
use wasapi.Http.Cookies.{parse_cookie_header}
use wasapi.Http.Multipart.{System}
use wasapi.Http.Forms.{parse_form_data}
use wasapi.Fastcgi.Records.{decode_stdout}
use wasapi.Websockets.Frames.{build_ws_frame}
use wasapi.Websockets.Handshake.{crlf}

-- Setting the flags of a request that is whole.
unfoldable pub complete : Request → Request
complete r = record r {
  flags = record (r.flags) { initialized = true; params_complete = true; input_complete = true };
}

abbrev pub put : String → Bytes → Value → Value
put name value env = assign env (codes name) (string value)

-- The request of a message; `print_size` is `std::to_string` of a number.
unfoldable pub message_request : (ℕ → Bytes) → Request → ℕ → ℕ → Bytes → Request
unfolding complete assign
message_request print_size r fd opcode data' = complete (record r {
  id = 0;
  body = data';
  body_bytes = length data';
  env = put "CLIENT_FD" (print_size fd) (
      put "OPCODE" (print_size opcode) (
        put "MESSAGE_TYPE" (if opcode == 0x2 then codes "binary" else codes "text")
          (put "WS" (codes "1") r.env)));
})

-- The frame of a handler's output: none if it is empty.
unfoldable pub message_response : ℕ → Bytes → Option Bytes
unfolding build_ws_frame
message_response opcode [] = none
message_response opcode (c ∷ resp) = some (build_ws_frame opcode (c ∷ resp))

-- The text up to a byte, or all of it, and what is behind that byte.
unfoldable pub before : ℕ → Bytes → Bytes
unfolding find_byte
before c s = elim (find_byte c s) [ none ↦ s | some i ↦ take i s ]

unfoldable pub behind : ℕ → Bytes → Bytes
unfolding find_byte
behind c s = elim (find_byte c s) [ none ↦ [] | some i ↦ drop (suc i) s ]

-- The target of a request line behind its method: nothing if no blank follows.
unfoldable pub target_of : Bytes → Bytes
unfolding find_byte
target_of s = elim (find_byte 32 s) [ none ↦ [] | some i ↦ take i s ]

unfoldable pub put_target : Bytes → Bytes → Bytes → Value → Value
unfolding strip_prefix before behind assign
put_target prefix method target env =
    let stripped = strip_prefix prefix target in
    put "QUERY_STRING" (behind b'?' target) (
      put "PATH_INFO" (before b'?' stripped)
        (put "REQUEST_URI" stripped (put "REQUEST_METHOD" method env)))

unfoldable pub put_request_line : Bytes → Bytes → Value → Value
unfolding find_byte target_of put_target
put_request_line prefix line env = elim (find_byte 32 line) [
  | none ↦ env
  | some msp ↦ put_target prefix (take msp line) (target_of (drop (suc msp) line)) env
]

-- A header's name as a CGI variable: upper case, with '_' for '-'.
unfoldable pub env_byte : ℕ → ℕ
env_byte c = if c == b'-' then b'_' else if leb b'a' c && leb c b'z' then c - 32 else c

unfoldable pub env_name : Bytes → Bytes
unfolding env_byte
env_name name = codes "HTTP_" ++ map env_byte name

unfoldable pub put_header : Bytes → Value × Pairs → Value × Pairs
unfolding find_byte trim_spaces env_name assign put_pair
put_header line (env, headers) = elim (find_byte b':' line) [
  | none ↦ (env, headers)
  | some colon ↦
      let name = take colon line in
      let value = trim_spaces (drop (suc colon) line) in
      (assign env (env_name name) (string value), put_pair name value headers)
]

-- The loop on the header lines, up to an empty one. Each round passes a line end.
unfoldable pub headers_loop : ℕ → Bytes → Value × Pairs → Value × Pairs
unfolding find_text put_header
headers_loop zero s found = found
headers_loop (suc fuel) s found = elim (find_text crlf s) [
  | none ↦ found
  | some zero ↦ found
  | some (suc i) ↦ headers_loop fuel (drop (3 + i) s) (put_header (take (suc i) s) found)
]

unfoldable pub find_pair : Bytes → Pairs → Option Bytes
find_pair k [] = none
find_pair k ((j, v) ∷ ps) = if bytes_eq j k then some v else find_pair k ps

-- `headers.find(name)`, copied to a CGI variable if it is there. The name's case counts.
unfoldable pub copy_header : Bytes → String → Pairs → Value → Value
unfolding find_pair assign
copy_header name variable headers env = elim (find_pair name headers) [
  | none ↦ env
  | some value ↦ put variable value env
]

-- The environment that a request's text gives.
unfoldable pub text_env : Bytes → Bytes → Value → Value
unfolding find_text put_request_line headers_loop copy_header assign
text_env prefix text env =
    let (line, rest) = split (find_text crlf text) in
    let (env', headers) =
      headers_loop (length rest) rest
        (put "SERVER_PROTOCOL" (codes "HTTP/1.1") (put_request_line prefix line env), []) in
    copy_header (codes "Content-Length") "CONTENT_LENGTH" headers
      (copy_header (codes "Content-Type") "CONTENT_TYPE" headers env')
  where
    split : Option ℕ → Bytes × Bytes
    split none = (text, [])
    split (some i) = (take i text, drop (2 + i) text)

module _ (stod : Bytes → Option ℕ) (print_size : ℕ → Bytes) (print_double : ℕ → Bytes) {W : Type 0}
    (sys : System W) (double_of : ℕ → ℕ) (upload_tmp_dir ws_path_prefix : Bytes) where
  -- The request that `schedule_http` hands to the pool, from a new one.
  unfoldable pub http_request : Request → ℕ → Bytes → Bytes → W → Request × W
  unfolding text_env complete parse_query_variable parse_cookie_header parse_form_data find assign
  http_request r fd text body w =
      let env = text_env ws_path_prefix text r.env in
      let whole : Request =
        complete (record r { env = env; body = body; body_bytes = length body }) in
      let asked : Request = record whole {
        params = parse_query_variable print_double whole.params (find env (codes "QUERY_STRING"));
        cookies = parse_cookie_header print_double whole.cookies (find env (codes "HTTP_COOKIE"));
      } in
      let (formed, w') = parse_form_data stod print_size sys double_of upload_tmp_dir asked w in
      (
        record formed { env = put "CLIENT_FD" (print_size fd) (put "WS" (codes "0") formed.env) },
        w',
      )

  unfoldable pub content_type : Value → Bytes
  unfolding find
  content_type headers = elim (find headers (codes "Content-Type")) [
    | none ↦ codes "text/plain; charset=utf-8"
    | some v ↦ elim v [ string s ↦ s | _ ↦ codes "text/plain; charset=utf-8" ]
  ]

  -- What the task sends: the handler's text, with headers of its own unless it starts with some.
  unfoldable pub http_response : Value → Bytes → Bytes
  unfolding starts_with content_type decode_stdout
  http_response headers resp =
      let body = decode_stdout (length resp) resp [] in
      if starts_with (codes "HTTP/") body
      then body
      else codes "HTTP/1.1 200 OK\r\nContent-Type: "
        ++ (content_type headers
            ++ (codes "\r\nContent-Length: "
                ++ (print_size (length body) ++ (codes "\r\nConnection: close\r\n\r\n" ++ body))))
