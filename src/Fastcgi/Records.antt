-- ===== src/Fastcgi/Records.antt =====
-- src/fastcgi.cpp: `append_record`, `append_stdout_text`, `append_end_request`, and the loop of
-- src/websockets.cpp that reads the output records back.
pub mod Adapter
use wasapi.Base.{
  ℕ, zero, suc, ◌+◌, ◌*◌, ◌/◌, ◌%◌, ◌^◌, [], ◌∷◌, ◌++◌, Bytes, length, take, drop, get_or, ltb,
  ◌==◌, not, ◌&&◌, if◌then◌else◌,
}

-- The record types that the server sends or reads.
abbrev pub begin_request : ℕ
begin_request = 1

abbrev pub abort_request : ℕ
abort_request = 2

abbrev pub end_request : ℕ
end_request = 3

abbrev pub params : ℕ
params = 4

abbrev pub stdin : ℕ
stdin = 5

abbrev pub stdout : ℕ
stdout = 6

-- Protocol statuses.
abbrev pub request_complete : ℕ
request_complete = 0

abbrev pub overloaded : ℕ
overloaded = 2

-- A 16-bit number in network order, and back (`htons`, `ntohs` with the copy into the record).
abbrev pub to_be16 : ℕ → Bytes
to_be16 n = n / 256 % 256 ∷ n % 256 ∷ []

abbrev pub from_be16 : ℕ → ℕ → ℕ
from_be16 hi lo = hi * 256 + lo

pub record Header : Type 0 where
  pub version : ℕ
  pub type : ℕ
  pub request_id : ℕ
  pub content_length : ℕ
  pub padding_length : ℕ

-- The copy of the first eight bytes into `Header`, with the two 16-bit fields in host order.
unfoldable pub read_header : Bytes → Header
read_header buf = record {
  version = get_or buf 0 0;
  type = get_or buf 1 0;
  request_id = from_be16 (get_or buf 2 0) (get_or buf 3 0);
  content_length = from_be16 (get_or buf 4 0) (get_or buf 5 0);
  padding_length = get_or buf 6 0;
}

-- The eight bytes of `Header`: version 1, no padding.
abbrev pub header_bytes : ℕ → ℕ → ℕ → Bytes
header_bytes kind id len = 1 ∷ kind ∷ to_be16 id ++ to_be16 len ++ 0 ∷ 0 ∷ []

-- `len` bytes of `content` go behind the header; the caller's `len` is at most the content's length.
unfoldable pub append_record : Bytes → ℕ → ℕ → Bytes → ℕ → Bytes
append_record out kind id content len = out ++ (header_bytes kind id len ++ take len content)

-- The loop of `append_stdout_text`: at most 0xFFFF bytes a record. Each round takes a byte at least,
-- so as many rounds as bytes are enough.
unfoldable pub stdout_loop : ℕ → Bytes → ℕ → Bytes → Bytes
unfolding append_record
stdout_loop zero out id body = out
stdout_loop (suc fuel) out id [] = out
stdout_loop (suc fuel) out id (b ∷ body) =
    let remaining = length (b ∷ body) in
    let chunk = if ltb 0xFFFF remaining then 0xFFFF else remaining in
    stdout_loop fuel (append_record out stdout id (b ∷ body) chunk) id (drop chunk (b ∷ body))

unfoldable pub append_stdout_text : Bytes → ℕ → Bytes → Bytes
unfolding stdout_loop
append_stdout_text out id body =
    append_record (stdout_loop (length body) out id body) stdout id [] 0

-- `EndRequestBody`: `htonl(appStatus)`, the protocol status and three reserved bytes.
abbrev pub end_request_body : ℕ → ℕ → Bytes
end_request_body app_status status =
    app_status / 2 ^ 24 % 256
    ∷ app_status / 2 ^ 16 % 256
    ∷ app_status / 2 ^ 8 % 256
    ∷ app_status % 256
    ∷ status
    ∷ 0
    ∷ 0
    ∷ 0
    ∷ []

unfoldable pub append_end_request : Bytes → ℕ → ℕ → ℕ → Bytes
unfolding append_record
append_end_request out id app_status status =
    append_record out end_request id (end_request_body app_status status) 8

-- The loop of `schedule_http`'s task, which joins the content of the stdout records. Each round takes
-- eight bytes at least, so as many rounds as bytes are enough.
unfoldable pub decode_stdout : ℕ → Bytes → Bytes → Bytes
unfolding read_header
decode_stdout zero p body = body
decode_stdout (suc fuel) p body =
    let h = read_header p in
    let total = 8 + h.content_length + h.padding_length in
    let grown =
      if h.type == stdout && ltb 0 h.content_length
      then body ++ take h.content_length (drop 8 p)
      else body in
    let rest = decode_stdout fuel (drop total p) grown in
    if ltb (length p) 8
    then body
    else if not (h.version == 1)
    then body
    else if ltb (length p) total
    then body
    else rest
