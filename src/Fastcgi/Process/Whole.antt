-- ===== src/Fastcgi/Process/Whole.antt =====
-- A whole request as a web server sends it to `process_buffer` of src/fastcgi.cpp: its records, and the
-- request that they mean. These are written from the FastCGI specification and not from the code.
pub mod Pairs
pub mod Records
pub mod Received
use wasapi.Base.{
  ℕ, ◌+◌, ◌/◌, ◌%◌, ◌^◌, ◌<◌, ◌≤◌, Bool, true, false, List, [], ◌∷◌, ◌++◌, Bytes, All, length, ltb,
  if◌then◌else◌,
}
use wasapi.Dynamic.{Value, string, assign}
use wasapi.Request.{Request}
use wasapi.Fastcgi.Records.{begin_request, params, stdin}
use wasapi.Fastcgi.Process.{Limits}

abbrev pub Pair : Type 0
Pair = Bytes × Bytes

-- A length below 2 ^ 31: one byte, or four with the top bit set.
unfoldable pub length_bytes : ℕ → Bytes
length_bytes n =
    if ltb n 128
    then n ∷ []
    else (128 + n / 2 ^ 24) ∷ (n / 2 ^ 16 % 256) ∷ (n / 2 ^ 8 % 256) ∷ (n % 256) ∷ []

unfoldable pub pairs_bytes : List Pair → Bytes
unfolding length_bytes
pairs_bytes [] = []
pairs_bytes ((name, value) ∷ ps) =
    length_bytes (length name)
    ++ (length_bytes (length value) ++ (name ++ (value ++ pairs_bytes ps)))

-- A record with its padding, and what follows it.
abbrev pub record_bytes : ℕ → ℕ → Bytes → Bytes → Bytes → Bytes
record_bytes kind id content padding rest =
    1
    ∷ kind
    ∷ id / 256 % 256
    ∷ id % 256
    ∷ length content / 256 % 256
    ∷ length content % 256
    ∷ length padding
    ∷ 0
    ∷ (content ++ (padding ++ rest))

-- A request: whether the connection is kept, the records of parameters, each of whole pairs, and those of
-- the body. Each record has its padding.
pub record Sent : Type 0 where
  pub keep : Bool
  pub begin_padding : Bytes
  pub parts : List (List Pair × Bytes)
  pub params_padding : Bytes
  pub chunks : List (Bytes × Bytes)
  pub body_padding : Bytes

unfoldable pub parts_bytes : ℕ → List (List Pair × Bytes) → Bytes → Bytes
unfolding pairs_bytes
parts_bytes id [] rest = rest
parts_bytes id ((ps, padding) ∷ parts) rest =
    record_bytes params id (pairs_bytes ps) padding (parts_bytes id parts rest)

unfoldable pub chunks_bytes : ℕ → List (Bytes × Bytes) → Bytes → Bytes
chunks_bytes id [] rest = rest
chunks_bytes id ((c, padding) ∷ chunks) rest =
    record_bytes stdin id c padding (chunks_bytes id chunks rest)

-- The responder's role, and the flag that keeps the connection.
abbrev pub begin_content : Bool → Bytes
begin_content keep = 0 ∷ 1 ∷ (if keep then 1 else 0) ∷ 0 ∷ 0 ∷ 0 ∷ 0 ∷ 0 ∷ []

unfoldable pub sent_bytes : ℕ → Sent → Bytes
unfolding parts_bytes chunks_bytes
sent_bytes id q = record_bytes begin_request id (begin_content q.keep) q.begin_padding (
    parts_bytes id q.parts (
      record_bytes params id [] q.params_padding
        (chunks_bytes id q.chunks (record_bytes stdin id [] q.body_padding []))))

-- What the pairs mean for the environment, and how many bytes they have.
unfoldable pub put_pairs : List Pair → Value → Value
unfolding assign
put_pairs [] env = env
put_pairs ((name, value) ∷ ps) env = put_pairs ps (assign env name (string value))

unfoldable pub pairs_size : List Pair → ℕ
pairs_size [] = 0
pairs_size ((name, value) ∷ ps) = length name + length value + pairs_size ps

unfoldable pub put_parts : List (List Pair × Bytes) → Value → Value
unfolding put_pairs
put_parts [] env = env
put_parts ((ps, padding) ∷ parts) env = put_parts parts (put_pairs ps env)

unfoldable pub parts_size : List (List Pair × Bytes) → ℕ
unfolding pairs_size
parts_size [] = 0
parts_size ((ps, padding) ∷ parts) = pairs_size ps + parts_size parts

unfoldable pub body_of : List (Bytes × Bytes) → Bytes
body_of [] = []
body_of ((c, padding) ∷ chunks) = c ++ body_of chunks

-- The request that the handler is called with, from the new one.
unfoldable pub meant : Sent → Request → Request
unfolding put_parts parts_size body_of
meant q r = record r {
  flags = record (r.flags) {
    initialized = true;
    keep_connection = if q.keep then true else r.flags.keep_connection;
    params_complete = true;
    input_complete = true;
  };
  env = put_parts q.parts r.env;
  params_bytes = r.params_bytes + parts_size q.parts;
  body = r.body ++ body_of q.chunks;
  body_bytes = r.body_bytes + length (body_of q.chunks);
}

abbrev pub IsPair : Pair → Type 0
IsPair (name, value) = (length name < 2 ^ 31) × (length value < 2 ^ 31)

abbrev pub IsPart : List Pair × Bytes → Type 0
IsPart (ps, padding) =
    All IsPair ps
    × (0 < length (pairs_bytes ps))
    × (length (pairs_bytes ps) < 2 ^ 16)
    × (length padding < 256)

abbrev pub IsChunk : Bytes × Bytes → Type 0
IsChunk (c, padding) = (0 < length c) × (length c < 2 ^ 16) × (length padding < 256)

-- The lengths fit their fields, no record but the last of each stream is empty, and the configured limits
-- are kept.
pub record IsSendable (limits : Limits) (id : ℕ) (q : Sent) : Type 0 where
  pub small_id : id < 2 ^ 16
  pub begin_padded : length q.begin_padding < 256
  pub parts_small : All IsPart q.parts
  pub params_padded : length q.params_padding < 256
  pub chunks_small : All IsChunk q.chunks
  pub body_padded : length q.body_padding < 256
  pub params_fit : parts_size q.parts ≤ limits.max_params_bytes
  pub body_fits : length (body_of q.chunks) ≤ limits.max_stdin_bytes
