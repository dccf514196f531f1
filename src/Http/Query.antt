-- ===== src/Http/Query.antt =====
-- src/http.cpp: `build_query` and `parse_query_string`.
-- An `unordered_map` from strings to strings is an association list.
pub mod RoundTrip
use wasapi.Base.{
  ℕ, zero, suc, ◌+◌, ◌-◌, Bool, true, false, Option, none, some, List, [], ◌∷◌, ◌++◌, Bytes, length,
  take, drop, ltb, bytes_eq, find_byte, if◌then◌else◌,
}
use wasapi.Dynamic.{Value, string, object, end, assign, to_string}
use wasapi.Http.Url.{url_encode, url_decode}

abbrev pub Pairs : Type 0
Pairs = List (Bytes × Bytes)

-- `out[key] = value`.
unfoldable pub put_pair : Bytes → Bytes → Pairs → Pairs
put_pair k v [] = (k, v) ∷ []
put_pair k v ((j, w) ∷ ps) = if bytes_eq j k then (j, v) ∷ ps else (j, w) ∷ put_pair k v ps

unfoldable pub query_pair : Bytes → Bytes → Bytes
unfolding url_encode
query_pair k v = url_encode k ++ b'=' ∷ url_encode v

-- The rounds of `build_query` behind the first one.
unfoldable pub more_pairs : Pairs → Bytes
unfolding query_pair
more_pairs [] = []
more_pairs ((k, v) ∷ ps) = b'&' ∷ (query_pair k v ++ more_pairs ps)

unfoldable pub build_query : Pairs → Bytes
unfolding more_pairs query_pair
build_query [] = []
build_query ((k, v) ∷ ps) = query_pair k v ++ more_pairs ps

unfoldable pub put_named : Bytes → Bytes → Pairs → Pairs
unfolding put_pair
put_named [] v out = out
put_named (c ∷ k) v out = put_pair (c ∷ k) v out

-- A part without '=': its key gets the empty value.
unfoldable pub put_flag : Bytes → ℕ → Pairs → Pairs
unfolding put_named
put_flag s amp out = if ltb 0 amp then put_named (url_decode (take amp s)) [] out else out

-- One round of `parse_query_string`; `s` is the input from `start` on, `amp` is counted from there.
unfoldable pub put_part : Bytes → ℕ → Pairs → Pairs
unfolding put_flag put_named find_byte
put_part s amp out = elim (find_byte b'=' s) [
  | none ↦ put_flag s amp out
  | some eq ↦
      if ltb amp eq
      then put_flag s amp out
      else put_named (url_decode (take eq s)) (url_decode (take (amp - (eq + 1)) (drop (eq + 1) s)))
          out
]

-- On fuel: each round but the last one passes an '&'.
unfoldable pub query_loop : ℕ → Bytes → Pairs → Pairs
unfolding put_part find_byte
query_loop zero s out = out
query_loop (suc fuel) s out = elim (find_byte b'&' s) [
  | none ↦ put_part s (length s) out
  | some amp ↦ query_loop fuel (drop (suc amp) s) (put_part s amp out)
]

unfoldable pub parse_query_string : Bytes → Pairs → Pairs
unfolding query_loop
parse_query_string input out = query_loop (suc (length input)) input out

-- `r.params[kv.first] = make_string(kv.second)` for all pairs.
unfoldable pub assign_all : Value → Pairs → Value
unfolding assign
assign_all r [] = r
assign_all r ((k, v) ∷ ps) = assign_all (assign r k (string v)) ps

-- `if (x.type != OBJECT) x = make_object()`.
unfoldable pub as_object : Value → Value
as_object (object fs) = object fs
as_object _ = object end

-- The second `parse_query_string`, on a request's parameters and the variable that was found.
unfoldable pub parse_query_variable : (ℕ → Bytes) → Value → Option Value → Value
unfolding parse_query_string assign_all as_object to_string
parse_query_variable print_double params none =
    assign_all (as_object params) (parse_query_string [] [])
parse_query_variable print_double params (some v) =
    assign_all (as_object params) (parse_query_string (to_string print_double v) [])
