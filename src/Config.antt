-- ===== src/Config.antt =====
-- src/config.cpp: `load_kv_file`, and `parse_endpoint_file` of src/http.cpp, which calls it.
pub mod Args
use wasapi.Base.{
  ℕ, suc, Bool, true, false, ◌||◌, Option, none, some, List, [], ◌∷◌, Bytes, codes, take, drop,
  ◌==◌, find_byte, if◌then◌else◌,
}
use wasapi.Dynamic.{Value, string, object, array, stop, item, end, find, assign, push}
use wasapi.Http.Query.{as_object}
use wasapi.Http.Text.{trim_inplace}

-- `std::getline`: the lines, without an empty last one.
abbrev pub add_byte : ℕ → List Bytes → List Bytes
add_byte c [] = (c ∷ []) ∷ []
add_byte c (l ∷ ls) = (c ∷ l) ∷ ls

unfoldable pub lines : Bytes → List Bytes
lines [] = []
lines (c ∷ s) = let rest = lines s in if c == 10 then [] ∷ rest else add_byte c rest

-- A key that is there already: its values become an array.
unfoldable pub put_again : Bytes → Bytes → Value → Value → Value
unfolding assign push
put_again key value (string prev) out =
    assign out key (array (item (string prev) (item (string value) stop)))
put_again key value (array xs) out = assign out key (push (array xs) (string value))
put_again key value _ out = assign out key (string value)

unfoldable pub put_value : Bytes → Bytes → Value → Value
unfolding find assign put_again
put_value key value out = elim (find out key) [
  | none ↦ assign out key (string value)
  | some existing ↦ put_again key value existing out
]

-- The key and the value of a line that is trimmed and not empty: without '=' it belongs to the last key.
unfoldable pub key_value : Bytes → Bytes → Bytes × Bytes
unfolding find_byte trim_inplace
key_value last_key line = elim (find_byte b'=' line) [
  | none ↦ (trim_inplace last_key, trim_inplace line)
  | some eq ↦ (trim_inplace (take eq line), trim_inplace (drop (suc eq) line))
]

-- The loop on the lines, with `last_key`; comments begin with '#' or ';'.
unfoldable pub kv_line : Bytes → Bytes → Value → Bytes × Value
unfolding key_value put_value
kv_line last_key [] out = (last_key, out)
kv_line last_key (c ∷ line) out =
    let (key, value) = key_value last_key (c ∷ line) in
    let out' = put_value key value out in
    if c == b'#' || c == b';' then (last_key, out) else (key, out')

unfoldable pub kv_loop : List Bytes → Bytes → Value → Value
unfolding kv_line trim_inplace
kv_loop [] last_key out = out
kv_loop (l ∷ ls) last_key out =
    let (last_key', out') = kv_line last_key (trim_inplace l) out in kv_loop ls last_key' out'

-- `content` is what `read_entire_file_cached` gives for the path.
unfoldable pub load_kv : Bytes → Value → Bool × Value
unfolding lines kv_loop as_object
load_kv [] out = (false, as_object out)
load_kv (c ∷ content) out =
    (true, kv_loop (lines (c ∷ content)) (codes "undefined") (as_object out))

-- The new context of a request.
unfoldable pub parse_endpoint_file : (Bytes → Bytes) → Option Value → Value
unfolding load_kv
parse_endpoint_file read_file (some (string path)) = (load_kv (read_file path) (object end)).1
parse_endpoint_file read_file _ = object end
