-- ===== src/Http/Cookies.antt =====
-- src/http.cpp: `parse_cookie_header`.
use wasapi.Base.{ℕ, zero, suc, Option, none, some, [], ◌∷◌, Bytes, length, take, drop, find_byte}
use wasapi.Dynamic.{Value, string, assign, to_string}
use wasapi.Http.Query.{as_object}
use wasapi.Http.Text.{trim_ascii_ws, quoted}

unfoldable pub put_cookie : Bytes → Bytes → Value → Value
unfolding assign
put_cookie [] value cookies = cookies
put_cookie (c ∷ key) value cookies = assign cookies (c ∷ key) (string value)

unfoldable pub unquoted : Bytes → Bytes
unfolding quoted
unquoted s = elim (quoted s) [ none ↦ s | some t ↦ t ]

-- A segment between semicolons, trimmed: a key without '=' gets the empty value.
unfoldable pub put_segment : Bytes → Value → Value
unfolding find_byte put_cookie unquoted trim_ascii_ws
put_segment [] cookies = cookies
put_segment (c ∷ segment) cookies = elim (find_byte b'=' (c ∷ segment)) [
  | none ↦ put_cookie (c ∷ segment) [] cookies
  | some eq ↦
      put_cookie (trim_ascii_ws (take eq (c ∷ segment)))
        (unquoted (trim_ascii_ws (drop (suc eq) (c ∷ segment)))) cookies
]

-- The loop; the list is the header from `pos` on. Each round but the last passes a semicolon.
unfoldable pub cookie_loop : ℕ → Bytes → Value → Value
unfolding find_byte put_segment trim_ascii_ws
cookie_loop zero s cookies = cookies
cookie_loop (suc fuel) [] cookies = cookies
cookie_loop (suc fuel) (c ∷ s) cookies = elim (find_byte b';' (c ∷ s)) [
  | none ↦ put_segment (trim_ascii_ws (c ∷ s)) cookies
  | some semi ↦
      cookie_loop fuel (drop (suc semi) (c ∷ s))
        (put_segment (trim_ascii_ws (take semi (c ∷ s))) cookies)
]

unfoldable pub parse_cookies : Bytes → Value → Value
unfolding cookie_loop as_object
parse_cookies text cookies = cookie_loop (length text) text (as_object cookies)

unfoldable pub parse_cookie_header : (ℕ → Bytes) → Value → Option Value → Value
unfolding parse_cookies to_string
parse_cookie_header print_double cookies none = parse_cookies [] cookies
parse_cookie_header print_double cookies (some v) = parse_cookies (to_string print_double v) cookies
