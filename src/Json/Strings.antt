-- ===== src/Json/Strings.antt =====
-- src/dynamic_variable.cpp: `skip_ws`, `match`, `parse_string` and `json_escape`.
-- A `JsonCursor` is the text that it has not passed yet; a reader returns its value, if it
-- does not fail, and the text where it stopped.
pub mod RoundTrip
use wasapi.Base.{
  ℕ, zero, suc, ◌+◌, ◌-◌, ◌*◌, ◌/◌, ◌%◌, Bool, ◌&&◌, ◌||◌, Option, none, some, List, [], ◌∷◌, ◌++◌,
  Bytes, length, ltb, leb, ◌==◌, if◌then◌else◌, bit_and, bit_or,
}

-- `std::isspace` in the C locale.
unfoldable pub is_space : ℕ → Bool
is_space c = c == 32 || (leb 9 c && leb c 13)

unfoldable pub skip_ws : Bytes → Bytes
unfolding is_space
skip_ws [] = []
skip_ws (c ∷ s) = let after = skip_ws s in if is_space c then after else c ∷ s

-- The results true and false of a reader, each with the text where it stopped.
pub data Read (A : Type 0) : Type 0 where
  done : A → Bytes → Read A
  stuck : Bytes → Read A

-- A byte that was looked for: found and passed, or not there.
pub data Matched : Type 0 where
  hit miss : Bytes → Matched

unfoldable pub take_byte : ℕ → Bytes → Matched
take_byte ch [] = miss []
take_byte ch (c ∷ s) = if c == ch then hit s else miss (c ∷ s)

unfoldable pub match_byte : ℕ → Bytes → Matched
unfolding skip_ws take_byte
match_byte ch s = take_byte ch (skip_ws s)

-- One digit of `\u`, added to `v << 4`.
unfoldable pub hex_value : ℕ → Option ℕ
hex_value h =
    if leb b'0' h && leb h b'9'
    then some (h - b'0')
    else if leb b'a' h && leb h b'f'
    then some (10 + h - b'a')
    else if leb b'A' h && leb h b'F'
    then some (10 + h - b'A')
    else none

-- The loop on `k` more digits.
unfoldable pub hex_digits : ℕ → ℕ → Bytes → Read ℕ
unfolding hex_value
hex_digits zero v s = done v s
hex_digits (suc k) v [] = stuck []
hex_digits (suc k) v (h ∷ s) = elim (hex_value h) [
  | none ↦ stuck s
  | some d ↦ hex_digits k (v * 16 + d) s
]

-- UTF-8; four digits never pass 0xFFFF.
unfoldable pub utf8 : ℕ → Bytes
utf8 v =
    if leb v 0x7F
    then v ∷ []
    else if leb v 0x7FF
    then bit_or 0xC0 (v / 64) ∷ bit_or 0x80 (bit_and v 0x3F) ∷ []
    else if leb v 0xFFFF
    then bit_or 0xE0 (v / 4096)
      ∷ bit_or 0x80 (bit_and (v / 64) 0x3F)
      ∷ bit_or 0x80 (bit_and v 0x3F)
      ∷ []
    else []

-- What one round of the loop of `parse_string` does.
pub data Round : Type 0 where
  ends : Bytes → Round
  fails : Bytes → Round
  adds : Bytes → Bytes → Round

-- `\u` and its four digits.
unfoldable pub unicode : Bytes → Round
unfolding hex_digits utf8
unicode s =
    if ltb (length s) 4
    then fails s
    else elim (hex_digits 4 0 s) [ stuck r ↦ fails r | done v r ↦ adds (utf8 v) r ]

-- The byte behind a backslash.
unfoldable pub escape : ℕ → Bytes → Round
unfolding unicode
escape esc s =
    if esc == b'"' || esc == 92 || esc == b'/'
    then adds (esc ∷ []) s
    else if esc == b'b'
    then adds (8 ∷ []) s
    else if esc == b'f'
    then adds (12 ∷ []) s
    else if esc == b'n'
    then adds (10 ∷ []) s
    else if esc == b'r'
    then adds (13 ∷ []) s
    else if esc == b't'
    then adds (9 ∷ []) s
    else if esc == b'u'
    then unicode s
    else fails s

unfoldable pub escaped : Bytes → Round
unfolding escape
escaped [] = fails []
escaped (esc ∷ s) = escape esc s

unfoldable pub string_round : ℕ → Bytes → Round
unfolding escaped
string_round ch s = if ch == b'"' then ends s else if ch == 92 then escaped s else adds (ch ∷ []) s

-- The loop of `parse_string`, on fuel; each round takes at least one byte.
unfoldable pub string_loop : ℕ → Bytes → Bytes → Read Bytes
unfolding string_round
string_loop zero s out = stuck s
string_loop (suc fuel) [] out = stuck []
string_loop (suc fuel) (ch ∷ s) out = elim (string_round ch s) [
  | ends r ↦ done out r
  | fails r ↦ stuck r
  | adds bytes r ↦ string_loop fuel r (out ++ bytes)
]

unfoldable pub parse_string : Bytes → Read Bytes
unfolding match_byte string_loop
parse_string s = elim (match_byte b'"' s) [
  | miss r ↦ stuck r
  | hit r ↦ string_loop (suc (length r)) r []
]

-- A digit of `%x`.
unfoldable pub hex_char : ℕ → ℕ
hex_char d = if ltb d 10 then b'0' + d else b'a' + (d - 10)

-- What one round of `json_escape` appends.
unfoldable pub escape_byte : ℕ → Bytes
unfolding hex_char
escape_byte c =
    if c == b'"'
    then 92 ∷ b'"' ∷ []
    else if c == 92
    then 92 ∷ 92 ∷ []
    else if c == 8
    then 92 ∷ b'b' ∷ []
    else if c == 12
    then 92 ∷ b'f' ∷ []
    else if c == 10
    then 92 ∷ b'n' ∷ []
    else if c == 13
    then 92 ∷ b'r' ∷ []
    else if c == 9
    then 92 ∷ b't' ∷ []
    else if ltb c 0x20
    then 92 ∷ b'u' ∷ b'0' ∷ b'0' ∷ hex_char (c / 16) ∷ hex_char (c % 16) ∷ []
    else c ∷ []

unfoldable pub escape_bytes : Bytes → Bytes
unfolding escape_byte
escape_bytes [] = []
escape_bytes (c ∷ s) = escape_byte c ++ escape_bytes s

unfoldable pub json_escape : Bytes → Bytes
unfolding escape_bytes
json_escape s = b'"' ∷ (escape_bytes s ++ b'"' ∷ [])
