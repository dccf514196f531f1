-- ===== src/Json/Strings/RoundTrip.antt =====
-- `parse_string` after `json_escape` in src/dynamic_variable.cpp.
use wasapi.Base.{
  ℕ, zero, suc, ◌+◌, ◌*◌, ◌/◌, ◌%◌, ◌<◌, ◌≤◌, ◌≡◌, ◌≢◌, ◌∙◌, length-append, refl, Bool, true, false,
  ◌&&◌, Option, none, some, [], ◌∷◌, ◌++◌, Bytes, length, ltb, le→ltb, ◌==◌, ==_iff, if_elim,
  append_assoc, append-nil, arith,
}
use wasapi.Base.Bits.{table, read_table}
use wasapi.Json.Strings.{
  Round, fails, adds, done, string_round, string_loop, parse_string, escape_byte, escape_bytes,
  json_escape, escaped, escape, unicode, hex_digits, hex_value, hex_char, utf8, match_byte,
  take_byte, skip_ws, is_space,
}

-- The round on the first byte of what `json_escape` made of one byte.
abbrev round_on : Bytes → Bytes → Round
round_on [] rest = fails rest
round_on (c ∷ s) rest = string_round c (s ++ rest)

is_some : Option ℕ → ℕ → Bool
is_some none c = false
is_some (some d) c = d == c

is_some_sound : (o : Option ℕ) (c : ℕ) → is_some o c ≡ true → o ≡ some c
unfolding is_some
is_some_sound none c h = ground arith
is_some_sound (some d) c h = ground arith

digits_table :
    table 32 (λ c.
      is_some (hex_value (hex_char (c / 16))) (c / 16)
      && is_some (hex_value (hex_char (c % 16))) (c % 16))
    ≡ true
unfolding table is_some hex_value hex_char
digits_table = refl

high : (c : ℕ) → c < 32 → hex_value (hex_char (c / 16)) ≡ some (c / 16)
high c h = is_some_sound _ _ (ground (arith, read_table _ 32 c digits_table h))

low : (c : ℕ) → c < 32 → hex_value (hex_char (c % 16)) ≡ some (c % 16)
low c h = is_some_sound _ _ (ground (arith, read_table _ 32 c digits_table h))

-- A byte with an escape of its own.
spelled :
    (esc k c : ℕ) (rest : Bytes)
    → round_on (92 ∷ esc ∷ []) rest ≡ adds (k ∷ []) rest
    → (c == k) ≡ true
    → round_on (92 ∷ esc ∷ []) rest ≡ adds (c ∷ []) rest
spelled esc k c rest r e = rw ((==_iff c k).0 e) r

utf8_control : (c : ℕ) → c < 32 → utf8 c ≡ c ∷ []
unfolding utf8
utf8_control c h = ground arith

unicode_of :
    (s : Bytes) (v : ℕ) (rest : Bytes)
    → ltb (length s) 4 ≡ false
    → hex_digits 4 0 s ≡ done v rest
    → unicode s ≡ adds (utf8 v) rest
unfolding unicode
unicode_of s v rest e d = rw (e, d, unicode) refl

control :
    (c : ℕ) (rest : Bytes)
    → c < 32
    → unicode (48 ∷ 48 ∷ hex_char (c / 16) ∷ hex_char (c % 16) ∷ rest) ≡ adds (c ∷ []) rest
unfolding hex_digits
control c rest h = unicode_of _ c rest fits digits ∙ rw (utf8_control c h) refl
  where
    fits : ltb (length (48 ∷ 48 ∷ hex_char (c / 16) ∷ hex_char (c % 16) ∷ rest)) 4 ≡ false
    fits = le→ltb _ 4 (omega arith)

    value : (0 * 16 + c / 16) * 16 + c % 16 ≡ c
    value = omega arith

    digits : hex_digits 4 0 (48 ∷ 48 ∷ hex_char (c / 16) ∷ hex_char (c % 16) ∷ rest) ≡ done c rest
    digits = rw (high c h, hex_digits) (rw (low c h, hex_digits) (rw value refl))

plain_round :
    (c : ℕ) (rest : Bytes)
    → (c == b'"') ≡ false
    → (c == 92) ≡ false
    → string_round c rest ≡ adds (c ∷ []) rest
unfolding string_round
plain_round c rest q b = ground arith

round-escape_byte : (c : ℕ) (rest : Bytes) → round_on (escape_byte c) rest ≡ adds (c ∷ []) rest
unfolding string_round escape_byte escaped escape
round-escape_byte c rest = if_elim Good (c == b'"') (spelled b'"' b'"' c rest refl) (λ q.
    if_elim Good (c == 92) (spelled 92 92 c rest refl) (λ b.
      if_elim Good (c == 8) (spelled b'b' 8 c rest refl) (λ e.
        if_elim Good (c == 12) (spelled b'f' 12 c rest refl) (λ e.
          if_elim Good (c == 10) (spelled b'n' 10 c rest refl) (λ e.
            if_elim Good (c == 13) (spelled b'r' 13 c rest refl) (λ e.
              if_elim Good (c == 9) (spelled b't' 9 c rest refl) (λ e.
                if_elim Good (ltb c 0x20) (λ e. control c rest (ground arith))
                  (λ e. plain_round c rest q b))))))))
  where
    Good : Bytes → Type 0
    Good t = round_on t rest ≡ adds (c ∷ []) rest

first_byte : (c : ℕ) → escape_byte c ≢ []
unfolding escape_byte
first_byte c = ground arith

loop-escape_byte :
    (t : Bytes) (fuel : ℕ) (bytes out rest : Bytes)
    → t ≢ []
    → round_on t rest ≡ adds bytes rest
    → string_loop (suc fuel) (t ++ rest) out ≡ string_loop fuel rest (out ++ bytes)
unfolding string_loop
loop-escape_byte [] fuel bytes out rest h r = absurd (h refl)
loop-escape_byte (c ∷ t) fuel bytes out rest h r = rw (r, string_loop) refl

loop-escape_bytes :
    (s : Bytes) (fuel : ℕ) (out rest : Bytes)
    → length s < fuel
    → string_loop fuel (escape_bytes s ++ b'"' ∷ rest) out ≡ done (out ++ s) rest
unfolding string_loop string_round escape_bytes
loop-escape_bytes s zero out rest h = absurd (omega arith)
loop-escape_bytes [] (suc fuel) out rest h = rw append-nil refl
loop-escape_bytes (c ∷ s) (suc fuel) out rest h =
    rw (append_assoc (escape_byte c) (escape_bytes s) (b'"' ∷ rest)) (
      loop-escape_byte (escape_byte c) fuel (c ∷ []) out _ (first_byte c) (round-escape_byte c _)
      ∙ loop-escape_bytes s fuel (out ++ c ∷ []) rest (omega arith)
      ∙ rw (append_assoc out (c ∷ []) s) refl)

longer : (t s : Bytes) (n : ℕ) → t ≢ [] → n ≤ length s → suc n ≤ length (t ++ s)
longer [] s n h le = absurd (h refl)
longer (c ∷ t) s n h le = omega (arith, length-append t s)

-- Each byte is written as at least one byte.
length-escape_bytes : (s rest : Bytes) → length s ≤ length (escape_bytes s ++ rest)
unfolding escape_bytes
length-escape_bytes [] rest = omega arith
length-escape_bytes (c ∷ s) rest =
    rw (append_assoc (escape_byte c) (escape_bytes s) rest)
      (longer (escape_byte c) _ _ (first_byte c) (length-escape_bytes s rest))

-- Reading a string that `json_escape` wrote, whatever bytes it holds, gives the string back and leaves
-- the text behind it.
pub parse_string-json_escape : (s rest : Bytes) → parse_string (json_escape s ++ rest) ≡ done s rest
unfolding parse_string json_escape match_byte take_byte skip_ws is_space
parse_string-json_escape s rest = rw (append_assoc (escape_bytes s) (b'"' ∷ []) rest) (
    loop-escape_bytes s (suc (length (escape_bytes s ++ b'"' ∷ rest))) [] rest
      (omega (arith, length-escape_bytes s (b'"' ∷ rest))))
