-- ===== src/Http/Text.antt =====
-- src/http.cpp and src/config.cpp: `trim_spaces`, `trim_ascii_ws`, `trim_inplace`, the lower-casing of
-- header names, and `std::string::find` of a text.
pub mod Find
use wasapi.Base.{
  ℕ, suc, ◌+◌, Bool, ◌&&◌, ◌||◌, Option, none, some, [], ◌∷◌, Bytes, length, take, drop, leb, ◌==◌,
  bytes_eq, if◌then◌else◌,
}
use wasapi.Json.Strings.{is_space}

-- The loop that erases at the front.
unfoldable pub trim_front : (ℕ → Bool) → Bytes → Bytes
trim_front p [] = []
trim_front p (c ∷ s) = let after = trim_front p s in if p c then after else c ∷ s

-- A byte in front of what is left, unless nothing is left and the byte goes as well.
abbrev pub keep : (ℕ → Bool) → ℕ → Bytes → Bytes
keep p c [] = if p c then [] else c ∷ []
keep p c (d ∷ s) = c ∷ d ∷ s

-- The loop that erases at the back.
unfoldable pub trim_back : (ℕ → Bool) → Bytes → Bytes
trim_back p [] = []
trim_back p (c ∷ s) = keep p c (trim_back p s)

unfoldable pub trim : (ℕ → Bool) → Bytes → Bytes
unfolding trim_front trim_back
trim p s = trim_back p (trim_front p s)

unfoldable pub is_blank : ℕ → Bool
is_blank c = c == 32 || c == 9

unfoldable pub trim_spaces : Bytes → Bytes
unfolding trim is_blank
trim_spaces s = trim is_blank s

unfoldable pub trim_ascii_ws : Bytes → Bytes
unfolding trim
trim_ascii_ws s = trim (λ c. leb c 32) s

unfoldable pub trim_inplace : Bytes → Bytes
unfolding trim is_space
trim_inplace s = trim is_space s

-- `std::tolower` on each byte, in the C locale.
unfoldable pub lower : Bytes → Bytes
lower [] = []
lower (c ∷ s) = (if leb b'A' c && leb c b'Z' then c + 32 else c) ∷ lower s

unfoldable pub starts_with : Bytes → Bytes → Bool
unfolding bytes_eq
starts_with t s = bytes_eq (take (length t) s) t

-- `s.find(t)`.
unfoldable pub find_text : Bytes → Bytes → Option ℕ
unfolding starts_with
find_text t [] = if starts_with t [] then some 0 else none
find_text t (c ∷ s) =
    let later = find_text t s in
    if starts_with t (c ∷ s) then some 0 else elim later [ none ↦ none | some i ↦ some (suc i) ]

-- Whether the text is in quotes, and what is inside of them.
unfoldable pub last_or : ℕ → Bytes → ℕ
last_or d [] = d
last_or d (c ∷ s) = last_or c s

unfoldable pub without_last : Bytes → Bytes
without_last [] = []
without_last (c ∷ []) = []
without_last (c ∷ d ∷ s) = c ∷ without_last (d ∷ s)

unfoldable pub quoted : Bytes → Option Bytes
unfolding last_or without_last
quoted [] = none
quoted (c ∷ []) = none
quoted (c ∷ d ∷ s) = if c == b'"' && last_or d s == b'"' then some (without_last (d ∷ s)) else none

-- A text without a prefix that it starts with, or "/" if nothing is left. An empty prefix strips nothing.
abbrev pub or_slash : Bytes → Bytes
or_slash [] = b'/' ∷ []
or_slash (c ∷ s) = c ∷ s

unfoldable pub strip_prefix : Bytes → Bytes → Bytes
unfolding starts_with
strip_prefix [] s = s
strip_prefix (c ∷ prefix) s =
    if starts_with (c ∷ prefix) s then or_slash (drop (length (c ∷ prefix)) s) else s
