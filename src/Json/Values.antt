-- ===== src/Json/Values.antt =====
-- src/dynamic_variable.cpp: `parse_number`, `parse_value`, `parse_array`, `parse_object`, `parse_json`.
-- `stod` is `std::stod`, from a text to the double's bits; nothing is an exception.
pub mod Exponent
use wasapi.Base.{
  ℕ, zero, suc, ◌+◌, ◌-◌, Bool, true, false, ◌&&◌, ◌||◌, not, Option, none, some, List, [], ◌∷◌,
  ◌++◌, Bytes, codes, length, take, drop, ltb, leb, ◌==◌, bytes_eq, if◌then◌else◌,
}
use wasapi.Dynamic.{
  Value, Items, Fields, nil, string, object, array, number, bool, stop, end, push_back,
  lookup_field, set_field,
}
use wasapi.Json.Strings.{Read, done, stuck, Matched, hit, miss, skip_ws, match_byte, parse_string}

unfoldable pub is_digit : ℕ → Bool
is_digit c = leb b'0' c && leb c b'9'

-- The loop of `parse_number`: the digits it passes, with one dot if `dot` is not set yet.
unfoldable pub number_span : Bool → Bytes → Bytes × Bytes
unfolding is_digit
number_span dot [] = ([], [])
number_span dot (c ∷ s) = elim (is_digit c) [
  | true ↦ let (run, rest) = number_span dot s in (c ∷ run, rest)
  | false ↦ elim (c == b'.' && not dot) [
    | true ↦ let (run, rest) = number_span true s in (c ∷ run, rest)
    | false ↦ ([], c ∷ s)
  ]
]

-- An optional sign, then the digits.
unfoldable pub signed_span : Bytes → Bytes × Bytes
unfolding number_span
signed_span [] = ([], [])
signed_span (c ∷ s) =
    let (run, rest) = number_span false s in
    if c == b'-' || c == b'+' then (c ∷ run, rest) else number_span false (c ∷ s)

-- `out.data.o.emplace`: the first value of a key stays.
unfoldable pub emplace : Bytes → Value → Fields → Fields
unfolding lookup_field set_field
emplace k v fs = elim (lookup_field k fs) [ some w ↦ fs | none ↦ set_field k v fs ]

-- The value, or the position of the error.
pub data Parsed : Type 0 where
  parsed : Value → Parsed
  error_at : ℕ → Parsed

module _ (stod : Bytes → Option ℕ) where
  unfoldable pub parse_number : Bytes → Read Value
  unfolding skip_ws signed_span
  parse_number s =
      let (run, rest) = signed_span (skip_ws s) in
      elim run [
        | [] ↦ stuck rest
        | c ∷ cs ↦ elim (stod (c ∷ cs)) [ none ↦ stuck rest | some n ↦ done (number n) rest ]
      ]

  -- The loop of `parse_array` behind its opening bracket; `value` reads an element.
  unfoldable pub array_loop : (Bytes → Read Value) → ℕ → Items → Bytes → Read Value
  unfolding match_byte push_back
  array_loop value zero xs s = stuck s
  array_loop value (suc fuel) xs s = elim (value s) [
    | stuck r ↦ stuck r
    | done v r ↦ elim (match_byte b']' r) [
      | hit r1 ↦ done (array (push_back xs v)) r1
      | miss r1 ↦ elim (match_byte b',' r1) [
        | miss r2 ↦ stuck r2
        | hit r2 ↦ array_loop value fuel (push_back xs v) r2
      ]
    ]
  ]

  unfoldable pub parse_array : (Bytes → Read Value) → Bytes → Read Value
  unfolding match_byte array_loop
  parse_array value s = elim (match_byte b'[' s) [
    | miss r ↦ stuck r
    | hit r ↦ elim (match_byte b']' r) [
      | hit r1 ↦ done (array stop) r1
      | miss r1 ↦ array_loop value (suc (length r1)) stop r1
    ]
  ]

  -- The loop of `parse_object` behind its opening brace.
  unfoldable pub object_loop : (Bytes → Read Value) → ℕ → Fields → Bytes → Read Value
  unfolding match_byte parse_string emplace
  object_loop value zero fs s = stuck s
  object_loop value (suc fuel) fs s = elim (parse_string s) [
    | stuck r ↦ stuck r
    | done key r ↦ elim (match_byte b':' r) [
      | miss r1 ↦ stuck r1
      | hit r1 ↦ elim (value r1) [
        | stuck r2 ↦ stuck r2
        | done v r2 ↦ elim (match_byte b'}' r2) [
          | hit r3 ↦ done (object (emplace key v fs)) r3
          | miss r3 ↦ elim (match_byte b',' r3) [
            | miss r4 ↦ stuck r4
            | hit r4 ↦ object_loop value fuel (emplace key v fs) r4
          ]
        ]
      ]
    ]
  ]

  unfoldable pub parse_object : (Bytes → Read Value) → Bytes → Read Value
  unfolding match_byte object_loop
  parse_object value s = elim (match_byte b'{' s) [
    | miss r ↦ stuck r
    | hit r ↦ elim (match_byte b'}' r) [
      | hit r1 ↦ done (object end) r1
      | miss r1 ↦ object_loop value (suc (length r1)) end r1
    ]
  ]

  unfoldable pub parse_text : Bytes → Read Value
  unfolding parse_string
  parse_text s = elim (parse_string s) [ stuck r ↦ stuck r | done t r ↦ done (string t) r ]

  -- The end of `parse_value`: a literal, or else a number.
  unfoldable pub parse_word : Bytes → Read Value
  unfolding bytes_eq parse_number
  parse_word s =
      if bytes_eq (take 4 s) (codes "true")
      then done (bool true) (drop 4 s)
      else if bytes_eq (take 5 s) (codes "false")
      then done (bool false) (drop 5 s)
      else if bytes_eq (take 4 s) (codes "null")
      then done nil (drop 4 s)
      else parse_number s

  -- `parse_value` behind the white space; `value` reads the values inside.
  unfoldable pub parse_inside : (Bytes → Read Value) → Bytes → Read Value
  unfolding parse_text parse_object parse_array parse_word
  parse_inside value [] = stuck []
  parse_inside value (ch ∷ s) =
      if ch == b'"'
      then parse_text (ch ∷ s)
      else if ch == b'{'
      then parse_object value (ch ∷ s)
      else if ch == b'['
      then parse_array value (ch ∷ s)
      else parse_word (ch ∷ s)

  -- On fuel: a value inside another starts at least one byte behind it.
  unfoldable pub parse_value : ℕ → Bytes → Read Value
  unfolding skip_ws parse_inside
  parse_value zero s = stuck (skip_ws s)
  parse_value (suc fuel) s = parse_inside (λ t. parse_value fuel t) (skip_ws s)

  unfoldable pub parse_json : Bytes → Parsed
  unfolding parse_value skip_ws
  parse_json text = elim (parse_value (suc (length text)) text) [
    | stuck r ↦ error_at (length text - length r)
    | done v r ↦ elim (skip_ws r) [
      | [] ↦ parsed v
      | c ∷ t ↦ error_at (length text - suc (length t))
    ]
  ]
