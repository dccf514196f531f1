-- ===== src/Json/RoundTrip.antt =====
-- `parse_json` of src/dynamic_variable.cpp reads back what `to_json` wrote.
pub mod Scan
pub mod Compact
pub mod Plain
use wasapi.Base.{
  ℕ, zero, suc, ◌+◌, ◌≤◌, ◌≡◌, ◌∙◌, refl, sym, ap, subst, true, false, Bool, Option, some, [], ◌∷◌,
  ◌++◌, Bytes, codes, length, append-nil, bytes_eq, ◌==◌, arith,
}
use wasapi.Dynamic.{
  Value, Items, Fields, nil, string, object, array, number, bool, stop, item, end, field, push_back,
}
use wasapi.Json.Strings.{
  json_escape, is_space, Matched, Read, done, stuck, hit, miss, match_byte, skip_ws, take_byte,
  parse_string,
}
use wasapi.Json.Strings.RoundTrip.{parse_string-json_escape}
use wasapi.Json.Values.{
  is_digit, emplace, array_loop, parse_array, object_loop, parse_object, parse_text, parse_word,
  parse_inside, parse_value, parsed, parse_json,
}
use wasapi.Json.Print.{comma_items, comma_fields, to_json}
use wasapi.Json.RoundTrip.Scan.{Ends, parse_inside-number}
use wasapi.Json.RoundTrip.Compact.{
  show, show_items, show_fields, to_json_inner-show, size, size_items, size_fields, size_pos,
}
use wasapi.Json.RoundTrip.Plain.{
  IsNumeral, IsPlain, ArePlain, FieldsPlain, fill_items, fill_fields, fill_items-stop, Begins,
  show-Begins, length-show, length-show_items, length-show_fields,
}

match_byte-Begins : (s : Bytes) → Begins s → match_byte b']' s ≡ miss s
unfolding match_byte skip_ws take_byte
match_byte-Begins s h =
    ap (λ t. match_byte b']' t) h.whole
    ∙ (rw (h.black, skip_ws) (rw (h.open_ended, take_byte) refl) ∙ ap miss (sym h.whole))

module _ (stod : Bytes → Option ℕ) (print_number : ℕ → Bytes) where
  -- A reader of values that are smaller than its fuel.
  Reads : (Bytes → Read Value) → ℕ → Type 0
  Reads value fuel =
      (v : Value) (rest : Bytes)
      → IsPlain stod print_number v
      → size v ≤ fuel
      → Ends rest
      → value (show print_number v rest) ≡ done v rest

  array_loop-show :
      (value : Bytes → Read Value) (fuel rounds : ℕ) (acc : Items) (v : Value) (xs : Items)
      (rest : Bytes)
      → Reads value fuel
      → ArePlain stod print_number (item v xs)
      → size v + size_items xs ≤ fuel
      → size v + size_items xs ≤ rounds
      → array_loop stod value rounds acc (show_items print_number (item v xs) (b']' ∷ rest))
        ≡ done (array (fill_items acc (item v xs))) rest
  unfolding array_loop match_byte skip_ws take_byte is_space Ends is_digit Reads IsPlain size
      fill_items show
  array_loop-show value fuel zero acc v xs rest reads plain small enough =
      ground (arith, size_pos v)
  array_loop-show value fuel (suc rounds) acc v stop rest reads plain small enough =
      rw (reads v (b']' ∷ rest) plain.0 (omega (arith, small)) (refl, refl), array_loop) refl
  array_loop-show value fuel (suc rounds) acc v (item w xs) rest reads plain small enough =
      rw
        (
          reads v (b',' ∷ show_items print_number (item w xs) (b']' ∷ rest)) plain.0
              (omega (arith, small)) (refl, refl),
          array_loop,
        )
        (array_loop-show value fuel rounds (push_back acc v) w xs rest reads plain.1
          (omega (arith, small)) (omega (arith, enough, size_pos v)))

  object_loop-show :
      (value : Bytes → Read Value) (fuel rounds : ℕ) (acc : Fields) (k : Bytes) (v : Value)
      (fs : Fields) (rest : Bytes)
      → Reads value fuel
      → FieldsPlain stod print_number (field k v fs)
      → size v + size_fields fs ≤ fuel
      → size v + size_fields fs ≤ rounds
      → object_loop stod value rounds acc (show_fields print_number (field k v fs) (b'}' ∷ rest))
        ≡ done (object (fill_fields acc (field k v fs))) rest
  unfolding object_loop match_byte skip_ws take_byte is_space Ends is_digit Reads IsPlain size
      fill_fields show
  object_loop-show value fuel zero acc k v fs rest reads plain small enough =
      ground (arith, size_pos v)
  object_loop-show value fuel (suc rounds) acc k v end rest reads plain small enough =
      rw (parse_string-json_escape k (b':' ∷ show print_number v (b'}' ∷ rest)), object_loop)
        (rw (reads v (b'}' ∷ rest) plain.0 (omega (arith, small)) (refl, refl), object_loop) refl)
  object_loop-show value fuel (suc rounds) acc k v (field j w fs) rest reads plain small enough =
      rw
        (
          parse_string-json_escape k (
              b':'
              ∷ show print_number v (b',' ∷ show_fields print_number (field j w fs) (b'}' ∷ rest))),
          object_loop,
        )
        (rw
          (
            reads v (b',' ∷ show_fields print_number (field j w fs) (b'}' ∷ rest)) plain.0
                (omega (arith, small)) (refl, refl),
            object_loop,
          )
          (object_loop-show value fuel rounds (emplace k v acc) j w fs rest reads plain.1
            (omega (arith, small)) (omega (arith, enough, size_pos v))))

  parse_array-show :
      (value : Bytes → Read Value) (fuel : ℕ) (xs : Items) (rest : Bytes)
      → Reads value fuel
      → ArePlain stod print_number xs
      → size_items xs ≤ fuel
      → parse_array stod value (b'[' ∷ show_items print_number xs (b']' ∷ rest))
        ≡ done (array xs) rest
  unfolding parse_array match_byte skip_ws take_byte is_space IsPlain size show
  parse_array-show value fuel stop rest reads plain small = refl
  parse_array-show value fuel (item v xs) rest reads plain small =
      rw
        (
          match_byte-Begins _ (
              show-Begins stod print_number v
                (comma_items xs ++ show_items print_number xs (b']' ∷ rest)) plain.0),
          parse_array,
        )
        (array_loop-show value fuel
            (suc (length (show_items print_number (item v xs) (b']' ∷ rest)))) stop v xs rest reads
            plain small
            (omega (arith, length-show_items stod print_number (item v xs) (b']' ∷ rest) plain))
          ∙ ap (λ ys. done (array ys) rest) (fill_items-stop (item v xs)))

  parse_object-show :
      (value : Bytes → Read Value) (fuel : ℕ) (fs : Fields) (rest : Bytes)
      → Reads value fuel
      → FieldsPlain stod print_number fs
      → fill_fields end fs ≡ fs
      → size_fields fs ≤ fuel
      → parse_object stod value (b'{' ∷ show_fields print_number fs (b'}' ∷ rest))
        ≡ done (object fs) rest
  unfolding parse_object match_byte skip_ws take_byte is_space IsPlain size show json_escape
  parse_object-show value fuel end rest reads plain built small = refl
  parse_object-show value fuel (field k v fs) rest reads plain built small =
      object_loop-show value fuel
        (suc (length (show_fields print_number (field k v fs) (b'}' ∷ rest)))) end k v fs rest reads
        plain small
        (omega (arith, length-show_fields stod print_number (field k v fs) (b'}' ∷ rest) plain))
      ∙ ap (λ gs. done (object gs) rest) built

  parse_text-show :
      (s rest : Bytes) → parse_text stod (json_escape s ++ rest) ≡ done (string s) rest
  unfolding parse_text
  parse_text-show s rest = rw (parse_string-json_escape s rest, parse_text) refl

  inside-show :
      (fuel : ℕ)
      → Reads (λ t. parse_value stod fuel t) fuel
      → Reads (λ t. parse_value stod (suc fuel) t) (suc fuel)
  unfolding Reads parse_value parse_inside parse_word skip_ws is_space bytes_eq IsPlain size show
      json_escape
  inside-show fuel reads nil rest plain small ends = refl
  inside-show fuel reads (bool true) rest plain small ends = refl
  inside-show fuel reads (bool false) rest plain small ends = refl
  inside-show fuel reads (number n) rest plain small ends =
      ap (λ s. parse_inside stod (λ t. parse_value stod fuel t) (skip_ws (s ++ rest))) plain.printed
      ∙ parse_inside-number stod (λ t. parse_value stod fuel t) plain.head plain.tail rest n
          plain.starts plain.passed plain.read ends
  inside-show fuel reads (string s) rest plain small ends = parse_text-show s rest
  inside-show fuel reads (array xs) rest plain small ends =
      parse_array-show (λ t. parse_value stod fuel t) fuel xs rest reads plain
        (omega (arith, small))
  inside-show fuel reads (object fs) rest plain small ends =
      parse_object-show (λ t. parse_value stod fuel t) fuel fs rest reads plain.0 plain.1
        (omega (arith, small))

  parse_value-show : (fuel : ℕ) → Reads (λ t. parse_value stod fuel t) fuel
  unfolding Reads
  parse_value-show zero v rest plain small ends = ground (arith, size_pos v)
  parse_value-show (suc fuel) v rest plain small ends =
      inside-show fuel (parse_value-show fuel) v rest plain small ends

  -- What `to_json` writes of a value without line breaks, `parse_json` reads as the same value, if each
  -- number in it prints as a numeral without an exponent that `stod` reads back, and no object has a key
  -- twice.
  pub parse_json-to_json :
      (indent : ℕ) (v : Value)
      → IsPlain stod print_number v
      → parse_json stod (to_json print_number false indent v) ≡ parsed v
  unfolding parse_json to_json Reads skip_ws Ends
  parse_json-to_json indent v plain =
      ap (λ t. parse_json stod t)
        (sym (append-nil _) ∙ to_json_inner-show print_number indent 0 v [])
      ∙ rw
          (
            parse_value-show (suc (length (show print_number v []))) v [] plain
                (omega (arith, length-show stod print_number v [] plain)) tt,
            parse_json,
          )
          refl
