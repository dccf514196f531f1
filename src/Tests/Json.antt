-- ===== src/Tests/Json.antt =====
-- Concrete runs of src/dynamic_variable.cpp.
use wasapi.Base.{
  ℕ, ◌≡◌, refl, true, false, Option, none, some, [], Bytes, codes, bytes_eq, if◌then◌else◌,
}
use wasapi.Dynamic.{Value, nil, string, object, array, number, bool, stop, item, end, field}
use wasapi.Json.Strings.{json_escape}
use wasapi.Json.Values.{is_digit, parsed, error_at, parse_json}
use wasapi.Json.Values.Exponent.{IsDigit, parse_json-exponent}
use wasapi.Json.Dump.{over, print_any_limited}
use wasapi.Json.Print.{spaces, to_json, bracketed, json_line}

-- A stand-in for `std::stod` on one text.
abbrev one : Bytes → Option ℕ
one s = if bytes_eq s (codes "1") then some 7 else none

abbrev sample : Value
sample = object (
    field (codes "a") (array (item (number 7) (item (bool true) (item nil stop))))
      (field (codes "b\n") (string (codes "x\"")) end))

print_run :
    to_json (λ n. codes "1") false 0 sample ≡ codes "{\"a\":[1,true,null],\"b\\n\":\"x\\\"\"}"
unfolding to_json bracketed json_line json_escape
print_run = refl

pretty_run : to_json (λ n. codes "1") true 2 (array (item nil stop)) ≡ codes "[\n  null\n]"
unfolding to_json bracketed json_line json_escape
pretty_run = refl

parse_run : parse_json one (codes " {\"a\": [1, true,null] ,\"b\\n\":\"x\\\"\"} ") ≡ parsed sample
unfolding parse_json bytes_eq
parse_run = refl

error_run : parse_json one (codes "[1,]") ≡ error_at 3
unfolding parse_json bytes_eq
error_run = refl

one_digit : one (codes "1") ≡ some 7
unfolding bytes_eq
one_digit = refl

is_one : IsDigit b'1'
unfolding is_digit
is_one = refl

parse_json-exponent_example : parse_json one (codes "1e+06") ≡ error_at 1
parse_json-exponent_example = parse_json-exponent one b'1' [] (codes "+06") 7 (is_one, tt) one_digit

abbrev two_items : Value
two_items = array (item nil (item (bool true) stop))

print_any_limited_run :
    print_any_limited (λ n. []) 1 2 0 two_items ≡ codes "[\n  null\n  ... (truncated)\n]\n"
unfolding print_any_limited over spaces
print_any_limited_run = refl
