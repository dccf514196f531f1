-- ===== src/Tests/Stored.antt =====
-- Values and sessions that are written and read again.
use wasapi.Base.{
  ℕ, ◌+◌, ◌-◌, ◌≡◌, ◌∙◌, refl, sym, ap, true, false, Option, none, some, [], ◌∷◌, Bytes, codes,
  bytes_eq, bytes_eq_self, if◌then◌else◌,
}
use wasapi.Dynamic.{Value, string, object, array, number, bool, stop, item, end, field}
use wasapi.Request.{Request, new_request}
use wasapi.Json.Values.{parsed, parse_json, is_digit, signed_span}
use wasapi.Json.Print.{to_json, bracketed, json_line}
use wasapi.Json.Strings.{json_escape}
use wasapi.Json.RoundTrip.{parse_json-to_json}
use wasapi.Json.RoundTrip.Plain.{IsNumeral, IsPlain, fill_fields}
use wasapi.Session.{Services, session_save, session_load}
use wasapi.Session.Store.{KeepsFiles, session_load-session_save}

-- Numbers of one digit, each the bits of its double.
abbrev print_digit : ℕ → Bytes
print_digit n = (n + 48) ∷ []

abbrev read_digit : Bytes → Option ℕ
read_digit [] = none
read_digit (c ∷ s) = some (c - 48)

-- {"a":5,"b":[true,"x"]}
abbrev value : Value
value = object (
    field (codes "a") (number 5)
      (field (codes "b") (array (item (bool true) (item (string (codes "x")) stop))) end))

five : IsNumeral read_digit print_digit 5
unfolding signed_span is_digit
five = record { head = 53; tail = []; printed = refl; starts = refl; passed = refl; read = refl }

value-IsPlain : IsPlain read_digit print_digit value
unfolding IsPlain fill_fields bytes_eq
value-IsPlain = ((five, ((tt, (tt, tt)), tt)), refl)

to_json_run : to_json print_digit false 0 value ≡ codes "{\"a\":5,\"b\":[true,\"x\"]}"
unfolding to_json bracketed json_line json_escape
to_json_run = refl

parse_json-to_json_example :
    parse_json read_digit (to_json print_digit false 0 value) ≡ parsed value
parse_json-to_json_example = parse_json-to_json read_digit print_digit 0 value value-IsPlain

-- A store of one file.
abbrev services : Services (Bytes × Bytes)
services = record {
  random = λ w. (7, w);
  read_file = λ path w. (if bytes_eq path w.0 then w.1 else [], w);
  write_file = λ path content w. (true, (path, content));
  make_directory = λ path w. w;
  unlink = λ path w. w;
  stod = read_digit;
  print_number = print_digit;
  session_storage_path = codes "/tmp";
  session_cookie_name = codes "sid";
}

services-KeepsFiles : KeepsFiles services
services-KeepsFiles path content w w' h =
    ap (λ x. (services.read_file path x.1).0) (sym h) ∙ rw (bytes_eq_self path) refl

abbrev saved : Request
saved = record (new_request 0 0 0) { session_id = codes "ab"; session = value }

abbrev loading : Request
loading = record (new_request 1 0 9) { session_id = codes "ab" }

abbrev stored : Bytes × Bytes
stored = (codes "/tmp/ab.json", codes "{\"a\":5,\"b\":[true,\"x\"]}")

saved_run : session_save services saved ([], []) ≡ (true, stored)
unfolding session_save new_request bracketed json_line json_escape
saved_run = refl

saved-IsPlain : IsPlain read_digit print_digit saved.session
unfolding new_request
saved-IsPlain = value-IsPlain

session_load-session_save_example :
    (session_load services loading stored).0 ≡ (true, record loading { session = saved.session })
unfolding new_request
session_load-session_save_example =
    session_load-session_save services saved loading ([], []) stored b'a' (codes "b")
      services-KeepsFiles saved-IsPlain refl refl saved_run
