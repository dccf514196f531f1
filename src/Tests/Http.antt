-- ===== src/Tests/Http.antt =====
-- Concrete runs of src/http.cpp.
use wasapi.Base.{◌≡◌, refl, [], ◌∷◌, codes, bytes_eq, arith}
use wasapi.Http.Url.{url_decode, url_encode}
use wasapi.Http.Base64.{base64_encode}
use wasapi.Http.Base64.RoundTrip.{base64_decode, base64_decode-base64_encode}
use wasapi.Dynamic.{string, object, end, field, array, stop}
use wasapi.Http.Query.{Pairs, build_query, parse_query_string}
use wasapi.Http.Query.RoundTrip.{IsQuery, nothing, also, parse_query_string-build_query}
use wasapi.Http.Cookies.{parse_cookies}

encode_run : url_encode (codes "a b&c=%~") ≡ codes "a%20b%26c%3D%25~"
unfolding url_encode
encode_run = refl

decode_run : url_decode (codes "a+b%2fc%zz%4") ≡ codes "a b/c%zz%4"
unfolding url_decode
decode_run = refl

abbrev pairs : Pairs
pairs = (codes "a b", codes "1&2") ∷ (codes "c", []) ∷ []

query_run : build_query pairs ≡ codes "a%20b=1%262&c="
unfolding build_query
query_run = refl

parse_run :
    parse_query_string (codes "x=1&flag&&=9&x=2+3") []
    ≡ (codes "x", codes "2 3") ∷ (codes "flag", []) ∷ []
unfolding parse_query_string url_decode bytes_eq
parse_run = refl

cookie_run :
    parse_cookies (codes " a=1;b = \"x y\" ;; c") (array stop)
    ≡ object (
        field
          (codes "a")
          (string (codes "1"))
          (field (codes "b") (string (codes "x y")) (field (codes "c") (string []) end)))
unfolding parse_cookies bytes_eq
cookie_run = refl

pairs-IsQuery : IsQuery pairs
pairs-IsQuery =
    also (λ e. ground (arith, e)) (omega arith) (omega arith) ((λ e. ground (arith, e)), tt)
      (also (λ e. ground (arith, e)) (omega arith) (omega arith) tt nothing)

parse_query_string-build_query_example : parse_query_string (build_query pairs) [] ≡ pairs
parse_query_string-build_query_example = parse_query_string-build_query pairs pairs-IsQuery

base64_run : base64_encode (codes "ab") ≡ codes "YWI="
unfolding base64_encode
base64_run = refl

base64_decode-base64_encode_example : base64_decode (base64_encode (codes "ab")) ≡ codes "ab"
base64_decode-base64_encode_example = base64_decode-base64_encode (codes "ab") (ground arith)
