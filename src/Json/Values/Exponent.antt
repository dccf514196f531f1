-- ===== src/Json/Values/Exponent.antt =====
-- Numbers with an exponent, which `to_json` can write and `parse_json` of src/dynamic_variable.cpp does
-- not read.
use wasapi.Base.{
  ℕ, suc, ◌-◌, ◌≡◌, ◌∙◌, refl, ap, true, false, ◌||◌, Option, some, [], ◌∷◌, ◌++◌, Bytes, length,
  length-append, ◌==◌, bytes_eq, All, arith,
}
use wasapi.Dynamic.{Value, number}
use wasapi.Json.Strings.{Read, done, skip_ws, is_space}
use wasapi.Json.Values.{
  is_digit, number_span, signed_span, parse_number, parse_word, parse_inside, parse_value, error_at,
  parse_json,
}

abbrev pub IsDigit : ℕ → Type 0
IsDigit c = is_digit c ≡ true

number_span-digits :
    (ds rest : Bytes) → All IsDigit ds → number_span false (ds ++ b'e' ∷ rest) ≡ (ds, b'e' ∷ rest)
unfolding number_span is_digit
number_span-digits [] rest h = refl
number_span-digits (d ∷ ds) rest h =
    rw (h.0, number_span) (rw (number_span-digits ds rest h.1) refl)

skip_ws-digit : (d : ℕ) (s : Bytes) → IsDigit d → skip_ws (d ∷ s) ≡ d ∷ s
unfolding skip_ws is_space is_digit
skip_ws-digit d s h = ground arith

signed_span-digits :
    (d : ℕ) (ds rest : Bytes)
    → All IsDigit (d ∷ ds)
    → signed_span (d ∷ ds ++ b'e' ∷ rest) ≡ (d ∷ ds, b'e' ∷ rest)
unfolding signed_span is_digit
signed_span-digits d ds rest h = rw (no_sign, signed_span) (number_span-digits (d ∷ ds) rest h)
  where
    no_sign : ((d == b'-') || (d == b'+')) ≡ false
    no_sign = ground (arith, h.0)

module _ (stod : Bytes → Option ℕ) where
  pub number_of :
      (s : Bytes) (c : ℕ) (run rest : Bytes) (n : ℕ)
      → signed_span (skip_ws s) ≡ (c ∷ run, rest)
      → stod (c ∷ run) ≡ some n
      → parse_number stod s ≡ done (number n) rest
  unfolding parse_number
  number_of s c run rest n span e =
      rw (span, parse_number)
        (rw (e, parse_number) (ap (λ (p : Bytes × Bytes). done (number n) p.1) span))

  parse_number-digits :
      (d : ℕ) (ds rest : Bytes) (n : ℕ)
      → All IsDigit (d ∷ ds)
      → stod (d ∷ ds) ≡ some n
      → parse_number stod (d ∷ ds ++ b'e' ∷ rest) ≡ done (number n) (b'e' ∷ rest)
  parse_number-digits d ds rest n h e =
      number_of _ d ds (b'e' ∷ rest) n
        (ap signed_span (skip_ws-digit d (ds ++ b'e' ∷ rest) h.0) ∙ signed_span-digits d ds rest h)
        e

  parse_word-digit :
      (d : ℕ) (s : Bytes) → IsDigit d → parse_word stod (d ∷ s) ≡ parse_number stod (d ∷ s)
  unfolding parse_word bytes_eq is_digit
  parse_word-digit d s h = ground arith

  parse_inside-digit :
      (value : Bytes → Read Value) (d : ℕ) (s : Bytes)
      → IsDigit d
      → parse_inside stod value (d ∷ s) ≡ parse_number stod (d ∷ s)
  unfolding parse_inside is_digit
  parse_inside-digit value d s h = ground (arith, parse_word-digit d s h)

  -- A text that starts with a number in digits and goes on with an exponent is refused, at the place
  -- where the exponent starts.
  pub parse_json-exponent :
      (d : ℕ) (ds rest : Bytes) (n : ℕ)
      → All IsDigit (d ∷ ds)
      → stod (d ∷ ds) ≡ some n
      → parse_json stod (d ∷ ds ++ b'e' ∷ rest) ≡ error_at (length (d ∷ ds))
  unfolding parse_json parse_value skip_ws is_space
  parse_json-exponent d ds rest n h e = rw (value, parse_json) (ap error_at size)
    where
      value :
          parse_value stod (suc (length (d ∷ ds ++ b'e' ∷ rest))) (d ∷ ds ++ b'e' ∷ rest)
          ≡ done (number n) (b'e' ∷ rest)
      value =
          rw (skip_ws-digit d (ds ++ b'e' ∷ rest) h.0, parse_value)
            (parse_inside-digit (λ t. parse_value stod (length (d ∷ ds ++ b'e' ∷ rest)) t) d
                (ds ++ b'e' ∷ rest) h.0
              ∙ parse_number-digits d ds rest n h e)

      size : length (d ∷ ds ++ b'e' ∷ rest) - suc (length rest) ≡ length (d ∷ ds)
      size = omega (arith, length-append ds (b'e' ∷ rest))
