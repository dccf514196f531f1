-- ===== src/Json/RoundTrip/Scan.antt =====
-- How the readers of src/dynamic_variable.cpp pass a number and see the end of it.
use wasapi.Base.{
  ℕ, ◌≡◌, ◌∙◌, refl, sym, ap, true, false, Bool, ◌||◌, ◌&&◌, not, Option, some, [], ◌∷◌, ◌++◌,
  Bytes, ◌==◌, bytes_eq, Bool-cases, inl, inr, arith,
}
use wasapi.Dynamic.{Value, number}
use wasapi.Json.Strings.{Read, done, skip_ws, is_space}
use wasapi.Json.Values.{is_digit, number_span, signed_span, parse_number, parse_word, parse_inside}
use wasapi.Json.Values.Exponent.{number_of}

-- A text that does not go on with a number.
unfoldable pub Ends : Bytes → Type 0
unfolding is_digit
Ends [] = Unit
Ends (c ∷ s) = (is_digit c ≡ false) × ((c == b'.') ≡ false)

number_span-stop : (dot : Bool) (rest : Bytes) → Ends rest → number_span dot rest ≡ ([], rest)
unfolding number_span Ends
number_span-stop dot [] h = refl
number_span-stop dot (c ∷ s) h = rw (h.0, number_span) (rw (h.1, number_span) refl)

abbrev Span : Type 0
Span = Bytes × Bytes

span-digit :
    (dot : Bool) (c : ℕ) (t : Bytes)
    → is_digit c ≡ true
    → number_span dot (c ∷ t) ≡ (c ∷ (number_span dot t).0, (number_span dot t).1)
unfolding number_span
span-digit dot c t d = rw (d, number_span) refl

span-dot :
    (dot : Bool) (c : ℕ) (t : Bytes)
    → is_digit c ≡ false
    → (c == b'.' && not dot) ≡ true
    → number_span dot (c ∷ t) ≡ (c ∷ (number_span true t).0, (number_span true t).1)
unfolding number_span
span-dot dot c t d p = rw (d, number_span) (rw (p, number_span) refl)

span-other :
    (dot : Bool) (c : ℕ) (t : Bytes)
    → is_digit c ≡ false
    → (c == b'.' && not dot) ≡ false
    → number_span dot (c ∷ t) ≡ ([], c ∷ t)
unfolding number_span
span-other dot c t d p = rw (d, number_span) (rw (p, number_span) refl)

rest_of : (p : Span) (run rest : Bytes) → p ≡ (run, rest) → p.1 ≡ [] → rest ≡ []
rest_of p run rest e h = sym (ap (λ (q : Span). q.1) e) ∙ h

-- A text that is passed whole is passed in front of anything that ends it.
number_span-append :
    (dot : Bool) (t rest : Bytes)
    → (number_span dot t).1 ≡ []
    → Ends rest
    → number_span dot (t ++ rest) ≡ (t, rest)
number_span-append dot [] rest h e = number_span-stop dot rest e
number_span-append dot (c ∷ t) rest h e = elim (Bool-cases (is_digit c)) [
  | inl d ↦
      span-digit dot c (t ++ rest) d
      ∙ ap (λ (p : Span). (c ∷ p.0, p.1))
          (number_span-append dot t rest (rest_of _ _ _ (span-digit dot c t d) h) e)
  | inr d ↦ elim (Bool-cases (c == b'.' && not dot)) [
    | inl p ↦
        span-dot dot c (t ++ rest) d p
        ∙ ap (λ (q : Span). (c ∷ q.0, q.1))
            (number_span-append true t rest (rest_of _ _ _ (span-dot dot c t d p) h) e)
    | inr p ↦ ground (arith, rest_of _ _ _ (span-other dot c t d p) h)
  ]
]

-- The first byte of a number.
abbrev pub begins : ℕ → Bool
begins c = is_digit c || c == b'-'

span-sign :
    (c : ℕ) (t : Bytes)
    → (c == b'-' || c == b'+') ≡ true
    → signed_span (c ∷ t) ≡ (c ∷ (number_span false t).0, (number_span false t).1)
unfolding signed_span
span-sign c t h = rw (h, signed_span) refl

span-unsigned :
    (c : ℕ) (t : Bytes)
    → (c == b'-' || c == b'+') ≡ false
    → signed_span (c ∷ t) ≡ number_span false (c ∷ t)
unfolding signed_span
span-unsigned c t h = rw (h, signed_span) refl

signed_span-append :
    (c : ℕ) (t rest : Bytes)
    → (signed_span (c ∷ t)).1 ≡ []
    → Ends rest
    → signed_span (c ∷ t ++ rest) ≡ (c ∷ t, rest)
signed_span-append c t rest h e = elim (Bool-cases (c == b'-' || c == b'+')) [
  | inl m ↦
      span-sign c (t ++ rest) m
      ∙ ap (λ (p : Span). (c ∷ p.0, p.1))
          (number_span-append false t rest (rest_of _ _ _ (span-sign c t m) h) e)
  | inr m ↦
      span-unsigned c (t ++ rest) m
      ∙ number_span-append false (c ∷ t) rest
          (sym (ap (λ (p : Span). p.1) (span-unsigned c t m)) ∙ h) e
]

skip_ws-begins : (c : ℕ) (s : Bytes) → begins c ≡ true → skip_ws (c ∷ s) ≡ c ∷ s
unfolding skip_ws is_space is_digit
skip_ws-begins c s h = ground (arith, h)

module _ (stod : Bytes → Option ℕ) where
  parse_word-begins :
      (c : ℕ) (s : Bytes) → begins c ≡ true → parse_word stod (c ∷ s) ≡ parse_number stod (c ∷ s)
  unfolding parse_word bytes_eq is_digit
  parse_word-begins c s h = ground (arith, h)

  parse_inside-begins :
      (value : Bytes → Read Value) (c : ℕ) (s : Bytes)
      → begins c ≡ true
      → parse_inside stod value (c ∷ s) ≡ parse_number stod (c ∷ s)
  unfolding parse_inside is_digit
  parse_inside-begins value c s h = ground (arith, h, parse_word-begins c s h)

  -- A number that is passed whole is read in front of anything that ends it.
  pub parse_inside-number :
      (value : Bytes → Read Value) (c : ℕ) (t rest : Bytes) (n : ℕ)
      → begins c ≡ true
      → (signed_span (c ∷ t)).1 ≡ []
      → stod (c ∷ t) ≡ some n
      → Ends rest
      → parse_inside stod value (skip_ws (c ∷ t ++ rest)) ≡ done (number n) rest
  parse_inside-number value c t rest n b h e ends =
      ap (λ s. parse_inside stod value s) (skip_ws-begins c (t ++ rest) b)
      ∙ (parse_inside-begins value c (t ++ rest) b
          ∙ number_of stod (c ∷ t ++ rest) c t rest n
              (ap signed_span (skip_ws-begins c (t ++ rest) b) ∙ signed_span-append c t rest h ends)
              e)
