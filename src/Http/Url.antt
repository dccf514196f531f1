-- ===== src/Http/Url.antt =====
-- src/http.cpp: `hexval`, `url_decode`, `unreserved`, `hex_digit` and `url_encode`.
pub mod RoundTrip
use wasapi.Base.{
  ℕ, ◌+◌, ◌-◌, ◌*◌, ◌/◌, ◌%◌, ◌≡◌, refl, Bool, true, false, ◌&&◌, ◌||◌, Option, none, some, [], ◌∷◌,
  ◌++◌, Bytes, codes, ltb, leb, ◌==◌, if◌then◌else◌, bit_and, bit_or,
}

-- `none` is the result -1. A byte above 127 is a negative `char`, which no range takes either.
unfoldable pub hexval : ℕ → Option ℕ
hexval c =
    if leb b'0' c && leb c b'9'
    then some (c - b'0')
    else if leb b'a' c && leb c b'f'
    then some (10 + (c - b'a'))
    else if leb b'A' c && leb c b'F'
    then some (10 + (c - b'A'))
    else none

-- `char((h1 << 4) | h2)`, where both digits are valid.
unfoldable pub hex_pair : ℕ → ℕ → Option ℕ
unfolding hexval
hex_pair a b = elim (hexval a) [
  | none ↦ none
  | some h1 ↦ elim (hexval b) [ none ↦ none | some h2 ↦ some (bit_or (h1 * 16) h2) ]
]

-- A byte that starts no escape: '+' is a space.
unfoldable pub plain : ℕ → ℕ
plain c = if c == b'+' then b' ' else c

-- The loop of `url_decode`; the list is what index `i` has not reached.
unfoldable pub url_decode : Bytes → Bytes
unfolding plain hex_pair
url_decode [] = []
url_decode (c ∷ []) = plain c ∷ []
url_decode (c ∷ a ∷ []) = plain c ∷ url_decode (a ∷ [])
url_decode (c ∷ a ∷ b ∷ s) =
    let copied = plain c ∷ url_decode (a ∷ b ∷ s) in
    let after = url_decode s in
    if c == b'%' then elim (hex_pair a b) [ none ↦ copied | some h ↦ h ∷ after ] else copied

unfoldable pub unreserved : ℕ → Bool
unreserved c =
    (leb b'A' c && leb c b'Z')
    || (leb b'a' c && leb c b'z')
    || (leb b'0' c && leb c b'9')
    || (c == b'-' || c == b'_' || c == b'.' || c == b'~')

unfoldable pub hex_digit : ℕ → ℕ
hex_digit v = if ltb v 10 then b'0' + v else b'A' + (v - 10)

-- What one round of `url_encode` appends.
unfoldable pub encode_byte : ℕ → Bytes
unfolding unreserved hex_digit
encode_byte c =
    if unreserved c
    then c ∷ []
    else b'%' ∷ hex_digit (bit_and (c / 16) 0xf) ∷ hex_digit (bit_and c 0xf) ∷ []

unfoldable pub url_encode : Bytes → Bytes
unfolding encode_byte
url_encode [] = []
url_encode (c ∷ s) = encode_byte c ++ url_encode s
