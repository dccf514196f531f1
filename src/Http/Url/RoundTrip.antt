-- ===== src/Http/Url/RoundTrip.antt =====
-- `url_decode` undoes `url_encode`, and encoded text is safe inside a query string.
use wasapi.Base.{
  ℕ, ◌/◌, ◌<◌, ◌≡◌, refl, Bool, true, false, Option, none, some, [], ◌∷◌, ◌++◌, Bytes, IsByte, All,
  Bool-cases, ◌==◌, inl, inr, arith, bit_and,
}
use wasapi.Base.Bits.{table, read_table}
use wasapi.Http.Url.{hex_pair, url_decode, unreserved, hex_digit, encode_byte, url_encode}

some_is : Option ℕ → ℕ → Bool
some_is none c = false
some_is (some x) c = x == c

some_is_sound : (o : Option ℕ) (c : ℕ) → some_is o c ≡ true → o ≡ some c
unfolding some_is
some_is_sound none c h = ground arith
some_is_sound (some x) c h = ground arith

digits_table :
    table 256
      (λ c. some_is (hex_pair (hex_digit (bit_and (c / 16) 0xf)) (hex_digit (bit_and c 0xf))) c)
    ≡ true
unfolding table some_is hex_pair hex_digit
digits_table = refl

-- The two digits that the encoder writes for a byte are read as that byte.
hex_pair-hex_digit :
    (c : ℕ)
    → c < 256
    → hex_pair (hex_digit (bit_and (c / 16) 0xf)) (hex_digit (bit_and c 0xf)) ≡ some c
hex_pair-hex_digit c h = some_is_sound _ c (read_table _ 256 c digits_table h)

decode_plain : (c : ℕ) (s : Bytes) → unreserved c ≡ true → url_decode (c ∷ s) ≡ c ∷ url_decode s
unfolding url_decode unreserved
decode_plain c [] h = ground arith
decode_plain c (a ∷ []) h = ground arith
decode_plain c (a ∷ b ∷ s) h = ground arith

decode_escape :
    (a b c : ℕ) (s : Bytes)
    → hex_pair a b ≡ some c
    → url_decode (b'%' ∷ a ∷ b ∷ s) ≡ c ∷ url_decode s
unfolding url_decode
decode_escape a b c s h = rw h

decode-encode_byte :
    (c : ℕ) (s : Bytes) → c < 256 → url_decode (encode_byte c ++ s) ≡ c ∷ url_decode s
unfolding encode_byte
decode-encode_byte c s h = elim (Bool-cases (unreserved c)) [
  | inl e ↦ rw e (decode_plain c s e)
  | inr e ↦ rw e (decode_escape _ _ c s (hex_pair-hex_digit c h))
]

-- Decoding an encoded string gives the string back, whatever bytes it holds.
pub url_decode-url_encode : (s : Bytes) → All IsByte s → url_decode (url_encode s) ≡ s
unfolding url_encode
url_decode-url_encode [] h = unfold url_decode in refl
url_decode-url_encode (c ∷ s) h =
    let ih = url_decode-url_encode s h.1 in rw (decode-encode_byte c (url_encode s) h.0, ih)
