-- ===== src/Http/Base64/RoundTrip.antt =====
-- `base64_encode` of src/http.cpp against a decoder after RFC 4648.
use wasapi.Base.{
  ℕ, ◌+◌, ◌-◌, ◌*◌, ◌/◌, ◌%◌, ◌≡◌, refl, ap, ap₂, true, false, [], ◌∷◌, Bytes, IsByte, All, leb,
  ◌==◌, not, ◌&&◌, if◌then◌else◌, arith,
}
use wasapi.Base.Bits.{table, read_table}
use wasapi.Http.Base64.{digit64, base64_encode}

-- The value of a digit.
unfoldable pub value64 : ℕ → ℕ
value64 d =
    if leb b'A' d && leb d b'Z'
    then d - b'A'
    else if leb b'a' d && leb d b'z'
    then d - b'a' + 26
    else if leb b'0' d && leb d b'9'
    then d - b'0' + 52
    else if d == b'+'
    then 62
    else 63

-- Four digits give three bytes, or two or one if the last digits are '='.
unfoldable pub base64_decode : Bytes → Bytes
unfolding value64
base64_decode (p ∷ q ∷ r ∷ s ∷ rest) =
    let v = value64 p * 262144 + value64 q * 4096 + value64 r * 64 + value64 s in
    let after = base64_decode rest in
    if r == b'='
    then (value64 p * 64 + value64 q) / 16 ∷ []
    else if s == b'='
    then (value64 p * 4096 + value64 q * 64 + value64 r) / 1024
      ∷ (value64 p * 4096 + value64 q * 64 + value64 r) / 4 % 256
      ∷ []
    else v / 65536 ∷ v / 256 % 256 ∷ v % 256 ∷ after
base64_decode s = []

digits_table : table 64 (λ n. (value64 (digit64 n) == n) && not (digit64 n == b'=')) ≡ true
unfolding table value64 digit64
digits_table = refl

mod_table : (x : ℕ) → digit64 x ≡ digit64 (x % 64)
unfolding digit64
mod_table x = rw (idem x) refl
  where
    idem : (y : ℕ) → y % 64 % 64 ≡ y % 64
    idem y = omega arith

value64-digit64 : (x : ℕ) → value64 (digit64 x) ≡ x % 64
value64-digit64 x = rw (mod_table x) (ground (arith, read_table _ 64 (x % 64) digits_table))

no_padding : (x : ℕ) → (digit64 x == b'=') ≡ false
no_padding x = rw (mod_table x) (ground (arith, read_table _ 64 (x % 64) digits_table))

-- Decoding what `base64_encode` made of any bytes gives the bytes back.
pub base64_decode-base64_encode : (s : Bytes) → All IsByte s → base64_decode (base64_encode s) ≡ s
unfolding base64_decode base64_encode
base64_decode-base64_encode [] h = refl
base64_decode-base64_encode (a ∷ []) h =
    rw (value64-digit64 (a * 65536 / 262144), value64-digit64 (a * 65536 / 4096))
      (ap (λ (x : ℕ). x ∷ []) first)
  where
    first : (a * 65536 / 262144 % 64 * 64 + a * 65536 / 4096 % 64) / 16 ≡ a
    first = omega (arith, h.0)
base64_decode-base64_encode (a ∷ b ∷ []) h =
    rw
      (
        no_padding (v / 64),
        value64-digit64 (v / 262144),
        value64-digit64 (v / 4096),
        value64-digit64 (v / 64),
      )
      (ap₂ (λ (x y : ℕ). x ∷ y ∷ []) first second)
  where
    v : ℕ
    v = a * 65536 + b * 256

    first : (v / 262144 % 64 * 4096 + v / 4096 % 64 * 64 + v / 64 % 64) / 1024 ≡ a
    first = omega (arith, h.0, h.1.0)

    second : (v / 262144 % 64 * 4096 + v / 4096 % 64 * 64 + v / 64 % 64) / 4 % 256 ≡ b
    second = omega (arith, h.0, h.1.0)
base64_decode-base64_encode (a ∷ b ∷ c ∷ s) h =
    rw
      (
        no_padding (v / 64),
        no_padding v,
        value64-digit64 (v / 262144),
        value64-digit64 (v / 4096),
        value64-digit64 (v / 64),
        value64-digit64 v,
        joined,
      )
      (rw (first, second, third) (ap (λ t. a ∷ b ∷ c ∷ t) (base64_decode-base64_encode s h.1.1.1)))
  where
    v : ℕ
    v = a * 65536 + b * 256 + c

    joined : v / 262144 % 64 * 262144 + v / 4096 % 64 * 4096 + v / 64 % 64 * 64 + v % 64 ≡ v
    joined = omega (arith, h.0, h.1.0, h.1.1.0)

    first : v / 65536 ≡ a
    first = omega (arith, h.1.0, h.1.1.0)

    second : v / 256 % 256 ≡ b
    second = omega (arith, h.1.0, h.1.1.0)

    third : v % 256 ≡ c
    third = omega (arith, h.1.1.0)
