-- ===== src/Http/Base64.antt =====
-- src/http.cpp: `base64_encode`. `v` joins bytes, so its `|` is a sum; `x & 63` is `x % 64`.
pub mod RoundTrip
use wasapi.Base.{ℕ, ◌+◌, ◌*◌, ◌/◌, ◌%◌, [], ◌∷◌, ◌++◌, Bytes, codes, get_or}

abbrev pub tbl : Bytes
tbl = codes "ABCDEFGHIJKLMNOPQRSTUVWXYZabcdefghijklmnopqrstuvwxyz0123456789+/"

unfoldable pub digit64 : ℕ → ℕ
digit64 x = get_or tbl (x % 64) 0

-- The loop takes three bytes a round; at the end '=' stands for what is missing.
unfoldable pub base64_encode : Bytes → Bytes
unfolding digit64
base64_encode [] = []
base64_encode (a ∷ []) =
    let v = a * 65536 in digit64 (v / 262144) ∷ digit64 (v / 4096) ∷ b'=' ∷ b'=' ∷ []
base64_encode (a ∷ b ∷ []) =
    let v = a * 65536 + b * 256 in
    digit64 (v / 262144) ∷ digit64 (v / 4096) ∷ digit64 (v / 64) ∷ b'=' ∷ []
base64_encode (a ∷ b ∷ c ∷ s) =
    let v = a * 65536 + b * 256 + c in
    digit64 (v / 262144) ∷ digit64 (v / 4096) ∷ digit64 (v / 64) ∷ digit64 v ∷ base64_encode s
