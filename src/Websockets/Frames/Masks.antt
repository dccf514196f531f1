-- ===== src/Websockets/Frames/Masks.antt =====
-- Tables and laws of the bytes of a frame: lengths in network order, the first byte, the mask.
use wasapi.Base.{
  ℕ, zero, suc, ◌+◌, ◌*◌, ◌/◌, ◌%◌, ◌^◌, ◌≤◌, ◌<◌, ◌≡◌, refl, ap, true, not, ◌&&◌, [], ◌∷◌, Bytes,
  IsByte, All, length, get_or, ltb, ◌==◌, ==_iff, bit_and, bit_or, bit_xor, arith,
}
use wasapi.Base.Bits.{table, read_table}
use wasapi.Websockets.Frames.{to_be64, shift_in, unmask}

pub from_be16-to_be16 : (n : ℕ) → n ≤ 0xFFFF → n / 256 % 256 * 256 + n % 256 ≡ n
from_be16-to_be16 n h = omega arith

pub shift_in-to_be64 : (n : ℕ) → n < 2 ^ 64 → shift_in 0 (to_be64 n) ≡ n
unfolding shift_in
shift_in-to_be64 n h = omega arith

-- The first byte of a frame that the server builds: the final bit over the opcode.
pub first_table :
    table 16 (λ op.
      not (bit_and (bit_or 0x80 (bit_and op 0x0F)) 0x80 == 0)
      && (bit_and (bit_or 0x80 (bit_and op 0x0F)) 0x0F == op))
    ≡ true
unfolding table
first_table = refl

short_table : table 126 (λ n. (bit_and n 0x7F == n) && (bit_and n 0x80 == 0)) ≡ true
unfolding table
short_table = refl

xor_table : table 256 (λ k. table 256 (λ b. bit_xor (bit_xor b k) k == b)) ≡ true
unfolding table
xor_table = refl

xor_twice : (b k : ℕ) → b < 256 → k < 256 → bit_xor (bit_xor b k) k ≡ b
xor_twice b k hb hk = (==_iff _ b).0 (read_table _ 256 b (read_table _ 256 k xor_table hk) hb)

pub get_or-IsByte : (m : Bytes) (i : ℕ) → All IsByte m → get_or m i 0 < 256
get_or-IsByte [] i h = omega arith
get_or-IsByte (b ∷ m) zero h = h.0
get_or-IsByte (b ∷ m) (suc i) h = get_or-IsByte m i h.1

pub length-unmask : (mask : Bytes) (k : ℕ) (s : Bytes) → length (unmask mask k s) ≡ length s
unfolding unmask
length-unmask mask k [] = refl
length-unmask mask k (b ∷ s) = ap suc (length-unmask mask (suc k) s)

-- Masking with the same four bytes twice gives the payload back.
pub unmask-unmask :
    (mask : Bytes) (k : ℕ) (s : Bytes)
    → All IsByte mask
    → All IsByte s
    → unmask mask k (unmask mask k s) ≡ s
unfolding unmask
unmask-unmask mask k [] hm hs = refl
unmask-unmask mask k (b ∷ s) hm hs =
    rw (xor_twice b (get_or mask (k % 4) 0) hs.0 (get_or-IsByte mask (k % 4) hm))
      (ap (◌∷◌ b) (unmask-unmask mask (suc k) s hm hs.1))

seven_table : table 256 (λ b. ltb (bit_and b 0x7F) 128) ≡ true
unfolding table
seven_table = refl

pub seven : (b : ℕ) → b < 256 → bit_and b 0x7F < 128
seven b h = ground (arith, read_table _ 256 b seven_table h)
