-- ===== src/Websockets/Frames/Wire.antt =====
-- The three forms of a frame header, and what the reader makes of them.
use wasapi.Base.{
  ℕ, ◌+◌, ◌*◌, ◌/◌, ◌%◌, ◌^◌, ◌<◌, ◌≡◌, refl, ◌∙◌, Bool, true, false, not, ◌&&◌, some, [], ◌∷◌,
  ◌++◌, Bytes, length, ltb, leb, le→ltb, ◌==◌, if◌then◌else◌, bit_and, arith, Bool-cases, inl, inr,
}
use wasapi.Base.Bits.{table, read_table}
use wasapi.Websockets.Frames.{to_be64, FrameHeader, shift_in, read_frame_header}
use wasapi.Websockets.Frames.Masks.{from_be16-to_be16, shift_in-to_be64}

short_header :
    (b0 b1 : ℕ) (more : Bytes)
    → bit_and b1 0x7F < 126
    → read_frame_header (b0 ∷ b1 ∷ more)
      ≡ some (record {
        fin = not (bit_and b0 0x80 == 0);
        opcode = bit_and b0 0x0F;
        masked = not (bit_and b1 0x80 == 0);
        payload_len = bit_and b1 0x7F;
        header_len = 2;
      })
unfolding read_frame_header
short_header b0 b1 more h = ground arith

medium_header :
    (b0 b1 b2 b3 : ℕ) (more : Bytes)
    → bit_and b1 0x7F ≡ 126
    → read_frame_header (b0 ∷ b1 ∷ b2 ∷ b3 ∷ more)
      ≡ some (record {
        fin = not (bit_and b0 0x80 == 0);
        opcode = bit_and b0 0x0F;
        masked = not (bit_and b1 0x80 == 0);
        payload_len = b2 * 256 + b3;
        header_len = 4;
      })
unfolding read_frame_header
medium_header b0 b1 b2 b3 more h = ground arith

long_header :
    (b0 b1 : ℕ) (n : ℕ) (more : Bytes)
    → bit_and b1 0x7F ≡ 127
    → n < 2 ^ 64
    → read_frame_header (b0 ∷ b1 ∷ (to_be64 n ++ more))
      ≡ some (record {
        fin = not (bit_and b0 0x80 == 0);
        opcode = bit_and b0 0x0F;
        masked = not (bit_and b1 0x80 == 0);
        payload_len = n;
        header_len = 10;
      })
unfolding read_frame_header
long_header b0 b1 n more h small =
    let e : shift_in 0 (to_be64 n) ≡ n = shift_in-to_be64 n small in
    let two : ltb (length (b0 ∷ b1 ∷ (to_be64 n ++ more))) 2 ≡ false = le→ltb _ _ (omega arith) in
    let ten : ltb (length (b0 ∷ b1 ∷ (to_be64 n ++ more))) 10 ≡ false = le→ltb _ _ (omega arith) in
    rw (h, e, two, ten)

-- The mask bit, and the header bytes of a frame of `n` bytes behind the first byte `b0`.
abbrev pub mask_bit : Bool → ℕ
mask_bit m = if m then 128 else 0

abbrev pub wire_header : ℕ → Bool → ℕ → Bytes
wire_header b0 m n =
    if ltb n 126
    then b0 ∷ (n + mask_bit m) ∷ []
    else if leb n 0xFFFF
    then b0 ∷ (126 + mask_bit m) ∷ n / 256 % 256 ∷ n % 256 ∷ []
    else b0 ∷ (127 + mask_bit m) ∷ to_be64 n

second_table :
    table 128 (λ n.
      (bit_and (n + 0) 0x7F == n)
      && (bit_and (n + 0) 0x80 == 0)
      && (bit_and (n + 128) 0x7F == n)
      && not (bit_and (n + 128) 0x80 == 0))
    ≡ true
unfolding table
second_table = refl

-- The second byte of a header holds the small length and the mask bit.
second_byte :
    (n : ℕ) (m : Bool)
    → n < 128
    → (bit_and (n + mask_bit m) 0x7F ≡ n) × (not (bit_and (n + mask_bit m) 0x80 == 0) ≡ m)
second_byte n true h = ground (arith, read_table _ 128 n second_table h)
second_byte n false h = ground (arith, read_table _ 128 n second_table h)

abbrev pub wire_fields : ℕ → Bool → ℕ → FrameHeader
wire_fields b0 m n = record {
  fin = not (bit_and b0 0x80 == 0);
  opcode = bit_and b0 0x0F;
  masked = m;
  payload_len = n;
  header_len = length (wire_header b0 m n);
}

-- The reader finds the length and the mask bit in each of the three forms.
pub read_wire :
    (b0 n : ℕ) (m : Bool) (more : Bytes)
    → n < 2 ^ 64
    → read_frame_header (wire_header b0 m n ++ more) ≡ some (wire_fields b0 m n)
read_wire b0 n m more h = elim (Bool-cases (ltb n 126)) [
  | inl e ↦
      let (low, top) = second_byte n m (ground arith) in
      rw e (short_header b0 (n + mask_bit m) more (ground (arith, low)) ∙ rw (low, top))
  | inr e ↦ elim (Bool-cases (leb n 0xFFFF)) [
    | inl e' ↦
        let (low, top) = second_byte 126 m (omega arith) in
        rw (e, e')
          (medium_header b0 (126 + mask_bit m) (n / 256 % 256) (n % 256) more low
            ∙ rw (top, from_be16-to_be16 n (ground arith)))
    | inr e' ↦
        let (low, top) = second_byte 127 m (omega arith) in
        rw (e, e') (long_header b0 (127 + mask_bit m) n more low h ∙ rw top)
  ]
]
