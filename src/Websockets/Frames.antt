-- ===== src/Websockets/Frames.antt =====
-- src/websockets.cpp: `build_ws_frame`, and the part of `serve` that takes one frame from `in_buf`.
pub mod Masks
pub mod Wire
pub mod RoundTrip
use wasapi.Base.{
  ℕ, zero, suc, ◌+◌, ◌*◌, ◌/◌, ◌%◌, ◌^◌, Bool, true, false, not, Option, none, some, [], ◌∷◌, ◌++◌,
  Bytes, length, take, drop, get_or, ltb, leb, ◌==◌, if◌then◌else◌, bit_and, bit_or, bit_xor,
}

abbrev pub to_be64 : ℕ → Bytes
to_be64 n =
    n / 2 ^ 56 % 256
    ∷ n / 2 ^ 48 % 256
    ∷ n / 2 ^ 40 % 256
    ∷ n / 2 ^ 32 % 256
    ∷ n / 2 ^ 24 % 256
    ∷ n / 2 ^ 16 % 256
    ∷ n / 2 ^ 8 % 256
    ∷ n % 256
    ∷ []

-- The length field: 7 bits, or 126 and 16 bits, or 127 and 64 bits, in network order.
unfoldable pub length_field : ℕ → Bytes
length_field n =
    if ltb n 126
    then n ∷ []
    else if leb n 0xFFFF
    then 126 ∷ n / 256 % 256 ∷ n % 256 ∷ []
    else 127 ∷ to_be64 n

unfoldable pub build_ws_frame : ℕ → Bytes → Bytes
unfolding length_field
build_ws_frame opcode payload =
    bit_or 0x80 (bit_and opcode 0x0F) ∷ (length_field (length payload) ++ payload)

pub record FrameHeader : Type 0 where
  pub fin : Bool
  pub opcode : ℕ
  pub masked : Bool
  pub payload_len : ℕ
  pub header_len : ℕ

-- `len = (len << 8) | byte`, over the eight bytes of a long length: the result fits 64 bits.
unfoldable pub shift_in : ℕ → Bytes → ℕ
shift_in acc [] = acc
shift_in acc (b ∷ bs) = shift_in (acc * 256 + b) bs

-- The header at the front of `in_buf`; `none` is a `break` for want of bytes.
unfoldable pub read_frame_header : Bytes → Option FrameHeader
unfolding shift_in
read_frame_header buf =
    let b0 = get_or buf 0 0 in
    let b1 = get_or buf 1 0 in
    let n = bit_and b1 0x7F in
    let make : ℕ → ℕ → FrameHeader = λ len size. record {
      fin = not (bit_and b0 0x80 == 0);
      opcode = bit_and b0 0x0F;
      masked = not (bit_and b1 0x80 == 0);
      payload_len = len;
      header_len = size;
    } in
    if ltb (length buf) 2
    then none
    else if n == 126
    then (if ltb (length buf) 4
        then none
        else some (make (get_or buf 2 0 * 256 + get_or buf 3 0) 4))
    else if n == 127
    then (if ltb (length buf) 10 then none else some (make (shift_in 0 (take 8 (drop 2 buf))) 10))
    else some (make n 2)

-- `payload[k] ^= mask[k % 4]`, from index `k` on.
unfoldable pub unmask : Bytes → ℕ → Bytes → Bytes
unmask mask k [] = []
unmask mask k (b ∷ bs) = bit_xor b (get_or mask (k % 4) 0) ∷ unmask mask (suc k) bs

pub record Frame : Type 0 where
  pub fin : Bool
  pub opcode : ℕ
  pub payload : Bytes

-- `fault`: the bytes to copy lie outside `in_buf`, which is undefined in C++.
pub data Taken : Type 0 where
  incomplete : Taken
  fault : Taken
  taken : Frame → Bytes → Taken

-- The payload, its mask undone, and the input behind it, where the payload starts at `start`.
unfoldable pub take_payload : Bytes → FrameHeader → ℕ → Taken
unfolding unmask
take_payload buf h start =
    let copied = take h.payload_len (drop start buf) in
    let mask = take 4 (drop h.header_len buf) in
    if ltb (length buf) (start + h.payload_len)
    then fault
    else taken
        (record {
          fin = h.fin;
          opcode = h.opcode;
          payload = if h.masked then unmask mask 0 copied else copied;
        })
        (drop (start + h.payload_len) buf)

-- One round of the frame loop. `header_len + mask_len + payload_len` is computed in 64 bits.
unfoldable pub take_frame : Bytes → Taken
unfolding read_frame_header take_payload
take_frame buf = elim (read_frame_header buf) [
  | none ↦ incomplete
  | some h ↦
      let start = h.header_len + (if h.masked then 4 else 0) in
      if ltb (length buf) ((start + h.payload_len) % 2 ^ 64)
      then incomplete
      else take_payload buf h start
]
