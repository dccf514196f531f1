-- ===== src/Websockets/Client/Stream.antt =====
-- The frame loop on a stream of masked frames, and its one fault.
use wasapi.Base.{
  ℕ, zero, suc, ◌+◌, ◌^◌, ◌≤◌, ◌<◌, ◌≡◌, ◌↔◌, refl, true, not, some, List, [], ◌∷◌, ◌++◌, Bytes,
  IsByte, All, length, length-append, length-take, length-drop, All-take, All-drop, get_or, ◌*◌,
  drop, take, ◌==◌, bit_and, arith, if◌then◌else◌,
}
use wasapi.Websockets.Frames.{
  FrameHeader, Frame, fault, read_frame_header, take_payload, take_frame, unmask, shift_in,
}
use wasapi.Websockets.Frames.RoundTrip.{on_wire, take_frame-masked}
use wasapi.Websockets.Frames.Wire.{wire_header}
use wasapi.Websockets.Frames.Masks.{get_or-IsByte, seven}
use native.Mathlib.Nat.{pow-succ', mul_assoc}
use wasapi.Websockets.Client.{Client, on_frame, running, frame_loop, process_frames}
use wasapi.Websockets.Client.Assembly.{on_frames}

-- A frame as a client sends it: the first byte, the mask and the payload before it is masked.
pub record Sent : Type 0 where
  pub first : ℕ
  pub mask : Bytes
  pub payload : Bytes

pub record IsSendable (f : Sent) : Type 0 where
  pub four : length f.mask ≡ 4
  pub mask_bytes : All IsByte f.mask
  pub payload_bytes : All IsByte f.payload
  pub fits : 14 + length f.payload < 2 ^ 64

abbrev pub wire : Sent → Bytes
wire f = on_wire f.first true f.mask (unmask f.mask 0 f.payload)

abbrev pub stream : List Sent → Bytes
stream [] = []
stream (f ∷ fs) = wire f ++ stream fs

-- The frame that the client meant.
abbrev pub meant : Sent → Frame
meant f = record {
  fin = not (bit_and f.first 0x80 == 0);
  opcode = bit_and f.first 0x0F;
  payload = f.payload;
}

abbrev pub all_meant : List Sent → List Frame
all_meant [] = []
all_meant (f ∷ fs) = meant f ∷ all_meant fs

wire-pos : (f : Sent) → 0 < length (wire f)
wire-pos f = ground (
  arith,
  length-append (wire_header f.first true (length (unmask f.mask 0 f.payload)) ++ f.mask)
      (unmask f.mask 0 f.payload),
  length-append (wire_header f.first true (length (unmask f.mask 0 f.payload))) f.mask,
)

loop-stream :
    (fuel : ℕ) (fs : List Sent) (c : Client)
    → All IsSendable fs
    → length (stream fs) ≤ fuel
    → frame_loop fuel (stream fs) c ≡ running (on_frames c (all_meant fs)) []
unfolding frame_loop on_frames
loop-stream zero [] c h k = refl
loop-stream (suc fuel) [] c h k = unfold take_frame read_frame_header in refl
loop-stream zero (f ∷ fs) c h k =
    absurd (omega (arith, wire-pos f, length-append (wire f) (stream fs)))
loop-stream (suc fuel) (f ∷ fs) c h k =
    rw
      (
        take_frame-masked f.first f.mask f.payload (stream fs) h.0.four h.0.mask_bytes
            h.0.payload_bytes h.0.fits,
        frame_loop,
      )
      (loop-stream fuel fs (on_frame c (meant f)) h.1
        (omega (arith, wire-pos f, length-append (wire f) (stream fs))))

-- On any sequence of frames as clients send them the loop handles each frame, in order, as the client
-- meant it, and consumes all of the input.
pub process_frames-stream :
    (fs : List Sent) (c : Client)
    → All IsSendable fs
    → process_frames (stream fs) c ≡ running (on_frames c (all_meant fs)) []
unfolding process_frames
process_frames-stream fs c h = loop-stream (length (stream fs)) fs c h (omega arith)

shift_in-lt :
    (acc m : ℕ) (bs : Bytes) → acc < m → All IsByte bs → shift_in acc bs < m * 256 ^ length bs
unfolding shift_in
shift_in-lt acc m [] h b = omega arith
shift_in-lt acc m (x ∷ bs) h b =
    let e : m * 256 ^ suc (length bs) ≡ m * 256 * 256 ^ length bs = rw (pow-succ', mul_assoc) in
    rw e (shift_in-lt (acc * 256 + x) (m * 256) bs (omega (arith, b.0)) b.1)

-- The bounds that a header has for want of more bits.
header_bounds :
    (buf : Bytes) (h : FrameHeader)
    → All IsByte buf
    → read_frame_header buf ≡ some h
    → (h.header_len ≤ 10) × (h.payload_len < 2 ^ 64)
unfolding read_frame_header
header_bounds buf h bytes e =
    ground (arith, e, get_or-IsByte buf 2 bytes, get_or-IsByte buf 3 bytes, low, long)
  where
    low : bit_and (get_or buf 1 0) 0x7F < 128
    low = seven (get_or buf 1 0) (get_or-IsByte buf 1 bytes)

    long : 10 ≤ length buf → shift_in 0 (take 8 (drop 2 buf)) < 2 ^ 64
    long k =
        let n : length (take 8 (drop 2 buf)) ≡ 8 =
          omega (arith, length-take 8 (drop 2 buf), length-drop 2 buf) in
        let b =
          shift_in-lt 0 1 (take 8 (drop 2 buf)) (omega arith)
            (All-take IsByte 8 (drop 2 buf) (All-drop IsByte 2 buf bytes)) in
        rw n at b

-- With at least 14 bytes of input and fewer than 2^64, the most that a header takes being there, the frame
-- loop reads outside of its input exactly on a frame whose length and header together reach 2^64: the sum
-- wraps around, and the test that the frame is complete lets it through.
pub take_frame-fault_iff :
    (buf : Bytes) (h : FrameHeader)
    → All IsByte buf
    → read_frame_header buf ≡ some h
    → 14 ≤ length buf
    → length buf < 2 ^ 64
    → (take_frame buf ≡ fault)
      ↔ (2 ^ 64 ≤ h.header_len + (if h.masked then 4 else 0) + h.payload_len)
unfolding take_frame take_payload
take_frame-fault_iff buf h bytes e big small =
    let (head, len) = header_bounds buf h bytes e in
    (λ x. ground (arith, e, head, len), λ x. ground (arith, e, head, len))
