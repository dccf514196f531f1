-- ===== src/Websockets/Frames/RoundTrip.antt =====
-- Frames that the server builds are read back, and so are frames that a client masks.
use wasapi.Base.{
  ℕ, ◌+◌, ◌%◌, ◌^◌, ◌≤◌, ◌<◌, ◌≡◌, refl, subst, ◌∙◌, Bool, true, false, not, some, [], ◌++◌,
  append_assoc, Bytes, IsByte, All, length, take, drop, ltb, leb, le→ltb, ◌==◌, if◌then◌else◌,
  bit_and, bit_or, arith, length-append, take-append, drop-append, Bool-cases, inl, inr,
}
use native.Mathlib.Nat.{add-zero}
use wasapi.Base.Bits.{read_table}
use wasapi.Websockets.Frames.{
  length_field, build_ws_frame, FrameHeader, read_frame_header, unmask, taken, take_payload,
  take_frame,
}
use wasapi.Websockets.Frames.Masks.{unmask-unmask, length-unmask, first_table}
use wasapi.Websockets.Frames.Wire.{wire_header, wire_fields, read_wire}

-- Where the payload starts behind a header.
abbrev start_of : FrameHeader → ℕ
start_of h = h.header_len + (if h.masked then 4 else 0)

take_payload_of :
    (buf wire rest : Bytes) (h : FrameHeader) (start : ℕ)
    → h.payload_len ≡ length wire
    → drop start buf ≡ wire ++ rest
    → drop (start + length wire) buf ≡ rest
    → length buf ≡ start + length wire + length rest
    → take_payload buf h start
      ≡ taken
          (record {
            fin = h.fin;
            opcode = h.opcode;
            payload = if h.masked then unmask (take 4 (drop h.header_len buf)) 0 wire else wire;
          })
          rest
unfolding take_payload
take_payload_of buf wire rest h start n d d' l =
    let fits : ltb (length buf) (start + length wire) ≡ false = le→ltb _ _ (omega arith) in
    rw (n, fits, d, d', take-append wire rest)

-- `take_frame` on a buffer that holds the header `h`, the bytes `wire`, and `rest`.
take_frame_of :
    (buf wire rest : Bytes) (h : FrameHeader)
    → read_frame_header buf ≡ some h
    → h.payload_len ≡ length wire
    → drop (start_of h) buf ≡ wire ++ rest
    → drop (start_of h + length wire) buf ≡ rest
    → length buf ≡ start_of h + length wire + length rest
    → start_of h + length wire < 2 ^ 64
    → take_frame buf
      ≡ taken
          (record {
            fin = h.fin;
            opcode = h.opcode;
            payload = if h.masked then unmask (take 4 (drop h.header_len buf)) 0 wire else wire;
          })
          rest
unfolding take_frame
take_frame_of buf wire rest h e n d d' l small =
    let fits : ltb (length buf) ((start_of h + h.payload_len) % 2 ^ 64) ≡ false =
      le→ltb _ _ (omega arith) in
    rw (e, take_frame) (rw fits (take_payload_of buf wire rest h (start_of h) n d d' l))

-- A frame as it stands on the wire: header, mask if any, payload as sent.
abbrev pub on_wire : ℕ → Bool → Bytes → Bytes → Bytes
on_wire b0 m mask sent = (wire_header b0 m (length sent) ++ mask) ++ sent

take_frame-on_wire :
    (b0 : ℕ) (m : Bool) (mask sent rest : Bytes)
    → length mask ≡ (if m then 4 else 0)
    → 14 + length sent < 2 ^ 64
    → take_frame (on_wire b0 m mask sent ++ rest)
      ≡ taken
          (record {
            fin = not (bit_and b0 0x80 == 0);
            opcode = bit_and b0 0x0F;
            payload = if m then unmask mask 0 sent else sent;
          })
          rest
take_frame-on_wire b0 m mask sent rest k small = elim (Bool-cases m) [
  | inl e ↦ main ∙ rw (mask_of e)
  | inr e ↦ main ∙ rw e
]
  where
    head : Bytes
    head = wire_header b0 m (length sent)

    start : start_of (wire_fields b0 m (length sent)) ≡ length (head ++ mask)
    start = omega (arith, length-append head mask)

    short_head : length head ≤ 10
    short_head = ground arith

    short_start : length (head ++ mask) ≤ 14
    short_start = ground (arith, short_head, length-append head mask)

    shape : (head ++ mask) ++ sent ++ rest ≡ head ++ (mask ++ (sent ++ rest))
    shape = rw (append_assoc, append_assoc)

    found :
        read_frame_header ((head ++ mask) ++ sent ++ rest) ≡ some (wire_fields b0 m (length sent))
    found = rw shape (read_wire b0 (length sent) m (mask ++ (sent ++ rest)) (omega arith))

    dropped : drop (length (head ++ mask)) ((head ++ mask) ++ sent ++ rest) ≡ sent ++ rest
    dropped = rw append_assoc (drop-append (head ++ mask) (sent ++ rest))

    dropped_all : drop (length (head ++ mask) + length sent) ((head ++ mask) ++ sent ++ rest) ≡ rest
    dropped_all = rw (← length-append) (drop-append ((head ++ mask) ++ sent) rest)

    size :
        length ((head ++ mask) ++ sent ++ rest) ≡ length (head ++ mask) + length sent + length rest
    size = rw length-append (rw length-append refl)

    mask_of : m ≡ true → take 4 (drop (length head) ((head ++ mask) ++ sent ++ rest)) ≡ mask
    mask_of e =
        let four : length mask ≡ 4 = ground arith in
        rw (shape, drop-append head (mask ++ (sent ++ rest)))
          (subst (λ j. take j (mask ++ (sent ++ rest)) ≡ mask) four
            (take-append mask (sent ++ rest)))

    main :
        take_frame (on_wire b0 m mask sent ++ rest)
        ≡ taken
            (record {
              fin = not (bit_and b0 0x80 == 0);
              opcode = bit_and b0 0x0F;
              payload =
                  if m
                  then unmask (take 4 (drop (length head) (on_wire b0 m mask sent ++ rest))) 0 sent
                  else sent;
            })
            rest
    main =
        take_frame_of (on_wire b0 m mask sent ++ rest) sent rest (wire_fields b0 m (length sent))
          found refl (rw start dropped) (rw start dropped_all) (omega (arith, size, start))
          (omega (arith, start, short_start))

-- What a client masks for the wire with four bytes, the server unmasks: any frame of fewer than
-- 2^64 - 14 bytes is taken from the front of the input whole, with its final bit, its opcode and its
-- payload as the client meant them, and the input behind it is left as it was.
pub take_frame-masked :
    (b0 : ℕ) (mask payload rest : Bytes)
    → length mask ≡ 4
    → All IsByte mask
    → All IsByte payload
    → 14 + length payload < 2 ^ 64
    → take_frame (on_wire b0 true mask (unmask mask 0 payload) ++ rest)
      ≡ taken
          (record { fin = not (bit_and b0 0x80 == 0); opcode = bit_and b0 0x0F; payload = payload })
          rest
take_frame-masked b0 mask payload rest k hm hp small =
    take_frame-on_wire b0 true mask (unmask mask 0 payload) rest k
      (omega (arith, length-unmask mask 0 payload))
    ∙ rw (unmask-unmask mask 0 payload hm hp)

build_ws_frame-on_wire :
    (opcode : ℕ) (payload : Bytes)
    → build_ws_frame opcode payload ≡ on_wire (bit_or 0x80 (bit_and opcode 0x0F)) false [] payload
unfolding build_ws_frame length_field
build_ws_frame-on_wire opcode payload = elim (Bool-cases (ltb (length payload) 126)) [
  | inl e ↦ rw (e, add-zero)
  | inr e ↦ elim (Bool-cases (leb (length payload) 0xFFFF)) [
    | inl e' ↦ rw (e, e')
    | inr e' ↦ rw (e, e')
  ]
]

-- A frame that `build_ws_frame` makes is taken back whole: final, with its opcode and its payload, and
-- the input behind it is left as it was.
pub take_frame-build_ws_frame :
    (opcode : ℕ) (payload rest : Bytes)
    → opcode < 16
    → 14 + length payload < 2 ^ 64
    → take_frame (build_ws_frame opcode payload ++ rest)
      ≡ taken (record { fin = true; opcode = opcode; payload = payload }) rest
take_frame-build_ws_frame opcode payload rest small fits =
    let t = read_table _ 16 opcode first_table small in
    let final : (bit_and (bit_or 0x80 (bit_and opcode 0x0F)) 0x80 == 0) ≡ false =
      ground (arith, t) in
    let same : bit_and (bit_or 0x80 (bit_and opcode 0x0F)) 0x0F ≡ opcode = ground (arith, t) in
    rw build_ws_frame-on_wire
      (take_frame-on_wire _ false [] payload rest refl fits ∙ rw (final, same))
