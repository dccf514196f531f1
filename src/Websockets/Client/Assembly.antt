-- ===== src/Websockets/Client/Assembly.antt =====
-- Fragmented messages: every fragment once, in order, also with control frames between them.
use wasapi.Base.{
  ℕ, ◌≡◌, refl, ◌⊎◌, Bool, true, false, List, [], ◌∷◌, ◌++◌, append-nil, append_assoc, Bytes, arith,
}
use wasapi.Websockets.Frames.{Frame, build_ws_frame}
use wasapi.Websockets.Client.{Client, on_frame}

-- A run of frames, one after the other.
unfoldable pub on_frames : Client → List Frame → Client
on_frames c [] = c
on_frames c (f ∷ fs) = on_frames (on_frame c f) fs

abbrev pub frame : Bool → ℕ → Bytes → Frame
frame fin opcode payload = record { fin = fin; opcode = opcode; payload = payload }

-- Frames that continue a message by the bytes `rest` to its end, with pings and pongs between them;
-- `pongs` is what the server answers on the way.
pub data Continues : List Frame → Bytes → Bytes → Type 0 where
  last : (p : Bytes) → Continues (frame true 0x0 p ∷ []) p []
  more :
      (p : Bytes) {fs : List Frame} {rest pongs : Bytes}
      → Continues fs rest pongs
      → Continues (frame false 0x0 p ∷ fs) (p ++ rest) pongs
  ping :
      (fin : Bool) (p : Bytes) {fs : List Frame} {rest pongs : Bytes}
      → Continues fs rest pongs
      → Continues (frame fin 0x9 p ∷ fs) rest (build_ws_frame 0xA p ++ pongs)
  pong :
      (fin : Bool) (p : Bytes) {fs : List Frame} {rest pongs : Bytes}
      → Continues fs rest pongs
      → Continues (frame fin 0xA p ∷ fs) rest pongs

-- The client once a message is complete.
abbrev pub delivered : Client → ℕ → Bytes → Bytes → Client
delivered c opcode message pongs = record c {
  assembling = false;
  assemble_opcode = opcode;
  assemble_data = [];
  out_buf = c.out_buf ++ pongs;
  sent = c.sent ++ (opcode, message) ∷ [];
}

on_first :
    (c : Client) (opcode : ℕ) (p : Bytes)
    → (opcode ≡ 0x1) ⊎ (opcode ≡ 0x2)
    → on_frame c (frame false opcode p)
      ≡ record c { assembling = true; assemble_opcode = opcode; assemble_data = p }
unfolding on_frame
on_first c opcode p kind = ground arith

on_last :
    (c : Client) (p : Bytes)
    → c.assembling ≡ true
    → on_frame c (frame true 0x0 p) ≡ delivered c c.assemble_opcode (c.assemble_data ++ p) []
unfolding on_frame
on_last c p a = ground (arith, append-nil c.out_buf)

on_more :
    (c : Client) (p : Bytes)
    → c.assembling ≡ true
    → on_frame c (frame false 0x0 p) ≡ record c { assemble_data = c.assemble_data ++ p }
unfolding on_frame
on_more c p a = ground arith

on_ping :
    (c : Client) (fin : Bool) (p : Bytes)
    → on_frame c (frame fin 0x9 p) ≡ record c { out_buf = c.out_buf ++ build_ws_frame 0xA p }
unfolding on_frame
on_ping c fin p = refl

on_pong : (c : Client) (fin : Bool) (p : Bytes) → on_frame c (frame fin 0xA p) ≡ c
unfolding on_frame
on_pong c fin p = refl

continued :
    (c : Client) (fs : List Frame) (rest pongs : Bytes)
    → Continues fs rest pongs
    → c.assembling ≡ true
    → on_frames c fs ≡ delivered c c.assemble_opcode (c.assemble_data ++ rest) pongs
unfolding on_frames
continued c fs rest pongs (last p) a = on_last c p a
continued c fs rest pongs (more p k) a =
    let c' = record c { assemble_data = c.assemble_data ++ p } in
    rw (on_more c p a, ← append_assoc) (continued c' _ _ pongs k a)
continued c fs rest pongs (ping fin p k) a =
    let c' = record c { out_buf = c.out_buf ++ build_ws_frame 0xA p } in
    rw (on_ping c fin p, ← append_assoc) (continued c' _ rest _ k a)
continued c fs rest pongs (pong fin p k) a = rw (on_pong c fin p) (continued c _ rest pongs k a)

-- A message sent in fragments, with pings and pongs between them, is scheduled once, under the opcode
-- of its first fragment and with the data of all fragments in order; each ping is answered in order.
-- An unfinished message before it is dropped.
pub on_frames-fragments :
    (c : Client) (opcode : ℕ) (first rest pongs : Bytes) (fs : List Frame)
    → (opcode ≡ 0x1) ⊎ (opcode ≡ 0x2)
    → Continues fs rest pongs
    → on_frames c (frame false opcode first ∷ fs) ≡ delivered c opcode (first ++ rest) pongs
unfolding on_frames
on_frames-fragments c opcode first rest pongs fs kind k =
    let c' = record c { assembling = true; assemble_opcode = opcode; assemble_data = first } in
    rw (on_first c opcode first kind) (continued c' fs rest pongs k refl)
