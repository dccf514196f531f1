-- ===== src/Websockets/Client.antt =====
-- src/websockets.cpp: what `serve` does with the frames of a client whose handshake is done.
-- `sent` lists the calls of `schedule_message`, in order, with opcode and data. `closed` is only
-- noted: the loop goes on to the end of the input.
pub mod Assembly
pub mod Stream
use wasapi.Base.{
  ℕ, zero, suc, Bool, true, false, ◌||◌, List, [], ◌∷◌, ◌++◌, Bytes, length, ◌==◌, if◌then◌else◌,
}
use wasapi.Websockets.Frames.{Frame, build_ws_frame, take_frame, incomplete, fault, taken}

pub record Client : Type 0 where
  pub closed : Bool
  pub assembling : Bool
  pub assemble_opcode : ℕ
  pub assemble_data : Bytes
  pub out_buf : Bytes
  pub sent : List (ℕ × Bytes)

-- A first frame, text or binary: what was being assembled is dropped.
unfoldable pub on_message : Client → Frame → Client
on_message c f =
    if f.fin
    then record c {
      assembling = false;
      assemble_data = if c.assembling then [] else c.assemble_data;
      sent = c.sent ++ (f.opcode, f.payload) ∷ [];
    }
    else record c { assembling = true; assemble_opcode = f.opcode; assemble_data = f.payload }

unfoldable pub on_continuation : Client → Frame → Client
on_continuation c f =
    if c.assembling
    then (if f.fin
        then record c {
          assembling = false;
          assemble_data = [];
          sent = c.sent ++ (c.assemble_opcode, c.assemble_data ++ f.payload) ∷ [];
        }
        else record c { assemble_data = c.assemble_data ++ f.payload })
    else record c { closed = true }

-- The dispatch on the opcode: close, ping, pong, message, continuation; others are passed over.
unfoldable pub on_frame : Client → Frame → Client
unfolding on_message on_continuation
on_frame c f =
    if f.opcode == 0x8
    then record c { closed = true }
    else if f.opcode == 0x9
    then record c { out_buf = c.out_buf ++ build_ws_frame 0xA f.payload }
    else if f.opcode == 0xA
    then c
    else if f.opcode == 0x1 || f.opcode == 0x2
    then on_message c f
    else if f.opcode == 0x0
    then on_continuation c f
    else c

-- The client with what is left of its input; `crashed` is a read outside of `in_buf`.
pub data Outcome : Type 0 where
  running : Client → Bytes → Outcome
  crashed : Outcome

-- The frame loop. Each round takes two bytes at least, so `length in_buf` rounds are enough.
unfoldable pub frame_loop : ℕ → Bytes → Client → Outcome
unfolding on_frame
frame_loop zero in_buf c = running c in_buf
frame_loop (suc fuel) in_buf c = elim (take_frame in_buf) [
  | incomplete ↦ running c in_buf
  | fault ↦ crashed
  | taken f rest ↦ frame_loop fuel rest (on_frame c f)
]

unfoldable pub process_frames : Bytes → Client → Outcome
unfolding frame_loop
process_frames in_buf c = frame_loop (length in_buf) in_buf c
