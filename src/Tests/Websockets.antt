-- ===== src/Tests/Websockets.antt =====
-- Concrete runs of src/websockets.cpp.
use wasapi.Base.{
  ◌+◌, ◌-◌, ◌^◌, ◌≤◌, ◌≡◌, ◌↔◌, refl, inl, true, false, some, List, [], ◌∷◌, ◌++◌, Bytes, All,
  codes, if◌then◌else◌, arith,
}
use wasapi.Websockets.Frames.{
  FrameHeader, build_ws_frame, read_frame_header, take_frame, fault, to_be64,
}
use wasapi.Websockets.Client.{Client, running, crashed, process_frames}
use wasapi.Websockets.Client.Assembly.{last, ping, frame, on_frames, delivered, on_frames-fragments}
use wasapi.Websockets.Client.Stream.{
  Sent, IsSendable, stream, all_meant, process_frames-stream, take_frame-fault_iff,
}

abbrev fresh : Client
fresh = record {
  closed = false;
  assembling = false;
  assemble_opcode = 0;
  assemble_data = [];
  out_buf = [];
  sent = [];
}

abbrev key : Bytes
key = 1 ∷ 2 ∷ 3 ∷ 4 ∷ []

-- A text message in two fragments with a ping between them.
abbrev two_fragments : List Sent
two_fragments =
    record { first = 0x01; mask = key; payload = codes "ab" }
    ∷ record { first = 0x89; mask = key; payload = [] }
    ∷ record { first = 0x80; mask = key; payload = codes "c" }
    ∷ []

sendable : All IsSendable two_fragments
sendable = omega arith

process_frames-stream_example :
    process_frames (stream two_fragments) fresh
    ≡ running (on_frames fresh (all_meant two_fragments)) []
process_frames-stream_example = process_frames-stream two_fragments fresh sendable

on_frames-fragments_example :
    on_frames fresh (frame false 1 (codes "ab") ∷ frame true 9 [] ∷ frame true 0 (codes "c") ∷ [])
    ≡ delivered fresh 1 (codes "abc") (build_ws_frame 0xA [] ++ [])
on_frames-fragments_example =
    on_frames-fragments fresh 1 (codes "ab") (codes "c") (build_ws_frame 0xA [] ++ [])
      (frame true 9 [] ∷ frame true 0 (codes "c") ∷ []) (inl refl) (ping true [] (last (codes "c")))

-- A frame of 2^64 - 10 bytes.
abbrev huge : Bytes
huge = 0x81 ∷ 0x7F ∷ to_be64 (2 ^ 64 - 10) ++ (0 ∷ 0 ∷ 0 ∷ 0 ∷ [])

abbrev huge_header : FrameHeader
huge_header = record {
  fin = true;
  opcode = 1;
  masked = false;
  payload_len = 2 ^ 64 - 10;
  header_len = 10;
}

huge_header_run : read_frame_header huge ≡ some huge_header
unfolding read_frame_header
huge_header_run = refl

take_frame-fault_iff_example : (take_frame huge ≡ fault) ↔ (
    2 ^ 64
    ≤ huge_header.header_len + (if huge_header.masked then 4 else 0) + huge_header.payload_len)
take_frame-fault_iff_example =
    take_frame-fault_iff huge huge_header (omega arith) huge_header_run (omega arith) (omega arith)

huge_crashes : process_frames huge fresh ≡ crashed
unfolding process_frames take_frame
huge_crashes = refl

continuation_without_start :
    process_frames (0x80 ∷ 0 ∷ []) fresh ≡ running (record fresh { closed = true }) []
unfolding process_frames take_frame
continuation_without_start = refl
