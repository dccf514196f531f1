-- ===== src/Websockets.antt =====
-- src/websockets.cpp: frames, the frame loop of a client, and the assembly of fragmented messages.
pub mod Frames
pub mod Client
pub mod Handshake
pub mod Schedule
pub mod Delivery
pub mod Serving
