-- ===== src/Lib.antt =====
-- A verification library for the wasapi server: a FastCGI and WebSocket application server whose
-- requests live in pooled arenas.
--
-- Bytes from a web server's connection go through `process_buffer` (src/fastcgi.cpp), which cuts
-- them into FastCGI records, keeps one request per request id, and calls back when a request's
-- input is complete. A worker of the pool in src/worker.cpp then runs the handler,
-- `on_request_ready` of src/wasapi-server.cpp, whose output goes out as FastCGI records. WebSocket
-- and plain HTTP clients are served by src/websockets.cpp, which reads and writes WebSocket
-- frames, assembles fragmented messages, and turns the records of a handler's output back into
-- text. Each request takes one arena of the manager in src/memory.cpp.
--
-- - Base: the shared names, lists over the native numbers, byte strings, checks of a test on all
--   small numbers, and masks that clear low bits (Masks).
-- - Http/Url: src/http.cpp, `url_decode` and `url_encode`.
-- - Http/Base64: `base64_encode` of src/http.cpp, with a decoder in Http/Base64/RoundTrip.
-- - Http/Query, Http/Text, Http/Cookies, Http/Multipart, Http/Forms: the rest of src/http.cpp:
--   query strings, trimming and searching, the cookie header, multipart bodies, and the choice by
--   content type with `output_headers`.
-- - Json: the JSON reader and printer of src/dynamic_variable.cpp; Json/Strings is about strings,
--   Json/Values about the reader of values, Json/Print about `to_json`, Json/Dump about `print_r`
--   and `print_any_limited`. Json/RoundTrip is about writing and reading back: how numbers are
--   passed (Scan), the text without line breaks (Compact), and the values that are kept (Plain).
-- - Session: src/session.cpp; Session/Identity is about the session id, Session/Store about saving
--   and loading.
-- - FileCache: the cached reading and writing of files in src/fileio.cpp; FileCache/Count is about
--   the counted size of its entries, FileCache/Valid about the calls. FileCache/Threads has the
--   moves of threads that use it at once, Threads/Limit the counted size under any interleaving.
-- - Config: `load_kv_file` of src/config.cpp and `parse_endpoint_file` of src/http.cpp.
-- - Config/Args: `GlobalConfig` of src/config.h and `config_parse_args` of src/config.cpp.
-- - Memory: src/memory.h and src/memory.cpp, the arena manager. Memory/Pool is about `get`,
--   Memory/Release about `release`, Memory/Block about the blocks of `alloc`, Memory/Kept about a
--   manager that stays whole under all of them.
-- - Logger: src/logger.h; Logger/Lines is about the lines that calls write.
-- - Dynamic: src/dynamic_variable.h and .cpp, the dynamic value; Dynamic/Lookup is about
--   assignment and search. Dynamic/Storage is the union behind the value with the functions that
--   construct, clear and assign it, Storage/Safety about what stays alive in it.
-- - Request: src/request.h and src/request.cpp.
-- - Fastcgi/Records: the record writers of src/fastcgi.cpp and the reader of stdout records in
--   src/websockets.cpp; Fastcgi/Records/Adapter is about the two together.
-- - Fastcgi/Process: `process_buffer` of src/fastcgi.cpp. Its children are about one round of the
--   loop and its fuel (Front), input that comes in pieces (Chunks), the configured limits (Bounds),
--   the early return when no arena is free (Retry), how a call ends (Ends), what the callbacks keep
--   (Outside), a whole request from a web server (Whole: its bytes and what they mean, with
--   Whole/Pairs on the pairs, Whole/Records on one record and Whole/Received on all of them), and
--   the requests that a record is not about (Others).
-- - Websockets/Frames: `build_ws_frame` and the reading of a frame in src/websockets.cpp, with the
--   layout of the header (Wire), the masks (Masks) and the round trips (RoundTrip).
-- - Websockets/Client: what a client does with its frames; Client/Assembly is about fragmented
--   messages, Client/Stream about the whole loop.
-- - Websockets/Handshake: what src/websockets.cpp does before the first frame, the upgrade and
--   plain HTTP; Handshake/Plain is about the bytes behind a plain request.
-- - Websockets/Schedule: the requests of `schedule_message` and `schedule_http`; Schedule/Target
--   is about the request line.
-- - Websockets/Delivery: how output reaches the clients of src/websockets.cpp, with
--   Delivery/Frames on the frames that wait for a client and Delivery/Arenas on the arenas of
--   requests.
-- - Websockets/Serving: the listening sockets of src/websockets.cpp and its `serve`, one event at
--   a time; Serving/Steps is about the steps of the loop, Serving/Descriptors about what is open
--   from start to end.
-- - Connection: the state of src/fcgi-connection.cpp. Connection/Output is about sending, with
--   Output/Sent on the bytes sent; Connection/Requests about arenas, the waiting queue and clean-up;
--   Connection/Ready about a worker's part and the output; Connection/Events about the handlers of
--   the loop, with Events/Closing on how connections end; Connection/Arenas about the arenas under
--   every handler, with Arenas/Freed on those that a closed connection gives back; Connection/Run
--   about `create_listen_socket`, `run` and `serve`, with Run/Descriptors on what they leave open
--   and Run/Arenas on the table of the arenas over the whole loop; Connection/Twice about a request
--   whose input ends twice.
-- - Worker: src/worker.cpp as a step relation; Worker/Order is about the order of tasks,
--   Worker/Drain about stopping and sleeping.
-- - Server: `on_request_ready` of src/wasapi-server.cpp, with Server/Answer on what it answers,
--   and `main` (Server/Main), which makes the arenas and the workers that the servers run with.
-- - Tests: runs on concrete inputs.
--
-- A byte string is a list of numbers; the theorems that need them below 256 say so. The request
-- table is an association list, and a request's flags word is a record of Booleans. The callbacks
-- `allocate_request` and `on_request_ready`, and what the C++ library does with floating point,
-- are parameters, and so are the file system, the clocks and the random numbers. A 64-bit sum that
-- can wrap is written with `% 2 ^ 64`.
--
-- The loops on buffers run on fuel, the length of the buffer: each round removes at least the
-- header's bytes, so that the fuel does not run out.
--
-- In the JSON reader the fuel bounds the nesting and the number of elements by the length of the
-- text; in the file cache it is the number of entries.
--
-- In the worker pool a step is what a thread does under the mutex, and `enqueue`, which does not
-- take it, is three steps. The event loop of the FastCGI server is a recursion on the list of what
-- `epoll_wait` gives; what `accept`, `recv` and `send` give is an argument too, so that every
-- behaviour of the sockets is covered, and the calls of `close` and `unlink` are recorded in
-- order. The task of a worker runs as one step between two waits. The loop of the WebSocket server
-- is a step relation: accepting, a frame that a task leaves, the delivery of the frames, and a
-- client's event.
--
-- Not modelled: data races below the steps named above; the calls on the descriptors of
-- connections inside `run` (Connection/Run lists those of its own descriptors, and the state of
-- the loop those of `close`); an arena whose `malloc` fails (Memory takes `malloc` to succeed);
-- `DynamicString`, which nothing uses; the usage text, the thread names and the signal handlers of
-- src/wasapi-server.cpp, which print or call the system; the build and test scripts.
pub mod Base
pub mod Http
pub mod Session
pub mod Config
pub mod Logger
pub mod Memory
pub mod FileCache
pub mod Dynamic
pub mod Json
pub mod Request
pub mod Fastcgi
pub mod Websockets
pub mod Connection
mod Tests
pub mod Worker
pub mod Server
