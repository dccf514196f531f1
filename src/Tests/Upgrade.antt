-- ===== src/Tests/Upgrade.antt =====
-- Concrete runs of the plain HTTP part of src/websockets.cpp.
use wasapi.Base.{ℕ, ◌≡◌, refl, [], ◌∷◌, ◌++◌, Bytes, codes, arith, ◌-◌}
use wasapi.Dynamic.{object, end}
use wasapi.Http.Text.{find_text}
use wasapi.Websockets.Handshake.{receive, parse_http_headers, length_loop}
use wasapi.Websockets.Handshake.Plain.{fresh, IsRequest, receive_split}
use wasapi.Websockets.Schedule.{put_request_line}
use wasapi.Websockets.Schedule.Target.{IsRead, put_request_line-IsRead}

-- The stand-ins for SHA-1 and `strtoull`.
abbrev sha1 : Bytes → Bytes
sha1 s = []

abbrev decimal : Bytes → ℕ
decimal [] = 0
decimal (c ∷ s) = c - 48

abbrev text : Bytes
text = codes "POST / HTTP/1.1\r\nContent-Length: 3\r\n\r\nabc"

abbrev half : Bytes
half = codes "POST / HTTP/1.1\r\nContent-Length: 3\r\n\r\na"

text-IsRequest : IsRequest sha1 decimal text 34 3
unfolding find_text parse_http_headers length_loop
text-IsRequest = record { ended = refl; plain = refl; declared = λ fallback. refl }

half-IsRequest : IsRequest sha1 decimal half 34 3
unfolding find_text parse_http_headers length_loop
half-IsRequest = record { ended = refl; plain = refl; declared = λ fallback. refl }

receive_split_example :
    (receive sha1 decimal (receive sha1 decimal fresh half) (codes "bc")).scheduled
    ≡ (half ++ codes "abc", codes "aab") ∷ []
receive_split_example =
    receive_split sha1 decimal half (codes "bc") 34 3 half-IsRequest (omega arith) refl

put_request_line-IsRead_example :
    IsRead
      (put_request_line (codes "/ws") (codes "GET /ws/chat?room=1 HTTP/1.1") (object end))
      (codes "GET")
      (codes "/chat?room=1")
      (codes "/chat")
      (codes "room=1")
put_request_line-IsRead_example =
    put_request_line-IsRead b'/' (codes "ws") (codes "GET") b'/' (codes "chat") (codes "room=1")
      (codes "HTTP/1.1") (object end) (ground arith) (ground arith) (ground arith) (ground arith)
