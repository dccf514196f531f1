-- ===== src/Tests/Whole.antt =====
-- Whole requests in src/fastcgi.cpp and src/fcgi-connection.cpp.
use wasapi.Base.{ℕ, ◌≡◌, refl, true, false, none, some, List, [], ◌∷◌, codes, arith}
use wasapi.Memory.{create_arenas}
use wasapi.Request.{Request, no_flags, new_request}
use wasapi.Fastcgi.Records.{stdin}
use wasapi.Fastcgi.Process.{State, ok, process_buffer, lookup, insert}
use wasapi.Fastcgi.Process.Whole.{
  Sent, IsSendable, record_bytes, sent_bytes, meant, pairs_bytes, parts_size, pairs_size, body_of,
  length_bytes,
}
use wasapi.Fastcgi.Process.Whole.Records.{IsFresh}
use wasapi.Fastcgi.Process.Whole.Received.{process_buffer-sent_bytes}
use wasapi.Fastcgi.Process.Others.{Packet, packets_bytes, process_buffer-others}
use wasapi.Connection.Requests.{Reached, callbacks}
use wasapi.Connection.Twice.{IsUnanswered, process_buffer-again}
use wasapi.Tests.Connection.{settings}
use wasapi.Tests.Fastcgi.{limits, calls, empty}

-- Two variables in two records, and a body in two records, one of them padded.
abbrev post : Sent
post = record {
  keep = true;
  begin_padding = [];
  parts = ((codes "A", codes "1") ∷ [], 0 ∷ 0 ∷ []) ∷ ((codes "B", []) ∷ [], []) ∷ [];
  params_padding = [];
  chunks = (codes "he", []) ∷ (codes "llo", 0 ∷ []) ∷ [];
  body_padding = [];
}

post-IsSendable : IsSendable limits 7 post
unfolding pairs_bytes length_bytes parts_size pairs_size body_of
post-IsSendable = record {
  small_id = omega arith;
  begin_padded = omega arith;
  parts_small = omega arith;
  params_padded = omega arith;
  chunks_small = omega arith;
  body_padded = omega arith;
  params_fit = omega arith;
  body_fits = omega arith;
}

abbrev new : Request
new = record (new_request 0 0 0) { id = 7 }

new-IsFresh : IsFresh new
unfolding new_request
new-IsFresh = record { unmarked = refl; no_params = refl; no_body = refl }

-- The body of the request that arrives, and how the pairs stand in the environment.
post_run : (meant post new).body ≡ codes "hello"
unfolding meant new_request
post_run = refl

absent : lookup 7 empty.requests ≡ none
unfolding lookup
absent = refl

process_buffer-sent_bytes_example : process_buffer limits calls (sent_bytes 7 post) empty ≡ record {
  status = ok;
  in_buf = [];
  state = record { requests = insert 7 (meant post new) []; out_buf = []; outside = 0 };
  waiting = false;
}
process_buffer-sent_bytes_example =
    process_buffer-sent_bytes limits calls 7 post empty new 0 post-IsSendable absent refl
      new-IsFresh

-- An abort of request 8, and a record of no known type.
abbrev packets : List Packet
packets =
    record { kind = 2; id = 8; content = []; padding = [] }
    ∷ record { kind = 77; id = 9; content = codes "x"; padding = 0 ∷ [] }
    ∷ []

abbrev with_seven : State ℕ
with_seven = record { requests = (7, new) ∷ []; out_buf = []; outside = 1 }

process_buffer-others_example :
    lookup 7 (process_buffer limits calls (packets_bytes packets) with_seven).state.requests
    ≡ lookup 7 with_seven.requests
process_buffer-others_example = process_buffer-others limits calls 7 packets with_seven (
  ((λ e. omega arith), omega arith, omega arith),
  (((λ e. omega arith), omega arith, omega arith), tt),
)

-- A request of connection 5 that is whole.
abbrev waiting : Request
waiting = record new {
  conn_ptr = some 5;
  flags = record no_flags { params_complete = true; input_complete = true };
}

abbrev with_waiting : State Reached
with_waiting = record {
  requests = (7, waiting) ∷ [];
  out_buf = [];
  outside = record { manager = create_arenas 1 1024; active_workers = 1; queued = (5, 7) ∷ [] };
}

there : lookup 7 with_waiting.requests ≡ some waiting
unfolding lookup
there = refl

waiting-IsUnanswered : IsUnanswered 5 7 waiting
waiting-IsUnanswered = record {
  named = refl;
  here = refl;
  alive = refl;
  unanswered = refl;
  params_there = refl;
  input_there = refl;
}

process_buffer-again_example :
    (process_buffer settings.limits
      (callbacks settings 5)
      (record_bytes stdin 7 [] [] [])
      with_waiting).state.outside
    ≡ record (with_waiting.outside) { active_workers = 2; queued = (5, 7) ∷ (5, 7) ∷ [] }
process_buffer-again_example =
    process_buffer-again settings 5 7 [] with_waiting waiting (omega arith) there
      waiting-IsUnanswered
