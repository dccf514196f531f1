-- ===== src/Tests/Fastcgi.antt =====
-- Concrete runs of src/fastcgi.cpp.
use wasapi.Base.{
  ℕ, zero, suc, ◌≡◌, refl, true, false, Option, none, some, [], ◌∷◌, ◌++◌, Bytes, codes, length,
  arith,
}
use mathlib.Core.Option
use wasapi.Request.{Request, new_request}
use wasapi.Fastcgi.Records.{
  append_record, append_stdout_text, append_end_request, decode_stdout, begin_request, stdin,
}
use wasapi.Fastcgi.Records.Adapter.{decode_stdout-append_stdout_text}
use wasapi.Fastcgi.Process.{Limits, Callbacks, State, ok, process_buffer, lookup, is_ready}
use wasapi.Fastcgi.Process.Ends.{Ends, process_buffer-Ends}
use wasapi.Fastcgi.Process.Chunks.{process_buffer-append}
use wasapi.Fastcgi.Process.Bounds.{IsBounded, KeepsBounds, AllBounded, process_buffer-AllBounded}
use wasapi.Fastcgi.Process.Retry.{fed, body_applied_not_consumed}

abbrev pub limits : Limits
limits = record { max_params_bytes = 100; max_stdin_bytes = 100 }

-- As many requests as the number says.
abbrev allocate : ℕ → ℕ → Option (Request × ℕ)
allocate zero id = none
allocate (suc n) id = some (record (new_request 0 0 0) { id = id }, n)

abbrev pub calls : Callbacks ℕ
calls = record { allocate_request = allocate; on_request_ready = λ s r. (r, s) }

abbrev pub empty : State ℕ
empty = record { requests = []; out_buf = []; outside = 1 }

-- The start of request 7, which asks to keep the connection.
abbrev start_content : Bytes
start_content = 0 ∷ 1 ∷ 1 ∷ 0 ∷ 0 ∷ 0 ∷ 0 ∷ 0 ∷ []

abbrev begun : Bytes
begun = append_record [] begin_request 7 start_content 8

abbrev body : Bytes
body = append_record [] stdin 7 (codes "abc") 3

-- A read that ends inside the body record.
abbrev first_read : Bytes
first_read = begun ++ (1 ∷ 5 ∷ 0 ∷ [])

abbrev second_read : Bytes
second_read = 7 ∷ 0 ∷ 3 ∷ 0 ∷ 0 ∷ codes "abc"

abbrev after_first : State ℕ
after_first = (process_buffer limits calls first_read empty).state

first_read_run :
    process_buffer limits calls first_read empty
    ≡ record { status = ok; in_buf = 1 ∷ 5 ∷ 0 ∷ []; state = after_first; waiting = false }
unfolding process_buffer append_record
first_read_run = refl

second_read_run :
    (process_buffer limits calls ((1 ∷ 5 ∷ 0 ∷ []) ++ second_read) after_first).waiting ≡ false
unfolding process_buffer append_record new_request
second_read_run = refl

process_buffer-append_example :
    process_buffer limits calls (first_read ++ second_read) empty
    ≡ process_buffer limits calls ((1 ∷ 5 ∷ 0 ∷ []) ++ second_read) after_first
process_buffer-append_example =
    process_buffer-append limits calls first_read second_read (1 ∷ 5 ∷ 0 ∷ []) empty after_first
      first_read_run second_read_run

process_buffer-Ends_example : Ends first_read (process_buffer limits calls first_read empty)
process_buffer-Ends_example = process_buffer-Ends limits calls first_read empty

allocated : (s s' id : ℕ) (r : Request) → allocate s id ≡ some (r, s') → IsBounded limits r
unfolding new_request
allocated zero s' id r e = absurd (ground arith)
allocated (suc s) s' id r e = ground arith

keeps : KeepsBounds limits calls
keeps = record { allocates = allocated; readies = λ s r b. b }

process_buffer-AllBounded_example :
    AllBounded limits (process_buffer limits calls first_read empty).state.requests
process_buffer-AllBounded_example = process_buffer-AllBounded limits calls keeps first_read empty tt

decode_stdout-append_stdout_text_example :
    let out = append_end_request (append_stdout_text [] 7 (codes "hello")) 7 0 0 in
    decode_stdout (length out) out [] ≡ codes "hello"
decode_stdout-append_stdout_text_example = decode_stdout-append_stdout_text (codes "hello") 7 0 0

-- Request 7 runs, and no arena is left for request 8.
abbrev running : Request
running = record (new_request 0 0 0) { id = 7 }

abbrev full : State ℕ
full = record { requests = (7, running) ∷ []; out_buf = []; outside = 0 }

abbrev body_then_start : Bytes
body_then_start =
    append_record (append_record [] stdin 7 (codes "abc") 3) begin_request 8 start_content 8

body_applied_not_consumed_example :
    let p = process_buffer limits calls body_then_start full in
    let again = process_buffer limits calls p.in_buf p.state in
    (p.waiting ≡ true)
    × (p.in_buf ≡ body_then_start)
    × (lookup 7 p.state.requests ≡ some (fed running (codes "abc")))
    × (p.state.out_buf ≡ [])
    × (p.state.outside ≡ 0)
    × (again.waiting ≡ true)
    × (again.in_buf ≡ body_then_start)
    × (lookup 7 again.state.requests ≡ some (fed (fed running (codes "abc")) (codes "abc")))
unfolding lookup is_ready new_request
body_applied_not_consumed_example =
    body_applied_not_consumed limits calls full 7 8 running (codes "abc") start_content
      (omega arith) (omega arith) (omega arith) (omega arith) refl refl refl refl (omega arith) refl
      refl

-- The retry on the same input, with an arena free by now: the body is there twice.
body_twice :
    Option.map
      (λ (r : Request). r.body)
      (lookup 7
        (process_buffer limits calls body_then_start
          (record (process_buffer limits calls body_then_start full).state {
            outside = 1;
          })).state.requests)
    ≡ some (codes "abcabc")
unfolding process_buffer append_record new_request
body_twice = refl
