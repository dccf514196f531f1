-- ===== src/Fastcgi/Process/Retry.antt =====
-- What `process_buffer` hands back when it waits for an arena: the whole input, also the records that
-- it has already applied.
use wasapi.Base.{
  ℕ, zero, suc, ◌+◌, ◌≤◌, ◌<◌, ◌≡◌, refl, sym, ap, ◌∙◌, subst, true, false, none, some, List, [],
  ◌∷◌, ◌++◌, append-nil, Bytes, length, take, drop, length-append, take-append, drop-append,
  take-length, arith, ◌==◌, if◌then◌else◌,
}
use wasapi.Request.{Request}
use wasapi.Fastcgi.Records.{Header, read_header, header_bytes, append_record, begin_request, stdin}
use wasapi.Fastcgi.Process.{
  Limits, Callbacks, State, Processed, ok, Handled, waits, goes, handle, on_stdin, lookup, insert,
  is_ready, current_req, settle, with_request, with_new_request, process_loop, process_buffer,
}
use wasapi.Fastcgi.Process.Front.{
  IsWhole, behind, handled, Front, short, foreign, partial, stuck, whole, front, loop_short,
  loop_partial, loop_foreign, loop_stuck, loop_whole, loop_fuel,
}

-- The header in front of a record that the server wrote.
abbrev pub header : ℕ → ℕ → ℕ → Header
header kind id len = record {
  version = 1;
  type = kind;
  request_id = id;
  content_length = len;
  padding_length = 0;
}

abbrev bytes_of : ℕ → ℕ → Bytes → Bytes → Bytes
bytes_of kind id c rest = header_bytes kind id (length c) ++ c ++ rest

module _ (kind id : ℕ) (c rest : Bytes) (small_id : id < 65536) (small : length c < 65536) where
  pub front-header : read_header (bytes_of kind id c rest) ≡ header kind id (length c)
  unfolding read_header
  front-header = ground arith

  pub front-IsWhole : IsWhole (bytes_of kind id c rest)
  front-IsWhole =
      rw front-header
        (omega (arith, length-append c rest), refl, omega (arith, length-append c rest))

  pub front-content : take (length c) (drop 8 (bytes_of kind id c rest)) ≡ c
  front-content = take-append c rest

  pub front-behind : behind (bytes_of kind id c rest) ≡ rest
  front-behind =
      let m : 8 + length c + 0 ≡ suc (suc (suc (suc (suc (suc (suc (suc (length c)))))))) =
        omega arith in
      rw (front-header, m) (drop-append c rest)

-- The request with a body record applied.
abbrev pub fed : Request → Bytes → Request
fed r c = record r { body = r.body ++ c; body_bytes = r.body_bytes + length c }

lookup-insert :
    (id j : ℕ) (r : Request) (rs : List (ℕ × Request))
    → lookup j (insert id r rs) ≡ (if id == j then some r else lookup j rs)
unfolding lookup insert
lookup-insert id j r [] = refl
lookup-insert id j r ((k, q) ∷ rs) = ground (arith, lookup-insert id j r rs)

module _ {S : Type 0} (limits : Limits) (calls : Callbacks S) where
  handle-stdin :
      (st : State S) (id : ℕ) (r : Request) (c : Bytes)
      → lookup id st.requests ≡ some r
      → 0 < length c
      → r.flags.failed ≡ false
      → is_ready r.flags ≡ false
      → r.body_bytes + length c ≤ limits.max_stdin_bytes
      → handle limits calls st (header stdin id (length c)) c
        ≡ goes (record st { requests = insert id (fed r c) st.requests })
  unfolding handle with_request current_req settle on_stdin
  handle-stdin st id r c there pos alive unready fits = ground (arith, there)

  handle_begin :
      (st : State S) (id : ℕ) (c : Bytes)
      → lookup id st.requests ≡ none
      → calls.allocate_request st.outside id ≡ none
      → length c ≡ 8
      → handle limits calls st (header begin_request id (length c)) c ≡ waits
  unfolding handle with_new_request current_req
  handle_begin st id c absent full eight = ground (arith, absent, full)

  loop_waits :
      (f : ℕ) (w rest : Bytes) (st : State S)
      → (process_loop limits calls f w rest st).waiting ≡ true
      → (process_loop limits calls f w rest st).in_buf ≡ w
  loop_waits zero w rest st h = absurd (unfold process_loop in cc h)
  loop_waits (suc f) w rest st h = go (front limits calls rest st) (loop_waits f w (behind rest))
    where
      go :
          Front limits calls rest st
          → ((st' : State S)
              → (process_loop limits calls f w (behind rest) st').waiting ≡ true
              → (process_loop limits calls f w (behind rest) st').in_buf ≡ w)
          → (process_loop limits calls (suc f) w rest st).in_buf ≡ w
      go (short x) ih = absurd (
          cc (h, ap (λ (r : Processed S). r.waiting) (loop_short limits calls (suc f) w rest st x)))
      go (foreign x n) ih =
          absurd (
            cc (h, ap (λ (r : Processed S). r.waiting) (loop_foreign limits calls f w rest st x n)))
      go (partial x v t) ih = absurd (
          cc (
            h,
            ap (λ (r : Processed S). r.waiting) (loop_partial limits calls (suc f) w rest st x v t),
          ))
      go (stuck x e) ih =
          ap (λ (r : Processed S). r.in_buf) (loop_stuck limits calls f w rest st x e)
      go (whole x st' e) ih =
          let p = loop_whole limits calls f w rest st st' x e in
          ap (λ (r : Processed S). r.in_buf) p
          ∙ ih st' (sym (ap (λ (r : Processed S). r.waiting) p) ∙ h)

  -- Whenever `process_buffer` waits, it hands back all of its input.
  process_buffer-waits :
      (in_buf : Bytes) (st : State S)
      → (process_buffer limits calls in_buf st).waiting ≡ true
      → (process_buffer limits calls in_buf st).in_buf ≡ in_buf
  unfolding process_buffer
  process_buffer-waits in_buf st h = loop_waits (length in_buf) in_buf in_buf st h

  handled-Front :
      (st : State S) (kind id : ℕ) (c rest : Bytes) (o : Handled S)
      → id < 65536
      → length c < 65536
      → handle limits calls st (header kind id (length c)) c ≡ o
      → handled limits calls (bytes_of kind id c rest) st ≡ o
  handled-Front st kind id c rest o hid small e =
      rw (front-header kind id c rest hid small, front-content kind id c rest hid small) e

  -- The two records, under any fuel from two rounds on.
  two_rounds :
      (f : ℕ) (w : Bytes) (st : State S) (id new : ℕ) (r : Request) (c start : Bytes)
      → id < 65536
      → new < 65536
      → 0 < length c
      → length c < 65536
      → length start ≡ 8
      → lookup id st.requests ≡ some r
      → r.flags.failed ≡ false
      → is_ready r.flags ≡ false
      → r.body_bytes + length c ≤ limits.max_stdin_bytes
      → lookup new st.requests ≡ none
      → calls.allocate_request st.outside new ≡ none
      → process_loop limits calls
          (suc (suc f))
          w
          (bytes_of stdin id c (bytes_of begin_request new start []))
          st
        ≡ record {
          status = ok;
          in_buf = w;
          state = record st { requests = insert id (fed r c) st.requests };
          waiting = true;
        }
  two_rounds f w st id new r c start hid hnew pos small eight there alive unready fits absent full =
      let second = bytes_of begin_request new start [] in
      let st' = record st { requests = insert id (fed r c) st.requests } in
      let short_start : length start < 65536 = omega arith in
      let differ : (id == new) ≡ false =
        ground (arith, λ (e : id ≡ new). subst (λ k. lookup k st.requests ≡ none) (sym e) absent) in
      let still_absent : lookup new st'.requests ≡ none = rw (lookup-insert, differ) absent in
      loop_whole limits calls (suc f) w _ st st' (front-IsWhole stdin id c second hid small) (
        handled-Front st stdin id c second (goes st') hid small
          (handle-stdin st id r c there pos alive unready fits))
      ∙ rw (front-behind stdin id c second hid small) (
          loop_stuck limits calls f w second st'
            (front-IsWhole begin_request new start [] hnew short_start)
            (handled-Front st' begin_request new start [] waits hnew short_start
              (handle_begin st' new start still_absent full eight)))

  -- One call on the two records: the body is applied, and the whole input is handed back.
  one_call :
      (st : State S) (id new : ℕ) (r : Request) (c start : Bytes)
      → id < 65536
      → new < 65536
      → 0 < length c
      → length c < 65536
      → length start ≡ 8
      → lookup id st.requests ≡ some r
      → r.flags.failed ≡ false
      → is_ready r.flags ≡ false
      → r.body_bytes + length c ≤ limits.max_stdin_bytes
      → lookup new st.requests ≡ none
      → calls.allocate_request st.outside new ≡ none
      → let body = bytes_of stdin id c (bytes_of begin_request new start []) in
        process_buffer limits calls body st ≡ record {
          status = ok;
          in_buf = body;
          state = record st { requests = insert id (fed r c) st.requests };
          waiting = true;
        }
  unfolding process_buffer
  one_call st id new r c start hid hnew pos small eight there alive unready fits absent full =
      let body = bytes_of stdin id c (bytes_of begin_request new start []) in
      loop_fuel limits calls (length body) (suc (suc (length body))) body body st (omega arith)
        (omega arith)
      ∙ two_rounds (length body) body st id new r c start hid hnew pos small eight there alive
          unready fits absent full

  -- The input holds a body record for a running request, and behind it the start of a new request for
  -- which no arena is free. `process_buffer` adds the body and asks to wait, but hands back the body
  -- record too. When it is called again with what the first call left and there is still no arena and
  -- room for the body in the limit, the same body is added a second time, and the input comes back again.
  pub body_applied_not_consumed :
      (st : State S) (id new : ℕ) (r : Request) (c start : Bytes)
      → id < 65536
      → new < 65536
      → 0 < length c
      → length c < 65536
      → length start ≡ 8
      → lookup id st.requests ≡ some r
      → r.flags.failed ≡ false
      → is_ready r.flags ≡ false
      → r.body_bytes + length c + length c ≤ limits.max_stdin_bytes
      → lookup new st.requests ≡ none
      → calls.allocate_request st.outside new ≡ none
      → let input =
          append_record (append_record [] stdin id c (length c)) begin_request new start 8 in
        let p = process_buffer limits calls input st in
        let again = process_buffer limits calls p.in_buf p.state in
        (p.waiting ≡ true)
        × (p.in_buf ≡ input)
        × (lookup id p.state.requests ≡ some (fed r c))
        × (p.state.out_buf ≡ st.out_buf)
        × (p.state.outside ≡ st.outside)
        × (again.waiting ≡ true)
        × (again.in_buf ≡ input)
        × (lookup id again.state.requests ≡ some (fed (fed r c) c))
  body_applied_not_consumed st id new r c start hid hnew pos small eight there alive unready fits
        absent full =
      rw (shape, first, second)
        (refl, refl, there', refl, refl, refl, refl, rw lookup-insert (ground arith))
    where
      body : Bytes
      body = bytes_of stdin id c (bytes_of begin_request new start [])

      shape :
          append_record (append_record [] stdin id c (length c)) begin_request new start 8 ≡ body
      shape =
          let eight_start : take 8 start ≡ start =
            subst (λ k. take k start ≡ start) eight (take-length start) in
          unfold append_record in rw (take-length c, eight_start, eight, append-nil)

      st' : State S
      st' = record st { requests = insert id (fed r c) st.requests }

      there' : lookup id st'.requests ≡ some (fed r c)
      there' = rw lookup-insert (ground arith)

      differ : (id == new) ≡ false
      differ =
          ground (arith, λ (e : id ≡ new). subst (λ k. lookup k st.requests ≡ none) (sym e) absent)

      first :
          process_buffer limits calls body st
          ≡ record { status = ok; in_buf = body; state = st'; waiting = true }
      first =
          one_call st id new r c start hid hnew pos small eight there alive unready
            (omega (arith, fits)) absent full

      second : process_buffer limits calls body st' ≡ record {
        status = ok;
        in_buf = body;
        state = record st' { requests = insert id (fed (fed r c) c) st'.requests };
        waiting = true;
      }
      second =
          one_call st' id new (fed r c) c start hid hnew pos small eight there' alive unready fits
            (rw (lookup-insert, differ) absent) full
