-- ===== src/Fastcgi/Process/Whole/Records.antt =====
-- What one record of a request does in `process_buffer` of src/fastcgi.cpp.
use wasapi.Base.{
  ℕ, suc, ◌+◌, ◌^◌, ◌<◌, ◌≤◌, ◌≡◌, refl, sym, ap, if_elim, ◌∙◌, Bool, true, false, none, some, List,
  [], ◌∷◌, ◌++◌, append_assoc, Bytes, All, length, take, drop, length-append, take-append,
  drop-append, ◌==◌, ==_self, if◌then◌else◌, arith,
}
use wasapi.Request.{Request, no_flags}
use wasapi.Fastcgi.Records.{Header, read_header, begin_request, params, stdin}
use wasapi.Fastcgi.Process.{
  Limits, Callbacks, State, Processed, ok, waits, goes, handle, on_begin, on_params, on_stdin,
  lookup, insert, is_ready, current_req, settle, with_request, with_new_request, process_loop,
}
use wasapi.Fastcgi.Process.Front.{IsWhole, behind, handled, loop_whole, loop_stuck, loop_fuel}
use wasapi.Fastcgi.Process.Whole.{
  Pair, pairs_bytes, record_bytes, Sent, begin_content, pairs_size, meant, IsPair,
}
use wasapi.Fastcgi.Process.Whole.Pairs.{with_pairs, params_loop-pairs}

abbrev pub header_of : ℕ → ℕ → Bytes → Bytes → Header
header_of kind id content padding = record {
  version = 1;
  type = kind;
  request_id = id;
  content_length = length content;
  padding_length = length padding;
}

module _ (kind id : ℕ) (content padding rest : Bytes) (small_id : id < 2 ^ 16)
    (small : length content < 2 ^ 16) where
  front-header :
      read_header (record_bytes kind id content padding rest) ≡ header_of kind id content padding
  unfolding read_header
  front-header = ground arith

  front-IsWhole : IsWhole (record_bytes kind id content padding rest)
  front-IsWhole =
      let l = length-append content (padding ++ rest) in
      let m = length-append padding rest in
      rw front-header (omega (arith, l, m), refl, omega (arith, l, m))

  front-behind : behind (record_bytes kind id content padding rest) ≡ rest
  front-behind =
      let m : 8 + length content + length padding
          ≡ suc (suc (suc (suc (suc (suc (suc (suc (length (content ++ padding))))))))) =
        omega (arith, length-append content padding) in
      rw (front-header, m)
        (rw (sym (append_assoc content padding rest)) (drop-append (content ++ padding) rest))

  front-content :
      take (length content) (drop 8 (record_bytes kind id content padding rest)) ≡ content
  front-content = take-append content (padding ++ rest)

lookup-insert :
    (id : ℕ) (r : Request) (rs : List (ℕ × Request)) → lookup id (insert id r rs) ≡ some r
unfolding lookup insert
lookup-insert id r [] = rw (==_self id) refl
lookup-insert id r ((k, q) ∷ rs) = ground (arith, lookup-insert id r rs)

insert-insert :
    (id : ℕ) (r q : Request) (rs : List (ℕ × Request))
    → insert id r (insert id q rs) ≡ insert id r rs
unfolding insert
insert-insert id r q [] = rw (==_self id) refl
insert-insert id r q ((k, o) ∷ rs) = ground (arith, insert-insert id r q rs)

-- A request as `allocate_request` makes it.
pub record IsFresh (r : Request) : Type 0 where
  pub unmarked : r.flags ≡ no_flags
  pub no_params : r.params_bytes ≡ 0
  pub no_body : r.body_bytes ≡ 0

-- The request behind its first record, and behind the end of its parameters.
unfoldable pub begun : Bool → Request → Request
begun keep r = record r {
  flags = record (r.flags) {
    initialized = true;
    keep_connection = if keep then true else r.flags.keep_connection;
  };
}

pub on_begin-begun : (keep : Bool) (r : Request) → on_begin (begin_content keep) r ≡ begun keep r
unfolding on_begin begun
on_begin-begun true r = refl
on_begin-begun false r = refl

abbrev pub with_params : Request → Request
with_params r = record r { flags = record (r.flags) { params_complete = true } }

pub unready :
    (keep : Bool) (r : Request) → r.flags ≡ no_flags → is_ready (begun keep r).flags ≡ false
unfolding is_ready begun
unready keep r new = ground (arith, new)

pub waiting :
    (keep : Bool) (r : Request)
    → r.flags ≡ no_flags
    → is_ready (with_params (begun keep r)).flags ≡ false
unfolding is_ready begun
waiting keep r new = ground (arith, new)

pub alive : (keep : Bool) (r : Request) → r.flags ≡ no_flags → (begun keep r).flags.failed ≡ false
unfolding begun
alive keep r new = ap (λ f. f.failed) new

pub ready : (q : Sent) (r : Request) → r.flags ≡ no_flags → is_ready (meant q r).flags ≡ true
unfolding is_ready meant
ready q r new = ground (arith, new)

module _ {S : Type 0} (limits : Limits) (calls : Callbacks S) (w : Bytes) where
  -- The loop with enough fuel for what it is given.
  abbrev pub run : Bytes → State S → Processed S
  run rest st = process_loop limits calls (length rest) w rest st

  pub run-record :
      (kind id : ℕ) (content padding rest : Bytes) (st st' : State S)
      → id < 2 ^ 16
      → length content < 2 ^ 16
      → handle limits calls st (header_of kind id content padding) content ≡ goes st'
      → run (record_bytes kind id content padding rest) st ≡ run rest st'
  run-record kind id content padding rest st st' small_id small e =
      let whole = front-IsWhole kind id content padding rest small_id small in
      let same : handled limits calls (record_bytes kind id content padding rest) st ≡ goes st' =
        rw
          (
            front-header kind id content padding rest small_id small,
            front-content kind id content padding rest small_id small,
          )
          e in
      let f = length (drop 1 (record_bytes kind id content padding rest)) in
      loop_whole limits calls f w (record_bytes kind id content padding rest) st st' whole same
      ∙ (ap (λ b. process_loop limits calls f w b st')
            (front-behind kind id content padding rest small_id small)
          ∙ loop_fuel limits calls f (length rest) w rest st'
              (omega (arith, length-append content (padding ++ rest), length-append padding rest))
              (omega arith))

  -- A record that waits for an arena: everything is handed back.
  pub run-stuck :
      (kind id : ℕ) (content padding rest : Bytes) (st : State S)
      → id < 2 ^ 16
      → length content < 2 ^ 16
      → handle limits calls st (header_of kind id content padding) content ≡ waits
      → run (record_bytes kind id content padding rest) st
        ≡ record { status = ok; in_buf = w; state = st; waiting = true }
  run-stuck kind id content padding rest st small_id small e =
      let same : handled limits calls (record_bytes kind id content padding rest) st ≡ waits =
        rw
          (
            front-header kind id content padding rest small_id small,
            front-content kind id content padding rest small_id small,
          )
          e in
      loop_stuck limits calls (length (drop 1 (record_bytes kind id content padding rest))) w
        (record_bytes kind id content padding rest) st
        (front-IsWhole kind id content padding rest small_id small) same

  -- The state while a request is read.
  abbrev pub holding : List (ℕ × Request) → Bytes → S → ℕ → Request → State S
  holding rs out s id r = record { requests = insert id r rs; out_buf = out; outside = s }

  abbrev pub whole : Request → Request
  whole r = record r { flags = record (r.flags) { input_complete = true } }

  -- A record of a request that is there and not ready behind it.
  stepped :
      (rs : List (ℕ × Request)) (out : Bytes) (s : S) (id : ℕ) (r r' : Request)
      (act : Request → Bytes → Request × Bytes)
      → act r out ≡ (r', out)
      → is_ready r'.flags ≡ false
      → with_request limits calls (holding rs out s id r) id act ≡ goes (holding rs out s id r')
  unfolding with_request current_req settle
  stepped rs out s id r r' act e unready =
      rw (lookup-insert id r rs, with_request)
        (rw (e, with_request)
          (rw (unready, settle)
            (ap (λ rs'. goes (record { requests = rs'; out_buf = out; outside = s }))
              (insert-insert id r' r rs))))

  pub params-goes :
      (rs : List (ℕ × Request)) (out : Bytes) (s : S) (id : ℕ) (r r' : Request) (padding : Bytes)
      (content : Bytes)
      → on_params limits content r out ≡ (r', out)
      → is_ready r'.flags ≡ false
      → handle limits calls (holding rs out s id r) (header_of params id content padding) content
        ≡ goes (holding rs out s id r')
  unfolding handle
  params-goes rs out s id r r' padding content e unready =
      stepped rs out s id r r' (on_params limits content) e unready

  pub stdin-goes :
      (rs : List (ℕ × Request)) (out : Bytes) (s : S) (id : ℕ) (r r' : Request) (padding : Bytes)
      (content : Bytes)
      → on_stdin limits content r out ≡ (r', out)
      → is_ready r'.flags ≡ false
      → handle limits calls (holding rs out s id r) (header_of stdin id content padding) content
        ≡ goes (holding rs out s id r')
  unfolding handle
  stdin-goes rs out s id r r' padding content e unready =
      stepped rs out s id r r' (on_stdin limits content) e unready

  pub on_params-pairs :
      (ps : List Pair) (r : Request) (out : Bytes)
      → 0 < length (pairs_bytes ps)
      → All IsPair ps
      → r.flags.failed ≡ false
      → r.params_bytes + pairs_size ps ≤ limits.max_params_bytes
      → on_params limits (pairs_bytes ps) r out ≡ (with_pairs ps r, out)
  unfolding on_params
  on_params-pairs ps r out pos small alive fits =
      let e : (length (pairs_bytes ps) == 0) ≡ false = ground (arith, pos) in
      rw (e, on_params)
        (if_elim (λ (x : Request × Bytes). x ≡ (with_pairs ps r, out)) r.flags.failed
          (λ dead. absurd (cc (dead, alive)))
          (λ _.
            params_loop-pairs limits.max_params_bytes (length (pairs_bytes ps)) ps r out
              (omega arith) small fits))

  abbrev pub fed : Bytes → Request → Request
  fed c r = record r { body = r.body ++ c; body_bytes = r.body_bytes + length c }

  pub on_stdin-fed :
      (c : Bytes) (r : Request) (out : Bytes)
      → 0 < length c
      → r.flags.failed ≡ false
      → r.body_bytes + length c ≤ limits.max_stdin_bytes
      → on_stdin limits c r out ≡ (fed c r, out)
  unfolding on_stdin
  on_stdin-fed c r out pos alive fits = ground (arith, pos, alive, fits)

  -- The first record: a new request is made.
  pub begin-goes :
      (st : State S) (id : ℕ) (keep : Bool) (padding : Bytes) (r : Request) (s : S)
      → lookup id st.requests ≡ none
      → calls.allocate_request st.outside id ≡ some (r, s)
      → r.flags ≡ no_flags
      → handle limits calls st
          (header_of begin_request id (begin_content keep) padding)
          (begin_content keep)
        ≡ goes (holding st.requests st.out_buf s id (on_begin (begin_content keep) r))
  unfolding handle with_new_request current_req settle is_ready on_begin
  begin-goes st id keep padding r s absent made new =
      rw (absent, with_new_request)
        (rw (made, with_new_request)
          (rw (unready, settle)
            (ap (λ rs. goes (record { requests = rs; out_buf = st.out_buf; outside = s }))
              (insert-insert id (on_begin (begin_content keep) r) r st.requests))))
    where
      unready : is_ready (on_begin (begin_content keep) r).flags ≡ false
      unready = ground (arith, new)

  -- The last record: the request is complete, and the handler is called with it.
  pub ready-goes :
      (rs : List (ℕ × Request)) (out : Bytes) (s : S) (id : ℕ) (r : Request) (padding : Bytes)
      → is_ready (whole r).flags ≡ true
      → handle limits calls (holding rs out s id r) (header_of stdin id [] padding) []
        ≡ goes (
            holding rs out
              (calls.on_request_ready s (whole r)).1
              id
              (calls.on_request_ready s (whole r)).0)
  unfolding handle with_request current_req settle on_stdin
  ready-goes rs out s id r padding ready =
      rw (lookup-insert id r rs, with_request)
        (rw (ready, settle)
          (ap
            (λ rs'. goes (record {
              requests = rs';
              out_buf = out;
              outside = (calls.on_request_ready s (whole r)).1;
            }))
            (insert-insert id (calls.on_request_ready s (whole r)).0 r rs)))
