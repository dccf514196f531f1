-- ===== src/Fastcgi/Process/Bounds.antt =====
-- The limits on parameters and body, through every record that `process_buffer` handles.
use wasapi.Base.{
  ℕ, zero, suc, ◌+◌, ◌≤◌, ◌≡◌, refl, subst, Option, none, some, List, [], ◌∷◌, Bytes, length, take,
  drop, length-append, arith, Bool-cases, Option-cases, inl, inr, leb, ◌==◌, if_elim,
}
use wasapi.Dynamic.{string, assign}
use wasapi.Request.{Request}
use wasapi.Fastcgi.Records.{Header, begin_request, params, stdin, abort_request, overloaded}
use wasapi.Fastcgi.Process.{
  Limits, Callbacks, State, Handled, waits, goes, handle, decode_length, params_loop, fail_request,
  on_begin, on_params, on_stdin, on_abort, lookup, insert, is_ready, current_req, settle,
  with_request, with_new_request, process_loop, process_buffer,
}
use wasapi.Fastcgi.Process.Front.{
  behind, Front, short, foreign, partial, stuck, whole, front, loop_short, loop_partial,
  loop_foreign, loop_stuck, loop_whole,
}

-- A request within the limits, whose byte count is that of its body.
pub record IsBounded (limits : Limits) (r : Request) : Type 0 where
  pub few_params : r.params_bytes ≤ limits.max_params_bytes
  pub short_body : r.body_bytes ≤ limits.max_stdin_bytes
  pub counted : r.body_bytes ≡ length r.body

abbrev pub AllBounded : Limits → List (ℕ × Request) → Type 0
AllBounded limits [] = Unit {0}
AllBounded limits ((id, r) ∷ rs) = IsBounded limits r × AllBounded limits rs

fail_request-IsBounded :
    (limits : Limits) (r : Request) (out : Bytes) (status : ℕ)
    → IsBounded limits r
    → IsBounded limits (fail_request r out status).0
unfolding fail_request
fail_request-IsBounded limits r out status b = ground arith

params_loop-IsBounded :
    (limits : Limits) (fuel : ℕ) (p : Bytes) (r : Request) (out : Bytes)
    → IsBounded limits r
    → IsBounded limits (params_loop limits.max_params_bytes fuel p r out).0
unfolding params_loop
params_loop-IsBounded limits zero p r out b = b
params_loop-IsBounded limits (suc fuel) [] r out b = b
params_loop-IsBounded limits (suc fuel) (x ∷ p) r out b =
    let (name_len, p1) = decode_length (x ∷ p) in
    let (value_len, p2) = decode_length p1 in
    let name = take name_len p2 in
    let value = take value_len (drop name_len p2) in
    ground (
      arith,
      fail_request-IsBounded limits r out overloaded b,
      params_loop-IsBounded limits fuel (drop value_len (drop name_len p2))
          (record r {
            env = assign r.env name (string value);
            params_bytes = r.params_bytes + (name_len + value_len);
          })
          out,
    )

on_params-IsBounded :
    (limits : Limits) (content : Bytes) (r : Request) (out : Bytes)
    → IsBounded limits r
    → IsBounded limits (on_params limits content r out).0
unfolding on_params
on_params-IsBounded limits content r out b =
    ground (arith, params_loop-IsBounded limits (length content) content r out b)

on_stdin-IsBounded :
    (limits : Limits) (content : Bytes) (r : Request) (out : Bytes)
    → IsBounded limits r
    → IsBounded limits (on_stdin limits content r out).0
unfolding on_stdin
on_stdin-IsBounded limits content r out b =
    ground (arith, fail_request-IsBounded limits r out overloaded b, length-append r.body content)

on_abort-IsBounded :
    (limits : Limits) (r : Request) (out : Bytes)
    → IsBounded limits r
    → IsBounded limits (on_abort r out).0
unfolding on_abort
on_abort-IsBounded limits r out b = ground arith

insert-AllBounded :
    (limits : Limits) (id : ℕ) (r : Request) (rs : List (ℕ × Request))
    → IsBounded limits r
    → AllBounded limits rs
    → AllBounded limits (insert id r rs)
unfolding insert
insert-AllBounded limits id r [] b a = (b, tt)
insert-AllBounded limits id r ((j, q) ∷ rs) b a =
    if_elim (AllBounded limits) (j == id) (λ _. (b, a.1))
      (λ _. (a.0, insert-AllBounded limits id r rs b a.1))

lookup-IsBounded :
    (limits : Limits) (id : ℕ) (rs : List (ℕ × Request)) (r : Request)
    → AllBounded limits rs
    → lookup id rs ≡ some r
    → IsBounded limits r
unfolding lookup
lookup-IsBounded limits id [] r a e = absurd (ground arith)
lookup-IsBounded limits id ((j, q) ∷ rs) r a e = elim (Bool-cases (j == id)) [
  | inl h ↦ subst (IsBounded limits) (ground (arith, h, e)) a.0
  | inr h ↦ lookup-IsBounded limits id rs r a.1 (ground (arith, h, e))
]

-- The callbacks make requests within the limits, and keep requests within them.
pub record KeepsBounds {S : Type 0} (limits : Limits) (calls : Callbacks S) : Type 0 where
  pub allocates :
      (s s' : S) (id : ℕ) (r : Request)
      → calls.allocate_request s id ≡ some (r, s')
      → IsBounded limits r
  pub readies :
      (s : S) (r : Request) → IsBounded limits r → IsBounded limits (calls.on_request_ready s r).0

module _ {S : Type 0} (limits : Limits) (calls : Callbacks S)
    (keeps : KeepsBounds limits calls) where
  settle-AllBounded :
      (st : State S) (id : ℕ) (q : Request × Bytes)
      → AllBounded limits st.requests
      → IsBounded limits q.0
      → AllBounded limits (settle limits calls st id q).requests
  unfolding settle
  settle-AllBounded st id (r, out) a b =
      if_elim (λ (s : State S). AllBounded limits s.requests) (is_ready r.flags)
        (λ _. insert-AllBounded limits id _ st.requests (keeps.readies st.outside r b) a)
        (λ _. insert-AllBounded limits id r st.requests b a)

  abbrev GoesBounded : Handled S → Type 0
  GoesBounded waits = Unit {0}
  GoesBounded (goes st) = AllBounded limits st.requests

  abbrev Found : Option (Request × State S) → Type 0
  Found none = Unit {0}
  Found (some (r, st)) = IsBounded limits r × AllBounded limits st.requests

  current_req-Found :
      (st : State S) (id : ℕ)
      → AllBounded limits st.requests
      → Found (current_req limits calls st id)
  unfolding current_req
  current_req-Found st id a = elim (Option-cases (lookup id st.requests)) [
    | inr (r, e) ↦ rw (e, current_req) (lookup-IsBounded limits id st.requests r a e, a)
    | inl e ↦ elim (Option-cases (calls.allocate_request st.outside id)) [
      | inl h ↦ rw (e, h, current_req) tt
      | inr (q, h) ↦
          let b = keeps.allocates st.outside q.1 id q.0 h in
          rw (e, h, current_req) (b, insert-AllBounded limits id q.0 st.requests b a)
    ]
  ]

  -- An act that keeps requests within the limits keeps the table within them.
  abbrev Keeps : (Request → Bytes → Request × Bytes) → Type 0
  Keeps act = (r : Request) (out : Bytes) → IsBounded limits r → IsBounded limits (act r out).0

  with_request-GoesBounded :
      (st : State S) (id : ℕ) (act : Request → Bytes → Request × Bytes)
      → Keeps act
      → AllBounded limits st.requests
      → GoesBounded (with_request limits calls st id act)
  unfolding with_request
  with_request-GoesBounded st id act k a =
      go (current_req limits calls st id) refl (current_req-Found st id a)
    where
      go :
          (o : Option (Request × State S))
          → current_req limits calls st id ≡ o
          → Found o
          → GoesBounded (with_request limits calls st id act)
      go none e f = rw (e, with_request) a
      go (some (r, st')) e (b, a') =
          rw (e, with_request) (settle-AllBounded st' id (act r st'.out_buf) a' (k r st'.out_buf b))

  with_new_request-GoesBounded :
      (st : State S) (id : ℕ) (act : Request → Bytes → Request × Bytes)
      → Keeps act
      → AllBounded limits st.requests
      → GoesBounded (with_new_request limits calls st id act)
  unfolding with_new_request
  with_new_request-GoesBounded st id act k a =
      go (current_req limits calls st id) refl (current_req-Found st id a)
    where
      go :
          (o : Option (Request × State S))
          → current_req limits calls st id ≡ o
          → Found o
          → GoesBounded (with_new_request limits calls st id act)
      go none e f = rw (e, with_new_request) tt
      go (some (r, st')) e (b, a') =
          rw (e, with_new_request)
            (settle-AllBounded st' id (act r st'.out_buf) a' (k r st'.out_buf b))

  handle-GoesBounded :
      (st : State S) (h : Header) (content : Bytes)
      → AllBounded limits st.requests
      → GoesBounded (handle limits calls st h content)
  unfolding handle
  handle-GoesBounded st h content a =
      if_elim GoesBounded (h.type == begin_request)
        (λ _.
          if_elim GoesBounded (leb 8 (length content))
            (λ _.
              with_new_request-GoesBounded st h.request_id (λ r out. (on_begin content r, out))
                (λ r out b. record {
                  few_params = b.few_params;
                  short_body = b.short_body;
                  counted = b.counted;
                })
                a)
            (λ _. a))
        (λ _.
          if_elim GoesBounded (h.type == params)
            (λ _.
              with_request-GoesBounded st h.request_id (on_params limits content)
                (on_params-IsBounded limits content) a)
            (λ _.
              if_elim GoesBounded (h.type == stdin)
                (λ _.
                  with_request-GoesBounded st h.request_id (on_stdin limits content)
                    (on_stdin-IsBounded limits content) a)
                (λ _.
                  if_elim GoesBounded (h.type == abort_request)
                    (λ _.
                      with_request-GoesBounded st h.request_id on_abort (on_abort-IsBounded limits)
                        a)
                    (λ _. a))))

  loop-AllBounded :
      (f : ℕ) (w rest : Bytes) (st : State S)
      → AllBounded limits st.requests
      → AllBounded limits (process_loop limits calls f w rest st).state.requests
  loop-AllBounded zero w rest st a = unfold process_loop in a
  loop-AllBounded (suc f) w rest st a =
      go (front limits calls rest st) (loop-AllBounded f w (behind rest))
    where
      go :
          Front limits calls rest st
          → ((st' : State S)
              → AllBounded limits st'.requests
              → AllBounded limits (process_loop limits calls f w (behind rest) st').state.requests)
          → AllBounded limits (process_loop limits calls (suc f) w rest st).state.requests
      go (short x) ih = rw (loop_short limits calls (suc f) w rest st x) a
      go (foreign x n) ih = rw (loop_foreign limits calls f w rest st x n) a
      go (partial x v t) ih = rw (loop_partial limits calls (suc f) w rest st x v t) a
      go (stuck x e) ih = rw (loop_stuck limits calls f w rest st x e) a
      go (whole x st' e) ih =
          rw (loop_whole limits calls f w rest st st' x e)
            (ih st' (subst GoesBounded e (handle-GoesBounded st _ _ a)))

  -- Whatever bytes arrive, `process_buffer` keeps every request within the limits on parameter bytes
  -- and body bytes, with its byte count equal to its body's length, if the callbacks do.
  pub process_buffer-AllBounded :
      (in_buf : Bytes) (st : State S)
      → AllBounded limits st.requests
      → AllBounded limits (process_buffer limits calls in_buf st).state.requests
  unfolding process_buffer
  process_buffer-AllBounded in_buf st a = loop-AllBounded (length in_buf) in_buf in_buf st a
