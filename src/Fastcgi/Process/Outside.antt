-- ===== src/Fastcgi/Process/Outside.antt =====
-- What `process_buffer` of src/fastcgi.cpp does to the state that its callbacks reach.
use wasapi.Base.{
  ℕ, zero, suc, ◌≡◌, refl, subst, Option, none, some, Bytes, length, Option-cases, inl, inr, leb,
  ◌==◌, if_elim,
}
use wasapi.Request.{Request}
use wasapi.Fastcgi.Records.{Header, begin_request, params, stdin, abort_request}
use wasapi.Fastcgi.Process.{
  Limits, Callbacks, State, Handled, waits, goes, handle, on_begin, on_params, on_stdin, on_abort,
  lookup, is_ready, current_req, settle, with_request, with_new_request, process_loop,
  process_buffer,
}
use wasapi.Fastcgi.Process.Front.{
  behind, Front, short, foreign, partial, stuck, whole, front, loop_short, loop_partial,
  loop_foreign, loop_stuck, loop_whole,
}

-- Both callbacks keep a property of the state they reach.
pub record Keeps {S : Type 0} (P : S → Type 0) (calls : Callbacks S) : Type 0 where
  pub allocates :
      (s s' : S) (id : ℕ) (r : Request) → calls.allocate_request s id ≡ some (r, s') → P s → P s'
  pub readies : (s : S) (r : Request) → P s → P (calls.on_request_ready s r).1

module _ {S : Type 0} (P : S → Type 0) (limits : Limits) (calls : Callbacks S)
    (keeps : Keeps P calls) where
  settle-Keeps :
      (st : State S) (id : ℕ) (q : Request × Bytes)
      → P st.outside
      → P (settle limits calls st id q).outside
  unfolding settle
  settle-Keeps st id (r, out) h =
      if_elim (λ (s : State S). P s.outside) (is_ready r.flags) (λ _. keeps.readies st.outside r h)
        (λ _. h)

  abbrev Goes : Handled S → Type 0
  Goes waits = Unit {0}
  Goes (goes st) = P st.outside

  abbrev Finds : Option (Request × State S) → Type 0
  Finds none = Unit {0}
  Finds (some (r, st)) = P st.outside

  current_req-Finds :
      (st : State S) (id : ℕ) → P st.outside → Finds (current_req limits calls st id)
  unfolding current_req
  current_req-Finds st id h = elim (Option-cases (lookup id st.requests)) [
    | inr (r, e) ↦ rw (e, current_req) h
    | inl e ↦ elim (Option-cases (calls.allocate_request st.outside id)) [
      | inl k ↦ rw (e, k, current_req) tt
      | inr (q, k) ↦ rw (e, k, current_req) (keeps.allocates st.outside q.1 id q.0 k h)
    ]
  ]

  with_request-Goes :
      (st : State S) (id : ℕ) (act : Request → Bytes → Request × Bytes)
      → P st.outside
      → Goes (with_request limits calls st id act)
  unfolding with_request
  with_request-Goes st id act h =
      go (current_req limits calls st id) refl (current_req-Finds st id h)
    where
      go :
          (o : Option (Request × State S))
          → current_req limits calls st id ≡ o
          → Finds o
          → Goes (with_request limits calls st id act)
      go none e f = rw (e, with_request) h
      go (some (r, st')) e f = rw (e, with_request) (settle-Keeps st' id (act r st'.out_buf) f)

  with_new_request-Goes :
      (st : State S) (id : ℕ) (act : Request → Bytes → Request × Bytes)
      → P st.outside
      → Goes (with_new_request limits calls st id act)
  unfolding with_new_request
  with_new_request-Goes st id act h =
      go (current_req limits calls st id) refl (current_req-Finds st id h)
    where
      go :
          (o : Option (Request × State S))
          → current_req limits calls st id ≡ o
          → Finds o
          → Goes (with_new_request limits calls st id act)
      go none e f = rw (e, with_new_request) tt
      go (some (r, st')) e f = rw (e, with_new_request) (settle-Keeps st' id (act r st'.out_buf) f)

  handle-Goes :
      (st : State S) (h : Header) (content : Bytes)
      → P st.outside
      → Goes (handle limits calls st h content)
  unfolding handle
  handle-Goes st h content k =
      if_elim Goes (h.type == begin_request)
        (λ _.
          if_elim Goes (leb 8 (length content))
            (λ _. with_new_request-Goes st h.request_id (λ r out. (on_begin content r, out)) k)
            (λ _. k))
        (λ _.
          if_elim Goes (h.type == params)
            (λ _. with_request-Goes st h.request_id (on_params limits content) k)
            (λ _.
              if_elim Goes (h.type == stdin)
                (λ _. with_request-Goes st h.request_id (on_stdin limits content) k)
                (λ _.
                  if_elim Goes (h.type == abort_request)
                    (λ _. with_request-Goes st h.request_id (on_abort) k) (λ _. k))))

  loop-Keeps :
      (f : ℕ) (w rest : Bytes) (st : State S)
      → P st.outside
      → P (process_loop limits calls f w rest st).state.outside
  loop-Keeps zero w rest st h = unfold process_loop in h
  loop-Keeps (suc f) w rest st h = go (front limits calls rest st) (loop-Keeps f w (behind rest))
    where
      go :
          Front limits calls rest st
          → ((st' : State S)
              → P st'.outside
              → P (process_loop limits calls f w (behind rest) st').state.outside)
          → P (process_loop limits calls (suc f) w rest st).state.outside
      go (short x) ih = rw (loop_short limits calls (suc f) w rest st x) h
      go (foreign x n) ih = rw (loop_foreign limits calls f w rest st x n) h
      go (partial x v t) ih = rw (loop_partial limits calls (suc f) w rest st x v t) h
      go (stuck x e) ih = rw (loop_stuck limits calls f w rest st x e) h
      go (whole x st' e) ih =
          rw (loop_whole limits calls f w rest st st' x e)
            (ih st' (subst Goes e (handle-Goes st _ _ h)))

  -- Whatever bytes arrive, `process_buffer` keeps what its callbacks keep.
  pub process_buffer-Keeps :
      (in_buf : Bytes) (st : State S)
      → P st.outside
      → P (process_buffer limits calls in_buf st).state.outside
  unfolding process_buffer
  process_buffer-Keeps in_buf st h = loop-Keeps (length in_buf) in_buf in_buf st h
