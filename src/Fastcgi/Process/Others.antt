-- ===== src/Fastcgi/Process/Others.antt =====
-- The requests of other ids in `process_buffer` of src/fastcgi.cpp.
use wasapi.Base.{
  ℕ, ◌<◌, ◌^◌, All, ◌≡◌, ◌≢◌, refl, ap, subst, ◌∙◌, Option, none, some, List, [], ◌∷◌, Bytes, ◌==◌,
  leb, length, if_elim, Option-cases, inl, inr, arith,
}
use wasapi.Request.{Request}
use wasapi.Fastcgi.Records.{Header, begin_request, abort_request, params, stdin}
use wasapi.Fastcgi.Process.{
  Limits, Callbacks, State, Handled, process_loop, process_buffer, waits, goes, handle, on_begin,
  on_params, on_stdin, on_abort, lookup, insert, is_ready, current_req, settle, with_request,
  with_new_request,
}
use wasapi.Fastcgi.Process.Whole.{record_bytes}
use wasapi.Fastcgi.Process.Whole.Records.{header_of, run, run-record, run-stuck}

lookup-insert_other :
    (id j : ℕ) (r : Request) (rs : List (ℕ × Request))
    → id ≢ j
    → lookup j (insert id r rs) ≡ lookup j rs
unfolding lookup insert
lookup-insert_other id j r [] h = ground (arith, h)
lookup-insert_other id j r ((k, q) ∷ rs) h = ground (arith, h, lookup-insert_other id j r rs h)

module _ {S : Type 0} (limits : Limits) (calls : Callbacks S) (j : ℕ) where
  -- What a record leaves, against what was there before.
  abbrev Leaves : State S → Handled S → Type 0
  Leaves st waits = Unit {0}
  Leaves st (goes st') = lookup j st'.requests ≡ lookup j st.requests

  abbrev Finds : State S → Option (Request × State S) → Type 0
  Finds st none = Unit {0}
  Finds st (some (r, st')) = lookup j st'.requests ≡ lookup j st.requests

  current_req-Finds : (st : State S) (id : ℕ) → id ≢ j → Finds st (current_req limits calls st id)
  unfolding current_req
  current_req-Finds st id h = elim (Option-cases (lookup id st.requests)) [
    | inr (r, e) ↦ rw (e, current_req) refl
    | inl e ↦ elim (Option-cases (calls.allocate_request st.outside id)) [
      | inl f ↦ rw (e, current_req) (rw (f, current_req) tt)
      | inr ((r, s), f) ↦
          rw (e, current_req) (rw (f, current_req) (lookup-insert_other id j r st.requests h))
    ]
  ]

  settle-other :
      (st : State S) (id : ℕ) (acted : Request × Bytes)
      → id ≢ j
      → lookup j (settle limits calls st id acted).requests ≡ lookup j st.requests
  unfolding settle
  settle-other st id (r, out) h =
      if_elim (λ (st' : State S). lookup j st'.requests ≡ lookup j st.requests) (is_ready r.flags)
        (λ _. lookup-insert_other id j _ st.requests h)
        (λ _. lookup-insert_other id j r st.requests h)

  with_request-Leaves :
      (st : State S) (id : ℕ) (act : Request → Bytes → Request × Bytes)
      → id ≢ j
      → Leaves st (with_request limits calls st id act)
  unfolding with_request
  with_request-Leaves st id act h = elim (Option-cases (current_req limits calls st id)) [
    | inl e ↦ rw (e, with_request) refl
    | inr ((r, st'), e) ↦
        rw (e, with_request)
          (settle-other st' id (act r st'.out_buf) h
            ∙ subst (Finds st) e (current_req-Finds st id h))
  ]

  with_new_request-Leaves :
      (st : State S) (id : ℕ) (act : Request → Bytes → Request × Bytes)
      → id ≢ j
      → Leaves st (with_new_request limits calls st id act)
  unfolding with_new_request
  with_new_request-Leaves st id act h = elim (Option-cases (current_req limits calls st id)) [
    | inl e ↦ rw (e, with_new_request) tt
    | inr ((r, st'), e) ↦
        rw (e, with_new_request)
          (settle-other st' id (act r st'.out_buf) h
            ∙ subst (Finds st) e (current_req-Finds st id h))
  ]

  handle-Leaves :
      (st : State S) (h : Header) (content : Bytes)
      → h.request_id ≢ j
      → Leaves st (handle limits calls st h content)
  unfolding handle
  handle-Leaves st h content other =
      if_elim (Leaves st) (h.type == begin_request)
        (λ _.
          if_elim (Leaves st) (leb 8 (length content))
            (λ _.
              with_new_request-Leaves st h.request_id (λ r out. (on_begin content r, out)) other)
            (λ _. refl))
        (λ _.
          if_elim (Leaves st) (h.type == params)
            (λ _. with_request-Leaves st h.request_id (on_params limits content) other)
            (λ _.
              if_elim (Leaves st) (h.type == stdin)
                (λ _. with_request-Leaves st h.request_id (on_stdin limits content) other)
                (λ _.
                  if_elim (Leaves st) (h.type == abort_request)
                    (λ _. with_request-Leaves st h.request_id on_abort other) (λ _. refl))))

-- Records of any type, whole, one behind the other.
pub record Packet : Type 0 where
  pub kind : ℕ
  pub id : ℕ
  pub content : Bytes
  pub padding : Bytes

unfoldable pub packets_bytes : List Packet → Bytes
packets_bytes [] = []
packets_bytes (p ∷ ps) = record_bytes p.kind p.id p.content p.padding (packets_bytes ps)

-- The fields hold the packet's numbers, and it is not about request `j`.
abbrev pub IsOther : ℕ → Packet → Type 0
IsOther j p = (p.id ≢ j) × (p.id < 2 ^ 16) × (length p.content < 2 ^ 16)

module _ {S : Type 0} (limits : Limits) (calls : Callbacks S) (w : Bytes) (j : ℕ) where
  handled-other :
      (p : Packet) (ps : List Packet) (st : State S) (o : Handled S)
      → IsOther j p
      → handle limits calls st (header_of p.kind p.id p.content p.padding) p.content ≡ o
      → ((st' : State S)
          → lookup j (run limits calls w (packets_bytes ps) st').state.requests
            ≡ lookup j st'.requests)
      → lookup j (run limits calls w (packets_bytes (p ∷ ps)) st).state.requests
        ≡ lookup j st.requests
  unfolding packets_bytes
  handled-other p ps st waits (other, small_id, small) e ih =
      let stuck =
        run-stuck limits calls w p.kind p.id p.content p.padding (packets_bytes ps) st small_id
          small e in
      ap (λ r. lookup j r.state.requests) stuck
  handled-other p ps st (goes st') (other, small_id, small) e ih =
      ap (λ r. lookup j r.state.requests)
        (run-record limits calls w p.kind p.id p.content p.padding (packets_bytes ps) st st'
          small_id small e)
      ∙ (ih st'
          ∙ subst (Leaves limits calls j st) e (
              handle-Leaves limits calls j st (header_of p.kind p.id p.content p.padding) p.content
                other))

  run-others :
      (ps : List Packet) (st : State S)
      → All (IsOther j) ps
      → lookup j (run limits calls w (packets_bytes ps) st).state.requests ≡ lookup j st.requests
  unfolding packets_bytes process_loop
  run-others [] st h = refl
  run-others (p ∷ ps) st h = handled-other p ps st _ h.0 refl (λ st'. run-others ps st' h.1)

-- Records never reach a request with another id: whatever types, contents and flags they have, whether they
-- are cut off by a limit, end a request or wait for an arena, the request with id `j` is as it was when no
-- record has that id.
pub process_buffer-others :
    {S : Type 0} (limits : Limits) (calls : Callbacks S) (j : ℕ) (ps : List Packet) (st : State S)
    → All (IsOther j) ps
    → lookup j (process_buffer limits calls (packets_bytes ps) st).state.requests
      ≡ lookup j st.requests
unfolding process_buffer
process_buffer-others limits calls j ps st h = run-others limits calls (packets_bytes ps) j ps st h
