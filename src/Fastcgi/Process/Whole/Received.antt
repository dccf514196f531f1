-- ===== src/Fastcgi/Process/Whole/Received.antt =====
-- What `process_buffer` of src/fastcgi.cpp makes of a whole request.
use wasapi.Base.{
  ℕ, ◌+◌, ◌^◌, ◌<◌, ◌≤◌, ◌≡◌, refl, sym, ap, ap₂, ◌∙◌, false, none, some, List, [], ◌∷◌, append-nil,
  append_assoc, Bytes, All, length, length-append, arith,
}
use wasapi.Request.{Request}
use wasapi.Fastcgi.Records.{begin_request, params, stdin}
use wasapi.Fastcgi.Process.{
  Limits, Callbacks, State, ok, on_params, lookup, insert, is_ready, process_loop, process_buffer,
}
use wasapi.Fastcgi.Process.Whole.{
  Pair, pairs_bytes, record_bytes, Sent, parts_bytes, chunks_bytes, begin_content, sent_bytes,
  put_pairs, put_parts, parts_size, body_of, meant, IsPart, IsChunk, IsSendable,
}
use wasapi.Fastcgi.Process.Whole.Pairs.{with_pairs}
use wasapi.Fastcgi.Process.Whole.Records.{
  IsFresh, begun, on_begin-begun, with_params, unready, waiting, alive, ready, run, run-record,
  holding, fed, params-goes, stdin-goes, on_params-pairs, on_stdin-fed, begin-goes, ready-goes,
}

module _ {S : Type 0} (limits : Limits) (calls : Callbacks S) (w : Bytes) where
  run-parts :
      (rs : List (ℕ × Request)) (out : Bytes) (s : S) (id : ℕ) (parts : List (List Pair × Bytes))
      (rest : Bytes) (r : Request)
      → id < 2 ^ 16
      → All IsPart parts
      → r.flags.failed ≡ false
      → is_ready r.flags ≡ false
      → r.params_bytes + parts_size parts ≤ limits.max_params_bytes
      → run limits calls w (parts_bytes id parts rest) (holding limits calls w rs out s id r)
        ≡ run limits calls w rest (
            holding limits calls w rs out s id (record r {
              env = put_parts parts r.env;
              params_bytes = r.params_bytes + parts_size parts;
            }))
  unfolding parts_bytes put_parts parts_size
  run-parts rs out s id [] rest r small_id small alive unready fits =
      ap
        (λ n.
          run limits calls w rest
            (holding limits calls w rs out s id (record r { params_bytes = n })))
        (omega arith)
  run-parts rs out s id ((ps, padding) ∷ parts) rest r small_id ((pairs, pos, short, padded), small)
        alive unready fits =
      run-record limits calls w params id (pairs_bytes ps) padding (parts_bytes id parts rest) _ _
        small_id short
        (params-goes limits calls w rs out s id r (with_pairs ps r) padding (pairs_bytes ps)
          (on_params-pairs limits calls w ps r out pos pairs alive (omega (arith, fits))) unready)
      ∙ (run-parts rs out s id parts rest (with_pairs ps r) small_id small alive unready
            (omega (arith, fits))
          ∙ ap
              (λ n. run limits calls w rest (
                holding limits calls w rs out s id
                  (record r { env = put_parts parts (put_pairs ps r.env); params_bytes = n })))
              (omega arith))

  run-chunks :
      (rs : List (ℕ × Request)) (out : Bytes) (s : S) (id : ℕ) (chunks : List (Bytes × Bytes))
      (rest : Bytes) (r : Request)
      → id < 2 ^ 16
      → All IsChunk chunks
      → r.flags.failed ≡ false
      → is_ready r.flags ≡ false
      → r.body_bytes + length (body_of chunks) ≤ limits.max_stdin_bytes
      → run limits calls w (chunks_bytes id chunks rest) (holding limits calls w rs out s id r)
        ≡ run limits calls w rest
            (holding limits calls w rs out s id (fed limits calls w (body_of chunks) r))
  unfolding chunks_bytes body_of
  run-chunks rs out s id [] rest r small_id small alive unready fits =
      ap₂
        (λ b n.
          run limits calls w rest
            (holding limits calls w rs out s id (record r { body = b; body_bytes = n })))
        (sym (append-nil r.body)) (omega arith)
  run-chunks rs out s id ((c, padding) ∷ chunks) rest r small_id ((pos, short, padded), small) alive
        unready fits =
      let l = length-append c (body_of chunks) in
      run-record limits calls w stdin id c padding (chunks_bytes id chunks rest) _ _ small_id short
        (stdin-goes limits calls w rs out s id r (fed limits calls w c r) padding c
          (on_stdin-fed limits calls w c r out pos alive (omega (arith, l, fits))) unready)
      ∙ (run-chunks rs out s id chunks rest (fed limits calls w c r) small_id small alive unready
            (omega (arith, l, fits))
          ∙ ap₂
              (λ b n.
                run limits calls w rest
                  (holding limits calls w rs out s id (record r { body = b; body_bytes = n })))
              (append_assoc r.body c (body_of chunks)) (omega (arith, l)))

  run-sent :
      (id : ℕ) (q : Sent) (st : State S) (r : Request) (s : S)
      → IsSendable limits id q
      → lookup id st.requests ≡ none
      → calls.allocate_request st.outside id ≡ some (r, s)
      → IsFresh r
      → run limits calls w (sent_bytes id q) st
        ≡ run limits calls w [] (
            holding limits calls w st.requests st.out_buf
              (calls.on_request_ready s (meant q r)).1
              id
              (calls.on_request_ready s (meant q r)).0)
  unfolding sent_bytes on_params meant begun
  run-sent id q st r s ok_q absent made new =
      run-record limits calls w begin_request id (begin_content q.keep) q.begin_padding tail st _
        ok_q.small_id (omega arith)
        (begin-goes limits calls w st id q.keep q.begin_padding r s absent made new.unmarked)
      ∙ (ap (λ r'. run limits calls w tail (holding limits calls w st.requests st.out_buf s id r'))
            (on_begin-begun q.keep r)
          ∙ (run-parts st.requests st.out_buf s id q.parts _ r1 ok_q.small_id ok_q.parts_small
                (alive q.keep r new.unmarked) (unready q.keep r new.unmarked)
                (omega (arith, new.no_params, ok_q.params_fit))
              ∙ (run-record limits calls w params id [] q.params_padding _ _ _ ok_q.small_id
                    (omega arith)
                    (params-goes limits calls w st.requests st.out_buf s id r2 r3 q.params_padding
                      [] refl (waiting q.keep r new.unmarked))
                  ∙ (run-chunks st.requests st.out_buf s id q.chunks _ r3 ok_q.small_id
                        ok_q.chunks_small (alive q.keep r new.unmarked)
                        (waiting q.keep r new.unmarked) (omega (arith, new.no_body, ok_q.body_fits))
                      ∙ run-record limits calls w stdin id [] q.body_padding [] _ _ ok_q.small_id
                          (omega arith)
                          (ready-goes limits calls w st.requests st.out_buf s id
                            (fed limits calls w (body_of q.chunks) r3) q.body_padding
                            (ready q r new.unmarked))))))
    where
      r1 : Request
      r1 = begun q.keep r

      r2 : Request
      r2 = record r1 {
        env = put_parts q.parts r1.env;
        params_bytes = r1.params_bytes + parts_size q.parts;
      }

      r3 : Request
      r3 = with_params r2

      tail : Bytes
      tail = parts_bytes id q.parts (
          record_bytes params id [] q.params_padding
            (chunks_bytes id q.chunks (record_bytes stdin id [] q.body_padding [])))

-- A whole request from a web server, in one piece, as long as it keeps the limits: `process_buffer` reads all
-- of it, and calls the handler once, with a request whose environment holds the pairs in their order and
-- whose body is that of the records; nothing is written to the output, and no other request is touched. An
-- arena must be free, and no request with the same id be open.
pub process_buffer-sent_bytes :
    {S : Type 0} (limits : Limits) (calls : Callbacks S) (id : ℕ) (q : Sent) (st : State S)
    (r : Request) (s : S)
    → IsSendable limits id q
    → lookup id st.requests ≡ none
    → calls.allocate_request st.outside id ≡ some (r, s)
    → IsFresh r
    → process_buffer limits calls (sent_bytes id q) st ≡ record {
      status = ok;
      in_buf = [];
      state = record {
        requests = insert id (calls.on_request_ready s (meant q r)).0 st.requests;
        out_buf = st.out_buf;
        outside = (calls.on_request_ready s (meant q r)).1;
      };
      waiting = false;
    }
unfolding process_buffer process_loop
process_buffer-sent_bytes limits calls id q st r s ok_q absent made new =
    run-sent limits calls (sent_bytes id q) id q st r s ok_q absent made new
