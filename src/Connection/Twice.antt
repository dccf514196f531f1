-- ===== src/Connection/Twice.antt =====
-- A request that src/fcgi-connection.cpp gives to the pool more than once.
use wasapi.Base.{
  ℕ, ◌+◌, ◌^◌, ◌<◌, ◌≡◌, refl, ap, ◌∙◌, true, false, some, [], ◌∷◌, ◌++◌, Bytes, arith,
}
use wasapi.Request.{Request}
use wasapi.Fastcgi.Records.{stdin}
use wasapi.Fastcgi.Process.{
  State, handle, goes, lookup, insert, is_ready, on_stdin, current_req, settle, with_request,
  process_loop, process_buffer,
}
use wasapi.Fastcgi.Process.Whole.{record_bytes}
use wasapi.Fastcgi.Process.Whole.Records.{header_of, run-record}
use wasapi.Connection.Requests.{Settings, Reached, internal_on_request_ready, callbacks}

-- A request of this connection whose input is all there, and that is not answered.
pub record IsUnanswered (fd id : ℕ) (r : Request) : Type 0 where
  pub named : r.id ≡ id
  pub here : r.conn_ptr ≡ some fd
  pub alive : r.flags.failed ≡ false
  pub unanswered : r.flags.responded ≡ false
  pub params_there : r.flags.params_complete ≡ true
  pub input_there : r.flags.input_complete ≡ true

module _ (settings : Settings) (fd : ℕ) where
  once_more :
      (s : Reached) (id : ℕ) (r : Request)
      → IsUnanswered fd id r
      → (internal_on_request_ready settings s r).1
        ≡ record s { active_workers = s.active_workers + 1; queued = s.queued ++ (fd, id) ∷ [] }
  unfolding internal_on_request_ready
  once_more s id r u =
      rw (u.unanswered, internal_on_request_ready)
        (rw (u.here, internal_on_request_ready)
          (ap
            (λ n. record s {
              active_workers = s.active_workers + 1;
              queued = s.queued ++ (fd, n) ∷ [];
            })
            u.named))

  handled_again :
      (st : State Reached) (id : ℕ) (r : Request) (padding : Bytes)
      → lookup id st.requests ≡ some r
      → IsUnanswered fd id r
      → (st' : State Reached) × ((handle settings.limits
              (callbacks settings fd)
              st
              (header_of stdin id [] padding)
              []
            ≡ goes st')
          × (st'.outside ≡ record (st.outside) {
            active_workers = st.outside.active_workers + 1;
            queued = st.outside.queued ++ (fd, id) ∷ [];
          }))
  unfolding handle with_request current_req settle on_stdin callbacks
  handled_again st id r padding there u = (
    record {
      requests = insert id (internal_on_request_ready settings st.outside r').0 st.requests;
      out_buf = st.out_buf;
      outside = (internal_on_request_ready settings st.outside r').1;
    },
    (rw (there, with_request) (rw (ready, settle) refl), once_more st.outside id r' still),
  )
    where
      r' : Request
      r' = record r { flags = record (r.flags) { input_complete = true } }

      ready : is_ready r'.flags ≡ true
      ready = unfold is_ready in rw (u.alive, u.unanswered, u.params_there) refl

      still : IsUnanswered fd id r'
      still = record {
        named = u.named;
        here = u.here;
        alive = u.alive;
        unanswered = u.unanswered;
        params_there = u.params_there;
        input_there = refl;
      }

-- Whoever ends the input of a request a second time, before it is answered, has it given to the pool again: each
-- empty STDIN record adds one more task for it to the queue, and counts one more worker at the connection,
-- although the task that was there has not run.
pub process_buffer-again :
    (settings : Settings) (fd id : ℕ) (padding : Bytes) (st : State Reached) (r : Request)
    → id < 2 ^ 16
    → lookup id st.requests ≡ some r
    → IsUnanswered fd id r
    → (process_buffer settings.limits
        (callbacks settings fd)
        (record_bytes stdin id [] padding [])
        st).state.outside
      ≡ record (st.outside) {
        active_workers = st.outside.active_workers + 1;
        queued = st.outside.queued ++ (fd, id) ∷ [];
      }
unfolding process_buffer process_loop
process_buffer-again settings fd id padding st r small there u =
    let (st', (e, again)) = handled_again settings fd st id r padding there u in
    ap (λ p. p.state.outside)
      (run-record settings.limits (callbacks settings fd) (record_bytes stdin id [] padding [])
        stdin id [] padding [] st st' small (omega arith) e)
    ∙ again
