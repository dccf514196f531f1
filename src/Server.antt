-- ===== src/Server.antt =====
-- src/wasapi-server.cpp: `on_request_ready`, the answer of the server to every request.
-- The session is saved through the services of src/session.cpp. `offset_value` is the offset of the
-- request's arena as a double; an `int` indent is not negative.
pub mod Answer
pub mod Main
use wasapi.Base.{
  ℕ, Bool, true, false, ◌&&◌, ◌||◌, ◌==◌, Option, none, some, [], ◌∷◌, ◌++◌, Bytes, codes, length,
  take, ltb, leb, if◌then◌else◌,
}
use wasapi.Dynamic.{Value, Fields, nil, string, object, array, number, bool, end, assign}
use wasapi.Request.{Request}
use wasapi.Json.Dump.{print_any_limited}
use wasapi.Http.Forms.{output_headers}
use wasapi.Session.{Services, session_save}
use wasapi.Fastcgi.Records.{append_stdout_text, append_end_request, request_complete}

pub record Printing : Type 0 where
  pub print_env_limit : ℕ
  pub print_indent : ℕ
  pub body_preview_limit : ℕ

unfoldable pub preview_byte : ℕ → ℕ
preview_byte b = if leb 32 b && ltb b 127 || (b == 10 || b == 13 || b == 9) then b else b'.'

-- The loop on the bytes shown.
unfoldable pub preview_loop : Bytes → Bytes
unfolding preview_byte
preview_loop [] = []
preview_loop (b ∷ s) = preview_byte b ∷ preview_loop s

-- The beginning of the body, and a note when there is more.
unfoldable pub preview : ℕ → Bytes → Bytes
unfolding preview_loop
preview limit body =
    let cap = if limit == 0 then 1024 else limit in
    preview_loop (take cap body) ++ (if ltb cap (length body) then codes "\n[truncated]" else [])

-- The members of the object that `output_headers` walks.
unfoldable pub members : Value → Fields
members (object fs) = fs
members _ = end

module _ {W : Type 0} (services : Services W) (printing : Printing) (print_size : ℕ → Bytes) where
  unfoldable pub section_text : Bytes → Value → Bytes
  unfolding print_any_limited
  section_text title v =
      title
      ++ print_any_limited services.print_number printing.print_env_limit printing.print_indent 0 v

  unfoldable pub answer_text : Request → Bytes
  unfolding section_text preview output_headers members
  answer_text r =
      output_headers services.print_number (members r.headers)
      ++ (section_text (codes "-- ENV --\n") r.env
          ++ (section_text (codes "-- CONTEXT --\n") r.context
              ++ (section_text (codes "-- COOKIES --\n") r.cookies
                  ++ (section_text (codes "-- PARAMS --\n") r.params
                      ++ (section_text (codes "-- HEADERS(OUT) --\n") r.headers
                          ++ (section_text (codes "-- FILES --\n") r.files
                              ++ (section_text (codes "-- SESSION --\n") r.session
                                  ++ (codes "\n-- BODY ("
                                      ++ (print_size r.body_bytes
                                          ++ (codes " bytes) --\n"
                                              ++ preview printing.body_preview_limit
                                                  r.body))))))))))

  -- The session is saved only if the request has one; whether that succeeds is not looked at.
  unfoldable pub save_session : Request → W → W
  unfolding session_save
  save_session r w = elim r.session_id [
    | [] ↦ w
    | c ∷ id ↦ let (saved, w') = session_save services r w in w'
  ]

  unfoldable pub answer : ℕ → Request → Bytes → W → Request × Bytes × W
  unfolding assign answer_text save_session append_stdout_text append_end_request
  answer offset_value r out w =
      let shown : Request = record r {
        env = assign r.env (codes "DBG_ARENA_ALLOC") (number offset_value);
      } in
      (
        record shown { flags = record (r.flags) { responded = true } },
        append_end_request (append_stdout_text out r.id (answer_text shown)) r.id 0
            request_complete,
        save_session shown w,
      )

  -- A request that is answered already is left alone.
  unfoldable pub on_request_ready : ℕ → Request → Bytes → W → Request × Bytes × W
  unfolding answer
  on_request_ready offset_value r out w =
      if r.flags.responded then (r, out, w) else answer offset_value r out w
