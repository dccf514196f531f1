-- ===== src/Session/Store.antt =====
-- The sessions that src/session.cpp saves and loads again.
use wasapi.Base.{ℕ, ◌≡◌, ◌∙◌, sym, ap, Bool, true, false, [], ◌∷◌, Bytes, append-nil}
use wasapi.Dynamic.{Value}
use wasapi.Request.{Request}
use wasapi.Json.Values.{parsed, parse_json}
use wasapi.Json.Print.{to_json}
use wasapi.Json.RoundTrip.{parse_json-to_json}
use wasapi.Json.RoundTrip.Compact.{show, to_json_inner-show}
use wasapi.Json.RoundTrip.Plain.{IsPlain, Begins, show-Begins}
use wasapi.Session.{Services, keep_parsed, read_session, session_path, session_load, session_save}

-- A file that was written is read with the same content.
abbrev pub KeepsFiles : {W : Type 0} → Services W → Type 0
KeepsFiles {W} services =
    (path content : Bytes) (w w' : W)
    → services.write_file path content w ≡ (true, w')
    → (services.read_file path w').0 ≡ content

module _ {W : Type 0} (services : Services W) where
  text : Value → Bytes
  text v = to_json services.print_number false 0 v

  text-Begins : (v : Value) → IsPlain services.stod services.print_number v → Begins (text v)
  unfolding text to_json
  text-Begins v plain = record {
    first = shown.first;
    others = shown.others;
    whole = sym (append-nil _) ∙ (to_json_inner-show services.print_number 0 0 v [] ∙ shown.whole);
    black = shown.black;
    open_ended = shown.open_ended;
  }
    where
      shown : Begins (show services.print_number v [])
      shown = show-Begins services.stod services.print_number v [] plain

  read_session-some :
      (content : Bytes) (r : Request) (v : Value)
      → Begins content
      → parse_json services.stod content ≡ parsed v
      → read_session services content r ≡ (true, record r { session = v })
  unfolding read_session keep_parsed
  read_session-some content r v b e =
      ap (λ t. read_session services t r) b.whole
      ∙ ap (λ p. keep_parsed p r) (sym (ap (λ t. parse_json services.stod t) b.whole) ∙ e)

  session_load-id :
      (r : Request) (w : W) (c : ℕ) (id : Bytes)
      → r.session_id ≡ c ∷ id
      → (session_load services r w).0
        ≡ read_session services (services.read_file (session_path services (c ∷ id)) w).0 r
  unfolding session_load
  session_load-id r w c id e =
      ap
        (λ (s : Bytes).
          let loaded : (Bool × Request) × W = elim s [
            | [] ↦ ((false, r), w)
            | d ∷ name ↦
                let (content, w') = services.read_file (session_path services (d ∷ name)) w in
                (read_session services content r, w')
          ] in
          loaded.0)
        e

  session_save-id :
      (r : Request) (w : W) (c : ℕ) (id : Bytes)
      → r.session_id ≡ c ∷ id
      → session_save services r w
        ≡ services.write_file
            (session_path services (c ∷ id))
            (text r.session)
            (services.make_directory services.session_storage_path w)
  unfolding session_save text
  session_save-id r w c id e =
      ap
        (λ (s : Bytes). elim s [
          | [] ↦ (false, w)
          | d ∷ name ↦
              services.write_file (session_path services (d ∷ name)) (text r.session)
                (services.make_directory services.session_storage_path w)
        ])
        e

  -- A session that was saved is loaded by any request with the same session id, if the store keeps what it
  -- is given and the session's value is one that JSON text keeps.
  pub session_load-session_save :
      (r r' : Request) (w w' : W) (c : ℕ) (id : Bytes)
      → KeepsFiles services
      → IsPlain services.stod services.print_number r.session
      → r.session_id ≡ c ∷ id
      → r'.session_id ≡ c ∷ id
      → session_save services r w ≡ (true, w')
      → (session_load services r' w').0 ≡ (true, record r' { session = r.session })
  unfolding text
  session_load-session_save r r' w w' c id keeps plain e e' h =
      session_load-id r' w' c id e'
      ∙ (ap (λ t. read_session services t r')
            (keeps (session_path services (c ∷ id)) (text r.session) _ w'
              (sym (session_save-id r w c id e) ∙ h))
          ∙ read_session-some (text r.session) r' r.session (text-Begins r.session plain)
              (parse_json-to_json services.stod services.print_number 0 r.session plain))
