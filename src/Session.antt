-- ===== src/Session.antt =====
-- src/session.cpp: sessions. The file system, through the cache of src/fileio.cpp, and the generator of
-- random numbers are parameters on a state `W` of their own.
pub mod Identity
pub mod Store
use wasapi.Base.{
  ℕ, zero, suc, ◌+◌, ◌-◌, ◌*◌, ◌/◌, ◌%◌, ◌^◌, Bool, true, false, Option, none, some, [], ◌∷◌, ◌++◌,
  Bytes, codes, ltb, ◌==◌, if◌then◌else◌, bit_and,
}
use wasapi.Dynamic.{Value, string, object, end, assign, find}
use wasapi.Request.{Request}
use wasapi.Json.Strings.{hex_char}
use wasapi.Json.Values.{Parsed, parsed, error_at, parse_json}
use wasapi.Json.Print.{to_json}
use wasapi.Http.Text.{last_or}

-- `random` draws 64 bits; `make_directory` is `mkdir_if_not_exists`; `read_file` gives no bytes for a
-- file that is not there.
pub record Services (W : Type 0) : Type 0 where
  pub random : W → ℕ × W
  pub read_file : Bytes → W → Bytes × W
  pub write_file : Bytes → Bytes → W → Bool × W
  pub make_directory : Bytes → W → W
  pub unlink : Bytes → W → W
  pub stod : Bytes → Option ℕ
  pub print_number : ℕ → Bytes
  pub session_storage_path : Bytes
  pub session_cookie_name : Bytes

-- The bytes of a drawn number from byte `i` on, each as two digits.
unfoldable pub hex_chunk : ℕ → ℕ → Bytes
unfolding hex_char
hex_chunk zero v = []
hex_chunk (suc n) v = hex_char (v % 256 / 16) ∷ hex_char (v % 16) ∷ hex_chunk n (v / 256)

-- A file that does not parse leaves the session as it was.
unfoldable pub keep_parsed : Parsed → Request → Bool × Request
keep_parsed (parsed v) r = (true, record r { session = v })
keep_parsed (error_at i) r = (false, r)

module _ {W : Type 0} (services : Services W) where
  -- `session_path`: an empty storage path stands for the current directory.
  unfoldable pub session_path : Bytes → Bytes
  unfolding last_or
  session_path id = elim services.session_storage_path [
    | [] ↦ id ++ codes ".json"
    | c ∷ dir ↦
        let slash = if last_or c dir == b'/' then [] else b'/' ∷ [] in
        (c ∷ dir ++ slash) ++ (id ++ codes ".json")
  ]

  -- On fuel: each round writes at least one byte.
  unfoldable pub random_hex : ℕ → ℕ → W → Bytes × W
  unfolding hex_chunk
  random_hex zero bytes w = ([], w)
  random_hex (suc fuel) zero w = ([], w)
  random_hex (suc fuel) (suc bytes) w =
      let (v, w') = services.random w in
      let chunk = if ltb 8 (suc bytes) then 8 else suc bytes in
      let (more, w'') = random_hex fuel (suc bytes - chunk) w' in (hex_chunk chunk v ++ more, w'')

  -- `create` is set: an id that is there stays.
  unfoldable pub session_get_id : Bool → Request → W → Request × W
  unfolding random_hex
  session_get_id create r w = elim r.session_id [
    | c ∷ id ↦ (r, w)
    | [] ↦ elim create [
      | false ↦ (r, w)
      | true ↦ let (id, w') = random_hex 16 16 w in (record r { session_id = id }, w')
    ]
  ]

  unfoldable pub read_session : Bytes → Request → Bool × Request
  unfolding parse_json keep_parsed
  read_session [] r = (false, r)
  read_session (c ∷ content) r = keep_parsed (parse_json services.stod (c ∷ content)) r

  unfoldable pub session_load : Request → W → (Bool × Request) × W
  unfolding session_path read_session
  session_load r w = elim r.session_id [
    | [] ↦ ((false, r), w)
    | c ∷ id ↦
        let (content, w') = services.read_file (session_path (c ∷ id)) w in
        (read_session content r, w')
  ]

  -- The cookie is set unless the request came with one of its name.
  unfoldable pub set_cookie : Request → Request
  unfolding find assign
  set_cookie r = elim (find r.cookies services.session_cookie_name) [
    | some v ↦ r
    | none ↦ record r {
      headers = assign r.headers (codes "Set-Cookie") (
          string (
            services.session_cookie_name
            ++ (codes "=" ++ (r.session_id ++ codes "; Path=/; HttpOnly"))));
    }
  ]

  -- `session_start`, which is always true. `clear` makes the session nil.
  unfoldable pub session_start : Request → W → Request × W
  unfolding session_get_id set_cookie session_load
  session_start r w =
      let (r1, w1) = session_get_id true r w in
      let ((loaded, r2), w2) = session_load (set_cookie r1) w1 in
      (if loaded then r2 else record r2 { session = Value.nil }, w2)

  unfoldable pub session_save : Request → W → Bool × W
  unfolding session_path to_json
  session_save r w = elim r.session_id [
    | [] ↦ (false, w)
    | c ∷ id ↦
        services.write_file (session_path (c ∷ id))
          (to_json services.print_number false 0 r.session)
          (services.make_directory services.session_storage_path w)
  ]

  -- `session_clear`, which is always true.
  unfoldable pub session_clear : Request → W → Request × W
  unfolding session_path
  session_clear r w =
      let cleared : Request = record r { session_id = []; session = object end } in
      elim r.session_id [
        | [] ↦ (cleared, w)
        | c ∷ id ↦ (cleared, services.unlink (session_path (c ∷ id)) w)
      ]
