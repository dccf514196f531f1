-- ===== src/Session/Identity.antt =====
-- The session id of a request in src/session.cpp.
use wasapi.Base.{
  ℕ, zero, suc, ◌-◌, ◌*◌, ◌/◌, ◌≤◌, ◌≡◌, ◌∙◌, refl, true, [], ◌∷◌, ◌++◌, Bytes, length,
  length-append, ltb, if_elim, Option-cases, inl, inr, arith,
}
use wasapi.Dynamic.{find}
use wasapi.Request.{Request}
use wasapi.Json.Values.{Parsed, parsed, error_at, parse_json}
use wasapi.Session.{
  Services, hex_chunk, session_path, random_hex, session_get_id, keep_parsed, read_session,
  session_load, set_cookie, session_start,
}

length-hex_chunk : (n v : ℕ) → length (hex_chunk n v) ≡ 2 * n
unfolding hex_chunk
length-hex_chunk zero v = refl
length-hex_chunk (suc n) v = omega (arith, length-hex_chunk n (v / 256))

more_digits :
    (chunk bytes v : ℕ) (more : Bytes)
    → 1 ≤ chunk
    → chunk ≤ suc bytes
    → length more ≡ 2 * (suc bytes - chunk)
    → length (hex_chunk chunk v ++ more) ≡ 2 * suc bytes
more_digits chunk bytes v more low high e =
    omega (arith, length-append (hex_chunk chunk v) more, length-hex_chunk chunk v)

keep_parsed-session_id : (p : Parsed) (r : Request) → (keep_parsed p r).1.session_id ≡ r.session_id
unfolding keep_parsed
keep_parsed-session_id (parsed v) r = refl
keep_parsed-session_id (error_at i) r = refl

module _ {W : Type 0} (services : Services W) where
  -- With at least as much fuel as bytes the loop of `random_hex` comes to its end, whatever numbers are
  -- drawn: the text has two digits for each byte.
  pub length-random_hex :
      (fuel bytes : ℕ) (w : W)
      → bytes ≤ fuel
      → length (random_hex services fuel bytes w).0 ≡ 2 * bytes
  unfolding random_hex
  length-random_hex zero zero w h = refl
  length-random_hex zero (suc bytes) w h = absurd (omega arith)
  length-random_hex (suc fuel) zero w h = refl
  length-random_hex (suc fuel) (suc bytes) w h =
      if_elim
        (λ chunk.
          length (
            hex_chunk chunk (services.random w).0
            ++ (random_hex services fuel (suc bytes - chunk) (services.random w).1).0)
          ≡ 2 * suc bytes)
        (ltb 8 (suc bytes))
        (λ b.
          more_digits 8 bytes (services.random w).0 _ (ground arith) (ground arith)
            (length-random_hex fuel (suc bytes - 8) (services.random w).1 (omega arith)))
        (λ b.
          more_digits (suc bytes) bytes (services.random w).0 _ (omega arith) (omega arith)
            (length-random_hex fuel (suc bytes - suc bytes) (services.random w).1 (omega arith)))

  set_cookie-session_id : (r : Request) → (set_cookie services r).session_id ≡ r.session_id
  unfolding set_cookie
  set_cookie-session_id r = elim (Option-cases (find r.cookies services.session_cookie_name)) [
    | inl e ↦ rw (e, set_cookie) refl
    | inr (v, e) ↦ rw (e, set_cookie) refl
  ]

  read_session-session_id :
      (content : Bytes) (r : Request)
      → (read_session services content r).1.session_id ≡ r.session_id
  unfolding read_session
  read_session-session_id [] r = refl
  read_session-session_id (c ∷ content) r =
      keep_parsed-session_id (parse_json services.stod (c ∷ content)) r

  session_load-session_id :
      (r : Request) (w : W) → (session_load services r w).0.1.session_id ≡ r.session_id
  unfolding session_load
  session_load-session_id r w = go r.session_id refl
    where
      go :
          (id : Bytes)
          → r.session_id ≡ id
          → (session_load services r w).0.1.session_id ≡ r.session_id
      go [] e = rw (e, session_load) e
      go (c ∷ id) e =
          rw (e, session_load)
            (read_session-session_id (services.read_file (session_path services (c ∷ id)) w).0 r
              ∙ e)

  fresh_id :
      (r : Request) (w : W)
      → r.session_id ≡ []
      → (session_get_id services true r w).0.session_id ≡ (random_hex services 16 16 w).0
  unfolding session_get_id
  fresh_id r w e = rw (e, session_get_id) refl

  -- A request without a session id gets a freshly drawn one, whatever cookies it brings: also one that
  -- names a stored session.
  pub session_start-session_id :
      (r : Request) (w : W)
      → r.session_id ≡ []
      → (session_start services r w).0.session_id ≡ (random_hex services 16 16 w).0
  unfolding session_start
  session_start-session_id r w e =
      if_elim (λ (q : Request). q.session_id ≡ (random_hex services 16 16 w).0) _ (λ b. loaded)
        (λ b. loaded)
    where
      r1 : Request
      r1 = (session_get_id services true r w).0

      w1 : W
      w1 = (session_get_id services true r w).1

      loaded :
          (session_load services (set_cookie services r1) w1).0.1.session_id
          ≡ (random_hex services 16 16 w).0
      loaded =
          session_load-session_id (set_cookie services r1) w1
          ∙ (set_cookie-session_id r1 ∙ fresh_id r w e)
