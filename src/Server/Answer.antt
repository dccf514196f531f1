-- ===== src/Server/Answer.antt =====
-- What `on_request_ready` of src/wasapi-server.cpp answers.
use wasapi.Base.{
  ℕ, ◌≤◌, ◌<◌, ◌≡◌, refl, sym, subst, ◌⊎◌, inl, inr, true, false, [], ◌∷◌, Bytes, Bool-cases,
  if_elim, arith, All,
}
use wasapi.Request.{Request}
use wasapi.Session.{Services}
use wasapi.Server.{Printing, preview_byte, preview_loop, answer, on_request_ready}

-- What a terminal shows: a tab, an end of line, or a visible ASCII character.
abbrev pub Shown : ℕ → Type 0
Shown b = ((32 ≤ b) × (b < 127)) ⊎ ((b ≡ 9) ⊎ ((b ≡ 10) ⊎ (b ≡ 13)))

preview_byte-Shown : (b : ℕ) → Shown (preview_byte b)
unfolding preview_byte
preview_byte-Shown b = ground arith

-- However the body is, its preview consists of tabs, ends of lines and visible ASCII characters.
pub preview_loop-Shown : (s : Bytes) → All Shown (preview_loop s)
unfolding preview_loop
preview_loop-Shown [] = tt
preview_loop-Shown (b ∷ s) = (preview_byte-Shown b, preview_loop-Shown s)

module _ {W : Type 0} (services : Services W) (printing : Printing) (print_size : ℕ → Bytes) where
  on_request_ready-responded :
      (offset : ℕ) (r : Request) (out : Bytes) (w : W)
      → r.flags.responded ≡ true
      → on_request_ready services printing print_size offset r out w ≡ (r, out, w)
  unfolding on_request_ready
  on_request_ready-responded offset r out w h =
      if_elim (λ x. x ≡ (r, out, w)) r.flags.responded (λ e. refl) (λ e. ground (arith, e, h))

  on_request_ready-answer :
      (offset : ℕ) (r : Request) (out : Bytes) (w : W)
      → r.flags.responded ≡ false
      → on_request_ready services printing print_size offset r out w
        ≡ answer services printing print_size offset r out w
  unfolding on_request_ready
  on_request_ready-answer offset r out w h =
      if_elim (λ x. x ≡ answer services printing print_size offset r out w) r.flags.responded
        (λ e. ground (arith, e, h)) (λ e. refl)

  responded-on_request_ready :
      (offset : ℕ) (r : Request) (out : Bytes) (w : W)
      → (on_request_ready services printing print_size offset r out w).0.flags.responded ≡ true
  unfolding answer
  responded-on_request_ready offset r out w = elim (Bool-cases r.flags.responded) [
    | inl e ↦
        subst (λ (x : Request × Bytes × W). x.0.flags.responded ≡ true)
          (sym (on_request_ready-responded offset r out w e)) e
    | inr e ↦
        subst (λ (x : Request × Bytes × W). x.0.flags.responded ≡ true)
          (sym (on_request_ready-answer offset r out w e)) refl
  ]

  -- A request is answered once: the request that comes out, given to `on_request_ready` again with any
  -- output and any state of the session store, is left as it is, and nothing is written or saved.
  pub on_request_ready-again :
      (offset offset' : ℕ) (r : Request) (out out' : Bytes) (w w' : W)
      → on_request_ready services printing print_size offset'
          (on_request_ready services printing print_size offset r out w).0
          out'
          w'
        ≡ ((on_request_ready services printing print_size offset r out w).0, out', w')
  on_request_ready-again offset offset' r out out' w w' =
      on_request_ready-responded offset' _ out' w' (responded-on_request_ready offset r out w)
