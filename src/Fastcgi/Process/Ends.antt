-- ===== src/Fastcgi/Process/Ends.antt =====
-- How a call of `process_buffer` ends, and what it leaves in the input.
use wasapi.Base.{
  ℕ, zero, suc, ◌≤◌, ◌<◌, ◌≡◌, ◌≢◌, ◌⊎◌, refl, sym, subst, true, false, Bytes, length, arith, inl,
  inr,
}
use wasapi.Fastcgi.Records.{read_header}
use wasapi.Fastcgi.Process.{
  Limits, Callbacks, State, Processed, ok, close, total_len, process_loop, process_buffer,
}
use wasapi.Fastcgi.Process.Front.{
  Front, short, foreign, partial, stuck, whole, front, behind, length-behind, loop_short,
  loop_partial, loop_foreign, loop_stuck, loop_whole,
}

-- A call asks to wait and hands the input back, or it closes at a record of another version, or nothing
-- but the beginning of a record is left.
pub data Ends {S : Type 0} (input : Bytes) (p : Processed S) : Type 0 where
  asks : p.waiting ≡ true → p.status ≡ ok → p.in_buf ≡ input → Ends input p
  refuses :
      p.waiting ≡ false
      → p.status ≡ close
      → 8 ≤ length p.in_buf
      → (read_header p.in_buf).version ≢ 1
      → Ends input p
  consumes :
      p.waiting ≡ false
      → p.status ≡ ok
      → (length p.in_buf < 8) ⊎ (length p.in_buf < total_len (read_header p.in_buf))
      → Ends input p

module _ {S : Type 0} (limits : Limits) (calls : Callbacks S) where
  loop-Ends :
      (f : ℕ) (w rest : Bytes) (st : State S)
      → length rest ≤ f
      → Ends w (process_loop limits calls f w rest st)
  loop-Ends zero w rest st h =
      subst (Ends w) (sym (loop_short limits calls zero w rest st (omega arith)))
        (consumes refl refl (inl (omega arith)))
  loop-Ends (suc f) w rest st h = go (front limits calls rest st) (loop-Ends f w (behind rest))
    where
      go :
          Front limits calls rest st
          → ((st' : State S)
              → length (behind rest) ≤ f
              → Ends w (process_loop limits calls f w (behind rest) st'))
          → Ends w (process_loop limits calls (suc f) w rest st)
      go (short a) ih =
          subst (Ends w) (sym (loop_short limits calls (suc f) w rest st a))
            (consumes refl refl (inl a))
      go (foreign a v) ih =
          subst (Ends w) (sym (loop_foreign limits calls f w rest st a v)) (refuses refl refl a v)
      go (partial a v t) ih =
          subst (Ends w) (sym (loop_partial limits calls (suc f) w rest st a v t))
            (consumes refl refl (inr t))
      go (stuck a e) ih =
          subst (Ends w) (sym (loop_stuck limits calls f w rest st a e)) (asks refl refl refl)
      go (whole a st' e) ih =
          subst (Ends w) (sym (loop_whole limits calls f w rest st st' a e))
            (ih st' (omega (arith, length-behind rest a, h)))

  -- Whatever the input and the requests are, the loop of `process_buffer` runs to an end: either an arena
  -- is missing, and the whole input is handed back; or it closes, with a record at the front whose version
  -- is not 1; or every complete record has been taken off, and fewer bytes are left than one record has.
  pub process_buffer-Ends :
      (in_buf : Bytes) (st : State S) → Ends in_buf (process_buffer limits calls in_buf st)
  unfolding process_buffer
  process_buffer-Ends in_buf st = loop-Ends (length in_buf) in_buf in_buf st (omega arith)
