-- ===== src/Fastcgi/Process/Chunks.antt =====
-- How the input is cut into reads does not matter to `process_buffer`.
use wasapi.Base.{
  ℕ, zero, suc, ◌≤◌, ◌≡◌, refl, sym, ap, ◌∙◌, false, ◌++◌, Bytes, length, take, drop, length-append,
  length-drop, get_or-append, take-append_le, drop-append_le, arith,
}
use wasapi.Fastcgi.Records.{read_header}
use wasapi.Fastcgi.Process.{
  Limits, Callbacks, State, Processed, ok, total_len, process_loop, process_buffer,
}
use wasapi.Fastcgi.Process.Front.{
  IsWhole, behind, length-behind, handled, Front, short, foreign, partial, stuck, whole, stopped,
  front, loop_short, loop_partial, loop_foreign, loop_stuck, loop_whole, loop_fuel,
}

-- A whole header is read the same whatever follows.
read_header-append : (rest b : Bytes) → 8 ≤ length rest → read_header (rest ++ b) ≡ read_header rest
unfolding read_header
read_header-append rest b h = ground (
  arith,
  get_or-append rest b 0 0,
  get_or-append rest b 1 0,
  get_or-append rest b 2 0,
  get_or-append rest b 3 0,
  get_or-append rest b 4 0,
  get_or-append rest b 5 0,
  get_or-append rest b 6 0,
)

IsWhole-append : (rest b : Bytes) → IsWhole rest → IsWhole (rest ++ b)
IsWhole-append rest b (h, v, t) =
    rw (read_header-append rest b h)
      (omega (arith, length-append rest b), v, omega (arith, length-append rest b))

behind-append : (rest b : Bytes) → IsWhole rest → behind (rest ++ b) ≡ behind rest ++ b
behind-append rest b (h, v, t) =
    rw (read_header-append rest b h) (drop-append_le (total_len (read_header rest)) rest b t)

-- The content of a whole record is all there.
content-append :
    (rest b : Bytes)
    → IsWhole rest
    → take (read_header rest).content_length (drop 8 (rest ++ b))
      ≡ take (read_header rest).content_length (drop 8 rest)
content-append rest b (h, v, t) = rw (drop-append_le 8 rest b h) (
    take-append_le (read_header rest).content_length (drop 8 rest) b
      (omega (arith, length-drop 8 rest)))

module _ {S : Type 0} (limits : Limits) (calls : Callbacks S) where
  handled-append :
      (rest b : Bytes) (st : State S)
      → IsWhole rest
      → handled limits calls (rest ++ b) st ≡ handled limits calls rest st
  handled-append rest b st w = rw (read_header-append rest b w.0, content-append rest b w)

  -- Where the loop stopped at once, nothing was taken from the input.
  stopped-append :
      (f g : ℕ) (w w' rest b left : Bytes) (st st1 : State S)
      → length (rest ++ b) ≤ g
      → process_loop limits calls f w rest st ≡ stopped limits calls rest st
      → process_loop limits calls f w rest st ≡ stopped limits calls left st1
      → process_loop limits calls g w' (rest ++ b) st
        ≡ process_loop limits calls (length (left ++ b)) w' (left ++ b) st1
  stopped-append f g w w' rest b left st st1 k s e =
      let p = sym s ∙ e in
      rw (← ap (λ (r : Processed S). r.in_buf) p, ← ap (λ (r : Processed S). r.state) p)
        (loop_fuel limits calls g (length (rest ++ b)) w' (rest ++ b) st k (omega arith))

  -- The loop on `rest`, then on what it left with `b` behind it, is the loop on both at once.
  loop-append :
      (f g : ℕ) (w w' rest b left : Bytes) (st st1 : State S)
      → length rest ≤ f
      → length (rest ++ b) ≤ g
      → process_loop limits calls f w rest st ≡ stopped limits calls left st1
      → process_loop limits calls g w' (rest ++ b) st
        ≡ process_loop limits calls (length (left ++ b)) w' (left ++ b) st1
  loop-append zero g w w' rest b left st st1 h k e =
      stopped-append zero g w w' rest b left st st1 k
        (loop_short limits calls zero w rest st (omega arith)) e
  loop-append (suc f) zero w w' rest b left st st1 h k e =
      stopped-append (suc f) zero w w' rest b left st st1 k
        (loop_short limits calls (suc f) w rest st (omega (arith, length-append rest b))) e
  loop-append (suc f) (suc g) w w' rest b left st st1 h k e =
      go (front limits calls rest st) (λ st'. loop-append f g w w' (behind rest) b left st' st1)
    where
      go :
          Front limits calls rest st
          → ((st' : State S)
              → length (behind rest) ≤ f
              → length (behind rest ++ b) ≤ g
              → process_loop limits calls f w (behind rest) st' ≡ stopped limits calls left st1
              → process_loop limits calls g w' (behind rest ++ b) st'
                ≡ process_loop limits calls (length (left ++ b)) w' (left ++ b) st1)
          → process_loop limits calls (suc g) w' (rest ++ b) st
            ≡ process_loop limits calls (length (left ++ b)) w' (left ++ b) st1
      go (short a) ih =
          stopped-append (suc f) (suc g) w w' rest b left st st1 k
            (loop_short limits calls (suc f) w rest st a) e
      go (partial a v t) ih =
          stopped-append (suc f) (suc g) w w' rest b left st st1 k
            (loop_partial limits calls (suc f) w rest st a v t) e
      go (foreign a n) ih = absurd (
          cc (
            ap (λ (r : Processed S). r.status)
              (sym (loop_foreign limits calls f w rest st a n) ∙ e)))
      go (stuck a x) ih = absurd (
          cc (
            ap (λ (r : Processed S). r.waiting)
              (sym (loop_stuck limits calls f w rest st a x) ∙ e)))
      go (whole a st' x) ih =
          loop_whole limits calls g w' (rest ++ b) st st' (IsWhole-append rest b a)
            (handled-append rest b st a ∙ x)
          ∙ rw (behind-append rest b a) (
              ih st' (omega (arith, length-behind rest a))
                (omega (
                  arith,
                  length-behind rest a,
                  length-append (behind rest) b,
                  length-append rest b,
                ))
                (sym (loop_whole limits calls f w rest st st' a x) ∙ e))

  -- The `in_buf` handed back shows in the result only when the loop waits for an arena.
  loop_whole_input :
      (f : ℕ) (w w' rest : Bytes) (st : State S)
      → (process_loop limits calls f w rest st).waiting ≡ false
      → process_loop limits calls f w' rest st ≡ process_loop limits calls f w rest st
  loop_whole_input zero w w' rest st h = unfold process_loop in refl
  loop_whole_input (suc f) w w' rest st h =
      go (front limits calls rest st) (loop_whole_input f w w' (behind rest))
    where
      go :
          Front limits calls rest st
          → ((st' : State S)
              → (process_loop limits calls f w (behind rest) st').waiting ≡ false
              → process_loop limits calls f w' (behind rest) st'
                ≡ process_loop limits calls f w (behind rest) st')
          → process_loop limits calls (suc f) w' rest st
            ≡ process_loop limits calls (suc f) w rest st
      go (short a) ih =
          loop_short limits calls _ w' rest st a ∙ sym (loop_short limits calls _ w rest st a)
      go (foreign a n) ih =
          loop_foreign limits calls f w' rest st a n
          ∙ sym (loop_foreign limits calls f w rest st a n)
      go (partial a v t) ih =
          loop_partial limits calls (suc f) w' rest st a v t
          ∙ sym (loop_partial limits calls (suc f) w rest st a v t)
      go (stuck a x) ih =
          absurd
            (cc (h, ap (λ (r : Processed S). r.waiting) (loop_stuck limits calls f w rest st a x)))
      go (whole a st' x) ih =
          let e = loop_whole limits calls f w rest st st' a x in
          loop_whole limits calls f w' rest st st' a x
          ∙ ih st' (sym (ap (λ (r : Processed S). r.waiting) e) ∙ h)
          ∙ sym e

  -- If `process_buffer` consumed what it could of `a` (it neither closed nor waited), then processing
  -- what it left, once `b` has arrived behind it, gives what processing `a` and `b` at once gives,
  -- unless that waits for an arena.
  pub process_buffer-append :
      (a b left : Bytes) (st st1 : State S)
      → process_buffer limits calls a st
        ≡ record { status = ok; in_buf = left; state = st1; waiting = false }
      → (process_buffer limits calls (left ++ b) st1).waiting ≡ false
      → process_buffer limits calls (a ++ b) st ≡ process_buffer limits calls (left ++ b) st1
  unfolding process_buffer
  process_buffer-append a b left st st1 e h =
      loop-append (length a) (length (a ++ b)) a (a ++ b) a b left st st1 (omega arith)
        (omega arith) e
      ∙ loop_whole_input (length (left ++ b)) (left ++ b) (a ++ b) (left ++ b) st1 h
