-- ===== src/Fastcgi/Process/Front.antt =====
-- What the loop of `process_buffer` finds at the front of its input, one lemma for each case, and the
-- fuel that it needs.
use wasapi.Base.{
  ℕ, zero, suc, ◌+◌, ◌≤◌, ◌<◌, ◌≡◌, ◌≢◌, refl, sym, ◌∙◌, true, false, Bytes, length, take, drop,
  length-drop, lt→ltb, le→ltb, ltb, ◌==◌, arith, inl, inr, Bool-cases,
}
use wasapi.Fastcgi.Records.{read_header}
use wasapi.Fastcgi.Process.{
  Limits, Callbacks, State, Processed, ok, close, Handled, waits, goes, handle, total_len,
  process_loop,
}

-- The input behind the record at the front.
abbrev pub behind : Bytes → Bytes
behind rest = drop (total_len (read_header rest)) rest

abbrev pub IsWhole : Bytes → Type 0
IsWhole rest =
    (8 ≤ length rest)
    × ((read_header rest).version ≡ 1)
    × (total_len (read_header rest) ≤ length rest)

pub length-behind : (rest : Bytes) → IsWhole rest → length (behind rest) + 8 ≤ length rest
length-behind rest (h, v, t) = omega (arith, length-drop (total_len (read_header rest)) rest)

module _ {S : Type 0} (limits : Limits) (calls : Callbacks S) where
  -- The record at the front, handled.
  abbrev pub handled : Bytes → State S → Handled S
  handled rest st =
      handle limits calls st (read_header rest)
        (take (read_header rest).content_length (drop 8 rest))

  pub data Front (rest : Bytes) (st : State S) : Type 0 where
    short : length rest < 8 → Front rest st
    foreign : 8 ≤ length rest → (read_header rest).version ≢ 1 → Front rest st
    partial :
        8 ≤ length rest
        → (read_header rest).version ≡ 1
        → length rest < total_len (read_header rest)
        → Front rest st
    stuck : IsWhole rest → handled rest st ≡ waits → Front rest st
    whole : IsWhole rest → (st' : State S) → handled rest st ≡ goes st' → Front rest st

  abbrev pub stopped : Bytes → State S → Processed S
  stopped rest st = record { status = ok; in_buf = rest; state = st; waiting = false }

  pub loop_short :
      (f : ℕ) (w rest : Bytes) (st : State S)
      → length rest < 8
      → process_loop limits calls f w rest st ≡ stopped rest st
  unfolding process_loop
  loop_short zero w rest st h = refl
  loop_short (suc f) w rest st h = rw (lt→ltb _ _ h)

  pub loop_partial :
      (f : ℕ) (w rest : Bytes) (st : State S)
      → 8 ≤ length rest
      → (read_header rest).version ≡ 1
      → length rest < total_len (read_header rest)
      → process_loop limits calls f w rest st ≡ stopped rest st
  unfolding process_loop
  loop_partial zero w rest st h v t = refl
  loop_partial (suc f) w rest st h v t = rw (le→ltb _ _ h, v, lt→ltb _ _ t)

  pub loop_foreign :
      (f : ℕ) (w rest : Bytes) (st : State S)
      → 8 ≤ length rest
      → (read_header rest).version ≢ 1
      → process_loop limits calls (suc f) w rest st
        ≡ record { status = close; in_buf = rest; state = st; waiting = false }
  unfolding process_loop
  loop_foreign f w rest st h v =
      let e : ((read_header rest).version == 1) ≡ false = ground arith in rw (le→ltb _ _ h, e)

  pub loop_stuck :
      (f : ℕ) (w rest : Bytes) (st : State S)
      → IsWhole rest
      → handled rest st ≡ waits
      → process_loop limits calls (suc f) w rest st
        ≡ record { status = ok; in_buf = w; state = st; waiting = true }
  unfolding process_loop
  loop_stuck f w rest st (h, v, t) e = rw (le→ltb _ _ h, v, le→ltb _ _ t, e)

  pub loop_whole :
      (f : ℕ) (w rest : Bytes) (st st' : State S)
      → IsWhole rest
      → handled rest st ≡ goes st'
      → process_loop limits calls (suc f) w rest st
        ≡ process_loop limits calls f w (behind rest) st'
  unfolding process_loop
  loop_whole f w rest st st' (h, v, t) e = rw (le→ltb _ _ h, v, le→ltb _ _ t, e)

  handled-Front :
      (rest : Bytes) (st : State S) (o : Handled S)
      → IsWhole rest
      → handled rest st ≡ o
      → Front rest st
  handled-Front rest st waits w e = stuck w e
  handled-Front rest st (goes st') w e = whole w st' e

  pub front : (rest : Bytes) (st : State S) → Front rest st
  front rest st = elim (Bool-cases (ltb (length rest) 8)) [
    | inl e ↦ short (ground arith)
    | inr e ↦ elim (Bool-cases ((read_header rest).version == 1)) [
      | inr v ↦ foreign (ground arith) (ground arith)
      | inl v ↦ elim (Bool-cases (ltb (length rest) (total_len (read_header rest)))) [
        | inl t ↦ partial (ground arith) (ground arith) (ground arith)
        | inr t ↦ handled-Front rest st _ (ground arith, ground arith, ground arith) refl
      ]
    ]
  ]

  -- Any fuel of at least the input's length gives the same result: the loop never stops for want of it.
  pub loop_fuel :
      (f g : ℕ) (w rest : Bytes) (st : State S)
      → length rest ≤ f
      → length rest ≤ g
      → process_loop limits calls f w rest st ≡ process_loop limits calls g w rest st
  loop_fuel zero g w rest st h k =
      loop_short zero w rest st (omega arith) ∙ sym (loop_short g w rest st (omega arith))
  loop_fuel (suc f) zero w rest st h k =
      loop_short (suc f) w rest st (omega arith) ∙ sym (loop_short zero w rest st (omega arith))
  loop_fuel (suc f) (suc g) w rest st h k = go (front rest st) (loop_fuel f g w (behind rest))
    where
      go :
          Front rest st
          → ((st' : State S)
              → length (behind rest) ≤ f
              → length (behind rest) ≤ g
              → process_loop limits calls f w (behind rest) st'
                ≡ process_loop limits calls g w (behind rest) st')
          → process_loop limits calls (suc f) w rest st
            ≡ process_loop limits calls (suc g) w rest st
      go (short a) ih = loop_short (suc f) w rest st a ∙ sym (loop_short (suc g) w rest st a)
      go (foreign a b) ih = loop_foreign f w rest st a b ∙ sym (loop_foreign g w rest st a b)
      go (partial a b c) ih =
          loop_partial (suc f) w rest st a b c ∙ sym (loop_partial (suc g) w rest st a b c)
      go (stuck a e) ih = loop_stuck f w rest st a e ∙ sym (loop_stuck g w rest st a e)
      go (whole a st' e) ih =
          loop_whole f w rest st st' a e
          ∙ ih st' (omega (arith, length-behind rest a)) (omega (arith, length-behind rest a))
          ∙ sym (loop_whole g w rest st st' a e)
