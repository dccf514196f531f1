-- ===== src/Connection/Output/Sent.antt =====
-- What `flush_connection` of src/fcgi-connection.cpp puts on the wire.
use wasapi.Base.{
  ℕ, zero, suc, ◌+◌, ◌≤◌, ◌≡◌, refl, ap, ap₂, sym, ◌∙◌, Bool, true, false, List, [], ◌∷◌, ◌++◌,
  Bytes, length, take, drop, take-append-drop, append_assoc, ltb, ◌==◌, if◌then◌else◌, if_elim,
  arith,
}
use native.Mathlib.Nat.{zero-add}
use wasapi.Connection.{Connection}
use wasapi.Connection.Output.{
  update_write_interest, SendResult, sent, blocks, fails, Flushed, flush_done, flush_connection,
}

-- What a connection has still to send.
abbrev pub unsent : Connection → Bytes
unsent c = drop c.out_pos c.out_buf

-- Bytes sent and bytes left, together.
abbrev pub total : Flushed → Bytes
total f = f.wire ++ unsent f.conn

drop_all : (n : ℕ) (s : Bytes) → length s ≤ n → drop n s ≡ []
drop_all zero [] h = refl
drop_all zero (c ∷ s) h = absurd (omega arith)
drop_all (suc n) [] h = refl
drop_all (suc n) (c ∷ s) h = drop_all n s (omega arith)

drop_nil : (m : ℕ) → drop {A = ℕ} m [] ≡ []
drop_nil zero = refl
drop_nil (suc m) = refl

drop-drop : (k n : ℕ) (s : Bytes) → drop k (drop n s) ≡ drop (n + k) s
drop-drop k zero s = rw zero-add refl
drop-drop k (suc n) [] = drop_nil k ∙ sym (drop_nil (suc n + k))
drop-drop k (suc n) (c ∷ s) = drop-drop k n s ∙ ap (λ m. drop m (c ∷ s)) next
  where
    next : suc (n + k) ≡ suc n + k
    next = omega arith

-- Changing the interest touches neither the buffer nor the position.
interest-kept :
    (c : Connection) (want : Bool)
    → ((update_write_interest c want).out_pos ≡ c.out_pos)
      × ((update_write_interest c want).out_buf ≡ c.out_buf)
unfolding update_write_interest
interest-kept c want = ground arith

interest-unsent : (c : Connection) (want : Bool) → unsent (update_write_interest c want) ≡ unsent c
interest-unsent c want = let (pos, buf) = interest-kept c want in ap₂ (λ n s. drop n s) pos buf

-- Nothing is left to send when the position has reached the end.
flush_done-total :
    (c : Connection) (wire : Bytes)
    → length c.out_buf ≤ c.out_pos
    → total (flush_done c wire) ≡ wire ++ unsent c
unfolding flush_done
flush_done-total c wire h =
    if_elim (λ (e : Connection). wire ++ unsent e ≡ wire ++ unsent c)
      ((update_write_interest c false).out_pos == 0)
      (λ e. ap (λ s. wire ++ s) (interest-unsent c false))
      (λ e. ap (λ s. wire ++ s) (sym (drop_all c.out_pos c.out_buf h)))

-- One call of `send` takes `n` bytes.
after_send :
    (c : Connection) (wire : Bytes) (n : ℕ)
    → (wire ++ take n (drop c.out_pos c.out_buf)) ++ unsent (record c { out_pos = c.out_pos + n })
      ≡ wire ++ unsent c
after_send c wire n =
    rw
      (
        append_assoc wire (take n (drop c.out_pos c.out_buf)) (drop (c.out_pos + n) c.out_buf),
        ← drop-drop n c.out_pos c.out_buf,
        take-append-drop n (drop c.out_pos c.out_buf),
      )
      refl

abbrev Keeps : Connection → Bytes → Flushed → Type 0
Keeps c wire f = total f ≡ wire ++ unsent c

-- A round either sends on or finds nothing left.
round-Keeps :
    (c : Connection) (wire : Bytes) (f : Flushed)
    → Keeps c wire f
    → Keeps c wire (if ltb c.out_pos (length c.out_buf) then f else flush_done c wire)
round-Keeps c wire f h =
    if_elim (Keeps c wire) (ltb c.out_pos (length c.out_buf)) (λ e. h)
      (λ e. flush_done-total c wire (ground arith))

-- Whatever the calls of `send` take, the bytes on the wire and the bytes still to send are, in order,
-- the bytes that there were to send: none is lost and none is sent twice.
pub flush_connection-total :
    (sends : List SendResult) (c : Connection) (wire : Bytes)
    → total (flush_connection sends c wire) ≡ wire ++ unsent c
unfolding flush_connection
flush_connection-total [] c wire = round-Keeps c wire _ refl
flush_connection-total (blocks ∷ sends) c wire =
    round-Keeps c wire _ (ap (λ s. wire ++ s) (interest-unsent c true))
flush_connection-total (fails ∷ sends) c wire = round-Keeps c wire _ refl
flush_connection-total (sent zero ∷ sends) c wire = round-Keeps c wire _ refl
flush_connection-total (sent (suc n) ∷ sends) c wire = round-Keeps c wire _ (
    flush_connection-total sends (record c { out_pos = c.out_pos + suc n })
      (wire ++ take (suc n) (drop c.out_pos c.out_buf))
    ∙ after_send c wire (suc n))
