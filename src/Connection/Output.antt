-- ===== src/Connection/Output.antt =====
-- src/fcgi-connection.cpp: `update_write_interest` and `flush_connection`.
pub mod Sent
use wasapi.Base.{
  ℕ, zero, suc, ◌+◌, ◌-◌, Bool, true, false, not, List, [], ◌∷◌, ◌++◌, Bytes, length, take, drop,
  ltb, ◌==◌, if◌then◌else◌,
}
use wasapi.Connection.{Connection, should_close_connection}

-- With `maybe_update_epoll`, which sets the mask to what is asked for.
unfoldable pub update_write_interest : Connection → Bool → Connection
update_write_interest c want =
    if c.writes
    then (if want then c else record c { writes = false; want_write_interest = false })
    else (if want then record c { writes = true; want_write_interest = true } else c)

-- What `send` returns: a number of bytes, that it would block, or an error.
pub data SendResult : Type 0 where
  sent : ℕ → SendResult
  blocks : SendResult
  fails : SendResult

-- The connection, the bytes that went out, and whether the connection goes on the close queue.
pub record Flushed : Type 0 where
  pub conn : Connection
  pub wire : Bytes
  pub queues_close : Bool

-- Nothing is left to send.
unfoldable pub flush_done : Connection → Bytes → Flushed
unfolding update_write_interest should_close_connection
flush_done c wire =
    let idle = update_write_interest c false in
    let emptied : Connection =
      if idle.out_pos == 0 then idle else record idle { out_buf = []; out_pos = 0 } in
    record { conn = emptied; wire = wire; queues_close = should_close_connection emptied }

-- The loop, over the results of the calls of `send`; `sent 0` is an error. A list that ends too soon
-- stands for a call that has not returned.
unfoldable pub flush_connection : List SendResult → Connection → Bytes → Flushed
unfolding flush_done update_write_interest
flush_connection [] c wire =
    if ltb c.out_pos (length c.out_buf)
    then record { conn = c; wire = wire; queues_close = false }
    else flush_done c wire
flush_connection (blocks ∷ sends) c wire =
    if ltb c.out_pos (length c.out_buf)
    then record { conn = update_write_interest c true; wire = wire; queues_close = false }
    else flush_done c wire
flush_connection (fails ∷ sends) c wire =
    if ltb c.out_pos (length c.out_buf)
    then record { conn = record c { closed = true }; wire = wire; queues_close = false }
    else flush_done c wire
flush_connection (sent zero ∷ sends) c wire =
    if ltb c.out_pos (length c.out_buf)
    then record { conn = record c { closed = true }; wire = wire; queues_close = false }
    else flush_done c wire
flush_connection (sent (suc n) ∷ sends) c wire =
    let after =
      flush_connection sends (record c { out_pos = c.out_pos + suc n })
        (wire ++ take (suc n) (drop c.out_pos c.out_buf)) in
    if ltb c.out_pos (length c.out_buf) then after else flush_done c wire
