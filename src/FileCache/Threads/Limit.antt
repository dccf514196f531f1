-- ===== src/FileCache/Threads/Limit.antt =====
-- The counted size of the cache of src/fileio.cpp under any interleaving of threads.
use wasapi.Base.{
  ℕ, ◌^◌, ◌<◌, ◌≤◌, ◌%◌, ◌-◌, ◌≡◌, sym, ◌∙◌, subst, Bytes, length, ltb, ◌==◌, if_elim, Bool-cases,
  Option-cases, inl, inr, arith,
}
use wasapi.FileCache.{Cache, find_file, Outside}
use wasapi.FileCache.Count.{total-touch}
use wasapi.FileCache.Valid.{
  IsValid, remove_entry-counted, evict_ttl-IsValid, evict_size-IsValid, stored_copy-IsValid,
  insert-IsValid,
}
use wasapi.FileCache.Threads.{
  Place, idle, begins, counted, asks, checks, loads, stores, returns, writes, puts, wrote,
  find_recent, maintain, ask, check, load, store, put_written, advance, System, update, Step, moves,
  reads, starts_write, Reachable, here, later,
}

-- A thread that is about to store a file's content has tested its size.
abbrev pub Fits : ℕ → Place → Type 0
Fits limit (stores name mtime content) = length content ≤ limit
Fits limit _ = Unit {0}

module _ (o : Outside) (small : o.file_cache_max_size < 2 ^ 63) where
  abbrev Kept : Place × Cache → Type 0
  Kept r = IsValid o.file_cache_max_size r.1 × Fits o.file_cache_max_size r.0

  maintain-IsValid :
      (count : ℕ) (c : Cache)
      → IsValid o.file_cache_max_size c
      → IsValid o.file_cache_max_size (maintain o count c)
  unfolding maintain
  maintain-IsValid count c v =
      let kept = evict_ttl-IsValid o.file_cache_max_size o.file_cache_ttl o.ttl_now c small v in
      if_elim (IsValid o.file_cache_max_size) (count % 10 == 0)
        (λ _.
          evict_size-IsValid o.file_cache_max_size _ (let l = kept.limited in omega arith)
            kept.counted)
        (λ _. v)

  find_recent-Fits :
      (name : Bytes) (now : ℕ) (c : Cache) → Fits o.file_cache_max_size (find_recent name now c)
  unfolding find_recent
  find_recent-Fits name now c = elim (Option-cases (find_file name c.file_cache)) [
    | inl e ↦ rw (e, find_recent) tt
    | inr (f, e) ↦
        rw (e, find_recent)
          (if_elim (Fits o.file_cache_max_size) (ltb (now - f.last_check) 1000000000) (λ _. tt)
            (λ _. tt))
  ]

  ask-Fits : (name : Bytes) (now : ℕ) → Fits o.file_cache_max_size (ask o name now)
  unfolding ask
  ask-Fits name now = elim (Option-cases (o.stat name)) [
    | inl e ↦ rw (e, ask) tt
    | inr (s, e) ↦ rw (e, ask) tt
  ]

  check-Kept :
      (name : Bytes) (mtime size now : ℕ) (c : Cache)
      → IsValid o.file_cache_max_size c
      → Kept (check o name mtime size now c)
  unfolding check
  check-Kept name mtime size now c v = elim (Option-cases (find_file name c.file_cache)) [
    | inl e ↦ rw (e, check) (v, tt)
    | inr (f, e) ↦ elim (Bool-cases (f.mtime == mtime)) [
      | inl b ↦
          rw (e, check)
            (rw (b, check)
              (
                record {
                  counted = v.counted ∙ sym (total-touch name now c.file_cache);
                  limited = v.limited;
                },
                tt,
              ))
      | inr b ↦
          rw (e, check)
            (rw (b, check) (remove_entry-counted o.file_cache_max_size name c small v, tt))
    ]
  ]

  load-Fits : (name : Bytes) (mtime size : ℕ) → Fits o.file_cache_max_size (load o name mtime size)
  unfolding load
  load-Fits name mtime size = elim (Option-cases (o.read_file name size)) [
    | inl e ↦ rw (e, load) tt
    | inr (content, e) ↦
        rw (e, load)
          (if_elim (Fits o.file_cache_max_size) (ltb o.file_cache_max_size (length content))
            (λ _. tt) (λ h. ground arith))
  ]

  store-Kept :
      (name : Bytes) (mtime : ℕ) (content : Bytes) (c : Cache)
      → length content ≤ o.file_cache_max_size
      → IsValid o.file_cache_max_size c
      → Kept (store o name mtime content c)
  unfolding store
  store-Kept name mtime content c fits v = (
    stored_copy-IsValid o small name _
        (insert-IsValid o small name content mtime o.insert_now c fits v),
    tt,
  )

  put_written-IsValid :
      (name content : Bytes) (c : Cache)
      → IsValid o.file_cache_max_size c
      → IsValid o.file_cache_max_size (put_written o name content c)
  unfolding put_written
  put_written-IsValid name content c v =
      if_elim (IsValid o.file_cache_max_size) (ltb o.file_cache_max_size (length content))
        (λ _. remove_entry-counted o.file_cache_max_size name c small v)
        (λ h. insert-IsValid o small name content o.time o.insert_now c (ground arith) v)

  advance-Kept :
      (p : Place) (c : Cache)
      → IsValid o.file_cache_max_size c
      → Fits o.file_cache_max_size p
      → Kept (advance o p c)
  unfolding advance
  advance-Kept idle c v f = (v, tt)
  advance-Kept (begins name) c v f = (record { counted = v.counted; limited = v.limited }, tt)
  advance-Kept (counted name count now) c v f =
      (maintain-IsValid count c v, find_recent-Fits name now (maintain o count c))
  advance-Kept (asks name now) c v f = (v, ask-Fits name now)
  advance-Kept (checks name mtime size now) c v f = check-Kept name mtime size now c v
  advance-Kept (loads name mtime size) c v f = (v, load-Fits name mtime size)
  advance-Kept (stores name mtime content) c v f = store-Kept name mtime content c f v
  advance-Kept (returns copy) c v f = (v, tt)
  advance-Kept (writes name content) c v f =
      (v, if_elim (Fits o.file_cache_max_size) (o.write_file name content) (λ _. tt) (λ _. tt))
  advance-Kept (puts name content) c v f = (put_written-IsValid name content c v, tt)
  advance-Kept (wrote done) c v f = (v, tt)

-- The cache is valid, and what the threads hold fits it.
record IsSound (limit : ℕ) (s : System) : Type 0 where
  valid : IsValid limit s.cache
  fits : (i : ℕ) → Fits limit (s.places i)

update-Fits :
    (limit i : ℕ) (p : Place) (places : ℕ → Place)
    → Fits limit p
    → ((j : ℕ) → Fits limit (places j))
    → (j : ℕ) → Fits limit (update i p places j)
update-Fits limit i p places h rest j = if_elim (Fits limit) (j == i) (λ _. h) (λ _. rest j)

Step-IsSound :
    (limit : ℕ) (s t : System) → limit < 2 ^ 63 → Step limit s t → IsSound limit s → IsSound limit t
Step-IsSound limit s _ small (moves i o e) h =
    let kept =
      subst
        (λ (n : ℕ).
          (n < 2 ^ 63)
          → IsValid n s.cache
          → Fits n (s.places i)
          → IsValid n (advance o (s.places i) s.cache).1
            × Fits n (advance o (s.places i) s.cache).0)
        e (λ small' v f. advance-Kept o small' (s.places i) s.cache v f) small h.valid (h.fits i) in
    record { valid = kept.0; fits = update-Fits limit i _ s.places kept.1 h.fits }
Step-IsSound limit s _ small (reads i name) h = record {
  valid = h.valid;
  fits = update-Fits limit i (begins name) s.places tt h.fits;
}
Step-IsSound limit s _ small (starts_write i name content) h = record {
  valid = h.valid;
  fits = update-Fits limit i (writes name content) s.places tt h.fits;
}

Reachable-IsSound :
    (limit : ℕ) (start s : System)
    → limit < 2 ^ 63
    → IsSound limit start
    → Reachable limit start s
    → IsSound limit s
Reachable-IsSound limit start _ small h here = h
Reachable-IsSound limit start t small h (later {s} r step) =
    Step-IsSound limit s t small step (Reachable-IsSound limit start s small h r)

-- Any number of threads may read and write files at once, and their moves interleave in any way: whenever
-- no thread is inside a section, the counted size of the cache is the sum of its entries' sizes and at
-- most the limit, whatever the file system answers. The limit must be below 2 ^ 63, and no call may be under
-- way at the start.
pub Reachable-IsValid :
    (limit : ℕ) (start s : System)
    → limit < 2 ^ 63
    → IsValid limit start.cache
    → ((i : ℕ) → start.places i ≡ idle)
    → Reachable limit start s
    → IsValid limit s.cache
Reachable-IsValid limit start s small v quiet r =
    (Reachable-IsSound limit start s small
      (record { valid = v; fits = λ i. subst (Fits limit) (sym (quiet i)) tt }) r).valid
