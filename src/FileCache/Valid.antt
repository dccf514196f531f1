-- ===== src/FileCache/Valid.antt =====
-- The counted size of the cache of src/fileio.cpp, and its limit.
use wasapi.Base.{
  ℕ, ◌-◌, ◌%◌, ◌^◌, ◌<◌, ◌≤◌, ◌≡◌, sym, ◌∙◌, Bytes, length, ltb, ◌==◌, Bool-cases, if_elim,
  Option-cases, inl, inr, arith,
}
use wasapi.FileCache.{
  Cache, find_file, remove_entry, insert_entry, evict_ttl, evict_size, maybe_maintain, Outside,
  stored_copy, load_file, check_file, stat_file, lookup_file, read_entire_file_cached,
  write_entire_file,
}
use wasapi.FileCache.Count.{
  total_size, total-erase_file, total-evict_ttl_loop, evict_ttl_loop-le, evict_size_loop-limited,
  total-touch,
}

-- The count is the sum of the entries' sizes, and at most the limit.
pub record IsValid (limit : ℕ) (c : Cache) : Type 0 where
  pub counted : c.total_cache_size ≡ total_size c.file_cache
  pub limited : c.total_cache_size ≤ limit

-- However far a cache is over the limit, if its counted size is right and below 2^64, the loop of
-- `evict_size_unlocked` comes to its end with the counted size right and within the limit.
pub evict_size-IsValid :
    (limit : ℕ) (c : Cache)
    → c.total_cache_size < 2 ^ 64
    → c.total_cache_size ≡ total_size c.file_cache
    → IsValid limit (evict_size limit c)
unfolding evict_size
evict_size-IsValid limit c h e =
    let (counted, limited) =
      evict_size_loop-limited limit (length c.file_cache) c.file_cache c.total_cache_size h e
        (omega arith) in
    record { counted = counted; limited = limited }

pub remove_entry-counted :
    (limit : ℕ) (name : Bytes) (c : Cache)
    → limit < 2 ^ 63
    → IsValid limit c
    → IsValid limit (remove_entry name c)
unfolding remove_entry
remove_entry-counted limit name c small v = elim (Option-cases (find_file name c.file_cache)) [
  | inl e ↦ rw (e, remove_entry) v
  | inr (f, e) ↦
      let t = total-erase_file name c.file_cache f e in
      let counted = v.counted in
      let limited = v.limited in
      rw (e, remove_entry) (record { counted = omega arith; limited = omega arith })
]

insert_entry-counted :
    (limit : ℕ) (name content : Bytes) (mtime now : ℕ) (c : Cache)
    → limit < 2 ^ 63
    → length content ≤ limit
    → IsValid limit c
    → ((insert_entry name content mtime now c).total_cache_size < 2 ^ 64)
      × ((insert_entry name content mtime now c).total_cache_size
          ≡ total_size (insert_entry name content mtime now c).file_cache)
unfolding insert_entry total_size
insert_entry-counted limit name content mtime now c small fits v =
    let w = remove_entry-counted limit name c small v in
    let e = w.counted in let le = w.limited in (omega arith, omega arith)

pub evict_ttl-IsValid :
    (limit ttl now : ℕ) (c : Cache)
    → limit < 2 ^ 63
    → IsValid limit c
    → IsValid limit (evict_ttl ttl now c)
unfolding evict_ttl
evict_ttl-IsValid limit ttl now c small v =
    let counted = v.counted in
    let limited = v.limited in
    record {
      counted = omega (
        arith,
        total-evict_ttl_loop ttl now c.file_cache c.total_cache_size 0 (omega arith) (omega arith),
      );
      limited = omega (
        arith,
        evict_ttl_loop-le ttl now c.file_cache c.total_cache_size 0 (omega arith) (omega arith),
      );
    }

maybe_maintain-IsValid :
    (limit ttl now : ℕ) (c : Cache)
    → limit < 2 ^ 63
    → IsValid limit c
    → IsValid limit (maybe_maintain limit ttl now c)
unfolding maybe_maintain
maybe_maintain-IsValid limit ttl now c small v =
    if_elim (IsValid limit) (c.call_counter % 10 == 0) (λ b. after) (λ b. v)
  where
    kept : IsValid limit (evict_ttl ttl now c)
    kept = evict_ttl-IsValid limit ttl now c small v

    bound : (evict_ttl ttl now c).total_cache_size < 2 ^ 64
    bound = let limited = kept.limited in omega arith

    after : IsValid limit (evict_size limit (evict_ttl ttl now c))
    after = evict_size-IsValid limit _ bound kept.counted

module _ (o : Outside) (small : o.file_cache_max_size < 2 ^ 63) where
  abbrev Kept : Bytes × Cache → Type 0
  Kept r = IsValid o.file_cache_max_size r.1

  pub stored_copy-IsValid :
      (name : Bytes) (c : Cache) → IsValid o.file_cache_max_size c → Kept (stored_copy o name c)
  unfolding stored_copy total_size
  stored_copy-IsValid name c v = elim (Option-cases (find_file name c.file_cache)) [
    | inl e ↦
        rw (e, stored_copy) (record { counted = omega (arith, v.counted); limited = v.limited })
    | inr (f, e) ↦ rw (e, stored_copy) v
  ]

  pub insert-IsValid :
      (name content : Bytes) (mtime now : ℕ) (c : Cache)
      → length content ≤ o.file_cache_max_size
      → IsValid o.file_cache_max_size c
      → IsValid o.file_cache_max_size
          (evict_size o.file_cache_max_size (insert_entry name content mtime now c))
  insert-IsValid name content mtime now c fits v =
      let (bound, counted) =
        insert_entry-counted o.file_cache_max_size name content mtime now c small fits v in
      evict_size-IsValid o.file_cache_max_size _ bound counted

  load_file-IsValid :
      (name : Bytes) (mtime size : ℕ) (c : Cache)
      → IsValid o.file_cache_max_size c
      → Kept (load_file o name mtime size c)
  unfolding load_file
  load_file-IsValid name mtime size c v = elim (Option-cases (o.read_file name size)) [
    | inl e ↦ rw (e, load_file) v
    | inr (content, e) ↦ elim (Bool-cases (ltb o.file_cache_max_size (length content))) [
      | inl b ↦ rw (e, load_file) (rw (b, load_file) v)
      | inr b ↦
          rw (e, load_file)
            (rw (b, load_file)
              (stored_copy-IsValid name _
                (insert-IsValid name content mtime o.insert_now c (ground arith) v)))
    ]
  ]

  check_file-IsValid :
      (name : Bytes) (mtime size : ℕ) (c : Cache)
      → IsValid o.file_cache_max_size c
      → Kept (check_file o name mtime size c)
  unfolding check_file
  check_file-IsValid name mtime size c v = elim (Option-cases (find_file name c.file_cache)) [
    | inl e ↦ rw (e, check_file) (load_file-IsValid name mtime size c v)
    | inr (f, e) ↦ elim (Bool-cases (f.mtime == mtime)) [
      | inl b ↦
          rw (e, check_file)
            (rw (b, check_file)
              (record {
                counted = v.counted ∙ sym (total-touch name o.now c.file_cache);
                limited = v.limited;
              }))
      | inr b ↦
          rw (e, check_file)
            (rw (b, check_file)
              (load_file-IsValid name mtime size _
                (remove_entry-counted o.file_cache_max_size name c small v)))
    ]
  ]

  stat_file-IsValid :
      (name : Bytes) (c : Cache) → IsValid o.file_cache_max_size c → Kept (stat_file o name c)
  unfolding stat_file
  stat_file-IsValid name c v = elim (Option-cases (o.stat name)) [
    | inl e ↦ rw (e, stat_file) v
    | inr (s, e) ↦ rw (e, stat_file) (check_file-IsValid name s.0 s.1 c v)
  ]

  lookup_file-IsValid :
      (name : Bytes) (c : Cache) → IsValid o.file_cache_max_size c → Kept (lookup_file o name c)
  unfolding lookup_file
  lookup_file-IsValid name c v = elim (Option-cases (find_file name c.file_cache)) [
    | inl e ↦ rw (e, lookup_file) (stat_file-IsValid name c v)
    | inr (f, e) ↦ elim (Bool-cases (ltb (o.now - f.last_check) 1000000000)) [
      | inl b ↦ rw (e, lookup_file) (rw (b, lookup_file) v)
      | inr b ↦ rw (e, lookup_file) (rw (b, lookup_file) (stat_file-IsValid name c v))
    ]
  ]

  -- A cached read keeps the counted size equal to the sum of the entries' sizes and within the limit,
  -- whatever the files and the clocks do, if the limit is below 2^63.
  pub read_entire_file_cached-IsValid :
      (name : Bytes) (c : Cache)
      → IsValid o.file_cache_max_size c
      → IsValid o.file_cache_max_size (read_entire_file_cached o name c).1
  unfolding read_entire_file_cached
  read_entire_file_cached-IsValid name c v = lookup_file-IsValid name _ (
      maybe_maintain-IsValid o.file_cache_max_size o.file_cache_ttl o.ttl_now _ small
        (record { counted = v.counted; limited = v.limited }))

  -- Writing a file keeps the counted size of the cache equal to the sum of the entries' sizes and
  -- within the limit, also when the write fails, if the limit is below 2^63.
  pub write_entire_file-IsValid :
      (name content : Bytes) (c : Cache)
      → IsValid o.file_cache_max_size c
      → IsValid o.file_cache_max_size (write_entire_file o name content c).1
  unfolding write_entire_file
  write_entire_file-IsValid name content c v = elim (Bool-cases (o.write_file name content)) [
    | inr e ↦ rw (e, write_entire_file) v
    | inl e ↦ elim (Bool-cases (ltb o.file_cache_max_size (length content))) [
      | inl b ↦
          rw (e, write_entire_file)
            (rw (b, write_entire_file) (remove_entry-counted o.file_cache_max_size name c small v))
      | inr b ↦
          rw (e, write_entire_file)
            (rw (b, write_entire_file)
              (insert-IsValid name content o.time o.insert_now c (ground arith) v))
    ]
  ]
