-- ===== src/FileCache/Threads.antt =====
-- src/fileio.cpp: threads that call the cache at the same time. A move of a thread is what it does under
-- `cache_mutex` at once, or one use of the file system between two such sections. The system's answers are
-- an argument of each move.
pub mod Limit
use wasapi.Base.{
  ℕ, ◌+◌, ◌-◌, ◌%◌, ◌^◌, ◌≡◌, Bool, true, false, Option, none, some, [], Bytes, length, ltb, ◌==◌,
  if◌then◌else◌,
}
use wasapi.FileCache.{
  CachedFile, Cache, find_file, remove_entry, insert_entry, evict_ttl, evict_size, touch, Outside,
  stored_copy,
}

-- Where a thread is: outside of all calls, at the start of one or behind it, or inside, with its local
-- variables.
pub data Place : Type 0 where
  idle : Place
  begins : Bytes → Place
  counted : Bytes → ℕ → ℕ → Place
  asks : Bytes → ℕ → Place
  checks : Bytes → ℕ → ℕ → ℕ → Place
  loads : Bytes → ℕ → ℕ → Place
  stores : Bytes → ℕ → Bytes → Place
  returns : Bytes → Place
  writes : Bytes → Bytes → Place
  puts : Bytes → Bytes → Place
  wrote : Bool → Place

-- An entry that was looked at within the last second is returned.
unfoldable pub find_recent : Bytes → ℕ → Cache → Place
unfolding find_file
find_recent name now c = elim (find_file name c.file_cache) [
  | none ↦ asks name now
  | some f ↦ if ltb (now - f.last_check) 1000000000 then returns f.content else asks name now
]

module _ (o : Outside) where
  -- The first section: every tenth call maintains the cache.
  unfoldable pub maintain : ℕ → Cache → Cache
  unfolding evict_ttl evict_size
  maintain count c =
      if count % 10 == 0
      then evict_size o.file_cache_max_size (evict_ttl o.file_cache_ttl o.ttl_now c)
      else c

  unfoldable pub look_up : Bytes → ℕ → ℕ → Cache → Place × Cache
  unfolding maintain find_recent
  look_up name count now c = let kept = maintain count c in (find_recent name now kept, kept)

  unfoldable pub ask : Bytes → ℕ → Place
  ask name now = elim (o.stat name) [
    | none ↦ returns []
    | some (mtime, size) ↦ checks name mtime size now
  ]

  -- The second section: an entry with the file's time is returned, another one is erased.
  unfoldable pub check : Bytes → ℕ → ℕ → ℕ → Cache → Place × Cache
  unfolding find_file touch remove_entry
  check name mtime size now c = elim (find_file name c.file_cache) [
    | none ↦ (loads name mtime size, c)
    | some f ↦ elim (f.mtime == mtime) [
      | true ↦ (returns f.content, record c { file_cache = touch name now c.file_cache })
      | false ↦ (loads name mtime size, remove_entry name c)
    ]
  ]

  unfoldable pub load : Bytes → ℕ → ℕ → Place
  load name mtime size = elim (o.read_file name size) [
    | none ↦ returns []
    | some content ↦
        if ltb o.file_cache_max_size (length content)
        then returns content
        else stores name mtime content
  ]

  -- The third section.
  unfoldable pub store : Bytes → ℕ → Bytes → Cache → Place × Cache
  unfolding insert_entry evict_size stored_copy
  store name mtime content c =
      let (copy, c') =
        stored_copy o name
          (evict_size o.file_cache_max_size (insert_entry name content mtime o.insert_now c)) in
      (returns copy, c')

  -- The section of `write_entire_file`.
  unfoldable pub put_written : Bytes → Bytes → Cache → Cache
  unfolding remove_entry insert_entry evict_size
  put_written name content c =
      if ltb o.file_cache_max_size (length content)
      then remove_entry name c
      else evict_size o.file_cache_max_size (insert_entry name content o.time o.insert_now c)

  -- The next move of a thread.
  unfoldable pub advance : Place → Cache → Place × Cache
  unfolding look_up ask check load store put_written
  advance (begins name) c =
      let count = (c.call_counter + 1) % 2 ^ 32 in
      (counted name count o.now, record c { call_counter = count })
  advance (counted name count now) c = look_up name count now c
  advance (asks name now) c = (ask name now, c)
  advance (checks name mtime size now) c = check name mtime size now c
  advance (loads name mtime size) c = (load name mtime size, c)
  advance (stores name mtime content) c = store name mtime content c
  advance (writes name content) c =
      (if o.write_file name content then puts name content else wrote false, c)
  advance (puts name content) c = (wrote true, put_written name content c)
  advance place c = (place, c)

-- `get_cache_stats`.
pub record CacheStats : Type 0 where
  pub total_entries : ℕ
  pub total_size : ℕ
  pub max_size : ℕ

unfoldable pub get_cache_stats : Outside → Cache → CacheStats
get_cache_stats o c = record {
  total_entries = length c.file_cache;
  total_size = c.total_cache_size;
  max_size = o.file_cache_max_size;
}

-- The threads by number, and the cache that they share.
pub record System : Type 0 where
  pub cache : Cache
  pub places : ℕ → Place

abbrev pub update : ℕ → Place → (ℕ → Place) → ℕ → Place
update i p places j = if j == i then p else places j

-- Any thread makes its next move, or starts a call.
pub data Step (limit : ℕ) (s : System) : System → Type 0 where
  moves :
      (i : ℕ)
      → (o : Outside) → o.file_cache_max_size ≡ limit
      → Step limit s (record {
        cache = (advance o (s.places i) s.cache).1;
        places = update i (advance o (s.places i) s.cache).0 s.places;
      })
  reads :
      (i : ℕ)
      → (name : Bytes) → Step limit s (record s { places = update i (begins name) s.places })
  starts_write :
      (i : ℕ)
      → (name content : Bytes)
      → Step limit s (record s { places = update i (writes name content) s.places })

pub data Reachable (limit : ℕ) (start : System) : System → Type 0 where
  here : Reachable limit start start
  later : {s t : System} → Reachable limit start s → Step limit s t → Reachable limit start t
