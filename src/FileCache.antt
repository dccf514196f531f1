-- ===== src/FileCache.antt =====
-- src/fileio.cpp: the cache of files. Times are in nanoseconds. The table is an association list in
-- the order in which the code walks it. Each call runs alone: the lock is not modelled.
pub mod Count
pub mod Valid
pub mod Threads
use wasapi.Base.{
  ℕ, zero, suc, ◌+◌, ◌-◌, ◌%◌, ◌^◌, Bool, true, false, Option, none, some, List, [], ◌∷◌, ◌++◌,
  Bytes, length, ltb, ◌==◌, bytes_eq, if◌then◌else◌,
}

pub record CachedFile : Type 0 where
  pub content : Bytes
  pub mtime : ℕ
  pub last_check : ℕ
  pub size : ℕ

abbrev pub Entries : Type 0
Entries = List (Bytes × CachedFile)

pub record Cache : Type 0 where
  pub file_cache : Entries
  pub call_counter : ℕ
  pub total_cache_size : ℕ

-- `size_t` arithmetic.
abbrev pub add64 : ℕ → ℕ → ℕ
add64 a b = (a + b) % 2 ^ 64

abbrev pub sub64 : ℕ → ℕ → ℕ
sub64 a b = (a + (2 ^ 64 - b)) % 2 ^ 64

unfoldable pub find_file : Bytes → Entries → Option CachedFile
find_file name [] = none
find_file name ((n, f) ∷ es) = if bytes_eq n name then some f else find_file name es

unfoldable pub erase_file : Bytes → Entries → Entries
erase_file name [] = []
erase_file name ((n, f) ∷ es) = if bytes_eq n name then es else (n, f) ∷ erase_file name es

unfoldable pub remove_entry : Bytes → Cache → Cache
unfolding find_file erase_file
remove_entry name c = elim (find_file name c.file_cache) [
  | none ↦ c
  | some f ↦ record c {
    file_cache = erase_file name c.file_cache;
    total_cache_size = sub64 c.total_cache_size f.size;
  }
]

abbrev pub cached : Bytes → ℕ → ℕ → CachedFile
cached content mtime now = record {
  content = content;
  mtime = mtime;
  last_check = now;
  size = length content;
}

unfoldable pub insert_entry : Bytes → Bytes → ℕ → ℕ → Cache → Cache
unfolding remove_entry
insert_entry name content mtime now c =
    let c' = remove_entry name c in
    record c' {
      file_cache = (name, cached content mtime now) ∷ c'.file_cache;
      total_cache_size = add64 c'.total_cache_size (length content);
    }

-- The loop of `evict_ttl_unlocked`: the entries that stay, and the size without the others.
unfoldable pub evict_ttl_loop : ℕ → ℕ → Entries → ℕ → Entries × ℕ
evict_ttl_loop ttl now [] total = ([], total)
evict_ttl_loop ttl now ((n, f) ∷ es) total = elim (ltb ttl (now - f.last_check)) [
  | true ↦ evict_ttl_loop ttl now es (sub64 total f.size)
  | false ↦ let (rest, total') = evict_ttl_loop ttl now es total in ((n, f) ∷ rest, total')
]

unfoldable pub evict_ttl : ℕ → ℕ → Cache → Cache
unfolding evict_ttl_loop
evict_ttl ttl now c =
    let (es, total) = evict_ttl_loop ttl now c.file_cache c.total_cache_size in
    record c { file_cache = es; total_cache_size = total }

-- The least `last_check`, and `min_element`: the first entry that has it.
unfoldable pub least_check : ℕ → Entries → ℕ
least_check t [] = t
least_check t ((n, f) ∷ es) = least_check (if ltb f.last_check t then f.last_check else t) es

unfoldable pub erase_oldest : ℕ → Entries → ℕ → Entries × ℕ
erase_oldest t [] total = ([], total)
erase_oldest t ((n, f) ∷ es) total = elim (f.last_check == t) [
  | true ↦ (es, sub64 total f.size)
  | false ↦ let (rest, total') = erase_oldest t es total in ((n, f) ∷ rest, total')
]

-- One round of `evict_size_unlocked`.
unfoldable pub evict_oldest : Entries → ℕ → Entries × ℕ
unfolding least_check erase_oldest
evict_oldest [] total = ([], total)
evict_oldest ((n, f) ∷ es) total = erase_oldest (least_check f.last_check es) ((n, f) ∷ es) total

-- On fuel: each round erases an entry.
unfoldable pub evict_size_loop : ℕ → ℕ → Entries → ℕ → Entries × ℕ
unfolding evict_oldest
evict_size_loop limit zero es total = (es, total)
evict_size_loop limit (suc fuel) [] total = ([], total)
evict_size_loop limit (suc fuel) (e ∷ es) total = elim (ltb limit total) [
  | false ↦ (e ∷ es, total)
  | true ↦ let (es', total') = evict_oldest (e ∷ es) total in evict_size_loop limit fuel es' total'
]

unfoldable pub evict_size : ℕ → Cache → Cache
unfolding evict_size_loop
evict_size limit c =
    let (es, total) = evict_size_loop limit (length c.file_cache) c.file_cache c.total_cache_size in
    record c { file_cache = es; total_cache_size = total }

unfoldable pub maybe_maintain : ℕ → ℕ → ℕ → Cache → Cache
unfolding evict_ttl evict_size
maybe_maintain limit ttl now c =
    if c.call_counter % 10 == 0 then evict_size limit (evict_ttl ttl now c) else c

-- `last_check = now` on the entry of a name.
unfoldable pub touch : Bytes → ℕ → Entries → Entries
touch name now [] = []
touch name now ((n, f) ∷ es) =
    if bytes_eq n name then (n, record f { last_check = now }) ∷ es else (n, f) ∷ touch name now es

-- What the calls need of the configuration and the operating system: `stat` gives a file's time and
-- size, `read_file` the bytes of a file of known size, and the clocks what they show at each use.
pub record Outside : Type 0 where
  pub file_cache_max_size : ℕ
  pub file_cache_ttl : ℕ
  pub stat : Bytes → Option (ℕ × ℕ)
  pub read_file : Bytes → ℕ → Option Bytes
  pub write_file : Bytes → Bytes → Bool
  pub now : ℕ
  pub ttl_now : ℕ
  pub insert_now : ℕ
  pub time : ℕ

module _ (o : Outside) where
  -- The end of the call: `file_cache[name]` makes an empty entry if the name was evicted.
  unfoldable pub stored_copy : Bytes → Cache → Bytes × Cache
  unfolding find_file
  stored_copy name c = elim (find_file name c.file_cache) [
    | some f ↦ (f.content, c)
    | none ↦ (
      [],
      record c {
        file_cache =
            (name, record { content = []; mtime = 0; last_check = o.insert_now; size = 0 })
            ∷ c.file_cache;
      },
    )
  ]

  -- The file is read; it goes to the cache unless it is larger than all of it.
  unfoldable pub load_file : Bytes → ℕ → ℕ → Cache → Bytes × Cache
  unfolding insert_entry evict_size stored_copy
  load_file name mtime size c = elim (o.read_file name size) [
    | none ↦ ([], c)
    | some content ↦ elim (ltb o.file_cache_max_size (length content)) [
      | true ↦ (content, c)
      | false ↦
          stored_copy name
            (evict_size o.file_cache_max_size (insert_entry name content mtime o.insert_now c))
    ]
  ]

  -- The second look at the cache, with the file's time.
  unfoldable pub check_file : Bytes → ℕ → ℕ → Cache → Bytes × Cache
  unfolding find_file touch remove_entry load_file
  check_file name mtime size c = elim (find_file name c.file_cache) [
    | none ↦ load_file name mtime size c
    | some f ↦ elim (f.mtime == mtime) [
      | true ↦ (f.content, record c { file_cache = touch name o.now c.file_cache })
      | false ↦ load_file name mtime size (remove_entry name c)
    ]
  ]

  unfoldable pub stat_file : Bytes → Cache → Bytes × Cache
  unfolding check_file
  stat_file name c = elim (o.stat name) [
    | none ↦ ([], c)
    | some (mtime, size) ↦ check_file name mtime size c
  ]

  unfoldable pub lookup_file : Bytes → Cache → Bytes × Cache
  unfolding find_file stat_file
  lookup_file name c = elim (find_file name c.file_cache) [
    | none ↦ stat_file name c
    | some f ↦ elim (ltb (o.now - f.last_check) 1000000000) [
      | true ↦ (f.content, c)
      | false ↦ stat_file name c
    ]
  ]

  unfoldable pub read_entire_file_cached : Bytes → Cache → Bytes × Cache
  unfolding maybe_maintain lookup_file
  read_entire_file_cached name c = lookup_file name (
      maybe_maintain o.file_cache_max_size o.file_cache_ttl o.ttl_now
        (record c { call_counter = (c.call_counter + 1) % 2 ^ 32 }))

  unfoldable pub write_entire_file : Bytes → Bytes → Cache → Bool × Cache
  unfolding remove_entry insert_entry evict_size
  write_entire_file name content c = elim (o.write_file name content) [
    | false ↦ (false, c)
    | true ↦ elim (ltb o.file_cache_max_size (length content)) [
      | true ↦ (true, remove_entry name c)
      | false ↦
          (true, evict_size o.file_cache_max_size (insert_entry name content o.time o.insert_now c))
    ]
  ]
