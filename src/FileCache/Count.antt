-- ===== src/FileCache/Count.antt =====
-- The counted size of the entries of the cache of src/fileio.cpp, under each way of erasing some.
use wasapi.Base.{
  ℕ, zero, suc, ◌+◌, ◌-◌, ◌^◌, ◌<◌, ◌≤◌, ◌≡◌, refl, Bool, ◌||◌, ◌⊎◌, ap, true, false, some, [], ◌∷◌,
  Bytes, length, ltb, ◌==◌, bytes_eq, if◌then◌else◌, Bool-cases, inl, inr, arith,
}
use wasapi.FileCache.{
  CachedFile, Entries, sub64, find_file, erase_file, evict_ttl_loop, least_check, erase_oldest,
  evict_oldest, evict_size_loop, touch,
}

unfoldable pub total_size : Entries → ℕ
total_size [] = 0
total_size ((n, f) ∷ es) = f.size + total_size es

sub64_exact : (a b : ℕ) → a < 2 ^ 64 → b ≤ a → sub64 a b ≡ a - b
sub64_exact a b h le = omega arith

pub total-erase_file :
    (name : Bytes) (es : Entries) (f : CachedFile)
    → find_file name es ≡ some f
    → total_size es ≡ f.size + total_size (erase_file name es)
unfolding find_file erase_file total_size
total-erase_file name [] f h = ground arith
total-erase_file name ((n, g) ∷ es) f h = ground (arith, total-erase_file name es f)

total-erase_oldest :
    (t : ℕ) (es : Entries) (total extra : ℕ)
    → total < 2 ^ 64
    → total ≡ extra + total_size es
    → (erase_oldest t es total).1 ≡ extra + total_size (erase_oldest t es total).0
unfolding erase_oldest total_size
total-erase_oldest t [] total extra h e = e
total-erase_oldest t ((n, f) ∷ es) total extra h e = elim (Bool-cases (f.last_check == t)) [
  | inl b ↦ rw (b, erase_oldest) (omega arith)
  | inr b ↦
      rw (b, erase_oldest)
        (omega (arith, total-erase_oldest t es total (extra + f.size) h (omega arith)))
]

pub total-evict_ttl_loop :
    (ttl now : ℕ) (es : Entries) (total extra : ℕ)
    → total < 2 ^ 64
    → total ≡ extra + total_size es
    → (evict_ttl_loop ttl now es total).1 ≡ extra + total_size (evict_ttl_loop ttl now es total).0
unfolding evict_ttl_loop total_size
total-evict_ttl_loop ttl now [] total extra h e = e
total-evict_ttl_loop ttl now ((n, f) ∷ es) total extra h e =
    elim (Bool-cases (ltb ttl (now - f.last_check))) [
      | inl b ↦
          rw (b, evict_ttl_loop)
            (total-evict_ttl_loop ttl now es (sub64 total f.size) extra (omega arith) (omega arith))
      | inr b ↦
          rw (b, evict_ttl_loop)
            (omega (arith, total-evict_ttl_loop ttl now es total (extra + f.size) h (omega arith)))
    ]

-- Erasing never raises the count.
pub evict_ttl_loop-le :
    (ttl now : ℕ) (es : Entries) (total extra : ℕ)
    → total < 2 ^ 64
    → total ≡ extra + total_size es
    → (evict_ttl_loop ttl now es total).1 ≤ total
unfolding evict_ttl_loop total_size
evict_ttl_loop-le ttl now [] total extra h e = omega arith
evict_ttl_loop-le ttl now ((n, f) ∷ es) total extra h e =
    elim (Bool-cases (ltb ttl (now - f.last_check))) [
      | inl b ↦
          rw (b, evict_ttl_loop)
            (omega (
              arith,
              evict_ttl_loop-le ttl now es (sub64 total f.size) extra (omega arith) (omega arith),
            ))
      | inr b ↦
          rw (b, evict_ttl_loop)
            (evict_ttl_loop-le ttl now es total (extra + f.size) h (omega arith))
    ]

erase_oldest-le :
    (t : ℕ) (es : Entries) (total extra : ℕ)
    → total < 2 ^ 64
    → total ≡ extra + total_size es
    → (erase_oldest t es total).1 ≤ total
unfolding erase_oldest total_size
erase_oldest-le t [] total extra h e = omega arith
erase_oldest-le t ((n, f) ∷ es) total extra h e = elim (Bool-cases (f.last_check == t)) [
  | inl b ↦ rw (b, erase_oldest) (omega arith)
  | inr b ↦ rw (b, erase_oldest) (erase_oldest-le t es total (extra + f.size) h (omega arith))
]

has_check : ℕ → Entries → Bool
has_check t [] = false
has_check t ((n, f) ∷ es) = (f.last_check == t) || has_check t es

-- The least time is the one at the start or some entry's.
least_check-has :
    (t : ℕ) (es : Entries) → (least_check t es ≡ t) ⊎ (has_check (least_check t es) es ≡ true)
unfolding least_check has_check
least_check-has t [] = inl refl
least_check-has t ((n, f) ∷ es) =
    grind (arith, least_check-has (if ltb f.last_check t then f.last_check else t) es)

erase_oldest-shorter :
    (t : ℕ) (es : Entries) (total : ℕ)
    → has_check t es ≡ true
    → suc (length (erase_oldest t es total).0) ≡ length es
unfolding erase_oldest has_check
erase_oldest-shorter t [] total h = ground arith
erase_oldest-shorter t ((n, f) ∷ es) total h = elim (Bool-cases (f.last_check == t)) [
  | inl b ↦ rw (b, erase_oldest) refl
  | inr b ↦ rw (b, erase_oldest) (ap suc (erase_oldest-shorter t es total (ground arith)))
]

evict_oldest-shorter :
    (n : Bytes) (f : CachedFile) (es : Entries) (total : ℕ)
    → length (evict_oldest ((n, f) ∷ es) total).0 ≡ length es
unfolding evict_oldest has_check
evict_oldest-shorter n f es total =
    omega (arith, erase_oldest-shorter (least_check f.last_check es) ((n, f) ∷ es) total there)
  where
    there : has_check (least_check f.last_check es) ((n, f) ∷ es) ≡ true
    there = grind (arith, least_check-has f.last_check es)

evict_oldest-le :
    (n : Bytes) (f : CachedFile) (es : Entries) (total : ℕ)
    → total < 2 ^ 64
    → total ≡ total_size ((n, f) ∷ es)
    → (evict_oldest ((n, f) ∷ es) total).1 ≤ total
unfolding evict_oldest
evict_oldest-le n f es total h e = erase_oldest-le _ ((n, f) ∷ es) total 0 h (omega arith)

evict_oldest-total :
    (n : Bytes) (f : CachedFile) (es : Entries) (total : ℕ)
    → total < 2 ^ 64
    → total ≡ total_size ((n, f) ∷ es)
    → (evict_oldest ((n, f) ∷ es) total).1 ≡ total_size (evict_oldest ((n, f) ∷ es) total).0
unfolding evict_oldest
evict_oldest-total n f es total h e =
    omega (
      arith,
      total-erase_oldest (least_check f.last_check es) ((n, f) ∷ es) total 0 h (omega arith),
    )

-- With as much fuel as there are entries, the loop ends with the count right and within the limit.
pub evict_size_loop-limited :
    (limit fuel : ℕ) (es : Entries) (total : ℕ)
    → total < 2 ^ 64
    → total ≡ total_size es
    → length es ≤ fuel
    → ((evict_size_loop limit fuel es total).1 ≡ total_size (evict_size_loop limit fuel es total).0)
      × ((evict_size_loop limit fuel es total).1 ≤ limit)
unfolding evict_size_loop total_size
evict_size_loop-limited limit zero [] total h e le = (e, omega arith)
evict_size_loop-limited limit zero (x ∷ es) total h e le = absurd (omega arith)
evict_size_loop-limited limit (suc fuel) [] total h e le = (e, omega arith)
evict_size_loop-limited limit (suc fuel) ((n, f) ∷ es) total h e le =
    elim (Bool-cases (ltb limit total)) [
      | inl b ↦
          rw (b, evict_size_loop)
            (evict_size_loop-limited limit fuel _ _
              (omega (arith, evict_oldest-le n f es total h e))
              (evict_oldest-total n f es total h e)
              (omega (arith, evict_oldest-shorter n f es total)))
      | inr b ↦ rw (b, evict_size_loop) (e, ground arith)
    ]

pub total-touch :
    (name : Bytes) (now : ℕ) (es : Entries) → total_size (touch name now es) ≡ total_size es
unfolding touch total_size
total-touch name now [] = refl
total-touch name now ((n, f) ∷ es) = elim (Bool-cases (bytes_eq n name)) [
  | inl b ↦ rw (b, touch) refl
  | inr b ↦ rw (b, touch) (ap (◌+◌ f.size) (total-touch name now es))
]
