-- ===== src/Memory.antt =====
-- src/memory.h and src/memory.cpp: the arenas and their manager.
-- An `Arena*` is the arena's place in the vector `arenas`, which only `create_arenas` changes. The
-- counter `available_count` is read without the lock; here it is a field like the others.
-- `create_arenas` is modelled for a `malloc` that gives the memory asked for.
pub mod Pool
pub mod Release
pub mod Block
pub mod Kept
use wasapi.Base.{
  ℕ, zero, suc, ◌+◌, ◌-◌, ◌%◌, bit_and, ◌^◌, ltb, ◌≡◌, Bool, true, false, Option, none, some, List,
  [], ◌∷◌, ◌++◌, length, get_elem?, set, if◌then◌else◌,
}

pub record Arena : Type 0 where
  pub capacity : ℕ
  pub offset : ℕ
  pub management_flag : ℕ

unfoldable pub reset : Arena → Arena
reset a = record a { offset = 0 }

pub record Manager : Type 0 where
  pub arenas : List Arena
  pub in_use : List Bool
  pub available_count : ℕ

-- The loop of `create_arenas` from index `i`, with `n` rounds left. Each arena starts empty.
unfoldable pub fresh_arenas : ℕ → ℕ → ℕ → List Arena
fresh_arenas zero i capacity = []
fresh_arenas (suc n) i capacity =
    record { capacity = capacity; offset = 0; management_flag = i }
    ∷ fresh_arenas n (suc i) capacity

unfoldable pub all_free : ℕ → List Bool
all_free zero = []
all_free (suc n) = false ∷ all_free n

unfoldable pub create_arenas : ℕ → ℕ → Manager
unfolding fresh_arenas all_free
create_arenas count capacity = record {
  arenas = fresh_arenas count 0 capacity;
  in_use = all_free count;
  available_count = count;
}

-- The scan of `get`: the first index at or after `i` that is not in use.
unfoldable pub first_free : List Bool → ℕ → Option ℕ
first_free [] i = none
first_free (true ∷ us) i = first_free us (suc i)
first_free (false ∷ us) i = some i

-- `none` is the null pointer; the manager is then as it was.
unfoldable pub get : Manager → Option (ℕ × Manager)
unfolding first_free
get m = elim (first_free m.in_use 0) [
  | none ↦ none
  | some i ↦
      some (i, record m { in_use = set m.in_use i true; available_count = m.available_count - 1 })
]

-- `release` at the index that the arena's `management_flag` names.
unfoldable pub release_at : Manager → ℕ → Arena → ℕ → Manager
unfolding reset
release_at m p a i = elim (get_elem? m.in_use i) [
  | none ↦ m
  | some used ↦
      if used
      then record m {
        in_use = set m.in_use i false;
        available_count = m.available_count + 1;
        arenas = set m.arenas p (reset a);
      }
      else m
]

-- `release(p)`; a null pointer, or one to no arena of the manager, changes nothing.
unfoldable pub release : Manager → Option ℕ → Manager
unfolding release_at
release m none = m
release m (some p) = elim (get_elem? m.arenas p) [
  | none ↦ m
  | some a ↦ release_at m p a a.management_flag
]

-- `alloc` in an arena whose memory starts at `base`: the address of the block. Everything is `size_t`
-- arithmetic: `low` is `align - 1`, and its complement is the mask. Nothing is the null pointer.
unfoldable pub alloc : ℕ → ℕ → ℕ → Arena → Option (ℕ × Arena)
alloc base sz align a =
    let cur = (base + a.offset) % 2 ^ 64 in
    let low = (align + (2 ^ 64 - 1)) % 2 ^ 64 in
    let aligned = bit_and ((cur + low) % 2 ^ 64) (2 ^ 64 - 1 - low) in
    let new_off = (aligned + (2 ^ 64 - base) + sz) % 2 ^ 64 in
    if ltb a.capacity new_off then none else some (aligned, record a { offset = new_off })
