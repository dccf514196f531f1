-- ===== src/Memory/Block.antt =====
-- Where `alloc` of src/memory.cpp places its blocks.
use native.Mathlib.Nat.{div-add-mod', mod-lt, mul-mod_left, one-le-pow}
use wasapi.Base.{
  ℕ, ◌+◌, ◌-◌, ◌*◌, ◌/◌, ◌%◌, ◌^◌, ◌≤◌, ◌<◌, bit_and, ◌≡◌, refl, sym, ◌∙◌, Option, none, some, ltb,
  if◌then◌else◌, arith,
}
use wasapi.Base.Masks.{clear_low}
use wasapi.Memory.{Arena, alloc}

-- A block of `sz` bytes at an address: it lies in what was free of the arena, it is aligned, and the
-- arena is used up to its end.
pub record Placed (base sz align : ℕ) (a : Arena) (block : ℕ) (a' : Arena) : Type 0 where
  pub behind : base + a.offset ≤ block
  pub within : block + sz ≤ base + a.capacity
  pub used : base + a'.offset ≡ block + sz
  pub multiple : block % align ≡ 0
  pub kept : a'.capacity ≡ a.capacity

aligned : ℕ → ℕ → ℕ
aligned cur align = (cur + (align - 1)) / align * align

aligned-bounds :
    (cur align : ℕ) → 1 ≤ align → (cur ≤ aligned cur align) × (aligned cur align < cur + align)
unfolding aligned
aligned-bounds cur align h = (
  omega (
    arith,
    h,
    div-add-mod' (cur + (align - 1)) align,
    mod-lt (cur + (align - 1)) {m = align} (omega (arith, h)),
  ),
  omega (
    arith,
    h,
    div-add-mod' (cur + (align - 1)) align,
    mod-lt (cur + (align - 1)) {m = align} (omega (arith, h)),
  ),
)

-- The end of `alloc`, at the aligned address.
abbrev given : ℕ → ℕ → ℕ → Arena → Option (ℕ × Arena)
given base sz block' a =
    if ltb a.capacity ((block' + (2 ^ 64 - base) + sz) % 2 ^ 64)
    then none
    else some (block', record a { offset = (block' + (2 ^ 64 - base) + sz) % 2 ^ 64 })

at_aligned :
    (base sz align block' : ℕ) (a : Arena) (block : ℕ) (a' : Arena)
    → 1 ≤ align
    → a.offset ≤ a.capacity
    → base + a.capacity + align + sz < 2 ^ 64
    → base + a.offset ≤ block'
    → block' < base + a.offset + align
    → block' % align ≡ 0
    → given base sz block' a ≡ some (block, a')
    → Placed base sz align a block a'
at_aligned base sz align block' a block a' pos room small low high m h = record {
  behind = ground (arith, h, low);
  within = ground (arith, h, low, high, room, small);
  used = ground (arith, h, low, high, room, small);
  multiple = ground (arith, h, m);
  kept = ground (arith, h);
}

-- A block that `alloc` gives lies in what was free of the arena, at a multiple of the alignment, which is
-- a power of two, and the arena is used up to its end; what was given before is not touched. The arena's
-- memory, the size and the alignment must stay below 2 ^ 64 together.
pub alloc-Placed :
    (base sz k block : ℕ) (a a' : Arena)
    → k < 64
    → a.offset ≤ a.capacity
    → base + a.capacity + 2 ^ k + sz < 2 ^ 64
    → alloc base sz (2 ^ k) a ≡ some (block, a')
    → Placed base sz (2 ^ k) a block a'
unfolding alloc aligned
alloc-Placed base sz k block a a' power room small h =
    at_aligned base sz (2 ^ k) (aligned cur (2 ^ k)) a block a' pos room small low.0 low.1
      (mul-mod_left _ (2 ^ k)) (sym same ∙ h)
  where
    cur : ℕ
    cur = base + a.offset

    pos : 1 ≤ 2 ^ k
    pos = omega (arith, one-le-pow k 2)

    low : (cur ≤ aligned cur (2 ^ k)) × (aligned cur (2 ^ k) < cur + 2 ^ k)
    low = aligned-bounds cur (2 ^ k) pos

    e1 : (base + a.offset) % 2 ^ 64 ≡ base + a.offset
    e1 = omega (arith, room, small)

    e2 : (2 ^ k + (2 ^ 64 - 1)) % 2 ^ 64 ≡ 2 ^ k - 1
    e2 = omega (arith, pos, small)

    e3 : (base + a.offset + (2 ^ k - 1)) % 2 ^ 64 ≡ base + a.offset + (2 ^ k - 1)
    e3 = omega (arith, room, small)

    e4 : 2 ^ 64 - 1 - (2 ^ k - 1) ≡ 2 ^ 64 - 2 ^ k
    e4 = omega (arith, pos)

    e5 :
        bit_and (base + a.offset + (2 ^ k - 1)) (2 ^ 64 - 2 ^ k)
        ≡ (base + a.offset + (2 ^ k - 1)) / 2 ^ k * 2 ^ k
    e5 = clear_low 64 k _ (omega (arith, power)) (omega (arith, room, small, pos))

    same : alloc base sz (2 ^ k) a ≡ given base sz (aligned cur (2 ^ k)) a
    same = rw (e1, e2, e3, e4, e5) refl
