-- ===== src/Memory/Kept.antt =====
-- What every call on the arena manager of src/memory.cpp keeps.
use wasapi.Base.{
  ℕ, zero, suc, ◌≤◌, ◌≡◌, refl, ap, ◌∙◌, true, false, Option, none, some, List, [], ◌∷◌, All,
  length, get_elem?, set, Option-cases, if_elim, inl, inr, length-set, arith,
}
use wasapi.Memory.{
  Arena, Manager, reset, fresh_arenas, all_free, create_arenas, get, release_at, release, alloc,
}
use wasapi.Memory.Pool.{IsValid, Flagged-set, get-IsValid, get_lends, create_arenas-IsValid}
use wasapi.Memory.Release.{release-IsValid}

-- No more of an arena is given away than it has.
abbrev pub Fits : Arena → Type 0
Fits a = a.offset ≤ a.capacity

-- A manager of `count` arenas.
pub record IsPool (count : ℕ) (m : Manager) : Type 0 where
  pub valid : IsValid m
  pub counted : length m.in_use ≡ count
  pub fits : All Fits m.arenas

All-set : (as' : List Arena) (i : ℕ) (a : Arena) → All Fits as' → Fits a → All Fits (set as' i a)
All-set [] i a h f = tt
All-set (x ∷ as') zero a h f = (f, h.1)
All-set (x ∷ as') (suc i) a h f = (h.0, All-set as' i a h.1 f)

fresh-Fits : (n i capacity : ℕ) → All Fits (fresh_arenas n i capacity)
unfolding fresh_arenas
fresh-Fits zero i capacity = tt
fresh-Fits (suc n) i capacity = (omega arith, fresh-Fits n (suc i) capacity)

length-free : (n : ℕ) → length (all_free n) ≡ n
unfolding all_free
length-free zero = refl
length-free (suc n) = ap suc (length-free n)

pub create_arenas-IsPool : (count capacity : ℕ) → IsPool count (create_arenas count capacity)
unfolding create_arenas
create_arenas-IsPool count capacity = record {
  valid = create_arenas-IsValid count capacity;
  counted = length-free count;
  fits = fresh-Fits count 0 capacity;
}

pub get-IsPool :
    (count : ℕ) (m n : Manager) (i : ℕ) → IsPool count m → get m ≡ some (i, n) → IsPool count n
get-IsPool count m n i p h =
    let (free, e) = get_lends m n i h in
    record {
      valid = (get-IsValid m n i p.valid h).0;
      counted = rw e (length-set m.in_use i true ∙ p.counted);
      fits = rw e p.fits;
    }

release_at-kept :
    (m : Manager) (p : ℕ) (a : Arena) (i : ℕ)
    → All Fits m.arenas
    → (length (release_at m p a i).in_use ≡ length m.in_use) × All Fits (release_at m p a i).arenas
unfolding release_at reset
release_at-kept m p a i h = elim (Option-cases (get_elem? m.in_use i)) [
  | inl e ↦ rw (e, release_at) (refl, h)
  | inr (used, e) ↦
      rw (e, release_at)
        (if_elim (λ (n : Manager). (length n.in_use ≡ length m.in_use) × All Fits n.arenas) used
          (λ _. (length-set m.in_use i false, All-set m.arenas p (reset a) h (omega arith)))
          (λ _. (refl, h)))
]

release-kept :
    (m : Manager) (p : Option ℕ)
    → All Fits m.arenas
    → (length (release m p).in_use ≡ length m.in_use) × All Fits (release m p).arenas
unfolding release
release-kept m none h = (refl, h)
release-kept m (some p) h = elim (Option-cases (get_elem? m.arenas p)) [
  | inl e ↦ rw (e, release) (refl, h)
  | inr (a, e) ↦ rw (e, release) (release_at-kept m p a a.management_flag h)
]

pub release-IsPool :
    (count : ℕ) (m : Manager) (p : Option ℕ) → IsPool count m → IsPool count (release m p)
release-IsPool count m p k = record {
  valid = release-IsValid m p k.valid;
  counted = (release-kept m p k.fits).0 ∙ k.counted;
  fits = (release-kept m p k.fits).1;
}

alloc-kept :
    (base sz align block : ℕ) (a a' : Arena)
    → alloc base sz align a ≡ some (block, a')
    → Fits a' × (a'.management_flag ≡ a.management_flag)
unfolding alloc
alloc-kept base sz align block a a' h = (ground (arith, h), ground (arith, h))

-- An arena of the manager after `alloc` in it.
pub alloc-IsPool :
    (count : ℕ) (m : Manager) (place base sz align block : ℕ) (a a' : Arena)
    → IsPool count m
    → get_elem? m.arenas place ≡ some a
    → alloc base sz align a ≡ some (block, a')
    → IsPool count (record m { arenas = set m.arenas place a' })
alloc-IsPool count m place base sz align block a a' p there h =
    let (f, same) = alloc-kept base sz align block a a' h in
    record {
      valid = record {
        same_length = length-set m.arenas place a' ∙ p.valid.same_length;
        counted = p.valid.counted;
        flagged = Flagged-set m.arenas 0 place a a' p.valid.flagged there same;
      };
      counted = p.counted;
      fits = All-set m.arenas place a' p.fits f;
    }
