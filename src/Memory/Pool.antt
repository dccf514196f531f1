-- ===== src/Memory/Pool.antt =====
-- The manager as a pool of leases: its invariant, and what `get` and `release` promise.
use wasapi.Base.{
  ℕ, zero, suc, ◌+◌, ◌-◌, ◌≡◌, ◌≢◌, ◌↔◌, ◌⊎◌, refl, sym, ap, Bool, true, false, none, some, List,
  [], ◌∷◌, length, get_elem?, set, arith, Option-cases, inl, inr, length-set,
}
use wasapi.Memory.{Arena, Manager, fresh_arenas, all_free, create_arenas, first_free, get}

-- How many entries are not in use.
unfoldable pub free_count : List Bool → ℕ
free_count [] = 0
free_count (true ∷ us) = free_count us
free_count (false ∷ us) = suc (free_count us)

-- The arena at each place carries that place, counted from `i`, in its `management_flag`.
abbrev pub Flagged : ℕ → List Arena → Type 0
Flagged i [] = Unit {0}
Flagged i (a ∷ as') = (a.management_flag ≡ i) × Flagged (suc i) as'

pub record IsValid (m : Manager) : Type 0 where
  pub same_length : length m.arenas ≡ length m.in_use
  pub counted : m.available_count ≡ free_count m.in_use
  pub flagged : Flagged 0 m.arenas

fresh-Flagged : (n i capacity : ℕ) → Flagged i (fresh_arenas n i capacity)
unfolding fresh_arenas
fresh-Flagged zero i capacity = tt
fresh-Flagged (suc n) i capacity = (refl, fresh-Flagged n (suc i) capacity)

length-fresh : (n i capacity : ℕ) → length (fresh_arenas n i capacity) ≡ n
unfolding fresh_arenas
length-fresh zero i capacity = refl
length-fresh (suc n) i capacity = ap suc (length-fresh n (suc i) capacity)

length-all_free : (n : ℕ) → (length (all_free n) ≡ n) × (free_count (all_free n) ≡ n)
unfolding all_free free_count
length-all_free zero = (refl, refl)
length-all_free (suc n) = let (l, c) = length-all_free n in (ap suc l, ap suc c)

pub create_arenas-IsValid : (count capacity : ℕ) → IsValid (create_arenas count capacity)
unfolding create_arenas
create_arenas-IsValid count capacity = record {
  same_length = omega (arith, length-fresh count 0 capacity, length-all_free count);
  counted = sym (length-all_free count).1;
  flagged = fresh-Flagged count 0 capacity;
}

-- The scan answers `none` exactly when nothing is free, and else a place that is free.
first_free-none : (us : List Bool) (i : ℕ) → first_free us i ≡ none → free_count us ≡ 0
unfolding first_free free_count
first_free-none [] i h = refl
first_free-none (true ∷ us) i h = first_free-none us (suc i) h
first_free-none (false ∷ us) i h = ground arith

pub free_count-set-true :
    (us : List Bool) (i : ℕ)
    → get_elem? us i ≡ some false
    → free_count us ≡ free_count (set us i true) + 1
unfolding free_count
free_count-set-true [] i h = ground arith
free_count-set-true (true ∷ us) zero h = ground arith
free_count-set-true (false ∷ us) zero h = omega arith
free_count-set-true (true ∷ us) (suc i) h = free_count-set-true us i h
free_count-set-true (false ∷ us) (suc i) h = omega (arith, free_count-set-true us i h)

pub free_count-set-false :
    (us : List Bool) (i : ℕ)
    → get_elem? us i ≡ some true
    → free_count (set us i false) ≡ free_count us + 1
unfolding free_count
free_count-set-false [] i h = ground arith
free_count-set-false (false ∷ us) zero h = ground arith
free_count-set-false (true ∷ us) zero h = omega arith
free_count-set-false (true ∷ us) (suc i) h = free_count-set-false us i h
free_count-set-false (false ∷ us) (suc i) h = omega (arith, free_count-set-false us i h)

first_free_at :
    (us : List Bool) (k i : ℕ)
    → first_free us k ≡ some i
    → (j : ℕ) × (i ≡ k + j) × (get_elem? us j ≡ some false)
unfolding first_free
first_free_at [] k i h = absurd (ground arith)
first_free_at (true ∷ us) k i h =
    let (j, e, f) = first_free_at us (suc k) i h in (suc j, omega arith, f)
first_free_at (false ∷ us) k i h = (0, ground arith, refl)

-- The manager with place `i` lent out.
abbrev pub lend : Manager → ℕ → Manager
lend m i = record m { in_use = set m.in_use i true; available_count = m.available_count - 1 }

-- What `get` does when the scan finds a place, and when it finds none.
get_cases :
    (m : Manager)
    → ((get m ≡ none) × (free_count m.in_use ≡ 0))
      ⊎ ((i : ℕ) × (get_elem? m.in_use i ≡ some false) × (get m ≡ some (i, lend m i)))
unfolding get
get_cases m = elim (Option-cases (first_free m.in_use 0)) [
  | inl e ↦ inl (rw (e, get), first_free-none m.in_use 0 e)
  | inr (i, e) ↦
      let (j, e', f) = first_free_at m.in_use 0 i e in
      let same : i ≡ j = omega arith in inr (i, rw same f, rw (e, get))
]

pub get_elem?-set_self {ℓ} :
    {A : Type ℓ} (xs : List A) (i : ℕ) (u v : A)
    → get_elem? xs i ≡ some u
    → get_elem? (set xs i v) i ≡ some v
get_elem?-set_self [] i u v h = ground arith
get_elem?-set_self (x ∷ xs) zero u v h = refl
get_elem?-set_self (x ∷ xs) (suc i) u v h = get_elem?-set_self xs i u v h

pub set-set {ℓ} :
    {A : Type ℓ} (xs : List A) (i : ℕ) (u v : A)
    → get_elem? xs i ≡ some u
    → set (set xs i v) i u ≡ xs
set-set [] i u v h = ground arith
set-set (x ∷ xs) zero u v h = ground arith
set-set (x ∷ xs) (suc i) u v h = ap (◌∷◌ x) (set-set xs i u v h)

pub Flagged-set :
    (as' : List Arena) (k i : ℕ) (a b : Arena)
    → Flagged k as'
    → get_elem? as' i ≡ some a
    → b.management_flag ≡ a.management_flag
    → Flagged k (set as' i b)
Flagged-set [] k i a b f h e = tt
Flagged-set (x ∷ as') k zero a b f h e = (ground arith, f.1)
Flagged-set (x ∷ as') k (suc i) a b f h e = (f.0, Flagged-set as' (suc k) i a b f.1 h e)

-- In a flagged list an arena's flag is its own place.
pub flag_at :
    (as' : List Arena) (k i : ℕ) (a : Arena)
    → Flagged k as'
    → get_elem? as' i ≡ some a
    → a.management_flag ≡ k + i
flag_at [] k i a f h = ground arith
flag_at (x ∷ as') k zero a f h = ground arith
flag_at (x ∷ as') k (suc i) a f h = omega (arith, flag_at as' (suc k) i a f.1 h)

-- A place of one list is a place of another of the same length.
pub get_elem?-some {ℓ κ} :
    {A : Type ℓ} {B : Type κ} (xs : List A) (ys : List B) (i : ℕ) (x : A)
    → length xs ≡ length ys
    → get_elem? xs i ≡ some x
    → (y : B) × (get_elem? ys i ≡ some y)
get_elem?-some [] ys i x l h = absurd (ground arith)
get_elem?-some (a ∷ xs) [] i x l h = absurd (omega arith)
get_elem?-some (a ∷ xs) (y ∷ ys) zero x l h = (y, refl)
get_elem?-some (a ∷ xs) (y ∷ ys) (suc i) x l h = get_elem?-some xs ys i x (omega arith) h

-- On a valid manager `get` fails exactly when the counter says that no arena is available.
pub get-none_iff : (m : Manager) → IsValid m → (get m ≡ none) ↔ (m.available_count ≡ 0)
get-none_iff m v = elim (get_cases m) [
  | inl (e, z) ↦ ((λ _. omega (arith, v.counted)), (λ _. e))
  | inr (i, f, e) ↦ (
    (λ n. absurd (ground (arith, n, e))),
    (λ z. absurd (omega (arith, v.counted, free_count-set-true m.in_use i f))),
  )
]

lend-IsValid :
    (m : Manager) (i : ℕ) → IsValid m → get_elem? m.in_use i ≡ some false → IsValid (lend m i)
lend-IsValid m i v f = record {
  same_length = omega (arith, v.same_length, length-set m.in_use i true);
  counted = omega (arith, v.counted, free_count-set-true m.in_use i f);
  flagged = v.flagged;
}

-- A successful `get` lends a place that was free, and changes nothing else.
pub get_lends :
    (m n : Manager) (i : ℕ)
    → get m ≡ some (i, n)
    → (get_elem? m.in_use i ≡ some false) × (n ≡ lend m i)
get_lends m n i h = elim (get_cases m) [
  | inl (e, z) ↦ absurd (ground arith)
  | inr (j, f, e) ↦ let q : i ≡ j = ground (arith, h, e) in rw q (f, ground (arith, h, e))
]

-- A successful `get` keeps the manager valid, lends a place that was free, and leaves one fewer.
pub get-IsValid :
    (m n : Manager) (i : ℕ)
    → IsValid m
    → get m ≡ some (i, n)
    → IsValid n
      × (get_elem? m.in_use i ≡ some false)
      × (get_elem? n.in_use i ≡ some true)
      × (m.available_count ≡ n.available_count + 1)
get-IsValid m n i v h =
    let (f, p) = get_lends m n i h in
    rw p (
      lend-IsValid m i v f,
      f,
      get_elem?-set_self m.in_use i false true f,
      omega (arith, v.counted, free_count-set-true m.in_use i f),
    )

-- Two calls of `get` with no release between them never hand out the same arena.
pub get_distinct :
    (m n o : Manager) (i j : ℕ) → IsValid m → get m ≡ some (i, n) → get n ≡ some (j, o) → i ≢ j
get_distinct m n o i j v h k e =
    let a = get-IsValid m n i v h in
    let b = get-IsValid n o j a.0 k in ground (arith, a.2, b.1, ap (get_elem? n.in_use) e)
