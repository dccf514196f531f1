-- ===== src/Memory/Release.antt =====
-- `ArenaManager::release` on every pointer, and after `get`.
use wasapi.Base.{
  ℕ, ◌+◌, ◌≡◌, refl, ap, ◌∙◌, Bool, true, false, Option, none, some, get_elem?, set, arith,
  Option-cases, inl, inr, length-set,
}
use wasapi.Memory.{Arena, Manager, reset, get, release_at, release}
use wasapi.Memory.Pool.{
  IsValid, flag_at, Flagged-set, get_elem?-some, free_count-set-false, get-IsValid,
  get_elem?-set_self, set-set, get_lends,
}

-- The manager with place `i`, which holds arena `a`, taken back.
abbrev taken_back : Manager → ℕ → Arena → Manager
taken_back m i a = record m {
  in_use = set m.in_use i false;
  available_count = m.available_count + 1;
  arenas = set m.arenas i (reset a);
}

release_flagged :
    (m : Manager) (i : ℕ) (a : Arena)
    → IsValid m
    → get_elem? m.arenas i ≡ some a
    → release m (some i) ≡ release_at m i a i
unfolding release
release_flagged m i a v h =
    let e : a.management_flag ≡ i = omega (arith, flag_at m.arenas 0 i a v.flagged h) in
    rw (h, release) (ap (release_at m i a) e)

pub release_used :
    (m : Manager) (i : ℕ) (a : Arena)
    → IsValid m
    → get_elem? m.arenas i ≡ some a
    → get_elem? m.in_use i ≡ some true
    → release m (some i) ≡ taken_back m i a
unfolding release_at reset
release_used m i a v h u = release_flagged m i a v h ∙ rw (u, release_at)

pub release_idle :
    (m : Manager) (i : ℕ) (a : Arena)
    → IsValid m
    → get_elem? m.arenas i ≡ some a
    → get_elem? m.in_use i ≡ some false
    → release m (some i) ≡ m
unfolding release_at
release_idle m i a v h u = release_flagged m i a v h ∙ rw (u, release_at)

taken_back-IsValid :
    (m : Manager) (i : ℕ) (a : Arena)
    → IsValid m
    → get_elem? m.arenas i ≡ some a
    → get_elem? m.in_use i ≡ some true
    → IsValid (taken_back m i a)
unfolding reset
taken_back-IsValid m i a v h u = record {
  same_length =
      omega (arith, v.same_length, length-set m.in_use i false, length-set m.arenas i (reset a));
  counted = omega (arith, v.counted, free_count-set-false m.in_use i u);
  flagged = Flagged-set m.arenas 0 i a (reset a) v.flagged h refl;
}

pub release-none : (m : Manager) (i : ℕ) → get_elem? m.arenas i ≡ none → release m (some i) ≡ m
unfolding release
release-none m i e = rw (e, release)

release_place-IsValid :
    (m : Manager) (i : ℕ) (a : Arena) (u : Bool)
    → IsValid m
    → get_elem? m.arenas i ≡ some a
    → get_elem? m.in_use i ≡ some u
    → IsValid (release m (some i))
release_place-IsValid m i a true v e u =
    rw (release_used m i a v e u) (taken_back-IsValid m i a v e u)
release_place-IsValid m i a false v e u = rw (release_idle m i a v e u) v

-- Releasing any pointer, the null pointer and a second release included, keeps the manager valid.
pub release-IsValid : (m : Manager) (p : Option ℕ) → IsValid m → IsValid (release m p)
release-IsValid m none v = unfold release in v
release-IsValid m (some i) v = elim (Option-cases (get_elem? m.arenas i)) [
  | inl e ↦ rw (release-none m i e) v
  | inr (a, e) ↦
      let (u, h) = get_elem?-some m.arenas m.in_use i a v.same_length e in
      release_place-IsValid m i a u v e h
]

-- After `get`, `release` of the arena brings back the table and the counter as they were, and
-- empties the arena; a second `release` of it changes nothing.
pub release-get :
    (m n : Manager) (i : ℕ) (a : Arena)
    → IsValid m
    → get m ≡ some (i, n)
    → get_elem? n.arenas i ≡ some a
    → ((release n (some i)).in_use ≡ m.in_use)
      × ((release n (some i)).available_count ≡ m.available_count)
      × (get_elem? (release n (some i)).arenas i ≡ some (record a { offset = 0 }))
      × (release (release n (some i)) (some i) ≡ release n (some i))
unfolding reset
release-get m n i a v h k =
    let (w, free, used, less) = get-IsValid m n i v h in
    let back = release_used n i a w k used in
    let there = get_elem?-set_self n.arenas i a (reset a) k in
    let again =
      release_idle (taken_back n i a) i (reset a) (taken_back-IsValid n i a w k used) there
        (get_elem?-set_self n.in_use i true false used) in
    rw back
      (rw (get_lends m n i h).1 (set-set m.in_use i false true free), omega arith, there, again)
