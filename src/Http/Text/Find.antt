-- ===== src/Http/Text/Find.antt =====
-- `std::string::find` of a text, as src/http.cpp and src/websockets.cpp use it.
use wasapi.Base.{
  ℕ, suc, ◌+◌, ◌≤◌, ◌≡◌, refl, ap, true, false, some, [], ◌∷◌, ◌++◌, Bytes, length, length-take,
  take, take-append_le, bytes_eq→eq, Bool-cases, Option-cases, inl, inr, ◌⊎◌, ◌∙◌, arith,
}
use wasapi.Http.Text.{starts_with, find_text}

starts_with-le : (t s : Bytes) → starts_with t s ≡ true → length t ≤ length s
unfolding starts_with
starts_with-le t s h =
    let e = ap length (bytes_eq→eq (take (length t) s) t h) in
    omega (arith, length-take (length t) s, e)

starts_with-append :
    (t s r : Bytes) → length t ≤ length s → starts_with t (s ++ r) ≡ starts_with t s
unfolding starts_with
starts_with-append t s r h = rw (take-append_le (length t) s r h) refl

-- How a text is found behind a byte: right there, or later.
found :
    (t : Bytes) (c : ℕ) (s : Bytes) (i : ℕ)
    → find_text t (c ∷ s) ≡ some i
    → ((starts_with t (c ∷ s) ≡ true) × (i ≡ 0))
      ⊎ ((starts_with t (c ∷ s) ≡ false) × ((j : ℕ) × (find_text t s ≡ some j) × (i ≡ suc j)))
unfolding find_text
found t c s i h = grind (arith, Bool-cases (starts_with t (c ∷ s)), Option-cases (find_text t s))

found_here : (t : Bytes) (i : ℕ) → find_text t [] ≡ some i → (starts_with t [] ≡ true) × (i ≡ 0)
unfolding find_text
found_here t i h = grind (arith, Bool-cases (starts_with t []))

at_front : (t s : Bytes) → starts_with t s ≡ true → find_text t s ≡ some 0
unfolding find_text
at_front t [] h = rw h refl
at_front t (c ∷ s) h = rw h refl

-- A text that is found lies inside of what was searched.
pub find_text-le : (t s : Bytes) (i : ℕ) → find_text t s ≡ some i → i + length t ≤ length s
find_text-le t [] i h =
    let (there, e) = found_here t i h in omega (arith, starts_with-le t [] there, e)
find_text-le t (c ∷ s) i h = elim (found t c s i h) [
  | inl (there, e) ↦ omega (arith, starts_with-le t (c ∷ s) there, e)
  | inr (_, (j, later, e)) ↦ omega (arith, find_text-le t s j later, e)
]

-- It is found at the same place when more follows.
pub find_text-append :
    (t s r : Bytes) (i : ℕ) → find_text t s ≡ some i → find_text t (s ++ r) ≡ some i
unfolding find_text
find_text-append t [] r i h =
    let (there, e) = found_here t i h in
    rw e (at_front t r (starts_with-append t [] r (starts_with-le t [] there) ∙ there))
find_text-append t (c ∷ s) r i h = elim (found t c s i h) [
  | inl (there, e) ↦
      rw (starts_with-append t (c ∷ s) r (starts_with-le t (c ∷ s) there) ∙ there, e) refl
  | inr (differs, (j, later, e)) ↦
      rw
        (
          starts_with-append t (c ∷ s) r (omega (arith, find_text-le t s j later)) ∙ differs,
          find_text-append t s r j later,
          e,
        )
        refl
]
