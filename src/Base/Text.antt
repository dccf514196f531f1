-- ===== src/Base/Text.antt =====
-- Byte strings (`std::string`, `std::vector<uint8_t>`) as lists of numbers.
use Prim.Native.Nat.{ℕ, suc, ◌<◌}
use Prim.Native.Char.{code}
use Prim.Native.String.{String}
use mathlib.Core.Path.{◌≡◌, refl, subst}
use mathlib.Core.Logic.{◌≢◌}
use mathlib.Core.Bool.{Bool, true, false, ◌&&◌}
use mathlib.Core.List.{List, [], ◌∷◌, ◌++◌}
use mathlib.Core.Option.{Option, none, some}
use mathlib.Core.Option
use native.Mathlib.Omega.{arith}
use wasapi.Base.Tests.{◌==◌, if◌then◌else◌}
use wasapi.Base.Lists.{All, length}

abbrev pub Bytes : Type 0
Bytes = List ℕ

abbrev pub IsByte : ℕ → Type 0
IsByte b = b < 256

abbrev pub Lacks : ℕ → Bytes → Type 0
Lacks b = All (λ c. c ≢ b)

-- The code points of a literal: its bytes, if it is ASCII.
abbrev pub codes : String → Bytes
codes String.[] = []
codes (String.◌∷◌ c s) = code c ∷ codes s

-- `==` on strings.
unfoldable pub bytes_eq : Bytes → Bytes → Bool
bytes_eq [] [] = true
bytes_eq [] (b ∷ bs) = false
bytes_eq (a ∷ as') [] = false
bytes_eq (a ∷ as') (b ∷ bs) = (a == b) && bytes_eq as' bs

pub bytes_eq→eq : (s t : Bytes) → bytes_eq s t ≡ true → s ≡ t
unfolding bytes_eq
bytes_eq→eq [] [] h = refl
bytes_eq→eq [] (b ∷ bs) h = ground arith
bytes_eq→eq (a ∷ as') [] h = ground arith
bytes_eq→eq (a ∷ as') (b ∷ bs) h = ground (arith, bytes_eq→eq as' bs)

pub bytes_eq_self : (s : Bytes) → bytes_eq s s ≡ true
unfolding bytes_eq
bytes_eq_self [] = refl
bytes_eq_self (a ∷ s) = ground (arith, bytes_eq_self s)

pub ne→bytes_eq : (s t : Bytes) → s ≢ t → bytes_eq s t ≡ false
ne→bytes_eq s t h = ground (arith, bytes_eq→eq s t)

pub bytes_eq→ne : (s t : Bytes) → bytes_eq s t ≡ false → s ≢ t
bytes_eq→ne s t h e = ground (arith, bytes_eq_self t, subst (λ x. bytes_eq x t ≡ false) e h)

-- `s.find(c)`: the offset of the first `c`; `none` is `npos`.
unfoldable pub find_byte : ℕ → Bytes → Option ℕ
find_byte c [] = none
find_byte c (x ∷ s) = if x == c then some 0 else Option.map suc (find_byte c s)

pub find_byte_hit : (c : ℕ) (s r : Bytes) → Lacks c s → find_byte c (s ++ c ∷ r) ≡ some (length s)
unfolding find_byte
find_byte_hit c [] r h = ground arith
find_byte_hit c (x ∷ s) r h = ground (arith, find_byte_hit c s r h.1)

pub find_byte_miss : (c : ℕ) (s : Bytes) → Lacks c s → find_byte c s ≡ none
unfolding find_byte
find_byte_miss c [] h = refl
find_byte_miss c (x ∷ s) h = ground (arith, find_byte_miss c s h.1)

pub find_byte-lt : (c : ℕ) (s : Bytes) (i : ℕ) → find_byte c s ≡ some i → i < length s
unfolding find_byte
find_byte-lt c [] i h = ground arith
find_byte-lt c (x ∷ s) i h = grind (arith, find_byte-lt c s)
