-- ===== src/Base/Masks.antt =====
-- A mask that clears the low bits of a number.
use Prim.Native.Nat.{
  ℕ, zero, suc, ◌+◌, ◌-◌, ◌*◌, ◌/◌, ◌%◌, ◌^◌, ◌<◌, ◌≤◌, min, bit_and, digits, bit_and-bitwise,
}
use mathlib.Core.Path.{◌≡◌, refl, ap, ap₂, subst, ◌∙◌}
use native.Mathlib.Omega.{arith}
use native.Mathlib.Nat.{pow-suc, one-le-pow, mod-lt, mul-sub, div-add-mod', div-lt_iff_lt-mul}

-- `&` on the `n` lowest binary digits.
abbrev and_digits : ℕ → ℕ → ℕ → ℕ
and_digits n a b = digits (λ y. zero) min n a b

lowest :
    (n a b : ℕ) → and_digits (suc n) a b ≡ and_digits n (a / 2) (b / 2) * 2 + min (a % 2) (b % 2)
lowest zero zero b = omega arith
lowest (suc n) zero b = omega arith
lowest zero (suc a) b = refl
lowest (suc n) (suc a) b = refl

double : (q k : ℕ) → q * 2 ^ suc k ≡ 2 * (q * 2 ^ k)
double q k = omega (arith, ap (λ (p : ℕ). q * p) (pow-suc 2 k))

-- With no bits to clear, `w` ones keep a number of `w` bits.
digits-ones : (n w x : ℕ) → x ≤ n → x < 2 ^ w → and_digits n x (2 ^ w - 1) ≡ x
digits-ones zero w x few fits = omega (arith, few)
digits-ones (suc n) zero zero few fits = refl
digits-ones (suc n) zero (suc x) few fits = absurd (omega arith)
digits-ones (suc n) (suc w) x few fits = ground (
  arith,
  lowest n x (2 ^ suc w - 1),
  pow-suc 2 w,
  one-le-pow w 2,
  digits-ones n w (x / 2) (omega arith) (omega (arith, pow-suc 2 w)),
)

digits-high :
    (n w k q r : ℕ)
    → q * 2 ^ k + r ≤ n
    → q < 2 ^ w
    → r < 2 ^ k
    → and_digits n (q * 2 ^ k + r) ((2 ^ w - 1) * 2 ^ k) ≡ q * 2 ^ k
digits-high zero w k q r few fits low = omega (arith, few)
digits-high (suc n) w zero q r few fits low =
    let same : q * 2 ^ 0 + r ≡ q = omega arith in
    ap₂ (λ (a b : ℕ). and_digits (suc n) a b) same (omega arith)
    ∙ (digits-ones (suc n) w q (omega arith) fits ∙ omega arith)
digits-high (suc n) w (suc k) q r few fits low = ground (
  arith,
  lowest n (q * 2 ^ suc k + r) ((2 ^ w - 1) * 2 ^ suc k),
  double q k,
  double (2 ^ w - 1) k,
  pow-suc 2 k,
  digits-high n w k q (r / 2) (omega (arith, few, double q k)) fits (omega (arith, pow-suc 2 k)),
)

-- Behind `w` bits that are kept, `k` bits are cleared.
pub bit_and-high :
    (w k q r : ℕ)
    → q < 2 ^ w
    → r < 2 ^ k
    → bit_and (q * 2 ^ k + r) ((2 ^ w - 1) * 2 ^ k) ≡ q * 2 ^ k
bit_and-high w k q r fits low =
    simp bit_and-bitwise (digits-high (q * 2 ^ k + r) w k q r (omega arith) fits low)

two_pow-add : (w k : ℕ) → 2 ^ (w + k) ≡ 2 ^ w * 2 ^ k
two_pow-add w zero =
    let same : w + zero ≡ w = omega arith in ap (λ (n : ℕ). 2 ^ n) same ∙ omega arith
two_pow-add w (suc k) =
    let next : w + suc k ≡ suc (w + k) = omega arith in
    ap (λ (n : ℕ). 2 ^ n) next ∙ omega (arith, pow-suc 2 (w + k), two_pow-add w k, double (2 ^ w) k)

high_mask : (w k : ℕ) → (2 ^ w - 1) * 2 ^ k ≡ 2 ^ (w + k) - 2 ^ k
high_mask w k = omega (arith, two_pow-add w k, mul-sub (2 ^ k) (2 ^ w) 1)

clear_low' : (w k x : ℕ) → x < 2 ^ (w + k) → bit_and x (2 ^ (w + k) - 2 ^ k) ≡ x / 2 ^ k * 2 ^ k
clear_low' w k x fits =
    let pos : 0 < 2 ^ k = omega (arith, one-le-pow k 2) in
    let high : x / 2 ^ k < 2 ^ w =
      (div-lt_iff_lt-mul pos).1 (omega (arith, fits, two_pow-add w k)) in
    ap₂ bit_and (omega (arith, div-add-mod' x (2 ^ k))) (omega (arith, high_mask w k))
    ∙ bit_and-high w k (x / 2 ^ k) (x % 2 ^ k) high (mod-lt x pos)

-- Clearing the `k` low bits of a number of `n` bits rounds it down to a multiple of 2 ^ k.
pub clear_low : (n k x : ℕ) → k ≤ n → x < 2 ^ n → bit_and x (2 ^ n - 2 ^ k) ≡ x / 2 ^ k * 2 ^ k
clear_low n k x small =
    let whole : n - k + k ≡ n = omega arith in
    subst (λ (m : ℕ). x < 2 ^ m → bit_and x (2 ^ m - 2 ^ k) ≡ x / 2 ^ k * 2 ^ k) whole
      (clear_low' (n - k) k x)
