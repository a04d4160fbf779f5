-- ===== src/Prelude/Bits.antt =====
-- Masks of binary digits, from the definition by digits that the native `bit_and` stands for.
use Prim.Native.Nat.{
  ℕ, zero, suc, ◌+◌, ◌-◌, ◌*◌, ◌/◌, ◌%◌, ◌^◌, ◌≤◌, ◌<◌, min, bit_and, digits, bit_and-bitwise,
}
use mathlib.Core.Path.{◌≡◌, refl, sym, ap, ◌∙◌}
use native.Mathlib.Omega.{arith}
use native.Mathlib.Nat.{
  add-zero, mod_def, div-div-eq-div-mul, pow-suc, one-le-pow, mod-one, mul-div-le, zero-mod,
  add-suc, mul_assoc, mod-eq_of_lt,
}

-- The number read digit by digit, with a count of digits to go.
abbrev masked : ℕ → ℕ → ℕ → ℕ
masked = digits (λ _. zero) min

half_mod : (x p : ℕ) → x % (2 * p) ≡ x / 2 % p * 2 + x % 2
half_mod x p =
    rw (mod_def x (2 * p), ← div-div-eq-div-mul x 2 p, mod_def (x / 2) p)
      (omega (arith, mul-div-le (x / 2) p))

-- A mask of `k` ones, below `n` digits.
masked_low : (n a k : ℕ) → a ≤ n → masked n a (2 ^ k - 1) ≡ a % 2 ^ k
masked_low zero zero k h = sym (zero-mod (2 ^ k))
masked_low zero (suc a) k h = absurd (omega arith)
masked_low (suc n) zero k h = sym (zero-mod (2 ^ k))
masked_low (suc n) (suc a) zero h = omega (arith, masked_low n (suc a / 2) 0 (omega arith))
masked_low (suc n) (suc a) (suc k) h =
    let power : 2 ^ suc k ≡ 2 * 2 ^ k = omega (arith, pow-suc 2 k) in
    let some_power : 1 ≤ 2 ^ k = one-le-pow k 2 (omega arith) in
    let halved : (2 ^ suc k - 1) / 2 ≡ 2 ^ k - 1 = omega arith in
    let odd : (2 ^ suc k - 1) % 2 ≡ 1 = omega arith in
    rw (halved, odd, power, half_mod (suc a) (2 ^ k), masked_low n (suc a / 2) k (omega arith))
      (omega arith)

-- `x & (2^k - 1)` is the remainder by `2^k`.
pub bit_and-low : (a k : ℕ) → bit_and a (2 ^ k - 1) ≡ a % 2 ^ k
bit_and-low a k = bit_and-bitwise a (2 ^ k - 1) ∙ masked_low a a k (omega arith)

-- A mask of `j` ones above `k` zeros.
masked_high : (n a j k : ℕ) → a ≤ n → masked n a (2 ^ k * (2 ^ j - 1)) ≡ a % 2 ^ (j + k) - a % 2 ^ k
masked_high n a j zero h =
    let mask : 2 ^ 0 * (2 ^ j - 1) ≡ 2 ^ j - 1 = omega arith in
    let width : j + 0 ≡ j = omega arith in
    rw (mask, width, masked_low n a j h, mod-one a) (omega arith)
masked_high zero zero j (suc k) h = rw (zero-mod (2 ^ (j + suc k)), zero-mod (2 ^ suc k))
masked_high zero (suc a) j (suc k) h = absurd (omega arith)
masked_high (suc n) zero j (suc k) h = rw (zero-mod (2 ^ (j + suc k)), zero-mod (2 ^ suc k))
masked_high (suc n) (suc a) j (suc k) h =
    let power : 2 ^ suc k ≡ 2 * 2 ^ k = omega (arith, pow-suc 2 k) in
    let width : 2 ^ (j + suc k) ≡ 2 * 2 ^ (j + k) =
      ap (λ (w : ℕ). 2 ^ w) (add-suc j k) ∙ omega (arith, pow-suc 2 (j + k)) in
    let mask : 2 ^ suc k * (2 ^ j - 1) ≡ 2 ^ k * (2 ^ j - 1) * 2 =
      rw (power, mul_assoc 2 (2 ^ k) (2 ^ j - 1)) (omega arith) in
    let halved : 2 ^ suc k * (2 ^ j - 1) / 2 ≡ 2 ^ k * (2 ^ j - 1) = omega arith in
    let even : 2 ^ suc k * (2 ^ j - 1) % 2 ≡ 0 = omega arith in
    let rest = masked_high n (suc a / 2) j k (omega arith) in
    rw (halved, even, power, width, half_mod (suc a) (2 ^ k), half_mod (suc a) (2 ^ (j + k)), rest)
      (omega arith)

-- `x & ~(2^k - 1)` on `j + k` bits takes the remainder by `2^k` off.
pub bit_and-high : (a j k : ℕ) → a < 2 ^ (j + k) → bit_and a (2 ^ k * (2 ^ j - 1)) ≡ a - a % 2 ^ k
bit_and-high a j k h =
    bit_and-bitwise a (2 ^ k * (2 ^ j - 1)) ∙ rw (masked_high a a j k (omega arith), mod-eq_of_lt h)

masked_zero : (n b : ℕ) → masked n 0 b ≡ 0
masked_zero zero b = refl
masked_zero (suc n) b = refl

masked_fuel : (n m a b : ℕ) → a ≤ n → a ≤ m → masked n a b ≡ masked m a b
masked_fuel n m zero b h k = masked_zero n b ∙ sym (masked_zero m b)
masked_fuel zero m (suc a) b h k = absurd (omega arith)
masked_fuel (suc n) zero (suc a) b h k = absurd (omega arith)
masked_fuel (suc n) (suc m) (suc a) b h k =
    rw (masked_fuel n m (suc a / 2) (b / 2) (omega arith) (omega arith))

-- One digit at a time.
pub bit_and-halves : (a b : ℕ) → bit_and a b ≡ bit_and (a / 2) (b / 2) * 2 + min (a % 2) (b % 2)
bit_and-halves zero b = rw (bit_and-bitwise 0 b, bit_and-bitwise 0 (b / 2)) (omega arith)
bit_and-halves (suc a) b = rw (
  bit_and-bitwise (suc a) b,
  bit_and-bitwise (suc a / 2) (b / 2),
  masked_fuel a (suc a / 2) (suc a / 2) (b / 2) (omega arith) (omega arith),
)

pub bit_and_self : (k a : ℕ) → a ≤ k → bit_and a a ≡ a
bit_and_self k zero h = refl
bit_and_self zero (suc a) h = absurd (omega arith)
bit_and_self (suc k) (suc a) h =
    omega (arith, bit_and-halves (suc a) (suc a), bit_and_self k (suc a / 2) (omega arith))

pub pow_split : (j k : ℕ) → 2 ^ k * 2 ^ j ≡ 2 ^ (j + k)
pow_split j zero = rw add-zero (omega arith)
pow_split j (suc k) =
    let width : 2 ^ (j + suc k) ≡ 2 * 2 ^ (j + k) =
      ap (λ (w : ℕ). 2 ^ w) (add-suc j k) ∙ omega (arith, pow-suc 2 (j + k)) in
    let power : 2 ^ suc k ≡ 2 * 2 ^ k = omega (arith, pow-suc 2 k) in
    rw (width, ← pow_split j k, power) (mul_assoc 2 (2 ^ k) (2 ^ j))
