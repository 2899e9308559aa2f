-- ===== src/Base/Bits.antt =====
-- Facts about the bitwise operations on native numbers.
use Prim.Native.Nat.{
  ℕ, zero, suc, ◌+◌, ◌-◌, ◌*◌, ◌/◌, ◌%◌, ◌^◌, ◌≤◌, ◌<◌, min, bit_and, digits, bit_and-bitwise,
}
use mathlib.Core.Path.{◌≡◌, refl, ap, ◌∙◌}
use native.Mathlib.Nat.{pow-suc, one-le-pow}
use native.Mathlib.Omega.{arith}

digits_le : (n a b : ℕ) → digits (λ _. zero) min n a b ≤ a
digits_le zero a b = omega arith
digits_le (suc n) zero b = omega arith
digits_le (suc n) (suc a) b = omega (arith, digits_le n (suc a / 2) (b / 2))

-- Masking takes bits away.
pub bit_and_le : (a b : ℕ) → bit_and a b ≤ a
bit_and_le a b = omega (arith, bit_and-bitwise a b, digits_le a a b)

-- The digits that are left do not depend on the fuel.
digits_enough :
    (n m a b : ℕ) → a ≤ n → a ≤ m → digits (λ _. zero) min n a b ≡ digits (λ _. zero) min m a b
digits_enough zero zero a b p q = refl
digits_enough zero (suc m) zero b p q = refl
digits_enough zero (suc m) (suc a) b p q = absurd (omega arith)
digits_enough (suc n) zero zero b p q = refl
digits_enough (suc n) zero (suc a) b p q = absurd (omega arith)
digits_enough (suc n) (suc m) zero b p q = refl
digits_enough (suc n) (suc m) (suc a) b p q =
    omega (arith, digits_enough n m (suc a / 2) (b / 2) (omega arith) (omega arith))

bit_and-lowest : (a b : ℕ) → bit_and a b ≡ bit_and (a / 2) (b / 2) * 2 + min (a % 2) (b % 2)
bit_and-lowest zero b = omega (arith, bit_and-bitwise 0 b, bit_and-bitwise 0 (b / 2))
bit_and-lowest (suc a) b =
    let e = digits_enough a (suc a / 2) (suc a / 2) (b / 2) (omega arith) (omega arith) in
    omega (arith, bit_and-bitwise (suc a) b, bit_and-bitwise (suc a / 2) (b / 2), e)

digits_nothing : (n a : ℕ) → digits (λ _. zero) min n a 0 ≡ 0
digits_nothing zero a = refl
digits_nothing (suc n) zero = refl
digits_nothing (suc n) (suc a) = omega (arith, digits_nothing n (suc a / 2))

bit_and-low_bits : (k q r : ℕ) → r < 2 ^ k → bit_and (q * 2 ^ k + r) (2 ^ k - 1) ≡ r
bit_and-low_bits zero q r h =
    let n = q * 1 + r in omega (arith, h, bit_and-bitwise n 0, digits_nothing n n)
bit_and-low_bits (suc k) q r h =
    let p : 2 ^ suc k ≡ 2 * 2 ^ k = omega (arith, pow-suc 2 k) in
    let t : q * 2 ^ suc k ≡ 2 * (q * 2 ^ k) = omega (arith, ap (λ (t : ℕ). q * t) p) in
    let one : 1 ≤ 2 ^ k = one-le-pow k 2 (omega arith) in
    let half : (2 ^ suc k - 1) / 2 ≡ 2 ^ k - 1 = omega arith in
    let quotient : (q * 2 ^ suc k + r) / 2 ≡ q * 2 ^ k + r / 2 = omega arith in
    let rest = bit_and-low_bits k q (r / 2) (omega arith) in
    let step = bit_and-lowest (q * 2 ^ suc k + r) (2 ^ suc k - 1) in
    step ∙ rw (half, quotient, rest) (omega arith)

-- Masking with all ones takes the remainder.
pub bit_and-mask : (k a : ℕ) → bit_and a (2 ^ k - 1) ≡ a % 2 ^ k
bit_and-mask k a = ground (arith, one-le-pow k 2, bit_and-low_bits k (a / 2 ^ k) (a % 2 ^ k))
