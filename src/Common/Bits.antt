-- ===== src/Common/Bits.antt =====
-- Exclusive or at variables, from the digit recursion that the native operation stands for.
use Prim.Native.Nat.{
  ℕ, zero, suc, ◌+◌, ◌*◌, ◌/◌, ◌%◌, ◌^◌, ◌≤◌, ◌<◌, bit_xor, digits, bit_xor-bitwise, differ,
}
use mathlib.Core.Path.{◌≡◌, refl}
use native.Mathlib.Nat.{pow-suc}
use native.Mathlib.Omega.{arith}
use army.Common.Order.{strong_induction}

module _ (z : ℕ → ℕ) (f : ℕ → ℕ → ℕ) where
  -- Any count of digits that covers the first number gives the same result.
  enough_digits : (n m a b : ℕ) → a ≤ n → a ≤ m → digits z f n a b ≡ digits z f m a b
  enough_digits zero zero a b p q = refl
  enough_digits zero (suc m) zero b p q = refl
  enough_digits zero (suc m) (suc a) b p q = absurd (omega arith)
  enough_digits (suc n) zero zero b p q = refl
  enough_digits (suc n) zero (suc a) b p q = absurd (omega arith)
  enough_digits (suc n) (suc m) zero b p q = refl
  enough_digits (suc n) (suc m) (suc a) b p q =
      rw (enough_digits n m (suc a / 2) (b / 2) (omega arith) (omega arith))

-- The lowest digit and the others.
bit_xor_step : (a b : ℕ) → bit_xor a b ≡ bit_xor (a / 2) (b / 2) * 2 + differ (a % 2) (b % 2)
bit_xor_step zero b = simp bit_xor-bitwise (omega arith)
bit_xor_step (suc a) b = omega (
  arith,
  bit_xor-bitwise (suc a) b,
  bit_xor-bitwise (suc a / 2) (b / 2),
  enough_digits (λ y. y) differ a (suc a / 2) (suc a / 2) (b / 2) (omega arith) (omega arith),
)

differ_digits : (a b : ℕ) → a < 2 → b < 2 → differ a b ≡ (a + b) % 2
differ_digits zero b p q = omega arith
differ_digits (suc zero) zero p q = refl
differ_digits (suc zero) (suc zero) p q = refl
differ_digits (suc zero) (suc (suc b)) p q = absurd (omega arith)
differ_digits (suc (suc a)) b p q = absurd (omega arith)

xor_step : (a b : ℕ) → bit_xor a b ≡ bit_xor (a / 2) (b / 2) * 2 + (a % 2 + b % 2) % 2
xor_step a b = omega (arith, bit_xor_step a b, differ_digits (a % 2) (b % 2))

bit_xor-zero_zero : bit_xor 0 0 ≡ 0
bit_xor-zero_zero = refl

zero-bit_xor : (b : ℕ) → bit_xor 0 b ≡ b
zero-bit_xor b = bit_xor-bitwise 0 b

pub bit_xor-zero : (a : ℕ) → bit_xor a 0 ≡ a
bit_xor-zero = strong_induction (λ a. bit_xor a 0 ≡ a) step
  where
    step : (n : ℕ) → ((m : ℕ) → m < n → bit_xor m 0 ≡ m) → bit_xor n 0 ≡ n
    step zero ih = refl
    step (suc n) ih = omega (arith, xor_step (suc n) 0, ih (suc n / 2) (omega arith))

-- A number is taken off by the same exclusive or that put it on.
pub bit_xor_cancel : (a b : ℕ) → bit_xor (bit_xor a b) b ≡ a
bit_xor_cancel a b = strong_induction (λ n. (a : ℕ) → bit_xor (bit_xor a n) n ≡ a) step b a
  where
    step :
        (n : ℕ)
        → ((m : ℕ) → m < n → (a : ℕ) → bit_xor (bit_xor a m) m ≡ a)
        → (a : ℕ) → bit_xor (bit_xor a n) n ≡ a
    step zero ih a = simp bit_xor-zero
    step (suc n) ih a =
        let half : bit_xor a (suc n) / 2 ≡ bit_xor (a / 2) (suc n / 2) =
          omega (arith, xor_step a (suc n)) in
        let inner : bit_xor (bit_xor a (suc n) / 2) (suc n / 2) ≡ a / 2 =
          rw half (ih (suc n / 2) (omega arith) (a / 2)) in
        omega (arith, xor_step (bit_xor a (suc n)) (suc n), xor_step a (suc n), inner)

-- Numbers of `k` bits have an exclusive or of `k` bits.
pub bit_xor-lt : (k a b : ℕ) → a < 2 ^ k → b < 2 ^ k → bit_xor a b < 2 ^ k
bit_xor-lt zero zero zero p q = omega (arith, bit_xor-zero_zero)
bit_xor-lt zero zero (suc b) p q = absurd (omega arith)
bit_xor-lt zero (suc a) b p q = absurd (omega arith)
bit_xor-lt (suc k) a b p q = omega (
  arith,
  xor_step a b,
  pow-suc 2 k,
  bit_xor-lt k (a / 2) (b / 2) (omega (arith, pow-suc 2 k)) (omega (arith, pow-suc 2 k)),
)
