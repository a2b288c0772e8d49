-- ===== src/Base/Bits.antt =====
-- `&`, `|` and `^` at variables: one equation for the lowest digit, and what follows by recursion.
use Prim.Native.Nat.{
  ℕ, zero, suc, ◌+◌, ◌-◌, ◌*◌, ◌/◌, ◌%◌, ◌^◌, ◌≤◌, ◌<◌, min, max, bit_and, bit_or, bit_xor, digits,
  bitwise, differ, bit_and-bitwise, bit_or-bitwise, bit_xor-bitwise,
}
use mathlib.Core.Path.{◌≡◌, refl, ap}
use native.Mathlib.Nat.{pow-suc, one-le-pow}
use native.Mathlib.Omega.{arith}

-- Any count of rounds that is not below the first number gives the same digits.
module _ (z : ℕ → ℕ) (f : ℕ → ℕ → ℕ) where
  rounds_agree : (k l x y : ℕ) → x ≤ k → x ≤ l → digits z f k x y ≡ digits z f l x y
  rounds_agree zero l (suc x) y p q = absurd (omega arith)
  rounds_agree k zero (suc x) y p q = absurd (omega arith)
  rounds_agree zero zero zero y p q = refl
  rounds_agree zero (suc l) zero y p q = refl
  rounds_agree (suc k) zero zero y p q = refl
  rounds_agree (suc k) (suc l) zero y p q = refl
  rounds_agree (suc k) (suc l) (suc x) y p q =
      ap (λ t. t * 2 + f (suc x % 2) (y % 2))
        (rounds_agree k l (suc x / 2) (y / 2) (omega arith) (omega arith))

  lowest_digit :
      (x y : ℕ)
      → bitwise z f (suc x) y ≡ bitwise z f (suc x / 2) (y / 2) * 2 + f (suc x % 2) (y % 2)
  lowest_digit x y =
      ap (λ t. t * 2 + f (suc x % 2) (y % 2))
        (rounds_agree x (suc x / 2) (suc x / 2) (y / 2) (omega arith) (omega arith))

pub bit_and_step : (x y : ℕ) → bit_and x y ≡ bit_and (x / 2) (y / 2) * 2 + min (x % 2) (y % 2)
bit_and_step zero y = simp bit_and-bitwise (omega arith)
bit_and_step (suc x) y = simp bit_and-bitwise (lowest_digit (λ _. 0) min x y)

pub bit_or_step : (x y : ℕ) → bit_or x y ≡ bit_or (x / 2) (y / 2) * 2 + max (x % 2) (y % 2)
bit_or_step zero y = simp bit_or-bitwise (omega arith)
bit_or_step (suc x) y = simp bit_or-bitwise (lowest_digit (λ t. t) max x y)

pub bit_xor_step : (x y : ℕ) → bit_xor x y ≡ bit_xor (x / 2) (y / 2) * 2 + differ (x % 2) (y % 2)
bit_xor_step zero y = simp bit_xor-bitwise (ground arith)
bit_xor_step (suc x) y = simp bit_xor-bitwise (lowest_digit (λ t. t) differ x y)

-- The remaining laws go by a bound on the number, which halves.
bit_and-zero_upto : (k x : ℕ) → x ≤ k → bit_and x 0 ≡ 0
bit_and-zero_upto k zero h = refl
bit_and-zero_upto zero (suc x) h = absurd (omega arith)
bit_and-zero_upto (suc k) (suc x) h =
    omega (arith, bit_and_step (suc x) 0, bit_and-zero_upto k (suc x / 2) (omega arith))

pub bit_and-zero : (x : ℕ) → bit_and x 0 ≡ 0
bit_and-zero x = bit_and-zero_upto x x (omega arith)

-- A mask of `k` ones keeps the `k` lowest digits.
low_ones : (k q r : ℕ) → r < 2 ^ k → bit_and (q * 2 ^ k + r) (2 ^ k - 1) ≡ r
low_ones zero q r h = omega (arith, bit_and-zero (q * 1 + r))
low_ones (suc k) q r h = ground (
  arith,
  bit_and_step (q * 2 ^ suc k + r) (2 ^ suc k - 1),
  pow-suc 2 k,
  one-le-pow k 2,
  ap (λ (t : ℕ). q * t) (pow-suc 2 k),
  low_ones k q (r / 2),
)

pub bit_and_mask : (k x : ℕ) → bit_and x (2 ^ k - 1) ≡ x % 2 ^ k
bit_and_mask k x = ground (arith, low_ones k (x / 2 ^ k) (x % 2 ^ k), one-le-pow k 2)

-- A mask that clears the two lowest digits and keeps the `k` above them.
pub bit_and_clear_two : (k x : ℕ) → bit_and x (4 * (2 ^ k - 1)) ≡ x / 4 % 2 ^ k * 4
bit_and_clear_two k x = ground (
  arith,
  bit_and_step x (4 * (2 ^ k - 1)),
  bit_and_step (x / 2) (2 * (2 ^ k - 1)),
  bit_and_mask k (x / 4),
)

bit_or-zero_upto : (k x : ℕ) → x ≤ k → bit_or x 0 ≡ x
bit_or-zero_upto k zero h = refl
bit_or-zero_upto zero (suc x) h = absurd (omega arith)
bit_or-zero_upto (suc k) (suc x) h =
    omega (arith, bit_or_step (suc x) 0, bit_or-zero_upto k (suc x / 2) (omega arith))

-- `(hi << k) | lo` is a sum when `lo` has `k` digits.
pub bit_or_sum : (k hi lo : ℕ) → lo < 2 ^ k → bit_or (hi * 2 ^ k) lo ≡ hi * 2 ^ k + lo
bit_or_sum zero hi lo h = ground (arith, bit_or-zero_upto hi hi)
bit_or_sum (suc k) hi lo h = ground (
  arith,
  bit_or_step (hi * 2 ^ suc k) lo,
  ap (λ (t : ℕ). hi * t) (pow-suc 2 k),
  pow-suc 2 k,
  bit_or_sum k hi (lo / 2),
)
