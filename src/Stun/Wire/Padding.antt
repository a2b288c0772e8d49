-- ===== src/Stun/Wire/Padding.antt =====
-- `stun_padding` and `stun_align` as arithmetic.
use libnice.Base.{ℕ, ◌+◌, ◌-◌, ◌*◌, ◌/◌, ◌%◌, ◌^◌, ◌≤◌, ◌<◌, ◌≡◌, arith}
use libnice.Base.Bits.{bit_and_mask, bit_and_clear_two}
use libnice.Stun.Wire.{padding, align}

pub padding-eq : (l : ℕ) → padding l ≡ (4 - l % 4) % 4
unfolding padding
padding-eq l = ground (arith, bit_and_mask 2 l, bit_and_mask 2 (4 - l % 4))

pub align-eq : (l : ℕ) → l + 3 < 2 ^ 64 → align l ≡ (l + 3) / 4 * 4
unfolding align
align-eq l h = omega (arith, bit_and_clear_two 62 ((l + 3) % 2 ^ 64))

-- For every length that leaves room below 2 ^ 64, `stun_align` is the length with its
-- `stun_padding` added; it is a multiple of four, no higher than any that is not below the length, and the
-- padding is at most three bytes.
pub align-eq-add-padding :
    (l k : ℕ)
    → l + 3 < 2 ^ 64
    → l ≤ 4 * k
    → (align l ≡ l + padding l) × (align l % 4 ≡ 0) × (padding l ≤ 3) × (align l ≤ 4 * k)
align-eq-add-padding l k h q = (
  omega (arith, align-eq l h, padding-eq l),
  omega (arith, align-eq l h),
  omega (arith, padding-eq l),
  omega (arith, align-eq l h),
)
