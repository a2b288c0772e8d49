-- ===== src/Base/Xor.antt =====
-- `^` at variables.
use Prim.Native.Nat.{ℕ, zero, suc, ◌+◌, ◌*◌, ◌/◌, ◌%◌, ◌^◌, ◌≤◌, ◌<◌, bit_xor, differ}
use mathlib.Core.Path.{◌≡◌, refl, sym, ap, ◌∙◌}
use native.Mathlib.Nat.{pow-suc, div-div-eq-div-mul}
use native.Mathlib.Omega.{arith}
use libnice.Base.Bits.{bit_xor_step}

-- `^` with the same number twice.
digit_cancel : (x y : ℕ) → x < 2 → y < 2 → differ (differ x y) y ≡ x
digit_cancel zero zero p q = refl
digit_cancel zero (suc zero) p q = refl
digit_cancel (suc zero) zero p q = refl
digit_cancel (suc zero) (suc zero) p q = refl
digit_cancel (suc (suc x)) y p q = absurd (omega arith)
digit_cancel x (suc (suc y)) p q = absurd (omega arith)

digit-lt : (x y : ℕ) → x < 2 → y < 2 → differ x y < 2
digit-lt zero y p q = q
digit-lt (suc zero) zero p q = omega arith
digit-lt (suc zero) (suc zero) p q = omega arith
digit-lt (suc (suc x)) y p q = absurd (omega arith)
digit-lt x (suc (suc y)) p q = absurd (omega arith)

pub bit_xor-lt : (k x y : ℕ) → x < 2 ^ k → y < 2 ^ k → bit_xor x y < 2 ^ k
bit_xor-lt zero x y p q =
    let ex : x ≡ 0 = omega arith in let ey : y ≡ 0 = omega arith in rw (ex, ey) (omega arith)
bit_xor-lt (suc k) x y p q = ground (
  arith,
  bit_xor_step x y,
  pow-suc 2 k,
  digit-lt (x % 2) (y % 2) (omega arith) (omega arith),
  bit_xor-lt k (x / 2) (y / 2),
)

-- The upper digits and the lowest digit of `^`.
pub bit_xor_digits :
    (x y : ℕ)
    → (bit_xor x y / 2 ≡ bit_xor (x / 2) (y / 2)) × (bit_xor x y % 2 ≡ differ (x % 2) (y % 2))
bit_xor_digits x y =
    let small = digit-lt (x % 2) (y % 2) (omega arith) (omega arith) in
    (omega (arith, bit_xor_step x y, small), omega (arith, bit_xor_step x y, small))

pub bit_xor_cancel : (k x y : ℕ) → x < 2 ^ k → y < 2 ^ k → bit_xor (bit_xor x y) y ≡ x
bit_xor_cancel zero x y p q =
    let ex : x ≡ 0 = omega arith in let ey : y ≡ 0 = omega arith in rw (ex, ey) refl
bit_xor_cancel (suc k) x y p q =
    rw (bit_xor_step (bit_xor x y) y, (bit_xor_digits x y).0, (bit_xor_digits x y).1)
      (omega (
        arith,
        bit_xor_cancel k (x / 2) (y / 2) (omega (arith, pow-suc 2 k)) (omega (arith, pow-suc 2 k)),
        digit_cancel (x % 2) (y % 2) (omega arith) (omega arith),
      ))

digit_comm : (x y : ℕ) → x < 2 → y < 2 → differ x y ≡ differ y x
digit_comm zero zero p q = refl
digit_comm zero (suc zero) p q = refl
digit_comm (suc zero) zero p q = refl
digit_comm (suc zero) (suc zero) p q = refl
digit_comm (suc (suc x)) y p q = absurd (omega arith)
digit_comm x (suc (suc y)) p q = absurd (omega arith)

digit_assoc : (x y z : ℕ) → x < 2 → y < 2 → z < 2 → differ (differ x y) z ≡ differ x (differ y z)
digit_assoc zero y z p q r = refl
digit_assoc (suc zero) zero z p q r = refl
digit_assoc (suc zero) (suc zero) zero p q r = refl
digit_assoc (suc zero) (suc zero) (suc zero) p q r = refl
digit_assoc (suc (suc x)) y z p q r = absurd (omega arith)
digit_assoc x (suc (suc y)) z p q r = absurd (omega arith)
digit_assoc x y (suc (suc z)) p q r = absurd (omega arith)

bit_xor_comm_upto : (k x y : ℕ) → x ≤ k → y ≤ k → bit_xor x y ≡ bit_xor y x
bit_xor_comm_upto zero x y p q =
    let ex : x ≡ 0 = omega arith in let ey : y ≡ 0 = omega arith in rw (ex, ey) refl
bit_xor_comm_upto (suc k) x y p q = omega (
  arith,
  bit_xor_step x y,
  bit_xor_step y x,
  digit_comm (x % 2) (y % 2) (omega arith) (omega arith),
  bit_xor_comm_upto k (x / 2) (y / 2) (omega arith) (omega arith),
)

pub bit_xor_comm : (x y : ℕ) → bit_xor x y ≡ bit_xor y x
bit_xor_comm x y = bit_xor_comm_upto (x + y) x y (omega arith) (omega arith)

bit_xor_assoc_upto :
    (k x y z : ℕ) → x ≤ k → y ≤ k → z ≤ k → bit_xor (bit_xor x y) z ≡ bit_xor x (bit_xor y z)
bit_xor_assoc_upto zero x y z p q r =
    let ex : x ≡ 0 = omega arith in
    let ey : y ≡ 0 = omega arith in let ez : z ≡ 0 = omega arith in rw (ex, ey, ez) refl
bit_xor_assoc_upto (suc k) x y z p q r =
    let a = bit_xor_digits x y in
    let b = bit_xor_digits y z in
    let left = rw (a.0, a.1) at (bit_xor_step (bit_xor x y) z) in
    let right = rw (b.0, b.1) at (bit_xor_step x (bit_xor y z)) in
    omega (
      arith,
      left,
      right,
      digit_assoc (x % 2) (y % 2) (z % 2) (omega arith) (omega arith) (omega arith),
      bit_xor_assoc_upto k (x / 2) (y / 2) (z / 2) (omega arith) (omega arith) (omega arith),
    )

pub bit_xor_assoc : (x y z : ℕ) → bit_xor (bit_xor x y) z ≡ bit_xor x (bit_xor y z)
bit_xor_assoc x y z = bit_xor_assoc_upto (x + y + z) x y z (omega arith) (omega arith) (omega arith)

bit_xor-zero_upto : (k x : ℕ) → x ≤ k → bit_xor x 0 ≡ x
bit_xor-zero_upto zero x h = let e : x ≡ 0 = omega arith in rw e refl
bit_xor-zero_upto (suc k) x h = omega (
  arith,
  bit_xor_step x 0,
  digit_comm (x % 2) 0 (omega arith) (omega arith),
  bit_xor-zero_upto k (x / 2) (omega arith),
)

digit_self : (x : ℕ) → x < 2 → differ x x ≡ 0
digit_self zero h = refl
digit_self (suc zero) h = refl
digit_self (suc (suc x)) h = absurd (omega arith)

bit_xor_self_upto : (k x : ℕ) → x ≤ k → bit_xor x x ≡ 0
bit_xor_self_upto zero x h = let e : x ≡ 0 = omega arith in rw e refl
bit_xor_self_upto (suc k) x h = omega (
  arith,
  bit_xor_step x x,
  digit_self (x % 2) (omega arith),
  bit_xor_self_upto k (x / 2) (omega arith),
)

pub bit_xor_twice : (x y : ℕ) → bit_xor (bit_xor x y) y ≡ x
bit_xor_twice x y =
    bit_xor_assoc x y y
    ∙ ap (bit_xor x) (bit_xor_self_upto y y (omega arith))
    ∙ bit_xor-zero_upto x x (omega arith)

pub bit_xor_sum : (k hi lo : ℕ) → lo < 2 ^ k → bit_xor (hi * 2 ^ k) lo ≡ hi * 2 ^ k + lo
bit_xor_sum zero hi lo h =
    let e : lo ≡ 0 = omega arith in
    let f : hi * 2 ^ 0 ≡ hi = omega arith in
    rw (e, f) (omega (arith, bit_xor-zero_upto hi hi (omega arith)))
bit_xor_sum (suc k) hi lo h = ground (
  arith,
  bit_xor_step (hi * 2 ^ suc k) lo,
  ap (λ (t : ℕ). hi * t) (pow-suc 2 k),
  pow-suc 2 k,
  bit_xor_sum k hi (lo / 2),
)

pub bit_xor-zero : (x : ℕ) → bit_xor x 0 ≡ x
bit_xor-zero x = bit_xor-zero_upto x x (omega arith)

div_suc_pow : (k x : ℕ) → x / 2 ^ suc k ≡ x / 2 / 2 ^ k
div_suc_pow k x =
    let p : 2 ^ suc k ≡ 2 * 2 ^ k = grind arith in
    ap (λ t. x / t) p ∙ sym (div-div-eq-div-mul x 2 (2 ^ k))

-- A shift to the right by `k` digits goes into `^`.
pub bit_xor-div : (k x y : ℕ) → bit_xor x y / 2 ^ k ≡ bit_xor (x / 2 ^ k) (y / 2 ^ k)
bit_xor-div zero x y =
    let e : (z : ℕ) → z / 2 ^ 0 ≡ z = λ z. omega arith in rw (e (bit_xor x y), e x, e y) refl
bit_xor-div (suc k) x y =
    rw (div_suc_pow k (bit_xor x y), div_suc_pow k x, div_suc_pow k y, (bit_xor_digits x y).0)
      (bit_xor-div k (x / 2) (y / 2))
