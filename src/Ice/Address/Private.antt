-- ===== src/Ice/Address/Private.antt =====
-- Which addresses are private, and what the comparison of addresses decides.
use libnice.Base.{
  ℕ, zero, suc, ◌*◌, ◌/◌, ◌^◌, ◌<◌, ◌≡◌, refl, arith, Bool, true, false, ◌&&◌, ◌||◌, ◌==◌, bit_and,
  bytes_eq, sym, ◌∙◌, ap,
}
use libnice.Base.Bits.{bit_and_step, bit_and_mask}
use libnice.Stun.Value.RoundTrip.{ntohl-htonl}
use libnice.Ice.Address.{
  NiceAddress, ip4, ip6, other, set_ipv4, is_private, ipv4_is_private, equal, equal_no_port,
  get_port, scopes_agree,
}
use native.Mathlib.Nat.{div-div-eq-div-mul}

-- A mask with `k` digits 0 at its end keeps the digits above.
bit_and_high : (k x m : ℕ) → bit_and x (m * 2 ^ k) ≡ bit_and (x / 2 ^ k) m * 2 ^ k
bit_and_high zero x m =
    let e : m * 2 ^ 0 ≡ m = omega arith in
    let f : x / 2 ^ 0 ≡ x = omega arith in
    let g : bit_and x m * 2 ^ 0 ≡ bit_and x m = omega arith in rw (e, f, g) refl
bit_and_high (suc k) x m =
    let e : m * 2 ^ suc k ≡ 2 * (m * 2 ^ k) = grind arith in
    let r : bit_and (x / 2 ^ suc k) m * 2 ^ suc k ≡ 2 * (bit_and (x / 2 ^ suc k) m * 2 ^ k) =
      grind arith in
    let p : 2 ^ suc k ≡ 2 * 2 ^ k = grind arith in
    let g : x / 2 ^ suc k ≡ x / 2 / 2 ^ k =
      ap (λ t. x / t) p ∙ sym (div-div-eq-div-mul x 2 (2 ^ k)) in
    let h : 2 * (m * 2 ^ k) / 2 ≡ m * 2 ^ k = omega arith in
    let step = rw h at (bit_and_step x (2 * (m * 2 ^ k))) in
    rw (r, e, g) (omega (arith, step, bit_and_high k (x / 2) m))

-- An address of 32 bits set by `nice_address_set_ipv4` is private exactly when it lies in 10.0.0.0/8,
-- 172.16.0.0/12, 192.168.0.0/16, 169.254.0.0/16 or 127.0.0.0/8.
pub is_private-set_ipv4 :
    (a : ℕ)
    → a < 2 ^ 32
    → is_private (set_ipv4 a) ≡ (
        (a / 2 ^ 24 == 10)
        || (a / 2 ^ 20 == 0xac1)
        || (a / 2 ^ 16 == 0xc0a8)
        || (a / 2 ^ 16 == 0xa9fe)
        || (a / 2 ^ 24 == 127))
unfolding is_private ipv4_is_private set_ipv4
is_private-set_ipv4 a h =
    let e : bit_and a 0xff000000 ≡ a / 2 ^ 24 * 2 ^ 24 =
      omega (arith, bit_and_high 24 a 255, bit_and_mask 8 (a / 2 ^ 24)) in
    let f : bit_and a 0xfff00000 ≡ a / 2 ^ 20 * 2 ^ 20 =
      omega (arith, bit_and_high 20 a 4095, bit_and_mask 12 (a / 2 ^ 20)) in
    let g : bit_and a 0xffff0000 ≡ a / 2 ^ 16 * 2 ^ 16 =
      omega (arith, bit_and_high 16 a 65535, bit_and_mask 16 (a / 2 ^ 16)) in
    rw (ntohl-htonl a h, e, f, g) (ground arith)

and_swap : (x y z : Bool) → (x && y && z) ≡ ((x && z) && y)
and_swap true true true = refl
and_swap true true false = refl
and_swap true false true = refl
and_swap true false false = refl
and_swap false y z = refl

-- Two addresses are equal exactly when they are but for the port and the ports are the same.
pub equal-no_port :
    (a b : NiceAddress) → equal a b ≡ (equal_no_port a b && (get_port a == get_port b))
unfolding equal equal_no_port get_port
equal-no_port (ip4 a p) (ip4 b q) = refl
equal-no_port (ip6 a p s) (ip6 b q t) = and_swap (bytes_eq a b) (p == q) (scopes_agree s t)
equal-no_port (ip4 a p) (ip6 b q t) = refl
equal-no_port (ip4 a p) other = refl
equal-no_port (ip6 a p s) (ip4 b q) = refl
equal-no_port (ip6 a p s) other = refl
equal-no_port other b = refl
