-- ===== src/Stun/Wire/Word.antt =====
-- 16-bit words: what `stun_setw` stores `stun_getw` reads.
use libnice.Base.{
  ℕ, ◌+◌, ◌*◌, ◌/◌, ◌%◌, ◌^◌, ◌≤◌, ◌<◌, ◌≡◌, arith, ok, length, get_or, overlay, read-eq-ok,
  write_bytes-eq-ok, List, bit_and, read, >>=-eq-ok,
}
use libnice.Base.Bits.{bit_and_mask, bit_or_sum}
use libnice.Stun.Wire.{word_of, getw, setw, word_bytes}

pub word_of-eq : (hi lo : ℕ) → hi < 256 → lo < 256 → word_of hi lo ≡ hi * 256 + lo
word_of-eq hi lo p q = omega (arith, bit_or_sum 8 hi lo q)

pub word_of-lt : (hi lo : ℕ) → word_of hi lo < 2 ^ 16
word_of-lt hi lo = omega arith

pub word_of_bytes : (v : ℕ) → word_of (v % 2 ^ 16 / 2 ^ 8) (bit_and (v % 2 ^ 16) 0xff) ≡ v % 2 ^ 16
word_of_bytes v =
    ground (arith, bit_and_mask 8 (v % 2 ^ 16), word_of-eq (v % 2 ^ 16 / 256) (v % 2 ^ 16 % 256))

pub getw-eq-ok :
    (buf : List ℕ) (i : ℕ)
    → i + 2 ≤ length buf
    → getw buf i ≡ ok (word_of (get_or buf i 0) (get_or buf (i + 1) 0))
unfolding getw
getw-eq-ok buf i h = rw (read-eq-ok buf i (omega arith), read-eq-ok buf (i + 1) (omega arith))

pub setw-eq-ok :
    (buf : List ℕ) (i v : ℕ) → i + 2 ≤ length buf → setw buf i v ≡ ok (overlay buf i (word_bytes v))
unfolding setw
setw-eq-ok buf i v h = write_bytes-eq-ok buf i (word_bytes v) h

pub getw-lt : (buf : List ℕ) (i w : ℕ) → getw buf i ≡ ok w → w < 2 ^ 16
unfolding getw
getw-lt buf i w h =
    let (hi, _, k) = >>=-eq-ok (read buf i) _ h in
    let (lo, _, e) = >>=-eq-ok (read buf (i + 1)) _ k in ground (arith, word_of-lt hi lo)
