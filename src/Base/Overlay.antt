-- ===== src/Base/Overlay.antt =====
-- What accesses within the buffer read and leave behind.

use libnice.Base.Lists.{length, get_or, set, length-set}
use libnice.Base.Memory.{ok, out_of_bounds, read, write, write_bytes, read_bytes}
use Prim.Native.Nat.{ℕ, zero, suc, ◌+◌, ◌≤◌, ◌<◌}
use mathlib.Core.Path.{◌≡◌, refl, ap, ap₂}
use mathlib.Core.Logic.{◌≢◌}
use mathlib.Core.List.{List, [], ◌∷◌}
use native.Mathlib.Decide.{dec_lt}
use native.Mathlib.Nat.{add-zero}
use native.Mathlib.Omega.{arith}

-- The buffer with `bytes` laid over it from index `i` on.
abbrev pub overlay : List ℕ → ℕ → List ℕ → List ℕ
overlay buf i [] = buf
overlay buf i (b ∷ bs) = overlay (set buf i b) (i + 1) bs

-- The `n` bytes from index `i` on; a byte past the end counts as 0.
abbrev pub slice : List ℕ → ℕ → ℕ → List ℕ
slice buf i zero = []
slice buf i (suc n) = get_or buf i 0 ∷ slice buf (i + 1) n

pub read-eq-ok : (buf : List ℕ) (i : ℕ) → i < length buf → read buf i ≡ ok (get_or buf i 0)
unfolding read
read-eq-ok [] i h = absurd (omega arith)
read-eq-ok (b ∷ bs) zero h = refl
read-eq-ok (b ∷ bs) (suc i) h = read-eq-ok bs i (omega arith)

pub write-eq-ok : (buf : List ℕ) (i v : ℕ) → i < length buf → write buf i v ≡ ok (set buf i v)
unfolding write
write-eq-ok [] i v h = absurd (omega arith)
write-eq-ok (b ∷ bs) zero v h = refl
write-eq-ok (b ∷ bs) (suc i) v h = rw (write-eq-ok bs i v (omega arith))

pub length-overlay : (buf : List ℕ) (i : ℕ) (bs : List ℕ) → length (overlay buf i bs) ≡ length buf
length-overlay buf i [] = refl
length-overlay buf i (b ∷ bs) =
    omega (arith, length-overlay (set buf i b) (i + 1) bs, length-set buf i b)

pub write_bytes-eq-ok :
    (buf : List ℕ) (i : ℕ) (bs : List ℕ)
    → i + length bs ≤ length buf
    → write_bytes buf i bs ≡ ok (overlay buf i bs)
unfolding write_bytes
write_bytes-eq-ok buf i [] h = refl
write_bytes-eq-ok buf i (b ∷ bs) h =
    rw (write-eq-ok buf i b (omega arith))
      (write_bytes-eq-ok (set buf i b) (i + 1) bs (omega (arith, length-set buf i b)))

pub read_bytes-eq-ok :
    (buf : List ℕ) (i n : ℕ) → i + n ≤ length buf → read_bytes buf i n ≡ ok (slice buf i n)
unfolding read_bytes
read_bytes-eq-ok buf i zero h = refl
read_bytes-eq-ok buf i (suc n) h =
    rw (read-eq-ok buf i (omega arith), read_bytes-eq-ok buf (i + 1) n (omega arith))

get_or-set_self : (buf : List ℕ) (i v : ℕ) → i < length buf → get_or (set buf i v) i 0 ≡ v
get_or-set_self [] i v h = absurd (omega arith)
get_or-set_self (x ∷ xs) zero v h = refl
get_or-set_self (x ∷ xs) (suc i) v h = get_or-set_self xs i v (omega arith)

get_or-set_ne : (buf : List ℕ) (i j v : ℕ) → i ≢ j → get_or (set buf i v) j 0 ≡ get_or buf j 0
get_or-set_ne [] i j v h = refl
get_or-set_ne (x ∷ xs) zero zero v h = absurd (h refl)
get_or-set_ne (x ∷ xs) zero (suc j) v h = refl
get_or-set_ne (x ∷ xs) (suc i) zero v h = refl
get_or-set_ne (x ∷ xs) (suc i) (suc j) v h = get_or-set_ne xs i j v (λ e. h (ap suc e))

pub get_or-overlay_before :
    (buf : List ℕ) (i : ℕ) (bs : List ℕ) (j : ℕ)
    → j < i
    → get_or (overlay buf i bs) j 0 ≡ get_or buf j 0
get_or-overlay_before buf i [] j h = refl
get_or-overlay_before buf i (b ∷ bs) j h =
    rw (get_or-overlay_before (set buf i b) (i + 1) bs j (omega arith))
      (get_or-set_ne buf i j b (omega arith))

pub get_or-overlay_after :
    (buf : List ℕ) (i : ℕ) (bs : List ℕ) (j : ℕ)
    → i + length bs ≤ j
    → get_or (overlay buf i bs) j 0 ≡ get_or buf j 0
get_or-overlay_after buf i [] j h = refl
get_or-overlay_after buf i (b ∷ bs) j h =
    rw (get_or-overlay_after (set buf i b) (i + 1) bs j (omega arith))
      (get_or-set_ne buf i j b (omega arith))

pub get_or-overlay_in :
    (buf : List ℕ) (i : ℕ) (bs : List ℕ) (k : ℕ)
    → i + length bs ≤ length buf
    → k < length bs
    → get_or (overlay buf i bs) (i + k) 0 ≡ get_or bs k 0
get_or-overlay_in buf i [] k h q = absurd (omega arith)
get_or-overlay_in buf i (b ∷ bs) zero h q =
    rw (get_or-overlay_before (set buf i b) (i + 1) bs (i + 0) (omega arith), add-zero)
      (get_or-set_self buf i b (omega arith))
get_or-overlay_in buf i (b ∷ bs) (suc k) h q =
    let e : i + suc k ≡ (i + 1) + k = omega arith in
    rw e (
      get_or-overlay_in (set buf i b) (i + 1) bs k (omega (arith, length-set buf i b))
        (omega arith))

-- A stretch of the buffer that agrees byte by byte with a list is that list.
pub slice-eq :
    (buf : List ℕ) (i : ℕ) (bs : List ℕ)
    → ((k : ℕ) → k < length bs → get_or buf (i + k) 0 ≡ get_or bs k 0)
    → slice buf i (length bs) ≡ bs
slice-eq buf i [] h = refl
slice-eq buf i (b ∷ bs) h = ap₂ ◌∷◌ (rw add-zero at (h 0 (omega arith))) (
    slice-eq buf (i + 1) bs
      (λ k q. let e : (i + 1) + k ≡ i + suc k = omega arith in rw e (h (suc k) (omega arith))))

pub slice-overlay :
    (buf : List ℕ) (i : ℕ) (bs : List ℕ)
    → i + length bs ≤ length buf
    → slice (overlay buf i bs) i (length bs) ≡ bs
slice-overlay buf i bs h =
    slice-eq (overlay buf i bs) i bs (λ k q. get_or-overlay_in buf i bs k h q)

write-oob : (buf : List ℕ) (i v : ℕ) → length buf ≤ i → write buf i v ≡ out_of_bounds
unfolding write
write-oob [] i v h = refl
write-oob (b ∷ bs) zero v h = absurd (omega arith)
write-oob (b ∷ bs) (suc i) v h = rw (write-oob bs i v (omega arith))

-- A store that does not fit leaves the buffer.
pub write_bytes-oob :
    (buf : List ℕ) (i : ℕ) (bs : List ℕ)
    → 0 < length bs
    → length buf < i + length bs
    → write_bytes buf i bs ≡ out_of_bounds
unfolding write_bytes
write_bytes-oob buf i [] h q = absurd (omega arith)
write_bytes-oob buf i (b ∷ []) h q = rw (write-oob buf i b (omega arith))
write_bytes-oob buf i (b ∷ c ∷ bs) h q = elim (dec_lt i (length buf)) [
  | yes p ↦ rw (write-eq-ok buf i b p) (
      write_bytes-oob (set buf i b) (i + 1) (c ∷ bs) (omega arith)
        (omega (arith, length-set buf i b)))
  | no p ↦ rw (write-oob buf i b (omega arith))
]
