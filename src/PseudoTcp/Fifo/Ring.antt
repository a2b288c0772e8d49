-- ===== src/PseudoTcp/Fifo/Ring.antt =====
-- A stretch of a ring of bytes, and how it is read and written in two pieces.
use libnice.Base.{
  ℕ, zero, suc, ◌+◌, ◌-◌, ◌*◌, ◌%◌, ◌≤◌, ◌<◌, ◌≡◌, refl, sym, ap, ◌∙◌, arith, inl, inr, ◌⊎◌, List,
  [], ◌∷◌, ◌++◌, length, get_or, slice, take, drop, min, overlay, length-overlay,
  get_or-overlay_before, get_or-overlay_after, get_or-overlay_in, length-take, length-drop,
}
use mathlib.Core.Path.{ap₂}
use native.Mathlib.Numerals.{unary_clauses}
use native.Mathlib.Decide.{dec_lt, dec_le}
use native.Mathlib.Nat.{mod-eq_of_lt, mod-eq-sub-mod, mod-add-mod, add-zero, add-mod_right}

-- The `k` bytes of a ring of `n` from place `i` on.
abbrev pub ring : List ℕ → ℕ → ℕ → ℕ → List ℕ
ring buf n i zero = []
ring buf n i (suc k) = get_or buf (i % n) 0 ∷ ring buf n (i + 1) k

pub wrap_cases : (n x : ℕ) → x < 2 * n → ((x < n) × (x % n ≡ x)) ⊎ ((n ≤ x) × (x % n + n ≡ x))
wrap_cases n x h = elim (dec_lt x n) [
  | yes p ↦ inl (p, mod-eq_of_lt p)
  | no p ↦ inr (
    omega arith,
    let e : x % n ≡ (x - n) % n = mod-eq-sub-mod (omega arith) in
        let f : (x - n) % n ≡ x - n = mod-eq_of_lt (omega arith) in omega (arith, e, f),
  )
]

pub length-ring : (buf : List ℕ) (n i k : ℕ) → length (ring buf n i k) ≡ k
length-ring buf n i zero = refl
length-ring buf n i (suc k) = ap suc (length-ring buf n (i + 1) k)

pub ring_cong : (buf : List ℕ) (n i j k : ℕ) → i % n ≡ j % n → ring buf n i k ≡ ring buf n j k
ring_cong buf n i j zero h = refl
ring_cong buf n i j (suc k) h =
    ap₂ (λ p bs. get_or buf p 0 ∷ bs) h
      (ring_cong buf n (i + 1) (j + 1) k
        (sym (mod-add-mod i n 1) ∙ ap (λ t. (t + 1) % n) h ∙ mod-add-mod j n 1))

pub ring_append :
    (buf : List ℕ) (n i j k : ℕ) → ring buf n i (j + k) ≡ ring buf n i j ++ ring buf n (i + j) k
ring_append buf n i zero k =
    let e : 0 + k ≡ k = omega arith in let f : i + 0 ≡ i = omega arith in rw (e, f) refl
ring_append buf n i (suc j) k =
    let e : i + suc j ≡ (i + 1) + j = omega arith in
    let f : suc j + k ≡ suc (j + k) = omega arith in
    rw (e, f) (ap (◌∷◌ (get_or buf (i % n) 0)) (ring_append buf n (i + 1) j k))

pub take-ring : (buf : List ℕ) (n i m k : ℕ) → take m (ring buf n i k) ≡ ring buf n i (min m k)
take-ring buf n i zero k = let e : min 0 k ≡ 0 = omega arith in rw e refl
take-ring buf n i (suc m) zero = let e : min (suc m) 0 ≡ 0 = omega arith in rw e refl
take-ring buf n i (suc m) (suc k) =
    let e : min (suc m) (suc k) ≡ suc (min m k) = omega arith in
    rw e (ap (◌∷◌ (get_or buf (i % n) 0)) (take-ring buf n (i + 1) m k))

pub ring_shorten :
    (buf buf' : List ℕ) (n i m k : ℕ)
    → ring buf n i k ≡ ring buf' n i k
    → m ≤ k
    → ring buf n i m ≡ ring buf' n i m
ring_shorten buf buf' n i m k h q =
    let e : min m k ≡ m = omega arith in
    rw e at (sym (take-ring buf n i m k) ∙ ap (take m) h ∙ take-ring buf' n i m k)

pub drop-ring : (buf : List ℕ) (n i m k : ℕ) → drop m (ring buf n i k) ≡ ring buf n (i + m) (k - m)
drop-ring buf n i zero k = simp unary_clauses refl
drop-ring buf n i (suc m) zero = let e : 0 - suc m ≡ 0 = omega arith in rw e refl
drop-ring buf n i (suc m) (suc k) =
    let e : i + suc m ≡ (i + 1) + m = omega arith in
    let f : suc k - suc m ≡ k - m = omega arith in rw (e, f) (drop-ring buf n (i + 1) m k)

ring_flat : (buf : List ℕ) (n i k : ℕ) → i + k ≤ n → ring buf n i k ≡ slice buf i k
ring_flat buf n i zero h = refl
ring_flat buf n i (suc k) h =
    let e : i % n ≡ i = mod-eq_of_lt (omega arith) in
    ap₂ (λ p bs. get_or buf p 0 ∷ bs) e (ring_flat buf n (i + 1) k (omega arith))

pub append-nil : (xs : List ℕ) → xs ++ [] ≡ xs
append-nil [] = refl
append-nil (x ∷ xs) = ap (◌∷◌ x) (append-nil xs)

-- The tail of the buffer from `i` on, and the rest from its start.
pub ring_split :
    (buf : List ℕ) (n i k : ℕ)
    → i < n
    → k ≤ n
    → ring buf n i k ≡ slice buf i (min k (n - i)) ++ slice buf 0 (k - min k (n - i))
ring_split buf n i k h q = elim (dec_le k (n - i)) [
  | yes p ↦
      let e : min k (n - i) ≡ k = omega arith in
      let f : k - k ≡ 0 = omega arith in
      rw (e, f) (ring_flat buf n i k (omega arith) ∙ sym (append-nil (slice buf i k)))
  | no p ↦
      let e : min k (n - i) ≡ n - i = omega arith in
      let f : k ≡ (n - i) + (k - (n - i)) = omega arith in
      let g : i + (n - i) ≡ 0 + n = omega arith in
      rw e (
        ap (ring buf n i) f
        ∙ ring_append buf n i (n - i) (k - (n - i))
        ∙ ap₂ ◌++◌ (ring_flat buf n i (n - i) (omega arith)) (
            ring_cong buf n (i + (n - i)) 0 (k - (n - i)) (ap (λ t. t % n) g ∙ add-mod_right 0 n)
            ∙ ring_flat buf n 0 (k - (n - i)) (omega arith)))
]

pub ring_agree :
    (buf buf' : List ℕ) (n i k : ℕ)
    → ((j : ℕ) → j < k → get_or buf ((i + j) % n) 0 ≡ get_or buf' ((i + j) % n) 0)
    → ring buf n i k ≡ ring buf' n i k
ring_agree buf buf' n i zero h = refl
ring_agree buf buf' n i (suc k) h = ap₂ ◌∷◌ (rw add-zero at (h 0 (omega arith))) (
    ring_agree buf buf' n (i + 1) k
      (λ j q. let e : (i + 1) + j ≡ i + suc j = omega arith in rw e (h (suc j) (omega arith))))

pub ring-eq :
    (buf : List ℕ) (n i : ℕ) (bs : List ℕ)
    → ((j : ℕ) → j < length bs → get_or buf ((i + j) % n) 0 ≡ get_or bs j 0)
    → ring buf n i (length bs) ≡ bs
ring-eq buf n i [] h = refl
ring-eq buf n i (b ∷ bs) h = ap₂ ◌∷◌ (rw add-zero at (h 0 (omega arith))) (
    ring-eq buf n (i + 1) bs
      (λ j q. let e : (i + 1) + j ≡ i + suc j = omega arith in rw e (h (suc j) (omega arith))))

pub get_or-take : (m : ℕ) (xs : List ℕ) (j : ℕ) → j < m → get_or (take m xs) j 0 ≡ get_or xs j 0
get_or-take zero xs j h = absurd (omega arith)
get_or-take (suc m) [] j h = refl
get_or-take (suc m) (x ∷ xs) zero h = refl
get_or-take (suc m) (x ∷ xs) (suc j) h = get_or-take m xs j (omega arith)

pub get_or-drop : (m : ℕ) (xs : List ℕ) (j : ℕ) → get_or (drop m xs) j 0 ≡ get_or xs (m + j) 0
get_or-drop zero xs j = let e : 0 + j ≡ j = omega arith in rw e refl
get_or-drop (suc m) [] j = refl
get_or-drop (suc m) (x ∷ xs) j =
    let e : suc m + j ≡ suc (m + j) = omega arith in rw e (get_or-drop m xs j)

-- The bytes `data_`, from place `w` of a ring of `n` on.
module _ (buf : List ℕ) (n w : ℕ) (data_ : List ℕ) (copy : ℕ) where
  abbrev pub first_piece : ℕ
  first_piece = min copy (n - w)

  abbrev pub stored : List ℕ
  stored =
      overlay (overlay buf w (take first_piece data_)) 0
        (take (copy - first_piece) (drop first_piece data_))

module _ (buf : List ℕ) (n w : ℕ) (data_ : List ℕ) (copy : ℕ) (is_n : length buf ≡ n)
    (in_ring : w < n) (in_data : copy ≤ length data_) (fits : copy ≤ n) where
  -- The sizes of the pieces.
  sizes :
      (length (take (min copy (n - w)) data_) ≡ min copy (n - w))
      × (length (take (copy - min copy (n - w)) (drop (min copy (n - w)) data_))
          ≡ copy - min copy (n - w))
  sizes = (
    omega (arith, length-take (min copy (n - w)) data_),
    omega (
      arith,
      length-take (copy - min copy (n - w)) (drop (min copy (n - w)) data_),
      length-drop (min copy (n - w)) data_,
    ),
  )

  pub length-stored : length (stored buf n w data_ copy) ≡ n
  length-stored =
      length-overlay (overlay buf w (take (min copy (n - w)) data_)) 0
        (take (copy - min copy (n - w)) (drop (min copy (n - w)) data_))
      ∙ length-overlay buf w (take (min copy (n - w)) data_)
      ∙ is_n

  -- A place outside the two pieces keeps its byte.
  pub stored_outside :
      (p : ℕ)
      → copy - min copy (n - w) ≤ p
      → (p < w) ⊎ (w + min copy (n - w) ≤ p)
      → get_or (stored buf n w data_ copy) p 0 ≡ get_or buf p 0
  stored_outside p a b =
      get_or-overlay_after (overlay buf w (take (min copy (n - w)) data_)) 0
        (take (copy - min copy (n - w)) (drop (min copy (n - w)) data_)) p (omega (arith, sizes))
      ∙ elim b [
        | inl b ↦ get_or-overlay_before buf w (take (min copy (n - w)) data_) p b
        | inr b ↦
            get_or-overlay_after buf w (take (min copy (n - w)) data_) p (omega (arith, sizes))
      ]

  -- The place of byte `j` has it.
  pub stored_inside :
      (j : ℕ) → j < copy → get_or (stored buf n w data_ copy) ((w + j) % n) 0 ≡ get_or data_ j 0
  stored_inside j a = elim (wrap_cases n (w + j) (omega arith)) [
    | inl b ↦ rw b.1 (
        get_or-overlay_after (overlay buf w (take (min copy (n - w)) data_)) 0
          (take (copy - min copy (n - w)) (drop (min copy (n - w)) data_)) (w + j)
          (omega (arith, sizes))
        ∙ get_or-overlay_in buf w (take (min copy (n - w)) data_) j (omega (arith, sizes))
            (omega (arith, sizes))
        ∙ get_or-take (min copy (n - w)) data_ j (omega arith))
    | inr b ↦
        let e : (w + j) % n ≡ 0 + (j - min copy (n - w)) = omega (arith, b) in
        let f : min copy (n - w) + (j - min copy (n - w)) ≡ j = omega arith in
        rw e (
          get_or-overlay_in (overlay buf w (take (min copy (n - w)) data_)) 0
            (take (copy - min copy (n - w)) (drop (min copy (n - w)) data_)) (j - min copy (n - w))
            (omega (arith, sizes, length-overlay buf w (take (min copy (n - w)) data_)))
            (omega (arith, sizes))
          ∙ get_or-take (copy - min copy (n - w)) (drop (min copy (n - w)) data_)
              (j - min copy (n - w)) (omega arith)
          ∙ get_or-drop (min copy (n - w)) data_ (j - min copy (n - w))
          ∙ ap (λ k. get_or data_ k 0) f)
  ]
