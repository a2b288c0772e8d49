-- ===== src/PseudoTcp/Receive/Trim.antt =====
-- agent/pseudotcp.c: the part of a segment that fits the window.
use libnice.Base.{
  ℕ, zero, suc, ◌+◌, ◌-◌, ◌%◌, ◌^◌, ◌≤◌, ◌<◌, ◌≡◌, refl, sym, ap, ◌∙◌, arith, List, [], ◌∷◌, length,
  take, drop, length-take, length-drop,
}
use native.Mathlib.Decide.{dec_lt}
use libnice.PseudoTcp.Fifo.Ring.{get_or-take, get_or-drop}
use libnice.PseudoTcp.Receive.{sub32, add32, trim_old, trim_excess}
use libnice.PseudoTcp.Receive.Stream.{larger_near, sub32_near, ltb-true, ltb-false, Carries}

take_long : (m : ℕ) (xs : List ℕ) → length xs ≤ m → take m xs ≡ xs
take_long zero [] h = refl
take_long zero (x ∷ xs) h = absurd (omega arith)
take_long (suc m) [] h = refl
take_long (suc m) (x ∷ xs) h = ap (◌∷◌ x) (take_long m xs (omega arith))

pub Carries-take :
    (σ : ℕ → ℕ) (pos m : ℕ) (data_ : List ℕ) → Carries σ pos data_ → Carries σ pos (take m data_)
Carries-take σ pos m data_ c j h =
    get_or-take m data_ j (omega (arith, length-take m data_))
    ∙ c j (omega (arith, length-take m data_))

Carries-drop :
    (σ : ℕ → ℕ) (pos m : ℕ) (data_ : List ℕ)
    → Carries σ pos data_
    → Carries σ (pos + m) (drop m data_)
Carries-drop σ pos m data_ c j h =
    let e : pos + (m + j) ≡ (pos + m) + j = omega arith in
    get_or-drop m data_ j ∙ c (m + j) (omega (arith, length-drop m data_)) ∙ ap σ e

-- A segment at byte `pos` of the stream, where byte `n` is expected, loses what is before `n`.
pub trim_old-eq :
    (σ : ℕ → ℕ) (n pos : ℕ) (data_ : List ℕ)
    → n ≤ pos + 2 ^ 30
    → pos ≤ n + 2 ^ 30
    → Carries σ pos data_
    → (seq : ℕ) × (rest : List ℕ) × (trim_old (n % 2 ^ 32) (pos % 2 ^ 32) data_ ≡ (seq, rest))
      × (0 < length rest
          → (at : ℕ) × (n ≤ at)
            × (at ≤ n + 2 ^ 30)
            × (seq ≡ at % 2 ^ 32)
            × Carries σ at rest
            × (at + length rest ≡ pos + length data_)
            × (pos ≤ n → at ≡ n))
      × (length rest ≡ 0 → pos ≤ n → pos + length data_ ≤ n)
unfolding trim_old
trim_old-eq σ n pos data_ p q c =
    let newer = larger_near n pos (omega arith) (omega arith) in
    elim (dec_lt pos n) [
      | no a ↦ (
        pos % 2 ^ 32,
        data_,
        rw (newer ∙ ltb-false pos n (omega arith)) refl,
        λ h. (pos, omega arith, q, refl, c, refl, λ e. omega arith),
        λ e h. omega arith,
      )
      | yes a ↦
          let gap = sub32_near n pos (omega arith) (omega arith) in
          let size = length-drop (n - pos) data_ in
          elim (dec_lt (n - pos) (length data_)) [
            | yes b ↦ (
              add32 (pos % 2 ^ 32) (n - pos),
              drop (n - pos) data_,
              rw (newer ∙ ltb-true pos n a, gap, ltb-true (n - pos) (length data_) b) refl,
              λ h. (
                pos + (n - pos),
                omega arith,
                omega arith,
                omega arith,
                Carries-drop σ pos (n - pos) data_ c,
                omega (arith, size),
                λ e. omega arith,
              ),
              λ e h. absurd (omega (arith, size)),
            )
            | no b ↦ (
              pos % 2 ^ 32,
              [],
              rw (newer ∙ ltb-true pos n a, gap, ltb-false (n - pos) (length data_) (omega arith))
                  refl,
              λ h. absurd (omega arith),
              λ e h. omega arith,
            )
          ]
    ]

pub trim_excess-nil : (rcv_nxt room seq : ℕ) → trim_excess rcv_nxt room seq [] ≡ []
unfolding trim_excess
trim_excess-nil rcv_nxt room seq = ground arith

-- Of data at byte `at` of the stream, with `room` from byte `n` on, what fits is left.
pub trim_excess-eq :
    (n at room : ℕ) (data_ : List ℕ)
    → n ≤ at
    → at + length data_ < n + 2 ^ 32
    → room ≤ 2 ^ 30
    → trim_excess (n % 2 ^ 32) room (at % 2 ^ 32) data_ ≡ take (n + room - at) data_
unfolding trim_excess
trim_excess-eq n at room data_ p q s =
    let sum : add32 (at % 2 ^ 32) (length data_) ≡ (at + length data_) % 2 ^ 32 = omega arith in
    let needed : sub32 (add32 (at % 2 ^ 32) (length data_)) (n % 2 ^ 32) ≡ at + length data_ - n =
      rw sum (sub32_near (at + length data_) n (omega arith) q) in
    elim (dec_lt room (at + length data_ - n)) [
      | no a ↦
          rw (needed, ltb-false room (at + length data_ - n) (omega arith))
            (sym (take_long (n + room - at) data_ (omega arith)))
      | yes a ↦
          let over = at + length data_ - n in
          let adjust : (over + 2 ^ 64 - room) % 2 ^ 64 % 2 ^ 32 ≡ over - room = omega arith in
          elim (dec_lt (over - room) (length data_)) [
            | yes b ↦
                let e : length data_ - (over - room) ≡ n + room - at = omega arith in
                rw
                  (needed, ltb-true room over a, adjust, ltb-true (over - room) (length data_) b, e)
                  refl
            | no b ↦
                let e : n + room - at ≡ 0 = omega arith in
                rw
                  (
                    e,
                    needed,
                    ltb-true room over a,
                    adjust,
                    ltb-false (over - room) (length data_) (omega arith),
                  )
                  refl
          ]
    ]
