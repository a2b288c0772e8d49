-- ===== src/PseudoTcp/Receive/Place.antt =====
-- agent/pseudotcp.c: the places of a ring that a write behind the queue changes.
use libnice.Base.{
  ℕ, ◌+◌, ◌-◌, ◌%◌, ◌≤◌, ◌<◌, ◌≡◌, sym, ap, ◌∙◌, arith, inl, inr, ◌⊎◌, List, length, get_or, min,
  ok,
}
use native.Mathlib.Decide.{dec_lt}
use native.Mathlib.Nat.{mod-lt, mod-add-mod}
use libnice.PseudoTcp.Fifo.{PseudoTcpFifo, write_offset}
use libnice.PseudoTcp.Fifo.Ring.{stored, length-stored, stored_outside, stored_inside, wrap_cases}
use libnice.PseudoTcp.Fifo.Queue.{IsFifo}
use libnice.PseudoTcp.Fifo.Enqueue.{write_offset-eq}

-- The byte `k` places behind the next one to read
abbrev pub cell : PseudoTcpFifo → ℕ → ℕ
cell b k = get_or b.buffer ((b.read_position + k) % b.buffer_length) 0

-- The ring with the bytes `data_` from `k` places behind the next one to read on
abbrev pub written : PseudoTcpFifo → ℕ → List ℕ → PseudoTcpFifo
written b k data_ = record b {
  buffer =
      stored b.buffer b.buffer_length ((b.read_position + k) % b.buffer_length) data_
        (length data_);
}

module _ (b : PseudoTcpFifo) (k : ℕ) (data_ : List ℕ) (v : IsFifo b) (starts : k < b.buffer_length)
    (fits : k + length data_ ≤ b.buffer_length) where
  pub written-IsFifo : IsFifo (written b k data_)
  written-IsFifo = record {
    allocated =
        length-stored b.buffer b.buffer_length ((b.read_position + k) % b.buffer_length) data_
          (length data_) v.allocated (mod-lt (b.read_position + k) v.positive) (omega arith)
          (omega arith);
    positive = v.positive;
    small = v.small;
    in_buffer = v.in_buffer;
    fits = v.fits;
  }

  pub write_offset-written :
      b.data_length ≤ k
      → write_offset b data_ (k - b.data_length) ≡ ok (written b k data_, length data_)
  write_offset-written behind =
      let e : b.data_length + (k - b.data_length) ≡ k = omega arith in
      let f : min (length data_) (b.buffer_length - k) ≡ length data_ = omega arith in
      rw (e, f) at (write_offset-eq b data_ (k - b.data_length) v (omega arith))

  pub cell-written :
      (j : ℕ) → j < length data_ → cell (written b k data_) (k + j) ≡ get_or data_ j 0
  cell-written j h =
      let n = b.buffer_length in
      let s = b.read_position + k in
      let e : b.read_position + (k + j) ≡ s + j = omega arith in
      rw e (
        ap (λ p. get_or (written b k data_).buffer p 0) (sym (mod-add-mod s n j))
        ∙ stored_inside b.buffer n (s % n) data_ (length data_) v.allocated (mod-lt s v.positive)
            (omega arith) (omega arith) j h)

  pub cell-written_elsewhere :
      (j : ℕ)
      → j < b.buffer_length
      → (j < k) ⊎ (k + length data_ ≤ j)
      → cell (written b k data_) j ≡ cell b j
  cell-written_elsewhere j h o =
      let n = b.buffer_length in
      let r = b.read_position in
      let w = (r + k) % n in
      let at_w = wrap_cases n (r + k) (omega (arith, v.in_buffer)) in
      let at_j = wrap_cases n (r + j) (omega (arith, v.in_buffer)) in
      stored_outside b.buffer n w data_ (length data_) v.allocated (mod-lt (r + k) v.positive)
        (omega arith) (omega arith) ((r + j) % n) (ground (arith, at_w, at_j, o, v.in_buffer))
        (elim (dec_lt ((r + j) % n) w) [
          | yes p ↦ inl p
          | no p ↦ inr (ground (arith, at_w, at_j, o, v.in_buffer))
        ])
