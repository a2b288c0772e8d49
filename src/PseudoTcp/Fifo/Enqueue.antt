-- ===== src/PseudoTcp/Fifo/Enqueue.antt =====
-- agent/pseudotcp.c: what writing to a PseudoTcpFifo does to the queue.
use libnice.Base.{
  ℕ, zero, suc, ◌+◌, ◌-◌, ◌%◌, ◌≤◌, ◌<◌, ◌≡◌, refl, sym, ap, ◌∙◌, arith, inl, inr, ◌⊎◌, List, [],
  ◌∷◌, ◌++◌, length, get_or, take, drop, min, overlay, ok, write_bytes-eq-ok, length-take,
  length-drop, length-overlay,
}
use mathlib.Core.Path.{ap₂}
use native.Mathlib.Decide.{dec_lt}
use native.Mathlib.Nat.{mod-lt, mod-add-mod}
use libnice.PseudoTcp.Fifo.{
  PseudoTcpFifo, sub64, add64, get_write_remaining, write_offset, copy_in, write,
  consume_write_buffer,
}
use libnice.PseudoTcp.Fifo.Ring.{
  ring, ring_append, ring_agree, ring_shorten, append-nil, ring-eq, wrap_cases, stored,
  length-stored, stored_outside, stored_inside, get_or-take,
}
use libnice.PseudoTcp.Fifo.Queue.{IsFifo, content}

copy_in-eq :
    (b : PseudoTcpFifo) (position copy : ℕ) (data_ : List ℕ)
    → IsFifo b
    → position < b.buffer_length
    → copy ≤ b.buffer_length
    → copy ≤ length data_
    → copy_in b position copy data_
      ≡ ok (record b { buffer = stored b.buffer b.buffer_length position data_ copy })
unfolding copy_in
copy_in-eq b position copy data_ v p c d =
    let n = b.buffer_length in
    let e : sub64 n position ≡ n - position = omega (arith, v.small) in
    let t = min copy (n - position) in
    let first = length-take t data_ in
    let second = length-take (copy - t) (drop t data_) in
    let rest = length-drop t data_ in
    rw e (
      rw
        (
          write_bytes-eq-ok b.buffer position (take t data_) (omega (arith, v.allocated, first)),
          write_bytes-eq-ok (overlay b.buffer position (take t data_)) 0
              (take (copy - t) (drop t data_))
              (omega (
                arith,
                v.allocated,
                second,
                rest,
                length-overlay b.buffer position (take t data_),
              )),
        )
        refl)

-- The bytes already in the queue stay, and the copied ones stand at their place.
stored-lem :
    (b : PseudoTcpFifo) (used copy : ℕ) (data_ : List ℕ)
    → IsFifo b
    → used + copy ≤ b.buffer_length
    → copy ≤ length data_
    → let n = b.buffer_length in
      let r = b.read_position in
      let w = (r + used) % n in
      (ring (stored b.buffer n w data_ copy) n r used ≡ ring b.buffer n r used)
      × (ring (stored b.buffer n w data_ copy) n (r + used) copy ≡ take copy data_)
stored-lem b used copy data_ v f d =
    let n = b.buffer_length in
    let r = b.read_position in
    let s = r + used in
    let w = s % n in
    let in_ring : w < n = mod-lt s v.positive in
    let size = length-take copy data_ in
    let e : length (take copy data_) ≡ copy = omega (arith, size) in
    (
      ring_agree (stored b.buffer n w data_ copy) b.buffer n r used (λ j q.
          stored_outside b.buffer n w data_ copy v.allocated in_ring d (omega arith) ((r + j) % n)
            (place j q).0 (place j q).1),
      ap (ring (stored b.buffer n w data_ copy) n s) (sym e)
          ∙ ring-eq (stored b.buffer n w data_ copy) n s (take copy data_) (λ j q.
            ap (λ k. get_or (stored b.buffer n w data_ copy) k 0) (sym (mod-add-mod s n j))
            ∙ stored_inside b.buffer n w data_ copy v.allocated in_ring d (omega arith) j
                (omega (arith, e))
            ∙ sym (get_or-take copy data_ j (omega (arith, e)))),
    )
  where
    place :
        (j : ℕ)
        → j < used
        → let n = b.buffer_length in
          let w = (b.read_position + used) % n in
          (copy - min copy (n - w) ≤ (b.read_position + j) % n)
          × (((b.read_position + j) % n < w) ⊎ (w + min copy (n - w) ≤ (b.read_position + j) % n))
    place j q =
        let n = b.buffer_length in
        let r = b.read_position in
        let s = r + used in
        elim (wrap_cases n s (omega (arith, v.in_buffer, v.positive))) [
          | inl x ↦ elim (wrap_cases n (r + j) (omega (arith, v.in_buffer))) [
            | inl y ↦ (omega (arith, x, y), inl (omega (arith, x, y)))
            | inr y ↦ absurd (omega (arith, x, y))
          ]
          | inr x ↦ elim (wrap_cases n (r + j) (omega (arith, v.in_buffer))) [
            | inl y ↦ (omega (arith, x, y, v.in_buffer), inr (omega (arith, x, y, v.in_buffer)))
            | inr y ↦ (omega (arith, x, y, v.in_buffer), inl (omega (arith, x, y)))
          ]
        ]

pub write_offset-eq :
    (b : PseudoTcpFifo) (data_ : List ℕ) (offset : ℕ)
    → IsFifo b
    → b.data_length + offset < b.buffer_length
    → let copy = min (length data_) (b.buffer_length - (b.data_length + offset)) in
      let w = (b.read_position + (b.data_length + offset)) % b.buffer_length in
      write_offset b data_ offset
      ≡ ok (record b { buffer = stored b.buffer b.buffer_length w data_ copy }, copy)
unfolding write_offset
write_offset-eq b data_ offset v f =
    let copy = min (length data_) (b.buffer_length - (b.data_length + offset)) in
    let s = b.read_position + (b.data_length + offset) in
    let e : add64 (add64 b.read_position b.data_length) offset ≡ s =
      omega (arith, v.in_buffer, v.small) in
    let g : sub64 (sub64 b.buffer_length b.data_length) offset
        ≡ b.buffer_length - (b.data_length + offset) =
      omega (arith, v.small) in
    let c =
      copy_in-eq b (s % b.buffer_length) copy data_ v (mod-lt s v.positive) (omega arith)
        (omega arith) in
    rw (e, g) (ground (arith, v.positive, v.small, c))

write_offset-full :
    (b : PseudoTcpFifo) (data_ : List ℕ)
    → IsFifo b
    → b.buffer_length ≤ b.data_length
    → write_offset b data_ 0 ≡ ok (b, 0)
unfolding write_offset
write_offset-full b data_ v f =
    let e : add64 b.data_length 0 ≡ b.data_length = omega (arith, v.fits, v.small) in
    rw e (ground (arith, v.positive))

pub consume_fits :
    (b : PseudoTcpFifo) (size : ℕ)
    → size ≤ sub64 b.buffer_length b.data_length
    → consume_write_buffer b size ≡ ok (record b { data_length = add64 b.data_length size })
unfolding consume_write_buffer
consume_fits b size h = ground arith

append_assoc : (xs ys zs : List ℕ) → (xs ++ ys) ++ zs ≡ xs ++ ys ++ zs
append_assoc [] ys zs = refl
append_assoc (x ∷ xs) ys zs = ap (◌∷◌ x) (append_assoc xs ys zs)

take-min : (xs : List ℕ) (m : ℕ) → take (min (length xs) m) xs ≡ take m xs
take-min [] zero = refl
take-min [] (suc m) = let e : min 0 (suc m) ≡ 0 = omega arith in rw e refl
take-min (x ∷ xs) zero = let e : min (suc (length xs)) 0 ≡ 0 = omega arith in rw e refl
take-min (x ∷ xs) (suc m) =
    let e : min (suc (length xs)) (suc m) ≡ suc (min (length xs) m) = omega arith in
    rw e (ap (◌∷◌ x) (take-min xs m))

take-all : (xs : List ℕ) → take (length xs) xs ≡ xs
take-all [] = refl
take-all (x ∷ xs) = ap (◌∷◌ x) (take-all xs)

-- `pseudo_tcp_fifo_write` puts the front of the bytes, as many as there is room for, behind the queue,
-- and returns their number.
pub write-enqueues :
    (b : PseudoTcpFifo) (data_ : List ℕ)
    → IsFifo b
    → (b' : PseudoTcpFifo) × (write b data_ ≡ ok (b', min (length data_) (get_write_remaining b)))
      × IsFifo b'
      × (content b' ≡ content b ++ take (get_write_remaining b) data_)
unfolding write content get_write_remaining
write-enqueues b data_ v = elim (dec_lt b.data_length b.buffer_length) [
  | yes p ↦
      let n = b.buffer_length in
      let r = b.read_position in
      let len = b.data_length in
      let room : sub64 n len ≡ n - len = omega (arith, v.small) in
      let plain : len + 0 ≡ len = omega arith in
      let copy = min (length data_) (n - len) in
      let buf = stored b.buffer n ((r + len) % n) data_ copy in
      let kept = stored-lem b len copy data_ v (omega (arith, v.fits)) (omega arith) in
      let grown : add64 len copy ≡ len + copy = omega (arith, v.fits, v.small) in
      let e = rw plain at (write_offset-eq b data_ 0 v (omega (arith, p))) in
      (
        record b { buffer = buf; data_length = add64 len copy },
        rw (e, room) refl,
        record {
          allocated =
              length-stored b.buffer n ((r + len) % n) data_ copy v.allocated
                (mod-lt (r + len) v.positive) (omega arith) (omega (arith, v.fits));
          positive = v.positive;
          small = v.small;
          in_buffer = v.in_buffer;
          fits = omega (arith, grown);
        },
        rw (grown, room)
            (ring_append buf n r len copy ∙ ap₂ ◌++◌ kept.0 (kept.1 ∙ take-min data_ (n - len))),
      )
  | no p ↦
      let n = b.buffer_length in
      let r = b.read_position in
      let len = b.data_length in
      let room : sub64 n len ≡ 0 = omega (arith, v.small, v.fits) in
      let none_left : min (length data_) 0 ≡ 0 = omega arith in
      let same : add64 len 0 ≡ len = omega (arith, v.fits, v.small) in
      let e = write_offset-full b data_ v (omega arith) in
      (
        record b { data_length = add64 len 0 },
        rw (e, room, none_left) refl,
        record {
          allocated = v.allocated;
          positive = v.positive;
          small = v.small;
          in_buffer = v.in_buffer;
          fits = omega (arith, same, v.fits);
        },
        rw (same, room) (sym (append-nil (ring b.buffer n r len))),
      )
]

-- Bytes that `pseudo_tcp_fifo_write_offset` puts `offset` behind the queue, where there is room for
-- all of them, leave the queue as it is until `pseudo_tcp_fifo_consume_write_buffer` moves
-- its end behind them: then the queue goes on with the `offset` bytes that were there, and these.
pub write_offset-consume :
    (b : PseudoTcpFifo) (data_ : List ℕ) (offset : ℕ)
    → IsFifo b
    → b.data_length + offset + length data_ ≤ b.buffer_length
    → 0 < length data_
    → (b' : PseudoTcpFifo) × (b'' : PseudoTcpFifo) × (write_offset b data_ offset
        ≡ ok (b', length data_))
      × (content b' ≡ content b)
      × (consume_write_buffer b' (offset + length data_) ≡ ok b'')
      × IsFifo b''
      × (content b''
          ≡ content b
            ++ ring b.buffer b.buffer_length (b.read_position + b.data_length) offset
            ++ data_)
unfolding content
write_offset-consume b data_ offset v f o =
    let n = b.buffer_length in
    let r = b.read_position in
    let len = b.data_length in
    let used = len + offset in
    let copy = min (length data_) (n - used) in
    let all : copy ≡ length data_ = omega arith in
    let buf = stored b.buffer n ((r + used) % n) data_ copy in
    let kept = stored-lem b used copy data_ v (omega (arith, v.fits)) (omega arith) in
    let taken : take copy data_ ≡ data_ = rw all (take-all data_) in
    let grown : add64 len (offset + length data_) ≡ used + copy = omega (arith, v.fits, v.small) in
    (
      record b { buffer = buf },
      record b { buffer = buf; data_length = add64 len (offset + length data_) },
      write_offset-eq b data_ offset v (omega arith)
          ∙ ap (λ k. ok (record b { buffer = buf }, k)) all,
      ring_shorten buf b.buffer n r len used kept.0 (omega arith),
      consume_fits (record b { buffer = buf }) (offset + length data_) (omega (arith, v.small)),
      record {
        allocated =
            length-stored b.buffer n ((r + used) % n) data_ copy v.allocated
              (mod-lt (r + used) v.positive) (omega arith) (omega (arith, v.fits));
        positive = v.positive;
        small = v.small;
        in_buffer = v.in_buffer;
        fits = omega (arith, grown, all);
      },
      rw grown (
          ring_append buf n r used copy
          ∙ ap₂ ◌++◌ kept.0 (kept.1 ∙ taken)
          ∙ ap (λ l. l ++ data_) (ring_append b.buffer n r len offset)
          ∙ append_assoc (ring b.buffer n r len) (ring b.buffer n (r + len) offset) data_),
    )
