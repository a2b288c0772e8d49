-- ===== src/PseudoTcp/Fifo/Queue.antt =====
-- agent/pseudotcp.c: a PseudoTcpFifo is a queue of bytes.
use libnice.Base.{
  ℕ, ◌+◌, ◌-◌, ◌%◌, ◌^◌, ◌≤◌, ◌<◌, ◌≡◌, refl, sym, ap, ◌∙◌, arith, List, length, take, drop, min,
  ok, read_bytes-eq-ok, length-take,
}
use native.Mathlib.Decide.{dec_lt}
use native.Mathlib.Nat.{mod-lt, mod-mod}
use libnice.PseudoTcp.Fifo.{PseudoTcpFifo, sub64, add64, get_buffered, read_offset, copy_out, read}
use libnice.PseudoTcp.Fifo.Ring.{ring, ring_split, ring_cong, take-ring, drop-ring, length-ring}

-- What the buffers of the code satisfy, none of which has as many as 2 ^ 62 bytes.
pub record IsFifo (b : PseudoTcpFifo) : Type 0 where
  pub allocated : length b.buffer ≡ b.buffer_length
  pub positive : 0 < b.buffer_length
  pub small : b.buffer_length < 2 ^ 62
  pub in_buffer : b.read_position < b.buffer_length
  pub fits : b.data_length ≤ b.buffer_length

-- The bytes of the queue, the next one to read first.
unfoldable pub content : PseudoTcpFifo → List ℕ
content b = ring b.buffer b.buffer_length b.read_position b.data_length

pub length-content : (b : PseudoTcpFifo) → length (content b) ≡ get_buffered b
unfolding content get_buffered
length-content b = length-ring b.buffer b.buffer_length b.read_position b.data_length

pub copy_out-eq :
    (b : PseudoTcpFifo) (position copy : ℕ)
    → IsFifo b
    → position < b.buffer_length
    → copy ≤ b.buffer_length
    → copy_out b position copy ≡ ok (ring b.buffer b.buffer_length position copy)
unfolding copy_out
copy_out-eq b position copy v p c =
    let n = b.buffer_length in
    let e : sub64 n position ≡ n - position = omega (arith, v.small) in
    rw e (
      rw
        (
          read_bytes-eq-ok b.buffer position (min copy (n - position)) (omega (arith, v.allocated)),
          read_bytes-eq-ok b.buffer 0 (copy - min copy (n - position)) (omega (arith, v.allocated)),
        )
        (ap ok (sym (ring_split b.buffer n position copy p c))))

-- `pseudo_tcp_fifo_read_offset` copies out the bytes of the queue behind the first `offset`
-- ones, as many as are asked for and there are, and touches no byte outside the buffer.
pub read_offset-eq :
    (b : PseudoTcpFifo) (bytes offset : ℕ)
    → IsFifo b
    → offset < 2 ^ 62
    → read_offset b bytes offset ≡ ok (take bytes (drop offset (content b)))
unfolding content read_offset
read_offset-eq b bytes offset v o =
    let n = b.buffer_length in
    let place = (b.read_position + offset) % n in
    let in_ring : place < n = mod-lt (b.read_position + offset) v.positive in
    let e : add64 b.read_position offset ≡ b.read_position + offset =
      omega (arith, v.in_buffer, v.small) in
    let copied =
      copy_out-eq b place (min bytes (b.data_length - offset)) v in_ring (omega (arith, v.fits)) in
    let same =
      ring_cong b.buffer n place (b.read_position + offset) (min bytes (b.data_length - offset))
        (mod-mod (b.read_position + offset) n) in
    rw
      (
        drop-ring b.buffer n b.read_position offset b.data_length,
        take-ring b.buffer n (b.read_position + offset) bytes (b.data_length - offset),
        e,
      )
      (elim (dec_lt offset b.data_length) [
        | yes p ↦
            let f : sub64 b.data_length offset ≡ b.data_length - offset =
              omega (arith, v.fits, v.small) in
            rw (f) (ground (arith, v.positive, copied, same))
        | no p ↦
            let f : min bytes (b.data_length - offset) ≡ 0 = omega arith in
            rw f (ground (arith, v.positive))
      ])

dequeued :
    (b : PseudoTcpFifo) (bytes : ℕ)
    → ring b.buffer b.buffer_length
        (b.read_position + min bytes b.data_length)
        (b.data_length - min bytes b.data_length)
      ≡ ring b.buffer b.buffer_length
          (b.read_position + bytes)
          (b.data_length - min bytes b.data_length)
dequeued b bytes = elim (dec_lt b.data_length bytes) [
  | yes p ↦ let e : b.data_length - min bytes b.data_length ≡ 0 = omega arith in rw e refl
  | no p ↦ let e : min bytes b.data_length ≡ bytes = omega arith in rw e refl
]

-- `pseudo_tcp_fifo_read` takes off the front of the queue as many bytes as are asked for and
-- there are, returns them, and leaves the queue of the others.
pub read-dequeues :
    (b : PseudoTcpFifo) (bytes : ℕ)
    → IsFifo b
    → (b' : PseudoTcpFifo) × (read b bytes ≡ ok (b', take bytes (content b)))
      × IsFifo b'
      × (content b' ≡ drop bytes (content b))
unfolding read content
read-dequeues b bytes v =
    let n = b.buffer_length in
    let r = b.read_position in
    let len = b.data_length in
    let taken = min bytes len in
    let size : length (take bytes (content b)) ≡ taken =
      omega (arith, length-take bytes (content b), length-ring b.buffer n r len) in
    let e : add64 r taken ≡ r + taken = omega (arith, v.in_buffer, v.fits, v.small) in
    let left : len - bytes ≡ len - taken = omega arith in
    (
      record b { read_position = add64 r taken % n; data_length = len - taken },
      rw (read_offset-eq b bytes 0 v (omega arith), size) refl,
      record {
        allocated = v.allocated;
        positive = v.positive;
        small = v.small;
        in_buffer = mod-lt (add64 r taken) v.positive;
        fits = omega (arith, v.fits);
      },
      rw (e, drop-ring b.buffer n r bytes len, left)
          (ring_cong b.buffer n ((r + taken) % n) (r + taken) (len - taken) (mod-mod (r + taken) n)
            ∙ dequeued b bytes),
    )
