-- ===== src/PseudoTcp/Fifo/Resize.antt =====
-- agent/pseudotcp.c: what a change of the capacity of a PseudoTcpFifo does to the queue.
use libnice.Base.{
  ℕ, ◌+◌, ◌%◌, ◌^◌, ◌<◌, ◌≡◌, refl, sym, ap, ◌∙◌, arith, List, length, overlay, ok,
  write_bytes-eq-ok, Bool, true, ltb, leb, ltb→lt, if◌then◌else◌, Bool-cases, inl, inr,
  length-overlay, get_or-overlay_in,
}
use native.Mathlib.Nat.{mod-eq_of_lt}
use libnice.PseudoTcp.Fifo.{PseudoTcpFifo, reallocate, set_capacity}
use libnice.PseudoTcp.Fifo.Ring.{ring, ring-eq, length-ring}
use libnice.PseudoTcp.Fifo.Queue.{IsFifo, content, copy_out-eq}

reallocate-eq :
    (b : PseudoTcpFifo) (memory : List ℕ)
    → IsFifo b
    → b.data_length < length memory
    → reallocate b memory
      ≡ ok (
        record b {
          buffer = overlay memory 0 (ring b.buffer b.buffer_length b.read_position b.data_length);
          buffer_length = length memory;
          read_position = 0;
        },
        true,
      )
unfolding reallocate
reallocate-eq b memory v h =
    let size = length-ring b.buffer b.buffer_length b.read_position b.data_length in
    rw (copy_out-eq b b.read_position b.data_length v v.in_buffer v.fits) (
      rw
        (write_bytes-eq-ok memory 0 (ring b.buffer b.buffer_length b.read_position b.data_length)
          (omega (arith, size)))
        refl)

-- `pseudo_tcp_fifo_set_capacity` to more bytes than the queue has, of less than 2 ^ 62, succeeds, keeps
-- the queue, and the buffer has the new capacity.
pub set_capacity-keeps :
    (b : PseudoTcpFifo) (memory : List ℕ)
    → IsFifo b
    → b.data_length < length memory
    → length memory < 2 ^ 62
    → (b' : PseudoTcpFifo) × (set_capacity b memory ≡ ok (b', true))
      × IsFifo b'
      × (content b' ≡ content b)
      × (b'.buffer_length ≡ length memory)
unfolding set_capacity content
set_capacity-keeps b memory v h s =
    let bytes = ring b.buffer b.buffer_length b.read_position b.data_length in
    let buf = overlay memory 0 bytes in
    let size = length-ring b.buffer b.buffer_length b.read_position b.data_length in
    let e = reallocate-eq b memory v h in
    (
      record b { buffer = buf; buffer_length = length memory; read_position = 0 },
      ground (arith, e),
      record {
        allocated = length-overlay memory 0 bytes;
        positive = omega arith;
        small = s;
        in_buffer = omega arith;
        fits = omega (arith, h);
      },
      ap (ring buf (length memory) 0) (sym size)
          ∙ ring-eq buf (length memory) 0 bytes (λ j q.
            let f : (0 + j) % length memory ≡ 0 + j = mod-eq_of_lt (omega (arith, size)) in
            rw f (get_or-overlay_in memory 0 bytes j (omega (arith, size)) q)),
      refl,
    )

-- For a new capacity below 2 ^ 62 `pseudo_tcp_fifo_set_capacity` always keeps the queue, and succeeds exactly
-- when the bytes of the queue fit. The buffer takes the new capacity only if it is larger than the number
-- of these bytes: a capacity of exactly the bytes in the queue succeeds, but the old capacity stays.
pub set_capacity-resizes :
    (b : PseudoTcpFifo) (memory : List ℕ)
    → IsFifo b
    → length memory < 2 ^ 62
    → (b' : PseudoTcpFifo) × (done : Bool) × (set_capacity b memory ≡ ok (b', done))
      × IsFifo b'
      × (content b' ≡ content b)
      × (done ≡ leb b.data_length (length memory))
      × (b'.buffer_length
          ≡ (if ltb b.data_length (length memory) then length memory else b.buffer_length))
unfolding set_capacity
set_capacity-resizes b memory v s = elim (Bool-cases (ltb b.data_length (length memory))) [
  | inl h ↦
      let (b', e, v', same, size) = set_capacity-keeps b memory v (ltb→lt _ _ h) s in
      (b', true, e, v', same, ground (arith, h), rw h size)
  | inr h ↦ (
    b,
    leb b.data_length (length memory),
    elim (Bool-cases (leb b.data_length (length memory))) [
      | inl l ↦ rw l (ground (arith, h, l))
      | inr l ↦ rw l (ground (arith, h, l))
    ],
    v,
    refl,
    refl,
    rw h refl,
  )
]
