-- ===== src/PseudoTcp/Window.antt =====
-- agent/pseudotcp.c: `resize_receive_buffer`, which chooses the scale of the window.
use libnice.Base.{
  ℕ, zero, suc, ◌+◌, ◌*◌, ◌/◌, ◌%◌, ◌^◌, ◌≤◌, ◌<◌, ◌≡◌, ap, ◌∙◌, arith, true, false, ltb, ◌==◌,
  List, length, Access, ok, out_of_bounds, no_fuel, ◌>>=◌, if◌then◌else◌,
}
use mathlib.Core.Logic.{◌≢◌}
use native.Mathlib.Nat.{mul_left_comm, one-le-pow, mul-le-mul_right, pow-succ', div-lt_iff_lt-mul}
use native.Mathlib.Decide.{dec_lt}
use libnice.PseudoTcp.Fifo.{PseudoTcpFifo, set_capacity, get_write_remaining}
use libnice.PseudoTcp.Fifo.Queue.{IsFifo, content}
use libnice.PseudoTcp.Fifo.Resize.{set_capacity-keeps}

-- The fields of `PseudoTcpSocketPrivate` that it changes
pub record ReceiveBuffer : Type 0 where
  pub rbuf : PseudoTcpFifo
  pub rbuf_len : ℕ
  pub rcv_wnd : ℕ
  pub rwnd_scale : ℕ
  pub ssthresh : ℕ

-- The loop: the halved size, and the scale factor
unfoldable pub scale : ℕ → ℕ → Access (ℕ × ℕ)
scale zero new_size = if ltb 0xFFFF new_size then no_fuel else ok (new_size, 0)
scale (suc fuel) new_size = elim (ltb 0xFFFF new_size) [
  | false ↦ ok (new_size, 0)
  | true ↦ do (size, factor) ← scale fuel (new_size / 2); ok (size, factor + 1)
]

-- `resize_receive_buffer`; `alloc` gives memory of a size. A size of 32 bits is halved 16 times at most.
unfoldable pub resize_receive_buffer : (ℕ → List ℕ) → ReceiveBuffer → ℕ → Access ReceiveBuffer
resize_receive_buffer alloc b new_size = if b.rbuf_len == new_size then ok b else do
  (size, factor) ← scale 16 new_size
  (rbuf, result) ← set_capacity b.rbuf (alloc (size * 2 ^ factor % 2 ^ 32))
  if result
      then ok (record {
        rbuf = rbuf;
        rbuf_len = size * 2 ^ factor % 2 ^ 32;
        rcv_wnd = get_write_remaining rbuf % 2 ^ 32;
        rwnd_scale = factor;
        ssthresh = size * 2 ^ factor % 2 ^ 32;
      })
      else out_of_bounds

double : (a factor : ℕ) → a * 2 ^ (factor + 1) ≡ 2 * (a * 2 ^ factor)
double a factor =
    let one : factor + 1 ≡ suc factor = omega arith in
    let e : 2 ^ (factor + 1) ≡ 2 * 2 ^ factor = rw one (pow-succ' 2 factor) in
    ap (λ t. a * t) e ∙ mul_left_comm a 2 (2 ^ factor)

-- What the loop leaves: a number of 16 bits, which is the size without its last `factor` digits
scale_lem :
    (fuel n : ℕ)
    → n < 2 ^ 16 * 2 ^ fuel
    → 0 < n
    → (size : ℕ) × (factor : ℕ) × (scale fuel n ≡ ok (size, factor))
      × (size < 2 ^ 16)
      × (0 < size)
      × (factor ≤ fuel)
      × (size * 2 ^ factor ≤ n)
      × (n < (size + 1) * 2 ^ factor)
unfolding scale
scale_lem zero n h o = (n, 0, ground arith, omega arith, o, omega arith, omega arith, omega arith)
scale_lem (suc fuel) n h o = elim (dec_lt 0xFFFF n) [
  | no p ↦ (n, 0, ground arith, omega arith, o, omega arith, omega arith, omega arith)
  | yes p ↦
      let e : 2 ^ suc fuel ≡ 2 * 2 ^ fuel = omega arith in
      let (size, factor, e, small, some_size, few, below, near) =
        scale_lem fuel (n / 2) (omega (arith, e)) (omega arith) in
      (
        size,
        factor + 1,
        ground (arith, e),
        small,
        some_size,
        omega arith,
        omega (arith, double size factor),
        omega (arith, double (size + 1) factor),
      )
]

window_lem :
    (rbuf : PseudoTcpFifo) (size factor : ℕ)
    → IsFifo rbuf
    → rbuf.buffer_length ≡ size * 2 ^ factor
    → size < 2 ^ 16
    → get_write_remaining rbuf % 2 ^ 32 / 2 ^ factor < 2 ^ 16
unfolding get_write_remaining
window_lem rbuf size factor v capacity small =
    let unit = 2 ^ factor in
    let some_unit : 0 < unit = one-le-pow factor 2 (omega arith) in
    let most : size * unit ≤ 65535 * unit = mul-le-mul_right unit (omega arith) in
    (div-lt_iff_lt-mul some_unit).1 (omega (arith, capacity, most, v.fits, v.small, some_unit))

-- `resize_receive_buffer` to a size of 32 bits, with at most half as many bytes in the queue, succeeds and
-- keeps the queue, and the window that a header carries, `rcv_wnd` without its last `rwnd_scale`
-- digits, fits its 16 bits. The new size is at most the one asked for, and more than half of it.
pub resize_receive_buffer-fits :
    (alloc : ℕ → List ℕ) (b : ReceiveBuffer) (new_size : ℕ)
    → ((n : ℕ) → length (alloc n) ≡ n)
    → IsFifo b.rbuf
    → b.rbuf_len ≢ new_size
    → 0 < new_size
    → new_size < 2 ^ 32
    → 2 * b.rbuf.data_length ≤ new_size
    → (b' : ReceiveBuffer) × (resize_receive_buffer alloc b new_size ≡ ok b')
      × IsFifo b'.rbuf
      × (content b'.rbuf ≡ content b.rbuf)
      × (b'.rcv_wnd / 2 ^ b'.rwnd_scale < 2 ^ 16)
      × (b'.rbuf_len ≤ new_size)
      × (new_size < 2 * b'.rbuf_len)
unfolding resize_receive_buffer
resize_receive_buffer-fits alloc b new_size sized v other some_size fits half =
    let (size, factor, e, small, positive, few, below, near) =
      scale_lem 16 new_size (omega arith) some_size in
    let total = size * 2 ^ factor in
    let near' : new_size < total + 2 ^ factor = omega (arith, near) in
    let least : 2 ^ factor ≤ total = grind (arith, positive) in
    let wrapped = total % 2 ^ 32 in
    let same : wrapped ≡ total = omega arith in
    let (rbuf, set, is_fifo, kept, capacity) =
      set_capacity-keeps b.rbuf (alloc wrapped) v (omega (arith, sized wrapped))
        (omega (arith, sized wrapped)) in
    (
      record {
        rbuf = rbuf;
        rbuf_len = total % 2 ^ 32;
        rcv_wnd = get_write_remaining rbuf % 2 ^ 32;
        rwnd_scale = factor;
        ssthresh = total % 2 ^ 32;
      },
      ground (arith, other, e, set),
      is_fifo,
      kept,
      window_lem rbuf size factor is_fifo (capacity ∙ sized wrapped ∙ same) small,
      omega arith,
      omega arith,
    )
