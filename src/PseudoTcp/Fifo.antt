-- ===== src/PseudoTcp/Fifo.antt =====
-- agent/pseudotcp.c, PseudoTcpFifo: the ring buffers behind a pseudo-TCP socket. A failing assertion
-- and an access outside the buffer end in `out_of_bounds`; sizes are `gsize`, of 64 bits.
pub mod Ring
pub mod Queue
pub mod Enqueue
pub mod Resize
use libnice.Base.{
  ℕ, zero, suc, ◌+◌, ◌-◌, ◌*◌, ◌/◌, ◌%◌, ◌^◌, Bool, true, false, not, ◌&&◌, ◌||◌, ltb, leb, ◌==◌,
  min, max, if◌then◌else◌, List, [], ◌∷◌, ◌++◌, length, replicate, take, drop, Access, ok,
  out_of_bounds, ◌>>=◌, read_bytes, write_bytes,
}

-- `PseudoTcpFifo`; `buffer_length` is the length of the allocated buffer.
pub record PseudoTcpFifo : Type 0 where
  pub buffer : List ℕ
  pub buffer_length : ℕ
  pub data_length : ℕ
  pub read_position : ℕ

-- `a - b` and `a + b` of two sizes
abbrev pub sub64 : ℕ → ℕ → ℕ
sub64 a b = (a + 2 ^ 64 - b) % 2 ^ 64

abbrev pub add64 : ℕ → ℕ → ℕ
add64 a b = (a + b) % 2 ^ 64

-- `pseudo_tcp_fifo_init`, in a zeroed structure; the allocated memory holds any bytes.
unfoldable pub init : List ℕ → PseudoTcpFifo
init memory = record {
  buffer = memory;
  buffer_length = length memory;
  data_length = 0;
  read_position = 0;
}

-- `pseudo_tcp_fifo_clear`
unfoldable pub clear : PseudoTcpFifo → PseudoTcpFifo
clear b = record b { buffer = []; buffer_length = 0 }

-- `pseudo_tcp_fifo_get_buffered`
unfoldable pub get_buffered : PseudoTcpFifo → ℕ
get_buffered b = b.data_length

-- The two `memcpy` of `copy` bytes from place `position` on: up to the end of the buffer, then
-- from its start. They fill their target from its start, without a gap.
unfoldable pub copy_out : PseudoTcpFifo → ℕ → ℕ → Access (List ℕ)
copy_out b position copy =
    let tail_copy = min copy (sub64 b.buffer_length position) in
    do
      tail ← read_bytes b.buffer position tail_copy
      head ← read_bytes b.buffer 0 (copy - tail_copy)
      ok (tail ++ head)

-- The two `memcpy` of the first `copy` bytes of `data_` to place `position` on.
unfoldable pub copy_in : PseudoTcpFifo → ℕ → ℕ → List ℕ → Access PseudoTcpFifo
copy_in b position copy data_ =
    let tail_copy = min copy (sub64 b.buffer_length position) in
    do
      buffer ← write_bytes b.buffer position (take tail_copy data_)
      buffer' ← write_bytes buffer 0 (take (copy - tail_copy) (drop tail_copy data_))
      ok (record b { buffer = buffer' })

-- The part of `pseudo_tcp_fifo_set_capacity` that moves the bytes to new memory
unfoldable pub reallocate : PseudoTcpFifo → List ℕ → Access (PseudoTcpFifo × Bool)
reallocate b memory = do
  bytes ← copy_out b b.read_position b.data_length
  memory' ← write_bytes memory 0 bytes
  ok (record b { buffer = memory'; buffer_length = length memory; read_position = 0 }, true)

-- `pseudo_tcp_fifo_set_capacity`, with the memory that `g_slice_alloc (size)` gives
unfoldable pub set_capacity : PseudoTcpFifo → List ℕ → Access (PseudoTcpFifo × Bool)
set_capacity b memory =
    let size = length memory in
    if ltb size b.data_length
    then ok (b, false)
    else if not (size == b.data_length)
    then reallocate b memory
    else ok (b, true)

-- `pseudo_tcp_fifo_consume_read_data`; the remainder by 0 of an empty buffer is a fault.
unfoldable pub consume_read_data : PseudoTcpFifo → ℕ → Access PseudoTcpFifo
consume_read_data b size =
    if leb size b.data_length && ltb 0 b.buffer_length
    then ok (record b {
      read_position = add64 b.read_position size % b.buffer_length;
      data_length = b.data_length - size;
    })
    else out_of_bounds

-- `pseudo_tcp_fifo_consume_write_buffer`
unfoldable pub consume_write_buffer : PseudoTcpFifo → ℕ → Access PseudoTcpFifo
consume_write_buffer b size =
    if leb size (sub64 b.buffer_length b.data_length)
    then ok (record b { data_length = add64 b.data_length size })
    else out_of_bounds

-- `pseudo_tcp_fifo_get_write_remaining`
unfoldable pub get_write_remaining : PseudoTcpFifo → ℕ
get_write_remaining b = sub64 b.buffer_length b.data_length

-- `pseudo_tcp_fifo_read_offset`: the bytes that it copies to its output, whose number it returns.
-- The remainder by the length 0 of a cleared buffer is a fault.
unfoldable pub read_offset : PseudoTcpFifo → ℕ → ℕ → Access (List ℕ)
read_offset b bytes offset =
    let available = sub64 b.data_length offset in
    let position = add64 b.read_position offset % b.buffer_length in
    let copy = min bytes available in
    if b.buffer_length == 0
    then out_of_bounds
    else if leb b.data_length offset
    then ok []
    else copy_out b position copy

-- `pseudo_tcp_fifo_write_offset` of the bytes `data_`: the buffer, and the number of bytes it took
unfoldable pub write_offset : PseudoTcpFifo → List ℕ → ℕ → Access (PseudoTcpFifo × ℕ)
write_offset b data_ offset =
    let available = sub64 (sub64 b.buffer_length b.data_length) offset in
    let position = add64 (add64 b.read_position b.data_length) offset % b.buffer_length in
    let copy = min (length data_) available in
    if b.buffer_length == 0
    then out_of_bounds
    else if leb b.buffer_length (add64 b.data_length offset)
    then ok (b, 0)
    else copy_in b position copy data_ >>= λ b'. ok (b', copy)

-- `pseudo_tcp_fifo_read`
unfoldable pub read : PseudoTcpFifo → ℕ → Access (PseudoTcpFifo × List ℕ)
read b bytes = do
  out ← read_offset b bytes 0
  ok (
    record b {
      read_position = add64 b.read_position (length out) % b.buffer_length;
      data_length = b.data_length - length out;
    },
    out,
  )

-- `pseudo_tcp_fifo_write`
unfoldable pub write : PseudoTcpFifo → List ℕ → Access (PseudoTcpFifo × ℕ)
write b data_ = do
  (b', copy) ← write_offset b data_ 0
  ok (record b' { data_length = add64 b'.data_length copy }, copy)
