-- ===== src/PseudoTcp/Segment.antt =====
-- agent/pseudotcp.c: `packet`, which builds a segment and gives it to the network, and `parse`. What the
-- callback WritePacket answers to the bytes is an argument.
pub mod RoundTrip
use libnice.Base.{
  ℕ, ◌+◌, ◌-◌, ◌/◌, ◌%◌, ◌^◌, Bool, true, false, ltb, leb, ◌==◌, if◌then◌else◌, Option, none, some,
  List, [], ◌∷◌, ◌++◌, length, slice, get_or, Access, ok, out_of_bounds, ◌>>=◌,
}
use libnice.Stun.Value.{htonl, ntohl}
use libnice.Stun.Wire.{word_bytes}
use libnice.PseudoTcp.Fifo.{PseudoTcpFifo, read_offset}

-- HEADER_SIZE and MAX_PACKET
abbrev pub header_size : ℕ
header_size = 24

abbrev pub max_packet : ℕ
max_packet = 65532

-- `Segment`; `len` is the length of its data.
pub record Segment : Type 0 where
  pub conv : ℕ
  pub seq : ℕ
  pub ack : ℕ
  pub flags : ℕ
  pub wnd : ℕ
  pub data_ : List ℕ
  pub tsval : ℕ
  pub tsecr : ℕ

-- `PseudoTcpWriteResult`
pub data WriteResult : Type 0 where
  wr_success wr_too_large wr_fail : WriteResult

-- The fields of `PseudoTcpSocketPrivate` that `packet` reads or changes
pub record Sender : Type 0 where
  pub conv : ℕ
  pub rcv_nxt : ℕ
  pub rcv_wnd : ℕ
  pub rwnd_scale : ℕ
  pub ts_recent : ℕ
  pub ts_lastack : ℕ
  pub sbuf : PseudoTcpFifo
  pub t_ack : ℕ
  pub lastsend : ℕ
  pub last_traffic : ℕ
  pub outgoing : Bool

-- The 24 bytes in front of the payload
unfoldable pub header : Sender → ℕ → ℕ → ℕ → List ℕ
header s seq flags now =
    htonl s.conv
    ++ htonl seq
    ++ htonl s.rcv_nxt
    ++ (0 ∷ flags % 2 ^ 8 ∷ word_bytes (s.rcv_wnd / 2 ^ s.rwnd_scale))
    ++ htonl now
    ++ htonl s.ts_recent

-- The payload; the assertion that it has `len` bytes ends the program.
unfoldable pub payload : Sender → ℕ → ℕ → Access (List ℕ)
payload s offset len = if len == 0 then ok [] else do
  bytes ← read_offset s.sbuf len offset
  if length bytes == len then ok bytes else out_of_bounds

-- The end of the function. The answer to a segment without payload is ignored.
unfoldable pub sent : Sender → ℕ → ℕ → WriteResult → Sender × WriteResult
sent s len now wr_success = (
  record s {
    ts_lastack = s.rcv_nxt;
    t_ack = 0;
    lastsend = if ltb 0 len then now else s.lastsend;
    last_traffic = now;
    outgoing = true;
  },
  wr_success,
)
sent s len now wres =
    if len == 0
    then (
      record s { ts_lastack = s.rcv_nxt; t_ack = 0; last_traffic = now; outgoing = true },
      wr_success,
    )
    else (record s { ts_lastack = s.rcv_nxt }, wres)

-- `packet`: the bytes given to WritePacket, the socket and the result
unfoldable pub packet :
    (List ℕ → WriteResult) → Sender → ℕ → ℕ → ℕ → ℕ → ℕ → Access (List ℕ × Sender × WriteResult)
packet write_packet s seq flags offset len now =
    if leb (header_size + len) max_packet
    then (do
      bytes ← payload s offset len
      let wres = sent s len now (write_packet (header s seq flags now ++ bytes))
      ok (header s seq flags now ++ bytes, wres.0, wres.1))
    else out_of_bounds

-- `parse`, up to the call of `process` on the segment; FALSE is `none`.
unfoldable pub parse : List ℕ → List ℕ → Option Segment
parse header_buf data_buf =
    if length header_buf == header_size
    then some (record {
      conv = ntohl (slice header_buf 0 4);
      seq = ntohl (slice header_buf 4 4);
      ack = ntohl (slice header_buf 8 4);
      flags = get_or header_buf 13 0;
      wnd = ntohl (slice header_buf 14 2);
      data_ = data_buf;
      tsval = ntohl (slice header_buf 16 4);
      tsecr = ntohl (slice header_buf 20 4);
    })
    else none
