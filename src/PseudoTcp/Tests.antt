-- ===== src/PseudoTcp/Tests.antt =====
-- The theorems about the pseudo-TCP socket's parts at concrete ones.
use libnice.Base.{
  ℕ, Bool, List, ◌/◌, ◌≤◌, ◌+◌, ◌-◌, ◌%◌, ◌^◌, ◌<◌, ◌≡◌, refl, arith, true, false, some, [], ◌∷◌,
  ◌++◌, ok, take, drop, min, ltb, leb, if◌then◌else◌,
}
use libnice.PseudoTcp.Fifo.{
  PseudoTcpFifo, get_write_remaining, read, write, set_capacity, get_buffered,
}
use libnice.PseudoTcp.Fifo.Queue.{IsFifo, content, read-dequeues}
use libnice.PseudoTcp.Fifo.Enqueue.{write-enqueues}
use libnice.PseudoTcp.Fifo.Resize.{set_capacity-resizes}
use libnice.PseudoTcp.Clock.{
  time_diff, time_diff-behind, minus, larger, larger_or_equal, larger_lem,
}
use libnice.PseudoTcp.State.{
  established, closed, fin_wait_1, time_wait, set_states, set_state, transition, code,
}
use libnice.PseudoTcp.State.Closing.{says_goodbye, closed-says_goodbye}
use libnice.PseudoTcp.Receive.{Receiver}
use libnice.PseudoTcp.Segment.{Sender, WriteResult, wr_success, packet, parse}
use libnice.PseudoTcp.Segment.RoundTrip.{IsSender, parse-packet}
use libnice.PseudoTcp.Window.{ReceiveBuffer, resize_receive_buffer, resize_receive_buffer-fits}
use libnice.Base.{replicate, length-replicate, ◌*◌}

-- A buffer of five bytes whose three bytes wrap around its end.
abbrev fifo : PseudoTcpFifo
fifo = record {
  buffer = 3 ∷ 0 ∷ 0 ∷ 1 ∷ 2 ∷ [];
  buffer_length = 5;
  data_length = 3;
  read_position = 3;
}

fifo-IsFifo : IsFifo fifo
fifo-IsFifo = record {
  allocated = refl;
  positive = omega arith;
  small = omega arith;
  in_buffer = omega arith;
  fits = omega arith;
}

holds : content fifo ≡ 1 ∷ 2 ∷ 3 ∷ []
unfolding content
holds = refl

read-dequeues_example :
    (b' : PseudoTcpFifo) × (read fifo 2 ≡ ok (b', take 2 (content fifo)))
    × IsFifo b'
    × (content b' ≡ drop 2 (content fifo))
read-dequeues_example = read-dequeues fifo 2 fifo-IsFifo

write-enqueues_example :
    (b' : PseudoTcpFifo) × (write fifo (4 ∷ 5 ∷ 6 ∷ []) ≡ ok (b', min 3 (get_write_remaining fifo)))
    × IsFifo b'
    × (content b' ≡ content fifo ++ take (get_write_remaining fifo) (4 ∷ 5 ∷ 6 ∷ []))
write-enqueues_example = write-enqueues fifo (4 ∷ 5 ∷ 6 ∷ []) fifo-IsFifo

set_capacity-resizes_example :
    (b' : PseudoTcpFifo) × (done : Bool) × (set_capacity fifo (0 ∷ 0 ∷ 0 ∷ []) ≡ ok (b', done))
    × IsFifo b'
    × (content b' ≡ content fifo)
    × (done ≡ leb 3 3)
    × (b'.buffer_length ≡ (if ltb 3 3 then 3 else 5))
set_capacity-resizes_example = set_capacity-resizes fifo (0 ∷ 0 ∷ 0 ∷ []) fifo-IsFifo (omega arith)

time_diff-behind_example : time_diff 4294967290 ((4294967290 + 10) % 2 ^ 32) ≡ minus 10
time_diff-behind_example = time_diff-behind 4294967290 10 (omega arith) (omega arith) (omega arith)

larger_lem_example :
    (larger ((4294967290 + 10) % 2 ^ 32) 4294967290 ≡ true)
    × (larger 4294967290 ((4294967290 + 10) % 2 ^ 32) ≡ false)
    × (larger 4294967290 4294967290 ≡ false)
    × (larger_or_equal 4294967290 4294967290 ≡ true)
    × (larger_or_equal ((4294967290 + 10) % 2 ^ 32) 4294967290 ≡ ltb 10 (2 ^ 31 - 1))
larger_lem_example = larger_lem 4294967290 10 (omega arith) (omega arith) (omega arith)

closes : set_states established (fin_wait_1 ∷ time_wait ∷ closed ∷ []) ≡ some closed
unfolding set_states set_state transition code
closes = refl

closed-says_goodbye_example : says_goodbye (fin_wait_1 ∷ time_wait ∷ closed ∷ []) ≡ true
closed-says_goodbye_example =
    closed-says_goodbye established (fin_wait_1 ∷ time_wait ∷ closed ∷ []) refl closes

-- Bytes 0, 1 and 4 of a stream whose byte `p` is `p`.
abbrev receiver : Receiver
receiver = record {
  rlist = record { seq = 4; len = 1 } ∷ [];
  rcv_nxt = 2;
  rcv_wnd = 4;
  rbuf = record {
    buffer = 9 ∷ 4 ∷ 9 ∷ 0 ∷ 1 ∷ 9 ∷ [];
    buffer_length = 6;
    data_length = 2;
    read_position = 3;
  };
}

abbrev stream : ℕ → ℕ
stream p = p

abbrev sender : Sender
sender = record {
  conv = 7;
  rcv_nxt = 4294967290;
  rcv_wnd = 61440;
  rwnd_scale = 2;
  ts_recent = 90;
  ts_lastack = 0;
  sbuf = fifo;
  t_ack = 0;
  lastsend = 0;
  last_traffic = 0;
  outgoing = false;
}

sender-IsSender : IsSender sender
sender-IsSender = record {
  fifo = fifo-IsFifo;
  conv_fits = omega arith;
  rcv_nxt_fits = omega arith;
  ts_recent_fits = omega arith;
  window_fits = omega arith;
}

two_buffered : 1 + 2 ≤ get_buffered fifo
unfolding get_buffered
two_buffered = omega arith

parse-packet_example :
    (bytes : List ℕ) × (s' : Sender) × (wres : WriteResult) × (packet
        (λ bytes. wr_success)
        sender
        1000
        0
        1
        2
        100
      ≡ ok (bytes, s', wres))
    × (parse (take 24 bytes) (drop 24 bytes)
        ≡ some (record {
          conv = 7;
          seq = 1000;
          ack = 4294967290;
          flags = 0;
          wnd = 61440 / 2 ^ 2;
          data_ = take 2 (drop 1 (content fifo));
          tsval = 100;
          tsecr = 90;
        }))
parse-packet_example =
    parse-packet (λ bytes. wr_success) sender 1000 0 1 2 100 sender-IsSender (omega arith)
      (omega arith) (omega arith) (omega arith) two_buffered

abbrev receive_buffer : ReceiveBuffer
receive_buffer = record { rbuf = fifo; rbuf_len = 5; rcv_wnd = 2; rwnd_scale = 0; ssthresh = 5 }

resize_receive_buffer-fits_example :
    (b' : ReceiveBuffer) × (resize_receive_buffer (λ n. replicate n 0) receive_buffer 100000
      ≡ ok b')
    × IsFifo b'.rbuf
    × (content b'.rbuf ≡ content fifo)
    × (b'.rcv_wnd / 2 ^ b'.rwnd_scale < 2 ^ 16)
    × (b'.rbuf_len ≤ 100000)
    × (100000 < 2 * b'.rbuf_len)
resize_receive_buffer-fits_example =
    resize_receive_buffer-fits (λ n. replicate n 0) receive_buffer 100000
      (λ n. length-replicate n 0) fifo-IsFifo (λ e. absurd (omega (arith, e))) (omega arith)
      (omega arith) (omega arith)
