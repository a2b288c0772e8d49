-- ===== src/PseudoTcp/Segment/RoundTrip.antt =====
-- agent/pseudotcp.c: `parse` gets back what `packet` sent.
use libnice.Base.{
  ℕ, ◌+◌, ◌/◌, ◌%◌, ◌^◌, ◌≤◌, ◌<◌, ◌≡◌, refl, arith, some, List, ◌++◌, length, take, drop, ok,
  length-take, length-drop,
}
use native.Mathlib.Decide.{dec_lt}
use libnice.Base.{bit_and, ◌*◌}
use libnice.Base.Bits.{bit_and_mask}
use libnice.Stun.Value.RoundTrip.{ntohl-htonl}
use libnice.PseudoTcp.Fifo.{get_buffered}
use libnice.PseudoTcp.Fifo.Queue.{IsFifo, content, length-content, read_offset-eq}
use libnice.PseudoTcp.Segment.{Sender, WriteResult, header, payload, sent, packet, parse}

-- The fields have their width, and the window fits its 16 bits once it is scaled.
pub record IsSender (s : Sender) : Type 0 where
  pub fifo : IsFifo s.sbuf
  pub conv_fits : s.conv < 2 ^ 32
  pub rcv_nxt_fits : s.rcv_nxt < 2 ^ 32
  pub ts_recent_fits : s.ts_recent < 2 ^ 32
  pub window_fits : s.rcv_wnd / 2 ^ s.rwnd_scale < 2 ^ 16

parse-header :
    (s : Sender) (seq flags now : ℕ) (data_ : List ℕ)
    → IsSender s
    → seq < 2 ^ 32
    → flags < 2 ^ 8
    → now < 2 ^ 32
    → parse (header s seq flags now) data_
      ≡ some (record {
        conv = s.conv;
        seq = seq;
        ack = s.rcv_nxt;
        flags = flags;
        wnd = s.rcv_wnd / 2 ^ s.rwnd_scale;
        data_ = data_;
        tsval = now;
        tsecr = s.ts_recent;
      })
unfolding parse header
parse-header s seq flags now data_ v a b c =
    let w = s.rcv_wnd / 2 ^ s.rwnd_scale in
    let window : (0 + w % 2 ^ 16 / 2 ^ 8) * 2 ^ 8 + bit_and (w % 2 ^ 16) 0xff ≡ w =
      omega (arith, v.window_fits, bit_and_mask 8 (w % 2 ^ 16)) in
    let byte : flags % 2 ^ 8 ≡ flags = omega arith in
    rw
      (
        ntohl-htonl s.conv v.conv_fits,
        ntohl-htonl seq a,
        ntohl-htonl s.rcv_nxt v.rcv_nxt_fits,
        ntohl-htonl now c,
        ntohl-htonl s.ts_recent v.ts_recent_fits,
        window,
        byte,
      )
      refl

payload-eq :
    (s : Sender) (offset len : ℕ)
    → IsSender s
    → offset + len ≤ get_buffered s.sbuf
    → payload s offset len ≡ ok (take len (drop offset (content s.sbuf)))
unfolding payload get_buffered
payload-eq s offset len v h = elim (dec_lt 0 len) [
  | no p ↦ let e : len ≡ 0 = omega arith in rw e refl
  | yes p ↦
      let bytes = take len (drop offset (content s.sbuf)) in
      let size : length bytes ≡ len = omega (
        arith,
        length-take len (drop offset (content s.sbuf)),
        length-drop offset (content s.sbuf),
        length-content s.sbuf,
      ) in
      ground (
        arith,
        read_offset-eq s.sbuf len offset v.fifo (omega (arith, v.fifo.small, v.fifo.fits)),
        size,
      )
]

split_header :
    (s : Sender) (seq flags now : ℕ) (bytes : List ℕ)
    → (take 24 (header s seq flags now ++ bytes) ≡ header s seq flags now)
      × (drop 24 (header s seq flags now ++ bytes) ≡ bytes)
unfolding header
split_header s seq flags now bytes = (refl, refl)

-- From the bytes that `packet` gives to the network, `parse` gets back the segment: its number, its flags, the
-- time, the socket's conversation, the number that it expects next, its scaled window and its last
-- time stamp, and as data the bytes of the send buffer that were asked for. The fields have their
-- width, the scaled window has 16 bits, the payload fits a packet and stands in the send buffer.
pub parse-packet :
    (write_packet : List ℕ → WriteResult) (s : Sender) (seq flags offset len now : ℕ)
    → IsSender s
    → seq < 2 ^ 32
    → flags < 2 ^ 8
    → now < 2 ^ 32
    → 24 + len ≤ 65532
    → offset + len ≤ get_buffered s.sbuf
    → (bytes : List ℕ) × (s' : Sender) × (wres : WriteResult) × (packet write_packet s seq flags
          offset len now
        ≡ ok (bytes, s', wres))
      × (parse (take 24 bytes) (drop 24 bytes)
          ≡ some (record {
            conv = s.conv;
            seq = seq;
            ack = s.rcv_nxt;
            flags = flags;
            wnd = s.rcv_wnd / 2 ^ s.rwnd_scale;
            data_ = take len (drop offset (content s.sbuf));
            tsval = now;
            tsecr = s.ts_recent;
          }))
unfolding packet
parse-packet write_packet s seq flags offset len now v a b c fits stands =
    let data_ = take len (drop offset (content s.sbuf)) in
    let bytes = header s seq flags now ++ data_ in
    let wres = sent s len now (write_packet bytes) in
    let (front, back) = split_header s seq flags now data_ in
    (
      bytes,
      wres.0,
      wres.1,
      rw (payload-eq s offset len v stands) (ground (arith, fits)),
      rw (front, back) (parse-header s seq flags now data_ v a b c),
    )
