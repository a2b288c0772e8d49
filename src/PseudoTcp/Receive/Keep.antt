-- ===== src/PseudoTcp/Receive/Keep.antt =====
-- agent/pseudotcp.c: data in the window is stored, in sequence or behind a gap.
use libnice.Base.{
  ℕ, ◌+◌, ◌-◌, ◌%◌, ◌^◌, ◌≤◌, ◌<◌, ◌≡◌, inl, inr, refl, sym, ap, ◌∙◌, arith, Bool, true, false, ltb,
  ◌==◌, ==_iff, List, [], ◌∷◌, length, ok,
}
use native.Mathlib.Decide.{dec_lt}
use libnice.PseudoTcp.Clock.{larger}
use libnice.PseudoTcp.Fifo.{PseudoTcpFifo, consume_write_buffer, write_offset}
use libnice.PseudoTcp.Fifo.Queue.{IsFifo}
use libnice.PseudoTcp.Receive.{RSegment, Receiver, sub32, add32, recover, insert, store}
use libnice.PseudoTcp.Receive.Place.{
  written, written-IsFifo, write_offset-written, cell-written, cell-written_elsewhere,
}
use libnice.PseudoTcp.Receive.Stream.{
  larger_near, sub32_near, ltb-true, ltb-false, Carries, Holds, Saved, Filled, IsReceiver, grown,
  recover-IsReceiver,
}

module _ (σ : ℕ → ℕ) (base : ℕ) where
  insert-Saved :
      (b : PseudoTcpFifo) (k size : ℕ) (lo : ℕ) (rs : List RSegment)
      → b.buffer_length ≤ 2 ^ 30
      → lo ≤ k
      → k + size ≤ b.buffer_length
      → ((j : ℕ) → j < size → Holds σ base b (k + j))
      → Saved σ base b lo rs
      → Saved σ base b lo (insert (record { seq = (base + k) % 2 ^ 32; len = size }) rs)
  unfolding insert
  insert-Saved b k size lo [] small low room holds s = (k, low, refl, room, holds, s)
  insert-Saved b k size lo (t ∷ rest) small low room holds
        (i, at_least, at_i, fits, others, later) =
      let e : larger ((base + k) % 2 ^ 32) t.seq ≡ ltb (base + i) (base + k) = rw at_i (
        larger_near (base + k) (base + i) (omega (arith, room, small))
          (omega (arith, fits, small))) in
      elim (dec_lt i k) [
        | yes p ↦ rw (e ∙ ltb-true (base + i) (base + k) (omega arith)) (
          i,
          at_least,
          at_i,
          fits,
          others,
          insert-Saved b k size i rest small (omega arith) room holds later,
        )
        | no p ↦
            rw (e ∙ ltb-false (base + i) (base + k) (omega arith))
              (k, low, refl, room, holds, (i, omega arith, at_i, fits, others, later))
      ]

  -- Writing the stream's bytes at their place spoils no byte that is the stream's.
  module _ (b : PseudoTcpFifo) (k : ℕ) (data_ : List ℕ) (v : IsFifo b)
      (starts : k < b.buffer_length) (fits : k + length data_ ≤ b.buffer_length)
      (carries : Carries σ (base + k) data_) where
    written-Holds_in : (j : ℕ) → j < length data_ → Holds σ base (written b k data_) (k + j)
    written-Holds_in j h =
        let e : (base + k) + j ≡ base + (k + j) = omega arith in
        cell-written b k data_ v starts fits j h ∙ carries j h ∙ ap σ e

    written-Holds :
        (j : ℕ) → j < b.buffer_length → Holds σ base b j → Holds σ base (written b k data_) j
    written-Holds j h holds = elim (dec_lt j k) [
      | yes p ↦ cell-written_elsewhere b k data_ v starts fits j h (inl p) ∙ holds
      | no p ↦ elim (dec_lt j (k + length data_)) [
        | yes q ↦
            let e : k + (j - k) ≡ j = omega arith in
            rw e at (written-Holds_in (j - k) (omega arith))
        | no q ↦ cell-written_elsewhere b k data_ v starts fits j h (inr (omega arith)) ∙ holds
      ]
    ]

    written-Saved :
        (lo : ℕ) (rs : List RSegment)
        → Saved σ base b lo rs
        → Saved σ base (written b k data_) lo rs
    written-Saved lo [] s = tt
    written-Saved lo (t ∷ rest) (i, at_least, at_i, room, holds, later) = (
      i,
      at_least,
      at_i,
      room,
      λ j h. written-Holds (i + j) (omega (arith, room)) (holds j h),
      written-Saved i rest later,
    )

-- The function by its two cases.
module _ (r : Receiver) (seq offset : ℕ) (data_ : List ℕ) (rbuf : PseudoTcpFifo)
    (at_offset : sub32 seq r.rcv_nxt ≡ offset)
    (stored : write_offset r.rbuf data_ offset ≡ ok (rbuf, length data_)) where
  store_behind_gap :
      (seq == r.rcv_nxt) ≡ false
      → store r seq data_
        ≡ ok (
          record r {
            rbuf = rbuf;
            rlist = insert (record { seq = seq; len = length data_ }) r.rlist;
          },
          false,
          false,
        )
  unfolding store
  store_behind_gap h = rw (at_offset, store) (rw stored (ground (arith, h)))

  store_in_sequence :
      (rbuf' : PseudoTcpFifo) (r' : Receiver) (recovered : Bool)
      → (seq == r.rcv_nxt) ≡ true
      → consume_write_buffer rbuf (length data_) ≡ ok rbuf'
      → recover r.rlist (record r {
        rbuf = rbuf';
        rcv_nxt = add32 r.rcv_nxt (length data_);
        rcv_wnd = sub32 r.rcv_wnd (length data_);
      })
        ≡ ok (r', recovered)
      → store r seq data_ ≡ ok (r', recovered, true)
  unfolding store
  store_in_sequence rbuf' r' recovered h c e =
      rw (at_offset, store) (rw stored (ground (arith, h, c, e)))

module _ (σ : ℕ → ℕ) (base : ℕ) (r : Receiver) (i : IsReceiver σ base r) (k : ℕ) (data_ : List ℕ)
    (ahead : r.rbuf.data_length ≤ k) (some_data : 0 < length data_)
    (fits : k + length data_ ≤ r.rbuf.buffer_length) (carries : Carries σ (base + k) data_) where
  pub store-IsReceiver :
      (r' : Receiver) × (recovered : Bool) × (new_data : Bool) × (store r
          ((base + k) % 2 ^ 32)
          data_
        ≡ ok (r', recovered, new_data))
      × IsReceiver σ base r'
      × (r.rbuf.data_length ≤ r'.rbuf.data_length)
      × (k ≡ r.rbuf.data_length → k + length data_ ≤ r'.rbuf.data_length)
  store-IsReceiver =
      let f = i.filled in
      let b = r.rbuf in
      let len = b.data_length in
      let v = f.fifo in
      let starts : k < b.buffer_length = omega arith in
      let w = written b k data_ in
      let seq = (base + k) % 2 ^ 32 in
      let at_offset : sub32 seq r.rcv_nxt ≡ k - len =
        rw f.next (
          sub32_near (base + k) (base + len) (omega arith) (omega (arith, f.small))
          ∙ omega arith) in
      let stored = write_offset-written b k data_ v starts fits ahead in
      let f_w : Filled σ base (record r { rbuf = w }) = record {
        fifo = written-IsFifo b k data_ v starts fits;
        small = f.small;
        next = f.next;
        queued = λ j h.
            written-Holds σ base b k data_ v starts fits carries j (omega (arith, v.fits))
              (f.queued j h);
      } in
      let s_w = written-Saved σ base b k data_ v starts fits carries (len + 1) r.rlist i.saved in
      elim (dec_lt len k) [
        | yes p ↦ (
          record r { rbuf = w; rlist = insert (record { seq = seq; len = length data_ }) r.rlist },
          false,
          false,
          store_behind_gap r seq (k - len) data_ w at_offset stored
              (ground (arith, f.next, f.small)),
          record {
            filled = record {
              fifo = f_w.fifo;
              small = f_w.small;
              next = f_w.next;
              queued = f_w.queued;
            };
            saved =
                insert-Saved σ base w k (length data_) (len + 1) r.rlist f.small (omega arith) fits
                  (written-Holds_in σ base b k data_ v starts fits carries) s_w;
          },
          omega arith,
          λ e. absurd (omega arith),
        )
        | no p ↦
            let (consumed, numbered) =
              grown σ base (record r { rbuf = w }) (length data_) f_w (omega arith) in
            let r₂ : Receiver = record r {
              rbuf = record w { data_length = len + length data_ };
              rcv_nxt = add32 r.rcv_nxt (length data_);
              rcv_wnd = sub32 r.rcv_wnd (length data_);
            } in
            let same : k ≡ len = omega arith in
            let f₂ : Filled σ base r₂ = record {
              fifo = record {
                allocated = f_w.fifo.allocated;
                positive = v.positive;
                small = v.small;
                in_buffer = v.in_buffer;
                fits = omega arith;
              };
              small = f.small;
              next = numbered;
              queued = λ j h. elim (dec_lt j len) [
                | yes q ↦ f_w.queued j q
                | no q ↦
                    let e : k + (j - len) ≡ j = omega arith in
                    rw e at (
                      written-Holds_in σ base b k data_ v starts fits carries (j - len)
                        (omega arith))
              ];
            } in
            let (r', recovered, e, found, further, size) =
              recover-IsReceiver σ base r.rlist r₂ (len + 1) f₂ s_w in
            (
              r',
              recovered,
              true,
              store_in_sequence r seq (k - len) data_ w at_offset stored
                  (record w { data_length = len + length data_ }) r' recovered
                  ((==_iff seq r.rcv_nxt).1 (ap (λ t. (base + t) % 2 ^ 32) same ∙ sym f.next))
                  consumed e,
              found,
              omega (arith, further),
              λ _. omega (arith, further),
            )
      ]
