-- ===== src/PseudoTcp/Receive/Stream.antt =====
-- agent/pseudotcp.c: the receive buffer holds the stream that the segments carry.
use libnice.Base.{
  ℕ, ◌+◌, ◌-◌, ◌%◌, ◌^◌, ◌≤◌, ◌<◌, ◌≡◌, refl, ◌∙◌, arith, Bool, true, false, ltb, leb, List, [],
  ◌∷◌, length, get_or, ok,
}
use native.Mathlib.Decide.{dec_lt, dec_le}
use libnice.PseudoTcp.Clock.{larger, larger_or_equal}
use libnice.PseudoTcp.Fifo.{PseudoTcpFifo, add64, consume_write_buffer}
use libnice.PseudoTcp.Fifo.Queue.{IsFifo}
use libnice.PseudoTcp.Fifo.Enqueue.{consume_fits}
use libnice.PseudoTcp.Receive.{RSegment, Receiver, sub32, add32, recover}
use libnice.PseudoTcp.Receive.Place.{cell}

-- Numbers of 32 bits that count places less than 2 ^ 31 - 1 apart are compared as the places.
pub larger_near :
    (a b : ℕ)
    → a < b + (2 ^ 31 - 1)
    → b < a + (2 ^ 31 - 1)
    → larger (a % 2 ^ 32) (b % 2 ^ 32) ≡ ltb b a
unfolding larger
larger_near a b p q = ground arith

larger_or_equal_near :
    (a b : ℕ)
    → a < b + (2 ^ 31 - 1)
    → b < a + (2 ^ 31 - 1)
    → larger_or_equal (a % 2 ^ 32) (b % 2 ^ 32) ≡ leb b a
unfolding larger_or_equal
larger_or_equal_near a b p q = ground arith

pub sub32_near : (a b : ℕ) → b ≤ a → a < b + 2 ^ 32 → sub32 (a % 2 ^ 32) (b % 2 ^ 32) ≡ a - b
sub32_near a b p q = omega arith

leb-true : (a b : ℕ) → a ≤ b → leb a b ≡ true
leb-true a b h = ground arith

leb-false : (a b : ℕ) → b < a → leb a b ≡ false
leb-false a b h = ground arith

pub ltb-true : (a b : ℕ) → a < b → ltb a b ≡ true
ltb-true a b h = ground arith

pub ltb-false : (a b : ℕ) → b ≤ a → ltb a b ≡ false
ltb-false a b h = ground arith

-- The bytes `data_` are those of the stream from `pos` on.
abbrev pub Carries : (ℕ → ℕ) → ℕ → List ℕ → Type 0
Carries σ pos data_ = (j : ℕ) → j < length data_ → get_or data_ j 0 ≡ σ (pos + j)

-- The byte `k` places behind the next one to read, which is byte `base` of the stream, is the stream's.
abbrev pub Holds : (ℕ → ℕ) → ℕ → PseudoTcpFifo → ℕ → Type 0
Holds σ base b k = cell b k ≡ σ (base + k)

-- The segments of `rlist`, in order from place `lo` on, mark bytes of the stream.
abbrev pub Saved : (ℕ → ℕ) → ℕ → PseudoTcpFifo → ℕ → List RSegment → Type 0
Saved σ base b lo [] = Unit
Saved σ base b lo (s ∷ rest) =
    (k : ℕ) × (lo ≤ k)
    × (s.seq ≡ (base + k) % 2 ^ 32)
    × (k + s.len ≤ b.buffer_length)
    × ((j : ℕ) → j < s.len → Holds σ base b (k + j))
    × Saved σ base b k rest

-- The queue holds the stream from byte `base` on, and `rcv_nxt` is the number of the byte behind it.
pub record Filled (σ : ℕ → ℕ) (base : ℕ) (r : Receiver) : Type 0 where
  pub fifo : IsFifo r.rbuf
  pub small : r.rbuf.buffer_length ≤ 2 ^ 30
  pub next : r.rcv_nxt ≡ (base + r.rbuf.data_length) % 2 ^ 32
  pub queued : (k : ℕ) → k < r.rbuf.data_length → Holds σ base r.rbuf k

-- The saved segments stand behind a gap.
pub record IsReceiver (σ : ℕ → ℕ) (base : ℕ) (r : Receiver) : Type 0 where
  pub filled : Filled σ base r
  pub saved : Saved σ base r.rbuf (r.rbuf.data_length + 1) r.rlist

-- The loop by its three cases.
module _ (s : RSegment) (rest : List RSegment) (r : Receiver) where
  recover_ahead :
      larger_or_equal r.rcv_nxt s.seq ≡ false
      → recover (s ∷ rest) r ≡ ok (record r { rlist = s ∷ rest }, false)
  unfolding recover
  recover_ahead h = rw (h, recover) refl

  recover_old :
      larger_or_equal r.rcv_nxt s.seq ≡ true
      → larger (add32 s.seq s.len) r.rcv_nxt ≡ false
      → recover (s ∷ rest) r ≡ recover rest r
  unfolding recover
  recover_old h q = rw (h, q, recover) refl

  recover_new :
      (adjust : ℕ) (rbuf : PseudoTcpFifo) (r' : Receiver) (more : Bool)
      → larger_or_equal r.rcv_nxt s.seq ≡ true
      → larger (add32 s.seq s.len) r.rcv_nxt ≡ true
      → sub32 (add32 s.seq s.len) r.rcv_nxt ≡ adjust
      → consume_write_buffer r.rbuf adjust ≡ ok rbuf
      → recover rest (record r {
        rbuf = rbuf;
        rcv_nxt = add32 r.rcv_nxt adjust;
        rcv_wnd = sub32 r.rcv_wnd adjust;
      })
        ≡ ok (r', more)
      → recover (s ∷ rest) r ≡ ok (r', true)
  unfolding recover
  recover_new adjust rbuf r' more h q a c e = rw (h, q, recover) (rw (a, c, e) refl)

module _ (σ : ℕ → ℕ) (base : ℕ) where
  pub grown :
      (r : Receiver) (size : ℕ) (f : Filled σ base r)
      → r.rbuf.data_length + size ≤ r.rbuf.buffer_length
      → (consume_write_buffer r.rbuf size
          ≡ ok (record r.rbuf { data_length = r.rbuf.data_length + size }))
        × (add32 r.rcv_nxt size ≡ (base + (r.rbuf.data_length + size)) % 2 ^ 32)
  grown r size f h =
      let same : add64 r.rbuf.data_length size ≡ r.rbuf.data_length + size =
        omega (arith, f.fifo.small) in
      (rw same at (consume_fits r.rbuf size (omega (arith, f.fifo.small))), omega (arith, f.next))

  pub recover-IsReceiver :
      (rs : List RSegment) (r : Receiver) (lo : ℕ)
      → Filled σ base r
      → Saved σ base r.rbuf lo rs
      → (r' : Receiver) × (more : Bool) × (recover rs r ≡ ok (r', more))
        × IsReceiver σ base r'
        × (r.rbuf.data_length ≤ r'.rbuf.data_length)
        × (r'.rbuf.buffer_length ≡ r.rbuf.buffer_length)
  recover-IsReceiver [] r lo f s =
      unfold recover in
      (
        record r { rlist = [] },
        false,
        refl,
        record {
          filled = record { fifo = f.fifo; small = f.small; next = f.next; queued = f.queued };
          saved = tt;
        },
        omega arith,
        refl,
      )
  recover-IsReceiver (s ∷ rest) r lo f (k, low, at_k, room, holds, others) =
      let len = r.rbuf.data_length in
      let cap = f.fifo.fits in
      let tail : add32 s.seq s.len ≡ (base + (k + s.len)) % 2 ^ 32 = omega (arith, at_k) in
      let older : larger_or_equal r.rcv_nxt s.seq ≡ leb (base + k) (base + len) =
        rw (f.next, at_k)
          (larger_or_equal_near (base + len) (base + k) (omega (arith, f.small))
            (omega (arith, f.small, cap))) in
      let newer : larger (add32 s.seq s.len) r.rcv_nxt ≡ ltb (base + len) (base + (k + s.len)) =
        rw (f.next, tail)
          (larger_near (base + (k + s.len)) (base + len) (omega (arith, f.small))
            (omega (arith, f.small, cap))) in
      elim (dec_le k len) [
        | no p ↦ (
          record r { rlist = s ∷ rest },
          false,
          recover_ahead s rest r (older ∙ leb-false (base + k) (base + len) (omega arith)),
          record {
            filled = record { fifo = f.fifo; small = f.small; next = f.next; queued = f.queued };
            saved = (k, omega arith, at_k, room, holds, others);
          },
          omega arith,
          refl,
        )
        | yes p ↦
            let passed : larger_or_equal r.rcv_nxt s.seq ≡ true =
              older ∙ leb-true (base + k) (base + len) (omega arith) in
            elim (dec_lt len (k + s.len)) [
              | no q ↦
                  let (r', more, e, found, further, size) = recover-IsReceiver rest r k f others in
                  (
                    r',
                    more,
                    recover_old s rest r passed
                          (newer ∙ ltb-false (base + len) (base + (k + s.len)) (omega arith))
                        ∙ e,
                    found,
                    further,
                    size,
                  )
              | yes q ↦
                  let adjust = k + s.len - len in
                  let same : sub32 (add32 s.seq s.len) r.rcv_nxt ≡ adjust =
                    rw (f.next, tail)
                      (sub32_near (base + (k + s.len)) (base + len) (omega arith)
                          (omega (arith, f.small))
                        ∙ omega arith) in
                  let (consumed, numbered) = grown r adjust f (omega arith) in
                  let r₂ : Receiver = record r {
                    rbuf = record r.rbuf { data_length = len + adjust };
                    rcv_nxt = add32 r.rcv_nxt adjust;
                    rcv_wnd = sub32 r.rcv_wnd adjust;
                  } in
                  let f₂ : Filled σ base r₂ = record {
                    fifo = record {
                      allocated = f.fifo.allocated;
                      positive = f.fifo.positive;
                      small = f.fifo.small;
                      in_buffer = f.fifo.in_buffer;
                      fits = omega arith;
                    };
                    small = f.small;
                    next = numbered;
                    queued = λ j h. elim (dec_lt j len) [
                      | yes i ↦ f.queued j i
                      | no i ↦
                          let e : k + (j - k) ≡ j = omega arith in
                          rw e at (holds (j - k) (omega arith))
                    ];
                  } in
                  let (r', more, e, found, further, size) =
                    recover-IsReceiver rest r₂ k f₂ others in
                  (
                    r',
                    true,
                    recover_new s rest r adjust (record r.rbuf { data_length = len + adjust }) r'
                        more passed
                        (newer ∙ ltb-true (base + len) (base + (k + s.len)) (omega arith)) same
                        consumed e,
                    found,
                    omega (arith, further),
                    size,
                  )
            ]
      ]
