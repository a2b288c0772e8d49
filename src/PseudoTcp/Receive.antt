-- ===== src/PseudoTcp/Receive.antt =====
-- agent/pseudotcp.c, `process`: how a segment's data gets into the receive buffer. Data that is behind
-- a gap is kept in the buffer's free space, and `rlist` remembers where.
pub mod Place
pub mod Stream
pub mod Keep
pub mod Trim
pub mod Accept
use libnice.Base.{
  ℕ, zero, suc, ◌+◌, ◌-◌, ◌%◌, ◌^◌, Bool, true, false, ltb, ◌==◌, if◌then◌else◌, List, [], ◌∷◌,
  length, take, drop, Access, ok, out_of_bounds, ◌>>=◌,
}
use libnice.PseudoTcp.Clock.{larger, larger_or_equal}
use libnice.PseudoTcp.Fifo.{PseudoTcpFifo, get_write_remaining, write_offset, consume_write_buffer}

-- `RSegment`
pub record RSegment : Type 0 where
  pub seq : ℕ
  pub len : ℕ

-- The fields of `PseudoTcpSocketPrivate` that received data changes
pub record Receiver : Type 0 where
  pub rlist : List RSegment
  pub rcv_nxt : ℕ
  pub rcv_wnd : ℕ
  pub rbuf : PseudoTcpFifo

-- `SendFlags`
pub data SendFlags : Type 0 where
  sf_none sf_delayed_ack sf_immediate_ack sf_fin sf_rst sf_duplicate_ack : SendFlags

-- `a - b` and `a + b` of 32 bits
abbrev pub sub32 : ℕ → ℕ → ℕ
sub32 a b = (a + 2 ^ 32 - b) % 2 ^ 32

abbrev pub add32 : ℕ → ℕ → ℕ
add32 a b = (a + b) % 2 ^ 32

-- The segment without the data that was received already: its number and its data
unfoldable pub trim_old : ℕ → ℕ → List ℕ → ℕ × List ℕ
trim_old rcv_nxt seq data_ =
    let adjust = sub32 rcv_nxt seq in
    if larger rcv_nxt seq
    then (if ltb adjust (length data_) then (add32 seq adjust, drop adjust data_) else (seq, []))
    else (seq, data_)

-- Its data without what is past the free space, whose size is of 64 bits
unfoldable pub trim_excess : ℕ → ℕ → ℕ → List ℕ → List ℕ
trim_excess rcv_nxt available_space seq data_ =
    let needed = sub32 (add32 seq (length data_)) rcv_nxt in
    let adjust = (needed + 2 ^ 64 - available_space) % 2 ^ 64 % 2 ^ 32 in
    if ltb available_space needed
    then (if ltb adjust (length data_) then take (length data_ - adjust) data_ else [])
    else data_

-- The loop over `rlist` once data in sequence has come; true if it recovers bytes.
unfoldable pub recover : List RSegment → Receiver → Access (Receiver × Bool)
recover [] r = ok (record r { rlist = [] }, false)
recover (s ∷ rest) r = elim (larger_or_equal r.rcv_nxt s.seq) [
  | false ↦ ok (record r { rlist = s ∷ rest }, false)
  | true ↦ elim (larger (add32 s.seq s.len) r.rcv_nxt) [
    | false ↦ recover rest r
    | true ↦
        let adjust = sub32 (add32 s.seq s.len) r.rcv_nxt in
        do
          rbuf ← consume_write_buffer r.rbuf adjust
          (r', more) ← recover rest (record r {
            rbuf = rbuf;
            rcv_nxt = add32 r.rcv_nxt adjust;
            rcv_wnd = sub32 r.rcv_wnd adjust;
          })
          ok (r', true)
  ]
]

-- `g_list_insert_before` the first that is not smaller
unfoldable pub insert : RSegment → List RSegment → List RSegment
insert s [] = s ∷ []
insert s (t ∷ rest) =
    let later = insert s rest in if larger s.seq t.seq then t ∷ later else s ∷ t ∷ rest

-- Data that is not ignored; the results are whether bytes were recovered, and whether there is new data.
-- The assertion on the number of bytes written ends the program.
unfoldable pub store : Receiver → ℕ → List ℕ → Access (Receiver × Bool × Bool)
store r seq data_ = do
  (rbuf, res) ← write_offset r.rbuf data_ (sub32 seq r.rcv_nxt)
  elim (res == length data_) [
    | false ↦ out_of_bounds
    | true ↦ elim (seq == r.rcv_nxt) [
      | true ↦ do
        rbuf' ← consume_write_buffer rbuf (length data_)
        (r', recovered) ← recover r.rlist (record r {
          rbuf = rbuf';
          rcv_nxt = add32 r.rcv_nxt (length data_);
          rcv_wnd = sub32 r.rcv_wnd (length data_);
        })
        ok (r', recovered, true)
      | false ↦ ok (
        record r { rbuf = rbuf; rlist = insert (record { seq = seq; len = length data_ }) r.rlist },
        false,
        false,
      )
    ]
  ]

-- The data of a segment; `ignore` is `bIgnoreData`.
unfoldable pub take_in : Receiver → Bool → ℕ → List ℕ → Access (Receiver × Bool × Bool)
take_in r ignore seq data_ =
    let old = trim_old r.rcv_nxt seq data_ in
    let fit = trim_excess r.rcv_nxt (get_write_remaining r.rbuf) old.0 old.1 in
    elim (ltb 0 (length fit)) [
      | false ↦ ok (r, false, false)
      | true ↦ elim ignore [
        | false ↦ store r old.0 fit
        | true ↦ ok (
          if old.0 == r.rcv_nxt then record r { rcv_nxt = add32 r.rcv_nxt (length fit) } else r,
          false,
          false,
        )
      ]
    ]

-- The acknowledgement that the segment asks for
unfoldable pub ack_of : ℕ → ℕ → Bool → ℕ → ℕ → SendFlags
ack_of ack_delay rcv_nxt received_fin seq len =
    if seq == rcv_nxt
    then (if ltb 0 len
        then (if ack_delay == 0 then sf_immediate_ack else sf_delayed_ack)
        else if received_fin
        then sf_immediate_ack
        else sf_none)
    else sf_duplicate_ack

-- From the choice of the acknowledgement to `attempt_send`: the receiver, the flags for it, and
-- `bNewData`
unfoldable pub receive :
    Receiver → ℕ → Bool → Bool → ℕ → List ℕ → Access (Receiver × SendFlags × Bool)
receive r ack_delay ignore received_fin seq data_ = do
  (r', recovered, new_data) ← take_in r ignore seq data_
  ok (
    if received_fin then record r' { rcv_nxt = add32 r'.rcv_nxt 1 } else r',
    if recovered
        then sf_immediate_ack
        else ack_of ack_delay r.rcv_nxt received_fin seq (length data_),
    new_data,
  )
