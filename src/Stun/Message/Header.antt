-- ===== src/Stun/Message/Header.antt =====
-- What `stun_message_init` writes the header functions read.
use libnice.Base.{
  ℕ, ◌+◌, ◌≤◌, ◌<◌, ◌≡◌, refl, arith, true, false, List, ltb, if◌then◌else◌, length, get_or, ok,
  overlay, length-overlay, write_bytes-eq-ok, read_bytes-eq-ok, slice-overlay, ◌∙◌, ap,
  get_or-overlay_in, get_or-overlay_after, get_or-overlay_before,
}
use libnice.Stun.Types.{StunMessage}
use libnice.Stun.Wire.{getw, type_bytes}
use libnice.Stun.Wire.Word.{getw-eq-ok}
use libnice.Stun.Wire.Kind.{type_word, is_connect_error, type_word-round_trip}
use libnice.Stun.Message.{IsBacked, init, message_length, message_id, get_class, get_method, zeros}

-- The buffer that `stun_message_init` leaves, in its three steps.
abbrev zeroed : List ℕ → List ℕ
zeroed buf = overlay buf 0 zeros

abbrev typed : List ℕ → ℕ → ℕ → List ℕ
typed buf c m = overlay (zeroed buf) 0 (type_bytes c m)

abbrev pub fresh : List ℕ → ℕ → ℕ → List ℕ → List ℕ
fresh buf c m id = overlay (typed buf c m) 4 id

length-type_bytes : (c m : ℕ) → length (type_bytes c m) ≡ 2
unfolding type_bytes
length-type_bytes c m = refl

length-zeroed : (buf : List ℕ) → length (zeroed buf) ≡ length buf
length-zeroed buf = length-overlay buf 0 zeros

length-typed : (buf : List ℕ) (c m : ℕ) → length (typed buf c m) ≡ length buf
length-typed buf c m = length-overlay (zeroed buf) 0 (type_bytes c m) ∙ length-zeroed buf

length-fresh : (buf : List ℕ) (c m : ℕ) (id : List ℕ) → length (fresh buf c m id) ≡ length buf
length-fresh buf c m id = length-overlay (typed buf c m) 4 id ∙ length-typed buf c m

init-eq-ok :
    (msg : StunMessage) (c m : ℕ) (id : List ℕ)
    → IsBacked msg
    → 20 ≤ msg.buffer_len
    → length id ≡ 16
    → init msg c m id ≡ ok (record msg { buffer = fresh msg.buffer c m id }, true)
unfolding init
init-eq-ok msg c m id v h e = rw (
  not_short,
  write_bytes-eq-ok msg.buffer 0 zeros (omega arith),
  write_bytes-eq-ok (zeroed msg.buffer) 0 (type_bytes c m)
      (omega (arith, length-zeroed msg.buffer, length-type_bytes c m)),
  write_bytes-eq-ok (typed msg.buffer c m) 4 id (omega (arith, length-typed msg.buffer c m)),
)
  where
    not_short : ltb msg.buffer_len 20 ≡ false
    not_short = ground arith

module _ (buf : List ℕ) (c m : ℕ) (id : List ℕ) (room : 20 ≤ length buf) where
  fresh_type : (k : ℕ) → k < 2 → get_or (fresh buf c m id) (0 + k) 0 ≡ get_or (type_bytes c m) k 0
  fresh_type k h =
      get_or-overlay_before (typed buf c m) 4 id (0 + k) (omega arith)
      ∙ get_or-overlay_in (zeroed buf) 0 (type_bytes c m) k
          (omega (arith, length-zeroed buf, length-type_bytes c m))
          (omega (arith, length-type_bytes c m))

  fresh_length :
      (k : ℕ) → k < 2 → get_or (fresh buf c m id) (0 + (2 + k)) 0 ≡ get_or zeros (2 + k) 0
  fresh_length k h =
      get_or-overlay_before (typed buf c m) 4 id (0 + (2 + k)) (omega arith)
      ∙ get_or-overlay_after (zeroed buf) 0 (type_bytes c m) (0 + (2 + k))
          (omega (arith, length-type_bytes c m))
      ∙ get_or-overlay_in buf 0 zeros (2 + k) (omega arith) (omega arith)

  getw_type : getw (fresh buf c m id) 0 ≡ ok (type_word c m)
  unfolding type_bytes
  getw_type =
      rw (getw-eq-ok (fresh buf c m id) 0 (omega (arith, length-fresh buf c m id)))
        (rw (fresh_type 0 (omega arith), fresh_type 1 (omega arith)))

  getw_length : getw (fresh buf c m id) 2 ≡ ok 0
  getw_length =
      rw (getw-eq-ok (fresh buf c m id) 2 (omega (arith, length-fresh buf c m id)))
        (rw (fresh_length 0 (omega arith), fresh_length 1 (omega arith)))

-- On a message whose memory holds its `buffer_len` bytes, at least 20, `stun_message_init` with
-- a class below 4, a method below 4096 and 16 bytes of identifier succeeds without leaving the
-- buffer. After it the length reads 20, the identifier and the method and class read back, but
-- that class 3 with method 5 reads as class 1 with method 7, and the memory is as large as before.
pub init_lem :
    (msg : StunMessage) (c m : ℕ) (id : List ℕ)
    → IsBacked msg
    → 20 ≤ msg.buffer_len
    → length id ≡ 16
    → c < 4
    → m < 4096
    → (out : StunMessage) × (init msg c m id ≡ ok (out, true))
      × (message_length out ≡ ok 20)
      × (message_id out ≡ ok id)
      × (get_class out ≡ ok (if is_connect_error c m then 1 else c))
      × (get_method out ≡ ok (if is_connect_error c m then 7 else m))
      × IsBacked out
unfolding message_length message_id get_class get_method
init_lem msg c m id v h e p q = (
  record msg { buffer = fresh msg.buffer c m id },
  init-eq-ok msg c m id v h e,
  rw (getw_length msg.buffer c m id room),
  rw (← e, read_bytes-eq-ok (fresh msg.buffer c m id) 4 (length id) inside)
      (ap ok
        (slice-overlay (typed msg.buffer c m) 4 id (omega (arith, length-typed msg.buffer c m)))),
  rw (getw_type msg.buffer c m id room, (type_word-round_trip c m p q).0),
  rw (getw_type msg.buffer c m id room, (type_word-round_trip c m p q).1),
  record { backed = rw length-fresh v.backed },
)
  where
    room : 20 ≤ length msg.buffer
    room = omega arith

    inside : 4 + length id ≤ length (fresh msg.buffer c m id)
    inside = omega (arith, length-fresh msg.buffer c m id)

-- With a `buffer_len` below 20 it returns false and leaves the message as it was.
pub init_short :
    (msg : StunMessage) (c m : ℕ) (id : List ℕ)
    → msg.buffer_len < 20
    → init msg c m id ≡ ok (msg, false)
unfolding init
init_short msg c m id h = ground arith
