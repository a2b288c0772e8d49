-- ===== src/Stun/Attribute/Find.antt =====
-- `stun_message_find` on a message that the validation accepts.

use libnice.Base.{
  ℕ, zero, suc, ◌+◌, ◌%◌, ◌^◌, ◌≤◌, ◌<◌, ◌≢◌, ◌≡◌, ◌∙◌, arith, Bool, true, false, Option, none,
  some, List, [], ◌∷◌, length, get_or, ltb, ◌==◌, if◌then◌else◌, Bool-cases, ok, inl, inr,
}
use libnice.Stun.Types.{StunMessage}
use libnice.Stun.Wire.{getw, word_of}
use libnice.Stun.Wire.Padding.{align-eq}
use libnice.Stun.Wire.Word.{getw-eq-ok, word_of-lt, getw-lt}
use libnice.Stun.Message.{message_length, wire_type}
use libnice.Stun.Length.Chain.{Chain, done, attribute, stride}
use libnice.Stun.Length.Sound.{IsMessage, field_of}
use libnice.Stun.Attribute.{find_loop, find, is_aligned, gives_up}

module _ (fuel : ℕ) (aligned : Bool) (buf : List ℕ) (last type pos atype alen : ℕ)
    (inside : pos < last) (reads_type : getw buf pos ≡ ok atype)
    (reads_length : getw buf (pos + 2) ≡ ok alen) where
  find_here :
      atype ≡ type → find_loop (suc fuel) aligned buf last type pos ≡ ok (some (pos + 4, alen))
  unfolding find_loop
  find_here e = ground arith

  find_stops :
      atype ≢ type
      → gives_up atype type ≡ true
      → find_loop (suc fuel) aligned buf last type pos ≡ ok none
  unfolding find_loop
  find_stops e g = ground arith

  find_next :
      atype ≢ type
      → gives_up atype type ≡ false
      → find_loop (suc fuel) aligned buf last type pos
        ≡ find_loop fuel aligned buf last type (pos + 4 + stride aligned alen)
  unfolding find_loop
  find_next e g = ground arith

find_end :
    (fuel : ℕ) (aligned : Bool) (buf : List ℕ) (last type pos : ℕ)
    → last ≤ pos
    → find_loop fuel aligned buf last type pos ≡ ok none
unfolding find_loop
find_end zero aligned buf last type pos h = ground arith
find_end (suc fuel) aligned buf last type pos h = ground arith

-- One attribute of a chain: its type, the index of its value and the length of that.
pub record Entry : Type 0 where
  pub kind : ℕ
  pub start : ℕ
  pub size : ℕ

-- The attributes of a chain, in order.
abbrev pub entries : {buf : List ℕ} {p : Bool} {last pos : ℕ} → Chain buf p last pos → List Entry
entries (done e) = []
entries {buf = buf} {pos = pos} (attribute alen e l c) =
    record {
      kind = word_of (get_or buf pos 0) (get_or buf (pos + 1) 0);
      start = pos + 4;
      size = alen;
    }
    ∷ entries c

-- The first attribute of the type, unless one behind which the type may not come stands before.
unfoldable pub visible : List Entry → ℕ → Option (ℕ × ℕ)
visible [] type = none
visible (a ∷ es) type =
    if a.kind == type
    then some (a.start, a.size)
    else if gives_up a.kind type
    then none
    else visible es type

pub find_loop-visible :
    (aligned : Bool) (buf : List ℕ) (type : ℕ) {last : ℕ} (fuel : ℕ) {pos : ℕ}
    (c : Chain buf aligned last pos)
    → last ≤ pos + fuel
    → last ≤ length buf
    → find_loop fuel aligned buf last type pos ≡ ok (visible (entries c) type)
unfolding visible
find_loop-visible aligned buf type {last = last} fuel {pos = pos} (done e) h l =
    find_end fuel aligned buf last type pos (omega arith)
find_loop-visible aligned buf type zero (attribute alen e k c) h l = absurd (omega arith)
find_loop-visible aligned buf type {last = last} (suc fuel) {pos = pos} (attribute alen e k c) h l =
    elim (Bool-cases (atype == type)) [
      | inl same ↦
          rw same
            (find_here fuel aligned buf last type pos atype alen inside reads e (ground arith))
      | inr other ↦ elim (Bool-cases (gives_up atype type)) [
        | inl g ↦
            rw (other, g)
              (find_stops fuel aligned buf last type pos atype alen inside reads e (ground arith) g)
        | inr g ↦
            rw (other, g)
              (find_next fuel aligned buf last type pos atype alen inside reads e (ground arith) g
                ∙ find_loop-visible aligned buf type fuel c (omega arith) l)
      ]
    ]
  where
    atype : ℕ
    atype = word_of (get_or buf pos 0) (get_or buf (pos + 1) 0)

    inside : pos < last
    inside = omega arith

    reads : getw buf pos ≡ ok atype
    reads = getw-eq-ok buf pos (omega arith)

pub message_length-eq-ok :
    (msg : StunMessage)
    → 4 ≤ length msg.buffer
    → message_length msg ≡ ok ((field_of msg.buffer + 20) % 2 ^ 16)
unfolding message_length
message_length-eq-ok msg h = rw (getw-eq-ok msg.buffer 2 h)

-- On a message of `mlen` bytes that the validation accepts, `stun_message_find` stays within the
-- buffer and ends. Below 2 ^ 16 bytes it finds the first attribute of the type, unless one behind
-- which that type may not come stands before it; from 2 ^ 16 bytes on, where the `uint16_t`
-- length wraps, it finds nothing.
pub find-visible :
    (msg : StunMessage) (type mlen : ℕ)
    → (v : IsMessage msg.buffer (length msg.buffer) (is_aligned msg) mlen)
    → find msg type
      ≡ ok (if ltb mlen (2 ^ 16) then visible (entries v.chain) (wire_type msg type) else none)
unfolding find
find-visible msg type mlen v =
    rw (message_length-eq-ok msg v.header) (elim (Bool-cases (ltb mlen (2 ^ 16))) [
      | inl small ↦
          let e : (field_of msg.buffer + 20) % 2 ^ 16 ≡ mlen = ground (arith, v.declared) in
          rw (small, e)
            (find_loop-visible (is_aligned msg) msg.buffer (wire_type msg type) mlen v.chain
              (omega arith) v.fits)
      | inr large ↦ rw large (
          find_end ((field_of msg.buffer + 20) % 2 ^ 16) (is_aligned msg) msg.buffer
            ((field_of msg.buffer + 20) % 2 ^ 16) (wire_type msg type) 20
            (ground
              (arith, v.declared, word_of-lt (get_or msg.buffer 2 0) (get_or msg.buffer 3 0))))
    ])

stride-le : (p : Bool) (alen : ℕ) → alen < 2 ^ 16 → alen ≤ stride p alen
stride-le true alen h = omega (arith, align-eq alen)
stride-le false alen h = omega arith

visible-bounds :
    (buf : List ℕ) (p : Bool) (type : ℕ) {last : ℕ} {pos : ℕ} (c : Chain buf p last pos) (i n : ℕ)
    → visible (entries c) type ≡ some (i, n)
    → (pos + 4 ≤ i) × (i + n ≤ last)
unfolding visible
visible-bounds buf p type (done e) i n h = absurd (cc)
visible-bounds buf p type {last = last} {pos = pos} (attribute alen e k c) i n h =
    ground (arith, stride-le p alen (getw-lt buf (pos + 2) alen e), visible-bounds buf p type c i n)

-- What `stun_message_find` finds in a message of `mlen` bytes that the validation accepts lies
-- behind the header and within the message, with its whole value.
pub find_in_bounds :
    (msg : StunMessage) (type mlen p alen : ℕ)
    → IsMessage msg.buffer (length msg.buffer) (is_aligned msg) mlen
    → find msg type ≡ ok (some (p, alen))
    → (24 ≤ p) × (p + alen ≤ mlen)
find_in_bounds msg type mlen p alen v h = elim (Bool-cases (ltb mlen (2 ^ 16))) [
  | inl small ↦
      visible-bounds msg.buffer (is_aligned msg) (wire_type msg type) v.chain p alen
        (ground (arith, find-visible msg type mlen v))
  | inr large ↦ absurd (cc (find-visible msg type mlen v, large))
]
