-- ===== src/Stun/Attribute.antt =====
-- stun/stunmessage.c, the attributes: `stun_message_find` and `stun_message_append`.
pub mod Find
pub mod Append
pub mod Bytes
pub mod Extend
use libnice.Base.{
  ℕ, zero, suc, ◌+◌, ◌-◌, ◌%◌, ◌^◌, Bool, true, false, not, Option, none, some, List, [], ◌∷◌, ltb,
  ◌==◌, if◌then◌else◌, replicate, Access, ok, no_fuel, ◌>>=◌, write_bytes,
}
use libnice.Stun.Types.{StunMessage}
use libnice.Stun.Wire.{getw, setw, padding, align}
use libnice.Stun.Message.{message_length, has_cookie, wire_type, unaligned_agent}

abbrev pub message_integrity : ℕ
message_integrity = 0x0008

abbrev pub fingerprint : ℕ
fingerprint = 0x8028

-- Behind MESSAGE-INTEGRITY only FINGERPRINT may come, behind FINGERPRINT nothing: the search for
-- `type` gives up behind an attribute of type `atype`.
abbrev pub gives_up : ℕ → ℕ → Bool
gives_up atype type =
    if atype == message_integrity then not (type == fingerprint) else atype == fingerprint

-- The loop of `stun_message_find`: the index of the value and its length, or nothing. The offset
-- stays far below 2 ^ 64.
unfoldable pub find_loop : ℕ → Bool → List ℕ → ℕ → ℕ → ℕ → Access (Option (ℕ × ℕ))
find_loop zero aligned buf length type offset = if ltb offset length then no_fuel else ok none
find_loop (suc fuel) aligned buf length type offset = elim (ltb offset length) [
  | false ↦ ok none
  | true ↦ do
    atype ← getw buf offset
    alen ← getw buf (offset + 2)
    elim (atype == type) [
      | true ↦ ok (some (offset + 4, alen))
      | false ↦ elim (gives_up atype type) [
        | true ↦ ok none
        | false ↦
            find_loop fuel aligned buf length type
              (offset + 4 + (if aligned then align alen else alen))
      ]
    ]
]

abbrev pub is_aligned : StunMessage → Bool
is_aligned msg = not (unaligned_agent msg.agent)

-- `stun_message_find`. Each round adds four to the offset at least, so `length` rounds suffice.
unfoldable pub find : StunMessage → ℕ → Access (Option (ℕ × ℕ))
find msg type = do
  length ← message_length msg
  find_loop length (is_aligned msg) msg.buffer length (wire_type msg type) 20

-- `stun_message_has_attribute`
unfoldable pub has_attribute : StunMessage → ℕ → Access Bool
has_attribute msg type = do r ← find msg type; ok (elim r [ none ↦ false | some p ↦ true ])

-- The padding of spaces behind the value, when it is not empty, and the `uint16_t` length that
-- the message then has.
unfoldable pub append_padding : List ℕ → ℕ → ℕ → Access (List ℕ × ℕ)
append_padding buf mlen length = elim (ltb 0 (padding length)) [
  | true ↦ do
    padded ← write_bytes buf (mlen + 4 + length) (replicate (padding length) 0x20)
    ok (padded, ((mlen + padding length) % 2 ^ 16 + 4 + length) % 2 ^ 16)
  | false ↦ ok (buf, (mlen + 4 + length) % 2 ^ 16)
]

-- The length of the attribute, with padding unless the agent wants none. Without the cookie the
-- padded length is written.
unfoldable pub append_length : StunMessage → List ℕ → ℕ → ℕ → Access (List ℕ × ℕ)
append_length msg buf mlen length = elim (unaligned_agent msg.agent) [
  | true ↦ do sized ← setw buf (mlen + 2) length; ok (sized, (mlen + 4 + length) % 2 ^ 16)
  | false ↦ do
    cookie ← has_cookie (record msg { buffer = buf })
    sized ← setw buf (mlen + 2) (if cookie then length else align length)
    append_padding sized mlen length
]

-- The attribute is written, and the new length, less 20, as a `uint16_t`.
unfoldable pub append_write : StunMessage → ℕ → ℕ → ℕ → Access (StunMessage × Option ℕ)
append_write msg type length mlen = do
  typed ← setw msg.buffer mlen (wire_type msg type)
  (sized, mlen') ← append_length msg typed mlen length
  full ← setw sized 2 (mlen' + 2 ^ 16 - 20)
  ok (record msg { buffer = full }, some (mlen + 4))

-- `stun_message_append`: the message, and the index of the value or nothing. The size check adds
-- as `size_t`.
unfoldable pub append : StunMessage → ℕ → ℕ → Access (StunMessage × Option ℕ)
append msg type length = do
  mlen ← message_length msg
  if ltb msg.buffer_len ((mlen + 4 + length) % 2 ^ 64)
      then ok (msg, none)
      else append_write msg type length mlen
