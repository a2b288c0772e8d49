-- ===== src/Stun/Length.antt =====
-- stun/stunmessage.c, the validation of a buffer: `stun_message_validate_buffer_length_fast` over
-- a vector of buffers, and `stun_message_validate_buffer_length` over one.
pub mod Chain
pub mod Sound
pub mod Vector
use libnice.Base.{
  ℕ, zero, suc, ◌+◌, ◌-◌, ◌*◌, ◌/◌, ◌%◌, ◌^◌, Bool, true, false, not, ◌&&◌, ◌||◌, Option, none,
  some, List, [], ◌∷◌, bit_or, ltb, leb, ◌==◌, if◌then◌else◌, Access, ok, out_of_bounds, no_fuel,
  ◌>>=◌, read,
}
use libnice.Stun.Wire.{getw, padding, align, word_of}

-- The `ssize_t` that is returned: a length, STUN_MESSAGE_BUFFER_INCOMPLETE or
-- STUN_MESSAGE_BUFFER_INVALID.
pub data Verdict : Type 0 where
  valid : ℕ → Verdict
  incomplete invalid : Verdict

-- `StunInputVector`; `none` is a null pointer.
pub record InputVector : Type 0 where
  pub bytes : Option (List ℕ)
  pub size : ℕ

-- `v.buffer[i]`
unfoldable pub vector_read : InputVector → ℕ → Access ℕ
vector_read v i = elim v.bytes [ none ↦ out_of_bounds | some bs ↦ read bs i ]

-- `stun_getw (v.buffer + i)`
unfoldable pub vector_getw : InputVector → ℕ → Access ℕ
vector_getw v i = elim v.bytes [ none ↦ out_of_bounds | some bs ↦ getw bs i ]

abbrev pub is_null : Option (List ℕ) → Bool
is_null none = true
is_null (some bs) = false

-- The loop that skips `skip` bytes. It stops at a buffer that reaches past them, behind the last
-- of `n` buffers, or, when `n_buffers` is negative (`none`), at a null pointer. What it returns
-- is the buffers from index `i` on, and `skip_remaining`.
unfoldable pub skip_bytes : List InputVector → Option ℕ → ℕ → Access (List InputVector × ℕ)
skip_bytes vs (some zero) skip = ok (vs, skip)
skip_bytes [] (some (suc n)) skip = out_of_bounds
skip_bytes (v ∷ vs) (some (suc n)) skip = elim (leb v.size skip) [
  | true ↦ skip_bytes vs (some n) (skip - v.size)
  | false ↦ ok (v ∷ vs, skip)
]
skip_bytes [] none skip = out_of_bounds
skip_bytes (v ∷ vs) none skip = elim (is_null v.bytes || not (leb v.size skip)) [
  | true ↦ ok (v ∷ vs, skip)
  | false ↦ skip_bytes vs none (skip - v.size)
]

unfoldable pub first : List InputVector → Access InputVector
first [] = out_of_bounds
first (w ∷ ws) = ok w

-- The two bytes of the length, behind `skip` bytes of the first of the buffers; the difference
-- of two `size_t` wraps.
unfoldable pub read_split : List InputVector → ℕ → Access ℕ
read_split [] skip = out_of_bounds
read_split (v ∷ vs) skip =
    if ltb 1 ((v.size + 2 ^ 64 - skip) % 2 ^ 64)
    then vector_getw v skip
    else do hi ← vector_read v skip; w ← first vs; lo ← vector_read w 0; ok (bit_or (hi * 2 ^ 8) lo)

-- The length field at index 2, on the fast path or the slow one.
unfoldable pub length_field : InputVector → List InputVector → Option ℕ → Access ℕ
length_field v vs n =
    if leb 4 v.size
    then vector_getw v 2
    else do (rest, skip) ← skip_bytes (v ∷ vs) n 2; read_split rest skip

-- What is made of the length field.
unfoldable pub check_length : ℕ → ℕ → Bool → Verdict
check_length field total has_padding =
    let mlen = field + 20 in
    if has_padding && not (padding mlen == 0)
    then invalid
    else if ltb total mlen
    then incomplete
    else valid mlen

abbrev is_zero : Option ℕ → Bool
is_zero none = false
is_zero (some n) = n == 0

-- `stun_message_validate_buffer_length_fast`
unfoldable pub validate_fast : List InputVector → Option ℕ → ℕ → Bool → Access Verdict
validate_fast [] n total has_padding =
    if ltb total 1 || is_zero n then ok invalid else out_of_bounds
validate_fast (v ∷ vs) n total has_padding =
    if ltb total 1 || (is_zero n || is_null v.bytes) then ok invalid else do
      b ← vector_read v 0
      if not (b / 2 ^ 6 == 0)
          then ok invalid
          else if ltb total 4
          then ok incomplete
          else do field ← length_field v vs n; ok (check_length field total has_padding)

-- The loop over the attributes, from index `pos` on with `len` bytes to go.
unfoldable pub walk : ℕ → List ℕ → Bool → ℕ → ℕ → Access Bool
walk zero buf has_padding pos len = if len == 0 then ok true else no_fuel
walk (suc fuel) buf has_padding pos len = elim (len == 0) [
  | true ↦ ok true
  | false ↦ elim (ltb len 4) [
    | true ↦ ok false
    | false ↦ do
      field ← getw buf (pos + 2)
      let alen = if has_padding then align field else field
      elim (ltb (len - 4) alen) [
        | true ↦ ok false
        | false ↦ walk fuel buf has_padding (pos + 4 + alen) (len - 4 - alen)
      ]
  ]
]

abbrev pub finish : ℕ → Bool → Verdict
finish mlen sound = if sound then valid mlen else invalid

-- `stun_message_validate_buffer_length`: each round of the loop takes four bytes at least, so
-- `mlen` rounds are enough.
unfoldable pub validate_all : List ℕ → Bool → Verdict → Access Verdict
validate_all buf has_padding (valid mlen) = do
  sound ← walk mlen buf has_padding 20 (mlen - 20)
  ok (finish mlen sound)
validate_all buf has_padding v = ok v

unfoldable pub validate : List ℕ → ℕ → Bool → Access Verdict
validate buf len has_padding = do
  fast ← validate_fast (record { bytes = some buf; size = len } ∷ []) (some 1) len has_padding
  validate_all buf has_padding fast
