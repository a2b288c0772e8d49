-- ===== src/Stun/Wire.antt =====
-- stun/utils.c: sizes, 16-bit words and the message type on the wire.
pub mod Padding
pub mod Word
pub mod Kind
use libnice.Base.{
  ℕ, ◌+◌, ◌-◌, ◌*◌, ◌/◌, ◌%◌, ◌^◌, Bool, List, [], ◌∷◌, bit_and, bit_or, ◌==◌, if◌then◌else◌,
  Access, ok, ◌>>=◌, read, write_bytes,
}

-- `(4 - (l & 3)) & 3`; `l & 3` is at most 3, so the difference does not wrap.
unfoldable pub padding : ℕ → ℕ
padding l = bit_and (4 - bit_and l 3) 3

-- `(l + 3) & ~3` over a 64-bit `size_t`.
unfoldable pub align : ℕ → ℕ
align l = bit_and ((l + 3) % 2 ^ 64) (2 ^ 64 - 4)

-- `(ptr[0] << 8) | ptr[1]`, returned as a `uint16_t`.
abbrev pub word_of : ℕ → ℕ → ℕ
word_of hi lo = bit_or (hi * 2 ^ 8) lo % 2 ^ 16

-- `stun_getw (buf + i)`
unfoldable pub getw : List ℕ → ℕ → Access ℕ
getw buf i = do hi ← read buf i; lo ← read buf (i + 1); ok (word_of hi lo)

-- The two bytes that `stun_setw` stores; its parameter is a `uint16_t`.
abbrev pub word_bytes : ℕ → List ℕ
word_bytes value = (value % 2 ^ 16 / 2 ^ 8) ∷ bit_and (value % 2 ^ 16) 0xff ∷ []

-- `stun_setw (buf + i, value)`
unfoldable pub setw : List ℕ → ℕ → ℕ → Access (List ℕ)
setw buf i value = write_bytes buf i (word_bytes value)

-- The two bytes that `stun_set_type` stores.
unfoldable pub type_bytes : ℕ → ℕ → List ℕ
type_bytes c m =
    bit_or (c / 2) (bit_and (m / 2 ^ 6) 0x3e) % 2 ^ 8
    ∷ bit_or (bit_or (bit_and (c * 2 ^ 4) 0x10) (bit_and (m * 2) 0xe0)) (bit_and m 0x0f) % 2 ^ 8
    ∷ []

-- The word that `stun_message_get_method` and `stun_message_get_class` read, with the old
-- data indication 0x0115 taken for 0x0017.
unfoldable pub read_type : ℕ → ℕ
read_type t = if t == 0x0115 then 0x0017 else t

unfoldable pub method_of : ℕ → ℕ
unfolding read_type
method_of t =
    let t = read_type t in
    bit_or (bit_or (bit_and t 0x3e00 / 2 ^ 2) (bit_and t 0x00e0 / 2)) (bit_and t 0x000f)

unfoldable pub class_of : ℕ → ℕ
unfolding read_type
class_of t = let t = read_type t in bit_or (bit_and t 0x0100 / 2 ^ 7) (bit_and t 0x0010 / 2 ^ 4)

-- `stun_optional`
unfoldable pub optional : ℕ → Bool
optional t = t / 2 ^ 15 == 1
