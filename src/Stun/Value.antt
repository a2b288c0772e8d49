-- ===== src/Stun/Value.antt =====
-- stun/stunmessage.c, the typed values of attributes: the `stun_message_find*` and
-- `stun_message_append*` functions on top of `stun_message_find` and `stun_message_append`.
pub mod Append
pub mod RoundTrip
use libnice.Base.{
  ℕ, zero, suc, ◌+◌, ◌-◌, ◌*◌, ◌/◌, ◌%◌, ◌^◌, Bool, true, false, not, ◌&&◌, ◌||◌, Option, none,
  some, List, [], ◌∷◌, ◌++◌, bit_and, bit_or, ltb, ◌==◌, if◌then◌else◌, length, Access, ok, ◌>>=◌,
  read, read_bytes, write_bytes,
}
use libnice.Stun.Types.{StunMessage, MessageReturn, success, not_found, invalid, not_enough_space}
use libnice.Stun.Attribute.{find, append}

-- `ntohl` of the four bytes in memory, and of eight in `stun_message_find64`.
abbrev pub value_from : ℕ → List ℕ → ℕ
value_from acc [] = acc
value_from acc (b ∷ bs) = value_from (acc * 2 ^ 8 + b) bs

abbrev pub ntohl : List ℕ → ℕ
ntohl bs = value_from 0 bs

-- The four bytes of `htonl (value)` in memory; the parameter is a `uint32_t`.
abbrev pub htonl : ℕ → List ℕ
htonl v = (v / 2 ^ 24 % 2 ^ 8) ∷ (v / 2 ^ 16 % 2 ^ 8) ∷ (v / 2 ^ 8 % 2 ^ 8) ∷ (v % 2 ^ 8) ∷ []

-- A `find` function on the index and the length of the value; nothing found is the same for all.
abbrev pub on_found {ℓ} :
    {A : Type ℓ}
    → (ℕ → ℕ → Access (MessageReturn × Option A))
    → Option (ℕ × ℕ)
    → Access (MessageReturn × Option A)
on_found f none = ok (not_found, none)
on_found f (some (p, len)) = f p len

-- `stun_message_find_flag`
unfoldable pub find_flag : StunMessage → ℕ → Access MessageReturn
find_flag msg type = do
  r ← find msg type
  ok (elim r [ none ↦ not_found | some (p, len) ↦ if len == 0 then success else invalid ])

unfoldable pub value32 : StunMessage → ℕ → ℕ → Access (MessageReturn × Option ℕ)
value32 msg p len = elim (len == 4) [
  | true ↦ do bs ← read_bytes msg.buffer p 4; ok (success, some (ntohl bs))
  | false ↦ ok (invalid, none)
]

-- `stun_message_find32`; the option is what goes through `pval`.
unfoldable pub find32 : StunMessage → ℕ → Access (MessageReturn × Option ℕ)
find32 msg type = do r ← find msg type; on_found (value32 msg) r

unfoldable pub value64 : StunMessage → ℕ → ℕ → Access (MessageReturn × Option ℕ)
value64 msg p len = elim (len == 8) [
  | true ↦ do
    hi ← read_bytes msg.buffer p 4
    lo ← read_bytes msg.buffer (p + 4) 4
    ok (success, some (bit_or (ntohl hi * 2 ^ 32) (ntohl lo)))
  | false ↦ ok (invalid, none)
]

-- `stun_message_find64`
unfoldable pub find64 : StunMessage → ℕ → Access (MessageReturn × Option ℕ)
find64 msg type = do r ← find msg type; on_found (value64 msg) r

unfoldable pub value_string : StunMessage → ℕ → ℕ → ℕ → Access (MessageReturn × Option (List ℕ))
value_string msg buflen p len = elim (ltb len buflen) [
  | true ↦ do bs ← read_bytes msg.buffer p len; ok (success, some (bs ++ (0 ∷ [])))
  | false ↦ ok (not_enough_space, none)
]

-- `stun_message_find_string`; the option is what is stored in `buf`, the final zero included.
unfoldable pub find_string : StunMessage → ℕ → ℕ → Access (MessageReturn × Option (List ℕ))
find_string msg type buflen = do r ← find msg type; on_found (value_string msg buflen) r

abbrev error_code : ℕ
error_code = 0x0009

unfoldable pub value_error : StunMessage → ℕ → ℕ → Access (MessageReturn × Option ℕ)
value_error msg p len = elim (ltb len 4) [
  | true ↦ ok (invalid, none)
  | false ↦ do
    c ← read msg.buffer (p + 2)
    number ← read msg.buffer (p + 3)
    let class = bit_and c 0x7
    if ltb class 3 || (ltb 6 class || ltb 99 number)
        then ok (invalid, none)
        else ok (success, some (class * 100 + number))
]

-- `stun_message_find_error`
unfoldable pub find_error : StunMessage → Access (MessageReturn × Option ℕ)
find_error msg = do r ← find msg error_code; on_found (value_error msg) r

-- The copy of the value to the index that `stun_message_append` returned.
unfoldable pub fill : List ℕ → StunMessage × Option ℕ → Access (StunMessage × MessageReturn)
fill bytes (msg, none) = ok (msg, not_enough_space)
fill bytes (msg, some p) = do
  full ← write_bytes msg.buffer p bytes
  ok (record msg { buffer = full }, success)

-- `stun_message_append_bytes`; the data and its length are one list.
unfoldable pub append_bytes : StunMessage → ℕ → List ℕ → Access (StunMessage × MessageReturn)
append_bytes msg type bytes = do r ← append msg type (length bytes); fill bytes r

-- `stun_message_append_flag`
unfoldable pub append_flag : StunMessage → ℕ → Access (StunMessage × MessageReturn)
append_flag msg type = append_bytes msg type []

-- `stun_message_append32`
unfoldable pub append32 : StunMessage → ℕ → ℕ → Access (StunMessage × MessageReturn)
append32 msg type value = append_bytes msg type (htonl value)

-- `stun_message_append64`
unfoldable pub append64 : StunMessage → ℕ → ℕ → Access (StunMessage × MessageReturn)
append64 msg type value =
    append_bytes msg type (htonl (value / 2 ^ 32 % 2 ^ 32) ++ htonl (value % 2 ^ 32))

-- `stun_message_append_string`; the list is the text before its final zero.
unfoldable pub append_string : StunMessage → ℕ → List ℕ → Access (StunMessage × MessageReturn)
append_string msg type text = append_bytes msg type text

-- `stun_message_append_error`; `phrase` is what `stun_strerror` gives for the code. The stores are
-- of single bytes.
unfoldable pub append_error : StunMessage → ℕ → List ℕ → Access (StunMessage × MessageReturn)
append_error msg code phrase = do
  r ← append msg error_code (4 + length phrase)
  fill (0 ∷ 0 ∷ (code / 100 % 2 ^ 8) ∷ (code % 100 % 2 ^ 8) ∷ phrase) r
