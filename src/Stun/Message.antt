-- ===== src/Stun/Message.antt =====
-- stun/stunmessage.c, the header of a message.
pub mod Header
use libnice.Base.{
  ℕ, ◌+◌, ◌%◌, ◌^◌, ◌≤◌, length, Bool, true, false, not, Option, none, some, List, [], ◌∷◌, bit_and,
  ltb, ◌==◌, if◌then◌else◌, take, bytes_eq, Access, ok, ◌>>=◌, read, write_bytes, read_bytes,
}
use libnice.Stun.Types.{StunAgent, StunMessage, Compatibility, oc2007}
use libnice.Stun.Wire.{getw, type_bytes, class_of, method_of}

abbrev pub header_length : ℕ
header_length = 20

abbrev pub zeros : List ℕ
zeros = 0 ∷ 0 ∷ 0 ∷ 0 ∷ []

-- STUN_MAGIC_COOKIE in network order
abbrev pub magic_cookie : List ℕ
magic_cookie = 0x21 ∷ 0x12 ∷ 0xa4 ∷ 0x42 ∷ []

-- `stun_message_init`: the message, and what is returned.
unfoldable pub init : StunMessage → ℕ → ℕ → List ℕ → Access (StunMessage × Bool)
init msg c m id = if ltb msg.buffer_len header_length then ok (msg, false) else do
  zeroed ← write_bytes msg.buffer 0 zeros
  typed ← write_bytes zeroed 0 (type_bytes c m)
  full ← write_bytes typed 4 id
  ok (record msg { buffer = full }, true)

-- `stun_message_length` returns a `uint16_t`.
unfoldable pub message_length : StunMessage → Access ℕ
message_length msg = do w ← getw msg.buffer 2; ok ((w + header_length) % 2 ^ 16)

-- `stun_message_id`
unfoldable pub message_id : StunMessage → Access (List ℕ)
message_id msg = read_bytes msg.buffer 4 16

-- `stun_message_get_class`
unfoldable pub get_class : StunMessage → Access ℕ
get_class msg = do t ← getw msg.buffer 0; ok (class_of t)

-- `stun_message_get_method`
unfoldable pub get_method : StunMessage → Access ℕ
get_method msg = do t ← getw msg.buffer 0; ok (method_of t)

-- `stun_message_has_cookie`
unfoldable pub has_cookie : StunMessage → Access Bool
has_cookie msg = do id ← message_id msg; ok (bytes_eq (take 4 id) magic_cookie)

-- `msg->agent->usage_flags & STUN_AGENT_USAGE_NO_ALIGNED_ATTRIBUTES`, false with no agent
abbrev pub unaligned_agent : Option StunAgent → Bool
unaligned_agent none = false
unaligned_agent (some a) = not (bit_and a.usage_flags 0x80 == 0)

abbrev pub is_oc2007 : Compatibility → Bool
is_oc2007 oc2007 = true
is_oc2007 _ = false

abbrev pub swapping_agent : Option StunAgent → Bool
swapping_agent none = false
swapping_agent (some a) = is_oc2007 a.compatibility

abbrev pub realm : ℕ
realm = 0x0014

abbrev pub nonce : ℕ
nonce = 0x0015

-- In MS-TURN the identifiers of REALM and NONCE are swapped.
unfoldable pub wire_type : StunMessage → ℕ → ℕ
wire_type msg type =
    if swapping_agent msg.agent
    then if type == realm then nonce else if type == nonce then realm else type
    else type

-- The memory behind `buffer` holds `buffer_len` bytes.
pub record IsBacked (msg : StunMessage) : Type 0 where
  pub backed : msg.buffer_len ≤ length msg.buffer
