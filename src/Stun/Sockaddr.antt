-- ===== src/Stun/Sockaddr.antt =====
-- stun/stunmessage.c and stun/utils.c, the addresses in attributes: `stun_message_find_addr`,
-- `stun_message_append_addr`, `stun_xor_address` and the XOR variants. A `sockaddr` is the bytes of its
-- port and of its address, in network order as in memory, or of another family. Its sizes are
-- those of Linux: 16 bytes of a `sockaddr` and a `sockaddr_in`, 28 of a `sockaddr_in6`, 128 of a
-- `sockaddr_storage`.
use libnice.Base.{
  ℕ, ◌+◌, ◌/◌, ◌%◌, ◌^◌, true, false, not, ◌||◌, ltb, ◌==◌, if◌then◌else◌, min, List, [], ◌∷◌, ◌++◌,
  Option, none, some, Access, ok, ◌>>=◌, read, read_bytes, write_bytes, bit_xor,
}
use libnice.Stun.Types.{
  StunMessage, MessageReturn, success, not_found, invalid, not_enough_space, unsupported_address,
}
use libnice.Stun.Attribute.{find, append}
use libnice.Stun.Value.{htonl}

-- `sockaddr_storage`: the port and the address
pub data Sockaddr : Type 0 where
  inet inet6 : List ℕ → List ℕ → Sockaddr
  other_family : Sockaddr

-- What a function returns through `addr` and `addrlen`: the address, if it was set, and the length
pub record Found : Type 0 where
  pub status : MessageReturn
  pub addr : Option Sockaddr
  pub addrlen : ℕ

unfoldable pub find_inet : StunMessage → ℕ → ℕ → ℕ → Access Found
find_inet msg p len addrlen = elim (ltb addrlen 16 || not (len == 8)) [
  | true ↦ ok (record { status = invalid; addr = none; addrlen = 16 })
  | false ↦ do
    port ← read_bytes msg.buffer (p + 2) 2
    bytes ← read_bytes msg.buffer (p + 4) 4
    ok (record { status = success; addr = some (inet port bytes); addrlen = 16 })
]

unfoldable pub find_inet6 : StunMessage → ℕ → ℕ → ℕ → Access Found
find_inet6 msg p len addrlen = elim (ltb addrlen 28 || not (len == 20)) [
  | true ↦ ok (record { status = invalid; addr = none; addrlen = 28 })
  | false ↦ do
    port ← read_bytes msg.buffer (p + 2) 2
    bytes ← read_bytes msg.buffer (p + 4) 16
    ok (record { status = success; addr = some (inet6 port bytes); addrlen = 28 })
]

unfoldable pub value_addr : StunMessage → ℕ → Option (ℕ × ℕ) → Access Found
value_addr msg addrlen none = ok (record { status = not_found; addr = none; addrlen = addrlen })
value_addr msg addrlen (some (p, len)) = elim (ltb len 4) [
  | true ↦ ok (record { status = invalid; addr = none; addrlen = addrlen })
  | false ↦ do
    family ← read msg.buffer (p + 1)
    elim (family == 1) [
      | true ↦ find_inet msg p len addrlen
      | false ↦ elim (family == 2) [
        | true ↦ find_inet6 msg p len addrlen
        | false ↦ ok (record { status = unsupported_address; addr = none; addrlen = addrlen })
      ]
    ]
]

-- `stun_message_find_addr`
unfoldable pub find_addr : StunMessage → ℕ → ℕ → Access Found
find_addr msg type addrlen = do r ← find msg type; value_addr msg addrlen r

-- `^=` byte by byte
unfoldable pub xor_bytes : List ℕ → List ℕ → List ℕ
xor_bytes [] key = []
xor_bytes (x ∷ xs) [] = x ∷ xs
xor_bytes (x ∷ xs) (k ∷ key) = bit_xor x k ∷ xor_bytes xs key

-- The two bytes of `htons (magic_cookie >> 16)`
unfoldable pub port_key : ℕ → List ℕ
port_key cookie = (cookie / 2 ^ 24 % 2 ^ 8) ∷ (cookie / 2 ^ 16 % 2 ^ 8) ∷ []

-- `stun_xor_address`
unfoldable pub xor_address : StunMessage → Sockaddr → ℕ → ℕ → Access (MessageReturn × Sockaddr)
xor_address msg (inet port bytes) addrlen cookie =
    if ltb addrlen 16
    then ok (invalid, inet port bytes)
    else ok (success, inet (xor_bytes port (port_key cookie)) (xor_bytes bytes (htonl cookie)))
xor_address msg (inet6 port bytes) addrlen cookie = elim (ltb addrlen 28) [
  | true ↦ ok (invalid, inet6 port bytes)
  | false ↦ do
    key ← read_bytes msg.buffer 4 16
    ok (success, inet6 (xor_bytes port (port_key cookie)) (xor_bytes bytes key))
]
xor_address msg other_family addrlen cookie = ok (unsupported_address, other_family)

unfoldable pub unmask : StunMessage → ℕ → Found → Access Found
unmask msg cookie found = elim found.addr [
  | none ↦ ok found
  | some addr ↦ do
    (status, addr') ← xor_address msg addr found.addrlen cookie
    ok (record { status = status; addr = some addr'; addrlen = found.addrlen })
]

-- `stun_message_find_xor_addr_full`: an address is set exactly when `stun_message_find_addr` succeeds.
unfoldable pub find_xor_addr_full : StunMessage → ℕ → ℕ → ℕ → Access Found
find_xor_addr_full msg type addrlen cookie = do
  found ← find_addr msg type addrlen
  unmask msg cookie found

-- `stun_message_find_xor_addr`
unfoldable pub find_xor_addr : StunMessage → ℕ → ℕ → Access Found
find_xor_addr msg type addrlen = find_xor_addr_full msg type addrlen 0x2112a442

unfoldable pub put_addr : StunMessage × Option ℕ → List ℕ → Access (StunMessage × MessageReturn)
put_addr (msg, none) bytes = ok (msg, not_enough_space)
put_addr (msg, some p) bytes = do
  buf ← write_bytes msg.buffer p bytes
  ok (record msg { buffer = buf }, success)

-- `stun_message_append_addr`
unfoldable pub append_addr : StunMessage → ℕ → Sockaddr → ℕ → Access (StunMessage × MessageReturn)
append_addr msg type (inet port bytes) addrlen = elim (ltb addrlen 16) [
  | true ↦ ok (msg, invalid)
  | false ↦ do r ← append msg type 8; put_addr r ((0 ∷ 1 ∷ []) ++ port ++ bytes)
]
append_addr msg type (inet6 port bytes) addrlen = elim (ltb addrlen 16 || ltb addrlen 28) [
  | true ↦ ok (msg, invalid)
  | false ↦ do r ← append msg type 20; put_addr r ((0 ∷ 2 ∷ []) ++ port ++ bytes)
]
append_addr msg type other_family addrlen =
    ok (msg, if ltb addrlen 16 then invalid else unsupported_address)

unfoldable pub put_masked :
    StunMessage → ℕ → ℕ → MessageReturn × Sockaddr → Access (StunMessage × MessageReturn)
put_masked msg type addrlen (success, addr) = append_addr msg type addr addrlen
put_masked msg type addrlen (not_found, addr) = ok (msg, not_found)
put_masked msg type addrlen (invalid, addr) = ok (msg, invalid)
put_masked msg type addrlen (not_enough_space, addr) = ok (msg, not_enough_space)
put_masked msg type addrlen (unsupported_address, addr) = ok (msg, unsupported_address)

-- `stun_message_append_xor_addr_full`
unfoldable pub append_xor_addr_full :
    StunMessage → ℕ → Sockaddr → ℕ → ℕ → Access (StunMessage × MessageReturn)
append_xor_addr_full msg type addr addrlen cookie = do
  masked ← xor_address msg addr (min addrlen 128) cookie
  put_masked msg type (min addrlen 128) masked

-- `stun_message_append_xor_addr`
unfoldable pub append_xor_addr :
    StunMessage → ℕ → Sockaddr → ℕ → Access (StunMessage × MessageReturn)
append_xor_addr msg type addr addrlen = append_xor_addr_full msg type addr addrlen 0x2112a442
