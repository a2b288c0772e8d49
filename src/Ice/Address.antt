-- ===== src/Ice/Address.antt =====
-- agent/address.c: the addresses of candidates. An address of a family that is neither AF_INET nor
-- AF_INET6 is `other`. The bytes of an address stand in network order, as in memory; a port is
-- the number that its two bytes give in network order.
pub mod Private
use libnice.Base.{
  ℕ, ◌+◌, ◌%◌, ◌^◌, Bool, true, false, ◌&&◌, ◌||◌, ◌==◌, bit_and, bytes_eq, List, [], ◌∷◌, get_or,
  replicate, ◌++◌,
}
use libnice.Stun.Value.{ntohl, htonl}

-- `NiceAddress`
pub data NiceAddress : Type 0 where
  ip4 : List ℕ → ℕ → NiceAddress
  ip6 : List ℕ → ℕ → ℕ → NiceAddress
  other : NiceAddress

-- `nice_address_set_ipv4`; INADDR_ANY is four bytes 0, which `htonl` of 0 gives as well.
unfoldable pub set_ipv4 : ℕ → NiceAddress
set_ipv4 addr_ipv4 = ip4 (htonl addr_ipv4) 0

-- `nice_address_set_ipv6`
unfoldable pub set_ipv6 : List ℕ → NiceAddress
set_ipv6 addr_ipv6 = ip6 addr_ipv6 0 0

-- `nice_address_set_port`, whose `htons` takes the lower 16 bits
unfoldable pub set_port : NiceAddress → ℕ → NiceAddress
set_port (ip4 a p) port = ip4 a (port % 2 ^ 16)
set_port (ip6 a p s) port = ip6 a (port % 2 ^ 16) s
set_port other port = other

-- `nice_address_get_port`
unfoldable pub get_port : NiceAddress → ℕ
get_port (ip4 a p) = p
get_port (ip6 a p s) = p
get_port other = 0

-- The comparison of the scopes
unfoldable pub scopes_agree : ℕ → ℕ → Bool
scopes_agree s t = (s == 0) || (t == 0) || (s == t)

-- `nice_address_equal`
unfoldable pub equal : NiceAddress → NiceAddress → Bool
equal (ip4 a p) (ip4 b q) = bytes_eq a b && (p == q)
equal (ip6 a p s) (ip6 b q t) = bytes_eq a b && (p == q) && scopes_agree s t
equal (ip4 a p) (ip6 b q t) = false
equal (ip4 a p) other = false
equal (ip6 a p s) (ip4 b q) = false
equal (ip6 a p s) other = false
equal other b = false

-- `nice_address_equal_no_port`
unfoldable pub equal_no_port : NiceAddress → NiceAddress → Bool
equal_no_port (ip4 a p) (ip4 b q) = bytes_eq a b
equal_no_port (ip6 a p s) (ip6 b q t) = bytes_eq a b && scopes_agree s t
equal_no_port (ip4 a p) (ip6 b q t) = false
equal_no_port (ip4 a p) other = false
equal_no_port (ip6 a p s) (ip4 b q) = false
equal_no_port (ip6 a p s) other = false
equal_no_port other b = false

-- `ipv4_address_is_private`, on the bytes in memory
unfoldable pub ipv4_is_private : List ℕ → Bool
ipv4_is_private bytes =
    let addr = ntohl bytes in
    (bit_and addr 0xff000000 == 0x0a000000)
    || (bit_and addr 0xfff00000 == 0xac100000)
    || (bit_and addr 0xffff0000 == 0xc0a80000)
    || (bit_and addr 0xffff0000 == 0xa9fe0000)
    || (bit_and addr 0xff000000 == 0x7f000000)

-- `ipv6_address_is_private`
unfoldable pub ipv6_is_private : List ℕ → Bool
ipv6_is_private addr =
    ((get_or addr 0 0 == 0xfe) && (bit_and (get_or addr 1 0) 0xc0 == 0x80))
    || (get_or addr 0 0 == 0xfd)
    || (bit_and (get_or addr 0 0) 0xfe == 0xfc)
    || bytes_eq addr (replicate 15 0 ++ (1 ∷ []))

-- `nice_address_is_private`
unfoldable pub is_private : NiceAddress → Bool
is_private (ip4 a p) = ipv4_is_private a
is_private (ip6 a p s) = ipv6_is_private a
is_private other = false

-- `nice_address_is_valid`
unfoldable pub is_valid : NiceAddress → Bool
is_valid (ip4 a p) = true
is_valid (ip6 a p s) = true
is_valid other = false

-- `nice_address_ip_version`
unfoldable pub ip_version : NiceAddress → ℕ
ip_version (ip4 a p) = 4
ip_version (ip6 a p s) = 6
ip_version other = 0
