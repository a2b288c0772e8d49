-- ===== src/Stun/Hmac.antt =====
-- stun/stunhmac.c: what is hashed for MESSAGE-INTEGRITY and for long-term credentials. The hash
-- functions are the cryptographic library's; the updates of a hash are its one argument, joined.
use libnice.Base.{
  ℕ, ◌-◌, ◌%◌, Bool, true, false, ◌&&◌, ◌||◌, ltb, ◌==◌, if◌then◌else◌, List, [], ◌∷◌, ◌++◌,
  replicate, Access, ok, out_of_bounds, ◌>>=◌, read_bytes,
}
use libnice.Stun.Wire.{word_bytes}

-- OpenSSL or GnuTLS: HMAC-SHA1 of a key and a text, and MD5 of a text.
pub record Crypto : Type 0 where
  pub hmac_sha1 : List ℕ → List ℕ → List ℕ
  pub md5 : List ℕ → List ℕ

-- What `stun_sha1` hashes, from the message's bytes: its first `len`, with `msg_len` for the length and
-- without the last 24, up to a multiple of 64 with zeros if `padding` is set.
unfoldable pub sha1_text : List ℕ → List ℕ → ℕ → ℕ → Bool → List ℕ
sha1_text first rest len msg_len padding =
    first
    ++ word_bytes msg_len
    ++ rest
    ++ (if padding && ltb 0 ((len - 24) % 64) then replicate (64 - (len - 24) % 64) 0 else [])

-- `stun_sha1`; the assertion on `len` ends the program.
unfoldable pub stun_sha1 : Crypto → List ℕ → ℕ → ℕ → List ℕ → Bool → Access (List ℕ)
stun_sha1 crypto msg len msg_len key padding = elim (ltb len 44) [
  | true ↦ out_of_bounds
  | false ↦ do
    first ← read_bytes msg 0 2
    rest ← read_bytes msg 4 (len - 28)
    ok (crypto.hmac_sha1 key (sha1_text first rest len msg_len padding))
]

-- The loop of `priv_trim_var` over the quotes in front. It does not look at the length: where nothing but
-- quotes stands, it leaves the value.
unfoldable pub trim_front : List ℕ → Access (List ℕ)
trim_front [] = out_of_bounds
trim_front (c ∷ cs) = let rest = trim_front cs in if c == 0x22 then rest else ok (c ∷ cs)

-- The loop over the quotes and zeros at the end, which stops at the byte that the first loop left in
-- front, since that is no quote, unless it is zero.
unfoldable pub trim_back : List ℕ → Access (List ℕ)
trim_back [] = out_of_bounds
trim_back (c ∷ cs) = elim cs [
  | [] ↦ if (c == 0x22) || (c == 0) then out_of_bounds else ok (c ∷ [])
  | _ ↦ elim (trim_back cs) [
    | ok rest ↦ ok (c ∷ rest)
    | _ ↦ if (c == 0x22) || (c == 0) then out_of_bounds else ok (c ∷ [])
  ]
]

-- `priv_trim_var`
unfoldable pub trim_var : List ℕ → Access (List ℕ)
trim_var var = do front ← trim_front var; trim_back front

-- `stun_hash_creds`
unfoldable pub stun_hash_creds : Crypto → List ℕ → List ℕ → List ℕ → Access (List ℕ)
stun_hash_creds crypto realm username password = do
  username' ← trim_var username
  password' ← trim_var password
  realm' ← trim_var realm
  ok (crypto.md5 (username' ++ (0x3a ∷ []) ++ realm' ++ (0x3a ∷ []) ++ password'))
