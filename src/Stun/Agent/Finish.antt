-- ===== src/Stun/Agent/Finish.antt =====
-- stun/stunagent.c: `stun_agent_finish_message`, which signs a message and remembers a request.
use libnice.Base.{
  ℕ, zero, suc, ◌-◌, ◌&&◌, ◌||◌, Bool, true, false, not, ◌==◌, if◌then◌else◌, Option, none, some,
  List, [], ◌∷◌, ◌++◌, length, bit_and, Access, ok, ◌>>=◌, read_bytes, write_bytes,
}
use libnice.Stun.Types.{StunAgent, StunMessage, SavedId, request}
use libnice.Stun.Wire.{word_bytes}
use libnice.Stun.Message.{
  message_length, message_id, get_class, get_method, is_oc2007, has_cookie, realm,
}
use libnice.Stun.Attribute.{find, append, message_integrity, fingerprint}
use libnice.Stun.Value.{append_bytes}
use libnice.Stun.Crc.{stun_fingerprint}
use libnice.Stun.Hmac.{Crypto, stun_sha1, stun_hash_creds}
use libnice.Stun.Agent.{
  has_flag, is_msice2, is_modern, is_old, long_term_credentials, use_fingerprint, find_unknowns,
}
use libnice.Stun.Agent.Build.{init_error, is_success}

abbrev pub username : ℕ
username = 0x0006

-- STUN_SEND
abbrev pub stun_send : ℕ
stun_send = 0x004

-- The first saved id that is not valid; `none` when all are.
unfoldable pub free_slot : List SavedId → Option ℕ
free_slot [] = none
free_slot (s ∷ rest) =
    let later = free_slot rest in
    if not s.valid then some zero else (elim later [ none ↦ none | some i ↦ some (suc i) ])

-- The value that `stun_message_find` gives
unfoldable pub value_of : StunMessage → ℕ → Access (Option (List ℕ))
value_of msg type = do
  r ← find msg type
  elim r [
    | none ↦ ok none
    | some (p, len) ↦ do bytes ← read_bytes msg.buffer p len; ok (some bytes)
  ]

-- The message with its long-term key, and whether the message integrity is skipped
unfoldable pub long_term : Crypto → StunAgent → StunMessage → List ℕ → Access (StunMessage × Bool)
long_term crypto agent msg key =
    elim (not msg.long_term_valid && has_flag agent long_term_credentials) [
      | true ↦ do
        r ← value_of msg realm
        u ← value_of msg username
        elim r [
          | none ↦ ok (msg, true)
          | some realm' ↦ elim u [
            | none ↦ ok (msg, true)
            | some username' ↦ do
              md5 ← stun_hash_creds crypto realm' username' key
              ok (record msg { long_term_key = md5; long_term_valid = true }, false)
          ]
        ]
      | false ↦ ok (msg, false)
    ]

-- The length that is hashed for a message of `len` bytes
unfoldable pub hashed_length : StunAgent → ℕ → ℕ
hashed_length agent len =
    if is_msice2 agent.compatibility && has_flag agent use_fingerprint then len - 12 else len - 20

-- MESSAGE-INTEGRITY; `none` when there is no room for it.
unfoldable pub put_integrity :
    Crypto → StunAgent → StunMessage → List ℕ → Access (StunMessage × Bool)
put_integrity crypto agent msg key = do
  (msg', r) ← append msg message_integrity 20
  elim r [
    | none ↦ ok (msg', false)
    | some p ↦ do
      len ← message_length msg'
      sha ←
          stun_sha1 crypto msg'.buffer len (hashed_length agent len)
            (if has_flag agent long_term_credentials then msg'.long_term_key else key)
            (is_old agent.compatibility || is_msice2 agent.compatibility)
      buf ← write_bytes msg'.buffer p sha
      ok (record msg' { buffer = buf }, true)
  ]

-- The part with the key: the message, and false when there is no room
unfoldable pub sign :
    Crypto → StunAgent → StunMessage → Option (List ℕ) → Access (StunMessage × Bool)
sign crypto agent msg none = ok (msg, true)
sign crypto agent msg (some key) = do
  (msg', skip) ← long_term crypto agent msg key
  elim skip [ true ↦ ok (msg', true) | false ↦ put_integrity crypto agent msg' key ]

-- FINGERPRINT; false when there is no room for it.
unfoldable pub put_fingerprint : StunAgent → StunMessage → Access (StunMessage × Bool)
put_fingerprint agent msg = elim (is_modern agent.compatibility && has_flag agent use_fingerprint) [
  | true ↦ do
    (msg', r) ← append msg fingerprint 4
    elim r [
      | none ↦ ok (msg', false)
      | some p ↦ do
        len ← message_length msg'
        fpr ← stun_fingerprint msg'.buffer len false
        buf ← write_bytes msg'.buffer p fpr
        ok (record msg' { buffer = buf }, true)
    ]
  | false ↦ ok (msg, true)
]

-- A saved id in a slot
unfoldable pub save : List SavedId → ℕ → SavedId → List SavedId
save [] i s = []
save (t ∷ rest) zero s = s ∷ rest
save (t ∷ rest) (suc i) s = t ∷ save rest i s

unfoldable pub remember : StunAgent → StunMessage → Option (List ℕ) → Option ℕ → Access StunAgent
remember agent msg key none = ok agent
remember agent msg key (some slot) = do
  id ← message_id msg
  method ← get_method msg
  ok (record agent {
    sent_ids = save agent.sent_ids slot (record {
      id = id;
      method = method;
      key = key;
      long_term_key = msg.long_term_key;
      long_term_valid = msg.long_term_valid;
      valid = true;
    });
  })

-- The end of the function, with the slot if the transaction is to be remembered
unfoldable pub complete :
    Crypto
    → StunAgent
    → StunMessage
    → Option (List ℕ)
    → Option ℕ
    → Access (StunAgent × StunMessage × ℕ)
complete crypto agent msg key slot = do
  (signed, has_room) ← sign crypto agent msg key
  elim has_room [
    | false ↦ ok (agent, signed, 0)
    | true ↦ do
      (printed, has_room') ← put_fingerprint agent signed
      elim has_room' [
        | false ↦ ok (agent, printed, 0)
        | true ↦ do
          agent' ← remember agent printed key slot
          len ← message_length printed
          ok (agent', record printed { key = key }, len)
      ]
  ]

-- The key: the message's own, if it has one
unfoldable pub chosen_key : StunMessage → Option (List ℕ) → Option (List ℕ)
chosen_key msg key = elim msg.key [ none ↦ key | some k ↦ some k ]

-- `stun_agent_finish_message`: the agent, the message and the size that is returned
unfoldable pub finish_message :
    Crypto → StunAgent → StunMessage → Option (List ℕ) → Access (StunAgent × StunMessage × ℕ)
finish_message crypto agent msg key = do
  c ← get_class msg
  m ← get_method msg
  elim ((c == request) && not (is_oc2007 agent.compatibility && (m == stun_send))) [
    | false ↦ complete crypto agent msg (chosen_key msg key) none
    | true ↦ elim (free_slot agent.sent_ids) [
      | none ↦ ok (agent, msg, 0)
      | some slot ↦ complete crypto agent msg (chosen_key msg key) (some slot)
    ]
  ]

-- The types in network order, the first one twice in the old style when their number is odd
unfoldable pub unknown_bytes : List ℕ → List ℕ
unknown_bytes [] = []
unknown_bytes (t ∷ ts) = word_bytes t ++ unknown_bytes ts

unfoldable pub evened : Bool → List ℕ → List ℕ
evened cookie [] = []
evened cookie (t ∷ ts) =
    if not cookie && (bit_and (length (t ∷ ts)) 1 == 1) then (t ∷ ts) ++ (t ∷ []) else t ∷ ts

-- `stun_agent_build_unknown_attributes_error`, where STUN_AGENT_MAX_UNKNOWN_ATTRIBUTES is 256
unfoldable pub build_unknown_attributes_error :
    Crypto
    → List ℕ
    → StunAgent
    → StunMessage
    → List ℕ
    → ℕ
    → StunMessage
    → Access (StunAgent × StunMessage × ℕ)
build_unknown_attributes_error crypto software_name agent msg buffer buffer_len req = do
  ids ← find_unknowns agent req 256
  (msg', begun) ← init_error software_name agent msg buffer buffer_len req 420
  elim begun [
    | false ↦ ok (agent, msg', 0)
    | true ↦ do
      cookie ← has_cookie req
      (full, r) ← append_bytes msg' 0x000A (unknown_bytes (evened cookie ids))
      elim (is_success r) [
        | true ↦ finish_message crypto agent full req.key
        | false ↦ ok (agent, full, 0)
      ]
  ]
