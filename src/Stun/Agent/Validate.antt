-- ===== src/Stun/Agent/Validate.antt =====
-- stun/stunagent.c: `stun_agent_validate`. The callback that knows the passwords is an argument: it
-- gets the agent, the message and the user name, and gives the key or refuses. What the function stores
-- through `agent` and `msg` is returned beside the status.
use libnice.Base.{
  ℕ, zero, suc, ◌+◌, ◌-◌, ◌^◌, ◌&&◌, ◌||◌, Bool, true, false, not, ltb, ◌==◌, if◌then◌else◌, Option,
  none, some, List, [], ◌∷◌, length, bytes_eq, Access, ok, ◌>>=◌, read_bytes,
}
use libnice.Stun.Types.{StunAgent, StunMessage, SavedId, request, indication, response, error}
use libnice.Stun.Length.{Verdict, valid, incomplete, invalid}
use libnice.Stun.Length
use libnice.Stun.Message.{
  message_length, message_id, get_class, get_method, has_cookie, realm, nonce,
}
use libnice.Stun.Attribute.{find, has_attribute, message_integrity, fingerprint}
use libnice.Stun.Value.{find32, find_error, htonl}
use libnice.Stun.Crc.{stun_fingerprint}
use libnice.Stun.Hmac.{Crypto, stun_sha1, stun_hash_creds}
use libnice.Stun.Agent.{
  has_flag, is_msice2, is_modern, is_old, long_term_credentials, short_term_credentials,
  ignore_flag, no_indication_auth, force_validater, no_aligned_attributes, use_fingerprint,
  find_unknowns,
}
use libnice.Stun.Agent.Build.{is_success}
use libnice.Stun.Agent.Finish.{username, value_of}

-- `StunValidationStatus`
pub data ValidationStatus : Type 0 where
  validated not_stun incomplete_stun bad_request unauthorized_bad_request unauthorized :
      ValidationStatus
  unmatched_response unknown_request_attribute unknown_attribute : ValidationStatus

-- `StunMessageIntegrityValidate`: FALSE is `none`; the user name may be missing, and the key that it
-- sets may be null.
abbrev pub Validater : Type 0
Validater = StunAgent → StunMessage → Option (List ℕ) → Option (Option (List ℕ))

-- STUN_ATTRIBUTE_MS_IMPLEMENTATION_VERSION
abbrev pub ms_implementation_version : ℕ
ms_implementation_version = 0x8070

-- `stun_agent_check_fingerprint`: `ntohl` of the value read is compared with `htonl` of the sum, byte by
-- byte the value's own bytes with those of the sum.
unfoldable pub check_fingerprint : StunAgent → StunMessage → Access Bool
check_fingerprint agent msg = do
  (status, value) ← find32 msg fingerprint
  elim value [
    | none ↦ ok false
    | some fpr ↦ do
      len ← message_length msg
      crc ← stun_fingerprint msg.buffer len false
      elim (bytes_eq (htonl fpr) crc) [
        | true ↦ ok true
        | false ↦ elim (is_msice2 agent.compatibility) [
          | false ↦ ok false
          | true ↦ do
            has_version ← has_attribute msg ms_implementation_version
            legacy ← stun_fingerprint msg.buffer len true
            ok (not has_version && bytes_eq (htonl fpr) legacy)
        ]
      ]
  ]

-- The index of the saved id that the loop stops at, and the saved id
unfoldable pub match_saved : List SavedId → ℕ → List ℕ → Option (ℕ × SavedId)
match_saved [] method id = none
match_saved (s ∷ rest) method id =
    let later = match_saved rest method id in
    if s.valid && (s.method == method) && bytes_eq id s.id
    then some (zero, s)
    else (elim later [ none ↦ none | some (i, t) ↦ some (suc i, t) ])

-- The saved id `i` is made invalid.
unfoldable pub retire : List SavedId → ℕ → List SavedId
retire [] i = []
retire (s ∷ rest) zero = record s { valid = false } ∷ rest
retire (s ∷ rest) (suc i) = s ∷ retire rest i

-- `stun_message_find_error` succeeds with one of the codes.
unfoldable pub among : List ℕ → Option ℕ → Bool
among codes none = false
among [] (some code) = false
among (c ∷ codes) (some code) = (code == c) || among codes (some code)

unfoldable pub is_error_of : StunMessage → ℕ → List ℕ → Access Bool
is_error_of msg class codes = elim (class == error) [
  | true ↦ do (status, code) ← find_error msg; ok (among codes code)
  | false ↦ ok false
]

-- `ignore_credentials`
unfoldable pub ignores : StunAgent → StunMessage → ℕ → Access Bool
ignores agent msg class = do
  excused ← is_error_of msg class (400 ∷ 401 ∷ 438 ∷ 300 ∷ [])
  ok (
      has_flag agent ignore_flag
      || excused
      || ((class == indication)
          && (has_flag agent long_term_credentials || has_flag agent no_indication_auth)))

-- The credentials that a request or an indication must have are missing. The searches, which change
-- nothing, are made whether or not a test needs them.
unfoldable pub lacks_credentials : StunAgent → StunMessage → ℕ → Access Bool
lacks_credentials agent msg class = do
  u ← has_attribute msg username
  mi ← has_attribute msg message_integrity
  n ← has_attribute msg nonce
  r ← has_attribute msg realm
  ok (
      ((class == request) || (class == indication))
      && ((has_flag agent short_term_credentials && (not u || not mi))
          || (has_flag agent long_term_credentials
              && (class == request)
              && (not u || not mi || not n || not r))
          || (not (has_flag agent ignore_flag) && u && not mi)))

-- The key after the callback, if it is called; `none` when the message is unauthorized.
unfoldable pub ask_key :
    StunAgent
    → StunMessage
    → Option Validater
    → Bool
    → Option (List ℕ)
    → Access (Option (Option (List ℕ)))
ask_key agent msg validater ignore key = do
  mi ← has_attribute msg message_integrity
  elim (mi
      && (((elim key [ none ↦ true | some k ↦ false ]) && not ignore)
          || has_flag agent force_validater)) [
            | false ↦ ok (some key)
            | true ↦ do
              name ← value_of msg username
              ok (elim validater [ none ↦ none | some ask ↦ ask agent msg name ])
          ]

-- What the check of MESSAGE-INTEGRITY leaves: the message, accepted or not
pub data Checked : Type 0 where
  accepted refused : StunMessage → Checked

-- The long-term key; `none` when it cannot be made.
unfoldable pub long_term_md5 :
    Crypto → StunMessage → List ℕ → Option (List ℕ) → Access (Option (List ℕ))
long_term_md5 crypto msg key (some saved) = ok (some saved)
long_term_md5 crypto msg key none = do
  r ← value_of msg realm
  u ← value_of msg username
  elim r [
    | none ↦ ok none
    | some realm' ↦ elim u [
      | none ↦ ok none
      | some name ↦ do md5 ← stun_hash_creds crypto realm' name key; ok (some md5)
    ]
  ]

-- The length that is hashed, for a MESSAGE-INTEGRITY whose value stands at index `p`
unfoldable pub signed_length : StunAgent → StunMessage → ℕ → Access ℕ
signed_length agent msg p = elim (is_msice2 agent.compatibility) [
  | true ↦ do len ← message_length msg; ok (len + 2 ^ 64 - 20)
  | false ↦ ok p
]

-- The 20 bytes at index `p` against the hash, with the key `secret`. The length of the attribute is not
-- looked at.
unfoldable pub check_hash : Crypto → StunAgent → StunMessage → ℕ → List ℕ → List ℕ → Access Checked
check_hash crypto agent msg p secret key = do
  signed ← signed_length agent msg p
  sha ←
      stun_sha1 crypto msg.buffer (p + 20) signed secret
        (is_old agent.compatibility || is_msice2 agent.compatibility)
  hash ← read_bytes msg.buffer p 20
  ok (if bytes_eq sha hash then accepted (record msg { key = some key }) else refused msg)

unfoldable pub check_secret :
    Crypto → StunAgent → StunMessage → ℕ → List ℕ → Option (List ℕ) → Access Checked
check_secret crypto agent msg p key saved = elim (has_flag agent long_term_credentials) [
  | true ↦ do
    md5 ← long_term_md5 crypto msg key saved
    elim md5 [
      | none ↦ ok (refused msg)
      | some secret ↦
          check_hash crypto agent (record msg { long_term_key = secret; long_term_valid = true }) p
            secret key
    ]
  | false ↦ check_hash crypto agent msg p key key
]

-- The check of MESSAGE-INTEGRITY, when there is a key that is not empty
unfoldable pub check_integrity :
    Crypto → StunAgent → StunMessage → ℕ → Bool → Option (List ℕ) → Option (List ℕ) → Access Checked
check_integrity crypto agent msg class ignore none saved = ok (accepted msg)
check_integrity crypto agent msg class ignore (some key) saved =
    elim (not ignore && ltb 0 (length key)) [
      | false ↦ ok (accepted msg)
      | true ↦ do
        r ← find msg message_integrity
        elim r [
          | some (p, len) ↦ check_secret crypto agent msg p key saved
          | none ↦ do
            excused ← is_error_of msg class (400 ∷ 401 ∷ [])
            ok (if excused then accepted msg else refused msg)
        ]
    ]

-- The saved ids without the matched one, if one was matched
unfoldable pub retired : List SavedId → Option ℕ → List SavedId
retired ids none = ids
retired ids (some i) = retire ids i

unfoldable pub status_of : ℕ → List ℕ → ValidationStatus
status_of class [] = validated
status_of class (t ∷ ts) = if class == request then unknown_request_attribute else unknown_attribute

-- What follows once the message is authorized; `index` is the matched saved id.
unfoldable pub settle :
    StunAgent → StunMessage → ℕ → Option ℕ → Access (StunAgent × StunMessage × ValidationStatus)
settle agent msg class index = do
  (status, version) ← find32 msg ms_implementation_version
  unknowns ← find_unknowns agent msg 1
  let agent' : StunAgent = record agent {
    sent_ids = retired agent.sent_ids index;
    ms_ice2_send_legacy_connchecks =
        agent.ms_ice2_send_legacy_connchecks && not (is_success status);
  }
  ok (agent', record msg { agent = some agent' }, status_of class unknowns)

-- The checks of the credentials, for a key and a long-term key that a saved id gave
unfoldable pub authorize :
    Crypto
    → StunAgent
    → StunMessage
    → Option Validater
    → ℕ
    → Option ℕ
    → Option (List ℕ)
    → Option (List ℕ)
    → Access (StunAgent × StunMessage × ValidationStatus)
authorize crypto agent msg validater class index key saved = do
  ignore ← ignores agent msg class
  lacks ← lacks_credentials agent msg class
  elim ((elim key [ none ↦ true | some k ↦ false ]) && not ignore && lacks) [
    | true ↦ ok (agent, msg, unauthorized_bad_request)
    | false ↦ do
      asked ← ask_key agent msg validater ignore key
      elim asked [
        | none ↦ ok (agent, msg, unauthorized)
        | some key' ↦ do
          checked ← check_integrity crypto agent msg class ignore key' saved
          elim checked [
            | refused msg' ↦ ok (agent, msg', unauthorized)
            | accepted msg' ↦ settle agent msg' class index
          ]
      ]
  ]

-- A response or an error
abbrev pub is_reply : ℕ → Bool
is_reply class = (class == response) || (class == error)

-- The match of a response with a saved id
unfoldable pub match_response :
    Crypto
    → StunAgent
    → StunMessage
    → Option Validater
    → Access (StunAgent × StunMessage × ValidationStatus)
match_response crypto agent msg validater = do
  class ← get_class msg
  method ← get_method msg
  id ← message_id msg
  elim (is_reply class) [
    | false ↦ authorize crypto agent msg validater class none none none
    | true ↦ elim (match_saved agent.sent_ids method id) [
      | none ↦ ok (agent, msg, unmatched_response)
      | some (i, saved) ↦
          authorize crypto agent msg validater class (some i) saved.key
            (if saved.long_term_valid then some saved.long_term_key else none)
    ]
  ]

-- The cookie and the fingerprint
unfoldable pub demultiplex :
    Crypto
    → StunAgent
    → StunMessage
    → Option Validater
    → Access (StunAgent × StunMessage × ValidationStatus)
demultiplex crypto agent msg validater = elim (is_modern agent.compatibility) [
  | false ↦ match_response crypto agent msg validater
  | true ↦ do
    cookie ← has_cookie msg
    elim cookie [
      | false ↦ ok (agent, msg, bad_request)
      | true ↦ elim (has_flag agent use_fingerprint) [
        | false ↦ match_response crypto agent msg validater
        | true ↦ do
          printed ← check_fingerprint agent msg
          elim printed [
            | false ↦ ok (agent, msg, bad_request)
            | true ↦ match_response crypto agent msg validater
          ]
      ]
    ]
]

-- `stun_agent_validate`, for a buffer of a size that an `int` holds
unfoldable pub validate :
    Crypto
    → StunAgent
    → StunMessage
    → List ℕ
    → ℕ
    → Option Validater
    → Access (StunAgent × StunMessage × ValidationStatus)
validate crypto agent msg buffer buffer_len validater = do
  len ← Length.validate buffer buffer_len (not (has_flag agent no_aligned_attributes))
  elim len [
    | invalid ↦ ok (agent, msg, not_stun)
    | incomplete ↦ ok (agent, msg, incomplete_stun)
    | valid n ↦ elim (n == buffer_len) [
      | false ↦ ok (agent, msg, not_stun)
      | true ↦
          demultiplex crypto agent
            (record msg {
              buffer = buffer;
              buffer_len = buffer_len;
              agent = some agent;
              key = none;
              long_term_valid = false;
            })
            validater
    ]
  ]
