-- ===== src/Stun/Types.antt =====
-- The types and constants of stun/stunmessage.h, stun/stunagent.h and stun/constants.h.
use libnice.Base.{ℕ, Bool, Option, List}

-- The methods and classes are numbers on the wire.
abbrev pub request : ℕ
request = 0

abbrev pub indication : ℕ
indication = 1

abbrev pub response : ℕ
response = 2

abbrev pub error : ℕ
error = 3

-- WLM2009 is another name of MSICE2.
pub data Compatibility : Type 0 where
  rfc3489 rfc5389 msice2 oc2007 : Compatibility

pub data MessageReturn : Type 0 where
  success not_found invalid not_enough_space unsupported_address : MessageReturn

-- `StunAgentSavedIds`
pub record SavedId : Type 0 where
  pub id : List ℕ
  pub method : ℕ
  pub key : Option (List ℕ)
  pub long_term_key : List ℕ
  pub long_term_valid : Bool
  pub valid : Bool

pub record StunAgent : Type 0 where
  pub compatibility : Compatibility
  pub sent_ids : List SavedId
  pub known_attributes : List ℕ
  pub usage_flags : ℕ
  pub software_attribute : Option (List ℕ)
  pub ms_ice2_send_legacy_connchecks : Bool

-- `StunMessage`: `buffer` holds the bytes that the pointer gives access to. A key and its length
-- are one list.
pub record StunMessage : Type 0 where
  pub agent : Option StunAgent
  pub buffer : List ℕ
  pub buffer_len : ℕ
  pub key : Option (List ℕ)
  pub long_term_key : List ℕ
  pub long_term_valid : Bool
