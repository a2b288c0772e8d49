-- ===== src/Stun/Agent/Tests.antt =====
-- The theorems about the STUN agent at concrete inputs, and runs of the code.
use libnice.Base.{
  ℕ, ◌≤◌, ◌≡◌, refl, arith, true, false, none, some, List, [], ◌∷◌, ◌++◌, take, replicate, ok, read,
  write, read_bytes, write_bytes,
}
use libnice.Stun.Types.{StunAgent, StunMessage, SavedId, rfc5389, request, response}
use libnice.Stun.Wire.{getw, setw, class_of, method_of, align, padding, optional}
use libnice.Stun.Message.{message_length, message_id, get_class, get_method, has_cookie, wire_type}
use libnice.Stun.Length.{
  validate_fast, validate_all, walk, finish, check_length, length_field, vector_read, vector_getw,
}
use libnice.Stun.Length
use libnice.Stun.Attribute.{
  find, find_loop, has_attribute, append, append_padding, append_length, append_write,
}
use libnice.Stun.Value.{find32}
use libnice.Stun.Hmac.{Crypto, stun_sha1, sha1_text}
use libnice.Stun.Agent.{
  has_flag, ignore_flag, long_term_credentials, force_validater, find_unknowns, find_unknowns_loop,
  is_unknown,
}
use libnice.Stun.Agent.Finish.{
  free_slot, hashed_length, put_integrity, sign, put_fingerprint, save, remember, complete,
  chosen_key, finish_message, long_term,
}
use libnice.Stun.Agent.Validate.{
  validated, unmatched_response, match_saved, retire, ignores, is_error_of, lacks_credentials,
  ask_key, signed_length, check_hash, check_secret, check_integrity, retired, status_of, settle,
  authorize, match_response, demultiplex, validate,
}
use libnice.Stun.Agent.Saved.{framed, Judged, is_authentic, validate-Judged}
use libnice.Stun.Agent.Once.{waiting, validate_once}
use libnice.Stun.Agent.Signed.{HasHmac, validate-Vouched}
use libnice.Stun.Agent.Remember.{Kept, finish_message-Kept}

-- Hash functions that give the first bytes of what they get.
abbrev crypto : Crypto
crypto = record { hmac_sha1 = λ key text. take 20 (key ++ text); md5 = λ text. take 16 text }

abbrev id : List ℕ
id = 0x21 ∷ 0x12 ∷ 0xa4 ∷ 0x42 ∷ 1 ∷ 2 ∷ 3 ∷ 4 ∷ 5 ∷ 6 ∷ 7 ∷ 8 ∷ 9 ∷ 10 ∷ 11 ∷ 12 ∷ []

abbrev key : List ℕ
key = 7 ∷ 9 ∷ []

abbrev saved : SavedId
saved = record {
  id = id;
  method = 1;
  key = some key;
  long_term_key = [];
  long_term_valid = false;
  valid = true;
}

abbrev with_ids : List SavedId → StunAgent
with_ids ids = record {
  compatibility = rfc5389;
  sent_ids = ids;
  known_attributes = 0x0008 ∷ [];
  usage_flags = 0;
  software_attribute = none;
  ms_ice2_send_legacy_connchecks = false;
}

abbrev agent : StunAgent
agent = with_ids (saved ∷ [])

abbrev agent_after : StunAgent
agent_after = with_ids (record saved { valid = false } ∷ [])

-- A binding response with a MESSAGE-INTEGRITY
abbrev bytes : List ℕ
bytes =
    0x01
    ∷ 0x01
    ∷ 0x00
    ∷ 0x18
    ∷ (id ++ (0x00 ∷ 0x08 ∷ 0x00 ∷ 0x14 ∷ (key ++ (0x01 ∷ 0x01 ∷ 0x00 ∷ 0x18 ∷ take 14 id))))

abbrev message : List ℕ → ℕ → StunMessage
message buffer buffer_len = record {
  agent = none;
  buffer = buffer;
  buffer_len = buffer_len;
  key = none;
  long_term_key = [];
  long_term_valid = false;
}

abbrev empty : StunMessage
empty = message [] 0

abbrev answered : StunMessage
answered = record (framed agent empty bytes 44) { agent = some agent_after; key = some key }

abbrev again : StunMessage
again = framed agent_after empty bytes 44

validate_accepts : validate crypto agent empty bytes 44 none ≡ ok (agent_after, answered, validated)
unfolding validate Length.validate validate_fast validate_all vector_read vector_getw length_field
    check_length walk demultiplex match_response get_class get_method message_id has_cookie getw
    read read_bytes has_flag match_saved authorize ignores is_error_of lacks_credentials
    has_attribute find find_loop message_length wire_type align padding ask_key check_integrity
    check_secret check_hash signed_length stun_sha1 sha1_text settle find32 find_unknowns
    find_unknowns_loop is_unknown status_of retired retire optional class_of method_of
validate_accepts = refl

validate_refuses_again :
    validate crypto agent_after empty bytes 44 none ≡ ok (agent_after, again, unmatched_response)
unfolding validate Length.validate validate_fast validate_all vector_read vector_getw length_field
    check_length walk demultiplex match_response get_class get_method message_id has_cookie getw
    read read_bytes has_flag match_saved authorize ignores is_error_of lacks_credentials
    has_attribute find find_loop message_length wire_type align padding ask_key check_integrity
    check_secret check_hash signed_length stun_sha1 sha1_text settle find32 find_unknowns
    find_unknowns_loop is_unknown status_of retired retire optional class_of method_of
validate_refuses_again = refl

validate-Judged_example :
    Judged agent (framed agent empty bytes 44) (agent_after, answered, validated)
validate-Judged_example =
    validate-Judged crypto agent empty bytes 44 none agent_after answered validated validate_accepts

one_waits : (method : ℕ) (id : List ℕ) → waiting agent.sent_ids method id ≤ 1
unfolding waiting
one_waits method id = ground arith

has_class : get_class (framed agent empty bytes 44) ≡ ok response
unfolding get_class getw read class_of
has_class = refl

has_method : get_method (framed agent empty bytes 44) ≡ ok 1
unfolding get_method getw read method_of
has_method = refl

has_id : message_id (framed agent empty bytes 44) ≡ ok id
unfolding message_id read_bytes read
has_id = refl

validate_once_example : is_authentic unmatched_response ≡ false
validate_once_example =
    validate_once crypto agent empty empty bytes 44 none none agent_after agent_after answered again
      validated unmatched_response response one_waits has_class refl validate_accepts refl
      validate_refuses_again

matched : match_saved agent.sent_ids 1 id ≡ some (0, saved)
unfolding match_saved
matched = refl

no_flags :
    ((has_flag agent ignore_flag ≡ false) × (has_flag agent long_term_credentials ≡ false))
    × (has_flag agent force_validater ≡ false)
unfolding has_flag
no_flags = ((refl, refl), refl)

validate-Vouched_example : HasHmac crypto agent (framed agent empty bytes 44) key
validate-Vouched_example =
    validate-Vouched crypto agent empty bytes 44 none 1 id 0 saved key agent_after answered
      validated no_flags.0.0 no_flags.0.1 no_flags.1 (omega arith) has_class has_method has_id
      matched refl validate_accepts refl

-- A binding request, with room for its MESSAGE-INTEGRITY
abbrev started : StunMessage
started = message (0x00 ∷ 0x01 ∷ 0x00 ∷ 0x00 ∷ (id ++ replicate 24 0)) 44

abbrev idle : StunAgent
idle = with_ids (record saved { valid = false; method = 5; key = none } ∷ [])

abbrev signed : StunMessage
signed =
    record (message
      (0x00
        ∷ 0x01
        ∷ 0x00
        ∷ 0x18
        ∷ (id ++ (0x00 ∷ 0x08 ∷ 0x00 ∷ 0x14 ∷ (key ++ (0x00 ∷ 0x01 ∷ 0x00 ∷ 0x18 ∷ take 14 id)))))
      44) { key = some key }

finish_signs : finish_message crypto idle started (some key) ≡ ok (agent, signed, 44)
unfolding finish_message get_class get_method getw read class_of method_of free_slot chosen_key
    complete sign long_term has_flag put_integrity append append_padding append_length append_write
    wire_type message_length padding align write_bytes setw stun_sha1 sha1_text read_bytes
    hashed_length put_fingerprint remember message_id save write has_cookie
finish_signs = refl

is_request : get_class started ≡ ok request
unfolding get_class getw read class_of
is_request = refl

finish_message-Kept_example : Kept idle (agent, signed, 44)
finish_message-Kept_example =
    finish_message-Kept crypto idle started (some key) agent signed 44 is_request refl finish_signs
