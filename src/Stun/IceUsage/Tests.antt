-- ===== src/Stun/IceUsage/Tests.antt =====
-- The theorems about the messages of connectivity checks at concrete ones.
use libnice.Base.{
  ℕ, ◌≡◌, refl, arith, true, false, not, none, some, List, [], ◌∷◌, ◌++◌, take, ok, read,
  read_bytes,
}
use libnice.Base.Ensures.{Ensures}
use libnice.Stun.Types.{StunAgent, StunMessage, MessageReturn, rfc5389, request}
use libnice.Stun.Wire.{getw, class_of, method_of, align, padding}
use libnice.Stun.Message.{get_class, get_method, message_id, message_length, wire_type}
use libnice.Stun.Attribute.{find, find_loop}
use libnice.Stun.Value.{find64, value64}
use libnice.Stun.Sockaddr.{Sockaddr, inet}
use libnice.Stun.Hmac.{Crypto}
use libnice.Stun.IceUsage.{IceCompatibility, binding, role_attribute, Reply, create_reply}
use libnice.Stun.IceUsage.Conflict.{create_reply-roles, create_reply_aborts}

abbrev crypto : Crypto
crypto = record { hmac_sha1 = λ key text. take 20 (key ++ text); md5 = λ text. take 16 text }

abbrev agent : StunAgent
agent = record {
  compatibility = rfc5389;
  sent_ids = [];
  known_attributes = [];
  usage_flags = 0;
  software_attribute = none;
  ms_ice2_send_legacy_connchecks = false;
}

abbrev id : List ℕ
id = 0x21 ∷ 0x12 ∷ 0xa4 ∷ 0x42 ∷ 1 ∷ 2 ∷ 3 ∷ 4 ∷ 5 ∷ 6 ∷ 7 ∷ 8 ∷ 9 ∷ 10 ∷ 11 ∷ 12 ∷ []

abbrev over : List ℕ → StunMessage
over buffer = record {
  agent = none;
  buffer = buffer;
  buffer_len = 32;
  key = none;
  long_term_key = [];
  long_term_valid = false;
}

-- A binding request with ICE-CONTROLLING and a tie-breaker below 256
abbrev controlling : ℕ → StunMessage
controlling tie = over (
    0x00
    ∷ 0x01
    ∷ 0x00
    ∷ 0x0c
    ∷ (id ++ (0x80 ∷ 0x2a ∷ 0x00 ∷ 0x08 ∷ 0 ∷ 0 ∷ 0 ∷ 0 ∷ 0 ∷ 0 ∷ 0 ∷ tie ∷ [])))

abbrev sender : Sockaddr
sender = inet (0 ∷ 80 ∷ []) (10 ∷ 0 ∷ 0 ∷ 1 ∷ [])

kind_of :
    (tie : ℕ)
    → (get_class (controlling tie) ≡ ok request) × (get_method (controlling tie) ≡ ok binding)
unfolding get_class get_method getw read class_of method_of
kind_of tie = (refl, refl)

ties :
    (find64 (controlling 7) (role_attribute true) ≡ ok (MessageReturn.success, some 7))
    × (find64 (controlling 9) (role_attribute true) ≡ ok (MessageReturn.success, some 9))
    × (find64 (controlling 9) (role_attribute false) ≡ ok (MessageReturn.not_found, none))
unfolding find64 find find_loop message_length wire_type getw read align padding value64 read_bytes
ties = (refl, refl, refl)

create_reply-roles_example :
    Ensures
      (λ r.
        Ensures
          (λ r'. r.control ≡ not r'.control)
          (create_reply crypto [] agent
            (controlling 7)
            (over [])
            []
            0
            sender
            16
            true
            9
            IceCompatibility.rfc5245))
      (create_reply crypto [] agent
        (controlling 9)
        (over [])
        []
        0
        sender
        16
        true
        7
        IceCompatibility.rfc5245)
create_reply-roles_example =
    create_reply-roles crypto crypto [] [] agent agent (controlling 9) (controlling 7) (over [])
      (over []) [] [] 0 0 sender sender 16 16 true 7 9 IceCompatibility.rfc5245
      IceCompatibility.rfc5245 (kind_of 9) (kind_of 7) ties.1 ties.0 (λ e. absurd (omega arith))

id_of : message_id (controlling 9) ≡ ok id
unfolding message_id read_bytes read
id_of = refl

create_reply_aborts_example :
    (r : Reply) × (create_reply crypto [] agent
        (controlling 9)
        (over [])
        []
        0
        sender
        16
        false
        7
        IceCompatibility.rfc5245
      ≡ ok r)
    × (r.status ≡ none)
create_reply_aborts_example =
    create_reply_aborts crypto [] agent (controlling 9) (over []) [] 0 sender 16 false 7
      IceCompatibility.rfc5245 id MessageReturn.not_found (kind_of 9).0 (kind_of 9).1 id_of ties.2
      (omega arith)
