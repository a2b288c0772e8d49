-- ===== src/Stun/Agent/Build.antt =====
-- stun/stunagent.c: the messages that an agent begins, and stun/stun5389.c,
-- `stun_message_append_software`. The random transaction id is an argument.
use libnice.Base.{
  ℕ, zero, suc, ◌+◌, ◌&&◌, ◌||◌, Bool, true, false, ltb, ◌==◌, if◌then◌else◌, Option, none, some,
  List, [], ◌∷◌, ◌++◌, take, Access, ok, ◌>>=◌, read, write_bytes,
}
use libnice.Stun.Types.{
  StunAgent, StunMessage, MessageReturn, success, not_found, invalid, not_enough_space,
  unsupported_address, request, indication, response, error,
}
use libnice.Stun.Message.{init, magic_cookie, message_id, get_class, get_method}
use libnice.Stun.Value.{append_bytes, append_error}
use libnice.Stun.Strerror.{strerror}
use libnice.Stun.Agent.{is_modern, has_flag, add_software}

-- PACKAGE_STRING, which the build gives, is an argument of what uses it.
-- `utf8_skip_data`
unfoldable pub utf8_skip : ℕ → ℕ
utf8_skip c =
    if ltb c 192
    then 1
    else if ltb c 224
    then 2
    else if ltb c 240
    then 3
    else if ltb c 248
    then 4
    else if ltb c 252
    then 5
    else if ltb c 254
    then 6
    else 1

-- The loop of `stun_message_append_software` from the index `p` of the text, zero included, with
-- `left` characters to go.
unfoldable pub software_end : List ℕ → ℕ → ℕ → Access ℕ
software_end text p zero = ok p
software_end text p (suc left) = do
  c ← read text p
  elim (c == 0) [ true ↦ ok p | false ↦ software_end text (p + utf8_skip c) left ]

-- `stun_message_append_software`. A text whose last character is cut short makes the loop read
-- behind its final zero.
unfoldable pub append_software :
    List ℕ → StunMessage → Option (List ℕ) → Access (StunMessage × MessageReturn)
append_software software_name msg software =
    let text : List ℕ = (elim software [ none ↦ software_name | some s ↦ s ]) in
    do
      p ← software_end (text ++ (0 ∷ [])) 0 128
      append_bytes msg 0x8022 (take p (text ++ (0 ∷ [])))

-- The message that the `stun_agent_init_*` functions set up
unfoldable pub blank : StunAgent → StunMessage → List ℕ → ℕ → StunMessage
blank agent msg buffer buffer_len = record msg {
  buffer = buffer;
  buffer_len = buffer_len;
  agent = some agent;
  key = none;
  long_term_valid = false;
}

-- The cookie over the first four bytes of the id
unfoldable pub put_cookie : StunAgent → StunMessage → Access StunMessage
put_cookie agent msg = elim (is_modern agent.compatibility) [
  | true ↦ do buf ← write_bytes msg.buffer 4 magic_cookie; ok (record msg { buffer = buf })
  | false ↦ ok msg
]

-- SOFTWARE, whether or not there is room for it
unfoldable pub put_software : List ℕ → StunAgent → StunMessage → Access StunMessage
put_software software_name agent msg =
    elim (is_modern agent.compatibility
      && ((elim agent.software_attribute [ none ↦ false | some s ↦ true ])
          || has_flag agent add_software)) [
            | true ↦ do
              (msg', r) ← append_software software_name msg agent.software_attribute
              ok msg'
            | false ↦ ok msg
          ]

-- `stun_agent_init_request`
unfoldable pub init_request :
    List ℕ → StunAgent → StunMessage → List ℕ → ℕ → ℕ → List ℕ → Access (StunMessage × Bool)
init_request software_name agent msg buffer buffer_len m id = do
  (msg', ret) ← init (blank agent msg buffer buffer_len) request m id
  elim ret [
    | true ↦ do
      with_cookie ← put_cookie agent msg'
      full ← put_software software_name agent with_cookie
      ok (full, true)
    | false ↦ ok (msg', false)
  ]

-- `stun_agent_init_indication`
unfoldable pub init_indication :
    StunAgent → StunMessage → List ℕ → ℕ → ℕ → List ℕ → Access (StunMessage × Bool)
init_indication agent msg buffer buffer_len m id = do
  (msg', ret) ← init (blank agent msg buffer buffer_len) indication m id
  elim ret [ true ↦ do full ← put_cookie agent msg'; ok (full, true) | false ↦ ok (msg', false) ]

-- The start of a response of a class to a request, with the request's keys, method and id
unfoldable pub begin_reply :
    List ℕ → StunAgent → StunMessage → List ℕ → ℕ → StunMessage → ℕ → Access (StunMessage × Bool)
begin_reply software_name agent msg buffer buffer_len req c = do
  id ← message_id req
  m ← get_method req
  (msg', ret) ←
      init
        (record {
          agent = some agent;
          buffer = buffer;
          buffer_len = buffer_len;
          key = req.key;
          long_term_key = req.long_term_key;
          long_term_valid = req.long_term_valid;
        })
        c m id
  elim ret [
    | true ↦ do full ← put_software software_name agent msg'; ok (full, true)
    | false ↦ ok (msg', false)
  ]

-- `stun_agent_init_response`
unfoldable pub init_response :
    List ℕ → StunAgent → StunMessage → List ℕ → ℕ → StunMessage → Access (StunMessage × Bool)
init_response software_name agent msg buffer buffer_len req = do
  c ← get_class req
  elim (c == request) [
    | true ↦ begin_reply software_name agent msg buffer buffer_len req response
    | false ↦ ok (msg, false)
  ]

abbrev pub is_success : MessageReturn → Bool
is_success success = true
is_success not_found = false
is_success invalid = false
is_success not_enough_space = false
is_success unsupported_address = false

-- `stun_agent_init_error`
unfoldable pub init_error :
    List ℕ → StunAgent → StunMessage → List ℕ → ℕ → StunMessage → ℕ → Access (StunMessage × Bool)
init_error software_name agent msg buffer buffer_len req err = do
  c ← get_class req
  elim (c == request) [
    | true ↦ do
      (msg', begun) ← begin_reply software_name agent msg buffer buffer_len req error
      elim begun [
        | true ↦ do (full, r) ← append_error msg' err (strerror err); ok (full, is_success r)
        | false ↦ ok (msg', false)
      ]
    | false ↦ ok (msg, false)
  ]
