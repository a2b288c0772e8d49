-- ===== src/Stun/IceUsage.antt =====
-- stun/usages/ice.c: the messages of connectivity checks. A failing `assert` ends the program: the status of a
-- reply is then `none`.
pub mod Conflict
mod Tests
use libnice.Base.{
  ℕ, ◌+◌, ◌-◌, ◌%◌, Bool, true, false, not, ◌&&◌, ◌||◌, ltb, ◌==◌, if◌then◌else◌, Option, none,
  some, List, [], ◌∷◌, ◌++◌, length, take, replicate, Access, ok, ◌>>=◌,
}
use libnice.Stun.Types.{StunAgent, StunMessage, MessageReturn, request, indication, response}
use libnice.Stun.Message.{get_class, get_method, message_id, has_cookie}
use libnice.Stun.Value.{
  find_flag, find32, find64, find_error, append_flag, append32, append64, append_bytes, ntohl,
}
use libnice.Stun.Sockaddr.{
  Sockaddr, Found, find_addr, find_xor_addr, find_xor_addr_full, append_addr, append_xor_addr,
  append_xor_addr_full,
}
use libnice.Stun.Hmac.{Crypto}
use libnice.Stun.Agent.Build.{init_request, init_response, init_error}
use libnice.Stun.Agent.Finish.{username, value_of, finish_message}
use libnice.Stun.Agent.Validate.{ms_implementation_version}

-- `StunUsageIceCompatibility`
pub data IceCompatibility : Type 0 where
  rfc5245 google msn msice2 : IceCompatibility

-- `StunUsageIceReturn`
pub data IceReturn : Type 0 where
  success error invalid role_conflict invalid_request invalid_method : IceReturn
  memory_error invalid_address no_mapped_address : IceReturn

abbrev pub binding : ℕ
binding = 0x001

abbrev pub bad_request : ℕ
bad_request = 400

abbrev pub role_conflict_error : ℕ
role_conflict_error = 487

abbrev pub mapped_address : ℕ
mapped_address = 0x0001

abbrev pub xor_mapped_address : ℕ
xor_mapped_address = 0x0020

abbrev pub priority_type : ℕ
priority_type = 0x0024

abbrev pub use_candidate : ℕ
use_candidate = 0x0025

abbrev pub ice_controlled : ℕ
ice_controlled = 0x8029

abbrev pub ice_controlling : ℕ
ice_controlling = 0x802A

abbrev pub candidate_identifier : ℕ
candidate_identifier = 0x8054

-- RFC5245 or MSICE2, which have the attributes of the role
abbrev pub has_roles : IceCompatibility → Bool
has_roles c = elim c [ rfc5245 ↦ true | msice2 ↦ true | google ↦ false | msn ↦ false ]

abbrev pub is_msn : IceCompatibility → Bool
is_msn c = elim c [ msn ↦ true | _ ↦ false ]

abbrev pub is_google : IceCompatibility → Bool
is_google c = elim c [ google ↦ true | _ ↦ false ]

abbrev pub is_ms_ice2 : IceCompatibility → Bool
is_ms_ice2 c = elim c [ msice2 ↦ true | _ ↦ false ]

abbrev pub role_attribute : Bool → ℕ
role_attribute controlling = if controlling then ice_controlling else ice_controlled

-- The next step is taken if an append succeeded; else the result is given.
abbrev pub if_appended :
    {A : Type 0}
    → StunMessage × MessageReturn
    → (StunMessage → MessageReturn → Access A)
    → (StunMessage → Access A)
    → Access A
if_appended (msg, MessageReturn.success) failed next = next msg
if_appended (msg, MessageReturn.not_found) failed next = failed msg MessageReturn.not_found
if_appended (msg, MessageReturn.invalid) failed next = failed msg MessageReturn.invalid
if_appended (msg, MessageReturn.not_enough_space) failed next =
    failed msg MessageReturn.not_enough_space
if_appended (msg, MessageReturn.unsupported_address) failed next =
    failed msg MessageReturn.unsupported_address

-- What `append` makes of a message, or `append_if` without the condition
abbrev pub append_if :
    Bool
    → (StunMessage → Access (StunMessage × MessageReturn))
    → StunMessage
    → Access (StunMessage × MessageReturn)
append_if b append msg = if b then append msg else ok (msg, MessageReturn.success)

-- The identifier of a candidate, filled up to words
abbrev pub padded_identifier : List ℕ → List ℕ
padded_identifier text =
    text ++ (if length text % 4 == 0 then [] else replicate (4 - length text % 4) 0)

-- `stun_usage_ice_conncheck_create`: the agent, the message and the size, or 0
unfoldable pub conncheck_create :
    Crypto
    → List ℕ
    → StunAgent
    → StunMessage
    → List ℕ
    → ℕ
    → List ℕ
    → Option (List ℕ)
    → Option (List ℕ)
    → Bool
    → Bool
    → ℕ
    → ℕ
    → Option (List ℕ)
    → IceCompatibility
    → Access (StunAgent × StunMessage × ℕ)
conncheck_create crypto software_name agent msg buffer buffer_len id user password cand_use
      controlling prio tie identifier compatibility =
    do
      (started, _) ← init_request software_name agent msg buffer buffer_len binding id
      let fails = λ (m : StunMessage) (val : MessageReturn). ok (agent, m, 0)
      flagged ←
          append_if (has_roles compatibility && cand_use) (λ m. append_flag m use_candidate) started
      if_appended flagged fails (λ m1. do
        ranked ← append_if (has_roles compatibility) (λ m. append32 m priority_type prio) m1
        if_appended ranked fails (λ m2. do
          tied ←
              append_if (has_roles compatibility) (λ m. append64 m (role_attribute controlling) tie)
                m2
          if_appended tied fails (λ m3. do
            named ← elim user [
              | none ↦ ok (m3, MessageReturn.success)
              | some name ↦ append_if (ltb 0 (length name)) (λ m. append_bytes m username name) m3
            ]
            if_appended named fails (λ m4. elim identifier [
              | none ↦ finish_message crypto agent m4 password
              | some text ↦ do
                identified ←
                    append_if (is_ms_ice2 compatibility)
                      (λ m. append_bytes m candidate_identifier (padded_identifier text)) m4
                if_appended identified fails (λ m5. do
                  versioned ←
                      append_if (is_ms_ice2 compatibility)
                        (λ m. append32 m ms_implementation_version 2) m5
                  if_appended versioned fails (λ m6. finish_message crypto agent m6 password))
            ]))))

-- The mapped address of a response, and else MAPPED-ADDRESS
unfoldable pub process_address :
    StunMessage → ℕ → IceCompatibility → Access (IceReturn × Option Sockaddr)
process_address msg addrlen compatibility = do
  id ← message_id msg
  found ←
      (if is_msn compatibility
        then find_xor_addr_full msg xor_mapped_address addrlen (ntohl (take 4 id))
        else find_xor_addr msg xor_mapped_address addrlen)
  elim found.status [
    | MessageReturn.success ↦ ok (success, found.addr)
    | _ ↦ do
      plain ← find_addr msg mapped_address found.addrlen
      ok (elim plain.status [
        | MessageReturn.success ↦ (success, plain.addr)
        | _ ↦ (no_mapped_address, none)
      ])
  ]

-- `stun_usage_ice_conncheck_process`, with the address if it is found
unfoldable pub conncheck_process :
    StunMessage → ℕ → IceCompatibility → Access (IceReturn × Option Sockaddr)
conncheck_process msg addrlen compatibility = do
  m ← get_method msg
  elim (m == binding) [
    | false ↦ ok (invalid, none)
    | true ↦ do
      c ← get_class msg
      if (c == request) || (c == indication) then ok (invalid, none) else elim (c == response) [
        | true ↦ process_address msg addrlen compatibility
        | false ↦ do
          (val, code) ← find_error msg
          ok (elim val [
            | MessageReturn.success ↦ elim code [
              | some n ↦ if n == role_conflict_error then (role_conflict, none) else (error, none)
              | none ↦ (error, none)
            ]
            | _ ↦ (invalid, none)
          ])
      ]
  ]

-- `stun_bind_error`: the agent, the message and `*plen`
unfoldable pub bind_error :
    Crypto
    → List ℕ
    → StunAgent
    → StunMessage
    → List ℕ
    → ℕ
    → StunMessage
    → ℕ
    → Access (StunAgent × StunMessage × ℕ)
bind_error crypto software_name agent msg buf len req code = do
  (begun, val) ← init_error software_name agent msg buf len req code
  elim val [ false ↦ ok (agent, begun, 0) | true ↦ finish_message crypto agent begun none ]

-- What `stun_usage_ice_conncheck_create_reply` leaves: `control` and `plen` are its `*control` and `*plen`
pub record Reply : Type 0 where
  pub agent : StunAgent
  pub msg : StunMessage
  pub status : Option IceReturn
  pub plen : ℕ
  pub control : Bool

-- The `switch` behind `failure`
unfoldable pub failure : MessageReturn → Option IceReturn
failure MessageReturn.not_enough_space = some memory_error
failure MessageReturn.invalid = some invalid_address
failure MessageReturn.unsupported_address = some invalid_address
failure MessageReturn.success = none
failure MessageReturn.not_found = some error

unfoldable pub give_up : StunAgent → Bool → StunMessage → MessageReturn → Access Reply
give_up agent control m val =
    ok (record { agent = agent; msg = m; status = failure val; plen = 0; control = control })

-- The address of the sender, in the form of the compatibility
unfoldable pub append_mapped :
    StunMessage → Sockaddr → ℕ → IceCompatibility → Access (StunMessage × MessageReturn)
append_mapped msg src srclen compatibility = do
  id ← message_id msg
  cookie ← has_cookie msg
  if is_msn compatibility
      then append_xor_addr_full msg xor_mapped_address src srclen (ntohl (take 4 id))
      else if cookie && not (is_google compatibility)
      then append_xor_addr msg xor_mapped_address src srclen
      else append_addr msg mapped_address src srclen

-- The user name of the request, if it has one
abbrev pub append_name : StunMessage → Option (List ℕ) → Access (StunMessage × MessageReturn)
append_name msg none = ok (msg, MessageReturn.success)
append_name msg (some name) = append_bytes msg username name

-- The response, behind the handling of a role conflict
unfoldable pub respond :
    Crypto
    → List ℕ
    → StunAgent
    → StunMessage
    → StunMessage
    → List ℕ
    → ℕ
    → Sockaddr
    → ℕ
    → IceCompatibility
    → Bool
    → IceReturn
    → Access Reply
respond crypto software_name agent req msg buf len src srclen compatibility control ret = do
  (begun, val) ← init_response software_name agent msg buf len req
  let fails = give_up agent control
  elim val [
    | false ↦ fails begun MessageReturn.success
    | true ↦ do
      mapped ← append_mapped begun src srclen compatibility
      if_appended mapped fails (λ m1. do
        name ← value_of req username
        copied ← append_name m1 name
        if_appended copied fails (λ m2. do
          versioned ←
              append_if (is_ms_ice2 compatibility) (λ m. append32 m ms_implementation_version 2) m2
          if_appended versioned fails (λ m3. do
            (agent', finished, n) ← finish_message crypto agent m3 none
            if n == 0
                then fails finished MessageReturn.success
                else ok (record {
                  agent = agent';
                  msg = finished;
                  status = some ret;
                  plen = n;
                  control = control;
                }))))
  ]

-- A reply with an error
unfoldable pub refuse :
    Crypto
    → List ℕ
    → StunAgent
    → StunMessage
    → StunMessage
    → List ℕ
    → ℕ
    → ℕ
    → Bool
    → IceReturn
    → Access Reply
refuse crypto software_name agent req msg buf len code control ret = do
  (agent', sent, n) ← bind_error crypto software_name agent msg buf len req code
  ok (record { agent = agent'; msg = sent; status = some ret; plen = n; control = control })

-- The agent changes its role for a request with the tie-breaker `q` in the same role.
unfoldable pub switches : ℕ → ℕ → Bool → Bool
switches tie q control = (ltb tie q && control) || (not (ltb tie q) && not control)

-- `stun_usage_ice_conncheck_create_reply`, without the second search, for the attribute of the other role, whose
-- result is only printed
unfoldable pub create_reply :
    Crypto
    → List ℕ
    → StunAgent
    → StunMessage
    → StunMessage
    → List ℕ
    → ℕ
    → Sockaddr
    → ℕ
    → Bool
    → ℕ
    → IceCompatibility
    → Access Reply
create_reply crypto software_name agent req msg buf len src srclen control tie compatibility = do
  c ← get_class req
  elim (c == request) [
    | false ↦ ok (record {
      agent = agent;
      msg = msg;
      status = some invalid_request;
      plen = 0;
      control = control;
    })
    | true ↦ do
      m ← get_method req
      elim (m == binding) [
        | false ↦
            refuse crypto software_name agent req msg buf len bad_request control invalid_method
        | true ↦ do
          (val, q) ← find64 req (role_attribute control)
          elim q [
            | none ↦
                respond crypto software_name agent req msg buf len src srclen compatibility control
                  success
            | some other ↦
                if switches tie other control
                then respond crypto software_name agent req msg buf len src srclen compatibility
                    (not control) role_conflict
                else refuse crypto software_name agent req msg buf len role_conflict_error control
                    role_conflict
          ]
      ]
  ]

-- `stun_usage_ice_conncheck_priority`
unfoldable pub conncheck_priority : StunMessage → Access ℕ
conncheck_priority msg = do
  (val, value) ← find32 msg priority_type
  ok (elim value [ none ↦ 0 | some v ↦ v ])

-- `stun_usage_ice_conncheck_use_candidate`
unfoldable pub conncheck_use_candidate : StunMessage → Access Bool
conncheck_use_candidate msg = do
  val ← find_flag msg use_candidate
  ok (elim val [ MessageReturn.success ↦ true | _ ↦ false ])
