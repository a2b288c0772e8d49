-- ===== src/Stun/IceUsage/Conflict.antt =====
-- stun/usages/ice.c: which role an agent has after a request of an agent in the same role.
use libnice.Base.{
  ℕ, ◌<◌, ◌≡◌, refl, sym, ap, ◌∙◌, arith, Bool, true, false, not, ltb, ◌==◌, if◌then◌else◌, none,
  some, List, ◌≢◌, Access, ok, Bool-cases, inl, inr,
}
use libnice.Base.Ensures.{Ensures, Ensures-weaken, Ensures-bind, Ensures-bool, done}
use libnice.Stun.Types.{StunAgent, StunMessage, MessageReturn, request, response}
use libnice.Stun.Message.{get_class, get_method, message_id}
use libnice.Stun.Message.Header.{init_short}
use libnice.Stun.Value.{find64, append32}
use libnice.Stun.Agent.Build.{init_response, begin_reply}
use libnice.Stun.Agent.Finish.{username, value_of, finish_message}
use libnice.Stun.Agent.Validate.{ms_implementation_version}
use libnice.Stun.Sockaddr.{Sockaddr}
use libnice.Stun.Hmac.{Crypto}
use libnice.Stun.IceUsage.{
  IceCompatibility, IceReturn, role_conflict, binding, role_attribute, if_appended, Reply, respond,
  refuse, switches, give_up, failure, create_reply, role_conflict_error, append_mapped, append_if,
  append_name, bind_error, is_ms_ice2,
}

abbrev Keeps : Bool → Reply → Type 0
Keeps control r = r.control ≡ control

if_appended-Keeps :
    (control : Bool) (r : StunMessage × MessageReturn)
    (failed : StunMessage → MessageReturn → Access Reply) (next : StunMessage → Access Reply)
    → ((m : StunMessage) (val : MessageReturn) → Ensures (Keeps control) (failed m val))
    → ((m : StunMessage) → Ensures (Keeps control) (next m))
    → Ensures (Keeps control) (if_appended r failed next)
if_appended-Keeps control (m, MessageReturn.success) failed next h k = k m
if_appended-Keeps control (m, MessageReturn.not_found) failed next h k = h m MessageReturn.not_found
if_appended-Keeps control (m, MessageReturn.invalid) failed next h k = h m MessageReturn.invalid
if_appended-Keeps control (m, MessageReturn.not_enough_space) failed next h k =
    h m MessageReturn.not_enough_space
if_appended-Keeps control (m, MessageReturn.unsupported_address) failed next h k =
    h m MessageReturn.unsupported_address

give_up-Keeps :
    (agent : StunAgent) (control : Bool) (m : StunMessage) (val : MessageReturn)
    → Ensures (Keeps control) (give_up agent control m val)
unfolding give_up
give_up-Keeps agent control m val = done _ refl

Ensures-if :
    {P : Reply → Type 0} (b : Bool) {t e : Access Reply}
    → Ensures P t
    → Ensures P e
    → Ensures P (if b then t else e)
Ensures-if true h k = h
Ensures-if false h k = k

module _ (crypto : Crypto) (software_name : List ℕ) (agent : StunAgent) (req msg : StunMessage)
    (buf : List ℕ) (len : ℕ) where
  respond-Keeps :
      (src : Sockaddr) (srclen : ℕ) (compatibility : IceCompatibility) (control : Bool)
      (ret : IceReturn)
      → Ensures
          (Keeps control)
          (respond crypto software_name agent req msg buf len src srclen compatibility control ret)
  unfolding respond
  respond-Keeps src srclen compatibility control ret =
      let fails = give_up-Keeps agent control in
      Ensures-bind (init_response software_name agent msg buf len req) (λ r _.
        Ensures-bool r.1
          (λ _. Ensures-bind (append_mapped r.0 src srclen compatibility) (λ mapped _.
            if_appended-Keeps control mapped (give_up agent control) _ fails (λ m1.
              Ensures-bind (value_of req username) (λ name _.
                Ensures-bind (append_name m1 name) (λ named _.
                  if_appended-Keeps control named (give_up agent control) _ fails (λ m2.
                    Ensures-bind
                      (append_if (is_ms_ice2 compatibility)
                        (λ m. append32 m ms_implementation_version 2) m2)
                      (λ versioned _.
                        if_appended-Keeps control versioned (give_up agent control) _ fails (λ m3.
                          Ensures-bind (finish_message crypto agent m3 none) (λ n _.
                            Ensures-if (n.2 == 0) (fails n.1 MessageReturn.success)
                              (done _ refl))))))))))
          (λ _. fails r.0 MessageReturn.success))

  refuse-Keeps :
      (code : ℕ) (control : Bool) (ret : IceReturn)
      → Ensures (Keeps control) (refuse crypto software_name agent req msg buf len code control ret)
  unfolding refuse
  refuse-Keeps code control ret =
      Ensures-bind (bind_error crypto software_name agent msg buf len req code) (λ r _. done _ refl)

-- The tie-breaker decides: whatever the role was, it is now the controlling one exactly if the tie-breaker is
-- at least the other.
switched :
    (tie other : ℕ) (control : Bool)
    → (if switches tie other control then not control else control) ≡ not (ltb tie other)
unfolding switches
switched tie other true = elim (Bool-cases (ltb tie other)) [
  | inl e ↦ rw e refl
  | inr e ↦ rw e refl
]
switched tie other false = elim (Bool-cases (ltb tie other)) [
  | inl e ↦ rw e refl
  | inr e ↦ rw e refl
]

module _ (crypto : Crypto) (software_name : List ℕ) (agent : StunAgent) (req msg : StunMessage)
    (buf : List ℕ) (len : ℕ) where
  create_reply-role :
      (src : Sockaddr) (srclen : ℕ) (control : Bool) (tie other : ℕ)
      (compatibility : IceCompatibility)
      → get_class req ≡ ok request
      → get_method req ≡ ok binding
      → find64 req (role_attribute control) ≡ ok (MessageReturn.success, some other)
      → Ensures (Keeps (not (ltb tie other))) (
          create_reply crypto software_name agent req msg buf len src srclen control tie
            compatibility)
  unfolding create_reply
  create_reply-role src srclen control tie other compatibility class method conflict =
      let decided = switched tie other control in
      elim (Bool-cases (switches tie other control)) [
        | inl e ↦
            rw (class, method, conflict, e)
              (Ensures-weaken
                (λ r h. h ∙ sym (ap (λ b. if b then not control else control) e) ∙ decided)
                (respond-Keeps crypto software_name agent req msg buf len src srclen compatibility
                  (not control) role_conflict))
        | inr e ↦
            rw (class, method, conflict, e)
              (Ensures-weaken
                (λ r h. h ∙ sym (ap (λ b. if b then not control else control) e) ∙ decided)
                (refuse-Keeps crypto software_name agent req msg buf len role_conflict_error control
                  role_conflict))
      ]

not_both : (tie other : ℕ) → tie ≢ other → not (ltb tie other) ≡ not (not (ltb other tie))
not_both tie other h = elim (Bool-cases (ltb tie other)) [
  | inl e ↦ let later : ltb other tie ≡ false = ground (arith, e) in rw (e, later) refl
  | inr e ↦ elim (Bool-cases (ltb other tie)) [
    | inl f ↦ rw (e, f) refl
    | inr f ↦ let same : tie ≡ other = ground (arith, e, f) in absurd (h same)
  ]
]

-- Two agents in the same role, with different tie-breakers, each handle a binding request in which
-- `stun_message_find64` finds the tie-breaker of the other with that role: when both calls of
-- `stun_usage_ice_conncheck_create_reply` return, the agents have different roles.
pub create_reply-roles :
    (crypto crypto' : Crypto) (software_name software_name' : List ℕ) (agent agent' : StunAgent)
    (req req' msg msg' : StunMessage) (buf buf' : List ℕ) (len len' : ℕ) (src src' : Sockaddr)
    (srclen srclen' : ℕ) (control : Bool) (tie tie' : ℕ)
    (compatibility compatibility' : IceCompatibility)
    → (get_class req ≡ ok request) × (get_method req ≡ ok binding)
    → (get_class req' ≡ ok request) × (get_method req' ≡ ok binding)
    → find64 req (role_attribute control) ≡ ok (MessageReturn.success, some tie')
    → find64 req' (role_attribute control) ≡ ok (MessageReturn.success, some tie)
    → tie ≢ tie'
    → Ensures
        (λ r.
          Ensures
            (λ r'. r.control ≡ not r'.control)
            (create_reply crypto' software_name' agent' req' msg' buf' len' src' srclen' control
              tie' compatibility'))
        (create_reply crypto software_name agent req msg buf len src srclen control tie
          compatibility)
create_reply-roles crypto crypto' software_name software_name' agent agent' req req' msg msg' buf
      buf' len len' src src' srclen srclen' control tie tie' compatibility compatibility'
      (class, method) (class', method') conflict conflict' differ =
    let own =
      create_reply-role crypto software_name agent req msg buf len src srclen control tie tie'
        compatibility class method conflict in
    let other =
      create_reply-role crypto' software_name' agent' req' msg' buf' len' src' srclen' control tie'
        tie compatibility' class' method' conflict' in
    Ensures-weaken
      (λ r h. Ensures-weaken (λ r' h'. h ∙ not_both tie tie' differ ∙ sym (ap not h')) other) own

init_response_short :
    (software_name : List ℕ) (agent : StunAgent) (req msg : StunMessage) (buf : List ℕ) (len : ℕ)
    (id : List ℕ)
    → get_class req ≡ ok request
    → get_method req ≡ ok binding
    → message_id req ≡ ok id
    → len < 20
    → init_response software_name agent msg buf len req
      ≡ ok (
        record {
          agent = some agent;
          buffer = buf;
          buffer_len = len;
          key = req.key;
          long_term_key = req.long_term_key;
          long_term_valid = req.long_term_valid;
        },
        false,
      )
unfolding init_response begin_reply
init_response_short software_name agent req msg buf len id class method ids short =
    let begun : StunMessage = record {
      agent = some agent;
      buffer = buf;
      buffer_len = len;
      key = req.key;
      long_term_key = req.long_term_key;
      long_term_valid = req.long_term_valid;
    } in
    rw (class, begin_reply, ids, method, init_short begun response binding id short) refl

-- In a buffer of fewer than 20 bytes the response to a binding request in which there is no conflict of roles
-- cannot be begun, and the assertion behind `failure` fails.
pub create_reply_aborts :
    (crypto : Crypto) (software_name : List ℕ) (agent : StunAgent) (req msg : StunMessage)
    (buf : List ℕ) (len : ℕ) (src : Sockaddr) (srclen : ℕ) (control : Bool) (tie : ℕ)
    (compatibility : IceCompatibility) (id : List ℕ) (val : MessageReturn)
    → get_class req ≡ ok request
    → get_method req ≡ ok binding
    → message_id req ≡ ok id
    → find64 req (role_attribute control) ≡ ok (val, none)
    → len < 20
    → (r : Reply) × (create_reply crypto software_name agent req msg buf len src srclen control tie
          compatibility
        ≡ ok r)
      × (r.status ≡ none)
unfolding create_reply respond give_up failure
create_reply_aborts crypto software_name agent req msg buf len src srclen control tie compatibility
      id val class method ids peace short =
    let begun : StunMessage = record {
      agent = some agent;
      buffer = buf;
      buffer_len = len;
      key = req.key;
      long_term_key = req.long_term_key;
      long_term_valid = req.long_term_valid;
    } in
    let begin = init_response_short software_name agent req msg buf len id class method ids short in
    (
      record { agent = agent; msg = begun; status = none; plen = 0; control = control },
      rw (class, method, peace, respond, begin) refl,
      refl,
    )
