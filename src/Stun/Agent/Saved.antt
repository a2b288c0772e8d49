-- ===== src/Stun/Agent/Saved.antt =====
-- The transactions that an agent remembers: a response is accepted once.
use libnice.Base.{
  ℕ, ◌≡◌, inl, inr, refl, sym, ◌∙◌, Bool, true, false, not, ◌&&◌, ◌==◌, if◌then◌else◌, Option, none,
  some, List, [], ◌∷◌, ok, Bool-cases,
}
use libnice.Stun.Types.{StunAgent, StunMessage, SavedId, request}
use mathlib.Core.Path.{subst}
use libnice.Stun.Length.{Verdict, valid, incomplete, invalid}
use libnice.Stun.Length
use libnice.Stun.Agent.{has_flag, is_modern, use_fingerprint, no_aligned_attributes}
use libnice.Stun.Agent.Validate.{check_fingerprint}
use libnice.Stun.Message.{has_cookie, get_class, get_method, message_id}
use libnice.Base.Ensures.{
  Ensures, done, ensures_ok, Ensures-bind, Ensures-bool, Ensures-option, Ensures-weaken,
}
use libnice.Stun.Value.{find32}
use libnice.Stun.Agent.{find_unknowns}
use libnice.Stun.Hmac.{Crypto}
use libnice.Stun.Agent.Validate.{
  Validater, ms_implementation_version, ValidationStatus, validated, not_stun, incomplete_stun,
  bad_request, unauthorized, unknown_request_attribute, unknown_attribute, Checked, accepted,
  refused, match_saved, retire, settle, status_of, retired, is_reply, ignores, lacks_credentials,
  ask_key, check_integrity, authorize, match_response, demultiplex, validate,
}

-- The status says that the message is authentic; it may have unknown attributes.
abbrev pub is_authentic : ValidationStatus → Bool
is_authentic s = elim s [
  | validated ↦ true
  | unknown_request_attribute ↦ true
  | unknown_attribute ↦ true
  | _ ↦ false
]

-- A message that is refused leaves the agent; one that is accepted uses up the saved id.
abbrev pub Settled : StunAgent → Option ℕ → StunAgent × StunMessage × ValidationStatus → Type 0
Settled agent index (agent', msg, s) =
    (is_authentic s ≡ false → agent' ≡ agent)
    × (is_authentic s ≡ true → agent'.sent_ids ≡ retired agent.sent_ids index)

status_of-authentic : (class : ℕ) (ts : List ℕ) → is_authentic (status_of class ts) ≡ true
unfolding status_of
status_of-authentic class [] = refl
status_of-authentic class (t ∷ ts) = elim (Bool-cases (class == request)) [
  | inl e ↦ rw e refl
  | inr e ↦ rw e refl
]

pub settle-Settled :
    (agent : StunAgent) (msg : StunMessage) (class : ℕ) (index : Option ℕ)
    → Ensures (Settled agent index) (settle agent msg class index)
unfolding settle
settle-Settled agent msg class index = Ensures-bind (find32 msg ms_implementation_version) (λ r _.
    Ensures-bind (find_unknowns agent msg 1)
      (λ ts _. done _ (λ h. cc (status_of-authentic class ts, h), λ h. refl)))

authorize-Settled :
    (crypto : Crypto) (agent : StunAgent) (msg : StunMessage) (validater : Option Validater)
    (class : ℕ) (index : Option ℕ) (key saved : Option (List ℕ))
    → Ensures (Settled agent index) (authorize crypto agent msg validater class index key saved)
unfolding authorize
authorize-Settled crypto agent msg validater class index key saved =
    Ensures-bind (ignores agent msg class) (λ ignore _.
      Ensures-bind (lacks_credentials agent msg class) (λ lacks _.
        Ensures-bool
          ((elim key as (λ x. Bool) [ none ↦ true | some k ↦ false ]) && not ignore && lacks)
          (λ _. done _ (λ _. refl, λ h. cc))
          (λ _. Ensures-bind (ask_key agent msg validater ignore key) (λ asked _.
            Ensures-option asked (λ _. done _ (λ _. refl, λ h. cc))
              (λ key' _.
                Ensures-bind (check_integrity crypto agent msg class ignore key' saved)
                  (λ checked _. verdict checked))))))
  where
    verdict :
        (checked : Checked)
        → Ensures (Settled agent index) (elim checked [
          | refused msg' ↦ ok (agent, msg', unauthorized)
          | accepted msg' ↦ settle agent msg' class index
        ])
    verdict (refused msg') = done _ (λ _. refl, λ h. cc)
    verdict (accepted msg') = settle-Settled agent msg' class index

-- An authentic message has a class, a method and an id; a reply has used up the saved id that
-- matches it, any other message none.
pub record Authentic (agent agent' : StunAgent) (msg : StunMessage) : Type 0 where
  pub class : ℕ
  pub method : ℕ
  pub id : List ℕ
  pub has_class : get_class msg ≡ ok class
  pub has_method : get_method msg ≡ ok method
  pub has_id : message_id msg ≡ ok id
  pub answers :
      is_reply class ≡ true
      → (i : ℕ) × (saved : SavedId) × (match_saved agent.sent_ids method id ≡ some (i, saved))
        × (agent'.sent_ids ≡ retire agent.sent_ids i)
  pub leaves : is_reply class ≡ false → agent'.sent_ids ≡ agent.sent_ids

-- What a validation of `msg` comes to.
abbrev pub Judged : StunAgent → StunMessage → StunAgent × StunMessage × ValidationStatus → Type 0
Judged agent msg (agent', msg', s) =
    (is_authentic s ≡ false → agent' ≡ agent) × (is_authentic s ≡ true → Authentic agent agent' msg)

pub true-ne-false : true ≡ false → ⊥
true-ne-false e = cc

match_response-Judged :
    (crypto : Crypto) (agent : StunAgent) (msg : StunMessage) (validater : Option Validater)
    → Ensures (Judged agent msg) (match_response crypto agent msg validater)
unfolding match_response retired
match_response-Judged crypto agent msg validater = Ensures-bind (get_class msg) (λ class c.
    Ensures-bind (get_method msg) (λ method m. Ensures-bind (message_id msg) (λ id d.
      Ensures-bool (is_reply class)
        (λ reply.
          Ensures-option (match_saved agent.sent_ids method id) (λ _. done _ (λ _. refl, λ h. cc))
            (λ found e.
              Ensures-weaken
                (λ out p. (
                  p.0,
                  λ h. record {
                    class = class;
                    method = method;
                    id = id;
                    has_class = c;
                    has_method = m;
                    has_id = d;
                    answers = λ _. (found.0, found.1, e, p.1 h);
                    leaves = λ other. absurd (true-ne-false (sym reply ∙ other));
                  },
                ))
                (authorize-Settled crypto agent msg validater class (some found.0) found.1.key
                  (if found.1.long_term_valid then some found.1.long_term_key else none))))
        (λ other.
          Ensures-weaken
            (λ out p. (
              p.0,
              λ h. record {
                class = class;
                method = method;
                id = id;
                has_class = c;
                has_method = m;
                has_id = d;
                answers = λ reply. absurd (true-ne-false (sym reply ∙ other));
                leaves = λ _. p.1 h;
              },
            ))
            (authorize-Settled crypto agent msg validater class none none none)))))

-- The message that `stun_agent_validate` sets up
abbrev pub framed : StunAgent → StunMessage → List ℕ → ℕ → StunMessage
framed agent msg buffer buffer_len = record msg {
  buffer = buffer;
  buffer_len = buffer_len;
  agent = some agent;
  key = none;
  long_term_valid = false;
}

-- What holds of every refusal that leaves the agent, and of the match of the message, holds of the whole
-- validation.
module _ {κ} (P : StunAgent × StunMessage × ValidationStatus → Type κ) (crypto : Crypto)
    (agent : StunAgent) (validater : Option Validater)
    (refusal : (msg : StunMessage) (s : ValidationStatus)
      → is_authentic s ≡ false
      → P (agent, msg, s)) where
  pub demultiplex-Ensures :
      (msg : StunMessage)
      → Ensures P (match_response crypto agent msg validater)
      → Ensures P (demultiplex crypto agent msg validater)
  unfolding demultiplex
  demultiplex-Ensures msg matched =
      Ensures-bool (is_modern agent.compatibility)
        (λ _. Ensures-bind (has_cookie msg) (λ cookie _.
          Ensures-bool cookie
            (λ _.
              Ensures-bool (has_flag agent use_fingerprint)
                (λ _. Ensures-bind (check_fingerprint agent msg) (λ printed _.
                  Ensures-bool printed (λ _. matched) (λ _. done _ (refusal msg bad_request refl))))
                (λ _. matched))
            (λ _. done _ (refusal msg bad_request refl))))
        (λ _. matched)

  pub validate-Ensures :
      (msg : StunMessage) (buffer : List ℕ) (buffer_len : ℕ)
      → Ensures P (match_response crypto agent (framed agent msg buffer buffer_len) validater)
      → Ensures P (validate crypto agent msg buffer buffer_len validater)
  unfolding validate
  validate-Ensures msg buffer buffer_len matched =
      Ensures-bind (Length.validate buffer buffer_len (not (has_flag agent no_aligned_attributes)))
        (λ len _. judge len)
    where
      judge :
          (len : Verdict)
          → Ensures P (elim len [
            | invalid ↦ ok (agent, msg, not_stun)
            | incomplete ↦ ok (agent, msg, incomplete_stun)
            | valid n ↦ elim (n == buffer_len) [
              | false ↦ ok (agent, msg, not_stun)
              | true ↦ demultiplex crypto agent (framed agent msg buffer buffer_len) validater
            ]
          ])
      judge invalid = done _ (refusal msg not_stun refl)
      judge incomplete = done _ (refusal msg incomplete_stun refl)
      judge (valid n) =
          Ensures-bool (n == buffer_len)
            (λ _. demultiplex-Ensures (framed agent msg buffer buffer_len) matched)
            (λ _. done _ (refusal msg not_stun refl))

-- When `stun_agent_validate` returns, its status settles what became of the agent: with a status that
-- refuses the message the agent is the same as before; with one that accepts it, the saved id that a
-- response or an error matches is made invalid, and after a request or an indication the saved ids
-- are the same.
pub validate-Judged :
    (crypto : Crypto) (agent : StunAgent) (msg : StunMessage) (buffer : List ℕ) (buffer_len : ℕ)
    (validater : Option Validater) (agent' : StunAgent) (msg' : StunMessage) (s : ValidationStatus)
    → validate crypto agent msg buffer buffer_len validater ≡ ok (agent', msg', s)
    → Judged agent (framed agent msg buffer buffer_len) (agent', msg', s)
validate-Judged crypto agent msg buffer buffer_len validater agent' msg' s e =
    let m = framed agent msg buffer buffer_len in
    ensures_ok (
      subst (Ensures (Judged agent m)) e (
        validate-Ensures (Judged agent m) crypto agent validater
          (λ msg' s h. (λ _. refl, λ h'. absurd (true-ne-false (sym h' ∙ h)))) msg buffer buffer_len
          (match_response-Judged crypto agent m validater)))
