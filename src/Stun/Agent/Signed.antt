-- ===== src/Stun/Agent/Signed.antt =====
-- What an accepted response proves: its MESSAGE-INTEGRITY is right.
use libnice.Base.{
  ℕ, ◌+◌, ◌<◌, ◌≡◌, inl, inr, refl, sym, ◌∙◌, arith, true, false, not, ◌&&◌, ◌||◌, ltb,
  if◌then◌else◌, Option, none, some, List, [], ◌∷◌, length, bytes_eq, bytes_eq→eq, ok, ◌>>=◌,
  Bool-cases, read_bytes,
}
use mathlib.Core.Path.{subst}
use libnice.Base.Ensures.{
  Ensures, done, ensures_ok, Ensures-bind, Ensures-bool, Ensures-weaken, Ensures-chain,
}
use libnice.Stun.Types.{StunAgent, StunMessage, SavedId, response}
use libnice.Stun.Message.{get_class, get_method, message_id}
use libnice.Stun.Attribute.{find, message_integrity, has_attribute}
use libnice.Stun.Hmac.{Crypto, stun_sha1}
use libnice.Stun.Agent.{
  has_flag, is_old, is_msice2, ignore_flag, long_term_credentials, force_validater,
}
use libnice.Stun.Agent.Validate.{
  Validater, ValidationStatus, unauthorized, unmatched_response, Checked, accepted, refused,
  match_saved, is_error_of, ignores, lacks_credentials, ask_key, signed_length, check_hash,
  check_secret, check_integrity, settle, authorize, match_response, validate,
}
use libnice.Stun.Agent.Saved.{is_authentic, framed, settle-Settled, validate-Ensures, true-ne-false}

-- The value of MESSAGE-INTEGRITY is the HMAC of the message with the key.
pub record HasHmac (crypto : Crypto) (agent : StunAgent) (msg : StunMessage) (key : List ℕ)
    : Type 0 where
  pub place : ℕ
  pub size : ℕ
  pub covered : ℕ
  pub hmac : List ℕ
  pub is_found : find msg message_integrity ≡ ok (some (place, size))
  pub is_covered : signed_length agent msg place ≡ ok covered
  pub is_computed :
      stun_sha1 crypto msg.buffer
        (place + 20)
        covered
        key
        (is_old agent.compatibility || is_msice2 agent.compatibility)
      ≡ ok hmac
  pub is_stored : read_bytes msg.buffer place 20 ≡ ok hmac

-- If the check accepts, `P` holds.
abbrev Accepts : Type 0 → Checked → Type 0
Accepts P (accepted msg) = P
Accepts P (refused msg) = Unit

module _ (crypto : Crypto) (agent : StunAgent) (msg : StunMessage) (key : List ℕ) where
  check_hash-Accepts :
      (place size : ℕ)
      → find msg message_integrity ≡ ok (some (place, size))
      → Ensures (Accepts (HasHmac crypto agent msg key)) (check_hash crypto agent msg place key key)
  unfolding check_hash
  check_hash-Accepts place size found = Ensures-bind (signed_length agent msg place) (λ covered c.
      Ensures-bind
        (stun_sha1 crypto msg.buffer (place + 20) covered key
          (is_old agent.compatibility || is_msice2 agent.compatibility))
        (λ sha s. Ensures-bind (read_bytes msg.buffer place 20) (λ hash h.
          done _ (elim (Bool-cases (bytes_eq sha hash)) [
            | inl e ↦ rw e (record {
              place = place;
              size = size;
              covered = covered;
              hmac = sha;
              is_found = found;
              is_covered = c;
              is_computed = s;
              is_stored = rw (bytes_eq→eq sha hash e) h;
            })
            | inr e ↦ rw e tt
          ]))))

  check_integrity-Accepts :
      (saved : Option (List ℕ))
      → has_flag agent long_term_credentials ≡ false
      → 0 < length key
      → Ensures
          (Accepts (HasHmac crypto agent msg key))
          (check_integrity crypto agent msg response false (some key) saved)
  unfolding check_integrity check_secret is_error_of
  check_integrity-Accepts saved short h =
      Ensures-bool (not false && ltb 0 (length key))
        (λ _. Ensures-bind (find msg message_integrity) (λ r found. attribute r found))
        (λ e. absurd (ground (arith, e, h)))
    where
      attribute :
          (r : Option (ℕ × ℕ))
          → find msg message_integrity ≡ ok r
          → Ensures (Accepts (HasHmac crypto agent msg key)) (elim r [
            | some (p, len) ↦ check_secret crypto agent msg p key saved
            | none ↦ do
              excused ← is_error_of msg response (400 ∷ 401 ∷ [])
              ok (if excused then accepted msg else refused msg)
          ])
      attribute none found = done _ tt
      attribute (some (p, len)) found = rw (short, check_secret) (check_hash-Accepts p len found)

-- If the message is authentic, the HMAC is right.
abbrev Vouched :
    Crypto → StunAgent → StunMessage → List ℕ → StunAgent × StunMessage × ValidationStatus → Type 0
Vouched crypto agent msg key (agent', msg', s) =
    is_authentic s ≡ true → HasHmac crypto agent msg key

ignores-response :
    (agent : StunAgent) (msg : StunMessage)
    → has_flag agent ignore_flag ≡ false
    → ignores agent msg response ≡ ok false
unfolding ignores is_error_of
ignores-response agent msg h = rw h refl

module _ (crypto : Crypto) (agent : StunAgent) (msg : StunMessage) (key : List ℕ)
    (validater : Option Validater) (strict : has_flag agent ignore_flag ≡ false)
    (short : has_flag agent long_term_credentials ≡ false)
    (trusted : has_flag agent force_validater ≡ false) (long : 0 < length key) where
  ask_key-keeps :
      Ensures (λ asked. asked ≡ some (some key)) (ask_key agent msg validater false (some key))
  unfolding ask_key
  ask_key-keeps = Ensures-bind (has_attribute msg message_integrity) (λ mi _.
      Ensures-bool (mi && (false || has_flag agent force_validater))
        (λ e. absurd (ground (arith, e, trusted))) (λ _. done _ refl))

  authorize-Vouched :
      (index : Option ℕ) (saved : Option (List ℕ))
      → Ensures
          (Vouched crypto agent msg key)
          (authorize crypto agent msg validater response index (some key) saved)
  unfolding authorize
  authorize-Vouched index saved =
      rw (ignores-response agent msg strict, authorize)
        (Ensures-bind (lacks_credentials agent msg response) (λ lacks _.
          Ensures-chain (ask_key agent msg validater false (some key)) ask_key-keeps (λ asked a.
            rw a (
              Ensures-chain (check_integrity crypto agent msg response false (some key) saved)
                (check_integrity-Accepts crypto agent msg key saved short long)
                (λ checked p. vouch checked p)))))
    where
      vouch :
          (checked : Checked)
          → Accepts (HasHmac crypto agent msg key) checked
          → Ensures (Vouched crypto agent msg key) (elim checked [
            | refused msg' ↦ ok (agent, msg', unauthorized)
            | accepted msg' ↦ settle agent msg' response index
          ])
      vouch (refused msg') p = done _ (λ h. absurd (true-ne-false (sym h)))
      vouch (accepted msg') p =
          Ensures-weaken (λ out _ _. p) (settle-Settled agent msg' response index)

  match_response-Vouched :
      (method : ℕ) (id : List ℕ) (i : ℕ) (saved : SavedId)
      → get_class msg ≡ ok response
      → get_method msg ≡ ok method
      → message_id msg ≡ ok id
      → match_saved agent.sent_ids method id ≡ some (i, saved)
      → saved.key ≡ some key
      → Ensures (Vouched crypto agent msg key) (match_response crypto agent msg validater)
  unfolding match_response
  match_response-Vouched method id i saved c m d found k =
      rw (c, m, d, match_response)
        (subst
          (λ found. Ensures (Vouched crypto agent msg key) (elim found [
            | none ↦ ok (agent, msg, unmatched_response)
            | some (i, saved) ↦
                authorize crypto agent msg validater response (some i) saved.key
                  (if saved.long_term_valid then some saved.long_term_key else none)
          ]))
          (sym found)
          (rw k (
            authorize-Vouched (some i)
              (if saved.long_term_valid then some saved.long_term_key else none))))

-- A response to a request that was sent with a key is accepted only if it has a MESSAGE-INTEGRITY and its
-- 20 bytes are the HMAC, with that key, of the bytes of the message that it covers. The agent neither
-- ignores credentials nor has long-term ones, and its callback is not forced; the key is not empty.
pub validate-Vouched :
    (crypto : Crypto) (agent : StunAgent) (msg : StunMessage) (buffer : List ℕ) (buffer_len : ℕ)
    (validater : Option Validater) (method : ℕ) (id : List ℕ) (i : ℕ) (saved : SavedId)
    (key : List ℕ) (agent' : StunAgent) (msg' : StunMessage) (s : ValidationStatus)
    → has_flag agent ignore_flag ≡ false
    → has_flag agent long_term_credentials ≡ false
    → has_flag agent force_validater ≡ false
    → 0 < length key
    → get_class (framed agent msg buffer buffer_len) ≡ ok response
    → get_method (framed agent msg buffer buffer_len) ≡ ok method
    → message_id (framed agent msg buffer buffer_len) ≡ ok id
    → match_saved agent.sent_ids method id ≡ some (i, saved)
    → saved.key ≡ some key
    → validate crypto agent msg buffer buffer_len validater ≡ ok (agent', msg', s)
    → is_authentic s ≡ true
    → HasHmac crypto agent (framed agent msg buffer buffer_len) key
validate-Vouched crypto agent msg buffer buffer_len validater method id i saved key agent' msg' s
      strict short trusted long c m d found k e =
    let f = framed agent msg buffer buffer_len in
    ensures_ok (
      subst (Ensures (Vouched crypto agent f key)) e (
        validate-Ensures (Vouched crypto agent f key) crypto agent validater
          (λ msg' s h h'. absurd (true-ne-false (sym h' ∙ h))) msg buffer buffer_len
          (match_response-Vouched crypto agent f key validater strict short trusted long method id i
            saved c m d found k)))
