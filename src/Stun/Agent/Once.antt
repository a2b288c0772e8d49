-- ===== src/Stun/Agent/Once.antt =====
-- A transaction is remembered once, and answered once.
use libnice.Base.{
  ℕ, zero, suc, ◌+◌, ◌≤◌, ◌<◌, ◌≡◌, inl, inr, refl, sym, ap, ◌∙◌, arith, Bool, true, false, ◌&&◌,
  ◌==◌, if◌then◌else◌, Option, some, List, [], ◌∷◌, bytes_eq, ok, Bool-cases, Option-cases,
}
use libnice.Stun.Types.{StunAgent, StunMessage, SavedId}
use libnice.Stun.Message.{get_class, get_method, message_id}
use libnice.Stun.Hmac.{Crypto}
use libnice.Stun.Agent.Validate.{
  Validater, ValidationStatus, match_saved, retire, is_reply, validate,
}
use libnice.Stun.Agent.Saved.{is_authentic, framed, validate-Judged}

-- Whether a saved id waits for an answer with a method and an id
abbrev pub awaits : SavedId → ℕ → List ℕ → Bool
awaits s method id = s.valid && (s.method == method) && bytes_eq id s.id

-- The number of saved ids that wait for such an answer
unfoldable pub waiting : List SavedId → ℕ → List ℕ → ℕ
waiting [] method id = 0
waiting (s ∷ rest) method id = (if awaits s method id then 1 else 0) + waiting rest method id

matched-waiting :
    (ids : List SavedId) (method : ℕ) (id : List ℕ)
    → 0 < waiting ids method id
    → (i : ℕ) × (s : SavedId) × (match_saved ids method id ≡ some (i, s))
unfolding match_saved waiting
matched-waiting [] method id h = absurd (omega arith)
matched-waiting (s ∷ rest) method id h = elim (Bool-cases (awaits s method id)) [
  | inl e ↦ (zero, s, rw e refl)
  | inr e ↦
      let (i, t, m) = matched-waiting rest method id (ground (arith, e, h)) in
      (suc i, t, rw (e, m) refl)
]

not_matched :
    (ids : List SavedId) (method : ℕ) (id : List ℕ) {i : ℕ} {s : SavedId}
    → match_saved ids method id ≡ some (i, s)
    → 0 < waiting ids method id
unfolding match_saved waiting
not_matched [] method id e = cc
not_matched (s ∷ rest) method id e = elim (Option-cases (match_saved rest method id)) [
  | inl n ↦ ground (arith, n, e)
  | inr (p, n) ↦ ground (arith, n, e, not_matched rest method id n)
]

waiting-retire :
    (ids : List SavedId) (method : ℕ) (id : List ℕ) {i : ℕ} {s : SavedId}
    → match_saved ids method id ≡ some (i, s)
    → waiting (retire ids i) method id + 1 ≡ waiting ids method id
unfolding match_saved retire waiting
waiting-retire [] method id e = cc
waiting-retire (t ∷ rest) method id {i = zero} e = elim (Bool-cases (awaits t method id)) [
  | inl a ↦ rw a (omega arith)
  | inr a ↦ elim (Option-cases (match_saved rest method id)) [
    | inl n ↦ absurd (ground (arith, a, n, e))
    | inr (p, n) ↦ absurd (ground (arith, a, n, e))
  ]
]
waiting-retire (t ∷ rest) method id {i = suc i} {s = s} e = elim (Bool-cases (awaits t method id)) [
  | inl a ↦ absurd (ground (arith, a, e))
  | inr a ↦ elim (Option-cases (match_saved rest method id)) [
    | inl n ↦ absurd (ground (arith, a, n, e))
    | inr (p, n) ↦
        let m : match_saved rest method id ≡ some (i, s) = ground (arith, a, n, e) in
        rw a (omega (arith, waiting-retire rest method id m))
  ]
]

-- The header is read from the buffer alone.
module _ (m m' : StunMessage) (same : m.buffer ≡ m'.buffer) where
  pub get_class_buffer : get_class m ≡ get_class m'
  unfolding get_class
  get_class_buffer = rw same refl

  pub get_method_buffer : get_method m ≡ get_method m'
  unfolding get_method
  get_method_buffer = rw same refl

  pub message_id_buffer : message_id m ≡ message_id m'
  unfolding message_id
  message_id_buffer = rw same refl

pub ok-inj {ℓ} : {A : Type ℓ} {a b : A} → ok a ≡ ok b → a ≡ b
ok-inj e = cc

-- An agent, in which no two saved ids that are valid have the same method and id, has accepted a
-- response or an error. Then it accepts the same bytes no second time, whatever it is asked to write the
-- message to and whichever passwords are known.
pub validate_once :
    (crypto : Crypto) (agent : StunAgent) (msg msg₂ : StunMessage) (buffer : List ℕ)
    (buffer_len : ℕ) (validater validater₂ : Option Validater) (agent' agent'' : StunAgent)
    (msg' msg'' : StunMessage) (s t : ValidationStatus) (class : ℕ)
    → ((method : ℕ) (id : List ℕ) → waiting agent.sent_ids method id ≤ 1)
    → get_class (framed agent msg buffer buffer_len) ≡ ok class
    → is_reply class ≡ true
    → validate crypto agent msg buffer buffer_len validater ≡ ok (agent', msg', s)
    → is_authentic s ≡ true
    → validate crypto agent' msg₂ buffer buffer_len validater₂ ≡ ok (agent'', msg'', t)
    → is_authentic t ≡ false
validate_once crypto agent msg msg₂ buffer buffer_len validater validater₂ agent' agent'' msg' msg''
      s t class unique has_class reply first authentic second =
    let a =
      (validate-Judged crypto agent msg buffer buffer_len validater agent' msg' s first).1
        authentic in
    let m = framed agent msg buffer buffer_len in
    let m₂ = framed agent' msg₂ buffer buffer_len in
    let same_class : class ≡ a.class = ok-inj (sym has_class ∙ a.has_class) in
    let (i, saved, matched, gone) = a.answers (ap is_reply (sym same_class) ∙ reply) in
    elim (Bool-cases (is_authentic t)) [
      | inr e ↦ e
      | inl again ↦
          let b =
            (validate-Judged crypto agent' msg₂ buffer buffer_len validater₂ agent'' msg'' t
                second).1
              again in
          let class₂ : class ≡ b.class =
            ok-inj (sym has_class ∙ get_class_buffer m m₂ refl ∙ b.has_class) in
          let method₂ : a.method ≡ b.method =
            ok-inj (sym a.has_method ∙ get_method_buffer m m₂ refl ∙ b.has_method) in
          let id₂ : a.id ≡ b.id = ok-inj (sym a.has_id ∙ message_id_buffer m m₂ refl ∙ b.has_id) in
          let (j, saved₂, matched₂, _) = b.answers (ap is_reply (sym class₂) ∙ reply) in
          let still : 0 < waiting (retire agent.sent_ids i) a.method a.id =
            rw (gone, sym method₂, sym id₂) at
              (not_matched agent'.sent_ids b.method b.id matched₂) in
          absurd (
            omega (
              arith,
              unique a.method a.id,
              waiting-retire agent.sent_ids a.method a.id matched,
              still,
            ))
    ]
