-- ===== src/Stun/Agent/Remember.antt =====
-- What finishing a request leaves in the agent's memory.
use libnice.Base.{
  ℕ, zero, suc, ◌+◌, ◌≡◌, ◌⊎◌, inl, inr, refl, sym, ap, ◌∙◌, arith, true, false, not, ◌&&◌, ◌==◌,
  if◌then◌else◌, Option, some, List, [], ◌∷◌, bytes_eq, ok, Bool-cases, Option-cases,
}
use mathlib.Core.Path.{subst}
use libnice.Base.Ensures.{
  Ensures, done, ensures_ok, Ensures-bind, Ensures-bool, Ensures-option, Ensures-weaken,
  Ensures-chain,
}
use libnice.Stun.Types.{StunAgent, StunMessage, SavedId, request}
use libnice.Stun.Message.{get_class, get_method, message_id, message_length, is_oc2007}
use libnice.Stun.Hmac.{Crypto}
use libnice.Stun.Agent.Finish.{
  free_slot, save, remember, complete, sign, put_fingerprint, chosen_key, finish_message, stun_send,
}
use libnice.Stun.Agent.Once.{awaits, waiting, get_method_buffer, message_id_buffer, ok-inj}

waiting-save :
    (ids : List SavedId) (s : SavedId) (method : ℕ) (id : List ℕ) {i : ℕ}
    → free_slot ids ≡ some i
    → waiting (save ids i s) method id
      ≡ waiting ids method id + (if awaits s method id then 1 else 0)
unfolding free_slot save waiting
waiting-save [] s method id e = cc
waiting-save (t ∷ rest) s method id {i = zero} e = elim (Bool-cases t.valid) [
  | inl v ↦ elim (Option-cases (free_slot rest)) [
    | inl n ↦ absurd (ground (arith, v, n, e))
    | inr (p, n) ↦ absurd (ground (arith, v, n, e))
  ]
  | inr v ↦ rw v (omega arith)
]
waiting-save (t ∷ rest) s method id {i = suc i} e = elim (Bool-cases t.valid) [
  | inl v ↦ elim (Option-cases (free_slot rest)) [
    | inl n ↦ absurd (ground (arith, v, n, e))
    | inr (p, n) ↦
        let m : free_slot rest ≡ some i = ground (arith, v, n, e) in
        omega (arith, waiting-save rest s method id m)
  ]
  | inr v ↦ absurd (ground (arith, v, e))
]

-- An entry more, in the free slot `i`, of the transaction of the message
pub record Entered (agent agent' : StunAgent) (msg : StunMessage) (i : ℕ) : Type 0 where
  pub entry : SavedId
  pub is_valid : entry.valid ≡ true
  pub has_method : get_method msg ≡ ok entry.method
  pub has_id : message_id msg ≡ ok entry.id
  pub entered : agent'.sent_ids ≡ save agent.sent_ids i entry

abbrev pub Remembered : StunAgent → ℕ → StunAgent × StunMessage × ℕ → Type 0
Remembered agent i (agent', msg', size) =
    ((agent' ≡ agent) × (size ≡ 0)) ⊎ Entered agent agent' msg' i

remember-Entered :
    (agent : StunAgent) (msg : StunMessage) (key : Option (List ℕ)) (i : ℕ)
    → Ensures (λ agent'. Entered agent agent' msg i) (remember agent msg key (some i))
unfolding remember
remember-Entered agent msg key i = Ensures-bind (message_id msg) (λ id d.
    Ensures-bind (get_method msg) (λ method m. done _ (record {
      entry = record {
        id = id;
        method = method;
        key = key;
        long_term_key = msg.long_term_key;
        long_term_valid = msg.long_term_valid;
        valid = true;
      };
      is_valid = refl;
      has_method = m;
      has_id = d;
      entered = refl;
    })))

complete-Remembered :
    (crypto : Crypto) (agent : StunAgent) (msg : StunMessage) (key : Option (List ℕ)) (i : ℕ)
    → Ensures (Remembered agent i) (complete crypto agent msg key (some i))
unfolding complete
complete-Remembered crypto agent msg key i = Ensures-bind (sign crypto agent msg key) (λ signed _.
    Ensures-bool signed.1
      (λ _. Ensures-bind (put_fingerprint agent signed.0) (λ printed _.
        Ensures-bool printed.1
          (λ _.
            Ensures-chain (remember agent printed.0 key (some i))
              (remember-Entered agent printed.0 key i)
              (λ agent' r. Ensures-bind (message_length printed.0) (λ len _. done _ (
                inr (record {
                  entry = r.entry;
                  is_valid = r.is_valid;
                  has_method =
                      get_method_buffer (record printed.0 { key = key }) printed.0 refl
                      ∙ r.has_method;
                  has_id =
                      message_id_buffer (record printed.0 { key = key }) printed.0 refl ∙ r.has_id;
                  entered = r.entered;
                })))))
          (λ _. done _ (inl (refl, refl)))))
      (λ _. done _ (inl (refl, refl))))

-- What `finish_message` promises of a request.
abbrev pub Kept : StunAgent → StunAgent × StunMessage × ℕ → Type 0
Kept agent (agent', msg', size) =
    ((agent' ≡ agent) × (size ≡ 0))
    ⊎ ((method : ℕ) × (id : List ℕ) × (get_method msg' ≡ ok method)
        × (message_id msg' ≡ ok id)
        × ((m : ℕ) (k : List ℕ)
            → waiting agent'.sent_ids m k
              ≡ waiting agent.sent_ids m k + (if (method == m) && bytes_eq k id then 1 else 0)))

Remembered-Kept :
    (agent : StunAgent) (i : ℕ) (out : StunAgent × StunMessage × ℕ)
    → free_slot agent.sent_ids ≡ some i
    → Remembered agent i out
    → Kept agent out
Remembered-Kept agent i out free (inl k) = inl k
Remembered-Kept agent i out free (inr r) = inr (
  r.entry.method,
  r.entry.id,
  r.has_method,
  r.has_id,
  λ m k.
      ap (λ ids. waiting ids m k) r.entered
      ∙ waiting-save agent.sent_ids r.entry m k free
      ∙ ap
          (λ v.
            waiting agent.sent_ids m k
            + (if v && (r.entry.method == m) && bytes_eq k r.entry.id then 1 else 0))
          r.is_valid,
)

finish_message-Ensures :
    (crypto : Crypto) (agent : StunAgent) (msg : StunMessage) (key : Option (List ℕ))
    → get_class msg ≡ ok request
    → is_oc2007 agent.compatibility ≡ false
    → Ensures (Kept agent) (finish_message crypto agent msg key)
unfolding finish_message
finish_message-Ensures crypto agent msg key is_request modern = Ensures-bind (get_class msg) (λ c e.
    Ensures-bind (get_method msg) (λ m _.
      Ensures-bool ((c == request) && not (is_oc2007 agent.compatibility && (m == stun_send)))
        (λ _.
          Ensures-option (free_slot agent.sent_ids) (λ _. done _ (inl (refl, refl)))
            (λ slot free.
              Ensures-weaken (λ out r. Remembered-Kept agent slot out free r)
                (complete-Remembered crypto agent msg (chosen_key msg key) slot)))
        (λ h.
          let same : c ≡ request = ok-inj (sym e ∙ is_request) in
          absurd (ground (arith, h, same, modern)))))

-- `stun_agent_finish_message` of a request, with an agent that is not of OC2007, either fails, returns 0 and
-- leaves the agent, or it remembers the transaction: one saved id more waits for an answer with the
-- method and the id of the message, and for every other method and id as many as before.
pub finish_message-Kept :
    (crypto : Crypto) (agent : StunAgent) (msg : StunMessage) (key : Option (List ℕ))
    (agent' : StunAgent) (msg' : StunMessage) (size : ℕ)
    → get_class msg ≡ ok request
    → is_oc2007 agent.compatibility ≡ false
    → finish_message crypto agent msg key ≡ ok (agent', msg', size)
    → Kept agent (agent', msg', size)
finish_message-Kept crypto agent msg key agent' msg' size is_request modern e =
    ensures_ok (
      subst (Ensures (Kept agent)) e
        (finish_message-Ensures crypto agent msg key is_request modern))
