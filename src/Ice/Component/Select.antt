-- ===== src/Ice/Component/Select.antt =====
-- agent/conncheck.c: which pair is selected, and the state of the component when one is nominated.
use libnice.Base.{
  ℕ, ◌≡◌, refl, Bool, true, false, not, ◌||◌, ltb, max, if◌then◌else◌, none, some, List, [], ◌∷◌,
  ◌⊎◌,
}
use libnice.Ice.Check.{CheckPair}
use libnice.Ice.Check.Pairs.{NiceCandidate}
use libnice.Ice.Component.{
  ComponentState, disconnected, gathering, connecting, connected, ready, failed, NiceComponent,
  can_follow, signal_state_change, signal_if, is_ready, is_failed_state, before_connecting,
  CandidatePair,
}
use libnice.Ice.Component.Nominate.{Outcome, on_outcome, update_selected_pair}

-- The component with the pair selected if it is better
abbrev pub selected : NiceComponent → CheckPair → NiceComponent
selected c pair = record c {
  selected_pair =
      if ltb c.selected_pair.priority pair.priority
      then record {
        local_ = some pair.local_;
        remote = some pair.remote;
        priority = pair.priority;
        stun_priority = pair.stun_priority;
      }
      else c.selected_pair;
}

-- The states from which `agent_signal_component_state_change` refuses CONNECTED
abbrev pub refuses_connected : ComponentState → Bool
refuses_connected s = before_connecting s || is_failed_state s

pub to_connected :
    (s : ComponentState) (c : NiceComponent)
    → c.state ≡ s
    → (refuses_connected s ≡ true → signal_if (not (is_ready c.state)) connected c ≡ none)
      × (refuses_connected s ≡ false
          → signal_if (not (is_ready c.state)) connected c
            ≡ some (record c { state = if is_ready s then ready else connected }))
unfolding signal_state_change can_follow
to_connected disconnected c e = (λ h. rw e refl, λ h. cc)
to_connected gathering c e = (λ h. rw e refl, λ h. cc)
to_connected connecting c e = (λ h. cc, λ h. rw e refl)
to_connected connected c e = (λ h. cc, λ h. rw e refl)
to_connected ready c e = (λ h. cc, λ h. rw e refl)
to_connected failed c e = (λ h. rw e refl, λ h. cc)

-- The calls of `conn_check_update_selected_pair` for pairs of the check list, one after the other
unfoldable pub select_all :
    (ℕ → NiceCandidate) → List CheckPair → List ℕ → NiceComponent → List CheckPair → Outcome
select_all candidates ps queue c [] = some (ps, queue, c)
select_all candidates ps queue c (p ∷ rest) =
    on_outcome (update_selected_pair candidates ps queue c p)
      λ ps' queue' c'. select_all candidates ps' queue' c' rest

-- The highest of a priority and those of a list
unfoldable pub highest : ℕ → List CheckPair → ℕ
highest priority [] = priority
highest priority (p ∷ rest) = max p.priority (highest priority rest)

-- The candidates of the selected pair are those of a pair of the list with the same priority.
abbrev pub IsAmong : CandidatePair → List CheckPair → Type 0
IsAmong pair [] = ⊥
IsAmong pair (p ∷ rest) =
    ((pair.local_ ≡ some p.local_) × (pair.remote ≡ some p.remote) × (pair.priority ≡ p.priority))
    ⊎ IsAmong pair rest
