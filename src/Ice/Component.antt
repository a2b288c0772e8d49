-- ===== src/Ice/Component.antt =====
-- agent/agent.h, agent/component.h, agent/agent.c: the state of a component. A failing `g_assert` ends the
-- program: the result is `none`.
pub mod Ready
pub mod Nominate
pub mod Select
pub mod Relay
pub mod Fail
pub mod Settled
use libnice.Base.{
  ℕ, Bool, true, false, not, ◌&&◌, ◌||◌, ltb, if◌then◌else◌, Option, none, some, List,
}
use libnice.Ice.Check.{CheckPair}

-- `NiceComponentState`
pub data ComponentState : Type 0 where
  disconnected gathering connecting connected ready failed : ComponentState

-- `CandidatePair`; an all-zero one has no candidates
pub record CandidatePair : Type 0 where
  pub local_ : Option ℕ
  pub remote : Option ℕ
  pub priority : ℕ
  pub stun_priority : ℕ

-- What the checks use of a `NiceComponent`
pub record NiceComponent : Type 0 where
  pub id : ℕ
  pub state : ComponentState
  pub selected_pair : CandidatePair
  pub turn_candidate : Option ℕ
  pub remote_candidates : List ℕ

abbrev pub is_ready : ComponentState → Bool
is_ready s = elim s [ ready ↦ true | _ ↦ false ]

abbrev pub is_failed_state : ComponentState → Bool
is_failed_state s = elim s [ failed ↦ true | _ ↦ false ]

abbrev pub is_connecting : ComponentState → Bool
is_connecting s = elim s [ connecting ↦ true | _ ↦ false ]

-- `state < NICE_COMPONENT_STATE_CONNECTING` and `state < NICE_COMPONENT_STATE_CONNECTED`
abbrev pub before_connecting : ComponentState → Bool
before_connecting s = elim s [ disconnected ↦ true | gathering ↦ true | _ ↦ false ]

abbrev pub before_connected : ComponentState → Bool
before_connected s = elim s [
  | disconnected ↦ true
  | gathering ↦ true
  | connecting ↦ true
  | _ ↦ false
]

-- The states that differ and one of which can follow the other, or that are the same: what
-- `agent_signal_component_state_change` accepts
unfoldable pub can_follow : ComponentState → ComponentState → Bool
can_follow disconnected s = elim s [ connected ↦ false | ready ↦ false | _ ↦ true ]
can_follow gathering s = elim s [ gathering ↦ true | connecting ↦ true | failed ↦ true | _ ↦ false ]
can_follow connecting s = elim s [
  | connecting ↦ true
  | connected ↦ true
  | failed ↦ true
  | _ ↦ false
]
can_follow connected s = elim s [ connected ↦ true | ready ↦ true | failed ↦ true | _ ↦ false ]
can_follow ready s = elim s [ ready ↦ true | connected ↦ true | failed ↦ true | _ ↦ false ]
can_follow failed s = elim s [ failed ↦ true | connecting ↦ true | gathering ↦ true | _ ↦ false ]

-- `agent_signal_component_state_change`, for a component that the agent has
unfoldable pub signal_state_change : ComponentState → NiceComponent → Option NiceComponent
signal_state_change new_state c =
    if can_follow c.state new_state then some (record c { state = new_state }) else none

-- To go on with a component unless an assertion failed
abbrev pub on_component :
    {A : Type 0} → Option NiceComponent → (NiceComponent → Option A) → Option A
on_component none f = none
on_component (some c) f = f c

abbrev pub signal_if : Bool → ComponentState → NiceComponent → Option NiceComponent
signal_if b s c = if b then signal_state_change s c else some c

-- The component goes through the states to READY, in
-- `conn_check_update_check_list_state_for_ready`, `nice_agent_set_selected_pair` and
-- `nice_agent_set_selected_remote_candidate`
unfoldable pub go_ready : NiceComponent → Option NiceComponent
go_ready c =
    on_component (signal_if (before_connecting c.state || is_failed_state c.state) connecting c)
      λ c'.
        on_component (signal_if (before_connected c'.state) connected c')
          (signal_state_change ready)
