-- ===== src/Ice/Component/Fail.antt =====
-- agent/conncheck.c: `priv_update_check_list_failed_components`. The ids of a stream's components are the
-- numbers from 1 on, so that the loop over the numbers is one over the components.
use libnice.Base.{
  ℕ, Bool, true, false, not, ◌&&◌, ◌||◌, ◌==◌, if◌then◌else◌, Option, none, some, List, [], ◌∷◌,
}
use libnice.Ice.Check.{CheckPair, NiceStream, is_failed, is_succeeded, is_discovered}
use libnice.Ice.Component.{failed, NiceComponent, signal_state_change}

-- What is read of a `CandidateDiscovery`
pub record CandidateDiscovery : Type 0 where
  pub stream_id : ℕ
  pub done : Bool

-- A discovery of the stream goes on.
unfoldable pub discovers : ℕ → List CandidateDiscovery → Bool
discovers stream_id [] = false
discovers stream_id (d ∷ rest) =
    ((d.stream_id == stream_id) && not d.done) || discovers stream_id rest

abbrev pub is_over : CheckPair → Bool
is_over p = is_failed p || is_succeeded p || is_discovered p

-- `completed`, and whether `nominated` is positive
unfoldable pub completed : ℕ → List CheckPair → Bool
completed component_id [] = true
completed component_id (p ∷ rest) =
    (not (p.component_id == component_id) || is_over p) && completed component_id rest

unfoldable pub any_nominated : ℕ → List CheckPair → Bool
any_nominated component_id [] = false
any_nominated component_id (p ∷ rest) =
    ((p.component_id == component_id) && p.nominated) || any_nominated component_id rest

abbrev pub is_none {κ} : {A : Type κ} → List A → Bool
is_none [] = true
is_none (x ∷ rest) = false

-- The condition of the body of the loop
unfoldable pub fails : List CheckPair → NiceComponent → Bool
fails ps c = completed c.id ps && not (any_nominated c.id ps) && not (is_none c.remote_candidates)

unfoldable pub fail_components : List CheckPair → List NiceComponent → Option (List NiceComponent)
fail_components ps [] = some []
fail_components ps (c ∷ rest) =
    let later = fail_components ps rest in
    elim (if fails ps c then signal_state_change failed c else some c) [
      | none ↦ none
      | some c' ↦ elim later [ none ↦ none | some cs ↦ some (c' ∷ cs) ]
    ]

-- The assertion for each pair of the list
unfoldable pub all_of_stream : ℕ → List CheckPair → Bool
all_of_stream stream_id [] = true
all_of_stream stream_id (p ∷ rest) = (p.stream_id == stream_id) && all_of_stream stream_id rest

-- `priv_update_check_list_failed_components`; the assertion is tried for each component.
unfoldable pub update_failed_components :
    List CandidateDiscovery → NiceStream → List NiceComponent → Option (List NiceComponent)
update_failed_components discovery_list stream components =
    if is_none stream.conncheck_list
      || discovers stream.id discovery_list
      || not (is_none discovery_list)
    then some components
    else if is_none components || all_of_stream stream.id stream.conncheck_list
    then fail_components stream.conncheck_list components
    else none
