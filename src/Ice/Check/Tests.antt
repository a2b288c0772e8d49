-- ===== src/Ice/Check/Tests.antt =====
-- The theorems about check lists and components at concrete ones.
use libnice.Base.{
  ℕ, ◌≡◌, refl, arith, Bool, true, false, not, ◌||◌, if◌then◌else◌, none, some, List, [], ◌∷◌, ◌++◌,
  take, drop,
}
use libnice.Ice.Candidate.{host, udp, pair_priority}
use libnice.Ice.Check.{
  CheckPair, CheckState, NiceStream, waiting, in_progress, succeeded, frozen, queued, failed,
  find_next_waiting, is_failed,
}
use libnice.Ice.Check.Order.{IsOrdered, IsBest, find_next_waiting-IsBest}
use libnice.Ice.Check.Freeze.{any_waiting_stream, unfreeze_next}
use libnice.Ice.Check.Count.{count_waiting_streams, has_frozen_streams}
use libnice.Ice.Check.Thaw.{ThawsStreams, unfreeze_next_counts, unfreeze_next_progress}
use libnice.Ice.Check.Queue.{has_address}
use libnice.Ice.Check.Limit.{
  keep, is_active, limit_conn_check_list_size, limit_conn_check_list_size_keeps,
}
use libnice.Ice.Check.Prune.{prune_pending_checks, Pruned, prune_pending_checks-Pruned}
use libnice.Ice.Check.Invariant.{IsCheckList, freeing-IsCheckList}
use libnice.Ice.Check.Pairs.{
  NiceAgent, NiceCandidate, rfc5245, add_new_check_pair, check_for_role_conflict,
  candidate_pair_priority,
}
use libnice.Ice.Check.Added.{Sound, add_new_check_pair-Sound}
use libnice.Ice.Check.Role.{AreRanked, check_for_role_conflict-AreRanked}
use libnice.Ice.Check.Sorting.{insertion_sort, insertion_sort-Sorts}
use libnice.Ice.Component.{NiceComponent, connecting, ready, failed as failed_state}
use libnice.Ice.Component.Fail.{
  CandidateDiscovery, is_none, all_of_stream, update_failed_components,
}
use libnice.Ice.Component.Settled.{AreSettled, update_failed_components-AreSettled}
use libnice.Ice.Component.Ready.{update_for_ready, Updated, update_for_ready-Updated}
use libnice.Ice.Component.Nominate.{after_response}
use libnice.Ice.Component.Relay.{after_response-relay_aborts}

abbrev pair : ℕ → CheckState → ℕ → Bool → CheckPair
pair address state priority nominated = record {
  address = address;
  stream_id = 1;
  component_id = 1;
  local_ = address;
  remote = 0;
  sockptr = 0;
  foundation = 0x31 ∷ 0x3a ∷ 0x31 ∷ [];
  state = state;
  nominated = nominated;
  valid = nominated;
  use_candidate_on_next_check = false;
  mark_nominated_on_response_arrival = false;
  retransmit = true;
  discovered_pair = none;
  succeeded_pair = none;
  priority = priority;
  stun_priority = 1;
  has_transactions = true;
}

-- A check goes on above the nominated pair, two others are frozen or wait below it.
abbrev checks : List CheckPair
checks =
    pair 1 in_progress 9 false
    ∷ pair 2 succeeded 5 true
    ∷ pair 3 waiting 4 false
    ∷ pair 4 frozen 3 false
    ∷ []

abbrev stream : NiceStream
stream = record { id = 1; conncheck_list = checks }

abbrev frozen_stream : NiceStream
frozen_stream = record {
  id = 1;
  conncheck_list = pair 1 frozen 9 false ∷ pair 2 frozen 5 false ∷ [];
}

abbrev component : NiceComponent
component = record {
  id = 1;
  state = connecting;
  selected_pair = record { local_ = some 2; remote = some 0; priority = 5; stun_priority = 1 };
  turn_candidate = none;
  remote_candidates = 0 ∷ [];
}

checks-IsOrdered : IsOrdered checks
checks-IsOrdered = (
  (omega arith, (omega arith, (omega arith, tt))),
  ((omega arith, (omega arith, tt)), ((omega arith, tt), (tt, tt))),
)

checks-IsCheckList : IsCheckList (λ a. false) checks (1 ∷ [])
unfolding queued has_address
checks-IsCheckList = record {
  ordered = checks-IsOrdered;
  unique = (refl, tt);
  safe = λ a h. ground (arith, h);
}

find_next_waiting-IsBest_example : IsBest (find_next_waiting checks) checks
find_next_waiting-IsBest_example = find_next_waiting-IsBest checks checks-IsOrdered

unfreeze_next_counts_example :
    (any_waiting_stream (frozen_stream ∷ []) ≡ true
      → unfreeze_next (frozen_stream ∷ []) ≡ (frozen_stream ∷ [], true))
    × (any_waiting_stream (frozen_stream ∷ []) ≡ false
        → ThawsStreams (frozen_stream ∷ []) (unfreeze_next (frozen_stream ∷ [])).0
          × ((f : List ℕ)
              → count_waiting_streams f (unfreeze_next (frozen_stream ∷ [])).0
                ≡ (if has_frozen_streams f (frozen_stream ∷ []) then 1 else 0)))
unfreeze_next_counts_example = unfreeze_next_counts (frozen_stream ∷ [])

unfreeze_next_progress_example :
    ((unfreeze_next (frozen_stream ∷ [])).1
      ≡ any_waiting_stream (unfreeze_next (frozen_stream ∷ [])).0)
    × ((f : List ℕ)
        → (unfreeze_next (frozen_stream ∷ [])).1 ≡ false
        → has_frozen_streams f (frozen_stream ∷ []) ≡ false)
    × (unfreeze_next (unfreeze_next (frozen_stream ∷ [])).0 ≡ unfreeze_next (frozen_stream ∷ []))
unfreeze_next_progress_example = unfreeze_next_progress (frozen_stream ∷ [])

limit_conn_check_list_size_keeps_example :
    (limit_conn_check_list_size 2 4 checks (1 ∷ [])).0
    ≡ keep (λ p. not (is_failed p)) (take 2 checks) ++ keep is_active (drop 2 checks)
limit_conn_check_list_size_keeps_example = limit_conn_check_list_size_keeps 2 4 checks (1 ∷ [])

prune_pending_checks-Pruned_example :
    (ps' : List CheckPair) × (queue' : List ℕ) × (count : ℕ) × (prune_pending_checks 1 5 checks
        (1 ∷ [])
      ≡ some (ps', queue', count))
    × Pruned 1 5 count checks ps'
prune_pending_checks-Pruned_example = prune_pending_checks-Pruned 1 5 checks (1 ∷ []) (omega arith)

freeing-IsCheckList_example :
    ((max_conn_checks pair : ℕ)
      → let r = limit_conn_check_list_size max_conn_checks pair checks (1 ∷ []) in
        IsCheckList (λ a. false) r.0 r.1)
    × ((component_id priority : ℕ) (ps' : List CheckPair) (queue' : List ℕ) (count : ℕ)
        → prune_pending_checks component_id priority checks (1 ∷ []) ≡ some (ps', queue', count)
        → IsCheckList (λ a. false) ps' queue')
freeing-IsCheckList_example = freeing-IsCheckList (λ a. false) checks (1 ∷ []) checks-IsCheckList

-- The candidates have the address as their priority.
abbrev candidates : ℕ → NiceCandidate
candidates a = record {
  candidate_type = host;
  transport = udp;
  priority = a;
  foundation = 0x31 ∷ [];
  sockptr = 0;
}

abbrev agent : NiceAgent
agent = record {
  controlling_mode = true;
  compatibility = rfc5245;
  max_conn_checks = 3;
  streams = stream ∷ [];
  triggered_check_queue = 1 ∷ [];
}

add_new_check_pair-Sound_example :
    Sound
      (λ a. false)
      (add_new_check_pair insertion_sort agent candidates 1 5 stream component 7 8 frozen)
add_new_check_pair-Sound_example =
    add_new_check_pair-Sound insertion_sort (λ a. false) agent candidates 1 5 stream component 7 8
      frozen insertion_sort-Sorts checks-IsCheckList

-- Two pairs with the priorities that the controlling role gives them
abbrev ranked : List CheckPair
ranked = pair 2 waiting 5 false ∷ pair 1 waiting 3 false ∷ []

abbrev ranked_agent : NiceAgent
ranked_agent = record agent { streams = record { id = 1; conncheck_list = ranked } ∷ [] }

ranked-AreRanked : AreRanked true candidates (record { id = 1; conncheck_list = ranked } ∷ [])
unfolding candidate_pair_priority pair_priority
ranked-AreRanked = (((omega arith, tt), (tt, tt)), (refl, (refl, tt)), tt)

check_for_role_conflict-AreRanked_example :
    let agent' = check_for_role_conflict insertion_sort candidates false ranked_agent in
    (agent'.controlling_mode ≡ false) × AreRanked agent'.controlling_mode candidates agent'.streams
check_for_role_conflict-AreRanked_example =
    check_for_role_conflict-AreRanked insertion_sort candidates false ranked_agent
      insertion_sort-Sorts ranked-AreRanked

update_for_ready-Updated_example :
    (r : List CheckPair × List ℕ × NiceComponent) × (update_for_ready checks (1 ∷ []) component
      ≡ some r)
    × Updated checks (1 ∷ []) component r
update_for_ready-Updated_example =
    update_for_ready-Updated checks (1 ∷ []) component (λ e. omega arith)

-- A component that a keepalive made fail while a check goes on
abbrev failed_component : NiceComponent
failed_component = record component { state = failed_state }

-- A component that goes on with the candidate 2 after its relays were forgotten
abbrev relayed_component : NiceComponent
relayed_component = record component {
  state = ready;
  selected_pair = record { local_ = some 2; remote = some 0; priority = 0; stun_priority = 1 };
  turn_candidate = some 2;
}

after_response-relay_aborts_example :
    after_response candidates true (pair 1 succeeded 9 false) checks (1 ∷ []) relayed_component
    ≡ none
after_response-relay_aborts_example =
    after_response-relay_aborts candidates (pair 1 succeeded 9 false) checks (1 ∷ [])
      relayed_component 2 refl refl refl refl (omega arith)

-- A component whose only check has failed
abbrev failing_stream : NiceStream
failing_stream = record { id = 1; conncheck_list = pair 1 failed 9 false ∷ [] }

of_stream : all_of_stream 1 (pair 1 failed 9 false ∷ []) ≡ true
unfolding all_of_stream
of_stream = refl

update_failed_components-AreSettled_example :
    (cs : List NiceComponent) × (update_failed_components [] failing_stream (component ∷ [])
      ≡ some cs)
    × (is_none (pair 1 failed 9 false ∷ []) ≡ false
        → is_none {A = CandidateDiscovery} [] ≡ true
        → AreSettled (pair 1 failed 9 false ∷ []) (component ∷ []) cs)
    × (is_none (pair 1 failed 9 false ∷ []) || not (is_none {A = CandidateDiscovery} []) ≡ true
        → cs ≡ component ∷ [])
update_failed_components-AreSettled_example =
    update_failed_components-AreSettled [] failing_stream (component ∷ []) of_stream
