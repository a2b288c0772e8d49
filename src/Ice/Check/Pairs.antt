-- ===== src/Ice/Check/Pairs.antt =====
-- agent/conncheck.c: how pairs come into a check list, and what a change of the role does with the lists. The
-- candidates are a store, a function from pointers.
use libnice.Base.{
  ℕ, Bool, true, false, not, ◌&&◌, ltb, ◌==◌, if◌then◌else◌, Option, none, some, List, [], ◌∷◌,
  ◌++◌, take, map,
}
use libnice.Ice.Candidate.{
  CandidateType, peer_reflexive, Transport, udp, tcp_active, tcp_passive, tcp_so, pair_priority,
}
use libnice.Ice.Component.{NiceComponent}
use libnice.Ice.Check.{CheckPair, CheckState, NiceStream, discovered, is_frozen}
use libnice.Ice.Check.Order.{SortedList, compare}
use libnice.Ice.Check.Freeze.{unfreeze_maybe}
use libnice.Ice.Check.Limit.{limit_conn_check_list_size}

-- `NiceCompatibility`
pub data NiceCompatibility : Type 0 where
  rfc5245 google msn wlm2009 oc2007 oc2007r2 : NiceCompatibility

-- What the checks use of a `NiceCandidateImpl`
pub record NiceCandidate : Type 0 where
  pub candidate_type : CandidateType
  pub transport : Transport
  pub priority : ℕ
  pub foundation : List ℕ
  pub sockptr : ℕ

-- What the checks use of a `NiceAgent`
pub record NiceAgent : Type 0 where
  pub controlling_mode : Bool
  pub compatibility : NiceCompatibility
  pub max_conn_checks : ℕ
  pub streams : List NiceStream
  pub triggered_check_queue : List ℕ

abbrev pub is_rfc5245 : NiceCompatibility → Bool
is_rfc5245 c = elim c [ rfc5245 ↦ true | _ ↦ false ]

-- `NICE_AGENT_IS_COMPATIBLE_WITH_RFC5245_OR_OC2007R2`
abbrev pub is_rfc5245_or_oc2007r2 : NiceCompatibility → Bool
is_rfc5245_or_oc2007r2 c = elim c [ rfc5245 ↦ true | oc2007r2 ↦ true | _ ↦ false ]

-- `conn_check_match_transport`
unfoldable pub match_transport : Transport → Transport
match_transport tcp_active = tcp_passive
match_transport tcp_passive = tcp_active
match_transport tcp_so = tcp_so
match_transport udp = udp

-- `agent_candidate_pair_priority`
unfoldable pub candidate_pair_priority : Bool → NiceCandidate → NiceCandidate → ℕ
candidate_pair_priority controlling_mode local_ remote =
    if controlling_mode
    then pair_priority local_.priority remote.priority
    else pair_priority remote.priority local_.priority

-- `g_snprintf (pair->foundation, NICE_CANDIDATE_PAIR_MAX_FOUNDATION, "%s:%s", ...)`
unfoldable pub pair_foundation : NiceCandidate → NiceCandidate → List ℕ
pair_foundation local_ remote = take 65 (local_.foundation ++ (0x3a ∷ remote.foundation))

-- The pair at an address changes.
unfoldable pub update_pair : ℕ → (CheckPair → CheckPair) → List CheckPair → List CheckPair
update_pair pair f [] = []
update_pair pair f (p ∷ rest) = (if p.address == pair then f p else p) ∷ update_pair pair f rest

abbrev pub is_tcp_passive : Transport → Bool
is_tcp_passive t = elim t [ tcp_passive ↦ true | _ ↦ false ]

abbrev pub is_peer_reflexive : CandidateType → Bool
is_peer_reflexive t = elim t [ peer_reflexive ↦ true | _ ↦ false ]

-- The pair that `priv_add_new_check_pair` allocates at `address`, where `stun_request_priority` gives
-- `stun_priority`
unfoldable pub new_pair :
    NiceAgent
    → (ℕ → NiceCandidate)
    → ℕ
    → ℕ
    → NiceStream
    → NiceComponent
    → ℕ
    → ℕ
    → CheckState
    → CheckPair
new_pair agent candidates stun_priority address stream component local_ remote initial_state =
    record {
      address = address;
      stream_id = stream.id;
      component_id = component.id;
      local_ = local_;
      remote = remote;
      sockptr =
          if is_tcp_passive (candidates local_).transport
            && is_peer_reflexive (candidates remote).candidate_type
          then (candidates remote).sockptr
          else (candidates local_).sockptr;
      foundation = pair_foundation (candidates local_) (candidates remote);
      state = initial_state;
      nominated = false;
      valid = false;
      use_candidate_on_next_check = false;
      mark_nominated_on_response_arrival = false;
      retransmit = false;
      discovered_pair = none;
      succeeded_pair = none;
      priority =
          candidate_pair_priority agent.controlling_mode (candidates local_) (candidates remote);
      stun_priority = stun_priority;
      has_transactions = false;
    }

-- The list of `stream` with a pair inserted, which `priv_conn_check_unfreeze_maybe` may unfreeze
unfoldable pub inserted : SortedList → NiceAgent → NiceStream → CheckPair → List CheckPair
inserted g agent stream pair =
    let ps = g.insert_sorted compare pair stream.conncheck_list in
    if is_frozen pair then update_pair pair.address (unfreeze_maybe agent.streams) ps else ps

-- `priv_add_new_check_pair`: the check list, the queue of triggered checks, and the pair or NULL
unfoldable pub add_new_check_pair :
    SortedList
    → NiceAgent
    → (ℕ → NiceCandidate)
    → ℕ
    → ℕ
    → NiceStream
    → NiceComponent
    → ℕ
    → ℕ
    → CheckState
    → List CheckPair × List ℕ × Option ℕ
add_new_check_pair g agent candidates stun_priority address stream component local_ remote
      initial_state =
    let pair =
      new_pair agent candidates stun_priority address stream component local_ remote
        initial_state in
    let ps = inserted g agent stream pair in
    let r =
      limit_conn_check_list_size agent.max_conn_checks address ps agent.triggered_check_queue in
    if not (component.selected_pair.priority == 0)
      && ltb pair.priority component.selected_pair.priority
    then (stream.conncheck_list, agent.triggered_check_queue, none)
    else if is_rfc5245 agent.compatibility
    then (r.0, r.1, if r.2 then none else some address)
    else (ps, agent.triggered_check_queue, some address)

-- `priv_add_peer_reflexive_pair`: the check list with the pair at `address`, where `parent_pair` points to it
unfoldable pub add_peer_reflexive_pair :
    SortedList
    → NiceAgent
    → (ℕ → NiceCandidate)
    → ℕ
    → NiceStream
    → NiceComponent
    → ℕ
    → CheckPair
    → List CheckPair
add_peer_reflexive_pair g agent candidates address stream component local_cand parent_pair =
    let pair : CheckPair = record {
      address = address;
      stream_id = stream.id;
      component_id = component.id;
      local_ = local_cand;
      remote = parent_pair.remote;
      sockptr = (candidates local_cand).sockptr;
      foundation = pair_foundation (candidates local_cand) (candidates parent_pair.remote);
      state = discovered;
      nominated = parent_pair.nominated;
      valid = false;
      use_candidate_on_next_check = false;
      mark_nominated_on_response_arrival = false;
      retransmit = false;
      discovered_pair = none;
      succeeded_pair = some parent_pair.address;
      priority =
          candidate_pair_priority agent.controlling_mode (candidates local_cand)
            (candidates parent_pair.remote);
      stun_priority = parent_pair.stun_priority;
      has_transactions = false;
    } in
    g.insert_sorted compare pair (
      update_pair parent_pair.address (λ p. record p { discovered_pair = some address })
        stream.conncheck_list)

-- The body of the loop of `recalculate_pair_priorities`
unfoldable pub recalculated : Bool → (ℕ → NiceCandidate) → CheckPair → CheckPair
recalculated controlling_mode candidates p = record p {
  priority = candidate_pair_priority controlling_mode (candidates p.local_) (candidates p.remote);
}

unfoldable pub recalculate_stream :
    SortedList → Bool → (ℕ → NiceCandidate) → NiceStream → NiceStream
recalculate_stream g controlling_mode candidates s = record s {
  conncheck_list = g.sort compare (map (recalculated controlling_mode candidates) s.conncheck_list);
}

-- `recalculate_pair_priorities`
unfoldable pub recalculate_pair_priorities :
    SortedList → (ℕ → NiceCandidate) → NiceAgent → NiceAgent
recalculate_pair_priorities g candidates agent = record agent {
  streams = map (recalculate_stream g agent.controlling_mode candidates) agent.streams;
}

abbrev pub is_same : Bool → Bool → Bool
is_same a b = if a then b else not b

-- `priv_check_for_role_conflict`
unfoldable pub check_for_role_conflict :
    SortedList → (ℕ → NiceCandidate) → Bool → NiceAgent → NiceAgent
check_for_role_conflict g candidates control agent =
    if is_same control agent.controlling_mode
    then agent
    else recalculate_pair_priorities g candidates (record agent { controlling_mode = control })
