-- ===== src/Ice/Component/Nominate.antt =====
-- agent/conncheck.c, agent/component.c: how a pair is nominated after the response to a check, and
-- selected. The refreshes and discoveries of a relay candidate, the keepalives and the valid candidates are
-- left out.
use libnice.Base.{
  ℕ, Bool, true, false, not, ◌&&◌, ◌||◌, ◌==◌, ltb, if◌then◌else◌, Option, none, some, List, [],
  ◌∷◌,
}
use libnice.Ice.Check.{CheckPair, remove_triggered}
use libnice.Ice.Check.Queue.{has_address}
use libnice.Ice.Check.Pairs.{NiceCandidate, NiceCompatibility, is_rfc5245_or_oc2007r2, update_pair}
use libnice.Ice.Component.{connected, failed, NiceComponent, on_component, signal_if, is_ready}
use libnice.Ice.Component.Ready.{update_for_ready}

-- `NiceNominationMode`
pub data NominationMode : Type 0 where
  regular aggressive : NominationMode

-- The part of `priv_map_reply_to_conn_check_request` that updates the nominated flag, for the pair `p` of the
-- check and the valid pair `ok_pair`
unfoldable pub nominates : NiceCompatibility → Bool → NominationMode → CheckPair → CheckPair → Bool
nominates compatibility controlling_mode nomination_mode p ok_pair =
    ok_pair.nominated
    || (is_rfc5245_or_oc2007r2 compatibility
        && (if controlling_mode
            then elim nomination_mode [
              | regular ↦ p.use_candidate_on_next_check
              | aggressive ↦ not p.nominated
            ]
            else p.mark_nominated_on_response_arrival))

-- The pair at an address becomes nominated.
unfoldable pub nominate : ℕ → List CheckPair → List CheckPair
nominate pair ps = update_pair pair (λ q. record q { nominated = true }) ps

-- The check list, the queue of triggered checks and the component; `none` when an assertion fails or a freed
-- pair is read
abbrev pub Outcome : Type 0
Outcome = Option (List CheckPair × List ℕ × NiceComponent)

-- To go on with them
abbrev pub on_outcome : Outcome → (List CheckPair → List ℕ → NiceComponent → Outcome) → Outcome
on_outcome none f = none
on_outcome (some r) f = f r.0 r.1 r.2

-- A pair that uses the socket
unfoldable pub on_socket : (ℕ → NiceCandidate) → ℕ → CheckPair → Bool
on_socket candidates sock p =
    ((candidates p.local_).sockptr == sock)
    || ((candidates p.remote).sockptr == sock)
    || (p.sockptr == sock)

-- The loop of `conn_check_prune_socket`: the pairs, the queue of triggered checks, `pair_failed`
unfoldable pub prune_pairs :
    (ℕ → NiceCandidate) → ℕ → List CheckPair → List ℕ → List CheckPair × List ℕ × Bool
prune_pairs candidates sock [] queue = ([], queue, false)
prune_pairs candidates sock (p ∷ rest) queue =
    let gone = on_socket candidates sock p in
    let r =
      prune_pairs candidates sock rest (if gone then remove_triggered queue p.address else queue) in
    (if gone then r.0 else p ∷ r.0, r.1, gone || r.2)

-- The local candidate of the selected pair has the socket.
unfoldable pub selects_socket : (ℕ → NiceCandidate) → ℕ → NiceComponent → Bool
selects_socket candidates sock c = elim c.selected_pair.local_ [
  | none ↦ false
  | some l ↦ (candidates l).sockptr == sock
]

-- `conn_check_prune_socket`
unfoldable pub prune_socket :
    (ℕ → NiceCandidate) → ℕ → List CheckPair → List ℕ → NiceComponent → Outcome
prune_socket candidates sock ps queue c =
    on_component (signal_if (selects_socket candidates sock c && is_ready c.state) failed c) λ c'.
      let r = prune_pairs candidates sock ps queue in
      if r.2 then update_for_ready r.0 r.1 c' else some (r.0, r.1, c')

-- The relay candidate put aside by `nice_component_clean_turn_servers`, while the selected pair has it
unfoldable pub relay_in_use : NiceComponent → Option ℕ
relay_in_use c = elim c.selected_pair.local_ [
  | none ↦ none
  | some l ↦ elim c.turn_candidate [ none ↦ none | some t ↦ if l == t then some t else none ]
]

-- The new selected pair in `nice_component_update_selected_pair`
abbrev pub selecting : NiceComponent → CheckPair → NiceComponent
selecting c pair = record c {
  selected_pair = record {
    local_ = some pair.local_;
    remote = some pair.remote;
    priority = pair.priority;
    stun_priority = pair.stun_priority;
  };
}

-- `nice_component_update_selected_pair`
unfoldable pub replace_selected_pair :
    (ℕ → NiceCandidate) → List CheckPair → List ℕ → NiceComponent → CheckPair → Outcome
replace_selected_pair candidates ps queue c pair = elim (relay_in_use c) [
  | none ↦ some (ps, queue, selecting c pair)
  | some t ↦
      on_outcome (prune_socket candidates (candidates t).sockptr ps queue c)
        λ ps' queue' c'. some (ps', queue', selecting (record c' { turn_candidate = none }) pair)
]

-- `conn_check_update_selected_pair` for a pair of the check list; after the selection it reads the pair.
unfoldable pub update_selected_pair :
    (ℕ → NiceCandidate) → List CheckPair → List ℕ → NiceComponent → CheckPair → Outcome
update_selected_pair candidates ps queue c pair =
    if pair.nominated
    then (if ltb c.selected_pair.priority pair.priority
        then on_outcome (replace_selected_pair candidates ps queue c pair)
            (λ ps' queue' c'. if has_address pair.address ps' then some (ps', queue', c') else none)
        else some (ps, queue, c))
    else none

-- What follows the nomination up to `conn_check_update_check_list_state_for_ready`
unfoldable pub after_response :
    (ℕ → NiceCandidate) → Bool → CheckPair → List CheckPair → List ℕ → NiceComponent → Outcome
after_response candidates nominated ok_pair ps queue c =
    if nominated
    then on_outcome
        (update_selected_pair candidates (nominate ok_pair.address ps) queue c
          (record ok_pair { nominated = true }))
        (λ ps' queue' c'.
          on_component (signal_if (not (is_ready c'.state)) connected c')
            (λ c''. update_for_ready ps' queue' c''))
    else update_for_ready ps queue c
