-- ===== src/Ice/Component/Relay.antt =====
-- agent/conncheck.c, agent/component.c: the selection of a pair while the selected one has a relay
-- candidate that `nice_component_clean_turn_servers` put aside.
use libnice.Base.{
  ℕ, ◌<◌, ◌≡◌, refl, arith, true, ◌&&◌, ◌==◌, ltb, none, some, List, Bool-cases, inl, inr, ◌⊎◌,
}
use libnice.Ice.Check.{CheckPair}
use libnice.Ice.Check.Queue.{has_address}
use libnice.Ice.Check.Pairs.{NiceCandidate}
use libnice.Ice.Check.Prune.{prune_pending_checks}
use libnice.Ice.Component.{
  ready, failed, NiceComponent, can_follow, signal_state_change, signal_if, is_ready,
}
use libnice.Ice.Component.Ready.{has_nominated, update_for_ready}
use libnice.Ice.Component.Nominate.{
  after_response, nominate, relay_in_use, selects_socket, prune_pairs, prune_socket,
  replace_selected_pair, update_selected_pair, selecting,
}
use libnice.Ice.Component.Select.{to_connected}

-- Without the priority of a selected pair the state for ready stays, or an assertion fails.
update_for_ready-unselected :
    (ps : List CheckPair) (queue : List ℕ) (c : NiceComponent)
    → c.selected_pair.priority ≡ 0
    → (update_for_ready ps queue c ≡ none) ⊎ (update_for_ready ps queue c ≡ some (ps, queue, c))
unfolding update_for_ready prune_pending_checks
update_for_ready-unselected ps queue c z = elim (Bool-cases (has_nominated c.id ps)) [
  | inl e ↦ inl (rw (e, z) refl)
  | inr e ↦ inr (rw e refl)
]

module _ (candidates : ℕ → NiceCandidate) (t : ℕ) (ps : List CheckPair) (queue : List ℕ)
    (c : NiceComponent) (at : c.state ≡ ready) (zero_priority : c.selected_pair.priority ≡ 0)
    (local_ : c.selected_pair.local_ ≡ some t) (aside : c.turn_candidate ≡ some t) where
  to_failed :
      signal_if (selects_socket candidates (candidates t).sockptr c && is_ready c.state) failed c
      ≡ some (record c { state = failed })
  unfolding selects_socket signal_state_change can_follow
  to_failed =
      let same : ((candidates t).sockptr == (candidates t).sockptr) ≡ true = ground arith in
      rw (local_, same, at) refl

  -- The socket of the selected pair goes, and the component is FAILED, unless an assertion fails.
  prune_socket-failed :
      (prune_socket candidates (candidates t).sockptr ps queue c ≡ none)
      ⊎ (ps' : List CheckPair) × (queue' : List ℕ) × (prune_socket candidates
            (candidates t).sockptr
            ps
            queue
            c
          ≡ some (ps', queue', record c { state = failed }))
  unfolding prune_socket
  prune_socket-failed =
      let r = prune_pairs candidates (candidates t).sockptr ps queue in
      elim (Bool-cases r.2) [
        | inr e ↦ inr (r.0, r.1, rw (to_failed, e) refl)
        | inl e ↦
            elim (update_for_ready-unselected r.0 r.1 (record c { state = failed }) zero_priority) [
              | inl n ↦ inl (rw (to_failed, e) n)
              | inr n ↦ inr (r.0, r.1, rw (to_failed, e) n)
            ]
      ]

  relay_in_use-eq : relay_in_use c ≡ some t
  unfolding relay_in_use
  relay_in_use-eq = let same : (t == t) ≡ true = ground arith in rw (local_, aside, same) refl

  replace_selected_pair-none :
      prune_socket candidates (candidates t).sockptr ps queue c ≡ none
      → (q : CheckPair) → replace_selected_pair candidates ps queue c q ≡ none
  unfolding replace_selected_pair
  replace_selected_pair-none e q = rw (replace_selected_pair, relay_in_use-eq, e) refl

  replace_selected_pair-failed :
      {ps' : List CheckPair} {queue' : List ℕ}
      → prune_socket candidates (candidates t).sockptr ps queue c
        ≡ some (ps', queue', record c { state = failed })
      → (q : CheckPair)
      → replace_selected_pair candidates ps queue c q
        ≡ some (ps', queue', selecting (record c { state = failed; turn_candidate = none }) q)
  unfolding replace_selected_pair
  replace_selected_pair-failed e q = rw (replace_selected_pair, relay_in_use-eq, e) refl

  update_selected_pair-failed :
      (q : CheckPair)
      → q.nominated ≡ true
      → 0 < q.priority
      → (update_selected_pair candidates ps queue c q ≡ none)
        ⊎ (ps' : List CheckPair) × (queue' : List ℕ) × (c' : NiceComponent) × (update_selected_pair
              candidates ps queue c q
            ≡ some (ps', queue', c'))
          × (c'.state ≡ failed)
  unfolding update_selected_pair
  update_selected_pair-failed q n positive =
      let better : ltb c.selected_pair.priority q.priority ≡ true =
        ground (arith, zero_priority, positive) in
      elim prune_socket-failed [
        | inl e ↦ inl (rw (n, better, replace_selected_pair-none e) refl)
        | inr (ps', queue', e) ↦
            let c' = selecting (record c { state = failed; turn_candidate = none }) q in
            elim (Bool-cases (has_address q.address ps')) [
              | inl h ↦
                  inr
                    (ps', queue', c', rw (n, better, replace_selected_pair-failed e, h) refl, refl)
              | inr h ↦ inl (rw (n, better, replace_selected_pair-failed e, h) refl)
            ]
      ]

-- While a component is READY with a relay candidate selected that was put aside, so that the priority of the
-- selected pair is 0, each response that nominates a pair of positive priority ends the program: an
-- assertion fails, or a freed pair is read.
pub after_response-relay_aborts :
    (candidates : ℕ → NiceCandidate) (ok_pair : CheckPair) (ps : List CheckPair) (queue : List ℕ)
    (c : NiceComponent) (relay : ℕ)
    → c.state ≡ ready
    → c.selected_pair.priority ≡ 0
    → c.selected_pair.local_ ≡ some relay
    → c.turn_candidate ≡ some relay
    → 0 < ok_pair.priority
    → after_response candidates true ok_pair ps queue c ≡ none
unfolding after_response
after_response-relay_aborts candidates ok ps queue c relay at zero local_ aside positive =
    let q : CheckPair = record ok { nominated = true } in
    elim (update_selected_pair-failed candidates relay (nominate ok.address ps) queue c at zero
      local_ aside q refl positive) [
        | inl e ↦ rw e refl
        | inr (ps', queue', c', e, f) ↦
            let refused = (to_connected failed c' f).0 refl in rw (e, refused) refl
      ]
