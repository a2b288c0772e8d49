-- ===== src/Ice/Component/Ready.antt =====
-- agent/conncheck.c: when a component becomes ready.
use libnice.Base.{
  ℕ, ◌<◌, ◌≡◌, refl, ap, ◌∙◌, arith, Bool, true, false, ◌&&◌, ◌||◌, ◌==◌, if◌then◌else◌, Option,
  none, some, List, [], ◌∷◌, Bool-cases, inl, inr,
}
use libnice.Ice.Check.{CheckPair}
use libnice.Ice.Check.Order.{All}
use libnice.Ice.Check.Prune.{prune_pending_checks, Pruned, IsClosed, prune_pending_checks-Pruned}
use libnice.Ice.Component.{
  ComponentState, disconnected, gathering, connecting, connected, ready, failed, NiceComponent,
  can_follow, signal_state_change, go_ready, on_component,
}

-- A pair of the component that is valid and nominated
unfoldable pub has_nominated : ℕ → List CheckPair → Bool
has_nominated component_id [] = false
has_nominated component_id (p ∷ rest) =
    ((p.component_id == component_id) && p.valid && p.nominated) || has_nominated component_id rest

-- `conn_check_update_check_list_state_for_ready`: the check list, the queue of triggered checks, the component
unfoldable pub update_for_ready :
    List CheckPair → List ℕ → NiceComponent → Option (List CheckPair × List ℕ × NiceComponent)
update_for_ready ps queue c =
    if has_nominated c.id ps
    then elim (prune_pending_checks c.id c.selected_pair.priority ps queue) [
      | none ↦ none
      | some r ↦
          if r.2 == 0
          then on_component (go_ready c) (λ c'. some (r.0, r.1, c'))
          else some (r.0, r.1, c)
    ]
    else some (ps, queue, c)

go_ready_state :
    (s : ComponentState) (c : NiceComponent)
    → c.state ≡ s
    → go_ready c ≡ some (record c { state = ready })
unfolding go_ready signal_state_change can_follow
go_ready_state disconnected c e = rw e refl
go_ready_state gathering c e = rw e refl
go_ready_state connecting c e = rw e refl
go_ready_state connected c e = rw e refl
go_ready_state ready c e = rw e refl
go_ready_state failed c e = rw e refl

-- From each state the steps to READY are transitions that the program accepts.
pub go_ready-eq : (c : NiceComponent) → go_ready c ≡ some (record c { state = ready })
go_ready-eq c = go_ready_state c.state c refl

-- What `conn_check_update_check_list_state_for_ready` makes of a component and its check list
pub data Updated (ps : List CheckPair) (queue : List ℕ) (c : NiceComponent)
    : List CheckPair × List ℕ × NiceComponent → Type 0 where
  nothing_nominated : has_nominated c.id ps ≡ false → Updated ps queue c (ps, queue, c)
  goes_on :
      (ps' : List CheckPair) (queue' : List ℕ) (count : ℕ)
      → has_nominated c.id ps ≡ true
      → prune_pending_checks c.id c.selected_pair.priority ps queue ≡ some (ps', queue', count)
      → Pruned c.id c.selected_pair.priority count ps ps'
      → 0 < count
      → Updated ps queue c (ps', queue', c)
  concluded :
      (ps' : List CheckPair) (queue' : List ℕ)
      → has_nominated c.id ps ≡ true
      → prune_pending_checks c.id c.selected_pair.priority ps queue ≡ some (ps', queue', 0)
      → All (IsClosed c.id c.selected_pair.priority) ps'
      → Updated ps queue c (ps', queue', record c { state = ready })

-- `conn_check_update_check_list_state_for_ready` fails no assertion when the component has a selected pair
-- or no pair of it is nominated and valid. The component becomes ready exactly if a pair of it is nominated
-- and valid and pruning leaves no check to wait for; then no pair of it is frozen or waiting, and those in
-- progress are below the selected one. Else the component is as before.
pub update_for_ready-Updated :
    (ps : List CheckPair) (queue : List ℕ) (c : NiceComponent)
    → (has_nominated c.id ps ≡ true → 0 < c.selected_pair.priority)
    → (r : List CheckPair × List ℕ × NiceComponent) × (update_for_ready ps queue c ≡ some r)
      × Updated ps queue c r
unfolding update_for_ready
update_for_ready-Updated ps queue c h = elim (Bool-cases (has_nominated c.id ps)) [
  | inr e ↦ ((ps, queue, c), rw e refl, nothing_nominated e)
  | inl e ↦
      let (ps', queue', count, q, pruned) =
        prune_pending_checks-Pruned c.id c.selected_pair.priority ps queue (h e) in
      elim (Bool-cases (count == 0)) [
        | inl z ↦
            let q' : prune_pending_checks c.id c.selected_pair.priority ps queue
                ≡ some (ps', queue', 0) =
              q ∙ ap (λ n. some (ps', queue', n)) (ground arith) in
            (
              (ps', queue', record c { state = ready }),
              rw (e, q, z, go_ready-eq c) refl,
              concluded ps' queue' e q' (pruned.closed (ground arith)),
            )
        | inr z ↦ (
          (ps', queue', c),
          rw (e, q, z) refl,
          goes_on ps' queue' count e q pruned (ground arith),
        )
      ]
]
