-- ===== src/Ice/Component/Settled.antt =====
-- agent/conncheck.c: which components `priv_update_check_list_failed_components` makes fail.
use libnice.Base.{
  ℕ, ◌≡◌, refl, ap, arith, Bool, true, false, not, ◌&&◌, ◌||◌, ◌==◌, some, List, [], ◌∷◌,
  Bool-cases, inl, inr,
}
use libnice.Ice.Check.{CheckPair, NiceStream}
use libnice.Ice.Check.Order.{All}
use libnice.Ice.Component.{
  ComponentState, disconnected, gathering, connecting, connected, ready, failed, NiceComponent,
  can_follow, signal_state_change,
}
use libnice.Ice.Component.Fail.{
  CandidateDiscovery, discovers, is_over, completed, any_nominated, is_none, fails, fail_components,
  all_of_stream, update_failed_components,
}

-- A pair of the component that is over and that nobody nominated; a pair of another component
abbrev pub IsLost : NiceComponent → CheckPair → Type 0
IsLost c p = p.component_id ≡ c.id → (is_over p ≡ true) × (p.nominated ≡ false)

-- The component has remote candidates, and all of its pairs are over with none of them nominated.
abbrev pub IsHopeless : List CheckPair → NiceComponent → Type 0
IsHopeless ps c = (c.remote_candidates ≡ [] → ⊥) × All (IsLost c) ps

-- The component has failed, if there is no hope for it, and is else as it was.
abbrev pub Settles : List CheckPair → NiceComponent → NiceComponent → Type 0
Settles ps c c' =
    (IsHopeless ps c → c' ≡ record c { state = failed }) × ((IsHopeless ps c → ⊥) → c' ≡ c)

pub data AreSettled (ps : List CheckPair) : List NiceComponent → List NiceComponent → Type 0 where
  none_left : AreSettled ps [] []
  next :
      {c c' : NiceComponent} {rest rest' : List NiceComponent}
      → Settles ps c c'
      → AreSettled ps rest rest'
      → AreSettled ps (c ∷ rest) (c' ∷ rest')

to_failed : (s : ComponentState) → can_follow s failed ≡ true
unfolding can_follow
to_failed disconnected = refl
to_failed gathering = refl
to_failed connecting = refl
to_failed connected = refl
to_failed ready = refl
to_failed failed = refl

signal_failed :
    (c : NiceComponent) → signal_state_change failed c ≡ some (record c { state = failed })
unfolding signal_state_change
signal_failed c = rw (to_failed c.state) refl

one-IsLost :
    (c : NiceComponent) (p : CheckPair)
    → (not (p.component_id == c.id) || is_over p) ≡ true
    → ((p.component_id == c.id) && p.nominated) ≡ false
    → IsLost c p
one-IsLost c p h n same =
    let e : (p.component_id == c.id) ≡ true = ground arith in
    (ground (arith, h, e), ground (arith, n, e))

All-IsLost :
    (c : NiceComponent) (ps : List CheckPair)
    → completed c.id ps ≡ true
    → any_nominated c.id ps ≡ false
    → All (IsLost c) ps
unfolding completed any_nominated
All-IsLost c [] h n = tt
All-IsLost c (p ∷ rest) h n = (
  one-IsLost c p (ground (arith, h)) (ground (arith, n)),
  All-IsLost c rest (ground (arith, h)) (ground (arith, n)),
)

lost_one :
    (c : NiceComponent) (p : CheckPair)
    → IsLost c p
    → ((not (p.component_id == c.id) || is_over p) ≡ true)
      × (((p.component_id == c.id) && p.nominated) ≡ false)
lost_one c p h = elim (Bool-cases (p.component_id == c.id)) [
  | inl e ↦ let (o, n) = h (ground (arith, e)) in (rw (e, o) refl, rw (e, n) refl)
  | inr e ↦ (rw e refl, rw e refl)
]

lost-All :
    (c : NiceComponent) (ps : List CheckPair)
    → All (IsLost c) ps
    → (completed c.id ps ≡ true) × (any_nominated c.id ps ≡ false)
unfolding completed any_nominated
lost-All c [] h = (refl, refl)
lost-All c (p ∷ rest) (h, later) =
    let (o, n) = lost_one c p h in
    let (os, ns) = lost-All c rest later in (rw (o, os) refl, rw (n, ns) refl)

is_none-false : (l : List ℕ) → is_none l ≡ false → l ≡ [] → ⊥
is_none-false [] h e = cc
is_none-false (x ∷ rest) h e = let f = ap is_none e in cc

is_none-true : (l : List ℕ) → is_none l ≡ true → l ≡ []
is_none-true [] h = refl
is_none-true (x ∷ rest) h = cc

-- The condition of the loop holds exactly for the components without hope.
fails-IsHopeless : (ps : List CheckPair) (c : NiceComponent) → fails ps c ≡ true → IsHopeless ps c
unfolding fails
fails-IsHopeless ps c h = (
  is_none-false c.remote_candidates (ground (arith, h)),
  All-IsLost c ps (ground (arith, h)) (ground (arith, h)),
)

IsHopeless-fails : (ps : List CheckPair) (c : NiceComponent) → IsHopeless ps c → fails ps c ≡ true
unfolding fails
IsHopeless-fails ps c (some_left, lost) = elim (Bool-cases (is_none c.remote_candidates)) [
  | inl e ↦ absurd (some_left (is_none-true c.remote_candidates e))
  | inr e ↦ let (o, n) = lost-All c ps lost in rw (o, n, e) refl
]

module _ (ps : List CheckPair) (c : NiceComponent) (rest rest' : List NiceComponent)
    (e : fail_components ps rest ≡ some rest') where
  one_fails :
      fails ps c ≡ true → fail_components ps (c ∷ rest) ≡ some (record c { state = failed } ∷ rest')
  unfolding fail_components
  one_fails h = rw (fail_components, h, signal_failed c, e) refl

  one_stays : fails ps c ≡ false → fail_components ps (c ∷ rest) ≡ some (c ∷ rest')
  unfolding fail_components
  one_stays h = rw (fail_components, h, e) refl

fail_components-AreSettled :
    (ps : List CheckPair) (cs : List NiceComponent)
    → (cs' : List NiceComponent) × (fail_components ps cs ≡ some cs') × AreSettled ps cs cs'
unfolding fail_components
fail_components-AreSettled ps [] = ([], refl, none_left)
fail_components-AreSettled ps (c ∷ rest) =
    let (rest', e, later) = fail_components-AreSettled ps rest in
    elim (Bool-cases (fails ps c)) [
      | inl h ↦ (
        record c { state = failed } ∷ rest',
        one_fails ps c rest rest' e h,
        next (λ k. refl, λ k. absurd (k (fails-IsHopeless ps c h))) later,
      )
      | inr h ↦ (
        c ∷ rest',
        one_stays ps c rest rest' e h,
        next (λ k. let f = IsHopeless-fails ps c k in cc, λ k. refl) later,
      )
    ]

discovers-none :
    (stream_id : ℕ) (ds : List CandidateDiscovery)
    → is_none ds ≡ true
    → discovers stream_id ds ≡ false
unfolding discovers
discovers-none stream_id [] h = refl
discovers-none stream_id (d ∷ rest) h = cc

either : (a b : Bool) → b ≡ true → (a || b) ≡ true
either true b h = refl
either false b h = h

-- For a check list with pairs of its stream `priv_update_check_list_failed_components` fails no assertion. When
-- the list has pairs and no discovery is left, it moves to FAILED exactly the components that have remote
-- candidates and whose pairs have all failed, succeeded or been discovered with none of them nominated,
-- and leaves the others as they are. Else it leaves all components as they are.
pub update_failed_components-AreSettled :
    (discovery_list : List CandidateDiscovery) (stream : NiceStream)
    (components : List NiceComponent)
    → all_of_stream stream.id stream.conncheck_list ≡ true
    → (cs : List NiceComponent) × (update_failed_components discovery_list stream components
        ≡ some cs)
      × (is_none stream.conncheck_list ≡ false
          → is_none discovery_list ≡ true
          → AreSettled stream.conncheck_list components cs)
      × (is_none stream.conncheck_list || not (is_none discovery_list) ≡ true → cs ≡ components)
unfolding update_failed_components
update_failed_components-AreSettled discovery_list stream components own =
    elim (Bool-cases (
      is_none stream.conncheck_list
      || discovers stream.id discovery_list
      || not (is_none discovery_list))) [
        | inl h ↦ (
          components,
          rw h refl,
          λ l d.
              absurd
                (let n = discovers-none stream.id discovery_list d in ground (arith, h, l, d, n)),
          λ d. refl,
        )
        | inr h ↦
            let (cs, e, settled) = fail_components-AreSettled stream.conncheck_list components in
            (
              cs,
              rw
                  (
                    h,
                    either (is_none components) (all_of_stream stream.id stream.conncheck_list) own,
                  )
                  e,
              λ l d. settled,
              λ d. absurd (ground (arith, h, d)),
            )
      ]
