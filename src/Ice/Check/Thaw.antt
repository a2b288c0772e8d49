-- ===== src/Ice/Check/Thaw.antt =====
-- agent/conncheck.c: what `priv_conn_check_unfreeze_next` brings about.
use libnice.Base.{
  ℕ, ◌+◌, ◌≡◌, refl, sym, ap, ◌∙◌, arith, true, false, not, ◌&&◌, if◌then◌else◌, List, [], ◌∷◌,
  Bool-cases, inl, inr,
}
use mathlib.Core.Path.{ap₂}
use libnice.Ice.Check.{CheckPair, NiceStream, waiting, is_frozen}
use libnice.Ice.Check.Freeze.{
  any_waiting, any_waiting_stream, listed, unfreeze_list, unfreeze_streams, unfreeze_next,
}
use libnice.Ice.Check.Count.{
  count_waiting_streams, has_frozen_streams, streams_counts, none_waiting_streams,
}

true-ne-false : true ≡ false → ⊥
true-ne-false e = cc

-- The pairs of a list as they were, but for frozen ones that now wait
pub data Thaws : List CheckPair → List CheckPair → Type 0 where
  none_left : Thaws [] []
  stays : {p : CheckPair} {ps ps' : List CheckPair} → Thaws ps ps' → Thaws (p ∷ ps) (p ∷ ps')
  thaws :
      {p : CheckPair} {ps ps' : List CheckPair}
      → is_frozen p ≡ true
      → Thaws ps ps'
      → Thaws (p ∷ ps) (record p { state = waiting } ∷ ps')

pub data ThawsStreams : List NiceStream → List NiceStream → Type 0 where
  no_stream : ThawsStreams [] []
  stream :
      {s : NiceStream} {ps : List CheckPair} {ss ss' : List NiceStream}
      → Thaws s.conncheck_list ps
      → ThawsStreams ss ss'
      → ThawsStreams (s ∷ ss) (record s { conncheck_list = ps } ∷ ss')

list-Thaws : (found : List (List ℕ)) (ps : List CheckPair) → Thaws ps (unfreeze_list found ps).0
unfolding unfreeze_list
list-Thaws found [] = none_left
list-Thaws found (p ∷ rest) = elim (Bool-cases (not (listed found p.foundation) && is_frozen p)) [
  | inl e ↦ rw e (thaws (ground (arith, e)) (list-Thaws (p.foundation ∷ found) rest))
  | inr e ↦ rw e (stays (list-Thaws found rest))
]

streams_thaw :
    (found : List (List ℕ)) (ss : List NiceStream) → ThawsStreams ss (unfreeze_streams found ss).0
unfolding unfreeze_streams
streams_thaw found [] = no_stream
streams_thaw found (s ∷ rest) =
    stream (list-Thaws found s.conncheck_list)
      (streams_thaw (unfreeze_list found s.conncheck_list).1 rest)

-- When a pair waits, `priv_conn_check_unfreeze_next` changes nothing. When none waits, it makes exactly one
-- pair wait for each foundation that has a frozen pair in any check list, and none for the others; the pairs
-- that it changes were frozen, and only their state is changed.
pub unfreeze_next_counts :
    (ss : List NiceStream)
    → (any_waiting_stream ss ≡ true → unfreeze_next ss ≡ (ss, true))
      × (any_waiting_stream ss ≡ false
          → ThawsStreams ss (unfreeze_next ss).0
            × ((f : List ℕ)
                → count_waiting_streams f (unfreeze_next ss).0
                  ≡ (if has_frozen_streams f ss then 1 else 0)))
unfolding unfreeze_next listed
unfreeze_next_counts ss = (
  λ e. rw e refl,
  λ e. rw e (
    streams_thaw [] ss,
    λ f.
        streams_counts f [] ss
        ∙ ap (λ n. n + (if has_frozen_streams f ss then 1 else 0)) (none_waiting_streams f ss e)
        ∙ omega arith,
  ),
)

list_result :
    (found : List (List ℕ)) (ps : List CheckPair)
    → let r = unfreeze_list found ps in
      (r.2 ≡ true → any_waiting r.0 ≡ true) × (r.2 ≡ false → (r.0 ≡ ps) × (r.1 ≡ found))
unfolding unfreeze_list any_waiting
list_result found [] = (λ h. h, λ h. (refl, refl))
list_result found (p ∷ rest) = elim (Bool-cases (not (listed found p.foundation) && is_frozen p)) [
  | inl e ↦ rw e (λ h. refl, λ h. cc)
  | inr e ↦
      let (thawed, kept) = list_result found rest in
      rw e (λ h. ground (arith, thawed h), λ h. (ap (◌∷◌ p) (kept h).0, (kept h).1))
]

streams_result :
    (found : List (List ℕ)) (ss : List NiceStream)
    → let r = unfreeze_streams found ss in
      (r.1 ≡ true → any_waiting_stream r.0 ≡ true) × (r.1 ≡ false → r.0 ≡ ss)
unfolding unfreeze_streams any_waiting_stream
streams_result found [] = (λ h. h, λ h. refl)
streams_result found (s ∷ rest) =
    let r = unfreeze_list found s.conncheck_list in
    let (thawed, kept) = list_result found s.conncheck_list in
    let (later_thawed, later_kept) = streams_result r.1 rest in
    elim (Bool-cases r.2) [
      | inl e ↦ rw e (λ h. ground (arith, thawed e), λ h. cc)
      | inr e ↦ rw e (
        λ h. ground (arith, later_thawed h),
        λ h. ap₂ ◌∷◌ (ap (λ ps. record s { conncheck_list = ps }) (kept e).0) (later_kept h),
      )
    ]

next_waits : (ss : List NiceStream) → any_waiting_stream ss ≡ true → unfreeze_next ss ≡ (ss, true)
unfolding unfreeze_next
next_waits ss e = rw e refl

next_thaws :
    (ss : List NiceStream)
    → any_waiting_stream ss ≡ false
    → unfreeze_next ss ≡ unfreeze_streams [] ss
unfolding unfreeze_next
next_thaws ss e = rw e refl

nothing_frozen :
    (f : List ℕ) (ss : List NiceStream)
    → (unfreeze_streams [] ss).0 ≡ ss
    → has_frozen_streams f ss ≡ false
unfolding listed
nothing_frozen f ss same =
    let n = streams_counts f [] ss in
    let m = ap (count_waiting_streams f) same in ground (arith, n, m)

-- The result of `priv_conn_check_unfreeze_next` says whether a pair waits afterwards; if none does, no list
-- has a frozen pair. A second call changes nothing and has the same result.
pub unfreeze_next_progress :
    (ss : List NiceStream)
    → ((unfreeze_next ss).1 ≡ any_waiting_stream (unfreeze_next ss).0)
      × ((f : List ℕ) → (unfreeze_next ss).1 ≡ false → has_frozen_streams f ss ≡ false)
      × (unfreeze_next (unfreeze_next ss).0 ≡ unfreeze_next ss)
unfreeze_next_progress ss = elim (Bool-cases (any_waiting_stream ss)) [
  | inl e ↦
      let q = next_waits ss e in
      (
        ap (λ r. r.1) q ∙ sym (ap (λ r. any_waiting_stream r.0) q ∙ e),
        λ f h. absurd (true-ne-false (sym (ap (λ r. r.1) q) ∙ h)),
        ap (λ r. unfreeze_next r.0) q,
      )
  | inr e ↦
      let r = unfreeze_streams [] ss in
      let q = next_thaws ss e in
      let (thawed, kept) = streams_result [] ss in
      elim (Bool-cases r.1) [
        | inl t ↦ (
          ap (λ r. r.1) q ∙ t ∙ sym (ap (λ r. any_waiting_stream r.0) q ∙ thawed t),
          λ f h. absurd (true-ne-false (sym t ∙ sym (ap (λ r. r.1) q) ∙ h)),
          ap (λ r. unfreeze_next r.0) q
              ∙ next_waits r.0 (thawed t)
              ∙ ap (λ b. (r.0, b)) (sym t)
              ∙ sym q,
        )
        | inr t ↦ (
          ap (λ r. r.1) q
              ∙ t
              ∙ sym (ap (λ r. any_waiting_stream r.0) q ∙ ap any_waiting_stream (kept t) ∙ e),
          λ f h. nothing_frozen f ss (kept t),
          ap (λ r. unfreeze_next r.0) q ∙ ap unfreeze_next (kept t),
        )
      ]
]
