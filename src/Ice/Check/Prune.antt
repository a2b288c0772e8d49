-- ===== src/Ice/Check/Prune.antt =====
-- agent/conncheck.c: `priv_prune_pending_checks`.
use libnice.Base.{
  ℕ, ◌+◌, ◌<◌, ◌≡◌, refl, ap, ◌∙◌, arith, Bool, true, false, not, ◌&&◌, ◌||◌, ltb, ◌==◌,
  if◌then◌else◌, Option, none, some, List, [], ◌∷◌, lt→ltb, ltb→lt, Bool-cases, inl, inr,
}
use mathlib.Core.Path.{subst}
use libnice.Ice.Check.{
  CheckPair, CheckState, waiting, in_progress, succeeded, failed, frozen, discovered, is_waiting,
  is_in_progress, is_frozen, queued, remove_triggered,
}
use libnice.Ice.Check.Order.{All}
use libnice.Ice.Check.Limit.{keep}

-- What the loop does with a pair of the component, by the priority of the selected pair: it goes, it is
-- not sent again, or it is counted
abbrev pub is_triggered : List ℕ → CheckPair → Bool
is_triggered queue p = queued queue p.address && not (is_in_progress p)

unfoldable pub removes : ℕ → ℕ → List ℕ → CheckPair → Bool
removes component_id priority queue p =
    (p.component_id == component_id)
    && (if is_triggered queue p then ltb p.priority priority else is_frozen p || is_waiting p)

unfoldable pub stops : ℕ → ℕ → CheckPair → Bool
stops component_id priority p =
    (p.component_id == component_id) && is_in_progress p && ltb p.priority priority

unfoldable pub counts : ℕ → ℕ → List ℕ → CheckPair → Bool
counts component_id priority queue p =
    (p.component_id == component_id)
    && (is_triggered queue p || is_in_progress p)
    && not (ltb p.priority priority)

unfoldable pub retransmits : ℕ → ℕ → CheckPair → Bool
retransmits component_id priority p =
    if stops component_id priority p
    then false
    else p.retransmit
      || ((p.component_id == component_id) && is_in_progress p && p.has_transactions)

-- The loop: the pairs, the queue of triggered checks, `in_progress + triggered_check`
unfoldable pub prune_list : ℕ → ℕ → List CheckPair → List ℕ → List CheckPair × List ℕ × ℕ
prune_list component_id priority [] queue = ([], queue, 0)
prune_list component_id priority (p ∷ rest) queue =
    let r = prune_list component_id priority rest (
      if removes component_id priority queue p || stops component_id priority p
      then remove_triggered queue p.address
      else queue) in
    (
      if removes component_id priority queue p
          then r.0
          else record p { retransmit = retransmits component_id priority p } ∷ r.0,
      r.1,
      (if counts component_id priority queue p then 1 else 0) + r.2,
    )

-- `priv_prune_pending_checks`; its assertion fails when no pair is selected.
unfoldable pub prune_pending_checks :
    ℕ → ℕ → List CheckPair → List ℕ → Option (List CheckPair × List ℕ × ℕ)
prune_pending_checks component_id priority ps queue =
    if priority == 0 then none else some (prune_list component_id priority ps queue)

-- A pair of the component below the selected one: no check of it is started or sent again.
abbrev pub IsQuiet : ℕ → ℕ → CheckPair → Type 0
IsQuiet component_id priority p =
    p.component_id ≡ component_id
    → p.priority < priority
    → (is_frozen p ≡ false)
      × (is_waiting p ≡ false)
      × (is_in_progress p ≡ true → p.retransmit ≡ false)

-- The other pairs of the component: no check of it is open.
abbrev pub IsClosed : ℕ → ℕ → CheckPair → Type 0
IsClosed component_id priority p =
    p.component_id ≡ component_id
    → (is_frozen p ≡ false)
      × (is_waiting p ≡ false)
      × (is_in_progress p ≡ true → p.priority < priority)

in_progress_alone :
    (s : CheckState)
    → elim s as (λ x. Bool) [ in_progress ↦ true | _ ↦ false ] ≡ true
    → (elim s as (λ x. Bool) [ frozen ↦ true | _ ↦ false ] ≡ false)
      × (elim s as (λ x. Bool) [ waiting ↦ true | _ ↦ false ] ≡ false)
in_progress_alone waiting h = cc
in_progress_alone in_progress h = (refl, refl)
in_progress_alone succeeded h = (refl, refl)
in_progress_alone failed h = (refl, refl)
in_progress_alone frozen h = cc
in_progress_alone discovered h = (refl, refl)

kept-IsQuiet :
    (c s : ℕ) (queue : List ℕ) (p : CheckPair)
    → removes c s queue p ≡ false
    → IsQuiet c s (record p { retransmit = retransmits c s p })
unfolding removes retransmits stops
kept-IsQuiet c s queue p h ours lower =
    let same : (p.component_id == c) ≡ true = ground arith in
    let below = lt→ltb p.priority s lower in
    let apart = in_progress_alone p.state in
    (
      ground (arith, h, same, below, apart),
      ground (arith, h, same, below, apart),
      λ i. rw (same, below, i) refl,
    )

kept-IsClosed :
    (c s : ℕ) (queue : List ℕ) (p : CheckPair)
    → removes c s queue p ≡ false
    → counts c s queue p ≡ false
    → IsClosed c s (record p { retransmit = retransmits c s p })
unfolding removes counts
kept-IsClosed c s queue p h n ours =
    let same : (p.component_id == c) ≡ true = ground arith in
    let apart = in_progress_alone p.state in
    (
      ground (arith, h, n, same, apart),
      ground (arith, h, n, same, apart),
      λ i. ltb→lt p.priority s (ground (arith, n, same, i)),
    )

or_false : (b : Bool) → (b || false) ≡ b
or_false true = refl
or_false false = refl

kept-other :
    (c s : ℕ) (queue : List ℕ) (p : CheckPair)
    → (p.component_id == c) ≡ false
    → (removes c s queue p ≡ false) × (record p { retransmit = retransmits c s p } ≡ p)
unfolding removes retransmits stops
kept-other c s queue p e =
    (rw e refl, rw e (ap (λ b. record p { retransmit = b }) (or_false p.retransmit)))

pub record Pruned (component_id priority count : ℕ) (ps ps' : List CheckPair) : Type 0 where
  pub quiet : All (IsQuiet component_id priority) ps'
  pub closed : count ≡ 0 → All (IsClosed component_id priority) ps'
  pub others :
      keep (λ p. not (p.component_id == component_id)) ps'
      ≡ keep (λ p. not (p.component_id == component_id)) ps

removed_ours :
    (c s : ℕ) (queue : List ℕ) (p : CheckPair)
    → removes c s queue p ≡ true
    → (p.component_id == c) ≡ true
unfolding removes
removed_ours c s queue p h = ground (arith, h)

Pruned-removed :
    (c s n : ℕ) (queue : List ℕ) (p : CheckPair) (rest rest' : List CheckPair)
    → removes c s queue p ≡ true
    → Pruned c s n rest rest'
    → Pruned c s ((if counts c s queue p then 1 else 0) + n) (p ∷ rest) rest'
unfolding keep
Pruned-removed c s n queue p rest rest' h later =
    let ours = removed_ours c s queue p h in
    record {
      quiet = later.quiet;
      closed = λ e. later.closed (omega arith);
      others = later.others ∙ rw ours refl;
    }

Pruned-kept :
    (c s n : ℕ) (queue : List ℕ) (p : CheckPair) (rest rest' : List CheckPair)
    → removes c s queue p ≡ false
    → Pruned c s n rest rest'
    → Pruned c s
        ((if counts c s queue p then 1 else 0) + n)
        (p ∷ rest)
        (record p { retransmit = retransmits c s p } ∷ rest')
unfolding keep
Pruned-kept c s n queue p rest rest' h later = record {
  quiet = (kept-IsQuiet c s queue p h, later.quiet);
  closed = λ e. elim (Bool-cases (counts c s queue p)) [
    | inl d ↦ absurd (ground (arith, e, d))
    | inr d ↦ (kept-IsClosed c s queue p h d, later.closed (omega arith))
  ];
  others = elim (Bool-cases (p.component_id == c)) [
    | inl d ↦ rw d later.others
    | inr d ↦ rw d (
        ap (λ q. q ∷ keep (λ p. not (p.component_id == c)) rest') (kept-other c s queue p d).1
        ∙ ap (◌∷◌ p) later.others)
  ];
}

prune_list-Pruned :
    (c s : ℕ) (ps : List CheckPair) (queue : List ℕ)
    → Pruned c s (prune_list c s ps queue).2 ps (prune_list c s ps queue).0
unfolding prune_list keep
prune_list-Pruned c s [] queue = record { quiet = tt; closed = λ e. tt; others = refl }
prune_list-Pruned c s (p ∷ rest) queue =
    let queue' =
      if removes c s queue p || stops c s p then remove_triggered queue p.address else queue in
    let later = prune_list-Pruned c s rest queue' in
    let r = prune_list c s rest queue' in
    elim (Bool-cases (removes c s queue p)) [
      | inl e ↦
          subst (λ ps'. Pruned c s ((if counts c s queue p then 1 else 0) + r.2) (p ∷ rest) ps')
            (rw e refl) (Pruned-removed c s r.2 queue p rest r.0 e later)
      | inr e ↦
          subst (λ ps'. Pruned c s ((if counts c s queue p then 1 else 0) + r.2) (p ∷ rest) ps')
            (rw e refl) (Pruned-kept c s r.2 queue p rest r.0 e later)
    ]

-- `priv_prune_pending_checks` leaves the pairs of the other components as they are. Afterwards no pair of the
-- component below the selected one is frozen or waiting, and none in progress is sent again; when the
-- result is 0, no pair of the component is frozen or waiting at all, and those in progress are below
-- the selected one.
pub prune_pending_checks-Pruned :
    (component_id priority : ℕ) (ps : List CheckPair) (queue : List ℕ)
    → 0 < priority
    → (ps' : List CheckPair) × (queue' : List ℕ) × (count : ℕ) × (prune_pending_checks component_id
          priority ps queue
        ≡ some (ps', queue', count))
      × Pruned component_id priority count ps ps'
unfolding prune_pending_checks
prune_pending_checks-Pruned c s ps queue h =
    let r = prune_list c s ps queue in
    let off : (s == 0) ≡ false = ground arith in
    (r.0, r.1, r.2, rw off refl, prune_list-Pruned c s ps queue)
