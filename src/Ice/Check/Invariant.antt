-- ===== src/Ice/Check/Invariant.antt =====
-- agent/conncheck.c: what holds of a check list and of the queue of triggered checks after pairs are freed.
use libnice.Base.{
  ℕ, ◌+◌, ◌≤◌, ◌≡◌, sym, ap, ◌∙◌, arith, Bool, true, ◌&&◌, ◌||◌, ltb, ◌==◌, if◌then◌else◌, none,
  some, List, [], ◌∷◌, Bool-cases, inl, inr,
}
use mathlib.Core.Path.{subst}
use libnice.Ice.Check.{CheckPair, is_frozen, is_failed, queued, remove_triggered}
use libnice.Ice.Check.Order.{All, IsOrdered}
use libnice.Ice.Check.Queue.{
  has_address, IsUnique, queued-remove_triggered, remove_triggered-IsUnique,
}
use libnice.Ice.Check.Limit.{limit_list, limit_conn_check_list_size}
use libnice.Ice.Check.Prune.{removes, stops, retransmits, prune_list, prune_pending_checks}

-- The queue points to no freed pair: each of its pairs is in the list, or among the others.
abbrev pub IsSafe : (ℕ → Bool) → List CheckPair → List ℕ → Type 0
IsSafe other ps queue = (a : ℕ) → queued queue a ≡ true → (other a || has_address a ps) ≡ true

-- A check list and the queue of triggered checks; `other` tells the pairs of the other streams.
pub record IsCheckList (other : ℕ → Bool) (ps : List CheckPair) (queue : List ℕ) : Type 0 where
  pub ordered : IsOrdered ps
  pub unique : IsUnique queue
  pub safe : IsSafe other ps queue

freed-IsSafe :
    (other : ℕ → Bool) (p : CheckPair) (rest : List CheckPair) (queue : List ℕ)
    → IsUnique queue
    → IsSafe other (p ∷ rest) queue
    → IsSafe other rest (remove_triggered queue p.address)
unfolding has_address
freed-IsSafe other p rest queue u safe a h =
    let gone = queued-remove_triggered queue p.address a u in
    let before = safe a (ground (arith, gone, h)) in ground (arith, gone, h, before)

unqueued-IsSafe :
    (other : ℕ → Bool) (pair : ℕ) (ps : List CheckPair) (queue : List ℕ)
    → IsUnique queue
    → IsSafe other ps queue
    → IsSafe other ps (remove_triggered queue pair)
unqueued-IsSafe other pair ps queue u safe a h =
    let gone = queued-remove_triggered queue pair a u in safe a (ground (arith, gone, h))

-- A pair that stays counts among the others while the loop goes on.
abbrev with_pair : (ℕ → Bool) → CheckPair → ℕ → Bool
with_pair other p a = other a || (p.address == a)

passed-IsSafe :
    (other : ℕ → Bool) (p : CheckPair) (rest : List CheckPair) (queue : List ℕ)
    → IsSafe other (p ∷ rest) queue
    → IsSafe (with_pair other p) rest queue
unfolding has_address
passed-IsSafe other p rest queue safe a h = let before = safe a h in ground (arith, before)

back-IsSafe :
    (other : ℕ → Bool) (p : CheckPair) (rest : List CheckPair) (queue : List ℕ)
    → IsSafe (with_pair other p) rest queue
    → IsSafe other (p ∷ rest) queue
unfolding has_address
back-IsSafe other p rest queue safe a h = let before = safe a h in ground (arith, before)

-- The lists and queues before and after a walk that frees some pairs and takes others off the queue
pub data Freed : List CheckPair → List ℕ → List CheckPair → List ℕ → Type 0 where
  done : {queue : List ℕ} → Freed [] queue [] queue
  freed :
      {p : CheckPair} {rest rest' : List CheckPair} {queue queue' : List ℕ}
      → Freed rest (remove_triggered queue p.address) rest' queue'
      → Freed (p ∷ rest) queue rest' queue'
  unqueued :
      {p : CheckPair} {rest rest' : List CheckPair} {queue queue' : List ℕ}
      → (retransmit : Bool) → Freed rest (remove_triggered queue p.address) rest' queue'
      → Freed (p ∷ rest) queue (record p { retransmit = retransmit } ∷ rest') queue'
  stayed :
      {p : CheckPair} {rest rest' : List CheckPair} {queue queue' : List ℕ}
      → (retransmit : Bool) → Freed rest queue rest' queue'
      → Freed (p ∷ rest) queue (record p { retransmit = retransmit } ∷ rest') queue'

Freed-All :
    {ps ps' : List CheckPair} {queue queue' : List ℕ} (bound : ℕ)
    → Freed ps queue ps' queue'
    → All (λ q. q.priority ≤ bound) ps
    → All (λ q. q.priority ≤ bound) ps'
Freed-All bound done h = tt
Freed-All bound (freed f) (h, later) = Freed-All bound f later
Freed-All bound (unqueued b f) (h, later) = (h, Freed-All bound f later)
Freed-All bound (stayed b f) (h, later) = (h, Freed-All bound f later)

Freed-IsOrdered :
    {ps ps' : List CheckPair} {queue queue' : List ℕ}
    → Freed ps queue ps' queue'
    → IsOrdered ps
    → IsOrdered ps'
Freed-IsOrdered done o = tt
Freed-IsOrdered (freed f) (h, o) = Freed-IsOrdered f o
Freed-IsOrdered (unqueued {p = p} b f) (h, o) = (Freed-All p.priority f h, Freed-IsOrdered f o)
Freed-IsOrdered (stayed {p = p} b f) (h, o) = (Freed-All p.priority f h, Freed-IsOrdered f o)

Freed-IsUnique :
    {ps ps' : List CheckPair} {queue queue' : List ℕ}
    → Freed ps queue ps' queue'
    → IsUnique queue
    → IsUnique queue'
Freed-IsUnique done u = u
Freed-IsUnique (freed {p = p} {queue = queue} f) u =
    Freed-IsUnique f (remove_triggered-IsUnique queue p.address u)
Freed-IsUnique (unqueued {p = p} {queue = queue} b f) u =
    Freed-IsUnique f (remove_triggered-IsUnique queue p.address u)
Freed-IsUnique (stayed b f) u = Freed-IsUnique f u

Freed-IsSafe :
    {ps ps' : List CheckPair} {queue queue' : List ℕ} (other : ℕ → Bool)
    → Freed ps queue ps' queue'
    → IsUnique queue
    → IsSafe other ps queue
    → IsSafe other ps' queue'
unfolding has_address
Freed-IsSafe other done u safe = safe
Freed-IsSafe other (freed {p = p} {rest = rest} {queue = queue} f) u safe =
    Freed-IsSafe other f (remove_triggered-IsUnique queue p.address u)
      (freed-IsSafe other p rest queue u safe)
Freed-IsSafe other
      (unqueued {p = p} {rest = rest} {rest' = rest'} {queue = queue} {queue' = queue'} b f) u
      safe =
    back-IsSafe other p rest' queue' (
      Freed-IsSafe (with_pair other p) f (remove_triggered-IsUnique queue p.address u) (
        passed-IsSafe other p rest (remove_triggered queue p.address)
          (unqueued-IsSafe other p.address (p ∷ rest) queue u safe)))
Freed-IsSafe other
      (stayed {p = p} {rest = rest} {rest' = rest'} {queue = queue} {queue' = queue'} b f) u safe =
    back-IsSafe other p rest' queue'
      (Freed-IsSafe (with_pair other p) f u (passed-IsSafe other p rest queue safe))

Freed-IsCheckList :
    {ps ps' : List CheckPair} {queue queue' : List ℕ} (other : ℕ → Bool)
    → Freed ps queue ps' queue'
    → IsCheckList other ps queue
    → IsCheckList other ps' queue'
Freed-IsCheckList other f l = record {
  ordered = Freed-IsOrdered f l.ordered;
  unique = Freed-IsUnique f l.unique;
  safe = Freed-IsSafe other f l.unique l.safe;
}

pub limit_list-Freed :
    (m valid pair : ℕ) (ps : List CheckPair) (queue : List ℕ)
    → let r = limit_list m valid pair ps queue in Freed ps queue r.0 r.1
unfolding limit_list
limit_list-Freed m valid pair [] queue = done
limit_list-Freed m valid pair (p ∷ rest) queue =
    elim (Bool-cases ((ltb m (valid + 1) && is_frozen p) || is_failed p)) [
      | inl e ↦
          rw e (freed (limit_list-Freed m (valid + 1) pair rest (remove_triggered queue p.address)))
      | inr e ↦ rw e (stayed p.retransmit (limit_list-Freed m (valid + 1) pair rest queue))
    ]

pub prune_list-Freed :
    (c s : ℕ) (ps : List CheckPair) (queue : List ℕ)
    → let r = prune_list c s ps queue in Freed ps queue r.0 r.1
unfolding prune_list
prune_list-Freed c s [] queue = done
prune_list-Freed c s (p ∷ rest) queue = elim (Bool-cases (removes c s queue p)) [
  | inl e ↦ rw e (freed (prune_list-Freed c s rest (remove_triggered queue p.address)))
  | inr e ↦ elim (Bool-cases (stops c s p)) [
    | inl d ↦
        rw (e, d)
          (unqueued (retransmits c s p)
            (prune_list-Freed c s rest (remove_triggered queue p.address)))
    | inr d ↦ rw (e, d) (stayed (retransmits c s p) (prune_list-Freed c s rest queue))
  ]
]

pruned :
    (c s : ℕ) (ps : List CheckPair) (queue : List ℕ) (r : List CheckPair × List ℕ × ℕ)
    → prune_pending_checks c s ps queue ≡ some r
    → prune_list c s ps queue ≡ r
unfolding prune_pending_checks
pruned c s ps queue r e = elim (Bool-cases (s == 0)) [
  | inl d ↦
      let e' = sym (ap (λ b. if b then none else some (prune_list c s ps queue)) d) ∙ e in absurd cc
  | inr d ↦ let e' = sym (ap (λ b. if b then none else some (prune_list c s ps queue)) d) ∙ e in cc
]

-- From an ordered check list, and a queue of triggered checks without duplicates and without freed pairs,
-- `priv_limit_conn_check_list_size` and `priv_prune_pending_checks`, unless its assertion fails, make such
-- a list and queue again.
pub freeing-IsCheckList :
    (other : ℕ → Bool) (ps : List CheckPair) (queue : List ℕ)
    → IsCheckList other ps queue
    → ((max_conn_checks pair : ℕ)
        → let r = limit_conn_check_list_size max_conn_checks pair ps queue in
          IsCheckList other r.0 r.1)
      × ((component_id priority : ℕ) (ps' : List CheckPair) (queue' : List ℕ) (count : ℕ)
          → prune_pending_checks component_id priority ps queue ≡ some (ps', queue', count)
          → IsCheckList other ps' queue')
unfolding limit_conn_check_list_size
freeing-IsCheckList other ps queue l = (
  λ m pair. Freed-IsCheckList other (limit_list-Freed m 0 pair ps queue) l,
  λ c s ps' queue' count e.
      subst (λ r. IsCheckList other r.0 r.1) (pruned c s ps queue (ps', queue', count) e)
        (Freed-IsCheckList other (prune_list-Freed c s ps queue) l),
)
