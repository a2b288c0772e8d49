-- ===== src/Ice/Check/Queue.antt =====
-- agent/conncheck.c: the queue of triggered checks holds a pair at most once, and only pairs of the lists.
use libnice.Base.{
  ℕ, ◌≡◌, refl, ap, arith, Bool, true, false, not, ◌&&◌, ◌||◌, ◌==◌, List, [], ◌∷◌, ◌++◌,
  Bool-cases, inl, inr,
}
use libnice.Ice.Check.{CheckPair, queued, add_triggered, remove_triggered}

-- The pair with an address is in the list.
unfoldable pub has_address : ℕ → List CheckPair → Bool
has_address a [] = false
has_address a (p ∷ rest) = (p.address == a) || has_address a rest

-- No pair is twice in the queue.
abbrev pub IsUnique : List ℕ → Type 0
IsUnique [] = Unit
IsUnique (a ∷ rest) = (queued rest a ≡ false) × IsUnique rest

queued_other : (queue : List ℕ) (a b : ℕ) → (a == b) ≡ true → queued queue a ≡ queued queue b
queued_other queue a b e = ap (queued queue) (ground arith)

pub queued-remove_triggered :
    (queue : List ℕ) (pair a : ℕ)
    → IsUnique queue
    → queued (remove_triggered queue pair) a ≡ (queued queue a && not (pair == a))
unfolding remove_triggered queued
queued-remove_triggered [] pair a u = refl
queued-remove_triggered (b ∷ rest) pair a (once, u) =
    let later = queued-remove_triggered rest pair a u in
    elim (Bool-cases (b == pair)) [
      | inl e ↦ elim (Bool-cases (pair == a)) [
        | inl d ↦
            let same = queued_other rest a b (ground arith) in
            rw (e, d) (ground (arith, same, once))
        | inr d ↦ rw (e, d) (ground arith)
      ]
      | inr e ↦ rw e (ground (arith, later))
    ]

pub remove_triggered-IsUnique :
    (queue : List ℕ) (pair : ℕ) → IsUnique queue → IsUnique (remove_triggered queue pair)
unfolding remove_triggered
remove_triggered-IsUnique [] pair u = tt
remove_triggered-IsUnique (b ∷ rest) pair (once, u) =
    let later = remove_triggered-IsUnique rest pair u in
    elim (Bool-cases (b == pair)) [
      | inl e ↦ rw e u
      | inr e ↦
          let gone = queued-remove_triggered rest pair b u in
          rw e (ground (arith, gone, once), later)
    ]

pub queued-append :
    (queue : List ℕ) (pair a : ℕ)
    → queued (queue ++ (pair ∷ [])) a ≡ (queued queue a || (pair == a))
unfolding queued
queued-append [] pair a = ground arith
queued-append (b ∷ rest) pair a = let later = queued-append rest pair a in ground (arith, later)

append-IsUnique :
    (queue : List ℕ) (pair : ℕ)
    → IsUnique queue
    → queued queue pair ≡ false
    → IsUnique (queue ++ (pair ∷ []))
unfolding queued
append-IsUnique [] pair u h = (refl, tt)
append-IsUnique (b ∷ rest) pair (once, u) h =
    let later = append-IsUnique rest pair u (ground arith) in
    let there = queued-append rest pair b in (ground arith, later)

pub add_triggered-IsUnique :
    (queue : List ℕ) (pair : ℕ) → IsUnique queue → IsUnique (add_triggered queue pair)
unfolding add_triggered
add_triggered-IsUnique queue pair u = elim (Bool-cases (queued queue pair)) [
  | inl e ↦ rw e u
  | inr e ↦ rw e (append-IsUnique queue pair u e)
]

pub queued-add_triggered :
    (queue : List ℕ) (pair a : ℕ)
    → queued (add_triggered queue pair) a ≡ (queued queue a || (pair == a))
unfolding add_triggered
queued-add_triggered queue pair a = elim (Bool-cases (queued queue pair)) [
  | inl e ↦ rw e (elim (Bool-cases (pair == a)) [
    | inl d ↦ let same = queued_other queue pair a d in rw d (ground (arith, same, e))
    | inr d ↦ rw d (ground arith)
  ])
  | inr e ↦ rw e (queued-append queue pair a)
]
