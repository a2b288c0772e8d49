-- ===== src/Ice/Check/Added.antt =====
-- agent/conncheck.c: check lists when pairs are added.
use libnice.Base.{
  ℕ, ◌+◌, ◌≤◌, ◌≡◌, refl, sym, ◌∙◌, arith, Bool, true, false, not, ◌&&◌, ◌||◌, ltb, ◌==◌,
  if◌then◌else◌, Option, none, some, List, [], ◌∷◌, Bool-cases, inl, inr,
}
use mathlib.Core.List.{Permᴰ}
use libnice.Ice.Check.{CheckPair, CheckState, NiceStream, is_frozen, is_failed, remove_triggered}
use libnice.Ice.Component.{NiceComponent}
use libnice.Ice.Check.Order.{All, IsOrdered, SortedList, Sorts, compare}
use libnice.Ice.Check.Queue.{has_address}
use libnice.Ice.Check.Freeze.{succeeded_in, unfreeze_maybe}
use libnice.Ice.Check.Limit.{limit_list, limit_conn_check_list_size}
use libnice.Ice.Check.Invariant.{IsCheckList, freeing-IsCheckList}
use libnice.Ice.Check.Pairs.{
  is_rfc5245, NiceAgent, NiceCandidate, new_pair, inserted, update_pair, add_new_check_pair,
}

-- A permutation has the same pairs.
pub has_address-perm :
    {ps ps' : List CheckPair} (a : ℕ) → Permᴰ ps ps' → has_address a ps ≡ has_address a ps'
unfolding has_address
has_address-perm a Permᴰ.nil = refl
has_address-perm a (Permᴰ.cons e d) = let later = has_address-perm a d in rw (e, later) refl
has_address-perm a (Permᴰ.swap e e') = rw (e, e') (ground arith)
has_address-perm a (Permᴰ.trans d d') = has_address-perm a d ∙ has_address-perm a d'

-- A change that keeps the address and the priority of a pair keeps the list.
record KeepsPlace (f : CheckPair → CheckPair) : Type 0 where
  address : (p : CheckPair) → (f p).address ≡ p.address
  priority : (p : CheckPair) → (f p).priority ≡ p.priority

module _ (pair : ℕ) (f : CheckPair → CheckPair) (k : KeepsPlace f) where
  update_pair-All :
      (bound : ℕ) (ps : List CheckPair)
      → All (λ q. q.priority ≤ bound) ps
      → All (λ q. q.priority ≤ bound) (update_pair pair f ps)
  unfolding update_pair
  update_pair-All bound [] h = tt
  update_pair-All bound (p ∷ rest) (h, later) = elim (Bool-cases (p.address == pair)) [
    | inl e ↦ rw e (rw (k.priority p) h, update_pair-All bound rest later)
    | inr e ↦ rw e (h, update_pair-All bound rest later)
  ]

  update_pair-IsOrdered : (ps : List CheckPair) → IsOrdered ps → IsOrdered (update_pair pair f ps)
  unfolding update_pair
  update_pair-IsOrdered [] o = tt
  update_pair-IsOrdered (p ∷ rest) (h, o) =
      let later = update_pair-IsOrdered rest o in
      elim (Bool-cases (p.address == pair)) [
        | inl e ↦ rw e (rw (k.priority p) (update_pair-All p.priority rest h), later)
        | inr e ↦ rw e (update_pair-All p.priority rest h, later)
      ]

  has_address-update_pair :
      (a : ℕ) (ps : List CheckPair) → has_address a (update_pair pair f ps) ≡ has_address a ps
  unfolding update_pair has_address
  has_address-update_pair a [] = refl
  has_address-update_pair a (p ∷ rest) =
      let later = has_address-update_pair a rest in
      elim (Bool-cases (p.address == pair)) [
        | inl e ↦ rw (e, later, k.address p) refl
        | inr e ↦ rw (e, later) refl
      ]

unfreeze_maybe-KeepsPlace : (streams : List NiceStream) → KeepsPlace (unfreeze_maybe streams)
unfolding unfreeze_maybe
unfreeze_maybe-KeepsPlace streams = record {
  address = λ p. elim (Bool-cases (succeeded_in p.foundation streams)) [
    | inl e ↦ rw e refl
    | inr e ↦ rw e refl
  ];
  priority = λ p. elim (Bool-cases (succeeded_in p.foundation streams)) [
    | inl e ↦ rw e refl
    | inr e ↦ rw e refl
  ];
}

-- A pair that `priv_limit_conn_check_list_size` does not report as deleted is still in the list.
limit_list-has_address :
    (m valid pair : ℕ) (ps : List CheckPair) (queue : List ℕ)
    → has_address pair ps ≡ true
    → (limit_list m valid pair ps queue).2 ≡ false
    → has_address pair (limit_list m valid pair ps queue).0 ≡ true
unfolding limit_list has_address
limit_list-has_address m valid pair [] queue h = cc
limit_list-has_address m valid pair (p ∷ rest) queue h =
    let later = λ (q : List ℕ) (k : has_address pair rest ≡ true).
      limit_list-has_address m (valid + 1) pair rest q k in
    elim (Bool-cases ((ltb m (valid + 1) && is_frozen p) || is_failed p)) [
      | inl e ↦
          rw e (λ d.
            later (remove_triggered queue p.address) (ground (arith, h, d)) (ground (arith, d)))
      | inr e ↦ elim (Bool-cases (p.address == pair)) [
        | inl a ↦ rw (e, a) (λ d. refl)
        | inr a ↦ rw (e, a) (later queue (ground (arith, h, a)))
      ]
    ]

module _ (g : SortedList) (sorts : Sorts g) (other : ℕ → Bool) where
  inserted-perm :
      (p : CheckPair) (ps : List CheckPair) (a : ℕ)
      → has_address a (g.insert_sorted compare p ps) ≡ ((p.address == a) || has_address a ps)
  unfolding has_address
  inserted-perm p ps a = has_address-perm a (sorts.insertion p ps)

  insert_sorted-IsCheckList :
      (p : CheckPair) (ps : List CheckPair) (queue : List ℕ)
      → IsCheckList other ps queue
      → IsCheckList other (g.insert_sorted compare p ps) queue
  insert_sorted-IsCheckList p ps queue l = record {
    ordered = sorts.inserted p ps l.ordered;
    unique = l.unique;
    safe = λ a h.
        let there = inserted-perm p ps a in
        let before = l.safe a h in ground (arith, there, before);
  }

  update_pair-IsCheckList :
      (pair : ℕ) (f : CheckPair → CheckPair) (ps : List CheckPair) (queue : List ℕ)
      → KeepsPlace f
      → IsCheckList other ps queue
      → IsCheckList other (update_pair pair f ps) queue
  update_pair-IsCheckList pair f ps queue k l = record {
    ordered = update_pair-IsOrdered pair f k ps l.ordered;
    unique = l.unique;
    safe = λ a h.
        let there = has_address-update_pair pair f k a ps in
        let before = l.safe a h in ground (arith, there, before);
  }

  inserted-IsCheckList :
      (agent : NiceAgent) (stream : NiceStream) (p : CheckPair) (queue : List ℕ)
      → IsCheckList other stream.conncheck_list queue
      → IsCheckList other (inserted g agent stream p) queue
  unfolding inserted
  inserted-IsCheckList agent stream p queue l =
      let fresh = insert_sorted-IsCheckList p stream.conncheck_list queue l in
      elim (Bool-cases (is_frozen p)) [
        | inl e ↦ rw e (
            update_pair-IsCheckList p.address (unfreeze_maybe agent.streams)
              (g.insert_sorted compare p stream.conncheck_list) queue
              (unfreeze_maybe-KeepsPlace agent.streams) fresh)
        | inr e ↦ rw e fresh
      ]

  has_address-inserted :
      (agent : NiceAgent) (stream : NiceStream) (p : CheckPair)
      → has_address p.address (inserted g agent stream p) ≡ true
  unfolding inserted
  has_address-inserted agent stream p =
      let ps = g.insert_sorted compare p stream.conncheck_list in
      let there = inserted-perm p stream.conncheck_list p.address in
      let k = unfreeze_maybe-KeepsPlace agent.streams in
      let later = has_address-update_pair p.address (unfreeze_maybe agent.streams) k p.address ps in
      elim (Bool-cases (is_frozen p)) [
        | inl e ↦ rw e (ground (arith, there, later))
        | inr e ↦ rw e (ground (arith, there))
      ]

-- What `priv_add_new_check_pair` gives: a check list in which the pair that it returns stands
abbrev pub Sound : (ℕ → Bool) → List CheckPair × List ℕ × Option ℕ → Type 0
Sound other r = IsCheckList other r.0 r.1 × ((a : ℕ) → r.2 ≡ some a → has_address a r.0 ≡ true)

some-inj : {a b : ℕ} → some a ≡ some b → a ≡ b
some-inj e = cc

limited-Sound :
    (other : ℕ → Bool) (m pair : ℕ) (ps : List CheckPair) (queue : List ℕ)
    → IsCheckList other ps queue
    → has_address pair ps ≡ true
    → let r = limit_conn_check_list_size m pair ps queue in
      Sound other (r.0, r.1, if r.2 then none else some pair)
unfolding limit_conn_check_list_size
limited-Sound other m pair ps queue l h =
    let r = limit_conn_check_list_size m pair ps queue in
    let stays = limit_list-has_address m 0 pair ps queue h in
    (
      (freeing-IsCheckList other ps queue l).0 m pair,
      λ a. elim (Bool-cases r.2) [
        | inl e ↦ rw e (λ d. cc)
        | inr e ↦ rw e (λ d. rw (sym (some-inj d)) (stays e))
      ],
    )

-- For a sorting that has the properties of `Sorts`: from an ordered check list, and a queue of triggered checks
-- without duplicates and without freed pairs, `priv_add_new_check_pair` makes such a list and queue
-- again, also when adding the pair makes others go; the pair that it returns stands in the list.
pub add_new_check_pair-Sound :
    (g : SortedList) (other : ℕ → Bool) (agent : NiceAgent) (candidates : ℕ → NiceCandidate)
    (stun_priority address : ℕ) (stream : NiceStream) (component : NiceComponent)
    (local_ remote : ℕ) (initial_state : CheckState)
    → Sorts g
    → IsCheckList other stream.conncheck_list agent.triggered_check_queue
    → Sound other (
        add_new_check_pair g agent candidates stun_priority address stream component local_ remote
          initial_state)
unfolding add_new_check_pair new_pair
add_new_check_pair-Sound g other agent candidates sp address stream component local_ remote st sorts
      l =
    let p = new_pair agent candidates sp address stream component local_ remote st in
    let ps = inserted g agent stream p in
    let queue = agent.triggered_check_queue in
    let l' = inserted-IsCheckList g sorts other agent stream p queue l in
    let h : has_address address ps ≡ true = has_address-inserted g sorts other agent stream p in
    elim (Bool-cases (
      not (component.selected_pair.priority == 0)
      && ltb p.priority component.selected_pair.priority)) [
        | inl e ↦ rw e (l, λ a d. cc)
        | inr e ↦ elim (Bool-cases (is_rfc5245 agent.compatibility)) [
          | inl c ↦ rw (e, c) (limited-Sound other agent.max_conn_checks address ps queue l' h)
          | inr c ↦ rw (e, c) (l', λ a d. rw (sym (some-inj d)) h)
        ]
      ]
