-- ===== src/Ice/Check/Order.antt =====
-- agent/conncheck.c: check lists are in the order of priorities, the highest first. GLib's functions that
-- sort are arguments.
use libnice.Base.{
  ◌≤◌, ◌≡◌, refl, arith, true, false, ltb, if◌then◌else◌, Option, none, some, List, [], ◌∷◌,
  Bool-cases, inl, inr, ◌⊎◌,
}
use mathlib.Core.List.{Permᴰ}
use libnice.Ice.Check.{CheckPair, is_waiting, find_next_waiting}

-- The sign of what a `GCompareFunc` returns
pub data Sign : Type 0 where
  negative nought positive : Sign

-- `conn_check_compare`
unfoldable pub compare : CheckPair → CheckPair → Sign
compare a b =
    if ltb b.priority a.priority
    then negative
    else if ltb a.priority b.priority
    then positive
    else nought

-- `g_slist_insert_sorted` and `g_slist_sort`
pub record SortedList : Type 0 where
  pub insert_sorted : (CheckPair → CheckPair → Sign) → CheckPair → List CheckPair → List CheckPair
  pub sort : (CheckPair → CheckPair → Sign) → List CheckPair → List CheckPair

-- A predicate holds of all pairs of a list.
abbrev pub All {κ} : (CheckPair → Type κ) → List CheckPair → Type κ
All P [] = Unit
All P (p ∷ rest) = P p × All P rest

-- No pair stands before one of a higher priority.
abbrev pub IsOrdered : List CheckPair → Type 0
IsOrdered [] = Unit
IsOrdered (p ∷ rest) = All (λ q. q.priority ≤ p.priority) rest × IsOrdered rest

-- What GLib documents of its functions, for this comparison
pub record Sorts (g : SortedList) : Type 0 where
  pub inserted :
      (p : CheckPair) (ps : List CheckPair)
      → IsOrdered ps
      → IsOrdered (g.insert_sorted compare p ps)
  pub insertion :
      (p : CheckPair) (ps : List CheckPair) → Permᴰ (g.insert_sorted compare p ps) (p ∷ ps)
  pub sorted : (ps : List CheckPair) → IsOrdered (g.sort compare ps)
  pub permuted : (ps : List CheckPair) → Permᴰ (g.sort compare ps) ps

pub All-weaken {κ κ'} :
    {P : CheckPair → Type κ} {Q : CheckPair → Type κ'}
    → ((q : CheckPair) → P q → Q q)
    → (ps : List CheckPair) → All P ps
    → All Q ps
All-weaken f [] h = tt
All-weaken f (p ∷ rest) (h, later) = (f p h, All-weaken f rest later)

-- The pair is one of the list.
abbrev pub IsIn : CheckPair → List CheckPair → Type 0
IsIn p [] = ⊥
IsIn p (q ∷ rest) = (p ≡ q) ⊎ IsIn p rest

-- A pair of the list that waits and has the highest priority of those that wait, if any waits
abbrev pub IsBest : Option CheckPair → List CheckPair → Type 0
IsBest none ps = All (λ q. is_waiting q ≡ false) ps
IsBest (some p) ps =
    IsIn p ps × (is_waiting p ≡ true) × All (λ q. is_waiting q ≡ true → q.priority ≤ p.priority) ps

IsBest-later :
    (p : CheckPair) (found : Option CheckPair) (rest : List CheckPair)
    → is_waiting p ≡ false
    → IsBest found rest
    → IsBest found (p ∷ rest)
IsBest-later p none rest e h = (e, h)
IsBest-later p (some q) rest e (m, w, h) = (inr m, w, (λ w'. cc, h))

-- In an ordered list `priv_conn_check_find_next_waiting` finds a pair of the list that waits and has the
-- highest priority of all waiting ones, and nothing only if none waits.
pub find_next_waiting-IsBest :
    (ps : List CheckPair) → IsOrdered ps → IsBest (find_next_waiting ps) ps
unfolding find_next_waiting
find_next_waiting-IsBest [] o = tt
find_next_waiting-IsBest (p ∷ rest) (best, o) = elim (Bool-cases (is_waiting p)) [
  | inl e ↦ rw e (inl refl, e, (λ w. omega arith, All-weaken (λ q h w. h) rest best))
  | inr e ↦ rw e (IsBest-later p (find_next_waiting rest) rest e (find_next_waiting-IsBest rest o))
]
