-- ===== src/Ice/Check/Sorting.antt =====
-- Insertion sort has the properties that the check lists need of GLib's sorting.
use libnice.Base.{
  ℕ, ◌≤◌, ◌≡◌, refl, arith, Bool, true, false, ltb, if◌then◌else◌, List, [], ◌∷◌, Bool-cases, inl,
  inr,
}
use mathlib.Core.List.{Permᴰ}
use mathlib.Core.List.Permᴰ
use libnice.Ice.Check.{CheckPair}
use libnice.Ice.Check.Order.{Sign, positive, compare, SortedList, Sorts, All, All-weaken, IsOrdered}

abbrev is_behind : Sign → Bool
is_behind s = elim s [ positive ↦ true | _ ↦ false ]

unfoldable pub insert_sorted :
    (CheckPair → CheckPair → Sign) → CheckPair → List CheckPair → List CheckPair
insert_sorted f p [] = p ∷ []
insert_sorted f p (q ∷ rest) =
    let later = insert_sorted f p rest in if is_behind (f p q) then q ∷ later else p ∷ q ∷ rest

unfoldable pub sort : (CheckPair → CheckPair → Sign) → List CheckPair → List CheckPair
sort f [] = []
sort f (p ∷ rest) = insert_sorted f p (sort f rest)

abbrev pub insertion_sort : SortedList
insertion_sort = record { insert_sorted = insert_sorted; sort = sort }

is_behind-compare : (p q : CheckPair) → is_behind (compare p q) ≡ ltb p.priority q.priority
unfolding compare
is_behind-compare p q = elim (Bool-cases (ltb q.priority p.priority)) [
  | inl a ↦ rw a (ground (arith, a))
  | inr a ↦ elim (Bool-cases (ltb p.priority q.priority)) [
    | inl b ↦ rw (a, b) refl
    | inr b ↦ rw (a, b) refl
  ]
]

insert_sorted-All :
    (bound : ℕ) (p : CheckPair) (ps : List CheckPair)
    → p.priority ≤ bound
    → All (λ q. q.priority ≤ bound) ps
    → All (λ q. q.priority ≤ bound) (insert_sorted compare p ps)
unfolding insert_sorted
insert_sorted-All bound p [] h t = (h, tt)
insert_sorted-All bound p (q ∷ rest) h (k, later) = elim (Bool-cases (is_behind (compare p q))) [
  | inl e ↦ rw e (k, insert_sorted-All bound p rest h later)
  | inr e ↦ rw e (h, (k, later))
]

insert_sorted-IsOrdered :
    (p : CheckPair) (ps : List CheckPair) → IsOrdered ps → IsOrdered (insert_sorted compare p ps)
unfolding insert_sorted
insert_sorted-IsOrdered p [] o = (tt, tt)
insert_sorted-IsOrdered p (q ∷ rest) (best, o) =
    let c = is_behind-compare p q in
    elim (Bool-cases (is_behind (compare p q))) [
      | inl e ↦
          let below : p.priority ≤ q.priority = ground (arith, c, e) in
          rw e (insert_sorted-All q.priority p rest below best, insert_sorted-IsOrdered p rest o)
      | inr e ↦
          let above : q.priority ≤ p.priority = ground (arith, c, e) in
          rw e ((above, All-weaken (λ x h. omega arith) rest best), (best, o))
    ]

insert_sorted-perm :
    (f : CheckPair → CheckPair → Sign) (p : CheckPair) (ps : List CheckPair)
    → Permᴰ (insert_sorted f p ps) (p ∷ ps)
unfolding insert_sorted
insert_sorted-perm f p [] = Permᴰ.refl (p ∷ [])
insert_sorted-perm f p (q ∷ rest) = elim (Bool-cases (is_behind (f p q))) [
  | inl e ↦
      rw e (Permᴰ.trans (Permᴰ.cons refl (insert_sorted-perm f p rest)) (Permᴰ.swap refl refl))
  | inr e ↦ rw e (Permᴰ.refl (p ∷ q ∷ rest))
]

sort-IsOrdered : (ps : List CheckPair) → IsOrdered (sort compare ps)
unfolding sort
sort-IsOrdered [] = tt
sort-IsOrdered (p ∷ rest) = insert_sorted-IsOrdered p (sort compare rest) (sort-IsOrdered rest)

sort-perm : (f : CheckPair → CheckPair → Sign) (ps : List CheckPair) → Permᴰ (sort f ps) ps
unfolding sort
sort-perm f [] = Permᴰ.nil
sort-perm f (p ∷ rest) =
    Permᴰ.trans (insert_sorted-perm f p (sort f rest)) (Permᴰ.cons refl (sort-perm f rest))

pub insertion_sort-Sorts : Sorts insertion_sort
insertion_sort-Sorts = record {
  inserted = insert_sorted-IsOrdered;
  insertion = insert_sorted-perm compare;
  sorted = sort-IsOrdered;
  permuted = sort-perm compare;
}
