-- ===== src/Ice/Check/Count.antt =====
-- agent/conncheck.c: how many pairs wait after `priv_conn_check_unfreeze_next`.
use libnice.Base.{
  ℕ, ◌+◌, ◌≡◌, refl, ap, arith, Bool, true, false, ◌&&◌, ◌||◌, if◌then◌else◌, List, [], ◌∷◌,
  bytes_eq, bytes_eq→eq, Bool-cases, inl, inr,
}
use libnice.Ice.Check.{
  CheckPair, NiceStream, CheckState, waiting, in_progress, succeeded, failed, frozen, discovered,
  is_waiting, is_frozen,
}
use libnice.Ice.Check.Freeze.{
  any_waiting, any_waiting_stream, listed, unfreeze_list, unfreeze_streams,
}

-- The number of waiting pairs of a foundation
unfoldable pub count_waiting : List ℕ → List CheckPair → ℕ
count_waiting f [] = 0
count_waiting f (p ∷ rest) =
    (if is_waiting p && bytes_eq p.foundation f then 1 else 0) + count_waiting f rest

unfoldable pub count_waiting_streams : List ℕ → List NiceStream → ℕ
count_waiting_streams f [] = 0
count_waiting_streams f (s ∷ rest) = count_waiting f s.conncheck_list + count_waiting_streams f rest

-- A frozen pair of a foundation
unfoldable pub has_frozen : List ℕ → List CheckPair → Bool
has_frozen f [] = false
has_frozen f (p ∷ rest) = (is_frozen p && bytes_eq p.foundation f) || has_frozen f rest

unfoldable pub has_frozen_streams : List ℕ → List NiceStream → Bool
has_frozen_streams f [] = false
has_frozen_streams f (s ∷ rest) = has_frozen f s.conncheck_list || has_frozen_streams f rest

exclusive :
    (s : CheckState)
    → elim s as (λ x. Bool) [ frozen ↦ true | _ ↦ false ] ≡ true
    → elim s as (λ x. Bool) [ waiting ↦ true | _ ↦ false ] ≡ false
exclusive waiting h = cc
exclusive in_progress h = refl
exclusive succeeded h = refl
exclusive failed h = refl
exclusive frozen h = refl
exclusive discovered h = refl

same_listed :
    (found : List (List ℕ)) (g f : List ℕ) → bytes_eq g f ≡ true → listed found g ≡ listed found f
same_listed found g f h = ap (listed found) (bytes_eq→eq g f h)

pub list_counts :
    (f : List ℕ) (found : List (List ℕ)) (ps : List CheckPair)
    → let r = unfreeze_list found ps in
      (count_waiting f r.0
        ≡ count_waiting f ps + (if listed found f then 0 else if has_frozen f ps then 1 else 0))
      × (listed r.1 f ≡ (listed found f || has_frozen f ps))
unfolding unfreeze_list count_waiting has_frozen listed
list_counts f found [] = ground arith
list_counts f found (p ∷ rest) = elim (Bool-cases (is_frozen p)) [
  | inr a ↦
      let (n, l) = list_counts f found rest in
      elim (Bool-cases (listed found p.foundation)) [
        | inl b ↦ rw (a, b) (ground (arith, n, l))
        | inr b ↦ rw (a, b) (ground (arith, n, l))
      ]
  | inl a ↦ elim (Bool-cases (listed found p.foundation)) [
    | inl b ↦
        let (n, l) = list_counts f found rest in
        elim (Bool-cases (bytes_eq p.foundation f)) [
          | inl c ↦ rw (a, b, c) (ground (arith, n, l, same_listed found p.foundation f c, b))
          | inr c ↦ rw (a, b, c) (ground (arith, n, l))
        ]
    | inr b ↦
        let (n, l) = list_counts f (p.foundation ∷ found) rest in
        let w = exclusive p.state a in
        elim (Bool-cases (bytes_eq p.foundation f)) [
          | inl c ↦
              let d = same_listed found p.foundation f c in
              rw (a, b, c) (ground (arith, n, l, d, b, c, w))
          | inr c ↦ rw (a, b, c) (ground (arith, n, l, c, w))
        ]
  ]
]

pub streams_counts :
    (f : List ℕ) (found : List (List ℕ)) (ss : List NiceStream)
    → count_waiting_streams f (unfreeze_streams found ss).0
      ≡ count_waiting_streams f ss
        + (if listed found f then 0 else if has_frozen_streams f ss then 1 else 0)
unfolding unfreeze_streams count_waiting_streams has_frozen_streams
streams_counts f found [] = ground arith
streams_counts f found (s ∷ rest) =
    let (n, l) = list_counts f found s.conncheck_list in
    let m = streams_counts f (unfreeze_list found s.conncheck_list).1 rest in
    ground (arith, n, l, m)

none_waiting : (f : List ℕ) (ps : List CheckPair) → any_waiting ps ≡ false → count_waiting f ps ≡ 0
unfolding any_waiting count_waiting
none_waiting f [] h = refl
none_waiting f (p ∷ rest) h = ground (arith, h, none_waiting f rest)

pub none_waiting_streams :
    (f : List ℕ) (ss : List NiceStream)
    → any_waiting_stream ss ≡ false
    → count_waiting_streams f ss ≡ 0
unfolding any_waiting_stream count_waiting_streams
none_waiting_streams f [] h = refl
none_waiting_streams f (s ∷ rest) h =
    ground (arith, h, none_waiting f s.conncheck_list, none_waiting_streams f rest)
