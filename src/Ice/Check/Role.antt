-- ===== src/Ice/Check/Role.antt =====
-- agent/conncheck.c: check lists after a change of the role.
use libnice.Base.{ℕ, ◌≡◌, refl, sym, Bool, true, false, List, [], ◌∷◌, map, Bool-cases, inl, inr}
use mathlib.Core.List.{Permᴰ}
use mathlib.Core.Path.{subst}
use libnice.Ice.Check.{CheckPair, NiceStream}
use libnice.Ice.Check.Order.{All, IsOrdered, SortedList, Sorts}
use libnice.Ice.Check.Pairs.{
  NiceAgent, NiceCandidate, candidate_pair_priority, recalculated, recalculate_stream,
  recalculate_pair_priorities, is_same, check_for_role_conflict,
}

-- The priority of a pair is the one that the role gives it.
abbrev pub IsRanked : Bool → (ℕ → NiceCandidate) → CheckPair → Type 0
IsRanked controlling_mode candidates p =
    p.priority
    ≡ candidate_pair_priority controlling_mode (candidates p.local_) (candidates p.remote)

-- Each check list is ordered by the priorities that the role gives.
abbrev pub AreRanked : Bool → (ℕ → NiceCandidate) → List NiceStream → Type 0
AreRanked controlling_mode candidates [] = Unit
AreRanked controlling_mode candidates (s ∷ rest) =
    IsOrdered s.conncheck_list
    × All (IsRanked controlling_mode candidates) s.conncheck_list
    × AreRanked controlling_mode candidates rest

All-perm {κ} :
    (P : CheckPair → Type κ) {ps ps' : List CheckPair} → Permᴰ ps ps' → All P ps' → All P ps
All-perm P Permᴰ.nil h = h
All-perm P (Permᴰ.cons e d) (h, later) = (subst P (sym e) h, All-perm P d later)
All-perm P (Permᴰ.swap e e') (h, (h', later)) = (subst P (sym e) h', (subst P (sym e') h, later))
All-perm P (Permᴰ.trans d d') h = All-perm P d (All-perm P d' h)

All-recalculated :
    (mode : Bool) (candidates : ℕ → NiceCandidate) (ps : List CheckPair)
    → All (IsRanked mode candidates) (map (recalculated mode candidates) ps)
unfolding recalculated
All-recalculated mode candidates [] = tt
All-recalculated mode candidates (p ∷ rest) = (refl, All-recalculated mode candidates rest)

streams_ranked :
    (g : SortedList) (sorts : Sorts g) (mode : Bool) (candidates : ℕ → NiceCandidate)
    (ss : List NiceStream)
    → AreRanked mode candidates (map (recalculate_stream g mode candidates) ss)
unfolding recalculate_stream
streams_ranked g sorts mode candidates [] = tt
streams_ranked g sorts mode candidates (s ∷ rest) =
    let ps = map (recalculated mode candidates) s.conncheck_list in
    (
      sorts.sorted ps,
      All-perm (IsRanked mode candidates) (sorts.permuted ps)
          (All-recalculated mode candidates s.conncheck_list),
      streams_ranked g sorts mode candidates rest,
    )

same_eq : (a b : Bool) → is_same a b ≡ true → b ≡ a
same_eq true b e = e
same_eq false true e = cc
same_eq false false e = refl

-- For a sorting that has the properties of `Sorts`: after `priv_check_for_role_conflict` the agent has the
-- role that was asked for, and each check list is ordered by the priorities that this role gives the pairs,
-- if they were those of the former role before.
pub check_for_role_conflict-AreRanked :
    (g : SortedList) (candidates : ℕ → NiceCandidate) (control : Bool) (agent : NiceAgent)
    → Sorts g
    → AreRanked agent.controlling_mode candidates agent.streams
    → let agent' = check_for_role_conflict g candidates control agent in
      (agent'.controlling_mode ≡ control)
      × AreRanked agent'.controlling_mode candidates agent'.streams
unfolding check_for_role_conflict recalculate_pair_priorities
check_for_role_conflict-AreRanked g candidates control agent sorts h =
    elim (Bool-cases (is_same control agent.controlling_mode)) [
      | inl e ↦ rw e (same_eq control agent.controlling_mode e, h)
      | inr e ↦ rw e (refl, streams_ranked g sorts control candidates agent.streams)
    ]
