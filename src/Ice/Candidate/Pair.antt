-- ===== src/Ice/Candidate/Pair.antt =====
-- The priority of a candidate pair.
use libnice.Base.{ℕ, ◌+◌, ◌*◌, ◌^◌, ◌≤◌, ◌<◌, ◌≡◌, arith, ltb, min, max, if◌then◌else◌, ◌⊎◌, ◌↔◌}
use libnice.Ice.Candidate.{pair_priority}

-- For priorities below 2 ^ 31 the pair priority is the formula of RFC 5245, 5.7.2.
pub pair_priority-eq :
    (g d : ℕ)
    → g < 2 ^ 31
    → d < 2 ^ 31
    → pair_priority g d ≡ 2 ^ 32 * min g d + 2 * max g d + (if ltb d g then 1 else 0)
unfolding pair_priority
pair_priority-eq g d p q = ground arith

-- For priorities below 2 ^ 31 the pair priority orders pairs by the lower of the two priorities first,
-- by the higher one next, and then puts a pair whose first priority is the higher one last; so no
-- two different pairs have the same priority.
pub pair_priority-lt_iff :
    (g d g' d' : ℕ)
    → (g < 2 ^ 31) × (d < 2 ^ 31)
    → (g' < 2 ^ 31) × (d' < 2 ^ 31)
    → (pair_priority g d < pair_priority g' d') ↔ (
        (min g d < min g' d')
        ⊎ ((min g d ≡ min g' d') × (max g d < max g' d'))
        ⊎ ((min g d ≡ min g' d') × (max g d ≡ max g' d') × (g ≤ d) × (d' < g')))
pair_priority-lt_iff g d g' d' p q =
    let e = pair_priority-eq g d p.0 p.1 in
    let e' = pair_priority-eq g' d' q.0 q.1 in ground (arith, e, e')

-- With a first priority from 2 ^ 31 to 2 ^ 32 that is higher than the second the pair priority is
-- 2 ^ 32 less than the formula of RFC 5245, 5.7.2, since the doubled priority wraps around.
pub pair_priority-wraps :
    (g d : ℕ)
    → 2 ^ 31 ≤ g
    → g < 2 ^ 32
    → d < g
    → pair_priority g d + 2 ^ 32 ≡ 2 ^ 32 * d + 2 * g + 1
unfolding pair_priority
pair_priority-wraps g d p q r = ground arith
