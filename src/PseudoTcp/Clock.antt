-- ===== src/PseudoTcp/Clock.antt =====
-- agent/pseudotcp.c: the clock of 32 bits and the sequence numbers, which wrap around.
use libnice.Base.{
  ℕ, ◌+◌, ◌-◌, ◌%◌, ◌^◌, ◌≤◌, ◌<◌, ◌≡◌, arith, Bool, true, false, not, ◌&&◌, ltb, leb,
  if◌then◌else◌,
}

-- `bound`
unfoldable pub bound : ℕ → ℕ → ℕ → ℕ
bound lower middle upper =
    let larger = if ltb middle lower then lower else middle in
    if ltb larger upper then larger else upper

-- `time_is_between`
unfoldable pub time_is_between : ℕ → ℕ → ℕ → Bool
time_is_between later middle earlier =
    if leb earlier later
    then leb earlier middle && leb middle later
    else not (ltb later middle && ltb middle earlier)

-- A `gint32`
pub data Int32 : Type 0 where
  plus minus : ℕ → Int32

-- `time_diff`; the casts to `long` of sums and differences of 32 bits lose nothing.
unfoldable pub time_diff : ℕ → ℕ → Int32
time_diff later earlier =
    if time_is_between ((earlier + 2 ^ 31) % 2 ^ 32) later earlier
    then if leb earlier later
      then plus (later - earlier)
      else plus ((later + (2 ^ 32 - 1 - earlier) + 1) % 2 ^ 32)
    else if leb later earlier
    then minus (earlier - later)
    else minus ((earlier + (2 ^ 32 - 1 - later) + 1) % 2 ^ 32)

-- A time `d` after `earlier` on the clock is `d` ahead, up to half a turn.
pub time_diff-ahead :
    (earlier d : ℕ)
    → earlier < 2 ^ 32
    → d ≤ 2 ^ 31
    → time_diff ((earlier + d) % 2 ^ 32) earlier ≡ plus d
unfolding time_diff time_is_between
time_diff-ahead earlier d p q = ground arith

-- A time `d` before `later` on the clock is `d` behind, short of half a turn; so the difference
-- of two times has the sign of their distance however often the clock has wrapped.
pub time_diff-behind :
    (later d : ℕ)
    → later < 2 ^ 32
    → 0 < d
    → d < 2 ^ 31
    → time_diff later ((later + d) % 2 ^ 32) ≡ minus d
unfolding time_diff time_is_between
time_diff-behind later d p o q = ground arith

-- `LARGER` and `LARGER_OR_EQUAL`, whose differences are of 32 bits
unfoldable pub larger : ℕ → ℕ → Bool
larger a b = ltb ((a + 2 ^ 33 - b - 1) % 2 ^ 32) (2 ^ 31 - 1)

unfoldable pub larger_or_equal : ℕ → ℕ → Bool
larger_or_equal a b = ltb ((a + 2 ^ 32 - b) % 2 ^ 32) (2 ^ 31 - 1)

-- Sequence numbers `d` apart on the wheel of 2 ^ 32 are compared right for 0 < d < 2 ^ 31: the one ahead
-- is larger and the other is not; and for d less than 2 ^ 31 - 1 the one ahead is larger or equal.
pub larger_lem :
    (b d : ℕ)
    → b < 2 ^ 32
    → 0 < d
    → d < 2 ^ 31
    → (larger ((b + d) % 2 ^ 32) b ≡ true)
      × (larger b ((b + d) % 2 ^ 32) ≡ false)
      × (larger b b ≡ false)
      × (larger_or_equal b b ≡ true)
      × (larger_or_equal ((b + d) % 2 ^ 32) b ≡ ltb d (2 ^ 31 - 1))
unfolding larger larger_or_equal
larger_lem b d p o q = (ground arith, ground arith, ground arith, ground arith, ground arith)

-- `bound` clamps: it lies between the bounds, if those are in order, and is the value itself when
-- that lies between them.
pub bound_lem :
    (lower middle upper : ℕ)
    → lower ≤ upper
    → (lower ≤ bound lower middle upper)
      × (bound lower middle upper ≤ upper)
      × (lower ≤ middle → middle ≤ upper → bound lower middle upper ≡ middle)
unfolding bound
bound_lem lower middle upper h = (ground arith, ground arith, λ p q. ground arith)
