-- ===== src/Ice/Check/Limit.antt =====
-- agent/conncheck.c: `priv_limit_conn_check_list_size`.
use libnice.Base.{
  ℕ, zero, suc, ◌+◌, ◌≤◌, ◌≡◌, refl, ap, arith, Bool, false, not, ◌&&◌, ◌||◌, ltb, ◌==◌,
  if◌then◌else◌, List, [], ◌∷◌, ◌++◌, take, drop, lt→ltb, Bool-cases, inl, inr,
}
use libnice.Ice.Check.{CheckPair, is_frozen, is_failed, remove_triggered}

-- The loop, behind `valid` pairs: the list, the queue of triggered checks, and whether `pair` was deleted
unfoldable pub limit_list : ℕ → ℕ → ℕ → List CheckPair → List ℕ → List CheckPair × List ℕ × Bool
limit_list max_conn_checks valid pair [] queue = ([], queue, false)
limit_list max_conn_checks valid pair (p ∷ rest) queue =
    let drops = (ltb max_conn_checks (valid + 1) && is_frozen p) || is_failed p in
    let r =
      limit_list max_conn_checks (valid + 1) pair rest
        (if drops then remove_triggered queue p.address else queue) in
    (if drops then r.0 else p ∷ r.0, r.1, (drops && (p.address == pair)) || r.2)

-- `priv_limit_conn_check_list_size`
unfoldable pub limit_conn_check_list_size :
    ℕ → ℕ → List CheckPair → List ℕ → List CheckPair × List ℕ × Bool
limit_conn_check_list_size max_conn_checks pair ps queue =
    limit_list max_conn_checks 0 pair ps queue

-- The pairs of a list that pass a test
unfoldable pub keep : (CheckPair → Bool) → List CheckPair → List CheckPair
keep test [] = []
keep test (p ∷ rest) = if test p then p ∷ keep test rest else keep test rest

abbrev pub is_active : CheckPair → Bool
is_active p = not (is_failed p) && not (is_frozen p)

behind_limit :
    (max_conn_checks valid pair : ℕ) (ps : List CheckPair) (queue : List ℕ)
    → max_conn_checks ≤ valid
    → (limit_list max_conn_checks valid pair ps queue).0 ≡ keep is_active ps
unfolding limit_list keep
behind_limit m valid pair [] queue h = refl
behind_limit m valid pair (p ∷ rest) queue h =
    let past = lt→ltb m (valid + 1) (omega arith) in
    let later = λ (q : List ℕ). behind_limit m (valid + 1) pair rest q (omega arith) in
    elim (Bool-cases (is_frozen p)) [
      | inl b ↦ elim (Bool-cases (is_failed p)) [
        | inl a ↦ rw (past, a, b) (later (remove_triggered queue p.address))
        | inr a ↦ rw (past, a, b) (later (remove_triggered queue p.address))
      ]
      | inr b ↦ elim (Bool-cases (is_failed p)) [
        | inl a ↦ rw (past, a, b) (later (remove_triggered queue p.address))
        | inr a ↦ rw (past, a, b) (ap (◌∷◌ p) (later queue))
      ]
    ]

before_limit :
    (count valid max_conn_checks pair : ℕ) (ps : List CheckPair) (queue : List ℕ)
    → max_conn_checks ≡ valid + count
    → (limit_list max_conn_checks valid pair ps queue).0
      ≡ keep (λ p. not (is_failed p)) (take count ps) ++ keep is_active (drop count ps)
unfolding limit_list keep
before_limit zero valid m pair ps queue e = behind_limit m valid pair ps queue (omega arith)
before_limit (suc n) valid m pair [] queue e = refl
before_limit (suc n) valid m pair (p ∷ rest) queue e =
    let within : ltb m (valid + 1) ≡ false = ground arith in
    let later = λ (q : List ℕ). before_limit n (valid + 1) m pair rest q (omega arith) in
    elim (Bool-cases (is_failed p)) [
      | inl a ↦ rw (within, a) (later (remove_triggered queue p.address))
      | inr a ↦ rw (within, a) (ap (◌∷◌ p) (later queue))
    ]

-- `priv_limit_conn_check_list_size` keeps, among the first `max_conn_checks` pairs, those that have not failed,
-- and behind them those that have not failed and are not frozen, in their order.
pub limit_conn_check_list_size_keeps :
    (max_conn_checks pair : ℕ) (ps : List CheckPair) (queue : List ℕ)
    → (limit_conn_check_list_size max_conn_checks pair ps queue).0
      ≡ keep (λ p. not (is_failed p)) (take max_conn_checks ps)
        ++ keep is_active (drop max_conn_checks ps)
unfolding limit_conn_check_list_size
limit_conn_check_list_size_keeps m pair ps queue = before_limit m 0 m pair ps queue (omega arith)
