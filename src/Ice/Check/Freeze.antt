-- ===== src/Ice/Check/Freeze.antt =====
-- agent/conncheck.c: which pairs are frozen, and when they are unfrozen. The functions go over the lists
-- of all streams.
use libnice.Base.{ℕ, Bool, true, false, not, ◌&&◌, ◌||◌, if◌then◌else◌, List, [], ◌∷◌, bytes_eq}
use libnice.Ice.Check.{CheckPair, NiceStream, waiting, is_waiting, is_frozen, is_succeeded}

-- A waiting pair in a list, and in the lists of the streams
unfoldable pub any_waiting : List CheckPair → Bool
any_waiting [] = false
any_waiting (p ∷ rest) = is_waiting p || any_waiting rest

unfoldable pub any_waiting_stream : List NiceStream → Bool
any_waiting_stream [] = false
any_waiting_stream (s ∷ rest) = any_waiting s.conncheck_list || any_waiting_stream rest

-- `g_slist_find_custom (foundation_list, foundation, strcmp)`
unfoldable pub listed : List (List ℕ) → List ℕ → Bool
listed [] foundation = false
listed (f ∷ rest) foundation = bytes_eq f foundation || listed rest foundation

-- The second loop of `priv_conn_check_unfreeze_next` over a list: the pairs, `foundation_list` and `result`
unfoldable pub unfreeze_list :
    List (List ℕ) → List CheckPair → List CheckPair × List (List ℕ) × Bool
unfreeze_list found [] = ([], found, false)
unfreeze_list found (p ∷ rest) =
    let thaws = not (listed found p.foundation) && is_frozen p in
    let r = unfreeze_list (if thaws then p.foundation ∷ found else found) rest in
    ((if thaws then record p { state = waiting } else p) ∷ r.0, r.1, thaws || r.2)

unfoldable pub unfreeze_streams : List (List ℕ) → List NiceStream → List NiceStream × Bool
unfreeze_streams found [] = ([], false)
unfreeze_streams found (s ∷ rest) =
    let r = unfreeze_list found s.conncheck_list in
    let later = unfreeze_streams r.1 rest in
    (record s { conncheck_list = r.0 } ∷ later.0, r.2 || later.1)

-- `priv_conn_check_unfreeze_next`
unfoldable pub unfreeze_next : List NiceStream → List NiceStream × Bool
unfreeze_next streams =
    if any_waiting_stream streams then (streams, true) else unfreeze_streams [] streams

-- `conn_check_unfreeze_related` on a list, for the foundation of a pair that succeeded
unfoldable pub unfreeze_related : List ℕ → List CheckPair → List CheckPair
unfreeze_related foundation [] = []
unfreeze_related foundation (p ∷ rest) =
    (if is_frozen p && bytes_eq p.foundation foundation then record p { state = waiting } else p)
    ∷ unfreeze_related foundation rest

unfoldable pub unfreeze_related_streams : List ℕ → List NiceStream → List NiceStream
unfreeze_related_streams foundation [] = []
unfreeze_related_streams foundation (s ∷ rest) =
    record s { conncheck_list = unfreeze_related foundation s.conncheck_list }
    ∷ unfreeze_related_streams foundation rest

-- A pair of the foundation has succeeded: the test of `priv_conn_check_unfreeze_maybe`
unfoldable pub succeeded_before : List ℕ → List CheckPair → Bool
succeeded_before foundation [] = false
succeeded_before foundation (p ∷ rest) =
    (is_succeeded p && bytes_eq p.foundation foundation) || succeeded_before foundation rest

unfoldable pub succeeded_in : List ℕ → List NiceStream → Bool
succeeded_in foundation [] = false
succeeded_in foundation (s ∷ rest) =
    succeeded_before foundation s.conncheck_list || succeeded_in foundation rest

-- `priv_conn_check_unfreeze_maybe`: the pair afterwards; it is frozen before, as its caller tests and it
-- asserts
unfoldable pub unfreeze_maybe : List NiceStream → CheckPair → CheckPair
unfreeze_maybe streams pair =
    if succeeded_in pair.foundation streams then record pair { state = waiting } else pair
