-- ===== src/Ice/Check.antt =====
-- agent/conncheck.c, agent/conncheck.h: candidate pairs, the check lists of the streams, and the queue of
-- triggered checks. A pointer is a number; a pair stands in one list, where `address` tells it from
-- the others. GLib's lists are lists.
pub mod Queue
pub mod Freeze
pub mod Count
pub mod Thaw
pub mod Limit
pub mod Prune
pub mod Invariant
pub mod Pairs
pub mod Added
pub mod Role
mod Sorting
mod Tests
pub mod Order
use libnice.Base.{
  ℕ, ◌+◌, ◌<◌, Bool, true, false, not, ◌&&◌, ◌||◌, ltb, ◌==◌, if◌then◌else◌, Option, none, some,
  List, [], ◌∷◌, ◌++◌,
}

-- `NiceCheckState`
pub data CheckState : Type 0 where
  waiting in_progress succeeded failed frozen discovered : CheckState

-- `CandidateCheckPair`; the fields with the STUN transactions are one test, whether there are any.
pub record CheckPair : Type 0 where
  pub address : ℕ
  pub stream_id : ℕ
  pub component_id : ℕ
  pub local_ : ℕ
  pub remote : ℕ
  pub sockptr : ℕ
  pub foundation : List ℕ
  pub state : CheckState
  pub nominated : Bool
  pub valid : Bool
  pub use_candidate_on_next_check : Bool
  pub mark_nominated_on_response_arrival : Bool
  pub retransmit : Bool
  pub discovered_pair : Option ℕ
  pub succeeded_pair : Option ℕ
  pub priority : ℕ
  pub stun_priority : ℕ
  pub has_transactions : Bool

-- What the checks use of a `NiceStream`
pub record NiceStream : Type 0 where
  pub id : ℕ
  pub conncheck_list : List CheckPair

abbrev pub is_waiting : CheckPair → Bool
is_waiting p = elim p.state [ waiting ↦ true | _ ↦ false ]

abbrev pub is_in_progress : CheckPair → Bool
is_in_progress p = elim p.state [ in_progress ↦ true | _ ↦ false ]

abbrev pub is_succeeded : CheckPair → Bool
is_succeeded p = elim p.state [ succeeded ↦ true | _ ↦ false ]

abbrev pub is_failed : CheckPair → Bool
is_failed p = elim p.state [ failed ↦ true | _ ↦ false ]

abbrev pub is_frozen : CheckPair → Bool
is_frozen p = elim p.state [ frozen ↦ true | _ ↦ false ]

abbrev pub is_discovered : CheckPair → Bool
is_discovered p = elim p.state [ discovered ↦ true | _ ↦ false ]

-- `g_slist_find` finds the pair.
unfoldable pub queued : List ℕ → ℕ → Bool
queued [] pair = false
queued (a ∷ rest) pair = (a == pair) || queued rest pair

-- `priv_add_pair_to_triggered_check_queue`
unfoldable pub add_triggered : List ℕ → ℕ → List ℕ
add_triggered queue pair = if queued queue pair then queue else queue ++ (pair ∷ [])

-- `priv_remove_pair_from_triggered_check_queue`: `g_slist_remove` removes the first.
unfoldable pub remove_triggered : List ℕ → ℕ → List ℕ
remove_triggered [] pair = []
remove_triggered (a ∷ rest) pair =
    let later = remove_triggered rest pair in if a == pair then rest else a ∷ later

-- `priv_get_pair_from_triggered_check_queue`
unfoldable pub get_triggered : List ℕ → List ℕ × Option ℕ
get_triggered [] = ([], none)
get_triggered (a ∷ rest) = (remove_triggered (a ∷ rest) a, some a)

-- `priv_conn_check_find_next_waiting`
unfoldable pub find_next_waiting : List CheckPair → Option CheckPair
find_next_waiting [] = none
find_next_waiting (p ∷ rest) =
    let later = find_next_waiting rest in if is_waiting p then some p else later
