-- ===== src/PseudoTcp/State.antt =====
-- agent/pseudotcp.c: the states of a pseudo-TCP connection and the moves between them.
pub mod Closing
use libnice.Base.{ℕ, Bool, true, false, Option, none, some, List, [], ◌∷◌, if◌then◌else◌, ◌==◌}

-- `PseudoTcpState`
pub data PseudoTcpState : Type 0 where
  listen syn_sent syn_received established closed : PseudoTcpState
  fin_wait_1 fin_wait_2 closing time_wait close_wait last_ack : PseudoTcpState

-- `pseudo_tcp_state_has_sent_fin`
unfoldable pub has_sent_fin : PseudoTcpState → Bool
has_sent_fin s = elim s [
  | listen ↦ false
  | syn_sent ↦ false
  | syn_received ↦ false
  | established ↦ false
  | close_wait ↦ false
  | _ ↦ true
]

-- `pseudo_tcp_state_has_received_fin`
unfoldable pub has_received_fin : PseudoTcpState → Bool
has_received_fin s = elim s [
  | listen ↦ false
  | syn_sent ↦ false
  | syn_received ↦ false
  | established ↦ false
  | fin_wait_1 ↦ false
  | fin_wait_2 ↦ false
  | _ ↦ true
]

-- `pseudo_tcp_state_has_received_fin_ack`
unfoldable pub has_received_fin_ack : PseudoTcpState → Bool
has_received_fin_ack s = elim s [ closed ↦ true | time_wait ↦ true | _ ↦ false ]

-- The transitions that the assertion of `set_state` lists
unfoldable pub transition : PseudoTcpState → PseudoTcpState → Bool
transition closed new = elim new [ syn_sent ↦ true | listen ↦ true | _ ↦ false ]
transition listen new = elim new [
  | closed ↦ true
  | syn_sent ↦ true
  | syn_received ↦ true
  | _ ↦ false
]
transition syn_sent new = elim new [
  | closed ↦ true
  | syn_received ↦ true
  | established ↦ true
  | _ ↦ false
]
transition syn_received new = elim new [
  | established ↦ true
  | fin_wait_1 ↦ true
  | listen ↦ true
  | _ ↦ false
]
transition established new = elim new [ fin_wait_1 ↦ true | close_wait ↦ true | _ ↦ false ]
transition fin_wait_1 new = elim new [
  | fin_wait_2 ↦ true
  | closing ↦ true
  | time_wait ↦ true
  | _ ↦ false
]
transition fin_wait_2 new = elim new [ time_wait ↦ true | _ ↦ false ]
transition closing new = elim new [ time_wait ↦ true | _ ↦ false ]
transition time_wait new = elim new [ closed ↦ true | _ ↦ false ]
transition close_wait new = elim new [ last_ack ↦ true | _ ↦ false ]
transition last_ack new = elim new [ closed ↦ true | _ ↦ false ]

-- The number of a state in the enumeration
unfoldable pub code : PseudoTcpState → ℕ
code s = elim s [
  | listen ↦ 0
  | syn_sent ↦ 1
  | syn_received ↦ 2
  | established ↦ 3
  | closed ↦ 4
  | fin_wait_1 ↦ 5
  | fin_wait_2 ↦ 6
  | closing ↦ 7
  | time_wait ↦ 8
  | close_wait ↦ 9
  | last_ack ↦ 10
]

-- `set_state`; `none` when the assertion fails, which ends the program.
unfoldable pub set_state : PseudoTcpState → PseudoTcpState → Option PseudoTcpState
set_state old new =
    if code new == code old then some old else if transition old new then some new else none

-- The calls of `set_state` one after another
unfoldable pub set_states : PseudoTcpState → List PseudoTcpState → Option PseudoTcpState
set_states s [] = some s
set_states s (new ∷ rest) = elim (set_state s new) [ none ↦ none | some s' ↦ set_states s' rest ]

-- The states that `closedown` sets, `set_state_closed` at its end included
unfoldable pub closedown : PseudoTcpState → List PseudoTcpState
closedown s = elim s [
  | syn_received ↦ fin_wait_1 ∷ fin_wait_2 ∷ time_wait ∷ closed ∷ []
  | established ↦ fin_wait_1 ∷ fin_wait_2 ∷ time_wait ∷ closed ∷ []
  | fin_wait_1 ↦ fin_wait_2 ∷ time_wait ∷ closed ∷ []
  | fin_wait_2 ↦ time_wait ∷ closed ∷ []
  | closing ↦ time_wait ∷ closed ∷ []
  | close_wait ↦ last_ack ∷ closed ∷ []
  | _ ↦ closed ∷ []
]
