-- ===== src/Ice/Candidate.antt =====
-- agent/candidate.c: the priorities of candidates and of candidate pairs. A failing `g_assert` and
-- a read through a null `turn` end the program: the result is `none`. The addresses of the
-- candidate and of the host's interfaces, which system calls give as text, are arguments.
pub mod Range
pub mod Order
pub mod Pair
use libnice.Base.{
  ℕ, zero, suc, ◌+◌, ◌-◌, ◌*◌, ◌/◌, ◌%◌, ◌^◌, Bool, true, false, not, ◌&&◌, ◌||◌, ltb, ◌==◌, min,
  max, if◌then◌else◌, bytes_eq, Option, none, some, List, [], ◌∷◌,
}

-- `NiceCandidateType`
pub data CandidateType : Type 0 where
  host server_reflexive peer_reflexive relayed : CandidateType

-- `NiceCandidateTransport`
pub data Transport : Type 0 where
  udp tcp_active tcp_passive tcp_so : Transport

-- `NiceRelayType`
pub data RelayType : Type 0 where
  turn_udp turn_tcp turn_tls : RelayType

-- What the priorities read of a `TurnServer`.
pub record TurnServer : Type 0 where
  pub preference : ℕ
  pub relay_type : RelayType

-- What the priorities read of a `NiceCandidateImpl`; `address` is the text of `addr` or, when the
-- candidate is not a host candidate, of `base_addr`.
pub record Candidate : Type 0 where
  pub candidate_type : CandidateType
  pub transport : Transport
  pub component_id : ℕ
  pub turn : Option TurnServer
  pub address : List ℕ

-- `nice_candidate_jingle_priority`
unfoldable pub jingle_priority : Candidate → ℕ
jingle_priority c = elim c.candidate_type [
  | host ↦ 1000
  | server_reflexive ↦ 900
  | peer_reflexive ↦ 900
  | relayed ↦ 500
]

-- `nice_candidate_msn_priority`
unfoldable pub msn_priority : Candidate → ℕ
msn_priority c = elim c.candidate_type [
  | host ↦ 830
  | server_reflexive ↦ 550
  | peer_reflexive ↦ 550
  | relayed ↦ 450
]

-- `nice_candidate_ice_priority_full`, whose arguments are unsigned of 32 bits
unfoldable pub priority_full : ℕ → ℕ → ℕ → ℕ
priority_full type_preference local_preference component_id =
    (0x1000000 * type_preference + 0x100 * local_preference + (0x100 + 2 ^ 32 - component_id))
    % 2 ^ 32

-- `nice_candidate_ice_local_preference_full`
unfoldable pub local_preference_full : ℕ → ℕ → ℕ → Option ℕ
local_preference_full direction_preference turn_preference other_preference =
    if ltb other_preference 64 && ltb turn_preference 8 && ltb direction_preference 8
    then some
        ((direction_preference * 2 ^ 13 + turn_preference * 2 ^ 6 + other_preference) % 2 ^ 16)
    else none

-- `nice_candidate_ms_ice_local_preference_full`
unfoldable pub ms_local_preference_full : ℕ → ℕ → ℕ → ℕ → Option ℕ
ms_local_preference_full transport_preference direction_preference turn_preference
      other_preference =
    if ltb other_preference 64
      && ltb turn_preference 8
      && ltb direction_preference 8
      && ltb transport_preference 16
    then some (
        (transport_preference * 2 ^ 12
          + direction_preference * 2 ^ 9
          + turn_preference * 2 ^ 6
          + other_preference)
        % 2 ^ 16)
    else none

-- `g_strsplit (text, "%", 2)[0]`
unfoldable pub unscoped : List ℕ → List ℕ
unscoped [] = []
unscoped (c ∷ cs) = let rest = unscoped cs in if c == 0x25 then [] else c ∷ rest

-- `nice_candidate_ip_local_preference`, among the addresses of the host's interfaces
unfoldable pub ip_local_preference : List (List ℕ) → List ℕ → ℕ
ip_local_preference [] address = 0
ip_local_preference (ip ∷ ips) address =
    let rest = ip_local_preference ips address in
    if bytes_eq address (unscoped ip) then 0 else suc rest

-- `candidate->type` is `SERVER_REFLEXIVE` or `HOST`.
unfoldable pub is_direct : CandidateType → Bool
is_direct host = true
is_direct server_reflexive = true
is_direct peer_reflexive = false
is_direct relayed = false

-- The direction preference of `nice_candidate_ice_local_preference`
unfoldable pub direction_preference : Transport → CandidateType → ℕ
direction_preference udp t = 1
direction_preference tcp_active t = if is_direct t then 4 else 6
direction_preference tcp_passive t = if is_direct t then 2 else 4
direction_preference tcp_so t = if is_direct t then 6 else 2

-- The turn preference, for both local preferences
unfoldable pub turn_preference : CandidateType → Option TurnServer → Option ℕ
turn_preference host turn = some 0
turn_preference server_reflexive turn = some 0
turn_preference peer_reflexive turn = some 0
turn_preference relayed none = none
turn_preference relayed (some turn) = some turn.preference

-- `nice_candidate_ice_local_preference`
unfoldable pub local_preference : List (List ℕ) → Candidate → Option ℕ
local_preference ips c = elim (turn_preference c.candidate_type c.turn) [
  | none ↦ none
  | some turn ↦
      local_preference_full (direction_preference c.transport c.candidate_type) turn
        (ip_local_preference ips c.address)
]

-- The transport and direction preferences of `nice_candidate_ms_ice_local_preference`
unfoldable pub ms_preferences : Transport → ℕ × ℕ
ms_preferences tcp_so = (6, 5)
ms_preferences tcp_active = (6, 5)
ms_preferences tcp_passive = (6, 2)
ms_preferences udp = (15, 0)

-- `nice_candidate_ms_ice_local_preference`
unfoldable pub ms_local_preference : List (List ℕ) → Candidate → Option ℕ
ms_local_preference ips c = elim (turn_preference c.candidate_type c.turn) [
  | none ↦ none
  | some turn ↦
      ms_local_preference_full (ms_preferences c.transport).0 (ms_preferences c.transport).1 turn
        (ip_local_preference ips c.address)
]

unfoldable pub relay_preference : RelayType → ℕ
relay_preference turn_udp = 30
relay_preference turn_tcp = 20
relay_preference turn_tls = 20

-- The `switch` of `nice_candidate_ice_type_preference`
unfoldable pub base_preference : CandidateType → Option TurnServer → Bool → Option ℕ
base_preference host turn nat_assisted = some 120
base_preference peer_reflexive turn nat_assisted = some 110
base_preference server_reflexive turn nat_assisted = some (if nat_assisted then 105 else 100)
base_preference relayed none nat_assisted = none
base_preference relayed (some turn) nat_assisted = some (relay_preference turn.relay_type)

-- `transport == NICE_CANDIDATE_TRANSPORT_UDP`
unfoldable pub is_udp : Transport → Bool
is_udp udp = true
is_udp tcp_active = false
is_udp tcp_passive = false
is_udp tcp_so = false

-- `nice_candidate_ice_type_preference`
unfoldable pub type_preference : Candidate → Bool → Bool → Option ℕ
type_preference c reliable nat_assisted =
    elim (base_preference c.candidate_type c.turn nat_assisted) [
      | none ↦ none
      | some base ↦ some (
          if reliable && is_udp c.transport || not reliable && not (is_udp c.transport)
          then base / 2
          else base)
    ]

-- `nice_candidate_ice_priority`
unfoldable pub ice_priority : List (List ℕ) → Candidate → Bool → Bool → Option ℕ
ice_priority ips c reliable nat_assisted = elim (type_preference c reliable nat_assisted) [
  | none ↦ none
  | some type_ ↦ elim (local_preference ips c) [
    | none ↦ none
    | some local_ ↦ some (priority_full type_ local_ c.component_id)
  ]
]

-- `nice_candidate_ms_ice_priority`
unfoldable pub ms_ice_priority : List (List ℕ) → Candidate → Bool → Bool → Option ℕ
ms_ice_priority ips c reliable nat_assisted = elim (type_preference c reliable nat_assisted) [
  | none ↦ none
  | some type_ ↦ elim (ms_local_preference ips c) [
    | none ↦ none
    | some local_ ↦ some (priority_full type_ local_ c.component_id)
  ]
]

-- `nice_candidate_pair_priority`: `2 * max` is a product of 32 bits.
unfoldable pub pair_priority : ℕ → ℕ → ℕ
pair_priority o_prio a_prio =
    let max = if ltb a_prio o_prio then o_prio else a_prio in
    let min = if ltb o_prio a_prio then o_prio else a_prio in
    (2 ^ 32 * min + 2 * max % 2 ^ 32 + (if ltb a_prio o_prio then 1 else 0)) % 2 ^ 64
