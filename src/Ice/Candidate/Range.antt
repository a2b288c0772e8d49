-- ===== src/Ice/Candidate/Range.antt =====
-- What the preferences are when they exist, and the range of the priorities.
use libnice.Base.{
  ℕ, ◌+◌, ◌*◌, ◌/◌, ◌%◌, ◌^◌, ◌≤◌, ◌<◌, ◌≡◌, refl, arith, Bool, not, ◌&&◌, ◌||◌, if◌then◌else◌,
  Option, none, some, List,
}
use libnice.Ice.Candidate.{
  Candidate, CandidateType, host, server_reflexive, peer_reflexive, relayed, Transport, udp,
  tcp_active, tcp_passive, tcp_so, TurnServer, RelayType, relay_preference, turn_udp, turn_tcp,
  turn_tls, priority_full, local_preference_full, ms_local_preference_full, ip_local_preference,
  direction_preference, turn_preference, local_preference, ms_preferences, ms_local_preference,
  base_preference, is_udp, type_preference, ice_priority, ms_ice_priority,
}

pub direction_preference-lt : (s : Transport) (t : CandidateType) → direction_preference s t < 8
unfolding direction_preference
direction_preference-lt udp t = omega arith
direction_preference-lt tcp_active t = ground arith
direction_preference-lt tcp_passive t = ground arith
direction_preference-lt tcp_so t = ground arith

ms_preferences-lt : (s : Transport) → ((ms_preferences s).0 < 16) × ((ms_preferences s).1 < 8)
unfolding ms_preferences
ms_preferences-lt udp = (omega arith, omega arith)
ms_preferences-lt tcp_active = (omega arith, omega arith)
ms_preferences-lt tcp_passive = (omega arith, omega arith)
ms_preferences-lt tcp_so = (omega arith, omega arith)

pub local_preference_full-eq :
    (d t i : ℕ)
    → d < 8
    → t < 8
    → i < 64
    → local_preference_full d t i ≡ some (d * 2 ^ 13 + t * 2 ^ 6 + i)
unfolding local_preference_full
local_preference_full-eq d t i p q r = ground arith

ms_local_preference_full-eq :
    (s d t i : ℕ)
    → s < 16
    → d < 8
    → t < 8
    → i < 64
    → (l : ℕ) × (ms_local_preference_full s d t i ≡ some l) × (l < 2 ^ 16)
unfolding ms_local_preference_full
ms_local_preference_full-eq s d t i o p q r =
    ((s * 2 ^ 12 + d * 2 ^ 9 + t * 2 ^ 6 + i) % 2 ^ 16, ground arith, omega arith)

relay_preference-bounds : (t : RelayType) → (20 ≤ relay_preference t) × (relay_preference t ≤ 30)
unfolding relay_preference
relay_preference-bounds turn_udp = ground arith
relay_preference-bounds turn_tcp = ground arith
relay_preference-bounds turn_tls = ground arith

pub base_preference-bounds :
    (t : CandidateType) (turn : Option TurnServer) (n : Bool) {b : ℕ}
    → base_preference t turn n ≡ some b
    → (20 ≤ b) × (b ≤ 120)
unfolding base_preference
base_preference-bounds host turn n e = ground arith
base_preference-bounds peer_reflexive turn n e = ground arith
base_preference-bounds server_reflexive turn n e = ground arith
base_preference-bounds relayed none n e = cc
base_preference-bounds relayed (some turn) n e =
    ground (arith, relay_preference-bounds turn.relay_type)

-- The type preference exists as soon as the turn preference does.
pub base_preference-exists :
    (t : CandidateType) (turn : Option TurnServer) (n : Bool) {p : ℕ}
    → turn_preference t turn ≡ some p
    → (b : ℕ) × (base_preference t turn n ≡ some b)
unfolding turn_preference base_preference
base_preference-exists host turn n e = (_, refl)
base_preference-exists server_reflexive turn n e = (_, refl)
base_preference-exists peer_reflexive turn n e = (_, refl)
base_preference-exists relayed none n e = cc
base_preference-exists relayed (some turn) n e = (_, refl)

abbrev pub halved : Candidate → Bool → ℕ → ℕ
halved c r b = if r && is_udp c.transport || not r && not (is_udp c.transport) then b / 2 else b

pub type_preference-eq :
    (c : Candidate) (r n : Bool) {b : ℕ}
    → base_preference c.candidate_type c.turn n ≡ some b
    → type_preference c r n ≡ some (halved c r b)
unfolding type_preference
type_preference-eq c r n e = rw (e, type_preference) refl

pub halved-bounds : (c : Candidate) (r : Bool) (b : ℕ) → (b / 2 ≤ halved c r b) × (halved c r b ≤ b)
halved-bounds c r b = ground arith

pub local_preference-eq :
    (ips : List (List ℕ)) (c : Candidate) {p : ℕ}
    → turn_preference c.candidate_type c.turn ≡ some p
    → p < 8
    → ip_local_preference ips c.address < 64
    → local_preference ips c
      ≡ some (
          direction_preference c.transport c.candidate_type * 2 ^ 13
          + p * 2 ^ 6
          + ip_local_preference ips c.address)
unfolding local_preference
local_preference-eq ips c {p = p} e q r =
    rw (e, local_preference)
      (local_preference_full-eq (direction_preference c.transport c.candidate_type) p
        (ip_local_preference ips c.address) (direction_preference-lt c.transport c.candidate_type) q
        r)

ms_local_preference-eq :
    (ips : List (List ℕ)) (c : Candidate) {p : ℕ}
    → turn_preference c.candidate_type c.turn ≡ some p
    → p < 8
    → ip_local_preference ips c.address < 64
    → (l : ℕ) × (ms_local_preference ips c ≡ some l) × (l < 2 ^ 16)
unfolding ms_local_preference
ms_local_preference-eq ips c {p = p} e q r =
    rw (e, ms_local_preference)
      (ms_local_preference_full-eq (ms_preferences c.transport).0 (ms_preferences c.transport).1 p
        (ip_local_preference ips c.address) (ms_preferences-lt c.transport).0
        (ms_preferences-lt c.transport).1 q r)

priority_full-range :
    (t l i : ℕ)
    → 10 ≤ t
    → t ≤ 120
    → l < 2 ^ 16
    → 1 ≤ i
    → i ≤ 256
    → (1 ≤ priority_full t l i) × (priority_full t l i ≤ 0x7effffff)
unfolding priority_full
priority_full-range t l i p q r s u = (omega arith, omega arith)

-- A candidate that has a turn preference below 8 (0 unless it is relayed) and an address among the first
-- 64 of the host has an ICE and an MS-ICE priority, and for a component id from 1 to
-- 256 both lie between 1 and 0x7effffff, as the source promises.
pub ice_priority-range :
    (ips : List (List ℕ)) (c : Candidate) (r n : Bool) (p : ℕ)
    → turn_preference c.candidate_type c.turn ≡ some p
    → p < 8
    → ip_local_preference ips c.address < 64
    → 1 ≤ c.component_id
    → c.component_id ≤ 256
    → ((v : ℕ) × (ice_priority ips c r n ≡ some v) × (1 ≤ v) × (v ≤ 0x7effffff))
      × ((v : ℕ) × (ms_ice_priority ips c r n ≡ some v) × (1 ≤ v) × (v ≤ 0x7effffff))
unfolding ice_priority ms_ice_priority
ice_priority-range ips c r n p e q i lo hi =
    let (b, has_base) = base_preference-exists c.candidate_type c.turn n e in
    let te = type_preference-eq c r n has_base in
    let tb = base_preference-bounds c.candidate_type c.turn n has_base in
    let hb = halved-bounds c r b in
    let t = halved c r b in
    let le = local_preference-eq ips c e q i in
    let (l, me, ml) = ms_local_preference-eq ips c e q i in
    let d = direction_preference-lt c.transport c.candidate_type in
    let j =
      direction_preference c.transport c.candidate_type * 2 ^ 13
      + p * 2 ^ 6
      + ip_local_preference ips c.address in
    (
      (
        priority_full t j c.component_id,
        rw (te, le, ice_priority) refl,
        (priority_full-range t j c.component_id (omega (arith, tb, hb)) (omega (arith, tb, hb))
            (omega (arith, d)) lo hi).0,
        (priority_full-range t j c.component_id (omega (arith, tb, hb)) (omega (arith, tb, hb))
            (omega (arith, d)) lo hi).1,
      ),
      (
        priority_full t l c.component_id,
        rw (te, me, ms_ice_priority) refl,
        (priority_full-range t l c.component_id (omega (arith, tb, hb)) (omega (arith, tb, hb)) ml
            lo hi).0,
        (priority_full-range t l c.component_id (omega (arith, tb, hb)) (omega (arith, tb, hb)) ml
            lo hi).1,
      ),
    )
