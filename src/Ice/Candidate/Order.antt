-- ===== src/Ice/Candidate/Order.antt =====
-- How priorities order and tell apart candidates.
use libnice.Base.{
  ℕ, ◌+◌, ◌*◌, ◌^◌, ◌≤◌, ◌<◌, ◌≡◌, refl, arith, Bool, Option, none, some, List, sym, ◌∙◌,
}
use libnice.Ice.Candidate.{
  Candidate, CandidateType, host, server_reflexive, peer_reflexive, relayed, priority_full,
  ip_local_preference, direction_preference, turn_preference, base_preference, ice_priority,
  TurnServer, relay_preference, RelayType, turn_udp, turn_tcp, turn_tls,
}
use libnice.Ice.Candidate.Range.{
  halved, type_preference-eq, local_preference-eq, direction_preference-lt, base_preference-exists,
  base_preference-bounds, halved-bounds,
}

-- The parts of the priority of a candidate.
parts :
    (ips : List (List ℕ)) (c : Candidate) (r n : Bool) {b p : ℕ}
    → base_preference c.candidate_type c.turn n ≡ some b
    → turn_preference c.candidate_type c.turn ≡ some p
    → p < 8
    → ip_local_preference ips c.address < 64
    → ice_priority ips c r n
      ≡ some (
          priority_full
            (halved c r b)
            (direction_preference c.transport c.candidate_type * 2 ^ 13
              + p * 2 ^ 6
              + ip_local_preference ips c.address)
            c.component_id)
unfolding ice_priority
parts ips c r n e f q i =
    rw (type_preference-eq c r n e, local_preference-eq ips c f q i, ice_priority) refl

priority_full-injective :
    (t l i t' l' i' : ℕ)
    → t < 256
    → t' < 256
    → l < 2 ^ 16
    → l' < 2 ^ 16
    → (1 ≤ i) × (i ≤ 256)
    → (1 ≤ i') × (i' ≤ 256)
    → priority_full t l i ≡ priority_full t' l' i'
    → (t ≡ t') × (l ≡ l') × (i ≡ i')
unfolding priority_full
priority_full-injective t l i t' l' i' p p' q q' r r' e = (omega arith, omega arith, omega arith)

some-inj : {a b : ℕ} → some a ≡ some b → a ≡ b
some-inj e = cc

-- Two candidates with turn preferences below 8, addresses among the first 64 of the host and
-- component ids from 1 to 256 that have the same type and transport have the same ICE
-- priority only if their addresses stand at the same place, and their turn preferences and
-- components are the same.
pub ice_priority-injective :
    (ips : List (List ℕ)) (c c' : Candidate) (r n : Bool) (p p' : ℕ)
    → turn_preference c.candidate_type c.turn ≡ some p
    → turn_preference c'.candidate_type c'.turn ≡ some p'
    → (p < 8) × (p' < 8)
    → ip_local_preference ips c.address < 64
    → ip_local_preference ips c'.address < 64
    → (1 ≤ c.component_id) × (c.component_id ≤ 256)
    → (1 ≤ c'.component_id) × (c'.component_id ≤ 256)
    → c.candidate_type ≡ c'.candidate_type
    → c.transport ≡ c'.transport
    → ice_priority ips c r n ≡ ice_priority ips c' r n
    → (ip_local_preference ips c.address ≡ ip_local_preference ips c'.address)
      × (p ≡ p')
      × (c.component_id ≡ c'.component_id)
ice_priority-injective ips c c' r n p p' e e' q i i' k k' same_type same_transport same =
    let (b, has) = base_preference-exists c.candidate_type c.turn n e in
    let (b', has') = base_preference-exists c'.candidate_type c'.turn n e' in
    let d = direction_preference c.transport c.candidate_type in
    let d' = direction_preference c'.transport c'.candidate_type in
    let u = direction_preference-lt c.transport c.candidate_type in
    let u' = direction_preference-lt c'.transport c'.candidate_type in
    let same_direction : d ≡ d' = rw (same_transport, same_type) refl in
    let tb = base_preference-bounds c.candidate_type c.turn n has in
    let tb' = base_preference-bounds c'.candidate_type c'.turn n has' in
    let hb = halved-bounds c r b in
    let hb' = halved-bounds c' r b' in
    let eqs =
      priority_full-injective (halved c r b)
        (d * 2 ^ 13 + p * 2 ^ 6 + ip_local_preference ips c.address) c.component_id (halved c' r b')
        (d' * 2 ^ 13 + p' * 2 ^ 6 + ip_local_preference ips c'.address) c'.component_id
        (omega (arith, tb, hb)) (omega (arith, tb', hb')) (omega (arith, u)) (omega (arith, u')) k
        k'
        (some-inj (sym (parts ips c r n has e q.0 i) ∙ same ∙ parts ips c' r n has' e' q.1 i')) in
    (omega (arith, eqs, same_direction), omega (arith, eqs, same_direction), eqs.2)

-- The place of a type in the order of preference.
unfoldable pub rank : CandidateType → ℕ
rank host = 3
rank peer_reflexive = 2
rank server_reflexive = 1
rank relayed = 0

relay-le : (t : RelayType) → relay_preference t ≤ 30
unfolding relay_preference
relay-le turn_udp = omega arith
relay-le turn_tcp = omega arith
relay-le turn_tls = omega arith

-- The base preferences of two types are at least two apart.
base_preference-apart :
    (t t' : CandidateType) (turn turn' : Option TurnServer) (n n' : Bool) {b b' : ℕ}
    → rank t' < rank t
    → base_preference t turn n ≡ some b
    → base_preference t' turn' n' ≡ some b'
    → b' + 2 ≤ b
unfolding base_preference rank
base_preference-apart host host turn turn' n n' h e e' = absurd (omega arith)
base_preference-apart host peer_reflexive turn turn' n n' h e e' = ground arith
base_preference-apart host server_reflexive turn turn' n n' h e e' = ground arith
base_preference-apart host relayed turn none n n' h e e' = cc
base_preference-apart host relayed turn (some s) n n' h e e' = ground (arith, relay-le s.relay_type)
base_preference-apart peer_reflexive host turn turn' n n' h e e' = absurd (omega arith)
base_preference-apart peer_reflexive peer_reflexive turn turn' n n' h e e' = absurd (omega arith)
base_preference-apart peer_reflexive server_reflexive turn turn' n n' h e e' = ground arith
base_preference-apart peer_reflexive relayed turn none n n' h e e' = cc
base_preference-apart peer_reflexive relayed turn (some s) n n' h e e' =
    ground (arith, relay-le s.relay_type)
base_preference-apart server_reflexive host turn turn' n n' h e e' = absurd (omega arith)
base_preference-apart server_reflexive peer_reflexive turn turn' n n' h e e' = absurd (omega arith)
base_preference-apart server_reflexive server_reflexive turn turn' n n' h e e' =
    absurd (omega arith)
base_preference-apart server_reflexive relayed turn none n n' h e e' = cc
base_preference-apart server_reflexive relayed turn (some s) n n' h e e' =
    ground (arith, relay-le s.relay_type)
base_preference-apart relayed host turn turn' n n' h e e' = absurd (omega arith)
base_preference-apart relayed peer_reflexive turn turn' n n' h e e' = absurd (omega arith)
base_preference-apart relayed server_reflexive turn turn' n n' h e e' = absurd (omega arith)
base_preference-apart relayed relayed turn turn' n n' h e e' = absurd (omega arith)

halved-lt :
    (c c' : Candidate) (r : Bool) (b b' : ℕ)
    → c.transport ≡ c'.transport
    → b' + 2 ≤ b
    → halved c' r b' < halved c r b
halved-lt c c' r b b' e h = rw e (ground arith)

priority_full-lt :
    (t l i t' l' i' : ℕ)
    → t' < t
    → t < 128
    → l < 2 ^ 16
    → l' < 2 ^ 16
    → (1 ≤ i) × (i ≤ 256)
    → (1 ≤ i') × (i' ≤ 256)
    → priority_full t' l' i' < priority_full t l i
unfolding priority_full
priority_full-lt t l i t' l' i' p p' q q' r r' = omega arith

-- Of two candidates of the same transport with turn preferences below 8, addresses among the
-- first 64 of the host and component ids from 1 to 256, a host candidate has a higher ICE
-- priority than a peer-reflexive one, that than a server-reflexive one, and that than a
-- relayed one, whatever their addresses and components, and whether or not each is NAT-assisted.
pub ice_priority-by_type :
    (ips : List (List ℕ)) (c c' : Candidate) (r n n' : Bool) (p p' v v' : ℕ)
    → turn_preference c.candidate_type c.turn ≡ some p
    → turn_preference c'.candidate_type c'.turn ≡ some p'
    → (p < 8) × (p' < 8)
    → ip_local_preference ips c.address < 64
    → ip_local_preference ips c'.address < 64
    → (1 ≤ c.component_id) × (c.component_id ≤ 256)
    → (1 ≤ c'.component_id) × (c'.component_id ≤ 256)
    → rank c'.candidate_type < rank c.candidate_type
    → c.transport ≡ c'.transport
    → ice_priority ips c r n ≡ some v
    → ice_priority ips c' r n' ≡ some v'
    → v' < v
ice_priority-by_type ips c c' r n n' p p' v v' e e' q i i' k k' lower same_transport is_v is_v' =
    let (b, has) = base_preference-exists c.candidate_type c.turn n e in
    let (b', has') = base_preference-exists c'.candidate_type c'.turn n' e' in
    let d = direction_preference c.transport c.candidate_type in
    let d' = direction_preference c'.transport c'.candidate_type in
    let u = direction_preference-lt c.transport c.candidate_type in
    let u' = direction_preference-lt c'.transport c'.candidate_type in
    let tb = base_preference-bounds c.candidate_type c.turn n has in
    let hb = halved-bounds c r b in
    let apart =
      base_preference-apart c.candidate_type c'.candidate_type c.turn c'.turn n n' lower has has' in
    let less =
      priority_full-lt (halved c r b) (d * 2 ^ 13 + p * 2 ^ 6 + ip_local_preference ips c.address)
        c.component_id (halved c' r b')
        (d' * 2 ^ 13 + p' * 2 ^ 6 + ip_local_preference ips c'.address) c'.component_id
        (halved-lt c c' r b b' same_transport apart) (omega (arith, tb, hb)) (omega (arith, u))
        (omega (arith, u')) k k' in
    let x = some-inj (sym is_v ∙ parts ips c r n has e q.0 i) in
    let x' = some-inj (sym is_v' ∙ parts ips c' r n' has' e' q.1 i') in rw (x, x') less
