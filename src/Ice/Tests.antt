-- ===== src/Ice/Tests.antt =====
-- The theorems about candidates at concrete ones.
use libnice.Base.{
  ℕ, ◌+◌, ◌*◌, ◌^◌, ◌≤◌, ◌<◌, ◌≡◌, refl, arith, false, none, some, List, [], ◌∷◌, ◌⊎◌, ◌↔◌, min,
  max,
}
use libnice.Ice.Candidate.{
  Candidate, host, relayed, udp, turn_udp, pair_priority, ice_priority, ip_local_preference,
  turn_preference, unscoped, type_preference, base_preference, is_udp, local_preference,
  direction_preference, local_preference_full, priority_full, relay_preference,
}
use libnice.Ice.Candidate.Pair.{pair_priority-lt_iff, pair_priority-wraps}
use libnice.Ice.Candidate.Order.{ice_priority-injective, ice_priority-by_type, rank}
use libnice.Ice.Address.{NiceAddress, set_ipv4, set_port}

abbrev web : NiceAddress
web = set_port (set_ipv4 0xac140a02) 80

abbrev dns : NiceAddress
dns = set_port (set_ipv4 0xac140a02) 53

pair_priority-lt_iff_example : (pair_priority 3 5 < pair_priority 5 3) ↔ (
    (min 3 5 < min 5 3)
    ⊎ ((min 3 5 ≡ min 5 3) × (max 3 5 < max 5 3))
    ⊎ ((min 3 5 ≡ min 5 3) × (max 3 5 ≡ max 5 3) × (3 ≤ 5) × (3 < 5)))
pair_priority-lt_iff_example =
    pair_priority-lt_iff 3 5 5 3 (omega arith, omega arith) (omega arith, omega arith)

pair_priority-wraps_example : pair_priority (2 ^ 31) 1 + 2 ^ 32 ≡ 2 ^ 32 * 1 + 2 * 2 ^ 31 + 1
pair_priority-wraps_example =
    pair_priority-wraps (2 ^ 31) 1 (omega arith) (omega arith) (omega arith)

-- "10.0.0.1", "fe80::1%eth0"
abbrev ips : List (List ℕ)
ips =
    (0x31 ∷ 0x30 ∷ 0x2e ∷ 0x30 ∷ 0x2e ∷ 0x30 ∷ 0x2e ∷ 0x31 ∷ [])
    ∷ (0x66 ∷ 0x65 ∷ 0x38 ∷ 0x30 ∷ 0x3a ∷ 0x3a ∷ 0x31 ∷ 0x25 ∷ 0x65 ∷ 0x74 ∷ 0x68 ∷ 0x30 ∷ [])
    ∷ []

abbrev link_local : Candidate
link_local = record {
  candidate_type = host;
  transport = udp;
  component_id = 1;
  turn = none;
  address = 0x66 ∷ 0x65 ∷ 0x38 ∷ 0x30 ∷ 0x3a ∷ 0x3a ∷ 0x31 ∷ [];
}

abbrev relay : Candidate
relay = record {
  candidate_type = relayed;
  transport = udp;
  component_id = 2;
  turn = some (record { preference = 3; relay_type = turn_udp });
  address = 0x31 ∷ 0x30 ∷ 0x2e ∷ 0x30 ∷ 0x2e ∷ 0x30 ∷ 0x2e ∷ 0x31 ∷ [];
}

second_place : ip_local_preference ips link_local.address ≡ 1
unfolding ip_local_preference unscoped
second_place = refl

first_place : ip_local_preference ips relay.address ≡ 0
unfolding ip_local_preference unscoped
first_place = refl

host_turn : turn_preference host none ≡ some 0
unfolding turn_preference
host_turn = refl

relay_turn : turn_preference relayed relay.turn ≡ some 3
unfolding turn_preference
relay_turn = refl

ice_priority-injective_example :
    (ip_local_preference ips relay.address ≡ ip_local_preference ips relay.address)
    × (◌≡◌ {A = ℕ} 3 3)
    × (◌≡◌ {A = ℕ} 2 2)
ice_priority-injective_example =
    ice_priority-injective ips relay relay false false 3 3 relay_turn relay_turn
      (omega arith, omega arith) (omega (arith, first_place)) (omega (arith, first_place))
      (omega arith, omega arith) (omega arith, omega arith) refl refl refl

host_priority : ice_priority ips link_local false false ≡ some 2015363583
unfolding ice_priority type_preference base_preference is_udp local_preference turn_preference
    direction_preference local_preference_full ip_local_preference unscoped priority_full
host_priority = refl

relay_priority : ice_priority ips relay false false ≡ some 505463038
unfolding ice_priority type_preference base_preference is_udp local_preference turn_preference
    direction_preference local_preference_full ip_local_preference unscoped priority_full
    relay_preference
relay_priority = refl

ranked : rank relayed < rank host
unfolding rank
ranked = omega arith

ice_priority-by_type_example : 505463038 < 2015363583
ice_priority-by_type_example =
    ice_priority-by_type ips link_local relay false false false 0 3 2015363583 505463038 host_turn
      relay_turn (omega arith, omega arith) (omega (arith, second_place))
      (omega (arith, first_place)) (omega arith, omega arith) (omega arith, omega arith) ranked refl
      host_priority relay_priority
