-- ===== src/Stun/Agent.antt =====
-- stun/stunagent.c: the STUN agent, which remembers the transactions that it started.
pub mod Build
pub mod Finish
pub mod Validate
pub mod Saved
pub mod Once
pub mod Signed
pub mod Remember
pub mod Tests
use libnice.Base.{
  ℕ, zero, suc, ◌+◌, ◌-◌, Bool, true, false, not, ◌&&◌, ltb, ◌==◌, if◌then◌else◌, Option, none,
  some, List, [], ◌∷◌, ◌++◌, bit_and, bytes_eq, map, replicate, Access, ok, no_fuel, ◌>>=◌,
}
use libnice.Stun.Types.{
  StunAgent, StunMessage, SavedId, Compatibility, rfc3489, rfc5389, msice2, oc2007,
}
use libnice.Stun.Wire.{getw, align, optional, word_bytes}
use libnice.Stun.Message.{message_length}

-- STUN_AGENT_MAX_SAVED_IDS
abbrev pub max_saved_ids : ℕ
max_saved_ids = 200

-- `StunAgentUsageFlags`
abbrev pub short_term_credentials : ℕ
short_term_credentials = 0x01

abbrev pub long_term_credentials : ℕ
long_term_credentials = 0x02

abbrev pub use_fingerprint : ℕ
use_fingerprint = 0x04

abbrev pub add_software : ℕ
add_software = 0x08

abbrev pub ignore_flag : ℕ
ignore_flag = 0x10

abbrev pub no_indication_auth : ℕ
no_indication_auth = 0x20

abbrev pub force_validater : ℕ
force_validater = 0x40

abbrev pub no_aligned_attributes : ℕ
no_aligned_attributes = 0x80

-- `agent->usage_flags & flag`
unfoldable pub has_flag : StunAgent → ℕ → Bool
has_flag agent flag = not (bit_and agent.usage_flags flag == 0)

abbrev pub is_msice2 : Compatibility → Bool
is_msice2 msice2 = true
is_msice2 _ = false

-- `compatibility` is RFC5389 or MSICE2.
abbrev pub is_modern : Compatibility → Bool
is_modern rfc5389 = true
is_modern msice2 = true
is_modern _ = false

-- `compatibility` is RFC3489 or OC2007.
abbrev pub is_old : Compatibility → Bool
is_old c = not (is_modern c)

unfoldable pub invalidate : List SavedId → List SavedId
invalidate [] = []
invalidate (s ∷ rest) = record s { valid = false } ∷ invalidate rest

-- `stun_agent_init`, on the saved ids that the memory holds: only their `valid` is set.
unfoldable pub init : List SavedId → List ℕ → Compatibility → ℕ → StunAgent
init memory known_attributes compatibility usage_flags = record {
  compatibility = compatibility;
  sent_ids = invalidate memory;
  known_attributes = known_attributes;
  usage_flags = usage_flags;
  software_attribute = none;
  ms_ice2_send_legacy_connchecks = is_msice2 compatibility;
}

-- `stun_agent_set_software`
unfoldable pub set_software : StunAgent → Option (List ℕ) → StunAgent
set_software agent software = record agent { software_attribute = software }

-- `stun_agent_default_validater`, on the table of user names and passwords
unfoldable pub default_validater : List (List ℕ × List ℕ) → List ℕ → Option (List ℕ)
default_validater [] username = none
default_validater ((name, password) ∷ rest) username =
    let later = default_validater rest username in
    if bytes_eq username name then some password else later

-- The loop of `stun_agent_forget_transaction`
unfoldable pub forget_ids : List SavedId → List ℕ → List SavedId × Bool
forget_ids [] id = ([], false)
forget_ids (s ∷ rest) id =
    let later = forget_ids rest id in
    if s.valid && bytes_eq id s.id
    then (record s { valid = false } ∷ rest, true)
    else (s ∷ later.0, later.1)

-- `stun_agent_forget_transaction`
unfoldable pub forget_transaction : StunAgent → List ℕ → StunAgent × Bool
forget_transaction agent id =
    let r = forget_ids agent.sent_ids id in (record agent { sent_ids = r.0 }, r.1)

-- `stun_agent_is_unknown`, on the attributes before the final zero
unfoldable pub is_unknown : List ℕ → ℕ → Bool
is_unknown [] type = true
is_unknown (known ∷ rest) type =
    let later = is_unknown rest type in if known == type then false else later

-- The loop of `stun_agent_find_unknowns`: the types that it lists, at most `max`
unfoldable pub find_unknowns_loop : ℕ → StunAgent → List ℕ → ℕ → ℕ → ℕ → Access (List ℕ)
find_unknowns_loop zero agent buf len max offset =
    if ltb offset len && ltb 0 max then no_fuel else ok []
find_unknowns_loop (suc fuel) agent buf len max offset = elim (ltb offset len && ltb 0 max) [
  | false ↦ ok []
  | true ↦ do
    alen ← getw buf (offset + 2)
    atype ← getw buf offset
    let next = offset + 4 + (if has_flag agent no_aligned_attributes then alen else align alen)
    elim (not (optional atype) && is_unknown agent.known_attributes atype) [
      | true ↦ do rest ← find_unknowns_loop fuel agent buf len (max - 1) next; ok (atype ∷ rest)
      | false ↦ find_unknowns_loop fuel agent buf len max next
    ]
]

-- `stun_agent_find_unknowns`. Each round adds four to the offset at least.
unfoldable pub find_unknowns : StunAgent → StunMessage → ℕ → Access (List ℕ)
find_unknowns agent msg max = do
  len ← message_length msg
  find_unknowns_loop len agent msg.buffer len max 20
