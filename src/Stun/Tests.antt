-- ===== src/Stun/Tests.antt =====
-- The theorems about messages at concrete inputs, and runs of the code.
use libnice.Base.{
  ℕ, zero, suc, get_or, ◌+◌, ◌*◌, ◌%◌, ◌^◌, ◌≤◌, ◌<◌, ◌≡◌, refl, arith, true, false, none, some,
  List, [], ◌∷◌, ◌++◌, length, replicate, ltb, if◌then◌else◌, read, ok, out_of_bounds,
}
use libnice.Stun.Types.{StunAgent, StunMessage, rfc5389}
use libnice.Stun.Wire.{getw, padding, align, class_of, method_of}
use libnice.Stun.Wire.Padding.{align-eq-add-padding}
use libnice.Stun.Wire.Kind.{type_word, type_word-round_trip}
use libnice.Stun.Message.{message_length, wire_type}
use libnice.Stun.Length.{
  Verdict, valid, validate, validate_fast, validate_all, vector_read, vector_getw, length_field,
  check_length, walk,
}
use libnice.Stun.Length.Sound.{IsMessage, validate-total, validate_iff}
use libnice.Stun.Length.Vector.{vector, vectors, validate_fast-join}
use libnice.Stun.Attribute.{find, find_loop, append}
use libnice.Stun.Attribute.Find.{visible, entries, find-visible}
use libnice.Stun.Attribute.Append.{append_overruns, typed, sized, padded, appended, pad_of, spaces}
use libnice.Stun.Attribute.Extend.{append-entries, new_entry}
use libnice.Base.{slice}
use libnice.Stun.Length.Chain.{done}
use libnice.Stun.Types.{success}
use libnice.Stun.Attribute.{is_aligned}
use libnice.Stun.Attribute.Extend.{grown_length}
use libnice.Stun.Value.{append_bytes, append64, find64}
use libnice.Stun.Value.Append.{filled, append_bytes-entries}
use libnice.Stun.Value.RoundTrip.{find64-append64}
use libnice.Stun.Crc.{stun_crc32}
use libnice.Stun.Crc.Polynomial.{divide, stun_crc32-divide}
use libnice.Base.{bit_xor}
use libnice.Stun.Timer.{Time, StunTimer, set_delay}
use libnice.Stun.Timer.Deadline.{micros, set_delay-micros}

abbrev agent : StunAgent
agent = record {
  compatibility = rfc5389;
  sent_ids = [];
  known_attributes = [];
  usage_flags = 0;
  software_attribute = none;
  ms_ice2_send_legacy_connchecks = false;
}

abbrev id : List ℕ
id = 0x21 ∷ 0x12 ∷ 0xa4 ∷ 0x42 ∷ 1 ∷ 2 ∷ 3 ∷ 4 ∷ 5 ∷ 6 ∷ 7 ∷ 8 ∷ 9 ∷ 10 ∷ 11 ∷ 12 ∷ []

-- A binding request with a SOFTWARE attribute of four bytes.
abbrev bytes : List ℕ
bytes =
    0x00 ∷ 0x01 ∷ 0x00 ∷ 0x08 ∷ (id ++ (0x80 ∷ 0x22 ∷ 0x00 ∷ 0x04 ∷ 0x74 ∷ 0x65 ∷ 0x73 ∷ 0x74 ∷ []))

-- Twelve bytes of room stand behind it.
abbrev buffer : List ℕ
buffer = bytes ++ replicate 12 0

abbrev AllBytes : List ℕ → Type 0
AllBytes [] = Unit
AllBytes (x ∷ xs) = (x < 256) × AllBytes xs

small : (xs : List ℕ) → AllBytes xs → (i : ℕ) → get_or xs i 0 < 256
small [] h i = omega arith
small (x ∷ xs) h zero = h.0
small (x ∷ xs) h (suc i) = small xs h.1 i

abbrev message_over : List ℕ → StunMessage
message_over buf = record {
  agent = some agent;
  buffer = buf;
  buffer_len = length buf;
  key = none;
  long_term_key = [];
  long_term_valid = false;
}

abbrev message : StunMessage
message = message_over buffer

accepted : validate buffer 40 true ≡ ok (valid 28)
unfolding validate validate_fast validate_all vector_read vector_getw length_field check_length walk
    getw read padding align
accepted = refl

rejected : validate (0x40 ∷ buffer) 41 true ≡ ok Verdict.invalid
unfolding validate validate_fast validate_all vector_read read
rejected = refl

buffer-IsMessage : IsMessage buffer 40 true 28
buffer-IsMessage = (validate_iff buffer 40 true 28 refl).0 accepted

align-eq-add-padding_example :
    (align 5 ≡ 5 + padding 5) × (align 5 % 4 ≡ 0) × (padding 5 ≤ 3) × (align 5 ≤ 4 * 2)
align-eq-add-padding_example = align-eq-add-padding 5 2 (omega arith) (omega arith)

type_word-round_trip_example : (class_of (type_word 2 1) ≡ 2) × (method_of (type_word 2 1) ≡ 1)
type_word-round_trip_example = type_word-round_trip 2 1 (omega arith) (omega arith)

validate-total_example : (v : Verdict) × (validate (1 ∷ 2 ∷ 3 ∷ []) 3 true ≡ ok v)
validate-total_example = validate-total (1 ∷ 2 ∷ 3 ∷ []) 3 true refl

validate_iff_example :
    (validate buffer 40 true ≡ ok (valid 28) → IsMessage buffer 40 true 28)
    × (IsMessage buffer 40 true 28 → validate buffer 40 true ≡ ok (valid 28))
validate_iff_example = validate_iff buffer 40 true 28 refl

validate_fast-join_example :
    validate_fast (vectors ((0 ∷ 1 ∷ []) ∷ (0 ∷ []) ∷ (0 ∷ id) ∷ [])) (some 3) 20 true
    ≡ validate_fast (vector (0 ∷ 1 ∷ 0 ∷ 0 ∷ id) ∷ []) (some 1) 20 true
validate_fast-join_example =
    validate_fast-join ((0 ∷ 1 ∷ []) ∷ (0 ∷ []) ∷ (0 ∷ id) ∷ []) true (omega arith)
      (small (0 ∷ 1 ∷ 0 ∷ 0 ∷ id) (omega arith)) (omega arith)

find-visible_example :
    find message 0x8022
    ≡ ok (
        if ltb 28 (2 ^ 16)
        then visible (entries buffer-IsMessage.chain) (wire_type message 0x8022)
        else none)
find-visible_example = find-visible message 0x8022 28 buffer-IsMessage

finds_software : find message 0x8022 ≡ ok (some (24, 4))
unfolding find find_loop message_length wire_type getw read align
finds_software = refl

-- One byte of value and three of padding fit the twelve bytes of room.
append-entries_example :
    (w : IsMessage (appended message 28 0x8023 1) 40 true 36) × (append message 0x8023 1
      ≡ ok (record message { buffer = appended message 28 0x8023 1 }, some 32))
    × (entries w.chain ≡ entries buffer-IsMessage.chain ++ (new_entry message 28 0x8023 1 ∷ []))
unfolding pad_of padding appended padded spaces sized typed
append-entries_example =
    append-entries message 28 0x8023 1 buffer-IsMessage (omega arith) (omega arith) (omega arith)

append_bytes-entries_example :
    (w : IsMessage
      (filled message 28 0x8023 (7 ∷ []))
      (length (filled message 28 0x8023 (7 ∷ [])))
      (is_aligned message)
      (grown_length message 28 0x8023 1))
    × (append_bytes message 0x8023 (7 ∷ [])
        ≡ ok (record message { buffer = filled message 28 0x8023 (7 ∷ []) }, success))
    × (entries w.chain ≡ entries buffer-IsMessage.chain ++ (new_entry message 28 0x8023 1 ∷ []))
    × (slice (filled message 28 0x8023 (7 ∷ [])) (28 + 4) 1 ≡ 7 ∷ [])
unfolding pad_of padding
append_bytes-entries_example =
    append_bytes-entries message 28 0x8023 (7 ∷ []) buffer-IsMessage (omega arith) (omega arith)
      (omega arith)

-- A binding request without attributes, with twelve bytes of room.
abbrev bare : StunMessage
bare = message_over (0x00 ∷ 0x01 ∷ 0x00 ∷ 0x00 ∷ (id ++ replicate 12 0))

abbrev bare_chain : IsMessage bare.buffer 32 true 20
bare_chain = record {
  header = omega arith;
  top_bits = refl;
  declared = refl;
  multiple = λ e. refl;
  fits = omega arith;
  chain = done refl;
}

bare-wire_type : (wire_type bare 0x24 < 2 ^ 16) × (wire_type bare 0x8029 < 2 ^ 16)
unfolding wire_type
bare-wire_type = (omega arith, omega arith)

find64-append64_example :
    (out : StunMessage) × (append64 bare 0x8029 0x0102030405060708 ≡ ok (out, success))
    × (find64 out 0x8029 ≡ ok (success, some 0x0102030405060708))
find64-append64_example =
    find64-append64 bare 20 0x8029 0x0102030405060708 bare_chain (omega arith) bare-wire_type.1 refl
      (omega arith) (omega arith) (omega arith)

-- In a buffer of 33 bytes the same value fits and its padding does not.
abbrev short : StunMessage
short = message_over (bytes ++ replicate 5 0)

short_length : message_length short ≡ ok 28
unfolding message_length getw read
short_length = refl

append_overruns_example : append short 0x8023 1 ≡ out_of_bounds
unfolding padding
append_overruns_example =
    append_overruns short 28 0x8023 1 short_length (omega arith) refl refl (omega arith)
      (omega arith) (omega arith)

abbrev now : Time
now = record { sec = 100; usec = 900000 }

set_delay-micros_example :
    (micros (set_delay now 1600) ≡ micros now + 1600 * 1000) × ((set_delay now 1600).usec ≤ 1000000)
set_delay-micros_example = set_delay-micros now 1600

abbrev timer : StunTimer
timer = record {
  deadline = record { sec = 102; usec = 500500 };
  delay = 1600;
  retransmissions = 1;
  max_retransmissions = 7;
}

stun_crc32-divide_example :
    stun_crc32 ((0x31 ∷ 0x32 ∷ []) ∷ (0x33 ∷ []) ∷ []) false
    ≡ bit_xor (divide 0xffffffff (0x31 ∷ 0x32 ∷ 0x33 ∷ [])) 0xffffffff
stun_crc32-divide_example =
    stun_crc32-divide ((0x31 ∷ 0x32 ∷ []) ∷ (0x33 ∷ []) ∷ [])
      ((omega arith, (omega arith, tt)), ((omega arith, tt), tt))
