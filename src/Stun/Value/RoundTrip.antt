-- ===== src/Stun/Value/RoundTrip.antt =====
-- What the `stun_message_append*` functions store the `stun_message_find*` functions read.
use libnice.Base.{
  ℕ, ◌+◌, ◌*◌, ◌/◌, ◌%◌, ◌^◌, ◌≤◌, ◌<◌, ◌≡◌, refl, ap, ◌∙◌, arith, Bool, true, not, ◌&&◌, some,
  List, [], ◌∷◌, ◌++◌, length, ok, ltb, ◌==◌, Bool-cases, inl, inr, slice, take, drop,
  read_bytes-eq-ok, bit_or,
}
use libnice.Base.Bits.{bit_or_sum}
use libnice.Stun.Types.{StunMessage, success}
use libnice.Stun.Wire.Padding.{align-eq, padding-eq}
use libnice.Stun.Message.{wire_type, unaligned_agent}
use libnice.Stun.Length.Sound.{IsMessage}
use libnice.Stun.Attribute.{find, is_aligned, gives_up}
use libnice.Stun.Attribute.Find.{Entry, entries, visible, find-visible}
use libnice.Stun.Attribute.Append.{pad_of, typed, length_word, cookie_in}
use libnice.Stun.Attribute.Extend.{grown_length, new_entry, value_size}
use libnice.Stun.Value.{ntohl, htonl, append32, append64, find32, find64, value32, value64}
use libnice.Stun.Value.Append.{filled, length-filled, append_bytes-entries}

-- None of the attributes has the type or hides what comes behind it from a search for the type.
abbrev pub leaves_open : List Entry → ℕ → Bool
leaves_open [] type = true
leaves_open (a ∷ es) type =
    (not (a.kind == type) && not (gives_up a.kind type)) && leaves_open es type

visible-append :
    (es : List Entry) (a : Entry) (type : ℕ)
    → leaves_open es type ≡ true
    → a.kind ≡ type
    → visible (es ++ (a ∷ [])) type ≡ some (a.start, a.size)
unfolding visible
visible-append [] a type h e = ground arith
visible-append (b ∷ es) a type h e = ground (arith, visible-append es a type)

pub ntohl-htonl : (v : ℕ) → v < 2 ^ 32 → ntohl (htonl v) ≡ v
ntohl-htonl v h = omega arith

-- The value that `stun_message_find64` makes of eight bytes.
abbrev join64 : List ℕ → ℕ
join64 bs = bit_or (ntohl (take 4 bs) * 2 ^ 32) (ntohl (drop 4 bs))

join64-htonl : (v : ℕ) → v < 2 ^ 64 → join64 (htonl (v / 2 ^ 32 % 2 ^ 32) ++ htonl (v % 2 ^ 32)) ≡ v
join64-htonl v h =
    rw
      (
        ntohl-htonl (v / 2 ^ 32 % 2 ^ 32) (omega arith),
        ntohl-htonl (v % 2 ^ 32) (omega arith),
        bit_or_sum 32 (v / 2 ^ 32 % 2 ^ 32) (v % 2 ^ 32) (omega arith),
      )
      (omega arith)

slice_second : (buf : List ℕ) (i : ℕ) → slice buf (i + 4) 4 ≡ drop 4 (slice buf i 8)
slice_second buf i = let e : i + 1 + 1 + 1 + 1 ≡ i + 4 = omega arith in rw e

-- The message with the attribute appended.
abbrev pub after : StunMessage → ℕ → ℕ → List ℕ → StunMessage
after msg mlen type bytes = record msg { buffer = filled msg mlen type bytes }

module _ (msg : StunMessage) (mlen type : ℕ) (bytes : List ℕ)
    (v : IsMessage msg.buffer (length msg.buffer) (is_aligned msg) mlen)
    (fits : mlen + 4 + length bytes + pad_of msg (length bytes) ≤ length msg.buffer)
    (small : mlen + 4 + length bytes + pad_of msg (length bytes) < 2 ^ 16)
    (room : mlen + 4 + length bytes ≤ msg.buffer_len) (known : wire_type msg type < 2 ^ 16)
    (unhidden : leaves_open (entries v.chain) (wire_type msg type) ≡ true) where
  -- The search finds the appended value.
  found :
      find (after msg mlen type bytes) type
      ≡ ok (some (mlen + 4, value_size msg mlen type (length bytes)))
  found =
      let (w, _, grown, _) = append_bytes-entries msg mlen type bytes v fits small room in
      find-visible (after msg mlen type bytes) type (grown_length msg mlen type (length bytes)) w
      ∙ rw (short, same_type, grown)
          (ap ok (
            visible-append (entries v.chain) (new_entry msg mlen type (length bytes))
              (wire_type msg type) unhidden (omega arith)))
    where
      short : ltb (grown_length msg mlen type (length bytes)) (2 ^ 16) ≡ true
      short = ground arith

      same_type : wire_type (after msg mlen type bytes) type ≡ wire_type msg type
      same_type = unfold wire_type in refl

-- A value of `n` bytes, a multiple of four, is stored without padding.
pad_of_multiple : (msg : StunMessage) (n : ℕ) → n % 4 ≡ 0 → pad_of msg n ≡ 0
unfolding pad_of
pad_of_multiple msg n h = elim (Bool-cases (unaligned_agent msg.agent)) [
  | inl u ↦ rw u
  | inr a ↦ rw a (omega (arith, padding-eq n))
]

value_size_multiple :
    (msg : StunMessage) (mlen type n : ℕ) → n % 4 ≡ 0 → n < 2 ^ 16 → value_size msg mlen type n ≡ n
unfolding length_word
value_size_multiple msg mlen type n h q = elim (Bool-cases (unaligned_agent msg.agent)) [
  | inl u ↦ rw u (omega arith)
  | inr a ↦ rw a (elim (Bool-cases (cookie_in (typed msg mlen type))) [
    | inl c ↦ rw c (omega arith)
    | inr c ↦ rw c (omega (arith, align-eq n))
  ])
]

module _ (msg : StunMessage) (mlen type value : ℕ)
    (v : IsMessage msg.buffer (length msg.buffer) (is_aligned msg) mlen)
    (backed : msg.buffer_len ≤ length msg.buffer) (known : wire_type msg type < 2 ^ 16)
    (unhidden : leaves_open (entries v.chain) (wire_type msg type) ≡ true) where
  -- In a message that the validation accepts, in which no attribute has the type or hides it,
  -- with room for eight bytes and a new length below 2 ^ 16, `stun_message_append32` succeeds,
  -- and `stun_message_find32` then reads the value, a `uint32_t`, back.
  pub find32-append32 :
      value < 2 ^ 32
      → mlen + 8 ≤ msg.buffer_len
      → mlen + 8 < 2 ^ 16
      → (out : StunMessage) × (append32 msg type value ≡ ok (out, success))
        × (find32 out type ≡ ok (success, some value))
  unfolding append32 find32 value32
  find32-append32 word room small =
      let (_, done, _, in_place) =
        append_bytes-entries msg mlen type (htonl value) v fits below (omega arith) in
      (
        after msg mlen type (htonl value),
        done,
        rw
            (
              found msg mlen type (htonl value) v fits below (omega arith) known unhidden,
              value_size_multiple msg mlen type 4 refl (omega arith),
              read_bytes-eq-ok (filled msg mlen type (htonl value)) (mlen + 4) 4
                  (omega (arith, size)),
            )
            (ap (λ bs. ok (success, some (ntohl bs))) in_place
              ∙ ap (λ t. ok (success, some t)) (ntohl-htonl value word)),
      )
    where
      no_pad : pad_of msg 4 ≡ 0
      no_pad = pad_of_multiple msg 4 refl

      fits : mlen + 4 + 4 + pad_of msg 4 ≤ length msg.buffer
      fits = omega (arith, no_pad)

      size : length (filled msg mlen type (htonl value)) ≡ length msg.buffer
      size = length-filled msg mlen type (htonl value) (omega (arith, v.declared)) fits

      below : mlen + 4 + 4 + pad_of msg 4 < 2 ^ 16
      below = omega (arith, no_pad)

  -- In a message that the validation accepts, in which no attribute has the type or hides it,
  -- with room for twelve bytes and a new length below 2 ^ 16, `stun_message_append64` succeeds,
  -- and `stun_message_find64` then reads the value, a `uint64_t`, back.
  pub find64-append64 :
      value < 2 ^ 64
      → mlen + 12 ≤ msg.buffer_len
      → mlen + 12 < 2 ^ 16
      → (out : StunMessage) × (append64 msg type value ≡ ok (out, success))
        × (find64 out type ≡ ok (success, some value))
  unfolding append64 find64 value64
  find64-append64 word room small =
      let (_, done, _, in_place) =
        append_bytes-entries msg mlen type bytes v fits below (omega arith) in
      (
        after msg mlen type bytes,
        done,
        rw
            (
              found msg mlen type bytes v fits below (omega arith) known unhidden,
              value_size_multiple msg mlen type 8 refl (omega arith),
              read_bytes-eq-ok (filled msg mlen type bytes) (mlen + 4) 4 (omega (arith, size)),
              read_bytes-eq-ok (filled msg mlen type bytes) (mlen + 4 + 4) 4 (omega (arith, size)),
            )
            (ap
                (λ bs. ok (
                  success,
                  some (
                      bit_or (ntohl (slice (filled msg mlen type bytes) (mlen + 4) 4) * 2 ^ 32)
                        (ntohl bs)),
                ))
                (slice_second (filled msg mlen type bytes) (mlen + 4))
              ∙ ap (λ bs. ok (success, some (join64 bs))) in_place
              ∙ ap (λ t. ok (success, some t)) (join64-htonl value word)),
      )
    where
      bytes : List ℕ
      bytes = htonl (value / 2 ^ 32 % 2 ^ 32) ++ htonl (value % 2 ^ 32)

      no_pad : pad_of msg 8 ≡ 0
      no_pad = pad_of_multiple msg 8 refl

      fits : mlen + 4 + 8 + pad_of msg 8 ≤ length msg.buffer
      fits = omega (arith, no_pad)

      below : mlen + 4 + 8 + pad_of msg 8 < 2 ^ 16
      below = omega (arith, no_pad)

      size : length (filled msg mlen type bytes) ≡ length msg.buffer
      size = length-filled msg mlen type bytes (omega (arith, v.declared)) fits
