-- ===== src/Stun/Attribute/Extend.antt =====
-- `stun_message_append` on the parsed view: the message stays well formed, and its list of
-- attributes grows by one at the end.
use mathlib.Core.Path.{ap₂}
use native.Mathlib.Nat.{add-zero}
use libnice.Base.{
  ℕ, ◌+◌, ◌-◌, ◌%◌, ◌^◌, ◌≤◌, ◌<◌, ◌≡◌, sym, ap, ◌∙◌, arith, Bool, true, some, List, [], ◌∷◌, ◌++◌,
  length, get_or, Bool-cases, ok, inl, inr,
}
use libnice.Stun.Types.{StunMessage}
use libnice.Stun.Wire.{getw, align, padding, word_of}
use libnice.Stun.Wire.Padding.{align-eq, padding-eq}
use libnice.Stun.Wire.Word.{getw-eq-ok, word_of_bytes}
use libnice.Stun.Message.{message_length, wire_type, unaligned_agent}
use libnice.Stun.Length.Chain.{Chain, done, attribute, stride}
use libnice.Stun.Length.Sound.{IsMessage, field_of}
use libnice.Stun.Attribute.{append, is_aligned}
use libnice.Stun.Attribute.Find.{Entry, entries, message_length-eq-ok}
use libnice.Stun.Attribute.Append.{typed, appended, pad_of, length_word, cookie_in, append_fits}
use libnice.Stun.Attribute.Bytes.{
  Agree, length-appended, agree, first_byte, type_byte, size_byte, length_byte,
}

abbrev word_at : List ℕ → ℕ → ℕ
word_at buf i = word_of (get_or buf i 0) (get_or buf (i + 1) 0)

pub getw-Agree :
    (buf buf' : List ℕ) (last i : ℕ) {w : ℕ}
    → Agree buf buf' last
    → last ≤ length buf
    → last ≤ length buf'
    → 20 ≤ i
    → i + 2 ≤ last
    → getw buf i ≡ ok w
    → getw buf' i ≡ ok w
getw-Agree buf buf' last i a l l' h q e =
    getw-eq-ok buf' i (omega arith)
    ∙ ap ok (rw (a i h (omega arith), a (i + 1) (omega arith) (omega arith)))
    ∙ sym (getw-eq-ok buf i (omega arith))
    ∙ e

module _ (buf buf' : List ℕ) (p : Bool) {mid last : ℕ} (alen : ℕ) (a : Agree buf buf' mid)
    (l : mid ≤ length buf) (l' : mid ≤ length buf') (reads : getw buf' (mid + 2) ≡ ok alen)
    (ends : mid + 4 + stride p alen ≡ last) where
  -- A chain in the first buffer, carried over to the second, with one attribute behind it.
  extend : {pos : ℕ} → 20 ≤ pos → Chain buf p mid pos → Chain buf' p last pos
  extend {pos = pos} h (done e) = attribute alen (rw e reads) (omega arith) (done (omega arith))
  extend {pos = pos} h (attribute k e q c) =
      attribute k (getw-Agree buf buf' mid (pos + 2) a l l' (omega arith) (omega arith) e)
        (omega arith) (extend (omega arith) c)

  entries-extend :
      {pos : ℕ} (h : 20 ≤ pos) (c : Chain buf p mid pos)
      → entries (extend h c)
        ≡ entries c ++ (record { kind = word_at buf' mid; start = mid + 4; size = alen } ∷ [])
  unfolding extend
  entries-extend h (done e) =
      ap (λ t. record { kind = word_at buf' t; start = t + 4; size = alen } ∷ []) e
  entries-extend {pos = pos} h (attribute k e q c) =
      ap₂ ◌∷◌
        (ap (λ w. record { kind = w; start = pos + 4; size = k })
          (rw (a pos h (omega arith), a (pos + 1) (omega arith) (omega arith))))
        (entries-extend (omega arith) c)

align_plain : (n : ℕ) → n + padding n < 2 ^ 16 → align (n % 2 ^ 16) ≡ n + padding n
align_plain n h =
    let e : n % 2 ^ 16 ≡ n = omega arith in rw e (omega (arith, align-eq n, padding-eq n))

align_twice : (n : ℕ) → n + padding n < 2 ^ 16 → align (align n % 2 ^ 16) ≡ n + padding n
align_twice n h =
    let once : align n ≡ n + padding n = omega (arith, align-eq n, padding-eq n) in
    let e : align n % 2 ^ 16 ≡ n + padding n = omega (arith, once) in
    rw e (omega (arith, align-eq (n + padding n), padding-eq n))

-- The length, the buffer and the size of the new attribute's value after `stun_message_append`,
-- and its entry.
module _ (msg : StunMessage) (mlen type n : ℕ) where
  abbrev pub grown_length : ℕ
  grown_length = mlen + 4 + n + pad_of msg n

  abbrev pub value_size : ℕ
  value_size = length_word msg (typed msg mlen type) n % 2 ^ 16

  abbrev pub new_entry : Entry
  new_entry = record { kind = wire_type msg type % 2 ^ 16; start = mlen + 4; size = value_size }

-- A message of `mlen` bytes that is well formed is so after `stun_message_append`.
module _ (msg : StunMessage) (mlen type n : ℕ)
    (v : IsMessage msg.buffer (length msg.buffer) (is_aligned msg) mlen)
    (room : mlen + 4 + n + pad_of msg n ≤ length msg.buffer)
    (small : mlen + 4 + n + pad_of msg n < 2 ^ 16) where
  header : 20 ≤ mlen
  header = omega (arith, v.declared)

  field_new : field_of (appended msg mlen type n) + 20 ≡ grown_length msg mlen type n
  field_new =
      rw
        (
          length_byte msg mlen type n header room 0 (omega arith),
          length_byte msg mlen type n header room 1 (omega arith),
          word_of_bytes ((grown_length msg mlen type n) + 2 ^ 16 - 20),
        )
        (omega (arith, header))

  reads_type : word_at (appended msg mlen type n) mlen ≡ wire_type msg type % 2 ^ 16
  reads_type = rw (
    rw add-zero at (type_byte msg mlen type n header room 0 (omega arith)),
    type_byte msg mlen type n header room 1 (omega arith),
    word_of_bytes (wire_type msg type),
  )

  reads_length : getw (appended msg mlen type n) (mlen + 2) ≡ ok (value_size msg mlen type n)
  reads_length = rw (
    getw-eq-ok (appended msg mlen type n) (mlen + 2)
        (omega (arith, length-appended msg mlen type n header room)),
    rw add-zero at (size_byte msg mlen type n header room 0 (omega arith)),
    size_byte msg mlen type n header room 1 (omega arith),
    word_of_bytes (length_word msg (typed msg mlen type) n),
  )

  stride_new : stride (is_aligned msg) (value_size msg mlen type n) ≡ n + pad_of msg n
  unfolding length_word pad_of
  stride_new = elim (Bool-cases (unaligned_agent msg.agent)) [
    | inl u ↦ rw u (omega (arith, rw u at small))
    | inr al ↦ rw al (elim (Bool-cases (cookie_in (typed msg mlen type))) [
      | inl c ↦ rw c (align_plain n (omega (arith, rw al at small)))
      | inr c ↦ rw c (align_twice n (omega (arith, rw al at small)))
    ])
  ]

  still_multiple : is_aligned msg ≡ true → (grown_length msg mlen type n) % 4 ≡ 0
  unfolding pad_of
  still_multiple al = elim (Bool-cases (unaligned_agent msg.agent)) [
    | inl u ↦ absurd (cc)
    | inr a ↦ rw a (omega (arith, v.multiple al, padding-eq n))
  ]

  -- In a message of `mlen` bytes that the validation accepts, with room for the attribute and
  -- its padding and a new length below 2 ^ 16, `stun_message_append` returns the index of the
  -- value. The message is again one that the validation accepts, of `grown_length` bytes, and its
  -- attributes are those from before with the new one behind them.
  pub append-entries :
      mlen + 4 + n ≤ msg.buffer_len
      → (w : IsMessage
          (appended msg mlen type n)
          (length (appended msg mlen type n))
          (is_aligned msg)
          (grown_length msg mlen type n))
        × (append msg type n
            ≡ ok (record msg { buffer = (appended msg mlen type n) }, some (mlen + 4)))
        × (entries w.chain ≡ entries v.chain ++ ((new_entry msg mlen type n) ∷ []))
  append-entries fits = (
    record {
      header = omega (arith, size, header);
      top_bits = rw (first_byte msg mlen type n header room) v.top_bits;
      declared = sym field_new;
      multiple = still_multiple;
      fits = omega (arith, size);
      chain =
          extend msg.buffer (appended msg mlen type n) (is_aligned msg) (value_size msg mlen type n)
            same inside inside' reads_length ends (omega arith) v.chain;
    },
    append_fits msg mlen type n (reads_now) header fits room small,
    entries-extend msg.buffer (appended msg mlen type n) (is_aligned msg)
          (value_size msg mlen type n) same inside inside' reads_length ends (omega arith) v.chain
        ∙ ap (λ t. entries v.chain ++ (record (new_entry msg mlen type n) { kind = t } ∷ []))
            reads_type,
  )
    where
      size : length (appended msg mlen type n) ≡ length msg.buffer
      size = length-appended msg mlen type n header room

      same : Agree msg.buffer (appended msg mlen type n) mlen
      same = agree msg mlen type n header room

      inside : mlen ≤ length msg.buffer
      inside = v.fits

      inside' : mlen ≤ length (appended msg mlen type n)
      inside' = omega (arith, size)

      ends :
          mlen + 4 + stride (is_aligned msg) (value_size msg mlen type n)
          ≡ grown_length msg mlen type n
      ends = omega (arith, stride_new)

      reads_now : message_length msg ≡ ok mlen
      reads_now = message_length-eq-ok msg v.header ∙ ap ok (omega (arith, v.declared))
