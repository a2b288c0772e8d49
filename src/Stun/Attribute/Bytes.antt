-- ===== src/Stun/Attribute/Bytes.antt =====
-- The bytes that `stun_message_append` leaves in the buffer.
use libnice.Base.{
  ℕ, ◌+◌, ◌-◌, ◌^◌, ◌≤◌, ◌<◌, ◌≡◌, ◌∙◌, arith, List, length, get_or, length-overlay,
  get_or-overlay_before, get_or-overlay_in, get_or-overlay_after,
}
use libnice.Stun.Types.{StunMessage}
use libnice.Stun.Wire.{word_bytes}
use libnice.Stun.Message.{wire_type}
use libnice.Stun.Attribute.Append.{typed, sized, padded, appended, pad_of, length_word, spaces}

-- The two buffers agree from index 20 up to `last`.
abbrev pub Agree : List ℕ → List ℕ → ℕ → Type 0
Agree buf buf' last = (i : ℕ) → 20 ≤ i → i < last → get_or buf' i 0 ≡ get_or buf i 0

-- The bytes of the message after `stun_message_append`.
module _ (msg : StunMessage) (mlen type n : ℕ) (header : 20 ≤ mlen)
    (room : mlen + 4 + n + pad_of msg n ≤ length msg.buffer) where
  abbrev pub new_word : List ℕ
  new_word = word_bytes (mlen + 4 + n + pad_of msg n + 2 ^ 16 - 20)

  abbrev pub length_value : List ℕ
  length_value = word_bytes (length_word msg (typed msg mlen type) n)

  pub length-appended : length (appended msg mlen type n) ≡ length msg.buffer
  unfolding appended padded sized typed
  length-appended =
      length-overlay (padded msg mlen type n) 2 new_word
      ∙ length-overlay (sized msg mlen type n) (mlen + 4 + n) (spaces (pad_of msg n))
      ∙ length-overlay (typed msg mlen type) (mlen + 2) length_value
      ∙ length-overlay msg.buffer mlen (word_bytes (wire_type msg type))

  length-typed : length (typed msg mlen type) ≡ length msg.buffer
  unfolding typed
  length-typed = length-overlay msg.buffer mlen (word_bytes (wire_type msg type))

  length-padded : length (padded msg mlen type n) ≡ length msg.buffer
  unfolding padded sized
  length-padded =
      length-overlay (sized msg mlen type n) (mlen + 4 + n) (spaces (pad_of msg n))
      ∙ length-overlay (typed msg mlen type) (mlen + 2) length_value
      ∙ length-typed

  -- From index 4 on, the last step, the new length, changes nothing.
  behind_length :
      (i : ℕ) → 4 ≤ i → get_or (appended msg mlen type n) i 0 ≡ get_or (padded msg mlen type n) i 0
  unfolding appended
  behind_length i h = get_or-overlay_after (padded msg mlen type n) 2 new_word i h

  before_value :
      (i : ℕ)
      → i < mlen + 4
      → get_or (padded msg mlen type n) i 0 ≡ get_or (sized msg mlen type n) i 0
  unfolding padded
  before_value i h =
      get_or-overlay_before (sized msg mlen type n) (mlen + 4 + n) (spaces (pad_of msg n)) i
        (omega arith)

  before_size :
      (i : ℕ) → i < mlen + 2 → get_or (sized msg mlen type n) i 0 ≡ get_or (typed msg mlen type) i 0
  unfolding sized
  before_size i h = get_or-overlay_before (typed msg mlen type) (mlen + 2) length_value i h

  before_type : (i : ℕ) → i < mlen → get_or (typed msg mlen type) i 0 ≡ get_or msg.buffer i 0
  unfolding typed
  before_type i h = get_or-overlay_before msg.buffer mlen (word_bytes (wire_type msg type)) i h

  pub agree : Agree msg.buffer (appended msg mlen type n) mlen
  agree i h q =
      behind_length i (omega arith)
      ∙ before_value i (omega arith)
      ∙ before_size i (omega arith)
      ∙ before_type i q

  pub first_byte : get_or (appended msg mlen type n) 0 0 ≡ get_or msg.buffer 0 0
  unfolding appended
  first_byte =
      get_or-overlay_before (padded msg mlen type n) 2 new_word 0 (omega arith)
      ∙ before_value 0 (omega arith)
      ∙ before_size 0 (omega arith)
      ∙ before_type 0 (omega arith)

  pub type_byte :
      (k : ℕ)
      → k < 2
      → get_or (appended msg mlen type n) (mlen + k) 0
        ≡ get_or (word_bytes (wire_type msg type)) k 0
  type_byte k h =
      behind_length (mlen + k) (omega arith)
      ∙ before_value (mlen + k) (omega arith)
      ∙ before_size (mlen + k) (omega arith)
      ∙ unfold typed in
        get_or-overlay_in msg.buffer mlen (word_bytes (wire_type msg type)) k (omega arith) h

  pub size_byte :
      (k : ℕ) → k < 2 → get_or (appended msg mlen type n) (mlen + 2 + k) 0 ≡ get_or length_value k 0
  size_byte k h =
      behind_length (mlen + 2 + k) (omega arith)
      ∙ before_value (mlen + 2 + k) (omega arith)
      ∙ (unfold sized in
          get_or-overlay_in (typed msg mlen type) (mlen + 2) length_value k
            (omega (arith, length-typed)) h)

  pub length_byte :
      (k : ℕ) → k < 2 → get_or (appended msg mlen type n) (2 + k) 0 ≡ get_or new_word k 0
  length_byte k h =
      unfold appended in
      get_or-overlay_in (padded msg mlen type n) 2 new_word k (omega (arith, length-padded)) h
