-- ===== src/Stun/Attribute/Append.antt =====
-- `stun_message_append`: where it writes, and when that leaves the buffer.
use libnice.Base.{
  ℕ, ◌+◌, ◌-◌, ◌%◌, ◌^◌, ◌≤◌, ◌<◌, ◌≡◌, ◌∙◌, arith, Bool, true, false, none, some, List, length,
  ltb, if◌then◌else◌, Bool-cases, replicate, length-replicate, take, bytes_eq, slice, overlay,
  length-overlay, write_bytes-eq-ok, write_bytes-oob, read_bytes-eq-ok, ok, out_of_bounds, inl, inr,
}
use libnice.Stun.Types.{StunMessage}
use libnice.Stun.Wire.{setw, word_bytes, padding, align}
use libnice.Stun.Wire.Padding.{padding-eq}
use libnice.Stun.Wire.Word.{setw-eq-ok}
use libnice.Stun.Message.{
  message_length, message_id, has_cookie, magic_cookie, wire_type, unaligned_agent,
}
use libnice.Stun.Attribute.{append, append_write, append_length, append_padding}

-- The first four bytes of the identifier are the cookie.
unfoldable pub cookie_in : List ℕ → Bool
cookie_in buf = bytes_eq (take 4 (slice buf 4 16)) magic_cookie

pub has_cookie-eq-ok :
    (msg : StunMessage) → 20 ≤ length msg.buffer → has_cookie msg ≡ ok (cookie_in msg.buffer)
unfolding has_cookie message_id cookie_in
has_cookie-eq-ok msg h = rw (read_bytes-eq-ok msg.buffer 4 16 h)

pub padding-le : (n : ℕ) → padding n ≤ 3
padding-le n = omega (arith, padding-eq n)

-- `k` spaces.
unfoldable pub spaces : ℕ → List ℕ
spaces k = replicate k 0x20

pub length-spaces : (k : ℕ) → length (spaces k) ≡ k
unfolding spaces
length-spaces k = length-replicate {A = ℕ} k 0x20

append_padding-eq-ok :
    (buf : List ℕ) (mlen n : ℕ)
    → mlen + 4 + n + padding n ≤ length buf
    → mlen + 4 + n + padding n < 2 ^ 16
    → append_padding buf mlen n
      ≡ ok (overlay buf (mlen + 4 + n) (spaces (padding n)), mlen + 4 + n + padding n)
unfolding append_padding spaces
append_padding-eq-ok buf mlen n room small = elim (Bool-cases (ltb 0 (padding n))) [
  | inl more ↦
      rw
        (
          more,
          append_padding,
          write_bytes-eq-ok buf (mlen + 4 + n) (spaces (padding n))
              (omega (arith, length-spaces (padding n))),
        )
        (ground arith)
  | inr none_left ↦ let e : padding n ≡ 0 = ground arith in rw (e, append_padding) (ground arith)
]

-- The buffer after the type, after the length, after the padding, and in the end.
unfoldable pub typed : StunMessage → ℕ → ℕ → List ℕ
typed msg mlen type = overlay msg.buffer mlen (word_bytes (wire_type msg type))

unfoldable pub length_word : StunMessage → List ℕ → ℕ → ℕ
length_word msg buf n =
    if unaligned_agent msg.agent then n else if cookie_in buf then n else align n

unfoldable pub sized : StunMessage → ℕ → ℕ → ℕ → List ℕ
sized msg mlen type n =
    overlay (typed msg mlen type) (mlen + 2) (word_bytes (length_word msg (typed msg mlen type) n))

unfoldable pub pad_of : StunMessage → ℕ → ℕ
pad_of msg n = if unaligned_agent msg.agent then 0 else padding n

unfoldable pub padded : StunMessage → ℕ → ℕ → ℕ → List ℕ
padded msg mlen type n = overlay (sized msg mlen type n) (mlen + 4 + n) (spaces (pad_of msg n))

unfoldable pub appended : StunMessage → ℕ → ℕ → ℕ → List ℕ
appended msg mlen type n =
    overlay (padded msg mlen type n) 2 (word_bytes (mlen + 4 + n + pad_of msg n + 2 ^ 16 - 20))

module _ (msg : StunMessage) (mlen type n : ℕ) where
  length-typed : length (typed msg mlen type) ≡ length msg.buffer
  unfolding typed
  length-typed = length-overlay msg.buffer mlen (word_bytes (wire_type msg type))

  length-sized : length (sized msg mlen type n) ≡ length msg.buffer
  unfolding sized
  length-sized =
      length-overlay (typed msg mlen type) (mlen + 2)
        (word_bytes (length_word msg (typed msg mlen type) n))
      ∙ length-typed

  length-padded : length (padded msg mlen type n) ≡ length msg.buffer
  unfolding padded
  length-padded =
      length-overlay (sized msg mlen type n) (mlen + 4 + n) (spaces (pad_of msg n)) ∙ length-sized

  append_length-eq-ok :
      20 ≤ mlen
      → mlen + 4 + n + pad_of msg n ≤ length msg.buffer
      → mlen + 4 + n + pad_of msg n < 2 ^ 16
      → append_length msg (typed msg mlen type) mlen n
        ≡ ok (padded msg mlen type n, mlen + 4 + n + pad_of msg n)
  unfolding append_length pad_of padded sized length_word spaces
  append_length-eq-ok header room small = elim (Bool-cases (unaligned_agent msg.agent)) [
    | inl u ↦
        rw
          (
            u,
            append_length,
            setw-eq-ok (typed msg mlen type) (mlen + 2) n (omega (arith, length-typed)),
          )
          (ground arith)
    | inr a ↦
        rw
          (
            a,
            append_length,
            has_cookie-eq-ok (record msg { buffer = typed msg mlen type })
                (omega (arith, length-typed)),
            setw-eq-ok (typed msg mlen type) (mlen + 2)
                (if cookie_in (typed msg mlen type) then n else align n)
                (omega (arith, length-typed)),
          )
          (append_padding-eq-ok framed mlen n (omega (arith, rw a at room, length_framed))
            (omega (arith, rw a at small)))
  ]
    where
      framed : List ℕ
      framed =
          overlay (typed msg mlen type) (mlen + 2)
            (word_bytes (if cookie_in (typed msg mlen type) then n else align n))

      length_framed : length framed ≡ length msg.buffer
      length_framed =
          length-overlay (typed msg mlen type) (mlen + 2)
            (word_bytes (if cookie_in (typed msg mlen type) then n else align n))
          ∙ length-typed

  -- Too little room for the header and the value: nothing is written and nothing is returned.
  pub append_refused :
      message_length msg ≡ ok mlen
      → mlen < 2 ^ 16
      → n < 2 ^ 63
      → msg.buffer_len < mlen + 4 + n
      → append msg type n ≡ ok (msg, none)
  unfolding append
  append_refused reads fits small h =
      let e : ltb msg.buffer_len ((mlen + 4 + n) % 2 ^ 64) ≡ true = ground arith in rw (reads, e)

  -- Where the padding fits too, the attribute is appended without leaving the buffer.
  pub append_fits :
      message_length msg ≡ ok mlen
      → 20 ≤ mlen
      → mlen + 4 + n ≤ msg.buffer_len
      → mlen + 4 + n + pad_of msg n ≤ length msg.buffer
      → mlen + 4 + n + pad_of msg n < 2 ^ 16
      → append msg type n ≡ ok (record msg { buffer = appended msg mlen type n }, some (mlen + 4))
  unfolding append append_write appended
  append_fits reads header fits room small = rw (
    reads,
    e,
    typed_ok,
    append_length-eq-ok header room small,
    setw-eq-ok (padded msg mlen type n) 2 (mlen + 4 + n + pad_of msg n + 2 ^ 16 - 20)
        (omega (arith, length-padded)),
  )
    where
      e : ltb msg.buffer_len ((mlen + 4 + n) % 2 ^ 64) ≡ false
      e = ground arith

      typed_ok : setw msg.buffer mlen (wire_type msg type) ≡ ok (typed msg mlen type)
      typed_ok = unfold typed in setw-eq-ok msg.buffer mlen (wire_type msg type) (omega arith)

  append_length-oob :
      20 ≤ mlen
      → unaligned_agent msg.agent ≡ false
      → mlen + 4 + n ≤ length msg.buffer
      → length msg.buffer < mlen + 4 + n + padding n
      → append_length msg (typed msg mlen type) mlen n ≡ out_of_bounds
  unfolding append_length append_padding spaces
  append_length-oob header a room over = rw (
    a,
    append_length,
    has_cookie-eq-ok (record msg { buffer = typed msg mlen type }) (omega (arith, length-typed)),
    setw-eq-ok (typed msg mlen type) (mlen + 2)
        (if cookie_in (typed msg mlen type) then n else align n) (omega (arith, length-typed)),
    more,
    append_padding,
    write_bytes-oob framed (mlen + 4 + n) (spaces (padding n))
        (omega (arith, length-spaces (padding n)))
        (omega (arith, length-spaces (padding n), length_framed)),
  )
    where
      framed : List ℕ
      framed =
          overlay (typed msg mlen type) (mlen + 2)
            (word_bytes (if cookie_in (typed msg mlen type) then n else align n))

      length_framed : length framed ≡ length msg.buffer
      length_framed =
          length-overlay (typed msg mlen type) (mlen + 2)
            (word_bytes (if cookie_in (typed msg mlen type) then n else align n))
          ∙ length-typed

      more : ltb 0 (padding n) ≡ true
      more = ground arith

  -- The size check does not count the padding: in a buffer of exactly `buffer_len` bytes that
  -- holds the value but not the padding behind it, an agent that aligns attributes writes past
  -- the end of the buffer.
  pub append_overruns :
      message_length msg ≡ ok mlen
      → 20 ≤ mlen
      → unaligned_agent msg.agent ≡ false
      → msg.buffer_len ≡ length msg.buffer
      → mlen + 4 + n < 2 ^ 64
      → mlen + 4 + n ≤ msg.buffer_len
      → msg.buffer_len < mlen + 4 + n + padding n
      → append msg type n ≡ out_of_bounds
  unfolding append append_write
  append_overruns reads header a exact small fits over =
      rw (reads, e, typed_ok, append_length-oob header a (omega arith) (omega arith))
    where
      e : ltb msg.buffer_len ((mlen + 4 + n) % 2 ^ 64) ≡ false
      e = ground arith

      typed_ok : setw msg.buffer mlen (wire_type msg type) ≡ ok (typed msg mlen type)
      typed_ok = unfold typed in setw-eq-ok msg.buffer mlen (wire_type msg type) (omega arith)
