-- ===== src/Stun/Value/Append.antt =====
-- `stun_message_append_bytes` on the parsed view: the value is in place, and the attributes are
-- those that `stun_message_append` left.
use mathlib.Core.Path.{ap₂}
use libnice.Base.{
  ℕ, ◌+◌, ◌^◌, ◌≤◌, ◌<◌, ◌≡◌, refl, ap, ◌∙◌, arith, Bool, List, [], ◌∷◌, ◌++◌, length, get_or, ok,
  overlay, slice, length-overlay, get_or-overlay_before, slice-overlay, write_bytes-eq-ok,
}
use libnice.Stun.Types.{StunMessage, success}
use libnice.Stun.Length.Chain.{Chain, done, attribute}
use libnice.Stun.Length.Sound.{IsMessage}
use libnice.Stun.Attribute.{is_aligned}
use libnice.Stun.Attribute.Find.{Entry, entries}
use libnice.Stun.Attribute.Append.{appended, pad_of}
use libnice.Stun.Attribute.Bytes.{Agree, length-appended}
use libnice.Stun.Attribute.Extend.{getw-Agree, grown_length, new_entry, append-entries}
use libnice.Stun.Value.{append_bytes, fill}

-- Every value of the list starts at `e` at most.
abbrev StartBy : ℕ → List Entry → Type 0
StartBy e [] = Unit
StartBy e (a ∷ es) = (a.start ≤ e) × StartBy e es

StartBy-append : (e : ℕ) (xs ys : List Entry) → StartBy e xs → StartBy e ys → StartBy e (xs ++ ys)
StartBy-append e [] ys h k = k
StartBy-append e (x ∷ xs) ys h k = (h.0, StartBy-append e xs ys h.1 k)

entries-StartBy :
    {buf : List ℕ} {p : Bool} {last pos : ℕ} (c : Chain buf p last pos) (e : ℕ)
    → last ≤ e
    → StartBy e (entries c)
entries-StartBy (done q) e h = tt
entries-StartBy (attribute alen r q c) e h = (omega arith, entries-StartBy c e h)

-- A chain does not change when only bytes behind the last header do.
module _ (buf buf' : List ℕ) (p : Bool) {last : ℕ} (e : ℕ) (a : Agree buf buf' e)
    (l : last ≤ length buf) (l' : last ≤ length buf') (low : e ≤ last) where
  retain :
      {pos : ℕ}
      → 20 ≤ pos
      → (c : Chain buf p last pos) → StartBy e (entries c)
      → Chain buf' p last pos
  retain h (done q) s = done q
  retain {pos = pos} h (attribute k r q c) s =
      attribute k
        (getw-Agree buf buf' e (pos + 2) a (omega arith) (omega arith) (omega arith) (omega arith)
          r)
        q (retain (omega arith) c s.1)

  entries-retain :
      {pos : ℕ} (h : 20 ≤ pos) (c : Chain buf p last pos) (s : StartBy e (entries c))
      → entries (retain h c s) ≡ entries c
  unfolding retain
  entries-retain h (done q) s = refl
  entries-retain {pos = pos} h (attribute k r q c) s =
      ap₂ ◌∷◌
        (ap (λ w. record { kind = w; start = pos + 4; size = k })
          (rw (a pos h (omega arith), a (pos + 1) (omega arith) (omega arith))))
        (entries-retain (omega arith) c s.1)

-- The buffer after `stun_message_append_bytes`.
unfoldable pub filled : StunMessage → ℕ → ℕ → List ℕ → List ℕ
filled msg mlen type bytes = overlay (appended msg mlen type (length bytes)) (mlen + 4) bytes

module _ (msg : StunMessage) (mlen type : ℕ) (bytes : List ℕ)
    (v : IsMessage msg.buffer (length msg.buffer) (is_aligned msg) mlen)
    (room : mlen + 4 + length bytes + pad_of msg (length bytes) ≤ length msg.buffer)
    (small : mlen + 4 + length bytes + pad_of msg (length bytes) < 2 ^ 16) where
  -- In a message of `mlen` bytes that the validation accepts, with room for the attribute and its
  -- padding and a new length below 2 ^ 16, `stun_message_append_bytes` succeeds. The message is
  -- again one that the validation accepts, of `grown_length` bytes, its attributes are those from
  -- before with the new one behind them, and the bytes of the new value are those given.
  pub append_bytes-entries :
      mlen + 4 + length bytes ≤ msg.buffer_len
      → (w : IsMessage
          (filled msg mlen type bytes)
          (length (filled msg mlen type bytes))
          (is_aligned msg)
          (grown_length msg mlen type (length bytes)))
        × (append_bytes msg type bytes
            ≡ ok (record msg { buffer = filled msg mlen type bytes }, success))
        × (entries w.chain ≡ entries v.chain ++ (new_entry msg mlen type (length bytes) ∷ []))
        × (slice (filled msg mlen type bytes) (mlen + 4) (length bytes) ≡ bytes)
  unfolding append_bytes fill filled
  append_bytes-entries fits =
      let (w, done_append, grown) = append-entries msg mlen type (length bytes) v room small fits in
      let low : StartBy (mlen + 4) (entries w.chain) = rw grown (
        StartBy-append (mlen + 4) (entries v.chain) _
          (entries-StartBy v.chain (mlen + 4) (omega arith)) (omega arith, tt)) in
      (
        record {
          header = omega (arith, size, w.header);
          top_bits = rw (same 0 (omega arith)) w.top_bits;
          declared = rw (same 2 (omega arith), same 3 (omega arith)) w.declared;
          multiple = w.multiple;
          fits = omega (arith, size, w.fits);
          chain =
              retain before after (is_aligned msg) (mlen + 4) (λ i _ q. same i q) (w.fits)
                (omega (arith, size, w.fits)) (omega arith) (omega arith) w.chain low;
        },
        rw (done_append, write_bytes-eq-ok before (mlen + 4) bytes (omega (arith, whole))),
        entries-retain before after (is_aligned msg) (mlen + 4) (λ i _ q. same i q) (w.fits)
              (omega (arith, size, w.fits)) (omega arith) (omega arith) w.chain low
            ∙ grown,
        slice-overlay before (mlen + 4) bytes (omega (arith, whole)),
      )
    where
      before : List ℕ
      before = appended msg mlen type (length bytes)

      after : List ℕ
      after = overlay before (mlen + 4) bytes

      size : length after ≡ length before
      size = length-overlay before (mlen + 4) bytes

      whole : length before ≡ length msg.buffer
      whole = length-appended msg mlen type (length bytes) (omega (arith, v.declared)) room

      same : (i : ℕ) → i < mlen + 4 → get_or after i 0 ≡ get_or before i 0
      same i q = get_or-overlay_before before (mlen + 4) bytes i q

pub length-filled :
    (msg : StunMessage) (mlen type : ℕ) (bytes : List ℕ)
    → 20 ≤ mlen
    → mlen + 4 + length bytes + pad_of msg (length bytes) ≤ length msg.buffer
    → length (filled msg mlen type bytes) ≡ length msg.buffer
unfolding filled
length-filled msg mlen type bytes h room =
    length-overlay (appended msg mlen type (length bytes)) (mlen + 4) bytes
    ∙ length-appended msg mlen type (length bytes) h room
