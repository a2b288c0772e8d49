-- ===== src/Stun/Length/Sound.antt =====
-- `stun_message_validate_buffer_length` against a description of the messages it accepts.
use libnice.Base.{
  ℕ, ◌+◌, ◌-◌, ◌/◌, ◌%◌, ◌≤◌, ◌≡◌, refl, sym, ap, ◌∙◌, arith, Bool, true, false, List, [], ◌∷◌,
  some, length, get_or, if◌then◌else◌, ltb, ◌==◌, not, ok, inl, inr, ◌↔◌, read-eq-ok, Bool-cases,
}
use mathlib.Core.Path.{subst}
use libnice.Stun.Wire.{word_of}
use libnice.Stun.Wire.Padding.{padding-eq}
use libnice.Stun.Wire.Word.{getw-eq-ok}
use libnice.Stun.Length.{
  Verdict, valid, incomplete, invalid, vector_read, vector_getw, length_field, check_length,
  validate_fast, validate_all, validate, walk, finish,
}
use libnice.Stun.Length.Chain.{Chain, walk-total, walk→Chain, Chain→walk}

-- The value of the length field.
abbrev pub field_of : List ℕ → ℕ
field_of buf = word_of (get_or buf 2 0) (get_or buf 3 0)

-- A whole message of `mlen` bytes stands at the front of a buffer of `len` bytes.
pub record IsMessage (buf : List ℕ) (len : ℕ) (has_padding : Bool) (mlen : ℕ) : Type 0 where
  pub header : 4 ≤ len
  pub top_bits : get_or buf 0 0 / 64 ≡ 0
  pub declared : mlen ≡ field_of buf + 20
  pub multiple : has_padding ≡ true → mlen % 4 ≡ 0
  pub fits : mlen ≤ len
  pub chain : Chain buf has_padding mlen 20

-- The pre-check on one buffer.
abbrev pub pre_check : List ℕ → ℕ → Bool → Verdict
pre_check buf len p =
    if ltb len 1
    then invalid
    else if not (get_or buf 0 0 / 64 == 0)
    then invalid
    else if ltb len 4
    then incomplete
    else check_length (field_of buf) len p

pub validate_fast-eq-ok :
    (buf : List ℕ) (len : ℕ) (p : Bool)
    → length buf ≡ len
    → validate_fast (record { bytes = some buf; size = len } ∷ []) (some 1) len p
      ≡ ok (pre_check buf len p)
unfolding validate_fast vector_read length_field vector_getw
validate_fast-eq-ok buf len p h = elim (Bool-cases (ltb len 1)) [
  | inl e ↦ rw e
  | inr e ↦ ground (arith, read-eq-ok buf 0, getw-eq-ok buf 2)
]

-- The part of `IsMessage` that the pre-check settles.
abbrev Front : List ℕ → ℕ → Bool → ℕ → Type 0
Front buf len p mlen =
    (4 ≤ len)
    × (get_or buf 0 0 / 64 ≡ 0)
    × (mlen ≡ field_of buf + 20)
    × (p ≡ true → mlen % 4 ≡ 0)
    × (mlen ≤ len)

pre_check→Front :
    (buf : List ℕ) (len : ℕ) (p : Bool) (mlen : ℕ)
    → pre_check buf len p ≡ valid mlen
    → Front buf len p mlen
unfolding check_length
pre_check→Front buf len p mlen h = ground (arith, padding-eq (field_of buf + 20))

Front→pre_check :
    (buf : List ℕ) (len : ℕ) (p : Bool) (mlen : ℕ)
    → Front buf len p mlen
    → pre_check buf len p ≡ valid mlen
unfolding check_length
Front→pre_check buf len p mlen (a, b, c, d, e) = ground (arith, padding-eq (field_of buf + 20))

validate-eq :
    (buf : List ℕ) (len : ℕ) (p : Bool)
    → length buf ≡ len
    → validate buf len p ≡ validate_all buf p (pre_check buf len p)
unfolding validate
validate-eq buf len p h = rw (validate_fast-eq-ok buf len p h)

validate_all-total :
    (buf : List ℕ) (len : ℕ) (p : Bool) (v : Verdict)
    → length buf ≡ len
    → ((m : ℕ) → v ≡ valid m → (20 ≤ m) × (m ≤ len))
    → (r : Verdict) × (validate_all buf p v ≡ ok r)
unfolding validate_all
validate_all-total buf len p incomplete h k = (incomplete, refl)
validate_all-total buf len p invalid h k = (invalid, refl)
validate_all-total buf len p (valid m) h k =
    let (b, e) = walk-total m buf p 20 (m - 20) (omega arith) (omega (arith, k m refl)) in
    (finish m b, rw e refl)

-- Over a buffer that holds its `len` bytes, `stun_message_validate_buffer_length` returns: no
-- read leaves the buffer, and the loop ends.
pub validate-total :
    (buf : List ℕ) (len : ℕ) (p : Bool)
    → length buf ≡ len
    → (v : Verdict) × (validate buf len p ≡ ok v)
validate-total buf len p h = rw (validate-eq buf len p h) (
    validate_all-total buf len p (pre_check buf len p) h
      (λ m e. let f = pre_check→Front buf len p m e in (omega arith, f.4)))

validate_all→Chain :
    (buf : List ℕ) (p : Bool) (v : Verdict) (mlen : ℕ)
    → ((m : ℕ) → v ≡ valid m → (20 ≤ m) × (m ≤ length buf))
    → validate_all buf p v ≡ ok (valid mlen)
    → (v ≡ valid mlen) × Chain buf p mlen 20
unfolding validate_all
validate_all→Chain buf p incomplete mlen k h = absurd (cc)
validate_all→Chain buf p invalid mlen k h = absurd (cc)
validate_all→Chain buf p (valid m) mlen k h =
    let (b, e) = walk-total m buf p 20 (m - 20) (omega arith) (omega (arith, k m refl)) in
    accepted b e (rw e at h)
  where
    accepted :
        (b : Bool)
        → walk m buf p 20 (m - 20) ≡ ok b
        → ok (finish m b) ≡ ok (valid mlen)
        → (valid m ≡ valid mlen) × Chain buf p mlen 20
    accepted false e f = absurd (cc)
    accepted true e f =
        let same : m ≡ mlen = cc in
        let end : 20 + (m - 20) ≡ mlen = omega (arith, k m refl, same) in
        (
          ap valid same,
          subst (λ t. Chain buf p t 20) end
              (walk→Chain m buf p 20 (m - 20) (omega (arith, k m refl)) e),
        )

-- Over a buffer that holds its `len` bytes, a length is returned exactly when a whole message of
-- that length stands at the front: the two top bits are clear, the length is the length field
-- with 20 added, a multiple of four with padding and at most `len`, and attributes fill the
-- message from index 20 to its end.
pub validate_iff :
    (buf : List ℕ) (len : ℕ) (p : Bool) (mlen : ℕ)
    → length buf ≡ len
    → (validate buf len p ≡ ok (valid mlen)) ↔ IsMessage buf len p mlen
unfolding validate_all
validate_iff buf len p mlen h = (sound, complete)
  where
    sound : validate buf len p ≡ ok (valid mlen) → IsMessage buf len p mlen
    sound e =
        let (front, chain) =
          validate_all→Chain buf p (pre_check buf len p) mlen
            (λ m q. let f = pre_check→Front buf len p m q in (omega arith, omega arith))
            (sym (validate-eq buf len p h) ∙ e) in
        let (a, b, c, d, f) = pre_check→Front buf len p mlen front in
        record { header = a; top_bits = b; declared = c; multiple = d; fits = f; chain = chain }

    complete : IsMessage buf len p mlen → validate buf len p ≡ ok (valid mlen)
    complete v = rw (
      validate-eq buf len p h,
      Front→pre_check buf len p mlen (v.header, v.top_bits, v.declared, v.multiple, v.fits),
      validate_all,
      Chain→walk mlen buf p (mlen - 20) (omega arith) (omega (arith, v.declared)) v.chain,
    )
