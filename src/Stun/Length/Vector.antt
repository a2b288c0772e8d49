-- ===== src/Stun/Length/Vector.antt =====
-- `stun_message_validate_buffer_length_fast` over a message that is scattered over buffers.
use libnice.Base.{
  ℕ, suc, zero, ◌+◌, ◌-◌, ◌*◌, ◌%◌, ◌^◌, ◌≤◌, ◌<◌, ◌≡◌, refl, sym, ap, ◌∙◌, arith, Bool, true,
  false, List, [], ◌∷◌, ◌++◌, some, length, length-append, get_or, ltb, leb, ok, ◌>>=◌, inl, inr,
  Bool-cases, read-eq-ok, bit_or,
}
use libnice.Base.Bits.{bit_or_sum}
use libnice.Stun.Wire.{word_of}
use libnice.Stun.Wire.Word.{getw-eq-ok}
use libnice.Stun.Length.{
  InputVector, vector_read, vector_getw, first, skip_bytes, read_split, length_field, validate_fast,
}
use libnice.Stun.Length.Sound.{pre_check, field_of, validate_fast-eq-ok}

abbrev pub vector : List ℕ → InputVector
vector bs = record { bytes = some bs; size = length bs }

abbrev pub vectors : List (List ℕ) → List InputVector
vectors [] = []
vectors (c ∷ cs) = vector c ∷ vectors cs

abbrev pub join : List (List ℕ) → List ℕ
join [] = []
join (c ∷ cs) = c ++ join cs

abbrev pub Filled : List (List ℕ) → Type 0
Filled [] = Unit
Filled (c ∷ cs) = (0 < length c) × Filled cs

get_or-append_left :
    (xs ys : List ℕ) (i : ℕ) → i < length xs → get_or (xs ++ ys) i 0 ≡ get_or xs i 0
get_or-append_left [] ys i h = absurd (omega arith)
get_or-append_left (x ∷ xs) ys zero h = refl
get_or-append_left (x ∷ xs) ys (suc i) h = get_or-append_left xs ys i (omega arith)

get_or-append_right :
    (xs ys : List ℕ) (i : ℕ) → length xs ≤ i → get_or (xs ++ ys) i 0 ≡ get_or ys (i - length xs) 0
get_or-append_right [] ys i h = ap (λ t. get_or ys t 0) (omega arith)
get_or-append_right (x ∷ xs) ys zero h = absurd (omega arith)
get_or-append_right (x ∷ xs) ys (suc i) h =
    get_or-append_right xs ys i (omega arith) ∙ ap (λ t. get_or ys t 0) (omega arith)

abbrev Bytes : List ℕ → Type 0
Bytes bs = (i : ℕ) → get_or bs i 0 < 256

-- The word at index `i` of all the bytes.
abbrev word_at : List ℕ → ℕ → ℕ
word_at bs i = word_of (get_or bs i 0) (get_or bs (i + 1) 0)

-- One buffer holds both bytes, or the second one is the first of the next buffer.
tail-Bytes : (c : List ℕ) (cs : List (List ℕ)) → Bytes (join (c ∷ cs)) → Bytes (join cs)
tail-Bytes c cs b i =
    let e : length c + i - length c ≡ i = omega arith in
    rw e at
      (rw (get_or-append_right c (join cs) (length c + i) (omega arith)) at (b (length c + i)))

split_in_one :
    (c : List ℕ) (cs : List (List ℕ)) (skip : ℕ)
    → length c < 2 ^ 64
    → skip + 1 < length c
    → read_split (vectors (c ∷ cs)) skip ≡ ok (word_at (c ++ join cs) skip)
unfolding read_split vector_getw
split_in_one c cs skip small h =
    rw
      (
        far,
        getw-eq-ok c skip (omega arith),
        get_or-append_left c (join cs) skip (omega arith),
        get_or-append_left c (join cs) (skip + 1) (omega arith),
      )
      refl
  where
    far : ltb 1 ((length c + 2 ^ 64 - skip) % 2 ^ 64) ≡ true
    far = ground arith

split_in_two :
    (c d : List ℕ) (cs : List (List ℕ)) (skip : ℕ)
    → length c < 2 ^ 64
    → skip + 1 ≡ length c
    → 0 < length d
    → Bytes (join (c ∷ d ∷ cs))
    → read_split (vectors (c ∷ d ∷ cs)) skip ≡ ok (word_at (join (c ∷ d ∷ cs)) skip)
unfolding read_split vector_read first
split_in_two c d cs skip small h pos bytes =
    rw (near, read-eq-ok c skip (omega arith), read-eq-ok d 0 pos) (ap ok (sym joined))
  where
    near : ltb 1 ((length c + 2 ^ 64 - skip) % 2 ^ 64) ≡ false
    near = ground arith

    all : List ℕ
    all = join (c ∷ d ∷ cs)

    here : get_or all skip 0 ≡ get_or c skip 0
    here = get_or-append_left c (d ++ join cs) skip (omega arith)

    there : get_or all (skip + 1) 0 ≡ get_or d 0 0
    there =
        get_or-append_right c (d ++ join cs) (skip + 1) (omega arith)
        ∙ ap (λ t. get_or (d ++ join cs) t 0) (omega arith)
        ∙ get_or-append_left d (join cs) 0 pos

    joined : word_at all skip ≡ bit_or (get_or c skip 0 * 2 ^ 8) (get_or d 0 0)
    joined =
        rw (here, there)
          (omega (
            arith,
            bit_or_sum 8 (get_or c skip 0) (get_or d 0 0) (rw there at (bytes (skip + 1))),
            rw here at (bytes skip),
            rw there at (bytes (skip + 1)),
          ))

skip_over :
    (c : List ℕ) (vs : List InputVector) (n skip : ℕ)
    → length c ≤ skip
    → skip_bytes (vector c ∷ vs) (some (suc n)) skip ≡ skip_bytes vs (some n) (skip - length c)
unfolding skip_bytes
skip_over c vs n skip h = ground arith

skip_stop :
    (c : List ℕ) (vs : List InputVector) (n skip : ℕ)
    → skip < length c
    → skip_bytes (vector c ∷ vs) (some (suc n)) skip ≡ ok (vector c ∷ vs, skip)
unfolding skip_bytes
skip_stop c vs n skip h = ground arith

shift_word :
    (c bs : List ℕ) (skip : ℕ)
    → length c ≤ skip
    → word_at (c ++ bs) skip ≡ word_at bs (skip - length c)
shift_word c bs skip h =
    let e : skip + 1 - length c ≡ skip - length c + 1 = omega arith in
    rw (get_or-append_right c bs skip h, get_or-append_right c bs (skip + 1) (omega arith), e)

-- Once the buffer that reaches past `skip` is found.
stopped :
    (c : List ℕ) (cs : List (List ℕ)) (skip : ℕ)
    → Filled (c ∷ cs)
    → Bytes (join (c ∷ cs))
    → length c < 2 ^ 64
    → skip + 2 ≤ length c + length (join cs)
    → skip < length c
    → read_split (vectors (c ∷ cs)) skip ≡ ok (word_at (join (c ∷ cs)) skip)
stopped c [] skip f b s h l = split_in_one c [] skip s (omega arith)
stopped c (d ∷ cs) skip f b s h l = elim (Bool-cases (ltb (skip + 1) (length c))) [
  | inl one ↦ split_in_one c (d ∷ cs) skip s (ground arith)
  | inr two ↦ split_in_two c d cs skip s (ground arith) f.1.0 b
]

-- The loop and the read behind it give the word of the joined bytes.
split_word :
    (cs : List (List ℕ)) (skip : ℕ)
    → Filled cs
    → Bytes (join cs)
    → length (join cs) < 2 ^ 64
    → skip + 2 ≤ length (join cs)
    → (skip_bytes (vectors cs) (some (length cs)) skip >>= (λ (rest, s). read_split rest s))
      ≡ ok (word_at (join cs) skip)
split_word [] skip f b s h = absurd (omega arith)
split_word (c ∷ cs) skip f b s h = elim (Bool-cases (leb (length c) skip)) [
  | inl past ↦
      rw
        (
          skip_over c (vectors cs) (length cs) skip (ground arith),
          shift_word c (join cs) skip (ground arith),
        )
        (split_word cs (skip - length c) f.1 (tail-Bytes c cs b) (omega (arith, size))
          (ground (arith, size)))
  | inr inside ↦
      rw (skip_stop c (vectors cs) (length cs) skip (ground arith))
        (stopped c cs skip f b (omega (arith, size)) (omega (arith, size)) (ground arith))
]
  where
    size : length (c ++ join cs) ≡ length c + length (join cs)
    size = length-append c (join cs)

field_lem :
    (c : List ℕ) (cs : List (List ℕ))
    → Filled (c ∷ cs)
    → Bytes (join (c ∷ cs))
    → length (join (c ∷ cs)) < 2 ^ 64
    → 4 ≤ length (join (c ∷ cs))
    → length_field (vector c) (vectors cs) (some (length (c ∷ cs))) ≡ ok (field_of (join (c ∷ cs)))
unfolding length_field vector_getw
field_lem c cs f b s h = elim (Bool-cases (leb 4 (length c))) [
  | inl fast ↦
      rw
        (
          fast,
          getw-eq-ok c 2 (ground arith),
          get_or-append_left c (join cs) 2 (ground arith),
          get_or-append_left c (join cs) 3 (ground arith),
        )
        refl
  | inr slow ↦ rw slow (split_word (c ∷ cs) 2 f b s h)
]

-- A message scattered over any number of buffers, none of them empty, gets from
-- `stun_message_validate_buffer_length_fast` what it gets in one buffer. The buffers hold bytes,
-- fewer than 2 ^ 64 in all, `n_buffers` is their number and `total_length` their size.
pub validate_fast-join :
    (cs : List (List ℕ)) (p : Bool)
    → Filled cs
    → Bytes (join cs)
    → length (join cs) < 2 ^ 64
    → validate_fast (vectors cs) (some (length cs)) (length (join cs)) p
      ≡ validate_fast (vector (join cs) ∷ []) (some 1) (length (join cs)) p
unfolding validate_fast vector_read
validate_fast-join [] p f b s = refl
validate_fast-join (c ∷ cs) p f b s =
    scattered ∙ sym (validate_fast-eq-ok (join (c ∷ cs)) (length (join (c ∷ cs))) p refl)
  where
    pos : ltb (length (join (c ∷ cs))) 1 ≡ false
    pos = ground (arith, length-append c (join cs))

    scattered :
        validate_fast (vectors (c ∷ cs)) (some (length (c ∷ cs))) (length (join (c ∷ cs))) p
        ≡ ok (pre_check (join (c ∷ cs)) (length (join (c ∷ cs))) p)
    scattered =
        rw (pos, read-eq-ok c 0 f.0, get_or-append_left c (join cs) 0 f.0)
          (elim (Bool-cases (ltb (length (join (c ∷ cs))) 4)) [
            | inl e ↦ rw e (ground arith)
            | inr e ↦ rw (e, field_lem c cs f b s (ground arith)) (ground arith)
          ])
