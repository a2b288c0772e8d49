-- ===== src/Stun/Crc/Polynomial.antt =====
-- The table of the CRC against its polynomial, bit by bit.
use libnice.Base.{
  ℕ, zero, suc, ◌*◌, ◌/◌, ◌%◌, ◌^◌, ◌<◌, ◌≡◌, refl, sym, ap, ◌∙◌, arith, Bool, true, false, List,
  [], ◌∷◌, ◌++◌, get_or, bit_xor, if◌then◌else◌, ◌==◌, inl, inr, ◌⊎◌, ==_iff,
}
use native.Mathlib.Decide.{dec_lt}
use libnice.Base.Bits.{bit_and_mask}
use libnice.Base.Xor.{
  bit_xor_digits, bit_xor_comm, bit_xor_assoc, bit_xor_twice, bit_xor_sum, bit_xor-div,
  bit_xor-zero,
}
use libnice.Stun.Crc.{crc32_tab, crc_byte, crc_segment, crc_segments, stun_crc32}

-- One bit of a division by the polynomial 0xedb88320, the lowest bit first.
unfoldable pub shift : ℕ → ℕ
shift x = if x % 2 == 0 then x / 2 else bit_xor (x / 2) 0xedb88320

unfoldable pub shifts : ℕ → ℕ → ℕ
shifts zero x = x
shifts (suc n) x = shifts n (shift x)

abbrev upto : ℕ → (ℕ → Bool) → Bool
upto zero f = true
upto (suc n) f = if f n then upto n f else false

table_right : upto 256 (λ i. get_or crc32_tab i 0 == shifts 8 i) ≡ true
unfolding crc32_tab shift shifts
table_right = refl

upto-eq : (n : ℕ) (f : ℕ → Bool) (i : ℕ) → upto n f ≡ true → i < n → f i ≡ true
upto-eq zero f i h q = absurd (omega arith)
upto-eq (suc n) f i h q = elim (dec_lt i n) [
  | yes p ↦ upto-eq n f i (ground (arith, h)) p
  | no p ↦ let e : i ≡ n = omega arith in rw e (ground (arith, h))
]

table-eq : (i : ℕ) → i < 256 → get_or crc32_tab i 0 ≡ shifts 8 i
table-eq i h =
    (==_iff (get_or crc32_tab i 0) (shifts 8 i)).0
      (upto-eq 256 (λ j. get_or crc32_tab j 0 == shifts 8 j) i table_right h)

abbrev poly : ℕ
poly = 0xedb88320

shift_even : (x : ℕ) → x % 2 ≡ 0 → shift x ≡ x / 2
unfolding shift
shift_even x h = ground arith

shift_odd : (x : ℕ) → x % 2 ≡ 1 → shift x ≡ bit_xor (x / 2) poly
unfolding shift
shift_odd x h = ground arith

parity_cases : (x : ℕ) → (x % 2 ≡ 0) ⊎ (x % 2 ≡ 1)
parity_cases x = elim (dec_lt (x % 2) 1) [ yes p ↦ inl (omega arith) | no p ↦ inr (omega arith) ]

-- The division is linear.
shift-bit_xor : (x y : ℕ) → shift (bit_xor x y) ≡ bit_xor (shift x) (shift y)
shift-bit_xor x y =
    let (upper, lower) = bit_xor_digits x y in
    let a = x / 2 in
    let b = y / 2 in
    elim (parity_cases x) [
      | inl p ↦ elim (parity_cases y) [
        | inl q ↦
            rw (shift_even x p, shift_even y q)
              (shift_even (bit_xor x y) (rw (p, q) at lower) ∙ upper)
        | inr q ↦
            rw (shift_even x p, shift_odd y q)
              (shift_odd (bit_xor x y) (rw (p, q) at lower)
                ∙ ap (λ t. bit_xor t poly) upper
                ∙ bit_xor_assoc a b poly)
      ]
      | inr p ↦ elim (parity_cases y) [
        | inl q ↦
            rw (shift_odd x p, shift_even y q)
              (shift_odd (bit_xor x y) (rw (p, q) at lower)
                ∙ ap (λ t. bit_xor t poly) upper
                ∙ bit_xor_assoc a b poly
                ∙ ap (bit_xor a) (bit_xor_comm b poly)
                ∙ sym (bit_xor_assoc a poly b))
        | inr q ↦
            rw (shift_odd x p, shift_odd y q)
              (shift_even (bit_xor x y) (rw (p, q) at lower)
                ∙ upper
                ∙ ap (bit_xor a) (sym (bit_xor_twice b poly))
                ∙ ap (bit_xor a) (bit_xor_comm (bit_xor b poly) poly)
                ∙ sym (bit_xor_assoc a poly (bit_xor b poly)))
      ]
    ]

shifts-bit_xor : (n x y : ℕ) → shifts n (bit_xor x y) ≡ bit_xor (shifts n x) (shifts n y)
unfolding shifts
shifts-bit_xor zero x y = refl
shifts-bit_xor (suc n) x y =
    ap (shifts n) (shift-bit_xor x y) ∙ shifts-bit_xor n (shift x) (shift y)

shift_double : (x : ℕ) → shift (2 * x) ≡ x
shift_double x = shift_even (2 * x) (omega arith) ∙ omega arith

shifts_high : (n x : ℕ) → shifts n (x * 2 ^ n) ≡ x
unfolding shifts
shifts_high zero x = omega arith
shifts_high (suc n) x =
    let e : x * 2 ^ suc n ≡ 2 * (x * 2 ^ n) = grind arith in
    rw (e, shift_double (x * 2 ^ n)) (shifts_high n x)

-- One table lookup is a division by the polynomial by eight bits.
crc_byte-eq : (crc byte : ℕ) → byte < 256 → crc_byte false crc byte ≡ shifts 8 (bit_xor crc byte)
unfolding crc_byte
crc_byte-eq crc byte h =
    let x = bit_xor crc byte in
    let low = bit_and_mask 8 x in
    let none : byte / 2 ^ 8 ≡ 0 = omega arith in
    let high : x / 2 ^ 8 ≡ crc / 2 ^ 8 =
      bit_xor-div 8 crc byte ∙ ap (bit_xor (crc / 2 ^ 8)) none ∙ bit_xor-zero (crc / 2 ^ 8) in
    let parts : bit_xor (x / 256 * 2 ^ 8) (x % 256) ≡ x =
      bit_xor_sum 8 (x / 256) (x % 256) (omega arith) ∙ omega arith in
    rw low (
      sym (
        ap (shifts 8) (sym parts)
        ∙ shifts-bit_xor 8 (x / 256 * 2 ^ 8) (x % 256)
        ∙ ap (λ t. bit_xor t (shifts 8 (x % 256))) (shifts_high 8 (x / 256))
        ∙ ap (bit_xor (x / 256)) (sym (table-eq (x % 256) (omega arith)))
        ∙ bit_xor_comm (x / 256) (get_or crc32_tab (x % 256) 0)
        ∙ ap (bit_xor (get_or crc32_tab (x % 256) 0)) high
        ∙ ground arith))

abbrev pub AllBytes : List ℕ → Type 0
AllBytes [] = Unit
AllBytes (b ∷ bs) = (b < 256) × AllBytes bs

abbrev pub AllSegments : List (List ℕ) → Type 0
AllSegments [] = Unit
AllSegments (seg ∷ segs) = AllBytes seg × AllSegments segs

abbrev pub concat : List (List ℕ) → List ℕ
concat [] = []
concat (seg ∷ segs) = seg ++ concat segs

-- The remainder of the polynomial division of the bytes, bit by bit, from a first remainder on.
unfoldable pub divide : ℕ → List ℕ → ℕ
divide crc [] = crc
divide crc (b ∷ bs) = divide (shifts 8 (bit_xor crc b)) bs

crc_segment-eq :
    (crc : ℕ) (seg rest : List ℕ)
    → AllBytes seg
    → divide (crc_segment false crc seg) rest ≡ divide crc (seg ++ rest)
unfolding crc_segment divide
crc_segment-eq crc [] rest h = refl
crc_segment-eq crc (b ∷ bs) rest h =
    rw (crc_byte-eq crc b h.0) (crc_segment-eq (shifts 8 (bit_xor crc b)) bs rest h.1)

crc_segments-eq :
    (crc : ℕ) (segs : List (List ℕ))
    → AllSegments segs
    → crc_segments false crc segs ≡ divide crc (concat segs)
unfolding crc_segments
crc_segments-eq crc [] h = unfold divide in refl
crc_segments-eq crc (seg ∷ segs) h =
    crc_segments-eq (crc_segment false crc seg) segs h.1 ∙ crc_segment-eq crc seg (concat segs) h.0

-- Without the misspelt table entry `stun_crc32` of segments of bytes is the complement of what is left
-- when their concatenation is divided bit by bit by the polynomial 0xedb88320, from 0xffffffff on: the
-- table is right at all its entries, and the boundaries of the segments do not matter.
pub stun_crc32-divide :
    (segs : List (List ℕ))
    → AllSegments segs
    → stun_crc32 segs false ≡ bit_xor (divide 0xffffffff (concat segs)) 0xffffffff
unfolding stun_crc32
stun_crc32-divide segs h = ap (λ t. bit_xor t 0xffffffff) (crc_segments-eq 0xffffffff segs h)
