-- ===== src/Stun/Length/Chain.antt =====
-- The attributes of a message as a chain: what `stun_message_validate_buffer_length` accepts.
use libnice.Base.{
  ℕ, zero, suc, ◌+◌, ◌-◌, ◌≤◌, ◌<◌, ◌≡◌, sym, ◌∙◌, arith, Bool, true, false, List, if◌then◌else◌,
  ltb, ◌==◌, Bool-cases, length, ok, inl, inr, get_or,
}
use mathlib.Core.Path.{subst}
use libnice.Stun.Wire.{getw, align, word_of}
use libnice.Stun.Wire.Word.{getw-eq-ok}
use libnice.Stun.Length.{walk}

-- The room that a value of `alen` bytes takes up.
abbrev pub stride : Bool → ℕ → ℕ
stride has_padding alen = if has_padding then align alen else alen

-- From index `pos` on, attributes follow one another without a gap and end at `last`.
pub data Chain (buf : List ℕ) (has_padding : Bool) (last : ℕ) : ℕ → Type 0 where
  done : {pos : ℕ} → pos ≡ last → Chain buf has_padding last pos
  attribute :
      {pos : ℕ} (alen : ℕ)
      → getw buf (pos + 2) ≡ ok alen
      → pos + 4 + stride has_padding alen ≤ last
      → Chain buf has_padding last (pos + 4 + stride has_padding alen)
      → Chain buf has_padding last pos

-- The four ways of a round.
module _ (fuel : ℕ) (buf : List ℕ) (p : Bool) (pos len : ℕ) where
  pub walk_done : len ≡ 0 → walk (suc fuel) buf p pos len ≡ ok true
  unfolding walk
  walk_done h = ground arith

  pub walk_short : 0 < len → len < 4 → walk (suc fuel) buf p pos len ≡ ok false
  unfolding walk
  walk_short h q = ground arith

  pub walk_over :
      (alen : ℕ)
      → getw buf (pos + 2) ≡ ok alen
      → 4 ≤ len
      → len - 4 < stride p alen
      → walk (suc fuel) buf p pos len ≡ ok false
  unfolding walk
  walk_over alen e h q = ground arith

  pub walk_next :
      (alen : ℕ)
      → getw buf (pos + 2) ≡ ok alen
      → 4 ≤ len
      → stride p alen ≤ len - 4
      → walk (suc fuel) buf p pos len
        ≡ walk fuel buf p (pos + 4 + stride p alen) (len - 4 - stride p alen)
  unfolding walk
  walk_next alen e h q = ground arith

-- Every round is one of the four, when the header of the attribute lies in the buffer.
pub data Round (buf : List ℕ) (p : Bool) (pos len : ℕ) : Type 0 where
  at_end : len ≡ 0 → Round buf p pos len
  short : 0 < len → len < 4 → Round buf p pos len
  over :
      (alen : ℕ)
      → getw buf (pos + 2) ≡ ok alen
      → 4 ≤ len
      → len - 4 < stride p alen
      → Round buf p pos len
  next :
      (alen : ℕ)
      → getw buf (pos + 2) ≡ ok alen
      → 4 ≤ len
      → stride p alen ≤ len - 4
      → Round buf p pos len

pub round_of :
    (buf : List ℕ) (p : Bool) (pos len : ℕ) → pos + len ≤ length buf → Round buf p pos len
round_of buf p pos len h = elim (Bool-cases (len == 0)) [
  | inl e ↦ at_end (ground arith)
  | inr ne ↦ elim (Bool-cases (ltb len 4)) [
    | inl e ↦ short (ground arith) (ground arith)
    | inr ge ↦ long (ground arith)
  ]
]
  where
    alen : ℕ
    alen = word_of (get_or buf (pos + 2) 0) (get_or buf (pos + 2 + 1) 0)

    long : 4 ≤ len → Round buf p pos len
    long big =
        let reads : getw buf (pos + 2) ≡ ok alen = getw-eq-ok buf (pos + 2) (omega arith) in
        elim (Bool-cases (ltb (len - 4) (stride p alen))) [
          | inl e ↦ over alen reads big (ground arith)
          | inr ge ↦ next alen reads big (ground arith)
        ]

-- Within the buffer the walk ends with a verdict: it neither leaves the buffer nor needs more
-- rounds than bytes are left.
pub walk-total :
    (fuel : ℕ) (buf : List ℕ) (p : Bool) (pos len : ℕ)
    → len ≤ fuel
    → pos + len ≤ length buf
    → (b : Bool) × (walk fuel buf p pos len ≡ ok b)
walk-total zero buf p pos len h q = (true, unfold walk in ground arith)
walk-total (suc fuel) buf p pos len h q = elim (round_of buf p pos len q) [
  | at_end e ↦ (true, walk_done fuel buf p pos len e)
  | short e l ↦ (false, walk_short fuel buf p pos len e l)
  | over alen e l m ↦ (false, walk_over fuel buf p pos len alen e l m)
  | next alen e l m ↦ rw (walk_next fuel buf p pos len alen e l m) (
      walk-total fuel buf p (pos + 4 + stride p alen) (len - 4 - stride p alen) (omega arith)
        (omega arith))
]

walk_without_rounds :
    (buf : List ℕ) (p : Bool) (pos len : ℕ) → walk zero buf p pos len ≡ ok true → len ≡ 0
unfolding walk
walk_without_rounds buf p pos len w = ground arith

-- The walk accepts exactly the chains: what it accepts is one, …
pub walk→Chain :
    (fuel : ℕ) (buf : List ℕ) (p : Bool) (pos len : ℕ)
    → pos + len ≤ length buf
    → walk fuel buf p pos len ≡ ok true
    → Chain buf p (pos + len) pos
walk→Chain zero buf p pos len q w = done (omega (arith, walk_without_rounds buf p pos len w))
walk→Chain (suc fuel) buf p pos len q w = elim (round_of buf p pos len q) [
  | at_end e ↦ done (omega arith)
  | short e l ↦ absurd (clash (walk_short fuel buf p pos len e l))
  | over alen e l m ↦ absurd (clash (walk_over fuel buf p pos len alen e l m))
  | next alen e l m ↦
      let end : pos + 4 + stride p alen + (len - 4 - stride p alen) ≡ pos + len = omega arith in
      attribute alen e (omega arith) (
        subst (λ t. Chain buf p t (pos + 4 + stride p alen)) end
          (walk→Chain fuel buf p (pos + 4 + stride p alen) (len - 4 - stride p alen) (omega arith)
            (sym (walk_next fuel buf p pos len alen e l m) ∙ w)))
]
  where
    clash : walk (suc fuel) buf p pos len ≡ ok false → ⊥
    clash e = cc

-- … and it accepts every chain.
pub Chain→walk :
    (fuel : ℕ) (buf : List ℕ) (p : Bool) {last pos : ℕ} (len : ℕ)
    → len ≤ fuel
    → pos + len ≡ last
    → Chain buf p last pos
    → walk fuel buf p pos len ≡ ok true
Chain→walk zero buf p len h q c = unfold walk in ground arith
Chain→walk (suc fuel) buf p {pos = pos} len h q (done e) =
    walk_done fuel buf p pos len (omega arith)
Chain→walk (suc fuel) buf p {pos = pos} len h q (attribute alen e l c) =
    walk_next fuel buf p pos len alen e (omega arith) (omega arith)
    ∙ Chain→walk fuel buf p (len - 4 - stride p alen) (omega arith) (omega arith) c
