-- ===== src/Stun/Wire/Kind.antt =====
-- The class and the method in the first word of a message.
use libnice.Base.{
  ℕ, zero, suc, ◌<◌, ◌≡◌, refl, arith, Bool, true, false, ◌&&◌, ◌==◌, if◌then◌else◌, List, [], ◌∷◌,
}
use libnice.Stun.Wire.{word_of, type_bytes, method_of, class_of}

-- The word that the two bytes of `stun_set_type` make up.
abbrev pub pair_word : List ℕ → ℕ
pair_word [] = 0
pair_word (a ∷ []) = 0
pair_word (a ∷ b ∷ _) = word_of a b

abbrev pub type_word : ℕ → ℕ → ℕ
type_word c m = pair_word (type_bytes c m)

-- class 3 with method 5, the "connect" error response
abbrev pub is_connect_error : ℕ → ℕ → Bool
is_connect_error c m = (c == 3) && (m == 5)

reads_back : ℕ → ℕ → Bool
unfolding type_bytes method_of class_of
reads_back c m =
    if is_connect_error c m
    then (class_of (type_word c m) == 1) && (method_of (type_word c m) == 7)
    else (class_of (type_word c m) == c) && (method_of (type_word c m) == m)

all_methods : ℕ → ℕ → Bool
unfolding reads_back
all_methods c zero = true
all_methods c (suc n) = elim (reads_back c n) [ true ↦ all_methods c n | false ↦ false ]

all_methods_sound : (c n m : ℕ) → all_methods c n ≡ true → m < n → reads_back c m ≡ true
unfolding all_methods
all_methods_sound c zero m h lt = absurd (omega arith)
all_methods_sound c (suc n) m h lt = ground (arith, all_methods_sound c n m)

tables : (c : ℕ) → c < 4 → all_methods c 4096 ≡ true
unfolding all_methods
tables zero h = refl
tables (suc zero) h = refl
tables (suc (suc zero)) h = refl
tables (suc (suc (suc zero))) h = refl
tables (suc (suc (suc (suc c)))) h = absurd (omega arith)

reads_back_all : (c m : ℕ) → c < 4 → m < 4096 → reads_back c m ≡ true
reads_back_all c m p q = all_methods_sound c 4096 m (tables c p) q

-- For every class below 4 and method below 4096, the word that `stun_set_type` stores gives that
-- class and that method back, but for class 3 with method 5, which reads as class 1 with method 7.
pub type_word-round_trip :
    (c m : ℕ)
    → c < 4
    → m < 4096
    → (class_of (type_word c m) ≡ (if is_connect_error c m then 1 else c))
      × (method_of (type_word c m) ≡ (if is_connect_error c m then 7 else m))
type_word-round_trip c m p q = let r = reads_back_all c m p q in unfold reads_back in ground arith
