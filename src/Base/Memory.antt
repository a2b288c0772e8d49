-- ===== src/Base/Memory.antt =====
-- Memory accesses: a C read or write through a pointer into a buffer. A run that leaves the
-- buffer, which C leaves undefined, ends in `out_of_bounds`.
use Prim.Native.Nat.{ℕ, zero, suc, ◌+◌}
use mathlib.Core.Path.{◌≡◌, refl}
use mathlib.Core.List.{List, [], ◌∷◌}

-- `out_of_bounds` is a fault; `no_fuel` is no C outcome: a loop of the model ran out of rounds.
pub data Access {ℓ} (A : Type ℓ) : Type ℓ where
  ok : A → Access A
  out_of_bounds no_fuel : Access A

infixl 5 ◌>>=◌ ◌>>◌
abbrev pub ◌>>=◌ {ℓ κ} : {A : Type ℓ} {B : Type κ} → Access A → (A → Access B) → Access B
ok a >>= f = f a
out_of_bounds >>= f = out_of_bounds
no_fuel >>= f = no_fuel

abbrev pub ◌>>◌ {ℓ κ} : {A : Type ℓ} {B : Type κ} → Access A → Access B → Access B
m >> k = m >>= λ _. k

-- `p[i]`
unfoldable pub read : List ℕ → ℕ → Access ℕ
read [] i = out_of_bounds
read (b ∷ bs) zero = ok b
read (b ∷ bs) (suc i) = read bs i

-- `p[i] = v`
unfoldable pub write : List ℕ → ℕ → ℕ → Access (List ℕ)
write [] i v = out_of_bounds
write (b ∷ bs) zero v = ok (v ∷ bs)
write (b ∷ bs) (suc i) v = do bs' ← write bs i v; ok (b ∷ bs')

-- `memcpy (p + i, bytes, n)` and, byte after byte, every store of a fixed pattern.
unfoldable pub write_bytes : List ℕ → ℕ → List ℕ → Access (List ℕ)
write_bytes buf i [] = ok buf
write_bytes buf i (b ∷ bs) = do buf' ← write buf i b; write_bytes buf' (i + 1) bs

-- The `n` bytes from `p[i]` on.
unfoldable pub read_bytes : List ℕ → ℕ → ℕ → Access (List ℕ)
read_bytes buf i zero = ok []
read_bytes buf i (suc n) = do b ← read buf i; bs ← read_bytes buf (i + 1) n; ok (b ∷ bs)

-- Inversion of a bind that succeeds.
pub >>=-eq-ok {ℓ κ} :
    {A : Type ℓ} {B : Type κ} (first : Access A) (rest : A → Access B) {result : B}
    → (first >>= rest) ≡ ok result
    → (x : A) × (first ≡ ok x) × (rest x ≡ ok result)
>>=-eq-ok out_of_bounds rest e = cc
>>=-eq-ok no_fuel rest e = cc
>>=-eq-ok (ok x) rest e = (x, refl, e)
