-- ===== src/Base/Ensures.antt =====
-- What holds of the value of a run, if it has one; a rule for each form that the model's runs take.
use mathlib.Core.Path.{◌≡◌, refl}
use mathlib.Core.Bool.{Bool, true, false}
use mathlib.Core.Option.{Option, none, some}
use libnice.Base.Memory.{Access, ok, out_of_bounds, no_fuel, ◌>>=◌}

pub data Ensures {ℓ κ} {A : Type ℓ} (P : A → Type κ) : Access A → Type (ℓ ⊔ κ) where
  done : (a : A) → P a → Ensures P (ok a)
  faulted : Ensures P out_of_bounds
  exhausted : Ensures P no_fuel

module _ {ℓ κ} {A : Type ℓ} {P : A → Type κ} where
  pub ensures_ok : {a : A} → Ensures P (ok a) → P a
  ensures_ok (done a p) = p

  pub Ensures-bind {ι} :
      {B : Type ι} (m : Access B) {f : B → Access A}
      → ((b : B) → m ≡ ok b → Ensures P (f b))
      → Ensures P (m >>= f)
  Ensures-bind (ok b) h = h b refl
  Ensures-bind out_of_bounds h = faulted
  Ensures-bind no_fuel h = exhausted

  pub Ensures-bool :
      (b : Bool) {t e : Access A}
      → (b ≡ true → Ensures P t)
      → (b ≡ false → Ensures P e)
      → Ensures P (elim b [ true ↦ t | false ↦ e ])
  Ensures-bool true h k = h refl
  Ensures-bool false h k = k refl

  pub Ensures-option {ι} :
      {B : Type ι} (o : Option B) {n : Access A} {s : B → Access A}
      → (o ≡ none → Ensures P n)
      → ((b : B) → o ≡ some b → Ensures P (s b))
      → Ensures P (elim o [ none ↦ n | some b ↦ s b ])
  Ensures-option none h k = h refl
  Ensures-option (some b) h k = k b refl

pub Ensures-weaken {ℓ κ ι} :
    {A : Type ℓ} {P : A → Type κ} {Q : A → Type ι} {m : Access A}
    → ((a : A) → P a → Q a)
    → Ensures P m
    → Ensures Q m
Ensures-weaken f (done a p) = done a (f a p)
Ensures-weaken f faulted = faulted
Ensures-weaken f exhausted = exhausted

pub Ensures-chain {ℓ κ ι υ} :
    {A : Type ℓ} {P : A → Type κ} {B : Type ι} {Q : B → Type υ} (m : Access B) {f : B → Access A}
    → Ensures Q m
    → ((b : B) → Q b → Ensures P (f b))
    → Ensures P (m >>= f)
Ensures-chain _ (done b q) h = h b q
Ensures-chain _ faulted h = faulted
Ensures-chain _ exhausted h = exhausted
