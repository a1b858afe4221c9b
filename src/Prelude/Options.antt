-- ===== src/Prelude/Options.antt =====
-- Chains of optional values.
use mathlib.Core.Path.{◌≡◌, refl}
use mathlib.Core.Option.{Option, none, some}

infixl 5 ◌>>=◌
-- What follows is not reached where a value is missing.
abbrev pub ◌>>=◌ {ℓ κ} : {A : Type ℓ} {B : Type κ} → Option A → (A → Option B) → Option B
some a >>= f = f a
none >>= f = none

-- A property of the value, if there is one.
abbrev pub AllSome {ℓ κ} : {A : Type ℓ} → (A → Type κ) → Option A → Type κ
AllSome P none = Unit
AllSome P (some a) = P a

pub bind-AllSome {ℓ} :
    {A : Type ℓ} {B : Type ℓ} (P : B → Type 0) (m : Option A) (f : A → Option B)
    → ((a : A) → m ≡ some a → AllSome P (f a))
    → AllSome P (m >>= f)
bind-AllSome P none f h = tt
bind-AllSome P (some a) f h = h a refl
