-- ===== src/Prelude/Attempt.antt =====
-- A call that may throw.
use mathlib.Core.Path.{◌≡◌, refl, ap}
use mathlib.Core.Logic.{◌⊎◌, inl, inr}

pub data Attempt {ℓ} (A : Type ℓ) : Type ℓ where
  threw : Attempt A
  returned : A → Attempt A

infixl 10 ◌>>=◌
abbrev pub ◌>>=◌ {ℓ κ} : {A : Type ℓ} {B : Type κ} → Attempt A → (A → Attempt B) → Attempt B
threw >>= f = threw
returned a >>= f = f a

pub Attempt-cases {ℓ} : {A : Type ℓ} (a : Attempt A) → (a ≡ threw) ⊎ ((v : A) × (a ≡ returned v))
Attempt-cases threw = inl refl
Attempt-cases (returned v) = inr (v, refl)

abbrev value_or {ℓ} : {A : Type ℓ} → A → Attempt A → A
value_or d threw = d
value_or d (returned v) = v

pub returned-injective {ℓ} : {A : Type ℓ} (a b : A) → returned a ≡ returned b → a ≡ b
returned-injective a b e = ap (value_or a) e
