-- ===== src/Prelude/Items.antt =====
-- A predicate that holds of every item of a list, and the items themselves.

use mathlib.Core.Path.{refl, subst, sym}
use mathlib.Core.List.{List, [], ◌∷◌, ◌++◌, Memᴰ}

abbrev pub All {ℓ κ} : {A : Type ℓ} → (A → Type κ) → List A → Type κ
All P [] = Unit
All P (x ∷ xs) = P x × All P xs

pub All-mono {ℓ κ μ} :
    {A : Type ℓ} (P : A → Type κ) (Q : A → Type μ) (xs : List A)
    → ((a : A) → P a → Q a)
    → All P xs
    → All Q xs
All-mono P Q [] f h = tt
All-mono P Q (x ∷ xs) f (p, h) = (f x p, All-mono P Q xs f h)

pub All-Memᴰ {ℓ κ} :
    {A : Type ℓ} (P : A → Type κ) (xs : List A) → ((a : A) → Memᴰ a xs → P a) → All P xs
All-Memᴰ P [] f = tt
All-Memᴰ P (x ∷ xs) f = (f x (Memᴰ.head refl), All-Memᴰ P xs (λ a m. f a (Memᴰ.tail m)))

pub Memᴰ-All {ℓ κ} :
    {A : Type ℓ} (P : A → Type κ) (xs : List A) {a : A} → All P xs → Memᴰ a xs → P a
Memᴰ-All P [] h m = elim m [ ]
Memᴰ-All P (x ∷ xs) (p, h) (Memᴰ.head e) = subst P (sym e) p
Memᴰ-All P (x ∷ xs) (p, h) (Memᴰ.tail m) = Memᴰ-All P xs h m

pub All-append {ℓ κ} :
    {A : Type ℓ} (P : A → Type κ) (xs ys : List A) → All P xs → All P ys → All P (xs ++ ys)
All-append P [] ys h k = k
All-append P (x ∷ xs) ys (p, h) k = (p, All-append P xs ys h k)
