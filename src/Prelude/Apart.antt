-- ===== src/Prelude/Apart.antt =====
-- Sorting items that no two of tie: the order they come in makes no difference.

use mathlib.Core.Path.{◌≡◌, refl, sym, ◌∙◌, ap, subst}
use mathlib.Core.Logic.{inl, inr}
use mathlib.Core.Bool.{Bool, true, false, ◌||◌}
use mathlib.Core.List.{List, [], ◌∷◌, Permᴰ}
use native.Mathlib.Omega.{arith}
use hood_sentry.Prelude.Tests.{Bool-cases}
use hood_sentry.Prelude.Items.{All}
use hood_sentry.Prelude.Sort.{IsOrder, insert_by, sort_by}

All-Permᴰ {ℓ κ} : {A : Type ℓ} (P : A → Type κ) {xs ys : List A} → Permᴰ xs ys → All P xs → All P ys
All-Permᴰ P Permᴰ.nil h = tt
All-Permᴰ P (Permᴰ.cons e d) (p, h) = (subst P e p, All-Permᴰ P d h)
All-Permᴰ P (Permᴰ.swap e f) (p, (q, h)) = (subst P f q, (subst P e p, h))
All-Permᴰ P (Permᴰ.trans d e) h = All-Permᴰ P e (All-Permᴰ P d h)

module _ {ℓ} {A : Type ℓ} (before : A → A → Bool) where
  abbrev pub differ : A → A → Bool
  differ a b = before a b || before b a

  -- No two items tie.
  abbrev pub Apart : List A → Type ℓ
  Apart [] = Unit
  Apart (x ∷ xs) = All (λ y. differ x y ≡ true) xs × Apart xs

  differ_sym : (a b : A) → differ a b ≡ true → differ b a ≡ true
  differ_sym a b h = ground (arith, h)

  Apart-Permᴰ : {xs ys : List A} → Permᴰ xs ys → Apart xs → Apart ys
  Apart-Permᴰ Permᴰ.nil h = tt
  Apart-Permᴰ (Permᴰ.cons {l₂ = l₂} e d) (p, h) =
      (subst (λ x. All (λ y. differ x y ≡ true) l₂) e (All-Permᴰ _ d p), Apart-Permᴰ d h)
  Apart-Permᴰ (Permᴰ.swap {a} {b} {a' = c} {b' = d} {l} e f) ((p, q), (r, h)) =
      subst (λ x. Apart (x ∷ d ∷ l)) f
        (subst (λ y. Apart (b ∷ y ∷ l)) e ((differ_sym a b p, r), (q, h)))
  Apart-Permᴰ (Permᴰ.trans d e) h = Apart-Permᴰ e (Apart-Permᴰ d h)

  insert_over :
      (x y : A) (ys : List A)
      → before y x ≡ true
      → insert_by before x (y ∷ ys) ≡ y ∷ insert_by before x ys
  unfolding insert_by
  insert_over x y ys e = rw e refl

  insert_front :
      (x y : A) (ys : List A) → before y x ≡ false → insert_by before x (y ∷ ys) ≡ x ∷ y ∷ ys
  unfolding insert_by
  insert_front x y ys e = rw e refl

  insert_by_swap :
      IsOrder before
      → (x y : A) (zs : List A) → before x y ≡ true
      → insert_by before x (insert_by before y zs) ≡ insert_by before y (insert_by before x zs)
  unfolding insert_by
  insert_by_swap o x y [] h = rw (o.asym x y h, h) refl
  insert_by_swap o x y (z ∷ zs) h = elim (Bool-cases (before z x)) [
    | inl p ↦ elim (Bool-cases (before z y)) [
      | inl q ↦
          ap (insert_by before x) (insert_over y z zs q)
          ∙ insert_over x z (insert_by before y zs) p
          ∙ ap (λ r. z ∷ r) (insert_by_swap o x y zs h)
          ∙ sym (
              ap (insert_by before y) (insert_over x z zs p)
              ∙ insert_over y z (insert_by before x zs) q)
      | inr q ↦ absurd (let r : true ≡ false = sym p ∙ o.trans x y z (o.asym x y h) q in cc)
    ]
    | inr p ↦ elim (Bool-cases (before z y)) [
      | inl q ↦
          ap (insert_by before x) (insert_over y z zs q)
          ∙ insert_front x z (insert_by before y zs) p
          ∙ sym (after_front z zs p (ap (λ r. x ∷ r) (insert_over y z zs q)))
      | inr q ↦
          ap (insert_by before x) (insert_front y z zs q)
          ∙ insert_front x y (z ∷ zs) (o.asym x y h)
          ∙ sym (after_front z zs p (ap (λ r. x ∷ r) (insert_front y z zs q)))
    ]
  ]
    where
      after_front :
          (z : A) (zs : List A) {rs : List A}
          → before z x ≡ false
          → x ∷ insert_by before y (z ∷ zs) ≡ rs
          → insert_by before y (insert_by before x (z ∷ zs)) ≡ rs
      after_front z zs p e =
          ap (insert_by before y) (insert_front x z zs p) ∙ insert_over y x (z ∷ zs) h ∙ e

  insert_by_comm :
      IsOrder before
      → (x y : A) (zs : List A) → differ x y ≡ true
      → insert_by before x (insert_by before y zs) ≡ insert_by before y (insert_by before x zs)
  insert_by_comm o x y zs h = elim (Bool-cases (before x y)) [
    | inl p ↦ insert_by_swap o x y zs p
    | inr p ↦ sym (insert_by_swap o y x zs (ground (arith, h, p)))
  ]

  pub sort_by-Permᴰ :
      IsOrder before
      → {xs ys : List A} → Permᴰ xs ys
      → Apart xs
      → sort_by before xs ≡ sort_by before ys
  unfolding sort_by
  sort_by-Permᴰ o Permᴰ.nil h = refl
  sort_by-Permᴰ o (Permᴰ.cons {l₂ = l₂} e d) (p, h) =
      ap (insert_by before _) (sort_by-Permᴰ o d h)
      ∙ ap (λ x. insert_by before x (sort_by before l₂)) e
  sort_by-Permᴰ o (Permᴰ.swap {a} {b} {a' = c} {b' = d} {l} e f) ((p, q), (r, h)) =
      insert_by_comm o a b (sort_by before l) p
      ∙ ap (λ x. insert_by before x (insert_by before a (sort_by before l))) f
      ∙ ap (λ y. insert_by before c (insert_by before y (sort_by before l))) e
  sort_by-Permᴰ o (Permᴰ.trans d e) h = sort_by-Permᴰ o d h ∙ sort_by-Permᴰ o e (Apart-Permᴰ d h)
