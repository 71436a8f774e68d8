-- ===== src/Prelude/Sort.antt =====
-- `Array.prototype.sort` by a comparison: a stable sort. `before a b` says that the comparison of `a`
-- with `b` is negative. A stable sort has one result for each consistent comparison, so insertion
-- sort serves.
use Prim.Native.Nat.{ℕ, suc}
use mathlib.Core.Path.{◌≡◌, refl, ◌∙◌, ap}
use mathlib.Core.Logic.{inl, inr}
use mathlib.Core.Bool.{Bool, true, false}
use mathlib.Core.List.{List, [], ◌∷◌, Memᴰ, Perm}
use mathlib.Core.List.Perm
use native.Mathlib.Omega.{arith}
use hood_sentry.Prelude.Tests.{ltb, if◌then◌else◌, Bool-cases}
use hood_sentry.Prelude.Lists.{length}
use hood_sentry.Prelude.Items.{All, All-mono}

-- The comparison is consistent: its "not after" is transitive, and no two items are each before the
-- other.
pub record IsOrder {ℓ} {A : Type ℓ} (before : A → A → Bool) : Type ℓ where
  pub asym : (a b : A) → before a b ≡ true → before b a ≡ false
  pub trans : (a b c : A) → before b a ≡ false → before c b ≡ false → before c a ≡ false

-- A comparison whose ties a second one breaks.
unfoldable pub then_by {ℓ} : {A : Type ℓ} → (A → A → Bool) → (A → A → Bool) → A → A → Bool
then_by f g a b = if f a b then true else (if f b a then false else g a b)

pub then_by-IsOrder {ℓ} :
    {A : Type ℓ} (f g : A → A → Bool) → IsOrder f → IsOrder g → IsOrder (then_by f g)
unfolding then_by
then_by-IsOrder f g p q = record {
  asym = λ a b h. ground (arith, p.asym a b, p.asym b a, q.asym a b);
  trans = λ a b c h k. ground (
    arith,
    p.trans a b c,
    p.trans b c a,
    p.trans c a b,
    p.trans b a c,
    p.trans a c b,
    p.asym a b,
    p.asym b c,
    p.asym a c,
    p.asym b a,
    p.asym c b,
    p.asym c a,
    q.trans a b c,
  );
}

-- Smaller keys come first.
unfoldable pub by_key {ℓ} : {A : Type ℓ} → (A → ℕ) → A → A → Bool
by_key key a b = ltb (key a) (key b)

pub by_key-IsOrder {ℓ} : {A : Type ℓ} (key : A → ℕ) → IsOrder (by_key key)
unfolding by_key
by_key-IsOrder key = record { asym = λ a b h. ground arith; trans = λ a b c h k. ground arith }

module _ {ℓ} {A : Type ℓ} (before : A → A → Bool) where
  unfoldable pub insert_by : A → List A → List A
  insert_by x [] = x ∷ []
  insert_by x (y ∷ ys) = if before y x then y ∷ insert_by x ys else x ∷ y ∷ ys

  unfoldable pub sort_by : List A → List A
  unfolding insert_by
  sort_by [] = []
  sort_by (x ∷ xs) = insert_by x (sort_by xs)

  -- Each item is not after any later one.
  abbrev pub Sorted : List A → Type ℓ
  Sorted [] = Unit
  Sorted (x ∷ xs) = All (λ y. before y x ≡ false) xs × Sorted xs

  insert_by-All {κ} :
      (P : A → Type κ) (x : A) (ys : List A) → P x → All P ys → All P (insert_by x ys)
  unfolding insert_by
  insert_by-All P x [] p h = (p, tt)
  insert_by-All P x (y ∷ ys) p (q, h) = elim (Bool-cases (before y x)) [
    | inl e ↦ rw e (q, insert_by-All P x ys p h)
    | inr e ↦ rw e (p, (q, h))
  ]

  pub sort_by-All {κ} : (P : A → Type κ) (xs : List A) → All P xs → All P (sort_by xs)
  unfolding sort_by
  sort_by-All P [] h = tt
  sort_by-All P (x ∷ xs) (p, h) = insert_by-All P x (sort_by xs) p (sort_by-All P xs h)

  All-insert_by {κ} :
      (P : A → Type κ) (x : A) (ys : List A) → All P (insert_by x ys) → P x × All P ys
  unfolding insert_by
  All-insert_by P x [] h = h
  All-insert_by P x (y ∷ ys) h = elim (Bool-cases (before y x)) [
    | inl e ↦ split (All-insert_by P x ys) (rw e at h)
    | inr e ↦ rw e at h
  ]
    where
      split :
          (All P (insert_by x ys) → P x × All P ys)
          → All P (y ∷ insert_by x ys)
          → P x × All P (y ∷ ys)
      split f (q, k) = let (p, r) = f k in (p, (q, r))

  pub All-sort_by {κ} : (P : A → Type κ) (xs : List A) → All P (sort_by xs) → All P xs
  unfolding sort_by
  All-sort_by P [] h = tt
  All-sort_by P (x ∷ xs) h =
      let (p, r) = All-insert_by P x (sort_by xs) h in (p, All-sort_by P xs r)

  insert_by-Sorted : IsOrder before → (x : A) (ys : List A) → Sorted ys → Sorted (insert_by x ys)
  unfolding insert_by
  insert_by-Sorted o x [] h = (tt, tt)
  insert_by-Sorted o x (y ∷ ys) (a, h) = elim (Bool-cases (before y x)) [
    | inl e ↦
        rw e
          (insert_by-All (λ z. before z y ≡ false) x ys (o.asym y x e) a, insert_by-Sorted o x ys h)
    | inr e ↦ rw e ((e, All-mono _ _ ys (λ z k. o.trans x y z e k) a), (a, h))
  ]

  pub sort_by-Sorted : IsOrder before → (xs : List A) → Sorted (sort_by xs)
  unfolding sort_by
  sort_by-Sorted o [] = tt
  sort_by-Sorted o (x ∷ xs) = insert_by-Sorted o x (sort_by xs) (sort_by-Sorted o xs)

  length-insert_by : (x : A) (ys : List A) → length (insert_by x ys) ≡ suc (length ys)
  unfolding insert_by
  length-insert_by x [] = refl
  length-insert_by x (y ∷ ys) = ground (arith, length-insert_by x ys)

  pub length-sort_by : (xs : List A) → length (sort_by xs) ≡ length xs
  unfolding sort_by
  length-sort_by [] = refl
  length-sort_by (x ∷ xs) = length-insert_by x (sort_by xs) ∙ ap suc (length-sort_by xs)

  insert_by-perm : (x : A) (ys : List A) → Perm (insert_by x ys) (x ∷ ys)
  unfolding insert_by
  insert_by-perm x [] = Perm.refl _
  insert_by-perm x (y ∷ ys) = elim (Bool-cases (before y x)) [
    | inl e ↦ rw e (Perm.trans (Perm.cons y (insert_by-perm x ys)) (Perm.swap x y ys))
    | inr e ↦ rw e (Perm.refl _)
  ]

  pub sort_by-perm : (xs : List A) → Perm (sort_by xs) xs
  unfolding sort_by
  sort_by-perm [] = Perm.refl _
  sort_by-perm (x ∷ xs) = Perm.trans (insert_by-perm x (sort_by xs)) (Perm.cons x (sort_by-perm xs))

  insert_by-Memᴰ : (x : A) (ys : List A) {a : A} → Memᴰ a (insert_by x ys) → Memᴰ a (x ∷ ys)
  unfolding insert_by
  insert_by-Memᴰ x [] m = m
  insert_by-Memᴰ x (y ∷ ys) {a} m = elim (Bool-cases (before y x)) [
    | inl e ↦ swap (insert_by-Memᴰ x ys) (rw e at m)
    | inr e ↦ rw e at m
  ]
    where
      swap :
          (Memᴰ a (insert_by x ys) → Memᴰ a (x ∷ ys))
          → Memᴰ a (y ∷ insert_by x ys)
          → Memᴰ a (x ∷ y ∷ ys)
      swap f (Memᴰ.head p) = Memᴰ.tail (Memᴰ.head p)
      swap f (Memᴰ.tail k) = elim (f k) [
        | Memᴰ.head p ↦ Memᴰ.head p
        | Memᴰ.tail j ↦ Memᴰ.tail (Memᴰ.tail j)
      ]

  pub sort_by-Memᴰ : (xs : List A) {a : A} → Memᴰ a (sort_by xs) → Memᴰ a xs
  unfolding sort_by
  sort_by-Memᴰ [] m = m
  sort_by-Memᴰ (x ∷ xs) {a} m = go (sort_by-Memᴰ xs) (insert_by-Memᴰ x (sort_by xs) m)
    where
      go : (Memᴰ a (sort_by xs) → Memᴰ a xs) → Memᴰ a (x ∷ sort_by xs) → Memᴰ a (x ∷ xs)
      go f (Memᴰ.head p) = Memᴰ.head p
      go f (Memᴰ.tail k) = Memᴰ.tail (f k)
