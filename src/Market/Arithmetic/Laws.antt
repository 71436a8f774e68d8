-- ===== src/Market/Arithmetic/Laws.antt =====
-- What the whole-number helpers compute.
use hood_sentry.Prelude.{
  ℕ, zero, suc, ◌+◌, ◌-◌, ◌/◌, ◌%◌, ◌≤◌, ◌<◌, ◌≡◌, refl, sym, ap, ◌∙◌, subst, inl, inr, false,
  Option, none, some, List, [], ◌∷◌, arith, ltb, ◌==◌, Bool-cases, length, get_elem?,
}
use mathlib.Core.List.{Perm}
use mathlib.Core.List.Perm
use mathlib.Core.List.{foldr}
use mathlib.Core.List.{is_set}
use mathlib.Core.Option.{some-injective}
use native.Mathlib.Nat.{ℕ_set}
use hood_sentry.Prelude.{sort_by, insert_by, sort_by-All, length-sort_by, All, pow_pos}
use hood_sentry.Prelude.Int.{ℤ}
use native.Mathlib.Nat.{mul-div_left}
use hood_sentry.Market.Arithmetic.{
  pow10, difference_bps, absolute_difference_bps, scaled_up, scaled_down, scale_integer, median_at,
  median,
}

-- The difference of two values does not depend on which comes first.
pub absolute_difference_bps_comm :
    (a b : ℤ) → absolute_difference_bps a b ≡ absolute_difference_bps b a
unfolding absolute_difference_bps difference_bps
absolute_difference_bps_comm a b = ground arith

scaled_back :
    (v w : ℕ) (p : Option ℕ)
    → ((q : ℕ) → p ≡ some q → 0 < q)
    → scaled_up v p ≡ some w
    → scaled_down w p ≡ some v
scaled_back v w none h e = cc
scaled_back v w (some q) h e = ground (arith, mul-div_left v (h q refl))

pow10-pos : (n q : ℕ) → pow10 n ≡ some q → 0 < q
unfolding pow10
pow10-pos n q e = ground (arith, pow_pos 10 n (omega arith))

-- A value that was scaled to as many decimals or more is got back by scaling to the old ones.
pub scale_integer-scale_integer :
    (v w few many : ℕ)
    → few ≤ many
    → scale_integer v few many ≡ some w
    → scale_integer w many few ≡ some v
unfolding scale_integer
scale_integer-scale_integer v w few many le e =
    ground (arith, scaled_back v w (pow10 (many - few)) (pow10-pos (many - few)))

insert_comm :
    (x y : ℕ) (zs : List ℕ)
    → insert_by ltb x (insert_by ltb y zs) ≡ insert_by ltb y (insert_by ltb x zs)
unfolding insert_by
insert_comm x y [] = ground arith
insert_comm x y (z ∷ zs) = ground (arith, insert_comm x y zs)

sort-foldr : (xs : List ℕ) → sort_by ltb xs ≡ foldr (insert_by ltb) [] xs
unfolding sort_by
sort-foldr [] = refl
sort-foldr (x ∷ xs) = ap (insert_by ltb x) (sort-foldr xs)

sort-perm : (xs ys : List ℕ) → Perm xs ys → sort_by ltb xs ≡ sort_by ltb ys
sort-perm xs ys p =
    sort-foldr xs
    ∙ Perm.foldr-eq (is_set ℕ_set) (insert_by ltb) insert_comm p []
    ∙ sym (sort-foldr ys)

-- The median of some values does not depend on their order.
pub median-perm : (xs ys : List ℕ) → Perm xs ys → median xs ≡ median ys
unfolding median
median-perm xs ys p =
    let same : sort_by ltb xs ≡ sort_by ltb ys = sort-perm xs ys p in
    let long : length xs ≡ length ys =
      sym (length-sort_by ltb xs) ∙ ap length same ∙ length-sort_by ltb ys in
    rw (same, long) refl

get_elem?-All : (P : ℕ → Type 0) (xs : List ℕ) (i v : ℕ) → All P xs → get_elem? xs i ≡ some v → P v
get_elem?-All P [] i v h e = cc
get_elem?-All P (x ∷ xs) zero v (p, h) e = subst P (some-injective _ _ e) p
get_elem?-All P (x ∷ xs) (suc i) v (p, h) e = get_elem?-All P xs i v h e

get_elem?-in : (xs : List ℕ) (i : ℕ) → i < length xs → (v : ℕ) × (get_elem? xs i ≡ some v)
get_elem?-in [] i h = absurd (omega arith)
get_elem?-in (x ∷ xs) zero h = (x, refl)
get_elem?-in (x ∷ xs) (suc i) h = get_elem?-in xs i (omega arith)

abbrev pub Between : ℕ → ℕ → ℕ → Type 0
Between lo hi v = (lo ≤ v) × (v ≤ hi)

median_at-within :
    (lo hi : ℕ) (xs : List ℕ)
    → All (Between lo hi) xs
    → 0 < length xs
    → (m : ℕ) × (median_at xs (length xs / 2) (get_elem? xs (length xs / 2)) ≡ some m)
      × Between lo hi m
median_at-within lo hi xs h k =
    let half = length xs / 2 in
    let (v, e) = get_elem?-in xs half (omega arith) in
    let (l, h') = get_elem?-All (Between lo hi) xs half v h e in
    rw e (elim (Bool-cases (length xs % 2 == 1)) [
      | inl odd ↦ rw odd (v, refl, (l, h'))
      | inr even ↦ rw even (
          let (u, d) = get_elem?-in xs (half - 1) (omega arith) in
          let (l', h'') = get_elem?-All (Between lo hi) xs (half - 1) u h d in
          rw d ((u + v) / 2, refl, (omega arith, omega arith)))
    ])

-- There is a median of any values at all, and it lies between whatever bounds all of them have.
pub median-within :
    (lo hi : ℕ) (xs : List ℕ)
    → All (Between lo hi) xs
    → 0 < length xs
    → (m : ℕ) × (median xs ≡ some m) × Between lo hi m
unfolding median
median-within lo hi xs h k =
    let sorted : All (Between lo hi) (sort_by ltb xs) = sort_by-All ltb (Between lo hi) xs h in
    let some_item : (length xs == 0) ≡ false = ground arith in
    rw some_item
      (median_at-within lo hi (sort_by ltb xs) sorted (omega (arith, length-sort_by ltb xs)))
