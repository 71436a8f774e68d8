-- ===== src/Discovery/Feeds/Ranks.antt =====
-- The ranked feed: the eligible items in the order of the feed, as a client reads their pages.
use hood_sentry.Prelude.{
  ℕ, suc, ◌/◌, ◌^◌, ◌≤◌, ◌<◌, ◌≡◌, refl, sym, subst, ◌⊎◌, inl, inr, Bool, true, false, none, List,
  [], ◌∷◌, arith, Bool-cases, length, IsOrder, then_by, sort_by, Sorted, sort_by-Sorted,
  sort_by-perm, length-sort_by, All, All-mono,
}
use mathlib.Core.List.{Perm, Permᴰ}
use mathlib.Core.List.Permᴰ
use hood_sentry.Prelude.Apart.{Apart, sort_by-Permᴰ}
use hood_sentry.Discovery.Pagination.{Codec, whole}
use hood_sentry.Discovery.Pagination.Pages.{ReadsBack, follow, follow_all, flat}
use hood_sentry.Prelude.Int.{pos}
use hood_sentry.Rpc.Health.{filter}
use hood_sentry.Discovery.Feeds.{
  DiscoveryFeed, DiscoveryItem, is_eligible_for_feed, tie_break, feed_result, compare_for_feed,
  rank_feed,
}
use hood_sentry.Discovery.Feeds.Orders.{compare_for_feed-IsOrder}

filter_swap {ℓ} :
    {A : Type ℓ} (p : A → Bool) (a b : A) (l : List A)
    → ((p a ≡ true) ⊎ (p a ≡ false))
    → ((p b ≡ true) ⊎ (p b ≡ false))
    → Permᴰ (filter p (a ∷ b ∷ l)) (filter p (b ∷ a ∷ l))
filter_swap p a b l (inl h) (inl k) = rw (h, k) (Permᴰ.swap refl refl)
filter_swap p a b l (inl h) (inr k) = rw (h, k) (Permᴰ.refl _)
filter_swap p a b l (inr h) (inl k) = rw (h, k) (Permᴰ.refl _)
filter_swap p a b l (inr h) (inr k) = rw (h, k) (Permᴰ.refl _)

filter_cons {ℓ} :
    {A : Type ℓ} (p : A → Bool) (a : A) (xs ys : List A)
    → ((p a ≡ true) ⊎ (p a ≡ false))
    → Permᴰ (filter p xs) (filter p ys)
    → Permᴰ (filter p (a ∷ xs)) (filter p (a ∷ ys))
filter_cons p a xs ys (inl h) d = rw h (Permᴰ.cons refl d)
filter_cons p a xs ys (inr h) d = rw h d

filter-Permᴰ {ℓ} :
    {A : Type ℓ} (p : A → Bool) {xs ys : List A} → Permᴰ xs ys → Permᴰ (filter p xs) (filter p ys)
filter-Permᴰ p Permᴰ.nil = Permᴰ.nil
filter-Permᴰ p (Permᴰ.cons {a} {l₁} {l₂} e d) =
    subst (λ y. Permᴰ (filter p (a ∷ l₁)) (filter p (y ∷ l₂))) e
      (filter_cons p a _ _ (Bool-cases (p a)) (filter-Permᴰ p d))
filter-Permᴰ p (Permᴰ.swap {a} {b} {a' = c} {b' = d} {l} e f) =
    subst (λ y. Permᴰ (filter p (a ∷ b ∷ l)) (filter p (y ∷ d ∷ l))) f
      (subst (λ y. Permᴰ (filter p (a ∷ b ∷ l)) (filter p (b ∷ y ∷ l))) e
        (filter_swap p a b l (Bool-cases (p a)) (Bool-cases (p b))))
filter-Permᴰ p (Permᴰ.trans d e) = Permᴰ.trans (filter-Permᴰ p d) (filter-Permᴰ p e)

All-filter {ℓ κ} :
    {A : Type ℓ} (P : A → Type κ) (p : A → Bool) (xs : List A) → All P xs → All P (filter p xs)
All-filter P p [] h = tt
All-filter P p (x ∷ xs) (q, h) = elim (Bool-cases (p x)) [
  | inl e ↦ rw e (q, All-filter P p xs h)
  | inr e ↦ rw e (All-filter P p xs h)
]

Apart-filter {ℓ} :
    {A : Type ℓ} (before : A → A → Bool) (p : A → Bool) (xs : List A)
    → Apart before xs
    → Apart before (filter p xs)
Apart-filter before p [] h = tt
Apart-filter before p (x ∷ xs) (q, h) = elim (Bool-cases (p x)) [
  | inl e ↦ rw e (All-filter _ p xs q, Apart-filter before p xs h)
  | inr e ↦ rw e (Apart-filter before p xs h)
]

Apart-then_by {ℓ} :
    {A : Type ℓ} (f g : A → A → Bool) (xs : List A) → Apart g xs → Apart (then_by f g) xs
unfolding then_by
Apart-then_by f g [] h = tt
Apart-then_by f g (x ∷ xs) (q, h) =
    (All-mono _ _ xs (λ y k. ground (arith, k)) q, Apart-then_by f g xs h)

length-filter {ℓ} : {A : Type ℓ} (p : A → Bool) (xs : List A) → length (filter p xs) ≤ length xs
length-filter p [] = omega arith
length-filter p (x ∷ xs) = ground (arith, length-filter p xs)

-- A ranked feed does not depend on the order in which its items are listed, if no two of them have
-- addresses that compare as the same.
pub rank_feed-Permᴰ :
    (locale_compare : List ℕ → List ℕ → Bool) (feed : DiscoveryFeed) {xs ys : List DiscoveryItem}
    → IsOrder locale_compare
    → Permᴰ xs ys
    → Apart (tie_break locale_compare) xs
    → rank_feed locale_compare feed xs ≡ rank_feed locale_compare feed ys
unfolding rank_feed compare_for_feed
rank_feed-Permᴰ locale_compare feed {xs} o d h =
    sort_by-Permᴰ _ (compare_for_feed-IsOrder locale_compare o feed) (filter-Permᴰ _ d) (
      Apart-filter (compare_for_feed locale_compare feed) _ xs
        (Apart-then_by (feed_result locale_compare feed) (tie_break locale_compare) xs h))

-- A client that follows the pages of a ranked feed reads the eligible items, each once, and none of
-- them after one that the comparison of the feed puts behind it. The limit is from 1 to 100, the
-- fingerprint is not empty, the items stay as they are and the text of a cursor reads back as it was
-- written.
pub rank_feed_pages :
    {Text : Type 0} (locale_compare : List ℕ → List ℕ → Bool) (feed : DiscoveryFeed)
    (items : List DiscoveryItem) (c : Codec Text) (n x : ℕ) (fs : List ℕ)
    → IsOrder locale_compare
    → 1 ≤ n
    → n ≤ 100
    → ReadsBack c (x ∷ fs)
    → length items < 2 ^ 32
    → (ps : List (List DiscoveryItem)) × (follow
          (suc (length (rank_feed locale_compare feed items) / n))
          c
          (rank_feed locale_compare feed items)
          (whole (pos n))
          none
          (x ∷ fs)
        ≡ inr ps)
      × Sorted (compare_for_feed locale_compare feed) (flat ps)
      × Perm (flat ps) (filter (λ i. is_eligible_for_feed i feed) items)
unfolding rank_feed
rank_feed_pages locale_compare feed items c n x fs o p q back long =
    let before = compare_for_feed locale_compare feed in
    let eligible = filter (λ i. is_eligible_for_feed i feed) items in
    let short : length (sort_by before eligible) < 2 ^ 32 = omega (
      arith,
      length-sort_by before eligible,
      length-filter (λ i. is_eligible_for_feed i feed) items,
      long,
    ) in
    let (ps, r, e) = follow_all c (sort_by before eligible) n x fs p q back short in
    (
      ps,
      r,
      subst (Sorted before) (sym e)
          (sort_by-Sorted before (compare_for_feed-IsOrder locale_compare o feed) eligible),
      subst (λ l. Perm l eligible) (sym e) (sort_by-perm before eligible),
    )
