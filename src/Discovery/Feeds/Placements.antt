-- ===== src/Discovery/Feeds/Placements.antt =====
-- What the sponsored placements of a feed show.
use hood_sentry.Prelude.{
  ℕ, ◌≡◌, refl, sym, ap, ◌∙◌, subst, inl, inr, Bool, true, false, Option, none, some, List, [], ◌∷◌,
  if◌then◌else◌, Bool-cases, Option-cases, sort_by-All, All, All-append, All-Memᴰ,
}
use mathlib.Core.List.{Memᴰ}
use hood_sentry.Rpc.Health.{filter}
use hood_sentry.Discovery.Feeds.{DiscoveryFeed, DiscoveryItem}
use hood_sentry.Discovery.Feeds.Sponsored.{
  SponsoredPlacement, SponsoredDiscoveryItem, is_shown, has_key, item_of, shown, entries,
  compare_placements, rank_sponsored,
}

filter-All {ℓ κ} :
    {A : Type ℓ} (P : A → Type κ) (p : A → Bool) (xs : List A)
    → All P xs
    → All (λ x. (p x ≡ true) × P x) (filter p xs)
filter-All P p [] h = tt
filter-All P p (x ∷ xs) (q, h) = elim (Bool-cases (p x)) [
  | inl e ↦ rw e ((e, q), filter-All P p xs h)
  | inr e ↦ rw e (filter-All P p xs h)
]

some_injective {ℓ} : {A : Type ℓ} (a b : A) → some a ≡ some b → a ≡ b
some_injective a b e = ap (λ o. elim o [ none ↦ a | some x ↦ x ]) e

item_of-Memᴰ :
    (p : SponsoredPlacement) (items : List DiscoveryItem) (i : DiscoveryItem)
    → item_of p items ≡ some i
    → (has_key p i ≡ true) × Memᴰ i items
unfolding item_of
item_of-Memᴰ p [] i e = absurd (cc)
item_of-Memᴰ p (j ∷ js) i e = elim (Option-cases (item_of p js)) [
  | inl none_left ↦ elim (Bool-cases (has_key p j)) [
    | inl k ↦
        let same : j ≡ i = some_injective j i (rw (item_of, none_left, k) at e) in
        (subst (λ x. has_key p x ≡ true) same k, Memᴰ.head (sym same))
    | inr k ↦ absurd (let q : none ≡ some i = rw (item_of, none_left, k) at e in cc)
  ]
  | inr (x, found) ↦
      let same : x ≡ i = some_injective x i (rw (item_of, found) at e) in
      let (k, m) = item_of-Memᴰ p js i (found ∙ ap some same) in (k, Memᴰ.tail m)
]

-- What a shown item and its placement are.
pub Shows :
    DiscoveryFeed
    → List SponsoredPlacement
    → List DiscoveryItem
    → List ℕ
    → SponsoredDiscoveryItem
    → Type 0
Shows feed placements items now e =
    (is_shown feed now e.placement ≡ true)
    × Memᴰ e.placement placements
    × (e.item.canonical ≡ true)
    × (has_key e.placement e.item ≡ true)
    × Memᴰ e.item items

module _ (feed : DiscoveryFeed) (placements : List SponsoredPlacement) (items : List DiscoveryItem)
    (now : List ℕ) where
  kept :
      (b : Bool) (e : SponsoredDiscoveryItem)
      → (b ≡ true → Shows feed placements items now e)
      → All (Shows feed placements items now) (if b then e ∷ [] else [])
  kept true e f = (f refl, tt)
  kept false e f = tt

  shown-Shows :
      (p : SponsoredPlacement) (o : Option DiscoveryItem)
      → item_of p items ≡ o
      → (is_shown feed now p ≡ true) × Memᴰ p placements
      → All (Shows feed placements items now) (shown p o)
  unfolding Shows
  shown-Shows p none e h = tt
  shown-Shows p (some i) e (s, m) =
      kept i.canonical (record { placement = p; item = i })
        (λ c. let (k, n) = item_of-Memᴰ p items i e in (s, m, c, k, n))

  entries-Shows :
      (ps : List SponsoredPlacement)
      → All (λ p. (is_shown feed now p ≡ true) × Memᴰ p placements) ps
      → All (Shows feed placements items now) (entries items ps)
  unfolding entries
  entries-Shows [] h = tt
  entries-Shows (p ∷ ps) (q, h) =
      All-append (Shows feed placements items now) (shown p (item_of p items)) (entries items ps)
        (shown-Shows p (item_of p items) refl q) (entries-Shows ps h)

-- Every sponsored entry of a feed comes from one of the placements, for this feed and active now, and
-- shows a canonical one of the given items, of the chain and the address that were paid for.
pub rank_sponsored-Shows :
    (locale_compare : List ℕ → List ℕ → Bool) (feed : DiscoveryFeed)
    (placements : List SponsoredPlacement) (items : List DiscoveryItem) (now : List ℕ)
    → All
        (Shows feed placements items now)
        (rank_sponsored locale_compare feed placements items now)
unfolding rank_sponsored
rank_sponsored-Shows locale_compare feed placements items now =
    entries-Shows feed placements items now _ (
      sort_by-All (compare_placements locale_compare) _ (filter (is_shown feed now) placements) (
        filter-All (λ p. Memᴰ p placements) (is_shown feed now) placements
          (All-Memᴰ _ placements (λ p m. m))))
