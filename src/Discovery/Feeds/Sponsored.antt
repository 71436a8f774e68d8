-- ===== src/Discovery/Feeds/Sponsored.antt =====
-- `rankSponsored` of packages/discovery-engine/src/feeds.ts. A template of a chain and an address is
-- the pair of these, since a number is printed without a colon.
use hood_sentry.Prelude.{
  ℕ, Bool, true, false, not, ◌&&◌, Option, none, some, List, [], ◌∷◌, ◌++◌, ltb, ◌==◌,
  if◌then◌else◌, sort_by, then_by,
}
use Prim.Native.String.{String}
use text.Mathlib.Text.{◌==◌ as str_eq}
use hood_sentry.Prelude.Int.{ℤ, ltb_ℤ}
use hood_sentry.Prelude.Codes.{same_text}
use hood_sentry.Rpc.Health.{filter}
use hood_sentry.Discovery.Feeds.{
  DiscoveryFeed, DiscoveryItem, new_tokens, new_pools, trending, volume_gainers, liquidity_gainers,
  holder_gainers, transaction_activity_gainers, newly_graduated, recently_migrated,
  recently_verified_projects, recently_scanned, recent_critical_risk, most_watched, most_alerted,
}

pub record SponsoredPlacement : Type 0 where
  pub placement_id : List ℕ
  pub chain_id : ℕ
  pub token_address : List ℕ
  pub feed : DiscoveryFeed
  pub priority : ℤ
  pub starts_at : List ℕ
  pub ends_at : List ℕ
  pub created_at : List ℕ

pub record SponsoredDiscoveryItem : Type 0 where
  pub placement : SponsoredPlacement
  pub item : DiscoveryItem

abbrev pub feed_text : DiscoveryFeed → String
feed_text new_tokens = "newTokens"
feed_text new_pools = "newPools"
feed_text trending = "trending"
feed_text volume_gainers = "volumeGainers"
feed_text liquidity_gainers = "liquidityGainers"
feed_text holder_gainers = "holderGainers"
feed_text transaction_activity_gainers = "transactionActivityGainers"
feed_text newly_graduated = "newlyGraduated"
feed_text recently_migrated = "recentlyMigrated"
feed_text recently_verified_projects = "recentlyVerifiedProjects"
feed_text recently_scanned = "recentlyScanned"
feed_text recent_critical_risk = "recentCriticalRisk"
feed_text most_watched = "mostWatched"
feed_text most_alerted = "mostAlerted"

-- `a < b` of two texts, by their code units.
abbrev pub text_below : List ℕ → List ℕ → Bool
text_below xs [] = false
text_below [] (y ∷ ys) = true
text_below (x ∷ xs) (y ∷ ys) = if x == y then text_below xs ys else ltb x y

unfoldable pub is_shown : DiscoveryFeed → List ℕ → SponsoredPlacement → Bool
is_shown feed now p =
    str_eq (feed_text p.feed) (feed_text feed)
    && not (text_below now p.starts_at)
    && text_below now p.ends_at

unfoldable pub has_key : SponsoredPlacement → DiscoveryItem → Bool
unfolding same_text
has_key p i = (i.chain_id == p.chain_id) && same_text i.address p.token_address

-- `byAddress.get`: of two items with one key the map keeps the later.
unfoldable pub item_of : SponsoredPlacement → List DiscoveryItem → Option DiscoveryItem
unfolding has_key
item_of p [] = none
item_of p (i ∷ is) = elim (item_of p is) [
  | some j ↦ some j
  | none ↦ if has_key p i then some i else none
]

abbrev pub shown : SponsoredPlacement → Option DiscoveryItem → List SponsoredDiscoveryItem
shown p none = []
shown p (some i) = if i.canonical then (record { placement = p; item = i }) ∷ [] else []

unfoldable pub entries : List DiscoveryItem → List SponsoredPlacement → List SponsoredDiscoveryItem
unfolding item_of
entries items [] = []
entries items (p ∷ ps) = shown p (item_of p items) ++ entries items ps

module _ (locale_compare : List ℕ → List ℕ → Bool) where
  unfoldable pub compare_placements : SponsoredPlacement → SponsoredPlacement → Bool
  unfolding then_by
  compare_placements =
      then_by (λ a b. ltb_ℤ b.priority a.priority)
        (then_by (λ a b. locale_compare a.created_at b.created_at)
          (λ a b. locale_compare a.placement_id b.placement_id))

  unfoldable pub rank_sponsored :
      DiscoveryFeed
      → List SponsoredPlacement
      → List DiscoveryItem
      → List ℕ
      → List SponsoredDiscoveryItem
  unfolding entries is_shown
  rank_sponsored feed placements items now =
      entries items (sort_by compare_placements (filter (is_shown feed now) placements))
