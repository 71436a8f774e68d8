-- ===== src/Discovery/Feeds.antt =====
-- packages/discovery-engine/src/feeds.ts. `localeCompare` of the language is a parameter: whether the
-- comparison of two texts is negative. Of an item what the feeds read is modelled.
pub mod Orders
pub mod Ranks
pub mod Sponsored
pub mod Placements
mod Tests
use hood_sentry.Prelude.{
  ℕ, zero, suc, ◌+◌, ◌-◌, ◌*◌, ◌/◌, ◌%◌, ◌^◌, ◌≤◌, ◌<◌, min, max, ◌≡◌, refl, sym, ap, ◌∙◌, subst,
  ◌≢◌, ◌↔◌, ◌⊎◌, inl, inr, Bool, true, false, not, ◌&&◌, ◌||◌, Option, none, some, List, [], ◌∷◌,
  ◌++◌, map, arith, ltb, leb, ◌==◌, if◌then◌else◌, ltb→lt, lt→ltb, leb→le, ==_iff, tests,
  Bool-cases, Option-cases, length, get_elem?, set, get_or, take, drop, replicate, length-append,
  length-take, length-drop, length-map, length-replicate, sort_by, then_by,
}
use hood_sentry.Prelude.Int.{ℤ, pos, ltb_ℤ}
use hood_sentry.Prelude.Codes.{same_codes, to_lower_case}
use hood_sentry.Rpc.Health.{filter}

pub data DiscoveryFeed : Type 0 where
  new_tokens : DiscoveryFeed
  new_pools : DiscoveryFeed
  trending : DiscoveryFeed
  volume_gainers : DiscoveryFeed
  liquidity_gainers : DiscoveryFeed
  holder_gainers : DiscoveryFeed
  transaction_activity_gainers : DiscoveryFeed
  newly_graduated : DiscoveryFeed
  recently_migrated : DiscoveryFeed
  recently_verified_projects : DiscoveryFeed
  recently_scanned : DiscoveryFeed
  recent_critical_risk : DiscoveryFeed
  most_watched : DiscoveryFeed
  most_alerted : DiscoveryFeed

pub data LaunchpadState : Type 0 where
  no_launchpad : LaunchpadState
  bonding_curve : LaunchpadState
  graduated : LaunchpadState
  migrated : LaunchpadState

pub record DiscoveryItem : Type 0 where
  pub chain_id : ℕ
  pub address : List ℕ
  pub canonical : Bool
  pub primary_pool_address : Option (List ℕ)
  pub launchpad_state : LaunchpadState
  pub project_verified : Bool
  pub first_seen_at : Option (List ℕ)
  pub first_seen_block_number : ℤ
  pub pool_created_at : Option (List ℕ)
  pub pool_created_block_number : Option ℤ
  pub score_bps : ℤ
  pub confidence_bps : ℤ
  pub volume_change_bps : Option ℤ
  pub liquidity_change_bps : Option ℤ
  pub holder_growth : Option ℤ
  pub transaction_growth_bps : Option ℤ
  pub graduated_at : Option (List ℕ)
  pub migrated_at : Option (List ℕ)
  pub project_verified_at : Option (List ℕ)
  pub last_scanned_at : Option (List ℕ)
  pub latest_critical_finding_at : Option (List ℕ)
  pub watchlist_count : ℤ
  pub alert_count : ℤ

abbrev pub is_some {ℓ} : {A : Type ℓ} → Option A → Bool
is_some none = false
is_some (some a) = true

abbrev pub has_migrated : LaunchpadState → Bool
has_migrated migrated = true
has_migrated _ = false

abbrev pub has_graduated : LaunchpadState → Bool
has_graduated graduated = true
has_graduated s = has_migrated s

abbrev pub feed_wants : DiscoveryFeed → DiscoveryItem → Bool
feed_wants new_pools i = is_some i.primary_pool_address
feed_wants newly_graduated i = has_graduated i.launchpad_state
feed_wants recently_migrated i = has_migrated i.launchpad_state
feed_wants recently_verified_projects i = i.project_verified
feed_wants recently_scanned i = is_some i.last_scanned_at
feed_wants recent_critical_risk i = is_some i.latest_critical_finding_at
feed_wants _ i = true

unfoldable pub is_eligible_for_feed : DiscoveryItem → DiscoveryFeed → Bool
is_eligible_for_feed i feed = if i.canonical then feed_wants feed i else false

-- Whether `compareBigint` is negative: the larger comes first, a value that is not there last.
unfoldable pub compare_bigint : Option ℤ → Option ℤ → Bool
compare_bigint none r = false
compare_bigint (some a) none = true
compare_bigint (some a) (some b) = ltb_ℤ b a

module _ (locale_compare : List ℕ → List ℕ → Bool) where
  -- Whether `compareDate` is negative: the later comes first, a date that is not there last.
  unfoldable pub compare_date : Option (List ℕ) → Option (List ℕ) → Bool
  compare_date none r = false
  compare_date (some a) none = true
  compare_date (some a) (some b) = if same_codes a b then false else locale_compare b a

  unfoldable pub tie_break : DiscoveryItem → DiscoveryItem → Bool
  tie_break a b = locale_compare (to_lower_case a.address) (to_lower_case b.address)

  -- Whether the comparison of the feed, before ties are broken, is negative.
  abbrev pub feed_result : DiscoveryFeed → DiscoveryItem → DiscoveryItem → Bool
  unfolding compare_date compare_bigint then_by
  feed_result new_tokens =
      then_by (λ a b. compare_date a.first_seen_at b.first_seen_at)
        (λ a b. compare_bigint (some a.first_seen_block_number) (some b.first_seen_block_number))
  feed_result new_pools =
      then_by (λ a b. compare_date a.pool_created_at b.pool_created_at)
        (λ a b. compare_bigint a.pool_created_block_number b.pool_created_block_number)
  feed_result trending =
      then_by (λ a b. compare_bigint (some a.score_bps) (some b.score_bps))
        (λ a b. compare_bigint (some a.confidence_bps) (some b.confidence_bps))
  feed_result volume_gainers = λ a b. compare_bigint a.volume_change_bps b.volume_change_bps
  feed_result liquidity_gainers =
      λ a b. compare_bigint a.liquidity_change_bps b.liquidity_change_bps
  feed_result holder_gainers = λ a b. compare_bigint a.holder_growth b.holder_growth
  feed_result transaction_activity_gainers =
      λ a b. compare_bigint a.transaction_growth_bps b.transaction_growth_bps
  feed_result newly_graduated = λ a b. compare_date a.graduated_at b.graduated_at
  feed_result recently_migrated = λ a b. compare_date a.migrated_at b.migrated_at
  feed_result recently_verified_projects =
      λ a b. compare_date a.project_verified_at b.project_verified_at
  feed_result recently_scanned = λ a b. compare_date a.last_scanned_at b.last_scanned_at
  feed_result recent_critical_risk =
      λ a b. compare_date a.latest_critical_finding_at b.latest_critical_finding_at
  feed_result most_watched = λ a b. compare_bigint (some a.watchlist_count) (some b.watchlist_count)
  feed_result most_alerted = λ a b. compare_bigint (some a.alert_count) (some b.alert_count)

  unfoldable pub compare_for_feed : DiscoveryFeed → DiscoveryItem → DiscoveryItem → Bool
  compare_for_feed feed = then_by (feed_result feed) tie_break

  unfoldable pub rank_feed : DiscoveryFeed → List DiscoveryItem → List DiscoveryItem
  unfolding is_eligible_for_feed
  rank_feed feed items =
      sort_by (compare_for_feed feed) (filter (λ i. is_eligible_for_feed i feed) items)
