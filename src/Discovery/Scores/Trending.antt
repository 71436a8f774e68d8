-- ===== src/Discovery/Scores/Trending.antt =====
-- `calculateTrendingScore` of packages/discovery-engine/src/scoring.ts and the scores it is made of.
use hood_sentry.Prelude.{
  ℕ, ◌+◌, ◌-◌, ◌*◌, ◌/◌, Bool, true, false, not, ◌&&◌, Option, none, some, List, [], ◌∷◌, ◌++◌, leb,
  ◌==◌, if◌then◌else◌, length,
}
use hood_sentry.Prelude.Int.{ℤ, pos, ◌-ℤ◌, ◌*ℤ◌, ltb_ℤ}
use hood_sentry.Rpc.Health.{filter}
use hood_sentry.Discovery.Feeds.{LaunchpadState, no_launchpad, has_graduated, is_some}
use hood_sentry.Discovery.Scores.{
  clamp_bps, ratio_bps, signed_growth_score, log_scaled_bps, seconds_between, DiscoveryCandidate,
  ManipulationAssessment, TrendingComponentKey, Kind, positive, penalty, weights, TrendingComponent,
  log_scaled_volume, unique_traders, transaction_acceleration, holder_growth, liquidity,
  liquidity_growth, pool_age, token_age, watchlist_growth, alert_creation_growth,
  launchpad_curve_progress, graduation_status, risk_completeness, wash_trading_penalty,
  holder_concentration_penalty, low_liquidity_penalty, suspicious_deployer_penalty,
  duplicate_symbol_penalty, data_quality_penalty,
}

unfoldable pub component : TrendingComponentKey → Kind → Option ℤ → ℤ → Bool → TrendingComponent
unfolding clamp_bps
component key kind raw normalized available = record {
  key = key;
  kind = kind;
  raw_value = raw;
  normalized_bps = clamp_bps normalized;
  weight_bps = weights key;
  contribution_bps = clamp_bps normalized * weights key / 10000;
  available = available;
}

abbrev pub day_seconds : ℕ
day_seconds = 86400

abbrev pub score_of_age : Option ℕ → ℕ
score_of_age none = 0
score_of_age (some age) =
    if leb age day_seconds
    then 10000
    else if leb (30 * day_seconds) age
    then 1000
    else 10000 - (age - day_seconds) * 9000 / (29 * day_seconds)

unfoldable pub age_score : Option (Option ℤ) → Option ℤ → ℕ
unfolding seconds_between
age_score created_at observed_at = score_of_age (seconds_between created_at observed_at)

abbrev pub liquidity_gap : Option ℤ → ℤ → ℕ
unfolding ratio_bps
liquidity_gap none minimum = 10000
liquidity_gap (some l) minimum = if ltb_ℤ l minimum then 10000 - ratio_bps l minimum else 0

-- `lowLiquidityPenalty`
unfoldable pub liquidity_penalty : DiscoveryCandidate → ℕ
unfolding ratio_bps
liquidity_penalty c = liquidity_gap c.liquidity_raw c.minimum_healthy_liquidity_raw

abbrev pub concentration_above : Option ℤ → ℕ
unfolding clamp_bps ◌-ℤ◌ ◌*ℤ◌
concentration_above none = 0
concentration_above (some n) =
    if ltb_ℤ (pos 5000) n then clamp_bps ((n -ℤ pos 5000) *ℤ pos 2) else 0

-- `holderConcentrationPenalty`
unfoldable pub concentration_penalty : DiscoveryCandidate → ℕ
unfolding clamp_bps ◌-ℤ◌ ◌*ℤ◌
concentration_penalty c = concentration_above c.holder_concentration_bps

abbrev pub or_zero : Option ℤ → ℤ
or_zero none = pos 0
or_zero (some n) = n

abbrev pub as_bigint : Option ℕ → Option ℤ
as_bigint none = none
as_bigint (some n) = some (pos n)

abbrev pub not_none : LaunchpadState → Bool
not_none no_launchpad = false
not_none _ = true

abbrev pub is_empty {ℓ} : {A : Type ℓ} → List A → Bool
is_empty [] = true
is_empty (x ∷ xs) = false

unfoldable pub positive_components : DiscoveryCandidate → List TrendingComponent
unfolding age_score log_scaled_bps ratio_bps signed_growth_score seconds_between
positive_components c =
    component log_scaled_volume positive c.volume_raw
      (pos (log_scaled_bps c.volume_raw c.volume_decimals)) (is_some c.volume_raw)
    ∷ component unique_traders positive c.unique_traders
        (pos (ratio_bps (or_zero c.unique_traders) (pos 500))) (is_some c.unique_traders)
    ∷ component transaction_acceleration positive c.transaction_growth_bps
        (pos (signed_growth_score c.transaction_growth_bps 20000))
        (is_some c.transaction_growth_bps)
    ∷ component holder_growth positive c.holder_growth
        (pos (ratio_bps (or_zero c.holder_growth) (pos 1000))) (is_some c.holder_growth)
    ∷ component liquidity positive c.liquidity_raw
        (pos (log_scaled_bps c.liquidity_raw c.liquidity_decimals)) (is_some c.liquidity_raw)
    ∷ component liquidity_growth positive c.liquidity_change_bps
        (pos (signed_growth_score c.liquidity_change_bps 10000)) (is_some c.liquidity_change_bps)
    ∷ component pool_age positive (as_bigint (seconds_between c.pool_created_at c.observed_at))
        (pos (age_score c.pool_created_at c.observed_at)) (is_some c.pool_created_at)
    ∷ component token_age positive (as_bigint (seconds_between c.first_seen_at c.observed_at))
        (pos (age_score c.first_seen_at c.observed_at)) (is_some c.first_seen_at)
    ∷ component watchlist_growth positive c.watchlist_growth
        (pos (ratio_bps (or_zero c.watchlist_growth) (pos 100))) (is_some c.watchlist_growth)
    ∷ component alert_creation_growth positive c.alert_creation_growth
        (pos (ratio_bps (or_zero c.alert_creation_growth) (pos 50)))
        (is_some c.alert_creation_growth)
    ∷ component launchpad_curve_progress positive c.launchpad_curve_progress_bps
        (or_zero c.launchpad_curve_progress_bps) (is_some c.launchpad_curve_progress_bps)
    ∷ component graduation_status positive
        (some (pos (if has_graduated c.launchpad_state then 1 else 0)))
        (pos (if has_graduated c.launchpad_state then 10000 else 0)) (not_none c.launchpad_state)
    ∷ component risk_completeness positive c.risk_completeness_bps (or_zero c.risk_completeness_bps)
        (is_some c.risk_completeness_bps)
    ∷ []

unfoldable pub penalty_components :
    DiscoveryCandidate → ManipulationAssessment → List TrendingComponent
unfolding clamp_bps liquidity_penalty concentration_penalty
penalty_components c m =
    component wash_trading_penalty penalty (some m.total_penalty_bps) m.total_penalty_bps true
    ∷ component holder_concentration_penalty penalty c.holder_concentration_bps
        (pos (concentration_penalty c)) (is_some c.holder_concentration_bps)
    ∷ component low_liquidity_penalty penalty c.liquidity_raw (pos (liquidity_penalty c))
        (is_some c.liquidity_raw)
    ∷ component suspicious_deployer_penalty penalty
        (some (pos (length c.suspicious_deployer_evidence)))
        (pos (if is_empty c.suspicious_deployer_evidence then 0 else 10000)) true
    ∷ component duplicate_symbol_penalty penalty (some (pos (length c.duplicate_symbol_addresses)))
        (pos (clamp_bps (pos (length c.duplicate_symbol_addresses * 2500)))) true
    ∷ component data_quality_penalty penalty (some (pos (length c.data_quality_warnings)))
        (pos (clamp_bps (pos (length c.data_quality_warnings * 2000)))) true
    ∷ []

unfoldable pub components : DiscoveryCandidate → ManipulationAssessment → List TrendingComponent
unfolding positive_components penalty_components
components c m = positive_components c ++ penalty_components c m

abbrev pub is_positive : TrendingComponent → Bool
is_positive t = elim t.kind [ positive ↦ true | penalty ↦ false ]

abbrev pub is_known : TrendingComponent → Bool
is_known t = is_positive t && t.available

abbrev pub sum_of : (TrendingComponent → ℕ) → List TrendingComponent → ℕ
sum_of f [] = 0
sum_of f (t ∷ ts) = f t + sum_of f ts

pub record TrendingScore : Type 0 where
  pub score_bps : ℕ
  pub confidence_bps : ℕ
  pub components : List TrendingComponent

unfoldable pub score_components : ManipulationAssessment → List TrendingComponent → TrendingScore
unfolding clamp_bps ◌-ℤ◌
score_components m ts =
    let positives = sum_of (λ t. t.contribution_bps) (filter is_positive ts) in
    let penalties = sum_of (λ t. t.contribution_bps) (filter (λ t. not (is_positive t)) ts) in
    let available_weight = sum_of (λ t. t.weight_bps) (filter is_known ts) in
    let total_weight = sum_of (λ t. t.weight_bps) (filter is_positive ts) in
    record {
      score_bps = clamp_bps (pos positives -ℤ pos penalties);
      confidence_bps =
          if total_weight == 0 then 0 else available_weight * m.confidence_bps / total_weight;
      components = ts;
    }

unfoldable pub calculate_trending_score :
    DiscoveryCandidate → ManipulationAssessment → TrendingScore
unfolding clamp_bps ◌-ℤ◌ positive_components penalty_components
calculate_trending_score c m = score_components m (components c m)
