-- ===== src/Discovery/Scores/Tests.antt =====
-- The score of one token.
use hood_sentry.Prelude.{◌≤◌, ◌≡◌, refl, none, some, [], ◌∷◌}
use hood_sentry.Prelude.Int.{pos, negsuc, ◌*ℤ◌, ◌-ℤ◌}
use hood_sentry.Discovery.Feeds.{graduated}
use hood_sentry.Discovery.Scores.{
  clamp_bps, ratio_bps, signed_growth_score, halvings, integer_log2, log_scaled_bps,
  seconds_between, DiscoveryCandidate, ManipulationAssessment,
}
use hood_sentry.Discovery.Scores.Trending.{
  component, components, positive_components, penalty_components, age_score, liquidity_penalty,
  concentration_penalty, score_components, calculate_trending_score,
}
use hood_sentry.Discovery.Scores.Bounds.{calculate_trending_score_within}

log_of_zero : integer_log2 0 ≡ 0
unfolding integer_log2
log_of_zero = refl

log_of_nine : integer_log2 9 ≡ 3
unfolding integer_log2 halvings
log_of_nine = refl

negative_ratio : ratio_bps (negsuc 4) (pos 2) ≡ 0
unfolding ratio_bps clamp_bps ◌*ℤ◌
negative_ratio = refl

ratio_below : ratio_bps (pos 1) (pos 3) ≡ 3333
unfolding ratio_bps clamp_bps ◌*ℤ◌
ratio_below = refl

age_after_a_day_and_a_half : age_score (some (some (pos 0))) (some (pos 129600000)) ≡ 9845
unfolding age_score seconds_between ◌-ℤ◌
age_after_a_day_and_a_half = refl

undated_age : age_score (some none) (some (pos 129600000)) ≡ 0
unfolding age_score seconds_between
undated_age = refl

abbrev token : DiscoveryCandidate
token = record {
  volume_raw = none;
  volume_decimals = none;
  unique_traders = some (pos 250);
  transaction_growth_bps = some (negsuc 9);
  holder_growth = some (pos 2000);
  liquidity_raw = some (pos 100);
  liquidity_decimals = some (pos 1);
  liquidity_change_bps = none;
  pool_created_at = some (some (pos 0));
  first_seen_at = none;
  observed_at = some (pos 129600000);
  watchlist_growth = none;
  alert_creation_growth = none;
  launchpad_curve_progress_bps = none;
  launchpad_state = graduated;
  risk_completeness_bps = some (pos 5000);
  holder_concentration_bps = some (pos 6000);
  minimum_healthy_liquidity_raw = pos 200;
  suspicious_deployer_evidence = [];
  duplicate_symbol_addresses = "0xa" ∷ [];
  data_quality_warnings = [];
}

abbrev assessment : ManipulationAssessment
assessment = record { confidence_bps = 8888; total_penalty_bps = pos 900 }

token_score : (calculate_trending_score token assessment).score_bps ≡ 1695
unfolding calculate_trending_score score_components components positive_components
    penalty_components component age_score seconds_between ratio_bps clamp_bps signed_growth_score
    integer_log2 halvings log_scaled_bps liquidity_penalty concentration_penalty ◌*ℤ◌ ◌-ℤ◌
token_score = refl

calculate_trending_score_within_example :
    ((calculate_trending_score token assessment).score_bps ≤ 9000)
    × ((calculate_trending_score token assessment).confidence_bps ≤ 8888)
calculate_trending_score_within_example = calculate_trending_score_within token assessment
