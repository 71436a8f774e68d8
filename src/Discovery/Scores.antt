-- ===== src/Discovery/Scores.antt =====
-- packages/discovery-engine/src/arithmetic.ts and scoring.ts: the trending score of a token. What the
-- assessment of manipulation finds is an argument; the texts of reasons are left out. A time is what
-- `Date.parse` gives: milliseconds, or `none` where that is not a number.
pub mod Logs
pub mod Trending
pub mod Bounds
mod Tests
use hood_sentry.Prelude.{
  ℕ, zero, suc, ◌+◌, ◌-◌, ◌*◌, ◌/◌, ◌%◌, ◌^◌, ◌≤◌, ◌<◌, min, max, ◌≡◌, refl, sym, ap, ◌∙◌, subst,
  ◌≢◌, ◌↔◌, ◌⊎◌, inl, inr, Bool, true, false, not, ◌&&◌, ◌||◌, Option, none, some, List, [], ◌∷◌,
  ◌++◌, map, arith, ltb, leb, ◌==◌, if◌then◌else◌, ltb→lt, lt→ltb, leb→le, ==_iff, tests,
  Bool-cases, Option-cases, length, get_elem?, set, get_or, take, drop, replicate, length-append,
  length-take, length-drop, length-map, length-replicate,
}
use Prim.Native.String.{String}
use hood_sentry.Prelude.Int.{ℤ, pos, negsuc, sub_ℕ, ◌-ℤ◌, ◌*ℤ◌, pos_part, ltb_ℤ}
use hood_sentry.Rpc.Health.{filter}
use hood_sentry.Discovery.Feeds.{LaunchpadState, no_launchpad, has_graduated, is_some}

-- A result of `clampBps` is never negative.
unfoldable pub clamp_bps : ℤ → ℕ
clamp_bps (negsuc n) = 0
clamp_bps (pos n) = if ltb 10000 n then 10000 else n

-- Division of bigints, which rounds towards zero.
abbrev pub bigint_div : ℤ → ℕ → ℤ
bigint_div (pos n) d = pos (n / d)
bigint_div (negsuc n) d = sub_ℕ 0 (suc n / d)

unfoldable pub ratio_bps : ℤ → ℤ → ℕ
unfolding ◌*ℤ◌ clamp_bps
ratio_bps value (negsuc d) = 0
ratio_bps value (pos zero) = 0
ratio_bps value (pos (suc d)) = clamp_bps (bigint_div (value *ℤ pos 10000) (suc d))

unfoldable pub signed_growth_score : Option ℤ → ℕ → ℕ
unfolding clamp_bps
signed_growth_score (some (pos (suc n))) (suc full) = clamp_bps (pos (suc n * 10000 / suc full))
signed_growth_score _ _ = 0

-- How often the loop of `integerLog2` halves before it meets zero.
unfoldable pub halvings : ℕ → ℕ → ℕ
halvings zero current = 0
halvings (suc fuel) current = elim (ltb 0 current) [
  | true ↦ suc (halvings fuel (current / 2))
  | false ↦ 0
]

-- The loop starts its count at -1.
unfoldable pub integer_log2 : ℕ → ℕ
unfolding halvings
integer_log2 value = if leb value 1 then 0 else halvings value value - 1

unfoldable pub log_scaled_bps : Option ℤ → Option ℤ → ℕ
unfolding clamp_bps integer_log2
log_scaled_bps (some (pos (suc n))) (some (pos decimals)) =
    clamp_bps (pos (integer_log2 (suc n / 10 ^ decimals + 1) * 10000 / 32))
log_scaled_bps _ _ = 0

unfoldable pub seconds_between : Option (Option ℤ) → Option ℤ → Option ℕ
unfolding ◌-ℤ◌
seconds_between (some (some earlier)) (some later) = some (pos_part (later -ℤ earlier) / 1000)
seconds_between _ _ = none

pub record DiscoveryCandidate : Type 0 where
  pub volume_raw : Option ℤ
  pub volume_decimals : Option ℤ
  pub unique_traders : Option ℤ
  pub transaction_growth_bps : Option ℤ
  pub holder_growth : Option ℤ
  pub liquidity_raw : Option ℤ
  pub liquidity_decimals : Option ℤ
  pub liquidity_change_bps : Option ℤ
  pub pool_created_at : Option (Option ℤ)
  pub first_seen_at : Option (Option ℤ)
  pub observed_at : Option ℤ
  pub watchlist_growth : Option ℤ
  pub alert_creation_growth : Option ℤ
  pub launchpad_curve_progress_bps : Option ℤ
  pub launchpad_state : LaunchpadState
  pub risk_completeness_bps : Option ℤ
  pub holder_concentration_bps : Option ℤ
  pub minimum_healthy_liquidity_raw : ℤ
  pub suspicious_deployer_evidence : List String
  pub duplicate_symbol_addresses : List String
  pub data_quality_warnings : List String

-- What the score reads of a `ManipulationAssessment`.
pub record ManipulationAssessment : Type 0 where
  pub confidence_bps : ℕ
  pub total_penalty_bps : ℤ

pub data TrendingComponentKey : Type 0 where
  log_scaled_volume : TrendingComponentKey
  unique_traders : TrendingComponentKey
  transaction_acceleration : TrendingComponentKey
  holder_growth : TrendingComponentKey
  liquidity : TrendingComponentKey
  liquidity_growth : TrendingComponentKey
  pool_age : TrendingComponentKey
  token_age : TrendingComponentKey
  watchlist_growth : TrendingComponentKey
  alert_creation_growth : TrendingComponentKey
  launchpad_curve_progress : TrendingComponentKey
  graduation_status : TrendingComponentKey
  risk_completeness : TrendingComponentKey
  wash_trading_penalty : TrendingComponentKey
  holder_concentration_penalty : TrendingComponentKey
  low_liquidity_penalty : TrendingComponentKey
  suspicious_deployer_penalty : TrendingComponentKey
  duplicate_symbol_penalty : TrendingComponentKey
  data_quality_penalty : TrendingComponentKey

pub data Kind : Type 0 where
  positive : Kind
  penalty : Kind

abbrev pub weights : TrendingComponentKey → ℕ
weights log_scaled_volume = 1400
weights unique_traders = 900
weights transaction_acceleration = 900
weights holder_growth = 700
weights liquidity = 1200
weights liquidity_growth = 700
weights pool_age = 400
weights token_age = 400
weights watchlist_growth = 500
weights alert_creation_growth = 300
weights launchpad_curve_progress = 500
weights graduation_status = 400
weights risk_completeness = 700
weights wash_trading_penalty = 1000
weights holder_concentration_penalty = 600
weights low_liquidity_penalty = 800
weights suspicious_deployer_penalty = 800
weights duplicate_symbol_penalty = 400
weights data_quality_penalty = 800

pub record TrendingComponent : Type 0 where
  pub key : TrendingComponentKey
  pub kind : Kind
  pub raw_value : Option ℤ
  pub normalized_bps : ℕ
  pub weight_bps : ℕ
  pub contribution_bps : ℕ
  pub available : Bool
