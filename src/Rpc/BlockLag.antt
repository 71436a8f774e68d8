-- ===== src/Rpc/BlockLag.antt =====
-- packages/chain/src/rpc/block-lag-monitor.ts. Block numbers are bigints that are never negative;
-- `now` is the clock of a call. A `Map` is the list of its entries, oldest key first.
pub mod Laws
mod Tests
use hood_sentry.Prelude.{
  ℕ, zero, suc, ◌+◌, ◌-◌, ◌*◌, ◌/◌, ◌%◌, ◌^◌, ◌≤◌, ◌<◌, min, max, ◌≡◌, refl, sym, ap, ◌∙◌, subst,
  ◌≢◌, ◌↔◌, ◌⊎◌, inl, inr, Bool, true, false, not, ◌&&◌, ◌||◌, Option, none, some, List, [], ◌∷◌,
  ◌++◌, map, arith, ltb, leb, ◌==◌, if◌then◌else◌, ltb→lt, lt→ltb, leb→le, ==_iff, tests,
  Bool-cases, Option-cases, length, get_elem?, set, get_or, take, drop, replicate, length-append,
  length-take, length-drop, length-map, length-replicate,
}
use text.Mathlib.Text.{◌==◌ as str_eq}
use Prim.Native.String.{String}
use hood_sentry.Prelude.Dict.{get_value, set_value}

pub record BlockLagMonitorConfig : Type 0 where
  pub max_acceptable_lag : ℕ
  pub stale_threshold : ℕ
  pub check_interval_ms : ℕ

pub record BlockLagMetrics : Type 0 where
  pub provider_url : String
  pub current_block : ℕ
  pub expected_block : ℕ
  pub lag : ℕ
  pub timestamp : ℕ

pub record BlockLagMonitor : Type 0 where
  pub provider_blocks : List (String × ℕ)
  pub network_head : ℕ
  pub lag_history : List (String × List BlockLagMetrics)

abbrev pub max_history_size : ℕ
max_history_size = 100

-- Number.MAX_SAFE_INTEGER
abbrev pub max_safe_integer : ℕ
max_safe_integer = 9007199254740991

-- The constructor, for the options that are given.
unfoldable pub make_config : Option ℕ → Option ℕ → Option ℕ → BlockLagMonitorConfig
make_config lag stale interval = record {
  max_acceptable_lag = elim lag [ none ↦ 5 | some n ↦ n ];
  stale_threshold = elim stale [ none ↦ 10 | some n ↦ n ];
  check_interval_ms = elim interval [ none ↦ 10000 | some n ↦ n ];
}

unfoldable pub empty : BlockLagMonitor
empty = record { provider_blocks = []; network_head = 0; lag_history = [] }

unfoldable pub reset : BlockLagMonitor → BlockLagMonitor
unfolding empty
reset m = empty

unfoldable pub update_provider_block : String → ℕ → BlockLagMonitor → BlockLagMonitor
update_provider_block url block m = record m {
  provider_blocks = set_value url block m.provider_blocks;
}

-- `lag < 0 ? 0 : lag` of the difference is the truncated subtraction.
unfoldable pub metrics_of : String → ℕ → ℕ → ℕ → BlockLagMetrics
metrics_of url block head now = record {
  provider_url = url;
  current_block = block;
  expected_block = head;
  lag = head - block;
  timestamp = now;
}

abbrev pub history_or_empty : Option (List BlockLagMetrics) → List BlockLagMetrics
history_or_empty none = []
history_or_empty (some h) = h

-- `history.slice(-100)` where there are more than 100 entries.
unfoldable pub trim : List BlockLagMetrics → List BlockLagMetrics
trim h = if ltb max_history_size (length h) then drop (length h - max_history_size) h else h

unfoldable pub record_lag : ℕ → BlockLagMonitor → String × ℕ → BlockLagMonitor
unfolding trim metrics_of
record_lag now m (url, block) =
    let old = history_or_empty (get_value url m.lag_history) in
    record m {
      lag_history =
          set_value url (trim (old ++ metrics_of url block m.network_head now ∷ [])) m.lag_history;
    }

-- The loop over the entries of `providerBlocks`.
unfoldable pub record_lags : ℕ → BlockLagMonitor → List (String × ℕ) → BlockLagMonitor
record_lags now m [] = m
record_lags now m (e ∷ es) = record_lags now (record_lag now m e) es

unfoldable pub update_network_head : ℕ → ℕ → BlockLagMonitor → BlockLagMonitor
update_network_head now block m =
    if ltb m.network_head block
    then record_lags now (record m { network_head = block }) m.provider_blocks
    else m

abbrev pub lag_of : ℕ → Option ℕ → ℕ
lag_of head none = max_safe_integer
lag_of head (some block) = head - block

unfoldable pub get_lag : BlockLagMonitor → String → ℕ
get_lag m url = lag_of m.network_head (get_value url m.provider_blocks)

unfoldable pub is_provider_stale : BlockLagMonitorConfig → BlockLagMonitor → String → Bool
unfolding get_lag
is_provider_stale c m url = ltb c.stale_threshold (get_lag m url)

unfoldable pub is_provider_acceptable : BlockLagMonitorConfig → BlockLagMonitor → String → Bool
unfolding get_lag
is_provider_acceptable c m url = leb (get_lag m url) c.max_acceptable_lag

unfoldable pub get_lag_metrics : ℕ → BlockLagMonitor → String → Option BlockLagMetrics
unfolding metrics_of
get_lag_metrics now m url = elim (get_value url m.provider_blocks) [
  | none ↦ none
  | some block ↦ some (metrics_of url block m.network_head now)
]

unfoldable pub get_lag_history : BlockLagMonitor → String → List BlockLagMetrics
get_lag_history m url = history_or_empty (get_value url m.lag_history)

abbrev pub max_lag : ℕ → List BlockLagMetrics → ℕ
max_lag acc [] = acc
max_lag acc (e ∷ es) = max_lag (max acc e.lag) es

unfoldable pub get_max_lag : BlockLagMonitor → String → ℕ
unfolding get_lag_history
get_max_lag m url = max_lag 0 (get_lag_history m url)

abbrev pub keys_where : (String → Bool) → List (String × ℕ) → List String
keys_where p [] = []
keys_where p ((url, block) ∷ es) = let rest = keys_where p es in if p url then url ∷ rest else rest

unfoldable pub get_providers_with_acceptable_lag :
    BlockLagMonitorConfig → BlockLagMonitor → List String
unfolding is_provider_acceptable
get_providers_with_acceptable_lag c m = keys_where (is_provider_acceptable c m) m.provider_blocks

unfoldable pub get_providers_with_stale_lag : BlockLagMonitorConfig → BlockLagMonitor → List String
unfolding is_provider_stale
get_providers_with_stale_lag c m = keys_where (is_provider_stale c m) m.provider_blocks

-- A call that may change the monitor.
pub data Call : Type 0 where
  reports : String → ℕ → Call
  advances : ℕ → Call

unfoldable pub step : BlockLagMonitor → ℕ × Call → BlockLagMonitor
unfolding update_provider_block update_network_head
step m (now, reports url block) = update_provider_block url block m
step m (now, advances block) = update_network_head now block m

unfoldable pub run : BlockLagMonitor → List (ℕ × Call) → BlockLagMonitor
run m [] = m
run m (e ∷ es) = run (step m e) es
