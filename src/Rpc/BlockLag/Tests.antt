-- ===== src/Rpc/BlockLag/Tests.antt =====
-- Runs of a lag monitor.
use hood_sentry.Prelude.{ℕ, ◌≡◌, refl, List, [], ◌∷◌, map}
use hood_sentry.Rpc.BlockLag.{
  BlockLagMonitorConfig, Call, reports, advances, run, step, empty, get_lag, get_lag_history,
  record_lag, record_lags,
}
use hood_sentry.Rpc.BlockLag.Laws.{get_lag-run}
use hood_sentry.Prelude.Dict.{get_value, set_value}

abbrev calls : List (ℕ × Call)
calls =
    (1, reports "a" 90)
    ∷ (2, reports "b" 101)
    ∷ (3, advances 100)
    ∷ (4, advances 95)
    ∷ (5, reports "a" 97)
    ∷ (6, advances 110)
    ∷ []

lag_of_stranger : get_lag (run empty calls) "c" ≡ 9007199254740991
lag_of_stranger = get_lag-run calls "c"

history_of_a : map (λ e. e.lag) (get_lag_history (run empty calls) "a") ≡ 10 ∷ 13 ∷ []
unfolding get_lag_history run step empty get_value set_value record_lag record_lags
history_of_a = refl

abbrev config : BlockLagMonitorConfig
config = record { max_acceptable_lag = 10; stale_threshold = 12; check_interval_ms = 10000 }
