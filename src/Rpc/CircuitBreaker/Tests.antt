-- ===== src/Rpc/CircuitBreaker/Tests.antt =====
-- Runs of a circuit breaker that opens after three failures, for a second, and closes after two
-- successes.
use hood_sentry.Prelude.{◌≡◌, refl, true, false, none, some, [], ◌∷◌, ◌++◌, arith}
use hood_sentry.Rpc.CircuitBreaker.{
  CircuitBreakerConfig, CircuitBreakerState, closed, opened, half_open, initial, executes, succeeds,
  step, run, can_execute,
}
use hood_sentry.Rpc.CircuitBreaker.Trips.{
  failures, successes, failures_trip, opened_refuses, opened_recovers,
}

abbrev config : CircuitBreakerConfig
config = record { failure_threshold = 3; reset_timeout_ms = 1000; half_open_max_requests = 2 }

abbrev tripped : CircuitBreakerState
tripped = record {
  state = opened;
  failure_count = 3;
  last_failure_time = some 30;
  last_success_time = none;
  half_open_attempts = 0;
}

abbrev probing : CircuitBreakerState
probing = record tripped { state = half_open }

trips_after_three : run config initial (failures (10 ∷ 20 ∷ 30 ∷ [])) ≡ tripped
unfolding run step initial
trips_after_three = refl

success_forgets_failures :
    (run config initial (failures (10 ∷ 20 ∷ []) ++ (25, succeeds) ∷ failures (30 ∷ 40 ∷ []))).state
    ≡ closed
unfolding run step initial
success_forgets_failures = refl

failures_trip_example : (run config initial (failures (10 ∷ 20 ∷ 30 ∷ []))).state ≡ opened
unfolding initial
failures_trip_example = failures_trip config initial (10 ∷ 20 ∷ 30 ∷ []) refl (omega arith)

opened_refuses_example :
    can_execute config 1029 (run config tripped ((40, executes) ∷ (50, succeeds) ∷ []))
    ≡ (tripped, false)
opened_refuses_example =
    opened_refuses config tripped 30 ((40, executes) ∷ (50, succeeds) ∷ []) 1029 refl refl
      (omega arith, (λ e. cc), (λ e. cc), (omega arith, (λ e. cc), (λ e. cc), tt)) (omega arith)

opened_recovers_example :
    ((can_execute config 1030 tripped).1 ≡ true)
    × ((run config (can_execute config 1030 tripped).0 (successes (1040 ∷ 1050 ∷ []))).state
        ≡ closed)
opened_recovers_example =
    opened_recovers config tripped 30 1030 (1040 ∷ 1050 ∷ []) refl refl (omega arith) (omega arith)
