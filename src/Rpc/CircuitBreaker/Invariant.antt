-- ===== src/Rpc/CircuitBreaker/Invariant.antt =====
-- What holds of a circuit breaker between two calls.
use hood_sentry.Prelude.{ℕ, ◌<◌, ◌≡◌, ◌≢◌, ◌⊎◌, none, List, [], ◌∷◌, arith}
use hood_sentry.Rpc.CircuitBreaker.{
  CircuitBreakerConfig, CircuitBreakerState, closed, opened, half_open, initial, Call, step, run,
}

pub record Inv (c : CircuitBreakerConfig) (s : CircuitBreakerState) : Type 0 where
  pub closed_below : s.state ≡ closed → s.failure_count < c.failure_threshold
  pub opened_failed : s.state ≡ opened → s.last_failure_time ≢ none
  pub half_open_below :
      s.state ≡ half_open
      → (s.half_open_attempts ≡ 0) ⊎ (s.half_open_attempts < c.half_open_max_requests)
  pub attempts_idle : s.state ≢ half_open → s.half_open_attempts ≡ 0

-- Every call keeps the invariant.
pub step-Inv :
    (c : CircuitBreakerConfig) (s : CircuitBreakerState) (e : ℕ × Call)
    → 0 < c.failure_threshold
    → Inv c s
    → Inv c (step c s e)
unfolding step initial
step-Inv c s (now, e) h v = ground arith

initial-Inv : (c : CircuitBreakerConfig) → 0 < c.failure_threshold → Inv c initial
unfolding initial
initial-Inv c h = ground arith

run-Inv :
    (c : CircuitBreakerConfig) (s : CircuitBreakerState) (es : List (ℕ × Call))
    → 0 < c.failure_threshold
    → Inv c s
    → Inv c (run c s es)
unfolding run
run-Inv c s [] h v = v
run-Inv c s (e ∷ es) h v = run-Inv c (step c s e) es h (step-Inv c s e h v)

-- Whatever calls are made at whatever times on a new breaker with a positive threshold: a closed
-- circuit has fewer failures in a row than the threshold, an open one has a failure time, a half-open
-- one has no successes yet or fewer than it needs to close, and only a half-open one counts successes.
pub run-initial-Inv :
    (c : CircuitBreakerConfig) (es : List (ℕ × Call))
    → 0 < c.failure_threshold
    → Inv c (run c initial es)
run-initial-Inv c es h = run-Inv c initial es h (initial-Inv c h)
