-- ===== src/Rpc/Health/Circuit.antt =====
-- How the health of a provider follows its circuit breaker.
use hood_sentry.Prelude.{ℕ, ◌+◌, ◌<◌, ◌≡◌, true, some, List, [], ◌∷◌, arith, leb, length}
use hood_sentry.Rpc.CircuitBreaker.{
  CircuitBreakerConfig, CircuitBreakerState, CircuitState, opened, get_circuit_state,
}
use hood_sentry.Rpc.CircuitBreaker as CircuitBreaker
use hood_sentry.Rpc.Health.{
  ProviderHealthTracker, read_circuit, record_success, record_failure, is_healthy,
}
use hood_sentry.Rpc.Health.Records.{Call, fails, step, run}

-- A provider whose circuit opened at `last`, and that is otherwise fit for use.
pub record IsTripped (last : ℕ) (t : ProviderHealthTracker) : Type 0 where
  pub open_circuit : t.circuit_breaker.state ≡ opened
  pub failed : t.circuit_breaker.last_failure_time ≡ some last
  pub flagged : t.health.is_healthy ≡ true
  pub on_chain : t.health.chain_id_match ≡ true

-- A success that is recorded for a provider whose circuit is open makes it healthy again exactly if
-- the reset timeout since the last failure is over; an earlier success changes nothing in that.
pub record_success-IsTripped :
    (c : CircuitBreakerConfig) (now latency last : ℕ) (t : ProviderHealthTracker)
    → IsTripped last t
    → is_healthy (record_success c now latency t).health ≡ leb (last + c.reset_timeout_ms) now
unfolding record_success read_circuit is_healthy CircuitBreaker.record_success
    CircuitBreaker.succeed get_circuit_state
record_success-IsTripped c now latency last t h =
    ground (arith, h.open_circuit, h.failed, h.flagged, h.on_chain)

-- Each failure comes before the reset timeout since the one before it is over.
abbrev pub Within : CircuitBreakerConfig → ℕ → List ℕ → Type 0
Within c last [] = Unit
Within c last (now ∷ ts) = (now < last + c.reset_timeout_ms) × Within c now ts

abbrev pub failures : List ℕ → List (ℕ × Call)
failures [] = []
failures (now ∷ ts) = (now, fails) ∷ failures ts

failure-IsTripped :
    (c : CircuitBreakerConfig) (now last : ℕ) (t : ProviderHealthTracker)
    → IsTripped last t
    → now < last + c.reset_timeout_ms
    → 0 < c.reset_timeout_ms
    → IsTripped now (record_failure c now t)
      × ((record_failure c now t).metrics.circuit_breaker_trips
          ≡ t.metrics.circuit_breaker_trips + 1)
unfolding record_failure read_circuit CircuitBreaker.record_failure CircuitBreaker.fail
    get_circuit_state
failure-IsTripped c now last t h k p = (
  record {
    open_circuit = ground (arith, h.open_circuit, h.failed);
    failed = ground (arith, h.open_circuit, h.failed);
    flagged = ground (arith, h.open_circuit, h.failed, h.flagged);
    on_chain = ground (arith, h.open_circuit, h.failed, h.on_chain);
  },
  ground (arith, h.open_circuit, h.failed),
)

-- While the circuit of a provider is open, each failure that is recorded counts as one more trip of
-- the circuit, although it opens only once: n failures, each before the reset timeout since the one
-- before is over, count n trips.
pub open_failures_trip :
    (c : CircuitBreakerConfig) (last : ℕ) (t : ProviderHealthTracker) (ts : List ℕ)
    → IsTripped last t
    → 0 < c.reset_timeout_ms
    → Within c last ts
    → (run c t (failures ts)).metrics.circuit_breaker_trips
      ≡ t.metrics.circuit_breaker_trips + length ts
unfolding run step
open_failures_trip c last t [] h p w = omega arith
open_failures_trip c last t (now ∷ ts) h p (k, w) =
    let (h', one) = failure-IsTripped c now last t h k p in
    omega (arith, one, open_failures_trip c now (record_failure c now t) ts h' p w)
