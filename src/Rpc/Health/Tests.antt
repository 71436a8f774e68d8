-- ===== src/Rpc/Health/Tests.antt =====
-- A provider whose circuit opens at 1000 and is let try again after 500 milliseconds.
use hood_sentry.Prelude.{ℕ, ◌≡◌, refl, Bool, true, false, none, List, [], ◌∷◌}
use hood_sentry.Rpc.CircuitBreaker.{CircuitBreakerConfig, initial}
use hood_sentry.Rpc.Health.{ProviderHealthTracker, RpcRequestMetrics, primary, make}
use hood_sentry.Rpc.Health.Records.{Inv, Call, requests, fails, step, run, run-make-Inv}
use hood_sentry.Rpc.Health.Circuit.{IsTripped}

abbrev config : CircuitBreakerConfig
config = record { failure_threshold = 1; reset_timeout_ms = 500; half_open_max_requests = 2 }

abbrev request : Bool → ℕ → ℕ → RpcRequestMetrics
request success duration now = record {
  method = "eth_call";
  provider_url = "a";
  duration_ms = duration;
  success = success;
  error = none;
  timestamp = now;
}

abbrev calls : List (ℕ × Call)
calls =
    (10, requests (request true 40 10)) ∷ (20, requests (request false 90 20)) ∷ (1000, fails) ∷ []

abbrev tripped : ProviderHealthTracker
tripped = run config (make "a" primary initial 0) calls

latest_percentile : tripped.metrics.p95_latency_ms ≡ 90
unfolding run step make
latest_percentile = refl

tripped-IsTripped : IsTripped 1000 tripped
unfolding run step make initial
tripped-IsTripped = record { open_circuit = refl; failed = refl; flagged = refl; on_chain = refl }

run-make-Inv_example : Inv tripped
run-make-Inv_example = run-make-Inv config "a" primary 0 calls
