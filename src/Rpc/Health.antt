-- ===== src/Rpc/Health.antt =====
-- packages/chain/src/rpc/health-tracker.ts. The tracker holds its circuit breaker, which the client
-- shares; a rate or an average is the fraction of two whole numbers that the code divides.
pub mod Records
pub mod Circuit
mod Tests
use hood_sentry.Prelude.{
  ℕ, zero, suc, ◌+◌, ◌-◌, ◌*◌, ◌/◌, ◌%◌, ◌^◌, ◌≤◌, ◌<◌, min, max, ◌≡◌, refl, sym, ap, ◌∙◌, subst,
  ◌≢◌, ◌↔◌, ◌⊎◌, inl, inr, Bool, true, false, not, ◌&&◌, ◌||◌, Option, none, some, List, [], ◌∷◌,
  ◌++◌, map, arith, ltb, leb, ◌==◌, if◌then◌else◌, ltb→lt, lt→ltb, leb→le, ==_iff, tests,
  Bool-cases, Option-cases, length, get_elem?, set, get_or, take, drop, replicate, length-append,
  length-take, length-drop, length-map, length-replicate,
}
use Prim.Native.String.{String}
use hood_sentry.Prelude.{sort_by}
use hood_sentry.Rpc.CircuitBreaker.{
  CircuitState, closed, opened, half_open, CircuitBreakerConfig, CircuitBreakerState,
  get_circuit_state,
}
use hood_sentry.Rpc.CircuitBreaker as CircuitBreaker

pub data Role : Type 0 where
  primary secondary archive : Role

-- `over / (rest + 1)`: what the code divides by is a length that is not 0.
pub record Ratio : Type 0 where
  pub over : ℕ
  pub rest : ℕ

abbrev pub under : Ratio → ℕ
under r = suc r.rest

abbrev pub no_rate : Ratio
no_rate = record { over = 0; rest = 0 }

pub record ProviderHealth : Type 0 where
  pub provider_url : String
  pub role : Role
  pub is_healthy : Bool
  pub circuit_state : CircuitState
  pub latency_ms : Option ℕ
  pub last_block_number : Option ℕ
  pub last_block_hash : Option String
  pub last_check_time : ℕ
  pub error_rate : Ratio
  pub consecutive_failures : ℕ
  pub chain_id_match : Bool
  pub archive_capable : Option Bool

pub record RpcRequestMetrics : Type 0 where
  pub method : String
  pub provider_url : String
  pub duration_ms : ℕ
  pub success : Bool
  pub error : Option String
  pub timestamp : ℕ

pub record ProviderMetrics : Type 0 where
  pub total_requests : ℕ
  pub successful_requests : ℕ
  pub failed_requests : ℕ
  pub average_latency_ms : Ratio
  pub p95_latency_ms : ℕ
  pub p99_latency_ms : ℕ
  pub error_rate : Ratio
  pub circuit_breaker_trips : ℕ
  pub failovers : ℕ
  pub last_updated : ℕ

pub record ProviderHealthTracker : Type 0 where
  pub health : ProviderHealth
  pub metrics : ProviderMetrics
  pub request_history : List RpcRequestMetrics
  pub circuit_breaker : CircuitBreakerState

abbrev pub max_history_size : ℕ
max_history_size = 1000

abbrev pub fresh_health : String → Role → ℕ → ProviderHealth
fresh_health url role now = record {
  provider_url = url;
  role = role;
  is_healthy = true;
  circuit_state = closed;
  latency_ms = none;
  last_block_number = none;
  last_block_hash = none;
  last_check_time = now;
  error_rate = no_rate;
  consecutive_failures = 0;
  chain_id_match = true;
  archive_capable = none;
}

abbrev pub fresh_metrics : ℕ → ProviderMetrics
fresh_metrics now = record {
  total_requests = 0;
  successful_requests = 0;
  failed_requests = 0;
  average_latency_ms = no_rate;
  p95_latency_ms = 0;
  p99_latency_ms = 0;
  error_rate = no_rate;
  circuit_breaker_trips = 0;
  failovers = 0;
  last_updated = now;
}

unfoldable pub make : String → Role → CircuitBreakerState → ℕ → ProviderHealthTracker
make url role breaker now = record {
  health = fresh_health url role now;
  metrics = fresh_metrics now;
  request_history = [];
  circuit_breaker = breaker;
}

-- `Array.prototype.filter`
abbrev pub filter {ℓ} : {A : Type ℓ} → (A → Bool) → List A → List A
filter p [] = []
filter p (x ∷ xs) = let rest = filter p xs in if p x then x ∷ rest else rest

abbrev pub sum : List ℕ → ℕ
sum [] = 0
sum (n ∷ ns) = n + sum ns

-- `latencies[Math.floor(latencies.length * percent / 100)] ?? 0`: with at most 1000 latencies the
-- float product has the floor of the exact one.
unfoldable pub percentile : ℕ → List ℕ → ℕ
percentile percent latencies = get_or latencies (length latencies * percent / 100) 0

abbrev pub is_success : RpcRequestMetrics → Bool
is_success r = r.success

abbrev pub is_failure : RpcRequestMetrics → Bool
is_failure r = not r.success

abbrev pub is_recent : ℕ → RpcRequestMetrics → Bool
is_recent now r = ltb now (r.timestamp + 60000)

abbrev pub duration : RpcRequestMetrics → ℕ
duration r = r.duration_ms

-- The part of the metrics that the requests of the last minute give.
unfoldable pub with_recent : List RpcRequestMetrics → ProviderMetrics → ProviderMetrics
unfolding sort_by percentile
with_recent [] m = m
with_recent (r ∷ rs) m =
    let latencies = sort_by ltb (map duration (r ∷ rs)) in
    record m {
      average_latency_ms = record { over = sum latencies; rest = length rs };
      p95_latency_ms = percentile 95 latencies;
      p99_latency_ms = percentile 99 latencies;
      error_rate = record { over = length (filter is_failure (r ∷ rs)); rest = length rs };
    }

abbrev pub recent_rate : List RpcRequestMetrics → Ratio → Ratio → Ratio
recent_rate [] old new = old
recent_rate (r ∷ rs) old new = new

unfoldable pub update_metrics : ℕ → ProviderHealthTracker → ProviderHealthTracker
unfolding with_recent
update_metrics now t =
    let recent = filter (is_recent now) t.request_history in
    let counted : ProviderMetrics = record t.metrics {
      total_requests = length t.request_history;
      successful_requests = length (filter is_success t.request_history);
      failed_requests = length (filter is_failure t.request_history);
    } in
    let m = with_recent recent counted in
    record t {
      metrics = record m { last_updated = now };
      health = record t.health { error_rate = recent_rate recent t.health.error_rate m.error_rate };
    }

-- `history.slice(-1000)` where there are more than 1000 entries.
unfoldable pub trim : List RpcRequestMetrics → List RpcRequestMetrics
trim h = if ltb max_history_size (length h) then drop (length h - max_history_size) h else h

unfoldable pub record_request :
    ℕ → RpcRequestMetrics → ProviderHealthTracker → ProviderHealthTracker
unfolding trim update_metrics
record_request now r t =
    update_metrics now (record t { request_history = trim (t.request_history ++ r ∷ []) })

-- The state of the circuit breaker is read back, which may change it too.
unfoldable pub read_circuit :
    CircuitBreakerConfig → ℕ → ProviderHealthTracker → ProviderHealthTracker
unfolding get_circuit_state
read_circuit c now t =
    let b = get_circuit_state c now t.circuit_breaker in
    record t { circuit_breaker = b; health = record t.health { circuit_state = b.state } }

unfoldable pub record_success :
    CircuitBreakerConfig → ℕ → ℕ → ProviderHealthTracker → ProviderHealthTracker
unfolding CircuitBreaker.record_success read_circuit
record_success c now latency t = read_circuit c now (record t {
  health = record t.health {
    consecutive_failures = 0;
    latency_ms = some latency;
    last_check_time = now;
  };
  circuit_breaker = CircuitBreaker.record_success c now t.circuit_breaker;
})

abbrev pub trips_after : CircuitState → ℕ → ℕ
trips_after opened n = n + 1
trips_after _ n = n

unfoldable pub record_failure :
    CircuitBreakerConfig → ℕ → ProviderHealthTracker → ProviderHealthTracker
unfolding CircuitBreaker.record_failure read_circuit
record_failure c now t =
    let failed = read_circuit c now (record t {
      health = record t.health {
        consecutive_failures = t.health.consecutive_failures + 1;
        last_check_time = now;
      };
      circuit_breaker = CircuitBreaker.record_failure c now t.circuit_breaker;
    }) in
    record failed {
      metrics = record failed.metrics {
        circuit_breaker_trips =
            trips_after failed.health.circuit_state failed.metrics.circuit_breaker_trips;
      };
    }

unfoldable pub update_block_info : ℕ → ℕ → String → ProviderHealthTracker → ProviderHealthTracker
update_block_info now number hash t = record t {
  health = record t.health {
    last_block_number = some number;
    last_block_hash = some hash;
    last_check_time = now;
  };
}

unfoldable pub set_chain_id_match : Bool → ProviderHealthTracker → ProviderHealthTracker
set_chain_id_match b t = record t { health = record t.health { chain_id_match = b } }

unfoldable pub set_archive_capable : Bool → ProviderHealthTracker → ProviderHealthTracker
set_archive_capable b t = record t { health = record t.health { archive_capable = some b } }

unfoldable pub record_failover : ProviderHealthTracker → ProviderHealthTracker
record_failover t = record t { metrics = record t.metrics { failovers = t.metrics.failovers + 1 } }

abbrev pub is_open : CircuitState → Bool
is_open opened = true
is_open _ = false

unfoldable pub is_healthy : ProviderHealth → Bool
is_healthy h = h.is_healthy && h.chain_id_match && not (is_open h.circuit_state)

unfoldable pub reset : ℕ → ProviderHealthTracker → ProviderHealthTracker
unfolding CircuitBreaker.reset
reset now t = record {
  health = fresh_health t.health.provider_url t.health.role now;
  metrics = fresh_metrics now;
  request_history = [];
  circuit_breaker = CircuitBreaker.reset t.circuit_breaker;
}
