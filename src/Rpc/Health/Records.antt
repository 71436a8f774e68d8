-- ===== src/Rpc/Health/Records.antt =====
-- What the records of a tracker say, whatever is recorded.
use hood_sentry.Prelude.{
  ℕ, zero, suc, ◌+◌, ◌-◌, ◌*◌, ◌/◌, ◌≤◌, ◌<◌, ◌≡◌, refl, sym, ap, ◌∙◌, subst, Bool, false, List, [],
  ◌∷◌, ◌++◌, map, arith, ltb, length, get_or, length-drop, length-map,
}
use Prim.Native.String.{String}
use hood_sentry.Prelude.{sort_by, Sorted, IsOrder, sort_by-Sorted, length-sort_by, All}
use hood_sentry.Rpc.CircuitBreaker.{CircuitBreakerConfig, CircuitBreakerState, initial}
use hood_sentry.Rpc.CircuitBreaker as CircuitBreaker
use hood_sentry.Rpc.Health.{
  Role, Ratio, under, RpcRequestMetrics, ProviderMetrics, ProviderHealthTracker, make, filter,
  percentile, is_success, is_failure, is_recent, duration, with_recent, recent_rate, update_metrics,
  trim, record_request, read_circuit, record_success, record_failure, update_block_info,
  set_chain_id_match, set_archive_capable, record_failover, reset, max_history_size,
}

-- A call of the tracker, or of its circuit breaker by the client that shares it.
pub data Call : Type 0 where
  requests : RpcRequestMetrics → Call
  succeeds : ℕ → Call
  fails : Call
  sees_block : ℕ → String → Call
  matches_chain archives : Bool → Call
  fails_over : Call
  resets : Call
  shares : CircuitBreaker.Call → Call

unfoldable pub step :
    CircuitBreakerConfig → ProviderHealthTracker → ℕ × Call → ProviderHealthTracker
unfolding record_request record_success record_failure update_block_info set_chain_id_match
    set_archive_capable record_failover reset CircuitBreaker.step
step c t (now, requests r) = record_request now r t
step c t (now, succeeds latency) = record_success c now latency t
step c t (now, fails) = record_failure c now t
step c t (now, sees_block number hash) = update_block_info now number hash t
step c t (now, matches_chain b) = set_chain_id_match b t
step c t (now, archives b) = set_archive_capable b t
step c t (now, fails_over) = record_failover t
step c t (now, resets) = reset now t
step c t (now, shares call) = record t {
  circuit_breaker = CircuitBreaker.step c t.circuit_breaker (now, call);
}

unfoldable pub run :
    CircuitBreakerConfig → ProviderHealthTracker → List (ℕ × Call) → ProviderHealthTracker
run c t [] = t
run c t (e ∷ es) = run c (step c t e) es

-- A part of a whole, which is never nothing.
pub record IsShare (r : Ratio) : Type 0 where
  pub part : r.over ≤ under r

pub record Inv (t : ProviderHealthTracker) : Type 0 where
  pub bounded : length t.request_history ≤ max_history_size
  pub total : t.metrics.total_requests ≡ length t.request_history
  pub counted : t.metrics.successful_requests + t.metrics.failed_requests ≡ t.metrics.total_requests
  pub share : IsShare t.metrics.error_rate
  pub same_rate : t.health.error_rate ≡ t.metrics.error_rate
  pub percentiles : t.metrics.p95_latency_ms ≤ t.metrics.p99_latency_ms

ltb-IsOrder : IsOrder ltb
ltb-IsOrder = record { asym = λ a b h. ground arith; trans = λ a b c h k. ground arith }

get_or-Sorted :
    (xs : List ℕ) (i j : ℕ) → Sorted ltb xs → i ≤ j → j < length xs → get_or xs i 0 ≤ get_or xs j 0
get_or-Sorted [] i j s h k = absurd (omega arith)
get_or-Sorted (x ∷ xs) zero zero s h k = omega arith
get_or-Sorted (x ∷ xs) zero (suc j) (a, s) h k = from xs j a (omega arith)
  where
    from : (ys : List ℕ) (j : ℕ) → All (λ y. ltb y x ≡ false) ys → j < length ys → x ≤ get_or ys j 0
    from [] j b l = absurd (omega arith)
    from (y ∷ ys) zero (b, bs) l = ground arith
    from (y ∷ ys) (suc j) (b, bs) l = from ys j bs (omega arith)
get_or-Sorted (x ∷ xs) (suc i) zero s h k = absurd (omega arith)
get_or-Sorted (x ∷ xs) (suc i) (suc j) (a, s) h k =
    get_or-Sorted xs i j s (omega arith) (omega arith)

percentile_mono :
    (xs : List ℕ) → 0 < length xs → percentile 95 (sort_by ltb xs) ≤ percentile 99 (sort_by ltb xs)
unfolding percentile
percentile_mono xs h =
    let n = length (sort_by ltb xs) in
    let same : n ≡ length xs = length-sort_by ltb xs in
    get_or-Sorted (sort_by ltb xs) (n * 95 / 100) (n * 99 / 100) (sort_by-Sorted ltb ltb-IsOrder xs)
      (omega arith) (omega (arith, same))

length-filter :
    (p : RpcRequestMetrics → Bool) (xs : List RpcRequestMetrics) → length (filter p xs) ≤ length xs
length-filter p [] = omega arith
length-filter p (x ∷ xs) = ground (arith, length-filter p xs)

successes_failures :
    (xs : List RpcRequestMetrics)
    → length (filter is_success xs) + length (filter is_failure xs) ≡ length xs
successes_failures [] = omega arith
successes_failures (x ∷ xs) = ground (arith, successes_failures xs)

length-trim : (h : List RpcRequestMetrics) → length (trim h) ≤ max_history_size
unfolding trim
length-trim h = ground (arith, length-drop (length h - max_history_size) h)

-- The parts of the metrics that `with_recent` may change, and the parts that it keeps.
record Rates (m : ProviderMetrics) : Type 0 where
  share : IsShare m.error_rate
  percentiles : m.p95_latency_ms ≤ m.p99_latency_ms

with_recent-Rates :
    (rs : List RpcRequestMetrics) (m : ProviderMetrics) → Rates m → Rates (with_recent rs m)
unfolding with_recent
with_recent-Rates [] m h = h
with_recent-Rates (r ∷ rs) m h = record {
  share = record { part = length-filter is_failure (r ∷ rs) };
  percentiles =
      percentile_mono (map duration (r ∷ rs)) (omega (arith, length-map (r ∷ rs) duration));
}

record Counts (m k : ProviderMetrics) : Type 0 where
  total : m.total_requests ≡ k.total_requests
  successes : m.successful_requests ≡ k.successful_requests
  failures : m.failed_requests ≡ k.failed_requests

with_recent-Counts :
    (rs : List RpcRequestMetrics) (m : ProviderMetrics) → Counts (with_recent rs m) m
unfolding with_recent
with_recent-Counts [] m = record { total = refl; successes = refl; failures = refl }
with_recent-Counts (r ∷ rs) m = record { total = refl; successes = refl; failures = refl }

same_recent_rate :
    (rs : List RpcRequestMetrics) (m : ProviderMetrics) (old : Ratio)
    → old ≡ m.error_rate
    → recent_rate rs old (with_recent rs m).error_rate ≡ (with_recent rs m).error_rate
unfolding with_recent
same_recent_rate [] m old e = e
same_recent_rate (r ∷ rs) m old e = refl

update_metrics-Inv :
    (now : ℕ) (t : ProviderHealthTracker)
    → length t.request_history ≤ max_history_size
    → Rates t.metrics
    → t.health.error_rate ≡ t.metrics.error_rate
    → Inv (update_metrics now t)
unfolding update_metrics
update_metrics-Inv now t b h e =
    let recent = filter (is_recent now) t.request_history in
    let counted : ProviderMetrics = record t.metrics {
      total_requests = length t.request_history;
      successful_requests = length (filter is_success t.request_history);
      failed_requests = length (filter is_failure t.request_history);
    } in
    let counts = with_recent-Counts recent counted in
    let rates =
      with_recent-Rates recent counted (record { share = h.share; percentiles = h.percentiles }) in
    record {
      bounded = b;
      total = counts.total;
      counted = omega (
        arith,
        counts.total,
        counts.successes,
        counts.failures,
        successes_failures t.request_history,
      );
      share = rates.share;
      same_rate = same_recent_rate recent counted t.health.error_rate e;
      percentiles = rates.percentiles;
    }

make-Inv :
    (url : String) (role : Role) (b : CircuitBreakerState) (now : ℕ) → Inv (make url role b now)
unfolding make
make-Inv url role b now = record {
  bounded = omega arith;
  total = refl;
  counted = refl;
  share = record { part = omega arith };
  same_rate = refl;
  percentiles = omega arith;
}

-- What a call changes besides the requests, the counts and the rates does not matter.
Inv-of :
    (t u : ProviderHealthTracker)
    → Inv t
    → u.request_history ≡ t.request_history
    → u.metrics.total_requests ≡ t.metrics.total_requests
    → u.metrics.successful_requests ≡ t.metrics.successful_requests
    → u.metrics.failed_requests ≡ t.metrics.failed_requests
    → u.metrics.error_rate ≡ t.metrics.error_rate
    → u.metrics.p95_latency_ms ≡ t.metrics.p95_latency_ms
    → u.metrics.p99_latency_ms ≡ t.metrics.p99_latency_ms
    → u.health.error_rate ≡ t.health.error_rate
    → Inv u
Inv-of t u v h a b c r p q e = record {
  bounded = rw h v.bounded;
  total = a ∙ v.total ∙ ap length (sym h);
  counted = omega (arith, v.counted, a, b, c);
  share = subst IsShare (sym r) v.share;
  same_rate = e ∙ v.same_rate ∙ sym r;
  percentiles = omega (arith, v.percentiles, p, q);
}

step-Inv :
    (c : CircuitBreakerConfig) (t : ProviderHealthTracker) (e : ℕ × Call) → Inv t → Inv (step c t e)
unfolding step record_request record_success record_failure read_circuit update_block_info
    set_chain_id_match set_archive_capable record_failover reset make
step-Inv c t (now, requests r) v =
    update_metrics-Inv now (record t { request_history = trim (t.request_history ++ r ∷ []) })
      (length-trim (t.request_history ++ r ∷ []))
      (record { share = v.share; percentiles = v.percentiles }) v.same_rate
step-Inv c t (now, succeeds latency) v = Inv-of t _ v refl refl refl refl refl refl refl refl
step-Inv c t (now, fails) v = Inv-of t _ v refl refl refl refl refl refl refl refl
step-Inv c t (now, sees_block number hash) v = Inv-of t _ v refl refl refl refl refl refl refl refl
step-Inv c t (now, matches_chain b) v = Inv-of t _ v refl refl refl refl refl refl refl refl
step-Inv c t (now, archives b) v = Inv-of t _ v refl refl refl refl refl refl refl refl
step-Inv c t (now, fails_over) v = Inv-of t _ v refl refl refl refl refl refl refl refl
step-Inv c t (now, resets) v =
    Inv-of (make t.health.provider_url t.health.role initial now) _
      (make-Inv t.health.provider_url t.health.role initial now) refl refl refl refl refl refl refl
      refl
step-Inv c t (now, shares call) v = Inv-of t _ v refl refl refl refl refl refl refl refl

run-Inv :
    (c : CircuitBreakerConfig) (t : ProviderHealthTracker) (es : List (ℕ × Call))
    → Inv t
    → Inv (run c t es)
unfolding run
run-Inv c t [] v = v
run-Inv c t (e ∷ es) v = run-Inv c (step c t e) es (step-Inv c t e v)

-- Whatever is recorded of a new provider, at whatever times, and whatever the client does with the
-- circuit breaker that they share: at most 1000 requests are kept, the total counts them, each is a
-- success or a failure, the error rate is at most one and the same in the health as in the metrics,
-- and the 95th percentile is no more than the 99th.
pub run-make-Inv :
    (c : CircuitBreakerConfig) (url : String) (role : Role) (start : ℕ) (es : List (ℕ × Call))
    → Inv (run c (make url role initial start) es)
run-make-Inv c url role start es = run-Inv c _ es (make-Inv url role initial start)
