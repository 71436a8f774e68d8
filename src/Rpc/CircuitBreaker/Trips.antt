-- ===== src/Rpc/CircuitBreaker/Trips.antt =====
-- When a circuit breaker opens, what it refuses, and how it recovers.
use hood_sentry.Prelude.{
  ℕ, ◌+◌, ◌≤◌, ◌<◌, ◌≡◌, refl, ◌≢◌, inl, inr, true, false, some, List, [], ◌∷◌, map, arith, leb,
  if◌then◌else◌, Bool-cases, length,
}
use hood_sentry.Rpc.CircuitBreaker.{
  CircuitBreakerConfig, CircuitBreakerState, closed, opened, half_open, Call, succeeds, fails,
  resets, step, run, can_execute,
}

abbrev pub failures : List ℕ → List (ℕ × Call)
failures = map (λ t. (t, fails))

abbrev pub successes : List ℕ → List (ℕ × Call)
successes = map (λ t. (t, succeeds))

fail_opened :
    (c : CircuitBreakerConfig) (s : CircuitBreakerState) (t : ℕ)
    → s.state ≡ opened
    → (step c s (t, fails)).state ≡ opened
unfolding step
fail_opened c s t h = ground arith

run-opened :
    (c : CircuitBreakerConfig) (s : CircuitBreakerState) (ts : List ℕ)
    → s.state ≡ opened
    → (run c s (failures ts)).state ≡ opened
unfolding run
run-opened c s [] h = h
run-opened c s (t ∷ ts) h = run-opened c (step c s (t, fails)) ts (fail_opened c s t h)

fail_closed :
    (c : CircuitBreakerConfig) (s : CircuitBreakerState) (t : ℕ)
    → s.state ≡ closed
    → (step c s (t, fails)).state
      ≡ (if leb c.failure_threshold (s.failure_count + 1) then opened else closed)
unfolding step
fail_closed c s t h = ground arith

fail_count :
    (c : CircuitBreakerConfig) (s : CircuitBreakerState) (t : ℕ)
    → s.state ≡ closed
    → (step c s (t, fails)).failure_count ≡ s.failure_count + 1
unfolding step
fail_count c s t h = ground arith

-- A closed circuit that sees only failures, at any times, is open exactly from the failure on that
-- brings the count to the threshold, and closed before.
pub failures_trip :
    (c : CircuitBreakerConfig) (s : CircuitBreakerState) (ts : List ℕ)
    → s.state ≡ closed
    → s.failure_count < c.failure_threshold
    → (run c s (failures ts)).state
      ≡ (if leb c.failure_threshold (s.failure_count + length ts) then opened else closed)
unfolding run
failures_trip c s [] h k = ground arith
failures_trip c s (t ∷ ts) h k = elim (Bool-cases (leb c.failure_threshold (s.failure_count + 1))) [
  | inl yes' ↦ ground (arith, run-opened c (step c s (t, fails)) ts, fail_closed c s t h)
  | inr no' ↦
      ground
        (arith, failures_trip c (step c s (t, fails)) ts, fail_closed c s t h, fail_count c s t h)
]

-- Calls before the time `limit` that neither record a failure nor reset.
abbrev pub Quiet : ℕ → List (ℕ × Call) → Type 0
Quiet limit [] = Unit
Quiet limit ((t, e) ∷ es) = (t < limit) × (e ≢ fails) × (e ≢ resets) × Quiet limit es

step-opened :
    (c : CircuitBreakerConfig) (s : CircuitBreakerState) (t now : ℕ) (e : Call)
    → s.state ≡ opened
    → s.last_failure_time ≡ some t
    → now < t + c.reset_timeout_ms
    → e ≢ fails
    → e ≢ resets
    → step c s (now, e) ≡ s
unfolding step
step-opened c s t now e h k l m n = ground arith

run-Quiet :
    (c : CircuitBreakerConfig) (s : CircuitBreakerState) (t : ℕ) (es : List (ℕ × Call))
    → s.state ≡ opened
    → s.last_failure_time ≡ some t
    → Quiet (t + c.reset_timeout_ms) es
    → run c s es ≡ s
unfolding run
run-Quiet c s t [] h k q = refl
run-Quiet c s t ((u, e) ∷ es) h k (lt, nf, nr, q) =
    rw (step-opened c s t u e h k lt nf nr) (run-Quiet c s t es h k q)

opened_waits :
    (c : CircuitBreakerConfig) (s : CircuitBreakerState) (t now : ℕ)
    → s.state ≡ opened
    → s.last_failure_time ≡ some t
    → now < t + c.reset_timeout_ms
    → can_execute c now s ≡ (s, false)
unfolding can_execute
opened_waits c s t now h k l = ground arith

-- Until the reset timeout since the last failure is over, an open circuit is changed by no call but a
-- failure or a reset, and it refuses every request.
pub opened_refuses :
    (c : CircuitBreakerConfig) (s : CircuitBreakerState) (t : ℕ) (es : List (ℕ × Call)) (now : ℕ)
    → s.state ≡ opened
    → s.last_failure_time ≡ some t
    → Quiet (t + c.reset_timeout_ms) es
    → now < t + c.reset_timeout_ms
    → can_execute c now (run c s es) ≡ (s, false)
opened_refuses c s t es now h k q l = rw (run-Quiet c s t es h k q) (opened_waits c s t now h k l)

succeed_half_open :
    (c : CircuitBreakerConfig) (s : CircuitBreakerState) (t : ℕ)
    → s.state ≡ half_open
    → ((step c s (t, succeeds)).state
        ≡ (if leb c.half_open_max_requests (s.half_open_attempts + 1) then closed else half_open))
      × ((step c s (t, succeeds)).state ≡ half_open
          → (step c s (t, succeeds)).half_open_attempts ≡ s.half_open_attempts + 1)
unfolding step
succeed_half_open c s t h = ground arith

succeed_closed :
    (c : CircuitBreakerConfig) (s : CircuitBreakerState) (t : ℕ)
    → s.state ≡ closed
    → (step c s (t, succeeds)).state ≡ closed
unfolding step
succeed_closed c s t h = ground arith

run_closed :
    (c : CircuitBreakerConfig) (s : CircuitBreakerState) (ts : List ℕ)
    → s.state ≡ closed
    → (run c s (successes ts)).state ≡ closed
unfolding run
run_closed c s [] h = h
run_closed c s (t ∷ ts) h = run_closed c (step c s (t, succeeds)) ts (succeed_closed c s t h)

successes_close :
    (c : CircuitBreakerConfig) (s : CircuitBreakerState) (ts : List ℕ)
    → s.state ≡ half_open
    → s.half_open_attempts < c.half_open_max_requests
    → (run c s (successes ts)).state ≡ (
        if leb c.half_open_max_requests (s.half_open_attempts + length ts)
        then closed
        else half_open)
unfolding run
successes_close c s [] h k = ground arith
successes_close c s (t ∷ ts) h k =
    let (goes, counts) = succeed_half_open c s t h in
    elim (Bool-cases (leb c.half_open_max_requests (s.half_open_attempts + 1))) [
      | inl yes' ↦ ground (arith, run_closed c (step c s (t, succeeds)) ts, goes)
      | inr no' ↦ ground (arith, successes_close c (step c s (t, succeeds)) ts, goes, counts)
    ]

-- Once the reset timeout is over, an open circuit admits a request as half-open, and then closes
-- exactly when as many successes have come as the half-open limit says.
pub opened_recovers :
    (c : CircuitBreakerConfig) (s : CircuitBreakerState) (t now : ℕ) (ts : List ℕ)
    → s.state ≡ opened
    → s.last_failure_time ≡ some t
    → t + c.reset_timeout_ms ≤ now
    → 0 < c.half_open_max_requests
    → ((can_execute c now s).1 ≡ true)
      × ((run c (can_execute c now s).0 (successes ts)).state
          ≡ (if leb c.half_open_max_requests (length ts) then closed else half_open))
unfolding can_execute
opened_recovers c s t now ts h k l m =
    (ground arith, ground (arith, successes_close c (can_execute c now s).0 ts))

-- How many of the requests at the given times are admitted, none of which has ended yet.
unfoldable pub admitted : CircuitBreakerConfig → CircuitBreakerState → List ℕ → ℕ
admitted c s [] = 0
admitted c s (t ∷ ts) =
    let (s', granted) = can_execute c t s in
    let rest = admitted c s' ts in if granted then rest + 1 else rest

half_open_admits :
    (c : CircuitBreakerConfig) (s : CircuitBreakerState) (t : ℕ)
    → s.state ≡ half_open
    → s.half_open_attempts < c.half_open_max_requests
    → can_execute c t s ≡ (s, true)
unfolding can_execute
half_open_admits c s t h k = ground arith

-- A half-open circuit that admits one request admits any number of them while none of them has
-- ended: an admission uses up nothing of the half-open limit.
pub half_open_unmetered :
    (c : CircuitBreakerConfig) (s : CircuitBreakerState) (ts : List ℕ)
    → s.state ≡ half_open
    → s.half_open_attempts < c.half_open_max_requests
    → admitted c s ts ≡ length ts
unfolding admitted
half_open_unmetered c s [] h k = refl
half_open_unmetered c s (t ∷ ts) h k =
    ground (arith, half_open_admits c s t h k, half_open_unmetered c s ts h k)
