-- ===== src/Rpc/CircuitBreaker.antt =====
-- packages/chain/src/rpc/circuit-breaker.ts. A method of the class returns the new state; it reads
-- the clock once, `now`, since the method runs without a wait.
pub mod Invariant
pub mod Trips
mod Tests
use hood_sentry.Prelude.{
  ℕ, zero, suc, ◌+◌, ◌≡◌, Bool, true, false, Option, none, some, List, [], ◌∷◌, ltb, leb,
  if◌then◌else◌,
}

pub data CircuitState : Type 0 where
  closed opened half_open : CircuitState

pub record CircuitBreakerConfig : Type 0 where
  pub failure_threshold : ℕ
  pub reset_timeout_ms : ℕ
  pub half_open_max_requests : ℕ

pub record CircuitBreakerState : Type 0 where
  pub state : CircuitState
  pub failure_count : ℕ
  pub last_failure_time : Option ℕ
  pub last_success_time : Option ℕ
  pub half_open_attempts : ℕ

-- The state of a new breaker, and the one that `reset` goes back to.
unfoldable pub initial : CircuitBreakerState
initial = record {
  state = closed;
  failure_count = 0;
  last_failure_time = none;
  last_success_time = none;
  half_open_attempts = 0;
}

unfoldable pub reset : CircuitBreakerState → CircuitBreakerState
unfolding initial
reset s = initial

unfoldable pub transition_to_open : CircuitBreakerState → CircuitBreakerState
transition_to_open s = record s { state = opened; half_open_attempts = 0 }

unfoldable pub transition_to_half_open : CircuitBreakerState → CircuitBreakerState
transition_to_half_open s = record s { state = half_open; half_open_attempts = 0 }

unfoldable pub transition_to_closed : ℕ → CircuitBreakerState → CircuitBreakerState
transition_to_closed now s = record s {
  state = closed;
  failure_count = 0;
  half_open_attempts = 0;
  last_success_time = some now;
}

-- `now - lastFailureTime >= resetTimeoutMs`, for an open circuit that has failed once. The sum says
-- the same where the clock was set back.
abbrev pub has_timed_out : CircuitBreakerConfig → ℕ → CircuitState → Option ℕ → Bool
has_timed_out c now opened (some t) = leb (t + c.reset_timeout_ms) now
has_timed_out c now _ _ = false

unfoldable pub get_circuit_state :
    CircuitBreakerConfig → ℕ → CircuitBreakerState → CircuitBreakerState
unfolding transition_to_half_open
get_circuit_state c now s =
    if has_timed_out c now s.state s.last_failure_time then transition_to_half_open s else s

abbrev pub admits : CircuitBreakerConfig → CircuitState → ℕ → Bool
admits c closed attempts = true
admits c opened attempts = false
admits c half_open attempts = ltb attempts c.half_open_max_requests

unfoldable pub can_execute :
    CircuitBreakerConfig → ℕ → CircuitBreakerState → CircuitBreakerState × Bool
unfolding get_circuit_state
can_execute c now s =
    let t = get_circuit_state c now s in (t, admits c t.state t.half_open_attempts)

unfoldable pub succeed :
    CircuitBreakerConfig → ℕ → CircuitState → CircuitBreakerState → CircuitBreakerState
unfolding transition_to_closed
succeed c now half_open s =
    let t = record s { half_open_attempts = s.half_open_attempts + 1 } in
    if leb c.half_open_max_requests t.half_open_attempts then transition_to_closed now t else t
succeed c now closed s = record s { failure_count = 0; last_success_time = some now }
succeed c now opened s = s

unfoldable pub record_success : CircuitBreakerConfig → ℕ → CircuitBreakerState → CircuitBreakerState
unfolding get_circuit_state succeed
record_success c now s = let t = get_circuit_state c now s in succeed c now t.state t

-- `state` is the state that was read before the failure was counted.
unfoldable pub fail :
    CircuitBreakerConfig → CircuitState → CircuitBreakerState → CircuitBreakerState
unfolding transition_to_open
fail c half_open s = transition_to_open s
fail c closed s = if leb c.failure_threshold s.failure_count then transition_to_open s else s
fail c opened s = s

unfoldable pub record_failure : CircuitBreakerConfig → ℕ → CircuitBreakerState → CircuitBreakerState
unfolding get_circuit_state fail
record_failure c now s =
    let t = get_circuit_state c now s in
    fail c t.state (record t { failure_count = t.failure_count + 1; last_failure_time = some now })

-- A call of one of the public methods that may change the state.
pub data Call : Type 0 where
  reads executes succeeds fails resets : Call

unfoldable pub step : CircuitBreakerConfig → CircuitBreakerState → ℕ × Call → CircuitBreakerState
unfolding get_circuit_state can_execute record_success record_failure reset
step c s (now, reads) = get_circuit_state c now s
step c s (now, executes) = (can_execute c now s).0
step c s (now, succeeds) = record_success c now s
step c s (now, fails) = record_failure c now s
step c s (now, resets) = reset s

unfoldable pub run :
    CircuitBreakerConfig → CircuitBreakerState → List (ℕ × Call) → CircuitBreakerState
run c s [] = s
run c s (e ∷ es) = run c (step c s e) es
