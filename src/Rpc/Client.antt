-- ===== src/Rpc/Client.antt =====
-- packages/chain/src/rpc/rpc-client.ts: how one call goes over the providers, with no other call in
-- between. A provider has a client object exactly if it has a tracker, and the tracker's circuit
-- breaker is the client's. The wait for the rate limiter only passes time.
pub mod Once
mod Tests
use hood_sentry.Prelude.{
  ℕ, zero, suc, ◌+◌, ◌-◌, ◌*◌, ◌/◌, ◌%◌, ◌^◌, ◌≤◌, ◌<◌, min, max, ◌≡◌, refl, sym, ap, ◌∙◌, subst,
  ◌≢◌, ◌↔◌, ◌⊎◌, inl, inr, Bool, true, false, not, ◌&&◌, ◌||◌, Option, none, some, List, [], ◌∷◌,
  ◌++◌, map, arith, ltb, leb, ◌==◌, if◌then◌else◌, ltb→lt, lt→ltb, leb→le, ==_iff, tests,
  Bool-cases, Option-cases, length, get_elem?, set, get_or, take, drop, replicate, length-append,
  length-take, length-drop, length-map, length-replicate,
}
use Prim.Native.String.{String}
use hood_sentry.Prelude.Dict.{get_value, set_value}
use hood_sentry.Rpc.CircuitBreaker.{CircuitBreakerConfig, can_execute}
use hood_sentry.Rpc.RetryPolicy.{
  Error, rpc_error, Thrown, an_error, Outcome, returned, threw, RetryPolicyConfig, RetryOptions,
  Run, execute,
}
use hood_sentry.Rpc.Health.{
  ProviderHealthTracker, RpcRequestMetrics, record_success, record_failure, record_request,
  record_failover,
}
use hood_sentry.Rpc.Selector.{
  ProviderSelector, listed, select_provider_for_method, select_fallback_provider,
}

-- What a run of the operation on a provider does, and the clock before and after it.
pub record Answer {ℓ} (A : Type ℓ) : Type ℓ where
  pub start_time : ℕ
  pub end_time : ℕ
  pub outcome : Outcome A

-- The state of a call: what the selector reads, the providers tried, and those that the operation was
-- run on, in order.
pub record Call : Type 0 where
  pub selector : ProviderSelector
  pub tried_providers : List String
  pub called : List String

-- A ProviderUnavailableError, which is an RPCError that is not retryable.
abbrev pub unavailable : Thrown
unavailable = an_error (rpc_error false)

abbrev pub with_tracker : String → ProviderHealthTracker → Call → Call
with_tracker url t c = record c {
  selector = record c.selector { health_trackers = set_value url t c.selector.health_trackers };
}

-- The message of an error is left out.
abbrev pub metrics_of : String → String → ℕ → ℕ → Bool → RpcRequestMetrics
metrics_of method url start end success = record {
  method = method;
  provider_url = url;
  duration_ms = end - start;
  success = success;
  error = if success then none else some "";
  timestamp = end;
}

-- The tracker after an answer.
unfoldable pub answered {ℓ} :
    {A : Type ℓ}
    → CircuitBreakerConfig
    → String
    → String
    → Answer A
    → ProviderHealthTracker
    → ProviderHealthTracker
unfolding record_success record_failure record_request
answered config method url a t =
    let now = a.end_time in
    elim a.outcome [
      | returned x ↦
          record_request now (metrics_of method url a.start_time now true)
            (record_success config now (now - a.start_time) t)
      | threw e ↦
          record_request now (metrics_of method url a.start_time now false)
            (record_failure config now t)
    ]

abbrev pub refused {ℓ} : {A : Type ℓ} → Call → Call × Outcome A
refused c = (c, threw unavailable)

abbrev pub selected : Option String → Option String → List String → Option String
selected none fallback tried = none
selected (some url) fallback tried = if listed tried url then fallback else some url

abbrev pub tries : String → Call → Call
tries url c = record c { tried_providers = c.tried_providers ++ url ∷ [] }

abbrev pub failing_over : String → Option ProviderHealthTracker → Call → Call
failing_over url none c = c
failing_over url (some t) c = with_tracker url (record_failover t) c

abbrev pub fresh_call : ProviderSelector → Call
fresh_call s = record { selector = s; tried_providers = []; called = [] }

module _ {ℓ} {A : Type ℓ} (config : CircuitBreakerConfig) (method : String) (clock : ℕ → ℕ)
    (answers : ℕ → Answer A) where
  -- With the tracker of the provider; the operation's next run is the one after those of `called`.
  unfoldable pub execute_with_tracker : String → ProviderHealthTracker → Call → Call × Outcome A
  unfolding can_execute answered
  execute_with_tracker url t c =
      let (breaker, admitted) =
        can_execute config (clock (length c.tried_providers)) t.circuit_breaker in
      let checked = record t { circuit_breaker = breaker } in
      let a = answers (length c.called) in
      let ran =
        with_tracker url (answered config method url a checked)
          (record c { called = c.called ++ url ∷ [] }) in
      if admitted then (ran, a.outcome) else refused (with_tracker url checked c)

  abbrev pub execute_tracked : String → Option ProviderHealthTracker → Call → Call × Outcome A
  execute_tracked url none c = refused c
  execute_tracked url (some t) c = execute_with_tracker url t c

  unfoldable pub execute_on_provider : String → Call → Call × Outcome A
  execute_on_provider url c = execute_tracked url (get_value url c.selector.health_trackers) c

  unfoldable pub select_next_provider : Call → Option String
  select_next_provider c =
      selected (select_provider_for_method c.selector method)
        (select_fallback_provider c.selector c.tried_providers) c.tried_providers

  abbrev pub fall_back : Thrown → Option String → Call → Call × Outcome A
  fall_back error none c = (c, threw error)
  fall_back error (some url) c =
      execute_on_provider url
        (failing_over url (get_value url c.selector.health_trackers) (tries url c))

  unfoldable pub handle_provider_error : Thrown → Call → Call × Outcome A
  unfolding execute_on_provider
  handle_provider_error error c =
      fall_back error (select_fallback_provider c.selector c.tried_providers) c

  abbrev pub caught : Call → Outcome A → Call × Outcome A
  caught c (returned a) = (c, returned a)
  caught c (threw e) = handle_provider_error e c

  abbrev pub attempt_on : Option String → Call → Call × Outcome A
  attempt_on none c = refused c
  attempt_on (some url) c = let (c', o) = execute_on_provider url (tries url c) in caught c' o

  -- The function that `executeWithFailover` hands to the retry policy.
  unfoldable pub attempt : Call → Call × Outcome A
  unfolding select_next_provider handle_provider_error execute_on_provider
  attempt c = attempt_on (select_next_provider c) c

  -- The state after so many attempts.
  unfoldable pub after_attempts : Call → ℕ → Call
  unfolding attempt
  after_attempts c zero = c
  after_attempts c (suc n) = (attempt (after_attempts c n)).0

  unfoldable pub attempt_outcome : Call → ℕ → Outcome A
  unfolding attempt after_attempts
  attempt_outcome c n = (attempt (after_attempts c (n - 1))).1

  unfoldable pub execute_with_failover :
      RetryPolicyConfig → RetryOptions → (ℕ → ℕ) → ProviderSelector → Run A × Call
  unfolding execute attempt_outcome after_attempts
  execute_with_failover policy options draw s =
      let run = execute policy options draw (attempt_outcome (fresh_call s)) in
      (run, after_attempts (fresh_call s) run.attempts)
