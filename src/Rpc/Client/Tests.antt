-- ===== src/Rpc/Client/Tests.antt =====
-- A client with one provider, whose first answer is a timeout and whose later answers would be good.
use hood_sentry.Prelude.{ℕ, ◌≡◌, refl, true, false, none, some, [], ◌∷◌, ◌==◌, if◌then◌else◌}
use hood_sentry.Prelude.Dict.{get_value, set_value}
use hood_sentry.Rpc.CircuitBreaker.{CircuitBreakerConfig, initial}
use hood_sentry.Rpc.RetryPolicy.{
  Thrown, an_error, rpc_error, Outcome, returned, threw, Result, ok, err, RetryPolicyConfig,
  RetryOptions, default_should_retry, normalize_error, execute,
}
use hood_sentry.Rpc.RetryPolicy as RetryPolicy
use hood_sentry.Rpc.Health.{primary, secondary, make, is_healthy, record_failover}
use hood_sentry.Rpc.Selector.{
  ProviderSelector, select_provider_for_method, select_fallback_provider,
}
use hood_sentry.Rpc.Selector as Selector
use hood_sentry.Rpc.Client.{Answer, execute_with_failover, execute_with_tracker}
use hood_sentry.Rpc.Client.Once.{Distinct, execute_with_failover-Distinct}

abbrev config : CircuitBreakerConfig
config = record { failure_threshold = 5; reset_timeout_ms = 1000; half_open_max_requests = 1 }

abbrev policy : RetryPolicyConfig
policy = RetryPolicy.make_config none none none none none

abbrev no_options : RetryOptions
no_options = record {
  max_attempts = none;
  base_delay_ms = none;
  max_delay_ms = none;
  backoff_multiplier = none;
  should_retry = none;
}

abbrev one_provider : ProviderSelector
one_provider = record {
  config = Selector.make_config none none (some false);
  health_trackers = ("a", make "a" primary initial 0) ∷ [];
  block_lag_monitor = record { provider_blocks = []; network_head = 0; lag_history = [] };
  primary_url = "a";
  secondary_url = none;
  archive_url = none;
}

abbrev two_providers : ProviderSelector
two_providers = record one_provider {
  health_trackers = ("a", make "a" primary initial 0) ∷ ("b", make "b" secondary initial 0) ∷ [];
  secondary_url = some "b";
}

-- A TimeoutError, which is retryable, and then a good answer.
abbrev answers : ℕ → Answer ℕ
answers n = record {
  start_time = 10;
  end_time = 20;
  outcome = if n == 0 then threw (an_error (rpc_error true)) else returned 42;
}

other_provider_answers :
    (execute_with_failover config "eth_call"
      (λ n. 5)
      answers
      policy
      no_options
      (λ n. 0)
      two_providers).0.result
    ≡ ok 42
unfolding execute_with_failover get_value set_value is_healthy make initial RetryPolicy.make_config
    Selector.make_config select_provider_for_method execute_with_tracker select_fallback_provider
    record_failover
other_provider_answers = refl

-- The timeout is retried, but no provider is left to try: the call fails with the error that the
-- providers are exhausted, which is not retryable, and the good answer is not asked for.
one_provider_is_not_retried :
    (execute_with_failover config "eth_call"
      (λ n. 5)
      answers
      policy
      no_options
      (λ n. 0)
      one_provider).0
    ≡ record {
      result = err (rpc_error false);
      attempts = 2;
      delays = RetryPolicy.calculate_delay true 1 1000 30000 2 (rpc_error true) 0 ∷ [];
    }
unfolding execute_with_failover get_value set_value is_healthy make initial RetryPolicy.make_config
    Selector.make_config select_provider_for_method execute_with_tracker select_fallback_provider
    default_should_retry normalize_error
one_provider_is_not_retried = refl

execute_with_failover-Distinct_example :
    Distinct
      (execute_with_failover config "eth_call"
        (λ n. 5)
        answers
        policy
        no_options
        (λ n. 0)
        two_providers).1.called
unfolding make
execute_with_failover-Distinct_example =
    execute_with_failover-Distinct config "eth_call" (λ n. 5) answers policy no_options (λ n. 0)
      two_providers (refl, (refl, tt))
