-- ===== src/Rpc/RetryPolicy/Tests.antt =====
-- Runs of a policy of three attempts.
use hood_sentry.Prelude.{ℕ, zero, suc, ◌*◌, ◌≡◌, refl, inl, true, none, [], ◌∷◌, arith}
use hood_sentry.Prelude.Codes.{codes, includes, to_lower_case}
use hood_sentry.Rpc.RetryPolicy.{
  an_error, a_value, Outcome, returned, threw, ok, RetryPolicyConfig, RetryOptions, Plan, loop,
  execute, rpc_error, unit, default_should_retry, calculate_delay, normalize_error,
}
use hood_sentry.Rpc.RetryPolicy.Attempts.{loop-Decides}

abbrev plain : Plan
plain = record {
  max_attempts = 3;
  delay = λ attempt e. 100 * attempt;
  should_retry = default_should_retry;
}

abbrev second_time : ℕ → Outcome ℕ
second_time (suc zero) = threw (a_value (codes "Network down"))
second_time n = returned n

abbrev never : ℕ → Outcome ℕ
never n = threw (an_error (rpc_error true))

loop-Decides_example :
    loop plain second_time 3 0 none ≡ record { result = ok 2; attempts = 2; delays = 100 ∷ [] }
unfolding normalize_error default_should_retry includes to_lower_case
loop-Decides_example =
    loop-Decides plain second_time 1 (ok 2) (omega arith)
      (a_value (codes "Network down"), refl, refl, tt) (inl (2, refl, refl))

abbrev config : RetryPolicyConfig
config = record {
  max_attempts = 3;
  base_delay_ms = 1000;
  max_delay_ms = 1500;
  backoff_multiplier = 2;
  jitter_enabled = true;
}

abbrev no_options : RetryOptions
no_options = record {
  max_attempts = none;
  base_delay_ms = none;
  max_delay_ms = none;
  backoff_multiplier = none;
  should_retry = none;
}

jitter_delays :
    (execute config no_options (λ i. 4503599627370496) never).delays
    ≡ (1050 * unit) ∷ (1575 * unit) ∷ []
unfolding execute default_should_retry normalize_error calculate_delay
jitter_delays = refl
