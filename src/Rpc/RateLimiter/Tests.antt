-- ===== src/Rpc/RateLimiter/Tests.antt =====
-- Runs of a limiter of two requests per second with a burst of three.
use hood_sentry.Prelude.{arith, ℕ, ◌+◌, ◌*◌, ◌≤◌, ◌≡◌, refl, some, List, [], ◌∷◌}
use hood_sentry.Prelude.Int.{pos, pos_part}
use hood_sentry.Rpc.RateLimiter.{
  RateLimiterConfig, RateLimiter, make, Event, acquires, wakes, resets, run, step,
}
use hood_sentry.Rpc.RateLimiter.Bounds.{run_bound}

abbrev config : RateLimiterConfig
config = record { requests_per_second = 2; burst_size = some 3 }

abbrev calls : List (ℕ × Event)
calls =
    (1000, acquires)
    ∷ (1000, acquires)
    ∷ (1100, acquires)
    ∷ (1100, acquires)
    ∷ (1600, acquires)
    ∷ []

four_of_five : (run (make config 1000) 0 calls).1 ≡ 4
unfolding run step make
four_of_five = refl

abbrev mixed : List (ℕ × Event)
mixed = (1000, wakes) ∷ (1000, acquires) ∷ (1200, resets) ∷ (1200, acquires) ∷ []

run_bound_example :
    let (m, total) = run (make config 1000) 0 mixed in
    total * 1000 + pos_part m.tokens + 1000 * 2 ≤ 2 * (3 * 1000) + m.last_refill_time * 2 + 1 * 1000
unfolding make
run_bound_example =
    run_bound config 1000 mixed (omega arith, (omega arith, (omega arith, (omega arith, tt))))

abbrev drained : RateLimiter
drained = record {
  tokens = pos 200;
  last_refill_time = 1000;
  requests_per_second = 2;
  burst_size = 3;
}
