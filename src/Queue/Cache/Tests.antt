-- ===== src/Queue/Cache/Tests.antt =====
-- A cache of truth values, and two or three callers.
use hood_sentry.Prelude.{
  ℕ, ◌≤◌, ◌≡◌, refl, Bool, true, false, none, some, List, [], ◌∷◌, arith, if◌then◌else◌, get_elem?,
}
use text.Mathlib.Text.{◌==◌ as str_eq}
use hood_sentry.Prelude.Attempt.{returned}
use hood_sentry.Queue.Cache.{
  Cache, Redis, locking, waiting, computing, releasing, done, Reply, Event, call, Shared,
  happen_all, callers_of,
}
use hood_sentry.Queue.Cache.Flight.{HoldsAt, holders, bit, happen_all-IsExclusive, release_frees}
use hood_sentry.Queue.Cache.Values.{IsRoundTrip, results-Gives}

abbrev cache : Cache Bool
cache = record {
  stringify = λ b. if b then "true" else "false";
  parse = λ s. if str_eq s "true" then some true else if str_eq s "false" then some false else none;
  cache_if = λ b. true;
  lock_wait_ms = 5000;
}

round_trip : IsRoundTrip cache
round_trip true = refl
round_trip false = refl

abbrev free : Redis
free = record { value = none; locked = false }

abbrev gives : ℕ → Bool → Reply Bool
gives now b = record { reached = true; now = now; computed = returned b }

-- Both callers miss; the first takes the lock and computes, and the second waits for its value.
abbrev events : List (Event Bool)
events =
    call 0 (gives 0 true)
    ∷ call 1 (gives 0 true)
    ∷ call 0 (gives 1 true)
    ∷ call 1 (gives 1 true)
    ∷ call 1 (gives 100 true)
    ∷ call 0 (gives 150 true)
    ∷ call 0 (gives 160 true)
    ∷ call 1 (gives 200 true)
    ∷ []

second_gets_value :
    get_elem? (happen_all cache events (record { callers = callers_of 2; redis = free })).callers 1
    ≡ some (done (returned true))
unfolding happen_all
second_gets_value = refl

happen_all-IsExclusive_example :
    holders (happen_all cache events (record { callers = callers_of 2; redis = free })).callers
    ≤ bit (happen_all cache events (record { callers = callers_of 2; redis = free })).redis.locked
happen_all-IsExclusive_example =
    happen_all-IsExclusive cache 2 free events (tt, (tt, (tt, (tt, (tt, (tt, (tt, (tt, tt))))))))

results-Gives_example : true ≡ true
results-Gives_example =
    results-Gives (λ b. b ≡ true) cache 2 1 free events (returned true) round_trip tt
      (refl, (refl, (refl, (refl, (refl, (refl, (refl, (refl, tt)))))))) second_gets_value

-- The lock of the first caller expired, the second has it, and the third asks.
abbrev after_expiry : Shared Bool
after_expiry = record {
  callers = releasing (returned true) true ∷ computing true ∷ locking ∷ [];
  redis = record { value = none; locked = true };
}

release_frees_example :
    HoldsAt (happen_all cache (call 0 (gives 0 true) ∷ call 2 (gives 0 true) ∷ []) after_expiry) 1
    × HoldsAt (happen_all cache (call 0 (gives 0 true) ∷ call 2 (gives 0 true) ∷ []) after_expiry) 2
release_frees_example =
    release_frees cache after_expiry 0 1 2 (returned true) (gives 0 true) (gives 0 true) refl
      (computing true, refl, refl) refl (λ e. absurd (omega (arith, e)))
      (λ e. absurd (omega (arith, e))) (λ e. absurd (omega (arith, e))) refl refl

-- Without Redis the caller computes only after its wait.
abbrev unreached : ℕ → Reply Bool
unreached now = record { reached = false; now = now; computed = returned true }

unreached_computes_late :
    get_elem?
      (happen_all cache
        (call 0 (unreached 0)
          ∷ call 0 (unreached 0)
          ∷ call 0 (unreached 4999)
          ∷ call 0 (unreached 5000)
          ∷ [])
        (record { callers = callers_of 1; redis = free })).callers
      0
    ≡ some (computing false)
unfolding happen_all
unreached_computes_late = refl

abbrev waiters : Shared Bool
waiters = record { callers = waiting 100 ∷ []; redis = record { value = none; locked = true } }
