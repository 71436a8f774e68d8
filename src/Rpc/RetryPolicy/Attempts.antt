-- ===== src/Rpc/RetryPolicy/Attempts.antt =====
-- What `execute` does, by what the operation's calls do.
use hood_sentry.Prelude.{
  ℕ, zero, suc, ◌+◌, ◌-◌, ◌*◌, ◌≤◌, ◌<◌, ◌≡◌, refl, sym, ap, ◌∙◌, subst, ◌⊎◌, inl, inr, Bool, true,
  false, not, Option, none, some, List, [], ◌∷◌, ◌++◌, arith, ltb, if◌then◌else◌,
}
use hood_sentry.Prelude.{All}
use mathlib.Core.List.{append-nil}
use hood_sentry.Rpc.RetryPolicy.{
  Error, Thrown, Outcome, returned, threw, Result, ok, err, RetryPolicyConfig, RetryOptions, Plan,
  Run, loop, on_outcome, plan, execute, slept, normalize_error, calculate_delay, backoff,
  bounded_delay, rate_limit, or_default, unit, draws_mod,
}

-- k + n, and done + k, as the loop counts them.
abbrev plus : ℕ → ℕ → ℕ
plus zero n = n
plus (suc k) n = suc (plus k n)

abbrev after : ℕ → ℕ → ℕ
after zero done = done
after (suc k) done = after k (suc done)

plus-eq : (k n : ℕ) → plus k n ≡ k + n
plus-eq zero n = omega arith
plus-eq (suc k) n = omega (arith, plus-eq k n)

after-eq : (k done : ℕ) → after k done ≡ done + k
after-eq zero done = omega arith
after-eq (suc k) done = omega (arith, after-eq k (suc done))

module _ {ℓ} {A : Type ℓ} (p : Plan) (operation : ℕ → Outcome A) where
  -- The next k calls after `done` throw errors that are retried.
  abbrev pub Retried : ℕ → ℕ → Type ℓ
  Retried done zero = Unit
  Retried done (suc k) =
      (t : Thrown) × (operation (suc done) ≡ threw t)
      × (p.should_retry (normalize_error t) ≡ true)
      × Retried (suc done) k

  -- The delay after a call that threw.
  abbrev pub delay_after : ℕ → Outcome A → ℕ
  delay_after attempt (returned a) = 0
  delay_after attempt (threw t) = p.delay attempt (normalize_error t)

  -- The delays after the next k calls.
  abbrev pub delays : ℕ → ℕ → List ℕ
  delays done zero = []
  delays done (suc k) = delay_after (suc done) (operation (suc done)) ∷ delays (suc done) k

  abbrev after_delays : List ℕ → Run A → Run A
  after_delays [] r = r
  after_delays (d ∷ ds) r = slept d (after_delays ds r)

  retry_step :
      (n done : ℕ) (last : Option Error) (t : Thrown)
      → operation (suc done) ≡ threw t
      → p.should_retry (normalize_error t) ≡ true
      → suc done < p.max_attempts
      → loop p operation (suc n) done last
        ≡ slept
            (delay_after (suc done) (operation (suc done)))
            (loop p operation n (suc done) (some (normalize_error t)))
  unfolding loop
  retry_step n done last t e s h = ground arith

  skip :
      (k n done : ℕ) (last : Option Error) (r : Run A)
      → Retried done k
      → done + k < p.max_attempts
      → ((last' : Option Error) → loop p operation n (after k done) last' ≡ r)
      → loop p operation (plus k n) done last ≡ after_delays (delays done k) r
  skip zero n done last r f h g = g last
  skip (suc k) n done last r (t, e, s, f) h g =
      retry_step (plus k n) done last t e s (omega arith)
      ∙ ap (slept (delay_after (suc done) (operation (suc done))))
          (skip k n (suc done) (some (normalize_error t)) r f (omega arith) g)

  after_delays_lem :
      (ds : List ℕ) (r : Run A)
      → after_delays ds r
        ≡ record { result = r.result; attempts = r.attempts; delays = ds ++ r.delays }
  after_delays_lem [] r = refl
  after_delays_lem (d ∷ ds) r = ap (slept d) (after_delays_lem ds r)

  -- A call that ends the run: it returns, or it throws what is not retried.
  abbrev pub Decides : Outcome A → Result A → Type ℓ
  Decides o r =
      ((a : A) × (o ≡ returned a) × (r ≡ ok a))
      ⊎ ((t : Thrown) × (o ≡ threw t)
          × (p.should_retry (normalize_error t) ≡ false)
          × (r ≡ err (normalize_error t)))

  decide_step :
      (n done : ℕ) (last : Option Error) (r : Result A)
      → Decides (operation (suc done)) r
      → loop p operation (suc n) done last ≡ record { result = r; attempts = suc done; delays = [] }
  unfolding loop
  decide_step n done last r (inl (a, e, q)) = rw (e, q)
  decide_step n done last r (inr (t, e, s, q)) = ground arith

  -- If k calls throw errors that are retried and the next one decides, within the limit, the run has
  -- its result, called the operation k + 1 times and slept after each of the k.
  pub loop-Decides :
      (k : ℕ) (r : Result A)
      → k < p.max_attempts
      → Retried 0 k
      → Decides (operation (suc k)) r
      → loop p operation p.max_attempts 0 none
        ≡ record { result = r; attempts = suc k; delays = delays 0 k }
  loop-Decides k r h f d =
      let n = p.max_attempts - suc k in
      let whole : plus k (suc n) ≡ p.max_attempts = omega (arith, plus-eq k (suc n)) in
      let end : after k 0 ≡ k = omega (arith, after-eq k 0) in
      let last_step : (last : Option Error)
          → loop p operation (suc n) (after k 0) last
            ≡ record { result = r; attempts = suc k; delays = [] } =
        λ last.
          subst
            (λ j.
              loop p operation (suc n) j last
              ≡ record { result = r; attempts = suc k; delays = [] })
            (sym end) (decide_step n k last r d) in
      subst
        (λ m.
          loop p operation m 0 none ≡ record { result = r; attempts = suc k; delays = delays 0 k })
        whole
        (skip k (suc n) 0 none _ f (omega arith) last_step
          ∙ after_delays_lem (delays 0 k) _
          ∙ ap (λ ds. record { result = r; attempts = suc k; delays = ds }) (append-nil _))

  exhaust_step :
      (done : ℕ) (last : Option Error) (t : Thrown)
      → operation (suc done) ≡ threw t
      → p.should_retry (normalize_error t) ≡ true
      → suc done ≡ p.max_attempts
      → loop p operation 1 done last
        ≡ record { result = err (normalize_error t); attempts = suc done; delays = [] }
  unfolding loop
  exhaust_step done last t e s h = ground arith

  -- If every call within the limit throws an error that is retried, the run fails with the last error
  -- after exactly as many calls as the limit says, and does not sleep after the last.
  pub loop_exhausts :
      (k : ℕ) (t : Thrown)
      → suc k ≡ p.max_attempts
      → Retried 0 k
      → operation (suc k) ≡ threw t
      → p.should_retry (normalize_error t) ≡ true
      → loop p operation p.max_attempts 0 none
        ≡ record { result = err (normalize_error t); attempts = suc k; delays = delays 0 k }
  loop_exhausts k t h f e s =
      let whole : plus k 1 ≡ p.max_attempts = omega (arith, plus-eq k 1) in
      let end : after k 0 ≡ k = omega (arith, after-eq k 0) in
      let last_step : (last : Option Error)
          → loop p operation 1 (after k 0) last
            ≡ record { result = err (normalize_error t); attempts = suc k; delays = [] } =
        λ last.
          subst
            (λ j.
              loop p operation 1 j last
              ≡ record { result = err (normalize_error t); attempts = suc k; delays = [] })
            (sym end) (exhaust_step k last t e s h) in
      subst
        (λ m.
          loop p operation m 0 none
          ≡ record { result = err (normalize_error t); attempts = suc k; delays = delays 0 k })
        whole
        (skip k 1 0 none _ f (omega arith) last_step
          ∙ after_delays_lem (delays 0 k) _
          ∙ ap (λ ds. record { result = err (normalize_error t); attempts = suc k; delays = ds })
              (append-nil _))

  on_outcome_delays :
      (P : ℕ → Type 0) (attempt : ℕ) (o : Outcome A) (rest : Error → Run A)
      → ((e : Error) → P (p.delay attempt e))
      → ((e : Error) → All P (rest e).delays)
      → All P (on_outcome p attempt o rest).delays
  unfolding on_outcome
  on_outcome_delays P attempt (returned a) rest f g = tt
  on_outcome_delays P attempt (threw t) rest f g =
      let e = normalize_error t in
      let stop : Run A = record { result = err e; attempts = attempt; delays = [] } in
      elim (p.should_retry e)
        as (λ b.
          All P
            (if not b
              then stop
              else (if ltb attempt p.max_attempts
                  then slept (p.delay attempt e) (rest e)
                  else rest e)).delays) [
                    | false ↦ tt
                    | true ↦
                        elim (ltb attempt p.max_attempts)
                          as (λ b.
                            All P
                              (if b then slept (p.delay attempt e) (rest e) else rest e).delays) [
                                | true ↦ (f e, g e)
                                | false ↦ g e
                              ]
                  ]

  -- What holds of every delay that is computed holds of every delay that is slept.
  pub loop_delays :
      (P : ℕ → Type 0) (n done : ℕ) (last : Option Error)
      → ((attempt : ℕ) (e : Error) → P (p.delay attempt e))
      → All P (loop p operation n done last).delays
  unfolding loop on_outcome
  loop_delays P zero done last f = tt
  loop_delays P (suc n) done last f =
      on_outcome_delays P (suc done) (operation (suc done)) _ (f (suc done))
        (λ e. loop_delays P n (suc done) (some e) f)

bounded_delay-le : (attempt base most mult : ℕ) → bounded_delay attempt base most mult ≤ most
unfolding bounded_delay
bounded_delay-le attempt base most mult = omega arith

mul_le : (a b c d : ℕ) → a ≤ b → c ≤ d → a * c ≤ b * d
mul_le a b c d h k = grind arith

backoff_le :
    (jitter : Bool) (bounded most draw : ℕ)
    → draw < draws_mod
    → bounded ≤ most
    → backoff jitter bounded draw * 10 ≤ 11 * (most * unit)
unfolding backoff
backoff_le true bounded most draw h k =
    omega (arith, mul_le bounded most draw draws_mod k (omega arith))
backoff_le false bounded most draw h k = omega arith

calculate_delay_le :
    (jitter : Bool) (attempt base most mult : ℕ) (e : Error) (draw : ℕ)
    → draw < draws_mod
    → calculate_delay jitter attempt base most mult e draw * 10 ≤ 11 * (most * unit)
unfolding calculate_delay
calculate_delay_le jitter attempt base most mult (rate_limit (some t)) draw h = omega arith
calculate_delay_le jitter attempt base most mult _ draw h =
    backoff_le jitter _ most draw h (bounded_delay-le attempt base most mult)

-- No delay of a run is longer than eleven tenths of the largest delay of its options: the jitter adds
-- at most a tenth to a delay that is cut off there, and a server's retry time is cut off too.
pub execute_delays {ℓ} :
    {A : Type ℓ} (c : RetryPolicyConfig) (o : RetryOptions) (draw : ℕ → ℕ)
    (operation : ℕ → Outcome A)
    → ((i : ℕ) → draw i < draws_mod)
    → All
        (λ d. d * 10 ≤ 11 * (or_default o.max_delay_ms c.max_delay_ms * unit))
        (execute c o draw operation).delays
unfolding execute plan
execute_delays c o draw operation h = loop_delays (plan c o draw) operation _ _ 0 none λ attempt e.
    calculate_delay_le c.jitter_enabled attempt (or_default o.base_delay_ms c.base_delay_ms)
      (or_default o.max_delay_ms c.max_delay_ms)
      (or_default o.backoff_multiplier c.backoff_multiplier) e (draw attempt) (h attempt)
