-- ===== src/Rpc/RateLimiter/Bounds.antt =====
-- How many requests a rate limiter lets through.
use hood_sentry.Prelude.{ℕ, ◌+◌, ◌*◌, ◌≤◌, ◌≡◌, refl, ap, ◌∙◌, true, List, [], ◌∷◌, arith}
use hood_sentry.Prelude.{sym, subst}
use hood_sentry.Prelude.Int.{ℤ, pos_part, neg_part, sub_ℕ, ◌+ℤ◌, ◌≤ℤ◌, +ℤ_parts}
use hood_sentry.Prelude.{mul_mono, Bool-cases, ◌⊎◌, inl, inr}
use hood_sentry.Prelude.Int.{pos, negsuc, ◌-ℤ◌}
use hood_sentry.Rpc.RateLimiter.{
  reset, resets, wake, get_available_tokens, is_granted, is_ready, has_token, RateLimiterConfig,
  RateLimiter, make, refill, take_token, has_token, full, acquire, wait_for_token, Event, acquires,
  waits, wakes, reads, step, run, min_ℤ,
}

min_ℤ_le : (a b : ℤ) → (min_ℤ a b ≤ℤ a) × (min_ℤ a b ≤ℤ b)
unfolding min_ℤ
min_ℤ_le a b = ground arith

pub sub_ℕ_parts : (a b : ℕ) → pos_part (sub_ℕ a b) + b ≡ neg_part (sub_ℕ a b) + a
sub_ℕ_parts a b = ground arith

-- From one limiter to another so many requests were let through on a token that was there, and so many
-- resets were made. What was let through and what is left was there before, came in since or was
-- given by a reset; a debt counts as nothing. (Products of the times with the rate stand on both sides.)
abbrev Pays : RateLimiter → RateLimiter → ℕ → ℕ → Type 0
Pays l m n z =
    (n * 1000 + pos_part m.tokens + l.last_refill_time * l.requests_per_second
      ≤ pos_part l.tokens + m.last_refill_time * l.requests_per_second + z * (l.burst_size * 1000))
    × (m.requests_per_second ≡ l.requests_per_second)
    × (m.burst_size ≡ l.burst_size)

later_paid : (a b r : ℕ) → a ≤ b → a * r ≤ b * r
later_paid a b r h = mul_mono a b r r h (omega arith)

refill-Pays : (now : ℕ) (l : RateLimiter) → l.last_refill_time ≤ now → Pays l (refill now l) 0 0
unfolding refill
refill-Pays now l h =
    let gain = sub_ℕ (now * l.requests_per_second) (l.last_refill_time * l.requests_per_second) in
    (
      omega (
        arith,
        min_ℤ_le (full l.burst_size) (l.tokens +ℤ gain),
        +ℤ_parts l.tokens gain,
        signs (min_ℤ (full l.burst_size) (l.tokens +ℤ gain)),
        signs (l.tokens +ℤ gain),
        signs l.tokens,
        signs gain,
        sub_ℕ_parts (now * l.requests_per_second) (l.last_refill_time * l.requests_per_second),
        later_paid l.last_refill_time now l.requests_per_second h,
      ),
      refl,
      refl,
    )
  where
    signs : (a : ℤ) → (pos_part a ≡ 0) ⊎ (neg_part a ≡ 0)
    signs (pos n) = inr refl
    signs (negsuc n) = inl refl

-- A token is taken only if there is one.
take_token-Pays : (l : RateLimiter) → has_token l ≡ true → Pays l (take_token l) 1 0
unfolding take_token has_token ◌-ℤ◌
take_token-Pays l h = (ground arith, refl, refl)

wake-Pays : (l : RateLimiter) → Pays l (take_token l) 0 0
unfolding take_token ◌-ℤ◌
wake-Pays l = (ground arith, refl, refl)

reset-Pays : (now : ℕ) (l : RateLimiter) → l.last_refill_time ≤ now → Pays l (reset now l) 0 1
unfolding reset
reset-Pays now l h =
    (omega (arith, later_paid l.last_refill_time now l.requests_per_second h), refl, refl)

Pays-trans :
    (l m n : RateLimiter) (j k y z : ℕ) → Pays l m j y → Pays m n k z → Pays l n (j + k) (y + z)
Pays-trans l m n j k y z (p, r, b) (q, r', b') = (
  grind (
    arith,
    p,
    q,
    ap (λ x. m.last_refill_time * x) r,
    ap (λ x. n.last_refill_time * x) r,
    ap (λ x. z * (x * 1000)) b,
  ),
  r' ∙ r,
  b' ∙ b,
)

-- What an event lets through without a look at the tokens, and how often it resets them.
abbrev pub unchecked : Event → ℕ
unchecked wakes = 1
unchecked _ = 0

abbrev pub resetting : Event → ℕ
resetting resets = 1
resetting _ = 0

abbrev pub sum_of : (Event → ℕ) → List (ℕ × Event) → ℕ
sum_of f [] = 0
sum_of f ((now, e) ∷ es) = f e + sum_of f es

-- The clock is not set back.
abbrev pub IsForward : ℕ → List (ℕ × Event) → Type 0
IsForward start [] = Unit
IsForward start ((now, e) ∷ es) = (start ≤ now) × IsForward now es

acquire-Pays :
    (now : ℕ) (l : RateLimiter)
    → l.last_refill_time ≤ now
    → let (m, a) = acquire now l in Pays l m (is_granted a) 0
unfolding acquire
acquire-Pays now l h =
    let r = refill now l in
    let paid = refill-Pays now l h in
    elim (Bool-cases (has_token r)) [
      | inl y ↦ rw y (Pays-trans l r (take_token r) 0 1 0 0 paid (take_token-Pays r y))
      | inr n ↦ rw n paid
    ]

wait_for_token-Pays :
    (now : ℕ) (l : RateLimiter)
    → l.last_refill_time ≤ now
    → let (m, w) = wait_for_token now l in Pays l m (is_ready w) 0
unfolding wait_for_token
wait_for_token-Pays now l h =
    let r = refill now l in
    let paid = refill-Pays now l h in
    elim (Bool-cases (has_token r)) [
      | inl y ↦ rw y (Pays-trans l r (take_token r) 0 1 0 0 paid (take_token-Pays r y))
      | inr n ↦ rw n paid
    ]

-- What one event does, and that the time of the last refill is its own.
abbrev Steps : RateLimiter → ℕ → Event → RateLimiter × ℕ → Type 0
Steps l now e out =
    (n : ℕ) × (out.1 ≡ n + unchecked e)
    × Pays l out.0 n (resetting e)
    × (out.0.last_refill_time ≡ now)

acquire_time : (now : ℕ) (l : RateLimiter) → (acquire now l).0.last_refill_time ≡ now
unfolding acquire refill take_token
acquire_time now l = elim (Bool-cases (has_token (refill now l))) [
  | inl y ↦ rw y refl
  | inr n ↦ rw n refl
]

wait_for_token_time : (now : ℕ) (l : RateLimiter) → (wait_for_token now l).0.last_refill_time ≡ now
unfolding wait_for_token refill take_token
wait_for_token_time now l = elim (Bool-cases (has_token (refill now l))) [
  | inl y ↦ rw y refl
  | inr n ↦ rw n refl
]

step-Steps :
    (l : RateLimiter) (now : ℕ) (e : Event)
    → l.last_refill_time ≤ now
    → Steps l now e (step l (now, e))
unfolding step refill take_token reset wake get_available_tokens
step-Steps l now acquires h =
    (is_granted (acquire now l).1, omega arith, acquire-Pays now l h, acquire_time now l)
step-Steps l now waits h = (
  is_ready (wait_for_token now l).1,
  omega arith,
  wait_for_token-Pays now l h,
  wait_for_token_time now l,
)
step-Steps l now wakes h = (
  0,
  refl,
  Pays-trans l (refill now l) (take_token (refill now l)) 0 0 0 0 (refill-Pays now l h)
      (wake-Pays (refill now l)),
  refl,
)
step-Steps l now reads h = (0, refl, refill-Pays now l h, refl)
step-Steps l now resets h = (0, refl, reset-Pays now l h, refl)

run-Pays :
    (l m : RateLimiter) (total n u z : ℕ) (es : List (ℕ × Event))
    → Pays l m n z
    → total ≡ n + u
    → IsForward m.last_refill_time es
    → (k : ℕ) × ((run m total es).1 ≡ k + (u + sum_of unchecked es))
      × Pays l (run m total es).0 k (z + sum_of resetting es)
unfolding run
run-Pays l m total n u z [] p t f = (n, omega (arith, t), (grind (arith, p.0), p.1, p.2))
run-Pays l m total n u z ((now, e) ∷ es) p t (h, f) =
    let (j, count, paid, time) = step-Steps m now e h in
    let m' = (step m (now, e)).0 in
    let (k, sum, all) =
      run-Pays l m' (total + (step m (now, e)).1) (n + j) (u + unchecked e) (z + resetting e) es
        (Pays-trans l m m' n j z (resetting e) p paid) (omega (arith, t, count))
        (subst (λ x. IsForward x es) (sym time) f) in
    (k, omega (arith, sum), (grind (arith, all.0), all.1, all.2))

-- As long as the clock is not set back: a thousand times the requests that a new limiter lets
-- through, plus the thousandths of tokens that are left, is at most the burst size in thousandths, once
-- for the start and once for each reset, plus the rate times the milliseconds up to the last event,
-- plus a thousand for each end of a sleep, whose token is taken without a look.
pub run_bound :
    (c : RateLimiterConfig) (start : ℕ) (es : List (ℕ × Event))
    → IsForward start es
    → let l = make c start in
      let (m, total) = run l 0 es in
      total * 1000 + pos_part m.tokens + start * l.requests_per_second
      ≤ (1 + sum_of resetting es) * (l.burst_size * 1000)
        + m.last_refill_time * l.requests_per_second
        + sum_of unchecked es * 1000
unfolding make
run_bound c start es f =
    let l = make c start in
    let (k, sum, (paid, rate, burst)) = run-Pays l l 0 0 0 0 es (omega arith, refl, refl) refl f in
    grind (arith, paid, sum)
