-- ===== src/Rpc/RateLimiter.antt =====
-- packages/chain/src/rpc/rate-limiter.ts. Tokens are counted in thousandths, in which the refill of a
-- millisecond is a whole number for a whole rate; they are signed, since `waitForToken` takes one
-- unchecked. The rounding of the source's floats is not modelled.
pub mod Bounds
pub mod Waiting
mod Tests
use hood_sentry.Prelude.{
  ℕ, zero, suc, ◌+◌, ◌-◌, ◌*◌, ◌/◌, ◌%◌, ◌^◌, ◌≤◌, ◌<◌, min, max, ◌≡◌, refl, sym, ap, ◌∙◌, subst,
  ◌≢◌, ◌↔◌, ◌⊎◌, inl, inr, Bool, true, false, not, ◌&&◌, ◌||◌, Option, none, some, List, [], ◌∷◌,
  ◌++◌, map, arith, ltb, leb, ◌==◌, if◌then◌else◌, ltb→lt, lt→ltb, leb→le, ==_iff, tests,
  Bool-cases, Option-cases, length, get_elem?, set, get_or, take, drop, replicate, length-append,
  length-take, length-drop, length-map, length-replicate,
}
use hood_sentry.Prelude.Int.{ℤ, pos, negsuc, pos_part, neg_part, sub_ℕ, ◌+ℤ◌, ◌-ℤ◌, ltb_ℤ}

pub record RateLimiterConfig : Type 0 where
  pub requests_per_second : ℕ
  pub burst_size : Option ℕ

pub record RateLimiter : Type 0 where
  pub tokens : ℤ
  pub last_refill_time : ℕ
  pub requests_per_second : ℕ
  pub burst_size : ℕ

abbrev pub one_token : ℤ
one_token = pos 1000

abbrev pub full : ℕ → ℤ
full burst = pos (burst * 1000)

unfoldable pub make : RateLimiterConfig → ℕ → RateLimiter
make c now =
    let burst : ℕ = elim c.burst_size [ none ↦ c.requests_per_second | some b ↦ b ] in
    record {
      tokens = full burst;
      last_refill_time = now;
      requests_per_second = c.requests_per_second;
      burst_size = burst;
    }

unfoldable pub min_ℤ : ℤ → ℤ → ℤ
min_ℤ a b = if ltb_ℤ b a then b else a

-- The clock may have been set back, so the time that passed is signed.
unfoldable pub refill : ℕ → RateLimiter → RateLimiter
unfolding min_ℤ ◌+ℤ◌
refill now l = record l {
  tokens = min_ℤ (full l.burst_size) (
      l.tokens +ℤ sub_ℕ (now * l.requests_per_second) (l.last_refill_time * l.requests_per_second));
  last_refill_time = now;
}

-- The time until the next token is `(1 - tokens) * (1000 / requestsPerSecond)` milliseconds; this is
-- that time times the rate.
unfoldable pub missing : RateLimiter → ℕ
unfolding ◌-ℤ◌
missing l = pos_part (one_token -ℤ l.tokens)

unfoldable pub take_token : RateLimiter → RateLimiter
unfolding ◌-ℤ◌
take_token l = record l { tokens = l.tokens -ℤ one_token }

-- `rate_limit m r` is a RateLimitError whose retry time is `m / r` milliseconds.
pub data Acquired : Type 0 where
  granted : Acquired
  rate_limit : ℕ → ℕ → Acquired

unfoldable pub has_token : RateLimiter → Bool
has_token l = not (ltb_ℤ l.tokens one_token)

unfoldable pub acquire : ℕ → RateLimiter → RateLimiter × Acquired
unfolding refill take_token missing has_token
acquire now l =
    let r = refill now l in
    if has_token r
    then (take_token r, granted)
    else (r, rate_limit (missing r) r.requests_per_second)

-- What `waitForToken` does before it sleeps: it goes on at once, or sleeps for so many milliseconds.
pub data Wait : Type 0 where
  ready : Wait
  sleep : ℕ → Wait

-- The division rounded up.
abbrev pub ceil_div : ℕ → ℕ → ℕ
ceil_div a b = (a + (b - 1)) / b

unfoldable pub wait_for_token : ℕ → RateLimiter → RateLimiter × Wait
unfolding refill take_token missing has_token
wait_for_token now l =
    let r = refill now l in
    if has_token r
    then (take_token r, ready)
    else (r, sleep (ceil_div (missing r) r.requests_per_second))

-- What it does at the time `now` at which the sleep ends.
unfoldable pub wake : ℕ → RateLimiter → RateLimiter
unfolding refill take_token
wake now l = take_token (refill now l)

unfoldable pub get_available_tokens : ℕ → RateLimiter → RateLimiter × ℤ
unfolding refill
get_available_tokens now l = let r = refill now l in (r, r.tokens)

unfoldable pub get_config : RateLimiter → RateLimiterConfig
get_config l = record {
  requests_per_second = l.requests_per_second;
  burst_size = some l.burst_size;
}

unfoldable pub reset : ℕ → RateLimiter → RateLimiter
reset now l = record l { tokens = full l.burst_size; last_refill_time = now }

-- The events of a limiter: a call of `acquire`, a call of `waitForToken`, the end of its sleep, a
-- reading of the tokens, a call of `reset`.
pub data Event : Type 0 where
  acquires waits wakes reads resets : Event

abbrev pub is_granted : Acquired → ℕ
is_granted granted = 1
is_granted (rate_limit m r) = 0

abbrev pub is_ready : Wait → ℕ
is_ready ready = 1
is_ready (sleep t) = 0

-- The new limiter, and how many requests were let through.
unfoldable pub step : RateLimiter → ℕ × Event → RateLimiter × ℕ
unfolding acquire wait_for_token wake get_available_tokens reset
step l (now, acquires) = let (l', a) = acquire now l in (l', is_granted a)
step l (now, waits) = let (l', w) = wait_for_token now l in (l', is_ready w)
step l (now, wakes) = (wake now l, 1)
step l (now, reads) = ((get_available_tokens now l).0, 0)
step l (now, resets) = (reset now l, 0)

unfoldable pub run : RateLimiter → ℕ → List (ℕ × Event) → RateLimiter × ℕ
run l n [] = (l, n)
run l n (e ∷ es) = let (l', k) = step l e in run l' (n + k) es
