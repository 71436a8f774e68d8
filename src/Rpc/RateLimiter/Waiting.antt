-- ===== src/Rpc/RateLimiter/Waiting.antt =====
-- A limiter whose clock does not go back: when its tokens stay above zero.
use hood_sentry.Prelude.{
  ℕ, ◌+◌, ◌-◌, ◌*◌, ◌≤◌, ◌<◌, ◌≡◌, refl, sym, ap, ◌∙◌, subst, ◌⊎◌, inl, inr, Bool, true, false,
  arith, if◌then◌else◌,
}
use hood_sentry.Prelude.Int.{ℤ, pos_part, neg_part, sub_ℕ, ◌+ℤ◌, +ℤ_parts, -ℤ_parts}
use hood_sentry.Rpc.RateLimiter.{
  RateLimiter, Wait, refill, missing, take_token, has_token, one_token, full, wait_for_token, wake,
  ready, sleep, ceil_div, min_ℤ,
}
use hood_sentry.Rpc.RateLimiter.Bounds.{sub_ℕ_parts}

abbrev pub IsPaid : RateLimiter → Type 0
IsPaid l = neg_part l.tokens ≡ 0

take_token-IsPaid : (l : RateLimiter) → has_token l ≡ true → IsPaid (take_token l)
unfolding take_token has_token
take_token-IsPaid l h = ground arith

ceil_div_covers : (a b : ℕ) → 0 < b → a ≤ ceil_div a b * b
ceil_div_covers a b h = grind arith

min_ℤ-cases : (a b : ℤ) → (min_ℤ a b ≡ a) ⊎ (min_ℤ a b ≡ b)
unfolding min_ℤ
min_ℤ-cases a b = ground arith

has_token-of-le :
    (l : RateLimiter) → 1000 + neg_part l.tokens ≤ pos_part l.tokens → has_token l ≡ true
unfolding has_token
has_token-of-le l h = ground arith

wake_enough :
    (l : RateLimiter) (w : ℕ)
    → 1 ≤ l.burst_size
    → missing l ≤ w * l.requests_per_second
    → has_token (refill (l.last_refill_time + w) l) ≡ true
unfolding missing refill
wake_enough l w b h =
    let later = (l.last_refill_time + w) * l.requests_per_second in
    let gain = sub_ℕ later (l.last_refill_time * l.requests_per_second) in
    has_token-of-le (refill (l.last_refill_time + w) l)
      (elim (min_ℤ-cases (full l.burst_size) (l.tokens +ℤ gain)) [
        | inl e ↦ rw e (omega arith)
        | inr e ↦ rw e (
            omega (
              arith,
              +ℤ_parts l.tokens gain,
              -ℤ_parts one_token l.tokens,
              sub_ℕ_parts later (l.last_refill_time * l.requests_per_second),
            ))
      ])

wait_out : RateLimiter → Bool → RateLimiter × Wait
wait_out r b =
    if b then (take_token r, ready) else (r, sleep (ceil_div (missing r) r.requests_per_second))

wait_out-sleep :
    (r m : RateLimiter) (w : ℕ) (b : Bool)
    → wait_out r b ≡ (m, sleep w)
    → (m ≡ r) × (w ≡ ceil_div (missing r) r.requests_per_second)
unfolding wait_out
wait_out-sleep r m w true e = cc
wait_out-sleep r m w false e = (sym (ap (λ p. p.0) e), cc)

wait_lem :
    (now : ℕ) (l : RateLimiter)
    → wait_for_token now l ≡ wait_out (refill now l) (has_token (refill now l))
unfolding wait_for_token wait_out
wait_lem now l = refl

refill_keeps :
    (now : ℕ) (l : RateLimiter)
    → ((refill now l).burst_size ≡ l.burst_size)
      × ((refill now l).requests_per_second ≡ l.requests_per_second)
      × ((refill now l).last_refill_time ≡ now)
unfolding refill
refill_keeps now l = (refl, refl, refl)

mul_mono : (a b r : ℕ) → a ≤ b → a * r ≤ b * r
mul_mono a b r h = grind arith

wake_covered :
    (m : RateLimiter) (t : ℕ)
    → 0 < m.requests_per_second
    → 1 ≤ m.burst_size
    → m.last_refill_time + ceil_div (missing m) m.requests_per_second ≤ t
    → IsPaid (wake t m)
unfolding wake
wake_covered m t r b h =
    let wait = ceil_div (missing m) m.requests_per_second in
    let elapsed = t - m.last_refill_time in
    let covered : missing m ≤ elapsed * m.requests_per_second = omega (
      arith,
      ceil_div_covers (missing m) m.requests_per_second r,
      mul_mono wait elapsed m.requests_per_second (omega arith),
    ) in
    let back : m.last_refill_time + elapsed ≡ t = omega arith in
    take_token-IsPaid (refill t m)
      (subst (λ x. has_token (refill x m) ≡ true) back (wake_enough m elapsed b covered))

-- A caller that finds no token and is alone, and is woken no earlier than it asked, takes a token
-- that is there: the tokens do not go below zero.
pub lone_waiter :
    (l m : RateLimiter) (now w t : ℕ)
    → 0 < l.requests_per_second
    → 1 ≤ l.burst_size
    → wait_for_token now l ≡ (m, sleep w)
    → now + w ≤ t
    → IsPaid (wake t m)
lone_waiter l m now w t r b e h =
    let refilled = refill now l in
    let (burst, rate, time) = refill_keeps now l in
    let (same, wait) =
      wait_out-sleep refilled m w (has_token refilled) (sym (wait_lem now l) ∙ e) in
    subst (λ x. IsPaid (wake t x)) (sym same)
      (wake_covered refilled t (rw rate r) (rw burst b) (omega (arith, time, wait)))

-- A caller that is woken while another has taken the token is let through all the same, and leaves
-- less than nothing.
pub wake_overdraws :
    (l : RateLimiter) (t : ℕ) → has_token (refill t l) ≡ false → 0 < neg_part (wake t l).tokens
unfolding wake has_token take_token
wake_overdraws l t h = ground (arith, -ℤ_parts (refill t l).tokens one_token)
