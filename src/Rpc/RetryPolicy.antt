-- ===== src/Rpc/RetryPolicy.antt =====
-- packages/chain/src/rpc/retry-policy.ts, with the errors of packages/chain/src/rpc/types.ts that it
-- tells apart. Counts, times and the multiplier are whole numbers.
pub mod Attempts
mod Tests
use hood_sentry.Prelude.{
  ℕ, zero, suc, ◌+◌, ◌-◌, ◌*◌, ◌/◌, ◌%◌, ◌^◌, ◌≤◌, ◌<◌, min, max, ◌≡◌, refl, sym, ap, ◌∙◌, subst,
  ◌≢◌, ◌↔◌, ◌⊎◌, inl, inr, Bool, true, false, not, ◌&&◌, ◌||◌, Option, none, some, List, [], ◌∷◌,
  ◌++◌, map, arith, ltb, leb, ◌==◌, if◌then◌else◌, ltb→lt, lt→ltb, leb→le, ==_iff, tests,
  Bool-cases, Option-cases, length, get_elem?, set, get_or, take, drop, replicate, length-append,
  length-take, length-drop, length-map, length-replicate,
}
use Prim.Native.String.{String}
use hood_sentry.Prelude.Codes.{codes, includes, to_lower_case}

-- The classes of an `Error`: a ContractRevertError, a RateLimitError with its retry time, another
-- RPCError with its mark `isRetryable`, and any other with its message.
pub data Error : Type 0 where
  contract_revert : Error
  rate_limit : Option ℕ → Error
  rpc_error : Bool → Error
  other : List ℕ → Error

-- What an operation may throw: an `Error`, or another value, of which the text is kept.
pub data Thrown : Type 0 where
  an_error : Error → Thrown
  a_value : List ℕ → Thrown

pub data Outcome {ℓ} (A : Type ℓ) : Type ℓ where
  returned : A → Outcome A
  threw : Thrown → Outcome A

pub data Result {ℓ} (A : Type ℓ) : Type ℓ where
  ok : A → Result A
  err : Error → Result A

pub record RetryPolicyConfig : Type 0 where
  pub max_attempts : ℕ
  pub base_delay_ms : ℕ
  pub max_delay_ms : ℕ
  pub backoff_multiplier : ℕ
  pub jitter_enabled : Bool

pub record RetryOptions : Type 0 where
  pub max_attempts : Option ℕ
  pub base_delay_ms : Option ℕ
  pub max_delay_ms : Option ℕ
  pub backoff_multiplier : Option ℕ
  pub should_retry : Option (Error → Bool)

abbrev pub or_default {ℓ} : {A : Type ℓ} → Option A → A → A
or_default none d = d
or_default (some a) d = a

-- The constructor, for the fields that are given.
unfoldable pub make_config :
    Option ℕ → Option ℕ → Option ℕ → Option ℕ → Option Bool → RetryPolicyConfig
make_config attempts base most mult jitter = record {
  max_attempts = or_default attempts 3;
  base_delay_ms = or_default base 1000;
  max_delay_ms = or_default most 30000;
  backoff_multiplier = or_default mult 2;
  jitter_enabled = or_default jitter true;
}

unfoldable pub normalize_error : Thrown → Error
normalize_error (an_error e) = e
normalize_error (a_value text) = other text

unfoldable pub default_should_retry : Error → Bool
default_should_retry contract_revert = false
default_should_retry (rate_limit t) = true
default_should_retry (rpc_error retryable) = retryable
default_should_retry (other text) =
    let message = to_lower_case text in
    includes message (codes "econnrefused")
    || (includes message (codes "etimedout")
        || (includes message (codes "enotfound")
            || (includes message (codes "econnreset")
                || (includes message (codes "network") || includes message (codes "timeout")))))

-- `Math.random()` is a draw below 2^53, over 2^53. A delay is counted in units of a tenth of 2^-53
-- milliseconds, so that the delay with a tenth of it as jitter is a whole number.
abbrev pub draws_mod : ℕ
draws_mod = 9007199254740992

abbrev pub unit : ℕ
unit = 90071992547409920

-- min(base * multiplier ** (attempt - 1), max)
unfoldable pub bounded_delay : ℕ → ℕ → ℕ → ℕ → ℕ
bounded_delay attempt base most mult = min (base * mult ^ (attempt - 1)) most

unfoldable pub backoff : Bool → ℕ → ℕ → ℕ
backoff jitter bounded draw = if jitter then bounded * unit + bounded * draw else bounded * unit

unfoldable pub calculate_delay : Bool → ℕ → ℕ → ℕ → ℕ → Error → ℕ → ℕ
unfolding bounded_delay backoff
calculate_delay jitter attempt base most mult (rate_limit (some t)) draw = min t most * unit
calculate_delay jitter attempt base most mult _ draw =
    backoff jitter (bounded_delay attempt base most mult) draw

-- What a run of `execute` did: its result, how many times it called the operation, and the delays it
-- slept for.
pub record Run {ℓ} (A : Type ℓ) : Type ℓ where
  pub result : Result A
  pub attempts : ℕ
  pub delays : List ℕ

-- The values that `execute` reads once.
pub record Plan : Type 0 where
  pub max_attempts : ℕ
  pub delay : ℕ → Error → ℕ
  pub should_retry : Error → Bool

abbrev pub exhausted : Error
exhausted = other (codes "All retry attempts failed")

-- `throw lastError ?? new Error(…)`
abbrev pub last_or_exhausted : Option Error → Error
last_or_exhausted none = exhausted
last_or_exhausted (some e) = e

abbrev pub slept {ℓ} : {A : Type ℓ} → ℕ → Run A → Run A
slept d r = record r { delays = d ∷ r.delays }

module _ {ℓ} {A : Type ℓ} (p : Plan) where
  -- The body of the loop, given the outcome of its call; `rest` is what the loop does after an error.
  unfoldable pub on_outcome : ℕ → Outcome A → (Error → Run A) → Run A
  on_outcome attempt (returned a) rest = record { result = ok a; attempts = attempt; delays = [] }
  on_outcome attempt (threw t) rest =
      let e = normalize_error t in
      if not (p.should_retry e)
      then record { result = err e; attempts = attempt; delays = [] }
      else (if ltb attempt p.max_attempts then slept (p.delay attempt e) (rest e) else rest e)

  -- The loop, with the rounds that are left, the attempts made and the last error.
  unfoldable pub loop : (ℕ → Outcome A) → ℕ → ℕ → Option Error → Run A
  unfolding on_outcome
  loop operation zero done last = record {
    result = err (last_or_exhausted last);
    attempts = done;
    delays = [];
  }
  loop operation (suc n) done last =
      on_outcome (suc done) (operation (suc done)) (λ e. loop operation n (suc done) (some e))

unfoldable pub plan : RetryPolicyConfig → RetryOptions → (ℕ → ℕ) → Plan
plan c o draw = record {
  max_attempts = or_default o.max_attempts c.max_attempts;
  delay = λ attempt e.
      calculate_delay c.jitter_enabled attempt (or_default o.base_delay_ms c.base_delay_ms)
        (or_default o.max_delay_ms c.max_delay_ms)
        (or_default o.backoff_multiplier c.backoff_multiplier) e (draw attempt);
  should_retry = or_default o.should_retry default_should_retry;
}

-- `operation` and `draw` give the outcome of each call and the draw of each delay.
unfoldable pub execute {ℓ} :
    {A : Type ℓ} → RetryPolicyConfig → RetryOptions → (ℕ → ℕ) → (ℕ → Outcome A) → Run A
unfolding plan loop
execute c o draw operation = let p = plan c o draw in loop p operation p.max_attempts 0 none
