-- ===== src/Trading/Quote.antt =====
-- packages/trading/src/quote-trading.ts. The lists of allowed addresses and the simulation are
-- functions that the caller supplies.
pub mod Accepts
mod Tests
use hood_sentry.Prelude.{
  ℕ, zero, suc, ◌+◌, ◌-◌, ◌*◌, ◌/◌, ◌%◌, ◌^◌, ◌≤◌, ◌<◌, min, max, ◌≡◌, refl, sym, ap, ◌∙◌, subst,
  ◌≢◌, ◌↔◌, ◌⊎◌, inl, inr, Bool, true, false, not, ◌&&◌, ◌||◌, Option, none, some, List, [], ◌∷◌,
  ◌++◌, map, arith, ltb, leb, ◌==◌, if◌then◌else◌, ltb→lt, lt→ltb, leb→le, ==_iff, tests,
  Bool-cases, Option-cases, length, get_elem?, set, get_or, take, drop, replicate, length-append,
  length-take, length-drop, length-map, length-replicate,
}
use Prim.Native.String.{String}
use hood_sentry.Prelude.Codes.{same_text}

pub record TradingQuote : Type 0 where
  pub quote_id : String
  pub provider : String
  pub chain_id : ℕ
  pub route : List String
  pub input : String
  pub output : String
  pub amount_in : ℕ
  pub expected_out : ℕ
  pub minimum_out : ℕ
  pub fee : ℕ
  pub price_impact_bps : ℕ
  pub gas : ℕ
  pub spender : Option String
  pub approval : Option ℕ
  pub deadline : ℕ
  pub source_block : ℕ
  pub expires_at : ℕ
  pub target : String
  pub selector : List ℕ
  pub calldata : List ℕ
  pub warnings : List String

pub record QuoteValidator : Type 0 where
  pub chain_id : ℕ
  pub target_allowed : String → Bool
  pub selector_allowed : String → List ℕ → Bool
  pub spender_allowed : String → Bool
  pub simulate : String → List ℕ → ℕ → Bool

-- The four errors that are thrown, and the quote that is returned.
pub data Validated : Type 0 where
  expired_or_mismatch not_allowed bad_output simulation_failed : Validated
  valid : TradingQuote → Validated

abbrev pub spender_refused : (String → Bool) → Option String → Bool
spender_refused allowed none = false
spender_refused allowed (some s) = not (allowed s)

unfoldable pub validate_quote : TradingQuote → QuoteValidator → ℕ → ℕ → Validated
unfolding same_text
validate_quote q v now value =
    if not (q.chain_id == v.chain_id) || leb q.expires_at now || leb q.deadline now
    then expired_or_mismatch
    else (if not (v.target_allowed q.target)
          || not (v.selector_allowed q.target q.selector)
          || spender_refused v.spender_allowed q.spender
        then not_allowed
        else (if not (same_text (take 10 q.calldata) q.selector)
              || ltb q.expected_out q.minimum_out
              || ltb 1000 q.price_impact_bps
            then bad_output
            else (if not (v.simulate q.target q.calldata value)
                then simulation_failed
                else valid q)))
