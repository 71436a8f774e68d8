-- ===== src/Trading/Quote/Accepts.antt =====
-- Which quotes are let through.
use hood_sentry.Prelude.{
  ℕ, ◌≤◌, ◌<◌, min, ◌≡◌, refl, sym, ap, ◌∙◌, ◌↔◌, Bool, true, false, Option, none, some, arith,
  take,
}
use Prim.Native.String.{String}
use hood_sentry.Trading.Quote.{TradingQuote, QuoteValidator, valid, validate_quote, spender_refused}
use hood_sentry.Prelude.Codes.{same_text}

-- The spender, where the quote has one, is allowed.
abbrev pub SpenderAllowed : (String → Bool) → Option String → Type 0
SpenderAllowed allowed none = Unit
SpenderAllowed allowed (some s) = allowed s ≡ true

-- A quote that is safe to send now.
pub record IsSafe (q : TradingQuote) (v : QuoteValidator) (now value : ℕ) : Type 0 where
  pub chain : q.chain_id ≡ v.chain_id
  pub fresh : now < min q.expires_at q.deadline
  pub target : v.target_allowed q.target ≡ true
  pub selector : v.selector_allowed q.target q.selector ≡ true
  pub spender : SpenderAllowed v.spender_allowed q.spender
  pub calls : same_text (take 10 q.calldata) q.selector ≡ true
  pub output : q.minimum_out ≤ q.expected_out
  pub impact : q.price_impact_bps ≤ 1000
  pub simulated : v.simulate q.target q.calldata value ≡ true

spender-allowed :
    (allowed : String → Bool) (o : Option String)
    → spender_refused allowed o ≡ false
    → SpenderAllowed allowed o
spender-allowed allowed none e = tt
spender-allowed allowed (some s) e = ground arith

spender_let :
    (allowed : String → Bool) (o : Option String)
    → SpenderAllowed allowed o
    → spender_refused allowed o ≡ false
spender_let allowed none h = refl
spender_let allowed (some s) h = ground arith

accepted-IsSafe :
    (q r : TradingQuote) (v : QuoteValidator) (now value : ℕ)
    → validate_quote q v now value ≡ valid r
    → (r ≡ q) × IsSafe q v now value
unfolding validate_quote
accepted-IsSafe q r v now value e =
    let facts : (r ≡ q)
        × (q.chain_id ≡ v.chain_id)
        × (now < min q.expires_at q.deadline)
        × (v.target_allowed q.target ≡ true)
        × (v.selector_allowed q.target q.selector ≡ true)
        × (spender_refused v.spender_allowed q.spender ≡ false)
        × (same_text (take 10 q.calldata) q.selector ≡ true)
        × (q.minimum_out ≤ q.expected_out)
        × (q.price_impact_bps ≤ 1000)
        × (v.simulate q.target q.calldata value ≡ true) =
      ground arith in
    let (same, chain, fresh, target, selector, spender, calls, output, impact, simulated) = facts in
    (
      same,
      record {
        chain = chain;
        fresh = fresh;
        target = target;
        selector = selector;
        spender = spender-allowed v.spender_allowed q.spender spender;
        calls = calls;
        output = output;
        impact = impact;
        simulated = simulated;
      },
    )

safe_accepted :
    (q : TradingQuote) (v : QuoteValidator) (now value : ℕ)
    → IsSafe q v now value
    → validate_quote q v now value ≡ valid q
unfolding validate_quote
safe_accepted q v now value h =
    let spender = spender_let v.spender_allowed q.spender h.spender in
    ground (
      arith, spender, h.chain, h.fresh, h.target, h.selector, h.calls, h.output, h.impact,
      h.simulated,
    )

-- A quote is let through, unchanged, exactly if it is for the validator's chain, has time left before
-- both its expiry and its deadline, has an allowed target, selector and (where it has one) spender,
-- calls that selector, promises at least its minimum at an impact of at most 1000 basis points, and
-- its simulation succeeds.
pub validate_quote-IsSafe :
    (q r : TradingQuote) (v : QuoteValidator) (now value : ℕ)
    → (validate_quote q v now value ≡ valid r) ↔ ((r ≡ q) × IsSafe q v now value)
validate_quote-IsSafe q r v now value = (
  accepted-IsSafe q r v now value,
  λ (same, safe). safe_accepted q v now value safe ∙ ap valid (sym same),
)
