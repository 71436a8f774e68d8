-- ===== src/Market/Depth.antt =====
-- packages/market-engine/src/liquidity-depth.ts. The inputs are signed, since the code tests them;
-- past its tests they are above zero, and their natural parts are computed with.
pub mod Swaps
pub mod Rates
mod Tests
use hood_sentry.Prelude.{
  ℕ, zero, suc, ◌+◌, ◌-◌, ◌*◌, ◌/◌, ◌%◌, ◌^◌, ◌≤◌, ◌<◌, min, max, ◌≡◌, refl, sym, ap, ◌∙◌, subst,
  ◌≢◌, ◌↔◌, ◌⊎◌, inl, inr, Bool, true, false, not, ◌&&◌, ◌||◌, Option, none, some, List, [], ◌∷◌,
  ◌++◌, map, arith, ltb, leb, ◌==◌, if◌then◌else◌, ltb→lt, lt→ltb, leb→le, ==_iff, tests,
  Bool-cases, Option-cases, length, get_elem?, set, get_or, take, drop, replicate, length-append,
  length-take, length-drop, length-map, length-replicate,
}
use hood_sentry.Prelude.Int.{ℤ, pos, negsuc, pos_part, neg_part, ltb_ℤ}
use hood_sentry.Market.Arithmetic.{pow10}

pub record QuoteNormalizationRate : Type 0 where
  pub source_decimals : ℕ
  pub normalized_decimals : ℕ
  pub price_raw : ℤ
  pub price_decimals : ℕ

pub record ConstantProductQuoteInput : Type 0 where
  pub amount_in_raw : ℤ
  pub reserve_in_raw : ℤ
  pub reserve_out_raw : ℤ
  pub fee_raw : ℤ
  pub fee_denominator : ℤ

pub record ConstantProductQuoteResult : Type 0 where
  pub amount_out_raw : ℕ
  pub price_impact_bps : ℕ

-- The errors that are thrown, and a result.
pub data QuoteError : Type 0 where
  not_positive bad_fee rounds_to_zero not_unsigned bad_decimals bad_price : QuoteError

pub data Result {ℓ} (A : Type ℓ) : Type ℓ where
  throws : QuoteError → Result A
  returns : A → Result A

-- The powers of ten of a rate that `validateRate` lets through: of the source's, the normalized and
-- the price's decimals.
pub record Powers : Type 0 where
  pub source : ℕ
  pub normalized : ℕ
  pub price : ℕ

abbrev pub powers : Option ℕ → Option ℕ → Option ℕ → Result Powers
powers (some s) (some n) (some p) = returns (record { source = s; normalized = n; price = p })
powers _ _ _ = throws bad_decimals

abbrev pub price_checked : ℤ → Result Powers → Result Powers
price_checked price (throws e) = throws e
price_checked price (returns p) = if ltb_ℤ (pos 0) price then returns p else throws bad_price

unfoldable pub validate_rate : QuoteNormalizationRate → Result Powers
unfolding pow10
validate_rate r =
    price_checked r.price_raw
      (powers (pow10 r.source_decimals) (pow10 r.normalized_decimals) (pow10 r.price_decimals))

abbrev pub then_return : Result Powers → (Powers → ℕ) → Result ℕ
then_return (throws e) f = throws e
then_return (returns p) f = returns (f p)

unfoldable pub normalized_amount : ℕ → ℕ → Powers → ℕ
normalized_amount amount price p = amount * price * p.normalized / (p.source * p.price)

unfoldable pub normalize_quote_amount : ℤ → QuoteNormalizationRate → Result ℕ
unfolding validate_rate normalized_amount
normalize_quote_amount (negsuc n) r = throws not_unsigned
normalize_quote_amount (pos amount) r =
    then_return (validate_rate r) (normalized_amount amount (pos_part r.price_raw))

unfoldable pub denormalized_amount : ℕ → ℕ → Powers → ℕ
denormalized_amount amount price p = amount * p.source * p.price / (price * p.normalized)

unfoldable pub denormalize_quote_amount : ℤ → QuoteNormalizationRate → Result ℕ
unfolding validate_rate denormalized_amount
denormalize_quote_amount (negsuc n) r = throws not_unsigned
denormalize_quote_amount (pos amount) r =
    then_return (validate_rate r) (denormalized_amount amount (pos_part r.price_raw))

-- The amount out, for the amount in after the fee: `fee` parts of `den` are kept.
unfoldable pub amount_out : ℕ → ℕ → ℕ → ℕ → ℕ → ℕ
amount_out amount reserve_in reserve_out fee den =
    let after_fee = amount * (den - fee) in after_fee * reserve_out / (reserve_in * den + after_fee)

unfoldable pub price_impact : ℕ → ℕ → ℕ → ℕ → ℕ
price_impact out amount reserve_in reserve_out =
    let execution_to_spot = out * reserve_in * 10000 / (amount * reserve_out) in
    if leb 10000 execution_to_spot then 0 else 10000 - execution_to_spot

-- The result for numbers that passed the tests.
unfoldable pub quote : ℕ → ℕ → ℕ → ℕ → ℕ → Result ConstantProductQuoteResult
unfolding amount_out price_impact
quote amount reserve_in reserve_out fee den =
    let out = amount_out amount reserve_in reserve_out fee den in
    if out == 0
    then throws rounds_to_zero
    else returns (record {
      amount_out_raw = out;
      price_impact_bps = price_impact out amount reserve_in reserve_out;
    })

abbrev pub is_positive : ℤ → Bool
is_positive = ltb_ℤ (pos 0)

unfoldable pub quote_constant_product_swap :
    ConstantProductQuoteInput → Result ConstantProductQuoteResult
unfolding quote
quote_constant_product_swap i =
    if is_positive i.amount_in_raw && is_positive i.reserve_in_raw && is_positive i.reserve_out_raw
    then (if is_positive i.fee_denominator
          && not (ltb_ℤ i.fee_raw (pos 0))
          && ltb_ℤ i.fee_raw i.fee_denominator
        then quote (pos_part i.amount_in_raw) (pos_part i.reserve_in_raw)
            (pos_part i.reserve_out_raw) (pos_part i.fee_raw) (pos_part i.fee_denominator)
        else throws bad_fee)
    else throws not_positive
