-- ===== src/Market/Depth/Tests.antt =====
-- A pool of 1000 and 2000 with a fee of 3 in 1000.
use hood_sentry.Prelude.{◌≤◌, ◌<◌, ◌≡◌, refl}
use hood_sentry.Prelude.Int.{pos}
use hood_sentry.Market.Depth.{
  throws, returns, rounds_to_zero, bad_fee, QuoteNormalizationRate, ConstantProductQuoteResult,
  quote_constant_product_swap, normalize_quote_amount,
}
use hood_sentry.Market.Depth.Swaps.{Keeps, input, quote-Keeps, round_trip_loses}

abbrev hundred : ConstantProductQuoteResult
hundred = record { amount_out_raw = 181; price_impact_bps = 950 }

abbrev fifty : ConstantProductQuoteResult
fifty = record { amount_out_raw = 94; price_impact_bps = 600 }

abbrev back : ConstantProductQuoteResult
back = record { amount_out_raw = 99; price_impact_bps = 956 }

quote_hundred : quote_constant_product_swap (input 100 1000 2000 3 1000) ≡ returns hundred
unfolding quote_constant_product_swap
quote_hundred = refl

quote_fifty : quote_constant_product_swap (input 50 1000 2000 3 1000) ≡ returns fifty
unfolding quote_constant_product_swap
quote_fifty = refl

quote_back : quote_constant_product_swap (input 181 1819 1100 3 1000) ≡ returns back
unfolding quote_constant_product_swap
quote_back = refl

dust_rounds_to_zero : quote_constant_product_swap (input 1 1000 900 3 1000) ≡ throws rounds_to_zero
unfolding quote_constant_product_swap
dust_rounds_to_zero = refl

whole_fee_is_bad : quote_constant_product_swap (input 1 1000 900 1000 1000) ≡ throws bad_fee
unfolding quote_constant_product_swap
whole_fee_is_bad = refl

quote-Keeps_example : (0 < 181) × (950 ≤ 10000) × Keeps 100 1000 2000 181
quote-Keeps_example = quote-Keeps (input 100 1000 2000 3 1000) hundred quote_hundred

round_trip_loses_example : 99 ≤ 100
round_trip_loses_example =
    round_trip_loses 100 1000 2000 3 1000 hundred back quote_hundred quote_back

abbrev rate : QuoteNormalizationRate
rate = record {
  source_decimals = 3;
  normalized_decimals = 2;
  price_raw = pos 37;
  price_decimals = 1;
}

normalized_amount_of_rate : normalize_quote_amount (pos 12345) rate ≡ returns 4567
unfolding normalize_quote_amount
normalized_amount_of_rate = refl
