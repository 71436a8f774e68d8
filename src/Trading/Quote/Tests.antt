-- ===== src/Trading/Quote/Tests.antt =====
-- A quote for chain 4663 that calls the allowed selector of the allowed target.
use hood_sentry.Prelude.{◌≡◌, refl, ◌↔◌, true, false, none, some, []}
use hood_sentry.Prelude.Codes.{codes}
use hood_sentry.Trading.Quote.{
  TradingQuote, QuoteValidator, valid, not_allowed, expired_or_mismatch, validate_quote,
}
use hood_sentry.Trading.Quote.Accepts.{IsSafe, validate_quote-IsSafe}

abbrev offer : TradingQuote
offer = record {
  quote_id = "q";
  provider = "dex";
  chain_id = 4663;
  route = [];
  input = "0xa";
  output = "0xb";
  amount_in = 100;
  expected_out = 90;
  minimum_out = 85;
  fee = 1;
  price_impact_bps = 30;
  gas = 21000;
  spender = none;
  approval = none;
  deadline = 2000;
  source_block = 7;
  expires_at = 1500;
  target = "0xc";
  selector = codes "0xA9059CBB";
  calldata = codes "0xa9059cbb0001";
  warnings = [];
}

abbrev validator : QuoteValidator
validator = record {
  chain_id = 4663;
  target_allowed = λ a. true;
  selector_allowed = λ a s. true;
  spender_allowed = λ a. false;
  simulate = λ a d v. true;
}

offer_is_valid : validate_quote offer validator 1499 0 ≡ valid offer
unfolding validate_quote
offer_is_valid = refl

offer_expires : validate_quote offer validator 1500 0 ≡ expired_or_mismatch
unfolding validate_quote
offer_expires = refl

spender_is_checked :
    validate_quote (record offer { spender = some "0xd" }) validator 10 0 ≡ not_allowed
unfolding validate_quote
spender_is_checked = refl

validate_quote-IsSafe_example :
    (validate_quote offer validator 1499 0 ≡ valid offer)
    ↔ ((offer ≡ offer) × IsSafe offer validator 1499 0)
validate_quote-IsSafe_example = validate_quote-IsSafe offer offer validator 1499 0
