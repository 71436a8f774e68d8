-- ===== src/Alerts/Evaluation/Tests.antt =====
-- Rules of which the condition is parsed already.
use hood_sentry.Prelude.{ℕ, ◌≡◌, refl, Option, none, some, List, [], ◌∷◌}
use Prim.Native.String.{String}
use hood_sentry.Prelude.Codes.{codes}
use hood_sentry.Prelude.Int.{pos, negsuc}
use hood_sentry.Alerts.Evaluation.{
  medium, high, either, Condition, PriceChangeCondition, VolumeSpikeCondition, Schemas,
  AlertRuleInput, MarketAlertInput, ChainAlertEventInput, Decision, unmatched, matched,
  evaluate_market_alert_rule, evaluate_chain_alert_rule,
}
use hood_sentry.Alerts.Evaluation.Decisions.{RuleHolds, evaluate_market_alert_rule-Holds}

abbrev spike : VolumeSpikeCondition
spike = record {
  minimum_volume_raw = 100;
  multiplier_bps = 30000;
  window_seconds = 60;
  severity = none;
}

abbrev change : PriceChangeCondition
change = record { change_bps = 500; window_seconds = 60; direction = either; severity = none }

abbrev transfers : Condition
transfers = record {
  event_types = none;
  minimum_amount_raw = some 1000;
  from_addresses = none;
  to_addresses = some (codes "0xB" ∷ []);
  severity = none;
}

abbrev schemas : Schemas Unit
schemas = record {
  condition = λ c. some transfers;
  price_change = λ c. some change;
  volume_spike = λ c. some spike;
  risk_score_change = λ c. none;
}

abbrev rule : String → AlertRuleInput Unit
rule type = record { rule_type = type; target_address = codes "0xA"; condition = tt }

abbrev market : MarketAlertInput
market = record {
  token_address = codes "0xa";
  window_seconds = 60;
  price_change_bps = some (negsuc 599);
  volume_raw = 350;
  previous_volume_raw = some 100;
}

abbrev decision : Decision
decision = record { severity = high; threshold = some 30000; observed = some (pos 35000) }

volume_spikes : evaluate_market_alert_rule schemas (rule "volume_spike") market ≡ matched decision
unfolding evaluate_market_alert_rule
volume_spikes = refl

price_falls :
    evaluate_market_alert_rule schemas (rule "price_change") market
    ≡ matched (record { severity = medium; threshold = some 500; observed = some (negsuc 599) })
unfolding evaluate_market_alert_rule
price_falls = refl

abbrev event : Option (List ℕ) → ChainAlertEventInput
event to = record {
  event_type = "tokenTransfer";
  target_addresses = codes "0xa" ∷ [];
  from_address = none;
  to_address = to;
  value_raw = some (some 1000);
}

transfer_to_listed_address :
    evaluate_chain_alert_rule schemas (rule "large_transfer") (event (some (codes "0xb")))
    ≡ matched (record { severity = high; threshold = some 1000; observed = some (pos 1000) })
unfolding evaluate_chain_alert_rule
transfer_to_listed_address = refl

transfer_to_unknown_address :
    evaluate_chain_alert_rule schemas (rule "large_transfer") (event none) ≡ unmatched
unfolding evaluate_chain_alert_rule
transfer_to_unknown_address = refl

evaluate_market_alert_rule-Holds_example : RuleHolds schemas (rule "volume_spike") market decision
evaluate_market_alert_rule-Holds_example =
    evaluate_market_alert_rule-Holds schemas (rule "volume_spike") market decision volume_spikes
