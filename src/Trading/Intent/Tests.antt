-- ===== src/Trading/Intent/Tests.antt =====
-- A transfer that lives for a minute.
use hood_sentry.Prelude.{◌≤◌, ◌≡◌, refl, true, false, none, some, [], ◌∷◌, ◌==◌}
use hood_sentry.Prelude.Codes.{codes}
use hood_sentry.Prelude.Int.{pos}
use hood_sentry.Trading.Intent.{
  IntentRequest, TransactionIntent, IntentProvider, intent, refused, create, created_event,
  validate_for_broadcast, feature_disabled,
}
use hood_sentry.Trading.Intent.Lifetime.{IsAllowed, create-intent}

abbrev provider : IntentProvider
provider = record {
  simulate = λ r. record { success = true; gas_used = some 21000; revert_data = none };
  is_feature_enabled = λ f. true;
  is_target_allowed = λ t c. c == 4663;
  is_selector_allowed = λ t s. true;
  make_id = λ r now. "0x01";
}

abbrev transfer : IntentRequest
transfer = record {
  user_id = "u";
  wallet = codes "0xAB";
  chain_id = 4663;
  target = "0xc";
  function_selector = codes "0xa9059cbb";
  function_name = "transfer";
  decoded_arguments = "";
  calldata = codes "0xA9059CBB0001";
  native_value = pos 0;
  token_amounts = [];
  spender = none;
  approval_amount = none;
  expected_result = "";
  feature_flag = "TRADING_ENABLED";
  configuration_version = "1";
  quote_id = none;
  ttl_seconds = 60;
}

abbrev made : TransactionIntent
made = record {
  request = transfer;
  intent_id = "0x01";
  created_at = 500;
  expires_at = 60500;
  simulation = record { success = true; gas_used = some 21000; revert_data = none };
  warnings = "Review calldata and simulation before signing" ∷ [];
}

made_intent : (create provider transfer 500 []).0 ≡ intent made
unfolding create
made_intent = refl

create-intent_example :
    IsAllowed provider transfer
    × (transfer ≡ transfer)
    × (1500 ≤ 60500)
    × (60500 ≤ 300500)
    × ((create provider transfer 500 []).1 ≡ created_event made ∷ [])
create-intent_example = create-intent provider transfer 500 [] made made_intent

abbrev disabled : IntentProvider
disabled = record provider { is_feature_enabled = λ f. false }

disabled_is_refused : (create disabled transfer 500 []).0 ≡ refused feature_disabled
unfolding create
disabled_is_refused = refl

case_is_folded : validate_for_broadcast made (codes "0xab") 4663 (codes "0xa9059cbb0001") 600 ≡ none
unfolding validate_for_broadcast
case_is_folded = refl
