-- ===== src/Trading/Intent.antt =====
-- packages/trading/src/transaction-intent.ts. A date is its milliseconds, which its ISO text keeps.
-- The provider's functions, and the id, which is a hash of the request with a random part, are
-- functions that the caller supplies; the decoded arguments are the text that stands for them.
pub mod Lifetime
mod Tests
use hood_sentry.Prelude.{
  ℕ, zero, suc, ◌+◌, ◌-◌, ◌*◌, ◌/◌, ◌%◌, ◌^◌, ◌≤◌, ◌<◌, min, max, ◌≡◌, refl, sym, ap, ◌∙◌, subst,
  ◌≢◌, ◌↔◌, ◌⊎◌, inl, inr, Bool, true, false, not, ◌&&◌, ◌||◌, Option, none, some, List, [], ◌∷◌,
  ◌++◌, map, arith, ltb, leb, ◌==◌, if◌then◌else◌, ltb→lt, lt→ltb, leb→le, ==_iff, tests,
  Bool-cases, Option-cases, length, get_elem?, set, get_or, take, drop, replicate, length-append,
  length-take, length-drop, length-map, length-replicate,
}
use Prim.Native.String.{String}
use hood_sentry.Prelude.Int.{ℤ, pos, ltb_ℤ}
use hood_sentry.Prelude.Codes.{same_text}

pub record Simulation : Type 0 where
  pub success : Bool
  pub gas_used : Option ℕ
  pub revert_data : Option String

pub record IntentRequest : Type 0 where
  pub user_id : String
  pub wallet : List ℕ
  pub chain_id : ℕ
  pub target : String
  pub function_selector : List ℕ
  pub function_name : String
  pub decoded_arguments : String
  pub calldata : List ℕ
  pub native_value : ℤ
  pub token_amounts : List (String × ℕ)
  pub spender : Option String
  pub approval_amount : Option ℕ
  pub expected_result : String
  pub feature_flag : String
  pub configuration_version : String
  pub quote_id : Option String
  pub ttl_seconds : ℕ

pub record TransactionIntent : Type 0 where
  pub request : IntentRequest
  pub intent_id : String
  pub created_at : ℕ
  pub expires_at : ℕ
  pub simulation : Simulation
  pub warnings : List String

pub data Action : Type 0 where
  created reviewed signed broadcast confirmed reorged rejected : Action

pub record IntentAuditEvent : Type 0 where
  pub intent_id : String
  pub action : Action
  pub at : ℕ
  pub metadata : Option String

pub record IntentProvider : Type 0 where
  pub simulate : IntentRequest → Simulation
  pub is_feature_enabled : String → Bool
  pub is_target_allowed : String → ℕ → Bool
  pub is_selector_allowed : String → List ℕ → Bool
  pub make_id : IntentRequest → ℕ → String

-- The errors that are thrown.
pub data Refusal : Type 0 where
  feature_disabled expiry_out_of_range target_not_allowed selector_not_allowed : Refusal
  selector_mismatch native_value_invalid simulation_failed : Refusal
  wrong_wallet wrong_chain expired calldata_changed : Refusal

pub data Created : Type 0 where
  refused : Refusal → Created
  intent : TransactionIntent → Created

unfoldable pub make_intent : IntentProvider → IntentRequest → ℕ → TransactionIntent
make_intent p r now = record {
  request = r;
  intent_id = p.make_id r now;
  created_at = now;
  expires_at = now + r.ttl_seconds * 1000;
  simulation = p.simulate r;
  warnings = "Review calldata and simulation before signing" ∷ [];
}

-- The tests before the simulation.
unfoldable pub refusal : IntentProvider → IntentRequest → Option Refusal
unfolding same_text
refusal p r =
    if not (p.is_feature_enabled r.feature_flag)
    then some feature_disabled
    else (if ltb r.ttl_seconds 1 || ltb 300 r.ttl_seconds
        then some expiry_out_of_range
        else (if not (p.is_target_allowed r.target r.chain_id)
            then some target_not_allowed
            else (if not (p.is_selector_allowed r.target r.function_selector)
                then some selector_not_allowed
                else (if not (same_text (take 10 r.calldata) r.function_selector)
                    then some selector_mismatch
                    else (if ltb_ℤ r.native_value (pos 0)
                        then some native_value_invalid
                        else none)))))

abbrev pub created_event : TransactionIntent → IntentAuditEvent
created_event i = record {
  intent_id = i.intent_id;
  action = created;
  at = i.created_at;
  metadata = none;
}

-- The result, and the events that are recorded after the given ones.
unfoldable pub create :
    IntentProvider → IntentRequest → ℕ → List IntentAuditEvent → Created × List IntentAuditEvent
unfolding refusal make_intent
create p r now events = elim (refusal p r) [
  | some e ↦ (refused e, events)
  | none ↦
      let i = make_intent p r now in
      if not i.simulation.success
      then (refused simulation_failed, events)
      else (intent i, events ++ created_event i ∷ [])
]

-- `none` where it returns.
unfoldable pub validate_for_broadcast : TransactionIntent → List ℕ → ℕ → List ℕ → ℕ → Option Refusal
unfolding same_text
validate_for_broadcast i wallet chain_id calldata now =
    if not (same_text i.request.wallet wallet)
    then some wrong_wallet
    else (if not (i.request.chain_id == chain_id)
        then some wrong_chain
        else (if leb i.expires_at now
            then some expired
            else (if same_text i.request.calldata calldata then none else some calldata_changed)))
