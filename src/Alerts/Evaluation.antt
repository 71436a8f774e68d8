-- ===== src/Alerts/Evaluation.antt =====
-- packages/alert-engine/src/evaluation.ts. The schemas parse a condition of unknown shape: they are
-- functions that give the parsed condition, or none where they throw. A text of digits is its number,
-- and the numbers of the evidence stand for their texts; addresses and types are texts, the lists of
-- their code units where case is folded.
pub mod Decisions
mod Tests
use hood_sentry.Prelude.{
  ℕ, zero, suc, ◌+◌, ◌-◌, ◌*◌, ◌/◌, ◌%◌, ◌^◌, ◌≤◌, ◌<◌, min, max, ◌≡◌, refl, sym, ap, ◌∙◌, subst,
  ◌≢◌, ◌↔◌, ◌⊎◌, inl, inr, Bool, true, false, not, ◌&&◌, ◌||◌, Option, none, some, List, [], ◌∷◌,
  ◌++◌, map, arith, ltb, leb, ◌==◌, if◌then◌else◌, ltb→lt, lt→ltb, leb→le, ==_iff, tests,
  Bool-cases, Option-cases, length, get_elem?, set, get_or, take, drop, replicate, length-append,
  length-take, length-drop, length-map, length-replicate,
}
use Prim.Native.String.{String}
use text.Mathlib.Text.{◌==◌ as str_eq}
use hood_sentry.Prelude.Codes.{to_lower_case, same_text}
use hood_sentry.Prelude.Int.{ℤ, pos, ltb_ℤ, ◌-ℤ◌, abs}

pub data Severity : Type 0 where
  low medium high critical : Severity

pub data Direction : Type 0 where
  up down either : Direction

pub record Condition : Type 0 where
  pub event_types : Option (List String)
  pub minimum_amount_raw : Option ℕ
  pub from_addresses : Option (List (List ℕ))
  pub to_addresses : Option (List (List ℕ))
  pub severity : Option Severity

pub record PriceChangeCondition : Type 0 where
  pub change_bps : ℕ
  pub window_seconds : ℕ
  pub direction : Direction
  pub severity : Option Severity

pub record VolumeSpikeCondition : Type 0 where
  pub minimum_volume_raw : ℕ
  pub multiplier_bps : ℕ
  pub window_seconds : ℕ
  pub severity : Option Severity

-- `up` is an increase of the score, `down` a decrease.
pub record RiskScoreChangeCondition : Type 0 where
  pub minimum_delta_bps : ℕ
  pub direction : Direction
  pub severity : Option Severity

-- The schemas, over what a condition is before it is parsed.
pub record Schemas (C : Type 0) : Type 0 where
  pub condition : C → Option Condition
  pub price_change : C → Option PriceChangeCondition
  pub volume_spike : C → Option VolumeSpikeCondition
  pub risk_score_change : C → Option RiskScoreChangeCondition

pub record AlertRuleInput (C : Type 0) : Type 0 where
  pub rule_type : String
  pub target_address : List ℕ
  pub condition : C

pub record MarketAlertInput : Type 0 where
  pub token_address : List ℕ
  pub window_seconds : ℕ
  pub price_change_bps : Option ℤ
  pub volume_raw : ℕ
  pub previous_volume_raw : Option ℕ

pub record RiskScoreInput : Type 0 where
  pub target_address : List ℕ
  pub previous_score_bps : Option ℤ
  pub current_score_bps : ℤ
  pub methodology_version : String

pub record ChainAlertEventInput : Type 0 where
  pub event_type : String
  pub target_addresses : List (List ℕ)
  pub from_address : Option (List ℕ)
  pub to_address : Option (List ℕ)
  pub value_raw : Option (Option ℕ)

-- A decision with its severity and the evidence that the metrics have in common.
pub record Decision : Type 0 where
  pub severity : Severity
  pub threshold : Option ℕ
  pub observed : Option ℤ

-- An evaluation throws, does not match, or matches.
pub data Evaluation : Type 0 where
  throws unmatched : Evaluation
  matched : Decision → Evaluation

abbrev pub severity_or : Option Severity → Severity → Severity
severity_or none d = d
severity_or (some s) d = s

abbrev pub at_least : ℤ → ℤ → Bool
at_least x y = not (ltb_ℤ x y)

unfoldable pub direction_matched : Direction → ℤ → ℕ → Bool
unfolding ◌-ℤ◌ abs
direction_matched up change threshold = at_least change (pos threshold)
direction_matched down change threshold = at_least (pos 0 -ℤ pos threshold) change
direction_matched either change threshold = at_least (abs change) (pos threshold)

abbrev pub decided : Severity → ℕ → ℤ → Evaluation
decided s threshold observed =
    matched (record { severity = s; threshold = some threshold; observed = some observed })

unfoldable pub change_decision : Direction → Severity → ℕ → ℤ → Evaluation
unfolding direction_matched
change_decision direction s threshold change =
    if direction_matched direction change threshold then decided s threshold change else unmatched

unfoldable pub price_decision : PriceChangeCondition → MarketAlertInput → Evaluation
unfolding change_decision
price_decision c i =
    if not (c.window_seconds == i.window_seconds) then unmatched else elim i.price_change_bps [
      | none ↦ unmatched
      | some change ↦
          change_decision c.direction (severity_or c.severity medium) c.change_bps change
    ]

unfoldable pub volume_change : VolumeSpikeCondition → ℕ → ℕ → Evaluation
volume_change c volume previous =
    if previous == 0
      || ltb volume c.minimum_volume_raw
      || ltb (volume * 10000) (previous * c.multiplier_bps)
    then unmatched
    else decided (severity_or c.severity high) c.multiplier_bps (pos (volume * 10000 / previous))

unfoldable pub volume_decision : VolumeSpikeCondition → MarketAlertInput → Evaluation
unfolding volume_change
volume_decision c i =
    if not (c.window_seconds == i.window_seconds) then unmatched else elim i.previous_volume_raw [
      | none ↦ unmatched
      | some previous ↦ volume_change c i.volume_raw previous
    ]

abbrev pub parsed {ℓ} : {A : Type ℓ} → Option A → (A → Evaluation) → Evaluation
parsed none f = throws
parsed (some a) f = f a

module _ {C : Type 0} (schemas : Schemas C) where
  unfoldable pub evaluate_market_alert_rule : AlertRuleInput C → MarketAlertInput → Evaluation
  unfolding price_decision volume_decision same_text
  evaluate_market_alert_rule rule i =
      if not (same_text rule.target_address i.token_address)
      then unmatched
      else (if str_eq rule.rule_type "price_change"
          then parsed (schemas.price_change rule.condition) (λ c. price_decision c i)
          else (if str_eq rule.rule_type "volume_spike"
              then parsed (schemas.volume_spike rule.condition) (λ c. volume_decision c i)
              else unmatched))

  abbrev pub score_decision : C → ℤ → Option ℤ → Evaluation
  score_decision condition current none = unmatched
  score_decision condition current (some previous) =
      parsed (schemas.risk_score_change condition) (λ c.
        change_decision c.direction (severity_or c.severity high) c.minimum_delta_bps
          (current -ℤ previous))

  unfoldable pub evaluate_risk_score_alert_rule : AlertRuleInput C → RiskScoreInput → Evaluation
  unfolding change_decision same_text ◌-ℤ◌
  evaluate_risk_score_alert_rule rule i =
      if not (str_eq rule.rule_type "risk_score_change")
      then unmatched
      else (if not (same_text rule.target_address i.target_address)
          then unmatched
          else score_decision rule.condition i.current_score_bps i.previous_score_bps)

abbrev pub includes_text : List (List ℕ) → List ℕ → Bool
includes_text [] address = false
includes_text (x ∷ xs) address = same_text x address || includes_text xs address

unfoldable pub address_allowed : Option (List ℕ) → Option (List (List ℕ)) → Bool
unfolding same_text
address_allowed address none = true
address_allowed none (some allowed) = false
address_allowed (some address) (some allowed) = includes_text allowed address

abbrev pub includes_type : List String → String → Bool
includes_type [] t = false
includes_type (x ∷ xs) t = str_eq x t || includes_type xs t

abbrev pub lists_type : Option (List String) → String → Bool
lists_type none t = false
lists_type (some types) t = includes_type types t

abbrev pub event_decision : Condition → Bool → String → Evaluation
event_decision c governance event_type =
    if lists_type c.event_types event_type
    then matched (record {
      severity = severity_or c.severity (if governance then medium else high);
      threshold = none;
      observed = none;
    })
    else unmatched

abbrev pub amount_decision : Severity → ℕ → Option ℕ → Evaluation
amount_decision s threshold none = throws
amount_decision s threshold (some observed) =
    if ltb observed threshold then unmatched else decided s threshold (pos observed)

abbrev pub transfer_amount : Condition → Bool → Option ℕ → Option (Option ℕ) → Evaluation
transfer_amount c allowed none value = unmatched
transfer_amount c allowed (some threshold) none = unmatched
transfer_amount c allowed (some threshold) (some value) =
    if allowed then amount_decision (severity_or c.severity high) threshold value else unmatched

unfoldable pub transfer_decision : Condition → ChainAlertEventInput → Evaluation
unfolding address_allowed
transfer_decision c e =
    transfer_amount c
      (address_allowed e.from_address c.from_addresses
        && address_allowed e.to_address c.to_addresses)
      c.minimum_amount_raw e.value_raw

unfoldable pub evaluate_chain_alert_rule :
    {C : Type 0} → Schemas C → AlertRuleInput C → ChainAlertEventInput → Evaluation
unfolding transfer_decision same_text
evaluate_chain_alert_rule schemas rule e =
    let governance = str_eq rule.rule_type "governance_proposal" in
    let transfer = str_eq rule.rule_type "large_transfer" && str_eq e.event_type "tokenTransfer" in
    if not (includes_text e.target_addresses rule.target_address)
    then unmatched
    else parsed (schemas.condition rule.condition) (λ c.
      if str_eq rule.rule_type "contract_event" || governance
      then event_decision c governance e.event_type
      else (if transfer then transfer_decision c e else unmatched))
