-- ===== src/Alerts/Evaluation/Decisions.antt =====
-- What holds of the decisions.
use hood_sentry.Alerts.Evaluation.{
  high, Severity, medium, Direction, up, down, either, PriceChangeCondition, VolumeSpikeCondition,
  Schemas, AlertRuleInput, MarketAlertInput, Decision, Evaluation, throws, unmatched, matched,
  severity_or, direction_matched, change_decision, price_decision, volume_change, volume_decision,
  parsed, evaluate_market_alert_rule,
}
use hood_sentry.Prelude.{
  ◌⊎◌, ℕ, ◌*◌, ◌/◌, ◌≤◌, ◌<◌, ◌≡◌, refl, sym, ◌∙◌, subst, inl, inr, Bool, true, false, not, ◌||◌,
  Option, none, some, arith, ltb, ◌==◌, Bool-cases, Option-cases, le_div,
}
use text.Mathlib.Text.{◌==◌ as str_eq}
use hood_sentry.Prelude.Int.{ℤ, pos, ◌-ℤ◌, ◌≤ℤ◌, abs}
use hood_sentry.Prelude.Codes.{same_text}

-- A change has gone the way that a rule asks for, at least as far as its threshold.
pub Moved : Direction → ℕ → ℤ → Type 0
Moved up t change = pos t ≤ℤ change
Moved down t change = change ≤ℤ pos 0 -ℤ pos t
Moved either t change = pos t ≤ℤ abs change

-- A price rule is for the window of the input, whose change has moved as the rule asks; the evidence
-- has the threshold of the rule and the change of the input.
pub record PriceHolds (c : PriceChangeCondition) (i : MarketAlertInput) (d : Decision)
    : Type 0 where
  pub window : c.window_seconds ≡ i.window_seconds
  pub change : ℤ
  pub has_change : i.price_change_bps ≡ some change
  pub moved : Moved c.direction c.change_bps change
  pub evidence : d ≡ record {
    severity = severity_or c.severity medium;
    threshold = some c.change_bps;
    observed = some change;
  }

-- A volume rule is for the window of the input, whose volume is at least the minimum of the rule and
-- its multiple of the one before, in ten-thousandths; the evidence has both multiples.
pub record VolumeHolds (c : VolumeSpikeCondition) (i : MarketAlertInput) (d : Decision)
    : Type 0 where
  pub window : c.window_seconds ≡ i.window_seconds
  pub previous : ℕ
  pub has_previous : i.previous_volume_raw ≡ some previous
  pub positive : 0 < previous
  pub minimum : c.minimum_volume_raw ≤ i.volume_raw
  pub multiplied : previous * c.multiplier_bps ≤ i.volume_raw * 10000
  pub reached : c.multiplier_bps ≤ i.volume_raw * 10000 / previous
  pub evidence : d ≡ record {
    severity = severity_or c.severity high;
    threshold = some c.multiplier_bps;
    observed = some (pos (i.volume_raw * 10000 / previous));
  }

direction_matched-Moved :
    (direction : Direction) (change : ℤ) (t : ℕ)
    → direction_matched direction change t ≡ true
    → Moved direction t change
unfolding direction_matched abs ◌-ℤ◌ Moved
direction_matched-Moved up change t e = ground arith
direction_matched-Moved down change t e = ground arith
direction_matched-Moved either change t e = ground arith

-- What a match would have to be, of any evaluation.
abbrev Matched : (Decision → Type 0) → Evaluation → Type 0
Matched P throws = Unit
Matched P unmatched = Unit
Matched P (matched d) = P d

price_decision-Holds :
    (c : PriceChangeCondition) (i : MarketAlertInput)
    → Matched (PriceHolds c i) (price_decision c i)
unfolding price_decision change_decision
price_decision-Holds c i = elim (Bool-cases (c.window_seconds == i.window_seconds)) [
  | inr n ↦ rw n tt
  | inl y ↦ rw y (elim (Option-cases i.price_change_bps) [
    | inl k ↦ rw k tt
    | inr (z, e) ↦ rw e (elim (Bool-cases (direction_matched c.direction z c.change_bps)) [
      | inr m ↦ rw m tt
      | inl m ↦ rw m (record {
        window = ground (arith, y);
        change = z;
        has_change = refl;
        moved = direction_matched-Moved c.direction z c.change_bps m;
        evidence = refl;
      })
    ])
  ])
]

volume_change-Holds :
    (c : VolumeSpikeCondition) (i : MarketAlertInput) (p : ℕ)
    → c.window_seconds ≡ i.window_seconds
    → i.previous_volume_raw ≡ some p
    → Matched (VolumeHolds c i) (volume_change c i.volume_raw p)
unfolding volume_change
volume_change-Holds c i p w e =
    elim (Bool-cases (
      p == 0
      || ltb i.volume_raw c.minimum_volume_raw
      || ltb (i.volume_raw * 10000) (p * c.multiplier_bps))) [
        | inl y ↦ rw y tt
        | inr n ↦
            let positive : 0 < p = ground arith in
            let enough : p * c.multiplier_bps ≤ i.volume_raw * 10000 = ground arith in
            rw n (record {
              window = w;
              previous = p;
              has_previous = e;
              positive = positive;
              minimum = ground arith;
              multiplied = enough;
              reached =
                  le_div c.multiplier_bps (i.volume_raw * 10000) p positive (grind (arith, enough));
              evidence = refl;
            })
      ]

volume_decision-Holds :
    (c : VolumeSpikeCondition) (i : MarketAlertInput)
    → Matched (VolumeHolds c i) (volume_decision c i)
unfolding volume_decision
volume_decision-Holds c i = elim (Bool-cases (c.window_seconds == i.window_seconds)) [
  | inr n ↦ rw n tt
  | inl y ↦ rw y (elim (Option-cases i.previous_volume_raw) [
    | inl k ↦ rw k tt
    | inr (p, e) ↦ simp e (volume_change-Holds c i p (ground (arith, y)) e)
  ])
]

weaken :
    (P Q : Decision → Type 0) (e : Evaluation)
    → ((d : Decision) → P d → Q d)
    → Matched P e
    → Matched Q e
weaken P Q throws f h = tt
weaken P Q unmatched f h = tt
weaken P Q (matched d) f h = f d h

parsed-Matched {ℓ} :
    {A : Type ℓ} (P : Decision → Type 0) (o : Option A) (f : A → Evaluation)
    → ((a : A) → o ≡ some a → Matched P (f a))
    → Matched P (parsed o f)
parsed-Matched P none f h = tt
parsed-Matched P (some a) f h = h a refl

module _ {C : Type 0} (schemas : Schemas C) where
  -- The rule is about the token of the input, and its condition, parsed as its type says, holds.
  pub RuleHolds : AlertRuleInput C → MarketAlertInput → Decision → Type 0
  RuleHolds rule i d =
      (same_text rule.target_address i.token_address ≡ true)
      × (((str_eq rule.rule_type "price_change" ≡ true)
            × ((c : PriceChangeCondition) × (schemas.price_change rule.condition ≡ some c)
                × PriceHolds c i d))
          ⊎ ((str_eq rule.rule_type "volume_spike" ≡ true)
              × ((c : VolumeSpikeCondition) × (schemas.volume_spike rule.condition ≡ some c)
                  × VolumeHolds c i d)))

  module _ (rule : AlertRuleInput C) (i : MarketAlertInput)
      (target : same_text rule.target_address i.token_address ≡ true) where
    price_rule :
        (c : PriceChangeCondition) (d : Decision)
        → str_eq rule.rule_type "price_change" ≡ true
        → schemas.price_change rule.condition ≡ some c
        → PriceHolds c i d
        → RuleHolds rule i d
    unfolding RuleHolds
    price_rule c d y e h = (target, inl (y, (c, e, h)))

    volume_rule :
        (c : VolumeSpikeCondition) (d : Decision)
        → str_eq rule.rule_type "volume_spike" ≡ true
        → schemas.volume_spike rule.condition ≡ some c
        → VolumeHolds c i d
        → RuleHolds rule i d
    unfolding RuleHolds
    volume_rule c d y e h = (target, inr (y, (c, e, h)))

    market-Holds : Matched (RuleHolds rule i) (evaluate_market_alert_rule schemas rule i)
    unfolding evaluate_market_alert_rule
    market-Holds = elim (Bool-cases (str_eq rule.rule_type "price_change")) [
      | inl y ↦
          rw (target, y)
            (parsed-Matched (RuleHolds rule i) (schemas.price_change rule.condition) _ (λ c e.
              weaken (PriceHolds c i) (RuleHolds rule i) (price_decision c i)
                (λ d. price_rule c d y e) (price_decision-Holds c i)))
      | inr n ↦ elim (Bool-cases (str_eq rule.rule_type "volume_spike")) [
        | inl y ↦
            rw (target, n, y)
              (parsed-Matched (RuleHolds rule i) (schemas.volume_spike rule.condition) _ (λ c e.
                weaken (VolumeHolds c i) (RuleHolds rule i) (volume_decision c i)
                  (λ d. volume_rule c d y e) (volume_decision-Holds c i)))
        | inr k ↦ rw (target, n, k) tt
      ]
    ]

  other_target :
      (rule : AlertRuleInput C) (i : MarketAlertInput)
      → same_text rule.target_address i.token_address ≡ false
      → evaluate_market_alert_rule schemas rule i ≡ unmatched
  unfolding evaluate_market_alert_rule
  other_target rule i n = rw n refl

-- Whatever the schemas make of a condition: an alert on a price or a volume is about the token of the
-- rule, in the window of the rule. If the rule is on prices, the change of the input has gone the way
-- that the rule asks for and at least as far as its threshold; if it is on volumes, the volume of the
-- input is at least the minimum of the rule and its multiple of the one before. The evidence has the
-- threshold of the rule and what the input gives against it, and the severity is the one of the rule,
-- or if it has none a medium one for prices and a high one for volumes.
pub evaluate_market_alert_rule-Holds :
    {C : Type 0} (schemas : Schemas C) (rule : AlertRuleInput C) (i : MarketAlertInput)
    (d : Decision)
    → evaluate_market_alert_rule schemas rule i ≡ matched d
    → RuleHolds schemas rule i d
evaluate_market_alert_rule-Holds schemas rule i d e =
    elim (Bool-cases (same_text rule.target_address i.token_address)) [
      | inl t ↦ subst (Matched (RuleHolds schemas rule i)) e (market-Holds schemas rule i t)
      | inr n ↦
          absurd (let q : unmatched ≡ matched d = sym (other_target schemas rule i n) ∙ e in cc)
    ]

abbrev pub is_matched : Evaluation → Bool
is_matched (matched d) = true
is_matched _ = false

direction_either :
    (change : ℤ) (t : ℕ)
    → direction_matched either change t
      ≡ (direction_matched up change t || direction_matched down change t)
unfolding direction_matched abs ◌-ℤ◌
direction_either change t = ground arith

change_matched :
    (direction : Direction) (s : Severity) (t : ℕ) (change : ℤ)
    → is_matched (change_decision direction s t change) ≡ direction_matched direction change t
unfolding change_decision
change_matched direction s t change = elim (Bool-cases (direction_matched direction change t)) [
  | inl y ↦ rw y refl
  | inr n ↦ rw n refl
]

abbrev pub with_direction : Direction → PriceChangeCondition → PriceChangeCondition
with_direction direction c = record c { direction = direction }

-- A price rule for either direction matches exactly if the same rule for a rise or the same rule for a
-- fall does.
pub price_decision_either :
    (c : PriceChangeCondition) (i : MarketAlertInput)
    → is_matched (price_decision (with_direction either c) i) ≡ (
        is_matched (price_decision (with_direction up c) i)
        || is_matched (price_decision (with_direction down c) i))
unfolding price_decision
price_decision_either c i = elim (Bool-cases (not (c.window_seconds == i.window_seconds))) [
  | inl y ↦ rw y refl
  | inr n ↦ rw n (elim (Option-cases i.price_change_bps) [
    | inl k ↦ rw k refl
    | inr (z, e) ↦
        let s = severity_or c.severity medium in
        rw e (
          change_matched either s c.change_bps z
          ∙ direction_either z c.change_bps
          ∙ sym
              (rw (change_matched up s c.change_bps z, change_matched down s c.change_bps z) refl))
  ])
]
