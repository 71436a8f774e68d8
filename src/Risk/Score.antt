-- ===== src/Risk/Score.antt =====
-- packages/risk-engine/src/deterministic-score.ts. Penalties and caps are signed, as their type lets
-- them be. The order by id, in which the findings of a category are added up, does not matter to a
-- sum and is left out.
pub mod Laws
pub mod Bounds
mod Tests
use hood_sentry.Prelude.{
  ℕ, zero, suc, ◌+◌, ◌-◌, ◌*◌, ◌/◌, ◌%◌, ◌^◌, ◌≤◌, ◌<◌, min, max, ◌≡◌, refl, sym, ap, ◌∙◌, subst,
  ◌≢◌, ◌↔◌, ◌⊎◌, inl, inr, Bool, true, false, not, ◌&&◌, ◌||◌, Option, none, some, List, [], ◌∷◌,
  ◌++◌, map, arith, ltb, leb, ◌==◌, if◌then◌else◌, ltb→lt, lt→ltb, leb→le, ==_iff, tests,
  Bool-cases, Option-cases, length, get_elem?, set, get_or, take, drop, replicate, length-append,
  length-take, length-drop, length-map, length-replicate,
}
use Prim.Native.String.{String}
use hood_sentry.Prelude.Int.{ℤ, pos, ltb_ℤ, ◌+ℤ◌, ◌-ℤ◌}

pub data RiskScoreCategory : Type 0 where
  contract_control transfer_behavior liquidity supply_holders : RiskScoreCategory
  deployer_history identity data_completeness : RiskScoreCategory

pub data Confidence : Type 0 where
  high medium low : Confidence

pub data Grade : Type 0 where
  grade_a grade_b grade_c grade_d grade_f grade_u : Grade

pub record ScoreFinding : Type 0 where
  pub id : String
  pub category : RiskScoreCategory
  pub penalty : ℤ
  pub confidence : Confidence
  pub cap_at : Option ℤ
  pub explanation : String

pub record DeterministicRiskScore : Type 0 where
  pub methodology_version : String
  pub category_scores : RiskScoreCategory → ℤ
  pub total : Option ℤ
  pub grade : Grade
  pub confidence : Confidence
  pub completeness_bps : ℤ
  pub finding_count : ℕ
  pub caps : List String
  pub changes : List RiskScoreCategory

abbrev pub weights : RiskScoreCategory → ℕ
weights contract_control = 25
weights transfer_behavior = 20
weights liquidity = 20
weights supply_holders = 15
weights deployer_history = 10
weights identity = 5
weights data_completeness = 5

-- `Object.keys(weights)`
abbrev pub categories : List RiskScoreCategory
categories =
    contract_control ∷ transfer_behavior ∷ liquidity ∷ supply_holders ∷ deployer_history ∷ identity
    ∷ data_completeness ∷ []

abbrev pub same_category : RiskScoreCategory → RiskScoreCategory → Bool
same_category contract_control contract_control = true
same_category transfer_behavior transfer_behavior = true
same_category liquidity liquidity = true
same_category supply_holders supply_holders = true
same_category deployer_history deployer_history = true
same_category identity identity = true
same_category data_completeness data_completeness = true
same_category _ _ = false

-- The sum of the penalties of a category.
unfoldable pub penalty_of : RiskScoreCategory → List ScoreFinding → ℤ
unfolding ◌+ℤ◌
penalty_of k [] = pos 0
penalty_of k (f ∷ fs) =
    let rest = penalty_of k fs in if same_category f.category k then f.penalty +ℤ rest else rest

unfoldable pub remaining_score : ℕ → ℤ → ℤ
unfolding ◌-ℤ◌
remaining_score weight penalty = if ltb_ℤ (pos weight) penalty then pos 0 else pos weight -ℤ penalty

unfoldable pub category_score : List ScoreFinding → RiskScoreCategory → ℤ
unfolding penalty_of remaining_score
category_score fs k = remaining_score (weights k) (penalty_of k fs)

unfoldable pub sum_scores : (RiskScoreCategory → ℤ) → List RiskScoreCategory → ℤ
unfolding ◌+ℤ◌
sum_scores s [] = pos 0
sum_scores s (k ∷ ks) = s k +ℤ sum_scores s ks

abbrev pub cap_one : Option ℤ → ℤ → ℤ
cap_one none total = total
cap_one (some c) total = if ltb_ℤ c total then c else total

abbrev pub caps_one : Option ℤ → ℤ → Bool
caps_one none total = false
caps_one (some c) total = ltb_ℤ c total

-- The loop over the caps: the total, and the ids of the findings that lowered it.
unfoldable pub capped : List ScoreFinding → ℤ → ℤ
capped [] total = total
capped (f ∷ fs) total = capped fs (cap_one f.cap_at total)

unfoldable pub capping : List ScoreFinding → ℤ → List String
capping [] total = []
capping (f ∷ fs) total =
    let rest = capping fs (cap_one f.cap_at total) in
    if caps_one f.cap_at total then f.id ∷ rest else rest

unfoldable pub total_of : List ScoreFinding → ℤ
unfolding category_score sum_scores capped
total_of fs = capped fs (sum_scores (category_score fs) categories)

abbrev pub at_least : ℤ → ℕ → Bool
at_least z n = not (ltb_ℤ z (pos n))

unfoldable pub grade_of : Bool → ℤ → Grade
grade_of complete total =
    if not complete
    then grade_u
    else (if at_least total 85
        then grade_a
        else (if at_least total 70
            then grade_b
            else (if at_least total 50
                then grade_c
                else (if at_least total 30 then grade_d else grade_f))))

abbrev pub confidence_of : ℤ → Confidence
confidence_of completeness =
    if at_least completeness 9000
    then high
    else (if at_least completeness 6000 then medium else low)

abbrev pub same_ℤ : ℤ → ℤ → Bool
same_ℤ x y = not (ltb_ℤ x y) && not (ltb_ℤ y x)

unfoldable pub changed :
    (RiskScoreCategory → ℤ)
    → (RiskScoreCategory → ℤ)
    → List RiskScoreCategory
    → List RiskScoreCategory
changed old new [] = []
changed old new (k ∷ ks) =
    let rest = changed old new ks in if same_ℤ (new k) (old k) then rest else k ∷ rest

abbrev pub changes_since :
    Option DeterministicRiskScore → (RiskScoreCategory → ℤ) → List RiskScoreCategory
changes_since none new = []
changes_since (some old) new = changed old.category_scores new categories

unfoldable pub score_risk :
    List ScoreFinding → ℤ → String → Option DeterministicRiskScore → DeterministicRiskScore
unfolding total_of category_score sum_scores capping grade_of changed
score_risk findings completeness version previous =
    let scores = category_score findings in
    let complete = at_least completeness 10000 in
    let total = total_of findings in
    record {
      methodology_version = version;
      category_scores = scores;
      total = if complete then some total else none;
      grade = grade_of complete total;
      confidence = confidence_of completeness;
      completeness_bps = completeness;
      finding_count = length findings;
      caps = capping findings (sum_scores scores categories);
      changes = changes_since previous scores;
    }
