-- ===== src/Discovery/Scores/Bounds.antt =====
-- What the trending score cannot exceed.
use hood_sentry.Prelude.{
  ℕ, ◌*◌, ◌/◌, ◌≤◌, ◌<◌, ◌≡◌, refl, sym, subst, inl, inr, Bool, not, Option, List, [], ◌∷◌, arith,
  ◌==◌, if◌then◌else◌, Bool-cases, All, div_floor, mul_mono, mul_cancel,
}
use hood_sentry.Prelude.Int.{ℤ, pos, negsuc, ◌-ℤ◌}
use hood_sentry.Rpc.Health.{filter}
use hood_sentry.Discovery.Scores.{
  clamp_bps, weights, TrendingComponent, TrendingComponentKey, Kind, DiscoveryCandidate,
  ManipulationAssessment,
}
use hood_sentry.Discovery.Scores.Trending.{
  component, components, positive_components, penalty_components, is_positive, is_known, sum_of,
  score_components, calculate_trending_score,
}

clamp_bps_le : (n : ℤ) → clamp_bps n ≤ 10000
unfolding clamp_bps
clamp_bps_le (pos n) = ground arith
clamp_bps_le (negsuc n) = omega arith

share_le : (n w : ℕ) → n ≤ 10000 → n * w / 10000 ≤ w
share_le n w h =
    omega (arith, mul_mono n 10000 w w h (omega arith), div_floor (n * w) 10000 (omega arith))

-- No component contributes more than its weight.
IsBounded : TrendingComponent → Type 0
IsBounded t = t.contribution_bps ≤ t.weight_bps

component-IsBounded :
    (k : TrendingComponentKey) (d : Kind) (r : Option ℤ) (n : ℤ) (a : Bool)
    → IsBounded (component k d r n a)
unfolding component IsBounded
component-IsBounded k d r n a = share_le (clamp_bps n) (weights k) (clamp_bps_le n)

positive_components-IsBounded : (c : DiscoveryCandidate) → All IsBounded (positive_components c)
unfolding positive_components
positive_components-IsBounded c = (
  component-IsBounded _ _ _ _ _,
  (
    component-IsBounded _ _ _ _ _,
    (
      component-IsBounded _ _ _ _ _,
      (
        component-IsBounded _ _ _ _ _,
        (
          component-IsBounded _ _ _ _ _,
          (
            component-IsBounded _ _ _ _ _,
            (
              component-IsBounded _ _ _ _ _,
              (
                component-IsBounded _ _ _ _ _,
                (
                  component-IsBounded _ _ _ _ _,
                  (
                    component-IsBounded _ _ _ _ _,
                    (
                      component-IsBounded _ _ _ _ _,
                      (component-IsBounded _ _ _ _ _, (component-IsBounded _ _ _ _ _, tt)),
                    ),
                  ),
                ),
              ),
            ),
          ),
        ),
      ),
    ),
  ),
)

sum_of_le :
    (ts : List TrendingComponent)
    → All IsBounded ts
    → sum_of (λ t. t.contribution_bps) ts ≤ sum_of (λ t. t.weight_bps) ts
unfolding IsBounded
sum_of_le [] h = omega arith
sum_of_le (t ∷ ts) (q, h) = omega (arith, sum_of_le ts h, q)

sum_of_known :
    (ts : List TrendingComponent)
    → sum_of (λ t. t.weight_bps) (filter is_known ts)
      ≤ sum_of (λ t. t.weight_bps) (filter is_positive ts)
sum_of_known [] = omega arith
sum_of_known (t ∷ ts) = elim (Bool-cases (is_positive t)) [
  | inl e ↦ elim (Bool-cases t.available) [
    | inl f ↦ rw (e, f) (omega (arith, sum_of_known ts))
    | inr f ↦ rw (e, f) (omega (arith, sum_of_known ts))
  ]
  | inr e ↦ rw e (sum_of_known ts)
]

positive_ones :
    (c : DiscoveryCandidate) (m : ManipulationAssessment)
    → filter is_positive (components c m) ≡ positive_components c
unfolding components positive_components penalty_components component
positive_ones c m = refl

positive_weight :
    (c : DiscoveryCandidate) → sum_of (λ t. t.weight_bps) (positive_components c) ≡ 9000
unfolding positive_components component
positive_weight c = refl

clamp_sub : (a b : ℕ) → clamp_bps (pos a -ℤ pos b) ≤ a
unfolding clamp_bps ◌-ℤ◌
clamp_sub a b = ground arith

confidence_le :
    (known total conf : ℕ) → known ≤ total → (if total == 0 then 0 else known * conf / total) ≤ conf
confidence_le known total conf h = elim (Bool-cases (total == 0)) [
  | inl e ↦ rw e (omega arith)
  | inr e ↦
      let some_weight : 0 < total = ground (arith, e) in
      rw e (
        mul_cancel (known * conf / total) conf total some_weight (
          omega (
            arith,
            div_floor (known * conf) total some_weight,
            mul_mono known total conf conf h (omega arith),
          )))
]

contributions_le :
    (c : DiscoveryCandidate) (m : ManipulationAssessment)
    → sum_of (λ t. t.contribution_bps) (filter is_positive (components c m)) ≤ 9000
contributions_le c m =
    subst (λ ts. sum_of (λ t. t.contribution_bps) ts ≤ 9000) (sym (positive_ones c m))
      (omega (
        arith,
        sum_of_le (positive_components c) (positive_components-IsBounded c),
        positive_weight c,
      ))

-- The trending score of a token is at most 9,000 of 10,000, which is what the weights of the positive
-- components add up to, and the confidence in it is at most that of the assessment of manipulation.
pub calculate_trending_score_within :
    (c : DiscoveryCandidate) (m : ManipulationAssessment)
    → ((calculate_trending_score c m).score_bps ≤ 9000)
      × ((calculate_trending_score c m).confidence_bps ≤ m.confidence_bps)
unfolding calculate_trending_score score_components
calculate_trending_score_within c m =
    let ts = components c m in
    let positives = sum_of (λ t. t.contribution_bps) (filter is_positive ts) in
    let penalties = sum_of (λ t. t.contribution_bps) (filter (λ t. not (is_positive t)) ts) in
    (
      omega (arith, clamp_sub positives penalties, contributions_le c m),
      confidence_le _ _ m.confidence_bps (sum_of_known ts),
    )
