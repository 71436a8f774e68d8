-- ===== src/Risk/Score/Bounds.antt =====
-- The bounds of a score.
use hood_sentry.Prelude.{
  ℕ, ◌+◌, ◌≡◌, subst, inl, inr, Bool, true, false, Option, none, some, List, [], ◌∷◌, arith,
  if◌then◌else◌, Bool-cases,
}
use Prim.Native.String.{String}
use mathlib.Core.Option.{some-injective}
use hood_sentry.Prelude.{All}
use hood_sentry.Prelude.Int.{ℤ, pos, ◌≤ℤ◌, +ℤ_parts, -ℤ_parts, +ℤ_mono}
use hood_sentry.Risk.Score.{
  RiskScoreCategory, ScoreFinding, weights, categories, same_category, penalty_of, remaining_score,
  category_score, sum_scores, cap_one, capped, total_of, score_risk, DeterministicRiskScore,
  at_least,
}
use hood_sentry.Risk.Score.Laws.{IsPenalty}

-- The cap, where there is one, is not below zero.
abbrev pub IsCap : Option ℤ → Type 0
IsCap none = Unit
IsCap (some c) = pos 0 ≤ℤ c

abbrev pub IsSound : ScoreFinding → Type 0
IsSound f = IsPenalty f × IsCap f.cap_at

penalty_of_nonneg :
    (k : RiskScoreCategory) (fs : List ScoreFinding) → All IsSound fs → pos 0 ≤ℤ penalty_of k fs
unfolding penalty_of
penalty_of_nonneg k [] h = omega arith
penalty_of_nonneg k (f ∷ fs) ((p, c), h) = elim (Bool-cases (same_category f.category k)) [
  | inl y ↦ rw y (+ℤ_mono (pos 0) f.penalty (pos 0) _ p (penalty_of_nonneg k fs h))
  | inr n ↦ rw n (penalty_of_nonneg k fs h)
]

category_score_within :
    (fs : List ScoreFinding) (k : RiskScoreCategory)
    → pos 0 ≤ℤ penalty_of k fs
    → (pos 0 ≤ℤ category_score fs k) × (category_score fs k ≤ℤ pos (weights k))
unfolding category_score remaining_score
category_score_within fs k h = ground (arith, -ℤ_parts (pos (weights k)) (penalty_of k fs))

weight_sum : List RiskScoreCategory → ℕ
weight_sum [] = 0
weight_sum (k ∷ ks) = weights k + weight_sum ks

sum_scores_within :
    (fs : List ScoreFinding) (ks : List RiskScoreCategory)
    → All IsSound fs
    → (pos 0 ≤ℤ sum_scores (category_score fs) ks)
      × (sum_scores (category_score fs) ks ≤ℤ pos (weight_sum ks))
unfolding sum_scores weight_sum
sum_scores_within fs [] h = (omega arith, omega arith)
sum_scores_within fs (k ∷ ks) h =
    let (low, high) = category_score_within fs k (penalty_of_nonneg k fs h) in
    let (lows, highs) = sum_scores_within fs ks h in
    let parts = +ℤ_parts (category_score fs k) (sum_scores (category_score fs) ks) in
    (omega (arith, low, lows, parts), omega (arith, high, highs, parts))

capped_within :
    (fs : List ScoreFinding) (x : ℤ) (n : ℕ)
    → All IsSound fs
    → pos 0 ≤ℤ x
    → x ≤ℤ pos n
    → (pos 0 ≤ℤ capped fs x) × (capped fs x ≤ℤ pos n)
unfolding capped
capped_within [] x n h l k = (l, k)
capped_within (f ∷ fs) x n ((p, c), h) l k =
    let (l', k') = one f.cap_at c in capped_within fs (cap_one f.cap_at x) n h l' k'
  where
    one : (o : Option ℤ) → IsCap o → (pos 0 ≤ℤ cap_one o x) × (cap_one o x ≤ℤ pos n)
    one none c = (l, k)
    one (some c) q = ground arith

-- Of findings with no penalty and no cap below zero, a total that is given lies between 0 and 100.
pub score_risk_within :
    (fs : List ScoreFinding) (completeness : ℤ) (version : String)
    (previous : Option DeterministicRiskScore) (total : ℤ)
    → All IsSound fs
    → (score_risk fs completeness version previous).total ≡ some total
    → (pos 0 ≤ℤ total) × (total ≤ℤ pos 100)
unfolding score_risk total_of weight_sum
score_risk_within fs completeness version previous total h e =
    let (low, high) = sum_scores_within fs categories h in
    let within = capped_within fs (sum_scores (category_score fs) categories) 100 h low high in
    given (at_least completeness 10000) e within
  where
    given :
        (b : Bool)
        → (if b then some (total_of fs) else none) ≡ some total
        → (pos 0 ≤ℤ total_of fs) × (total_of fs ≤ℤ pos 100)
        → (pos 0 ≤ℤ total) × (total ≤ℤ pos 100)
    given true q w = subst (λ z. (pos 0 ≤ℤ z) × (z ≤ℤ pos 100)) (some-injective _ _ q) w
    given false q w = cc
