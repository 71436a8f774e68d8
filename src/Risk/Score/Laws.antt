-- ===== src/Risk/Score/Laws.antt =====
-- What further findings do to a score.
use hood_sentry.Prelude.{
  ℕ, ◌≤◌, inl, inr, Bool, Option, none, some, List, [], ◌∷◌, ◌++◌, arith, Bool-cases,
}
use Prim.Native.String.{String}
use hood_sentry.Prelude.Int.{ℤ, pos, ◌≤ℤ◌, +ℤ_parts, -ℤ_parts, +ℤ_mono}
use hood_sentry.Risk.Score.{
  RiskScoreCategory, ScoreFinding, Grade, weights, categories, same_category, penalty_of,
  remaining_score, category_score, sum_scores, cap_one, capped, total_of, grade_of, score_risk,
  DeterministicRiskScore, at_least, grade_a, grade_b, grade_c, grade_d, grade_f, grade_u,
}

-- The finding takes nothing less than nothing.
abbrev pub IsPenalty : ScoreFinding → Type 0
IsPenalty f = pos 0 ≤ℤ f.penalty

penalty_of-append :
    (k : RiskScoreCategory) (fs : List ScoreFinding) (f : ScoreFinding)
    → IsPenalty f
    → penalty_of k fs ≤ℤ penalty_of k (fs ++ f ∷ [])
unfolding penalty_of
penalty_of-append k [] f h = elim (Bool-cases (same_category f.category k)) [
  | inl y ↦ rw y (omega (arith, +ℤ_parts f.penalty (pos 0)))
  | inr n ↦ rw n (omega arith)
]
penalty_of-append k (g ∷ fs) f h = elim (Bool-cases (same_category g.category k)) [
  | inl y ↦ rw y (+ℤ_mono g.penalty g.penalty _ _ (omega arith) (penalty_of-append k fs f h))
  | inr n ↦ rw n (penalty_of-append k fs f h)
]

remaining_score-anti : (w : ℕ) (p q : ℤ) → p ≤ℤ q → remaining_score w q ≤ℤ remaining_score w p
unfolding remaining_score
remaining_score-anti w p q h = ground (arith, -ℤ_parts (pos w) p, -ℤ_parts (pos w) q)

sum_scores_mono :
    (s t : RiskScoreCategory → ℤ) (ks : List RiskScoreCategory)
    → ((k : RiskScoreCategory) → s k ≤ℤ t k)
    → sum_scores s ks ≤ℤ sum_scores t ks
unfolding sum_scores
sum_scores_mono s t [] h = omega arith
sum_scores_mono s t (k ∷ ks) h = +ℤ_mono (s k) (t k) _ _ (h k) (sum_scores_mono s t ks h)

cap_one_mono : (c : Option ℤ) (x y : ℤ) → x ≤ℤ y → cap_one c x ≤ℤ cap_one c y
cap_one_mono none x y h = h
cap_one_mono (some c) x y h = ground arith

cap_one_le : (c : Option ℤ) (x : ℤ) → cap_one c x ≤ℤ x
cap_one_le none x = omega arith
cap_one_le (some c) x = ground arith

capped_mono : (fs : List ScoreFinding) (x y : ℤ) → x ≤ℤ y → capped fs x ≤ℤ capped fs y
unfolding capped
capped_mono [] x y h = h
capped_mono (f ∷ fs) x y h = capped_mono fs _ _ (cap_one_mono f.cap_at x y h)

capped-append :
    (fs : List ScoreFinding) (f : ScoreFinding) (x : ℤ) → capped (fs ++ f ∷ []) x ≤ℤ capped fs x
unfolding capped
capped-append [] f x = cap_one_le f.cap_at x
capped-append (g ∷ fs) f x = capped-append fs f (cap_one g.cap_at x)

≤ℤ_trans : (x y z : ℤ) → x ≤ℤ y → y ≤ℤ z → x ≤ℤ z
≤ℤ_trans x y z h k = omega arith

category_score-append :
    (fs : List ScoreFinding) (f : ScoreFinding)
    → IsPenalty f
    → (k : RiskScoreCategory) → category_score (fs ++ f ∷ []) k ≤ℤ category_score fs k
unfolding category_score
category_score-append fs f h k =
    remaining_score-anti (weights k) (penalty_of k fs) (penalty_of k (fs ++ f ∷ []))
      (penalty_of-append k fs f h)

total_of-append :
    (fs : List ScoreFinding) (f : ScoreFinding)
    → IsPenalty f
    → total_of (fs ++ f ∷ []) ≤ℤ total_of fs
unfolding total_of
total_of-append fs f h =
    let fs' = fs ++ f ∷ [] in
    let old = sum_scores (category_score fs) categories in
    let new = sum_scores (category_score fs') categories in
    ≤ℤ_trans (capped fs' new) (capped fs new) (capped fs old) (capped-append fs f new) (
      capped_mono fs new old (
        sum_scores_mono (category_score fs') (category_score fs) categories
          (category_score-append fs f h)))

-- From A, the best grade, down; an ungraded score is the last.
abbrev pub rank : Grade → ℕ
rank grade_a = 0
rank grade_b = 1
rank grade_c = 2
rank grade_d = 3
rank grade_f = 4
rank grade_u = 5

grade_of_anti :
    (complete : Bool) (x y : ℤ) → x ≤ℤ y → rank (grade_of complete y) ≤ rank (grade_of complete x)
unfolding grade_of
grade_of_anti complete x y h = ground arith

-- One more finding, of a penalty that is not below zero, raises no category's score and gives no
-- better grade, whatever cap it has.
pub score_risk-append :
    (fs : List ScoreFinding) (f : ScoreFinding) (completeness : ℤ) (version : String)
    (previous : Option DeterministicRiskScore) (k : RiskScoreCategory)
    → IsPenalty f
    → ((score_risk (fs ++ f ∷ []) completeness version previous).category_scores k
        ≤ℤ (score_risk fs completeness version previous).category_scores k)
      × (rank (score_risk fs completeness version previous).grade
          ≤ rank (score_risk (fs ++ f ∷ []) completeness version previous).grade)
unfolding score_risk
score_risk-append fs f completeness version previous k h = (
  category_score-append fs f h k,
  grade_of_anti (at_least completeness 10000) (total_of (fs ++ f ∷ [])) (total_of fs)
      (total_of-append fs f h),
)
