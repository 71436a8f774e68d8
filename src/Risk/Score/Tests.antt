-- ===== src/Risk/Score/Tests.antt =====
-- Two findings against the control of the contract, one of which caps the score.
use hood_sentry.Prelude.{◌≤◌, ◌≡◌, refl, none, some, [], ◌∷◌, arith}
use hood_sentry.Prelude.Int.{pos, ◌≤ℤ◌}
use hood_sentry.Risk.Score.{ScoreFinding, contract_control, high, grade_u, score_risk}
use hood_sentry.Risk.Score.Laws.{rank, score_risk-append}

abbrev mintable : ScoreFinding
mintable = record {
  id = "mintable";
  category = contract_control;
  penalty = pos 10;
  confidence = high;
  cap_at = none;
  explanation = "";
}

abbrev honeypot : ScoreFinding
honeypot = record mintable { id = "honeypot"; penalty = pos 30; cap_at = some (pos 60) }

ninety : (score_risk (mintable ∷ []) (pos 10000) "1" none).total ≡ some (pos 90)
unfolding score_risk
ninety = refl

capped_at_sixty : (score_risk (mintable ∷ honeypot ∷ []) (pos 10000) "1" none).total ≡ some (pos 60)
unfolding score_risk
capped_at_sixty = refl

incomplete_is_ungraded : (score_risk [] (pos 9999) "1" none).grade ≡ grade_u
unfolding score_risk
incomplete_is_ungraded = refl

score_risk-append_example :
    ((score_risk (mintable ∷ honeypot ∷ []) (pos 10000) "1" none).category_scores contract_control
      ≤ℤ (score_risk (mintable ∷ []) (pos 10000) "1" none).category_scores contract_control)
    × (rank (score_risk (mintable ∷ []) (pos 10000) "1" none).grade
        ≤ rank (score_risk (mintable ∷ honeypot ∷ []) (pos 10000) "1" none).grade)
score_risk-append_example =
    score_risk-append (mintable ∷ []) honeypot (pos 10000) "1" none contract_control (omega arith)
