-- ===== src/Indexer/Gaps/Tests.antt =====
-- A scan of a range with three gaps.
use hood_sentry.Prelude.{ℕ, ◌≡◌, refl, List, [], ◌∷◌, arith}
use hood_sentry.Indexer.Gaps.{scan_for_gaps, get_missing_blocks, has}
use hood_sentry.Indexer.Gaps.Laws.{blocks, blocks-scan_for_gaps}

abbrev query : ℕ → ℕ → List ℕ
query first last = 12 ∷ 13 ∷ 16 ∷ []

three_gaps :
    scan_for_gaps query 10 17
    ≡ record { from_block = 10; to_block = 11 }
      ∷ record { from_block = 14; to_block = 15 }
      ∷ record { from_block = 17; to_block = 17 }
      ∷ []
unfolding scan_for_gaps has
three_gaps = refl

blocks-scan_for_gaps_example : blocks (scan_for_gaps query 10 17) ≡ get_missing_blocks query 10 17
blocks-scan_for_gaps_example = blocks-scan_for_gaps query 10 17 (omega arith)
