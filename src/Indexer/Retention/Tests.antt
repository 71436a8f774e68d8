-- ===== src/Indexer/Retention/Tests.antt =====
-- Chain 1 up to block 20, of which ten blocks are kept; chain 2 has old blocks too.
use hood_sentry.Prelude.{ℕ, ◌-◌, ◌<◌, ◌≡◌, refl, true, some, List, [], ◌∷◌, arith, length}
use hood_sentry.Prelude.{All}
use hood_sentry.Indexer.Retention.{
  PrunableTable, blocks, logs, FactRow, Facts, max_indexed_block, prune,
}
use hood_sentry.Indexer.Retention.Windows.{kept_rows}
use hood_sentry.Indexer.Retention.Prune.{prune_clears, prune_keeps}
use hood_sentry.Indexer.Retention.Cleanup.{
  BalanceRow, ScanRun, FindingRow, is_zero_balance, is_superseded, others, RunOf,
  prune_rows_without_meaning, prune_rows_of_chain,
}

abbrev row : ℕ → ℕ → FactRow
row chain n = record { chain_id = chain; block_number = n }

abbrev facts : Facts
facts t = row 1 2 ∷ row 1 20 ∷ row 2 3 ∷ row 1 9 ∷ row 1 10 ∷ []

all_succeed : (t : PrunableTable) (k : ℕ) → true ≡ true
all_succeed t k = refl

short : (t : PrunableTable) → length (facts t) < 6
short t = omega arith

head_is_twenty : max_indexed_block 1 (facts blocks) ≡ some 20
unfolding max_indexed_block
head_is_twenty = refl

prune_clears_example :
    (facts' : Facts) × (prune 1 10 4 (λ t k. true) 6 facts ≡ some facts')
    × (facts' logs ≡ kept_rows 1 (20 - 10) (facts logs))
prune_clears_example =
    prune_clears 1 10 4 20 6 (λ t k. true) facts logs (omega arith) (omega arith) head_is_twenty
      (omega arith) all_succeed short

ten_blocks_are_kept : kept_rows 1 10 (facts logs) ≡ row 1 20 ∷ row 2 3 ∷ row 1 10 ∷ []
ten_blocks_are_kept = refl

cleared :
    (facts' : Facts) × (prune 1 10 4 (λ t k. true) 6 facts ≡ some facts')
    × (facts' logs ≡ kept_rows 1 (20 - 10) (facts logs))
cleared =
    prune_clears 1 10 4 20 6 (λ t k. true) facts logs (omega arith) (omega arith) head_is_twenty
      (omega arith) all_succeed short

prune_keeps_example : kept_rows 1 (20 - 10) (cleared.0 logs) ≡ kept_rows 1 (20 - 10) (facts logs)
prune_keeps_example =
    prune_keeps 1 10 4 20 6 (λ t k. true) facts cleared.0 logs (omega arith) head_is_twenty
      cleared.1

abbrev balances : List BalanceRow
balances =
    record { chain_id = 1; balance_raw = 0 }
    ∷ record { chain_id = 1; balance_raw = 5 }
    ∷ record { chain_id = 2; balance_raw = 0 }
    ∷ []

-- Run 2 of the chain has replaced run 1; run 3 is of another chain.
abbrev runs : List ScanRun
runs =
    record { id = 1; chain_id = 1; target_address = 7; canonical = true; created_at = 10 }
    ∷ record { id = 2; chain_id = 1; target_address = 7; canonical = true; created_at = 20 }
    ∷ record { id = 3; chain_id = 2; target_address = 7; canonical = true; created_at = 30 }
    ∷ []

abbrev finding : ℕ → FindingRow
finding n = record { id = n; scan_run_id = n }

abbrev findings : List FindingRow
findings = finding 1 ∷ finding 2 ∷ finding 3 ∷ []

other_chain_is_deleted : others (is_superseded 1 runs) findings ≡ finding 2 ∷ []
other_chain_is_deleted = refl

prune_rows_of_chain_example :
    (prune_rows_without_meaning 1 runs 2 (λ k. true) (λ k. true) 4 balances findings
      ≡ (some (others (is_zero_balance 1) balances), some (finding 2 ∷ [])))
    × All (λ f. RunOf 1 runs runs f.scan_run_id) (finding 2 ∷ [])
prune_rows_of_chain_example =
    prune_rows_of_chain 1 runs 2 (λ k. true) (λ k. true) 4 balances findings (omega arith)
      (λ k. refl) (λ k. refl) (omega arith) (omega arith)
