-- ===== src/Indexer/Fetcher/Tests.antt =====
-- A window of three blocks, the second of which the provider does not have.
use hood_sentry.Prelude.{
  ℕ, ◌+◌, ◌*◌, ◌≤◌, ◌≡◌, refl, ◌⊎◌, true, Option, none, some, List, [], ◌∷◌, ◌==◌, if◌then◌else◌,
}
use hood_sentry.Prelude.Attempt.{Attempt, threw, returned}
use hood_sentry.Indexer.Blocks.{Block, BlockData}
use hood_sentry.Indexer.Fetcher.{
  RpcClient, fetch_block, fetch_block_range, fetch_log_window, until_hole,
}
use hood_sentry.Indexer.Fetcher.Windows.{
  Turn, take_index, answer_at, window, turns, is_done, worker_count, fetch_block_window,
}
use hood_sentry.Indexer.Fetcher.Schedules.{in_order, fetch_block_window-in_order}
use hood_sentry.Indexer.Fetcher.Ends.{is_enabled, AllEnabled, turns_bounded}

abbrev block : ℕ → Block
block n = record {
  number = some n;
  hash = some "h";
  parent_hash = "h";
  timestamp = n;
  transactions = [];
}

abbrev client : RpcClient
client = record {
  get_block = λ n. returned (if n == 8 then none else some (block n));
  get_header = λ n. returned (if n == 8 then none else some (block n));
  get_block_receipts = λ h. threw;
  get_transaction_receipt = λ h. threw;
  get_logs = λ a b topics. returned [];
}

abbrev empty_data : ℕ → BlockData
empty_data n = record { block = block n; transactions = []; receipts = []; logs = [] }

abbrev schedule : List Turn
schedule =
    take_index
    ∷ take_index
    ∷ answer_at 0
    ∷ take_index
    ∷ answer_at 1
    ∷ answer_at 0
    ∷ take_index
    ∷ take_index
    ∷ []

window_ends_at_hole : fetch_block_window client none 7 3 2 schedule ≡ some (empty_data 7 ∷ [])
unfolding fetch_block_window
window_ends_at_hole = refl

range_passes_over_hole :
    fetch_block_range client none 7 3 ≡ returned (empty_data 7 ∷ empty_data 9 ∷ [])
unfolding fetch_block_range
range_passes_over_hole = refl

log_window_ends_at_hole : fetch_log_window client none 7 3 ≡ returned (empty_data 7 ∷ [])
unfolding fetch_log_window
log_window_ends_at_hole = refl

fetch_block_window-in_order_example :
    (rs : List (Option BlockData)) × (in_order (fetch_block client none) 7 3 ≡ returned rs)
    × ((empty_data 7 ∷ []) ≡ until_hole rs)
fetch_block_window-in_order_example =
    fetch_block_window-in_order client none 7 3 2 schedule (empty_data 7 ∷ []) window_ends_at_hole

abbrev answer : ℕ → Attempt (Option BlockData)
answer i = returned none

enabled : AllEnabled answer 3 schedule (window 2 3)
unfolding turns
enabled = (refl, (refl, (refl, (refl, (refl, (refl, (refl, (refl, tt))))))))

turns_bounded_example :
    (8 ≤ 3 * 3 + worker_count 2 3)
    × (((turns answer 3 schedule (window 2 3)).failed ≡ true)
        ⊎ (is_done (turns answer 3 schedule (window 2 3)) ≡ true)
        ⊎ ((t : Turn) × (is_enabled t (turns answer 3 schedule (window 2 3)) ≡ true)))
turns_bounded_example = turns_bounded answer 3 2 schedule enabled
