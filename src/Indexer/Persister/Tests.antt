-- ===== src/Indexer/Persister/Tests.antt =====
-- A window of two blocks.
use hood_sentry.Prelude.{ℕ, ◌*◌, ◌≡◌, refl, true, some, [], ◌∷◌}
use hood_sentry.Prelude.Attempt.{returned}
use hood_sentry.Indexer.Blocks.{BlockData}
use hood_sentry.Indexer.Persister.{
  finalized, PersisterConfig, PersistedBlock, Tables, insert_chunks, same_block, build_block_row,
  chunked,
}
use hood_sentry.Indexer.Persister.Writes.{
  persist_block_window, mark_blocks_orphaned, delete_orphaned_blocks,
}
use hood_sentry.Indexer.Persister.Batches.{persist_each, persist_block_window-each}

abbrev config : PersisterConfig
config = record { chain_id = 1; persist_raw_logs = true }

abbrev empty_data : ℕ → BlockData
empty_data n = record {
  block = record {
    number = some n;
    hash = some "h";
    parent_hash = "p";
    timestamp = n;
    transactions = [];
  };
  transactions = [];
  receipts = [];
  logs = [];
}

abbrev no_tables : Tables
no_tables = record { blocks = []; transactions = []; receipts = []; logs = [] }

abbrev row : ℕ → PersistedBlock
row n = record {
  chain_id = 1;
  number = n;
  hash = "h";
  parent_hash = "p";
  timestamp = n * 1000;
  finality_state = finalized;
  canonical = true;
}

window_writes_both :
    persist_block_window config finalized true
      (empty_data 3 ∷ empty_data 4 ∷ empty_data 3 ∷ [])
      no_tables
    ≡ returned (record no_tables { blocks = row 3 ∷ row 4 ∷ [] })
unfolding persist_block_window insert_chunks chunked same_block build_block_row
window_writes_both = refl

chunks_of_two : chunked {A = ℕ} 2 (1 ∷ 2 ∷ 3 ∷ []) ≡ (1 ∷ 2 ∷ []) ∷ (3 ∷ []) ∷ []
unfolding chunked
chunks_of_two = refl

orphans_are_deleted :
    delete_orphaned_blocks config 3 9 (mark_blocks_orphaned config 4 9 (row 3 ∷ row 4 ∷ []))
    ≡ row 3 ∷ []
unfolding delete_orphaned_blocks mark_blocks_orphaned
orphans_are_deleted = refl

persist_block_window-each_example :
    persist_block_window config finalized true (empty_data 3 ∷ empty_data 4 ∷ []) no_tables
    ≡ persist_each config finalized true (empty_data 3 ∷ empty_data 4 ∷ []) no_tables
persist_block_window-each_example =
    persist_block_window-each config finalized true (empty_data 3 ∷ empty_data 4 ∷ []) no_tables
