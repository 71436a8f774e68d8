-- ===== src/Indexer/Persister/Writes.antt =====
-- The writes of apps/indexer/src/block-persister.ts.
use hood_sentry.Prelude.{
  ℕ, Bool, false, not, ◌&&◌, Option, none, some, List, [], ◌∷◌, ◌++◌, map, leb, ◌==◌, if◌then◌else◌,
}
use Prim.Native.String.{String}
use text.Mathlib.Text.{◌==◌ as str_eq}
use hood_sentry.Prelude.Attempt.{Attempt, returned, ◌>>=◌}
use hood_sentry.Indexer.Blocks.{Log, Transaction, TransactionReceipt, BlockData}
use hood_sentry.Indexer.Persister.{
  FinalityState, orphaned, PersisterConfig, PersistedBlock, PersistedTransaction, PersistedReceipt,
  PersistedLog, Tables, same_block, same_transaction, same_receipt, same_log, insert_row,
  insert_rows, chunked, insert_chunks, log_insert_chunk_size, row_insert_chunk_size,
  build_block_row, build_transaction_row, build_receipt_row, build_log_row,
}

unfoldable pub transaction_rows :
    PersisterConfig
    → Bool
    → ℕ
    → String
    → List TransactionReceipt
    → List Transaction
    → Attempt (List PersistedTransaction)
transaction_rows c canonical n h receipts [] = returned []
transaction_rows c canonical n h receipts (t ∷ ts) = do
  row ← build_transaction_row c canonical n h receipts t
  rest ← transaction_rows c canonical n h receipts ts
  returned (row ∷ rest)

abbrev pub receipt_rows :
    PersisterConfig → ℕ → String → List TransactionReceipt → List PersistedReceipt
receipt_rows c n h rs = map (build_receipt_row c n h) rs

unfoldable pub log_rows :
    PersisterConfig → Bool → ℕ → String → List Log → Attempt (List PersistedLog)
log_rows c canonical n h [] = returned []
log_rows c canonical n h (l ∷ ls) = do
  row ← build_log_row c canonical n h l
  rest ← log_rows c canonical n h ls
  returned (row ∷ rest)

abbrev pub raw_log_rows :
    PersisterConfig → Bool → ℕ → String → List Log → Attempt (List PersistedLog)
raw_log_rows c canonical n h ls =
    if c.persist_raw_logs then log_rows c canonical n h ls else returned []

-- The number and the hash of a block that has both.
abbrev pub identity : Option ℕ → Option String → Option (ℕ × String)
identity (some n) (some h) = some (n, h)
identity _ _ = none

-- The statements of one block, in one transaction of the database.
abbrev pub write_identified :
    PersisterConfig
    → FinalityState
    → Bool
    → BlockData
    → Option (ℕ × String)
    → Tables
    → Attempt Tables
write_identified c finality canonical b none t = returned t
write_identified c finality canonical b (some (n, h)) t =
    let blocks =
      insert_row same_block (build_block_row c finality canonical n h b.block) t.blocks in
    do
      rows ← transaction_rows c canonical n h b.receipts b.transactions
      logs ← raw_log_rows c canonical n h b.logs
      returned (record {
        blocks = blocks;
        transactions = insert_rows same_transaction rows t.transactions;
        receipts = insert_rows same_receipt (receipt_rows c n h b.receipts) t.receipts;
        logs = insert_chunks same_log (chunked log_insert_chunk_size logs) t.logs;
      })

unfoldable pub persist_block_data :
    PersisterConfig → FinalityState → Bool → BlockData → Tables → Attempt Tables
unfolding transaction_rows log_rows
persist_block_data c finality canonical b t =
    write_identified c finality canonical b (identity b.block.number b.block.hash) t

abbrev pub no_rows : Tables
no_rows = record { blocks = []; transactions = []; receipts = []; logs = [] }

abbrev pub followed_by : Tables → Tables → Tables
followed_by r s = record {
  blocks = r.blocks ++ s.blocks;
  transactions = r.transactions ++ s.transactions;
  receipts = r.receipts ++ s.receipts;
  logs = r.logs ++ s.logs;
}

abbrev pub rows_of :
    PersisterConfig → FinalityState → Bool → BlockData → Option (ℕ × String) → Attempt Tables
rows_of c finality canonical b none = returned no_rows
rows_of c finality canonical b (some (n, h)) = do
  rows ← transaction_rows c canonical n h b.receipts b.transactions
  logs ← raw_log_rows c canonical n h b.logs
  returned (record {
    blocks = build_block_row c finality canonical n h b.block ∷ [];
    transactions = rows;
    receipts = receipt_rows c n h b.receipts;
    logs = logs;
  })

-- The loop that collects the rows of the window.
unfoldable pub window_rows :
    PersisterConfig → FinalityState → Bool → List BlockData → Attempt Tables
unfolding transaction_rows log_rows
window_rows c finality canonical [] = returned no_rows
window_rows c finality canonical (b ∷ bs) = do
  rows ← rows_of c finality canonical b (identity b.block.number b.block.hash)
  rest ← window_rows c finality canonical bs
  returned (followed_by rows rest)

unfoldable pub write_rows : Tables → Tables → Tables
write_rows rows t = record {
  blocks = insert_chunks same_block (chunked row_insert_chunk_size rows.blocks) t.blocks;
  transactions =
      insert_chunks same_transaction (chunked row_insert_chunk_size rows.transactions)
        t.transactions;
  receipts = insert_chunks same_receipt (chunked row_insert_chunk_size rows.receipts) t.receipts;
  logs = insert_chunks same_log (chunked log_insert_chunk_size rows.logs) t.logs;
}

unfoldable pub persist_block_window :
    PersisterConfig → FinalityState → Bool → List BlockData → Tables → Attempt Tables
unfolding window_rows write_rows
persist_block_window c finality canonical [] t = returned t
persist_block_window c finality canonical (b ∷ bs) t = do
  rows ← window_rows c finality canonical (b ∷ bs)
  returned (write_rows rows t)

unfoldable pub update_block_finality :
    PersisterConfig → ℕ → String → FinalityState → List PersistedBlock → List PersistedBlock
update_block_finality c n h finality [] = []
update_block_finality c n h finality (r ∷ rs) =
    (if (r.chain_id == c.chain_id) && (r.number == n) && str_eq r.hash h
      then record r { finality_state = finality }
      else r)
    ∷ update_block_finality c n h finality rs

-- A block row of the chain from one number to another, canonical or not.
abbrev pub in_blocks : PersisterConfig → ℕ → ℕ → PersistedBlock → Bool
in_blocks c from_block to_block r =
    (r.chain_id == c.chain_id) && leb from_block r.number && leb r.number to_block

abbrev pub orphan_block : PersisterConfig → ℕ → ℕ → PersistedBlock → PersistedBlock
orphan_block c from_block to_block r =
    if in_blocks c from_block to_block r && r.canonical
    then record r { canonical = false; finality_state = orphaned }
    else r

unfoldable pub mark_blocks_orphaned :
    PersisterConfig → ℕ → ℕ → List PersistedBlock → List PersistedBlock
mark_blocks_orphaned c from_block to_block rs = map (orphan_block c from_block to_block) rs

unfoldable pub delete_orphaned_blocks :
    PersisterConfig → ℕ → ℕ → List PersistedBlock → List PersistedBlock
delete_orphaned_blocks c from_block to_block [] = []
delete_orphaned_blocks c from_block to_block (r ∷ rs) =
    let rest = delete_orphaned_blocks c from_block to_block rs in
    if in_blocks c from_block to_block r && not r.canonical then rest else r ∷ rest
