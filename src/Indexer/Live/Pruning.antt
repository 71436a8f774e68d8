-- ===== src/Indexer/Live/Pruning.antt =====
-- `pruneExpiredRawFacts`. A delete of the pruner reads of a row only its chain and its height, so a
-- row is left where the pruner leaves these two. The rows of the other two tables, and those without
-- meaning, are of tables that the loop does not read.
use hood_sentry.Prelude.{
  ℕ, ◌+◌, Bool, true, false, ◌&&◌, Option, none, some, List, [], ◌∷◌, map, ltb, ◌==◌, if◌then◌else◌,
  length,
}
use hood_sentry.Indexer.Persister.{
  PersistedBlock, PersistedTransaction, PersistedReceipt, PersistedLog, Tables,
}
use hood_sentry.Rpc.Health.{filter}
use hood_sentry.Indexer.Retention
use hood_sentry.Indexer.Retention.{PrunableTable, FactRow, Facts, prune}
use hood_sentry.Indexer.Live.{LiveConfig, World, Live}

abbrev pub fact_of : ℕ → ℕ → FactRow
fact_of chain n = record { chain_id = chain; block_number = n }

abbrev pub block_fact : PersistedBlock → FactRow
block_fact r = fact_of r.chain_id r.number

abbrev transaction_fact : PersistedTransaction → FactRow
transaction_fact r = fact_of r.chain_id r.block_number

abbrev receipt_fact : PersistedReceipt → FactRow
receipt_fact r = fact_of r.chain_id r.block_number

abbrev log_fact : PersistedLog → FactRow
log_fact r = fact_of r.chain_id r.block_number

abbrev pub facts_of : Tables → Facts
facts_of t Retention.blocks = map block_fact t.blocks
facts_of t Retention.transactions = map transaction_fact t.transactions
facts_of t Retention.transaction_receipts = map receipt_fact t.receipts
facts_of t Retention.logs = map log_fact t.logs
facts_of t _ = []

abbrev pub is_listed : List FactRow → FactRow → Bool
is_listed [] r = false
is_listed (f ∷ fs) r =
    let rest = is_listed fs r in
    if (f.chain_id == r.chain_id) && (f.block_number == r.block_number) then true else rest

abbrev pub left_in : {A : Type 0} → (A → FactRow) → List FactRow → List A → List A
left_in fact fs rows = filter (λ r. is_listed fs (fact r)) rows

abbrev pub left_of : Tables → Facts → Tables
left_of t facts = record t {
  blocks = left_in block_fact (facts Retention.blocks) t.blocks;
  transactions = left_in transaction_fact (facts Retention.transactions) t.transactions;
  receipts = left_in receipt_fact (facts Retention.transaction_receipts) t.receipts;
  logs = left_in log_fact (facts Retention.logs) t.logs;
}

abbrev pub delete_batch_size : ℕ
delete_batch_size = 5000

-- More deletes than any of the tables has rows.
abbrev pub delete_count : Tables → ℕ
delete_count t = length t.blocks + length t.transactions + length t.receipts + length t.logs + 1

abbrev pub after_prune : Tables → Option Facts → Tables
after_prune t none = t
after_prune t (some facts) = left_of t facts

unfoldable pub pruned_tables : LiveConfig → World → Tables → Tables
unfolding prune
pruned_tables c w t = after_prune t (
    prune c.persister.chain_id c.raw_data_retention_blocks delete_batch_size w.deletes
      (delete_count t) (facts_of t))

-- Nothing without a retention, nor before the interval is over. That the highest block cannot be
-- read ends the prune.
unfoldable pub prune_expired_raw_facts : LiveConfig → World → Live → Live
unfolding pruned_tables
prune_expired_raw_facts c w s =
    if c.raw_data_retention_blocks == 0
    then s
    else if ltb w.prune_time (s.last_prune_at + c.retention_prune_interval_ms)
    then s
    else record s {
      last_prune_at = w.prune_time;
      tables = if w.reads_head then pruned_tables c w s.tables else s.tables;
    }
