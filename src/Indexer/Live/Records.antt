-- ===== src/Indexer/Live/Records.antt =====
-- The reorg detector against the tables of the persister: what its statements see of them, and
-- what its updates do to them.
use hood_sentry.Prelude.{ℕ, Bool, true, false, ◌&&◌, List, [], map, ltb, leb, ◌==◌, if◌then◌else◌}
use hood_sentry.Indexer.Persister.{
  FinalityState, orphaned, PersisterConfig, PersistedBlock, PersistedTransaction, PersistedLog,
  Tables,
}
use hood_sentry.Indexer.Reorg
use hood_sentry.Indexer.Reorg.{Row, ReorgEvent, Db, mark_all, marked, orphan, in_range}

abbrev is_orphaned : FinalityState → Bool
is_orphaned orphaned = true
is_orphaned _ = false

abbrev pub block_view : PersistedBlock → Row
block_view b = record {
  chain_id = b.chain_id;
  block_number = b.number;
  hash = b.hash;
  canonical = b.canonical;
  withdrawn = is_orphaned b.finality_state;
}

abbrev pub transaction_view : PersistedTransaction → Row
transaction_view t = record {
  chain_id = t.chain_id;
  block_number = t.block_number;
  hash = t.hash;
  canonical = t.canonical;
  withdrawn = false;
}

abbrev pub log_view : PersistedLog → Row
log_view l = record {
  chain_id = l.chain_id;
  block_number = l.block_number;
  hash = l.transaction_hash;
  canonical = l.canonical;
  withdrawn = l.removed;
}

abbrev pub rows_view : Tables → Reorg.Table → List Row
rows_view t Reorg.blocks = map block_view t.blocks
rows_view t Reorg.transactions = map transaction_view t.transactions
rows_view t Reorg.logs = map log_view t.logs
rows_view t _ = []

abbrev pub db_of : Tables → List ReorgEvent → Db
db_of t events = record { rows = rows_view t; reorg_events = events }

abbrev pub in_event : ReorgEvent → ℕ → ℕ → Bool
in_event e chain n = (chain == e.chain_id) && leb e.from_block n && leb n e.to_block

-- `markBlocksOrphaned` of the reorg detector.
abbrev orphan_block : PersisterConfig → ReorgEvent → PersistedBlock → PersistedBlock
orphan_block c e b =
    if (b.chain_id == c.chain_id)
      && leb e.from_block b.number
      && leb b.number e.to_block
      && b.canonical
    then record b { canonical = false; finality_state = orphaned }
    else b

unfoldable pub mark_detected_orphaned :
    PersisterConfig → ReorgEvent → List PersistedBlock → List PersistedBlock
mark_detected_orphaned c e bs = map (orphan_block c e) bs

abbrev orphan_transaction : ReorgEvent → PersistedTransaction → PersistedTransaction
orphan_transaction e t =
    if in_event e t.chain_id t.block_number && t.canonical
    then record t { canonical = false }
    else t

abbrev orphan_log : ReorgEvent → PersistedLog → PersistedLog
orphan_log e l =
    if in_event e l.chain_id l.block_number && l.canonical
    then record l { canonical = false; removed = true }
    else l

unfoldable pub mark_transactions_orphaned :
    ReorgEvent → List PersistedTransaction → List PersistedTransaction
mark_transactions_orphaned e ts = map (orphan_transaction e) ts

unfoldable pub mark_logs_orphaned : ReorgEvent → List PersistedLog → List PersistedLog
mark_logs_orphaned e ls = map (orphan_log e) ls

-- The first `k` updates of `handleReorg`; those after the third are of other tables.
unfoldable pub mark_tables : PersisterConfig → ℕ → ReorgEvent → Tables → Tables
unfolding mark_detected_orphaned mark_transactions_orphaned mark_logs_orphaned
mark_tables c k e t = record t {
  blocks = if ltb 0 k then mark_detected_orphaned c e t.blocks else t.blocks;
  transactions = if ltb 1 k then mark_transactions_orphaned e t.transactions else t.transactions;
  logs = if ltb 2 k then mark_logs_orphaned e t.logs else t.logs;
}
