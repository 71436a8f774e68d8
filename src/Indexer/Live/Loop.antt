-- ===== src/Indexer/Live/Loop.antt =====
-- `runLiveMode` and `drainFinalizedBacklog`. A schedule of the workers that does not end counts as
-- a window that throws, and the jobs of a block or a window are queued together.
use hood_sentry.Prelude.{
  ℕ, ◌+◌, ◌-◌, min, Bool, true, false, ◌&&◌, Option, none, some, List, [], ◌∷◌, ◌++◌, ltb, leb,
  if◌then◌else◌, length,
}
use Prim.Native.String.{String}
use hood_sentry.Prelude.Attempt.{Attempt, threw, returned}
use hood_sentry.Indexer.Blocks.{BlockData}
use hood_sentry.Indexer.Fetcher.{fetch_block, fetch_log_window, validate_parent_hash}
use hood_sentry.Indexer.Fetcher.Windows.{fetch_block_window}
use hood_sentry.Indexer.Persister.{finalized, Tables}
use hood_sentry.Indexer.Persister.Writes.{persist_block_data, persist_block_window}
use hood_sentry.Indexer.Reorg.{ReorgEvent, Db, detect_reorg, resolve_reorg_event}
use hood_sentry.Indexer.Live.{
  LiveConfig, World, IndexerMetrics, Checkpoint, Live, handle_error, Pass, failed, passed,
  finality_of, counted, with_lag,
}
use hood_sentry.Indexer.Live.Pruning.{prune_expired_raw_facts}
use hood_sentry.Indexer.Live.Records.{db_of, mark_tables}

abbrev pub committed : World → Attempt Tables → Attempt Tables
committed w a = if w.commits then a else threw

-- Nothing is sent for no jobs.
abbrev pub jobs_pass : World → List String → Bool
jobs_pass w [] = true
jobs_pass w (j ∷ js) = w.publishes

-- `createOrUpdateCheckpoint`, and the move of the loop that follows it.
abbrev pub checkpointed : World → ℕ → Option String → Live → Attempt Live
checkpointed w next h s =
    if w.writes_checkpoint
    then returned
        (record s { checkpoint = some (record { next_block = next; last_block_hash = h }) })
    else threw

abbrev pub moved : ℕ → Option String → Live → Live
moved next h s = record s { current_block = next; last_block_hash = h }

-- The metrics and the jobs of the blocks of a window, up to the block whose handlers throw.
abbrev pub collect_window :
    World → List BlockData → IndexerMetrics → List String → IndexerMetrics × Attempt (List String)
collect_window w [] m jobs = (m, returned jobs)
collect_window w (b ∷ bs) m jobs = elim (w.collect b) [
  | threw ↦ (counted b m, threw)
  | returned js ↦ collect_window w bs (counted b m) (jobs ++ js)
]

abbrev pub last_block : BlockData → List BlockData → BlockData
last_block b [] = b
last_block b (c ∷ cs) = last_block c cs

abbrev or_before : Option ℕ → Option ℕ → Option ℕ
or_before none old = old
or_before (some n) old = some n

abbrev pub window_counted : BlockData → IndexerMetrics → List String → Live → Live
window_counted last m js s = record s {
  metrics = record m { last_block_number = or_before last.block.number m.last_block_number };
  published = s.published ++ js;
}

abbrev pub finish_window : BlockData → ℕ → Live → Attempt Live → Pass
finish_window last next s threw = failed s
finish_window last next s (returned s') = passed (moved next last.block.hash s')

-- The window is written; its jobs are queued, and then the checkpoint is.
abbrev pub publish_window :
    World → BlockData → ℕ → Live → IndexerMetrics × Attempt (List String) → Pass
publish_window w last count s (m, threw) = failed (record s { metrics = m })
publish_window w last count s (m, returned js) =
    if jobs_pass w js
    then (let s' = window_counted last m js s in
        finish_window last (s.current_block + count) s'
          (checkpointed w (s.current_block + count) last.block.hash s'))
    else failed (record s { metrics = m })

abbrev pub write_window : World → List BlockData → BlockData → Live → Attempt Tables → Pass
write_window w bs last s threw = failed s
write_window w bs last s (returned t) =
    publish_window w last (length bs) (record s { tables = t }) (collect_window w bs s.metrics [])

abbrev pub use_window : LiveConfig → World → Live → Attempt (List BlockData) → Pass
use_window c w s threw = failed s
use_window c w s (returned []) = passed s
use_window c w s (returned (b ∷ bs)) =
    write_window w (b ∷ bs) (last_block b bs) s
      (committed w (persist_block_window c.persister finalized true (b ∷ bs) s.tables))

abbrev pub or_threw : Option (List BlockData) → Attempt (List BlockData)
or_threw none = threw
or_threw (some bs) = returned bs

-- How many blocks a window asks for: no more than a batch, and none above the finalized height.
abbrev pub window_count : LiveConfig → ℕ → ℕ → ℕ
window_count c latest current = min c.batch_size (latest - c.finality_confirmations + 1 - current)

unfoldable pub fetch_window : LiveConfig → World → ℕ → ℕ → Attempt (List BlockData)
unfolding fetch_log_window fetch_block_window
fetch_window c w first count =
    if c.log_window_enabled
    then fetch_log_window w.client c.indexable_topics first count
    else or_threw (
        fetch_block_window w.client c.indexable_topics first count c.max_concurrency w.window_turns)

unfoldable pub drain : LiveConfig → World → ℕ → Live → Pass
unfolding fetch_window persist_block_window
drain c w latest s =
    use_window c w s (fetch_window c w s.current_block (window_count c latest s.current_block))

-- The last part of a pass: the block is written and the checkpoint is, before its jobs are queued.
abbrev pub block_counted : BlockData → Live → Live
block_counted b s = record s {
  metrics = record (counted b s.metrics) { last_block_number = some s.current_block };
}

abbrev pub publish_block : World → BlockData → Live → Attempt (List String) → Pass
publish_block w b s threw = failed s
publish_block w b s (returned js) =
    if jobs_pass w js
    then passed
        (moved (s.current_block + 1) b.block.hash (record s { published = s.published ++ js }))
    else failed s

abbrev pub after_checkpoint : World → BlockData → Live → Attempt Live → Pass
after_checkpoint w b s threw = failed s
after_checkpoint w b s (returned s') = publish_block w b (block_counted b s') (w.collect b)

abbrev pub write_block : World → BlockData → Live → Attempt Tables → Pass
write_block w b s threw = failed s
write_block w b s (returned t) =
    let s' = record s { tables = t } in
    after_checkpoint w b s' (checkpointed w (s.current_block + 1) b.block.hash s')

unfoldable pub index_block : LiveConfig → World → BlockData → Live → Pass
unfolding finality_of persist_block_data
index_block c w b s = elim w.latest_again [
  | threw ↦ failed s
  | returned latest ↦ write_block w b s (
      committed w
        (persist_block_data c.persister (finality_of c latest s.current_block) true b s.tables))
]

-- `handleReorg` as far as it came, and the return to the ancestor if it came to its end.
abbrev pub reorg_counted : Live → Live
reorg_counted s = record s {
  metrics = record s.metrics { reorgs_detected = s.metrics.reorgs_detected + 1 };
}

abbrev pub resolved_events : ℕ → ReorgEvent → Tables → List ReorgEvent → List ReorgEvent
resolved_events now e t events = (resolve_reorg_event now e (db_of t events)).reorg_events

unfoldable pub handle : LiveConfig → World → ReorgEvent → Live → Pass
unfolding mark_tables resolve_reorg_event
handle c w e s =
    let s' = record s { tables = mark_tables c.persister w.marks e s.tables } in
    if leb 7 w.marks && w.resolves
    then passed (
        moved (e.common_ancestor_block + 1) none
          (record s' { reorg_events = resolved_events w.now e s'.tables s.reorg_events }))
    else failed s'

abbrev pub on_event : LiveConfig → World → BlockData → Live → Option ReorgEvent × Db → Pass
on_event c w b s (none, db) = index_block c w b s
on_event c w b s (some e, db) =
    handle c w e (reorg_counted (record s { reorg_events = db.reorg_events }))

abbrev pub on_search : LiveConfig → World → BlockData → Live → Attempt (ℕ → Option String) → Pass
on_search c w b s threw = failed s
on_search c w b s (returned fetched) = on_event c w b s (
    detect_reorg fetched c.persister.chain_id w.event_id w.now s.current_block s.last_block_hash
      b.block.parent_hash (db_of s.tables s.reorg_events))

unfoldable pub on_mismatch : LiveConfig → World → BlockData → Live → Pass
unfolding handle index_block detect_reorg
on_mismatch c w b s = on_search c w b s w.search

abbrev pub use_block : LiveConfig → World → Live → Attempt (Option BlockData) → Pass
use_block c w s threw = failed s
use_block c w s (returned none) = passed s
use_block c w s (returned (some b)) =
    if validate_parent_hash b.block s.last_block_hash
    then index_block c w b s
    else on_mismatch c w b s

unfoldable pub tail : LiveConfig → World → Live → Pass
unfolding fetch_block validate_parent_hash index_block on_mismatch
tail c w s = use_block c w s (fetch_block w.client c.indexable_topics s.current_block)

unfoldable pub at_head : LiveConfig → World → ℕ → Live → Pass
unfolding drain tail
at_head c w latest s =
    if ltb latest s.current_block
    then passed s
    else if leb (s.current_block + c.finality_confirmations) latest
    then drain c w latest s
    else tail c w s

-- A pass of the loop; none if the lease is lost.
abbrev pub settle : Pass → Live
settle (failed s) = handle_error s
settle (passed s) = s

unfoldable pub live_pass : LiveConfig → World → Live → Option Live
unfolding at_head handle_error prune_expired_raw_facts
live_pass c w s = elim w.renewed [
  | threw ↦ some (handle_error s)
  | returned renewed ↦
      if renewed
      then some (elim w.latest [
        | threw ↦ handle_error s
        | returned latest ↦
            settle (at_head c w latest (prune_expired_raw_facts c w (with_lag latest s)))
      ])
      else none
]

-- The loop over the worlds of its passes: what it left, and whether it threw as the lease was lost.
unfoldable pub run_live_loop : LiveConfig → List World → Live → Live × Bool
unfolding live_pass
run_live_loop c [] s = (s, false)
run_live_loop c (w ∷ ws) s = elim (live_pass c w s) [
  | none ↦ (s, true)
  | some s' ↦ run_live_loop c ws s'
]

-- The start of the loop: at the checkpoint, which is made if there is none.
abbrev pub first_checkpoint : LiveConfig → Checkpoint
first_checkpoint c = record { next_block = c.start_block; last_block_hash = none }

unfoldable pub start_live : LiveConfig → Live → Live
start_live c s =
    let at_checkpoint =
      λ (p : Checkpoint). moved p.next_block p.last_block_hash (record s { checkpoint = some p }) in
    elim s.checkpoint [ none ↦ at_checkpoint (first_checkpoint c) | some p ↦ at_checkpoint p ]
