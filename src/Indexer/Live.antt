-- ===== src/Indexer/Live.antt =====
-- The live mode of apps/indexer/src/block-indexer.ts. What the other parts of the program and the
-- services answer while one pass of the loop runs is its `World`: the lease, the provider, whether
-- each write to the database and to the queue succeeds, and how far the handling of a reorganisation
-- came. The recording of the head, the log and the sleeps are left out.
pub mod Records
pub mod Pruning
pub mod Retained
pub mod Loop
pub mod Served
pub mod Cover
pub mod Passes
pub mod NoSkip
pub mod Abandoned
mod Tests
use hood_sentry.Prelude.{
  ℕ, zero, suc, ◌+◌, ◌-◌, ◌*◌, ◌/◌, ◌%◌, ◌^◌, ◌≤◌, ◌<◌, min, max, ◌≡◌, refl, sym, ap, ◌∙◌, subst,
  ◌≢◌, ◌↔◌, ◌⊎◌, inl, inr, Bool, true, false, not, ◌&&◌, ◌||◌, Option, none, some, List, [], ◌∷◌,
  ◌++◌, map, arith, ltb, leb, ◌==◌, if◌then◌else◌, ltb→lt, lt→ltb, leb→le, ==_iff, tests,
  Bool-cases, Option-cases, length, get_elem?, set, get_or, take, drop, replicate, length-append,
  length-take, length-drop, length-map, length-replicate,
}
use Prim.Native.String.{String}
use hood_sentry.Prelude.Attempt.{Attempt, threw, returned, ◌>>=◌}
use hood_sentry.Prelude.Int.{ℤ, sub_ℕ}
use hood_sentry.Indexer.Blocks.{Block, BlockData}
use hood_sentry.Indexer.Fetcher.{RpcClient}
use hood_sentry.Indexer.Fetcher.Windows.{Turn}
use hood_sentry.Indexer.Persister.{
  FinalityState, pending, soft_confirmed, safe, finalized, PersisterConfig, Tables,
}
use hood_sentry.Indexer.Reorg.{ReorgEvent}
use hood_sentry.Indexer.Retention.{PrunableTable}

pub record LiveConfig : Type 0 where
  pub persister : PersisterConfig
  pub start_block : ℕ
  pub finality_confirmations : ℕ
  pub safe_confirmations : ℕ
  pub batch_size : ℕ
  pub max_concurrency : ℕ
  pub log_window_enabled : Bool
  pub indexable_topics : Option (List (List ℕ))
  pub raw_data_retention_blocks : ℕ
  pub retention_prune_interval_ms : ℕ

-- A job stands for its idempotency key. `deletes` is whether the i-th delete of a table succeeds.
pub record World : Type 0 where
  pub renewed : Attempt Bool
  pub latest : Attempt ℕ
  pub prune_time : ℕ
  pub reads_head : Bool
  pub deletes : PrunableTable → ℕ → Bool
  pub latest_again : Attempt ℕ
  pub client : RpcClient
  pub window_turns : List Turn
  pub search : Attempt (ℕ → Option String)
  pub event_id : ℕ
  pub now : ℕ
  pub marks : ℕ
  pub resolves : Bool
  pub commits : Bool
  pub writes_checkpoint : Bool
  pub collect : BlockData → Attempt (List String)
  pub publishes : Bool

pub record IndexerMetrics : Type 0 where
  pub blocks_indexed : ℕ
  pub transactions_indexed : ℕ
  pub logs_indexed : ℕ
  pub reorgs_detected : ℕ
  pub last_block_number : Option ℕ
  pub lag : ℤ

pub record Checkpoint : Type 0 where
  pub next_block : ℕ
  pub last_block_hash : Option String

-- The database, the queue, and the variables of the loop.
pub record Live : Type 0 where
  pub tables : Tables
  pub reorg_events : List ReorgEvent
  pub checkpoint : Option Checkpoint
  pub published : List String
  pub current_block : ℕ
  pub last_block_hash : Option String
  pub metrics : IndexerMetrics
  pub errors : List ℕ
  pub last_prune_at : ℕ

-- Keeps the last hundred.
unfoldable pub handle_error : Live → Live
handle_error s =
    let errors = s.errors ++ s.current_block ∷ [] in
    record s {
      errors = if ltb 100 (length errors) then drop (length errors - 100) errors else errors;
    }

-- A pass throws with what it did so far, or ends; the first is an error that the loop records.
pub data Pass : Type 0 where
  failed : Live → Pass
  passed : Live → Pass

abbrev pub state_of : Pass → Live
state_of (failed s) = s
state_of (passed s) = s

unfoldable pub finality_of : LiveConfig → ℕ → ℕ → FinalityState
finality_of c latest n =
    if leb (n + c.finality_confirmations) latest
    then finalized
    else if leb (n + c.safe_confirmations) latest
    then safe
    else if ltb n latest
    then soft_confirmed
    else pending

abbrev pub counted : BlockData → IndexerMetrics → IndexerMetrics
counted b m = record m {
  blocks_indexed = m.blocks_indexed + 1;
  transactions_indexed = m.transactions_indexed + length b.transactions;
  logs_indexed = m.logs_indexed + length b.logs;
}

abbrev pub with_lag : ℕ → Live → Live
with_lag latest s = record s { metrics = record s.metrics { lag = sub_ℕ latest s.current_block } }
