-- ===== src/Indexer/Live/Tests.antt =====
-- A stream from block 5 on, on a chain of empty blocks.
use hood_sentry.Indexer.Live.{Option, LiveConfig, World, Checkpoint, Live}
use hood_sentry.Prelude.{
  ℕ, ◌+◌, ◌≡◌, refl, sym, ap, inl, inr, true, false, none, some, [], ◌∷◌, arith,
}
use hood_sentry.Prelude.Attempt.{threw, returned, returned-injective}
use mathlib.Core.Option.{some-injective}
use hood_sentry.Prelude.Int.{pos}
use hood_sentry.Indexer.Blocks.{Block, BlockData, Transaction}
use hood_sentry.Indexer.Fetcher.{RpcClient}
use hood_sentry.Indexer.Fetcher.Windows.{take_index, answer_at}
use hood_sentry.Indexer.Persister.{
  FinalityState, finalized, PersistedBlock, PersistedTransaction, Tables, build_transaction_row,
  insert_row, insert_rows, insert_chunks, same_block, same_transaction, chunked, build_block_row,
}
use hood_sentry.Indexer.Persister.Writes.{persist_block_data}
use hood_sentry.Indexer.Persister.Keeps.{has_canonical, find_transaction}
use hood_sentry.Indexer.Reorg.{ReorgEvent, event_of}
use hood_sentry.Indexer.Live.Records.{mark_tables}
use hood_sentry.Indexer.Live.Retained.{IsRetained}
use hood_sentry.Indexer.Retention.{max_indexed_block}
use hood_sentry.Indexer.Live.Pruning.{prune_expired_raw_facts, pruned_tables}
use hood_sentry.Indexer.Live.Cover.{Covered, IsSound}
use hood_sentry.Indexer.Live.Passes.{CheckCovered}
use hood_sentry.Indexer.Live.NoSkip.{
  AllSound, AllCalm, run_live_loop-Covered, run_live_loop-CheckCovered,
}
use hood_sentry.Indexer.Live.Abandoned.{remined_transaction, returned_block}
use hood_sentry.Indexer.Live.Loop.{live_pass, run_live_loop}

abbrev block : ℕ → Block
block n = record {
  number = some n;
  hash = some "h";
  parent_hash = "h";
  timestamp = 100 + n;
  transactions = [];
}

abbrev client : RpcClient
client = record {
  get_block = λ n. returned (some (block n));
  get_header = λ n. returned (some (block n));
  get_block_receipts = λ h. threw;
  get_transaction_receipt = λ h. threw;
  get_logs = λ a b topics. returned [];
}

abbrev config : LiveConfig
config = record {
  persister = record { chain_id = 1; persist_raw_logs = true };
  start_block = 5;
  finality_confirmations = 3;
  safe_confirmations = 1;
  batch_size = 2;
  max_concurrency = 2;
  log_window_enabled = false;
  indexable_topics = none;
  raw_data_retention_blocks = 4;
  retention_prune_interval_ms = 1000;
}

abbrev no_tables : Tables
no_tables = record { blocks = []; transactions = []; receipts = []; logs = [] }

abbrev initial : Live
initial = record {
  tables = no_tables;
  reorg_events = [];
  checkpoint = some (record { next_block = 5; last_block_hash = none });
  published = [];
  current_block = 5;
  last_block_hash = none;
  metrics = record {
    blocks_indexed = 0;
    transactions_indexed = 0;
    logs_indexed = 0;
    reorgs_detected = 0;
    last_block_number = none;
    lag = pos 0;
  };
  errors = [];
  last_prune_at = 0;
}

-- The second worker answers first.
abbrev world : World
world = record {
  renewed = returned true;
  latest = returned 20;
  prune_time = 0;
  reads_head = true;
  deletes = λ t i. true;
  latest_again = returned 20;
  client = client;
  window_turns = take_index ∷ take_index ∷ answer_at 0 ∷ answer_at 0 ∷ take_index ∷ take_index ∷ [];
  search = threw;
  event_id = 1;
  now = 0;
  marks = 0;
  resolves = true;
  commits = true;
  writes_checkpoint = true;
  collect = λ b. returned ("job" ∷ []);
  publishes = true;
}

window_is_written : (run_live_loop config (world ∷ []) initial).0.current_block ≡ 7
unfolding run_live_loop
window_is_written = refl

jobs_are_queued : (run_live_loop config (world ∷ []) initial).0.published ≡ "job" ∷ "job" ∷ []
unfolding run_live_loop
jobs_are_queued = refl

given : (n : ℕ) (b : Block) → returned (some (block n)) ≡ returned (some b) → b.number ≡ some n
given n b e =
    let same : block n ≡ b = some-injective _ _ (returned-injective _ _ e) in
    ap (λ (x : Block). x.number) (sym same)

sound : IsSound config world initial
sound = record {
  honest = record { by_block = λ n b e. inr (given n b e); by_header = λ n b e. inr (given n b e) };
  fresh = λ n b h g e. refl;
  whole = inl refl;
}

retained : IsRetained 5 config no_tables
unfolding max_indexed_block
retained = inr (λ head e. absurd (let q : ◌≡◌ {A = Option ℕ} none (some head) = e in cc))

one_world :
    (c : LiveConfig) (w : World) (s : Live)
    → IsSound c w s
    → IsRetained 5 c s.tables
    → AllSound 5 c (w ∷ []) s
one_world c w s h near = (
  h,
  near,
  elim (live_pass c w s) as (λ o. elim o [ none ↦ Unit {0} | some s' ↦ Unit ]) [
    | none ↦ tt
    | some s' ↦ tt
  ],
)

run_live_loop-Covered_example : Covered 5 config (run_live_loop config (world ∷ []) initial).0
run_live_loop-Covered_example =
    run_live_loop-Covered 5 config (world ∷ []) initial (λ n a b. absurd (omega (arith, a, b)))
      (one_world config world initial sound retained)

calm : AllCalm config (world ∷ []) initial
unfolding live_pass
calm = (refl, tt)

nothing_below : CheckCovered 5 config initial
nothing_below p e n a b =
    let at_start : 5 ≡ p.next_block =
      ap (λ (x : Checkpoint). x.next_block) (some-injective _ _ e) in
    absurd (omega (arith, at_start, a, b))

run_live_loop-CheckCovered_example :
    CheckCovered 5 config (run_live_loop config (world ∷ []) initial).0
run_live_loop-CheckCovered_example =
    run_live_loop-CheckCovered 5 config (world ∷ []) initial (λ n a b. absurd (omega (arith, a, b)))
      nothing_below (one_world config world initial sound retained) calm

-- A transaction that a reorganisation of block 6 moves to block 7.
abbrev transaction : Transaction
transaction = record {
  hash = "tx";
  transaction_index = some 0;
  from_address = "from";
  to_address = none;
  nonce = 0;
  value = 1;
  input = "0x";
  gas = none;
  gas_price = none;
}

abbrev with_transaction : ℕ → BlockData
with_transaction n = record {
  block = block n;
  transactions = transaction ∷ [];
  receipts = [];
  logs = [];
}

abbrev row : PersistedTransaction
row = record {
  chain_id = 1;
  hash = "tx";
  transaction_index = 0;
  block_number = 6;
  block_hash = "old";
  from_address = "from";
  to_address = none;
  nonce = 0;
  value_raw = 1;
  input = "0x";
  status = 1;
  gas_used = 0;
  effective_gas_price = 0;
  contract_created = none;
  canonical = true;
}

abbrev old_block : PersistedBlock
old_block = record {
  chain_id = 1;
  number = 6;
  hash = "h";
  parent_hash = "h";
  timestamp = 0;
  finality_state = finalized;
  canonical = true;
}

abbrev before : Tables
before = record { blocks = old_block ∷ []; transactions = row ∷ []; receipts = []; logs = [] }

abbrev event : ReorgEvent
event = event_of 1 3 50 7 5

abbrev after : Tables
after = record {
  blocks = record old_block { canonical = false; finality_state = FinalityState.orphaned } ∷ [];
  transactions = record row { canonical = false } ∷ [];
  receipts = [];
  logs = [];
}

marks_both : mark_tables config.persister 7 event before ≡ after
unfolding mark_tables
marks_both = refl

-- Blocks 3 and 9 of the chain with a retention of four blocks, and block 3 of another chain.
abbrev aged : Tables
aged = record no_tables {
  blocks =
      record old_block { number = 3 }
      ∷ record old_block { number = 9 }
      ∷ record old_block { number = 3; chain_id = 2 }
      ∷ [];
}

prune_drops_third :
    (prune_expired_raw_facts config
      (record world { prune_time = 1000 })
      (record initial { tables = aged })).tables.blocks
    ≡ record old_block { number = 9 } ∷ record old_block { number = 3; chain_id = 2 } ∷ []
unfolding prune_expired_raw_facts pruned_tables
prune_drops_third = refl

prune_waits :
    (prune_expired_raw_facts config
      (record world { prune_time = 999 })
      (record initial { tables = aged })).tables.blocks
    ≡ aged.blocks
unfolding prune_expired_raw_facts
prune_waits = refl

abbrev written : Tables
written = record {
  blocks =
      record old_block { canonical = false; finality_state = FinalityState.orphaned }
      ∷ record old_block { number = 7; timestamp = 107000 }
      ∷ [];
  transactions = record row { canonical = false } ∷ [];
  receipts = [];
  logs = [];
}

writes_seventh :
    persist_block_data config.persister finalized true
      (with_transaction 7)
      (mark_tables config.persister 7 event before)
    ≡ returned written
unfolding persist_block_data mark_tables build_transaction_row insert_row insert_rows insert_chunks
    same_block same_transaction chunked build_block_row
writes_seventh = refl

remined_transaction_example :
    find_transaction 1 "tx" written.transactions ≡ some (record row { canonical = false })
remined_transaction_example =
    remined_transaction config.persister finalized (with_transaction 7) event 7 "tx" row before
      written (omega arith) refl refl refl writes_seventh

writes_sixth :
    persist_block_data config.persister finalized true (with_transaction 6) after ≡ returned after
unfolding persist_block_data build_transaction_row insert_row insert_rows insert_chunks same_block
    same_transaction chunked build_block_row
writes_sixth = refl

returned_block_example : has_canonical 1 6 after.blocks ≡ has_canonical 1 6 after.blocks
returned_block_example =
    returned_block config.persister finalized (with_transaction 6) after after 6 6 "h" writes_sixth
      refl refl refl
