-- ===== src/Indexer/Persister.antt =====
-- apps/indexer/src/block-persister.ts. A table is the list of its rows, whose keys are those of
-- packages/db/src/schema/chain-facts.ts; a transaction of the database that fails, which a row that
-- cannot be built makes it, leaves the tables as they were. Times are in milliseconds.

pub mod Writes
pub mod Batches
pub mod Keeps
mod Tests
use hood_sentry.Prelude.{
  ℕ, zero, suc, ◌+◌, ◌-◌, ◌*◌, ◌/◌, ◌%◌, ◌^◌, ◌≤◌, ◌<◌, min, max, ◌≡◌, refl, sym, ap, ◌∙◌, subst,
  ◌≢◌, ◌↔◌, ◌⊎◌, inl, inr, Bool, true, false, not, ◌&&◌, ◌||◌, Option, none, some, List, [], ◌∷◌,
  ◌++◌, map, arith, ltb, leb, ◌==◌, if◌then◌else◌, ltb→lt, lt→ltb, leb→le, ==_iff, tests,
  Bool-cases, Option-cases, length, get_elem?, set, get_or, take, drop, replicate, length-append,
  length-take, length-drop, length-map, length-replicate,
}
use Prim.Native.String.{String}
use text.Mathlib.Text.{◌==◌ as str_eq}
use hood_sentry.Prelude.Attempt.{Attempt, threw, returned, ◌>>=◌}
use hood_sentry.Prelude.Dict.{get_value, set_value}
use hood_sentry.Indexer.Blocks.{Log, Transaction, TransactionReceipt, Block, BlockData}

pub data FinalityState : Type 0 where
  pending soft_confirmed safe finalized orphaned : FinalityState

pub record PersisterConfig : Type 0 where
  pub chain_id : ℕ
  pub persist_raw_logs : Bool

pub record PersistedBlock : Type 0 where
  pub chain_id : ℕ
  pub number : ℕ
  pub hash : String
  pub parent_hash : String
  pub timestamp : ℕ
  pub finality_state : FinalityState
  pub canonical : Bool

pub record PersistedTransaction : Type 0 where
  pub chain_id : ℕ
  pub hash : String
  pub transaction_index : ℕ
  pub block_number : ℕ
  pub block_hash : String
  pub from_address : String
  pub to_address : Option String
  pub nonce : ℕ
  pub value_raw : ℕ
  pub input : String
  pub status : ℕ
  pub gas_used : ℕ
  pub effective_gas_price : ℕ
  pub contract_created : Option String
  pub canonical : Bool

pub record PersistedReceipt : Type 0 where
  pub chain_id : ℕ
  pub transaction_hash : String
  pub block_number : ℕ
  pub block_hash : String
  pub status : ℕ
  pub gas_used : ℕ
  pub cumulative_gas_used : ℕ
  pub logs_count : ℕ

pub record PersistedLog : Type 0 where
  pub chain_id : ℕ
  pub transaction_hash : String
  pub transaction_index : ℕ
  pub log_index : ℕ
  pub block_hash : String
  pub block_number : ℕ
  pub address : String
  pub topics : List String
  pub log_data : String
  pub removed : Bool
  pub canonical : Bool

-- The rows of the four tables, also those that one block gives.
pub record Tables : Type 0 where
  pub blocks : List PersistedBlock
  pub transactions : List PersistedTransaction
  pub receipts : List PersistedReceipt
  pub logs : List PersistedLog

unfoldable pub same_block : PersistedBlock → PersistedBlock → Bool
same_block a b = (a.chain_id == b.chain_id) && (a.number == b.number) && str_eq a.hash b.hash

unfoldable pub same_transaction : PersistedTransaction → PersistedTransaction → Bool
same_transaction a b = (a.chain_id == b.chain_id) && str_eq a.hash b.hash

unfoldable pub same_receipt : PersistedReceipt → PersistedReceipt → Bool
same_receipt a b = (a.chain_id == b.chain_id) && str_eq a.transaction_hash b.transaction_hash

unfoldable pub same_log : PersistedLog → PersistedLog → Bool
same_log a b =
    (a.chain_id == b.chain_id)
    && str_eq a.transaction_hash b.transaction_hash
    && (a.log_index == b.log_index)
    && str_eq a.block_hash b.block_hash

-- `insert … on conflict do nothing`, of one row and of several.
unfoldable pub insert_row {ℓ} : {A : Type ℓ} → (A → A → Bool) → A → List A → List A
insert_row same row [] = row ∷ []
insert_row same row (r ∷ rs) = if same r row then r ∷ rs else r ∷ insert_row same row rs

unfoldable pub insert_rows {ℓ} : {A : Type ℓ} → (A → A → Bool) → List A → List A → List A
unfolding insert_row
insert_rows same [] rs = rs
insert_rows same (row ∷ rows) rs = insert_rows same rows (insert_row same row rs)

-- `chunked` for a positive size: the chunk that is being filled has room for `room` more rows.
abbrev chunks_from {ℓ} : {A : Type ℓ} → ℕ → ℕ → List A → List A → List (List A)
chunks_from size room chunk [] = chunk ∷ []
chunks_from size zero chunk (r ∷ rs) = chunk ∷ chunks_from size (size - 1) (r ∷ []) rs
chunks_from size (suc room) chunk (r ∷ rs) = chunks_from size room (chunk ++ r ∷ []) rs

unfoldable pub chunked {ℓ} : {A : Type ℓ} → ℕ → List A → List (List A)
chunked size [] = []
chunked size (r ∷ rs) = chunks_from size (size - 1) (r ∷ []) rs

unfoldable pub insert_chunks {ℓ} : {A : Type ℓ} → (A → A → Bool) → List (List A) → List A → List A
unfolding insert_rows
insert_chunks same [] rs = rs
insert_chunks same (chunk ∷ chunks) rs = insert_chunks same chunks (insert_rows same chunk rs)

abbrev pub log_insert_chunk_size : ℕ
log_insert_chunk_size = 1000

abbrev pub row_insert_chunk_size : ℕ
row_insert_chunk_size = 1000

unfoldable pub build_block_row :
    PersisterConfig → FinalityState → Bool → ℕ → String → Block → PersistedBlock
build_block_row c finality canonical n h b = record {
  chain_id = c.chain_id;
  number = n;
  hash = h;
  parent_hash = b.parent_hash;
  timestamp = b.timestamp * 1000;
  finality_state = finality;
  canonical = canonical;
}

-- `new Map(receipts.map(…))`: of two receipts of one transaction the later stays.
abbrev by_hash :
    List TransactionReceipt
    → List (String × TransactionReceipt)
    → List (String × TransactionReceipt)
by_hash [] entries = entries
by_hash (r ∷ rs) entries = by_hash rs (set_value r.transaction_hash r entries)

unfoldable pub receipt_by_tx_hash : List TransactionReceipt → String → Option TransactionReceipt
unfolding get_value set_value
receipt_by_tx_hash receipts h = get_value h (by_hash receipts [])

abbrev status_of : Bool → ℕ
status_of success = if success then 1 else 0

abbrev or_else : Option ℕ → ℕ → ℕ
or_else none n = n
or_else (some m) n = m

abbrev transaction_row :
    PersisterConfig
    → Bool
    → ℕ
    → String
    → Transaction
    → ℕ
    → Option TransactionReceipt
    → PersistedTransaction
transaction_row c canonical n h t index receipt = record {
  chain_id = c.chain_id;
  hash = t.hash;
  transaction_index = index;
  block_number = n;
  block_hash = h;
  from_address = t.from_address;
  to_address = t.to_address;
  nonce = t.nonce;
  value_raw = t.value;
  input = t.input;
  status = elim receipt [ none ↦ 1 | some r ↦ status_of r.success ];
  gas_used = elim receipt [ none ↦ or_else t.gas 0 | some r ↦ r.gas_used ];
  effective_gas_price = elim receipt [
    | none ↦ or_else t.gas_price 0
    | some r ↦ r.effective_gas_price
  ];
  contract_created = elim receipt [ none ↦ none | some r ↦ r.contract_address ];
  canonical = canonical;
}

unfoldable pub build_transaction_row :
    PersisterConfig
    → Bool
    → ℕ
    → String
    → List TransactionReceipt
    → Transaction
    → Attempt PersistedTransaction
unfolding receipt_by_tx_hash
build_transaction_row c canonical n h receipts t = elim t.transaction_index [
  | none ↦ threw
  | some i ↦ returned (transaction_row c canonical n h t i (receipt_by_tx_hash receipts t.hash))
]

unfoldable pub build_receipt_row :
    PersisterConfig → ℕ → String → TransactionReceipt → PersistedReceipt
build_receipt_row c n h r = record {
  chain_id = c.chain_id;
  transaction_hash = r.transaction_hash;
  block_number = n;
  block_hash = h;
  status = status_of r.success;
  gas_used = r.gas_used;
  cumulative_gas_used = r.cumulative_gas_used;
  logs_count = length r.logs;
}

abbrev required {ℓ} : {A : Type ℓ} → Option A → Attempt A
required none = threw
required (some a) = returned a

-- The columns of the topics hold the first four.
unfoldable pub build_log_row : PersisterConfig → Bool → ℕ → String → Log → Attempt PersistedLog
build_log_row c canonical n h l = do
  hash ← required l.transaction_hash
  index ← required l.transaction_index
  place ← required l.log_index
  returned (record {
    chain_id = c.chain_id;
    transaction_hash = hash;
    transaction_index = index;
    log_index = place;
    block_hash = h;
    block_number = n;
    address = l.address;
    topics = take 4 l.topics;
    log_data = l.log_data;
    removed = l.removed;
    canonical = canonical;
  })
