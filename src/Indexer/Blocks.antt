-- ===== src/Indexer/Blocks.antt =====
-- The blocks that apps/indexer reads from the chain (apps/indexer/src/types.ts, and viem's types as
-- far as the indexer reads them), and indexable-topics.ts.
use hood_sentry.Prelude.{ℕ, Bool, false, ◌||◌, Option, List, [], ◌∷◌, if◌then◌else◌}
use Prim.Native.String.{String}
use hood_sentry.Prelude.Codes.{codes, same_codes, to_lower_case}

pub record Log : Type 0 where
  pub transaction_hash : Option String
  pub transaction_index : Option ℕ
  pub log_index : Option ℕ
  pub block_number : Option ℕ
  pub address : String
  pub topics : List String
  pub log_data : String
  pub removed : Bool

pub record Transaction : Type 0 where
  pub hash : String
  pub transaction_index : Option ℕ
  pub from_address : String
  pub to_address : Option String
  pub nonce : ℕ
  pub value : ℕ
  pub input : String
  pub gas : Option ℕ
  pub gas_price : Option ℕ

pub record TransactionReceipt : Type 0 where
  pub transaction_hash : String
  pub success : Bool
  pub gas_used : ℕ
  pub effective_gas_price : ℕ
  pub cumulative_gas_used : ℕ
  pub contract_address : Option String
  pub logs : List Log

-- A header with its transactions; a pending block has no number and no hash.
pub record Block : Type 0 where
  pub number : Option ℕ
  pub hash : Option String
  pub parent_hash : String
  pub timestamp : ℕ
  pub transactions : List Transaction

pub record BlockData : Type 0 where
  pub block : Block
  pub transactions : List Transaction
  pub receipts : List TransactionReceipt
  pub logs : List Log

-- `set.add(topic)` on a `Set`, as the list of its values in their order.
unfoldable pub add_topic : List ℕ → List (List ℕ) → List (List ℕ)
add_topic topic [] = topic ∷ []
add_topic topic (t ∷ ts) = if same_codes t topic then t ∷ ts else t ∷ add_topic topic ts

abbrev add_topics : List (List ℕ) → List (List ℕ) → List (List ℕ)
add_topics [] topics = topics
add_topics (t ∷ ts) topics = add_topics ts (add_topic (to_lower_case t) topics)

abbrev add_all_topics : List (List (List ℕ)) → List (List ℕ) → List (List ℕ)
add_all_topics [] topics = topics
add_all_topics (adapter ∷ adapters) topics = add_all_topics adapters (add_topics adapter topics)

-- The topics of the events that each adapter declares, after the two of ERC-20.
unfoldable pub indexable_topics : List ℕ → List ℕ → List (List (List ℕ)) → List (List ℕ)
unfolding add_topic to_lower_case
indexable_topics transfer approval adapters =
    add_all_topics adapters (add_topic approval (add_topic transfer []))

abbrev pub is_listed : List ℕ → List (List ℕ) → Bool
is_listed topic [] = false
is_listed topic (t ∷ ts) = same_codes (to_lower_case t) topic || is_listed topic ts

abbrev is_indexable : List (List ℕ) → List String → Bool
is_indexable topics [] = false
is_indexable topics (topic0 ∷ others) = is_listed (to_lower_case (codes topic0)) topics

unfoldable pub is_indexable_log : Log → List (List ℕ) → Bool
unfolding to_lower_case
is_indexable_log log topics = is_indexable topics log.topics
