-- ===== src/Indexer/Fetcher.antt =====
-- apps/indexer/src/block-fetcher.ts. The provider that the client asks is a parameter: what it
-- answers to each request, an error among them, while one method runs. The log and the sizes of the
-- batches in which `fetchBlockRange` writes its progress are left out.

pub mod Windows
pub mod Schedules
pub mod Ends
mod Tests
-- pub mod Bodies
use hood_sentry.Prelude.{
  ℕ, zero, suc, ◌+◌, ◌-◌, ◌*◌, ◌/◌, ◌%◌, ◌^◌, ◌≤◌, ◌<◌, min, max, ◌≡◌, refl, sym, ap, ◌∙◌, subst,
  ◌≢◌, ◌↔◌, ◌⊎◌, inl, inr, Bool, true, false, not, ◌&&◌, ◌||◌, Option, none, some, List, [], ◌∷◌,
  ◌++◌, map, arith, ltb, leb, ◌==◌, if◌then◌else◌, ltb→lt, lt→ltb, leb→le, ==_iff, tests,
  Bool-cases, Option-cases, length, get_elem?, set, get_or, take, drop, replicate, length-append,
  length-take, length-drop, length-map, length-replicate,
}
use Prim.Native.String.{String}
use text.Mathlib.Text.{◌==◌ as str_eq}
use hood_sentry.Prelude.Attempt.{Attempt, threw, returned, ◌>>=◌}
use hood_sentry.Indexer.Blocks.{
  Log, Transaction, TransactionReceipt, Block, BlockData, is_indexable_log,
}

-- The requests of the client.
pub record RpcClient : Type 0 where
  pub get_block : ℕ → Attempt (Option Block)
  pub get_header : ℕ → Attempt (Option Block)
  pub get_block_receipts : String → Attempt (List TransactionReceipt)
  pub get_transaction_receipt : String → Attempt (Option TransactionReceipt)
  pub get_logs : ℕ → ℕ → Option (List (List ℕ)) → Attempt (List Log)

unfoldable pub assert_well_formed : Block → Attempt (ℕ × String)
assert_well_formed b = elim b.number [
  | none ↦ threw
  | some n ↦ elim b.hash [ none ↦ threw | some h ↦ returned (n, h) ]
]

abbrev keep_indexable : List (List ℕ) → List Log → List Log
keep_indexable topics [] = []
keep_indexable topics (l ∷ ls) =
    let rest = keep_indexable topics ls in if is_indexable_log l topics then l ∷ rest else rest

-- No list of topics, or an empty one, keeps all logs.
unfoldable pub retain_indexable : Option (List (List ℕ)) → List Log → List Log
unfolding is_indexable_log
retain_indexable none logs = logs
retain_indexable (some []) logs = logs
retain_indexable (some (t ∷ ts)) logs = keep_indexable (t ∷ ts) logs

pub record Bodies : Type 0 where
  pub transactions : List Transaction
  pub receipts : List TransactionReceipt
  pub logs : List Log

abbrev pub logs_of : List TransactionReceipt → List Log
logs_of [] = []
logs_of (r ∷ rs) = r.logs ++ logs_of rs

abbrev found : Option TransactionReceipt → Attempt TransactionReceipt
found none = threw
found (some r) = returned r

-- The receipts of the transactions, one request for each.
unfoldable pub receipts_one_by_one :
    RpcClient → List Transaction → Attempt (List TransactionReceipt)
receipts_one_by_one client [] = returned []
receipts_one_by_one client (t ∷ ts) = do
  answer ← client.get_transaction_receipt t.hash
  receipt ← found answer
  rest ← receipts_one_by_one client ts
  returned (receipt ∷ rest)

unfoldable pub fetch_block_bodies_per_transaction :
    RpcClient → Option (List (List ℕ)) → List Transaction → Attempt Bodies
unfolding receipts_one_by_one retain_indexable
fetch_block_bodies_per_transaction client topics ts = do
  receipts ← receipts_one_by_one client ts
  returned (record {
    transactions = ts;
    receipts = receipts;
    logs = retain_indexable topics (logs_of receipts);
  })

-- The receipts of the whole block, if they are as many as its transactions.
abbrev pub all_receipts : ℕ → Attempt (List TransactionReceipt) → Option (List TransactionReceipt)
all_receipts n threw = none
all_receipts n (returned rs) = if length rs == n then some rs else none

abbrev pub receipts_at_once : RpcClient → Block → Option (List TransactionReceipt)
receipts_at_once client b = elim b.hash [
  | none ↦ none
  | some h ↦ all_receipts (length b.transactions) (client.get_block_receipts h)
]

abbrev bodies_of :
    RpcClient
    → Option (List (List ℕ))
    → List Transaction
    → Option (List TransactionReceipt)
    → Attempt Bodies
bodies_of client topics [] at_once =
    returned (record { transactions = []; receipts = []; logs = [] })
bodies_of client topics (t ∷ ts) (some rs) =
    returned
      (record { transactions = t ∷ ts; receipts = rs; logs = retain_indexable topics (logs_of rs) })
bodies_of client topics (t ∷ ts) none = fetch_block_bodies_per_transaction client topics (t ∷ ts)

unfoldable pub fetch_block_bodies : RpcClient → Option (List (List ℕ)) → Block → Attempt Bodies
unfolding fetch_block_bodies_per_transaction retain_indexable
fetch_block_bodies client topics b =
    bodies_of client topics b.transactions (receipts_at_once client b)

abbrev pub block_data : Block → Bodies → BlockData
block_data b s = record {
  block = b;
  transactions = s.transactions;
  receipts = s.receipts;
  logs = s.logs;
}

abbrev pub with_bodies :
    RpcClient → Option (List (List ℕ)) → Option Block → Attempt (Option BlockData)
with_bodies client topics none = returned none
with_bodies client topics (some b) = do
  id ← assert_well_formed b
  bodies ← fetch_block_bodies client topics b
  returned (some (block_data b bodies))

unfoldable pub fetch_block : RpcClient → Option (List (List ℕ)) → ℕ → Attempt (Option BlockData)
unfolding assert_well_formed fetch_block_bodies
fetch_block client topics n = do answer ← client.get_block n; with_bodies client topics answer

-- `fetchBlockRange` asks for `count` blocks from `first` on and passes over those not found.
abbrev kept : Option BlockData → List BlockData → List BlockData
kept none rest = rest
kept (some b) rest = b ∷ rest

unfoldable pub fetch_block_range :
    RpcClient → Option (List (List ℕ)) → ℕ → ℕ → Attempt (List BlockData)
unfolding fetch_block
fetch_block_range client topics first zero = returned []
fetch_block_range client topics first (suc count) = do
  answer ← fetch_block client topics first
  rest ← fetch_block_range client topics (suc first) count
  returned (kept answer rest)

-- The results up to the first hole.
abbrev pub until_hole : List (Option BlockData) → List BlockData
until_hole [] = []
until_hole (none ∷ rs) = []
until_hole (some b ∷ rs) = b ∷ until_hole rs

abbrev logs_of_block : ℕ → List Log → List Log
logs_of_block n [] = []
logs_of_block n (l ∷ ls) =
    let rest = logs_of_block n ls in
    elim l.block_number [ none ↦ rest | some m ↦ if m == n then l ∷ rest else rest ]

-- The headers of `count` blocks from `first` on; an error fails them all.
abbrev pub headers : RpcClient → ℕ → ℕ → Attempt (List (Option Block))
headers client first zero = returned []
headers client first (suc count) = do
  header ← client.get_header first
  rest ← headers client (suc first) count
  returned (header ∷ rest)

abbrev pub header_data : ℕ → List Log → Block → BlockData
header_data n logs b = record {
  block = b;
  transactions = [];
  receipts = [];
  logs = logs_of_block n logs;
}

-- The loop over the headers: it ends at a hole and throws at a malformed one.
abbrev pub window_blocks : ℕ → List Log → List (Option Block) → Attempt (List BlockData)
window_blocks n logs [] = returned []
window_blocks n logs (none ∷ hs) = returned []
window_blocks n logs (some b ∷ hs) = do
  id ← assert_well_formed b
  rest ← window_blocks (suc n) logs hs
  returned (header_data n logs b ∷ rest)

abbrev pub topic_filter : Option (List (List ℕ)) → Option (List (List ℕ))
topic_filter none = none
topic_filter (some []) = none
topic_filter (some (t ∷ ts)) = some (t ∷ ts)

unfoldable pub fetch_log_window :
    RpcClient → Option (List (List ℕ)) → ℕ → ℕ → Attempt (List BlockData)
unfolding assert_well_formed
fetch_log_window client topics first count = do
  logs ← client.get_logs first (first + count - 1) (topic_filter topics)
  blocks ← headers client first count
  window_blocks first logs blocks

unfoldable pub validate_parent_hash : Block → Option String → Bool
validate_parent_hash b none = true
validate_parent_hash b (some expected) = str_eq b.parent_hash expected
