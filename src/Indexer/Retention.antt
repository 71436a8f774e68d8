-- ===== src/Indexer/Retention.antt =====
-- apps/indexer/src/retention-pruner.ts over drizzle-retention-store.ts. Of a row only what the
-- statements read is kept. Whether each statement succeeds is a parameter; the vacuum, which changes
-- no row, and the log are left out.
pub mod Windows
pub mod Prune
pub mod Cleanup
mod Tests
use hood_sentry.Prelude.{
  ℕ, zero, suc, ◌+◌, ◌-◌, ◌*◌, ◌/◌, ◌%◌, ◌^◌, ◌≤◌, ◌<◌, min, max, ◌≡◌, refl, sym, ap, ◌∙◌, subst,
  ◌≢◌, ◌↔◌, ◌⊎◌, inl, inr, Bool, true, false, not, ◌&&◌, ◌||◌, Option, none, some, List, [], ◌∷◌,
  ◌++◌, map, arith, ltb, leb, ◌==◌, if◌then◌else◌, ltb→lt, lt→ltb, leb→le, ==_iff, tests,
  Bool-cases, Option-cases, length, get_elem?, set, get_or, take, drop, replicate, length-append,
  length-take, length-drop, length-map, length-replicate,
}
use Prim.Native.String.{String}
use text.Mathlib.Text.{◌==◌ as str_eq}

-- In the order of the deletes.
pub data PrunableTable : Type 0 where
  transaction_receipts transactions logs token_transfers : PrunableTable
  discovery_snapshots blocks : PrunableTable

abbrev pub prunable_tables : List PrunableTable
prunable_tables =
    transaction_receipts ∷ transactions ∷ logs ∷ token_transfers ∷ discovery_snapshots ∷ blocks ∷ []

abbrev pub same_table : PrunableTable → PrunableTable → Bool
same_table transaction_receipts transaction_receipts = true
same_table transactions transactions = true
same_table logs logs = true
same_table token_transfers token_transfers = true
same_table discovery_snapshots discovery_snapshots = true
same_table blocks blocks = true
same_table _ _ = false

pub record FactRow : Type 0 where
  pub chain_id : ℕ
  pub block_number : ℕ

abbrev pub is_old : ℕ → ℕ → FactRow → Bool
is_old chain before r = (r.chain_id == chain) && ltb r.block_number before

abbrev smaller : ℕ → Option ℕ → ℕ
smaller n none = n
smaller n (some m) = min n m

-- `min(…)` over the rows of the chain below a block.
unfoldable pub lowest : ℕ → ℕ → List FactRow → Option ℕ
lowest chain before [] = none
lowest chain before (r ∷ rs) =
    let later = lowest chain before rs in
    if is_old chain before r then some (smaller r.block_number later) else later

abbrev pub in_window : ℕ → ℕ → ℕ → FactRow → Bool
in_window chain start end r =
    (r.chain_id == chain) && leb start r.block_number && ltb r.block_number end

unfoldable pub delete_window : ℕ → ℕ → ℕ → List FactRow → List FactRow
delete_window chain start end [] = []
delete_window chain start end (r ∷ rs) =
    let rest = delete_window chain start end rs in
    if in_window chain start end r then rest else r ∷ rest

abbrev pub delete_from : ℕ → ℕ → ℕ → Option ℕ → List FactRow → List FactRow
delete_from chain before batch none rs = rs
delete_from chain before batch (some start) rs =
    delete_window chain start (if ltb (start + batch) before then start + batch else before) rs

-- The rows that `deleteOlderThan` leaves; it returns how many it removed.
unfoldable pub delete_older_than : ℕ → ℕ → ℕ → List FactRow → List FactRow
unfolding lowest delete_window
delete_older_than chain before batch rs = delete_from chain before batch (lowest chain before rs) rs

-- The loop over one table: `succeeds i` is whether its i-th delete does. None if the fuel ran out.
unfoldable pub prune_table : ℕ → ℕ → ℕ → (ℕ → Bool) → ℕ → ℕ → List FactRow → Option (List FactRow)
unfolding delete_older_than
prune_table chain before batch succeeds i zero rs = none
prune_table chain before batch succeeds i (suc fuel) rs =
    let rs' = delete_older_than chain before batch rs in
    let rest = prune_table chain before batch succeeds (i + 1) fuel rs' in
    if succeeds i then if (length rs - length rs') == 0 then some rs' else rest else some rs

abbrev pub Facts : Type 0
Facts = PrunableTable → List FactRow

abbrev pub with_table : PrunableTable → Facts → Option (List FactRow) → Option Facts
with_table t facts none = none
with_table t facts (some rs) = some (λ u. if same_table t u then rs else facts u)

abbrev pub then_prune : Option Facts → (Facts → Option Facts) → Option Facts
then_prune none f = none
then_prune (some facts) f = f facts

-- The loop over the tables: one whose delete fails is left where it is, and the next is pruned.
unfoldable pub prune_tables :
    ℕ → ℕ → ℕ → (PrunableTable → ℕ → Bool) → ℕ → List PrunableTable → Facts → Option Facts
unfolding prune_table
prune_tables chain before batch succeeds fuel [] facts = some facts
prune_tables chain before batch succeeds fuel (t ∷ ts) facts =
    then_prune (with_table t facts (prune_table chain before batch (succeeds t) 0 fuel (facts t)))
      (prune_tables chain before batch succeeds fuel ts)

-- The highest block of the chain in the table of blocks.
abbrev larger : ℕ → Option ℕ → ℕ
larger n none = n
larger n (some m) = max n m

unfoldable pub max_indexed_block : ℕ → List FactRow → Option ℕ
max_indexed_block chain [] = none
max_indexed_block chain (r ∷ rs) =
    let later = max_indexed_block chain rs in
    if r.chain_id == chain then some (larger r.block_number later) else later

abbrev pub prune_below_head :
    ℕ → ℕ → ℕ → (PrunableTable → ℕ → Bool) → ℕ → Facts → Option ℕ → Option Facts
prune_below_head chain retention batch succeeds fuel facts none = some facts
prune_below_head chain retention batch succeeds fuel facts (some head) =
    if leb head retention
    then some facts
    else prune_tables chain (head - retention) batch succeeds fuel prunable_tables facts

-- `prune` up to the rows without meaning. A retention of zero blocks prunes nothing.
unfoldable pub prune : ℕ → ℕ → ℕ → (PrunableTable → ℕ → Bool) → ℕ → Facts → Option Facts
unfolding prune_tables max_indexed_block
prune chain retention batch succeeds fuel facts =
    if retention == 0
    then some facts
    else prune_below_head chain retention batch succeeds fuel facts
        (max_indexed_block chain (facts blocks))
