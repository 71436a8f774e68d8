-- ===== src/Indexer/Live/Abandoned.antt =====
-- What a reorganisation leaves that later writes do not mend.
use hood_sentry.Prelude.{
  ℕ, ◌≤◌, ◌≡◌, sym, ap, subst, inl, inr, true, false, ◌&&◌, some, List, [], ◌∷◌, arith, ltb, ◌==◌,
  Bool-cases,
}
use Prim.Native.String.{String}
use text.Mathlib.Text.{◌==◌ as str_eq}
use mathlib.Core.Option.{some-injective}
use hood_sentry.Prelude.Attempt.{returned}
use hood_sentry.Indexer.Blocks.{BlockData}
use hood_sentry.Indexer.Persister.{
  FinalityState, PersisterConfig, PersistedBlock, PersistedTransaction, Tables, same_block,
  insert_row, build_block_row,
}
use hood_sentry.Indexer.Persister.Writes.{persist_block_data}
use hood_sentry.Indexer.Persister.Keeps.{
  has_canonical, is_abandoned, find_transaction, persist_block_data-find_transaction,
  persist_block_data-blocks,
}
use hood_sentry.Indexer.Reorg.{ReorgEvent}
use hood_sentry.Indexer.Live.Records.{in_event, mark_transactions_orphaned, mark_tables}

find_transaction-marked :
    (e : ReorgEvent) (h : String) (r : PersistedTransaction) (rs : List PersistedTransaction)
    → find_transaction e.chain_id h rs ≡ some r
    → in_event e r.chain_id r.block_number ≡ true
    → r.canonical ≡ true
    → find_transaction e.chain_id h (mark_transactions_orphaned e rs)
      ≡ some (record r { canonical = false })
unfolding mark_transactions_orphaned
find_transaction-marked e h r [] f i c = cc
find_transaction-marked e h r (x ∷ rs) f i c =
    elim (Bool-cases ((x.chain_id == e.chain_id) && str_eq x.hash h)) [
      | inl y ↦
          let same : x ≡ r = some-injective _ _ (rw y at f) in
          let here =
            subst (λ (z : PersistedTransaction). in_event e z.chain_id z.block_number ≡ true)
              (sym same) i in
          let live = subst (λ (z : PersistedTransaction). z.canonical ≡ true) (sym same) c in
          rw (here, live, y)
            (ap (λ (z : PersistedTransaction). some (record z { canonical = false })) same)
      | inr o ↦
          let rest = find_transaction-marked e h r rs (rw o at f) i c in
          elim (Bool-cases (in_event e x.chain_id x.block_number && x.canonical)) [
            | inl y ↦ rw (y, o) rest
            | inr n ↦ rw (n, o) rest
          ]
    ]

-- A canonical transaction of a block that a reorganisation orphans stays orphaned, in the row of the
-- abandoned block, whatever later block is written, also one that contains the transaction: the
-- insert meets the row of the same hash and does nothing.
pub remined_transaction :
    (c : PersisterConfig) (f : FinalityState) (b : BlockData) (e : ReorgEvent) (k : ℕ) (h : String)
    (r : PersistedTransaction) (t t' : Tables)
    → 2 ≤ k
    → find_transaction e.chain_id h t.transactions ≡ some r
    → in_event e r.chain_id r.block_number ≡ true
    → r.canonical ≡ true
    → persist_block_data c f true b (mark_tables c k e t) ≡ returned t'
    → find_transaction e.chain_id h t'.transactions ≡ some (record r { canonical = false })
unfolding mark_tables
remined_transaction c f b e k h r t t' l q i live p =
    let two : ltb 1 k ≡ true = ground arith in
    persist_block_data-find_transaction c f true b (mark_tables c k e t) t' e.chain_id h
      (record r { canonical = false }) p
      (rw two (find_transaction-marked e h r t.transactions q i live))

insert_abandoned :
    (row : PersistedBlock) (n : ℕ) (rs : List PersistedBlock)
    → is_abandoned row.chain_id row.number row.hash rs ≡ true
    → has_canonical row.chain_id n (insert_row same_block row rs) ≡ has_canonical row.chain_id n rs
unfolding insert_row same_block
insert_abandoned row n [] h = cc
insert_abandoned row n (r ∷ rs) h = ground (arith, insert_abandoned row n rs)

-- Writing a block of which an abandoned row is there makes no height canonical that was not: when
-- the chain returns to a block that a reorganisation had orphaned, its row stays orphaned.
pub returned_block :
    (c : PersisterConfig) (f : FinalityState) (b : BlockData) (t t' : Tables) (n m : ℕ) (h : String)
    → persist_block_data c f true b t ≡ returned t'
    → b.block.number ≡ some n
    → b.block.hash ≡ some h
    → is_abandoned c.chain_id n h t.blocks ≡ true
    → has_canonical c.chain_id m t'.blocks ≡ has_canonical c.chain_id m t.blocks
unfolding build_block_row
returned_block c f b t t' n m h e p q a =
    rw (persist_block_data-blocks c f b t t' n h e p q)
      (insert_abandoned (build_block_row c f true n h b.block) m t.blocks a)
