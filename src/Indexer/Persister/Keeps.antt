-- ===== src/Indexer/Persister/Keeps.antt =====
-- Which blocks are canonical after a write, and what a write leaves alone.
use hood_sentry.Prelude.{
  ℕ, ◌≡◌, refl, sym, ap, subst, inl, inr, Bool, true, false, not, ◌&&◌, ◌||◌, Option, none, some,
  List, [], ◌∷◌, arith, ◌==◌, if◌then◌else◌, Bool-cases,
}
use Prim.Native.String.{String}
use text.Mathlib.Text.{◌==◌ as str_eq}
use hood_sentry.Prelude.Attempt.{Attempt-cases, returned-injective, threw, returned}
use hood_sentry.Indexer.Blocks.{BlockData}
use hood_sentry.Indexer.Persister.{
  FinalityState, PersisterConfig, PersistedBlock, PersistedTransaction, Tables, same_block,
  same_transaction, insert_row, insert_rows, build_block_row,
}
use hood_sentry.Indexer.Persister.Writes.{
  transaction_rows, raw_log_rows, identity, persist_block_data, write_identified,
}

-- The chain has a canonical block with the number.
abbrev pub has_canonical : ℕ → ℕ → List PersistedBlock → Bool
has_canonical chain n [] = false
has_canonical chain n (r ∷ rs) =
    ((r.chain_id == chain) && (r.number == n) && r.canonical) || has_canonical chain n rs

-- A block with the number and hash is there, and no longer canonical.
abbrev pub is_abandoned : ℕ → ℕ → String → List PersistedBlock → Bool
is_abandoned chain n h [] = false
is_abandoned chain n h (r ∷ rs) =
    ((r.chain_id == chain) && (r.number == n) && str_eq r.hash h && not r.canonical)
    || is_abandoned chain n h rs

pub insert_row-has_canonical :
    (row : PersistedBlock) (chain n : ℕ) (rs : List PersistedBlock)
    → has_canonical chain n rs ≡ true
    → has_canonical chain n (insert_row same_block row rs) ≡ true
unfolding insert_row same_block
insert_row-has_canonical row chain n [] h = cc
insert_row-has_canonical row chain n (r ∷ rs) h =
    ground (arith, insert_row-has_canonical row chain n rs)

pub insert_row-here :
    (row : PersistedBlock) (rs : List PersistedBlock)
    → row.canonical ≡ true
    → is_abandoned row.chain_id row.number row.hash rs ≡ false
    → has_canonical row.chain_id row.number (insert_row same_block row rs) ≡ true
unfolding insert_row same_block
insert_row-here row [] c h = ground arith
insert_row-here row (r ∷ rs) c h = ground (arith, insert_row-here row rs c)

or_left : (a b : Bool) → (a || b) ≡ false → a ≡ false
or_left true b h = h
or_left false b h = refl

or_right : (a b : Bool) → (a || b) ≡ false → b ≡ false
or_right true b h = absurd (cc)
or_right false b h = h

or_false : (a b : Bool) → a ≡ false → b ≡ false → (a || b) ≡ false
or_false a b p q = rw (p, q) refl

pub insert_row-is_abandoned :
    (row : PersistedBlock) (chain n : ℕ) (h : String) (rs : List PersistedBlock)
    → row.canonical ≡ true
    → is_abandoned chain n h rs ≡ false
    → is_abandoned chain n h (insert_row same_block row rs) ≡ false
unfolding insert_row
insert_row-is_abandoned row chain n h [] c a = rw c (ground arith)
insert_row-is_abandoned row chain n h (r ∷ rs) c a = elim (Bool-cases (same_block r row)) [
  | inl y ↦ rw y a
  | inr o ↦
      rw o
        (or_false _ _ (or_left _ _ a) (insert_row-is_abandoned row chain n h rs c (or_right _ _ a)))
]

-- The row of a block among those of the table.
pub persist_block_data-blocks :
    (c : PersisterConfig) (f : FinalityState) (b : BlockData) (t t' : Tables) (n : ℕ) (h : String)
    → persist_block_data c f true b t ≡ returned t'
    → b.block.number ≡ some n
    → b.block.hash ≡ some h
    → t'.blocks ≡ insert_row same_block (build_block_row c f true n h b.block) t.blocks
unfolding persist_block_data
persist_block_data-blocks c f b t t' n h e p q =
    let i : identity b.block.number b.block.hash ≡ some (n, h) = rw (p, q) refl in
    elim (Attempt-cases (transaction_rows c true n h b.receipts b.transactions)) [
      | inl d ↦ absurd (let q : threw ≡ returned t' = rw (i, d) at e in cc)
      | inr (rows, d) ↦ elim (Attempt-cases (raw_log_rows c true n h b.logs)) [
        | inl g ↦ absurd (let q : threw ≡ returned t' = rw (i, d, g) at e in cc)
        | inr (logs, g) ↦ ap (λ x. x.blocks) (sym (returned-injective _ _ (rw (i, d, g) at e)))
      ]
    ]

-- The row of a transaction.
abbrev pub find_transaction : ℕ → String → List PersistedTransaction → Option PersistedTransaction
find_transaction chain h [] = none
find_transaction chain h (r ∷ rs) =
    if (r.chain_id == chain) && str_eq r.hash h then some r else find_transaction chain h rs

insert_row-find_transaction :
    (row r : PersistedTransaction) (chain : ℕ) (h : String) (rs : List PersistedTransaction)
    → find_transaction chain h rs ≡ some r
    → find_transaction chain h (insert_row same_transaction row rs) ≡ some r
unfolding insert_row same_transaction
insert_row-find_transaction row r chain h [] e = cc
insert_row-find_transaction row r chain h (x ∷ rs) e =
    ground (arith, insert_row-find_transaction row r chain h rs)

insert_rows-find_transaction :
    (rows : List PersistedTransaction) (r : PersistedTransaction) (chain : ℕ) (h : String)
    (rs : List PersistedTransaction)
    → find_transaction chain h rs ≡ some r
    → find_transaction chain h (insert_rows same_transaction rows rs) ≡ some r
unfolding insert_rows
insert_rows-find_transaction [] r chain h rs e = e
insert_rows-find_transaction (row ∷ rows) r chain h rs e =
    insert_rows-find_transaction rows r chain h (insert_row same_transaction row rs)
      (insert_row-find_transaction row r chain h rs e)

-- Writing a block leaves the transactions that are there as they are, also those that the block has.
pub persist_block_data-find_transaction :
    (c : PersisterConfig) (f : FinalityState) (canonical : Bool) (b : BlockData) (t t' : Tables)
    (chain : ℕ) (h : String) (r : PersistedTransaction)
    → persist_block_data c f canonical b t ≡ returned t'
    → find_transaction chain h t.transactions ≡ some r
    → find_transaction chain h t'.transactions ≡ some r
unfolding persist_block_data
persist_block_data-find_transaction c f canonical b t t' chain h r e k =
    go (identity b.block.number b.block.hash) e
  where
    go :
        (id : Option (ℕ × String))
        → write_identified c f canonical b id t ≡ returned t'
        → find_transaction chain h t'.transactions ≡ some r
    go none d =
        subst (λ x. find_transaction chain h x.transactions ≡ some r) (returned-injective _ _ d) k
    go (some (n, hash)) d =
        elim (Attempt-cases (transaction_rows c canonical n hash b.receipts b.transactions)) [
          | inl g ↦ absurd (let q : threw ≡ returned t' = rw g at d in cc)
          | inr (rows, g) ↦ elim (Attempt-cases (raw_log_rows c canonical n hash b.logs)) [
            | inl l ↦ absurd (let q : threw ≡ returned t' = rw (g, l) at d in cc)
            | inr (logs, l) ↦
                subst (λ x. find_transaction chain h x.transactions ≡ some r)
                  (returned-injective _ _ (rw (g, l) at d))
                  (insert_rows-find_transaction rows r chain h t.transactions k)
          ]
        ]
