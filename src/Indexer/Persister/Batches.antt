-- ===== src/Indexer/Persister/Batches.antt =====
-- The one transaction of a window against the transactions of its blocks.
use hood_sentry.Prelude.{
  ℕ, zero, suc, ◌-◌, ◌≡◌, refl, sym, ap, ◌∙◌, inl, inr, Bool, Option, none, some, List, [], ◌∷◌,
  ◌++◌,
}
use Prim.Native.String.{String}
use mathlib.Core.List.{append-nil, append_assoc}
use hood_sentry.Prelude.Attempt.{Attempt, Attempt-cases, returned, ◌>>=◌}
use hood_sentry.Indexer.Blocks.{BlockData}
use hood_sentry.Indexer.Persister.{
  FinalityState, PersisterConfig, Tables, same_block, same_transaction, same_receipt, same_log,
  insert_row, insert_rows, chunks_from, chunked, insert_chunks, log_insert_chunk_size,
  row_insert_chunk_size,
}
use hood_sentry.Indexer.Persister.Writes.{
  transaction_rows, raw_log_rows, identity, persist_block_data, followed_by, rows_of, window_rows,
  write_rows, persist_block_window, write_identified,
}

insert_rows-append {ℓ} :
    {A : Type ℓ} (same : A → A → Bool) (xs ys rs : List A)
    → insert_rows same (xs ++ ys) rs ≡ insert_rows same ys (insert_rows same xs rs)
unfolding insert_rows
insert_rows-append same [] ys rs = refl
insert_rows-append same (x ∷ xs) ys rs = insert_rows-append same xs ys (insert_row same x rs)

insert_chunks-from {ℓ} :
    {A : Type ℓ} (same : A → A → Bool) (size room : ℕ) (chunk rows rs : List A)
    → insert_chunks same (chunks_from size room chunk rows) rs ≡ insert_rows same (chunk ++ rows) rs
unfolding insert_chunks
insert_chunks-from same size room chunk [] rs = rw (append-nil) refl
insert_chunks-from same size zero chunk (r ∷ rows) rs =
    insert_chunks-from same size (size - 1) (r ∷ []) rows (insert_rows same chunk rs)
    ∙ sym (insert_rows-append same chunk (r ∷ rows) rs)
insert_chunks-from same size (suc room) chunk (r ∷ rows) rs =
    insert_chunks-from same size room (chunk ++ r ∷ []) rows rs
    ∙ ap (λ l. insert_rows same l rs) (append_assoc chunk (r ∷ []) rows)

-- The chunks make no difference to what is written.
insert_chunks-chunked {ℓ} :
    {A : Type ℓ} (same : A → A → Bool) (size : ℕ) (rows rs : List A)
    → insert_chunks same (chunked size rows) rs ≡ insert_rows same rows rs
unfolding chunked insert_chunks insert_rows
insert_chunks-chunked same size [] rs = refl
insert_chunks-chunked same size (r ∷ rows) rs =
    insert_chunks-from same size (size - 1) (r ∷ []) rows rs

-- The rows of a window without the chunks.
abbrev plain : Tables → Tables → Tables
plain rows t = record {
  blocks = insert_rows same_block rows.blocks t.blocks;
  transactions = insert_rows same_transaction rows.transactions t.transactions;
  receipts = insert_rows same_receipt rows.receipts t.receipts;
  logs = insert_rows same_log rows.logs t.logs;
}

write_rows-plain : (rows t : Tables) → write_rows rows t ≡ plain rows t
unfolding write_rows
write_rows-plain rows t =
    rw
      (
        insert_chunks-chunked same_block row_insert_chunk_size rows.blocks t.blocks,
        insert_chunks-chunked same_transaction row_insert_chunk_size rows.transactions
            t.transactions,
        insert_chunks-chunked same_receipt row_insert_chunk_size rows.receipts t.receipts,
        insert_chunks-chunked same_log log_insert_chunk_size rows.logs t.logs,
      )
      refl

plain-followed_by : (r s t : Tables) → plain (followed_by r s) t ≡ plain s (plain r t)
plain-followed_by r s t =
    rw
      (
        insert_rows-append same_block r.blocks s.blocks t.blocks,
        insert_rows-append same_transaction r.transactions s.transactions t.transactions,
        insert_rows-append same_receipt r.receipts s.receipts t.receipts,
        insert_rows-append same_log r.logs s.logs t.logs,
      )
      refl

abbrev plainly : Attempt Tables → Tables → Attempt Tables
plainly a t = a >>= (λ rows. returned (plain rows t))

rows_of-plainly :
    (c : PersisterConfig) (f : FinalityState) (canonical : Bool) (b : BlockData)
    (id : Option (ℕ × String)) (t : Tables)
    → write_identified c f canonical b id t ≡ plainly (rows_of c f canonical b id) t
unfolding insert_rows
rows_of-plainly c f canonical b none t = refl
rows_of-plainly c f canonical b (some (n, h)) t =
    elim (Attempt-cases (transaction_rows c canonical n h b.receipts b.transactions)) [
      | inl e ↦ rw e refl
      | inr (rows, e) ↦ rw e (elim (Attempt-cases (raw_log_rows c canonical n h b.logs)) [
        | inl d ↦ rw d refl
        | inr (logs, d) ↦
            rw (d, insert_chunks-chunked same_log log_insert_chunk_size logs t.logs) refl
      ])
    ]

-- The blocks of a window, each in a transaction of its own.
abbrev pub persist_each :
    PersisterConfig → FinalityState → Bool → List BlockData → Tables → Attempt Tables
persist_each c f canonical [] t = returned t
persist_each c f canonical (b ∷ bs) t = do
  t' ← persist_block_data c f canonical b t
  persist_each c f canonical bs t'

plainly-each :
    (c : PersisterConfig) (f : FinalityState) (canonical : Bool) (bs : List BlockData) (t : Tables)
    → persist_each c f canonical bs t ≡ plainly (window_rows c f canonical bs) t
unfolding persist_block_data window_rows insert_rows
plainly-each c f canonical [] t = refl
plainly-each c f canonical (b ∷ bs) t =
    rw (rows_of-plainly c f canonical b (identity b.block.number b.block.hash) t)
      (elim (Attempt-cases (rows_of c f canonical b (identity b.block.number b.block.hash))) [
        | inl e ↦ rw e refl
        | inr (rows, e) ↦ rw e (
            rw (plainly-each c f canonical bs (plain rows t))
              (elim (Attempt-cases (window_rows c f canonical bs)) [
                | inl d ↦ rw d refl
                | inr (rest, d) ↦ rw d (ap returned (sym (plain-followed_by rows rest t)))
              ]))
      ])

-- The one transaction of a window, with its chunks, leaves the tables that one transaction for each
-- of its blocks leaves, and it throws exactly when one of those throws.
pub persist_block_window-each :
    (c : PersisterConfig) (f : FinalityState) (canonical : Bool) (bs : List BlockData) (t : Tables)
    → persist_block_window c f canonical bs t ≡ persist_each c f canonical bs t
unfolding persist_block_window
persist_block_window-each c f canonical [] t = refl
persist_block_window-each c f canonical (b ∷ bs) t =
    written ∙ sym (plainly-each c f canonical (b ∷ bs) t)
  where
    written :
        (window_rows c f canonical (b ∷ bs) >>= (λ rows. returned (write_rows rows t)))
        ≡ plainly (window_rows c f canonical (b ∷ bs)) t
    written =
        ap (λ g. window_rows c f canonical (b ∷ bs) >>= g)
          (λ i rows. returned (write_rows-plain rows t i))
