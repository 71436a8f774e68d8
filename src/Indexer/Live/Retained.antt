-- ===== src/Indexer/Live/Retained.antt =====
-- A prune leaves the canonical blocks within the retention, and abandons none.
use hood_sentry.Prelude.{
  ℕ, ◌+◌, ◌-◌, ◌≤◌, ◌<◌, ◌≡◌, refl, sym, ap, ◌∙◌, subst, ◌≢◌, ◌⊎◌, inl, inr, Bool, true, false,
  ◌&&◌, Option, none, some, List, [], ◌∷◌, map, arith, ltb, ◌==◌, if◌then◌else◌, Bool-cases,
  Option-cases,
}
use Prim.Native.String.{String}
use mathlib.Core.Option.{some-injective}
use hood_sentry.Indexer.Persister.{PersistedBlock, Tables}
use hood_sentry.Indexer.Persister.Keeps.{has_canonical, is_abandoned}
use hood_sentry.Indexer.Retention
use hood_sentry.Indexer.Retention.{PrunableTable, FactRow, Facts, prune, is_old, max_indexed_block}
use hood_sentry.Indexer.Retention.Windows.{kept_rows}
use hood_sentry.Indexer.Retention.Prune.{prune_keeps}
use hood_sentry.Indexer.Live.{LiveConfig, World, Live}
use hood_sentry.Indexer.Live.Pruning.{
  fact_of, block_fact, facts_of, is_listed, left_in, delete_batch_size, delete_count, after_prune,
  pruned_tables, prune_expired_raw_facts,
}

if_elim {ℓ κ} :
    {A : Type ℓ} (P : A → Type κ) (b : Bool) (x y : A)
    → (b ≡ true → P x)
    → (b ≡ false → P y)
    → P (if b then x else y)
if_elim P true x y f g = f refl
if_elim P false x y f g = g refl

listed-kept_rows :
    (chain before : ℕ) (fs : List FactRow) (q : FactRow)
    → is_listed (kept_rows chain before fs) q ≡ true
    → is_listed fs q ≡ true
listed-kept_rows chain before [] q h = h
listed-kept_rows chain before (f ∷ fs) q h = ground (arith, listed-kept_rows chain before fs q)

kept_rows-listed :
    (chain before : ℕ) (fs : List FactRow) (q : FactRow)
    → before ≤ q.block_number
    → is_listed fs q ≡ true
    → is_listed (kept_rows chain before fs) q ≡ true
kept_rows-listed chain before [] q l h = h
kept_rows-listed chain before (f ∷ fs) q l h = ground (arith, kept_rows-listed chain before fs q l)

prune-listed :
    (chain retention batch fuel : ℕ) (succeeds : PrunableTable → ℕ → Bool) (facts facts' : Facts)
    (q : FactRow)
    → 0 < batch
    → prune chain retention batch succeeds fuel facts ≡ some facts'
    → ((head : ℕ)
        → max_indexed_block chain (facts Retention.blocks) ≡ some head
        → head ≤ q.block_number + retention)
    → is_listed (facts Retention.blocks) q ≡ true
    → is_listed (facts' Retention.blocks) q ≡ true
unfolding prune
prune-listed chain retention batch fuel succeeds facts facts' q b e near h =
    elim (Option-cases (max_indexed_block chain (facts Retention.blocks))) [
      | inl m ↦ elim (Bool-cases (retention == 0)) [
        | inl y ↦ same (rw y at e)
        | inr o ↦ same (rw (o, m) at e)
      ]
      | inr (head, m) ↦
          let before : head - retention ≤ q.block_number = omega (arith, near head m) in
          listed-kept_rows chain (head - retention) (facts' Retention.blocks) q (
            subst (λ l. is_listed l q ≡ true)
              (sym (
                prune_keeps chain retention batch head fuel succeeds facts facts' Retention.blocks b
                  m e))
              (kept_rows-listed chain (head - retention) (facts Retention.blocks) q before h))
    ]
  where
    same :
        ◌≡◌ {A = Option Facts} (some facts) (some facts')
        → is_listed (facts' Retention.blocks) q ≡ true
    same d = subst (λ (x : Facts). is_listed (x Retention.blocks) q ≡ true) (some-injective _ _ d) h

canonical-listed :
    (chain n : ℕ) (rows : List PersistedBlock)
    → has_canonical chain n rows ≡ true
    → is_listed (map block_fact rows) (fact_of chain n) ≡ true
canonical-listed chain n [] h = cc
canonical-listed chain n (r ∷ rs) h = ground (arith, canonical-listed chain n rs)

left-canonical :
    (chain n : ℕ) (fs : List FactRow) (rows : List PersistedBlock)
    → is_listed fs (fact_of chain n) ≡ true
    → has_canonical chain n rows ≡ true
    → has_canonical chain n (left_in block_fact fs rows) ≡ true
left-canonical chain n fs [] l h = h
left-canonical chain n fs (r ∷ rs) l h =
    elim (Bool-cases ((r.chain_id == chain) && (r.number == n))) [
      | inl y ↦
          let a : r.chain_id ≡ chain = ground (arith, y) in
          let b : r.number ≡ n = ground (arith, y) in
          let here : is_listed fs (block_fact r) ≡ true =
            ap (λ x. is_listed fs (fact_of x r.number)) a
            ∙ ap (λ x. is_listed fs (fact_of chain x)) b
            ∙ l in
          rw here (ground (arith, left-canonical chain n fs rs l))
      | inr o ↦ elim (Bool-cases (is_listed fs (block_fact r))) [
        | inl k ↦ rw k (ground (arith, left-canonical chain n fs rs l))
        | inr k ↦ rw k (left-canonical chain n fs rs l (ground (arith, o)))
      ]
    ]

left-is_abandoned :
    (chain n : ℕ) (hash : String) (fs : List FactRow) (rows : List PersistedBlock)
    → is_abandoned chain n hash rows ≡ false
    → is_abandoned chain n hash (left_in block_fact fs rows) ≡ false
left-is_abandoned chain n hash fs [] h = h
left-is_abandoned chain n hash fs (r ∷ rs) h = elim (Bool-cases (is_listed fs (block_fact r))) [
  | inl k ↦ rw k (ground (arith, left-is_abandoned chain n hash fs rs))
  | inr k ↦ rw k (left-is_abandoned chain n hash fs rs (ground (arith)))
]

-- The highest indexed block is within the retention of a height, if blocks are pruned at all.
abbrev pub IsRetained : ℕ → LiveConfig → Tables → Type 0
IsRetained low c t =
    (c.raw_data_retention_blocks ≡ 0)
    ⊎ ((head : ℕ)
        → max_indexed_block c.persister.chain_id (facts_of t Retention.blocks) ≡ some head
        → head ≤ low + c.raw_data_retention_blocks)

module _ (low : ℕ) (c : LiveConfig) (w : World) where
  after_prune-has_canonical :
      (t : Tables) (n : ℕ) (o : Option Facts)
      → prune c.persister.chain_id c.raw_data_retention_blocks delete_batch_size w.deletes
          (delete_count t)
          (facts_of t)
        ≡ o
      → ((head : ℕ)
          → max_indexed_block c.persister.chain_id (facts_of t Retention.blocks) ≡ some head
          → head ≤ low + c.raw_data_retention_blocks)
      → low ≤ n
      → has_canonical c.persister.chain_id n t.blocks ≡ true
      → has_canonical c.persister.chain_id n (after_prune t o).blocks ≡ true
  after_prune-has_canonical t n none e near l h = h
  after_prune-has_canonical t n (some facts) e near l h =
      left-canonical c.persister.chain_id n (facts Retention.blocks) t.blocks
        (prune-listed c.persister.chain_id c.raw_data_retention_blocks delete_batch_size
          (delete_count t) w.deletes (facts_of t) facts (fact_of c.persister.chain_id n)
          (omega arith) e (λ head m. omega (arith, near head m, l))
          (canonical-listed c.persister.chain_id n t.blocks h))
        h

  pub pruned_tables-has_canonical :
      (t : Tables) (n : ℕ)
      → c.raw_data_retention_blocks ≢ 0
      → IsRetained low c t
      → low ≤ n
      → has_canonical c.persister.chain_id n t.blocks ≡ true
      → has_canonical c.persister.chain_id n (pruned_tables c w t).blocks ≡ true
  unfolding pruned_tables
  pruned_tables-has_canonical t n on (inl off) l h = absurd (on off)
  pruned_tables-has_canonical t n on (inr near) l h = after_prune-has_canonical t n _ refl near l h

module _ (c : LiveConfig) (w : World) where
  after_prune-is_abandoned :
      (t : Tables) (n : ℕ) (hash : String) (o : Option Facts)
      → is_abandoned c.persister.chain_id n hash t.blocks ≡ false
      → is_abandoned c.persister.chain_id n hash (after_prune t o).blocks ≡ false
  after_prune-is_abandoned t n hash none h = h
  after_prune-is_abandoned t n hash (some facts) h =
      left-is_abandoned c.persister.chain_id n hash (facts Retention.blocks) t.blocks h

  pub pruned_tables-is_abandoned :
      (t : Tables) (n : ℕ) (hash : String)
      → is_abandoned c.persister.chain_id n hash t.blocks ≡ false
      → is_abandoned c.persister.chain_id n hash (pruned_tables c w t).blocks ≡ false
  unfolding pruned_tables
  pruned_tables-is_abandoned t n hash h = after_prune-is_abandoned t n hash _ h

  -- What holds without a prune and after one holds after the prune of a pass, whether it is due or not.
  pub prune_expired-elim {κ} :
      (P : Live → Type κ) (s : Live)
      → P s
      → P (record s { last_prune_at = w.prune_time })
      → ((c.raw_data_retention_blocks ≢ 0)
          → P (record s { last_prune_at = w.prune_time; tables = pruned_tables c w s.tables }))
      → P (prune_expired_raw_facts c w s)
  unfolding prune_expired_raw_facts
  prune_expired-elim P s a b d =
      if_elim P (c.raw_data_retention_blocks == 0) s _ (λ e. a)
        (λ on.
          if_elim P (ltb w.prune_time (s.last_prune_at + c.retention_prune_interval_ms)) s _
            (λ e. a)
            (λ due.
              if_elim (λ t. P (record s { last_prune_at = w.prune_time; tables = t })) w.reads_head
                (pruned_tables c w s.tables) s.tables (λ e. d (λ z. absurd (ground (arith, on, z))))
                (λ e. b)))
