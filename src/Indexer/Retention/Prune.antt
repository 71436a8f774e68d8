-- ===== src/Indexer/Retention/Prune.antt =====
-- What a prune of all tables leaves.
use hood_sentry.Prelude.{
  ℕ, ◌-◌, ◌<◌, ◌≡◌, refl, sym, ap, ◌∙◌, inl, inr, Bool, true, false, ◌||◌, Option, none, some, List,
  [], ◌∷◌, arith, leb, ◌==◌, if◌then◌else◌, Bool-cases, Option-cases, length,
}
use mathlib.Core.Option.{some-injective}
use hood_sentry.Indexer.Retention.{
  PrunableTable, blocks, prunable_tables, same_table, FactRow, prune_table, Facts, prune_tables,
  max_indexed_block, prune,
}
use hood_sentry.Indexer.Retention.Windows.{
  kept_rows, length-kept, kept-kept, prune_table_clears, prune_table_keeps, is_listed, all_listed,
  same_table_eq,
}

with_pruned :
    (chain before : ℕ) (t u : PrunableTable) (facts : Facts) (listed : Bool)
    → (if listed
        then kept_rows chain before
            (if same_table t u then kept_rows chain before (facts t) else facts u)
        else (if same_table t u then kept_rows chain before (facts t) else facts u))
      ≡ (if same_table t u || listed then kept_rows chain before (facts u) else facts u)
with_pruned chain before t u facts listed = elim (Bool-cases (same_table t u)) [
  | inr o ↦ rw o refl
  | inl y ↦
      let same : facts t ≡ facts u = ap facts (same_table_eq t u y) in
      rw (y, same)
        (elim listed
          as (λ b.
            (if b
              then kept_rows chain before (kept_rows chain before (facts u))
              else kept_rows chain before (facts u))
            ≡ kept_rows chain before (facts u)) [
              | true ↦ kept-kept chain before (facts u)
              | false ↦ refl
            ])
]

with_short :
    (chain before fuel : ℕ) (t u : PrunableTable) (facts : Facts)
    → length (facts t) < fuel
    → length (facts u) < fuel
    → length (if same_table t u then kept_rows chain before (facts t) else facts u) < fuel
with_short chain before fuel t u facts f g = elim (Bool-cases (same_table t u)) [
  | inl y ↦ rw y (omega (arith, f, length-kept chain before (facts t)))
  | inr o ↦ rw o g
]

module _ (chain before batch : ℕ) (succeeds : PrunableTable → ℕ → Bool)
    (some_batch : 0 < batch) where
  prune_tables_clears :
      (fuel : ℕ) (ts : List PrunableTable) (facts : Facts)
      → ((t : PrunableTable) (k : ℕ) → succeeds t k ≡ true)
      → ((t : PrunableTable) → length (facts t) < fuel)
      → (facts' : Facts) × (prune_tables chain before batch succeeds fuel ts facts ≡ some facts')
        × ((u : PrunableTable)
            → facts' u ≡ (if is_listed u ts then kept_rows chain before (facts u) else facts u))
  unfolding prune_tables
  prune_tables_clears fuel [] facts all f = (facts, refl, λ u. refl)
  prune_tables_clears fuel (t ∷ ts) facts all f =
      let cleared =
        prune_table_clears chain before batch (succeeds t) 0 fuel (facts t) some_batch (all t)
          (f t) in
      let next : Facts =
        λ u. if same_table t u then kept_rows chain before (facts t) else facts u in
      let (facts', e, each) =
        prune_tables_clears fuel ts next all
          (λ u. with_short chain before fuel t u facts (f t) (f u)) in
      (facts', rw cleared e, λ u. each u ∙ with_pruned chain before t u facts (is_listed u ts))

  with_kept :
      (t u : PrunableTable) (facts : Facts) (rs : List FactRow)
      → kept_rows chain before rs ≡ kept_rows chain before (facts t)
      → kept_rows chain before (if same_table t u then rs else facts u)
        ≡ kept_rows chain before (facts u)
  with_kept t u facts rs h = elim (Bool-cases (same_table t u)) [
    | inl y ↦ rw y (h ∙ ap (λ x. kept_rows chain before (facts x)) (same_table_eq t u y))
    | inr o ↦ rw o refl
  ]

  prune_tables_keeps :
      (fuel : ℕ) (ts : List PrunableTable) (facts facts' : Facts) (u : PrunableTable)
      → prune_tables chain before batch succeeds fuel ts facts ≡ some facts'
      → kept_rows chain before (facts' u) ≡ kept_rows chain before (facts u)
  unfolding prune_tables
  prune_tables_keeps fuel [] facts facts' u e =
      ap (λ (x : Facts). kept_rows chain before (x u)) (sym (some-injective _ _ e))
  prune_tables_keeps fuel (t ∷ ts) facts facts' u e =
      elim (Option-cases (prune_table chain before batch (succeeds t) 0 fuel (facts t))) [
        | inl d ↦ absurd (let q : ◌≡◌ {A = Option Facts} none (some facts') = rw d at e in cc)
        | inr (rs, d) ↦
            let next : Facts = λ v. if same_table t v then rs else facts v in
            prune_tables_keeps fuel ts next facts' u (rw d at e)
            ∙ with_kept t u facts rs
                (prune_table_keeps chain before batch (succeeds t) 0 fuel (facts t) rs some_batch d)
      ]

-- With a batch of at least one block and no failure, a prune of a chain that is longer than the
-- retention ends within one delete more than its longest table has rows, and each table then holds
-- its rows that are of other chains or within the retention, in their order, and no others.
pub prune_clears :
    (chain retention batch head fuel : ℕ) (succeeds : PrunableTable → ℕ → Bool) (facts : Facts)
    (u : PrunableTable)
    → 0 < retention
    → 0 < batch
    → max_indexed_block chain (facts blocks) ≡ some head
    → retention < head
    → ((t : PrunableTable) (k : ℕ) → succeeds t k ≡ true)
    → ((t : PrunableTable) → length (facts t) < fuel)
    → (facts' : Facts) × (prune chain retention batch succeeds fuel facts ≡ some facts')
      × (facts' u ≡ kept_rows chain (head - retention) (facts u))
unfolding prune
prune_clears chain retention batch head fuel succeeds facts u r b m l all f =
    let on : (retention == 0) ≡ false = ground arith in
    let aged : leb head retention ≡ false = ground arith in
    let (facts', e, each) =
      prune_tables_clears chain (head - retention) batch succeeds b fuel prunable_tables facts all
        f in
    (facts', rw (on, m, aged) e, each u ∙ rw (all_listed u) refl)

-- Whatever fails, a prune leaves alone the rows of other chains and those within the retention.
pub prune_keeps :
    (chain retention batch head fuel : ℕ) (succeeds : PrunableTable → ℕ → Bool)
    (facts facts' : Facts) (u : PrunableTable)
    → 0 < batch
    → max_indexed_block chain (facts blocks) ≡ some head
    → prune chain retention batch succeeds fuel facts ≡ some facts'
    → kept_rows chain (head - retention) (facts' u) ≡ kept_rows chain (head - retention) (facts u)
unfolding prune
prune_keeps chain retention batch head fuel succeeds facts facts' u b m e =
    elim (Bool-cases (retention == 0)) [
      | inl y ↦ same (rw y at e)
      | inr o ↦ elim (Bool-cases (leb head retention)) [
        | inl y ↦ same (rw (o, m, y) at e)
        | inr n ↦
            prune_tables_keeps chain (head - retention) batch succeeds b fuel prunable_tables facts
              facts' u (rw (o, m, n) at e)
      ]
    ]
  where
    same :
        ◌≡◌ {A = Option Facts} (some facts) (some facts')
        → kept_rows chain (head - retention) (facts' u)
          ≡ kept_rows chain (head - retention) (facts u)
    same d =
        ap (λ (x : Facts). kept_rows chain (head - retention) (x u)) (sym (some-injective _ _ d))
