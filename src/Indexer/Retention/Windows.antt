-- ===== src/Indexer/Retention/Windows.antt =====
-- The deletes by windows of blocks.
use hood_sentry.Prelude.{
  ℕ, zero, suc, ◌+◌, ◌-◌, ◌≤◌, ◌<◌, min, ◌≡◌, refl, sym, ap, ◌∙◌, ◌⊎◌, inl, inr, Bool, true, false,
  ◌||◌, Option, none, some, List, [], ◌∷◌, arith, ltb, ◌==◌, if◌then◌else◌, ltb→lt, Bool-cases,
  Option-cases, length,
}
use mathlib.Core.Option.{some-injective}
use hood_sentry.Indexer.Retention.{
  PrunableTable, transaction_receipts, transactions, logs, token_transfers, discovery_snapshots,
  blocks, prunable_tables, same_table, FactRow, is_old, lowest, in_window, delete_window,
  delete_older_than, prune_table,
}

-- The rows that are of another chain or not below the block.
abbrev pub kept_rows : ℕ → ℕ → List FactRow → List FactRow
kept_rows chain before [] = []
kept_rows chain before (r ∷ rs) =
    let rest = kept_rows chain before rs in if is_old chain before r then rest else r ∷ rest

kept-lowest-none :
    (chain before : ℕ) (rs : List FactRow)
    → lowest chain before rs ≡ none
    → kept_rows chain before rs ≡ rs
unfolding lowest
kept-lowest-none chain before [] h = refl
kept-lowest-none chain before (r ∷ rs) h = elim (Bool-cases (is_old chain before r)) [
  | inl y ↦ absurd (let e : ◌≡◌ {A = Option ℕ} (some _) none = rw y at h in cc)
  | inr o ↦ rw o (ap (λ l. r ∷ l) (kept-lowest-none chain before rs (rw o at h)))
]

kept-delete_window :
    (chain before start end : ℕ) (rs : List FactRow)
    → end ≤ before
    → kept_rows chain before (delete_window chain start end rs) ≡ kept_rows chain before rs
unfolding delete_window
kept-delete_window chain before start end [] h = refl
kept-delete_window chain before start end (r ∷ rs) h =
    ground (arith, kept-delete_window chain before start end rs)

length-delete_window :
    (chain start end : ℕ) (rs : List FactRow)
    → length (delete_window chain start end rs) ≤ length rs
unfolding delete_window
length-delete_window chain start end [] = omega arith
length-delete_window chain start end (r ∷ rs) =
    ground (arith, length-delete_window chain start end rs)

lowest_bound :
    (chain before : ℕ) (rs : List FactRow) (m : ℕ) → lowest chain before rs ≡ some m → m < before
unfolding lowest
lowest_bound chain before [] m h = cc
lowest_bound chain before (r ∷ rs) m h = elim (Bool-cases (is_old chain before r)) [
  | inl y ↦ elim (Option-cases (lowest chain before rs)) [
    | inl e ↦
        let q : r.block_number ≡ m = some-injective _ _ (rw (y, e) at h) in
        let old : ltb r.block_number before ≡ true = ground arith in
        omega (arith, q, ltb→lt _ _ old)
    | inr (k, e) ↦
        let q : min r.block_number k ≡ m = some-injective _ _ (rw (y, e) at h) in
        omega (arith, q, lowest_bound chain before rs k e)
  ]
  | inr o ↦ lowest_bound chain before rs m (rw o at h)
]

-- The window from the lowest row on holds that row.
delete_lowest :
    (chain before end : ℕ) (rs : List FactRow) (m : ℕ)
    → lowest chain before rs ≡ some m
    → m < end
    → length (delete_window chain m end rs) < length rs
unfolding lowest delete_window
delete_lowest chain before end [] m h l = cc
delete_lowest chain before end (r ∷ rs) m h l = elim (Bool-cases (in_window chain m end r)) [
  | inl y ↦ rw y (omega (arith, length-delete_window chain m end rs))
  | inr n ↦ rw n (elim (Bool-cases (is_old chain before r)) [
    | inl y ↦ elim (Option-cases (lowest chain before rs)) [
      | inl e ↦
          let q : r.block_number ≡ m = some-injective _ _ (rw (y, e) at h) in absurd (ground arith)
      | inr (k, e) ↦
          let q : min r.block_number k ≡ m = some-injective _ _ (rw (y, e) at h) in
          let same : k ≡ m = ground arith in
          omega (arith, delete_lowest chain before end rs m (e ∙ ap (λ x. some x) same) l)
    ]
    | inr o ↦ omega (arith, delete_lowest chain before end rs m (rw o at h) l)
  ])
]

-- One delete: it leaves the kept rows alone, and removes a row if any is old.
delete_older_than_cases :
    (chain before batch : ℕ) (rs : List FactRow)
    → 0 < batch
    → (kept_rows chain before (delete_older_than chain before batch rs) ≡ kept_rows chain before rs)
      × (((delete_older_than chain before batch rs ≡ rs) × (kept_rows chain before rs ≡ rs))
          ⊎ (length (delete_older_than chain before batch rs) < length rs))
unfolding delete_older_than
delete_older_than_cases chain before batch rs h = elim (Option-cases (lowest chain before rs)) [
  | inl e ↦ rw e (refl, inl (refl, kept-lowest-none chain before rs e))
  | inr (m, e) ↦
      let end = if ltb (m + batch) before then m + batch else before in
      let below : m < before = lowest_bound chain before rs m e in
      let within : end ≤ before = ground arith in
      let above : m < end = ground arith in
      rw e (
        kept-delete_window chain before m end rs within,
        inr (delete_lowest chain before end rs m e above),
      )
]

pub length-kept :
    (chain before : ℕ) (rs : List FactRow) → length (kept_rows chain before rs) ≤ length rs
length-kept chain before [] = omega arith
length-kept chain before (r ∷ rs) = ground (arith, length-kept chain before rs)

pub kept-kept :
    (chain before : ℕ) (rs : List FactRow)
    → kept_rows chain before (kept_rows chain before rs) ≡ kept_rows chain before rs
kept-kept chain before [] = refl
kept-kept chain before (r ∷ rs) = elim (Bool-cases (is_old chain before r)) [
  | inl y ↦ rw y (kept-kept chain before rs)
  | inr o ↦ rw o (rw o (ap (λ l. r ∷ l) (kept-kept chain before rs)))
]

-- With no failure the loop over a table ends, and the kept rows are what is left.
pub prune_table_clears :
    (chain before batch : ℕ) (succeeds : ℕ → Bool) (i fuel : ℕ) (rs : List FactRow)
    → 0 < batch
    → ((k : ℕ) → succeeds k ≡ true)
    → length rs < fuel
    → prune_table chain before batch succeeds i fuel rs ≡ some (kept_rows chain before rs)
unfolding prune_table
prune_table_clears chain before batch ok i zero rs h all f = absurd (omega (arith, f))
prune_table_clears chain before batch ok i (suc fuel) rs h all f =
    let (same, step) = delete_older_than_cases chain before batch rs h in
    rw (all i) (elim step [
      | inl (e, k) ↦
          let zero_removed : ((length rs - length (delete_older_than chain before batch rs)) == 0)
              ≡ true =
            rw e (ground arith) in
          rw (zero_removed, e) (ap (λ l. some l) (sym k))
      | inr l ↦
          let some_removed : ((length rs - length (delete_older_than chain before batch rs)) == 0)
              ≡ false =
            ground arith in
          rw some_removed (
            prune_table_clears chain before batch ok (i + 1) fuel
              (delete_older_than chain before batch rs) h all (omega (arith, l, f))
            ∙ ap (λ l. some l) same)
    ])

-- Whatever fails, the kept rows are left alone.
pub prune_table_keeps :
    (chain before batch : ℕ) (succeeds : ℕ → Bool) (i fuel : ℕ) (rs rs' : List FactRow)
    → 0 < batch
    → prune_table chain before batch succeeds i fuel rs ≡ some rs'
    → kept_rows chain before rs' ≡ kept_rows chain before rs
unfolding prune_table
prune_table_keeps chain before batch ok i zero rs rs' h e = cc
prune_table_keeps chain before batch ok i (suc fuel) rs rs' h e =
    let next = delete_older_than chain before batch rs in
    let same = (delete_older_than_cases chain before batch rs h).0 in
    let unchanged : (b : Bool) → b ≡ b = λ b. refl in
    elim (Bool-cases (ok i)) [
      | inr o ↦ ap (kept_rows chain before) (sym (some-injective _ _ (rw o at e)))
      | inl y ↦ elim (Bool-cases ((length rs - length next) == 0)) [
        | inl z ↦ ap (kept_rows chain before) (sym (some-injective _ _ (rw (y, z) at e))) ∙ same
        | inr n ↦
            prune_table_keeps chain before batch ok (i + 1) fuel next rs' h (rw (y, n) at e) ∙ same
      ]
    ]

abbrev pub is_listed : PrunableTable → List PrunableTable → Bool
is_listed u [] = false
is_listed u (t ∷ ts) = same_table t u || is_listed u ts

pub all_listed : (u : PrunableTable) → is_listed u prunable_tables ≡ true
all_listed transaction_receipts = refl
all_listed transactions = refl
all_listed logs = refl
all_listed token_transfers = refl
all_listed discovery_snapshots = refl
all_listed blocks = refl

pub same_table_eq : (t u : PrunableTable) → same_table t u ≡ true → t ≡ u
same_table_eq transaction_receipts transaction_receipts h = refl
same_table_eq transactions transactions h = refl
same_table_eq logs logs h = refl
same_table_eq token_transfers token_transfers h = refl
same_table_eq discovery_snapshots discovery_snapshots h = refl
same_table_eq blocks blocks h = refl
same_table_eq t u h = absurd (cc)
