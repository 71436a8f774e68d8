-- ===== src/Indexer/Retention/Cleanup.antt =====
-- `pruneRowsWithoutMeaning`: the rows that carry no information, whatever their age.
use hood_sentry.Prelude.{
  All, ℕ, zero, suc, ◌+◌, ◌-◌, ◌≤◌, ◌<◌, ◌≡◌, refl, ap, ◌∙◌, ◌⊎◌, inl, inr, Bool, true, false, not,
  ◌&&◌, ◌||◌, Option, none, some, List, [], ◌∷◌, arith, ltb, ◌==◌, if◌then◌else◌, ltb→lt,
  Bool-cases, length,
}
use mathlib.Core.List.{Memᴰ}

-- A delete of at most `limit` of the rows that a test picks, in the order of the table.
unfoldable pub delete_limited {ℓ} : {A : Type ℓ} → (A → Bool) → ℕ → List A → List A
delete_limited test limit [] = []
delete_limited test zero (r ∷ rs) = r ∷ rs
delete_limited test (suc limit) (r ∷ rs) =
    if test r then delete_limited test limit rs else r ∷ delete_limited test (suc limit) rs

-- The loop: it ends when a delete removes fewer rows than a batch, or fails. None if the fuel ran
-- out.
unfoldable pub cleanup {ℓ} :
    {A : Type ℓ} → (A → Bool) → ℕ → (ℕ → Bool) → ℕ → ℕ → List A → Option (List A)
unfolding delete_limited
cleanup test batch succeeds i zero rs = none
cleanup test batch succeeds i (suc fuel) rs =
    let rs' = delete_limited test batch rs in
    let rest = cleanup test batch succeeds (i + 1) fuel rs' in
    if succeeds i then if ltb (length rs - length rs') batch then some rs' else rest else some rs

pub record BalanceRow : Type 0 where
  pub chain_id : ℕ
  pub balance_raw : ℕ

abbrev pub is_zero_balance : ℕ → BalanceRow → Bool
is_zero_balance chain r = (r.chain_id == chain) && (r.balance_raw == 0)

pub record ScanRun : Type 0 where
  pub id : ℕ
  pub chain_id : ℕ
  pub target_address : ℕ
  pub canonical : Bool
  pub created_at : ℕ

-- `order by created_at desc, id desc`
abbrev pub is_later : ScanRun → ScanRun → Bool
is_later a b = ltb b.created_at a.created_at || ((b.created_at == a.created_at) && ltb b.id a.id)

abbrev pub is_scan_of : ℕ → ScanRun → Bool
is_scan_of chain r = (r.chain_id == chain) && r.canonical

abbrev pub has_later : ℕ → ScanRun → List ScanRun → Bool
has_later chain r [] = false
has_later chain r (q ∷ qs) =
    (is_scan_of chain q && (q.target_address == r.target_address) && is_later q r)
    || has_later chain r qs

-- The run with the id is among `latest`: the last canonical one of its target, on this chain.
abbrev in_latest : ℕ → List ScanRun → ℕ → List ScanRun → Bool
in_latest chain all id [] = false
in_latest chain all id (r ∷ rs) =
    ((r.id == id) && is_scan_of chain r && not (has_later chain r all)) || in_latest chain all id rs

abbrev pub is_latest : ℕ → List ScanRun → ℕ → Bool
is_latest chain runs id = in_latest chain runs id runs

pub record FindingRow : Type 0 where
  pub id : ℕ
  pub scan_run_id : ℕ

abbrev pub is_superseded : ℕ → List ScanRun → FindingRow → Bool
is_superseded chain runs f = not (is_latest chain runs f.scan_run_id)

unfoldable pub delete_zero_balances : ℕ → ℕ → List BalanceRow → List BalanceRow
unfolding delete_limited
delete_zero_balances chain limit rs = delete_limited (is_zero_balance chain) limit rs

unfoldable pub delete_superseded_findings : ℕ → List ScanRun → ℕ → List FindingRow → List FindingRow
unfolding delete_limited
delete_superseded_findings chain runs limit rs = delete_limited (is_superseded chain runs) limit rs

-- The two loops, one after the other.
unfoldable pub prune_rows_without_meaning :
    ℕ
    → List ScanRun
    → ℕ
    → (ℕ → Bool)
    → (ℕ → Bool)
    → ℕ
    → List BalanceRow
    → List FindingRow
    → Option (List BalanceRow) × Option (List FindingRow)
unfolding cleanup
prune_rows_without_meaning chain runs batch balances_succeed findings_succeed fuel balances
      findings =
    (
      cleanup (is_zero_balance chain) batch balances_succeed 0 fuel balances,
      cleanup (is_superseded chain runs) batch findings_succeed 0 fuel findings,
    )

-- The rows that the test does not pick.
abbrev pub others {ℓ} : {A : Type ℓ} → (A → Bool) → List A → List A
others test [] = []
others test (r ∷ rs) = let rest = others test rs in if test r then rest else r ∷ rest

others-delete_limited {ℓ} :
    {A : Type ℓ} (test : A → Bool) (limit : ℕ) (rs : List A)
    → others test (delete_limited test limit rs) ≡ others test rs
unfolding delete_limited
others-delete_limited test limit [] = refl
others-delete_limited test zero (r ∷ rs) = refl
others-delete_limited test (suc limit) (r ∷ rs) = elim (Bool-cases (test r)) [
  | inl y ↦ rw y (others-delete_limited test limit rs)
  | inr o ↦ rw o (rw o (ap (λ l. r ∷ l) (others-delete_limited test (suc limit) rs)))
]

-- A delete that stays below its limit leaves no row that the test picks.
delete_limited_cases {ℓ} :
    {A : Type ℓ} (test : A → Bool) (limit : ℕ) (rs : List A)
    → (delete_limited test limit rs ≡ others test rs)
      ⊎ (length (delete_limited test limit rs) + limit ≡ length rs)
unfolding delete_limited
delete_limited_cases test limit [] = inl refl
delete_limited_cases test zero (r ∷ rs) = inr (omega arith)
delete_limited_cases test (suc limit) (r ∷ rs) = elim (Bool-cases (test r)) [
  | inl y ↦
      rw y (elim (delete_limited_cases test limit rs) [
        | inl e ↦ inl e
        | inr e ↦ inr (omega (arith, e))
      ])
  | inr o ↦ rw o (elim (delete_limited_cases test (suc limit) rs) [
    | inl e ↦ inl (ap (λ l. r ∷ l) e)
    | inr e ↦ inr (omega (arith, e))
  ])
]

length-delete_limited {ℓ} :
    {A : Type ℓ} (test : A → Bool) (limit : ℕ) (rs : List A)
    → length (delete_limited test limit rs) ≤ length rs
unfolding delete_limited
length-delete_limited test limit [] = omega arith
length-delete_limited test zero (r ∷ rs) = omega arith
length-delete_limited test (suc limit) (r ∷ rs) = elim (Bool-cases (test r)) [
  | inl y ↦ rw y (omega (arith, length-delete_limited test limit rs))
  | inr o ↦ rw o (omega (arith, length-delete_limited test (suc limit) rs))
]

-- With a batch of at least one row and no failure, the loop ends within one delete more than the
-- table has rows, and leaves the rows that the test does not pick, in their order.
pub cleanup_clears {ℓ} :
    {A : Type ℓ} (test : A → Bool) (batch : ℕ) (succeeds : ℕ → Bool) (i fuel : ℕ) (rs : List A)
    → 0 < batch
    → ((k : ℕ) → succeeds k ≡ true)
    → length rs < fuel
    → cleanup test batch succeeds i fuel rs ≡ some (others test rs)
unfolding cleanup
cleanup_clears test batch ok i zero rs h all f = absurd (omega (arith, f))
cleanup_clears test batch ok i (suc fuel) rs h all f =
    rw (all i) (elim (Bool-cases (ltb (length rs - length (delete_limited test batch rs)) batch)) [
      | inl y ↦ rw y (elim (delete_limited_cases test batch rs) [
        | inl e ↦ ap (λ l. some l) e
        | inr e ↦ absurd (omega (arith, e, ltb→lt _ _ y))
      ])
      | inr o ↦ rw o (
          cleanup_clears test batch ok (i + 1) fuel (delete_limited test batch rs) h all (
            let much : batch ≤ length rs - length (delete_limited test batch rs) = ground arith in
            omega (arith, much, f, h, length-delete_limited test batch rs))
          ∙ ap (λ l. some l) (others-delete_limited test batch rs))
    ])

-- Of the given runs, one of the chain has the id: a canonical one, and none of its target is later.
abbrev pub RunOf : ℕ → List ScanRun → List ScanRun → ℕ → Type 0
RunOf chain all runs id =
    (r : ScanRun) × Memᴰ r runs
    × (r.id ≡ id)
    × (r.chain_id ≡ chain)
    × (r.canonical ≡ true)
    × (has_later chain r all ≡ false)

in_latest_run :
    (chain : ℕ) (all : List ScanRun) (id : ℕ) (rs : List ScanRun)
    → in_latest chain all id rs ≡ true
    → RunOf chain all rs id
in_latest_run chain all id [] h = absurd (cc)
in_latest_run chain all id (r ∷ rs) h =
    elim (Bool-cases ((r.id == id) && is_scan_of chain r && not (has_later chain r all))) [
      | inl y ↦ (
        r,
        Memᴰ.head refl,
        ground (arith, y),
        ground (arith, y),
        ground (arith, y),
        ground (arith, y),
      )
      | inr o ↦
          let (q, m, same, of_chain, canonical, last) = in_latest_run chain all id rs (rw o at h) in
          (q, Memᴰ.tail m, same, of_chain, canonical, last)
    ]

others_of_chain :
    (chain : ℕ) (runs : List ScanRun) (fs : List FindingRow)
    → All (λ f. RunOf chain runs runs f.scan_run_id) (others (is_superseded chain runs) fs)
others_of_chain chain runs [] = tt
others_of_chain chain runs (f ∷ fs) = elim (Bool-cases (is_latest chain runs f.scan_run_id)) [
  | inl y ↦ rw y (in_latest_run chain runs f.scan_run_id runs y, others_of_chain chain runs fs)
  | inr o ↦ rw o (others_of_chain chain runs fs)
]

-- With a batch of at least one row and no failure, the pass leaves no balance of zero of its chain and
-- keeps the other balances, and it leaves the findings of the latest canonical scans of its chain
-- only: of every finding that is left, the scan is the id of one of the given runs, which is of that
-- chain, canonical and with no later one of its target. So a finding whose scan is of no run of the
-- chain is deleted as well.
pub prune_rows_of_chain :
    (chain : ℕ) (runs : List ScanRun) (batch : ℕ) (balances_succeed findings_succeed : ℕ → Bool)
    (fuel : ℕ) (balances : List BalanceRow) (findings : List FindingRow)
    → 0 < batch
    → ((k : ℕ) → balances_succeed k ≡ true)
    → ((k : ℕ) → findings_succeed k ≡ true)
    → length balances < fuel
    → length findings < fuel
    → let left = others (is_superseded chain runs) findings in
      (prune_rows_without_meaning chain runs batch balances_succeed findings_succeed fuel balances
          findings
        ≡ (some (others (is_zero_balance chain) balances), some left))
      × All (λ f. RunOf chain runs runs f.scan_run_id) left
unfolding prune_rows_without_meaning
prune_rows_of_chain chain runs batch bs fs fuel balances findings h p q f g = (
  λ i. (
    cleanup_clears (is_zero_balance chain) batch bs 0 fuel balances h p f i,
    cleanup_clears (is_superseded chain runs) batch fs 0 fuel findings h q g i,
  ),
  others_of_chain chain runs findings,
)
