-- ===== src/Indexer/Lease/Exclusive.antt =====
-- Who holds the lease, with and without interference.
use hood_sentry.Prelude.{
  ℕ, ◌+◌, ◌<◌, ◌≡◌, refl, sym, ◌∙◌, ◌≢◌, true, false, none, some, [], ◌∷◌, arith, ltb, ◌==◌,
  if◌then◌else◌,
}
use hood_sentry.Indexer.Lease.{
  Lease, IndexerConfig, Table, new_lease, renew_lease, is_lease_valid, Pc, inserting, done,
  acquire_step, acquire_run,
}

-- What `acquireLease` promises: the row of this worker is renewed, an expired row of another is
-- replaced, a row of another that has not expired stays and the worker has nothing.
abbrev pub Acquires : IndexerConfig → ℕ → Table → Pc × Table
Acquires c now none = (done (some (new_lease c now)), some (new_lease c now))
Acquires c now (some l) =
    if l.worker_id == c.worker_id
    then (let l' = record l { expires_at = now + c.lease_duration_ms } in (done (some l'), some l'))
    else (if ltb l.expires_at now
        then (done (some (new_lease c now)), some (new_lease c now))
        else (done none, some l))

-- With no other worker in between and all its statements within one millisecond, `acquireLease` ends
-- after at most five statements and does what it promises.
pub acquire_alone :
    (c : IndexerConfig) (now : ℕ) (table : Table)
    → acquire_run c (now ∷ now ∷ now ∷ now ∷ now ∷ []) inserting table ≡ Acquires c now table
unfolding acquire_run acquire_step
acquire_alone c now none = refl
acquire_alone c now (some l) = ground arith

acquired_row :
    (c : IndexerConfig) (now : ℕ) (table : Table) (l : Lease) (table' : Table)
    → Acquires c now table ≡ (done (some l), table')
    → (table' ≡ some l) × (l.worker_id ≡ c.worker_id) × (l.expires_at ≡ now + c.lease_duration_ms)
acquired_row c now none l table' e = ground arith
acquired_row c now (some old) l table' e = ground arith

valid_row :
    (c : IndexerConfig) (later : ℕ) (l : Lease) (table : Table)
    → table ≡ some l
    → l.worker_id ≡ c.worker_id
    → later < l.expires_at
    → is_lease_valid c later table ≡ true
unfolding is_lease_valid
valid_row c later l table e w h = rw e (ground arith)

refused_row :
    (d : IndexerConfig) (later : ℕ) (l : Lease) (table : Table)
    → table ≡ some l
    → l.worker_id ≢ d.worker_id
    → later < l.expires_at
    → Acquires d later table ≡ (done none, table)
refused_row d later l table e w h = rw e (ground arith)

-- Of acquisitions whose statements all run within one millisecond and with no statement of another
-- worker in between: a worker that has acquired the lease so has a valid one for its duration, during
-- which any other worker that tries so is refused and changes nothing.
pub acquire_excludes :
    (c d : IndexerConfig) (now later : ℕ) (table : Table) (l : Lease) (table' : Table)
    → c.worker_id ≢ d.worker_id
    → acquire_run c (now ∷ now ∷ now ∷ now ∷ now ∷ []) inserting table ≡ (done (some l), table')
    → later < now + c.lease_duration_ms
    → (is_lease_valid c later table' ≡ true)
      × (acquire_run d (later ∷ later ∷ later ∷ later ∷ later ∷ []) inserting table'
          ≡ (done none, table'))
acquire_excludes c d now later table l table' h e k =
    let (row, whose, until) =
      acquired_row c now table l table' (sym (acquire_alone c now table) ∙ e) in
    (
      valid_row c later l table' row whose (omega arith),
      acquire_alone d later table'
          ∙ refused_row d later l table' row (λ p. h (sym whose ∙ p)) (omega arith),
    )

-- A row of `d` has expired when `c` looks at it, `d` then renews it, and `c` goes on to delete it:
-- both have a lease, and the lease of `d`, which has not expired, has no row any more.
pub delete_race :
    (c d : IndexerConfig) (l : Lease) (t u v : ℕ)
    → c.worker_id ≢ d.worker_id
    → l.worker_id ≡ d.worker_id
    → l.expires_at < t
    → v < u + d.lease_duration_ms
    → let (pc, table) = acquire_run c (t ∷ t ∷ t ∷ []) inserting (some l) in
      let (table', of_d) = renew_lease d u table in
      let (pc', table'') = acquire_run c (v ∷ v ∷ []) pc table' in
      (of_d ≡ some (record l { expires_at = u + d.lease_duration_ms }))
      × (is_lease_valid d v table' ≡ true)
      × (pc' ≡ done (some (new_lease c v)))
      × (is_lease_valid d v table'' ≡ false)
unfolding acquire_run acquire_step renew_lease is_lease_valid
delete_race c d l t u v h k e f = ground arith
