-- ===== src/Indexer/Lease/Tests.antt =====
-- Two workers that want the lease of one stream.
use hood_sentry.Prelude.{◌≡◌, true, none, some, [], ◌∷◌, arith}
use hood_sentry.Indexer.Lease.{
  Lease, IndexerConfig, new_lease, is_lease_valid, inserting, done, acquire_run,
}
use hood_sentry.Indexer.Lease.Exclusive.{acquire_alone, acquire_excludes}

abbrev first : IndexerConfig
first = record { worker_id = 1; lease_duration_ms = 100 }

abbrev second : IndexerConfig
second = record { worker_id = 2; lease_duration_ms = 100 }

abbrev old : Lease
old = record { worker_id = 2; expires_at = 50; created_at = 0 }

acquire_excludes_example :
    (is_lease_valid first 159 (some (new_lease first 60)) ≡ true)
    × (acquire_run second (159 ∷ 159 ∷ 159 ∷ 159 ∷ 159 ∷ []) inserting (some (new_lease first 60))
        ≡ (done none, some (new_lease first 60)))
acquire_excludes_example =
    acquire_excludes first second 60 159 (some old) (new_lease first 60) (some (new_lease first 60))
      (omega arith) (acquire_alone first 60 (some old)) (omega arith)
