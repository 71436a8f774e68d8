-- ===== src/Indexer/Lease.antt =====
-- apps/indexer/src/checkpoint-manager.ts: the leases on a stream. The table is the row of one chain
-- and stream, whose key is unique, so an insert fails while there is a row. Each statement to the
-- database is one step, in which other workers may act in between; `now` is the clock of the worker.
pub mod Exclusive
mod Tests
use hood_sentry.Prelude.{
  ℕ, zero, suc, ◌+◌, ◌-◌, ◌*◌, ◌/◌, ◌%◌, ◌^◌, ◌≤◌, ◌<◌, min, max, ◌≡◌, refl, sym, ap, ◌∙◌, subst,
  ◌≢◌, ◌↔◌, ◌⊎◌, inl, inr, Bool, true, false, not, ◌&&◌, ◌||◌, Option, none, some, List, [], ◌∷◌,
  ◌++◌, map, arith, ltb, leb, ◌==◌, if◌then◌else◌, ltb→lt, lt→ltb, leb→le, ==_iff, tests,
  Bool-cases, Option-cases, length, get_elem?, set, get_or, take, drop, replicate, length-append,
  length-take, length-drop, length-map, length-replicate,
}

pub record Lease : Type 0 where
  pub worker_id : ℕ
  pub expires_at : ℕ
  pub created_at : ℕ

pub record IndexerConfig : Type 0 where
  pub worker_id : ℕ
  pub lease_duration_ms : ℕ

-- The rows of `indexerLeases` for the chain and stream.
abbrev pub Table : Type 0
Table = Option Lease

abbrev pub new_lease : IndexerConfig → ℕ → Lease
new_lease c now = record {
  worker_id = c.worker_id;
  expires_at = now + c.lease_duration_ms;
  created_at = now;
}

-- `insert … values`: none if the key is taken.
unfoldable pub insert_lease : Lease → Table → Option Table
insert_lease l none = some (some l)
insert_lease l (some old) = none

abbrev pub renewed : IndexerConfig → ℕ → Lease → Table × Option Lease
renewed c now l =
    let l' = record l { expires_at = now + c.lease_duration_ms } in
    if l.worker_id == c.worker_id then (some l', some l') else (some l, none)

-- The update touches the row of this worker only.
unfoldable pub renew_lease : IndexerConfig → ℕ → Table → Table × Option Lease
renew_lease c now none = (none, none)
renew_lease c now (some l) = renewed c now l

unfoldable pub release_lease : IndexerConfig → Table → Table
release_lease c none = none
release_lease c (some l) = if l.worker_id == c.worker_id then none else some l

unfoldable pub is_lease_valid : IndexerConfig → ℕ → Table → Bool
is_lease_valid c now none = false
is_lease_valid c now (some l) = (l.worker_id == c.worker_id) && ltb now l.expires_at

-- Where `acquireLease` stands: before its insert; before its query for a row of this worker; before
-- the renewal of that row; before its query for any row; before its delete; or with its result. The
-- time is the one that the method read before the insert.
pub data Pc : Type 0 where
  inserting renewing deleting : Pc
  checking looking : ℕ → Pc
  done : Option Lease → Pc

abbrev on_insert : IndexerConfig → ℕ → Table → Option Table → Pc × Table
on_insert c now table none = (checking now, table)
on_insert c now table (some table') = (done (some (new_lease c now)), table')

abbrev on_check : IndexerConfig → ℕ → Table → Pc
on_check c start none = looking start
on_check c start (some l) = if l.worker_id == c.worker_id then renewing else looking start

abbrev on_look : ℕ → Table → Pc
on_look start none = done none
on_look start (some l) = if ltb l.expires_at start then deleting else done none

-- One statement of `acquireLease`, at the time `now`.
unfoldable pub acquire_step : IndexerConfig → ℕ → Pc → Table → Pc × Table
unfolding insert_lease renew_lease
acquire_step c now inserting table = on_insert c now table (insert_lease (new_lease c now) table)
acquire_step c now (checking start) table = (on_check c start table, table)
acquire_step c now renewing table = let (table', r) = renew_lease c now table in (done r, table')
acquire_step c now (looking start) table = (on_look start table, table)
acquire_step c now deleting table = (inserting, none)
acquire_step c now (done r) table = (done r, table)

-- The statements at the given times, with no other worker in between.
unfoldable pub acquire_run : IndexerConfig → List ℕ → Pc → Table → Pc × Table
acquire_run c [] pc table = (pc, table)
acquire_run c (t ∷ ts) pc table =
    let (pc', table') = acquire_step c t pc table in acquire_run c ts pc' table'
