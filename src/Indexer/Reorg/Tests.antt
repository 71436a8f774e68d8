-- ===== src/Indexer/Reorg/Tests.antt =====
-- A fork from block 2 on: the chain has other blocks 3 and 4 than the database.
use hood_sentry.Prelude.{ℕ, ◌≡◌, refl, true, false, Option, some, [], ◌∷◌, ◌==◌, if◌then◌else◌}
use Prim.Native.String.{String}
use hood_sentry.Indexer.Reorg.{
  blocks, logs, Row, ReorgEvent, Db, find_common_ancestor, event_of, record_reorg_event,
  canonical_hash, detect_reorg, handle_reorg,
}
use hood_sentry.Indexer.Reorg.Forks.{IsHandled, detect_reorg-handle_reorg}

abbrev row : ℕ → String → Row
row n h = record { chain_id = 1; block_number = n; hash = h; canonical = true; withdrawn = false }

abbrev db : Db
db = record {
  rows = λ t. elim t [
    | blocks ↦ row 1 "a" ∷ row 2 "b" ∷ row 3 "c" ∷ row 4 "d" ∷ []
    | logs ↦ row 2 "b" ∷ row 4 "d" ∷ []
    | _ ↦ []
  ];
  reorg_events = [];
}

abbrev fetched : ℕ → Option String
fetched n = if n == 2 then some "b" else (if n == 3 then some "x" else some "y")

abbrev event : ReorgEvent
event = event_of 1 7 100 5 2

abbrev stored : ℕ → Option String
stored = canonical_hash 1 (db.rows blocks)

ancestor_is_two : find_common_ancestor stored fetched 4 ≡ some (2, "b")
unfolding find_common_ancestor canonical_hash
ancestor_is_two = refl

fork_is_detected :
    detect_reorg fetched 1 7 100 5 (some "d") "z" db ≡ (some event, record_reorg_event event db)
unfolding detect_reorg
fork_is_detected = refl

fourth_log_is_removed :
    (handle_reorg 101 event db).rows logs
    ≡ row 2 "b" ∷ record (row 4 "d") { canonical = false; withdrawn = true } ∷ []
unfolding handle_reorg
fourth_log_is_removed = refl

detect_reorg-handle_reorg_example :
    IsHandled fetched 1 5 101 logs event (record_reorg_event event db)
detect_reorg-handle_reorg_example =
    detect_reorg-handle_reorg fetched 1 7 100 5 101 (some "d") "z" db (record_reorg_event event db)
      event logs fork_is_detected
