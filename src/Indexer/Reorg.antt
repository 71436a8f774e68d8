-- ===== src/Indexer/Reorg.antt =====
-- apps/indexer/src/reorg-detector.ts. A table is the list of its rows; the fetch of a block of the
-- chain is a parameter, as are the clock and the number that the database gives a new event. The
-- tables of the two optional repositories are left out.
pub mod Ancestor
pub mod Marks
pub mod Forks
mod Tests
use hood_sentry.Prelude.{
  ℕ, zero, suc, ◌+◌, ◌-◌, ◌*◌, ◌/◌, ◌%◌, ◌^◌, ◌≤◌, ◌<◌, min, max, ◌≡◌, refl, sym, ap, ◌∙◌, subst,
  ◌≢◌, ◌↔◌, ◌⊎◌, inl, inr, Bool, true, false, not, ◌&&◌, ◌||◌, Option, none, some, List, [], ◌∷◌,
  ◌++◌, map, arith, ltb, leb, ◌==◌, if◌then◌else◌, ltb→lt, lt→ltb, leb→le, ==_iff, tests,
  Bool-cases, Option-cases, length, get_elem?, set, get_or, take, drop, replicate, length-append,
  length-take, length-drop, length-map, length-replicate,
}
use Prim.Native.String.{String}
use text.Mathlib.Text.{◌==◌ as str_eq}

-- The tables that a reorganisation touches.
pub data Table : Type 0 where
  blocks transactions logs token_transfers : Table
  wallet_token_lots wallet_pnl_snapshots wallet_cash_flows : Table

-- What the statements read and write of a row. `withdrawn` is that the finality state of a block is
-- orphaned, or that a log is removed; the other tables have no such column.
pub record Row : Type 0 where
  pub chain_id : ℕ
  pub block_number : ℕ
  pub hash : String
  pub canonical : Bool
  pub withdrawn : Bool

pub record ReorgEvent : Type 0 where
  pub id : ℕ
  pub chain_id : ℕ
  pub from_block : ℕ
  pub to_block : ℕ
  pub common_ancestor_block : ℕ
  pub blocks_orphaned : ℕ
  pub detected_at : ℕ
  pub resolved_at : Option ℕ

pub record Db : Type 0 where
  pub rows : Table → List Row
  pub reorg_events : List ReorgEvent

-- `findFirst` of a canonical block with the number, and its hash.
unfoldable pub canonical_hash : ℕ → List Row → ℕ → Option String
canonical_hash chain [] n = none
canonical_hash chain (r ∷ rs) n =
    let later = canonical_hash chain rs n in
    if (r.chain_id == chain) && (r.block_number == n) && r.canonical then some r.hash else later

-- The hash that the database and the chain agree on.
abbrev pub agreed : Option String → Option String → Option String
agreed (some a) (some b) = if str_eq a b then some a else none
agreed _ _ = none

abbrev pub at_or_below : ℕ → Option String → Option (ℕ × String) → Option (ℕ × String)
at_or_below n none below = below
at_or_below n (some h) below = some (n, h)

unfoldable pub find_common_ancestor :
    (ℕ → Option String) → (ℕ → Option String) → ℕ → Option (ℕ × String)
find_common_ancestor stored fetched zero = none
find_common_ancestor stored fetched (suc n) =
    at_or_below (suc n) (agreed (stored (suc n)) (fetched (suc n)))
      (find_common_ancestor stored fetched n)

abbrev pub event_of : ℕ → ℕ → ℕ → ℕ → ℕ → ReorgEvent
event_of chain id now block ancestor = record {
  id = id;
  chain_id = chain;
  from_block = ancestor + 1;
  to_block = block - 1;
  common_ancestor_block = ancestor;
  blocks_orphaned = block - ancestor - 1;
  detected_at = now;
  resolved_at = none;
}

abbrev pub record_reorg_event : ReorgEvent → Db → Db
record_reorg_event e db = record db { reorg_events = db.reorg_events ++ e ∷ [] }

abbrev pub detected : ℕ → ℕ → ℕ → ℕ → Option (ℕ × String) → Db → Option ReorgEvent × Db
detected chain id now block none db = (none, db)
detected chain id now block (some (ancestor, h)) db =
    let e = event_of chain id now block ancestor in (some e, record_reorg_event e db)

unfoldable pub detect_reorg :
    (ℕ → Option String) → ℕ → ℕ → ℕ → ℕ → Option String → String → Db → Option ReorgEvent × Db
unfolding find_common_ancestor canonical_hash
detect_reorg fetched chain id now block none actual db = (none, db)
detect_reorg fetched chain id now block (some expected) actual db =
    let ancestor =
      find_common_ancestor (canonical_hash chain (db.rows blocks)) fetched (block - 1) in
    if str_eq expected actual then (none, db) else detected chain id now block ancestor db

-- The condition of the updates, but for the canonical mark.
abbrev pub in_range : ReorgEvent → Row → Bool
in_range e r =
    (r.chain_id == e.chain_id) && leb e.from_block r.block_number && leb r.block_number e.to_block

abbrev pub withdraws : Table → Bool
withdraws blocks = true
withdraws logs = true
withdraws _ = false

-- One row of a table under the update of that table.
unfoldable pub orphan : Table → ReorgEvent → Row → Row
orphan t e r =
    if in_range e r && r.canonical
    then record r { canonical = false; withdrawn = withdraws t || r.withdrawn }
    else r

abbrev pub same_table : Table → Table → Bool
same_table blocks blocks = true
same_table transactions transactions = true
same_table logs logs = true
same_table token_transfers token_transfers = true
same_table wallet_token_lots wallet_token_lots = true
same_table wallet_pnl_snapshots wallet_pnl_snapshots = true
same_table wallet_cash_flows wallet_cash_flows = true
same_table _ _ = false

unfoldable pub mark_orphaned : Table → ReorgEvent → Db → Db
unfolding orphan
mark_orphaned t e db = record db {
  rows = λ u. if same_table t u then map (orphan u e) (db.rows u) else db.rows u;
}

abbrev pub resolved : ℕ → ℕ → List ReorgEvent → List ReorgEvent
resolved id now [] = []
resolved id now (e ∷ es) =
    (if e.id == id then record e { resolved_at = some now } else e) ∷ resolved id now es

unfoldable pub resolve_reorg_event : ℕ → ReorgEvent → Db → Db
resolve_reorg_event now e db = record db { reorg_events = resolved e.id now db.reorg_events }

-- The updates of `handleReorg` in their order.
abbrev pub marked : List Table
marked =
    blocks ∷ transactions ∷ logs ∷ token_transfers ∷ wallet_token_lots ∷ wallet_pnl_snapshots
    ∷ wallet_cash_flows ∷ []

unfoldable pub mark_all : List Table → ReorgEvent → Db → Db
unfolding mark_orphaned
mark_all [] e db = db
mark_all (t ∷ ts) e db = mark_all ts e (mark_orphaned t e db)

unfoldable pub handle_reorg : ℕ → ReorgEvent → Db → Db
unfolding mark_all resolve_reorg_event
handle_reorg now e db = resolve_reorg_event now e (mark_all marked e db)

abbrev pub is_unresolved : ℕ → ReorgEvent → Bool
is_unresolved chain e =
    (e.chain_id == chain) && (elim e.resolved_at [ none ↦ true | some t ↦ false ])

unfoldable pub get_unresolved_reorgs : ℕ → List ReorgEvent → List ReorgEvent
get_unresolved_reorgs chain [] = []
get_unresolved_reorgs chain (e ∷ es) =
    let rest = get_unresolved_reorgs chain es in if is_unresolved chain e then e ∷ rest else rest
