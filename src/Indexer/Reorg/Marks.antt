-- ===== src/Indexer/Reorg/Marks.antt =====
-- What the handling of a reorganisation leaves in the tables.
use hood_sentry.Prelude.{
  ℕ, ◌≡◌, refl, sym, ap, ◌∙◌, subst, inl, inr, Bool, true, false, ◌&&◌, ◌||◌, List, [], ◌∷◌, map,
  arith, if◌then◌else◌, Bool-cases, length, take, length-map,
}
use hood_sentry.Prelude.{All}
use hood_sentry.Indexer.Reorg.{
  Table, blocks, transactions, logs, token_transfers, wallet_token_lots, wallet_pnl_snapshots,
  wallet_cash_flows, Row, ReorgEvent, Db, in_range, orphan, same_table, mark_orphaned, marked,
  mark_all, handle_reorg, resolve_reorg_event,
}

-- The table is in the list.
abbrev pub is_listed : Table → List Table → Bool
is_listed u [] = false
is_listed u (t ∷ ts) = same_table t u || is_listed u ts

orphan-orphan : (t : Table) (e : ReorgEvent) (r : Row) → orphan t e (orphan t e r) ≡ orphan t e r
unfolding orphan
orphan-orphan t e r = ground arith

map-orphan_twice :
    (t : Table) (e : ReorgEvent) (rs : List Row)
    → map (orphan t e) (map (orphan t e) rs) ≡ map (orphan t e) rs
map-orphan_twice t e [] = refl
map-orphan_twice t e (r ∷ rs) = rw (orphan-orphan t e r, map-orphan_twice t e rs) refl

-- The rows of a table after some of the updates: those of its own update, if it is among them.
pub mark_all_rows :
    (ts : List Table) (e : ReorgEvent) (db : Db) (u : Table)
    → (mark_all ts e db).rows u
      ≡ (if is_listed u ts then map (orphan u e) (db.rows u) else db.rows u)
unfolding mark_all mark_orphaned
mark_all_rows [] e db u = refl
mark_all_rows (t ∷ ts) e db u =
    mark_all_rows ts e (mark_orphaned t e db) u ∙ elim (Bool-cases (same_table t u)) [
      | inl here ↦ rw here (elim (Bool-cases (is_listed u ts)) [
        | inl y ↦ rw y (map-orphan_twice u e (db.rows u))
        | inr n ↦ rw n refl
      ])
      | inr there ↦ rw there refl
    ]

all_listed : (u : Table) → is_listed u marked ≡ true
all_listed blocks = refl
all_listed transactions = refl
all_listed logs = refl
all_listed token_transfers = refl
all_listed wallet_token_lots = refl
all_listed wallet_pnl_snapshots = refl
all_listed wallet_cash_flows = refl

pub handle_reorg_rows :
    (now : ℕ) (e : ReorgEvent) (db : Db) (u : Table)
    → (handle_reorg now e db).rows u ≡ map (orphan u e) (db.rows u)
unfolding handle_reorg resolve_reorg_event
handle_reorg_rows now e db u = mark_all_rows marked e db u ∙ rw (all_listed u) refl

-- The rows that an event is not about.
abbrev pub outside : ReorgEvent → List Row → List Row
outside e [] = []
outside e (r ∷ rs) = let rest = outside e rs in if in_range e r then rest else r ∷ rest

-- No row that the event is about is canonical.
abbrev pub IsOrphaned : ReorgEvent → Row → Type 0
IsOrphaned e r = (in_range e r && r.canonical) ≡ false

orphan-IsOrphaned : (u : Table) (e : ReorgEvent) (r : Row) → IsOrphaned e (orphan u e r)
unfolding orphan
orphan-IsOrphaned u e r = ground arith

map-IsOrphaned :
    (u : Table) (e : ReorgEvent) (rs : List Row) → All (IsOrphaned e) (map (orphan u e) rs)
map-IsOrphaned u e [] = tt
map-IsOrphaned u e (r ∷ rs) = (orphan-IsOrphaned u e r, map-IsOrphaned u e rs)

outside_row : (u : Table) (e : ReorgEvent) (r : Row) → in_range e r ≡ false → orphan u e r ≡ r
unfolding orphan
outside_row u e r n = rw n refl

range_row : (u : Table) (e : ReorgEvent) (r : Row) → in_range e (orphan u e r) ≡ in_range e r
unfolding orphan
range_row u e r = ground arith

outside-map :
    (u : Table) (e : ReorgEvent) (rs : List Row) → outside e (map (orphan u e) rs) ≡ outside e rs
outside-map u e [] = refl
outside-map u e (r ∷ rs) = elim (Bool-cases (in_range e r)) [
  | inl here ↦ rw (range_row u e r, here) (outside-map u e rs)
  | inr there ↦ rw (range_row u e r, there, outside_row u e r there, outside-map u e rs) refl
]

-- The handling of an event leaves no canonical row of its chain and range in any of the seven
-- tables, whatever was there, also of a fork that was indexed since; it keeps the rows that are not
-- of the range, in their order, and loses none.
pub handle_reorg-IsOrphaned :
    (now : ℕ) (e : ReorgEvent) (db : Db) (u : Table)
    → All (IsOrphaned e) ((handle_reorg now e db).rows u)
      × (outside e ((handle_reorg now e db).rows u) ≡ outside e (db.rows u))
      × (length ((handle_reorg now e db).rows u) ≡ length (db.rows u))
handle_reorg-IsOrphaned now e db u =
    let rows = handle_reorg_rows now e db u in
    (
      subst (All (IsOrphaned e)) (sym rows) (map-IsOrphaned u e (db.rows u)),
      ap (outside e) rows ∙ outside-map u e (db.rows u),
      ap length rows ∙ length-map (db.rows u) (orphan u e),
    )

-- A handling that stopped after any number of its updates and is done again from the start leaves
-- the rows that it would have left at once.
pub handle_reorg_resumed :
    (now : ℕ) (e : ReorgEvent) (db : Db) (k : ℕ) (u : Table)
    → (handle_reorg now e (mark_all (take k marked) e db)).rows u ≡ (handle_reorg now e db).rows u
handle_reorg_resumed now e db k u =
    handle_reorg_rows now e (mark_all (take k marked) e db) u
    ∙ ap (map (orphan u e)) (mark_all_rows (take k marked) e db u)
    ∙ elim (Bool-cases (is_listed u (take k marked))) [
      | inl y ↦ rw y (map-orphan_twice u e (db.rows u))
      | inr n ↦ rw n refl
    ]
    ∙ sym (handle_reorg_rows now e db u)
