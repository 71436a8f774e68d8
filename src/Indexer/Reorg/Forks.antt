-- ===== src/Indexer/Reorg/Forks.antt =====
-- A detection and the handling of what it found.
use hood_sentry.Prelude.{
  ℕ, ◌-◌, ◌<◌, ◌≡◌, refl, sym, ap, ◌∙◌, subst, inl, inr, false, ◌&&◌, Option, none, some, List, [],
  ◌∷◌, map, arith, ltb, ◌==◌, Bool-cases,
}
use Prim.Native.String.{String}
use mathlib.Core.Option.{some-injective}
use text.Mathlib.Text.{◌==◌ as str_eq}
use text.Mathlib.TextEquality.{eq_iff}
use hood_sentry.Prelude.{All, All-mono}
use hood_sentry.Indexer.Reorg.{
  Table, blocks, Row, ReorgEvent, Db, canonical_hash, agreed, find_common_ancestor, event_of,
  record_reorg_event, detected, detect_reorg, orphan, handle_reorg,
}
use hood_sentry.Indexer.Reorg.Ancestor.{found}
use hood_sentry.Indexer.Reorg.Marks.{IsOrphaned, handle_reorg_rows, handle_reorg-IsOrphaned}

-- A canonical row of the chain below the block is of the ancestor or below it.
abbrev pub IsSettled : ℕ → ℕ → ℕ → Row → Type 0
IsSettled chain block ancestor r =
    ((r.chain_id == chain)
      && r.canonical
      && ltb r.block_number block
      && ltb ancestor r.block_number)
    ≡ false

pub detected_event :
    (chain id now block : ℕ) (o : Option (ℕ × String)) (db db' : Db) (e : ReorgEvent)
    → detected chain id now block o db ≡ (some e, db')
    → (a : ℕ) × (h : String) × (o ≡ some (a, h))
      × (e ≡ event_of chain id now block a)
      × (db' ≡ record_reorg_event (event_of chain id now block a) db)
detected_event chain id now block none db db' e q = absurd (let p = ap (λ x. x.0) q in cc)
detected_event chain id now block (some (a, h)) db db' e q =
    (a, h, refl, sym (some-injective _ _ (ap (λ x. x.0) q)), sym (ap (λ x. x.1) q))

pub detect_cases :
    (fetched : ℕ → Option String) (chain id now block : ℕ) (expected : Option String)
    (actual : String) (db db' : Db) (e : ReorgEvent)
    → detect_reorg fetched chain id now block expected actual db ≡ (some e, db')
    → detected chain id now block
        (find_common_ancestor (canonical_hash chain (db.rows blocks)) fetched (block - 1))
        db
      ≡ (some e, db')
unfolding detect_reorg
detect_cases fetched chain id now block none actual db db' e q =
    absurd (let p = ap (λ x. x.0) q in cc)
detect_cases fetched chain id now block (some expected) actual db db' e q =
    elim (Bool-cases (str_eq expected actual)) [
      | inl same ↦ absurd (let p : none ≡ some e = ap (λ x. x.0) (rw same at q) in cc)
      | inr other ↦ rw other at q
    ]

canonical_hash-orphan :
    (e : ReorgEvent) (chain n : ℕ) (rs : List Row)
    → n < e.from_block
    → canonical_hash chain (map (orphan blocks e) rs) n ≡ canonical_hash chain rs n
unfolding canonical_hash orphan
canonical_hash-orphan e chain n [] h = refl
canonical_hash-orphan e chain n (r ∷ rs) h = ground (arith, canonical_hash-orphan e chain n rs h)

orphaned-IsSettled :
    (chain id now block a : ℕ) (r : Row)
    → IsOrphaned (event_of chain id now block a) r
    → IsSettled chain block a r
orphaned-IsSettled chain id now block a r h = ground arith

agreed_stored : (s f : Option String) (h : String) → agreed s f ≡ some h → s ≡ some h
agreed_stored s f h e = ground arith

-- After the event the tables hold nothing canonical of the fork, and the ancestor's block.
abbrev pub IsHandled : (ℕ → Option String) → ℕ → ℕ → ℕ → Table → ReorgEvent → Db → Type 0
IsHandled fetched chain block later u e db =
    All (IsSettled chain block e.common_ancestor_block) ((handle_reorg later e db).rows u)
    × (h : String) × (fetched e.common_ancestor_block ≡ some h)
    × (canonical_hash chain ((handle_reorg later e db).rows blocks) e.common_ancestor_block
        ≡ some h)

same_agreed : (s f : Option String) (h : String) → agreed s f ≡ some h → f ≡ some h
same_agreed none none h e = cc
same_agreed none (some b) h e = cc
same_agreed (some a) none h e = cc
same_agreed (some a) (some b) h e = elim (Bool-cases (str_eq a b)) [
  | inl y ↦ ap some (sym ((eq_iff a b).0 y)) ∙ (rw y at e)
  | inr n ↦ absurd (let p : none ≡ some h = rw n at e in cc)
]

IsHandled-event_of :
    (fetched : ℕ → Option String) (chain id now block later a : ℕ) (h : String) (db : Db)
    (u : Table)
    → find_common_ancestor (canonical_hash chain (db.rows blocks)) fetched (block - 1) ≡ some (a, h)
    → IsHandled fetched chain block later u
        (event_of chain id now block a)
        (record_reorg_event (event_of chain id now block a) db)
IsHandled-event_of fetched chain id now block later a h db u f =
    let e = event_of chain id now block a in
    let db' = record_reorg_event e db in
    let (positive, below, agree) =
      found (canonical_hash chain (db.rows blocks)) fetched (block - 1) a h f in
    let (orphaned, kept, long) = handle_reorg-IsOrphaned later e db' u in
    (
      All-mono (IsOrphaned e) (IsSettled chain block a) ((handle_reorg later e db').rows u)
          (orphaned-IsSettled chain id now block a) orphaned,
      h,
      same_agreed (canonical_hash chain (db.rows blocks) a) (fetched a) h agree,
      ap (λ rows. canonical_hash chain rows a) (handle_reorg_rows later e db' blocks)
          ∙ canonical_hash-orphan e chain a (db.rows blocks) (omega arith)
          ∙ agreed_stored (canonical_hash chain (db.rows blocks) a) (fetched a) h agree,
    )

-- A detection that gives an event found the ancestor, and its handling leaves in every table no
-- canonical row of the chain between the ancestor and the block; the ancestor itself stays, with the
-- hash that the chain has for it.
pub detect_reorg-handle_reorg :
    (fetched : ℕ → Option String) (chain id now block later : ℕ) (expected : Option String)
    (actual : String) (db db' : Db) (e : ReorgEvent) (u : Table)
    → detect_reorg fetched chain id now block expected actual db ≡ (some e, db')
    → IsHandled fetched chain block later u e db'
detect_reorg-handle_reorg fetched chain id now block later expected actual db db' e u q =
    let stored = canonical_hash chain (db.rows blocks) in
    let (a, h, f, same, recorded) =
      detected_event chain id now block (find_common_ancestor stored fetched (block - 1)) db db' e
        (detect_cases fetched chain id now block expected actual db db' e q) in
    let ev = event_of chain id now block a in
    let handled = IsHandled-event_of fetched chain id now block later a h db u f in
    subst (λ x. IsHandled fetched chain block later u x db') (sym same)
      (subst (λ y. IsHandled fetched chain block later u ev y) (sym recorded) handled)
