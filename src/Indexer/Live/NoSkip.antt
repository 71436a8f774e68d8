-- ===== src/Indexer/Live/NoSkip.antt =====
-- The live mode passes over no block: the reorganisations, and the loop as a whole.
use hood_sentry.Prelude.{
  ℕ, ◌+◌, ◌-◌, ◌≤◌, ◌<◌, ◌≡◌, refl, ap, subst, ◌⊎◌, inl, inr, true, false, ◌&&◌, Option, none, some,
  List, [], ◌∷◌, arith, ltb, leb, Bool-cases, Option-cases,
}
use Prim.Native.String.{String}
use mathlib.Core.Option.{some-injective}
use hood_sentry.Prelude.Attempt.{Attempt, Attempt-cases, threw, returned}
use hood_sentry.Indexer.Blocks.{BlockData}
use hood_sentry.Indexer.Fetcher.{fetch_block, validate_parent_hash}
use hood_sentry.Indexer.Persister.{PersisterConfig, PersistedBlock}
use hood_sentry.Indexer.Persister.Keeps.{has_canonical}
use hood_sentry.Indexer.Reorg
use hood_sentry.Indexer.Reorg.{ReorgEvent, Db, detect_reorg, event_of, canonical_hash}
use hood_sentry.Indexer.Reorg.Ancestor.{found}
use hood_sentry.Indexer.Reorg.Forks.{detected_event, detect_cases}
use hood_sentry.Indexer.Live.{
  LiveConfig, World, Live, handle_error, Pass, failed, passed, state_of, with_lag,
}
use hood_sentry.Indexer.Live.Records.{db_of, mark_tables, mark_detected_orphaned}
use hood_sentry.Indexer.Live.Served.{Served, fetch_block-Served}
use hood_sentry.Prelude.{sym, ◌∙◌}
use hood_sentry.Indexer.Live.Pruning.{prune_expired_raw_facts}
use hood_sentry.Indexer.Live.Retained.{
  IsRetained, pruned_tables-has_canonical, pruned_tables-is_abandoned, prune_expired-elim,
}
use hood_sentry.Indexer.Live.Cover.{Covered, IsSound}
use hood_sentry.Indexer.Live.Passes.{CheckCovered, Good, drain-Good, index_block-Good}
use hood_sentry.Indexer.Live.Loop.{
  drain, index_block, reorg_counted, handle, on_event, on_search, on_mismatch, use_block, tail,
  at_head, settle, live_pass, run_live_loop,
}

orphan_block-has_canonical :
    (p : PersisterConfig) (e : ReorgEvent) (chain n : ℕ) (rs : List PersistedBlock)
    → n < e.from_block
    → has_canonical chain n rs ≡ true
    → has_canonical chain n (mark_detected_orphaned p e rs) ≡ true
unfolding mark_detected_orphaned
orphan_block-has_canonical p e chain n [] l h = h
orphan_block-has_canonical p e chain n (r ∷ rs) l h =
    ground (arith, orphan_block-has_canonical p e chain n rs l)

-- What is found of a mismatch goes back below the current block.
event_bounds :
    (fetched : ℕ → Option String) (chain id now current : ℕ) (expected : Option String)
    (actual : String) (db db' : Db) (e : ReorgEvent)
    → detect_reorg fetched chain id now current expected actual db ≡ (some e, db')
    → (e.from_block ≡ e.common_ancestor_block + 1) × (e.from_block ≤ current)
event_bounds fetched chain id now current expected actual db db' e q =
    let stored = canonical_hash chain (db.rows Reorg.blocks) in
    let (a, h, o, same, rest) =
      detected_event chain id now current (Reorg.find_common_ancestor stored fetched (current - 1))
        db db' e (detect_cases fetched chain id now current expected actual db db' e q) in
    let (above, below, agrees) = found stored fetched (current - 1) a h o in
    let first : e.from_block ≡ a + 1 = ap (λ (x : ReorgEvent). x.from_block) same in
    let ancestor : e.common_ancestor_block ≡ a =
      ap (λ (x : ReorgEvent). x.common_ancestor_block) same in
    (omega arith, omega arith)

handle-Covered :
    (low : ℕ) (c : LiveConfig) (w : World) (e : ReorgEvent) (s : Live)
    → Covered low c s
    → (w.marks ≡ 0) ⊎ ((7 ≤ w.marks) × (w.resolves ≡ true))
    → e.from_block ≡ e.common_ancestor_block + 1
    → e.from_block ≤ s.current_block
    → Covered low c (state_of (handle c w e s))
unfolding handle mark_tables
handle-Covered low c w e s k (inl none_done) f l = rw none_done k
handle-Covered low c w e s k (inr (all, resolved)) f l =
    let some_done : ltb 0 w.marks ≡ true = ground arith in
    let all_done : leb 7 w.marks ≡ true = ground arith in
    rw (all_done, resolved, some_done)
      (λ n a b.
        let below : n < e.from_block = omega (arith, f, b) in
        orphan_block-has_canonical c.persister e c.persister.chain_id n s.tables.blocks below
          (k n a (omega (arith, below, l))))

-- The reorganisation is counted however far its handling comes.
handle_counts :
    (c : LiveConfig) (w : World) (e : ReorgEvent) (s : Live)
    → (state_of (handle c w e s)).metrics.reorgs_detected ≡ s.metrics.reorgs_detected
unfolding handle
handle_counts c w e s = elim (Bool-cases (leb 7 w.marks && w.resolves)) [
  | inl y ↦ rw y refl
  | inr o ↦ rw o refl
]

-- The loop is still covered after a pass, and so is the checkpoint if it was and no reorganisation
-- was found.
abbrev Kept : ℕ → LiveConfig → Live → Live → Type 0
Kept low c s s' =
    Covered low c s'
    × (CheckCovered low c s
        → s'.metrics.reorgs_detected ≡ s.metrics.reorgs_detected
        → CheckCovered low c s')

Good-Kept :
    (low : ℕ) (c : LiveConfig) (s s' : Live)
    → Good low (CheckCovered low c s) c s'
    → Kept low c s s'
Good-Kept low c s s' (k, q) = (k, λ x e. q x)

module _ (low : ℕ) (c : LiveConfig) (w : World) (s : Live) (k : Covered low c s)
    (sound : IsSound c w s) where
  on_event-Kept :
      (b : BlockData) (r : Option ReorgEvent × Db)
      → Served w.client s.current_block b
      → ((e : ReorgEvent)
          → r.0 ≡ some e
          → (e.from_block ≡ e.common_ancestor_block + 1) × (e.from_block ≤ s.current_block))
      → Kept low c s (state_of (on_event c w b s r))
  on_event-Kept b (none, db) served bounds =
      Good-Kept low c s (state_of (index_block c w b s))
        (index_block-Good low (CheckCovered low c s) c w b s (k, λ x. x) sound.fresh served)
  on_event-Kept b (some e, db) served bounds =
      let (f, l) = bounds e refl in
      let s' = reorg_counted (record s { reorg_events = db.reorg_events }) in
      (
        handle-Covered low c w e s' k sound.whole f l,
        λ x q. absurd (omega (arith, q, handle_counts c w e s')),
      )

  on_search-Kept :
      (b : BlockData) (a : Attempt (ℕ → Option String))
      → Served w.client s.current_block b
      → Kept low c s (state_of (on_search c w b s a))
  on_search-Kept b threw served = (k, λ x q. x)
  on_search-Kept b (returned fetched) served =
      let r =
        detect_reorg fetched c.persister.chain_id w.event_id w.now s.current_block s.last_block_hash
          b.block.parent_hash (db_of s.tables s.reorg_events) in
      on_event-Kept b r served (λ ev q.
        event_bounds fetched c.persister.chain_id w.event_id w.now s.current_block s.last_block_hash
          b.block.parent_hash (db_of s.tables s.reorg_events) r.1 ev (λ i. (q i, r.1)))

  on_mismatch-Kept :
      (b : BlockData)
      → Served w.client s.current_block b
      → Kept low c s (state_of (on_mismatch c w b s))
  unfolding on_mismatch
  on_mismatch-Kept b served = on_search-Kept b w.search served

  use_block-Kept :
      (a : Attempt (Option BlockData))
      → ((b : BlockData) → a ≡ returned (some b) → Served w.client s.current_block b)
      → Kept low c s (state_of (use_block c w s a))
  use_block-Kept threw served = (k, λ x q. x)
  use_block-Kept (returned none) served = (k, λ x q. x)
  use_block-Kept (returned (some b)) served =
      elim (Bool-cases (validate_parent_hash b.block s.last_block_hash)) [
        | inl y ↦ rw y (
            Good-Kept low c s (state_of (index_block c w b s)) (
              index_block-Good low (CheckCovered low c s) c w b s (k, λ x. x) sound.fresh
                (served b refl)))
        | inr o ↦ rw o (on_mismatch-Kept b (served b refl))
      ]

  at_head-Kept : (latest : ℕ) → Kept low c s (state_of (at_head c w latest s))
  unfolding at_head tail
  at_head-Kept latest = elim (Bool-cases (ltb latest s.current_block)) [
    | inl y ↦ rw y (k, λ x q. x)
    | inr o ↦ rw o (elim (Bool-cases (leb (s.current_block + c.finality_confirmations) latest)) [
      | inl y ↦ rw y (
          Good-Kept low c s (state_of (drain c w latest s))
            (drain-Good low (CheckCovered low c s) c w latest s (k, λ x. x) sound))
      | inr n ↦ rw n (
          use_block-Kept (fetch_block w.client c.indexable_topics s.current_block) (λ b e.
            fetch_block-Served w.client c.indexable_topics s.current_block b sound.honest e))
    ])
  ]

error-Kept :
    (low : ℕ) (c : LiveConfig) (s s' : Live) → Kept low c s s' → Kept low c s (handle_error s')
unfolding handle_error
error-Kept low c s s' k = k

settle-Kept :
    (low : ℕ) (c : LiveConfig) (s : Live) (p : Pass)
    → Kept low c s (state_of p)
    → Kept low c s (settle p)
settle-Kept low c s (failed s') k = error-Kept low c s s' k
settle-Kept low c s (passed s') k = k

-- The prune of a pass.
prune_expired-Kept :
    (low : ℕ) (c : LiveConfig) (w : World) (s : Live)
    → Covered low c s
    → IsSound c w s
    → IsRetained low c s.tables
    → Kept low c s (prune_expired_raw_facts c w s) × IsSound c w (prune_expired_raw_facts c w s)
prune_expired-Kept low c w s k sound near =
    prune_expired-elim c w (λ x. Kept low c s x × IsSound c w x) s ((k, λ q e. q), sound)
      ((k, λ q e. q), record { honest = sound.honest; fresh = sound.fresh; whole = sound.whole })
      (λ on.
        let keeps = λ (n : ℕ). pruned_tables-has_canonical low c w s.tables n on near in
        (
          (λ n a b. keeps n a (k n a b), λ q e p f n a b. keeps n a (q p f n a b)),
          record {
            honest = sound.honest;
            fresh =
                λ n b h g o. pruned_tables-is_abandoned c w s.tables n h (sound.fresh n b h g o);
            whole = sound.whole;
          },
        ))

Kept-trans :
    (low : ℕ) (c : LiveConfig) (s s' s'' : Live)
    → Kept low c s s'
    → s'.metrics.reorgs_detected ≡ s.metrics.reorgs_detected
    → Kept low c s' s''
    → Kept low c s s''
Kept-trans low c s s' s'' (k, q) same (k', q') = (k', λ x e. q' (q x same) (e ∙ sym same))

prune_expired_counts :
    (c : LiveConfig) (w : World) (s : Live)
    → (prune_expired_raw_facts c w s).metrics.reorgs_detected ≡ s.metrics.reorgs_detected
prune_expired_counts c w s =
    prune_expired-elim c w (λ x. x.metrics.reorgs_detected ≡ s.metrics.reorgs_detected) s refl refl
      (λ on. refl)

live_pass-Kept :
    (low : ℕ) (c : LiveConfig) (w : World) (s s' : Live)
    → Covered low c s
    → IsSound c w s
    → IsRetained low c s.tables
    → live_pass c w s ≡ some s'
    → Kept low c s s'
unfolding live_pass
live_pass-Kept low c w s s' k sound near e = elim (Attempt-cases w.renewed) [
  | inl p ↦
      subst (Kept low c s) (some-injective _ _ (rw p at e)) (error-Kept low c s s (k, λ x q. x))
  | inr (false, p) ↦ absurd (let q : ◌≡◌ {A = Option Live} none (some s') = rw p at e in cc)
  | inr (true, p) ↦ elim (Attempt-cases w.latest) [
    | inl l ↦
        subst (Kept low c s) (some-injective _ _ (rw (p, l) at e))
          (error-Kept low c s s (k, λ x q. x))
    | inr (latest, l) ↦
        let lagged = with_lag latest s in
        let next = prune_expired_raw_facts c w lagged in
        let sound' : IsSound c w lagged = record {
          honest = sound.honest;
          fresh = sound.fresh;
          whole = sound.whole;
        } in
        let (kept, later) = prune_expired-Kept low c w lagged k sound' near in
        subst (Kept low c s) (some-injective _ _ (rw (p, l) at e)) (
          settle-Kept low c s (at_head c w latest next) (
            Kept-trans low c s next (state_of (at_head c w latest next)) kept
              (prune_expired_counts c w lagged) (at_head-Kept low c w next kept.0 later latest)))
  ]
]

-- Each pass of the run is sound, and prunes nothing from the height on.
abbrev pub AllSound : ℕ → LiveConfig → List World → Live → Type 0
AllSound low c [] s = Unit
AllSound low c (w ∷ ws) s =
    IsSound c w s
    × IsRetained low c s.tables
    × (elim (live_pass c w s) [ none ↦ Unit | some s' ↦ AllSound low c ws s' ])

-- No pass of the run finds a reorganisation.
abbrev pub AllCalm : LiveConfig → List World → Live → Type 0
AllCalm c [] s = Unit
AllCalm c (w ∷ ws) s = elim (live_pass c w s) [
  | none ↦ Unit
  | some s' ↦ (s'.metrics.reorgs_detected ≡ s.metrics.reorgs_detected) × AllCalm c ws s'
]

-- Whatever fails and in whatever order, and whatever reorganisations and prunes there are: if each
-- block from some height up to that of the loop has a canonical row, it has one after any number of
-- passes, for the height that the loop has then. The provider gives blocks of the numbers asked for,
-- and none that an earlier reorganisation has abandoned; the handling of a reorganisation is not cut
-- off in the middle; and if there is a retention, the first of these blocks is, at each pass, not
-- further below the highest block of the database than the retention.
pub run_live_loop-Covered :
    (low : ℕ) (c : LiveConfig) (ws : List World) (s : Live)
    → Covered low c s
    → AllSound low c ws s
    → Covered low c (run_live_loop c ws s).0
unfolding run_live_loop
run_live_loop-Covered low c [] s k sound = k
run_live_loop-Covered low c (w ∷ ws) s k (sound, near, rest) =
    elim (Option-cases (live_pass c w s)) [
      | inl e ↦ rw (run_live_loop, e) k
      | inr (s', e) ↦
          rw (run_live_loop, e)
            (run_live_loop-Covered low c ws s' (live_pass-Kept low c w s s' k sound near e).0
              (rw e at rest))
    ]

-- While no reorganisation is found, a restart passes over no block either: each block from some
-- height up to the one that the checkpoint holds keeps having a canonical row, wherever the run ends.
-- The provider is as above, and the first of these blocks stays within the retention, if there is one.
pub run_live_loop-CheckCovered :
    (low : ℕ) (c : LiveConfig) (ws : List World) (s : Live)
    → Covered low c s
    → CheckCovered low c s
    → AllSound low c ws s
    → AllCalm c ws s
    → CheckCovered low c (run_live_loop c ws s).0
unfolding run_live_loop
run_live_loop-CheckCovered low c [] s k q sound calm = q
run_live_loop-CheckCovered low c (w ∷ ws) s k q (sound, near, rest) calm =
    elim (Option-cases (live_pass c w s)) [
      | inl e ↦ rw (run_live_loop, e) q
      | inr (s', e) ↦
          let kept = live_pass-Kept low c w s s' k sound near e in
          let later = rw (AllCalm, e) at calm in
          rw (run_live_loop, e)
            (run_live_loop-CheckCovered low c ws s' kept.0 (kept.1 q later.0) (rw e at rest)
              later.1)
    ]
