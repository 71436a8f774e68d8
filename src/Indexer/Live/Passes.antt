-- ===== src/Indexer/Live/Passes.antt =====
-- The live mode passes over no block: a pass of the loop, and the loop.
use hood_sentry.Prelude.{
  ℕ, ◌+◌, ◌≤◌, ◌<◌, ◌≡◌, refl, sym, ◌∙◌, subst, ◌⊎◌, inl, inr, true, Option, some, List, [], ◌∷◌,
  arith, ltb, ltb→lt, Bool-cases, length,
}
use Prim.Native.String.{String}
use mathlib.Core.Option.{some-injective}
use hood_sentry.Prelude.Attempt.{Attempt, Attempt-cases, threw, returned}
use hood_sentry.Indexer.Blocks.{BlockData}
use hood_sentry.Indexer.Persister.{finalized, Tables}
use hood_sentry.Indexer.Persister.Writes.{persist_block_data, persist_block_window}
use hood_sentry.Indexer.Persister.Batches.{persist_each, persist_block_window-each}
use hood_sentry.Indexer.Persister.Keeps.{has_canonical}
use hood_sentry.Indexer.Live.{
  LiveConfig, World, IndexerMetrics, Checkpoint, Live, state_of, finality_of,
}
use hood_sentry.Indexer.Live.Served.{Served, AllFrom}
use hood_sentry.Indexer.Live.Cover.{
  Covers, Covered, IsFresh, IsSound, Extends, persist_block_data-Extends, persist_each-Extends,
  Served-Ready, fetch_window-Served,
}
use hood_sentry.Indexer.Live.Loop.{
  committed, jobs_pass, checkpointed, collect_window, last_block, window_counted, finish_window,
  publish_window, use_window, drain, publish_block, write_block, index_block, window_count,
}

-- The height that the checkpoint leaves off at is covered.
abbrev pub CheckCovered : ℕ → LiveConfig → Live → Type 0
CheckCovered low c s = (p : Checkpoint) → s.checkpoint ≡ some p → Covers low c p.next_block s.tables

-- The heights of the loop are covered, and under a condition those of the checkpoint are.
abbrev pub Good : ℕ → Type 0 → LiveConfig → Live → Type 0
Good low Q c s = Covered low c s × (Q → CheckCovered low c s)

pub Covers-less :
    (low : ℕ) (c : LiveConfig) (m n : ℕ) (t : Tables) → m ≤ n → Covers low c n t → Covers low c m t
Covers-less low c m n t h k i a b = k i a (omega (arith, h, b))

-- A write of blocks from the current height on.
Covers-write :
    (low : ℕ) (c : LiveConfig) (t t' : Tables) (n count : ℕ)
    → Covers low c n t
    → Extends c.persister.chain_id t t'
    → ((m : ℕ) → n ≤ m → m < n + count → has_canonical c.persister.chain_id m t'.blocks ≡ true)
    → Covers low c (n + count) t'
Covers-write low c t t' n count k grow new i a b = elim (Bool-cases (ltb i n)) [
  | inl y ↦ grow i (k i a (ltb→lt i n y))
  | inr o ↦ new i (ground arith) b
]

CheckCovered-write :
    (low : ℕ) (c : LiveConfig) (s : Live) (t : Tables)
    → Extends c.persister.chain_id s.tables t
    → CheckCovered low c s
    → CheckCovered low c (record s { tables = t })
CheckCovered-write low c s t grow k p e i a b = grow i (k p e i a b)

module _ (low : ℕ) (Q : Type 0) (c : LiveConfig) (w : World) where
  checkpoint-Good :
      (s : Live) (top : ℕ) (h : Option String)
      → Covers low c top s.tables
      → CheckCovered low c
          (record s { checkpoint = some (record { next_block = top; last_block_hash = h }) })
  checkpoint-Good s top h k p e =
      subst (λ (r : Checkpoint). Covers low c r.next_block s.tables) (some-injective _ _ e) k

  less : (s : Live) (top : ℕ) → s.current_block ≤ top → Covers low c top s.tables → Covered low c s
  less s top h k = Covers-less low c s.current_block top s.tables h k

  finish_window-Good :
      (last : BlockData) (count : ℕ) (s : Live)
      → Covers low c (s.current_block + count) s.tables
      → (Q → CheckCovered low c s)
      → Good low Q c (
          state_of (
            finish_window last
              (s.current_block + count)
              s
              (checkpointed w (s.current_block + count) last.block.hash s)))
  finish_window-Good last count s k q = elim (Bool-cases w.writes_checkpoint) [
    | inl y ↦ rw y (k, λ x. checkpoint-Good s (s.current_block + count) last.block.hash k)
    | inr o ↦ rw o (less s (s.current_block + count) (omega arith) k, q)
  ]

  publish_window-Good :
      (last : BlockData) (count : ℕ) (s : Live) (r : IndexerMetrics × Attempt (List String))
      → Covers low c (s.current_block + count) s.tables
      → (Q → CheckCovered low c s)
      → Good low Q c (state_of (publish_window w last count s r))
  publish_window-Good last count s (m, threw) k q =
      (less s (s.current_block + count) (omega arith) k, q)
  publish_window-Good last count s (m, returned js) k q = elim (Bool-cases (jobs_pass w js)) [
    | inl y ↦ rw y (finish_window-Good last count (window_counted last m js s) k q)
    | inr o ↦ rw o (less s (s.current_block + count) (omega arith) k, q)
  ]

  committed_cases :
      (a : Attempt Tables)
      → (committed w a ≡ threw) ⊎ ((t : Tables) × (committed w a ≡ returned t) × (a ≡ returned t))
  committed_cases threw = elim (Bool-cases w.commits) [
    | inl y ↦ inl (rw y refl)
    | inr o ↦ inl (rw o refl)
  ]
  committed_cases (returned t) = elim (Bool-cases w.commits) [
    | inl y ↦ inr (t, rw y refl, refl)
    | inr o ↦ inl (rw o refl)
  ]

  use_window-Good :
      (s : Live) (a : Attempt (List BlockData))
      → Good low Q c s
      → IsFresh c w.client s.tables
      → ((bs : List BlockData) → a ≡ returned bs → AllFrom (Served w.client) s.current_block bs)
      → Good low Q c (state_of (use_window c w s a))
  use_window-Good s threw g fresh served = g
  use_window-Good s (returned []) g fresh served = g
  use_window-Good s (returned (b ∷ bs)) (k, q) fresh served =
      elim (committed_cases (persist_block_window c.persister finalized true (b ∷ bs) s.tables)) [
        | inl e ↦ rw e (k, q)
        | inr (t, e, p) ↦
            let each : persist_each c.persister finalized true (b ∷ bs) s.tables ≡ returned t =
              sym (persist_block_window-each c.persister finalized true (b ∷ bs) s.tables) ∙ p in
            let (grow, new) =
              persist_each-Extends c.persister w.client finalized (b ∷ bs) s.tables t
                s.current_block each
                (Served-Ready c w.client s.tables s.current_block (b ∷ bs) fresh
                  (served (b ∷ bs) refl)) in
            rw e (
              publish_window-Good (last_block b bs) (length (b ∷ bs)) (record s { tables = t })
                (collect_window w (b ∷ bs) s.metrics [])
                (Covers-write low c s.tables t s.current_block (length (b ∷ bs)) k grow new)
                (λ x. CheckCovered-write low c s t grow (q x)))
      ]

  pub drain-Good :
      (latest : ℕ) (s : Live)
      → Good low Q c s
      → IsSound c w s
      → Good low Q c (state_of (drain c w latest s))
  unfolding drain
  drain-Good latest s g sound = use_window-Good s _ g sound.fresh (λ bs e.
      fetch_window-Served c w s.current_block (window_count c latest s.current_block) bs
        sound.honest e)

  publish_block-Good :
      (b : BlockData) (s : Live) (a : Attempt (List String))
      → Covers low c (s.current_block + 1) s.tables
      → (Q → CheckCovered low c s)
      → Good low Q c (state_of (publish_block w b s a))
  publish_block-Good b s threw k q = (less s (s.current_block + 1) (omega arith) k, q)
  publish_block-Good b s (returned js) k q = elim (Bool-cases (jobs_pass w js)) [
    | inl y ↦ rw y (k, q)
    | inr o ↦ rw o (less s (s.current_block + 1) (omega arith) k, q)
  ]

  write_block-Good :
      (b : BlockData) (s : Live) (t : Tables)
      → Covers low c (s.current_block + 1) t
      → (Q → CheckCovered low c (record s { tables = t }))
      → Good low Q c (state_of (write_block w b s (returned t)))
  write_block-Good b s t k q = elim (Bool-cases w.writes_checkpoint) [
    | inl y ↦ rw y (
        publish_block-Good b _ (w.collect b) k
          (λ x. checkpoint-Good (record s { tables = t }) (s.current_block + 1) b.block.hash k))
    | inr o ↦ rw o (less (record s { tables = t }) (s.current_block + 1) (omega arith) k, q)
  ]

  pub index_block-Good :
      (b : BlockData) (s : Live)
      → Good low Q c s
      → IsFresh c w.client s.tables
      → Served w.client s.current_block b
      → Good low Q c (state_of (index_block c w b s))
  unfolding index_block
  index_block-Good b s (k, q) fresh (h, p, o, g) = elim (Attempt-cases w.latest_again) [
    | inl e ↦ rw e (k, q)
    | inr (latest, e) ↦
        let f = finality_of c latest s.current_block in
        rw e (elim (committed_cases (persist_block_data c.persister f true b s.tables)) [
          | inl d ↦ rw d (k, q)
          | inr (t, d, r) ↦
              let (grow, here, rest) =
                persist_block_data-Extends c.persister f b s.tables t s.current_block h r p o
                  (fresh s.current_block b.block h g o) in
              rw d (
                write_block-Good b s t
                  (Covers-write low c s.tables t s.current_block 1 k grow (λ m x y.
                    subst (λ z. has_canonical c.persister.chain_id z t.blocks ≡ true)
                      (omega (arith, x, y)) here))
                  (λ x. CheckCovered-write low c s t grow (q x)))
        ])
  ]
