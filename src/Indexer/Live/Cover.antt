-- ===== src/Indexer/Live/Cover.antt =====
-- The live mode passes over no block: what its writes and its reorganisations leave canonical.
use hood_sentry.Prelude.{
  ℕ, suc, ◌+◌, ◌≤◌, ◌<◌, ◌≡◌, refl, sym, subst, ◌⊎◌, inl, inr, true, false, some, List, [], ◌∷◌,
  arith, ◌==◌, ==_iff, Bool-cases, Option-cases, length,
}
use Prim.Native.String.{String}
use hood_sentry.Prelude.Attempt.{Attempt-cases, returned-injective, threw, returned}
use hood_sentry.Indexer.Blocks.{Block, BlockData}
use hood_sentry.Indexer.Fetcher.{RpcClient}
use hood_sentry.Indexer.Fetcher.Windows.{fetch_block_window}
use hood_sentry.Indexer.Persister.{FinalityState, PersisterConfig, Tables, build_block_row}
use hood_sentry.Indexer.Persister.Writes.{persist_block_data}
use hood_sentry.Indexer.Persister.Batches.{persist_each}
use hood_sentry.Indexer.Persister.Keeps.{
  has_canonical, is_abandoned, insert_row-has_canonical, insert_row-here, insert_row-is_abandoned,
  persist_block_data-blocks,
}
use hood_sentry.Indexer.Live.{LiveConfig, World, Live}
use hood_sentry.Indexer.Live.Served.{
  IsHonest, Gives, Served, AllFrom, fetch_block_window-Served, fetch_log_window-Served,
}
use hood_sentry.Indexer.Live.Loop

-- Every block from the start of the stream up to a height has a canonical row.
abbrev pub Covers : ℕ → LiveConfig → ℕ → Tables → Type 0
Covers low c top t =
    (n : ℕ) → low ≤ n → n < top → has_canonical c.persister.chain_id n t.blocks ≡ true

abbrev pub Covered : ℕ → LiveConfig → Live → Type 0
Covered low c s = Covers low c s.current_block s.tables

-- The chain gives no block that an earlier reorganisation had abandoned.
abbrev pub IsFresh : LiveConfig → RpcClient → Tables → Type 0
IsFresh c client t =
    (n : ℕ) (b : Block) (h : String)
    → Gives client n b
    → b.hash ≡ some h
    → is_abandoned c.persister.chain_id n h t.blocks ≡ false

-- The provider is honest and gives no abandoned block, and the handling of a reorganisation came to
-- its end, or failed before its first update.
pub record IsSound (c : LiveConfig) (w : World) (s : Live) : Type 0 where
  pub honest : IsHonest w.client
  pub fresh : IsFresh c w.client s.tables
  pub whole : (w.marks ≡ 0) ⊎ ((7 ≤ w.marks) × (w.resolves ≡ true))

-- The canonical heights of one table are canonical in the other.
abbrev pub Extends : ℕ → Tables → Tables → Type 0
Extends chain t t' =
    (n : ℕ) → has_canonical chain n t.blocks ≡ true → has_canonical chain n t'.blocks ≡ true

-- A served block whose row is not there as an abandoned one.
abbrev pub Ready : PersisterConfig → RpcClient → Tables → ℕ → BlockData → Type 0
Ready p client t n d =
    (h : String) × (d.block.number ≡ some n)
    × (d.block.hash ≡ some h)
    × (is_abandoned p.chain_id n h t.blocks ≡ false)

pub persist_block_data-Extends :
    (p : PersisterConfig) (f : FinalityState) (d : BlockData) (t t' : Tables) (n : ℕ) (h : String)
    → persist_block_data p f true d t ≡ returned t'
    → d.block.number ≡ some n
    → d.block.hash ≡ some h
    → is_abandoned p.chain_id n h t.blocks ≡ false
    → Extends p.chain_id t t'
      × (has_canonical p.chain_id n t'.blocks ≡ true)
      × ((m : ℕ) (k : String)
          → is_abandoned p.chain_id m k t.blocks ≡ false
          → is_abandoned p.chain_id m k t'.blocks ≡ false)
unfolding build_block_row
persist_block_data-Extends p f d t t' n h e q r a =
    let row = build_block_row p f true n h d.block in
    let rows = persist_block_data-blocks p f d t t' n h e q r in
    (
      λ m k. rw rows (insert_row-has_canonical row p.chain_id m t.blocks k),
      rw rows (insert_row-here row t.blocks refl a),
      λ m k b. rw rows (insert_row-is_abandoned row p.chain_id m k t.blocks refl b),
    )

Ready-later :
    (p : PersisterConfig) (client : RpcClient) (t t' : Tables) (n : ℕ) (bs : List BlockData)
    → ((m : ℕ) (k : String)
        → is_abandoned p.chain_id m k t.blocks ≡ false
        → is_abandoned p.chain_id m k t'.blocks ≡ false)
    → AllFrom (Ready p client t) n bs
    → AllFrom (Ready p client t') n bs
Ready-later p client t t' n [] f r = tt
Ready-later p client t t' n (b ∷ bs) f ((h, q, o, a), r) =
    ((h, q, o, f n h a), Ready-later p client t t' (suc n) bs f r)

pub persist_each-Extends :
    (p : PersisterConfig) (client : RpcClient) (f : FinalityState) (bs : List BlockData)
    (t t' : Tables) (n : ℕ)
    → persist_each p f true bs t ≡ returned t'
    → AllFrom (Ready p client t) n bs
    → Extends p.chain_id t t'
      × ((m : ℕ) → n ≤ m → m < n + length bs → has_canonical p.chain_id m t'.blocks ≡ true)
persist_each-Extends p client f [] t t' n e r = (
  λ m k.
      subst (λ (x : Tables). has_canonical p.chain_id m x.blocks ≡ true) (returned-injective _ _ e)
        k,
  λ m a b. absurd (omega (arith, a, b)),
)
persist_each-Extends p client f (b ∷ bs) t t' n e ((h, q, o, a), r) =
    elim (Attempt-cases (persist_block_data p f true b t)) [
      | inl d ↦ absurd (let x : threw ≡ returned t' = rw d at e in cc)
      | inr (u, d) ↦
          let (grow, here, fresh) = persist_block_data-Extends p f b t u n h d q o a in
          let (grow', later) =
            persist_each-Extends p client f bs u t' (suc n) (rw d at e)
              (Ready-later p client t u (suc n) bs fresh r) in
          (
            λ m k. grow' m (grow m k),
            λ m x y. elim (Bool-cases (m == n)) [
              | inl same ↦
                  subst (λ z. has_canonical p.chain_id z t'.blocks ≡ true)
                    (sym ((==_iff m n).0 same)) (grow' n here)
              | inr other ↦ later m (ground arith) (omega (arith, y))
            ],
          )
    ]

pub Served-Ready :
    (c : LiveConfig) (client : RpcClient) (t : Tables) (n : ℕ) (bs : List BlockData)
    → IsFresh c client t
    → AllFrom (Served client) n bs
    → AllFrom (Ready c.persister client t) n bs
Served-Ready c client t n [] fresh s = tt
Served-Ready c client t n (b ∷ bs) fresh ((h, q, o, g), s) =
    ((h, q, o, fresh n b.block h g o), Served-Ready c client t (suc n) bs fresh s)

pub fetch_window-Served :
    (c : LiveConfig) (w : World) (n count : ℕ) (bs : List BlockData)
    → IsHonest w.client
    → Loop.fetch_window c w n count ≡ returned bs
    → AllFrom (Served w.client) n bs
unfolding Loop.fetch_window
fetch_window-Served c w n count bs honest e = elim (Bool-cases c.log_window_enabled) [
  | inl y ↦ fetch_log_window-Served w.client c.indexable_topics n count bs honest (rw y at e)
  | inr o ↦
      elim (Option-cases
        (fetch_block_window w.client c.indexable_topics n count c.max_concurrency w.window_turns)) [
          | inl p ↦ absurd (let q : threw ≡ returned bs = rw (o, p) at e in cc)
          | inr (rs, p) ↦
              subst (AllFrom (Served w.client) n) (returned-injective _ _ (rw (o, p) at e)) (
                fetch_block_window-Served w.client c.indexable_topics n count c.max_concurrency
                  w.window_turns rs honest p)
        ]
]
