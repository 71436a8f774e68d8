-- ===== src/Indexer/Live/Served.antt =====
-- What the windows and the fetches of a pass return, from an honest provider.
use hood_sentry.Prelude.{
  ℕ, zero, suc, ◌+◌, ◌-◌, ◌≡◌, sym, ap, ◌∙◌, subst, ◌⊎◌, inl, inr, Option, none, some, List, [],
  ◌∷◌, Option-cases,
}
use Prim.Native.String.{String}
use mathlib.Core.Option.{some-injective}
use hood_sentry.Prelude.Attempt.{Attempt-cases, returned-injective, threw, returned}
use hood_sentry.Indexer.Blocks.{Log, Block, BlockData}
use hood_sentry.Indexer.Fetcher.{
  RpcClient, assert_well_formed, fetch_block_bodies, fetch_block, until_hole, headers,
  window_blocks, header_data, topic_filter, fetch_log_window,
}
use hood_sentry.Indexer.Fetcher.Windows.{Turn, fetch_block_window}
use hood_sentry.Indexer.Fetcher.Schedules.{in_order, fetch_block_window-in_order}

-- A block that is asked for by its number has that number, if it has any.
pub record IsHonest (client : RpcClient) : Type 0 where
  pub by_block :
      (n : ℕ) (b : Block)
      → client.get_block n ≡ returned (some b)
      → (b.number ≡ none) ⊎ (b.number ≡ some n)
  pub by_header :
      (n : ℕ) (b : Block)
      → client.get_header n ≡ returned (some b)
      → (b.number ≡ none) ⊎ (b.number ≡ some n)

-- The provider gives the block for the number, in one of the two requests.
abbrev pub Gives : RpcClient → ℕ → Block → Type 0
Gives client n b =
    (client.get_block n ≡ returned (some b)) ⊎ (client.get_header n ≡ returned (some b))

-- A block of the number, with a hash, as the provider gives it.
abbrev pub Served : RpcClient → ℕ → BlockData → Type 0
Served client n d =
    (h : String) × (d.block.number ≡ some n) × (d.block.hash ≡ some h) × Gives client n d.block

abbrev pub AllFrom : (ℕ → BlockData → Type 0) → ℕ → List BlockData → Type 0
AllFrom P n [] = Unit
AllFrom P n (b ∷ bs) = P n b × AllFrom P (suc n) bs

well_formed :
    (b : Block) (id : ℕ × String)
    → assert_well_formed b ≡ returned id
    → (b.number ≡ some id.0) × (b.hash ≡ some id.1)
unfolding assert_well_formed
well_formed b id e = elim (Option-cases b.number) [
  | inl p ↦ absurd (let q : threw ≡ returned id = rw p at e in cc)
  | inr (n, p) ↦ elim (Option-cases b.hash) [
    | inl o ↦ absurd (let q : threw ≡ returned id = rw (p, o) at e in cc)
    | inr (h, o) ↦
        let q = returned-injective _ _ (rw (p, o) at e) in
        (p ∙ ap (λ x. some x.0) q, o ∙ ap (λ x. some x.1) q)
  ]
]

identified :
    (client : RpcClient) (n : ℕ) (d : BlockData) (id : ℕ × String)
    → (d.block.number ≡ none) ⊎ (d.block.number ≡ some n)
    → (d.block.number ≡ some id.0) × (d.block.hash ≡ some id.1)
    → Gives client n d.block
    → Served client n d
identified client n d id (inl p) (q, o) g = absurd (cc)
identified client n d id (inr p) (q, o) g = (id.1, p, o, g)

pub fetch_block-Served :
    (client : RpcClient) (topics : Option (List (List ℕ))) (n : ℕ) (d : BlockData)
    → IsHonest client
    → fetch_block client topics n ≡ returned (some d)
    → Served client n d
unfolding fetch_block
fetch_block-Served client topics n d honest e = elim (Attempt-cases (client.get_block n)) [
  | inl p ↦ absurd (let q : threw ≡ returned (some d) = rw p at e in cc)
  | inr (none, p) ↦ absurd (let q : returned none ≡ returned (some d) = rw p at e in cc)
  | inr (some b, p) ↦ elim (Attempt-cases (assert_well_formed b)) [
    | inl a ↦ absurd (let q : threw ≡ returned (some d) = rw (p, a) at e in cc)
    | inr (id, a) ↦ elim (Attempt-cases (fetch_block_bodies client topics b)) [
      | inl f ↦ absurd (let q : threw ≡ returned (some d) = rw (p, a, f) at e in cc)
      | inr (s, f) ↦
          let same : b ≡ d.block =
            ap (λ (x : BlockData). x.block)
              (some-injective _ _ (returned-injective _ _ (rw (p, a, f) at e))) in
          let given : client.get_block n ≡ returned (some d.block) =
            p ∙ ap (λ (x : Block). returned (some x)) same in
          identified client n d id (honest.by_block n d.block given)
            (well_formed d.block id
              (subst (λ (x : Block). assert_well_formed x ≡ returned id) same a))
            (inl given)
    ]
  ]
]

in_order-Served :
    (client : RpcClient) (topics : Option (List (List ℕ))) (n count : ℕ)
    (rs : List (Option BlockData))
    → IsHonest client
    → in_order (fetch_block client topics) n count ≡ returned rs
    → AllFrom (Served client) n (until_hole rs)
in_order-Served client topics n zero rs honest e =
    subst (λ x. AllFrom (Served client) n (until_hole x)) (returned-injective _ _ e) tt
in_order-Served client topics n (suc count) rs honest e =
    elim (Attempt-cases (fetch_block client topics n)) [
      | inl p ↦ absurd (let q : threw ≡ returned rs = rw p at e in cc)
      | inr (o, p) ↦ elim (Attempt-cases (in_order (fetch_block client topics) (suc n) count)) [
        | inl d ↦ absurd (let q : threw ≡ returned rs = rw (p, d) at e in cc)
        | inr (rest, d) ↦
            subst (λ x. AllFrom (Served client) n (until_hole x))
              (returned-injective _ _ (rw (p, d) at e))
              (head rest o p (in_order-Served client topics (suc n) count rest honest d))
      ]
    ]
  where
    head :
        (rest : List (Option BlockData)) (o : Option BlockData)
        → fetch_block client topics n ≡ returned o
        → AllFrom (Served client) (suc n) (until_hole rest)
        → AllFrom (Served client) n (until_hole (o ∷ rest))
    head rest none p h = tt
    head rest (some b) p h = (fetch_block-Served client topics n b honest p, h)

pub fetch_block_window-Served :
    (client : RpcClient) (topics : Option (List (List ℕ))) (n count concurrency : ℕ)
    (ts : List Turn) (bs : List BlockData)
    → IsHonest client
    → fetch_block_window client topics n count concurrency ts ≡ some bs
    → AllFrom (Served client) n bs
fetch_block_window-Served client topics n count concurrency ts bs honest e =
    let (rs, p, q) = fetch_block_window-in_order client topics n count concurrency ts bs e in
    subst (AllFrom (Served client) n) (sym q) (in_order-Served client topics n count rs honest p)

window_blocks-Served :
    (client : RpcClient) (n count : ℕ) (logs : List Log) (hs : List (Option Block))
    (bs : List BlockData)
    → IsHonest client
    → headers client n count ≡ returned hs
    → window_blocks n logs hs ≡ returned bs
    → AllFrom (Served client) n bs
window_blocks-Served client n zero logs hs bs honest e f =
    let empty : [] ≡ hs = returned-injective _ _ e in
    let same : [] ≡ bs =
      returned-injective _ _ (subst (λ x. window_blocks n logs x ≡ returned bs) (sym empty) f) in
    subst (AllFrom (Served client) n) same tt
window_blocks-Served client n (suc count) logs hs bs honest e f =
    elim (Attempt-cases (client.get_header n)) [
      | inl p ↦ absurd (let q : threw ≡ returned hs = rw p at e in cc)
      | inr (o, p) ↦ elim (Attempt-cases (headers client (suc n) count)) [
        | inl d ↦ absurd (let q : threw ≡ returned hs = rw (p, d) at e in cc)
        | inr (rest, d) ↦
            let same : (o ∷ rest) ≡ hs = returned-injective _ _ (rw (p, d) at e) in
            head rest o p
              (λ tail_blocks g.
                window_blocks-Served client (suc n) count logs rest tail_blocks honest d g)
              (subst (λ x. window_blocks n logs x ≡ returned bs) (sym same) f)
      ]
    ]
  where
    head :
        (rest : List (Option Block)) (o : Option Block)
        → client.get_header n ≡ returned o
        → ((later : List BlockData)
            → window_blocks (suc n) logs rest ≡ returned later
            → AllFrom (Served client) (suc n) later)
        → window_blocks n logs (o ∷ rest) ≡ returned bs
        → AllFrom (Served client) n bs
    head rest none p ih g = subst (AllFrom (Served client) n) (returned-injective _ _ g) tt
    head rest (some b) p ih g = elim (Attempt-cases (assert_well_formed b)) [
      | inl a ↦ absurd (let q : threw ≡ returned bs = rw a at g in cc)
      | inr (id, a) ↦ elim (Attempt-cases (window_blocks (suc n) logs rest)) [
        | inl d ↦ absurd (let q : threw ≡ returned bs = rw (a, d) at g in cc)
        | inr (later, d) ↦
            subst (AllFrom (Served client) n) (returned-injective _ _ (rw (a, d) at g)) (
              identified client n (header_data n logs b) id (honest.by_header n b p)
                  (well_formed b id a) (inr p),
              ih later d,
            )
      ]
    ]

pub fetch_log_window-Served :
    (client : RpcClient) (topics : Option (List (List ℕ))) (n count : ℕ) (bs : List BlockData)
    → IsHonest client
    → fetch_log_window client topics n count ≡ returned bs
    → AllFrom (Served client) n bs
unfolding fetch_log_window
fetch_log_window-Served client topics n count bs honest e =
    elim (Attempt-cases (client.get_logs n (n + count - 1) (topic_filter topics))) [
      | inl p ↦ absurd (let q : threw ≡ returned bs = rw p at e in cc)
      | inr (logs, p) ↦ elim (Attempt-cases (headers client n count)) [
        | inl d ↦ absurd (let q : threw ≡ returned bs = rw (p, d) at e in cc)
        | inr (hs, d) ↦ window_blocks-Served client n count logs hs bs honest d (rw (p, d) at e)
      ]
    ]
