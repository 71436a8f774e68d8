-- ===== src/Indexer/PoolBackfill.antt =====
-- apps/indexer/src/pool-backfill.ts over drizzle-pool-backfill-store.ts. Addresses are lists of code
-- units. The registry of the factory and the lookup of origins are
-- parameters; the log is left out, and so are failures of the database. What a run that throws has
-- written stays written.
pub mod Walk
pub mod Misses
mod Tests
use hood_sentry.Prelude.{
  ℕ, zero, suc, ◌+◌, ◌-◌, ◌*◌, ◌/◌, ◌%◌, ◌^◌, ◌≤◌, ◌<◌, min, max, ◌≡◌, refl, sym, ap, ◌∙◌, subst,
  ◌≢◌, ◌↔◌, ◌⊎◌, inl, inr, Bool, true, false, not, ◌&&◌, ◌||◌, Option, none, some, List, [], ◌∷◌,
  ◌++◌, map, arith, ltb, leb, ◌==◌, if◌then◌else◌, ltb→lt, lt→ltb, leb→le, ==_iff, tests,
  Bool-cases, Option-cases, length, get_elem?, set, get_or, take, drop, replicate, length-append,
  length-take, length-drop, length-map, length-replicate,
}
use Prim.Native.String.{String}
use hood_sentry.Prelude.Attempt.{Attempt, threw, returned, ◌>>=◌}
use hood_sentry.Prelude.Codes.{same_codes, same_text, to_lower_case}

abbrev pub Address : Type 0
Address = List ℕ

-- `totalPairs`, `pairAtIndex` and `pairTokens` of the factory.
pub record FactoryPairReader : Type 0 where
  pub total_pairs : Attempt ℕ
  pub pair_at_index : ℕ → Attempt Address
  pub pair_tokens : Address → Attempt (Address × Address)

pub record Origin : Type 0 where
  pub created_block : ℕ
  pub created_tx_hash : String
  pub created_block_hash : String
  pub creation_log_index : ℕ
  pub factory_address : Address

pub record Candidate : Type 0 where
  pub address : Address
  pub token0 : Address
  pub token1 : Address

pub record BackfilledPool : Type 0 where
  pub candidate : Candidate
  pub origin : Origin

-- The columns of a row of `pools` that the insert takes from the pair, in lower case.
pub record Pool : Type 0 where
  pub address : Address
  pub token0_address : Address
  pub token1_address : Address
  pub created_block : ℕ
  pub created_tx_hash : String
  pub created_block_hash : String
  pub creation_log_index : ℕ
  pub factory_address : Address

-- The rows of the chain, the factories of its protocols, and the cursor of the stream.
pub record Store : Type 0 where
  pub pools : List Pool
  pub factories : List Address
  pub cursor : Option ℕ

unfoldable pub read_cursor : Store → ℕ
read_cursor s = elim s.cursor [ none ↦ 0 | some n ↦ n ]

unfoldable pub write_cursor : ℕ → Store → Store
write_cursor n s = record s { cursor = some n }

abbrev pub has_pool : Address → List Pool → Bool
has_pool a [] = false
has_pool a (p ∷ ps) = same_codes p.address a || has_pool a ps

-- The factory of a protocol whose address is this one but for case.
abbrev pub find_factory : Address → List Address → Option Address
find_factory f [] = none
find_factory f (g ∷ gs) = let later = find_factory f gs in if same_text g f then some g else later

abbrev pub pool_row : BackfilledPool → Address → Pool
pool_row r factory = record {
  address = to_lower_case r.candidate.address;
  token0_address = to_lower_case r.candidate.token0;
  token1_address = to_lower_case r.candidate.token1;
  created_block = r.origin.created_block;
  created_tx_hash = r.origin.created_tx_hash;
  created_block_hash = r.origin.created_block_hash;
  creation_log_index = r.origin.creation_log_index;
  factory_address = factory;
}

abbrev pub insert_found : BackfilledPool → Option Address → List Pool → List Pool
insert_found r none ps = ps
insert_found r (some f) ps =
    if has_pool (to_lower_case r.candidate.address) ps then ps else ps ++ pool_row r f ∷ []

-- One insert: a pair of no known factory, or whose address is there, adds no row.
unfoldable pub insert_pool : List Address → BackfilledPool → List Pool → List Pool
unfolding to_lower_case
insert_pool factories r ps = insert_found r (find_factory r.origin.factory_address factories) ps

unfoldable pub insert_pools : List Address → List BackfilledPool → List Pool → List Pool
unfolding insert_pool
insert_pools factories [] ps = ps
insert_pools factories (r ∷ rs) ps = insert_pools factories rs (insert_pool factories r ps)

-- `known.has(address.toLowerCase())`, over the lower-case addresses of the pools read before the first
-- batch.
abbrev pub is_known : List Pool → Address → Bool
is_known [] a = false
is_known (p ∷ ps) a = same_codes (to_lower_case p.address) (to_lower_case a) || is_known ps a

abbrev pub with_tokens : Address → Attempt (Address × Address) → List Candidate → List Candidate
with_tokens a threw rest = rest
with_tokens a (returned (t0, t1)) rest = record { address = a; token0 = t0; token1 = t1 } ∷ rest

-- The body of the loop over the indexes: a pair that cannot be read is skipped.
abbrev pub candidate_at :
    FactoryPairReader → List Pool → Attempt Address → List Candidate → List Candidate
candidate_at reader known threw rest = rest
candidate_at reader known (returned a) rest =
    if is_known known a then rest else with_tokens a (reader.pair_tokens a) rest

unfoldable pub candidates : FactoryPairReader → List Pool → ℕ → ℕ → List Candidate
candidates reader known first zero = []
candidates reader known first (suc count) =
    let rest = candidates reader known (suc first) count in
    candidate_at reader known (reader.pair_at_index first) rest

abbrev pub Lookup : Type 0
Lookup = List Address → Attempt (Address → Option Origin)

abbrev pub addresses : List Candidate → List Address
addresses [] = []
addresses (c ∷ cs) = c.address ∷ addresses cs

abbrev pub with_origin : Candidate → Option Origin → List BackfilledPool → List BackfilledPool
with_origin c none rest = rest
with_origin c (some o) rest = record { candidate = c; origin = o } ∷ rest

-- The candidates of which the lookup gives an origin.
unfoldable pub rows_of : (Address → Option Origin) → List Candidate → List BackfilledPool
unfolding to_lower_case
rows_of origins [] = []
rows_of origins (c ∷ cs) =
    let rest = rows_of origins cs in with_origin c (origins (to_lower_case c.address)) rest

-- Nothing is looked up for no candidates.
abbrev pub looked_up : Lookup → List Candidate → Attempt (List BackfilledPool)
looked_up lookup [] = returned []
looked_up lookup (c ∷ cs) = do
  origins ← lookup (addresses (c ∷ cs))
  returned (rows_of origins (c ∷ cs))

pub record Progress : Type 0 where
  pub scanned : ℕ
  pub inserted : ℕ
  pub store : Store

-- A run ends, or throws with what it has written so far.
pub data Run : Type 0 where
  stopped : Progress → Run
  finished : Progress → Run

abbrev pub progress_of : Run → Progress
progress_of (stopped p) = p
progress_of (finished p) = p

abbrev pub store_batch : ℕ → ℕ → Progress → Attempt (List BackfilledPool) → Run
store_batch first count p threw = stopped (record p { scanned = p.scanned + count })
store_batch first count p (returned rows) =
    let pools = insert_pools p.store.factories rows p.store.pools in
    finished (record {
      scanned = p.scanned + count;
      inserted = p.inserted + (length pools - length p.store.pools);
      store = write_cursor (first + count) (record p.store { pools = pools });
    })

-- A pass of the loop, over `count` indexes from the cursor on.
unfoldable pub backfill_batch : FactoryPairReader → Lookup → List Pool → ℕ → ℕ → Progress → Run
unfolding candidates insert_pools write_cursor rows_of
backfill_batch reader lookup known first count p =
    store_batch first count p (looked_up lookup (candidates reader known first count))

abbrev pub next_batch : Run → (Progress → Option Run) → Option Run
next_batch (stopped p) f = some (stopped p)
next_batch (finished p) f = f p

-- The loop; `none` is that the fuel ran out.
unfoldable pub backfill_loop :
    FactoryPairReader → Lookup → List Pool → ℕ → ℕ → ℕ → ℕ → Progress → Option Run
unfolding backfill_batch
backfill_loop reader lookup known batch_size total zero cursor p = none
backfill_loop reader lookup known batch_size total (suc fuel) cursor p =
    if ltb cursor total
    then (let count = min batch_size (total - cursor) in
        next_batch (backfill_batch reader lookup known cursor count p)
          (backfill_loop reader lookup known batch_size total fuel (cursor + count)))
    else some (finished p)

abbrev pub started : Store → Progress
started s = record { scanned = 0; inserted = 0; store = s }

abbrev pub run_total : FactoryPairReader → Lookup → ℕ → ℕ → Store → Attempt ℕ → Option Run
run_total reader lookup batch_size fuel s threw = some (stopped (started s))
run_total reader lookup batch_size fuel s (returned total) =
    if leb total (read_cursor s)
    then some (finished (started s))
    else backfill_loop reader lookup s.pools batch_size total fuel (read_cursor s) (started s)

-- `run` with fuel: what it reports, and the store that it leaves.
unfoldable pub run_backfill : FactoryPairReader → Lookup → ℕ → ℕ → Store → Option Run
unfolding backfill_loop read_cursor
run_backfill reader lookup batch_size fuel s =
    run_total reader lookup batch_size fuel s reader.total_pairs
