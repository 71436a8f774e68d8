-- ===== src/Indexer/PoolBackfill/Tests.antt =====
-- A registry of three pairs, in batches of two: the second pair cannot be read, and the third has no
-- known origin.
use hood_sentry.Prelude.Attempt.{returned-injective, threw, returned}
use hood_sentry.Prelude.{
  ◌-◌, ◌<◌, max, ◌≡◌, refl, subst, false, none, some, [], ◌∷◌, arith, ◌==◌, if◌then◌else◌,
}
use hood_sentry.Prelude.Codes.{same_codes, same_text, to_lower_case, to_lower}
use hood_sentry.Indexer.PoolBackfill.{
  FactoryPairReader, Origin, Pool, Store, read_cursor, has_pool, Lookup, Progress, finished,
  run_backfill,
}
use hood_sentry.Indexer.PoolBackfill.Walk.{Answers, run_backfill_reaches}
use hood_sentry.Indexer.PoolBackfill.Misses.{NotFrom, run_backfill_misses}

abbrev reader : FactoryPairReader
reader = record {
  total_pairs = returned 3;
  pair_at_index = λ i. if i == 1 then threw else returned (i ∷ []);
  pair_tokens = λ a. returned (8 ∷ [], 9 ∷ []);
}

abbrev origin : Origin
origin = record {
  created_block = 7;
  created_tx_hash = "tx";
  created_block_hash = "block";
  creation_log_index = 0;
  factory_address = 5 ∷ [];
}

abbrev lookup : Lookup
lookup asked = returned (λ a. if same_codes a (0 ∷ []) then some origin else none)

abbrev empty : Store
empty = record { pools = []; factories = (5 ∷ []) ∷ []; cursor = none }

abbrev pool : Pool
pool = record {
  address = 0 ∷ [];
  token0_address = 8 ∷ [];
  token1_address = 9 ∷ [];
  created_block = 7;
  created_tx_hash = "tx";
  created_block_hash = "block";
  creation_log_index = 0;
  factory_address = 5 ∷ [];
}

abbrev filled : Store
filled = record empty { pools = pool ∷ []; cursor = some 3 }

first_pair_is_stored :
    run_backfill reader lookup 2 4 empty
    ≡ some (finished (record { scanned = 3; inserted = 1; store = filled }))
unfolding run_backfill to_lower_case to_lower same_text
first_pair_is_stored = refl

answers : Answers lookup
answers asked = ((λ a. if same_codes a (0 ∷ []) then some origin else none), refl)

at_start : 3 - read_cursor empty < 4
unfolding read_cursor
at_start = omega arith

run_backfill_reaches_example :
    (q : Progress) × (run_backfill reader lookup 2 4 empty ≡ some (finished q))
    × (q.scanned ≡ 3 - read_cursor empty)
    × (read_cursor q.store ≡ max 3 (read_cursor empty))
run_backfill_reaches_example =
    run_backfill_reaches reader lookup 2 3 4 empty answers (omega arith) refl at_start

-- The third pair has an origin by now.
abbrev lookup_later : Lookup
lookup_later asked = returned (λ a. some origin)

nothing_later :
    run_backfill reader lookup_later 2 4 filled
    ≡ some (finished (record { scanned = 0; inserted = 0; store = filled }))
unfolding run_backfill
nothing_later = refl

none_left : NotFrom reader (read_cursor filled) (2 ∷ [])
unfolding read_cursor to_lower_case to_lower
none_left i b l e =
    let third : (i == 1) ≡ false = ground arith in
    let same : (i ∷ []) ≡ b = returned-injective _ _ (rw third at e) in
    subst (λ x. same_codes (to_lower_case x) (2 ∷ []) ≡ false) same (ground arith)

run_backfill_misses_example : has_pool (2 ∷ []) filled.pools ≡ false
run_backfill_misses_example =
    run_backfill_misses reader lookup_later (2 ∷ []) 2 4 filled
      (finished (record { scanned = 0; inserted = 0; store = filled })) refl none_left nothing_later
