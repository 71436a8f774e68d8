-- ===== src/Indexer/PoolBackfill/Misses.antt =====
-- What the walk over the registry never reads again.
use hood_sentry.Prelude.Attempt.{returned-injective, Attempt, Attempt-cases, threw, returned}
use hood_sentry.Prelude.{
  ℕ, zero, suc, ◌+◌, ◌-◌, ◌≤◌, min, ◌≡◌, refl, subst, inl, inr, false, Option, none, some, List, [],
  ◌∷◌, ◌++◌, arith, ltb, leb, Bool-cases, All,
}
use mathlib.Core.Option.{some-injective}
use hood_sentry.Prelude.Codes.{same_codes, to_lower_case}
use hood_sentry.Indexer.PoolBackfill.{
  Address, FactoryPairReader, Origin, Candidate, BackfilledPool, Pool, Store, read_cursor,
  write_cursor, has_pool, find_factory, insert_found, insert_pool, insert_pools, is_known,
  with_tokens, candidate_at, candidates, Lookup, addresses, with_origin, rows_of, looked_up,
  Progress, Run, stopped, finished, progress_of, store_batch, backfill_batch, next_batch,
  backfill_loop, started, run_total, run_backfill,
}

-- No pair of the registry from an index on has the address.
abbrev pub NotFrom : FactoryPairReader → ℕ → Address → Type 0
NotFrom reader n a =
    (i : ℕ) (b : Address)
    → n ≤ i
    → reader.pair_at_index i ≡ returned b
    → same_codes (to_lower_case b) a ≡ false

abbrev Other : Address → Candidate → Type 0
Other a c = same_codes (to_lower_case c.address) a ≡ false

with_tokens-Other :
    (a b : Address) (t : Attempt (Address × Address)) (cs : List Candidate)
    → same_codes (to_lower_case b) a ≡ false
    → All (Other a) cs
    → All (Other a) (with_tokens b t cs)
with_tokens-Other a b threw cs n h = h
with_tokens-Other a b (returned (t0, t1)) cs n h = (n, h)

candidate_at-Other :
    (reader : FactoryPairReader) (known : List Pool) (a : Address) (x : Attempt Address)
    (cs : List Candidate)
    → ((b : Address) → x ≡ returned b → same_codes (to_lower_case b) a ≡ false)
    → All (Other a) cs
    → All (Other a) (candidate_at reader known x cs)
candidate_at-Other reader known a threw cs f h = h
candidate_at-Other reader known a (returned b) cs f h = elim (Bool-cases (is_known known b)) [
  | inl y ↦ rw y h
  | inr o ↦ rw o (with_tokens-Other a b (reader.pair_tokens b) cs (f b refl) h)
]

candidates-Other :
    (reader : FactoryPairReader) (known : List Pool) (a : Address) (first count : ℕ)
    → NotFrom reader first a
    → All (Other a) (candidates reader known first count)
unfolding candidates
candidates-Other reader known a first zero n = tt
candidates-Other reader known a first (suc count) n =
    candidate_at-Other reader known a (reader.pair_at_index first)
      (candidates reader known (suc first) count) (λ b e. n first b (omega arith) e)
      (candidates-Other reader known a (suc first) count (λ i b l e. n i b (omega (arith, l)) e))

abbrev OtherRow : Address → BackfilledPool → Type 0
OtherRow a r = Other a r.candidate

with_origin-Other :
    (a : Address) (c : Candidate) (o : Option Origin) (rs : List BackfilledPool)
    → Other a c
    → All (OtherRow a) rs
    → All (OtherRow a) (with_origin c o rs)
with_origin-Other a c none rs n h = h
with_origin-Other a c (some o) rs n h = (n, h)

rows_of-Other :
    (a : Address) (m : Address → Option Origin) (cs : List Candidate)
    → All (Other a) cs
    → All (OtherRow a) (rows_of m cs)
unfolding rows_of
rows_of-Other a m [] h = tt
rows_of-Other a m (c ∷ cs) (n, h) =
    with_origin-Other a c (m (to_lower_case c.address)) (rows_of m cs) n (rows_of-Other a m cs h)

looked_up-Other :
    (lookup : Lookup) (a : Address) (cs : List Candidate) (rs : List BackfilledPool)
    → All (Other a) cs
    → looked_up lookup cs ≡ returned rs
    → All (OtherRow a) rs
looked_up-Other lookup a [] rs h e = subst (All (OtherRow a)) (returned-injective _ _ e) tt
looked_up-Other lookup a (c ∷ cs) rs h e = elim (Attempt-cases (lookup (addresses (c ∷ cs)))) [
  | inl d ↦ absurd (let q : threw ≡ returned rs = rw d at e in cc)
  | inr (m, d) ↦
      subst (All (OtherRow a)) (returned-injective _ _ (rw d at e)) (rows_of-Other a m (c ∷ cs) h)
]

has_pool-append :
    (a : Address) (ps : List Pool) (p : Pool)
    → has_pool a ps ≡ false
    → same_codes p.address a ≡ false
    → has_pool a (ps ++ p ∷ []) ≡ false
has_pool-append a [] p h n = rw n refl
has_pool-append a (q ∷ ps) p h n = ground (arith, has_pool-append a ps p)

insert_found-absent :
    (a : Address) (r : BackfilledPool) (o : Option Address) (ps : List Pool)
    → OtherRow a r
    → has_pool a ps ≡ false
    → has_pool a (insert_found r o ps) ≡ false
insert_found-absent a r none ps n h = h
insert_found-absent a r (some f) ps n h =
    elim (Bool-cases (has_pool (to_lower_case r.candidate.address) ps)) [
      | inl y ↦ rw y h
      | inr o ↦ rw o (has_pool-append a ps _ h n)
    ]

insert_pools-absent :
    (a : Address) (factories : List Address) (rs : List BackfilledPool) (ps : List Pool)
    → All (OtherRow a) rs
    → has_pool a ps ≡ false
    → has_pool a (insert_pools factories rs ps) ≡ false
unfolding insert_pools
insert_pools-absent a factories [] ps n h = h
insert_pools-absent a factories (r ∷ rs) ps (m, n) h =
    insert_pools-absent a factories rs (insert_pool factories r ps) n
      (insert_found-absent a r (find_factory r.origin.factory_address factories) ps m h)

store_batch-absent :
    (a : Address) (first count : ℕ) (p : Progress) (x : Attempt (List BackfilledPool))
    → ((rs : List BackfilledPool) → x ≡ returned rs → All (OtherRow a) rs)
    → has_pool a p.store.pools ≡ false
    → has_pool a (progress_of (store_batch first count p x)).store.pools ≡ false
unfolding write_cursor
store_batch-absent a first count p threw f h = h
store_batch-absent a first count p (returned rs) f h =
    insert_pools-absent a p.store.factories rs p.store.pools (f rs refl) h

backfill_loop-absent :
    (reader : FactoryPairReader) (lookup : Lookup) (known : List Pool) (a : Address)
    (batch_size total fuel cursor : ℕ) (p : Progress) (r : Run)
    → NotFrom reader cursor a
    → has_pool a p.store.pools ≡ false
    → backfill_loop reader lookup known batch_size total fuel cursor p ≡ some r
    → has_pool a (progress_of r).store.pools ≡ false
unfolding backfill_loop
backfill_loop-absent reader lookup known a b total zero cursor p r n h e = cc
backfill_loop-absent reader lookup known a b total (suc fuel) cursor p r n h e =
    elim (Bool-cases (ltb cursor total)) [
      | inl y ↦
          go (backfill_batch reader lookup known cursor (min b (total - cursor)) p)
            (store_batch-absent a cursor (min b (total - cursor)) p
              (looked_up lookup (candidates reader known cursor (min b (total - cursor))))
              (λ rs q.
                looked_up-Other lookup a (candidates reader known cursor (min b (total - cursor)))
                  rs (candidates-Other reader known a cursor (min b (total - cursor)) n) q)
              h)
            (λ p' q k.
              backfill_loop-absent reader lookup known a b total fuel
                (cursor + min b (total - cursor)) p' r (λ i x l. n i x (omega (arith, l))) q k)
            (rw y at e)
      | inr o ↦
          subst (λ (x : Run). has_pool a (progress_of x).store.pools ≡ false)
            (some-injective _ _ (rw o at e)) h
    ]
  where
    go :
        (x : Run)
        → has_pool a (progress_of x).store.pools ≡ false
        → ((p' : Progress)
            → has_pool a p'.store.pools ≡ false
            → backfill_loop reader lookup known b total fuel (cursor + min b (total - cursor)) p'
              ≡ some r
            → has_pool a (progress_of r).store.pools ≡ false)
        → next_batch x
            (backfill_loop reader lookup known b total fuel (cursor + min b (total - cursor)))
          ≡ some r
        → has_pool a (progress_of r).store.pools ≡ false
    go (stopped p') k ih d =
        subst (λ (x : Run). has_pool a (progress_of x).store.pools ≡ false) (some-injective _ _ d) k
    go (finished p') k ih d = ih p' k d

-- A pair below the cursor is never read again: a pool that is not in the store, and whose address
-- no pair from the cursor on has, is not there after any later run, whatever its origin is known to
-- be by then, and however the run ends.
pub run_backfill_misses :
    (reader : FactoryPairReader) (lookup : Lookup) (a : Address) (batch_size fuel : ℕ) (s : Store)
    (r : Run)
    → has_pool a s.pools ≡ false
    → NotFrom reader (read_cursor s) a
    → run_backfill reader lookup batch_size fuel s ≡ some r
    → has_pool a (progress_of r).store.pools ≡ false
unfolding run_backfill
run_backfill_misses reader lookup a b fuel s r h n e = go reader.total_pairs e
  where
    done :
        (x : Run)
        → has_pool a (progress_of x).store.pools ≡ false
        → ◌≡◌ {A = Option Run} (some x) (some r)
        → has_pool a (progress_of r).store.pools ≡ false
    done x k d =
        subst (λ (y : Run). has_pool a (progress_of y).store.pools ≡ false) (some-injective _ _ d) k

    go :
        (t : Attempt ℕ)
        → run_total reader lookup b fuel s t ≡ some r
        → has_pool a (progress_of r).store.pools ≡ false
    go threw d = done (stopped (started s)) h d
    go (returned total) d = elim (Bool-cases (leb total (read_cursor s))) [
      | inl y ↦ done (finished (started s)) h (rw y at d)
      | inr o ↦
          backfill_loop-absent reader lookup s.pools a b total fuel (read_cursor s) (started s) r n
            h (rw o at d)
    ]
