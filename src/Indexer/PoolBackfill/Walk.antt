-- ===== src/Indexer/PoolBackfill/Walk.antt =====
-- The walk over the registry: how far it goes, and what it never reads again.
use hood_sentry.Prelude.Attempt.{returned}
use hood_sentry.Prelude.{
  ℕ, zero, suc, ◌+◌, ◌-◌, ◌≤◌, ◌<◌, min, max, ◌≡◌, refl, sym, ap, ◌∙◌, inl, inr, true, false,
  Option, some, List, [], ◌∷◌, arith, ltb, leb, ltb→lt, leb→le, Bool-cases, length,
}
use hood_sentry.Indexer.PoolBackfill.{
  Address, FactoryPairReader, Origin, Candidate, BackfilledPool, Pool, Store, read_cursor,
  write_cursor, insert_pools, candidates, Lookup, addresses, rows_of, looked_up, Progress, finished,
  backfill_loop, started, run_total, run_backfill,
}

-- The lookup does not throw.
abbrev pub Answers : Lookup → Type 0
Answers lookup =
    (asked : List Address) → (m : Address → Option Origin) × (lookup asked ≡ returned m)

looked_up-returned :
    (lookup : Lookup) (cs : List Candidate)
    → Answers lookup
    → (rows : List BackfilledPool) × (looked_up lookup cs ≡ returned rows)
looked_up-returned lookup [] h = ([], refl)
looked_up-returned lookup (c ∷ cs) h =
    let (m, e) = h (addresses (c ∷ cs)) in (rows_of m (c ∷ cs), rw e refl)

-- What a run that came to its end reports, and where it leaves the cursor.
abbrev Reached : ℕ → ℕ → Progress → Progress → Type 0
Reached total cursor p q =
    (q.scanned ≡ p.scanned + (total - cursor)) × (read_cursor q.store ≡ total)

backfill_loop_reaches :
    (reader : FactoryPairReader) (lookup : Lookup) (known : List Pool)
    (batch_size total fuel cursor : ℕ) (p : Progress)
    → Answers lookup
    → 0 < batch_size
    → cursor ≤ total
    → read_cursor p.store ≡ cursor
    → total - cursor < fuel
    → (q : Progress) × (backfill_loop reader lookup known batch_size total fuel cursor p
        ≡ some (finished q))
      × Reached total cursor p q
unfolding backfill_loop read_cursor
backfill_loop_reaches reader lookup known b total zero cursor p h s l r f =
    absurd (omega (arith, f))
backfill_loop_reaches reader lookup known b total (suc fuel) cursor p h s l r f =
    elim (Bool-cases (ltb cursor total)) [
      | inl y ↦
          let count = min b (total - cursor) in
          let (rows, e) = looked_up-returned lookup (candidates reader known cursor count) h in
          let some_pairs : 0 < count = omega (arith, s, ltb→lt _ _ y) in
          let within : cursor + count ≤ total = omega (arith, l) in
          let pools = insert_pools p.store.factories rows p.store.pools in
          let p' : Progress = record {
            scanned = p.scanned + count;
            inserted = p.inserted + (length pools - length p.store.pools);
            store = write_cursor (cursor + count) (record p.store { pools = pools });
          } in
          let (q, t, (scanned, at)) =
            backfill_loop_reaches reader lookup known b total fuel (cursor + count) p' h s within
              refl (omega (arith, f, some_pairs, within)) in
          (q, rw (y, e) t, (omega (arith, scanned, within), at))
      | inr o ↦
          let done : total ≡ cursor = ground arith in
          (p, rw o refl, (omega (arith, done), r ∙ sym done))
    ]

-- With room for at least one pair in a batch and a lookup that does not throw, a run comes to its
-- end within as many passes as there are pairs left, and one more; it has then scanned each pair
-- from the cursor on, and the cursor stands at the number of pairs, or further if it stood there.
pub run_backfill_reaches :
    (reader : FactoryPairReader) (lookup : Lookup) (batch_size total fuel : ℕ) (s : Store)
    → Answers lookup
    → 0 < batch_size
    → reader.total_pairs ≡ returned total
    → total - read_cursor s < fuel
    → (q : Progress) × (run_backfill reader lookup batch_size fuel s ≡ some (finished q))
      × (q.scanned ≡ total - read_cursor s)
      × (read_cursor q.store ≡ max total (read_cursor s))
unfolding run_backfill
run_backfill_reaches reader lookup b total fuel s h pos t f =
    elim (Bool-cases (leb total (read_cursor s))) [
      | inl y ↦
          let below : total ≤ read_cursor s = leb→le _ _ y in
          (
            started s,
            ap (run_total reader lookup b fuel s) t ∙ go_none y,
            omega (arith, below),
            omega (arith, below),
          )
      | inr o ↦
          let above : read_cursor s ≤ total = ground arith in
          let (q, e, (scanned, reached)) =
            backfill_loop_reaches reader lookup s.pools b total fuel (read_cursor s) (started s) h
              pos above refl f in
          (
            q,
            ap (run_total reader lookup b fuel s) t ∙ go_on q o e,
            omega (arith, scanned),
            omega (arith, reached, above),
          )
    ]
  where
    go_none :
        leb total (read_cursor s) ≡ true
        → run_total reader lookup b fuel s (returned total) ≡ some (finished (started s))
    go_none y = rw y refl

    go_on :
        (q : Progress)
        → leb total (read_cursor s) ≡ false
        → backfill_loop reader lookup s.pools b total fuel (read_cursor s) (started s)
          ≡ some (finished q)
        → run_total reader lookup b fuel s (returned total) ≡ some (finished q)
    go_on q o e = rw o e
