-- ===== src/Queue/Cache/Flight.antt =====
-- One caller at a time holds the lock of a key, while it does not expire.
use hood_sentry.Queue.Cache.{
  String, Cache, Redis, Caller, reading, locking, waiting, computing, writing, releasing, done,
  Reply, read, write, on_read, on_acquire, on_computed, step, Event, call, set_directly,
  value_expires, lock_expires, Shared, called, happen, happen_all, callers_of,
}
use hood_sentry.Prelude.{
  get_elem?-set_ne, ℕ, zero, suc, ◌+◌, ◌≤◌, ◌≡◌, refl, ap, ◌∙◌, ◌≢◌, ◌⊎◌, inl, inr, Bool, true,
  false, ◌&&◌, Option, none, some, List, [], ◌∷◌, arith, ltb, if◌then◌else◌, Bool-cases, get_elem?,
  set, All,
}
use hood_sentry.Prelude.{get_elem?-set_self, sym, subst, length, ◌<◌}
use mathlib.Core.Option.{some-injective}
use hood_sentry.Prelude.Attempt.{Attempt, threw, returned}

abbrev pub bit : Bool → ℕ
bit true = 1
bit false = 0

-- A step takes the lock only if it is free, and frees it only if the caller took it.
abbrev Moves : ℕ → ℕ → ℕ → ℕ → Type 0
Moves h h' l l' = (h' + l ≤ h + l') ⊎ ((h ≡ 1) × (h' ≡ 0))

released-Moves :
    (lock reached locked : Bool) (value : Option String)
    → Moves (bit lock) 0 (bit locked) (
        bit
          (if lock && reached
            then (let r : Redis = record { value = value; locked = false } in r)
            else record { value = value; locked = locked }).locked)
released-Moves true reached locked value = inr (refl, refl)
released-Moves false reached locked value = inl (omega arith)

bit_bound : (b : Bool) → bit b ≤ 1
bit_bound true = omega arith
bit_bound false = omega arith

module _ {V : Type 0} where
  -- The caller took the lock and has not released it.
  abbrev pub holds : Caller V → Bool
  holds (computing lock) = lock
  holds (writing v lock) = lock
  holds (releasing result lock) = lock
  holds _ = false

  abbrev pub holders : List (Caller V) → ℕ
  holders [] = 0
  holders (pc ∷ pcs) = bit (holds pc) + holders pcs

  abbrev pub IsKept : Event V → Type 0
  IsKept lock_expires = ⊥
  IsKept _ = Unit

  holders-set :
      (pcs : List (Caller V)) (k : ℕ) (pc pc' : Caller V)
      → get_elem? pcs k ≡ some pc
      → holders (set pcs k pc') + bit (holds pc) ≡ holders pcs + bit (holds pc')
  holders-set [] k pc pc' e = absurd (cc)
  holders-set (x ∷ pcs) zero pc pc' e =
      let same : x ≡ pc = some-injective _ _ e in rw same (omega arith)
  holders-set (x ∷ pcs) (suc k) pc pc' e = omega (arith, holders-set pcs k pc pc' e)

  on_read_free :
      (o : Option V) (next : Caller V) → holds next ≡ false → holds (on_read o next) ≡ false
  on_read_free none next h = h
  on_read_free (some v) next h = refl

  on_computed_keeps :
      (c : Cache V) (a : Attempt V) (lock : Bool) → holds (on_computed c a lock) ≡ lock
  on_computed_keeps c threw lock = refl
  on_computed_keeps c (returned v) lock = elim (Bool-cases (c.cache_if v)) [
    | inl y ↦ rw y refl
    | inr o ↦ rw o refl
  ]

  write_keeps :
      (c : Cache V) (reached : Bool) (v : V) (r : Redis) → (write c reached v r).locked ≡ r.locked
  unfolding write
  write_keeps c true v r = refl
  write_keeps c false v r = refl

  abbrev StepMoves : Cache V → Reply V → Caller V → Redis → Type 0
  StepMoves c e pc r =
      Moves (bit (holds pc)) (bit (holds (step c e pc r).0)) (bit r.locked)
        (bit (step c e pc r).1.locked)

  on_acquire-Moves :
      (c : Cache V) (reached locked : Bool) (now : ℕ) (a : Attempt V) (value : Option String)
      → let r : Redis = record { value = value; locked = locked } in
        let e : Reply V = record { reached = reached; now = now; computed = a } in
        Moves 0 (bit (holds (on_acquire c e r).0)) (bit locked) (bit (on_acquire c e r).1.locked)
  on_acquire-Moves c true true now a value = inl (omega arith)
  on_acquire-Moves c true false now a value = inl (omega arith)
  on_acquire-Moves c false true now a value = inl (omega arith)
  on_acquire-Moves c false false now a value = inl (omega arith)

  step_moves : (c : Cache V) (e : Reply V) (pc : Caller V) (r : Redis) → StepMoves c e pc r
  unfolding step
  step_moves c e reading r = inl (rw (on_read_free (read c e.reached r) locking refl) (omega arith))
  step_moves c e locking r = on_acquire-Moves c e.reached r.locked e.now e.computed r.value
  step_moves c e (waiting d) r = elim (Bool-cases (ltb e.now d)) [
    | inl y ↦ inl (rw (y, on_read_free (read c e.reached r) (waiting d) refl) (omega arith))
    | inr o ↦ inl (rw o (omega arith))
  ]
  step_moves c e (computing lock) r = inl (rw (on_computed_keeps c e.computed lock) (omega arith))
  step_moves c e (writing v lock) r = inl (rw (write_keeps c e.reached v r) (omega arith))
  step_moves c e (releasing result lock) r = released-Moves lock e.reached r.locked r.value
  step_moves c e (done result) r = inl (omega arith)

  abbrev pub IsExclusive : Shared V → Type 0
  IsExclusive s = holders s.callers ≤ bit s.redis.locked

  called-IsExclusive :
      (c : Cache V) (k : ℕ) (e : Reply V) (s : Shared V) (o : Option (Caller V))
      → get_elem? s.callers k ≡ o
      → IsExclusive s
      → IsExclusive (called c k e s o)
  called-IsExclusive c k e s none q h = h
  called-IsExclusive c k e s (some pc) q h =
      let next = (step c e pc s.redis).0 in
      let moved = holders-set s.callers k pc next q in
      elim (step_moves c e pc s.redis) [
        | inl m ↦ omega (arith, m, moved, h)
        | inr (a, b) ↦ omega (arith, a, b, moved, h, bit_bound s.redis.locked)
      ]

  happen-IsExclusive :
      (c : Cache V) (e : Event V) (s : Shared V)
      → IsKept e
      → IsExclusive s
      → IsExclusive (happen c e s)
  unfolding happen
  happen-IsExclusive c (call k e) s kept h =
      called-IsExclusive c k e s (get_elem? s.callers k) refl h
  happen-IsExclusive c (set_directly reached v) s kept h = rw (write_keeps c reached v s.redis) h
  happen-IsExclusive c value_expires s kept h = h
  happen-IsExclusive c lock_expires s kept h = elim kept [ ]

  run-IsExclusive :
      (c : Cache V) (es : List (Event V)) (s : Shared V)
      → All IsKept es
      → IsExclusive s
      → IsExclusive (happen_all c es s)
  unfolding happen_all
  run-IsExclusive c [] s kept h = h
  run-IsExclusive c (e ∷ es) s (k, kept) h =
      run-IsExclusive c es (happen c e s) kept (happen-IsExclusive c e s k h)

start-holders : (V : Type 0) (n : ℕ) → holders (callers_of {V = V} n) ≡ 0
start-holders V zero = refl
start-holders V (suc n) = omega (arith, start-holders V n)

module _ {V : Type 0} where
  -- While the lock of the key does not expire, of any number of callers, in any order of their calls
  -- and whether or not Redis is reached at each of them, at most one has the lock, and none has it
  -- while it is free.
  pub happen_all-IsExclusive :
      (c : Cache V) (n : ℕ) (r : Redis) (es : List (Event V))
      → All IsKept es
      → let s = happen_all c es (record { callers = callers_of n; redis = r }) in
        holders s.callers ≤ bit s.redis.locked
  happen_all-IsExclusive c n r es kept =
      run-IsExclusive c es (record { callers = callers_of n; redis = r }) kept
        (rw (start-holders V n) (omega arith))

  pub get_elem?-bound :
      (pcs : List (Caller V)) (k : ℕ) {pc : Caller V} → get_elem? pcs k ≡ some pc → k < length pcs
  get_elem?-bound [] k e = cc
  get_elem?-bound (x ∷ pcs) zero e = omega arith
  get_elem?-bound (x ∷ pcs) (suc k) e = omega (arith, get_elem?-bound pcs k e)

  -- The caller at a place holds the lock.
  abbrev pub HoldsAt : Shared V → ℕ → Type 0
  HoldsAt s k = (pc : Caller V) × (get_elem? s.callers k ≡ some pc) × (holds pc ≡ true)

  -- The release does not look at whose lock it deletes. A caller that took the lock before it expired
  -- releases it while another holds it, and a third asks for it: then the third holds it beside the
  -- other, which is still at work.
  pub release_frees :
      (c : Cache V) (s : Shared V) (k j m : ℕ) (result : Attempt V) (e f : Reply V)
      → get_elem? s.callers k ≡ some (releasing result true)
      → HoldsAt s j
      → get_elem? s.callers m ≡ some locking
      → k ≢ j
      → k ≢ m
      → m ≢ j
      → e.reached ≡ true
      → f.reached ≡ true
      → HoldsAt (happen_all c (call k e ∷ call m f ∷ []) s) j
        × HoldsAt (happen_all c (call k e ∷ call m f ∷ []) s) m
  unfolding happen_all happen step
  release_frees c s k j m result e f p (pc, q, holding) asks kj km mj g h =
      let freed : Shared V = record {
        callers = set s.callers k (done result);
        redis = record s.redis { locked = false };
      } in
      let taken : Shared V = record {
        callers = set freed.callers m (computing true);
        redis = record s.redis { locked = true };
      } in
      let there : get_elem? freed.callers m ≡ some locking =
        get_elem?-set_ne s.callers (done result) km ∙ asks in
      let releases : happen c (call k e) s ≡ freed = ap (called c k e s) p ∙ rw g refl in
      let acquires : happen c (call m f) freed ≡ taken =
        ap (called c m f freed) there ∙ rw h refl in
      let both : happen_all c (call k e ∷ call m f ∷ []) s ≡ taken =
        ap (λ (x : Shared V). happen c (call m f) x) releases ∙ acquires in
      let other : get_elem? taken.callers j ≡ some pc =
        get_elem?-set_ne freed.callers (computing true) mj
        ∙ get_elem?-set_ne s.callers (done result) kj
        ∙ q in
      let third : get_elem? taken.callers m ≡ some (computing true) =
        get_elem?-set_self freed.callers m (computing true)
          (get_elem?-bound freed.callers m there) in
      (
        subst (λ (x : Shared V). HoldsAt x j) (sym both) (pc, other, holding),
        subst (λ (x : Shared V). HoldsAt x m) (sym both) (computing true, third, refl),
      )
