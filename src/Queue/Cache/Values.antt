-- ===== src/Queue/Cache/Values.antt =====
-- Where the results of the cache come from, and what it costs when Redis is not reached.
use hood_sentry.Prelude.{
  length-set, get_elem?-set_self, ℕ, zero, suc, ◌≤◌, ◌<◌, ◌≡◌, refl, sym, ap, ◌∙◌, subst, inl, inr,
  Bool, true, false, ◌&&◌, Option, none, some, List, [], ◌∷◌, arith, ltb, if◌then◌else◌, Bool-cases,
  length, get_elem?, set, All,
}
use Prim.Native.String.{String}
use hood_sentry.Prelude.{not, ◌+◌}
use hood_sentry.Queue.Cache.Flight.{get_elem?-bound}
use mathlib.Core.Option.{some-injective}
use hood_sentry.Prelude.Attempt.{Attempt, threw, returned}
use hood_sentry.Queue.Cache.{
  Cache, Redis, Caller, reading, locking, waiting, computing, writing, releasing, done, Reply, read,
  write, on_read, on_acquire, on_computed, step, Event, call, set_directly, value_expires,
  lock_expires, Shared, called, happen, happen_all, callers_of,
}

-- What `JSON.parse` gives for the text of a value is the value.
abbrev pub IsRoundTrip : {V : Type 0} → Cache V → Type 0
IsRoundTrip {V} c = (v : V) → c.parse (c.stringify v) ≡ some v

module _ {V : Type 0} (P : V → Type 0) where
  abbrev pub Gives : Attempt V → Type 0
  Gives threw = Unit
  Gives (returned v) = P v

  abbrev CallerGives : Caller V → Type 0
  CallerGives (writing v lock) = P v
  CallerGives (releasing result lock) = Gives result
  CallerGives (done result) = Gives result
  CallerGives _ = Unit

  -- The computations, and the values set directly, have the property.
  abbrev pub EventGives : Event V → Type 0
  EventGives (call k e) = Gives e.computed
  EventGives (set_directly reached v) = P v
  EventGives _ = Unit

  -- Whatever the text of the entry parses to has the property.
  abbrev pub EntryGives : Cache V → Option String → Type 0
  EntryGives c none = Unit
  EntryGives c (some raw) = (v : V) → c.parse raw ≡ some v → P v

  record Inv (c : Cache V) (s : Shared V) : Type 0 where
    entry : EntryGives c s.redis.value
    callers : All CallerGives s.callers

  All-set :
      (pcs : List (Caller V)) (k : ℕ) (pc : Caller V)
      → CallerGives pc
      → All CallerGives pcs
      → All CallerGives (set pcs k pc)
  All-set [] k pc p h = tt
  All-set (x ∷ pcs) zero pc p (q, h) = (p, h)
  All-set (x ∷ pcs) (suc k) pc p (q, h) = (q, All-set pcs k pc p h)

  All-get_elem? :
      (pcs : List (Caller V)) (k : ℕ) (pc : Caller V)
      → All CallerGives pcs
      → get_elem? pcs k ≡ some pc
      → CallerGives pc
  All-get_elem? [] k pc h e = cc
  All-get_elem? (x ∷ pcs) zero pc (p, h) e = subst CallerGives (some-injective _ _ e) p
  All-get_elem? (x ∷ pcs) (suc k) pc (p, h) e = All-get_elem? pcs k pc h e

  read-Gives :
      (c : Cache V) (reached : Bool) (r : Redis) (next : Caller V)
      → EntryGives c r.value
      → CallerGives next
      → CallerGives (on_read (read c reached r) next)
  unfolding read
  read-Gives c false r next h n = n
  read-Gives c true r next h n = go r.value h
    where
      parsed : (o : Option V) → ((v : V) → o ≡ some v → P v) → CallerGives (on_read o next)
      parsed none f = n
      parsed (some v) f = f v refl

      go :
          (o : Option String)
          → EntryGives c o
          → CallerGives (on_read (elim o [ none ↦ none | some raw ↦ c.parse raw ]) next)
      go none k = n
      go (some raw) k = parsed (c.parse raw) k

  computed-Gives :
      (c : Cache V) (a : Attempt V) (lock : Bool) → Gives a → CallerGives (on_computed c a lock)
  computed-Gives c threw lock g = tt
  computed-Gives c (returned v) lock g = elim (Bool-cases (c.cache_if v)) [
    | inl y ↦ rw y g
    | inr o ↦ rw o g
  ]

  acquire-Gives : (c : Cache V) (e : Reply V) (r : Redis) → CallerGives (on_acquire c e r).0
  acquire-Gives c e r = elim (Bool-cases (e.reached && not r.locked)) [
    | inl y ↦ rw y tt
    | inr o ↦ rw o tt
  ]

  acquire-entry : (c : Cache V) (e : Reply V) (r : Redis) → (on_acquire c e r).1.value ≡ r.value
  acquire-entry c e r = elim (Bool-cases (e.reached && not r.locked)) [
    | inl y ↦ rw y refl
    | inr o ↦ rw o refl
  ]

  write-Gives :
      (c : Cache V) (reached : Bool) (v : V) (r : Redis)
      → IsRoundTrip c
      → P v
      → EntryGives c r.value
      → EntryGives c (write c reached v r).value
  unfolding write
  write-Gives c false v r trip p h = h
  write-Gives c true v r trip p h = λ w e. subst P (some-injective _ _ (sym (trip v) ∙ e)) p

  step-Gives :
      (c : Cache V) (e : Reply V) (pc : Caller V) (r : Redis)
      → IsRoundTrip c
      → Gives e.computed
      → CallerGives pc
      → EntryGives c r.value
      → CallerGives (step c e pc r).0 × EntryGives c (step c e pc r).1.value
  unfolding step
  step-Gives c e reading r trip g p h = (read-Gives c e.reached r locking h tt, h)
  step-Gives c e locking r trip g p h =
      (acquire-Gives c e r, subst (EntryGives c) (sym (acquire-entry c e r)) h)
  step-Gives c e (waiting d) r trip g p h = elim (Bool-cases (ltb e.now d)) [
    | inl y ↦ rw y (read-Gives c e.reached r (waiting d) h tt, h)
    | inr o ↦ rw o (tt, h)
  ]
  step-Gives c e (computing lock) r trip g p h = (computed-Gives c e.computed lock g, h)
  step-Gives c e (writing v lock) r trip g p h = (p, write-Gives c e.reached v r trip p h)
  step-Gives c e (releasing result lock) r trip g p h = (p, released (lock && e.reached))
    where
      released :
          (b : Bool)
          → EntryGives c (if b then (let x : Redis = record r { locked = false } in x) else r).value
      released true = h
      released false = h
  step-Gives c e (done result) r trip g p h = (p, h)

  happen-Inv :
      (c : Cache V) (e : Event V) (s : Shared V)
      → IsRoundTrip c
      → EventGives e
      → Inv c s
      → Inv c (happen c e s)
  unfolding happen
  happen-Inv c (call k e) s trip g inv = go (get_elem? s.callers k) refl
    where
      go : (o : Option (Caller V)) → get_elem? s.callers k ≡ o → Inv c (called c k e s o)
      go none q = inv
      go (some pc) q =
          let (p, h) =
            step-Gives c e pc s.redis trip g (All-get_elem? s.callers k pc inv.callers q)
              inv.entry in
          record { entry = h; callers = All-set s.callers k (step c e pc s.redis).0 p inv.callers }
  happen-Inv c (set_directly reached v) s trip g inv = record {
    entry = write-Gives c reached v s.redis trip g inv.entry;
    callers = inv.callers;
  }
  happen-Inv c value_expires s trip g inv = record { entry = tt; callers = inv.callers }
  happen-Inv c lock_expires s trip g inv = record { entry = inv.entry; callers = inv.callers }

  happen_all-Inv :
      (c : Cache V) (es : List (Event V)) (s : Shared V)
      → IsRoundTrip c
      → All EventGives es
      → Inv c s
      → Inv c (happen_all c es s)
  unfolding happen_all
  happen_all-Inv c [] s trip g inv = inv
  happen_all-Inv c (e ∷ es) s trip (g, gs) inv =
      happen_all-Inv c es (happen c e s) trip gs (happen-Inv c e s trip g inv)

  start-Inv :
      (c : Cache V) (n : ℕ) (r : Redis)
      → EntryGives c r.value
      → Inv c (record { callers = callers_of n; redis = r })
  start-Inv c n r h = record { entry = h; callers = all_reading n }
    where
      all_reading : (n : ℕ) → All CallerGives (callers_of n)
      all_reading zero = tt
      all_reading (suc n) = (tt, all_reading n)

  -- A value that reads back from its text as it was comes from nowhere else than a computation, a
  -- value set directly or the entry that was there: if all of these have a property, every result of
  -- any number of callers has it, whatever their order, the failures of Redis and the entries that
  -- expire.
  pub results-Gives :
      (c : Cache V) (n k : ℕ) (r : Redis) (es : List (Event V)) (result : Attempt V)
      → IsRoundTrip c
      → EntryGives c r.value
      → All EventGives es
      → get_elem? (happen_all c es (record { callers = callers_of n; redis = r })).callers k
        ≡ some (done result)
      → Gives result
  results-Gives c n k r es result trip h g q =
      let s = happen_all c es (record { callers = callers_of n; redis = r }) in
      let inv =
        happen_all-Inv c es (record { callers = callers_of n; redis = r }) trip g
          (start-Inv c n r h) in
      All-get_elem? s.callers k (done result) inv.callers q

module _ {V : Type 0} where
  -- If Redis is not reached, a caller that asks for the lock waits as if another had it.
  pub unreached_waits :
      (c : Cache V) (s : Shared V) (k : ℕ) (e : Reply V)
      → get_elem? s.callers k ≡ some locking
      → e.reached ≡ false
      → get_elem? (happen c (call k e) s).callers k ≡ some (waiting (e.now + c.lock_wait_ms))
  unfolding happen step
  unreached_waits c s k e q o =
      ap (λ p. get_elem? (called c k e s p).callers k) q
      ∙ rw o (
          get_elem?-set_self s.callers k (waiting (e.now + c.lock_wait_ms))
            (get_elem?-bound s.callers k q))

  -- A caller that waits for another goes on to compute by itself once the deadline is over, without
  -- the lock, so that a holder that never ends stalls nobody else.
  pub waiter_computes :
      (c : Cache V) (s : Shared V) (k deadline : ℕ) (e f : Reply V)
      → get_elem? s.callers k ≡ some (waiting deadline)
      → deadline ≤ e.now
      → get_elem? (happen_all c (call k e ∷ call k f ∷ []) s).callers k
        ≡ some (on_computed c f.computed false)
  unfolding happen_all happen step
  waiter_computes c s k deadline e f q l =
      let over : ltb e.now deadline ≡ false = ground arith in
      let next : Shared V = record {
        callers = set s.callers k (computing false);
        redis = s.redis;
      } in
      let long : k < length s.callers = get_elem?-bound s.callers k q in
      let first : happen c (call k e) s ≡ next = ap (called c k e s) q ∙ rw over refl in
      let there : get_elem? next.callers k ≡ some (computing false) =
        get_elem?-set_self s.callers k (computing false) long in
      ap (λ (x : Shared V). get_elem? (happen c (call k f) x).callers k) first
      ∙ ap (λ o. get_elem? (called c k f next o).callers k) there
      ∙ get_elem?-set_self next.callers k (on_computed c f.computed false)
          (rw (length-set s.callers k (computing false)) long)
