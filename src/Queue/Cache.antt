-- ===== src/Queue/Cache.antt =====
-- `RedisCache` of packages/queue/src/cache.ts for one key: any number of callers of `getOrCompute`,
-- whose calls of Redis come in any order. JSON is a parameter, and so is, for each call, whether Redis
-- is reached and what the computation gives (a call that is carried out but whose reply is lost is not
-- modelled); that Redis lets an entry expire is a step of its own.
pub mod Flight
pub mod Values
mod Tests
use hood_sentry.Prelude.{
  ℕ, zero, suc, ◌+◌, ◌-◌, ◌*◌, ◌/◌, ◌%◌, ◌^◌, ◌≤◌, ◌<◌, min, max, ◌≡◌, refl, sym, ap, ◌∙◌, subst,
  ◌≢◌, ◌↔◌, ◌⊎◌, inl, inr, Bool, true, false, not, ◌&&◌, ◌||◌, Option, none, some, List, [], ◌∷◌,
  ◌++◌, map, arith, ltb, leb, ◌==◌, if◌then◌else◌, ltb→lt, lt→ltb, leb→le, ==_iff, tests,
  Bool-cases, Option-cases, length, get_elem?, set, get_or, take, drop, replicate, length-append,
  length-take, length-drop, length-map, length-replicate,
}
use Prim.Native.String.{String}
use hood_sentry.Prelude.Attempt.{Attempt, threw, returned}

-- `JSON.stringify`, `JSON.parse` where it does not throw, `cacheIf`, and the longest wait.
pub record Cache (V : Type 0) : Type 0 where
  pub stringify : V → String
  pub parse : String → Option V
  pub cache_if : V → Bool
  pub lock_wait_ms : ℕ

-- The entry of the key, and whether that of its lock is there.
pub record Redis : Type 0 where
  pub value : Option String
  pub locked : Bool

-- Where a caller stands: before its first read; before it takes the lock; in the wait for another
-- caller up to a deadline; in the computation; before its write; before its release of the lock; or
-- with its result. The flag is that it took the lock.
pub data Caller (V : Type 0) : Type 0 where
  reading : Caller V
  locking : Caller V
  waiting : ℕ → Caller V
  computing : Bool → Caller V
  writing : V → Bool → Caller V
  releasing : Attempt V → Bool → Caller V
  done : Attempt V → Caller V

-- What a caller meets in one step.
pub record Reply (V : Type 0) : Type 0 where
  pub reached : Bool
  pub now : ℕ
  pub computed : Attempt V

module _ {V : Type 0} where
  -- `read`: undefined on a miss, on text that does not parse, or if Redis is not reached.
  unfoldable pub read : Cache V → Bool → Redis → Option V
  read c false r = none
  read c true r = elim r.value [ none ↦ none | some raw ↦ c.parse raw ]

  unfoldable pub write : Cache V → Bool → V → Redis → Redis
  write c reached v r = if reached then record r { value = some (c.stringify v) } else r

  abbrev pub on_read : Option V → Caller V → Caller V
  on_read none next = next
  on_read (some v) next = done (returned v)

  -- `acquire`, and the wait if it has not taken the lock: also if Redis is not reached.
  abbrev pub on_acquire : Cache V → Reply V → Redis → Caller V × Redis
  on_acquire c e r =
      if e.reached && not r.locked
      then (computing true, record r { locked = true })
      else (waiting (e.now + c.lock_wait_ms), r)

  abbrev pub on_computed : Cache V → Attempt V → Bool → Caller V
  on_computed c threw lock = releasing threw lock
  on_computed c (returned v) lock =
      if c.cache_if v then writing v lock else releasing (returned v) lock

  -- The next call of a caller. In the wait, `now` is the time of the test before the pause.
  unfoldable pub step : Cache V → Reply V → Caller V → Redis → Caller V × Redis
  unfolding read write
  step c e reading r = (on_read (read c e.reached r) locking, r)
  step c e locking r = on_acquire c e r
  step c e (waiting deadline) r = (
    if ltb e.now deadline then on_read (read c e.reached r) (waiting deadline) else computing false,
    r,
  )
  step c e (computing lock) r = (on_computed c e.computed lock, r)
  step c e (writing v lock) r = (releasing (returned v) lock, write c e.reached v r)
  step c e (releasing result lock) r =
      (done result, if lock && e.reached then record r { locked = false } else r)
  step c e (done result) r = (done result, r)

-- A step of one caller, by its place; `set` of a value from elsewhere; or an entry that expires.
pub data Event (V : Type 0) : Type 0 where
  call : ℕ → Reply V → Event V
  set_directly : Bool → V → Event V
  value_expires : Event V
  lock_expires : Event V

pub record Shared (V : Type 0) : Type 0 where
  pub callers : List (Caller V)
  pub redis : Redis

module _ {V : Type 0} where
  abbrev pub called : Cache V → ℕ → Reply V → Shared V → Option (Caller V) → Shared V
  called c k e s none = s
  called c k e s (some pc) =
      let (pc', r) = step c e pc s.redis in record { callers = set s.callers k pc'; redis = r }

  unfoldable pub happen : Cache V → Event V → Shared V → Shared V
  unfolding step
  happen c (call k e) s = called c k e s (get_elem? s.callers k)
  happen c (set_directly reached v) s = record s { redis = write c reached v s.redis }
  happen c value_expires s = record s { redis = record s.redis { value = none } }
  happen c lock_expires s = record s { redis = record s.redis { locked = false } }

  unfoldable pub happen_all : Cache V → List (Event V) → Shared V → Shared V
  unfolding happen
  happen_all c [] s = s
  happen_all c (e ∷ es) s = happen_all c es (happen c e s)

  abbrev pub callers_of : ℕ → List (Caller V)
  callers_of n = replicate n reading
