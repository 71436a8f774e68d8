-- ===== src/Rpc/Client/Once.antt =====
-- No provider is called twice for one call of the client.
use hood_sentry.Prelude.{
  ℕ, zero, suc, ◌≡◌, refl, sym, ap, ◌∙◌, subst, inl, inr, true, false, ◌||◌, Option, none, some,
  List, [], ◌∷◌, ◌++◌, arith, if◌then◌else◌, Bool-cases, Option-cases, length,
}
use Prim.Native.String.{String}
use mathlib.Core.Option.{some-injective}
use text.Mathlib.Text.{◌==◌ as str_eq}
use text.Mathlib.TextEquality.{eq_iff}
use hood_sentry.Prelude.{All}
use hood_sentry.Prelude.Dict.{get_value, set_value}
use hood_sentry.Rpc.CircuitBreaker.{CircuitBreakerConfig, can_execute}
use hood_sentry.Rpc.RetryPolicy.{Thrown, Outcome, returned, threw, RetryPolicyConfig, RetryOptions}
use hood_sentry.Rpc.Health.{
  ProviderHealthTracker, record_success, record_failure, record_request, record_failover,
  read_circuit, update_metrics,
}
use hood_sentry.Rpc.Selector.{
  ProviderSelector, listed, select_provider_for_method, select_fallback_provider,
}
use hood_sentry.Rpc.Selector.Fallback.{Keyed, get_value-Keyed, select_fallback_provider-excluded}
use hood_sentry.Rpc.Client.{
  Answer, Call, with_tracker, answered, execute_with_tracker, execute_on_provider, selected,
  select_next_provider, tries, failing_over, handle_provider_error, caught, attempt, after_attempts,
  fresh_call, execute_with_failover, refused,
}

-- No url stands in the list twice.
abbrev pub Distinct : List String → Type 0
Distinct [] = Unit
Distinct (x ∷ xs) = (listed xs x ≡ false) × Distinct xs

str_eq_refl : (u : String) → str_eq u u ≡ true
str_eq_refl u = (eq_iff u u).1 refl

str_eq_sym : (u v : String) → str_eq u v ≡ false → str_eq v u ≡ false
str_eq_sym u v e = elim (Bool-cases (str_eq v u)) [
  | inl y ↦ let back : str_eq u v ≡ true = (eq_iff u v).1 (sym ((eq_iff v u).0 y)) in absurd (cc)
  | inr n ↦ n
]

listed-append :
    (xs : List String) (u v : String) → listed (xs ++ u ∷ []) v ≡ (listed xs v || str_eq u v)
listed-append [] u v = ground arith
listed-append (x ∷ xs) u v = ground (arith, listed-append xs u v)

Distinct-append :
    (xs : List String) (u : String) → Distinct xs → listed xs u ≡ false → Distinct (xs ++ u ∷ [])
Distinct-append [] u d h = (refl, tt)
Distinct-append (x ∷ xs) u (p, d) h =
    let apart : str_eq u x ≡ false = str_eq_sym x u (ground arith) in
    (listed-append xs u x ∙ rw (p, apart) refl, Distinct-append xs u d (ground arith))

record Inv (c : Call) : Type 0 where
  keyed : Keyed c.selector
  distinct : Distinct c.called
  within : (u : String) → listed c.called u ≡ true → listed c.tried_providers u ≡ true

set_value-Keyed :
    (url : String) (t : ProviderHealthTracker) (m : List (String × ProviderHealthTracker))
    → t.health.provider_url ≡ url
    → All (λ e. e.1.health.provider_url ≡ e.0) m
    → All (λ e. e.1.health.provider_url ≡ e.0) (set_value url t m)
unfolding set_value
set_value-Keyed url t [] e h = (e, tt)
set_value-Keyed url t ((k, old) ∷ m) e (p, h) = elim (Bool-cases (str_eq k url)) [
  | inl y ↦ rw y (e ∙ sym ((eq_iff k url).0 y), h)
  | inr n ↦ rw n (p, set_value-Keyed url t m e h)
]

answered_url {ℓ} :
    {A : Type ℓ} (config : CircuitBreakerConfig) (method url : String) (a : Answer A)
    (t : ProviderHealthTracker)
    → (answered config method url a t).health.provider_url ≡ t.health.provider_url
unfolding answered record_success record_failure record_request read_circuit update_metrics
answered_url config method url a t =
    elim a.outcome
      as (λ o.
        (answered config method url (record a { outcome = o }) t).health.provider_url
        ≡ t.health.provider_url) [ returned x ↦ refl | threw e ↦ refl ]

with_tracker-Inv :
    (url : String) (t : ProviderHealthTracker) (c : Call)
    → t.health.provider_url ≡ url
    → Inv c
    → Inv (with_tracker url t c)
with_tracker-Inv url t c e v = record {
  keyed = set_value-Keyed url t c.selector.health_trackers e v.keyed;
  distinct = v.distinct;
  within = v.within;
}

-- The provider that was pushed last is new to the operation.
record IsNext (url : String) (c : Call) : Type 0 where
  inv : Inv c
  uncalled : listed c.called url ≡ false
  tried : listed c.tried_providers url ≡ true

called-Inv :
    (url : String) (c : Call) → IsNext url c → Inv (record c { called = c.called ++ url ∷ [] })
called-Inv url c h = record {
  keyed = h.inv.keyed;
  distinct = Distinct-append c.called url h.inv.distinct h.uncalled;
  within = λ u e. elim (Bool-cases (listed c.called u)) [
    | inl y ↦ h.inv.within u y
    | inr n ↦
        let same : str_eq url u ≡ true = ground (arith, listed-append c.called url u) in
        subst (λ w. listed c.tried_providers w ≡ true) ((eq_iff url u).0 same) h.tried
  ];
}

tries-IsNext :
    (url : String) (c : Call)
    → Inv c
    → listed c.tried_providers url ≡ false
    → IsNext url (tries url c)
tries-IsNext url c v n = record {
  inv = record {
    keyed = v.keyed;
    distinct = v.distinct;
    within = λ u e. listed-append c.tried_providers url u ∙ rw (v.within u e) refl;
  };
  uncalled = elim (Bool-cases (listed c.called url)) [
    | inl y ↦ absurd (let t = v.within url y in cc)
    | inr k ↦ k
  ];
  tried = listed-append c.tried_providers url url ∙ rw (n, str_eq_refl url) refl;
}

module _ {ℓ} {A : Type ℓ} (config : CircuitBreakerConfig) (method : String) (clock : ℕ → ℕ)
    (answers : ℕ → Answer A) where
  execute_with_tracker-Inv :
      (url : String) (t : ProviderHealthTracker) (c : Call)
      → t.health.provider_url ≡ url
      → IsNext url c
      → Inv (execute_with_tracker config method clock answers url t c).0
  unfolding execute_with_tracker
  execute_with_tracker-Inv url t c e h =
      let now = clock (length c.tried_providers) in
      let r = can_execute config now t.circuit_breaker in
      let checked = record t { circuit_breaker = r.0 } in
      let a = answers (length c.called) in
      elim r.1
        as (λ b.
          Inv
            (if b
              then (
                with_tracker url (answered config method url a checked)
                    (record c { called = c.called ++ url ∷ [] }),
                a.outcome,
              )
              else refused {A = A} (with_tracker url checked c)).0) [
                | true ↦
                    with_tracker-Inv url (answered config method url a checked) _
                      (answered_url config method url a checked ∙ e) (called-Inv url c h)
                | false ↦ with_tracker-Inv url checked c e h.inv
              ]

  execute_on_provider-Inv :
      (url : String) (c : Call)
      → IsNext url c
      → Inv (execute_on_provider config method clock answers url c).0
  unfolding execute_on_provider
  execute_on_provider-Inv url c h = elim (Option-cases (get_value url c.selector.health_trackers)) [
    | inl n ↦ rw n h.inv
    | inr (t, e) ↦ rw e (
        execute_with_tracker-Inv url t c
          (get_value-Keyed url c.selector.health_trackers t h.inv.keyed e) h)
  ]

failing_over-IsNext :
    (url : String) (o : Option ProviderHealthTracker) (c : Call)
    → ((t : ProviderHealthTracker) → o ≡ some t → t.health.provider_url ≡ url)
    → IsNext url c
    → IsNext url (failing_over url o c)
unfolding record_failover
failing_over-IsNext url none c f h = h
failing_over-IsNext url (some t) c f h = record {
  inv = with_tracker-Inv url (record_failover t) c (f t refl) h.inv;
  uncalled = h.uncalled;
  tried = h.tried;
}

selected_new :
    (s f : Option String) (tried : List String) (url : String)
    → ((u : String) → f ≡ some u → listed tried u ≡ false)
    → selected s f tried ≡ some url
    → listed tried url ≡ false
selected_new none f tried url h e = cc
selected_new (some u) f tried url h e = elim (Bool-cases (listed tried u)) [
  | inl y ↦ h url (rw y at e)
  | inr n ↦ let same : u ≡ url = some-injective _ _ (rw n at e) in ap (listed tried) (sym same) ∙ n
]

module _ {ℓ} {A : Type ℓ} (config : CircuitBreakerConfig) (method : String) (clock : ℕ → ℕ)
    (answers : ℕ → Answer A) where
  handle_provider_error-Inv :
      (e : Thrown) (c : Call)
      → Inv c
      → Inv (handle_provider_error config method clock answers e c).0
  unfolding handle_provider_error
  handle_provider_error-Inv e c v =
      elim (Option-cases (select_fallback_provider c.selector c.tried_providers)) [
        | inl n ↦ rw n v
        | inr (url, q) ↦ rw q (
            execute_on_provider-Inv config method clock answers url _ (
              failing_over-IsNext url (get_value url c.selector.health_trackers) (tries url c)
                (λ t p. get_value-Keyed url c.selector.health_trackers t v.keyed p)
                (tries-IsNext url c v
                  (select_fallback_provider-excluded c.selector c.tried_providers url v.keyed q))))
      ]

  caught-Inv : (c : Call) (o : Outcome A) → Inv c → Inv (caught config method clock answers c o).0
  caught-Inv c (returned a) v = v
  caught-Inv c (threw e) v = handle_provider_error-Inv e c v

  attempt-Inv : (c : Call) → Inv c → Inv (attempt config method clock answers c).0
  unfolding attempt select_next_provider
  attempt-Inv c v = elim (Option-cases (select_next_provider config method clock answers c)) [
    | inl n ↦ rw n v
    | inr (url, q) ↦
        let fresh : listed c.tried_providers url ≡ false =
          selected_new (select_provider_for_method c.selector method)
            (select_fallback_provider c.selector c.tried_providers) c.tried_providers url
            (λ u p. select_fallback_provider-excluded c.selector c.tried_providers u v.keyed p) q in
        let ran = execute_on_provider config method clock answers url (tries url c) in
        rw q (
          caught-Inv ran.0 ran.1 (
            execute_on_provider-Inv config method clock answers url (tries url c)
              (tries-IsNext url c v fresh)))
  ]

  after_attempts-Inv :
      (c : Call) (n : ℕ) → Inv c → Inv (after_attempts config method clock answers c n)
  unfolding after_attempts
  after_attempts-Inv c zero v = v
  after_attempts-Inv c (suc n) v =
      attempt-Inv (after_attempts config method clock answers c n) (after_attempts-Inv c n v)

-- However often the retry policy calls again, whatever the answers are and whatever the clock says:
-- with every tracker under the url of its provider at the start, a call of the client runs its
-- operation on no provider twice.
pub execute_with_failover-Distinct {ℓ} :
    {A : Type ℓ} (config : CircuitBreakerConfig) (method : String) (clock : ℕ → ℕ)
    (answers : ℕ → Answer A) (policy : RetryPolicyConfig) (options : RetryOptions) (draw : ℕ → ℕ)
    (s : ProviderSelector)
    → Keyed s
    → Distinct (execute_with_failover config method clock answers policy options draw s).1.called
unfolding execute_with_failover
execute_with_failover-Distinct config method clock answers policy options draw s k =
    (after_attempts-Inv config method clock answers (fresh_call s) _
      (record { keyed = k; distinct = tt; within = λ u e. e })).distinct
