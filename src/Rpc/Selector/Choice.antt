-- ===== src/Rpc/Selector/Choice.antt =====
-- Which provider is chosen.
use hood_sentry.Prelude.Dict.{get_value}
use hood_sentry.Prelude.{
  ℕ, ◌*◌, ◌≤◌, ◌<◌, ◌≡◌, refl, sym, ap, ◌∙◌, subst, inl, inr, Bool, true, false, not, ◌||◌, Option,
  none, some, List, [], ◌∷◌, arith, if◌then◌else◌, Bool-cases, length, Memᴰ-All, All, All-append,
  sort_by, Sorted, IsOrder, then_by-IsOrder, by_key-IsOrder, All-sort_by, sort_by-Sorted,
  sort_by-Memᴰ, length-sort_by, mul_mono, mul_cancel,
}
use Prim.Native.String.{String}
use mathlib.Core.List.{Memᴰ}
use mathlib.Core.Option.{some-injective}
use hood_sentry.Rpc.BlockLag.{get_lag}
use hood_sentry.Rpc.Health.{under, ProviderHealth, ProviderHealthTracker, is_healthy}
use hood_sentry.Rpc.Selector.{
  ProviderSelector, is_capable, healthy_health, pushed, add_provider_if_eligible,
  add_archive_provider_if_eligible, where_given, get_candidate_providers, latency_or_max,
  lower_rate, preferred, compare_providers, first_url, select_provider,
}

cross_le : (a b c u v w : ℕ) → 0 < v → a * v ≤ b * u → b * w ≤ c * v → a * w ≤ c * u
cross_le a b c u v w p h k = mul_cancel (a * w) (c * u) v p (
    grind (
      arith,
      mul_mono (a * v) (b * u) w w h (omega arith),
      mul_mono (b * w) (c * v) u u k (omega arith),
    ))

lower_rate_le :
    (a b : ProviderHealth)
    → lower_rate b a ≡ false
    → a.error_rate.over * under b.error_rate ≤ b.error_rate.over * under a.error_rate
unfolding lower_rate
lower_rate_le a b h = ground arith

le-lower_rate :
    (a b : ProviderHealth)
    → a.error_rate.over * under b.error_rate ≤ b.error_rate.over * under a.error_rate
    → lower_rate b a ≡ false
unfolding lower_rate
le-lower_rate a b h = ground arith

lower_rate_asym : (a b : ProviderHealth) → lower_rate a b ≡ true → lower_rate b a ≡ false
unfolding lower_rate
lower_rate_asym a b h = ground arith

lower_rate-IsOrder : IsOrder lower_rate
lower_rate-IsOrder = record {
  asym = lower_rate_asym;
  trans = λ a b c h k. le-lower_rate a c (
      cross_le a.error_rate.over b.error_rate.over c.error_rate.over (under a.error_rate)
        (under b.error_rate) (under c.error_rate) (omega arith) (lower_rate_le a b h)
        (lower_rate_le b c k));
}

preferred-IsOrder : (prefer : Bool) → IsOrder (preferred prefer)
unfolding preferred
preferred-IsOrder prefer = record {
  asym = λ a b h. ground arith;
  trans = λ a b c h k. ground arith;
}

-- The comparison of providers is consistent, so sorting by it has one meaning.
compare_providers-IsOrder : (s : ProviderSelector) → IsOrder (compare_providers s)
unfolding compare_providers
compare_providers-IsOrder s =
    then_by-IsOrder _ _ (by_key-IsOrder (λ h. get_lag s.block_lag_monitor h.provider_url)) (
      then_by-IsOrder _ _ (by_key-IsOrder latency_or_max) (
        then_by-IsOrder _ _ lower_rate-IsOrder (
          then_by-IsOrder _ _ (by_key-IsOrder (λ h. h.consecutive_failures))
            (preferred-IsOrder s.config.prefer_primary))))

-- A provider that may be chosen: its tracker calls it healthy and, where the archive is required, it
-- is known to be capable of it.
pub record IsFit (require : Bool) (h : ProviderHealth) : Type 0 where
  pub healthy : is_healthy h ≡ true
  pub capable : (not require || is_capable h.archive_capable) ≡ true

pushed-IsFit :
    (require : Bool) (o : Option ProviderHealthTracker)
    → All (IsFit require) (pushed require (healthy_health o))
pushed-IsFit require none = tt
pushed-IsFit require (some t) = elim (Bool-cases (is_healthy t.health)) [
  | inl healthy ↦
      rw healthy (elim (Bool-cases (not require || is_capable t.health.archive_capable)) [
        | inl capable ↦ rw capable (record { healthy = healthy; capable = capable }, tt)
        | inr n ↦ rw n tt
      ])
  | inr n ↦ rw n tt
]

where_given-All :
    (P : ProviderHealth → Type 0) (o : Option String) (f : String → List ProviderHealth)
    → ((url : String) → All P (f url))
    → All P (where_given o f)
where_given-All P none f h = tt
where_given-All P (some url) f h = h url

archive_part-All :
    (s : ProviderSelector) (require : Bool)
    → All
        (IsFit require)
        (if require then where_given s.archive_url (add_archive_provider_if_eligible s) else [])
unfolding add_archive_provider_if_eligible
archive_part-All s true =
    where_given-All _ s.archive_url _ (λ url. pushed-IsFit true (get_value url s.health_trackers))
archive_part-All s false = tt

get_candidate_providers-All :
    (s : ProviderSelector) (require : Bool)
    → All (IsFit require) (get_candidate_providers s require)
unfolding get_candidate_providers add_provider_if_eligible
get_candidate_providers-All s require =
    All-append (IsFit require) _ _
      (All-append (IsFit require) (add_provider_if_eligible s s.primary_url require) _
        (pushed-IsFit require (get_value s.primary_url s.health_trackers))
        (where_given-All (IsFit require) s.secondary_url _
          (λ url. pushed-IsFit require (get_value url s.health_trackers))))
      (archive_part-All s require)

-- The choice from a list of candidates: none if there are none, else one that no candidate is before.
pub record Best (s : ProviderSelector) (candidates : List ProviderHealth) (h : ProviderHealth)
    : Type 0 where
  pub candidate : Memᴰ h candidates
  pub first : All (λ k. compare_providers s k h ≡ false) candidates

abbrev pub Chosen : (s : ProviderSelector) → List ProviderHealth → Option String → Type 0
Chosen s candidates none = candidates ≡ []
Chosen s candidates (some url) = (h : ProviderHealth) × (h.provider_url ≡ url) × Best s candidates h

compare_self : (s : ProviderSelector) (h : ProviderHealth) → compare_providers s h h ≡ false
compare_self s h = elim (Bool-cases (compare_providers s h h)) [
  | inl e ↦ (compare_providers-IsOrder s).asym h h e
  | inr e ↦ e
]

nothing : (xs : List ProviderHealth) → length xs ≡ 0 → xs ≡ []
nothing [] e = refl
nothing (x ∷ xs) e = absurd (omega arith)

pub chosen :
    (s : ProviderSelector) (hs : List ProviderHealth)
    → Chosen s hs (first_url (sort_by (compare_providers s) hs))
chosen s hs = go (sort_by (compare_providers s) hs) refl
  where
    before : ProviderHealth → ProviderHealth → Bool
    before = compare_providers s

    go : (ks : List ProviderHealth) → sort_by before hs ≡ ks → Chosen s hs (first_url ks)
    go [] e = nothing hs (sym (length-sort_by before hs) ∙ ap length e)
    go (k ∷ ks) e =
        let sorted : Sorted before (k ∷ ks) =
          subst (Sorted before) e (sort_by-Sorted before (compare_providers-IsOrder s) hs) in
        let (later, rest) = sorted in
        (
          k,
          refl,
          record {
            candidate = sort_by-Memᴰ before hs (subst (Memᴰ k) (sym e) (Memᴰ.head refl));
            first =
                All-sort_by before (λ j. before j k ≡ false) hs
                  (subst (All (λ j. before j k ≡ false)) (sym e) (compare_self s k, later));
          },
        )

pub Chosen-some :
    (s : ProviderSelector) (hs : List ProviderHealth) (o : Option String) (url : String)
    → Chosen s hs o
    → o ≡ some url
    → (h : ProviderHealth) × (h.provider_url ≡ url) × Best s hs h
Chosen-some s hs none url c e = cc
Chosen-some s hs (some u) url (h, same, best) e = (h, same ∙ some-injective _ _ e, best)

-- The provider that is chosen is healthy, is known to be capable of the archive where that is asked
-- for, and no other candidate is better by lag, then latency, then error rate, then failures in a
-- row, then (where that is preferred) by being the primary one.
pub select_provider-Best :
    (s : ProviderSelector) (require : Bool) (url : String)
    → select_provider s require ≡ some url
    → (h : ProviderHealth) × (h.provider_url ≡ url)
      × IsFit require h
      × Best s (get_candidate_providers s require) h
unfolding select_provider
select_provider-Best s require url e =
    let hs = get_candidate_providers s require in
    let (h, same, best) = Chosen-some s hs _ url (chosen s hs) e in
    (
      h,
      same,
      Memᴰ-All (IsFit require) hs (get_candidate_providers-All s require) best.candidate,
      best,
    )
