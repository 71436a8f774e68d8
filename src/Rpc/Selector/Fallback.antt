-- ===== src/Rpc/Selector/Fallback.antt =====
-- The choice of a fallback, and of a provider for calls of the past.
use hood_sentry.Prelude.Dict.{get_value-All, get_value}
use hood_sentry.Prelude.{
  ◌≡◌, refl, sym, ap, ◌∙◌, inl, inr, Bool, true, false, not, Option, none, some, List, [], ◌∷◌,
  arith, if◌then◌else◌, Bool-cases, Option-cases, Memᴰ-All, All, All-append,
}
use Prim.Native.String.{String}
use text.Mathlib.TextEquality.{eq_iff}
use hood_sentry.Rpc.Health.{ProviderHealth, ProviderHealthTracker, filter}
use hood_sentry.Rpc.Selector.{
  ProviderSelector, is_capable, healthy_health, tracked, pushed, add_provider_if_eligible,
  add_archive_provider_if_eligible, where_given, get_candidate_providers, select_provider, listed,
  is_historical_method, select_provider_for_method, not_excluded, archive_pushed, has_url,
  fallback_candidates, select_fallback_provider,
}
use hood_sentry.Rpc.Selector.Choice.{chosen, Chosen-some}

-- Every tracker stands under the url of its provider.
abbrev pub Keyed : ProviderSelector → Type 0
Keyed s = All (λ e. e.1.health.provider_url ≡ e.0) s.health_trackers

pub get_value-Keyed :
    (url : String) (m : List (String × ProviderHealthTracker)) (t : ProviderHealthTracker)
    → All (λ e. e.1.health.provider_url ≡ e.0) m
    → get_value url m ≡ some t
    → t.health.provider_url ≡ url
unfolding get_value
get_value-Keyed url [] t k e = cc
get_value-Keyed url ((key, old) ∷ m) t (p, k) e =
    let same = eq_iff key url in ground (arith, same, get_value-Keyed url m t k)

listed_same : (us : List String) (a b : String) → a ≡ b → listed us a ≡ listed us b
listed_same us a b e = ap (listed us) e

filter-All :
    (p : ProviderHealth → Bool) (hs : List ProviderHealth) → All (λ h. p h ≡ true) (filter p hs)
filter-All p [] = tt
filter-All p (h ∷ hs) = elim (Bool-cases (p h)) [
  | inl e ↦ rw e (e, filter-All p hs)
  | inr e ↦ rw e (filter-All p hs)
]

archive_pushed-All :
    (P : ProviderHealth → Type 0) (url : String) (o : Option ProviderHealth)
    (hs : List ProviderHealth)
    → ((h : ProviderHealth) → o ≡ some h → P h)
    → All P hs
    → All P (archive_pushed url o hs)
archive_pushed-All P url none hs f k = k
archive_pushed-All P url (some h) hs f k = elim (Bool-cases (has_url url hs)) [
  | inl e ↦ rw e k
  | inr e ↦ rw e (All-append P hs (h ∷ []) k (f h refl, tt))
]

tracked_value :
    (s : ProviderSelector) (url : String) (h : ProviderHealth)
    → Keyed s
    → tracked s url ≡ some h
    → h.provider_url ≡ url
tracked_value s url h k e = elim (Option-cases (get_value url s.health_trackers)) [
  | inl n ↦ absurd (let m : tracked s url ≡ none = rw n refl in cc)
  | inr (t, p) ↦
      let here : tracked s url ≡ healthy_health (some t) = ap healthy_health p in
      let same : t.health ≡ h = healthy_same t h (sym here ∙ e) in
      ap (λ x. x.provider_url) (sym same) ∙ get_value-Keyed url s.health_trackers t k p
]
  where
    healthy_same :
        (t : ProviderHealthTracker) (h : ProviderHealth)
        → healthy_health (some t) ≡ some h
        → t.health ≡ h
    healthy_same t h e = ground arith

archive_fallback-All :
    (s : ProviderSelector) (excluded : List String) (hs : List ProviderHealth)
    → Keyed s
    → All (λ h. not_excluded excluded h ≡ true) hs
    → (o : Option String)
    → All
        (λ h. not_excluded excluded h ≡ true)
        (elim o [
          | none ↦ hs
          | some url ↦ if listed excluded url then hs else archive_pushed url (tracked s url) hs
        ])
archive_fallback-All s excluded hs k a none = a
archive_fallback-All s excluded hs k a (some url) = elim (Bool-cases (listed excluded url)) [
  | inl e ↦ rw e a
  | inr e ↦ rw e (
      archive_pushed-All (λ h. not_excluded excluded h ≡ true) url (tracked s url) hs
        (λ h q.
          let same : listed excluded h.provider_url ≡ false =
            ap (listed excluded) (tracked_value s url h k q) ∙ e in
          rw same refl)
        a)
]

not-true : (b : Bool) → not b ≡ true → b ≡ false
not-true true e = cc
not-true false e = refl

-- With every tracker under the url of its provider, a fallback is none of the providers that were
-- tried.
pub select_fallback_provider-excluded :
    (s : ProviderSelector) (excluded : List String) (url : String)
    → Keyed s
    → select_fallback_provider s excluded ≡ some url
    → listed excluded url ≡ false
unfolding select_fallback_provider fallback_candidates
select_fallback_provider-excluded s excluded url k e =
    let hs = fallback_candidates s excluded in
    let (h, same, best) = Chosen-some s hs _ url (chosen s hs) e in
    let all : All (λ h. not_excluded excluded h ≡ true) hs =
      archive_fallback-All s excluded
        (filter (not_excluded excluded) (get_candidate_providers s false)) k
        (filter-All (not_excluded excluded) (get_candidate_providers s false)) s.archive_url in
    let kept : not_excluded excluded h ≡ true = Memᴰ-All _ hs all best.candidate in
    let out : listed excluded h.provider_url ≡ false = not-true _ kept in
    ap (listed excluded) (sym same) ∙ out

-- No tracker knows yet that its provider is capable of the archive.
abbrev pub NoneCapable : ProviderSelector → Type 0
NoneCapable s = All (λ e. is_capable e.1.health.archive_capable ≡ false) s.health_trackers

get_value-NoneCapable :
    (m : List (String × ProviderHealthTracker)) (url : String)
    → All (λ e. is_capable e.1.health.archive_capable ≡ false) m
    → pushed true (healthy_health (get_value url m)) ≡ []
get_value-NoneCapable m url k = elim (Option-cases (get_value url m)) [
  | inl n ↦ rw n refl
  | inr (t, p) ↦
      let un : is_capable t.health.archive_capable ≡ false =
        get_value-All (λ u. is_capable u.health.archive_capable ≡ false) url m k p in
      ap (λ o. pushed true (healthy_health o)) p ∙ ground (arith, un)
]

none_given :
    (o : Option String) (f : String → List ProviderHealth)
    → ((url : String) → f url ≡ [])
    → where_given o f ≡ []
none_given none f h = refl
none_given (some url) f h = h url

-- A client with an archive provider asks for the archive in every historical call. Until a health
-- check has found a provider capable of it, no provider at all is chosen for such a call, though the
-- primary one may be healthy.
pub historical_unavailable :
    (s : ProviderSelector) (method : String)
    → is_historical_method s method ≡ true
    → NoneCapable s
    → select_provider_for_method s method ≡ none
unfolding select_provider_for_method select_provider get_candidate_providers
    add_provider_if_eligible add_archive_provider_if_eligible
historical_unavailable s method e k =
    let none_at : (url : String) → pushed true (tracked s url) ≡ [] =
      λ url. get_value-NoneCapable s.health_trackers url k in
    rw
      (
        e,
        none_at s.primary_url,
        none_given s.secondary_url _ none_at,
        none_given s.archive_url _ none_at,
      )
      refl
