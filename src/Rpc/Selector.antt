-- ===== src/Rpc/Selector.antt =====
-- packages/chain/src/rpc/provider-selector.ts. A url that is not given, or is the empty text, is
-- `none`. The trackers are the client's map from urls to trackers.
pub mod Choice
pub mod Fallback
mod Tests
use hood_sentry.Prelude.{
  ℕ, zero, suc, ◌+◌, ◌-◌, ◌*◌, ◌/◌, ◌%◌, ◌^◌, ◌≤◌, ◌<◌, min, max, ◌≡◌, refl, sym, ap, ◌∙◌, subst,
  ◌≢◌, ◌↔◌, ◌⊎◌, inl, inr, Bool, true, false, not, ◌&&◌, ◌||◌, Option, none, some, List, [], ◌∷◌,
  ◌++◌, map, arith, ltb, leb, ◌==◌, if◌then◌else◌, ltb→lt, lt→ltb, leb→le, ==_iff, tests,
  Bool-cases, Option-cases, length, get_elem?, set, get_or, take, drop, replicate, length-append,
  length-take, length-drop, length-map, length-replicate,
}
use Prim.Native.String.{String}
use text.Mathlib.Text.{◌==◌ as str_eq}
use hood_sentry.Prelude.{sort_by, then_by, by_key}
use hood_sentry.Prelude.Dict.{get_value}
use hood_sentry.Rpc.BlockLag.{BlockLagMonitor, get_lag, max_safe_integer}
use hood_sentry.Rpc.Health.{
  Role, primary, secondary, archive, Ratio, under, ProviderHealth, ProviderHealthTracker,
  is_healthy, filter,
}

pub record ProviderSelectorConfig : Type 0 where
  pub prefer_primary : Bool
  pub max_acceptable_lag : ℕ
  pub max_acceptable_latency_ms : ℕ
  pub max_acceptable_error_rate : Ratio
  pub require_archive_for_historical : Bool

pub record ProviderSelector : Type 0 where
  pub config : ProviderSelectorConfig
  pub health_trackers : List (String × ProviderHealthTracker)
  pub block_lag_monitor : BlockLagMonitor
  pub primary_url : String
  pub secondary_url : Option String
  pub archive_url : Option String

-- The options that the client gives; the others are left out.
unfoldable pub make_config : Option Bool → Option ℕ → Option Bool → ProviderSelectorConfig
make_config prefer lag require = record {
  prefer_primary = elim prefer [ none ↦ true | some b ↦ b ];
  max_acceptable_lag = elim lag [ none ↦ 5 | some n ↦ n ];
  max_acceptable_latency_ms = 2000;
  max_acceptable_error_rate = record { over = 1; rest = 9 };
  require_archive_for_historical = elim require [ none ↦ true | some b ↦ b ];
}

abbrev pub is_capable : Option Bool → Bool
is_capable (some true) = true
is_capable _ = false

abbrev pub healthy_health : Option ProviderHealthTracker → Option ProviderHealth
healthy_health none = none
healthy_health (some t) = if is_healthy t.health then some t.health else none

abbrev pub tracked : ProviderSelector → String → Option ProviderHealth
tracked s url = healthy_health (get_value url s.health_trackers)

abbrev pub pushed : Bool → Option ProviderHealth → List ProviderHealth
pushed require none = []
pushed require (some h) = if not require || is_capable h.archive_capable then h ∷ [] else []

unfoldable pub add_provider_if_eligible : ProviderSelector → String → Bool → List ProviderHealth
add_provider_if_eligible s url require = pushed require (tracked s url)

unfoldable pub add_archive_provider_if_eligible : ProviderSelector → String → List ProviderHealth
add_archive_provider_if_eligible s url = pushed true (tracked s url)

abbrev pub where_given : Option String → (String → List ProviderHealth) → List ProviderHealth
where_given none f = []
where_given (some url) f = f url

unfoldable pub get_candidate_providers : ProviderSelector → Bool → List ProviderHealth
unfolding add_provider_if_eligible add_archive_provider_if_eligible
get_candidate_providers s require =
    add_provider_if_eligible s s.primary_url require
    ++ where_given s.secondary_url (λ url. add_provider_if_eligible s url require)
    ++ (if require then where_given s.archive_url (add_archive_provider_if_eligible s) else [])

abbrev pub latency_or_max : ProviderHealth → ℕ
latency_or_max h = elim h.latency_ms [ none ↦ max_safe_integer | some n ↦ n ]

-- The fractions are compared as the floats are: with wholes of at most 1000, two that differ have
-- different floats, in the same order.
unfoldable pub lower_rate : ProviderHealth → ProviderHealth → Bool
lower_rate a b =
    ltb (a.error_rate.over * under b.error_rate) (b.error_rate.over * under a.error_rate)

abbrev pub is_primary : Role → Bool
is_primary primary = true
is_primary _ = false

unfoldable pub preferred : Bool → ProviderHealth → ProviderHealth → Bool
preferred prefer a b = prefer && is_primary a.role && not (is_primary b.role)

-- `compareProviders(a, b) < 0`
unfoldable pub compare_providers : ProviderSelector → ProviderHealth → ProviderHealth → Bool
unfolding then_by by_key lower_rate preferred get_lag
compare_providers s = then_by (by_key (λ h. get_lag s.block_lag_monitor h.provider_url)) (
    then_by (by_key latency_or_max) (
      then_by lower_rate
        (then_by (by_key (λ h. h.consecutive_failures)) (preferred s.config.prefer_primary))))

abbrev pub first_url : List ProviderHealth → Option String
first_url [] = none
first_url (h ∷ hs) = some h.provider_url

unfoldable pub select_provider : ProviderSelector → Bool → Option String
unfolding get_candidate_providers sort_by compare_providers
select_provider s require =
    first_url (sort_by (compare_providers s) (get_candidate_providers s require))

abbrev pub listed : List String → String → Bool
listed [] url = false
listed (u ∷ us) url = str_eq u url || listed us url

abbrev pub historical_methods : List String
historical_methods =
    "eth_getBlockByNumber" ∷ "eth_getBlockByHash" ∷ "eth_getTransactionByHash"
    ∷ "eth_getTransactionReceipt" ∷ "eth_getBlockReceipts" ∷ "eth_getLogs" ∷ "eth_getCode"
    ∷ "eth_call" ∷ []

unfoldable pub is_historical_method : ProviderSelector → String → Bool
is_historical_method s method =
    s.config.require_archive_for_historical && listed historical_methods method

unfoldable pub select_provider_for_method : ProviderSelector → String → Option String
unfolding select_provider is_historical_method
select_provider_for_method s method = select_provider s (is_historical_method s method)

abbrev pub not_excluded : List String → ProviderHealth → Bool
not_excluded excluded h = not (listed excluded h.provider_url)

abbrev pub has_url : String → List ProviderHealth → Bool
has_url url [] = false
has_url url (h ∷ hs) = str_eq h.provider_url url || has_url url hs

abbrev pub archive_pushed :
    String → Option ProviderHealth → List ProviderHealth → List ProviderHealth
archive_pushed url none hs = hs
archive_pushed url (some h) hs = if has_url url hs then hs else hs ++ h ∷ []

-- The candidates of a fallback: the others that are healthy, and the archive.
unfoldable pub fallback_candidates : ProviderSelector → List String → List ProviderHealth
unfolding get_candidate_providers
fallback_candidates s excluded =
    let hs = filter (not_excluded excluded) (get_candidate_providers s false) in
    elim s.archive_url [
      | none ↦ hs
      | some url ↦ if listed excluded url then hs else archive_pushed url (tracked s url) hs
    ]

unfoldable pub select_fallback_provider : ProviderSelector → List String → Option String
unfolding fallback_candidates sort_by compare_providers
select_fallback_provider s excluded =
    first_url (sort_by (compare_providers s) (fallback_candidates s excluded))

abbrev pub capable_url : String → Option ProviderHealth → Option String
capable_url url none = none
capable_url url (some h) = elim h.archive_capable [ some false ↦ none | _ ↦ some url ]

unfoldable pub select_archive_provider : ProviderSelector → Option String
select_archive_provider s = elim s.archive_url [
  | none ↦ none
  | some url ↦ capable_url url (tracked s url)
]

abbrev pub acceptable_health : ProviderSelectorConfig → ℕ → Option ProviderHealth → Bool
acceptable_health c lag none = false
acceptable_health c lag (some h) =
    leb lag c.max_acceptable_lag
    && leb (latency_or_max h) c.max_acceptable_latency_ms
    && leb (h.error_rate.over * under c.max_acceptable_error_rate)
        (c.max_acceptable_error_rate.over * under h.error_rate)

unfoldable pub is_provider_acceptable : ProviderSelector → String → Bool
unfolding get_lag
is_provider_acceptable s url =
    acceptable_health s.config (get_lag s.block_lag_monitor url) (tracked s url)

pub record Ranked : Type 0 where
  pub provider_url : String
  pub role : Role
  pub score : ℕ

abbrev pub ranked_from : ℕ → List ProviderHealth → List Ranked
ranked_from score [] = []
ranked_from score (h ∷ hs) =
    record { provider_url = h.provider_url; role = h.role; score = score }
    ∷ ranked_from (score + 1) hs

unfoldable pub get_provider_ranking : ProviderSelector → List Ranked
unfolding get_candidate_providers sort_by compare_providers
get_provider_ranking s =
    ranked_from 1 (sort_by (compare_providers s) (get_candidate_providers s false))
