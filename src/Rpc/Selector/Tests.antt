-- ===== src/Rpc/Selector/Tests.antt =====
-- A client with a primary provider, a faster secondary one and an archive that was not checked yet.
use hood_sentry.Rpc.Health.{
  is_healthy, Role, primary, secondary, archive, ProviderHealth, ProviderHealthTracker, make,
}
use hood_sentry.Rpc.Selector.{
  ProviderSelector, make_config, get_candidate_providers, select_provider, select_fallback_provider,
}
use hood_sentry.Prelude.{ℕ, ◌≡◌, refl, false, none, some, [], ◌∷◌}
use Prim.Native.String.{String}
use hood_sentry.Prelude.Dict.{get_value}
use hood_sentry.Rpc.CircuitBreaker.{initial}
use hood_sentry.Rpc.Selector.Choice.{IsFit, Best, select_provider-Best}

abbrev tracker : String → Role → ℕ → ProviderHealthTracker
tracker url role latency =
    let t = make url role initial 0 in
    record t { health = record t.health { latency_ms = some latency } }

abbrev selector : ProviderSelector
selector = record {
  config = make_config none none none;
  health_trackers =
      ("a", tracker "a" primary 80)
      ∷ ("b", tracker "b" secondary 30)
      ∷ ("c", tracker "c" archive 10)
      ∷ [];
  block_lag_monitor = record {
    provider_blocks = ("a", 100) ∷ ("b", 100) ∷ ("c", 99) ∷ [];
    network_head = 100;
    lag_history = [];
  };
  primary_url = "a";
  secondary_url = some "b";
  archive_url = some "c";
}

faster_first : select_provider selector false ≡ some "b"
unfolding select_provider make make_config initial get_value is_healthy
faster_first = refl

select_provider-Best_example :
    (h : ProviderHealth) × (h.provider_url ≡ "b")
    × IsFit false h
    × Best selector (get_candidate_providers selector false) h
select_provider-Best_example = select_provider-Best selector false "b" faster_first

next_after_b : select_fallback_provider selector ("b" ∷ []) ≡ some "a"
unfolding select_fallback_provider make make_config initial get_value is_healthy
next_after_b = refl

archive_is_last_resort : select_fallback_provider selector ("b" ∷ "a" ∷ []) ≡ some "c"
unfolding select_fallback_provider make make_config initial get_value is_healthy
archive_is_last_resort = refl
