-- ===== src/Entitlements/Gating/Tests.antt =====
-- A gate with a holding time of ten seconds.
use hood_sentry.Prelude.{ℕ, ◌≡◌, refl, true, false, none, some, List, [], ◌∷◌}
use hood_sentry.Entitlements.Gating.{
  Tier, free, scout, analyst, GateConfig, reconcile_entitlement, Observation,
  advance_entitlement_state, observe, settled,
}
use hood_sentry.Entitlements.Gating.Holding.{observe-Granted, Granted, newest_first, granted_of}

abbrev gate : GateConfig
gate = record {
  token_address = "0xa";
  chain_id = 4663;
  enabled = true;
  minimums = record {
    free_minimum = 0;
    scout_minimum = 100;
    analyst_minimum = 1000;
    sentinel_minimum = 10000;
  };
  cache_seconds = 60;
  minimum_holding_seconds = 10;
  version = "1";
}

abbrev look : Tier → ℕ → Observation
look t at = record { eligible_tier = t; observed_at = at; reset_candidate = false }

disabled_grants_nothing :
    (reconcile_entitlement "0xb" 20000 7 (record gate { enabled = false }) 5).tier ≡ free
unfolding reconcile_entitlement
disabled_grants_nothing = refl

abbrev looks : List Observation
looks = look scout 1000 ∷ look analyst 3000 ∷ look analyst 9000 ∷ look analyst 13000 ∷ []

analyst_after_ten_seconds : observe 10 none looks ≡ some (settled analyst)
unfolding observe advance_entitlement_state
analyst_after_ten_seconds = refl

observe-Granted_example : Granted 10 (granted_of (observe 10 none looks)) (newest_first [] looks)
observe-Granted_example = observe-Granted 10 looks
