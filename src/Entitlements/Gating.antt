-- ===== src/Entitlements/Gating.antt =====
-- packages/entitlements/src/token-gating.ts. Balances are never negative, times are milliseconds.
pub mod Holding
mod Tests
use hood_sentry.Prelude.{
  ℕ, zero, suc, ◌+◌, ◌-◌, ◌*◌, ◌/◌, ◌%◌, ◌^◌, ◌≤◌, ◌<◌, min, max, ◌≡◌, refl, sym, ap, ◌∙◌, subst,
  ◌≢◌, ◌↔◌, ◌⊎◌, inl, inr, Bool, true, false, not, ◌&&◌, ◌||◌, Option, none, some, List, [], ◌∷◌,
  ◌++◌, map, arith, ltb, leb, ◌==◌, if◌then◌else◌, ltb→lt, lt→ltb, leb→le, ==_iff, tests,
  Bool-cases, Option-cases, length, get_elem?, set, get_or, take, drop, replicate, length-append,
  length-take, length-drop, length-map, length-replicate,
}
use Prim.Native.String.{String}

pub data Tier : Type 0 where
  free scout analyst sentinel : Tier

pub record Minimums : Type 0 where
  pub free_minimum : ℕ
  pub scout_minimum : ℕ
  pub analyst_minimum : ℕ
  pub sentinel_minimum : ℕ

pub record GateConfig : Type 0 where
  pub token_address : String
  pub chain_id : ℕ
  pub enabled : Bool
  pub minimums : Minimums
  pub cache_seconds : ℕ
  pub minimum_holding_seconds : ℕ
  pub version : String

pub record Entitlement : Type 0 where
  pub wallet : String
  pub tier : Tier
  pub balance : ℕ
  pub observed_block : ℕ
  pub expires_at : ℕ
  pub version : String

pub record EntitlementState : Type 0 where
  pub granted_tier : Tier
  pub candidate_tier : Option Tier
  pub candidate_since : Option ℕ

unfoldable pub calculate_tier : ℕ → GateConfig → Tier
calculate_tier balance c =
    if leb c.minimums.sentinel_minimum balance
    then sentinel
    else (if leb c.minimums.analyst_minimum balance
        then analyst
        else (if leb c.minimums.scout_minimum balance then scout else free))

unfoldable pub reconcile_entitlement : String → ℕ → ℕ → GateConfig → ℕ → Entitlement
unfolding calculate_tier
reconcile_entitlement wallet balance block c now =
    if c.enabled
    then record {
      wallet = wallet;
      tier = calculate_tier balance c;
      balance = balance;
      observed_block = block;
      expires_at = now + c.cache_seconds * 1000;
      version = c.version;
    }
    else record {
      wallet = wallet;
      tier = free;
      balance = balance;
      observed_block = block;
      expires_at = now;
      version = c.version;
    }

-- tierRank
abbrev pub tier_rank : Tier → ℕ
tier_rank free = 0
tier_rank scout = 1
tier_rank analyst = 2
tier_rank sentinel = 3

abbrev pub same_tier : Tier → Tier → Bool
same_tier a b = tier_rank a == tier_rank b

abbrev pub is_candidate : Tier → Option Tier → Bool
is_candidate t none = false
is_candidate t (some c) = same_tier c t

abbrev pub since_or : Option ℕ → ℕ → ℕ
since_or none now = now
since_or (some s) now = s

abbrev pub settled : Tier → EntitlementState
settled t = record { granted_tier = t; candidate_tier = none; candidate_since = none }

-- `input.current ?? …`
abbrev pub or_free : Option EntitlementState → EntitlementState
or_free none = settled free
or_free (some s) = s

-- One look at a wallet.
pub record Observation : Type 0 where
  pub eligible_tier : Tier
  pub observed_at : ℕ
  pub reset_candidate : Bool

abbrev pub candidate_changed : EntitlementState → Observation → Bool
candidate_changed s o = not (is_candidate o.eligible_tier s.candidate_tier) || o.reset_candidate

abbrev pub new_since : EntitlementState → Observation → ℕ
new_since s o =
    if candidate_changed s o then o.observed_at else since_or s.candidate_since o.observed_at

-- `observedAt - candidateSince >= minimumHoldingSeconds * 1_000` is tested as a sum, which says the
-- same where the clock was set back.
advance : ℕ → EntitlementState → Observation → EntitlementState
advance holding s o =
    if ltb (tier_rank o.eligible_tier) (tier_rank s.granted_tier)
    then settled o.eligible_tier
    else (if same_tier o.eligible_tier s.granted_tier
        then settled s.granted_tier
        else (if leb (new_since s o + holding * 1000) o.observed_at
            then settled o.eligible_tier
            else record {
              granted_tier = s.granted_tier;
              candidate_tier = some o.eligible_tier;
              candidate_since = some (new_since s o);
            }))

unfoldable pub advance_entitlement_state :
    ℕ → Option EntitlementState → Observation → EntitlementState
unfolding advance
advance_entitlement_state holding current o = advance holding (or_free current) o

-- A wallet that is looked at again and again, the state of each look stored for the next.
unfoldable pub observe : ℕ → Option EntitlementState → List Observation → Option EntitlementState
observe holding current [] = current
observe holding current (o ∷ os) =
    observe holding (some (advance_entitlement_state holding current o)) os
