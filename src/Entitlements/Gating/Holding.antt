-- ===== src/Entitlements/Gating/Holding.antt =====
-- What a wallet has to hold, and how long.
use hood_sentry.Entitlements.Gating.{
  is_candidate, Tier, free, GateConfig, EntitlementState, calculate_tier, tier_rank, same_tier,
  or_free, Observation, new_since, advance_entitlement_state, observe, since_or,
}
use hood_sentry.Prelude.{
  ℕ, ◌+◌, ◌*◌, ◌≤◌, ◌≡◌, refl, subst, ◌⊎◌, inl, inr, Bool, true, false, not, ◌||◌, Option, none,
  some, List, [], ◌∷◌, arith, ltb, leb, if◌then◌else◌, tests, Bool-cases,
}

-- A larger balance is never entitled to less, whatever the minimums are.
pub calculate_tier_mono :
    (c : GateConfig) (a b : ℕ)
    → a ≤ b
    → tier_rank (calculate_tier a c) ≤ tier_rank (calculate_tier b c)
unfolding calculate_tier
calculate_tier_mono c a b h = ground arith

-- The tier that is granted after a look is at most the one that the balance is eligible for then.
pub granted_le_eligible :
    (holding : ℕ) (current : Option EntitlementState) (o : Observation)
    → tier_rank (advance_entitlement_state holding current o).granted_tier
      ≤ tier_rank o.eligible_tier
unfolding advance_entitlement_state
granted_le_eligible holding current o = ground arith

-- The newest looks, back to one at the time `since`, were all eligible for the tier.
abbrev pub Streak : Tier → ℕ → List Observation → Type 0
Streak t since [] = ⊥
Streak t since (o ∷ os) = (o.eligible_tier ≡ t) × ((o.observed_at ≡ since) ⊎ Streak t since os)

-- At some look the wallet had been eligible for the tier, at every look of a streak, for as long as
-- it has to hold.
abbrev pub Earned : ℕ → Tier → List Observation → Type 0
Earned holding t [] = ⊥
Earned holding t (o ∷ os) =
    ((since : ℕ) × Streak t since (o ∷ os) × (since + holding * 1000 ≤ o.observed_at))
    ⊎ Earned holding t os

abbrev Since : Option Tier → Option ℕ → List Observation → Type 0
Since none none h = Unit
Since (some t) (some s) h = Streak t s h
Since _ _ h = ⊥

-- What is granted was earned, for a tier at least as high.
abbrev pub Granted : ℕ → Tier → List Observation → Type 0
Granted holding t h = (t ≡ free) ⊎ ((u : Tier) × (tier_rank t ≤ tier_rank u) × Earned holding u h)

record Inv (holding : ℕ) (s : EntitlementState) (h : List Observation) : Type 0 where
  granted : Granted holding s.granted_tier h
  since : Since s.candidate_tier s.candidate_since h

same_tier-eq : (a b : Tier) → same_tier a b ≡ true → a ≡ b
same_tier-eq a b h = ground arith

Streak-next :
    (candidate : Option Tier) (since : Option ℕ) (o : Observation) (h : List Observation)
    → Since candidate since h
    → Streak o.eligible_tier
        (if not (is_candidate o.eligible_tier candidate) || o.reset_candidate
          then o.observed_at
          else since_or since o.observed_at)
        (o ∷ h)
Streak-next none none o h v = (refl, inl refl)
Streak-next none (some s) o h v = absurd v
Streak-next (some t) none o h v = absurd v
Streak-next (some t) (some s) o h v =
    (elim changed
        as (λ b. changed ≡ b → Streak o.eligible_tier (if b then o.observed_at else s) (o ∷ h)) [
          | true ↦ λ e. (refl, inl refl)
          | false ↦ λ e. (
            refl,
            inr (subst (λ u. Streak u s h) (same_tier-eq t o.eligible_tier (ground arith)) v),
          )
        ])
      refl
  where
    changed : Bool
    changed = not (same_tier t o.eligible_tier) || o.reset_candidate

Granted-later :
    (holding : ℕ) (t u : Tier) (o : Observation) (h : List Observation)
    → tier_rank t ≤ tier_rank u
    → Granted holding u h
    → Granted holding t (o ∷ h)
Granted-later holding t u o h le (inl e) = inl (ground arith)
Granted-later holding t u o h le (inr (v, le', earned)) = inr (v, omega arith, inr earned)

advance-Inv :
    (holding : ℕ) (s : EntitlementState) (o : Observation) (h : List Observation)
    → Inv holding s h
    → Inv holding (advance_entitlement_state holding (some s) o) (o ∷ h)
unfolding advance_entitlement_state
advance-Inv holding s o h v =
    elim (Bool-cases (ltb (tier_rank o.eligible_tier) (tier_rank s.granted_tier))) [
      | inl lower ↦ rw lower (record {
        granted =
            Granted-later holding o.eligible_tier s.granted_tier o h (omega (tests, lower))
              v.granted;
        since = tt;
      })
      | inr higher ↦ rw higher (elim (Bool-cases (same_tier o.eligible_tier s.granted_tier)) [
        | inl same ↦ rw same (record {
          granted = Granted-later holding s.granted_tier s.granted_tier o h (omega arith) v.granted;
          since = tt;
        })
        | inr other ↦
            rw other (elim (Bool-cases (leb (new_since s o + holding * 1000) o.observed_at)) [
              | inl held ↦ rw held (record {
                granted = inr (
                  o.eligible_tier,
                  omega arith,
                  inl (new_since s o, streak, omega (tests, held)),
                );
                since = tt;
              })
              | inr early ↦ rw early (record {
                granted =
                    Granted-later holding s.granted_tier s.granted_tier o h (omega arith) v.granted;
                since = streak;
              })
            ])
      ])
    ]
  where
    streak : Streak o.eligible_tier (new_since s o) (o ∷ h)
    streak = Streak-next s.candidate_tier s.candidate_since o h v.since

-- The looks, newest first.
abbrev pub newest_first : List Observation → List Observation → List Observation
newest_first h [] = h
newest_first h (o ∷ os) = newest_first (o ∷ h) os

abbrev pub granted_of : Option EntitlementState → Tier
granted_of current = (or_free current).granted_tier

first-Inv :
    (holding : ℕ) (o : Observation) (h : List Observation) (current : Option EntitlementState)
    → Inv holding (or_free current) h
    → Inv holding (advance_entitlement_state holding current o) (o ∷ h)
unfolding advance_entitlement_state
first-Inv holding o h current v = advance-Inv holding (or_free current) o h v

observe-Inv :
    (holding : ℕ) (current : Option EntitlementState) (h os : List Observation)
    → Inv holding (or_free current) h
    → Inv holding (or_free (observe holding current os)) (newest_first h os)
unfolding observe
observe-Inv holding current h [] v = v
observe-Inv holding current h (o ∷ os) v =
    observe-Inv holding (some (advance_entitlement_state holding current o)) (o ∷ h) os
      (first-Inv holding o h current v)

-- A new wallet that is granted more than the free tier, after any looks, had at some look been eligible
-- for that tier or a higher one, at every look of a streak, for the time that it has to be held.
pub observe-Granted :
    (holding : ℕ) (os : List Observation)
    → Granted holding (granted_of (observe holding none os)) (newest_first [] os)
observe-Granted holding os =
    (observe-Inv holding none [] os (record { granted = inl refl; since = tt })).granted
