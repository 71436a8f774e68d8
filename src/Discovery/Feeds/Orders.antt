-- ===== src/Discovery/Feeds/Orders.antt =====
-- The comparisons of the feeds are consistent.
use hood_sentry.Prelude.{
  ℕ, ◌≡◌, refl, sym, ap, ◌∙◌, inl, inr, Bool, true, false, Option, none, some, List, [], ◌∷◌, arith,
  ◌==◌, Bool-cases, IsOrder, then_by, then_by-IsOrder,
}
use hood_sentry.Prelude.Int.{ℤ}
use hood_sentry.Prelude.Codes.{same_codes, to_lower_case}
use hood_sentry.Discovery.Feeds.{
  DiscoveryFeed, new_tokens, new_pools, trending, volume_gainers, liquidity_gainers, holder_gainers,
  transaction_activity_gainers, newly_graduated, recently_migrated, recently_verified_projects,
  recently_scanned, recent_critical_risk, most_watched, most_alerted, compare_bigint, compare_date,
  tie_break, feed_result, compare_for_feed,
}

-- A comparison of what a function reads.
on-IsOrder {ℓ κ} :
    {A : Type ℓ} {B : Type κ} (f : B → B → Bool) (key : A → B)
    → IsOrder f
    → IsOrder (λ a b. f (key a) (key b))
on-IsOrder f key o = record {
  asym = λ a b. o.asym (key a) (key b);
  trans = λ a b c. o.trans (key a) (key b) (key c);
}

compare_bigint-IsOrder : IsOrder compare_bigint
unfolding compare_bigint
compare_bigint-IsOrder = record { asym = asym; trans = trans }
  where
    asym : (a b : Option ℤ) → compare_bigint a b ≡ true → compare_bigint b a ≡ false
    asym none b h = absurd (cc)
    asym (some a) none h = refl
    asym (some a) (some b) h = ground (arith)

    trans :
        (a b c : Option ℤ)
        → compare_bigint b a ≡ false
        → compare_bigint c b ≡ false
        → compare_bigint c a ≡ false
    trans a b none h k = refl
    trans none none (some c) h k = k
    trans none (some b) (some c) h k = absurd (cc)
    trans (some a) none (some c) h k = absurd (cc)
    trans (some a) (some b) (some c) h k = ground (arith)

flipped-IsOrder {ℓ} : {A : Type ℓ} (f : A → A → Bool) → IsOrder f → IsOrder (λ a b. f b a)
flipped-IsOrder f o = record { asym = λ a b. o.asym b a; trans = λ a b c h k. o.trans c b a k h }

same_codes_sound : (a b : List ℕ) → same_codes a b ≡ true → a ≡ b
same_codes_sound [] [] h = refl
same_codes_sound [] (y ∷ ys) h = absurd (cc)
same_codes_sound (x ∷ xs) [] h = absurd (cc)
same_codes_sound (x ∷ xs) (y ∷ ys) h = elim (Bool-cases (x == y)) [
  | inl e ↦
      let f : x ≡ y = ground arith in
      ap (λ z. z ∷ xs) f ∙ ap (λ zs. y ∷ zs) (same_codes_sound xs ys (rw e at h))
  | inr e ↦ absurd (let q : false ≡ true = rw e at h in cc)
]

module _ (locale_compare : List ℕ → List ℕ → Bool) (o : IsOrder locale_compare) where
  irreflexive : (a : List ℕ) → locale_compare a a ≡ false
  irreflexive a = elim (Bool-cases (locale_compare a a)) [ inl e ↦ o.asym a a e | inr e ↦ e ]

  compare_date_dates :
      (a b : List ℕ) → compare_date locale_compare (some a) (some b) ≡ locale_compare b a
  unfolding compare_date
  compare_date_dates a b = elim (Bool-cases (same_codes a b)) [
    | inl e ↦
        let same : a ≡ b = same_codes_sound a b e in
        rw e (sym (irreflexive b) ∙ ap (λ x. locale_compare b x) (sym same))
    | inr e ↦ rw e refl
  ]

  compare_date-IsOrder : IsOrder (compare_date locale_compare)
  unfolding compare_date
  compare_date-IsOrder = record { asym = asym; trans = trans }
    where
      asym :
          (a b : Option (List ℕ))
          → compare_date locale_compare a b ≡ true
          → compare_date locale_compare b a ≡ false
      asym none b h = absurd (cc)
      asym (some a) none h = refl
      asym (some a) (some b) h =
          compare_date_dates b a ∙ o.asym b a (sym (compare_date_dates a b) ∙ h)

      trans :
          (a b c : Option (List ℕ))
          → compare_date locale_compare b a ≡ false
          → compare_date locale_compare c b ≡ false
          → compare_date locale_compare c a ≡ false
      trans a b none h k = refl
      trans none none (some c) h k = k
      trans none (some b) (some c) h k = absurd (cc)
      trans (some a) none (some c) h k = absurd (cc)
      trans (some a) (some b) (some c) h k =
          compare_date_dates c a
          ∙ o.trans c b a (sym (compare_date_dates c b) ∙ k) (sym (compare_date_dates b a) ∙ h)

  feed_result-IsOrder : (feed : DiscoveryFeed) → IsOrder (feed_result locale_compare feed)
  unfolding compare_date compare_bigint then_by
  feed_result-IsOrder new_tokens =
      then_by-IsOrder _ _ (on-IsOrder _ (λ i. i.first_seen_at) compare_date-IsOrder)
        (on-IsOrder _ (λ i. some i.first_seen_block_number) compare_bigint-IsOrder)
  feed_result-IsOrder new_pools =
      then_by-IsOrder _ _ (on-IsOrder _ (λ i. i.pool_created_at) compare_date-IsOrder)
        (on-IsOrder _ (λ i. i.pool_created_block_number) compare_bigint-IsOrder)
  feed_result-IsOrder trending =
      then_by-IsOrder _ _ (on-IsOrder _ (λ i. some i.score_bps) compare_bigint-IsOrder)
        (on-IsOrder _ (λ i. some i.confidence_bps) compare_bigint-IsOrder)
  feed_result-IsOrder volume_gainers =
      on-IsOrder _ (λ i. i.volume_change_bps) compare_bigint-IsOrder
  feed_result-IsOrder liquidity_gainers =
      on-IsOrder _ (λ i. i.liquidity_change_bps) compare_bigint-IsOrder
  feed_result-IsOrder holder_gainers = on-IsOrder _ (λ i. i.holder_growth) compare_bigint-IsOrder
  feed_result-IsOrder transaction_activity_gainers =
      on-IsOrder _ (λ i. i.transaction_growth_bps) compare_bigint-IsOrder
  feed_result-IsOrder newly_graduated = on-IsOrder _ (λ i. i.graduated_at) compare_date-IsOrder
  feed_result-IsOrder recently_migrated = on-IsOrder _ (λ i. i.migrated_at) compare_date-IsOrder
  feed_result-IsOrder recently_verified_projects =
      on-IsOrder _ (λ i. i.project_verified_at) compare_date-IsOrder
  feed_result-IsOrder recently_scanned = on-IsOrder _ (λ i. i.last_scanned_at) compare_date-IsOrder
  feed_result-IsOrder recent_critical_risk =
      on-IsOrder _ (λ i. i.latest_critical_finding_at) compare_date-IsOrder
  feed_result-IsOrder most_watched =
      on-IsOrder _ (λ i. some i.watchlist_count) compare_bigint-IsOrder
  feed_result-IsOrder most_alerted = on-IsOrder _ (λ i. some i.alert_count) compare_bigint-IsOrder

  pub compare_for_feed-IsOrder :
      (feed : DiscoveryFeed) → IsOrder (compare_for_feed locale_compare feed)
  unfolding compare_for_feed tie_break
  compare_for_feed-IsOrder feed =
      then_by-IsOrder _ _ (feed_result-IsOrder feed)
        (on-IsOrder locale_compare (λ i. to_lower_case i.address) o)
