-- ===== src/Discovery/Feeds/Tests.antt =====
-- Feeds of concrete items. The texts of the tests compare by their code units, as the comparison of a
-- locale does for lower-case hexadecimal digits and for dates of one form.
use hood_sentry.Prelude.{
  insert_by, ℕ, suc, ◌/◌, ◌≡◌, refl, inr, true, false, Option, none, some, List, [], ◌∷◌, arith,
  length, IsOrder, sort_by, Sorted,
}
use hood_sentry.Prelude.{then_by, sort_by, insert_by}
use hood_sentry.Prelude.Codes.{to_lower, to_lower_case, to_lower}
use hood_sentry.Discovery.Feeds.{
  then_by, DiscoveryItem, LaunchpadState, bonding_curve, graduated, migrated, new_tokens,
  newly_graduated, most_watched, is_eligible_for_feed, compare_for_feed, compare_date,
  compare_bigint, tie_break, rank_feed,
}
use mathlib.Core.List.{Perm, Permᴰ}
use hood_sentry.Prelude.Int.{pos}
use hood_sentry.Rpc.Health.{filter}
use hood_sentry.Discovery.Pagination.{whole}
use hood_sentry.Discovery.Pagination.Pages.{follow, flat}
use hood_sentry.Discovery.Pagination.Tests.{plain, plain-ReadsBack}
use hood_sentry.Discovery.Feeds.Sponsored.{
  SponsoredPlacement, SponsoredDiscoveryItem, text_below, is_shown, has_key, item_of, entries,
  compare_placements, rank_sponsored,
}
use hood_sentry.Discovery.Feeds.Placements.{Shows, rank_sponsored-Shows}
use hood_sentry.Prelude.Codes.{same_text}
use hood_sentry.Prelude.{All}
use hood_sentry.Discovery.Feeds.Ranks.{rank_feed-Permᴰ, rank_feed_pages}

text_below-IsOrder : IsOrder text_below
text_below-IsOrder = record { asym = asym; trans = trans }
  where
    asym : (a b : List ℕ) → text_below a b ≡ true → text_below b a ≡ false
    asym a [] h = absurd (cc)
    asym [] (y ∷ ys) h = refl
    asym (x ∷ xs) (y ∷ ys) h = ground (arith, asym xs ys)

    trans :
        (a b c : List ℕ) → text_below b a ≡ false → text_below c b ≡ false → text_below c a ≡ false
    trans [] b c h k = refl
    trans (x ∷ xs) [] c h k = absurd (cc)
    trans (x ∷ xs) (y ∷ ys) [] h k = absurd (cc)
    trans (x ∷ xs) (y ∷ ys) (z ∷ zs) h k = ground (arith, trans xs ys zs)

abbrev item : ℕ → Option (List ℕ) → LaunchpadState → ℕ → DiscoveryItem
item a seen state watched = record {
  chain_id = 1;
  address = a ∷ [];
  canonical = true;
  primary_pool_address = none;
  launchpad_state = state;
  project_verified = false;
  first_seen_at = seen;
  first_seen_block_number = pos 0;
  pool_created_at = none;
  pool_created_block_number = none;
  score_bps = pos 0;
  confidence_bps = pos 0;
  volume_change_bps = none;
  liquidity_change_bps = none;
  holder_growth = none;
  transaction_growth_bps = none;
  graduated_at = none;
  migrated_at = none;
  project_verified_at = none;
  last_scanned_at = none;
  latest_critical_finding_at = none;
  watchlist_count = pos watched;
  alert_count = pos 0;
}

abbrev old : DiscoveryItem
old = item 1 (some (50 ∷ [])) bonding_curve 7

abbrev young : DiscoveryItem
young = item 2 (some (51 ∷ [])) graduated 3

abbrev undated : DiscoveryItem
undated = item 3 none migrated 3

newest_first :
    rank_feed text_below new_tokens (undated ∷ old ∷ young ∷ []) ≡ young ∷ old ∷ undated ∷ []
unfolding rank_feed is_eligible_for_feed compare_for_feed compare_date compare_bigint tie_break
    to_lower_case then_by sort_by insert_by to_lower
newest_first = refl

ties_by_address :
    rank_feed text_below most_watched (undated ∷ young ∷ old ∷ []) ≡ old ∷ young ∷ undated ∷ []
unfolding rank_feed is_eligible_for_feed compare_for_feed compare_date compare_bigint tie_break
    to_lower_case then_by sort_by insert_by to_lower
ties_by_address = refl

migrated_graduated :
    rank_feed text_below newly_graduated (undated ∷ old ∷ young ∷ []) ≡ young ∷ undated ∷ []
unfolding rank_feed is_eligible_for_feed compare_for_feed compare_date compare_bigint tie_break
    to_lower_case then_by sort_by insert_by to_lower
migrated_graduated = refl

rank_feed-Permᴰ_example :
    rank_feed text_below new_tokens (undated ∷ old ∷ [])
    ≡ rank_feed text_below new_tokens (old ∷ undated ∷ [])
unfolding tie_break to_lower_case to_lower
rank_feed-Permᴰ_example =
    rank_feed-Permᴰ text_below new_tokens text_below-IsOrder (Permᴰ.swap refl refl)
      ((refl, tt), (tt, tt))

rank_feed_pages_example :
    (ps : List (List DiscoveryItem)) × (follow
        (suc (length (rank_feed text_below new_tokens (undated ∷ old ∷ young ∷ [])) / 2))
        plain
        (rank_feed text_below new_tokens (undated ∷ old ∷ young ∷ []))
        (whole (pos 2))
        none
        (1 ∷ [])
      ≡ inr ps)
    × Sorted (compare_for_feed text_below new_tokens) (flat ps)
    × Perm (flat ps) (filter (λ i. is_eligible_for_feed i new_tokens) (undated ∷ old ∷ young ∷ []))
rank_feed_pages_example =
    rank_feed_pages text_below new_tokens (undated ∷ old ∷ young ∷ []) plain 2 1 []
      text_below-IsOrder (omega arith) (omega arith) (plain-ReadsBack (1 ∷ [])) (omega arith)

abbrev placement : ℕ → ℕ → ℕ → SponsoredPlacement
placement id address priority = record {
  placement_id = id ∷ [];
  chain_id = 1;
  token_address = address ∷ [];
  feed = new_tokens;
  priority = pos priority;
  starts_at = 10 ∷ [];
  ends_at = 20 ∷ [];
  created_at = [];
}

abbrev shown_now : ℕ → List SponsoredDiscoveryItem
shown_now now =
    rank_sponsored text_below new_tokens (placement 1 1 5 ∷ placement 2 9 7 ∷ placement 3 2 6 ∷ [])
      (old ∷ young ∷ []) (now ∷ [])

-- The item of the second placement is not there.
highest_priority_first :
    shown_now 10
    ≡ (record { placement = placement 3 2 6; item = young })
      ∷ (record { placement = placement 1 1 5; item = old })
      ∷ []
unfolding rank_sponsored compare_placements entries is_shown item_of has_key same_text to_lower_case
    to_lower then_by sort_by insert_by
highest_priority_first = refl

ended : shown_now 20 ≡ []
unfolding rank_sponsored compare_placements entries is_shown item_of has_key same_text to_lower_case
    to_lower then_by sort_by insert_by
ended = refl

rank_sponsored-Shows_example :
    All
      (Shows new_tokens
        (placement 1 1 5 ∷ placement 2 9 7 ∷ placement 3 2 6 ∷ [])
        (old ∷ young ∷ [])
        (10 ∷ []))
      (shown_now 10)
rank_sponsored-Shows_example =
    rank_sponsored-Shows text_below new_tokens
      (placement 1 1 5 ∷ placement 2 9 7 ∷ placement 3 2 6 ∷ []) (old ∷ young ∷ []) (10 ∷ [])
