-- ===== src/Market/Arithmetic/Tests.antt =====
-- Runs of the helpers.
use hood_sentry.Prelude.{◌≡◌, refl, some, [], ◌∷◌}
use hood_sentry.Prelude.Int.{pos, negsuc}
use hood_sentry.Market.Arithmetic.{ratio_bps, absolute_difference_bps, scale_integer, median}

-- A fall from 300 to 299 is -33.3 basis points, rounded towards zero.
falls_toward_zero : ratio_bps (pos 299) 300 ≡ some (negsuc 32)
unfolding ratio_bps
falls_toward_zero = refl

tenth_apart : absolute_difference_bps (pos 90) (pos 99) ≡ some 1000
unfolding absolute_difference_bps
tenth_apart = refl

seven_scaled : scale_integer 7 2 6 ≡ some 70000
unfolding scale_integer
seven_scaled = refl

median_of_four : median (9 ∷ 1 ∷ 5 ∷ 4 ∷ []) ≡ some 4
unfolding median
median_of_four = refl
