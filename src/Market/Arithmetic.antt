-- ===== src/Market/Arithmetic.antt =====
-- packages/market-engine/src/arithmetic.ts. The division of bigints rounds towards zero.
pub mod Laws
mod Tests
use hood_sentry.Prelude.{
  ℕ, zero, suc, ◌+◌, ◌-◌, ◌*◌, ◌/◌, ◌%◌, ◌^◌, ◌≤◌, ◌<◌, min, max, ◌≡◌, refl, sym, ap, ◌∙◌, subst,
  ◌≢◌, ◌↔◌, ◌⊎◌, inl, inr, Bool, true, false, not, ◌&&◌, ◌||◌, Option, none, some, List, [], ◌∷◌,
  ◌++◌, map, arith, ltb, leb, ◌==◌, if◌then◌else◌, ltb→lt, lt→ltb, leb→le, ==_iff, tests,
  Bool-cases, Option-cases, length, get_elem?, set, get_or, take, drop, replicate, length-append,
  length-take, length-drop, length-map, length-replicate,
}
use hood_sentry.Prelude.{sort_by}
use hood_sentry.Prelude.Int.{ℤ, pos, negsuc, pos_part, neg_part, sub_ℕ, ◌-ℤ◌, ◌*ℤ◌, ltb_ℤ}

-- An error is `none`. The decimals are a whole number that is not negative.
unfoldable pub pow10 : ℕ → Option ℕ
pow10 decimals = if ltb 255 decimals then none else some (10 ^ decimals)

-- `a / b` for a divisor above zero.
unfoldable pub div_ℤ : ℤ → ℕ → ℤ
div_ℤ a b = sub_ℕ (pos_part a / b) (neg_part a / b)

unfoldable pub mul_div_floor : ℤ → ℤ → ℤ → Option ℤ
unfolding ◌*ℤ◌ div_ℤ
mul_div_floor left right denominator =
    if ltb_ℤ (pos 0) denominator then some (div_ℤ (left *ℤ right) (pos_part denominator)) else none

-- `null` is `none`; the reference is not below zero, as a price or a volume is.
unfoldable pub ratio_bps : ℤ → ℕ → Option ℤ
unfolding ◌*ℤ◌ ◌-ℤ◌ div_ℤ
ratio_bps value reference =
    if reference == 0 then none else some (div_ℤ ((value -ℤ pos reference) *ℤ pos 10000) reference)

unfoldable pub difference_bps : ℕ → ℕ → ℕ
difference_bps left right =
    (if leb right left then left - right else right - left)
    * 10000
    / (if ltb left right then left else right)

unfoldable pub absolute_difference_bps : ℤ → ℤ → Option ℕ
unfolding difference_bps
absolute_difference_bps left right =
    if ltb_ℤ (pos 0) left && ltb_ℤ (pos 0) right
    then some (difference_bps (pos_part left) (pos_part right))
    else none

abbrev pub scaled_up : ℕ → Option ℕ → Option ℕ
scaled_up value none = none
scaled_up value (some p) = some (value * p)

abbrev pub scaled_down : ℕ → Option ℕ → Option ℕ
scaled_down value none = none
scaled_down value (some p) = some (value / p)

unfoldable pub scale_integer : ℕ → ℕ → ℕ → Option ℕ
unfolding pow10
scale_integer value from_decimals to_decimals =
    if from_decimals == to_decimals
    then some value
    else (if ltb from_decimals to_decimals
        then scaled_up value (pow10 (to_decimals - from_decimals))
        else scaled_down value (pow10 (from_decimals - to_decimals)))

abbrev pub half_sum : Option ℕ → ℕ → Option ℕ
half_sum none middle = none
half_sum (some lower) middle = some ((lower + middle) / 2)

abbrev pub median_at : List ℕ → ℕ → Option ℕ → Option ℕ
median_at sorted middle none = none
median_at sorted middle (some value) =
    if length sorted % 2 == 1 then some value else half_sum (get_elem? sorted (middle - 1)) value

unfoldable pub median : List ℕ → Option ℕ
unfolding sort_by
median values =
    let sorted = sort_by ltb values in
    let middle = length sorted / 2 in
    if length values == 0 then none else median_at sorted middle (get_elem? sorted middle)

unfoldable pub clamp_bps : ℤ → ℕ
clamp_bps (negsuc n) = 0
clamp_bps (pos n) = if ltb 10000 n then 10000 else n
