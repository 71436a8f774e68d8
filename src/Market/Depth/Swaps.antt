-- ===== src/Market/Depth/Swaps.antt =====
-- The promises of a constant-product quote.
use hood_sentry.Prelude.{
  ℕ, ◌+◌, ◌-◌, ◌*◌, ◌≤◌, ◌<◌, ◌≡◌, refl, sym, subst, true, false, arith, leb, leb→le,
}
use hood_sentry.Prelude.Int.{pos, pos_part}
use hood_sentry.Prelude.{mul_mono, mul_cancel, mul_pos, div_floor, le_div}
use hood_sentry.Market.Depth.{
  returns, quote, amount_out, price_impact, quote_constant_product_swap, ConstantProductQuoteInput,
  ConstantProductQuoteResult,
}

-- The sizes that the code's tests let through.
pub record IsSwap (amount reserve_in reserve_out fee den : ℕ) : Type 0 where
  pub amount_positive : 0 < amount
  pub in_positive : 0 < reserve_in
  pub out_positive : 0 < reserve_out
  pub fee_below : fee < den

abbrev pub input : ℕ → ℕ → ℕ → ℕ → ℕ → ConstantProductQuoteInput
input amount reserve_in reserve_out fee den = record {
  amount_in_raw = pos amount;
  reserve_in_raw = pos reserve_in;
  reserve_out_raw = pos reserve_out;
  fee_raw = pos fee;
  fee_denominator = pos den;
}

-- The quote is what the invariant of the pool allows: it lies below the reserve and, with the amount
-- in, leaves a product of the reserves that is no smaller.
pub record Keeps (amount reserve_in reserve_out out : ℕ) : Type 0 where
  pub below : out < reserve_out
  pub product : reserve_in * reserve_out ≤ (reserve_in + amount) * (reserve_out - out)

-- With `K` the reserve in, times the denominator, and `x` the amount after the fee.
share_below : (q K x R : ℕ) → 0 < K → 0 < R → q * (K + x) ≤ x * R → q < R
share_below q K x R k r h =
    elim (leb R q) as (λ b. leb R q ≡ b → q < R) [
      | true ↦ λ e. absurd (
          omega (
            arith,
            mul_mono R q K K (leb→le R q e) (omega arith),
            mul_mono R q x x (leb→le R q e) (omega arith),
            mul_pos R K r k,
            h,
          ))
      | false ↦ λ e. ground arith
    ]
      refl

-- The part of the amount out, multiplied out.
amount_out_share :
    (a i o fee den : ℕ)
    → IsSwap a i o fee den
    → amount_out a i o fee den * (i * den + a * (den - fee)) ≤ a * (den - fee) * o
unfolding amount_out
amount_out_share a i o fee den h =
    div_floor (a * (den - fee) * o) (i * den + a * (den - fee))
      (omega (arith, mul_pos i den h.in_positive (omega (arith, h.fee_below))))

amount_out_below : (a i o fee den : ℕ) → IsSwap a i o fee den → amount_out a i o fee den < o
amount_out_below a i o fee den h =
    share_below (amount_out a i o fee den) (i * den) (a * (den - fee)) o
      (mul_pos i den h.in_positive (omega (arith, h.fee_below))) h.out_positive
      (amount_out_share a i o fee den h)

-- With `r` left of the reserve out: what the pool gives at the old price, it gets.
paid_for :
    (a i r q kept den : ℕ)
    → 0 < den
    → kept ≤ den
    → q * (i * den + a * kept) ≤ a * kept * (q + r)
    → i * q ≤ a * r
paid_for a i r q kept den h k e =
    mul_cancel (i * q) (a * r) den h
      (grind (arith, mul_mono (a * r) (a * r) kept den (omega arith) k))

amount_out-Keeps :
    (a i o fee den : ℕ) → IsSwap a i o fee den → Keeps a i o (amount_out a i o fee den)
amount_out-Keeps a i o fee den h =
    let q = amount_out a i o fee den in
    let b : q < o = amount_out_below a i o fee den h in
    let whole : o ≡ q + (o - q) = omega arith in
    let share : q * (i * den + a * (den - fee)) ≤ a * (den - fee) * (q + (o - q)) =
      subst (λ n. q * (i * den + a * (den - fee)) ≤ a * (den - fee) * n) whole
        (amount_out_share a i o fee den h) in
    let paid : i * q ≤ a * (o - q) =
      paid_for a i (o - q) q (den - fee) den (omega (arith, h.fee_below)) (omega arith) share in
    record { below = b; product = subst (λ n. i * n ≤ (i + a) * (o - q)) (sym whole) (grind arith) }

IsSwap-of :
    (i : ConstantProductQuoteInput) (r : ConstantProductQuoteResult)
    → quote_constant_product_swap i ≡ returns r
    → IsSwap
        (pos_part i.amount_in_raw)
        (pos_part i.reserve_in_raw)
        (pos_part i.reserve_out_raw)
        (pos_part i.fee_raw)
        (pos_part i.fee_denominator)
      × (quote
            (pos_part i.amount_in_raw)
            (pos_part i.reserve_in_raw)
            (pos_part i.reserve_out_raw)
            (pos_part i.fee_raw)
            (pos_part i.fee_denominator)
          ≡ returns r)
unfolding quote_constant_product_swap
IsSwap-of i r e = ground arith

quote_out :
    (a i o fee den : ℕ) (r : ConstantProductQuoteResult)
    → quote a i o fee den ≡ returns r
    → (r.amount_out_raw ≡ amount_out a i o fee den)
      × (0 < r.amount_out_raw)
      × (r.price_impact_bps ≤ 10000)
unfolding quote price_impact
quote_out a i o fee den r e = ground arith

-- Whatever is asked, signed numbers included: a quote that is returned is above zero and below the
-- reserve out, has a price impact of at most 10000 basis points, and does not lower the product of
-- the pool's reserves.
pub quote-Keeps :
    (i : ConstantProductQuoteInput) (r : ConstantProductQuoteResult)
    → quote_constant_product_swap i ≡ returns r
    → (0 < r.amount_out_raw)
      × (r.price_impact_bps ≤ 10000)
      × Keeps
          (pos_part i.amount_in_raw)
          (pos_part i.reserve_in_raw)
          (pos_part i.reserve_out_raw)
          r.amount_out_raw
quote-Keeps i r e =
    let (h, q) = IsSwap-of i r e in
    let (out, positive, impact) = quote_out _ _ _ _ _ r q in
    (positive, impact, subst (Keeps _ _ _) (sym out) (amount_out-Keeps _ _ _ _ _ h))

-- A second swap of what the first gave, in the pool that the first leaves, gives back no more than
-- was put in.
pub round_trip_loses :
    (a i o fee den : ℕ) (r s : ConstantProductQuoteResult)
    → quote_constant_product_swap (input a i o fee den) ≡ returns r
    → quote_constant_product_swap (input r.amount_out_raw (o - r.amount_out_raw) (i + a) fee den)
      ≡ returns s
    → s.amount_out_raw ≤ a
round_trip_loses a i o fee den r s e k =
    let (h, q) = IsSwap-of (input a i o fee den) r e in
    let first = (quote-Keeps (input a i o fee den) r e).2 in
    let second = (quote-Keeps _ s k).2 in
    let q = r.amount_out_raw in
    let whole : o - q + q ≡ o = omega (arith, first.below) in
    let back : (o - q) * (i + a) ≤ o * (i + a - s.amount_out_raw) =
      subst (λ n. (o - q) * (i + a) ≤ n * (i + a - s.amount_out_raw)) whole second.product in
    let kept : i * o ≤ (i + a - s.amount_out_raw) * o = grind (arith, first.product, back) in
    let left : i ≤ i + a - s.amount_out_raw =
      mul_cancel i (i + a - s.amount_out_raw) o h.out_positive kept in
    omega (arith, second.below, left)

share_mono : (q K x y R : ℕ) → 0 < K → 0 < R → x ≤ y → q * (K + x) ≤ x * R → q * (K + y) ≤ y * R
share_mono q K x y R k r le e =
    let b : q < R = share_below q K x R k r e in
    let d : y ≡ x + (y - x) = omega arith in
    subst (λ n. q * (K + n) ≤ n * R) (sym d)
      (grind (arith, e, mul_mono q R (y - x) (y - x) (omega arith) (omega arith)))

amount_out_mono :
    (a b i o fee den : ℕ)
    → IsSwap a i o fee den
    → a ≤ b
    → amount_out a i o fee den ≤ amount_out b i o fee den
unfolding amount_out
amount_out_mono a b i o fee den h le =
    let k : 0 < i * den = mul_pos i den h.in_positive (omega (arith, h.fee_below)) in
    let wider : a * (den - fee) ≤ b * (den - fee) =
      mul_mono a b (den - fee) (den - fee) le (omega arith) in
    le_div (amount_out a i o fee den) (b * (den - fee) * o) (i * den + b * (den - fee))
      (omega arith)
      (share_mono (amount_out a i o fee den) (i * den) (a * (den - fee)) (b * (den - fee)) o k
        h.out_positive wider (amount_out_share a i o fee den h))

-- In one pool a larger amount in is never quoted a smaller amount out.
pub quote_mono :
    (a b i o fee den : ℕ) (r s : ConstantProductQuoteResult)
    → a ≤ b
    → quote_constant_product_swap (input a i o fee den) ≡ returns r
    → quote_constant_product_swap (input b i o fee den) ≡ returns s
    → r.amount_out_raw ≤ s.amount_out_raw
quote_mono a b i o fee den r s le e k =
    let (h, q) = IsSwap-of (input a i o fee den) r e in
    let (h', q') = IsSwap-of (input b i o fee den) s k in
    omega (
      arith,
      (quote_out _ _ _ _ _ r q).0,
      (quote_out _ _ _ _ _ s q').0,
      amount_out_mono a b i o fee den h le,
    )
