-- ===== src/Market/Depth/Rates.antt =====
-- Changing an amount to the normalized unit and back.
use hood_sentry.Prelude.{ℕ, ◌*◌, ◌≤◌, ◌<◌, ◌≡◌, refl, sym, subst, Option, some, arith}
use hood_sentry.Prelude.Int.{ℤ, pos, pos_part}
use hood_sentry.Prelude.{mul_cancel, mul_pos, div_floor, pow_pos}
use hood_sentry.Market.Arithmetic.{pow10}
use hood_sentry.Market.Depth.{
  Result, returns, QuoteNormalizationRate, Powers, powers, price_checked, validate_rate,
  normalize_quote_amount, denormalize_quote_amount, normalized_amount, denormalized_amount,
}

-- The powers and the price that divide are above zero.
record IsRate (price : ℕ) (p : Powers) : Type 0 where
  positive_price : 0 < price
  positive_source : 0 < p.source
  positive_normalized : 0 < p.normalized
  positive_power : 0 < p.price

pow10_pos : (n p : ℕ) → pow10 n ≡ some p → 0 < p
unfolding pow10
pow10_pos n p e = ground (arith, pow_pos 10 n (omega arith))

returned_powers :
    (s n q : Option ℕ) (p : Powers)
    → powers s n q ≡ returns p
    → (s ≡ some p.source) × (n ≡ some p.normalized) × (q ≡ some p.price)
returned_powers s n q p e = ground arith

checked :
    (price : ℤ) (o : Result Powers) (p : Powers)
    → price_checked price o ≡ returns p
    → (0 < pos_part price) × (o ≡ returns p)
checked price o p e = ground arith

validate_rate-IsRate :
    (r : QuoteNormalizationRate) (p : Powers)
    → validate_rate r ≡ returns p
    → IsRate (pos_part r.price_raw) p
unfolding validate_rate
validate_rate-IsRate r p e =
    let (price, q) = checked r.price_raw _ p e in
    let (s, n, t) = returned_powers _ _ _ p q in
    record {
      positive_price = price;
      positive_source = pow10_pos r.source_decimals p.source s;
      positive_normalized = pow10_pos r.normalized_decimals p.normalized n;
      positive_power = pow10_pos r.price_decimals p.price t;
    }

there_and_back :
    (x price : ℕ) (p : Powers)
    → IsRate price p
    → denormalized_amount (normalized_amount x price p) price p ≤ x
unfolding normalized_amount denormalized_amount
there_and_back x price p h =
    let unit = price * p.normalized in
    let scale = p.source * p.price in
    let n = normalized_amount x price p in
    let unit_pos : 0 < unit = mul_pos price p.normalized h.positive_price h.positive_normalized in
    let scale_pos : 0 < scale = mul_pos p.source p.price h.positive_source h.positive_power in
    let down : n * scale ≤ x * price * p.normalized =
      div_floor (x * price * p.normalized) scale scale_pos in
    let up : denormalized_amount n price p * unit ≤ n * p.source * p.price =
      div_floor (n * p.source * p.price) unit unit_pos in
    mul_cancel (denormalized_amount n price p) x unit unit_pos (grind (arith, down, up))

normalized :
    (x n : ℕ) (r : QuoteNormalizationRate)
    → normalize_quote_amount (pos x) r ≡ returns n
    → (p : Powers) × (validate_rate r ≡ returns p)
      × (n ≡ normalized_amount x (pos_part r.price_raw) p)
unfolding normalize_quote_amount
normalized x n r e = ground arith

denormalized :
    (n : ℕ) (r : QuoteNormalizationRate) (p : Powers)
    → validate_rate r ≡ returns p
    → denormalize_quote_amount (pos n) r ≡ returns (denormalized_amount n (pos_part r.price_raw) p)
unfolding denormalize_quote_amount
denormalized n r p e = rw e refl

-- An amount that was normalized can be changed back at the same rate, to no more than it was.
pub normalize-denormalize :
    (x n : ℕ) (r : QuoteNormalizationRate)
    → normalize_quote_amount (pos x) r ≡ returns n
    → (m : ℕ) × (denormalize_quote_amount (pos n) r ≡ returns m) × (m ≤ x)
normalize-denormalize x n r e =
    let (p, v, out) = normalized x n r e in
    let price = pos_part r.price_raw in
    (
      denormalized_amount n price p,
      denormalized n r p v,
      subst (λ k. denormalized_amount k price p ≤ x) (sym out)
          (there_and_back x price p (validate_rate-IsRate r p v)),
    )
