-- ===== src/Portfolio/CostBasis/Tests.antt =====
-- Two purchases and a sale.
use hood_sentry.Prelude.{ℕ, ◌≡◌, refl, true, false, Option, none, some, List, [], ◌∷◌, arith}
use mathlib.Core.Option
use hood_sentry.Prelude.{All}
use hood_sentry.Prelude.Int.{pos}
use hood_sentry.Portfolio.CostBasis.{
  FlowKind, buy, sell, high, CostLot, CostFlow, Sale, consume, new_lot, fifo_cost_basis,
  total_remaining, CostBasisResult, book_flow, lot_cost,
}
use hood_sentry.Portfolio.CostBasis.Fifo.{IsHeld, Takes, consume-Takes}
use hood_sentry.Portfolio.CostBasis.Throws.{empty_buy_throws}
use hood_sentry.Portfolio.CostBasis.Totals.{fifo_cost_basis-total}

abbrev flow : FlowKind → ℕ → Option ℕ → CostFlow
flow kind amount price = record {
  kind = kind;
  transaction = "0x1";
  amount = amount;
  price_raw = price;
  fee_raw = some 3;
  source = "dex";
  user_owned_transfer = false;
  confidence = high;
}

abbrev flows : List CostFlow
flows = flow buy 10 (some 5) ∷ flow buy 4 (some 8) ∷ flow sell 12 (some 9) ∷ []

abbrev lots : List CostLot
lots = new_lot 0 (flow buy 10 (some 5)) ∷ new_lot 1 (flow buy 4 (some 8)) ∷ []

-- 12 * 9 - (10 * 5 + 2 * 8) = 42
profit_of_the_sale :
    Option.map (λ r. r.realized_pnl_raw) (fifo_cost_basis flows (some 10) true)
    ≡ some (some (pos 42))
unfolding fifo_cost_basis lot_cost book_flow
profit_of_the_sale = refl

consume-Takes_example : (s : Sale) × (consume 12 0 0 lots ≡ some s) × Takes 12 lots s
unfolding new_lot
consume-Takes_example = consume-Takes 12 0 0 lots (
  record { holds = omega arith; within = omega arith },
  (record { holds = omega arith; within = omega arith }, tt),
)

fifo_cost_basis-total_example :
    (r : CostBasisResult) × (fifo_cost_basis flows (some 10) true ≡ some r)
    × All IsHeld r.lots
    × (total_remaining r.lots ≡ 2)
fifo_cost_basis-total_example =
    fifo_cost_basis-total flows (some 10) true
      ((λ h. omega arith), ((λ h. omega arith), ((λ h. cc), tt)))

empty_buy_throws_example :
    fifo_cost_basis (flow buy 5 (some 2) ∷ flow buy 0 (some 2) ∷ []) none true ≡ none
empty_buy_throws_example =
    empty_buy_throws (flow buy 5 (some 2) ∷ []) (flow buy 0 (some 2)) none true
      ((λ h. omega arith), tt) (refl, refl, (λ e. cc))
