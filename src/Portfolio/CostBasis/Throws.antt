-- ===== src/Portfolio/CostBasis/Throws.antt =====
-- When the computation fails.
use hood_sentry.Prelude.{
  ℕ, ◌+◌, ◌≡◌, refl, ◌∙◌, ◌≢◌, inl, inr, Bool, true, Option, none, some, List, [], ◌∷◌, ◌++◌,
  Option-cases, length,
}
use hood_sentry.Portfolio.CostBasis.{
  CostLot, CostFlow, Book, div?, acquire, new_lot, book_flow, book_flows, empty, lot_basis, basis,
  conclude, fifo_cost_basis, acquires, ◌>>=◌, fee_of,
}
use hood_sentry.Prelude.{All}
use hood_sentry.Portfolio.CostBasis.Totals.{IsPositive, book_flows-Holds, empty-Holds, bind_some}

-- An acquisition of nothing, at a known price.
abbrev pub IsEmptyBuy : CostFlow → Type 0
IsEmptyBuy f = (acquires f.kind ≡ true) × (f.amount ≡ 0) × (f.price_raw ≢ none)

basis-append-none :
    (xs : List CostLot) (lot : CostLot) → lot_basis lot ≡ none → basis (xs ++ lot ∷ []) ≡ none
unfolding basis
basis-append-none [] lot e = rw e refl
basis-append-none (x ∷ xs) lot e = elim (Option-cases (lot_basis x)) [
  | inl n ↦ rw n refl
  | inr (b, p) ↦ rw p (rw (basis-append-none xs lot e) refl)
]

empty_lot : (f : CostFlow) (n : ℕ) → IsEmptyBuy f → lot_basis (new_lot n f) ≡ none
unfolding lot_basis new_lot div?
empty_lot f n (a, z, p) = elim (Option-cases f.price_raw) [
  | inl e ↦ absurd (p e)
  | inr (price, e) ↦ rw (e, z) refl
]

book_flows-append :
    (gas : Bool) (fs gs : List CostFlow) (b : Book)
    → book_flows gas (fs ++ gs) b ≡ (book_flows gas fs b >>= book_flows gas gs)
unfolding book_flows
book_flows-append gas [] gs b = refl
book_flows-append gas (f ∷ fs) gs b = elim (Option-cases (book_flow gas f b)) [
  | inl n ↦ rw n refl
  | inr (b', e) ↦ rw e (book_flows-append gas fs gs b')
]

last_buy :
    (gas : Bool) (f : CostFlow) (b : Book)
    → acquires f.kind ≡ true
    → book_flows gas (f ∷ []) b
      ≡ some (acquire f (record b { fees = b.fees + fee_of gas f.fee_raw }))
unfolding book_flows book_flow
last_buy gas f b e = rw e refl

conclude_throws :
    (flows : List CostFlow) (price : Option ℕ) (book : Book)
    → basis book.lots ≡ none
    → conclude flows price book ≡ none
unfolding conclude
conclude_throws flows price book e = rw e refl

acquire_empty : (f : CostFlow) (b : Book) → IsEmptyBuy f → basis (acquire f b).lots ≡ none
unfolding acquire
acquire_empty f b k =
    basis-append-none b.lots (new_lot (length b.lots) f) (empty_lot f (length b.lots) k)

-- If the last flow is an acquisition of nothing at a known price, the computation throws, whatever
-- the flows before it are (each acquiring something) and whatever the price now is.
pub empty_buy_throws :
    (flows : List CostFlow) (f : CostFlow) (price : Option ℕ) (gas : Bool)
    → All IsPositive flows
    → IsEmptyBuy f
    → fifo_cost_basis (flows ++ f ∷ []) price gas ≡ none
unfolding fifo_cost_basis
empty_buy_throws flows f price gas h k =
    let (b, e, held) = book_flows-Holds gas flows empty 0 h empty-Holds in
    let paid = record b { fees = b.fees + fee_of gas f.fee_raw } in
    let booked : book_flows gas (flows ++ f ∷ []) empty ≡ some (acquire f paid) =
      book_flows-append gas flows (f ∷ []) empty ∙ bind_some _ e ∙ last_buy gas f b k.0 in
    bind_some (conclude (flows ++ f ∷ []) price) booked
    ∙ conclude_throws (flows ++ f ∷ []) price (acquire f paid) (acquire_empty f paid k)
