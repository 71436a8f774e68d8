-- ===== src/Portfolio/CostBasis.antt =====
-- packages/portfolio-engine/src/cost-basis.ts. Amounts and prices are bigints that are never negative;
-- a profit is signed. `none` is the RangeError of a bigint division by zero.
pub mod Fifo
pub mod Totals
pub mod Throws
mod Tests
use hood_sentry.Prelude.{
  ℕ, zero, suc, ◌+◌, ◌-◌, ◌*◌, ◌/◌, ◌%◌, ◌^◌, ◌≤◌, ◌<◌, min, max, ◌≡◌, refl, sym, ap, ◌∙◌, subst,
  ◌≢◌, ◌↔◌, ◌⊎◌, inl, inr, Bool, true, false, not, ◌&&◌, ◌||◌, Option, none, some, List, [], ◌∷◌,
  ◌++◌, map, arith, ltb, leb, ◌==◌, if◌then◌else◌, ltb→lt, lt→ltb, leb→le, ==_iff, tests,
  Bool-cases, Option-cases, length, get_elem?, set, get_or, take, drop, replicate, length-append,
  length-take, length-drop, length-map, length-replicate,
}
use Prim.Native.String.{String}
use hood_sentry.Prelude.Int.{ℤ, pos, sub_ℕ, ◌+ℤ◌, ◌-ℤ◌}

pub data FlowKind : Type 0 where
  buy sell transfer_in transfer_out user_transfer bridge_deposit bridge_withdrawal : FlowKind
  mint burn airdrop fee launchpad_buy launchpad_sell migration unknown : FlowKind

pub data Confidence : Type 0 where
  high medium low : Confidence

-- The identity `transaction:index` is kept as its two parts.
pub record CostLot : Type 0 where
  pub acquisition_transaction : String
  pub index : ℕ
  pub amount : ℕ
  pub cost_raw : Option ℕ
  pub normalized_value_raw : Option ℕ
  pub source : String
  pub confidence : Confidence
  pub remaining_amount : ℕ

-- An optional mark that is absent is false.
pub record CostFlow : Type 0 where
  pub kind : FlowKind
  pub transaction : String
  pub amount : ℕ
  pub price_raw : Option ℕ
  pub fee_raw : Option ℕ
  pub source : String
  pub user_owned_transfer : Bool
  pub confidence : Confidence

pub data Warning : Type 0 where
  missing_acquisition_price incomplete_history missing_sale_price missing_current_price : Warning

-- The text of a warning holds `Incomplete` or `Missing`.
abbrev pub tells_gap : Warning → Bool
tells_gap missing_acquisition_price = true
tells_gap incomplete_history = true
tells_gap missing_sale_price = true
tells_gap missing_current_price = true

-- The local variables of the loop over the flows. `proceeds` is never null.
pub record Book : Type 0 where
  pub lots : List CostLot
  pub realized : Option ℤ
  pub proceeds : ℕ
  pub fees : ℕ
  pub warnings : List Warning

infixl 5 ◌>>=◌
abbrev pub ◌>>=◌ {ℓ κ} : {A : Type ℓ} {B : Type κ} → Option A → (A → Option B) → Option B
none >>= f = none
some a >>= f = f a

-- Division of bigints.
unfoldable pub div? : ℕ → ℕ → Option ℕ
div? a b = if b == 0 then none else some (a / b)

abbrev pub acquires : FlowKind → Bool
acquires buy = true
acquires launchpad_buy = true
acquires mint = true
acquires airdrop = true
acquires bridge_deposit = true
acquires migration = true
acquires _ = false

abbrev pub disposes : FlowKind → Bool
disposes sell = true
disposes launchpad_sell = true
disposes burn = true
disposes transfer_out = true
disposes _ = false

abbrev pub times : ℕ → Option ℕ → Option ℕ
times amount none = none
times amount (some price) = some (amount * price)

unfoldable pub new_lot : ℕ → CostFlow → CostLot
new_lot index f = record {
  acquisition_transaction = f.transaction;
  index = index;
  amount = f.amount;
  cost_raw = times f.amount f.price_raw;
  normalized_value_raw = times f.amount f.price_raw;
  source = f.source;
  confidence = f.confidence;
  remaining_amount = f.amount;
}

-- What the inner loop of a disposal leaves: the amount that no lot covers, the cost of what was
-- covered, the lots, and how many lots had no price.
pub record Sale : Type 0 where
  pub remaining : ℕ
  pub cost : ℕ
  pub lots : List CostLot
  pub unpriced : ℕ

-- The cost of `used` units of a lot; a lot without a price counts as unpriced.
unfoldable pub lot_cost : CostLot → ℕ → Option (ℕ × ℕ)
unfolding div?
lot_cost lot used = elim lot.cost_raw [
  | none ↦ some (0, 1)
  | some c ↦ div? (c * used) lot.amount >>= λ share. some (share, 0)
]

-- The loop. A lot that is not used up is left over only when nothing remains to be covered.
unfoldable pub consume : ℕ → ℕ → ℕ → List CostLot → Option Sale
unfolding lot_cost
consume remaining cost unpriced [] =
    some (record { remaining = remaining; cost = cost; lots = []; unpriced = unpriced })
consume remaining cost unpriced (lot ∷ lots) =
    let used = min remaining lot.remaining_amount in
    let lot' = record lot { remaining_amount = lot.remaining_amount - used } in
    let rest : ℕ × ℕ → Option Sale =
      λ (share, gap). consume (remaining - used) (cost + share) (unpriced + gap) lots in
    let done : ℕ × ℕ → Option Sale = λ (share, gap). some (record {
      remaining = remaining - used;
      cost = cost + share;
      lots = lot' ∷ lots;
      unpriced = unpriced + gap;
    }) in
    if remaining == 0
    then some (record { remaining = 0; cost = cost; lots = lot ∷ lots; unpriced = unpriced })
    else (if lot'.remaining_amount == 0
        then (lot_cost lot used >>= rest)
        else (lot_cost lot used >>= done))

-- `warnings.push('Missing acquisition price')`, once for each such lot.
abbrev pub warn_times : ℕ → List Warning → List Warning
warn_times zero ws = ws
warn_times (suc n) ws = warn_times n (ws ++ missing_acquisition_price ∷ [])

abbrev pub unless {ℓ} : {A : Type ℓ} → Bool → Option A → Option A
unless true o = none
unless false o = o

abbrev pub add_profit : ℕ → ℕ → Option ℤ → Option ℤ
add_profit proceeds cost none = none
add_profit proceeds cost (some r) = some (r +ℤ sub_ℕ proceeds cost)

-- What a disposal does with its price, after the loop over the lots.
unfoldable pub settle : CostFlow → Sale → Book → Book
unfolding ◌+ℤ◌
settle f s b =
    let realized = unless (not (s.unpriced == 0) || not (s.remaining == 0)) b.realized in
    let warnings = warn_times s.unpriced b.warnings in
    let warnings' = if s.remaining == 0 then warnings else warnings ++ incomplete_history ∷ [] in
    let unsold : Book = record b {
      lots = s.lots;
      realized = none;
      warnings = warnings' ++ missing_sale_price ∷ [];
    } in
    let sold : ℕ → Book = λ price. record b {
      lots = s.lots;
      realized = add_profit (f.amount * price) s.cost realized;
      proceeds = b.proceeds + f.amount * price;
      warnings = warnings';
    } in
    elim f.price_raw [ none ↦ unsold | some price ↦ sold price ]

unfoldable pub dispose : CostFlow → Book → Option Book
unfolding consume settle
dispose f b = consume f.amount 0 0 b.lots >>= λ s. some (settle f s b)

unfoldable pub acquire : CostFlow → Book → Book
unfolding new_lot
acquire f b = record b { lots = b.lots ++ new_lot (length b.lots) f ∷ [] }

abbrev pub fee_of : Bool → Option ℕ → ℕ
fee_of true (some n) = n
fee_of _ _ = 0

-- The body of the loop over the flows.
unfoldable pub book_flow : Bool → CostFlow → Book → Option Book
unfolding dispose acquire
book_flow gas f b =
    let paid = record b { fees = b.fees + fee_of gas f.fee_raw } in
    if acquires f.kind
    then some (acquire f paid)
    else (if disposes f.kind && not f.user_owned_transfer then dispose f paid else some paid)

unfoldable pub book_flows : Bool → List CostFlow → Book → Option Book
book_flows gas [] b = some b
book_flows gas (f ∷ fs) b = book_flow gas f b >>= book_flows gas fs

unfoldable pub empty : Book
empty = record { lots = []; realized = some (pos 0); proceeds = 0; fees = 0; warnings = [] }

-- (cost * remaining) / amount of a lot, 0 for one without a price where it is not computed.
unfoldable pub lot_basis : CostLot → Option ℕ
unfolding div?
lot_basis lot = elim lot.cost_raw [
  | none ↦ some 0
  | some c ↦ div? (c * lot.remaining_amount) lot.amount
]

unfoldable pub basis : List CostLot → Option ℕ
unfolding lot_basis
basis [] = some 0
basis (lot ∷ lots) = lot_basis lot >>= λ b. basis lots >>= λ rest. some (b + rest)

abbrev pub total_remaining : List CostLot → ℕ
total_remaining [] = 0
total_remaining (lot ∷ lots) = lot.remaining_amount + total_remaining lots

abbrev pub or_zero : Option ℕ → ℕ
or_zero none = 0
or_zero (some n) = n

-- The sum over the lots of what they are worth now less their cost.
unfoldable pub unrealized : ℕ → List CostLot → Option ℤ
unfolding div? ◌+ℤ◌
unrealized price [] = some (pos 0)
unrealized price (lot ∷ lots) =
    div? (or_zero lot.cost_raw * lot.remaining_amount) lot.amount >>= λ cost.
    unrealized price lots >>= λ rest. some (sub_ℕ (price * lot.remaining_amount) cost +ℤ rest)

abbrev pub is_confidence : Confidence → Confidence → Bool
is_confidence high high = true
is_confidence medium medium = true
is_confidence low low = true
is_confidence _ _ = false

abbrev pub any {ℓ} : {A : Type ℓ} → (A → Bool) → List A → Bool
any p [] = false
any p (x ∷ xs) = p x || any p xs

unfoldable pub confidence_of : List CostFlow → Confidence
confidence_of fs =
    if any (λ f. is_confidence f.confidence low) fs
    then low
    else (if any (λ f. is_confidence f.confidence medium) fs then medium else high)

pub record CostBasisResult : Type 0 where
  pub lots : List CostLot
  pub realized_pnl_raw : Option ℤ
  pub unrealized_pnl_raw : Option ℤ
  pub cost_basis_raw : ℕ
  pub proceeds_raw : ℕ
  pub fees_raw : ℕ
  pub average_entry_raw : Option ℕ
  pub confidence : Confidence
  pub incomplete_history_mark : Bool
  pub warnings : List Warning

abbrev pub unrealized_of : Option ℕ → List CostLot → Option (Option ℤ)
unrealized_of none lots = some none
unrealized_of (some price) lots = unrealized price lots >>= λ u. some (some u)

abbrev pub average_of : ℕ → List CostLot → Option (Option ℕ)
average_of b [] = some none
average_of b (lot ∷ lots) = div? b (total_remaining (lot ∷ lots)) >>= λ a. some (some a)

abbrev pub closing_warnings : Option ℕ → List CostLot → List Warning → List Warning
closing_warnings none (lot ∷ lots) ws = ws ++ missing_current_price ∷ []
closing_warnings _ _ ws = ws

-- The object that is returned.
unfoldable pub result_of :
    List CostFlow → Option ℕ → Book → ℕ → Option ℤ → Option ℕ → CostBasisResult
result_of flows price book b u a = record {
  lots = book.lots;
  realized_pnl_raw = book.realized;
  unrealized_pnl_raw = u;
  cost_basis_raw = b;
  proceeds_raw = book.proceeds;
  fees_raw = book.fees;
  average_entry_raw = a;
  confidence = confidence_of flows;
  incomplete_history_mark = any tells_gap (closing_warnings price book.lots book.warnings);
  warnings = closing_warnings price book.lots book.warnings;
}

-- What is computed after the loop.
unfoldable pub conclude : List CostFlow → Option ℕ → Book → Option CostBasisResult
unfolding basis unrealized div? result_of confidence_of
conclude flows price book = basis book.lots >>= λ b. unrealized_of price book.lots >>= λ u.
    average_of b book.lots >>= λ a. some (result_of flows price book b u a)

unfoldable pub fifo_cost_basis : List CostFlow → Option ℕ → Bool → Option CostBasisResult
unfolding book_flows empty conclude
fifo_cost_basis flows price gas = book_flows gas flows empty >>= conclude flows price
