-- ===== src/Portfolio/CostBasis/Fifo.antt =====
-- A disposal takes the oldest units first, and never fails on lots that hold something.
use hood_sentry.Prelude.{
  All, ℕ, zero, suc, ◌+◌, ◌-◌, ◌*◌, ◌/◌, ◌≤◌, ◌<◌, min, ◌≡◌, refl, sym, ◌∙◌, inl, inr, some, List,
  [], ◌∷◌, ◌++◌, arith, leb, leb→le, Bool-cases, Option-cases, drop, replicate,
}
use hood_sentry.Portfolio.CostBasis.{CostLot, Sale, div?, lot_cost, consume, total_remaining}

-- A lot holds something, and no more than was acquired.
pub record IsHeld (lot : CostLot) : Type 0 where
  pub holds : 0 < lot.remaining_amount
  pub within : lot.remaining_amount ≤ lot.amount

-- Which lot each unit that is held stands in, oldest first.
abbrev pub units : List CostLot → List ℕ
units [] = []
units (lot ∷ lots) = replicate lot.remaining_amount lot.index ++ units lots

-- What a disposal of `amount` does to held lots.
pub record Takes (amount : ℕ) (lots : List CostLot) (s : Sale) : Type 0 where
  pub held : All IsHeld s.lots
  pub oldest : units s.lots ≡ drop amount (units lots)
  pub short : s.remaining ≡ amount - total_remaining lots

drop-append-replicate :
    (n k : ℕ) (i : ℕ) (xs : List ℕ)
    → k ≤ n
    → drop k (replicate n i ++ xs) ≡ replicate (n - k) i ++ xs
drop-append-replicate n zero i xs h = let e : n - 0 ≡ n = omega arith in rw e
drop-append-replicate zero (suc k) i xs h = absurd (omega arith)
drop-append-replicate (suc n) (suc k) i xs h =
    let e : suc n - suc k ≡ n - k = omega arith in
    rw e (drop-append-replicate n k i xs (omega arith))

drop-past-replicate :
    (n k : ℕ) (i : ℕ) (xs : List ℕ) → n ≤ k → drop k (replicate n i ++ xs) ≡ drop (k - n) xs
drop-past-replicate zero k i xs h = let e : k - 0 ≡ k = omega arith in rw e
drop-past-replicate (suc n) zero i xs h = absurd (omega arith)
drop-past-replicate (suc n) (suc k) i xs h =
    let e : suc k - suc n ≡ k - n = omega arith in rw e (drop-past-replicate n k i xs (omega arith))

lot_cost-total :
    (lot : CostLot) (used : ℕ) → 0 < lot.amount → (p : ℕ × ℕ) × (lot_cost lot used ≡ some p)
unfolding lot_cost div?
lot_cost-total lot used h = elim (Option-cases lot.cost_raw) [
  | inl e ↦ ((0, 1), rw e)
  | inr (c, e) ↦ ((c * used / lot.amount, 0), rw e (ground arith))
]

consume_all :
    (remaining cost unpriced share gap : ℕ) (lot : CostLot) (lots : List CostLot)
    → 0 < remaining
    → lot.remaining_amount ≤ remaining
    → lot_cost lot lot.remaining_amount ≡ some (share, gap)
    → consume remaining cost unpriced (lot ∷ lots)
      ≡ consume (remaining - lot.remaining_amount) (cost + share) (unpriced + gap) lots
unfolding consume
consume_all remaining cost unpriced share gap lot lots p h e =
    let all : min remaining lot.remaining_amount ≡ lot.remaining_amount = omega arith in
    rw all (rw e (ground arith))

consume_part :
    (remaining cost unpriced share gap : ℕ) (lot : CostLot) (lots : List CostLot)
    → 0 < remaining
    → remaining < lot.remaining_amount
    → lot_cost lot remaining ≡ some (share, gap)
    → consume remaining cost unpriced (lot ∷ lots)
      ≡ some (record {
        remaining = 0;
        cost = cost + share;
        lots = record lot { remaining_amount = lot.remaining_amount - remaining } ∷ lots;
        unpriced = unpriced + gap;
      })
unfolding consume
consume_part remaining cost unpriced share gap lot lots p h e =
    let all : min remaining lot.remaining_amount ≡ remaining = omega arith in
    rw all (rw e (ground arith))

consume_no_lots :
    (remaining cost unpriced : ℕ)
    → consume remaining cost unpriced []
      ≡ some (record { remaining = remaining; cost = cost; lots = []; unpriced = unpriced })
unfolding consume
consume_no_lots remaining cost unpriced = refl

consume_nothing :
    (cost unpriced : ℕ) (lot : CostLot) (lots : List CostLot)
    → consume 0 cost unpriced (lot ∷ lots)
      ≡ some (record { remaining = 0; cost = cost; lots = lot ∷ lots; unpriced = unpriced })
unfolding consume
consume_nothing cost unpriced lot lots = refl

drop-nil : (n : ℕ) → drop {A = ℕ} n [] ≡ []
drop-nil zero = refl
drop-nil (suc n) = refl

Takes-all :
    (remaining : ℕ) (lot : CostLot) (lots : List CostLot) (s : Sale)
    → lot.remaining_amount ≤ remaining
    → Takes (remaining - lot.remaining_amount) lots s
    → Takes remaining (lot ∷ lots) s
Takes-all remaining lot lots s h t = record {
  held = t.held;
  oldest =
      t.oldest ∙ sym (drop-past-replicate lot.remaining_amount remaining lot.index (units lots) h);
  short = omega (arith, t.short);
}

-- A disposal of any amount from lots that hold something ends without an error, takes the oldest
-- units, keeps every lot that holds something, and is short of exactly what the lots do not hold.
pub consume-Takes :
    (remaining cost unpriced : ℕ) (lots : List CostLot)
    → All IsHeld lots
    → (s : Sale) × (consume remaining cost unpriced lots ≡ some s) × Takes remaining lots s
consume-Takes remaining cost unpriced [] h = (
  _,
  consume_no_lots remaining cost unpriced,
  record { held = tt; oldest = sym (drop-nil remaining); short = omega arith },
)
consume-Takes zero cost unpriced (lot ∷ lots) (held, h) = (
  _,
  consume_nothing cost unpriced lot lots,
  record { held = (held, h); oldest = refl; short = omega arith },
)
consume-Takes (suc r) cost unpriced (lot ∷ lots) (held, h) =
    elim (Bool-cases (leb lot.remaining_amount (suc r))) [
      | inl enough ↦ all (λ k c u. consume-Takes k c u lots h) (leb→le _ _ enough)
      | inr more ↦ part (ground arith)
    ]
  where
    all :
        ((k c u : ℕ) → (s : Sale) × (consume k c u lots ≡ some s) × Takes k lots s)
        → lot.remaining_amount ≤ suc r
        → (s : Sale) × (consume (suc r) cost unpriced (lot ∷ lots) ≡ some s)
          × Takes (suc r) (lot ∷ lots) s
    all rest le =
        let (p, e) = lot_cost-total lot lot.remaining_amount (omega arith) in
        let (s, done, t) = rest (suc r - lot.remaining_amount) (cost + p.0) (unpriced + p.1) in
        (
          s,
          consume_all (suc r) cost unpriced p.0 p.1 lot lots (omega arith) le e ∙ done,
          Takes-all (suc r) lot lots s le t,
        )

    part :
        suc r < lot.remaining_amount
        → (s : Sale) × (consume (suc r) cost unpriced (lot ∷ lots) ≡ some s)
          × Takes (suc r) (lot ∷ lots) s
    part lt' =
        let (p, e) = lot_cost-total lot (suc r) (omega arith) in
        (
          _,
          consume_part (suc r) cost unpriced p.0 p.1 lot lots (omega arith) lt' e,
          record {
            held = (record { holds = omega arith; within = omega arith }, h);
            oldest = sym (
                drop-append-replicate lot.remaining_amount (suc r) lot.index (units lots)
                  (omega arith));
            short = omega arith;
          },
        )
