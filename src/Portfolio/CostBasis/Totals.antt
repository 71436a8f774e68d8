-- ===== src/Portfolio/CostBasis/Totals.antt =====
-- The whole computation: when it ends with a result, what the lots hold, and when it fails.
use hood_sentry.Prelude.{
  ℕ, ◌+◌, ◌-◌, ◌*◌, ◌/◌, ◌<◌, ◌≡◌, refl, sym, ap, ◌∙◌, subst, inl, inr, Bool, true, not, ◌&&◌,
  Option, none, some, List, [], ◌∷◌, ◌++◌, arith, if◌then◌else◌, Bool-cases, Option-cases, length,
  replicate, length-append, length-drop, length-replicate,
}
use hood_sentry.Portfolio.CostBasis.{
  result_of, CostLot, CostFlow, Sale, Book, div?, dispose, settle, acquire, new_lot, book_flow,
  book_flows, empty, lot_basis, basis, unrealized, conclude, fifo_cost_basis, total_remaining,
  CostBasisResult, acquires, disposes, unrealized_of, average_of, ◌>>=◌, or_zero, fee_of,
}
use hood_sentry.Prelude.{All, All-append}
use hood_sentry.Prelude.Int.{ℤ, pos, sub_ℕ, ◌+ℤ◌}
use hood_sentry.Portfolio.CostBasis.Fifo.{IsHeld, Takes, consume-Takes, units}

-- Every acquisition is of something.
abbrev pub IsPositive : CostFlow → Type 0
IsPositive f = acquires f.kind ≡ true → 0 < f.amount

-- What the flows leave of a position, by itself: an acquisition adds, a disposal takes what is there.
abbrev pub position : ℕ → List CostFlow → ℕ
position p [] = p
position p (f ∷ fs) =
    position
      (if acquires f.kind
        then p + f.amount
        else (if disposes f.kind && not f.user_owned_transfer then p - f.amount else p))
      fs

pub record Holds (p : ℕ) (b : Book) : Type 0 where
  held : All IsHeld b.lots
  total : total_remaining b.lots ≡ p

length-units : (lots : List CostLot) → length (units lots) ≡ total_remaining lots
length-units [] = refl
length-units (lot ∷ lots) = omega (
  arith,
  length-append (replicate lot.remaining_amount lot.index) (units lots),
  length-replicate lot.remaining_amount lot.index,
  length-units lots,
)

total_remaining-append :
    (xs ys : List CostLot) → total_remaining (xs ++ ys) ≡ total_remaining xs + total_remaining ys
total_remaining-append [] ys = omega arith
total_remaining-append (x ∷ xs) ys = omega (arith, total_remaining-append xs ys)

Takes-total :
    (amount : ℕ) (lots : List CostLot) (s : Sale)
    → Takes amount lots s
    → total_remaining s.lots ≡ total_remaining lots - amount
Takes-total amount lots s t = omega (
  arith,
  length-units s.lots,
  length-units lots,
  ap length t.oldest,
  length-drop amount (units lots),
)

settle_lots : (f : CostFlow) (s : Sale) (b : Book) → (settle f s b).lots ≡ s.lots
unfolding settle
settle_lots f s b = ground arith

dispose-Holds :
    (f : CostFlow) (b : Book) (p : ℕ)
    → Holds p b
    → (b' : Book) × (dispose f b ≡ some b') × Holds (p - f.amount) b'
unfolding dispose
dispose-Holds f b p h =
    let (s, e, t) = consume-Takes f.amount 0 0 b.lots h.held in
    (
      settle f s b,
      rw e refl,
      record {
        held = subst (All IsHeld) (sym (settle_lots f s b)) t.held;
        total =
            ap total_remaining (settle_lots f s b)
            ∙ Takes-total f.amount b.lots s t
            ∙ ap (λ x. x - f.amount) h.total;
      },
    )

acquire-Holds :
    (f : CostFlow) (b : Book) (p : ℕ)
    → 0 < f.amount
    → Holds p b
    → Holds (p + f.amount) (acquire f b)
unfolding acquire
acquire-Holds f b p k h = record {
  held = All-append IsHeld b.lots _ h.held (record { holds = k; within = omega arith }, tt);
  total = omega (arith, total_remaining-append b.lots (new_lot (length b.lots) f ∷ []), h.total);
}

next_position : ℕ → CostFlow → ℕ
next_position p f =
    if acquires f.kind
    then p + f.amount
    else (if disposes f.kind && not f.user_owned_transfer then p - f.amount else p)

book_flow-Holds :
    (gas : Bool) (f : CostFlow) (b : Book) (p : ℕ)
    → IsPositive f
    → Holds p b
    → (b' : Book) × (book_flow gas f b ≡ some b') × Holds (next_position p f) b'
unfolding book_flow next_position
book_flow-Holds gas f b p k h =
    let paid = record b { fees = b.fees + fee_of gas f.fee_raw } in
    let h' : Holds p paid = record { held = h.held; total = h.total } in
    elim (Bool-cases (acquires f.kind)) [
      | inl y ↦ rw y (acquire f paid, refl, acquire-Holds f paid p (k y) h')
      | inr n ↦ rw n (elim (Bool-cases (disposes f.kind && not f.user_owned_transfer)) [
        | inl y ↦ rw y (dispose-Holds f paid p h')
        | inr m ↦ rw m (paid, refl, h')
      ])
    ]

pub book_flows-Holds :
    (gas : Bool) (fs : List CostFlow) (b : Book) (p : ℕ)
    → All IsPositive fs
    → Holds p b
    → (b' : Book) × (book_flows gas fs b ≡ some b') × Holds (position p fs) b'
unfolding book_flows next_position
book_flows-Holds gas [] b p k h = (b, refl, h)
book_flows-Holds gas (f ∷ fs) b p (k, ks) h =
    let (b', e, h') = book_flow-Holds gas f b p k h in
    let (b'', e', h'') = book_flows-Holds gas fs b' (next_position p f) ks h' in (b'', rw e e', h'')

div?-total : (a b : ℕ) → 0 < b → div? a b ≡ some (a / b)
unfolding div?
div?-total a b h = ground arith

lot_basis-total : (lot : CostLot) → 0 < lot.amount → (n : ℕ) × (lot_basis lot ≡ some n)
unfolding lot_basis
lot_basis-total lot h = elim (Option-cases lot.cost_raw) [
  | inl e ↦ (0, rw e refl)
  | inr (c, e) ↦ (c * lot.remaining_amount / lot.amount, rw e (div?-total _ _ h))
]

basis-total : (lots : List CostLot) → All IsHeld lots → (n : ℕ) × (basis lots ≡ some n)
unfolding basis
basis-total [] h = (0, refl)
basis-total (lot ∷ lots) (k, h) =
    let (b, e) = lot_basis-total lot (omega arith) in
    let (rest, e') = basis-total lots h in (b + rest, rw e (rw e'))

pub bind_some {ℓ κ} :
    {A : Type ℓ} {B : Type κ} {m : Option A} {a : A} (f : A → Option B)
    → m ≡ some a
    → (m >>= f) ≡ f a
bind_some f e = rw e refl

unrealized-total :
    (price : ℕ) (lots : List CostLot) → All IsHeld lots → (z : ℤ) × (unrealized price lots ≡ some z)
unfolding unrealized
unrealized-total price [] h = (pos 0, refl)
unrealized-total price (lot ∷ lots) (k, h) =
    let (rest, e') = unrealized-total price lots h in
    let cost = or_zero lot.cost_raw * lot.remaining_amount in
    (
      sub_ℕ (price * lot.remaining_amount) (cost / lot.amount) +ℤ rest,
      bind_some _ (div?-total cost lot.amount (omega arith)) ∙ bind_some _ e',
    )

unrealized_of-total :
    (price : Option ℕ) (lots : List CostLot)
    → All IsHeld lots
    → (u : Option ℤ) × (unrealized_of price lots ≡ some u)
unrealized_of-total none lots h = (none, refl)
unrealized_of-total (some price) lots h =
    let (z, e) = unrealized-total price lots h in (some z, rw e refl)

average_of-total :
    (b : ℕ) (lots : List CostLot) → All IsHeld lots → (a : Option ℕ) × (average_of b lots ≡ some a)
average_of-total b [] h = (none, refl)
average_of-total b (lot ∷ lots) (k, h) =
    let held = lot.remaining_amount + total_remaining lots in
    (some (b / held), bind_some _ (div?-total b held (omega arith)))

conclude-total :
    (flows : List CostFlow) (price : Option ℕ) (book : Book)
    → All IsHeld book.lots
    → (r : CostBasisResult) × (conclude flows price book ≡ some r) × (r.lots ≡ book.lots)
unfolding conclude
conclude-total flows price book h =
    let (b, e) = basis-total book.lots h in
    let (u, e') = unrealized_of-total price book.lots h in
    let (a, e'') = average_of-total b book.lots h in
    (result_of flows price book b u a, bind_some _ e ∙ bind_some _ e' ∙ bind_some _ e'', refl)

pub empty-Holds : Holds 0 empty
unfolding empty
empty-Holds = record { held = tt; total = refl }

-- If every acquisition is of something, the computation ends with a result: it never divides by
-- zero. Each lot of the result holds something, and together the lots hold what the flows leave of
-- the position by themselves: what was acquired less what disposals could take.
pub fifo_cost_basis-total :
    (flows : List CostFlow) (price : Option ℕ) (gas : Bool)
    → All IsPositive flows
    → (r : CostBasisResult) × (fifo_cost_basis flows price gas ≡ some r)
      × All IsHeld r.lots
      × (total_remaining r.lots ≡ position 0 flows)
unfolding fifo_cost_basis
fifo_cost_basis-total flows price gas h =
    let (b, e, k) = book_flows-Holds gas flows empty 0 h empty-Holds in
    let (r, e', l) = conclude-total flows price b k.held in
    (
      r,
      bind_some (conclude flows price) e ∙ e',
      subst (All IsHeld) (sym l) k.held,
      ap total_remaining l ∙ k.total,
    )
