-- ===== src/Indexer/Reorg/Ancestor.antt =====
-- The common ancestor that a detection finds.
use hood_sentry.Prelude.{
  ℕ, zero, suc, ◌≤◌, ◌<◌, ◌≡◌, refl, sym, ap, ◌∙◌, subst, ◌⊎◌, inl, inr, Bool, true, false, Option,
  none, some, arith, ◌==◌, ==_iff, Bool-cases,
}
use Prim.Native.String.{String}
use mathlib.Core.Option.{some-injective}
use hood_sentry.Indexer.Reorg.{agreed, at_or_below, find_common_ancestor}

-- The database has a canonical block of the number with a hash, and the chain has it too.
abbrev pub agrees : (ℕ → Option String) → (ℕ → Option String) → ℕ → Bool
agrees stored fetched n = elim (agreed (stored n) (fetched n)) [ none ↦ false | some h ↦ true ]

at_or_below_cases :
    (k n : ℕ) (h : String) (o : Option String) (below : Option (ℕ × String))
    → at_or_below k o below ≡ some (n, h)
    → ((k ≡ n) × (o ≡ some h)) ⊎ ((o ≡ none) × (below ≡ some (n, h)))
at_or_below_cases k n h none below e = inr (refl, e)
at_or_below_cases k n h (some g) below e =
    let p = some-injective _ _ e in inl (ap (λ x. x.0) p, ap (λ x. some x.1) p)

pub found :
    (stored fetched : ℕ → Option String) (start n : ℕ) (h : String)
    → find_common_ancestor stored fetched start ≡ some (n, h)
    → (0 < n) × (n ≤ start) × (agreed (stored n) (fetched n) ≡ some h)
unfolding find_common_ancestor
found stored fetched zero n h e = cc
found stored fetched (suc start) n h e =
    elim (at_or_below_cases (suc start) n h (agreed (stored (suc start)) (fetched (suc start))) _
      e) [
        | inl (same, q) ↦
            (omega arith, omega arith, subst (λ k. agreed (stored k) (fetched k) ≡ some h) same q)
        | inr (other, q) ↦ let (a, b, c) = found stored fetched start n h q in (a, omega arith, c)
      ]

others :
    (stored fetched : ℕ → Option String) (start n m : ℕ) (h : String)
    → find_common_ancestor stored fetched start ≡ some (n, h)
    → n < m
    → m ≤ start
    → agreed (stored m) (fetched m) ≡ none
unfolding find_common_ancestor
others stored fetched zero n m h e l k = cc
others stored fetched (suc start) n m h e l k =
    elim (at_or_below_cases (suc start) n h (agreed (stored (suc start)) (fetched (suc start))) _
      e) [
        | inl (same, q) ↦ absurd (omega arith)
        | inr (other, q) ↦ elim (Bool-cases (m == suc start)) [
          | inl top ↦
              let at : m ≡ suc start = (==_iff m (suc start)).0 top in
              subst (λ i. agreed (stored i) (fetched i) ≡ none) (sym at) other
          | inr lower ↦ others stored fetched start n m h q l (ground arith)
        ]
      ]

agrees-some :
    (stored fetched : ℕ → Option String) (n : ℕ) (h : String)
    → agreed (stored n) (fetched n) ≡ some h
    → agrees stored fetched n ≡ true
agrees-some stored fetched n h e = ap (λ o. elim o [ none ↦ false | some x ↦ true ]) e

agrees-none :
    (stored fetched : ℕ → Option String) (n : ℕ)
    → agreed (stored n) (fetched n) ≡ none
    → agrees stored fetched n ≡ false
agrees-none stored fetched n e = ap (λ o. elim o [ none ↦ false | some x ↦ true ]) e

==_refl : (n : ℕ) → (n == n) ≡ true
==_refl n = ground arith

-- The ancestor that is found is above block 0, no higher than the start, the database and the chain
-- agree on its hash, and of the blocks from it up to the start they agree on no other.
pub find_common_ancestor-agrees :
    (stored fetched : ℕ → Option String) (start n m : ℕ) (h : String)
    → find_common_ancestor stored fetched start ≡ some (n, h)
    → n ≤ m
    → m ≤ start
    → (0 < n)
      × (n ≤ start)
      × (agreed (stored n) (fetched n) ≡ some h)
      × (agrees stored fetched m ≡ (m == n))
find_common_ancestor-agrees stored fetched start n m h e l k =
    let (positive, below, same) = found stored fetched start n h e in
    (
      positive,
      below,
      same,
      elim (Bool-cases (m == n)) [
        | inl here ↦
            let at : m ≡ n = (==_iff m n).0 here in
            subst (λ i. agrees stored fetched i ≡ (i == n)) (sym at)
              (agrees-some stored fetched n h same ∙ sym (==_refl n))
        | inr there ↦
            agrees-none stored fetched m (others stored fetched start n m h e (ground arith) k)
            ∙ sym there
      ],
    )
