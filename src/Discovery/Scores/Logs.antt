-- ===== src/Discovery/Scores/Logs.antt =====
-- The binary logarithm.
use hood_sentry.Prelude.{
  ℕ, zero, suc, ◌*◌, ◌/◌, ◌^◌, ◌≤◌, ◌<◌, ◌≡◌, refl, ap, ◌∙◌, inl, inr, arith, leb, lt→ltb,
  Bool-cases, div_floor, div_near, le_div,
}
use hood_sentry.Discovery.Scores.{halvings, integer_log2}

halvings_none : (fuel : ℕ) → halvings fuel 0 ≡ 0
unfolding halvings
halvings_none zero = refl
halvings_none (suc fuel) = refl

halvings_once : (fuel c : ℕ) → 1 ≤ c → halvings (suc fuel) c ≡ suc (halvings fuel (c / 2))
unfolding halvings
halvings_once fuel c p = rw (halvings, lt→ltb 0 c (omega (arith, p))) refl

-- The power of two at or below a number.
unfoldable pub Brackets : ℕ → ℕ → Type 0
Brackets k c = 2 ^ k ≤ c × c < 2 ^ suc k

Brackets-half : (k c : ℕ) → Brackets k (c / 2) → Brackets (suc k) c
unfolding Brackets
Brackets-half k c (lo, hi) = (
  omega (arith, lo, div_floor c 2 (omega arith), pow_double k),
  omega (arith, hi, div_near c 2 (omega arith), pow_double k, pow_double (suc k)),
)
  where
    pow_double : (k : ℕ) → 2 ^ suc k ≡ 2 ^ k * 2
    pow_double k = omega arith

halvings-Brackets :
    (fuel c : ℕ) → 1 ≤ c → c ≤ fuel → (k : ℕ) × (halvings fuel c ≡ suc k) × Brackets k c
unfolding Brackets
halvings-Brackets zero c p h = absurd (omega arith)
halvings-Brackets (suc fuel) c p h = elim (Bool-cases (leb c 1)) [
  | inl e ↦
      let one : c ≡ 1 = ground (arith, e) in
      (
        0,
        ap (halvings (suc fuel)) one
            ∙ halvings_once fuel 1 (omega arith)
            ∙ ap suc (halvings_none fuel),
        (omega (arith, one), omega (arith, one)),
      )
  | inr e ↦
      let big : 2 ≤ c = ground (arith, e) in
      let half : c / 2 ≤ fuel = omega (arith, div_floor c 2 (omega arith)) in
      let (k, q, b) =
        halvings-Brackets fuel (c / 2) (le_div 1 c 2 (omega arith) (omega arith)) half in
      let (lo, hi) = Brackets-half k c b in (suc k, halvings_once fuel c p ∙ ap suc q, (lo, hi))
]

-- The logarithm of a positive number is that of the greatest power of two that is not above it.
pub integer_log2-Brackets : (n : ℕ) → 1 ≤ n → Brackets (integer_log2 n) n
unfolding integer_log2 Brackets
integer_log2-Brackets n p = elim (Bool-cases (leb n 1)) [
  | inl e ↦ rw e (omega arith, ground (arith, e))
  | inr e ↦
      let (k, q, (lo, hi)) = halvings-Brackets n n p (omega arith) in
      rw (e, q) (ground (arith, lo), ground (arith, hi))
]
