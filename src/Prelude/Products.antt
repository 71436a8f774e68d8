-- ===== src/Prelude/Products.antt =====
-- Products and quotients of native numbers, in the form that bounds use.
use Prim.Native.Nat.{ℕ, zero, suc, ◌+◌, ◌*◌, ◌/◌, ◌^◌, ◌≤◌, ◌<◌}
use native.Mathlib.Omega.{arith}
use native.Mathlib.Nat.{pow-zero, pow-suc}

pub mul_mono : (a b c d : ℕ) → a ≤ b → c ≤ d → a * c ≤ b * d
mul_mono a b c d h k = grind arith

pub mul_cancel : (a b k : ℕ) → 0 < k → a * k ≤ b * k → a ≤ b
mul_cancel a b k h e = grind arith

pub div_floor : (a b : ℕ) → 0 < b → a / b * b ≤ a
div_floor a b h = grind arith

pub div_near : (a b : ℕ) → 0 < b → a < a / b * b + b
div_near a b h = grind arith

-- The quotient is the largest number whose product fits.
pub le_div : (q a b : ℕ) → 0 < b → q * b ≤ a → q ≤ a / b
le_div q a b h k = grind arith

pub div_mono : (a b k : ℕ) → 0 < k → a ≤ b → a / k ≤ b / k
div_mono a b k h le = grind arith

pub pow_pos : (b n : ℕ) → 0 < b → 0 < b ^ n
pow_pos b zero h = omega (arith, pow-zero b)
pow_pos b (suc n) h = omega (arith, pow-suc b n, mul_mono 1 (b ^ n) 1 b (pow_pos b n h) h)

pub mul_pos : (a b : ℕ) → 0 < a → 0 < b → 0 < a * b
mul_pos a b h k = mul_mono 1 a 1 b h k
