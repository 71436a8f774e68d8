-- ===== src/Indexer/Fetcher/Ends.antt =====
-- The workers of a window come to an end.
use hood_sentry.Prelude.{
  ℕ, zero, suc, ◌+◌, ◌-◌, ◌*◌, ◌≤◌, ◌<◌, ◌≡◌, refl, ◌⊎◌, inl, inr, Bool, true, false, Option, some,
  List, [], ◌∷◌, arith, ltb, ◌==◌, ltb→lt, Bool-cases, length, get_elem?,
}
use hood_sentry.Prelude.Attempt.{Attempt, threw, returned}
use hood_sentry.Indexer.Blocks.{BlockData}
use hood_sentry.Indexer.Fetcher.Windows.{
  Window, Turn, take_index, answer_at, taken, settled, turn, turns, window, worker_count, is_done,
}
use hood_sentry.Indexer.Fetcher.Schedules.{length-remove_at}

-- A bound on the turns that are left.
abbrev pub left_of : ℕ → Window → ℕ
left_of count w = 3 * (count - w.cursor) + 2 * length w.busy + w.idle

abbrev pub is_enabled : Turn → Window → Bool
is_enabled take_index w = ltb 0 w.idle
is_enabled (answer_at k) w = ltb k (length w.busy)

abbrev pub AllEnabled : (ℕ → Attempt (Option BlockData)) → ℕ → List Turn → Window → Type 0
AllEnabled answer count [] w = Unit
AllEnabled answer count (t ∷ ts) w =
    (is_enabled t w ≡ true) × AllEnabled answer count ts (turn answer count t w)

taken_shrinks :
    (count : ℕ) (w : Window) → 0 < w.idle → left_of count (taken count w) < left_of count w
unfolding taken
taken_shrinks count w h = grind arith

settled_shrinks :
    (count k i : ℕ) (a : Attempt (Option BlockData)) (w : Window)
    → get_elem? w.busy k ≡ some i
    → left_of count (settled k i a w) < left_of count w
settled_shrinks count k i threw w e = omega (arith, length-remove_at w.busy k i e)
settled_shrinks count k i (returned r) w e = omega (arith, length-remove_at w.busy k i e)

in_range : (js : List ℕ) (k : ℕ) → k < length js → (i : ℕ) × (get_elem? js k ≡ some i)
in_range [] k h = elim h [ ]
in_range (j ∷ js) zero h = (j, refl)
in_range (j ∷ js) (suc k) h = in_range js k (omega (arith, h))

turn_shrinks :
    (answer : ℕ → Attempt (Option BlockData)) (count : ℕ) (t : Turn) (w : Window)
    → is_enabled t w ≡ true
    → left_of count (turn answer count t w) < left_of count w
unfolding turn
turn_shrinks answer count take_index w h =
    let busy : (w.idle == 0) ≡ false = ground arith in
    rw busy (taken_shrinks count w (ltb→lt _ _ h))
turn_shrinks answer count (answer_at k) w h =
    let (i, e) = in_range w.busy k (ltb→lt _ _ h) in rw e (settled_shrinks count k i (answer i) w e)

turns_shrink :
    (answer : ℕ → Attempt (Option BlockData)) (count : ℕ) (ts : List Turn) (w : Window)
    → AllEnabled answer count ts w
    → length ts + left_of count (turns answer count ts w) ≤ left_of count w
unfolding turns
turns_shrink answer count [] w h = omega arith
turns_shrink answer count (t ∷ ts) w (p, h) =
    omega (
      arith,
      turn_shrinks answer count t w p,
      turns_shrink answer count ts (turn answer count t w) h,
    )

first_turn :
    (w : Window) → (w.failed ≡ true) ⊎ (is_done w ≡ true) ⊎ ((t : Turn) × (is_enabled t w ≡ true))
first_turn w = elim (Bool-cases (ltb 0 w.idle)) [
  | inl y ↦ inr (inr (take_index, y))
  | inr o ↦ elim (Bool-cases w.failed) [
    | inl f ↦ inl f
    | inr g ↦ elim (Bool-cases (ltb 0 (length w.busy))) [
      | inl y ↦ inr (inr (answer_at 0, y))
      | inr n ↦ inr (inl (ground arith))
    ]
  ]
]

-- The workers of a window come to an end: they take at most three turns for each block and one
-- for each worker, and until a request has failed or they have all returned, one of them can go on.
pub turns_bounded :
    (answer : ℕ → Attempt (Option BlockData)) (count concurrency : ℕ) (ts : List Turn)
    → AllEnabled answer count ts (window concurrency count)
    → let w = turns answer count ts (window concurrency count) in
      (length ts ≤ 3 * count + worker_count concurrency count)
      × ((w.failed ≡ true) ⊎ (is_done w ≡ true) ⊎ ((t : Turn) × (is_enabled t w ≡ true)))
turns_bounded answer count concurrency ts h = (
  omega (arith, turns_shrink answer count ts (window concurrency count) h),
  first_turn (turns answer count ts (window concurrency count)),
)
