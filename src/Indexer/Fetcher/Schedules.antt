-- ===== src/Indexer/Fetcher/Schedules.antt =====
-- The workers of a window and their schedules.
use hood_sentry.Prelude.{
  get_elem?-set_ne, get_elem?-set_self, length-set, ℕ, zero, suc, ◌+◌, ◌≤◌, ◌<◌, ◌≡◌, refl, sym, ap,
  ◌∙◌, subst, ◌≢◌, inl, inr, Bool, true, false, ◌||◌, Option, none, some, List, [], ◌∷◌, arith, ltb,
  ◌==◌, ltb→lt, ==_iff, Bool-cases, length, get_elem?, set, length-replicate,
}
use mathlib.Core.Option.{some-injective}
use hood_sentry.Prelude.Attempt.{Attempt, threw, returned, ◌>>=◌}
use hood_sentry.Indexer.Blocks.{BlockData}
use hood_sentry.Indexer.Fetcher.{RpcClient, fetch_block, until_hole}
use hood_sentry.Indexer.Fetcher.Windows.{
  Window, Turn, take_index, answer_at, remove_at, taken, settled, arrived, turn, turns, window,
  worker_count, is_done, requests, fetch_block_window,
}

abbrev holds : ℕ → List ℕ → Bool
holds i [] = false
holds i (j ∷ js) = (i == j) || holds i js

abbrev AllBelow : ℕ → List ℕ → Type 0
AllBelow n [] = Unit
AllBelow n (j ∷ js) = (j < n) × AllBelow n js

remove-AllBelow : (n : ℕ) (js : List ℕ) (k : ℕ) → AllBelow n js → AllBelow n (remove_at js k)
remove-AllBelow n [] k h = tt
remove-AllBelow n (j ∷ js) zero (p, h) = h
remove-AllBelow n (j ∷ js) (suc k) (p, h) = (p, remove-AllBelow n js k h)

AllBelow-lt : (n : ℕ) (js : List ℕ) (k i : ℕ) → AllBelow n js → get_elem? js k ≡ some i → i < n
AllBelow-lt n [] k i h e = cc
AllBelow-lt n (j ∷ js) zero i (p, h) e = subst (λ x. x < n) (some-injective _ _ e) p
AllBelow-lt n (j ∷ js) (suc k) i (p, h) e = AllBelow-lt n js k i h e

holds-remove_at :
    (js : List ℕ) (k i j : ℕ)
    → get_elem? js k ≡ some i
    → (j == i) ≡ false
    → holds j (remove_at js k) ≡ false
    → holds j js ≡ false
holds-remove_at [] k i j e n h = refl
holds-remove_at (x ∷ js) zero i j e n h = let q = some-injective _ _ e in ground (arith)
holds-remove_at (x ∷ js) (suc k) i j e n h = ground (arith, holds-remove_at js k i j e n)

pub length-remove_at :
    (js : List ℕ) (k i : ℕ) → get_elem? js k ≡ some i → length (remove_at js k) + 1 ≡ length js
length-remove_at [] k i e = cc
length-remove_at (x ∷ js) zero i e = omega arith
length-remove_at (x ∷ js) (suc k) i e = omega (arith, length-remove_at js k i e)

-- The answer to a request that has been taken and is not in flight stands in the results.
abbrev Filled : (ℕ → Attempt (Option BlockData)) → Window → ℕ → Type 0
Filled answer w i =
    (r : Option BlockData) × (answer i ≡ returned r) × (get_elem? w.results i ≡ some r)

record Inv (answer : ℕ → Attempt (Option BlockData)) (count workers : ℕ) (w : Window) : Type 0 where
  sized : length w.results ≡ count
  below : AllBelow count w.busy
  manned : w.failed ≡ false → (w.idle + length w.busy < workers) → count ≤ w.cursor
  filled :
      (i : ℕ)
      → i < count
      → i < w.cursor
      → holds i w.busy ≡ false
      → w.failed ≡ false
      → Filled answer w i

window-Inv :
    (answer : ℕ → Attempt (Option BlockData)) (concurrency count : ℕ)
    → Inv answer count (worker_count concurrency count) (window concurrency count)
window-Inv answer concurrency count = record {
  sized = length-replicate count none;
  below = tt;
  manned = λ f h. absurd (omega (arith, h));
  filled = λ i h c b f. elim c [ ];
}

module _ (answer : ℕ → Attempt (Option BlockData)) (count workers : ℕ) (w : Window)
    (inv : Inv answer count workers w) where
  taken-Inv : w.idle ≢ 0 → Inv answer count workers (taken count w)
  unfolding taken
  taken-Inv n = elim (Bool-cases (ltb w.cursor count)) [
    | inl y ↦ rw y (record {
      sized = inv.sized;
      below = (ltb→lt _ _ y, inv.below);
      manned = λ f h. absurd (omega (arith, inv.manned f (omega arith), ltb→lt _ _ y));
      filled = λ i h c b f. inv.filled i h (ground arith) (ground arith) f;
    })
    | inr o ↦ rw o (record {
      sized = inv.sized;
      below = inv.below;
      manned = λ f h. ground arith;
      filled = λ i h c b f. inv.filled i h (ground arith) b f;
    })
  ]

  settled-Inv :
      (k i : ℕ) (a : Attempt (Option BlockData))
      → answer i ≡ a
      → get_elem? w.busy k ≡ some i
      → Inv answer count workers (settled k i a w)
  settled-Inv k i threw q e = record {
    sized = inv.sized;
    below = remove-AllBelow count w.busy k inv.below;
    manned = λ f h. absurd (cc);
    filled = λ j h c b f. absurd (cc);
  }
  settled-Inv k i (returned r) q e = record {
    sized = length-set w.results i r ∙ inv.sized;
    below = remove-AllBelow count w.busy k inv.below;
    manned = λ f h. inv.manned f (omega (arith, h, length-remove_at w.busy k i e));
    filled = λ j h c b f. elim (Bool-cases (j == i)) [
      | inl y ↦
          let same : i ≡ j = sym ((==_iff j i).0 y) in
          (
            r,
            ap answer (sym same) ∙ q,
            subst (λ x. get_elem? (set w.results i r) x ≡ some r) same
                (get_elem?-set_self w.results i r
                  (rw inv.sized (AllBelow-lt count w.busy k i inv.below e))),
          )
      | inr n ↦
          let old = inv.filled j h c (holds-remove_at w.busy k i j e n b) f in
          (old.0, old.1, get_elem?-set_ne w.results r (λ d. absurd (ground arith)) ∙ old.2)
    ];
  }

  arrived-Inv :
      (k : ℕ) (o : Option ℕ)
      → get_elem? w.busy k ≡ o
      → Inv answer count workers (arrived answer k o w)
  arrived-Inv k none e = inv
  arrived-Inv k (some i) e = settled-Inv k i (answer i) refl e

  turn-Inv : (t : Turn) → Inv answer count workers (turn answer count t w)
  unfolding turn
  turn-Inv take_index = elim (Bool-cases (w.idle == 0)) [
    | inl y ↦ rw y inv
    | inr n ↦ rw n (taken-Inv (λ e. absurd (ground arith)))
  ]
  turn-Inv (answer_at k) = arrived-Inv k (get_elem? w.busy k) refl

turns-Inv :
    (answer : ℕ → Attempt (Option BlockData)) (count workers : ℕ) (ts : List Turn) (w : Window)
    → Inv answer count workers w
    → Inv answer count workers (turns answer count ts w)
unfolding turns
turns-Inv answer count workers [] w inv = inv
turns-Inv answer count workers (t ∷ ts) w inv =
    turns-Inv answer count workers ts (turn answer count t w)
      (turn-Inv answer count workers w inv t)

-- The blocks asked for one after the other.
abbrev pub in_order : (ℕ → Attempt (Option BlockData)) → ℕ → ℕ → Attempt (List (Option BlockData))
in_order fetch first zero = returned []
in_order fetch first (suc count) = do
  answer ← fetch first
  rest ← in_order fetch (suc first) count
  returned (answer ∷ rest)

in_order-returned :
    (fetch : ℕ → Attempt (Option BlockData)) (first : ℕ) (rs : List (Option BlockData))
    → ((i : ℕ)
        → i < length rs
        → (r : Option BlockData) × (fetch (first + i) ≡ returned r) × (get_elem? rs i ≡ some r))
    → in_order fetch first (length rs) ≡ returned rs
in_order-returned fetch first [] f = refl
in_order-returned fetch first (a ∷ rs) f =
    let head = f 0 (omega arith) in
    let start : first + 0 ≡ first = omega arith in
    let tail = in_order-returned fetch (suc first) rs (λ i h.
      let later = f (suc i) (omega (arith, h)) in
      let place : first + suc i ≡ suc first + i = omega arith in
      (later.0, subst (λ n. fetch n ≡ returned later.0) place later.1, later.2)) in
    let here : fetch first ≡ returned head.0 =
      subst (λ n. fetch n ≡ returned head.0) start head.1 in
    rw (here, tail) (ap (λ x. returned (x ∷ rs)) (sym (some-injective _ _ head.2)))

empty_busy : (js : List ℕ) → (length js == 0) ≡ true → js ≡ []
empty_busy [] h = refl
empty_busy (j ∷ js) h = absurd (ground arith)

-- Once all workers have returned, each index was taken and answered.
done-Filled :
    (answer : ℕ → Attempt (Option BlockData)) (count workers : ℕ) (w : Window)
    → Inv answer count workers w
    → 0 < workers
    → is_done w ≡ true
    → (i : ℕ) → i < count
    → Filled answer w i
done-Filled answer count workers w inv some_worker d i h =
    let idle : w.idle ≡ 0 = ground arith in
    let whole : w.failed ≡ false = ground arith in
    let busy : w.busy ≡ [] = empty_busy w.busy (ground arith) in
    let few : w.idle + length w.busy < workers = rw (idle, busy) some_worker in
    inv.filled i h (omega (arith, h, inv.manned whole few)) (rw busy refl) whole

done-in_order :
    (answer fetch : ℕ → Attempt (Option BlockData)) (first count workers : ℕ) (w : Window)
    → ((i : ℕ) → answer i ≡ fetch (first + i))
    → Inv answer count workers w
    → 0 < workers
    → is_done w ≡ true
    → in_order fetch first count ≡ returned w.results
done-in_order answer fetch first count workers w same inv some_worker d =
    subst (λ n. in_order fetch first n ≡ returned w.results) inv.sized
      (in_order-returned fetch first w.results (λ i h.
        let r =
          done-Filled answer count workers w inv some_worker d i (subst (λ n. i < n) inv.sized h) in
        (r.0, sym (same i) ∙ r.1, r.2)))

-- What a window returns once its workers are done, however they took turns, is what the requests
-- give one after the other, all of which were answered: the blocks before the first hole.
pub fetch_block_window-in_order :
    (client : RpcClient) (topics : Option (List (List ℕ))) (first count concurrency : ℕ)
    (ts : List Turn) (blocks : List BlockData)
    → fetch_block_window client topics first count concurrency ts ≡ some blocks
    → (rs : List (Option BlockData)) × (in_order (fetch_block client topics) first count
        ≡ returned rs)
      × (blocks ≡ until_hole rs)
unfolding fetch_block_window
fetch_block_window-in_order client topics first count concurrency ts blocks e =
    let w = turns (requests client topics first) count ts (window concurrency count) in
    elim (Bool-cases (is_done w)) [
      | inl y ↦ (
        w.results,
        done-in_order (requests client topics first) (fetch_block client topics) first count
            (worker_count concurrency count) w (λ i. refl)
            (turns-Inv (requests client topics first) count (worker_count concurrency count) ts
              (window concurrency count)
              (window-Inv (requests client topics first) concurrency count))
            (omega arith) y,
        sym (some-injective _ _ (rw y at e)),
      )
      | inr n ↦
          absurd (let d : ◌≡◌ {A = Option (List BlockData)} none (some blocks) = rw n at e in cc)
    ]
