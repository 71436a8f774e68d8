-- ===== src/Indexer/Gaps.antt =====
-- apps/indexer/src/gap-scanner.ts. The database query is a parameter: the numbers of the canonical
-- blocks that it returns for a range.
pub mod Laws
mod Tests
use hood_sentry.Prelude.{
  ℕ, zero, suc, ◌+◌, ◌-◌, ◌*◌, ◌/◌, ◌%◌, ◌^◌, ◌≤◌, ◌<◌, min, max, ◌≡◌, refl, sym, ap, ◌∙◌, subst,
  ◌≢◌, ◌↔◌, ◌⊎◌, inl, inr, Bool, true, false, not, ◌&&◌, ◌||◌, Option, none, some, List, [], ◌∷◌,
  ◌++◌, map, arith, ltb, leb, ◌==◌, if◌then◌else◌, ltb→lt, lt→ltb, leb→le, ==_iff, tests,
  Bool-cases, Option-cases, length, get_elem?, set, get_or, take, drop, replicate, length-append,
  length-take, length-drop, length-map, length-replicate,
}

pub record GapRange : Type 0 where
  pub from_block : ℕ
  pub to_block : ℕ

-- `new Set(numbers).has(n)`
unfoldable pub has : List ℕ → ℕ → Bool
has [] n = false
has (m ∷ ms) n = m == n || has ms n

abbrev pub close : Option ℕ → ℕ → List GapRange → List GapRange
close none end rest = rest
close (some start) end rest = record { from_block = start; to_block = end } ∷ rest

abbrev pub start_or : Option ℕ → ℕ → Option ℕ
start_or none n = some n
start_or (some s) n = some s

-- The loop, with the blocks that are left, the present block and the start of the open gap. The
-- gaps are in the order in which the source pushes them.
unfoldable pub scan : List ℕ → ℕ → ℕ → Option ℕ → ℕ → List GapRange
scan indexed zero block gap last = close gap last []
scan indexed (suc n) block gap last =
    let here = has indexed block in
    let rest = scan indexed n (block + 1) (if here then none else start_or gap block) last in
    if here then close gap (block - 1) rest else rest

-- `indexed` are the numbers that the query gives for the range.
unfoldable pub scan_for_gaps : (ℕ → ℕ → List ℕ) → ℕ → ℕ → List GapRange
unfolding scan
scan_for_gaps query first last = elim (query first last) [
  | [] ↦ record { from_block = first; to_block = last } ∷ []
  | x ∷ xs ↦ scan (x ∷ xs) (last + 1 - first) first none last
]

unfoldable pub missing : List ℕ → ℕ → ℕ → List ℕ
missing indexed zero block = []
missing indexed (suc n) block =
    let rest = missing indexed n (block + 1) in if has indexed block then rest else block ∷ rest

unfoldable pub get_missing_blocks : (ℕ → ℕ → List ℕ) → ℕ → ℕ → List ℕ
unfolding missing
get_missing_blocks query first last = missing (query first last) (last + 1 - first) first

-- `next` is the lowest canonical block above `after` that the query finds.
unfoldable pub find_next_gap : (ℕ → Option ℕ) → ℕ → Option GapRange
find_next_gap query after = elim (query after) [
  | none ↦ none
  | some next ↦
      if leb next (after + 1)
      then none
      else some (record { from_block = after + 1; to_block = next - 1 })
]
