-- ===== src/Indexer/Gaps/Laws.antt =====
-- The gaps of a range are exactly its missing blocks.
use hood_sentry.Prelude.{
  ℕ, zero, suc, ◌+◌, ◌-◌, ◌≤◌, ◌<◌, ◌≡◌, refl, sym, ap, ◌∙◌, subst, inl, inr, Option, none, some,
  List, [], ◌∷◌, ◌++◌, arith, Bool-cases,
}
use mathlib.Core.List.{append_assoc, append-nil}
use hood_sentry.Indexer.Gaps.{
  GapRange, has, close, start_or, scan, scan_for_gaps, missing, get_missing_blocks,
}

-- The blocks of a range, in order.
abbrev pub range : ℕ → ℕ → List ℕ
range block zero = []
range block (suc n) = block ∷ range (suc block) n

-- The blocks of a list of gaps, in order.
abbrev pub blocks : List GapRange → List ℕ
blocks [] = []
blocks (g ∷ gs) = range g.from_block (g.to_block + 1 - g.from_block) ++ blocks gs

-- The blocks of the gap that is open before `block`.
abbrev opened : Option ℕ → ℕ → List ℕ
opened none block = []
opened (some s) block = range s (block - s)

abbrev StartsBefore : Option ℕ → ℕ → Type 0
StartsBefore none block = Unit
StartsBefore (some s) block = s < block

range-suc : (s n : ℕ) → range s (suc n) ≡ range s n ++ (s + n) ∷ []
range-suc s zero = ap (λ x. x ∷ []) (omega arith)
range-suc s (suc n) =
    ap (λ xs. s ∷ xs) (range-suc (suc s) n ∙ ap (λ x. range (suc s) n ++ x ∷ []) (omega arith))

opened-start_or :
    (gap : Option ℕ) (block : ℕ) (rest : List ℕ)
    → StartsBefore gap block
    → opened (start_or gap block) (block + 1) ++ rest ≡ opened gap block ++ block ∷ rest
opened-start_or none block rest h = let e : block + 1 - block ≡ 1 = omega arith in rw e
opened-start_or (some s) block rest h =
    let e : block + 1 - s ≡ suc (block - s) = omega arith in
    let f : s + (block - s) ≡ block = omega arith in
    ap (λ k. range s k ++ rest) e
    ∙ ap (λ xs. xs ++ rest) (range-suc s (block - s))
    ∙ append_assoc (range s (block - s)) ((s + (block - s)) ∷ []) rest
    ∙ ap (λ b. range s (block - s) ++ b ∷ rest) f

blocks-close :
    (gap : Option ℕ) (block end : ℕ) (rest : List GapRange)
    → StartsBefore gap block
    → (0 < block → block ≡ end + 1)
    → blocks (close gap end rest) ≡ opened gap block ++ blocks rest
blocks-close none block end rest h e = refl
blocks-close (some s) block end rest h e = let f : block ≡ end + 1 = e (omega arith) in rw f

start_or-before :
    (gap : Option ℕ) (block : ℕ)
    → StartsBefore gap block
    → StartsBefore (start_or gap block) (block + 1)
start_or-before none block h = omega arith
start_or-before (some s) block h = omega arith

blocks-scan :
    (indexed : List ℕ) (n block last : ℕ) (gap : Option ℕ)
    → StartsBefore gap block
    → block + n ≡ last + 1
    → blocks (scan indexed n block gap last) ≡ opened gap block ++ missing indexed n block
unfolding scan missing
blocks-scan indexed zero block last gap h e = blocks-close gap block last [] h (λ _. omega arith)
blocks-scan indexed (suc n) block last gap h e = elim (Bool-cases (has indexed block)) [
  | inl here ↦ rw here (
      blocks-close gap block (block - 1) _ h (λ p. omega arith)
      ∙ ap (◌++◌ (opened gap block)) (blocks-scan indexed n (block + 1) last none tt (omega arith)))
  | inr absent ↦ rw absent (
      blocks-scan indexed n (block + 1) last (start_or gap block) (start_or-before gap block h)
        (omega arith)
      ∙ opened-start_or gap block (missing indexed n (block + 1)) h)
]

missing-nil : (n block : ℕ) → missing [] n block ≡ range block n
unfolding missing has
missing-nil zero block = refl
missing-nil (suc n) block =
    let e : block + 1 ≡ suc block = omega arith in
    ap (λ xs. block ∷ xs) (missing-nil n (block + 1) ∙ ap (λ b. range b n) e)

-- The blocks of the gaps that the scan of a range finds are the blocks of the range that the query
-- does not give, each once and in order.
pub blocks-scan_for_gaps :
    (query : ℕ → ℕ → List ℕ) (first last : ℕ)
    → first ≤ last + 1
    → blocks (scan_for_gaps query first last) ≡ get_missing_blocks query first last
unfolding scan_for_gaps get_missing_blocks
blocks-scan_for_gaps query first last h = go (query first last)
  where
    go :
        (xs : List ℕ)
        → blocks (elim xs [
          | [] ↦ record { from_block = first; to_block = last } ∷ []
          | y ∷ ys ↦ scan (y ∷ ys) (last + 1 - first) first none last
        ])
          ≡ missing xs (last + 1 - first) first
    go [] = append-nil _ ∙ sym (missing-nil (last + 1 - first) first)
    go (y ∷ ys) = blocks-scan (y ∷ ys) (last + 1 - first) first last none tt (omega arith)

-- The gaps are not empty, start at `from` or later, and between two of them lies a block.
abbrev pub SeparatedFrom : ℕ → List GapRange → Type 0
SeparatedFrom from [] = Unit
SeparatedFrom from (g ∷ gs) =
    (from ≤ g.from_block) × (g.from_block ≤ g.to_block) × SeparatedFrom (g.to_block + 2) gs

abbrev start_of : Option ℕ → ℕ → ℕ
start_of none block = block
start_of (some s) block = s

SeparatedFrom-mono :
    (a b : ℕ) (gs : List GapRange) → a ≤ b → SeparatedFrom b gs → SeparatedFrom a gs
SeparatedFrom-mono a b [] h s = tt
SeparatedFrom-mono a b (g ∷ gs) h (p, q, s) = (omega arith, q, s)

close-SeparatedFrom :
    (gap : Option ℕ) (block : ℕ) (rest : List GapRange)
    → StartsBefore gap block
    → SeparatedFrom (block + 1) rest
    → SeparatedFrom (start_of gap block) (close gap (block - 1) rest)
close-SeparatedFrom none block rest h s = SeparatedFrom-mono block (block + 1) rest (omega arith) s
close-SeparatedFrom (some b) block rest h s =
    (omega arith, omega arith, SeparatedFrom-mono (block - 1 + 2) (block + 1) rest (omega arith) s)

start_of-start_or :
    (gap : Option ℕ) (block next : ℕ) → start_of (start_or gap block) next ≡ start_of gap block
start_of-start_or none block next = refl
start_of-start_or (some s) block next = refl

scan-SeparatedFrom :
    (indexed : List ℕ) (n block last : ℕ) (gap : Option ℕ)
    → StartsBefore gap block
    → block + n ≡ last + 1
    → SeparatedFrom (start_of gap block) (scan indexed n block gap last)
unfolding scan
scan-SeparatedFrom indexed zero block last none h e = tt
scan-SeparatedFrom indexed zero block last (some s) h e = (omega arith, omega arith, tt)
scan-SeparatedFrom indexed (suc n) block last gap h e = elim (Bool-cases (has indexed block)) [
  | inl here ↦ rw here (
      close-SeparatedFrom gap block _ h
        (scan-SeparatedFrom indexed n (block + 1) last none tt (omega arith)))
  | inr absent ↦ rw absent (
      subst (λ b. SeparatedFrom b (scan indexed n (block + 1) (start_or gap block) last))
        (start_of-start_or gap block (block + 1))
        (scan-SeparatedFrom indexed n (block + 1) last (start_or gap block)
          (start_or-before gap block h) (omega arith)))
]

-- The gaps of a range that is not empty are themselves not empty, in order, and as long as can be:
-- between two of them lies a block that the query gave.
pub scan_for_gaps-SeparatedFrom :
    (query : ℕ → ℕ → List ℕ) (first last : ℕ)
    → first ≤ last
    → SeparatedFrom first (scan_for_gaps query first last)
unfolding scan_for_gaps
scan_for_gaps-SeparatedFrom query first last h = go (query first last)
  where
    go :
        (xs : List ℕ)
        → SeparatedFrom first (elim xs [
          | [] ↦ record { from_block = first; to_block = last } ∷ []
          | y ∷ ys ↦ scan (y ∷ ys) (last + 1 - first) first none last
        ])
    go [] = (omega arith, h, tt)
    go (y ∷ ys) = scan-SeparatedFrom (y ∷ ys) (last + 1 - first) first last none tt (omega arith)
