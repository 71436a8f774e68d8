-- ===== src/Discovery/Pagination/Pages.antt =====
-- What a client reads that asks for a page and then for each next cursor.
use hood_sentry.Prelude.{
  ℕ, zero, suc, ◌+◌, ◌*◌, ◌/◌, ◌^◌, ◌≤◌, ◌<◌, ◌≡◌, refl, sym, ap, ◌∙◌, ◌⊎◌, inl, inr, false, Option,
  none, some, List, [], ◌∷◌, ◌++◌, arith, ltb, ltb→lt, Bool-cases, length, take, drop, length-take,
  length-drop, div_near,
}
use hood_sentry.Prelude.Int.{pos}
use hood_sentry.Prelude.Codes.{same_codes, same_codes_refl}
use hood_sentry.Discovery.Pagination.{
  Number, whole, Codec, PageError, cursor_mismatch, cursor_of, cursor_schema, encode_cursor,
  decode_cursor, page_limit, page_at, paginate,
}

-- What is written for an offset below 2 ^ 32, above which no array has an item, reads back.
unfoldable pub ReadsBack : {Text : Type 0} → Codec Text → List ℕ → Type 0
ReadsBack c fingerprint =
    (n : ℕ)
    → n < 2 ^ 32
    → c.read (c.write (cursor_of n fingerprint)) ≡ some (cursor_of n fingerprint)

page_limit_whole : (n : ℕ) → 1 ≤ n → n ≤ 100 → page_limit (whole (pos n)) ≡ some n
page_limit_whole n p q = ground arith

decode_cursor-encode_cursor :
    {Text : Type 0} (c : Codec Text) (n x : ℕ) (fs : List ℕ)
    → ReadsBack c (x ∷ fs)
    → n < 2 ^ 32
    → decode_cursor c (some (encode_cursor c n (x ∷ fs))) (x ∷ fs) ≡ inr n
unfolding decode_cursor encode_cursor cursor_schema ReadsBack
decode_cursor-encode_cursor c n x fs back h = rw (back n h, same_codes_refl (x ∷ fs)) refl

module _ {ℓ} {T : Type ℓ} where
  abbrev pub flat : List (List T) → List T
  flat [] = []
  flat (p ∷ ps) = p ++ flat ps

  abbrev pub add_page : List T → PageError ⊎ List (List T) → PageError ⊎ List (List T)
  add_page p (inl e) = inl e
  add_page p (inr ps) = inr (p ∷ ps)

  drop_nil : (k : ℕ) → drop {A = T} k [] ≡ []
  drop_nil zero = refl
  drop_nil (suc k) = refl

  drop_add : (a b : ℕ) (xs : List T) → drop (a + b) xs ≡ drop b (drop a xs)
  drop_add zero b xs = ap (λ k. drop k xs) (omega arith)
  drop_add (suc a) b [] = drop_nil (suc a + b) ∙ sym (drop_nil b)
  drop_add (suc a) b (x ∷ xs) =
      let e : suc a + b ≡ suc (a + b) = omega arith in ap (λ k. drop k (x ∷ xs)) e ∙ drop_add a b xs

  take_rest : (n : ℕ) (xs : List T) → take n xs ++ drop (length (take n xs)) xs ≡ xs
  take_rest zero xs = refl
  take_rest (suc n) [] = refl
  take_rest (suc n) (x ∷ xs) = rw (take_rest n xs)

  drop_past : (k : ℕ) (xs : List T) → length xs ≤ k → drop k xs ≡ []
  drop_past zero [] h = refl
  drop_past zero (x ∷ xs) h = absurd (omega arith)
  drop_past (suc k) [] h = refl
  drop_past (suc k) (x ∷ xs) h = drop_past k xs (omega arith)

  page_rest :
      (n o : ℕ) (items : List T)
      → take n (drop o items) ++ drop (o + length (take n (drop o items))) items ≡ drop o items
  page_rest n o items =
      ap (λ r. take n (drop o items) ++ r) (drop_add o (length (take n (drop o items))) items)
      ∙ take_rest n (drop o items)

module _ {ℓ} {T : Type ℓ} {Text : Type 0} where
  -- The pages that a client reads with so many requests, each with the cursor of the page before.
  unfoldable pub follow :
      ℕ → Codec Text → List T → Number → Option Text → List ℕ → PageError ⊎ List (List T)
  follow zero c items limit cursor fingerprint = inr []
  follow (suc fuel) c items limit cursor fingerprint =
      elim (paginate c items limit cursor fingerprint) [
        | inl e ↦ inl e
        | inr p ↦ elim p.next_cursor [
          | none ↦ inr (p.page_data ∷ [])
          | some t ↦ add_page p.page_data (follow fuel c items limit (some t) fingerprint)
        ]
      ]

  paginate_page :
      (c : Codec Text) (items : List T) (n o : ℕ) (cursor : Option Text) (fs : List ℕ)
      → 1 ≤ n
      → n ≤ 100
      → decode_cursor c cursor fs ≡ inr o
      → paginate c items (whole (pos n)) cursor fs ≡ inr (page_at c items n fs o)
  unfolding paginate encode_cursor
  paginate_page c items n o cursor fs p q e = rw (page_limit_whole n p q, e) refl

  follow_rest :
      (fuel : ℕ) (c : Codec Text) (items : List T) (n o x : ℕ) (cursor : Option Text) (fs : List ℕ)
      → 1 ≤ n
      → n ≤ 100
      → ReadsBack c (x ∷ fs)
      → length items < 2 ^ 32
      → decode_cursor c cursor (x ∷ fs) ≡ inr o
      → o ≤ length items
      → length items < o + fuel * n
      → (ps : List (List T)) × (follow fuel c items (whole (pos n)) cursor (x ∷ fs) ≡ inr ps)
        × (flat ps ≡ drop o items)
  unfolding follow page_at encode_cursor
  follow_rest zero c items n o x cursor fs p q back long e ho h = absurd (omega arith)
  follow_rest (suc fuel) c items n o x cursor fs p q back long e ho h =
      elim (Bool-cases (ltb (o + length (take n (drop o items))) (length items))) [
        | inl more ↦
            let next = o + length (take n (drop o items)) in
            let lt : next < length items = ltb→lt next (length items) more in
            let full : next ≡ o + n =
              omega (arith, length-take n (drop o items), length-drop o items, lt) in
            let (ps, r, f) =
              follow_rest fuel c items n next x (some (encode_cursor c next (x ∷ fs))) fs p q back
                long (decode_cursor-encode_cursor c next x fs back (omega (arith, lt, long)))
                (omega (arith, lt)) (enough fuel n o next full h) in
            (
              take n (drop o items) ∷ ps,
              rw (follow, paginate_page c items n o cursor (x ∷ fs) p q e, more, r) refl,
              ap (λ r. take n (drop o items) ++ r) f ∙ page_rest n o items,
            )
        | inr last ↦ (
          take n (drop o items) ∷ [],
          rw (follow, paginate_page c items n o cursor (x ∷ fs) p q e, last) refl,
          ap (λ r. take n (drop o items) ++ r)
                (sym (drop_past (o + length (take n (drop o items))) items (ground (arith, last))))
              ∙ page_rest n o items,
        )
      ]
    where
      enough :
          (fuel n o next : ℕ)
          → next ≡ o + n
          → length items < o + suc fuel * n
          → length items < next + fuel * n
      enough fuel n o next full h = ground arith

  -- A client that follows the cursors of unchanged items, with a limit from 1 to 100 and a
  -- fingerprint that is not empty, has read every item once and in order after at most one request
  -- more than the limit goes into their number, if the text of a cursor reads back as it was written.
  pub follow_all :
      (c : Codec Text) (items : List T) (n x : ℕ) (fs : List ℕ)
      → 1 ≤ n
      → n ≤ 100
      → ReadsBack c (x ∷ fs)
      → length items < 2 ^ 32
      → (ps : List (List T)) × (follow
            (suc (length items / n))
            c
            items
            (whole (pos n))
            none
            (x ∷ fs)
          ≡ inr ps)
        × (flat ps ≡ items)
  unfolding decode_cursor
  follow_all c items n x fs p q back long =
      follow_rest (suc (length items / n)) c items n 0 x none fs p q back long refl (omega arith)
        (omega (arith, div_near (length items) n (omega arith)))

  -- A cursor of one query is refused by another: whatever the items and the limit within range.
  pub foreign_cursor :
      (c : Codec Text) (items : List T) (n o x : ℕ) (fs gs : List ℕ)
      → 1 ≤ n
      → n ≤ 100
      → ReadsBack c (x ∷ fs)
      → o < 2 ^ 32
      → same_codes (x ∷ fs) gs ≡ false
      → paginate c items (whole (pos n)) (some (encode_cursor c o (x ∷ fs))) gs
        ≡ inl cursor_mismatch
  unfolding paginate decode_cursor encode_cursor cursor_schema ReadsBack
  foreign_cursor c items n o x fs gs p q back h other =
      rw (page_limit_whole n p q, back o h, other) refl
