-- ===== src/Discovery/Pagination.antt =====
-- packages/discovery-engine/src/pagination.ts. The text of a cursor is a parameter: base64url over
-- JSON, written and read. What the schema asks of the value read is in `cursor_schema`; a number of
-- JavaScript is an integer or it is not.
pub mod Pages
pub mod Tests
use hood_sentry.Prelude.{
  ℕ, zero, suc, ◌+◌, ◌-◌, ◌*◌, ◌/◌, ◌%◌, ◌^◌, ◌≤◌, ◌<◌, min, max, ◌≡◌, refl, sym, ap, ◌∙◌, subst,
  ◌≢◌, ◌↔◌, ◌⊎◌, inl, inr, Bool, true, false, not, ◌&&◌, ◌||◌, Option, none, some, List, [], ◌∷◌,
  ◌++◌, map, arith, ltb, leb, ◌==◌, if◌then◌else◌, ltb→lt, lt→ltb, leb→le, ==_iff, tests,
  Bool-cases, Option-cases, length, get_elem?, set, get_or, take, drop, replicate, length-append,
  length-take, length-drop, length-map, length-replicate,
}
use hood_sentry.Prelude.Int.{ℤ, pos, negsuc}
use hood_sentry.Prelude.Codes.{same_codes}

pub data Number : Type 0 where
  whole : ℤ → Number
  not_whole : Number

-- A field of the value that the JSON text stands for.
pub data Field : Type 0 where
  absent : Field
  number : Number → Field
  text : List ℕ → Field
  another : Field

pub record Parsed : Type 0 where
  pub version : Field
  pub offset : Field
  pub fingerprint : Field

-- `JSON.stringify` into base64url, and back where neither throws and an object is read.
pub record Codec (Text : Type 0) : Type 0 where
  pub write : Parsed → Text
  pub read : Text → Option Parsed

pub data PageError : Type 0 where
  limit_out_of_range : PageError
  cursor_mismatch : PageError
  cursor_malformed : PageError

pub record DiscoveryPage {ℓ} (T : Type ℓ) (Text : Type 0) : Type ℓ where
  pub page_data : List T
  pub next_cursor : Option Text
  pub has_more : Bool

abbrev pub is_literal_one : Field → Bool
is_literal_one (number (whole (pos n))) = n == 1
is_literal_one _ = false

abbrev pub nonnegative_int : Field → Option ℕ
nonnegative_int (number (whole (pos n))) = some n
nonnegative_int _ = none

abbrev pub nonempty_string : Field → Option (List ℕ)
nonempty_string (text (c ∷ cs)) = some (c ∷ cs)
nonempty_string _ = none

abbrev pub both : Option ℕ → Option (List ℕ) → Option (ℕ × List ℕ)
both (some n) (some s) = some (n, s)
both _ _ = none

-- The offset and the fingerprint of a value that the schema accepts.
unfoldable pub cursor_schema : Parsed → Option (ℕ × List ℕ)
cursor_schema p =
    if is_literal_one p.version
    then both (nonnegative_int p.offset) (nonempty_string p.fingerprint)
    else none

abbrev pub cursor_of : ℕ → List ℕ → Parsed
cursor_of n fingerprint = record {
  version = number (whole (pos 1));
  offset = number (whole (pos n));
  fingerprint = text fingerprint;
}

abbrev pub parsed_cursor : Option Parsed → Option (ℕ × List ℕ)
unfolding cursor_schema
parsed_cursor none = none
parsed_cursor (some p) = cursor_schema p

abbrev pub checked_cursor : List ℕ → Option (ℕ × List ℕ) → PageError ⊎ ℕ
checked_cursor fingerprint none = inl cursor_malformed
checked_cursor fingerprint (some (n, found)) =
    if same_codes found fingerprint then inr n else inl cursor_mismatch

module _ {Text : Type 0} where
  unfoldable pub encode_cursor : Codec Text → ℕ → List ℕ → Text
  encode_cursor c n fingerprint = c.write (cursor_of n fingerprint)

  unfoldable pub decode_cursor : Codec Text → Option Text → List ℕ → PageError ⊎ ℕ
  unfolding cursor_schema
  decode_cursor c none fingerprint = inr 0
  decode_cursor c (some t) fingerprint = checked_cursor fingerprint (parsed_cursor (c.read t))

abbrev pub page_limit : Number → Option ℕ
page_limit (whole (pos n)) = if leb 1 n && leb n 100 then some n else none
page_limit _ = none

module _ {ℓ} {T : Type ℓ} {Text : Type 0} where
  -- The page of an offset that the limit and the cursor have passed.
  abbrev pub page_at : Codec Text → List T → ℕ → List ℕ → ℕ → DiscoveryPage T Text
  unfolding encode_cursor
  page_at c items limit fingerprint offset =
      let found = take limit (drop offset items) in
      let next_offset = offset + length found in
      let more = ltb next_offset (length items) in
      record {
        page_data = found;
        next_cursor = if more then some (encode_cursor c next_offset fingerprint) else none;
        has_more = more;
      }

  abbrev pub with_offset :
      Codec Text → List T → ℕ → List ℕ → PageError ⊎ ℕ → PageError ⊎ DiscoveryPage T Text
  unfolding encode_cursor
  with_offset c items limit fingerprint (inl e) = inl e
  with_offset c items limit fingerprint (inr n) = inr (page_at c items limit fingerprint n)

  abbrev pub with_limit :
      Codec Text → List T → Option Text → List ℕ → Option ℕ → PageError ⊎ DiscoveryPage T Text
  unfolding encode_cursor decode_cursor
  with_limit c items cursor fingerprint none = inl limit_out_of_range
  with_limit c items cursor fingerprint (some n) =
      with_offset c items n fingerprint (decode_cursor c cursor fingerprint)

  unfoldable pub paginate :
      Codec Text → List T → Number → Option Text → List ℕ → PageError ⊎ DiscoveryPage T Text
  unfolding encode_cursor decode_cursor
  paginate c items limit cursor fingerprint =
      with_limit c items cursor fingerprint (page_limit limit)
