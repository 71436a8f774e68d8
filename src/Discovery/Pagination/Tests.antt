-- ===== src/Discovery/Pagination/Tests.antt =====
-- Pages of concrete lists.
use hood_sentry.Prelude.{ℕ, ◌≡◌, refl, inl, inr, true, false, none, some, List, [], ◌∷◌}
use hood_sentry.Prelude.Int.{pos, negsuc}
use hood_sentry.Discovery.Pagination.{
  Codec, Parsed, whole, not_whole, limit_out_of_range, cursor_malformed, cursor_of, cursor_schema,
  encode_cursor, decode_cursor, paginate,
}
use hood_sentry.Discovery.Pagination.Pages.{follow, ReadsBack}

-- A text that is the value itself.
abbrev pub plain : Codec Parsed
plain = record { write = λ p. p; read = λ p. some p }

pub plain-ReadsBack : (fingerprint : List ℕ) → ReadsBack plain fingerprint
unfolding ReadsBack
plain-ReadsBack fingerprint n h = refl

abbrev five : List ℕ
five = 5 ∷ 6 ∷ 7 ∷ 8 ∷ 9 ∷ []

abbrev three : List ℕ
three = 5 ∷ 6 ∷ 7 ∷ []

abbrev one_item : List ℕ
one_item = 5 ∷ []

first_page :
    paginate plain three (whole (pos 2)) none (1 ∷ [])
    ≡ inr (record {
      page_data = 5 ∷ 6 ∷ [];
      next_cursor = some (cursor_of 2 (1 ∷ []));
      has_more = true;
    })
unfolding paginate encode_cursor decode_cursor
first_page = refl

second_page :
    paginate plain three (whole (pos 2)) (some (cursor_of 2 (1 ∷ []))) (1 ∷ [])
    ≡ inr (record { page_data = 7 ∷ []; next_cursor = none; has_more = false })
unfolding paginate encode_cursor decode_cursor cursor_schema
second_page = refl

empty_fingerprint :
    paginate plain three (whole (pos 2)) (some (cursor_of 2 [])) [] ≡ inl cursor_malformed
unfolding paginate encode_cursor decode_cursor cursor_schema
empty_fingerprint = refl

no_limit : paginate plain one_item (whole (pos 0)) none (1 ∷ []) ≡ inl limit_out_of_range
unfolding paginate
no_limit = refl

negative_limit : paginate plain one_item (whole (negsuc 0)) none (1 ∷ []) ≡ inl limit_out_of_range
unfolding paginate
negative_limit = refl

fractional_limit : paginate plain one_item not_whole none (1 ∷ []) ≡ inl limit_out_of_range
unfolding paginate
fractional_limit = refl

three_pages :
    follow 3 plain five (whole (pos 2)) none (1 ∷ [])
    ≡ inr ((5 ∷ 6 ∷ []) ∷ (7 ∷ 8 ∷ []) ∷ (9 ∷ []) ∷ [])
unfolding follow paginate encode_cursor decode_cursor cursor_schema
three_pages = refl
