-- ===== src/Config/Forms.antt =====
-- parse_conf.c: timer ranges, random ranges and the forms of a url.
use curl_loader.Base.{
  ℕ, ◌+◌, Bool, true, false, ◌&&◌, not, Option, none, some, [], ◌∷◌, ltb, leb, ◌==◌, if◌then◌else◌,
  length,
}
use curl_loader.Config.{
  UrlConfig, BatchConfig, FormUsagetype, form_usagetype_start,
  form_usagetype_unique_users_and_passwords, form_usagetype_unique_users_same_password,
  form_usagetype_single_user, form_usagetype_records_from_file, form_usagetype_as_is,
}
use curl_loader.Config.Chars.{
  Text, ℤ, pos, negsuc, bytes, to_int, atol, atoi, same_text, split_at, count_text,
}
use curl_loader.Config.Parsing.{
  Platform, Parsed, accept, reject, nonnegative, flag, with_url, put_url, set_url,
}

-- The second of two numbers, after the separator.
unfoldable pub second_val : ℕ → ℤ → Option (ℕ × ℕ)
second_val first (negsuc n) = none
second_val first (pos second) = if leb second first then none else some (first, second)

-- The two numbers, the second 0 where there is none, or `none` for -1.
unfoldable pub parse_timer_range : Text → Option (ℕ × ℕ)
unfolding second_val
parse_timer_range input =
    let (before, after) = split_at b'-' input in
    elim after [
      | none ↦ elim (atol input) [ negsuc n ↦ none | pos first ↦ some (first, 0) ]
      | some [] ↦ none
      | some (c ∷ second) ↦ elim (atol before) [
        | negsuc n ↦ none
        | pos first ↦ second_val first (atol (c ∷ second))
      ]
    ]

-- A single value under 20 msec, but for 0
abbrev pub too_short : ℕ × ℕ → Bool
too_short (lrange, hrange) = hrange == 0 && ltb 0 lrange && ltb lrange 20

unfoldable pub timer_url_completion_parser : BatchConfig → Text → Parsed
timer_url_completion_parser bctx value = elim (parse_timer_range value) [
  | none ↦ reject
  | some (lrange, hrange) ↦
      if too_short (lrange, hrange)
      then reject
      else set_url bctx (λ url. record url {
        timer_url_completion_lrange = lrange;
        timer_url_completion_hrange = hrange;
      })
]

unfoldable pub timer_after_url_sleep_parser : BatchConfig → Text → Parsed
timer_after_url_sleep_parser bctx value = elim (parse_timer_range value) [
  | none ↦ reject
  | some (lrange, hrange) ↦
      if too_short (lrange, hrange)
      then reject
      else set_url bctx (λ url. record url {
        timer_after_url_sleep_lrange = lrange;
        timer_after_url_sleep_hrange = hrange;
      })
]

-- The fields are of type int.
unfoldable pub url_random_range : BatchConfig → Text → Parsed
url_random_range bctx value = elim (parse_timer_range value) [
  | none ↦ reject
  | some (lrange, hrange) ↦
      if leb hrange lrange
      then reject
      else set_url bctx (λ url. record url {
        random_lrange = to_int (pos lrange);
        random_hrange = to_int (pos hrange);
      })
]

unfoldable pub form_usage_type_parser : BatchConfig → Text → Parsed
form_usage_type_parser bctx value =
    let set : FormUsagetype → Parsed =
      λ t. set_url bctx (λ url. record url { form_usage_type = t }) in
    if same_text value (bytes "UNIQUE_USERS_AND_PASSWORDS")
    then set form_usagetype_unique_users_and_passwords
    else if same_text value (bytes "UNIQUE_USERS_SAME_PASSWORD")
    then set form_usagetype_unique_users_same_password
    else if same_text value (bytes "SINGLE_USER")
    then set form_usagetype_single_user
    else if same_text value (bytes "RECORDS_FROM_FILE")
    then set form_usagetype_records_from_file
    else if same_text value (bytes "AS_IS")
    then set form_usagetype_as_is
    else reject

-- Whether a form with these numbers of "%s%d" and of "%s" has the type for it.
unfoldable pub fits_usage : FormUsagetype → ℕ → ℕ → Bool
fits_usage ftype count_percent_s_percent_d count_percent_s =
    let pair = count_percent_s == 2 in
    if count_percent_s_percent_d == 2 && pair
    then elim ftype [ form_usagetype_unique_users_and_passwords ↦ true | _ ↦ false ]
    else if count_percent_s_percent_d == 1 && pair
    then elim ftype [ form_usagetype_unique_users_same_password ↦ true | _ ↦ false ]
    else if count_percent_s_percent_d == 0 && pair
    then elim ftype [
      | form_usagetype_single_user ↦ true
      | form_usagetype_records_from_file ↦ true
      | _ ↦ false
    ]
    else elim ftype [
      | form_usagetype_as_is ↦ true
      | form_usagetype_records_from_file ↦ true
      | _ ↦ false
    ]

abbrev pub is_defined : FormUsagetype → Bool
is_defined form_usagetype_start = false
is_defined _ = true

-- A value cannot be both NON_APPLICABLE_STR and NON_APPLICABLE_STR_2, so that the test for them is
-- always true.
abbrev pub set_form : Platform → BatchConfig → Text → ℕ → UrlConfig → Parsed
set_form platform bctx value i url =
    if length value == 0
    then reject
    else if not (is_defined url.form_usage_type)
    then reject
    else if not (
        fits_usage url.form_usage_type (count_text (bytes "%s%d") value)
          (count_text (bytes "%s") value))
    then reject
    else if not (platform.granted (length value + 1))
    then reject
    else accept (put_url bctx i (record url { form_str = some value }))

-- The type is read before the value is looked at.
unfoldable pub form_string_parser : Platform → BatchConfig → Text → Parsed
unfolding fits_usage
form_string_parser platform bctx value = with_url bctx (set_form platform bctx value)

unfoldable pub form_records_random_parser : BatchConfig → Text → Parsed
form_records_random_parser bctx value =
    flag (atol value) λ b. set_url bctx (λ url. record url { form_records_random = b })

unfoldable pub form_records_cycle_parser : BatchConfig → Text → Parsed
form_records_cycle_parser bctx value =
    flag (atoi value) λ b. set_url bctx (λ url. record url { form_records_cycle = b })

abbrev pub set_max_num : BatchConfig → ℕ → ℕ → UrlConfig → Parsed
set_max_num bctx n i url = elim url.form_records_file [
  | none ↦ accept (put_url bctx i (record url { form_records_file_max_num = n }))
  | some file ↦ reject
]

-- The tag has to stand before FORM_RECORDS_FILE.
unfoldable pub form_records_file_max_num_parser : BatchConfig → Text → Parsed
form_records_file_max_num_parser bctx value =
    nonnegative (atol value) λ n. with_url bctx (set_max_num bctx n)
