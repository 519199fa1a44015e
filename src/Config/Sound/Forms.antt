-- ===== src/Config/Sound/Forms.antt =====
-- The parsers of timers and forms keep a batch in its ranges.
use curl_loader.Base.{
  ℕ, ◌+◌, ◌<◌, ◌≡◌, refl, ◌⊎◌, inl, inr, Bool, false, not, arith, Option, none, some, [], ◌∷◌, leb,
  ◌==◌, length, Bool-cases, IfSome, if_none, if_some, IfSome-value,
}
use curl_loader.Config.{FormUsagetype}
use curl_loader.Config.Chars.{
  Text, ℤ, pos, negsuc, bytes, to_int, atol, atoi, same_text, split_at, count_text,
}
use curl_loader.Config.Parsing.{Platform, set_url}
use curl_loader.Config.Forms.{
  second_val, parse_timer_range, too_short, timer_url_completion_parser,
  timer_after_url_sleep_parser, url_random_range, form_usage_type_parser, fits_usage, is_defined,
  set_form, form_string_parser, form_records_random_parser, form_records_cycle_parser, set_max_num,
  form_records_file_max_num_parser,
}
use curl_loader.Config.Sound.{
  IsConfig, IsRange, Outcome, returns, Outcome-branch, Outcome-option, Hazard, nonnegative_lem,
  flag_lem, of_url, Sound, put_url_lem, with_url_lem, set_url_lem,
}

-- Two numbers in order, or one
abbrev IsPair : ℕ × ℕ → Type 0
IsPair (lrange, hrange) = (hrange ≡ 0) ⊎ (lrange < hrange)

second_val-IsPair : (first : ℕ) (n : ℤ) → IfSome IsPair (second_val first n)
unfolding second_val
second_val-IsPair first (negsuc n) = if_none
second_val-IsPair first (pos second) = elim (Bool-cases (leb second first)) [
  | inl e ↦ rw e if_none
  | inr e ↦ rw e (if_some (inr (ground (arith, e))))
]

parse_range_from :
    (input before : Text) (after : Option Text)
    → IfSome IsPair (elim after [
      | none ↦ elim (atol input) [ negsuc n ↦ none | pos first ↦ some (first, 0) ]
      | some [] ↦ none
      | some (c ∷ second) ↦ elim (atol before) [
        | negsuc n ↦ none
        | pos first ↦ second_val first (atol (c ∷ second))
      ]
    ])
parse_range_from input before none = single (atol input)
  where
    single : (n : ℤ) → IfSome IsPair (elim n [ negsuc n ↦ none | pos first ↦ some (first, 0) ])
    single (pos n) = if_some (inl refl)
    single (negsuc n) = if_none
parse_range_from input before (some []) = if_none
parse_range_from input before (some (c ∷ second)) = double (atol before)
  where
    double :
        (n : ℤ)
        → IfSome IsPair
            (elim n [ negsuc n ↦ none | pos first ↦ second_val first (atol (c ∷ second)) ])
    double (pos n) = second_val-IsPair n (atol (c ∷ second))
    double (negsuc n) = if_none

parse_timer_range-IsPair : (input : Text) → IfSome IsPair (parse_timer_range input)
unfolding parse_timer_range
parse_timer_range-IsPair input =
    let (before, after) = split_at b'-' input in parse_range_from input before after

long_enough : (l h : ℕ) → IsPair (l, h) → too_short (l, h) ≡ false → IsRange l h
long_enough l h p e = ground arith

module _ (granted : ℕ → Bool) where
  pub timer_url_completion_parser-Sound : Sound granted of_url timer_url_completion_parser
  unfolding timer_url_completion_parser
  timer_url_completion_parser-Sound b value c =
      Outcome-option (parse_timer_range value) (λ _. returns if_none)
        λ (l, h) e.
          Outcome-branch (too_short (l, h)) (λ _. returns if_none)
            (λ f.
              set_url_lem b c
                (λ u. record u { timer_url_completion_lrange = l; timer_url_completion_hrange = h })
                λ u (t, n, k, q, x, y). (
                  t,
                  n,
                  k,
                  q,
                  long_enough l h (IfSome-value (parse_timer_range-IsPair value) e) f,
                  y,
                ))

  pub timer_after_url_sleep_parser-Sound : Sound granted of_url timer_after_url_sleep_parser
  unfolding timer_after_url_sleep_parser
  timer_after_url_sleep_parser-Sound b value c =
      Outcome-option (parse_timer_range value) (λ _. returns if_none)
        λ (l, h) e.
          Outcome-branch (too_short (l, h)) (λ _. returns if_none)
            (λ f.
              set_url_lem b c
                (λ u. record u {
                  timer_after_url_sleep_lrange = l;
                  timer_after_url_sleep_hrange = h;
                })
                λ u (t, n, k, q, x, y). (
                  t,
                  n,
                  k,
                  q,
                  x,
                  long_enough l h (IfSome-value (parse_timer_range-IsPair value) e) f,
                ))

  pub url_random_range-Sound : Sound granted of_url url_random_range
  unfolding url_random_range
  url_random_range-Sound b value c =
      Outcome-option (parse_timer_range value) (λ _. returns if_none)
        λ (l, h) _.
          Outcome-branch (leb h l) (λ _. returns if_none)
            (λ _.
              set_url_lem b c
                (λ u. record u { random_lrange = to_int (pos l); random_hrange = to_int (pos h) })
                (λ u g. g))

  pub form_usage_type_parser-Sound : Sound granted of_url form_usage_type_parser
  unfolding form_usage_type_parser
  form_usage_type_parser-Sound b value c =
      let set : (t : FormUsagetype)
          → Outcome IsConfig (Hazard granted of_url b value)
              (set_url b (λ url. record url { form_usage_type = t })) =
        λ t. set_url_lem b c (λ url. record url { form_usage_type = t }) (λ u h. h) in
      Outcome-branch (same_text value (bytes "UNIQUE_USERS_AND_PASSWORDS")) (λ _. set _)
        λ _.
          Outcome-branch (same_text value (bytes "UNIQUE_USERS_SAME_PASSWORD")) (λ _. set _)
            λ _.
              Outcome-branch (same_text value (bytes "SINGLE_USER")) (λ _. set _)
                λ _.
                  Outcome-branch (same_text value (bytes "RECORDS_FROM_FILE")) (λ _. set _)
                    λ _.
                      Outcome-branch (same_text value (bytes "AS_IS")) (λ _. set _)
                        (λ _. returns if_none)

  pub form_records_random_parser-Sound : Sound granted of_url form_records_random_parser
  unfolding form_records_random_parser
  form_records_random_parser-Sound b value c =
      flag_lem (atol value)
        λ f. set_url_lem b c (λ u. record u { form_records_random = f }) (λ u h. h)

  pub form_records_cycle_parser-Sound : Sound granted of_url form_records_cycle_parser
  unfolding form_records_cycle_parser
  form_records_cycle_parser-Sound b value c =
      flag_lem (atoi value)
        λ f. set_url_lem b c (λ u. record u { form_records_cycle = f }) (λ u h. h)

  pub form_records_file_max_num_parser-Sound : Sound granted of_url form_records_file_max_num_parser
  unfolding form_records_file_max_num_parser
  form_records_file_max_num_parser-Sound b value c = nonnegative_lem (atol value) λ m _.
      with_url_lem b c (set_max_num b m) λ i.
        Outcome-option (b.url_ctx_array i).form_records_file
          (λ _. returns (if_some (put_url_lem b c i _ (c.2 i)))) (λ _ _. returns if_none)

pub form_string_parser-Sound :
    (platform : Platform) → Sound platform.granted of_url (form_string_parser platform)
unfolding form_string_parser
form_string_parser-Sound platform b value c =
    let granted = platform.granted in
    with_url_lem b c (set_form platform b value) λ i.
      let u = b.url_ctx_array i in
      Outcome-branch (length value == 0) (λ _. returns if_none)
        λ _.
          Outcome-branch (not (is_defined u.form_usage_type)) (λ _. returns if_none)
            λ _.
              Outcome-branch
                (not (
                  fits_usage u.form_usage_type (count_text (bytes "%s%d") value)
                    (count_text (bytes "%s") value)))
                (λ _. returns if_none)
                λ _.
                  Outcome-branch (not (granted (length value + 1))) (λ _. returns if_none)
                    (λ _. returns (if_some (put_url_lem b c i _ (c.2 i))))
