-- ===== src/Config/Sound/Urls.antt =====
-- The parsers of the section URL keep a batch in its ranges.
use curl_loader.Base.{
  ℕ, zero, suc, ◌+◌, refl, inl, inr, Bool, ◌&&◌, ◌||◌, not, arith, some, [], ◌∷◌, fault, ltb, leb,
  ◌==◌, if◌then◌else◌, length, length-append, if_none, if_some,
}
use curl_loader.Config.{BatchConfig, ReqType}
use curl_loader.Config.Chars.{Text, ℤ, pos, negsuc, bytes, atol, same_text, has_char, take}
use curl_loader.Config.Parsing.{Platform, reject, set_url}
use curl_loader.Config.Urls.{
  succ, fill_url, set_web_credentials, set_proxy_credentials, is_http, append_header, auth_method,
  url_parser, url_short_name_parser, url_use_current_parser, url_dont_cycle_parser, header_parser,
  request_type_parser, username_parser, password_parser, web_auth_method_parser,
  web_auth_credentials_parser, proxy_auth_method_parser, proxy_auth_credentials_parser,
  fresh_connect_parser, timer_tcp_conn_setup_parser, ftp_active_parser, log_resp_headers_parser,
  log_resp_bodies_parser, transfer_limit_rate_parser, fetch_probability_parser,
  fetch_probability_once_parser, ignore_content_length, url_random_token,
}
use curl_loader.Config.Sound.{
  IsConfig, IsPlaced, Outcome, returns, faults, Outcome-branch, Outcome-option, Hazard,
  nonnegative_lem, flag_lem, general, of_url, token, Sound, put_url_lem, with_url_lem, set_url_lem,
  set_url_from,
}
use curl_loader.Config.Sound.General.{length-take}

module _ (granted : ℕ → Bool) where
  pub url_use_current_parser-Sound : Sound granted of_url url_use_current_parser
  unfolding url_use_current_parser
  url_use_current_parser-Sound b value c =
      flag_lem (atol value) λ f. set_url_lem b c (λ u. record u { url_use_current = f }) (λ u h. h)

  pub url_dont_cycle_parser-Sound : Sound granted of_url url_dont_cycle_parser
  unfolding url_dont_cycle_parser
  url_dont_cycle_parser-Sound b value c =
      flag_lem (atol value) λ f. set_url_lem b c (λ u. record u { url_dont_cycle = f }) (λ u h. h)

  pub fresh_connect_parser-Sound : Sound granted of_url fresh_connect_parser
  unfolding fresh_connect_parser
  fresh_connect_parser-Sound b value c =
      flag_lem (atol value) λ f. set_url_lem b c (λ u. record u { fresh_connect = f }) (λ u h. h)

  pub ftp_active_parser-Sound : Sound granted of_url ftp_active_parser
  unfolding ftp_active_parser
  ftp_active_parser-Sound b value c =
      flag_lem (atol value) λ f. set_url_lem b c (λ u. record u { ftp_active = f }) (λ u h. h)

  pub log_resp_headers_parser-Sound : Sound granted of_url log_resp_headers_parser
  unfolding log_resp_headers_parser
  log_resp_headers_parser-Sound b value c =
      flag_lem (atol value) λ f. set_url_lem b c (λ u. record u { log_resp_headers = f }) (λ u h. h)

  pub log_resp_bodies_parser-Sound : Sound granted of_url log_resp_bodies_parser
  unfolding log_resp_bodies_parser
  log_resp_bodies_parser-Sound b value c =
      flag_lem (atol value) λ f. set_url_lem b c (λ u. record u { log_resp_bodies = f }) (λ u h. h)

  pub fetch_probability_once_parser-Sound : Sound granted of_url fetch_probability_once_parser
  unfolding fetch_probability_once_parser
  fetch_probability_once_parser-Sound b value c =
      flag_lem (atol value)
        λ f. set_url_lem b c (λ u. record u { fetch_probability_once = f }) (λ u h. h)

  pub ignore_content_length-Sound : Sound granted of_url ignore_content_length
  unfolding ignore_content_length
  ignore_content_length-Sound b value c =
      flag_lem (atol value)
        λ f. set_url_lem b c (λ u. record u { ignore_content_length = f }) (λ u h. h)

  pub url_short_name_parser-Sound : Sound granted of_url url_short_name_parser
  unfolding url_short_name_parser
  url_short_name_parser-Sound b [] c = returns (if_some c)
  url_short_name_parser-Sound b (d ∷ value) c =
      set_url_lem b c (λ u. record u { url_short_name = take 12 (d ∷ value) })
        λ u (t, n, k, f, x, y).
          ((omega (arith, length-take 12 (d ∷ value)), t.1, t.2, t.3), n, k, f, x, y)

  pub username_parser-Sound : Sound granted of_url username_parser
  unfolding username_parser
  username_parser-Sound b [] c = returns (if_some c)
  username_parser-Sound b (d ∷ value) c =
      set_url_lem b c (λ u. record u { username = take 63 (d ∷ value) })
        λ u (t, n, k, f, x, y).
          ((t.0, omega (arith, length-take 63 (d ∷ value)), t.2, t.3), n, k, f, x, y)

  pub password_parser-Sound : Sound granted of_url password_parser
  unfolding password_parser
  password_parser-Sound b [] c = returns (if_some c)
  password_parser-Sound b (d ∷ value) c =
      set_url_lem b c (λ u. record u { password = take 63 (d ∷ value) })
        λ u (t, n, k, f, x, y).
          ((t.0, t.1, omega (arith, length-take 63 (d ∷ value)), t.3), n, k, f, x, y)

  pub timer_tcp_conn_setup_parser-Sound : Sound granted of_url timer_tcp_conn_setup_parser
  unfolding timer_tcp_conn_setup_parser
  timer_tcp_conn_setup_parser-Sound b value c = nonnegative_lem (atol value) λ m _.
      Outcome-branch (m == 0 || ltb 50 m) (λ _. returns if_none)
        (λ e.
          set_url_lem b c (λ u. record u { connect_timeout = m })
            λ u (t, n, k, f, x, y). (t, n, ground (arith, e), f, x, y))

  pub transfer_limit_rate_parser-Sound : Sound granted of_url transfer_limit_rate_parser
  unfolding transfer_limit_rate_parser
  transfer_limit_rate_parser-Sound b value c =
      nonnegative_lem (atol value)
        λ m _. set_url_lem b c (λ u. record u { transfer_limit_rate = m }) (λ u h. h)

  pub fetch_probability_parser-Sound : Sound granted of_url fetch_probability_parser
  unfolding fetch_probability_parser
  fetch_probability_parser-Sound b value c = nonnegative_lem (atol value) λ m _.
      Outcome-branch (ltb m 1 || ltb 100 m) (λ _. returns if_none)
        (λ e.
          set_url_lem b c (λ u. record u { fetch_probability = m })
            λ u (t, n, k, f, x, y). (t, n, k, ground (arith, e), x, y))

  pub request_type_parser-Sound : Sound granted of_url request_type_parser
  unfolding request_type_parser
  request_type_parser-Sound b value c =
      let set : (t : ReqType)
          → Outcome IsConfig (Hazard granted of_url b value)
              (set_url b (λ url. record url { req_type = t })) =
        λ t. set_url_lem b c (λ url. record url { req_type = t }) (λ u h. h) in
      Outcome-branch (same_text value (bytes "GET")) (λ _. set _)
        λ _.
          Outcome-branch (same_text value (bytes "POST")) (λ _. set _)
            λ _.
              Outcome-branch (same_text value (bytes "PUT")) (λ _. set _)
                λ _.
                  Outcome-branch (same_text value (bytes "HEAD")) (λ _. set _)
                    λ _.
                      Outcome-branch (same_text value (bytes "DELETE")) (λ _. set _)
                        (λ _. returns if_none)

  pub web_auth_method_parser-Sound : Sound granted of_url web_auth_method_parser
  unfolding web_auth_method_parser
  web_auth_method_parser-Sound b value c =
      Outcome-option (auth_method value) (λ _. returns if_none)
        (λ t _. set_url_lem b c (λ u. record u { web_auth_method = t }) (λ u h. h))

  pub proxy_auth_method_parser-Sound : Sound granted of_url proxy_auth_method_parser
  unfolding proxy_auth_method_parser
  proxy_auth_method_parser-Sound b value c =
      Outcome-option (auth_method value) (λ _. returns if_none)
        (λ t _. set_url_lem b c (λ u. record u { proxy_auth_method = t }) (λ u h. h))

-- A url that is filled is one of the urls, and nothing faults.
fill_url-IsConfig :
    (platform : Platform) (Q : Type 0) (b : BatchConfig) (i : ℕ) (value : Text)
    → IsConfig b
    → Outcome IsConfig Q (fill_url platform b i value)
fill_url-IsConfig platform Q b zero [] c = returns if_none
fill_url-IsConfig platform Q b (suc k) [] c =
    returns (if_some (put_url_lem b c (k + 1) _ (c.2 (k + 1))))
fill_url-IsConfig platform Q b i (d ∷ value) c =
    let (t, n, k, f, x, y) = c.2 i in
    Outcome-branch (not (platform.granted (length (d ∷ value) + 1))) (λ _. returns if_none)
      (λ _. returns (if_some (put_url_lem b c i _ ((t.0, t.1, t.2, refl), n, k, f, x, y))))

-- The index before is -1, or that of a url, or there are no urls: it does not stay negative.
opened_url :
    (platform : Platform) (Q : Type 0) (b : BatchConfig) (value : Text) (z : ℤ)
    → IsConfig b
    → IsPlaced z b.urls_num
    → Outcome IsConfig Q (elim (succ z) [
      | pos i ↦
          if leb b.urls_num i
          then reject
          else fill_url platform (record b { url_index = succ z }) i value
      | negsuc n ↦ fault
    ])
opened_url platform Q b value (pos i) c p =
    Outcome-branch (leb b.urls_num (i + 1)) (λ _. returns if_none)
      (λ e.
        fill_url-IsConfig platform Q (record b { url_index = pos (i + 1) }) (i + 1) value
          (c.0, inr (ground (arith, e)), c.2))
opened_url platform Q b value (negsuc zero) c p =
    Outcome-branch (leb b.urls_num 0) (λ _. returns if_none)
      (λ e.
        fill_url-IsConfig platform Q (record b { url_index = pos 0 }) 0 value
          (c.0, inr (ground (arith, e)), c.2))
opened_url platform Q b value (negsuc (suc n)) c p = absurd (omega (arith, p))

module _ (platform : Platform) where
  pub url_parser-Sound : Sound platform.granted general (url_parser platform)
  unfolding url_parser
  url_parser-Sound b value c = opened_url platform _ b value b.url_index c c.1

  -- The credentials are checked after their memory is allocated.
  pub web_auth_credentials_parser-Sound :
      Sound platform.granted of_url (web_auth_credentials_parser platform)
  unfolding web_auth_credentials_parser
  web_auth_credentials_parser-Sound b [] c = returns (if_some c)
  web_auth_credentials_parser-Sound b (d ∷ value) c =
      with_url_lem b c (set_web_credentials platform b (d ∷ value)) λ i.
        Outcome-branch (not (platform.granted (length (d ∷ value) + 1))) (λ _. returns if_none)
          λ _.
            Outcome-branch (not (has_char b':' (d ∷ value))) (λ _. returns if_none)
              (λ _. returns (if_some (put_url_lem b c i _ (c.2 i))))

  pub proxy_auth_credentials_parser-Sound :
      Sound platform.granted of_url (proxy_auth_credentials_parser platform)
  unfolding proxy_auth_credentials_parser
  proxy_auth_credentials_parser-Sound b [] c = returns (if_some c)
  proxy_auth_credentials_parser-Sound b (d ∷ value) c =
      with_url_lem b c (set_proxy_credentials platform b (d ∷ value)) λ i.
        Outcome-branch (not (platform.granted (length (d ∷ value) + 1))) (λ _. returns if_none)
          λ _.
            Outcome-branch (not (has_char b':' (d ∷ value))) (λ _. returns if_none)
              (λ _. returns (if_some (put_url_lem b c i _ (c.2 i))))

  pub header_parser-Sound : Sound platform.granted of_url (header_parser platform)
  unfolding header_parser
  header_parser-Sound b [] c = returns if_none
  header_parser-Sound b (d ∷ value) c = with_url_lem b c (append_header platform b (d ∷ value)) λ i.
      let u = b.url_ctx_array i in
      let (t, n, k, f, x, y) = c.2 i in
      Outcome-branch (is_http u && not (has_char b':' (d ∷ value))) (λ _. returns if_none)
        λ _.
          Outcome-branch (leb 64 u.custom_http_hdrs_num) (λ _. returns if_none)
            λ e.
              Outcome-branch (not (platform.granted (length (d ∷ value) + 1)))
                (λ _. returns if_none)
                (λ _. returns (
                  if_some (
                    put_url_lem b c i _ (
                      t,
                      (
                        ground (arith, e),
                        omega (arith, length-append u.custom_http_hdrs ((d ∷ value) ∷ [])),
                      ),
                      k,
                      f,
                      x,
                      y,
                    ))))

  pub url_random_token-Sound : Sound platform.granted token (url_random_token platform)
  unfolding url_random_token
  url_random_token-Sound b value c =
      Outcome-branch (platform.granted (length value + 1))
        (λ _. set_url_from b c inl (λ u. record u { random_token = some value }) (λ u h. h))
        (λ e. faults (inr e))
