-- ===== src/Config/Urls.antt =====
-- parse_conf.c: the parsers of the section URL that set one field, and url_parser.
use curl_loader.Base.{
  ℕ, zero, suc, ◌+◌, Bool, true, false, ◌&&◌, ◌||◌, not, Option, none, some, [], ◌∷◌, ◌++◌, fault,
  ltb, leb, ◌==◌, if◌then◌else◌, length,
}
use curl_loader.Config.{
  UrlConfig, BatchConfig, UrlApplType, url_appl_undef, url_appl_http, url_appl_https, url_appl_ftp,
  url_appl_ftps, url_appl_sftp, url_appl_telnet, ReqType, http_req_type_get, http_req_type_post,
  http_req_type_put, http_req_type_head, http_req_type_delete, AuthenticationMethod,
  authentication_no, authentication_basic, authentication_digest, authentication_gss_negotiate,
  authentication_ntlm, authentication_any,
}
use curl_loader.Config.Chars.{
  Text, ℤ, pos, negsuc, bytes, atol, same_text, has_char, has_text, take,
}
use curl_loader.Config.Parsing.{
  Platform, Parsed, accept, reject, nonnegative, flag, with_url, put_url, set_url,
}

unfoldable pub url_schema_classification : Text → UrlApplType
url_schema_classification url =
    if has_text (bytes "https://") url
    then url_appl_https
    else if has_text (bytes "http://") url
    then url_appl_http
    else if has_text (bytes "ftps://") url
    then url_appl_ftps
    else if has_text (bytes "ftp://") url
    then url_appl_ftp
    else if has_text (bytes "sftp://") url
    then url_appl_sftp
    else if has_text (bytes "telnet://") url
    then url_appl_telnet
    else url_appl_undef

-- `++` of an int
abbrev pub succ : ℤ → ℤ
succ (pos n) = pos (n + 1)
succ (negsuc zero) = pos 0
succ (negsuc (suc n)) = negsuc n

abbrev pub is_http : UrlConfig → Bool
is_http url = elim url.url_appl_type [ url_appl_http ↦ true | url_appl_https ↦ true | _ ↦ false ]

module _ (platform : Platform) where
  -- What url_parser does at its url, which is among the urls.
  abbrev pub fill_url : BatchConfig → ℕ → Text → Parsed
  fill_url bctx zero [] = reject
  fill_url bctx (suc k) [] = accept (
      put_url bctx (k + 1) (record (bctx.url_ctx_array (k + 1)) {
        url_appl_type = (bctx.url_ctx_array k).url_appl_type;
        url_ind = k + 1;
      }))
  fill_url bctx i (c ∷ value) =
      if not (platform.granted (length (c ∷ value) + 1))
      then reject
      else accept (
          put_url bctx i (record (bctx.url_ctx_array i) {
            url_str = some (c ∷ value);
            url_str_len = length (c ∷ value) + 1;
            url_appl_type = url_schema_classification (c ∷ value);
            url_ind = i;
          }))

  unfoldable pub url_parser : BatchConfig → Text → Parsed
  unfolding url_schema_classification
  url_parser bctx value =
      let url_index = succ bctx.url_index in
      let opened = record bctx { url_index = url_index } in
      elim url_index [
        | pos i ↦ if leb bctx.urls_num i then reject else fill_url opened i value
        | negsuc n ↦ fault
      ]

  -- The value is copied once there is memory for it and it has a separator.
  abbrev pub set_web_credentials : BatchConfig → Text → ℕ → UrlConfig → Parsed
  set_web_credentials bctx value i url =
      if not (platform.granted (length value + 1))
      then reject
      else if not (has_char b':' value)
      then reject
      else accept (put_url bctx i (record url { web_auth_credentials = some value }))

  unfoldable pub web_auth_credentials_parser : BatchConfig → Text → Parsed
  web_auth_credentials_parser bctx [] = accept bctx
  web_auth_credentials_parser bctx (c ∷ value) =
      with_url bctx (set_web_credentials bctx (c ∷ value))

  -- The value is copied once there is memory for it and it has a separator.
  abbrev pub set_proxy_credentials : BatchConfig → Text → ℕ → UrlConfig → Parsed
  set_proxy_credentials bctx value i url =
      if not (platform.granted (length value + 1))
      then reject
      else if not (has_char b':' value)
      then reject
      else accept (put_url bctx i (record url { proxy_auth_credentials = some value }))

  unfoldable pub proxy_auth_credentials_parser : BatchConfig → Text → Parsed
  proxy_auth_credentials_parser bctx [] = accept bctx
  proxy_auth_credentials_parser bctx (c ∷ value) =
      with_url bctx (set_proxy_credentials bctx (c ∷ value))

  -- curl_slist_append fails where its memory is not granted.
  abbrev pub append_header : BatchConfig → Text → ℕ → UrlConfig → Parsed
  append_header bctx value i url =
      if is_http url && not (has_char b':' value)
      then reject
      else if leb 64 url.custom_http_hdrs_num
      then reject
      else if not (platform.granted (length value + 1))
      then reject
      else accept (
          put_url bctx i (record url {
            custom_http_hdrs = url.custom_http_hdrs ++ value ∷ [];
            custom_http_hdrs_num = url.custom_http_hdrs_num + 1;
          }))

  unfoldable pub header_parser : BatchConfig → Text → Parsed
  header_parser bctx [] = reject
  header_parser bctx (c ∷ value) = with_url bctx (append_header bctx (c ∷ value))

  unfoldable pub url_random_token : BatchConfig → Text → Parsed
  url_random_token bctx value =
      if platform.granted (length value + 1)
      then set_url bctx (λ url. record url { random_token = some value })
      else fault

unfoldable pub url_short_name_parser : BatchConfig → Text → Parsed
url_short_name_parser bctx [] = accept bctx
url_short_name_parser bctx (c ∷ value) =
    set_url bctx (λ url. record url { url_short_name = take 12 (c ∷ value) })

unfoldable pub username_parser : BatchConfig → Text → Parsed
username_parser bctx [] = accept bctx
username_parser bctx (c ∷ value) =
    set_url bctx (λ url. record url { username = take 63 (c ∷ value) })

unfoldable pub password_parser : BatchConfig → Text → Parsed
password_parser bctx [] = accept bctx
password_parser bctx (c ∷ value) =
    set_url bctx (λ url. record url { password = take 63 (c ∷ value) })

unfoldable pub url_use_current_parser : BatchConfig → Text → Parsed
url_use_current_parser bctx value =
    flag (atol value) λ b. set_url bctx (λ url. record url { url_use_current = b })

unfoldable pub url_dont_cycle_parser : BatchConfig → Text → Parsed
url_dont_cycle_parser bctx value =
    flag (atol value) λ b. set_url bctx (λ url. record url { url_dont_cycle = b })

unfoldable pub fresh_connect_parser : BatchConfig → Text → Parsed
fresh_connect_parser bctx value =
    flag (atol value) λ b. set_url bctx (λ url. record url { fresh_connect = b })

unfoldable pub ftp_active_parser : BatchConfig → Text → Parsed
ftp_active_parser bctx value =
    flag (atol value) λ b. set_url bctx (λ url. record url { ftp_active = b })

unfoldable pub log_resp_headers_parser : BatchConfig → Text → Parsed
log_resp_headers_parser bctx value =
    flag (atol value) λ b. set_url bctx (λ url. record url { log_resp_headers = b })

unfoldable pub log_resp_bodies_parser : BatchConfig → Text → Parsed
log_resp_bodies_parser bctx value =
    flag (atol value) λ b. set_url bctx (λ url. record url { log_resp_bodies = b })

unfoldable pub fetch_probability_once_parser : BatchConfig → Text → Parsed
fetch_probability_once_parser bctx value =
    flag (atol value) λ b. set_url bctx (λ url. record url { fetch_probability_once = b })

unfoldable pub ignore_content_length : BatchConfig → Text → Parsed
ignore_content_length bctx value =
    flag (atol value) λ b. set_url bctx (λ url. record url { ignore_content_length = b })

unfoldable pub timer_tcp_conn_setup_parser : BatchConfig → Text → Parsed
timer_tcp_conn_setup_parser bctx value = nonnegative (atol value) λ n.
    if n == 0 || ltb 50 n then reject else set_url bctx (λ url. record url { connect_timeout = n })

unfoldable pub transfer_limit_rate_parser : BatchConfig → Text → Parsed
transfer_limit_rate_parser bctx value =
    nonnegative (atol value) λ n. set_url bctx (λ url. record url { transfer_limit_rate = n })

unfoldable pub fetch_probability_parser : BatchConfig → Text → Parsed
fetch_probability_parser bctx value = nonnegative (atol value) λ n.
    if ltb n 1 || ltb 100 n
    then reject
    else set_url bctx (λ url. record url { fetch_probability = n })

unfoldable pub request_type_parser : BatchConfig → Text → Parsed
request_type_parser bctx value =
    let set : ReqType → Parsed = λ t. set_url bctx (λ url. record url { req_type = t }) in
    if same_text value (bytes "GET")
    then set http_req_type_get
    else if same_text value (bytes "POST")
    then set http_req_type_post
    else if same_text value (bytes "PUT")
    then set http_req_type_put
    else if same_text value (bytes "HEAD")
    then set http_req_type_head
    else if same_text value (bytes "DELETE")
    then set http_req_type_delete
    else reject

-- The names of the methods, with NON_APPLICABLE_STR, which is empty.
abbrev pub auth_method : Text → Option AuthenticationMethod
auth_method value =
    if same_text value []
    then some authentication_no
    else if same_text value (bytes "BASIC")
    then some authentication_basic
    else if same_text value (bytes "DIGEST")
    then some authentication_digest
    else if same_text value (bytes "GSS_NEGOTIATE")
    then some authentication_gss_negotiate
    else if same_text value (bytes "NTLM")
    then some authentication_ntlm
    else if same_text value (bytes "ANY")
    then some authentication_any
    else none

unfoldable pub web_auth_method_parser : BatchConfig → Text → Parsed
web_auth_method_parser bctx value = elim (auth_method value) [
  | none ↦ reject
  | some t ↦ set_url bctx (λ url. record url { web_auth_method = t })
]

unfoldable pub proxy_auth_method_parser : BatchConfig → Text → Parsed
proxy_auth_method_parser bctx value = elim (auth_method value) [
  | none ↦ reject
  | some t ↦ set_url bctx (λ url. record url { proxy_auth_method = t })
]
