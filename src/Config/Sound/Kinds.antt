-- ===== src/Config/Sound/Kinds.antt =====
-- What the parsers of the tags can meet: every parser of the table is sound for the kind of its tag.
use curl_loader.Base.{
  ℕ, ◌≡◌, refl, inl, inr, Bool-cases, Bool, true, false, arith, List, [], ◌∷◌, All, ◌==◌,
  if◌then◌else◌, IfSome, if_none, if_some, IfSome-branch,
}
use curl_loader.Config.Chars.{Text, bytes, same_text}
use curl_loader.Config.Parsing.{Platform}
use curl_loader.Config.Files.{Parser, batch_name, tp_map, find_parser}
use curl_loader.Config.Sound.{Kind, general, of_url, timed, statuses, token, other, Sound}
use curl_loader.Config.Sound.General.{
  batch_name_parser-Sound, clients_num_max_parser-Sound, clients_num_start_parser-Sound,
  interface_parser-Sound, ip_shared_num_parser-Sound, cycles_num_parser-Sound,
  req_rate_parser-Sound, run_time_parser-Sound, clients_rampup_inc_parser-Sound,
  user_agent_parser-Sound, dump_opstats_parser-Sound, netmask_parser-Sound,
  ip_addr_min_parser-Sound, ip_addr_max_parser-Sound, urls_num_parser-Sound,
}
use curl_loader.Config.Sound.Urls.{
  url_use_current_parser-Sound, url_dont_cycle_parser-Sound, fresh_connect_parser-Sound,
  ftp_active_parser-Sound, log_resp_headers_parser-Sound, log_resp_bodies_parser-Sound,
  fetch_probability_once_parser-Sound, ignore_content_length-Sound, url_short_name_parser-Sound,
  username_parser-Sound, password_parser-Sound, timer_tcp_conn_setup_parser-Sound,
  transfer_limit_rate_parser-Sound, fetch_probability_parser-Sound, request_type_parser-Sound,
  web_auth_method_parser-Sound, proxy_auth_method_parser-Sound, url_parser-Sound,
  web_auth_credentials_parser-Sound, proxy_auth_credentials_parser-Sound, header_parser-Sound,
  url_random_token-Sound,
}
use curl_loader.Config.Sound.Forms.{
  timer_url_completion_parser-Sound, timer_after_url_sleep_parser-Sound, url_random_range-Sound,
  form_usage_type_parser-Sound, form_records_random_parser-Sound, form_records_cycle_parser-Sound,
  form_records_file_max_num_parser-Sound, form_string_parser-Sound,
}
use curl_loader.Config.Sound.Statuses.{response_status_errors_parser-Sound}

-- The tags whose parsers never fault
abbrev general_tags : List Text
general_tags =
    batch_name
    ∷ bytes "CLIENTS_NUM_MAX"
    ∷ bytes "CLIENTS_NUM_START"
    ∷ bytes "CLIENTS_RAMPUP_INC"
    ∷ bytes "INTERFACE"
    ∷ bytes "NETMASK"
    ∷ bytes "IP_ADDR_MIN"
    ∷ bytes "IP_ADDR_MAX"
    ∷ bytes "IP_SHARED_NUM"
    ∷ bytes "CYCLES_NUM"
    ∷ bytes "USER_AGENT"
    ∷ bytes "URLS_NUM"
    ∷ bytes "DUMP_OPSTATS"
    ∷ bytes "REQ_RATE"
    ∷ bytes "URL"
    ∷ []

-- The tags whose parsers write to the url in work
abbrev url_tags : List Text
url_tags =
    bytes "URL_SHORT_NAME"
    ∷ bytes "URL_USE_CURRENT"
    ∷ bytes "URL_DONT_CYCLE"
    ∷ bytes "HEADER"
    ∷ bytes "REQUEST_TYPE"
    ∷ bytes "USERNAME"
    ∷ bytes "PASSWORD"
    ∷ bytes "FORM_USAGE_TYPE"
    ∷ bytes "FORM_STRING"
    ∷ bytes "WEB_AUTH_METHOD"
    ∷ bytes "WEB_AUTH_CREDENTIALS"
    ∷ bytes "PROXY_AUTH_METHOD"
    ∷ bytes "PROXY_AUTH_CREDENTIALS"
    ∷ bytes "FRESH_CONNECT"
    ∷ bytes "TIMER_TCP_CONN_SETUP"
    ∷ bytes "TIMER_URL_COMPLETION"
    ∷ bytes "TIMER_AFTER_URL_SLEEP"
    ∷ bytes "FTP_ACTIVE"
    ∷ bytes "LOG_RESP_HEADERS"
    ∷ bytes "LOG_RESP_BODIES"
    ∷ bytes "TRANSFER_LIMIT_RATE"
    ∷ bytes "FETCH_PROBABILITY"
    ∷ bytes "FETCH_PROBABILITY_ONCE"
    ∷ bytes "FORM_RECORDS_RANDOM"
    ∷ bytes "FORM_RECORDS_FILE_MAX_NUM"
    ∷ bytes "FORM_RECORDS_CYCLE"
    ∷ bytes "IGNORE_CONTENT_LENGTH"
    ∷ bytes "URL_RANDOM_RANGE"
    ∷ []

unfoldable is_among : List Text → Text → Bool
unfolding same_text
is_among [] tag = false
is_among (name ∷ names) tag =
    let rest = is_among names tag in if same_text name tag then true else rest

unfoldable pub kind_of : Text → Kind
unfolding is_among
kind_of tag =
    if is_among general_tags tag
    then general
    else if is_among url_tags tag
    then of_url
    else if same_text (bytes "RUN_TIME") tag
    then timed
    else if same_text (bytes "RESPONSE_STATUS_ERRORS") tag
    then statuses
    else if same_text (bytes "URL_RANDOM_TOKEN") tag
    then token
    else other

same_text-eq : (s t : Text) → same_text s t ≡ true → s ≡ t
unfolding same_text
same_text-eq [] [] e = refl
same_text-eq [] (d ∷ t) e = ground arith
same_text-eq (c ∷ s) [] e = ground arith
same_text-eq (c ∷ s) (d ∷ t) e = elim (Bool-cases (c == d)) [
  | inl h ↦ let first : c ≡ d = ground (arith, h) in rw (first, same_text-eq s t (rw h at e)) refl
  | inr h ↦ absurd (ground (arith, h, e))
]

-- Every parser of a table
abbrev pub AreSound : (ℕ → Bool) → List (Text × Parser) → Type 0
AreSound granted = All (λ entry. Sound granted (kind_of entry.0) entry.1)

module _ (platform : Platform) (rest : List (Text × Parser)) where
  pub tp_map-AreSound :
      AreSound platform.granted rest → AreSound platform.granted (tp_map platform rest)
  unfolding tp_map kind_of is_among same_text
  tp_map-AreSound h =
      let granted = platform.granted in
      (
        batch_name_parser-Sound granted,
        (
          clients_num_max_parser-Sound granted,
          (
            clients_num_start_parser-Sound granted,
            (
              clients_rampup_inc_parser-Sound granted,
              (
                interface_parser-Sound granted,
                (
                  netmask_parser-Sound platform,
                  (
                    ip_addr_min_parser-Sound platform,
                    (
                      ip_addr_max_parser-Sound platform,
                      (
                        ip_shared_num_parser-Sound granted,
                        (
                          cycles_num_parser-Sound granted,
                          (
                            run_time_parser-Sound granted,
                            (
                              user_agent_parser-Sound granted,
                              (
                                urls_num_parser-Sound platform,
                                (
                                  dump_opstats_parser-Sound granted,
                                  (
                                    req_rate_parser-Sound granted,
                                    (
                                      url_parser-Sound platform,
                                      (
                                        url_short_name_parser-Sound granted,
                                        (
                                          url_use_current_parser-Sound granted,
                                          (
                                            url_dont_cycle_parser-Sound granted,
                                            (
                                              header_parser-Sound platform,
                                              (
                                                request_type_parser-Sound granted,
                                                (
                                                  username_parser-Sound granted,
                                                  (
                                                    password_parser-Sound granted,
                                                    (
                                                      form_usage_type_parser-Sound granted,
                                                      (
                                                        form_string_parser-Sound platform,
                                                        (
                                                          web_auth_method_parser-Sound granted,
                                                          (
                                                            web_auth_credentials_parser-Sound
                                                            platform,
                                                            (
                                                            proxy_auth_method_parser-Sound granted,
                                                            (
                                                            proxy_auth_credentials_parser-Sound
                                                            platform,
                                                            (
                                                            fresh_connect_parser-Sound granted,
                                                            (
                                                            timer_tcp_conn_setup_parser-Sound
                                                            granted,
                                                            (
                                                            timer_url_completion_parser-Sound
                                                            granted,
                                                            (
                                                            timer_after_url_sleep_parser-Sound
                                                            granted,
                                                            (
                                                            ftp_active_parser-Sound granted,
                                                            (
                                                            log_resp_headers_parser-Sound granted,
                                                            (
                                                            log_resp_bodies_parser-Sound granted,
                                                            (
                                                            response_status_errors_parser-Sound
                                                            platform,
                                                            (
                                                            transfer_limit_rate_parser-Sound
                                                            granted,
                                                            (
                                                            fetch_probability_parser-Sound granted,
                                                            (
                                                            fetch_probability_once_parser-Sound
                                                            granted,
                                                            (
                                                            form_records_random_parser-Sound
                                                            granted,
                                                            (
                                                            form_records_file_max_num_parser-Sound
                                                            granted,
                                                            (
                                                            form_records_cycle_parser-Sound granted,
                                                            (
                                                            ignore_content_length-Sound granted,
                                                            (
                                                            url_random_range-Sound granted,
                                                            (url_random_token-Sound platform, h),
                                                            ),
                                                            ),
                                                            ),
                                                            ),
                                                            ),
                                                            ),
                                                            ),
                                                            ),
                                                            ),
                                                            ),
                                                            ),
                                                            ),
                                                            ),
                                                            ),
                                                            ),
                                                            ),
                                                            ),
                                                            ),
                                                          ),
                                                        ),
                                                      ),
                                                    ),
                                                  ),
                                                ),
                                              ),
                                            ),
                                          ),
                                        ),
                                      ),
                                    ),
                                  ),
                                ),
                              ),
                            ),
                          ),
                        ),
                      ),
                    ),
                  ),
                ),
              ),
            ),
          ),
        ),
      )

  pub find_parser-Sound :
      (entries : List (Text × Parser)) (tag : Text)
      → AreSound platform.granted entries
      → IfSome (Sound platform.granted (kind_of tag)) (find_parser entries tag)
  unfolding find_parser
  find_parser-Sound [] tag h = if_none
  find_parser-Sound ((name, parser) ∷ entries) tag (h, hs) =
      IfSome-branch (same_text name tag) (λ e. if_some (rw (← same_text-eq name tag e) h))
        (λ _. find_parser-Sound entries tag hs)
