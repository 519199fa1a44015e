-- ===== src/Config.antt =====
-- The configuration that parse_conf.c reads: the fields of url.h and batch.h that its parsers fill.
use curl_loader.Base.{ℕ, Bool, Option, List}
use curl_loader.Config.Chars.{Text, ℤ}
pub mod Chars
pub mod Parsing
pub mod General
pub mod Urls
pub mod Forms
pub mod Statuses
pub mod Validate
pub mod Cycling
pub mod Files
pub mod Sound
pub mod Ready
pub mod CommandLine

-- `url_appl_undef` is 0, set by calloc.
pub data UrlApplType : Type 0 where
  url_appl_undef url_appl_http url_appl_https url_appl_ftp : UrlApplType
  url_appl_ftps url_appl_sftp url_appl_telnet : UrlApplType

-- The values of req_type: `http_req_type_first` is 0, set by calloc.
pub data ReqType : Type 0 where
  http_req_type_first http_req_type_get http_req_type_post : ReqType
  http_req_type_put http_req_type_head http_req_type_delete : ReqType

-- The values of form_usage_type: `form_usagetype_start` is 0, set by calloc.
pub data FormUsagetype : Type 0 where
  form_usagetype_start form_usagetype_unique_users_and_passwords : FormUsagetype
  form_usagetype_unique_users_same_password form_usagetype_single_user : FormUsagetype
  form_usagetype_records_from_file form_usagetype_as_is : FormUsagetype

pub data AuthenticationMethod : Type 0 where
  authentication_no authentication_basic authentication_digest : AuthenticationMethod
  authentication_gss_negotiate authentication_ntlm authentication_any : AuthenticationMethod

-- A text field is `none` for NULL; an array of characters is the text up to its end. The list of headers
-- is in the order of curl_slist_append, and custom_http_hdrs_num is kept apart, as in the code.
pub record UrlConfig : Type 0 where
  pub url_str : Option Text
  pub url_str_len : ℕ
  pub url_short_name : Text
  pub url_use_current : Bool
  pub url_dont_cycle : Bool
  pub custom_http_hdrs_num : ℕ
  pub custom_http_hdrs : List Text
  pub req_type : ReqType
  pub username : Text
  pub password : Text
  pub form_usage_type : FormUsagetype
  pub form_str : Option Text
  pub form_records_file : Option Text
  pub form_records_file_max_num : ℕ
  pub form_records_random : Bool
  pub form_records_cycle : Bool
  pub mpart_form_post : Bool
  pub web_auth_method : AuthenticationMethod
  pub web_auth_credentials : Option Text
  pub proxy_auth_method : AuthenticationMethod
  pub proxy_auth_credentials : Option Text
  pub fresh_connect : Bool
  pub connect_timeout : ℕ
  pub timer_url_completion_lrange : ℕ
  pub timer_url_completion_hrange : ℕ
  pub timer_after_url_sleep_lrange : ℕ
  pub timer_after_url_sleep_hrange : ℕ
  pub ftp_active : Bool
  pub log_resp_headers : Bool
  pub log_resp_bodies : Bool
  pub transfer_limit_rate : ℕ
  pub fetch_probability : ℕ
  pub fetch_probability_once : Bool
  pub url_appl_type : UrlApplType
  pub url_ind : ℕ
  pub resp_status_errors_tbl : Option (ℕ → Bool)
  pub ignore_content_length : Bool
  pub random_lrange : ℤ
  pub random_hrange : ℤ
  pub random_token : Option Text

-- `url_ctx_array` has `urls_num` entries; before URLS_NUM it is NULL and `urls_num` is 0. The fields of
-- the C type int or long that a parser keeps from being negative are natural numbers.
pub record BatchConfig : Type 0 where
  pub batch_name : Text
  pub client_num_max : ℕ
  pub client_num_start : ℕ
  pub clients_rampup_inc : ℕ
  pub net_interface : Text
  pub ipv6 : Bool
  pub ip_addr_min : ℕ
  pub ip_addr_max : ℕ
  pub ipv6_addr_min : ℕ
  pub ipv6_addr_max : ℕ
  pub ip_shared_num : ℕ
  pub cidr_netmask : ℕ
  pub cycles_num : ℕ
  pub run_time : ℕ
  pub req_rate : ℕ
  pub user_agent : Text
  pub urls_num : ℕ
  pub url_ctx_array : ℕ → UrlConfig
  pub url_index : ℤ
  pub dump_opstats : Bool
