-- ===== src/Config/Parsing.antt =====
-- What the value parsers of parse_conf.c share: their results, and the url that is being configured.
use curl_loader.Base.{
  ℕ, Bool, false, Option, none, some, [], Run, ok, fault, ltb, ◌==◌, if◌then◌else◌, update,
}
use curl_loader.Config.{
  UrlConfig, BatchConfig, UrlApplType, ReqType, FormUsagetype, AuthenticationMethod,
}
use curl_loader.Config.Chars.{Text, ℤ, pos, negsuc}

-- The operating system: whether calloc gives so many bytes, the sizes of contexts, and the addresses,
-- in host order, that inet_pton reads (`none` where it returns 0: it returns -1 for no family in use).
pub record Platform : Type 0 where
  pub granted : ℕ → Bool
  pub url_context_size : ℕ
  pub client_context_size : ℕ
  pub inet_pton : Text → Option ℕ
  pub inet_pton6 : Text → Option ℕ

-- The result 0 with the batch, or -1, with which the program ends. `fault` is a write through NULL or
-- outside an array.
abbrev pub Parsed : Type 0
Parsed = Run (Option BatchConfig)

abbrev pub accept : BatchConfig → Parsed
accept bctx = ok (some bctx)

abbrev pub reject : Parsed
reject = ok none

abbrev pub nonnegative : ℤ → (ℕ → Parsed) → Parsed
nonnegative (pos n) k = k n
nonnegative (negsuc n) k = reject

-- The values 0 and 1
abbrev pub flag : ℤ → (Bool → Parsed) → Parsed
flag n k = nonnegative n λ m. if ltb 1 m then reject else k (m == 1)

-- An entry of a fresh array, set by calloc
abbrev pub fresh_url : UrlConfig
fresh_url = record {
  url_str = none;
  url_str_len = 0;
  url_short_name = [];
  url_use_current = false;
  url_dont_cycle = false;
  custom_http_hdrs_num = 0;
  custom_http_hdrs = [];
  req_type = ReqType.http_req_type_first;
  username = [];
  password = [];
  form_usage_type = FormUsagetype.form_usagetype_start;
  form_str = none;
  form_records_file = none;
  form_records_file_max_num = 0;
  form_records_random = false;
  form_records_cycle = false;
  mpart_form_post = false;
  web_auth_method = AuthenticationMethod.authentication_no;
  web_auth_credentials = none;
  proxy_auth_method = AuthenticationMethod.authentication_no;
  proxy_auth_credentials = none;
  fresh_connect = false;
  connect_timeout = 0;
  timer_url_completion_lrange = 0;
  timer_url_completion_hrange = 0;
  timer_after_url_sleep_lrange = 0;
  timer_after_url_sleep_hrange = 0;
  ftp_active = false;
  log_resp_headers = false;
  log_resp_bodies = false;
  transfer_limit_rate = 0;
  fetch_probability = 0;
  fetch_probability_once = false;
  url_appl_type = UrlApplType.url_appl_undef;
  url_ind = 0;
  resp_status_errors_tbl = none;
  ignore_content_length = false;
  random_lrange = pos 0;
  random_hrange = pos 0;
  random_token = none;
}

-- `&bctx->url_ctx_array[bctx->url_index]`, whose fields are read or written.
abbrev pub with_url : BatchConfig → (ℕ → UrlConfig → Parsed) → Parsed
with_url bctx k = elim bctx.url_index [
  | pos i ↦ if ltb i bctx.urls_num then k i (bctx.url_ctx_array i) else fault
  | negsuc n ↦ fault
]

abbrev pub put_url : BatchConfig → ℕ → UrlConfig → BatchConfig
put_url bctx i url = record bctx { url_ctx_array = update bctx.url_ctx_array i url }

-- A write to fields of the url in work
abbrev pub set_url : BatchConfig → (UrlConfig → UrlConfig) → Parsed
set_url bctx change = with_url bctx λ i url. accept (put_url bctx i (change url))
