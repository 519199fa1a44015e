-- ===== src/Config/Files.antt =====
-- parse_conf.c: the lines of a configuration file, `TAG = value`, and the table of tags.
use curl_loader.Base.{
  ℕ, zero, suc, ◌+◌, Bool, false, ◌||◌, Option, none, some, List, [], ◌∷◌, ◌++◌, Run, ok, fault,
  ◌>>=◌, ltb, leb, ◌==◌, if◌then◌else◌, update,
}
use curl_loader.Config.{BatchConfig}
use curl_loader.Config.Chars.{Text, bytes, same_text, has_text, split_at}
use curl_loader.Config.Parsing.{Platform, Parsed}
use curl_loader.Config.General.{
  batch_name_parser, clients_num_max_parser, clients_num_start_parser, clients_rampup_inc_parser,
  interface_parser, netmask_parser, ip_addr_min_parser, ip_addr_max_parser, ip_shared_num_parser,
  cycles_num_parser, run_time_parser, user_agent_parser, urls_num_parser, dump_opstats_parser,
  req_rate_parser,
}
use curl_loader.Config.Urls.{
  url_parser, url_short_name_parser, url_use_current_parser, url_dont_cycle_parser, header_parser,
  request_type_parser, username_parser, password_parser, web_auth_method_parser,
  web_auth_credentials_parser, proxy_auth_method_parser, proxy_auth_credentials_parser,
  fresh_connect_parser, timer_tcp_conn_setup_parser, ftp_active_parser, log_resp_headers_parser,
  log_resp_bodies_parser, transfer_limit_rate_parser, fetch_probability_parser,
  fetch_probability_once_parser, ignore_content_length, url_random_token,
}
use curl_loader.Config.Forms.{
  form_usage_type_parser, form_string_parser, timer_url_completion_parser,
  timer_after_url_sleep_parser, form_records_random_parser, form_records_cycle_parser,
  form_records_file_max_num_parser, url_random_range,
}
use curl_loader.Config.Statuses.{response_status_errors_parser}
use curl_loader.Config.Validate.{validate_batch}
use curl_loader.Config.Cycling.{post_validate_init}
use curl_loader.Context.{ClientContext, BatchContext}

abbrev pub Parser : Type 0
Parser = BatchConfig → Text → Parsed

unfoldable pub is_ws : ℕ → Bool
is_ws c = c == b' ' || c == b'\t' || c == b'\r' || c == b'\n'

-- The text behind the leading white space, `none` if there is nothing else.
unfoldable pub eat_ws : Text → Option Text
unfolding is_ws
eat_ws [] = none
eat_ws (c ∷ s) = let rest = eat_ws s in if is_ws c then rest else some (c ∷ s)

-- The text up to the white space that skip_non_ws finds, where the code writes a NUL.
unfoldable pub until_ws : Text → Text
unfolding is_ws
until_ws [] = []
until_ws (c ∷ s) = let rest = c ∷ until_ws s in if is_ws c then [] else rest

-- The value with its quotes, given what follows the first: up to the second quote, empty if there is nothing behind the first, and up to
-- white space where there is no second.
unfoldable pub quoted : Text → Text
unfolding until_ws
quoted [] = []
quoted (c ∷ rest) =
    let (inside, behind) = split_at b'"' (c ∷ rest) in
    elim behind [ none ↦ until_ws (b'"' ∷ c ∷ rest) | some after ↦ b'"' ∷ inside ++ b'"' ∷ [] ]

-- The value without white space before it, comments, and what follows it; `none` is -1.
unfoldable pub pre_parser : Text → Option Text
unfolding eat_ws until_ws quoted
pre_parser s = elim (eat_ws s) [
  | none ↦ none
  | some start ↦ elim (split_at b'#' start).0 [
    | [] ↦ none
    | c ∷ rest ↦ some (if c == b'"' then quoted rest else until_ws (c ∷ rest))
  ]
]

-- A quote at the end is removed.
unfoldable pub drop_quote : Text → Text
drop_quote [] = []
drop_quote (c ∷ []) = if c == b'"' then [] else c ∷ []
drop_quote (c ∷ d ∷ s) = c ∷ drop_quote (d ∷ s)

-- The value without its quotes; `none` where the line is left without effect.
unfoldable pub unquote : Text → Option Text
unfolding drop_quote
unquote [] = none
unquote (c ∷ rest) =
    if c == b'"'
    then elim rest [ [] ↦ none | d ∷ s ↦ some (drop_quote (d ∷ s)) ]
    else some (c ∷ rest)

-- strcmp over the entries of a table
unfoldable pub find_parser : List (Text × Parser) → Text → Option Parser
find_parser [] tag = none
find_parser ((name, parser) ∷ entries) tag =
    let rest = find_parser entries tag in if same_text name tag then some parser else rest

abbrev pub batch_name : Text
batch_name = bytes "BATCH_NAME"

-- The contexts of the batches, and the index of the batch in work, `none` before the first.
pub record Batches : Type 0 where
  pub bctx_array : ℕ → BatchConfig
  pub batch_index : Option ℕ

-- The index of the batch in work at a tag: one that begins a batch moves on to the next.
abbrev pub index_at : Text → Option ℕ → Option ℕ
index_at tag batch_index =
    if has_text batch_name tag
    then elim batch_index [ none ↦ some 0 | some i ↦ some (i + 1) ]
    else batch_index

-- The batches before the first line. DUMP_OPSTATS is on by default.
abbrev pub first_batches : ℕ → (ℕ → BatchConfig) → Batches
first_batches bctx_array_size bctx_array = record {
  bctx_array = λ i. record (bctx_array i) {
    dump_opstats = ltb i bctx_array_size || (bctx_array i).dump_opstats;
  };
  batch_index = none;
}

-- What is ready for loading: a batch and its clients.
abbrev pub Ready : Type 0
Ready = BatchContext × (ℕ → ClientContext)

-- `rest` stands for the entries of the table whose parsers read files or make forms, and for those of
-- templates, response tokens and the random seed.
module _ (platform : Platform) (rest : List (Text × Parser)) where
  unfoldable pub tp_map : List (Text × Parser)
  tp_map =
      (batch_name, batch_name_parser)
      ∷ (bytes "CLIENTS_NUM_MAX", clients_num_max_parser)
      ∷ (bytes "CLIENTS_NUM_START", clients_num_start_parser)
      ∷ (bytes "CLIENTS_RAMPUP_INC", clients_rampup_inc_parser)
      ∷ (bytes "INTERFACE", interface_parser)
      ∷ (bytes "NETMASK", netmask_parser platform)
      ∷ (bytes "IP_ADDR_MIN", ip_addr_min_parser platform)
      ∷ (bytes "IP_ADDR_MAX", ip_addr_max_parser platform)
      ∷ (bytes "IP_SHARED_NUM", ip_shared_num_parser)
      ∷ (bytes "CYCLES_NUM", cycles_num_parser)
      ∷ (bytes "RUN_TIME", run_time_parser)
      ∷ (bytes "USER_AGENT", user_agent_parser)
      ∷ (bytes "URLS_NUM", urls_num_parser platform)
      ∷ (bytes "DUMP_OPSTATS", dump_opstats_parser)
      ∷ (bytes "REQ_RATE", req_rate_parser)
      ∷ (bytes "URL", url_parser platform)
      ∷ (bytes "URL_SHORT_NAME", url_short_name_parser)
      ∷ (bytes "URL_USE_CURRENT", url_use_current_parser)
      ∷ (bytes "URL_DONT_CYCLE", url_dont_cycle_parser)
      ∷ (bytes "HEADER", header_parser platform)
      ∷ (bytes "REQUEST_TYPE", request_type_parser)
      ∷ (bytes "USERNAME", username_parser)
      ∷ (bytes "PASSWORD", password_parser)
      ∷ (bytes "FORM_USAGE_TYPE", form_usage_type_parser)
      ∷ (bytes "FORM_STRING", form_string_parser platform)
      ∷ (bytes "WEB_AUTH_METHOD", web_auth_method_parser)
      ∷ (bytes "WEB_AUTH_CREDENTIALS", web_auth_credentials_parser platform)
      ∷ (bytes "PROXY_AUTH_METHOD", proxy_auth_method_parser)
      ∷ (bytes "PROXY_AUTH_CREDENTIALS", proxy_auth_credentials_parser platform)
      ∷ (bytes "FRESH_CONNECT", fresh_connect_parser)
      ∷ (bytes "TIMER_TCP_CONN_SETUP", timer_tcp_conn_setup_parser)
      ∷ (bytes "TIMER_URL_COMPLETION", timer_url_completion_parser)
      ∷ (bytes "TIMER_AFTER_URL_SLEEP", timer_after_url_sleep_parser)
      ∷ (bytes "FTP_ACTIVE", ftp_active_parser)
      ∷ (bytes "LOG_RESP_HEADERS", log_resp_headers_parser)
      ∷ (bytes "LOG_RESP_BODIES", log_resp_bodies_parser)
      ∷ (bytes "RESPONSE_STATUS_ERRORS", response_status_errors_parser platform)
      ∷ (bytes "TRANSFER_LIMIT_RATE", transfer_limit_rate_parser)
      ∷ (bytes "FETCH_PROBABILITY", fetch_probability_parser)
      ∷ (bytes "FETCH_PROBABILITY_ONCE", fetch_probability_once_parser)
      ∷ (bytes "FORM_RECORDS_RANDOM", form_records_random_parser)
      ∷ (bytes "FORM_RECORDS_FILE_MAX_NUM", form_records_file_max_num_parser)
      ∷ (bytes "FORM_RECORDS_CYCLE", form_records_cycle_parser)
      ∷ (bytes "IGNORE_CONTENT_LENGTH", ignore_content_length)
      ∷ (bytes "URL_RANDOM_RANGE", url_random_range)
      ∷ (bytes "URL_RANDOM_TOKEN", url_random_token platform)
      ∷ rest

  unfoldable pub find_tag_parser : Text → Option Parser
  unfolding find_parser tp_map
  find_tag_parser tag = find_parser tp_map tag

  -- The call of the parser, after the move to the next batch where the tag begins one.
  unfoldable pub run_parser : Parser → Text → Text → Batches → Run (Option Batches)
  run_parser parser tag value batches = elim (index_at tag batches.batch_index) [
    | none ↦ fault
    | some i ↦ parser (batches.bctx_array i) value >>= λ parsed. elim parsed [
      | none ↦ ok none
      | some bctx ↦
          ok (some (record { bctx_array = update batches.bctx_array i bctx; batch_index = some i }))
    ]
  ]

  unfoldable pub add_param_to_batch : Text → Batches → Run (Option Batches)
  unfolding until_ws find_tag_parser pre_parser unquote run_parser
  add_param_to_batch line batches =
      let (name, after) = split_at b'=' line in
      let tag = until_ws name in
      elim after [
        | none ↦ ok none
        | some text ↦ elim (find_tag_parser tag) [
          | none ↦ ok none
          | some parser ↦ elim (pre_parser text) [
            | none ↦ ok none
            | some value ↦ elim (unquote value) [
              | none ↦ ok (some batches)
              | some v ↦ run_parser parser tag v batches
            ]
          ]
        ]
      ]

  -- What the loop does with a line: a blank one is skipped, and another line is refused, even a comment,
  -- once the last batch is in work.
  unfoldable pub read_line : ℕ → Text → Batches → Run (Option Batches)
  unfolding eat_ws add_param_to_batch
  read_line bctx_array_size line batches =
      let next : ℕ = elim batches.batch_index [ none ↦ 0 | some i ↦ i + 1 ] in
      let comment : Bool = elim line [ [] ↦ false | c ∷ s ↦ c == b'#' ] in
      elim (eat_ws line) [
        | none ↦ ok (some batches)
        | some start ↦
            if leb bctx_array_size next
            then ok none
            else if comment
            then ok (some batches)
            else add_param_to_batch line batches
      ]

  -- The loop over the lines that fgets gives.
  unfoldable pub read_lines : ℕ → List Text → Batches → Run (Option Batches)
  unfolding read_line
  read_lines bctx_array_size [] batches = ok (some batches)
  read_lines bctx_array_size (line ∷ lines) batches =
      read_line bctx_array_size line batches >>= λ read. elim read [
        | none ↦ ok none
        | some batches' ↦ read_lines bctx_array_size lines batches'
      ]

  -- The loop over the batches below `k`, which are validated and initialised one after the other.
  unfoldable pub prepare_batches :
      (BatchConfig → Bool) → (ℕ → BatchConfig) → ℕ → Option (List Ready)
  unfolding validate_batch post_validate_init
  prepare_batches files_ready bctx_array zero = some []
  prepare_batches files_ready bctx_array (suc k) = elim (prepare_batches files_ready bctx_array k) [
    | none ↦ none
    | some before ↦ elim (validate_batch (bctx_array k)) [
      | none ↦ none
      | some bctx ↦ elim (post_validate_init platform files_ready bctx) [
        | none ↦ none
        | some ready ↦ some (before ++ ready ∷ [])
      ]
    ]
  ]

  -- The batches of the file, `none` for -1.
  unfoldable pub parse_config_file :
      (BatchConfig → Bool) → ℕ → (ℕ → BatchConfig) → List Text → Run (Option (List Ready))
  unfolding read_lines prepare_batches
  parse_config_file files_ready bctx_array_size bctx_array lines =
      read_lines bctx_array_size lines (first_batches bctx_array_size bctx_array) >>= λ read.
      elim read [
        | none ↦ ok none
        | some batches ↦ elim batches.batch_index [
          | none ↦ ok none
          | some i ↦ ok (prepare_batches files_ready batches.bctx_array (i + 1))
        ]
      ]
