-- ===== src/Config/Cycling.antt =====
-- parse_conf.c: the cycling urls of a batch, and the batch that the loader starts with.
use curl_loader.Base.{
  ℕ, zero, suc, ◌+◌, ◌-◌, ◌*◌, ◌^◌, Bool, true, false, ◌&&◌, ◌||◌, not, Option, none, some, ltb,
  leb, ◌==◌, if◌then◌else◌, update,
}
use curl_loader.Statistics.{CState, StatPoint, OpStatPoint, op_stat_point_init}
use curl_loader.Context.{UrlContext, ClientContext, BatchContext}
use curl_loader.Config.{UrlConfig, BatchConfig}
use curl_loader.Config.Parsing.{Platform}
pub mod Ends
pub mod Loadable
pub mod Lifetime

-- The loop of find_first_cycling_url from url `i` on, with `left` urls to go; `none` is -1.
unfoldable pub first_from : (ℕ → UrlConfig) → ℕ → ℕ → Option ℕ
first_from urls i zero = none
first_from urls i (suc left) =
    let rest = first_from urls (i + 1) left in if not (urls i).url_dont_cycle then some i else rest

-- The loop of find_last_cycling_url below url `n`.
unfoldable pub last_below : (ℕ → UrlConfig) → ℕ → Option ℕ
last_below urls zero = none
last_below urls (suc n) = if not (urls n).url_dont_cycle then some n else last_below urls n

-- What the loader reads of a url.
abbrev pub url_context : UrlConfig → UrlContext
url_context url = record {
  url_use_current = url.url_use_current;
  fresh_connect = url.fresh_connect;
  log_resp = url.log_resp_bodies || url.log_resp_headers;
  fetch_probability = url.fetch_probability;
  timer_url_completion_lrange = url.timer_url_completion_lrange;
  timer_url_completion_hrange = url.timer_url_completion_hrange;
  timer_after_url_sleep_lrange = url.timer_after_url_sleep_lrange;
  timer_after_url_sleep_hrange = url.timer_after_url_sleep_hrange;
}

abbrev pub no_stat : StatPoint
no_stat = record {
  data_in = 0;
  data_out = 0;
  requests = 0;
  resp_1xx = 0;
  resp_2xx = 0;
  resp_3xx = 0;
  resp_4xx = 0;
  resp_5xx = 0;
  other_errs = 0;
  url_timeout_errs = 0;
  appl_delay_points = 0;
  appl_delay = 0;
  appl_delay_2xx_points = 0;
  appl_delay_2xx = 0;
}

abbrev pub no_op_stat : OpStatPoint
no_op_stat = record {
  url_num = 0;
  url_ok = λ _. 0;
  url_failed = λ _. 0;
  url_timeouted = λ _. 0;
  call_init_count = 0;
}

-- An entry of cctx_array, set by calloc
abbrev pub fresh_client : ClientContext
fresh_client = record {
  tid_sleeping = some 0;
  tid_url_completion = some 0;
  handle = false;
  cycle_num = 0;
  url_curr_index = 0;
  preload_url_curr_index = 0;
  client_state = CState.cstate_init;
  preload_state = CState.cstate_init;
  is_https = false;
  req_sent_timestamp = 0;
  st = no_stat;
  first_hdr_req = 0;
  first_hdr_1xx = 0;
  first_hdr_2xx = 0;
  first_hdr_3xx = 0;
  first_hdr_4xx = 0;
  first_hdr_5xx = 0;
  url_fetch_decision = none;
}

-- The batch context after parsing, as the loader sees it: the fields that the parsers fill, and 0 for
-- the others.
abbrev pub parsed_batch : BatchConfig → BatchContext
parsed_batch bctx = record {
  batch_id = 0;
  client_num_max = bctx.client_num_max;
  client_num_start = bctx.client_num_start;
  clients_rampup_inc = bctx.clients_rampup_inc;
  clients_current_sched_num = 0;
  do_client_num_gradual_increase = false;
  stop_client_num_gradual_increase = false;
  req_rate = bctx.req_rate;
  req_rate_timer_invocation = 0;
  free_clients_count = 0;
  free_clients = λ _. 0;
  active_clients_count = 0;
  sleeping_clients_count = 0;
  cycles_num = bctx.cycles_num;
  cycling_completed = false;
  requests_completed = false;
  run_time = bctx.run_time;
  start_time = 0;
  urls_num = bctx.urls_num;
  url_ctx_array = λ i. url_context (bctx.url_ctx_array i);
  first_cycling_url = 0;
  last_cycling_url = 0;
  ip_shared_num = bctx.ip_shared_num;
  ipv4_shared_index = 0;
  ipv6_shared_index = 0;
  http_delta = no_stat;
  https_delta = no_stat;
  op_delta = no_op_stat;
}

-- The value of type int, where -1 is written as its residue: it is no index of a url.
abbrev pub index_or_minus_one : Option ℕ → ℕ
index_or_minus_one none = 2 ^ 32 - 1
index_or_minus_one (some i) = i

unfoldable pub find_first_cycling_url : (ℕ → UrlConfig) → BatchContext → Option ℕ × BatchContext
unfolding first_from
find_first_cycling_url urls bctx =
    let first_url = first_from urls 0 bctx.urls_num in
    (
      first_url,
      record bctx {
        first_cycling_url = index_or_minus_one first_url;
        cycling_completed = elim first_url [ none ↦ true | some i ↦ bctx.cycling_completed ];
      },
    )

unfoldable pub find_last_cycling_url : (ℕ → UrlConfig) → BatchContext → Option ℕ × BatchContext
unfolding last_below
find_last_cycling_url urls bctx =
    let last_url = last_below urls bctx.urls_num in
    (
      last_url,
      record bctx {
        last_cycling_url = index_or_minus_one last_url;
        cycling_completed = elim last_url [ none ↦ true | some i ↦ bctx.cycling_completed ];
      },
    )

-- The loop that fills the list of free clients from its end: `ix` entries are left.
unfoldable pub fill_free : ℕ → ℕ → (ℕ → ℕ) → ℕ → ℕ
fill_free zero client_num free_clients = free_clients
fill_free (suc ix) client_num free_clients =
    fill_free ix (client_num + 1) (update free_clients ix client_num)

-- The clients below `n` with their arrays of decisions.
unfoldable pub alloc_decisions : Platform → ℕ → ℕ → (ℕ → ClientContext) → Option (ℕ → ClientContext)
alloc_decisions platform urls_num zero clients = some clients
alloc_decisions platform urls_num (suc n) clients =
    elim (alloc_decisions platform urls_num n clients) [
      | none ↦ none
      | some clients' ↦ elim (clients' n).url_fetch_decision [
        | some decisions ↦ some clients'
        | none ↦
            if platform.granted urls_num
            then some
                (update clients' n (record (clients' n) { url_fetch_decision = some (λ _. none) }))
            else none
      ]
    ]

-- The loop over the urls below `k`.
unfoldable pub alloc_client_fetch_decision_array :
    Platform → BatchConfig → ℕ → (ℕ → ClientContext) → Option (ℕ → ClientContext)
unfolding alloc_decisions
alloc_client_fetch_decision_array platform bctx zero clients = some clients
alloc_client_fetch_decision_array platform bctx (suc k) clients =
    let url = bctx.url_ctx_array k in
    elim (alloc_client_fetch_decision_array platform bctx k clients) [
      | none ↦ none
      | some clients' ↦
          if not (url.fetch_probability == 0) && url.fetch_probability_once
          then alloc_decisions platform bctx.urls_num bctx.client_num_max clients'
          else some clients'
    ]

-- The second point of the batch, op_total, is not in its context here; its memory is needed too.
unfoldable pub init_operational_statistics : Platform → BatchContext → Option BatchContext
unfolding op_stat_point_init
init_operational_statistics platform bctx =
    elim (op_stat_point_init platform.granted bctx.op_delta bctx.urls_num) [
      | none ↦ none
      | some op_delta ↦ elim (op_stat_point_init platform.granted no_op_stat bctx.urls_num) [
        | none ↦ none
        | some op_total ↦ some (record bctx { op_delta = op_delta })
      ]
    ]

-- The contexts of the clients are allocated, and the free list where there is a request rate.
unfoldable pub alloc_clients : Platform → BatchContext → Option BatchContext
unfolding fill_free
alloc_clients platform bctx =
    if not (platform.granted (bctx.client_num_max * platform.client_context_size))
    then none
    else if bctx.req_rate == 0
    then some bctx
    else if platform.granted (bctx.client_num_max * 4)
    then some (record bctx {
      free_clients_count = bctx.client_num_max;
      free_clients = fill_free bctx.client_num_max 1 bctx.free_clients;
    })
    else none

-- `files_ready` is whether create_response_logfiles_dirs and alloc_client_formed_buffers succeed, which
-- make directories and buffers for posts.
unfoldable pub post_validate_init :
    Platform → (BatchConfig → Bool) → BatchConfig → Option (BatchContext × (ℕ → ClientContext))
unfolding alloc_clients alloc_client_fetch_decision_array init_operational_statistics
    find_first_cycling_url find_last_cycling_url
post_validate_init platform files_ready bctx = elim (alloc_clients platform (parsed_batch bctx)) [
  | none ↦ none
  | some b1 ↦
      if not (files_ready bctx)
      then none
      else elim (alloc_client_fetch_decision_array platform bctx bctx.urls_num
          (λ _. fresh_client)) [
            | none ↦ none
            | some clients ↦ elim (init_operational_statistics platform b1) [
              | none ↦ none
              | some b2 ↦
                  let b3 = (find_first_cycling_url bctx.url_ctx_array b2).1 in
                  some ((find_last_cycling_url bctx.url_ctx_array b3).1, clients)
            ]
          ]
]
