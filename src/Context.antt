-- ===== src/Context.antt =====
-- client.h, batch.h, url.h: the state of clients and batches that the loader works on; with client.c,
-- batch.c and url.c.
use curl_loader.Base.{
  ℕ, ◌+◌, ◌-◌, ◌*◌, ◌/◌, ◌%◌, ◌^◌, Bool, true, false, not, Option, none, some, ltb, ◌==◌,
  if◌then◌else◌, update, Run, ok, within,
}
use curl_loader.Statistics.{StatPoint, OpStatPoint, CState, wrap}
pub mod Counters
pub mod Shared

pub record UrlContext : Type 0 where
  pub url_use_current : Bool
  pub fresh_connect : Bool
  pub log_resp : Bool
  pub fetch_probability : ℕ
  pub timer_url_completion_lrange : ℕ
  pub timer_url_completion_hrange : ℕ
  pub timer_after_url_sleep_lrange : ℕ
  pub timer_after_url_sleep_hrange : ℕ

-- `tid_url_completion` and `tid_sleeping` are `none` for -1. `url_fetch_decision` is `none` for NULL, and
-- an entry of it `none` for -1. `handle` says whether there is a curl handle.
pub record ClientContext : Type 0 where
  pub tid_sleeping : Option ℕ
  pub tid_url_completion : Option ℕ
  pub handle : Bool
  pub cycle_num : ℕ
  pub url_curr_index : ℕ
  pub preload_url_curr_index : ℕ
  pub client_state : CState
  pub preload_state : CState
  pub is_https : Bool
  pub req_sent_timestamp : ℕ
  pub st : StatPoint
  pub first_hdr_req : ℕ
  pub first_hdr_1xx : ℕ
  pub first_hdr_2xx : ℕ
  pub first_hdr_3xx : ℕ
  pub first_hdr_4xx : ℕ
  pub first_hdr_5xx : ℕ
  pub url_fetch_decision : Option (ℕ → Option Bool)

-- The fields that the functions of this library use. An entry of `free_clients` is the number of a client from 1 on, or 0.
pub record BatchContext : Type 0 where
  pub batch_id : ℕ
  pub client_num_max : ℕ
  pub client_num_start : ℕ
  pub clients_rampup_inc : ℕ
  pub clients_current_sched_num : ℕ
  pub do_client_num_gradual_increase : Bool
  pub stop_client_num_gradual_increase : Bool
  pub req_rate : ℕ
  pub req_rate_timer_invocation : ℕ
  pub free_clients_count : ℕ
  pub free_clients : ℕ → ℕ
  pub active_clients_count : ℕ
  pub sleeping_clients_count : ℕ
  pub cycles_num : ℕ
  pub cycling_completed : Bool
  pub requests_completed : Bool
  pub run_time : ℕ
  pub start_time : ℕ
  pub urls_num : ℕ
  pub url_ctx_array : ℕ → UrlContext
  pub first_cycling_url : ℕ
  pub last_cycling_url : ℕ
  pub ip_shared_num : ℕ
  pub ipv4_shared_index : ℕ
  pub ipv6_shared_index : ℕ
  pub http_delta : StatPoint
  pub https_delta : StatPoint
  pub op_delta : OpStatPoint

-- batch.c
unfoldable pub is_batch_group_leader : BatchContext → Bool
is_batch_group_leader bctx = bctx.batch_id == 0

unfoldable pub next_ipv4_shared_index : BatchContext → ℕ × BatchContext
next_ipv4_shared_index bctx =
    let next = bctx.ipv4_shared_index + 1 in
    (
      bctx.ipv4_shared_index,
      record bctx { ipv4_shared_index = if next == bctx.ip_shared_num then 0 else next },
    )

unfoldable pub next_ipv6_shared_index : BatchContext → ℕ × BatchContext
next_ipv6_shared_index bctx =
    let next = bctx.ipv6_shared_index + 1 in
    (
      bctx.ipv6_shared_index,
      record bctx { ipv6_shared_index = if next == bctx.ip_shared_num then 0 else next },
    )

-- url.c: `scaled hrange` is `(unsigned long) (hrange * get_random ())`.
unfoldable pub current_url_completion_timeout : (ℕ → ℕ) → UrlContext → ℕ
current_url_completion_timeout scaled url =
    if url.timer_url_completion_hrange == 0
    then url.timer_url_completion_lrange
    else wrap (url.timer_url_completion_lrange + scaled url.timer_url_completion_hrange)

unfoldable pub current_url_sleeping_timeout : (ℕ → ℕ) → UrlContext → ℕ
current_url_sleeping_timeout scaled url =
    if url.timer_after_url_sleep_hrange == 0
    then url.timer_after_url_sleep_lrange
    else wrap (url.timer_after_url_sleep_lrange + scaled url.timer_after_url_sleep_hrange)

-- client.c: a change of the client's own counters and of the batch's for its protocol.
abbrev pub count_both :
    (StatPoint → StatPoint) → ClientContext → BatchContext → ClientContext × BatchContext
count_both change cctx bctx = (
  record cctx { st = change cctx.st },
  if cctx.is_https
      then record bctx { https_delta = change bctx.https_delta }
      else record bctx { http_delta = change bctx.http_delta },
)

unfoldable pub stat_data_out_add : ℕ → ClientContext → BatchContext → ClientContext × BatchContext
stat_data_out_add bytes = count_both (λ s. record s { data_out = wrap (s.data_out + bytes) })

unfoldable pub stat_data_in_add : ℕ → ClientContext → BatchContext → ClientContext × BatchContext
stat_data_in_add bytes = count_both (λ s. record s { data_in = wrap (s.data_in + bytes) })

unfoldable pub stat_err_inc : ClientContext → BatchContext → ClientContext × BatchContext
stat_err_inc = count_both (λ s. record s { other_errs = wrap (s.other_errs + 1) })

unfoldable pub stat_url_timeout_err_inc :
    ClientContext → BatchContext → ClientContext × BatchContext
stat_url_timeout_err_inc =
    count_both (λ s. record s { url_timeout_errs = wrap (s.url_timeout_errs + 1) })

unfoldable pub stat_req_inc : ClientContext → BatchContext → ClientContext × BatchContext
stat_req_inc = count_both (λ s. record s { requests = wrap (s.requests + 1) })

unfoldable pub stat_1xx_inc : ClientContext → BatchContext → ClientContext × BatchContext
stat_1xx_inc = count_both (λ s. record s { resp_1xx = wrap (s.resp_1xx + 1) })

unfoldable pub stat_2xx_inc : ClientContext → BatchContext → ClientContext × BatchContext
stat_2xx_inc = count_both (λ s. record s { resp_2xx = wrap (s.resp_2xx + 1) })

unfoldable pub stat_3xx_inc : ClientContext → BatchContext → ClientContext × BatchContext
stat_3xx_inc = count_both (λ s. record s { resp_3xx = wrap (s.resp_3xx + 1) })

unfoldable pub stat_4xx_inc : ClientContext → BatchContext → ClientContext × BatchContext
stat_4xx_inc = count_both (λ s. record s { resp_4xx = wrap (s.resp_4xx + 1) })

unfoldable pub stat_5xx_inc : ClientContext → BatchContext → ClientContext × BatchContext
stat_5xx_inc = count_both (λ s. record s { resp_5xx = wrap (s.resp_5xx + 1) })

-- The average with one more delay. The subtraction comes after the addition, in 64 bits.
abbrev pub averaged : ℕ → ℕ → ℕ → ℕ → ℕ
averaged delay points resp_timestamp sent =
    wrap (wrap (wrap (delay * points) + resp_timestamp) + 2 ^ 64 - sent) / (points + 1)

-- Of the client's own point, nothing is counted.
abbrev pub delta_only : (StatPoint → StatPoint) → ClientContext → BatchContext → BatchContext
delta_only change cctx bctx =
    if cctx.is_https
    then record bctx { https_delta = change bctx.https_delta }
    else record bctx { http_delta = change bctx.http_delta }

unfoldable pub stat_appl_delay_add : ℕ → ClientContext → BatchContext → BatchContext
stat_appl_delay_add resp_timestamp cctx bctx =
    if ltb cctx.req_sent_timestamp resp_timestamp
    then delta_only
        (λ s. record s {
          appl_delay =
              averaged s.appl_delay s.appl_delay_points resp_timestamp cctx.req_sent_timestamp;
          appl_delay_points = s.appl_delay_points + 1;
        })
        cctx bctx
    else bctx

unfoldable pub stat_appl_delay_2xx_add : ℕ → ClientContext → BatchContext → BatchContext
stat_appl_delay_2xx_add resp_timestamp cctx bctx =
    if ltb cctx.req_sent_timestamp resp_timestamp
    then delta_only
        (λ s. record s {
          appl_delay_2xx =
              averaged s.appl_delay_2xx s.appl_delay_2xx_points resp_timestamp
                cctx.req_sent_timestamp;
          appl_delay_2xx_points = s.appl_delay_2xx_points + 1;
        })
        cctx bctx
    else bctx
