-- ===== src/Setup/Tracing.antt =====
-- loader.c: client_tracing_function, which curl calls for what it sends and receives.
use curl_loader.Base.{
  ℕ, ◌/◌, Bool, true, ◌&&◌, not, Option, none, some, Run, ok, fault, ◌>>=◌, ltb, leb, ◌==◌,
  if◌then◌else◌,
}
use curl_loader.Statistics.{CState}
use curl_loader.Context.{
  ClientContext, BatchContext, stat_data_out_add, stat_data_in_add, stat_err_inc, stat_req_inc,
  stat_1xx_inc, stat_2xx_inc, stat_3xx_inc, stat_4xx_inc, stat_5xx_inc, stat_appl_delay_add,
  stat_appl_delay_2xx_add,
}
use curl_loader.Context.Counters.{
  first_hdr_req, first_hdr_req_inc, first_hdr_1xx, first_hdr_1xx_inc, first_hdr_2xx,
  first_hdr_2xx_inc, first_hdr_3xx, first_hdr_3xx_inc, first_hdr_4xx, first_hdr_4xx_inc,
  first_hdr_5xx, first_hdr_5xx_inc, first_hdrs_clear_all, first_hdrs_clear_non_req,
  first_hdrs_clear_non_1xx, first_hdrs_clear_non_2xx, first_hdrs_clear_non_3xx,
  first_hdrs_clear_non_4xx, first_hdrs_clear_non_5xx,
}

-- What curl reports, with the response status that it knows at a header.
pub data Info : Type 0 where
  curlinfo_text curlinfo_error curlinfo_header_out curlinfo_data_out : Info
  curlinfo_ssl_data_out curlinfo_data_in curlinfo_ssl_data_in : Info
  curlinfo_header_in : ℕ → Info

-- A client and its batch
abbrev pub Traced : Type 0
Traced = ClientContext × BatchContext

-- A change of the client alone
abbrev pub client_only : (ClientContext → ClientContext) → Traced → Traced
client_only change (cctx, bctx) = (change cctx, bctx)

-- The count of a response, and its delay
abbrev pub delayed : ℕ → Traced → Traced
delayed time_resp (cctx, bctx) = (cctx, stat_appl_delay_add time_resp cctx bctx)

abbrev pub delayed_2xx : ℕ → Traced → Traced
delayed_2xx time_resp (cctx, bctx) =
    (cctx, stat_appl_delay_add time_resp cctx (stat_appl_delay_2xx_add time_resp cctx bctx))

module _ (time_resp : ℕ) where
  unfoldable pub header_1xx : Traced → Traced
  unfolding first_hdr_1xx first_hdr_1xx_inc stat_1xx_inc first_hdrs_clear_non_1xx
  header_1xx (cctx, bctx) = client_only first_hdrs_clear_non_1xx (
      if first_hdr_1xx cctx == 0
      then delayed time_resp (stat_1xx_inc (first_hdr_1xx_inc cctx) bctx)
      else (cctx, bctx))

  unfoldable pub header_2xx : Traced → Traced
  unfolding first_hdr_2xx first_hdr_2xx_inc stat_2xx_inc first_hdrs_clear_non_2xx
  header_2xx (cctx, bctx) = client_only first_hdrs_clear_non_2xx (
      if first_hdr_2xx cctx == 0
      then delayed_2xx time_resp (stat_2xx_inc (first_hdr_2xx_inc cctx) bctx)
      else (cctx, bctx))

  -- The getter of this counter increments it.
  unfoldable pub header_3xx : Traced → Traced
  unfolding first_hdr_3xx first_hdr_3xx_inc stat_3xx_inc first_hdrs_clear_non_3xx
  header_3xx (cctx, bctx) =
      let (count, counted) = first_hdr_3xx cctx in
      client_only first_hdrs_clear_non_3xx (
        if count == 0
        then delayed time_resp (stat_3xx_inc (first_hdr_3xx_inc counted) bctx)
        else (counted, bctx))

  unfoldable pub header_4xx : Traced → Traced
  unfolding first_hdr_4xx first_hdr_4xx_inc stat_4xx_inc first_hdrs_clear_non_4xx
  header_4xx (cctx, bctx) = client_only first_hdrs_clear_non_4xx (
      if first_hdr_4xx cctx == 0
      then delayed time_resp (stat_4xx_inc (first_hdr_4xx_inc cctx) bctx)
      else (cctx, bctx))

  unfoldable pub header_5xx : Traced → Traced
  unfolding first_hdr_5xx first_hdr_5xx_inc stat_5xx_inc first_hdrs_clear_non_5xx
  header_5xx (cctx, bctx) = client_only first_hdrs_clear_non_5xx (
      if first_hdr_5xx cctx == 0
      then delayed time_resp (stat_5xx_inc (first_hdr_5xx_inc cctx) bctx)
      else (cctx, bctx))

  -- The switch on the hundreds of the status
  unfoldable pub count_header : ℕ → Traced → Traced
  unfolding header_1xx header_2xx header_3xx header_4xx header_5xx
  count_header response_module traced =
      if response_module == 1
      then header_1xx traced
      else if response_module == 2
      then header_2xx traced
      else if response_module == 3
      then header_3xx traced
      else if response_module == 4
      then header_4xx traced
      else if response_module == 5
      then header_5xx traced
      else traced

-- Whether a status is an error, by the table of the url or without one. The table has 600 entries, and
-- the status 600 is looked up behind it.
unfoldable pub is_error_status : Option (ℕ → Bool) → ℕ → Run Bool
is_error_status (some resp_status_errors_tbl) response_status =
    if ltb 600 response_status
    then ok true
    else if ltb response_status 600
    then ok (resp_status_errors_tbl response_status)
    else fault
is_error_status none response_status =
    ok (leb 400 response_status && not (response_status == 401) && not (response_status == 407))

abbrev pub set_error : ClientContext → ClientContext
set_error cctx = record cctx { client_state = CState.cstate_error }

-- The argument `resp_status_errors_tbl` is the field of the client's url.
module _ (resp_status_errors_tbl : Option (ℕ → Bool)) (time_resp size : ℕ) where
  unfoldable pub header_in : ℕ → Traced → Run Traced
  unfolding stat_data_in_add count_header is_error_status
  header_in response_status (cctx, bctx) =
      let (cctx', bctx') =
        count_header time_resp (response_status / 100) (stat_data_in_add size cctx bctx) in
      is_error_status resp_status_errors_tbl response_status >>= λ failed.
      ok (if failed then set_error cctx' else cctx', bctx')

  -- The calls that print or look for tokens of responses are left out.
  unfoldable pub client_tracing_function : Info → Traced → Run Traced
  unfolding header_in stat_data_out_add stat_data_in_add stat_err_inc stat_req_inc first_hdr_req
      first_hdr_req_inc first_hdrs_clear_all first_hdrs_clear_non_req
  client_tracing_function curlinfo_text traced = ok traced
  client_tracing_function curlinfo_error (cctx, bctx) =
      ok (client_only first_hdrs_clear_all (stat_err_inc (set_error cctx) bctx))
  client_tracing_function curlinfo_header_out (cctx, bctx) =
      let (cctx', bctx') = stat_data_out_add size cctx bctx in
      ok (
        client_only first_hdrs_clear_non_req (
          if first_hdr_req cctx' == 0
          then stat_req_inc (first_hdr_req_inc cctx') bctx'
          else (cctx', bctx')))
  client_tracing_function curlinfo_data_out (cctx, bctx) =
      ok (client_only first_hdrs_clear_all (stat_data_out_add size cctx bctx))
  client_tracing_function curlinfo_ssl_data_out (cctx, bctx) =
      ok (client_only first_hdrs_clear_all (stat_data_out_add size cctx bctx))
  client_tracing_function (curlinfo_header_in response_status) traced =
      header_in response_status traced
  client_tracing_function curlinfo_data_in (cctx, bctx) =
      ok (client_only first_hdrs_clear_all (stat_data_in_add size cctx bctx))
  client_tracing_function curlinfo_ssl_data_in (cctx, bctx) =
      ok (client_only first_hdrs_clear_all (stat_data_in_add size cctx bctx))
