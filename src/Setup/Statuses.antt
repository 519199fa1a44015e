-- ===== src/Setup/Statuses.antt =====
-- client_tracing_function: the default table of error statuses against the rule without a table.
use curl_loader.Base.{ℕ, ◌≡◌, ◌≢◌, refl, arith, none, some}
use curl_loader.Config.Statuses.{resp_status_errors_tbl_default}
use curl_loader.Setup.Tracing.{
  Info, curlinfo_header_in, Traced, is_error_status, header_in, client_tracing_function,
}

is_error_status-default :
    (status : ℕ)
    → status ≢ 600
    → is_error_status (some resp_status_errors_tbl_default) status ≡ is_error_status none status
unfolding is_error_status resp_status_errors_tbl_default
is_error_status-default status h = ground arith

-- The information is no header of a response with this status.
abbrev pub IsNotStatus : ℕ → Info → Type 0
IsNotStatus status (curlinfo_header_in response_status) = response_status ≢ status
IsNotStatus status _ = Unit

-- Unless a header of a response with the status 600 comes in, client_tracing_function does the same
-- with the default table of error statuses as without a table.
pub client_tracing_function-default :
    (time_resp size : ℕ) (info : Info) (traced : Traced)
    → IsNotStatus 600 info
    → client_tracing_function (some resp_status_errors_tbl_default) time_resp size info traced
      ≡ client_tracing_function none time_resp size info traced
unfolding client_tracing_function header_in
client_tracing_function-default time_resp size (curlinfo_header_in status) traced h =
    rw (is_error_status-default status h)
client_tracing_function-default time_resp size _ traced h = refl
