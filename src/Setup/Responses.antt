-- ===== src/Setup/Responses.antt =====
-- client_tracing_function: the headers of one response count as one response.
use curl_loader.Base.{
  ℕ, ◌+◌, ◌/◌, ◌<◌, ◌≡◌, refl, Bool, true, false, arith, Option, none, some, List, [], ◌∷◌, Run, ok,
  ◌>>=◌, ltb, ◌==◌, if◌then◌else◌, Yields, yields, Yields-bind,
}
use curl_loader.Statistics.{wrap}
use curl_loader.Context.{ClientContext, BatchContext, stat_data_in_add}
use curl_loader.Setup.Tracing.{
  curlinfo_header_in, Traced, header_2xx, count_header, set_error, is_error_status, header_in,
  client_tracing_function,
}

-- The response has been counted, and its headers go on.
abbrev pub IsCounted : ℕ → Traced → Type 0
IsCounted count (cctx, bctx) = (0 < cctx.first_hdr_2xx) × (cctx.st.resp_2xx ≡ count)

first_header :
    (time_resp : ℕ) (cctx : ClientContext) (bctx : BatchContext)
    → cctx.first_hdr_2xx ≡ 0
    → IsCounted (wrap (cctx.st.resp_2xx + 1)) (header_2xx time_resp (cctx, bctx))
unfolding header_2xx
first_header time_resp cctx bctx e = rw e (omega arith, refl)

later_header :
    (time_resp count : ℕ) (cctx : ClientContext) (bctx : BatchContext)
    → IsCounted count (cctx, bctx)
    → IsCounted count (header_2xx time_resp (cctx, bctx))
unfolding header_2xx
later_header time_resp count cctx bctx (k, c) =
    let again : (cctx.first_hdr_2xx == 0) ≡ false = ground arith in rw again (k, c)

-- A status below 600 is in the table.
is_error_status-Yields :
    (tbl : Option (ℕ → Bool)) (status : ℕ)
    → status < 600
    → Yields (λ _. Unit {0}) (is_error_status tbl status)
unfolding is_error_status
is_error_status-Yields none status p = yields tt
is_error_status-Yields (some tbl) status p =
    let inside : ltb 600 status ≡ false = ground arith in
    let within : ltb status 600 ≡ true = ground arith in rw inside (rw within (yields tt))

with_error :
    (count : ℕ) (failed : Bool) (cctx : ClientContext) (bctx : BatchContext)
    → IsCounted count (cctx, bctx)
    → IsCounted count (if failed then set_error cctx else cctx, bctx)
with_error count true cctx bctx h = h
with_error count false cctx bctx h = h

module _ (tbl : Option (ℕ → Bool)) (status : ℕ) where
  -- The calls for the headers of a response, one after the other, each at its own time and of its own size
  abbrev pub headers_in : List (ℕ × ℕ) → Traced → Run Traced
  headers_in [] traced = ok traced
  headers_in ((time_resp, size) ∷ headers) traced =
      client_tracing_function tbl time_resp size (curlinfo_header_in status) traced
      >>= headers_in headers

module _ (tbl : Option (ℕ → Bool)) (status : ℕ) (two : status / 100 ≡ 2) where
  header_in-IsCounted :
      (time_resp size count : ℕ) (traced : Traced)
      → IsCounted count (header_2xx time_resp (stat_data_in_add size traced.0 traced.1))
      → Yields (IsCounted count) (header_in tbl time_resp size status traced)
  unfolding header_in count_header
  header_in-IsCounted time_resp size count (cctx, bctx) h =
      let (cctx', bctx') = header_2xx time_resp (stat_data_in_add size cctx bctx) in
      rw two (
        Yields-bind (is_error_status-Yields tbl status (grind arith))
          λ failed _. yields (with_error count failed cctx' bctx' h))

  later_headers :
      (headers : List (ℕ × ℕ)) (count : ℕ) (traced : Traced)
      → IsCounted count traced
      → Yields (IsCounted count) (headers_in tbl status headers traced)
  unfolding client_tracing_function stat_data_in_add
  later_headers [] count traced h = yields h
  later_headers ((time_resp, size) ∷ headers) count (cctx, bctx) h =
      Yields-bind
        (header_in-IsCounted time_resp size count (cctx, bctx) (later_header time_resp count _ _ h))
        λ traced' h'. later_headers headers count traced' h'

  -- For a client with no counted header of a 2xx response, the calls of client_tracing_function for
  -- one or more headers of a response with a status from 200 to 299, each at its own time and of
  -- its own size, end, whatever the table of errors is, and increment the number of 2xx responses
  -- of the client by one, modulo 2^64.
  pub headers_in-IsCounted :
      (time_resp size : ℕ) (headers : List (ℕ × ℕ)) (cctx : ClientContext) (bctx : BatchContext)
      → cctx.first_hdr_2xx ≡ 0
      → Yields
          (IsCounted (wrap (cctx.st.resp_2xx + 1)))
          (headers_in tbl status ((time_resp, size) ∷ headers) (cctx, bctx))
  unfolding client_tracing_function stat_data_in_add
  headers_in-IsCounted time_resp size headers cctx bctx e =
      Yields-bind
        (header_in-IsCounted time_resp size (wrap (cctx.st.resp_2xx + 1)) (cctx, bctx)
          (first_header time_resp _ _ e))
        λ traced' h'. later_headers headers _ traced' h'
