-- ===== src/Config/Statuses.antt =====
-- parse_conf.c: the table of response statuses that count as errors.
use curl_loader.Base.{
  ℕ, Bool, true, false, ◌&&◌, not, Option, none, some, List, [], ◌∷◌, Run, ok, fault, ◌>>=◌, ltb,
  leb, ◌==◌, if◌then◌else◌, update,
}
use curl_loader.Config.{UrlConfig, BatchConfig}
use curl_loader.Config.Chars.{Text, ℤ, pos, negsuc, atol, strtok}
use curl_loader.Config.Parsing.{Platform, Parsed, accept, reject, with_url, put_url}

abbrev pub url_response_status_errors_table_size : ℕ
url_response_status_errors_table_size = 600

-- resp_status_errors_tbl_default, as set_default_response_errors_table leaves it.
unfoldable pub resp_status_errors_tbl_default : ℕ → Bool
resp_status_errors_tbl_default status =
    leb 400 status
    && ltb status url_response_status_errors_table_size
    && not (status == 401)
    && not (status == 407)

abbrev pub Table : Type 0
Table = ℕ → Bool

-- The status of a token, whose sign says whether it is an error.
unfoldable pub set_status : Table → Bool → ℤ → Run (Option Table)
set_status tbl error (negsuc n) = ok none
set_status tbl error (pos status) =
    if ltb url_response_status_errors_table_size status
    then ok none
    else if ltb status url_response_status_errors_table_size
    then ok (some (update tbl status error))
    else fault

-- A token of two bytes or more with a sign in front
unfoldable pub set_token : Table → Text → Run (Option Table)
unfolding set_status
set_token tbl [] = ok none
set_token tbl (sign ∷ []) = ok none
set_token tbl (sign ∷ c ∷ number) =
    if sign == b'+'
    then set_status tbl true (atol (c ∷ number))
    else if sign == b'-'
    then set_status tbl false (atol (c ∷ number))
    else ok none

-- The loop over the tokens.
unfoldable pub set_tokens : Table → List Text → Run (Option Table)
unfolding set_token
set_tokens tbl [] = ok (some tbl)
set_tokens tbl (token ∷ tokens) =
    set_token tbl token >>= λ set. elim set [ none ↦ ok none | some tbl' ↦ set_tokens tbl' tokens ]

abbrev pub set_table : Platform → BatchConfig → Text → ℕ → UrlConfig → Parsed
set_table platform bctx value i url =
    if not (platform.granted url_response_status_errors_table_size)
    then reject
    else set_tokens resp_status_errors_tbl_default (strtok b',' value) >>= λ set. elim set [
      | none ↦ reject
      | some tbl ↦ accept (put_url bctx i (record url { resp_status_errors_tbl = some tbl }))
    ]

unfoldable pub response_status_errors_parser : Platform → BatchConfig → Text → Parsed
unfolding set_tokens
response_status_errors_parser platform bctx value = with_url bctx (set_table platform bctx value)
