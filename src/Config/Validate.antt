-- ===== src/Config/Validate.antt =====
-- parse_conf.c: the checks of a batch after its lines are read.
use curl_loader.Base.{
  ℕ, zero, suc, ◌+◌, ◌-◌, Bool, true, false, ◌&&◌, ◌||◌, not, Option, none, some, List, [], ◌∷◌,
  ltb, leb, ◌==◌, if◌then◌else◌, length,
}
use curl_loader.Config.{
  UrlConfig, BatchConfig, url_appl_http, url_appl_https, ReqType, http_req_type_post, UrlApplType,
}
use curl_loader.Config.Chars.{Text, bytes}
pub mod Areas
pub mod Bounds

-- EXPLORER_USERAGENT_STR
abbrev pub explorer_useragent_str : Text
explorer_useragent_str = bytes "Mozilla/4.0 (compatible; MSIE 6.0; Windows NT 5.0)"

-- `ip_addr_max - ip_addr_min + 1 < client_num_max` on longs, with the minimum on the other side.
abbrev pub too_few_addresses : BatchConfig → Bool
too_few_addresses bctx =
    bctx.ip_shared_num == 0 && ltb (bctx.ip_addr_max + 1) (bctx.client_num_max + bctx.ip_addr_min)

-- The part about addresses: the batch with its shared addresses, or `none` for -1.
unfoldable pub validate_addresses : BatchConfig → Option BatchConfig
validate_addresses bctx =
    let shared = some (record bctx { ip_shared_num = 1 }) in
    if bctx.ipv6
    then (if bctx.ipv6_addr_min == bctx.ipv6_addr_max then shared else some bctx)
    else if not (bctx.ip_addr_min == 0) && bctx.ip_addr_min == bctx.ip_addr_max
    then shared
    else if too_few_addresses bctx
    then none
    else some bctx

-- The part behind it.
unfoldable pub validate_rates : BatchConfig → Option BatchConfig
validate_rates bctx =
    if bctx.cycles_num == 0
    then none
    else if ltb bctx.client_num_max bctx.req_rate
    then none
    else some (record bctx {
      user_agent = elim bctx.user_agent [ [] ↦ explorer_useragent_str | c ∷ agent ↦ c ∷ agent ];
    })

-- The tests for negative numbers are left out: the fields are natural numbers.
unfoldable pub validate_batch_general : BatchConfig → Option BatchConfig
unfolding validate_addresses validate_rates
validate_batch_general bctx =
    if length bctx.batch_name == 0
    then none
    else if ltb bctx.client_num_max 1
    then none
    else if ltb bctx.client_num_max bctx.client_num_start
    then none
    else if length bctx.net_interface == 0
    then none
    else if ltb bctx.cidr_netmask 1 || ltb (if bctx.ipv6 then 128 else 32) bctx.cidr_netmask
    then none
    else elim (validate_addresses bctx) [ none ↦ none | some bctx' ↦ validate_rates bctx' ]

abbrev pub is_some {ℓ} : {A : Type ℓ} → Option A → Bool
is_some none = false
is_some (some a) = true

-- The forms of a url to post to. A request type is always in the range of the enumeration.
unfoldable pub form_fits : UrlConfig → Bool
form_fits url =
    let http : Bool = elim url.url_appl_type [
      | url_appl_http ↦ true
      | url_appl_https ↦ true
      | _ ↦ false
    ] in
    let post : Bool = elim url.req_type [ http_req_type_post ↦ true | _ ↦ false ] in
    not (http && post && is_some url.form_str && url.mpart_form_post)
    && not (is_some url.form_records_file && not (is_some url.form_str))

-- `a != b` on flags
abbrev pub differ : Bool → Bool → Bool
differ true b = not b
differ false b = b

-- The loop over the urls before a url that uses the current one. It compares a flag with itself.
unfoldable pub primary_fits : (ℕ → UrlConfig) → ℕ → Bool
primary_fits urls zero = true
primary_fits urls (suc m) =
    let rest = primary_fits urls m in
    if differ (urls m).url_dont_cycle (urls m).url_dont_cycle
    then false
    else if not (urls m).url_use_current
    then true
    else rest

-- A url of its own has a text, and one that uses the current url is not the first.
unfoldable pub url_fits : (ℕ → UrlConfig) → ℕ → Bool
unfolding form_fits primary_fits
url_fits urls k =
    let url = urls k in
    form_fits url
    && (if url.url_use_current
        then not (k == 0) && primary_fits urls k
        else is_some url.url_str && not (url.url_str_len == 0))

-- noncycling_cycling, cycling_noncycling and prev_url_cycling
pub record Changes : Type 0 where
  pub noncycling_cycling : ℕ
  pub cycling_noncycling : ℕ
  pub prev_url_cycling : Bool

-- The changes with those to the next url counted.
unfoldable pub count_change : Changes → Bool → Changes
count_change c url_dont_cycle =
    if c.prev_url_cycling && url_dont_cycle
    then record c { cycling_noncycling = c.cycling_noncycling + 1; prev_url_cycling = false }
    else if not c.prev_url_cycling && not url_dont_cycle
    then record c { noncycling_cycling = c.noncycling_cycling + 1; prev_url_cycling = true }
    else record c { prev_url_cycling = not url_dont_cycle }

abbrev pub no_changes : Changes
no_changes = record { noncycling_cycling = 0; cycling_noncycling = 0; prev_url_cycling = false }

-- At the first url, nothing is counted.
unfoldable pub after_url : ℕ → Changes → Bool → Changes
unfolding count_change
after_url zero c url_dont_cycle = record c { prev_url_cycling = not url_dont_cycle }
after_url (suc k) c url_dont_cycle = count_change c url_dont_cycle

-- The loop over the urls below `k`, or `none` for -1.
unfoldable pub scan_urls : (ℕ → UrlConfig) → ℕ → Option Changes
unfolding url_fits after_url
scan_urls urls zero = some no_changes
scan_urls urls (suc k) = elim (scan_urls urls k) [
  | none ↦ none
  | some c ↦ if not (url_fits urls k) then none else some (after_url k c (urls k).url_dont_cycle)
]

-- `true` is the result 0.
unfoldable pub validate_batch_url : BatchConfig → Bool
unfolding scan_urls
validate_batch_url bctx =
    if bctx.urls_num == 0 then false else elim (scan_urls bctx.url_ctx_array bctx.urls_num) [
      | none ↦ false
      | some c ↦ not (ltb 1 c.cycling_noncycling || ltb 1 c.noncycling_cycling)
    ]

unfoldable pub validate_batch : BatchConfig → Option BatchConfig
unfolding validate_batch_general validate_batch_url
validate_batch bctx = elim (validate_batch_general bctx) [
  | none ↦ none
  | some bctx' ↦ if validate_batch_url bctx' then some bctx' else none
]
