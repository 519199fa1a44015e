-- ===== src/Statistics/Snapshot/Counters.antt =====
-- The counters of stat_point that are sums, and what the batches have counted since a snapshot.
use curl_loader.Base.{ℕ, zero, suc, ◌+◌, ◌≡◌, refl}
use curl_loader.Statistics.{StatPoint, wrap, stat_point_add, stat_point_reset}
use curl_loader.Statistics.Snapshot.{BatchStatistics, BatchArray}

-- The counters of a point that are sums.
pub data Counter : Type 0 where
  data_in data_out requests resp_1xx resp_2xx resp_3xx resp_4xx resp_5xx : Counter
  other_errs url_timeout_errs : Counter

unfoldable pub read : Counter → StatPoint → ℕ
read data_in p = p.data_in
read data_out p = p.data_out
read requests p = p.requests
read resp_1xx p = p.resp_1xx
read resp_2xx p = p.resp_2xx
read resp_3xx p = p.resp_3xx
read resp_4xx p = p.resp_4xx
read resp_5xx p = p.resp_5xx
read other_errs p = p.other_errs
read url_timeout_errs p = p.url_timeout_errs

-- Without and with encryption
pub data Scheme : Type 0 where
  http https : Scheme

abbrev pub delta : Scheme → BatchStatistics → StatPoint
delta http b = b.http_delta
delta https b = b.https_delta

abbrev pub total : Scheme → BatchStatistics → StatPoint
total http b = b.http_total
total https b = b.https_total

pub read-add :
    (c : Counter) (l r : StatPoint) → read c (stat_point_add l r) ≡ wrap (read c l + read c r)
unfolding read stat_point_add
read-add data_in l r = refl
read-add data_out l r = refl
read-add requests l r = refl
read-add resp_1xx l r = refl
read-add resp_2xx l r = refl
read-add resp_3xx l r = refl
read-add resp_4xx l r = refl
read-add resp_5xx l r = refl
read-add other_errs l r = refl
read-add url_timeout_errs l r = refl

pub read-reset : (c : Counter) (p : StatPoint) → read c (stat_point_reset p) ≡ 0
unfolding read stat_point_reset
read-reset data_in p = refl
read-reset data_out p = refl
read-reset requests p = refl
read-reset resp_1xx p = refl
read-reset resp_2xx p = refl
read-reset resp_3xx p = refl
read-reset resp_4xx p = refl
read-reset resp_5xx p = refl
read-reset other_errs p = refl
read-reset url_timeout_errs p = refl

-- The counts since the last snapshot of the batches up to `n`.
unfoldable pub counted : Scheme → Counter → BatchArray → ℕ → ℕ
unfolding read
counted s c bctx zero = read c (delta s (bctx 0))
counted s c bctx (suc n) = counted s c bctx n + read c (delta s (bctx (suc n)))
