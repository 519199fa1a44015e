-- ===== src/Context/Counters.antt =====
-- client.c: the flags-counters of the headers of a client.
use curl_loader.Base.{ℕ, ◌+◌}
use curl_loader.Context.{ClientContext}

unfoldable pub first_hdr_req : ClientContext → ℕ
first_hdr_req cctx = cctx.first_hdr_req

unfoldable pub first_hdr_req_inc : ClientContext → ClientContext
first_hdr_req_inc cctx = record cctx { first_hdr_req = cctx.first_hdr_req + 1 }

unfoldable pub first_hdr_1xx : ClientContext → ℕ
first_hdr_1xx cctx = cctx.first_hdr_1xx

unfoldable pub first_hdr_1xx_inc : ClientContext → ClientContext
first_hdr_1xx_inc cctx = record cctx { first_hdr_1xx = cctx.first_hdr_1xx + 1 }

unfoldable pub first_hdr_2xx : ClientContext → ℕ
first_hdr_2xx cctx = cctx.first_hdr_2xx

unfoldable pub first_hdr_2xx_inc : ClientContext → ClientContext
first_hdr_2xx_inc cctx = record cctx { first_hdr_2xx = cctx.first_hdr_2xx + 1 }

-- The getter increments the counter.
unfoldable pub first_hdr_3xx : ClientContext → ℕ × ClientContext
first_hdr_3xx cctx = (cctx.first_hdr_3xx, record cctx { first_hdr_3xx = cctx.first_hdr_3xx + 1 })

unfoldable pub first_hdr_3xx_inc : ClientContext → ClientContext
first_hdr_3xx_inc cctx = record cctx { first_hdr_3xx = cctx.first_hdr_3xx + 1 }

unfoldable pub first_hdr_4xx : ClientContext → ℕ
first_hdr_4xx cctx = cctx.first_hdr_4xx

unfoldable pub first_hdr_4xx_inc : ClientContext → ClientContext
first_hdr_4xx_inc cctx = record cctx { first_hdr_4xx = cctx.first_hdr_4xx + 1 }

unfoldable pub first_hdr_5xx : ClientContext → ℕ
first_hdr_5xx cctx = cctx.first_hdr_5xx

unfoldable pub first_hdr_5xx_inc : ClientContext → ClientContext
first_hdr_5xx_inc cctx = record cctx { first_hdr_5xx = cctx.first_hdr_5xx + 1 }

unfoldable pub first_hdrs_clear_all : ClientContext → ClientContext
first_hdrs_clear_all cctx = record cctx {
  first_hdr_req = 0;
  first_hdr_1xx = 0;
  first_hdr_2xx = 0;
  first_hdr_3xx = 0;
  first_hdr_4xx = 0;
  first_hdr_5xx = 0;
}

unfoldable pub first_hdrs_clear_non_req : ClientContext → ClientContext
first_hdrs_clear_non_req cctx = record cctx {
  first_hdr_1xx = 0;
  first_hdr_2xx = 0;
  first_hdr_3xx = 0;
  first_hdr_4xx = 0;
  first_hdr_5xx = 0;
}

unfoldable pub first_hdrs_clear_non_1xx : ClientContext → ClientContext
first_hdrs_clear_non_1xx cctx = record cctx {
  first_hdr_req = 0;
  first_hdr_2xx = 0;
  first_hdr_3xx = 0;
  first_hdr_4xx = 0;
  first_hdr_5xx = 0;
}

unfoldable pub first_hdrs_clear_non_2xx : ClientContext → ClientContext
first_hdrs_clear_non_2xx cctx = record cctx {
  first_hdr_req = 0;
  first_hdr_1xx = 0;
  first_hdr_3xx = 0;
  first_hdr_4xx = 0;
  first_hdr_5xx = 0;
}

unfoldable pub first_hdrs_clear_non_3xx : ClientContext → ClientContext
first_hdrs_clear_non_3xx cctx = record cctx {
  first_hdr_req = 0;
  first_hdr_1xx = 0;
  first_hdr_2xx = 0;
  first_hdr_4xx = 0;
  first_hdr_5xx = 0;
}

unfoldable pub first_hdrs_clear_non_4xx : ClientContext → ClientContext
first_hdrs_clear_non_4xx cctx = record cctx {
  first_hdr_req = 0;
  first_hdr_1xx = 0;
  first_hdr_2xx = 0;
  first_hdr_3xx = 0;
  first_hdr_5xx = 0;
}

unfoldable pub first_hdrs_clear_non_5xx : ClientContext → ClientContext
first_hdrs_clear_non_5xx cctx = record cctx {
  first_hdr_req = 0;
  first_hdr_1xx = 0;
  first_hdr_2xx = 0;
  first_hdr_3xx = 0;
  first_hdr_4xx = 0;
}
